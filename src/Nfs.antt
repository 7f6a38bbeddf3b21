-- ===== src/Nfs.antt =====
-- components/server/nfs.go: the export of the home directory to the VMs' network. The file is
-- /etc/exports; `none` stands for no file.
pub mod Again
use corectl.Base.{
  ℕ, Bool, true, false, not, ◌&&◌, ◌||◌, Option, none, some, List, [], ◌∷◌, ◌++◌, map, any, Text,
  codes, has_prefix, split, if◌then◌else◌,
}
use corectl.Daemon.{Error, os_error}

-- The host: the home directory, the VMs' network and its mask; whether the file can be read and
-- written, and what `nfsd checkexports`, `nfsd update` and `nfsd start` answer; whether nfsd runs.
pub record NfsHost : Type 0 where
  pub home : Text
  pub base : Text
  pub mask : Text
  pub readable : Bool
  pub writable : Bool
  pub checks : Text → Bool
  pub is_running : Bool
  pub updates : Bool
  pub starts : Bool

unfoldable pub old_signature_a : Text
old_signature_a = codes "/Users -network 192.168.64.0 -mask 255.255.255.0 -alldirs -mapall="

abbrev pub shared_with : NfsHost → Text → Text
shared_with h options =
    h.home
    ++ (codes " -network "
        ++ (h.base ++ (codes " -mask " ++ (h.mask ++ (codes " -alldirs " ++ options)))))

unfoldable pub old_signature_b : NfsHost → Text
old_signature_b h = shared_with h (codes "-mapall=")

unfoldable pub signature : NfsHost → Text
signature h = shared_with h (codes "-maproot=root:wheel")

-- A line of the new file: one of an earlier release becomes empty.
unfoldable pub new_line : NfsHost → Text → Text
unfolding old_signature_a old_signature_b
new_line h line =
    if not (has_prefix line old_signature_a) && not (has_prefix line (old_signature_b h))
    then line
    else []

unfoldable pub new_lines : NfsHost → List Text → Text
unfolding new_line
new_lines h [] = []
new_lines h (line ∷ lines) = new_line h line ++ b'\n' ∷ new_lines h lines

-- What `exportSet` returns, and the contents that are written if it is not set.
unfoldable pub is_set : NfsHost → Text → Bool
is_set h buf = any (λ line. has_prefix line (signature h)) (split buf b'\n')

unfoldable pub rewritten : NfsHost → Text → Text
unfolding new_lines
rewritten h buf = new_lines h (split buf b'\n') ++ (signature h ++ b'\n' ∷ [])

-- The service is told, or started.
unfoldable pub serves : NfsHost → Bool → Bool
serves h shared = if h.is_running then shared || h.updates else h.starts

-- From the reading of the file on. If the check fails, the contents are put back.
unfoldable pub set_up : NfsHost → Text → Text × Option Error
unfolding serves
set_up h buf =
    let shared = is_set h buf in
    let now = if shared then buf else rewritten h buf in
    if not h.readable || (not shared && not h.writable) || not (h.checks now)
    then (buf, some os_error)
    else if serves h shared
    then (now, none)
    else (now, some os_error)

-- `nfsSetup`
unfoldable pub nfs_setup : NfsHost → Option Text → Option Text × Option Error
unfolding set_up
nfs_setup h (some buf) = let r = set_up h buf in (some r.0, r.1)
nfs_setup h none =
    let r = set_up h [] in if h.writable then (some r.0, r.1) else (none, some os_error)
