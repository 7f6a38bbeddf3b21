-- ===== src/Session.antt =====
-- components/host/session/session.go: the network, the directories and their layout on disk.
pub mod Address
pub mod Layout
pub mod Walk
use Prim.Native.Nat.{bit_and}
use mathlib.Core.List.{reverse}
use corectl.Base.{
  ℕ, zero, suc, Bool, true, false, ◌&&◌, ◌||◌, not, Option, none, some, List, [], ◌∷◌, ◌++◌, Text,
  codes, ◌=t◌, has_prefix, split, join, map, any, ◌==◌, leb, if◌then◌else◌, Result, ok, err,
}
use corectl.Coreos.{channels}
use corectl.Daemon.{Error}
use corectl.Http.{Ip, parse_ip, Network}
use corectl.Payload.{decimal}

-- strings.TrimSpace on ASCII text
unfoldable pub is_blank : ℕ → Bool
is_blank c = (c == 32) || (leb 9 c && leb c 13)

unfoldable pub trim_left : Text → Text
unfolding is_blank
trim_left [] = []
trim_left (c ∷ s) = if is_blank c then trim_left s else c ∷ s

unfoldable pub trim_space : Text → Text
unfolding trim_left
trim_space s = reverse (trim_left (reverse (trim_left s)))

abbrev pub or_default : Result Error Text → Text → Text
or_default (ok t) d = t
or_default (err e) d = d

-- `SetContext`, given what `defaults read` prints for the address and for the mask; it never fails.
unfoldable pub set_context : Result Error Text → Result Error Text → Network
unfolding trim_space
set_context address mask = record {
  address = trim_space (or_default address (codes "192.168.64.1"));
  mask = trim_space (or_default mask (codes "255.255.255.0"));
}

-- net.IP.Mask and its print; nil prints as `<nil>`.
unfoldable pub mask_ip : Ip → Ip → Ip
mask_ip x m = record {
  a = bit_and x.a m.a;
  b = bit_and x.b m.b;
  c = bit_and x.c m.c;
  d = bit_and x.d m.d;
}

unfoldable pub show_ip : Ip → Text
show_ip x = join (decimal x.a ∷ decimal x.b ∷ decimal x.c ∷ decimal x.d ∷ []) (codes ".")

unfoldable pub show_masked : Option Ip → Option Ip → Text
unfolding mask_ip show_ip
show_masked none m = codes "<nil>"
show_masked (some x) none = codes "<nil>"
show_masked (some x) (some m) = show_ip (mask_ip x m)

-- `Network.Base`
unfoldable pub base : Network → Text
unfolding show_masked
base n = show_masked (parse_ip n.address) (parse_ip n.mask)

-- The directories, for a home directory that is a clean path.
unfoldable pub config_dir : Text → Text
config_dir home = home ++ codes "/.coreos"

unfoldable pub image_store : Text → Text
unfolding config_dir
image_store home = config_dir home ++ codes "/images"

unfoldable pub run_dir : Text → Text
unfolding config_dir
run_dir home = config_dir home ++ codes "/running"

unfoldable pub tmp_dir : Text → Text
unfolding config_dir
tmp_dir home = config_dir home ++ codes "/tmp"

unfoldable pub etc_dir : Text → Text
unfolding config_dir
etc_dir home = config_dir home ++ codes "/embedded.etcd"

-- What is on disk under a path: its permissions and its owner.
pub record Entry : Type 0 where
  pub path : Text
  pub mode : ℕ
  pub uid : ℕ
  pub gid : ℕ

-- The caller: whether it is root, and the numbers of the user that the files are for. The entries
-- that a call makes get the numbers of the process.
pub record Caller : Type 0 where
  pub privileged : Bool
  pub home : Text
  pub uid : ℕ
  pub gid : ℕ
  pub process_uid : ℕ
  pub process_gid : ℕ

-- What the disk answers.
pub record Answers : Type 0 where
  pub mkdir : Text → Option Error
  pub remove : Text → Option Error
  pub chmod : Text → Option Error
  pub chown : Text → Option Error

-- `0755`
abbrev pub mode_755 : ℕ
mode_755 = 493

unfoldable pub exists : Text → List Entry → Bool
exists p es = any (λ (e : Entry). e.path =t p) es

-- `os.MkdirAll`: the directory itself, below directories that are there or are made likewise.
unfoldable pub make_dir : Caller → Text → List Entry → List Entry
unfolding exists
make_dir c p es =
    if exists p es
    then es
    else es ++ (record { path = p; mode = mode_755; uid = c.process_uid; gid = c.process_gid } ∷ [])

-- The two loops of `NormalizeOnDiskLayout` over directories, up to the first error.
abbrev pub unless_failed :
    Option Error → List Entry → List Entry × Option Error → List Entry × Option Error
unless_failed none es later = later
unless_failed (some e) es later = (es, some e)

unfoldable pub make_dirs : Caller → Answers → List Text → List Entry → List Entry × Option Error
unfolding make_dir
make_dirs c w [] es = (es, none)
make_dirs c w (p ∷ ps) es = unless_failed (w.mkdir p) es (make_dirs c w ps (make_dir c p es))

unfoldable pub layout : Text → List Text
unfolding image_store run_dir tmp_dir etc_dir
layout home =
    map (λ (i : Text). image_store home ++ (b'/' ∷ i)) channels
    ++ (run_dir home ∷ tmp_dir home ∷ etc_dir home ∷ [])

-- path.Base of a path with no slash at its end
base_after : Text → Text → Text
base_after out [] = out
base_after out (c ∷ s) = base_after (if c == b'/' then s else out) s

unfoldable pub base_name : Text → Text
unfolding base_after
base_name p = base_after p p

-- The function `do`: whether the entry stays, and how.
abbrev pub try : Option Error → Result Error (Option Entry) → Result Error (Option Entry)
try none r = r
try (some e) r = err e

unfoldable pub fix_entry : Caller → Answers → Entry → Result Error (Option Entry)
unfolding base_name
fix_entry c w e =
    if base_name e.path =t codes "tty"
    then try (w.remove e.path) (ok none)
    else try (w.chmod e.path)
        (try (w.chown e.path) (ok (some (record e { mode = mode_755; uid = c.uid; gid = c.gid }))))

-- Whether `filepath.Walk` of a directory comes to the path.
unfoldable pub is_below : Text → Text → Bool
is_below dir p = (p =t dir) || has_prefix p (dir ++ codes "/")

abbrev pub keep_entry : Option Entry → List Entry → List Entry
keep_entry none es = es
keep_entry (some e) es = e ∷ es

-- A step of the walk, given the rest of the disk and what the walk makes of it.
unfoldable pub after_fix :
    Entry
    → List Entry
    → List Entry × Option Error
    → Result Error (Option Entry)
    → List Entry × Option Error
after_fix e es later (err x) = (e ∷ es, some x)
after_fix e es later (ok o) = (keep_entry o later.0, later.1)

-- `filepath.Walk`, up to the first error. The list of the entries is in the order of the walk.
unfoldable pub walk : Caller → Answers → List Entry → List Entry × Option Error
unfolding after_fix fix_entry is_below
walk c w [] = ([], none)
walk c w (e ∷ es) =
    let later = walk c w es in
    if is_below (config_dir c.home) e.path
    then after_fix e es later (fix_entry c w e)
    else (e ∷ later.0, later.1)

-- `NormalizeOnDiskLayout`
abbrev pub and_walk : Caller → Answers → List Entry × Option Error → List Entry × Option Error
and_walk c w (es, some e) = (es, some e)
and_walk c w (es, none) = if c.privileged then walk c w es else (es, none)

unfoldable pub normalize : Caller → Answers → List Entry → List Entry × Option Error
unfolding make_dirs layout walk
normalize c w es = and_walk c w (make_dirs c w (layout c.home) es)
