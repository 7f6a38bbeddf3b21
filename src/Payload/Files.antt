-- ===== src/Payload/Files.antt =====
-- components/server/run.go: a VM's directory, its key pair, and what is printed of it.
use corectl.Base.{
  ℕ, ◌+◌, Bool, true, false, ◌&&◌, Option, none, List, [], ◌∷◌, ◌++◌, Text, codes, ◌=t◌, map,
  length, ltb, ◌==◌, trim_suffix, if◌then◌else◌, Result, ok, ◌>>=◌,
}
use corectl.Daemon.{Error}
use corectl.Payload.{decimal, show_int}
use corectl.Vm.{Vm, StorageDevice, StorageAssets, Kind, unset, raw, qcow2, tap}

-- `MkRunDir`, given whether the directory is there and what `os.MkdirAll` answers: whether it makes
-- one, and its error.
unfoldable pub mk_run_dir : Bool → Option Error → Bool × Option Error
mk_run_dir true answer = (false, none)
mk_run_dir false answer = (true, answer)

-- `SSHkeyGen`, given the private key as PEM and the public key as a line of authorized_keys.
unfoldable pub ssh_key_gen : Result Error Text → Result Error Text → Vm → Result Error Vm
ssh_key_gen secret public vm = secret >>= λ (s : Text). public >>= λ (p : Text).
    ok (record vm { internal_ssh_private = s; internal_ssh_key = trim_suffix 10 p })

abbrev pub is_qcow2 : Kind → Bool
is_qcow2 unset = false
is_qcow2 raw = false
is_qcow2 qcow2 = true
is_qcow2 tap = false

-- The lines of `StorageAssets.PrettyPrint`, in the order of the lists. The letter of a drive is
-- `string(i+'a')`.
unfoldable pub cd_line : ℕ × StorageDevice → Text
cd_line (i, d) = codes "   /dev/cdrom" ++ (decimal i ++ (9 ∷ d.path))

unfoldable pub drive_line : Bool → ℕ × StorageDevice → Text
drive_line root (i, d) =
    (if root && (i == 0) then codes "   /,/dev/vd" else codes "   /dev/vd")
    ++ ((i + b'a') ∷ 9 ∷ d.path
        ++ (codes ",format=" ++ (if is_qcow2 d.format then codes "qcow2" else codes "raw")))

unfoldable pub print_storage : Bool → StorageAssets → List Text
unfolding cd_line drive_line
print_storage root s =
    if ltb 0 (length s.cd_drives + length s.hard_drives)
    then codes "  Volumes:" ∷ map cd_line s.cd_drives ++ map (drive_line root) s.hard_drives
    else []

abbrev pub show_bool : Bool → Text
show_bool true = codes "true"
show_bool false = codes "false"

-- The lines of `VMInfo.PrettyPrint`; `uptime` is what the library makes of the creation time.
unfoldable pub print_vm : Text → Vm → List Text
unfolding print_storage show_int
print_vm uptime vm =
    []
      ∷ (codes " UUID:\t\t" ++ vm.uuid)
      ∷ (codes "  Name:\t\t" ++ vm.name)
      ∷ (codes "  Version:\t" ++ vm.version)
      ∷ (codes "  Channel:\t" ++ vm.channel)
      ∷ (codes "  vCPUs:\t" ++ show_int vm.cpus)
      ∷ (codes "  Memory (MB):\t" ++ show_int vm.memory)
      ∷ (codes "  Pid:\t\t" ++ show_int vm.pid)
      ∷ (codes "  Uptime:\t" ++ uptime)
      ∷ (codes "  Sees World:\t" ++ show_bool vm.not_isolated)
      ∷ (if vm.cloud_config =t [] then [] else (codes "  cloud-config:\t" ++ vm.cloud_config) ∷ [])
    ++ (codes "  Network:"
        ∷ (codes "    eth0:\t" ++ vm.public_ip)
        ∷ print_storage vm.persistent_root vm.storage)
