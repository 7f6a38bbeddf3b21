-- ===== src/Bootstrap.antt =====
-- cmd/run.go: `vmBootstrap`, which makes a VM out of the command line. It asks the server and the
-- system in a fixed order; the first error ends it, and its callers then drop the VM.
pub mod Frame
pub mod Sound
pub mod Made
use corectl.Base.{
  ℕ, ◌+◌, ◌*◌, ◌/◌, Bool, true, false, not, ◌&&◌, ◌||◌, Option, none, some, List, [], ◌∷◌, ◌++◌,
  Text, codes, ◌=t◌, to_lower, to_upper, if◌then◌else◌, Result, ok, err, ◌>>=◌, ℤ, pos, negsuc,
  ◌+ℤ◌, ltb_ℕ, gtb_ℕ, to_u64, ltb,
}
use corectl.Cli.{slices}
use corectl.Coreos.{Semver, channel, version}
use corectl.Daemon.{Error, root_unset, too_much_memory, other, server_unreachable}
use corectl.Images.Fetch.{Pull}
use corectl.Storage.{Files, validate_cdrom, validate_volumes, validate_cloud_config}
use corectl.Vm.{Vm, Kind, raw}
use corectl.Vm

-- The flags of `run`.
pub record Flags : Type 0 where
  pub offline : Bool
  pub cpus : ℤ
  pub extra : Text
  pub boot : Text
  pub sshkey : Text
  pub name : Text
  pub uuid : Text
  pub memory : ℤ
  pub shared_homedir : Bool
  pub channel : Text
  pub version : Text
  pub format_root : Bool
  pub root : Text
  pub volumes : List Text
  pub cloud_config : Text

-- What the server, the system and the libraries answer, each the same whenever it is asked: the services `ActiveVMs`, `UUIDtoMACaddr`
-- and `HandlesNFS`, the size of the memory in bytes, a fresh UUID and the test for one,
-- `PullImage`, the files, and a new pair of keys.
pub record World : Type 0 where
  pub active_vms : Result Error (List Vm)
  pub mem_size : Result Error ℕ
  pub new_uuid : Text
  pub is_uuid : Text → Bool
  pub to_mac : Text → Text → Result Error (Text × Text)
  pub handles_nfs : Result Error Bool
  pub pull : Text → Text → Bool → Pull
  pub files : Files
  pub keys : Result Error (Text × Text)

-- The fields that are read off the flags.
unfoldable pub from_flags : Flags → Vm
from_flags f = record (Vm.new) {
  offline_mode = f.offline;
  cpus = f.cpus;
  add_to_hypervisor = f.extra;
  add_to_kernel = f.boot;
  ssh_key = f.sshkey;
  pid = negsuc 0;
  name = to_lower f.name;
  uuid = f.uuid;
}

unfoldable pub clamp_memory : ℤ → ℤ
clamp_memory m = if ltb_ℕ m 1024 then pos 1024 else if gtb_ℕ m 8192 then pos 8192 else m

unfoldable pub total_memory : ℤ → List Vm → ℤ
total_memory t [] = t
total_memory t (v ∷ vs) = total_memory (t +ℤ v.memory) vs

unfoldable pub fits_memory : List Vm → ℤ → ℕ → Bool
unfolding total_memory
fits_memory vms m host =
    not (ltb (host / 1024 / 1024 * 2 / 3) (to_u64 (total_memory (pos 0) vms +ℤ m)))

-- The memory of the VM: within its bounds, and with that of the others within two thirds of the
-- host's.
unfoldable pub with_memory : World → Flags → Vm → Result Error Vm
unfolding clamp_memory fits_memory
with_memory w f vm = do
  running ← w.active_vms
  host ← w.mem_size
  if fits_memory running (clamp_memory f.memory) host
      then ok (record vm { memory = clamp_memory f.memory })
      else err too_much_memory

unfoldable pub choose_uuid : World → Text → Text
choose_uuid w t =
    to_upper (if t =t codes "random" then w.new_uuid else if w.is_uuid t then t else w.new_uuid)

unfoldable pub with_uuid : World → Flags → Vm → Result Error Vm
unfolding choose_uuid
with_uuid w f vm = do
  out ← w.to_mac (choose_uuid w f.uuid) f.uuid
  ok (record vm { mac_address = out.0; uuid = out.1 })

unfoldable pub with_homedir : World → Flags → Vm → Result Error Vm
with_homedir w f vm =
    if f.shared_homedir
    then w.handles_nfs >>= (λ working. ok (record vm { shared_homedir = working }))
    else ok (record vm { shared_homedir = false })

unfoldable pub with_name : Vm → Vm
with_name vm = if vm.name =t [] then record vm { name = vm.uuid } else vm

unfoldable pub pulled : Vm → Pull → Result Error Vm
pulled vm p = elim p.error [ none ↦ ok (record vm { version = p.version }) | some e ↦ err e ]

unfoldable pub with_image : Semver → World → Flags → Vm → Result Error Vm
unfolding pulled
with_image s w f vm =
    let c = channel f.channel in
    pulled (record vm { channel = c }) (w.pull c (version s f.version) vm.offline_mode)

-- A VM with an error is the error.
abbrev pub checked : Vm × Option Error → Result Error Vm
checked r = elim r.1 [ none ↦ ok r.0 | some e ↦ err e ]

unfoldable pub with_format : Flags → Vm → Result Error Vm
with_format f vm =
    if f.format_root
    then (if f.root =t [] then err root_unset else ok (record vm { format_root = true }))
    else ok vm

-- `ValidateCDROM` on no name changes nothing, and its error is dropped.
unfoldable pub with_volumes : World → Flags → Vm → Result Error Vm
unfolding with_format
with_volumes w f vm = do
  formatted ← with_format f (validate_cdrom w.files [] vm).0
  rooted ← checked (validate_volumes w.files w.active_vms (f.root ∷ []) true formatted)
  checked (validate_volumes w.files w.active_vms (slices f.volumes) false rooted)

unfoldable pub with_ethernet : Vm → Vm
with_ethernet vm = record vm { ethernet = vm.ethernet ++ (record { kind = raw; path = [] }) ∷ [] }

unfoldable pub with_keys : World → Vm → Result Error Vm
with_keys w vm = do
  pair ← w.keys
  ok (record vm { internal_ssh_private = pair.0; internal_ssh_key = pair.1 })

-- `vmBootstrap`
unfoldable pub vm_bootstrap : Semver → World → Flags → Result Error Vm
unfolding from_flags with_memory with_uuid with_homedir with_name with_image with_volumes
    with_ethernet with_keys
vm_bootstrap s w f = do
  sized ← with_memory w f (from_flags f)
  known ← with_uuid w f sized
  homed ← with_homedir w f known
  imaged ← with_image s w f (with_name homed)
  stored ← with_volumes w f imaged
  configured ← checked (validate_cloud_config w.files f.cloud_config (with_ethernet stored))
  with_keys w configured

-- What `bootIt` reads of the reply of `Run`.
pub record Booted : Type 0 where
  pub name : Text
  pub public_ip : Text

-- `runCommand`: nothing is asked for before the server answers, and nothing is run after an error.
unfoldable pub run_command :
    Semver
    → Result Error (Unit {0})
    → World
    → Flags
    → (Vm → Result Error Booted)
    → Result Error Booted
unfolding vm_bootstrap
run_command s (err e) w f run = err server_unreachable
run_command s (ok u) w f run = vm_bootstrap s w f >>= run
