-- ===== src/Storage.antt =====
-- components/server/run.go: the volumes, the CD-ROM and the cloud-config of a VM.
pub mod Volumes
pub mod Formats
pub mod Config
use corectl.Base.{
  ℕ, Bool, true, false, ◌||◌, ◌&&◌, not, Option, none, some, List, [], ◌∷◌, ◌++◌, Text, codes, ◌=t◌,
  has_suffix, length, any, ◌==◌, ltb, if◌then◌else◌, Result, ok, err,
}
use corectl.Coreos.{Response, failed, answered, is_success}
use corectl.Daemon.{Error, os_error, other, bad_suffix, volume_in_use, volume_repeated}
use corectl.Qcow2.{Qcow2Error, not_qcow2, validate_qcow2}
use corectl.Vm.{
  Vm, Kind, raw, qcow2, DeviceType, hdd, cdrom, StorageDevice, StorageAssets, Location, nowhere,
  local_file, remote_url,
}

-- What the operating system and the network say of a path: whether `os.Stat` finds it,
-- `filepath.Abs`, the bytes that `os.Open` gives, and the answer to `http.Get`.
pub record Files : Type 0 where
  pub exists : Text → Bool
  pub abs : Text → Option Text
  pub contents : Text → Option Text
  pub get : Text → Response

abbrev pub Drives : Type 0
Drives = List (ℕ × StorageDevice)

-- `m[k] = d`
unfoldable pub put : ℕ → StorageDevice → Drives → Drives
put k d [] = (k, d) ∷ []
put k d ((j, e) ∷ m) = if j == k then (k, d) ∷ m else (j, e) ∷ put k d m

unfoldable pub insert_cdrom : Text → Vm → Vm
insert_cdrom path vm = record vm {
  storage = record {
    cd_drives =
        (0, record { slot = 0; format = Kind.unset; device_type = cdrom; path = path }) ∷ [];
    hard_drives = vm.storage.hard_drives;
  };
}

-- `ValidateCDROM`
unfoldable pub validate_cdrom : Files → Text → Vm → Vm × Option Error
unfolding insert_cdrom
validate_cdrom f [] vm = (vm, none)
validate_cdrom f (c ∷ path) vm =
    if not (has_suffix (c ∷ path) (codes ".iso"))
    then (vm, some bad_suffix)
    else if not (f.exists (c ∷ path))
    then (vm, some os_error)
    else elim (f.abs (c ∷ path)) [
      | none ↦ (vm, some os_error)
      | some abs ↦ (insert_cdrom abs vm, none)
    ]

-- The local part of `ValidateCloudConfig`. `filepath.Abs` gives "" with its error.
unfoldable pub local_config : Files → Text → Vm → Vm × Option Error
local_config f config vm = elim (f.abs config) [
  | none ↦ (record vm { cloud_config = [] }, some os_error)
  | some abs ↦
      if f.exists abs
      then (record vm { cloud_config = abs; cc_location = local_file }, none)
      else (record vm { cloud_config = abs }, some os_error)
]

-- `ValidateCloudConfig`
unfoldable pub validate_cloud_config : Files → Text → Vm → Vm × Option Error
unfolding local_config
validate_cloud_config f [] vm = (vm, none)
validate_cloud_config f (c ∷ config) vm = elim (f.get (c ∷ config)) [
  | failed ↦ local_config f (c ∷ config) vm
  | answered status lines ↦
      if is_success status
      then (record vm { cloud_config = c ∷ config; cc_location = remote_url }, none)
      else local_config f (c ∷ config) vm
]

-- Whether a drive of the list has the path.
unfoldable pub uses_path : Text → Drives → Bool
uses_path p [] = false
uses_path p ((k, d) ∷ m) = (d.path =t p) || uses_path p m

unfoldable pub used_by : Text → List Vm → Bool
unfolding uses_path
used_by p [] = false
used_by p (vm ∷ vms) = uses_path p vm.storage.hard_drives || used_by p vms

-- The variable `format` of the loop, after `ValidateQcow2`: `none` is an error other than
-- `ErrFileIsNotQCOW2`.
unfoldable pub next_format : Kind → Option Qcow2Error → Option Kind
next_format format none = some format
next_format format (some not_qcow2) = some raw
next_format format (some e) = none

abbrev pub is_raw : Kind → Bool
is_raw raw = true
is_raw _ = false

-- A volume that passed the tests is added under the number of drives that there are.
unfoldable pub add_volume : Bool → Kind → Text → Vm → Vm
unfolding put
add_volume root format path vm =
    let drives = vm.storage.hard_drives in
    let slot = length drives in
    record vm {
      storage = record {
        cd_drives = vm.storage.cd_drives;
        hard_drives =
            put slot (record { slot = slot; format = format; device_type = hdd; path = path })
              drives;
      };
      persistent_root = root || vm.persistent_root;
    }

-- The tests on one volume: its absolute path and the new `format`.
unfoldable pub check_volume :
    Files → Result Error (List Vm) → Kind → Text → Vm → Result Error (Text × Kind)
unfolding used_by next_format
check_volume f running format j vm = if not (f.exists j) then err os_error else elim (f.abs j) [
  | none ↦ err os_error
  | some path ↦ elim (f.contents j) [
    | none ↦ err os_error
    | some bytes ↦ elim (next_format format (validate_qcow2 bytes)) [
      | none ↦ err other
      | some format' ↦
          if is_raw format' && not (has_suffix j (codes ".img"))
          then err bad_suffix
          else elim running [
            | err e ↦ err e
            | ok vms ↦
                if used_by path vms
                then err volume_in_use
                else if uses_path path vm.storage.hard_drives
                then err volume_repeated
                else ok (path, format')
          ]
    ]
  ]
]

unfoldable pub after_volume :
    Bool → Vm → (Kind → Vm → Vm × Option Error) → Result Error (Text × Kind) → Vm × Option Error
unfolding add_volume
after_volume root vm rest (err e) = (vm, some e)
after_volume root vm rest (ok (path, format)) = rest format (add_volume root format path vm)

-- The loop of `ValidateVolumes`. What an error leaves of the VM is what it was at that volume.
unfoldable pub add_volumes :
    Files → Result Error (List Vm) → Bool → Kind → List Text → Vm → Vm × Option Error
unfolding check_volume after_volume
add_volumes f running root format [] vm = (vm, none)
add_volumes f running root format ([] ∷ js) vm = add_volumes f running root format js vm
add_volumes f running root format ((c ∷ j) ∷ js) vm =
    let rest = λ (format' : Kind) (vm' : Vm). add_volumes f running root format' js vm' in
    after_volume root vm rest (check_volume f running format (c ∷ j) vm)

-- `ValidateVolumes`; `running` is the answer of the service `ActiveVMs`.
unfoldable pub validate_volumes :
    Files → Result Error (List Vm) → List Text → Bool → Vm → Vm × Option Error
unfolding add_volumes
validate_volumes f running volumes root vm = add_volumes f running root qcow2 volumes vm
