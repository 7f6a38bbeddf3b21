-- ===== src/Vm.antt =====
-- components/server/run.go: the data of a VM.
use corectl.Base.{
  Outcome, returns, hangs, panics, ◌∷◌, if◌then◌else◌, ℕ, Bool, true, false, Option, none, List, [],
  ◌++◌, Text, codes, ℤ, pos,
}

-- `Raw`, `Qcow2` and `Tap` of the `iota` block. `NetworkInterface.Type` and
-- `StorageDevice.Format` share it.
pub data Kind : Type 0 where
  unset raw qcow2 tap : Kind

pub record NetworkInterface : Type 0 where
  pub kind : Kind
  pub path : Text

-- `HDD` and `CDROM`
pub data DeviceType : Type 0 where
  hdd cdrom : DeviceType

pub record StorageDevice : Type 0 where
  pub slot : ℕ
  pub format : Kind
  pub device_type : DeviceType
  pub path : Text

-- The two maps have `strconv.Itoa(slot)` as their keys: a key is given by its number.
pub record StorageAssets : Type 0 where
  pub cd_drives : List (ℕ × StorageDevice)
  pub hard_drives : List (ℕ × StorageDevice)

-- `CClocation`: "", `Local` and `Remote`
pub data Location : Type 0 where
  nowhere local_file remote_url : Location

-- A channel of capacity 1.
pub record Chan (A : Type 0) : Type 0 where
  pub buffer : List A
  pub closed : Bool

-- `ch <- a`: a panic on a closed channel, and no return, where nobody receives, on a full one.
unfoldable pub send : {A : Type 0} → A → Chan A → Outcome (Chan A)
send a c =
    if c.closed
    then panics
    else elim c.buffer [ [] ↦ returns (record c { buffer = a ∷ [] }) | b ∷ bs ↦ hangs ]

-- `exec.Cmd`: not started, `Process` set and alive, `Process` set and gone, or a failed `Start`
-- (which leaves `Process` nil).
pub data Process : Type 0 where
  unstarted alive gone start_failed : Process

abbrev pub has_process : Process → Bool
has_process alive = true
has_process gone = true
has_process _ = false

pub data VmError : Type 0 where
  ip_timeout start_error : VmError

-- `VMInfo`. A time is a number of nanoseconds. A `sync.Once` is whether it has run.
pub record Vm : Type 0 where
  pub name : Text
  pub channel : Text
  pub version : Text
  pub uuid : Text
  pub mac_address : Text
  pub public_ip : Text
  pub internal_ssh_key : Text
  pub internal_ssh_private : Text
  pub cpus : ℤ
  pub memory : ℤ
  pub pid : ℤ
  pub ssh_key : Text
  pub cloud_config : Text
  pub cc_location : Location
  pub add_to_hypervisor : Text
  pub add_to_kernel : Text
  pub ethernet : List NetworkInterface
  pub storage : StorageAssets
  pub shared_homedir : Bool
  pub offline_mode : Bool
  pub not_isolated : Bool
  pub format_root : Bool
  pub persistent_root : Bool
  pub creation_time : ℕ
  pub public_ip_ch : Chan Text
  pub err_ch : Chan VmError
  pub done : Bool
  pub exec : Process
  pub isolation_check : Bool
  pub call_back : Bool
  pub cloud_config_contents : Option Text

-- `new(VMInfo)`
abbrev pub new : Vm
new = record {
  name = [];
  channel = [];
  version = [];
  uuid = [];
  mac_address = [];
  public_ip = [];
  internal_ssh_key = [];
  internal_ssh_private = [];
  cpus = pos 0;
  memory = pos 0;
  pid = pos 0;
  ssh_key = [];
  cloud_config = [];
  cc_location = nowhere;
  add_to_hypervisor = [];
  add_to_kernel = [];
  ethernet = [];
  storage = record { cd_drives = []; hard_drives = [] };
  shared_homedir = false;
  offline_mode = false;
  not_isolated = false;
  format_root = false;
  persistent_root = false;
  creation_time = 0;
  public_ip_ch = record { buffer = []; closed = false };
  err_ch = record { buffer = []; closed = false };
  done = false;
  exec = unstarted;
  isolation_check = false;
  call_back = false;
  cloud_config_contents = none;
}

-- `endpoint`: the host's address is `session.Caller.Address`
unfoldable pub endpoint : Text → Vm → Text
endpoint address vm = codes "http://" ++ (address ++ (codes ":2511/" ++ vm.uuid))
