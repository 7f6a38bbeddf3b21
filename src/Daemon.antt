-- ===== src/Daemon.antt =====
-- components/server/server.go and rpcservices.go: the state that the server's handlers share.
use corectl.Base.{ℕ, Bool, true, false, Option, List, [], Text}
use corectl.Vm.{Vm, Chan}

-- The errors that the server and the command line tell apart. `os_error` is one that a call of the
-- operating system returned, `other` one of a library.
pub data Error : Type 0 where
  server_shutting_down nothing_to_shutdown unknown_vm : Error
  server_unreachable reserved_name already_running same_uuid mac_failure : Error
  bad_suffix volume_in_use volume_repeated root_unset too_much_memory : Error
  os_error other : Error

-- `release.Info`; `built` is a time as a text.
pub record Info : Type 0 where
  pub version : Text
  pub started : ℕ
  pub pid : ℕ
  pub built : Text
  pub runtime : Text
  pub os : Text
  pub arch : Text

-- `ServerContext`. `V` is `semver.Version`; `media` and `active` are maps.
pub record Daemon (V : Type 0) : Type 0 where
  pub meta : Info
  pub media : List (Text × List V)
  pub active : List (Text × Vm)
  pub jobs : ℕ
  pub accepting_requests : Bool
  pub working_nfs : Bool
  pub oops : Chan (Option Error)

-- `New`
abbrev pub new : {V : Type 0} → Info → Daemon V
new meta = record {
  meta = meta;
  media = [];
  active = [];
  jobs = 0;
  accepting_requests = true;
  working_nfs = false;
  oops = record { buffer = []; closed = false };
}
