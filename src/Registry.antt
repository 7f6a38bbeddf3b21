-- ===== src/Registry.antt =====
-- components/server/run.go: the registry of running VMs, `Daemon.Active`.
pub mod Change
pub mod Spec
pub mod Unique
pub mod Race
use corectl.Base.{
  Bool, true, ◌||◌, Option, none, some, List, [], ◌∷◌, Text, codes, ◌=t◌, lookup, insert, delete,
  if◌then◌else◌,
}
use corectl.Daemon.{Error, reserved_name, already_running}
use corectl.Vm.{Vm}

abbrev pub Active : Type 0
Active = List (Text × Vm)

abbrev found : Option Vm → Bool
found none = Bool.false
found (some v) = true

-- the loop over the names in `lookup`
some_name : Text → Active → Bool
some_name name [] = Bool.false
some_name name ((k, v) ∷ m) = v.name =t name || some_name name m

-- `VMInfo.lookup`: by UUID, then by name
unfoldable pub lookup_vm : Vm → Active → Bool
unfolding some_name
lookup_vm vm m = found (lookup vm.uuid m) || some_name vm.name m

-- `VMInfo.register`: the new map and the error
unfoldable pub register : Vm → Active → Active × Option Error
register vm m =
    if vm.name =t codes "corectld"
    then (m, some reserved_name)
    else if lookup_vm vm m
    then (m, some already_running)
    else (insert vm.uuid vm m, none)

-- `VMInfo.deregister`, without the DNS records that it takes out of the store first
unfoldable pub deregister : Vm → Active → Active
deregister vm m = delete vm.uuid m
