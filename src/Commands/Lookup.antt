-- ===== src/Commands/Lookup.antt =====
-- cmd/ssh.go and components/server/rpcservices.go: the client and the server take the same VM.
use corectl.Base.{List, [], ◌∷◌, Text, ◌≡◌, refl, arith, Result, ok, err}
use corectl.Commands.{vm_info}
use corectl.Daemon.{Error, unknown_vm}
use corectl.Registry.{Active}
use corectl.Shutdown.{matches}
use corectl.Vm.{Vm}

abbrev pub first_or_unknown : List Vm → Result Error Vm
first_or_unknown [] = err unknown_vm
first_or_unknown (v ∷ vs) = ok v

-- `vmInfo` gives the first of the VMs that `StopVMs` would take for the same name or UUID, and an
-- error exactly if there is none.
pub vm_info-matches : (id : Text) (m : Active) → vm_info id m ≡ first_or_unknown (matches id m)
unfolding vm_info matches
vm_info-matches id [] = refl
vm_info-matches id ((k, v) ∷ m) = ground (arith, vm_info-matches id m)
