-- ===== src/Http/Callback.antt =====
-- components/server/httpservices.go: the requests of a VM that change its state.
use corectl.Base.{
  true, false, none, some, [], ◌∷◌, Text, codes, ◌≡◌, refl, arith, lookup, insert, returns,
}
use corectl.Http.{Network, remote_ip, is_loopback, refusal, see_world, call_back, instance_callback}
use corectl.Registry.{Active}
use corectl.Vm.{Vm, send}

-- A request from a registered VM that has not called back stores its address, once: another
-- request from any address answers "ok" and changes nothing.
pub instance_callback_once :
    (n : Network) (sender later uuid : Text) (m : Active) (vm : Vm)
    → refusal n sender uuid m ≡ none
    → is_loopback (remote_ip sender) ≡ false
    → lookup uuid m ≡ some vm
    → vm.uuid ≡ uuid
    → vm.call_back ≡ false
    → vm.public_ip_ch ≡ record { buffer = []; closed = false }
    → (vm' : Vm) × (instance_callback n sender uuid m
        ≡ returns (record { status = 200; body = codes "ok\n" }, insert uuid vm' m))
      × (vm'.public_ip_ch.buffer ≡ remote_ip sender ∷ [])
      × (vm'.call_back ≡ true)
      × (call_back (remote_ip later) vm' ≡ returns vm')
unfolding instance_callback call_back send
instance_callback_once n sender later uuid m vm ok near l own new unsent = (
  record vm {
    call_back = true;
    public_ip_ch = record { buffer = remote_ip sender ∷ []; closed = false };
  },
  ground arith,
  refl,
  refl,
  refl,
)

-- `NotIsolated` is only ever set by a request of the VM's network to a registered VM, and stays.
pub see_world_lem :
    (vm : Vm)
    → ((see_world vm).isolation_check ≡ true)
      × (see_world (see_world vm) ≡ see_world vm)
      × ((vm.isolation_check ≡ false) → ((see_world vm).not_isolated ≡ true))
unfolding see_world
see_world_lem vm = ground arith
