-- ===== src/Examples/Shutdown.antt =====
-- The theorems on stopping at two concrete VMs.
use corectl.Base.{
  [], ◌∷◌, true, false, none, ◌≡◌, refl, codes, List, Text, ℕ, lookup, ◌=t◌, ne_of_test, returns,
  if◌then◌else◌,
}
use corectl.Daemon
use corectl.Daemon.{Daemon, Info, unknown_vm, nothing_to_shutdown}
use corectl.Examples.{core1, core2}
use corectl.Registry.{Active}
use corectl.Shutdown.{Host, newest_first, shut_down, ends}
use corectl.Shutdown.Graceful.{signals, shut_down-Stops}
use corectl.Shutdown.Order.{has_uuid}
use corectl.Vm.{Vm, alive}

abbrev first : Vm
first = record core1 { exec = alive }

abbrev second : Vm
second = record core2 { exec = alive }

abbrev both : List Vm
both = first ∷ second ∷ []

abbrev running : Active
running = (codes "A1", first) ∷ (codes "A2", second) ∷ []

-- Processes that exit when they are told to.
abbrev obedient : Host
obedient = record { comes_up = λ v. false; exits_on_sigterm = λ v. true; also_gone = λ v. [] }

abbrev deaf : Host
deaf = record { comes_up = λ v. false; exits_on_sigterm = λ v. false; also_gone = λ v. [] }

abbrev daemon : Daemon ℕ
daemon =
    record (Daemon.new {V = ℕ} (record {
      version = [];
      started = 0;
      pid = 1;
      built = [];
      runtime = [];
      os = [];
      arch = [];
    })) { active = running }

shut_down-Stops_example :
    (n : Active) × (shut_down obedient both running
      ≡ returns (signals obedient (newest_first both), n))
    × ((k : Text) → lookup k n ≡ (if has_uuid k both then none else lookup k running))
unfolding ends lookup ◌=t◌
shut_down-Stops_example =
    shut_down-Stops obedient both running (λ vm. refl) ((refl, refl), ((refl, refl), tt))
      ((ne_of_test _ _ refl, tt), (tt, tt)) (refl, (refl, tt))

-- A VM that has come up.
abbrev up : Vm
up = record first { done = true }

-- A VM that has the UUID of `first` for its name.
abbrev namesake : Vm
namesake = record second { name = codes "A1" }
