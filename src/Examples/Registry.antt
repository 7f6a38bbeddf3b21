-- ===== src/Examples/Registry.antt =====
-- The theorems on the registry at concrete VMs.
use corectl.Base.{
  [], ◌∷◌, true, false, none, some, List, ◌≡◌, refl, codes, lookup, insert, delete, ◌=t◌,
  ne_of_test,
}
use corectl.Daemon.{already_running}
use corectl.Examples.{core1, core2, twin}
use corectl.Registry.{Active, deregister, register, lookup_vm}
use corectl.Registry.Spec.{
  serve_requests-SpecRun, Request, enrol, release, serve_requests, SpecRun, view,
}
use corectl.Registry.Unique.{IsUnique}
use corectl.Registry.Race.{run, both_enter, registered, register_race}

abbrev one : Active
one = (codes "A1", core1) ∷ []

one-IsUnique : IsUnique one
one-IsUnique = (refl, tt, tt)

register_race_example :
    let p = run core1 twin (both_enter []) (true ∷ false ∷ true ∷ false ∷ []) in
    (p.first ≡ registered) × (p.second ≡ registered) × ¬ IsUnique p.active
unfolding ◌=t◌
register_race_example =
    register_race core1 twin [] (ne_of_test _ _ refl) refl (ne_of_test _ _ refl) tt tt

-- The second VM with a name is refused.
refused : (register twin one).1 ≡ some already_running
unfolding register lookup_vm lookup ◌=t◌
refused = refl

-- A VM, one with the name of the first, and the first again once it is gone.
abbrev requests : List Request
requests = enrol core2 ∷ enrol twin ∷ release core1 ∷ enrol twin ∷ []

serve_requests-SpecRun_example :
    let r = serve_requests requests one in SpecRun (view one) requests r.1 (view r.0) × IsUnique r.0
serve_requests-SpecRun_example = serve_requests-SpecRun requests one one-IsUnique

answers_requests : (serve_requests requests one).1 ≡ none ∷ some already_running ∷ none ∷ none ∷ []
unfolding serve_requests deregister register lookup_vm insert delete lookup ◌=t◌
answers_requests = refl
