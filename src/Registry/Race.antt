-- ===== src/Registry/Race.antt =====
-- components/server/run.go: two calls of `register` at once. `lookup` holds the daemon's lock and
-- gives it back; the write to `Daemon.Active` that follows takes no lock.
use corectl.Base.{
  Bool, true, false, ◌||◌, Option, none, some, List, [], ◌∷◌, ◌≡◌, ◌≢◌, codes, ◌=t◌, =t_iff, All,
  arith, insert, lookup-insert, if◌then◌else◌,
}
use corectl.Registry.{Active, lookup_vm, register}
use corectl.Registry.Unique.{Apart, IsUnique, lookup_of_Apart, names_differ}
use corectl.Vm.{Vm}

-- Where a call of `register` stands.
pub data Call : Type 0 where
  entered passed refused registered : Call

-- The two parts of `register`: up to the end of `lookup`, and the write.
pub step : Vm → Call → Active → Call × Active
step vm entered m =
    if vm.name =t codes "corectld" || lookup_vm vm m then (refused, m) else (passed, m)
step vm passed m = (registered, insert vm.uuid vm m)
step vm refused m = (refused, m)
step vm registered m = (registered, m)

pub record Pair : Type 0 where
  pub first : Call
  pub second : Call
  pub active : Active

-- A schedule says which of the two calls makes the next step: `true` for the first.
pub run : Vm → Vm → Pair → List Bool → Pair
run v w p [] = p
run v w p (true ∷ s) =
    let (c, m) = step v p.first p.active in run v w (record p { first = c; active = m }) s
run v w p (false ∷ s) =
    let (c, m) = step w p.second p.active in run v w (record p { second = c; active = m }) s

abbrev pub both_enter : Active → Pair
both_enter m = record { first = entered; second = entered; active = m }

abbrev pub accepted : Call → Bool
accepted registered = true
accepted _ = false

abbrev pub is_none : Option corectl.Daemon.Error → Bool
is_none none = true
is_none (some e) = false

-- With no other call in between, the two steps are `register`.
pub run_one_after_the_other :
    (v w : Vm) (m : Active)
    → let p = run v w (both_enter m) (true ∷ true ∷ false ∷ false ∷ []) in
      let (m₁, e₁) = register v m in
      let (m₂, e₂) = register w m₁ in
      (p.active ≡ m₂) × (accepted p.first ≡ is_none e₁) × (accepted p.second ≡ is_none e₂)
unfolding run step register
run_one_after_the_other v w m = ground arith

-- Two VMs have one name, which is not reserved, and different UUIDs, and the map holds neither the
-- name nor the UUIDs. If both calls make their check before either writes, then both VMs are
-- registered, and the map repeats a name, whatever else it held.
pub register_race :
    (v w : Vm) (m : Active)
    → v.name ≢ codes "corectld"
    → v.name ≡ w.name
    → v.uuid ≢ w.uuid
    → All (Apart v) m
    → All (Apart w) m
    → let p = run v w (both_enter m) (true ∷ false ∷ true ∷ false ∷ []) in
      (p.first ≡ registered) × (p.second ≡ registered) × ¬ IsUnique p.active
unfolding run step
register_race v w m r n u av aw = ground (
  arith,
  =t_iff v.name (codes "corectld"),
  =t_iff w.name (codes "corectld"),
  lookup_of_Apart v m av,
  lookup_of_Apart w m aw,
  clash,
)
  where
    both : Active
    both = insert w.uuid w (insert v.uuid v m)

    clash : ¬ IsUnique both
    clash h =
        names_differ v.uuid w.uuid v w both h
          (ground (
            arith,
            =t_iff w.uuid v.uuid,
            =t_iff v.uuid v.uuid,
            lookup-insert w.uuid v.uuid w (insert v.uuid v m),
            lookup-insert v.uuid v.uuid v m,
          ))
          (ground (arith, =t_iff w.uuid w.uuid, lookup-insert w.uuid w.uuid w (insert v.uuid v m)))
          u n
