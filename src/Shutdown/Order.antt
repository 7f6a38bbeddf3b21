-- ===== src/Shutdown/Order.antt =====
-- components/server/run.go: the order in which VMs are shut down.
use mathlib.Core.List.{Perm}
use mathlib.Core.List.Perm
use corectl.Base.{
  ◌≤◌, Bool, ◌||◌, Bool-cases, inl, inr, List, [], ◌∷◌, Text, ◌≡◌, ◌≢◌, refl, sym, ◌=t◌, All, any,
  ltb, arith,
}
use corectl.Shutdown.{insert_vm, newest_first}
use corectl.Vm.{Vm}

-- Creation times fall along the list.
abbrev pub IsNewestFirst : List Vm → Type 0
IsNewestFirst [] = Unit
IsNewestFirst (v ∷ vs) = All (λ w. w.creation_time ≤ v.creation_time) vs × IsNewestFirst vs

All-insert_vm : (P : Vm → Type 0) (v : Vm) (vs : List Vm) → P v → All P vs → All P (insert_vm v vs)
unfolding insert_vm
All-insert_vm P v [] pv h = (pv, tt)
All-insert_vm P v (w ∷ ws) pv h = ground (arith, All-insert_vm P v ws pv h.1)

pub All-newest_first : (P : Vm → Type 0) (vs : List Vm) → All P vs → All P (newest_first vs)
unfolding newest_first
All-newest_first P [] h = tt
All-newest_first P (v ∷ vs) h = All-insert_vm P v (newest_first vs) h.0 (All-newest_first P vs h.1)

All-older :
    (v w : Vm) (ws : List Vm)
    → w.creation_time ≤ v.creation_time
    → All (λ x. x.creation_time ≤ w.creation_time) ws
    → All (λ x. x.creation_time ≤ v.creation_time) ws
All-older v w [] h a = tt
All-older v w (x ∷ ws) h a = (omega arith, All-older v w ws h a.1)

insert_vm-IsNewestFirst :
    (v : Vm) (vs : List Vm) → IsNewestFirst vs → IsNewestFirst (insert_vm v vs)
unfolding insert_vm
insert_vm-IsNewestFirst v [] h = (tt, tt)
insert_vm-IsNewestFirst v (w ∷ ws) h = elim (Bool-cases (ltb v.creation_time w.creation_time)) [
  | inl e ↦ rw e (
    All-insert_vm (λ x. x.creation_time ≤ w.creation_time) v ws (ground arith) h.0,
    insert_vm-IsNewestFirst v ws h.1,
  )
  | inr e ↦ rw e ((ground arith, All-older v w ws (ground arith) h.0), h)
]

insert_vm-perm : (v : Vm) (vs : List Vm) → Perm (insert_vm v vs) (v ∷ vs)
unfolding insert_vm
insert_vm-perm v [] = Perm.refl (v ∷ [])
insert_vm-perm v (w ∷ ws) =
    let later = Perm.trans (Perm.cons w (insert_vm-perm v ws)) (Perm.swap v w ws) in
    let here = Perm.refl (v ∷ w ∷ ws) in ground (arith, later, here)

-- The shutdown order holds each VM as often as the list did, and creation times fall along it.
pub newest_first_sorts :
    (vs : List Vm) → IsNewestFirst (newest_first vs) × Perm (newest_first vs) vs
unfolding newest_first
newest_first_sorts [] = (tt, Perm.nil)
newest_first_sorts (v ∷ vs) =
    let (sorted, same) = newest_first_sorts vs in
    (
      insert_vm-IsNewestFirst v (newest_first vs) sorted,
      Perm.trans (insert_vm-perm v (newest_first vs)) (Perm.cons v same),
    )

-- No UUID stands twice.
abbrev pub AreDistinct : List Vm → Type 0
AreDistinct [] = Unit
AreDistinct (v ∷ vs) = All (λ w. v.uuid ≢ w.uuid) vs × AreDistinct vs

insert_vm-AreDistinct :
    (v : Vm) (vs : List Vm)
    → All (λ w. v.uuid ≢ w.uuid) vs
    → AreDistinct vs
    → AreDistinct (insert_vm v vs)
unfolding insert_vm
insert_vm-AreDistinct v [] h d = (tt, tt)
insert_vm-AreDistinct v (w ∷ ws) h d = ground (
  arith,
  insert_vm-AreDistinct v ws h.1 d.1,
  All-insert_vm (λ x. w.uuid ≢ x.uuid) v ws (λ e. h.0 (sym e)) d.0,
)

pub newest_first-AreDistinct : (vs : List Vm) → AreDistinct vs → AreDistinct (newest_first vs)
unfolding newest_first
newest_first-AreDistinct [] d = tt
newest_first-AreDistinct (v ∷ vs) d =
    insert_vm-AreDistinct v (newest_first vs) (All-newest_first (λ w. v.uuid ≢ w.uuid) vs d.0)
      (newest_first-AreDistinct vs d.1)

-- Whether a UUID is that of one of the VMs.
abbrev pub has_uuid : Text → List Vm → Bool
has_uuid k = any (λ v. v.uuid =t k)

has_uuid-insert_vm :
    (k : Text) (v : Vm) (vs : List Vm)
    → has_uuid k (insert_vm v vs) ≡ (v.uuid =t k || has_uuid k vs)
unfolding insert_vm
has_uuid-insert_vm k v [] = refl
has_uuid-insert_vm k v (w ∷ ws) = ground (arith, has_uuid-insert_vm k v ws)

pub has_uuid-newest_first : (k : Text) (vs : List Vm) → has_uuid k (newest_first vs) ≡ has_uuid k vs
unfolding newest_first
has_uuid-newest_first k [] = refl
has_uuid-newest_first k (v ∷ vs) =
    ground (arith, has_uuid-insert_vm k v (newest_first vs), has_uuid-newest_first k vs)
