-- ===== src/Registry/Change.antt =====
-- components/server/run.go: what the handlers other than `register` do to the map of running VMs.
use corectl.Base.{
  Bool-cases, inl, inr, some, [], ◌∷◌, Text, ◌≡◌, refl, sym, ap, ◌∙◌, ◌=t◌, =t_iff, =t_refl, All,
  arith, lookup, insert, delete,
}
use corectl.Registry.{Active}
use corectl.Registry.Unique.{Apart, IsUnique, All-delete, Apart-moves, delete-IsUnique}
use corectl.Vm.{Vm}

-- An entry is the work of a change: a VM goes, or a VM that stands under its UUID gets another
-- content, and keeps its UUID and its name.
pub data Change : Active → Active → Type 0 where
  same : (m : Active) → Change m m
  gone : (k : Text) (m : Active) → Change m (delete k m)
  updated :
      (k : Text) (v w : Vm) (m : Active)
      → lookup k m ≡ some v
      → k ≡ v.uuid
      → w.uuid ≡ v.uuid
      → w.name ≡ v.name
      → Change m (insert k w m)
  both : (m n o : Active) → Change m n → Change n o → Change m o

some_inj : (v w : Vm) → some v ≡ some w → v ≡ w
some_inj v w e = cc

pub All_lookup :
    (P : Text × Vm → Type 0) (k : Text) (v : Vm) (m : Active)
    → All P m
    → lookup k m ≡ some v
    → P (k, v)
unfolding lookup
All_lookup P k v [] h e = absurd (cc)
All_lookup P k v ((j, w) ∷ m) h e = elim (Bool-cases (j =t k)) [
  | inl t ↦ rw (sym ((=t_iff j k).0 t), sym (some_inj w v (rw t at e))) h.0
  | inr t ↦ All_lookup P k v m h.1 (rw t at e)
]

All-insert :
    (P : Text × Vm → Type 0) (k : Text) (v : Vm) (m : Active)
    → All P m
    → P (k, v)
    → All P (insert k v m)
unfolding insert
All-insert P k v [] h p = (p, tt)
All-insert P k v ((j, w) ∷ m) h p = elim (Bool-cases (j =t k)) [
  | inl t ↦ rw t (p, h.1)
  | inr t ↦ rw t (h.0, All-insert P k v m h.1 p)
]

-- The map has an entry under the UUID of this one, with its name.
abbrev pub Held : Active → Text × Vm → Type 0
Held m e = (w : Vm) × (lookup e.0 m ≡ some w) × (w.name ≡ e.1.name)

-- The second map has entries of the first only.
abbrev pub Within : Active → Active → Type 0
Within m = All (Held m)

Within-widen :
    (k : Text) (v : Vm) (m n : Active)
    → All (Apart v) n
    → k ≡ v.uuid
    → Within m n
    → Within ((k, v) ∷ m) n
unfolding lookup
Within-widen k v m [] a own h = tt
Within-widen k v m ((j, w) ∷ n) a own h =
    ((h.0.0, ground (arith, =t_iff k j, a.0.0), h.0.2), Within-widen k v m n a.1 own h.1)

pub Within-refl : (m : Active) → IsUnique m → Within m m
unfolding lookup
Within-refl [] u = tt
Within-refl ((k, v) ∷ m) u =
    ((v, rw (=t_refl k) refl, refl), Within-widen k v m m u.1 u.0 (Within-refl m u.2))

pub Within-trans : (m n o : Active) → Within m n → Within n o → Within m o
Within-trans m n [] h k = tt
Within-trans m n ((j, v) ∷ o) h k =
    let (w, e, p) = k.0 in
    let (x, f, q) = All_lookup (Held m) j w n h e in ((x, f, q ∙ p), Within-trans m n o h k.1)

insert-IsUnique :
    (k : Text) (v w : Vm) (m : Active)
    → IsUnique m
    → lookup k m ≡ some v
    → k ≡ v.uuid
    → w.uuid ≡ v.uuid
    → w.name ≡ v.name
    → IsUnique (insert k w m)
unfolding insert lookup
insert-IsUnique k v w [] u e own i n = absurd (cc)
insert-IsUnique k v w ((j, x) ∷ m) u e own i n = elim (Bool-cases (j =t k)) [
  | inl t ↦ rw t (
    own ∙ sym i,
    Apart-moves x w m (i ∙ ap (λ (y : Vm). y.uuid) (sym (some_inj x v (rw t at e))))
        (n ∙ ap (λ (y : Vm). y.name) (sym (some_inj x v (rw t at e)))) u.1,
    u.2,
  )
  | inr t ↦
      let a = All_lookup (Apart x) k v m u.1 (rw t at e) in
      rw t (
        u.0,
        All-insert (Apart x) k w m u.1 (a.0, λ q. a.1 (sym n ∙ q)),
        insert-IsUnique k v w m u.2 (rw t at e) own i n,
      )
]

pub change-IsUnique : (m n : Active) → Change m n → IsUnique m → IsUnique n
change-IsUnique _ _ (same m) u = u
change-IsUnique _ _ (gone k m) u = delete-IsUnique k m u
change-IsUnique _ _ (updated k v w m e own i n) u = insert-IsUnique k v w m u e own i n
change-IsUnique _ _ (both m n o c d) u = change-IsUnique n o d (change-IsUnique m n c u)

pub change-Within : (m n : Active) → Change m n → IsUnique m → Within m n
change-Within _ _ (same m) u = Within-refl m u
change-Within _ _ (gone k m) u = All-delete (Held m) k m (Within-refl m u)
change-Within _ _ (updated k v w m e own i n) u =
    All-insert (Held m) k w m (Within-refl m u) (v, e, sym n)
change-Within _ _ (both m n o c d) u =
    Within-trans m n o (change-Within m n c u) (change-Within n o d (change-IsUnique m n c u))
