-- ===== src/Registry/Unique.antt =====
-- What `register` and `deregister` keep: UUIDs and names are used once.
use corectl.Base.{
  ◌∙◌, false, Bool-cases, inl, inr, ◌⊎◌, none, some, [], ◌∷◌, ◌++◌, Text, ◌≡◌, ◌≢◌, refl, codes,
  ◌=t◌, =t_iff, =t_refl, All, All-append, arith, lookup, insert, delete,
}
use corectl.Daemon.{reserved_name, already_running}
use corectl.Registry.{Active, some_name, lookup_vm, register, deregister}
use corectl.Vm.{Vm}

-- An entry has neither the UUID nor the name of `vm`.
abbrev pub Apart : Vm → Text × Vm → Type 0
Apart vm e = (e.0 ≢ vm.uuid) × (e.1.name ≢ vm.name)

-- Each VM stands under its own UUID, and no two have a UUID or a name in common.
abbrev pub IsUnique : Active → Type 0
IsUnique [] = Unit
IsUnique ((k, v) ∷ m) = (k ≡ v.uuid) × All (Apart v) m × IsUnique m

fresh_of_lookup : (vm : Vm) (m : Active) → lookup_vm vm m ≡ false → All (Apart vm) m
unfolding lookup_vm lookup some_name
fresh_of_lookup vm [] h = tt
fresh_of_lookup vm ((k, v) ∷ m) h =
    ground (arith, =t_iff k vm.uuid, =t_iff v.name vm.name, fresh_of_lookup vm m)

pub insert_fresh :
    (vm : Vm) (m : Active) → All (Apart vm) m → insert vm.uuid vm m ≡ m ++ (vm.uuid, vm) ∷ []
unfolding insert
insert_fresh vm [] h = refl
insert_fresh vm ((k, v) ∷ m) h = ground (arith, =t_iff k vm.uuid, insert_fresh vm m h.1)

Apart-insert :
    (v vm : Vm) (m : Active)
    → All (Apart v) m
    → v.uuid ≢ vm.uuid
    → v.name ≢ vm.name
    → All (Apart v) (m ++ (vm.uuid, vm) ∷ [])
Apart-insert v vm m h u n = All-append (Apart v) m _ h ((λ e. u (cc), λ e. n (cc)), tt)

append-IsUnique :
    (vm : Vm) (m : Active) → All (Apart vm) m → IsUnique m → IsUnique (m ++ (vm.uuid, vm) ∷ [])
append-IsUnique vm [] h u = (refl, tt, tt)
append-IsUnique vm ((k, v) ∷ m) h (own, apart, rest) = (
  own,
  Apart-insert v vm m apart (λ e. h.0.0 (cc)) (λ e. h.0.1 (cc)),
  append-IsUnique vm m h.1 rest,
)

-- `register` keeps UUIDs and names distinct, whatever it returns.
pub register-IsUnique : (vm : Vm) (m : Active) → IsUnique m → IsUnique (register vm m).0
unfolding register
register-IsUnique vm m u = elim (Bool-cases (lookup_vm vm m)) [
  | inl e ↦ ground arith
  | inr e ↦
      let apart = fresh_of_lookup vm m e in
      ground (arith, insert_fresh vm m apart, append-IsUnique vm m apart u)
]

-- `deregister` keeps them distinct too.
pub All-delete : (P : Text × Vm → Type 0) (k : Text) (m : Active) → All P m → All P (delete k m)
unfolding delete
All-delete P k [] h = tt
All-delete P k ((j, v) ∷ m) h = ground (arith, All-delete P k m h.1)

pub delete-IsUnique : (k : Text) (m : Active) → IsUnique m → IsUnique (delete k m)
unfolding delete
delete-IsUnique k [] u = tt
delete-IsUnique k ((j, v) ∷ m) u =
    ground (arith, All-delete (Apart v) k m u.1, delete-IsUnique k m u.2)

pub deregister-IsUnique : (vm : Vm) (m : Active) → IsUnique m → IsUnique (deregister vm m)
unfolding deregister
deregister-IsUnique vm m u = delete-IsUnique vm.uuid m u

-- What an entry is apart from depends on the UUID and the name alone.
pub Apart-moves :
    (v w : Vm) (m : Active) → w.uuid ≡ v.uuid → w.name ≡ v.name → All (Apart v) m → All (Apart w) m
Apart-moves v w [] i n h = tt
Apart-moves v w (x ∷ m) i n h =
    ((λ e. h.0.0 (e ∙ i), λ e. h.0.1 (e ∙ n)), Apart-moves v w m i n h.1)

delete_fresh :
    (vm : Vm) (m : Active) → All (Apart vm) m → delete vm.uuid (m ++ (vm.uuid, vm) ∷ []) ≡ m
unfolding delete
delete_fresh vm [] h = ground (arith, =t_refl vm.uuid)
delete_fresh vm ((k, v) ∷ m) h = ground (arith, =t_iff k vm.uuid, delete_fresh vm m h.1)

-- Deregistering a VM that was just registered gives the map back.
pub deregister-register :
    (vm : Vm) (m : Active) → (register vm m).1 ≡ none → deregister vm (register vm m).0 ≡ m
unfolding register deregister
deregister-register vm m h = elim (Bool-cases (lookup_vm vm m)) [
  | inl e ↦ ground arith
  | inr e ↦
      let apart = fresh_of_lookup vm m e in
      ground (arith, insert_fresh vm m apart, delete_fresh vm m apart)
]

pub lookup_of_Apart : (vm : Vm) (m : Active) → All (Apart vm) m → lookup_vm vm m ≡ false
unfolding lookup_vm lookup some_name
lookup_of_Apart vm [] h = refl
lookup_of_Apart vm ((k, v) ∷ m) h =
    ground (arith, =t_iff k vm.uuid, =t_iff v.name vm.name, lookup_of_Apart vm m h.1)

-- Either the name is not reserved and no VM in the map has the UUID or the name: then `register`
-- succeeds and the VM is the new last entry. Or one of these fails: then `register` reports it, and
-- the map is as it was.
pub register_outcome :
    (vm : Vm) (m : Active)
    → ((vm.name ≢ codes "corectld")
        × All (Apart vm) m
        × (register vm m ≡ (m ++ (vm.uuid, vm) ∷ [], none)))
      ⊎ ((vm.name ≡ codes "corectld") × (register vm m ≡ (m, some reserved_name)))
      ⊎ ((vm.name ≢ codes "corectld")
          × ¬ All (Apart vm) m
          × (register vm m ≡ (m, some already_running)))
unfolding register
register_outcome vm m = elim (Bool-cases (vm.name =t codes "corectld")) [
  | inl r ↦ inr (inl ((=t_iff vm.name (codes "corectld")).0 r, rw r refl))
  | inr r ↦
      let not_reserved : vm.name ≢ codes "corectld" =
        ground (arith, =t_iff vm.name (codes "corectld")) in
      elim (Bool-cases (lookup_vm vm m)) [
        | inl e ↦
            inr (inr (not_reserved, (λ a. ground (arith, lookup_of_Apart vm m a)), rw (r, e) refl))
        | inr e ↦
            let apart = fresh_of_lookup vm m e in
            inl (not_reserved, apart, rw (r, e, insert_fresh vm m apart) refl)
      ]
]

pub lookup-Apart :
    (v w : Vm) (k : Text) (m : Active) → All (Apart v) m → lookup k m ≡ some w → v.name ≢ w.name
unfolding lookup
lookup-Apart v w k [] h e = cc
lookup-Apart v w k ((j, x) ∷ m) h e =
    ground (arith, λ (p : lookup k m ≡ some w). lookup-Apart v w k m h.1 p)

-- Two VMs under different UUIDs have different names.
pub names_differ :
    (a b : Text) (v w : Vm) (m : Active)
    → IsUnique m
    → lookup a m ≡ some v
    → lookup b m ≡ some w
    → a ≢ b
    → v.name ≢ w.name
unfolding lookup
names_differ a b v w [] u e f d = cc
names_differ a b v w ((j, x) ∷ m) u e f d = elim (Bool-cases (j =t a)) [
  | inl p ↦
      ground
        (arith, =t_iff j a, =t_iff j b, λ (q : lookup b m ≡ some w). lookup-Apart x w b m u.1 q)
  | inr p ↦ ground (
    arith,
    =t_iff j a,
    =t_iff j b,
    λ (q : lookup a m ≡ some v). lookup-Apart x v a m u.1 q,
    λ (q : lookup a m ≡ some v) (r : lookup b m ≡ some w). names_differ a b v w m u.2 q r d,
  )
]
