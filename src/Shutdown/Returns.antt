-- ===== src/Shutdown/Returns.antt =====
-- components/server/run.go: a shutdown that returns has found for each VM a process that ends.
use mathlib.Core.List.{Memᴰ}
use corectl.Base.{
  Bool, true, false, not, Bool-cases, Option-cases, inl, inr, some, List, [], ◌∷◌, Text, ◌≡◌, refl,
  All, arith, ltb, lookup, delete, lookup-delete, if◌then◌else◌, Outcome, returns, hangs, panics,
}
use corectl.Registry.{Active, deregister}
use corectl.Shutdown.{
  Host, Sent, prepend, ends, gracefully_shutdown, while_waiting, delete_all, shut_down_each,
  shut_down, insert_vm, newest_first,
}
use corectl.Vm.{Vm, has_process}

-- The entry of the VM's UUID has a process, which ends when it is signalled.
abbrev pub Runs : Host → Active → Vm → Type 0
Runs h m v = (w : Vm) × (lookup v.uuid m ≡ some w) × (has_process w.exec ≡ true) × (ends h w ≡ true)

-- What is in the map after deletions was there before.
delete-lookup :
    (k j : Text) (m : Active) (w : Vm) → lookup j (delete k m) ≡ some w → lookup j m ≡ some w
delete-lookup k j m w e = ground (arith, lookup-delete k j m)

delete_all-lookup :
    (ks : List Text) (j : Text) (m : Active) (w : Vm)
    → lookup j (delete_all ks m) ≡ some w
    → lookup j m ≡ some w
unfolding delete_all
delete_all-lookup [] j m w e = e
delete_all-lookup (k ∷ ks) j m w e = delete-lookup k j m w (delete_all-lookup ks j (delete k m) w e)

while_waiting-lookup :
    (h : Host) (v : Vm) (j : Text) (m : Active) (w : Vm)
    → lookup j (while_waiting h v m) ≡ some w
    → lookup j m ≡ some w
unfolding while_waiting deregister
while_waiting-lookup h v j m w e =
    delete-lookup v.uuid j m w (delete_all-lookup (h.also_gone v) j (delete v.uuid m) w e)

earlier-Runs :
    (h : Host) (v : Vm) (m : Active) (vs : List Vm)
    → All (Runs h (while_waiting h v m)) vs
    → All (Runs h m) vs
earlier-Runs h v m [] r = tt
earlier-Runs h v m (u ∷ vs) ((w, e, p, d), r) =
    ((w, while_waiting-lookup h v u.uuid m w e, p, d), earlier-Runs h v m vs r)

-- A shutdown that returns has found for each VM a process that ends.
unfoldable pub RunsIf : Host → List Vm → Active → Outcome (List Sent × Active) → Type 0
RunsIf h vs m (returns r) = All (Runs h m) vs
RunsIf h vs m hangs = Unit
RunsIf h vs m panics = Unit

turn-RunsIf :
    (h : Host) (v w : Vm) (vs : List Vm) (m : Active) (s : List Sent) (b c : Bool)
    (r : Outcome (List Sent × Active))
    → lookup v.uuid m ≡ some w
    → has_process w.exec ≡ b
    → ends h w ≡ c
    → RunsIf h vs (while_waiting h w m) r
    → RunsIf h (v ∷ vs) m (if not b then panics else if c then prepend s r else hangs)
unfolding RunsIf
turn-RunsIf h v w vs m s false c r t q d k = tt
turn-RunsIf h v w vs m s true false r t q d k = tt
turn-RunsIf h v w vs m s true true hangs t q d k = tt
turn-RunsIf h v w vs m s true true panics t q d k = tt
turn-RunsIf h v w vs m s true true (returns x) t q d k = ((w, t, q, d), earlier-Runs h w m vs k)

shut_down_each-RunsIf :
    (h : Host) (vs : List Vm) (m : Active) → RunsIf h vs m (shut_down_each h vs m)
unfolding shut_down_each RunsIf
shut_down_each-RunsIf h [] m = tt
shut_down_each-RunsIf h (v ∷ vs) m = elim (Option-cases (lookup v.uuid m)) [
  | inl t ↦ rw (t, RunsIf) tt
  | inr (w, t) ↦
      rw (t, RunsIf)
        (turn-RunsIf h v w vs m (gracefully_shutdown h w) (has_process w.exec) (ends h w) _ t refl
          refl (shut_down_each-RunsIf h vs (while_waiting h w m)))
]

All-insert_vm : (P : Vm → Type 0) (v : Vm) (vs : List Vm) → All P (insert_vm v vs) → P v × All P vs
unfolding insert_vm
All-insert_vm P v [] a = a
All-insert_vm P v (w ∷ ws) a = elim (Bool-cases (ltb v.creation_time w.creation_time)) [
  | inl t ↦ let b = rw t at a in let (p, q) = All-insert_vm P v ws b.1 in (p, (b.0, q))
  | inr t ↦ let b = rw t at a in (b.0, b.1)
]

All_of_newest_first : (P : Vm → Type 0) (vs : List Vm) → All P (newest_first vs) → All P vs
unfolding newest_first
All_of_newest_first P [] a = tt
All_of_newest_first P (v ∷ vs) a =
    let (p, q) = All-insert_vm P v (newest_first vs) a in (p, All_of_newest_first P vs q)

pub shut_down-RunsIf : (h : Host) (vs : List Vm) (m : Active) → RunsIf h vs m (shut_down h vs m)
unfolding shut_down RunsIf
shut_down-RunsIf h vs m =
    go (shut_down_each h (newest_first vs) m) (shut_down_each-RunsIf h (newest_first vs) m)
  where
    go : (r : Outcome (List Sent × Active)) → RunsIf h (newest_first vs) m r → RunsIf h vs m r
    go (returns x) a = All_of_newest_first (Runs h m) vs a
    go hangs a = tt
    go panics a = tt
