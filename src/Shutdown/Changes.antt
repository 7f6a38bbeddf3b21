-- ===== src/Shutdown/Changes.antt =====
-- components/server/run.go and rpcservices.go: a shutdown only takes VMs out of the map.
use corectl.Base.{
  ℕ, Bool, true, false, not, inl, inr, Option-cases, List, [], ◌∷◌, Text, lookup, values, delete,
  length, get_elem?, ◌==◌, if_elim, Outcome, returns, hangs, panics,
}
use corectl.Daemon.{Daemon}
use corectl.Registry.{Active, deregister}
use corectl.Registry.Change.{Change, same, gone, both}
use corectl.Shutdown.{
  Host, Sent, Stopped, prepend, finish, ends, gracefully_shutdown, while_waiting, delete_all,
  shut_down_each, shut_down, newest_first, stop_targets, stop_all, stop_named, stop_vms, targets,
}
use corectl.Vm.{Vm, has_process}

-- What a shutdown that ends does to the map.
abbrev pub Changes : {A : Type 0} → Active → Outcome (A × Active) → Type 0
Changes m (returns (a, n)) = Change m n
Changes m hangs = Unit
Changes m panics = Unit

delete_all-Change : (ks : List Text) (m : Active) → Change m (delete_all ks m)
unfolding delete_all
delete_all-Change [] m = same m
delete_all-Change (k ∷ ks) m =
    both m (delete k m) (delete_all ks (delete k m)) (gone k m) (delete_all-Change ks (delete k m))

while_waiting-Change : (h : Host) (v : Vm) (m : Active) → Change m (while_waiting h v m)
unfolding while_waiting deregister
while_waiting-Change h v m =
    both m (delete v.uuid m) (delete_all (h.also_gone v) (delete v.uuid m)) (gone v.uuid m)
      (delete_all-Change (h.also_gone v) (delete v.uuid m))

prepend-Changes :
    (s : List Sent) (m n : Active) (r : Outcome (List Sent × Active))
    → Change m n
    → Changes n r
    → Changes m (prepend s r)
prepend-Changes s m n (returns (t, o)) c d = both m n o c d
prepend-Changes s m n hangs c d = tt
prepend-Changes s m n panics c d = tt

shut_down_each-Changes : (h : Host) (vs : List Vm) (m : Active) → Changes m (shut_down_each h vs m)
unfolding shut_down_each
shut_down_each-Changes h [] m = same m
shut_down_each-Changes h (v ∷ vs) m = elim (Option-cases (lookup v.uuid m)) [
  | inl t ↦ rw (t, Changes) tt
  | inr (w, t) ↦
      rw (t, Changes)
        (if_elim (Changes m) (not (has_process w.exec)) panics _ tt (
          if_elim (Changes m) (ends h w) _ hangs
            (prepend-Changes (gracefully_shutdown h w) m _ _ (while_waiting-Change h w m)
              (shut_down_each-Changes h vs (while_waiting h w m)))
            tt))
]

pub shut_down-Changes : (h : Host) (vs : List Vm) (m : Active) → Changes m (shut_down h vs m)
unfolding shut_down
shut_down-Changes h vs m = shut_down_each-Changes h (newest_first vs) m

-- The same for `StopVMs`.
abbrev pub Changed : Active → Outcome Stopped → Type 0
Changed m (returns r) = Change m r.active
Changed m hangs = Unit
Changed m panics = Unit

finish-Changed :
    (m : Active) (r : Outcome (List Sent × Active)) → Changes m r → Changed m (finish r)
finish-Changed m (returns (s, n)) c = c
finish-Changed m hangs c = tt
finish-Changed m panics c = tt

stop_targets-Changed :
    (h : Host) (forced : Bool) (output : List Text) (vs : List Vm) (m : Active)
    → Changed m (stop_targets h forced output vs m)
unfolding stop_targets
stop_targets-Changed h false output vs m =
    finish-Changed m (shut_down h vs m) (shut_down-Changes h vs m)
stop_targets-Changed h true output [] m = tt
stop_targets-Changed h true output (v ∷ vs) m =
    if_elim (Changed m) (has_process v.exec) _ panics (same m) tt

stop_all-Changed :
    (h : Host) (pick : ℕ) (forced : Bool) (m : Active) → Changed m (stop_all h pick forced m)
unfolding stop_all
stop_all-Changed h pick forced [] = same []
stop_all-Changed h pick false (e ∷ m) = stop_targets-Changed h false [] (values (e ∷ m)) (e ∷ m)
stop_all-Changed h pick true (e ∷ m) = elim (Option-cases (get_elem? (values (e ∷ m)) pick)) [
  | inl t ↦ rw (t, Changed) tt
  | inr (v, t) ↦ rw (t, Changed) (stop_targets-Changed h true (v.name ∷ []) (v ∷ []) (e ∷ m))
]

stop_named-Changed :
    (h : Host) (forced : Bool) (input : List Text) (m : Active)
    → Changed m (stop_named h forced input m)
unfolding stop_named
stop_named-Changed h forced input m =
    if_elim (Changed m) (length (targets input m) == length input) _ _
      (stop_targets-Changed h forced [] (targets input m) m) (same m)

pub stop_vms-Changed :
    {V : Type 0} (h : Host) (pick : ℕ) (forced : Bool) (input : List Text) (d : Daemon V)
    → Changed d.active (stop_vms h pick forced input d)
unfolding stop_vms
stop_vms-Changed h pick forced [] d =
    if_elim (Changed d.active) (not d.accepting_requests) _ _ (same d.active)
      (stop_all-Changed h pick forced d.active)
stop_vms-Changed h pick forced (t ∷ ts) d =
    if_elim (Changed d.active) (not d.accepting_requests) _ _ (same d.active)
      (stop_named-Changed h forced (t ∷ ts) d.active)
