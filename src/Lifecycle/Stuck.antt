-- ===== src/Lifecycle/Stuck.antt =====
-- components/server/rpcservices.go and run.go: `Stop` after a `Run` that could not make the VM's
-- directory.
use mathlib.Core.Path.{subst}
use corectl.Base.{
  ℕ, Bool, true, false, not, ◌⊎◌, inl, inr, Option, none, some, List, [], ◌∷◌, ◌++◌, codes, ◌≡◌,
  ◌≢◌, refl, sym, ap, ◌∙◌, =t_iff, =t_refl, All, arith, lookup, values, if◌then◌else◌, Outcome,
  returns, hangs, panics,
}
use corectl.Daemon.{Daemon, Error}
use corectl.Lifecycle.{with_channels}
use corectl.Lifecycle.Entry.{enter, entered, after_register, register_fresh}
use corectl.Registry.{Active}
use corectl.Registry.Unique.{Apart}
use corectl.Shutdown.{Host, Sent, shut_down, after_shutdown, stop}
use corectl.Vm.{Vm, has_process, unstarted}
use corectl.Shutdown.Returns.{Runs, RunsIf, shut_down-RunsIf}

-- The last entry of a map.
last-Runs :
    (h : Host) (w : Vm) (m n : Active)
    → All (Runs h n) (values (m ++ (w.uuid, w) ∷ []))
    → Runs h n w
last-Runs h w [] n a = a.0
last-Runs h w (e ∷ m) n a = last-Runs h w m n a.1

lookup_last :
    (v : Vm) (m : Active) → All (Apart v) m → lookup v.uuid (m ++ (v.uuid, v) ∷ []) ≡ some v
unfolding lookup
lookup_last v [] a = rw (=t_refl v.uuid) refl
lookup_last v ((k, w) ∷ m) a = ground (arith, =t_iff k v.uuid, lookup_last v m a.1)

is_stopped : (v w : Vm) → some w ≡ some v → has_process w.exec ≡ true → v.exec ≡ unstarted → ⊥
is_stopped v w e p q =
    let r : has_process v.exec ≡ true =
      subst (λ o. elim o as (λ o. Type 0) [ none ↦ Unit | some x ↦ has_process x.exec ≡ true ]) e
        p in
    absurd (cc (rw q at r))

-- The shutdown of a map whose last VM was not started.
shut_down_stuck :
    (h : Host) (v : Vm) (m : Active)
    → v.exec ≡ unstarted
    → All (Apart v) m
    → let n = m ++ (v.uuid, v) ∷ [] in
      let o = shut_down h (values n) n in (o ≡ hangs) ⊎ (o ≡ panics)
unfolding RunsIf
shut_down_stuck h v m q a =
    go _ (shut_down-RunsIf h (values (m ++ (v.uuid, v) ∷ [])) (m ++ (v.uuid, v) ∷ []))
  where
    go :
        (r : Outcome (List Sent × Active))
        → RunsIf h (values (m ++ (v.uuid, v) ∷ [])) (m ++ (v.uuid, v) ∷ []) r
        → (r ≡ hangs) ⊎ (r ≡ panics)
    go hangs k = inl refl
    go panics k = inr refl
    go (returns x) k =
        let (w, e, p, d) = last-Runs h v m (m ++ (v.uuid, v) ∷ []) k in
        absurd (is_stopped v w (sym e ∙ lookup_last v m a) p q)

-- `Stop` does not return and does not report to `Start`, and the server takes no more requests.
abbrev pub IsStuck :
    {V : Type 0} → Daemon V → Outcome (List Sent) × Daemon V × Option Error → Type 0
IsStuck d o =
    ((o.0 ≡ hangs) ⊎ (o.0 ≡ panics)) × (o.1.accepting_requests ≡ false) × (o.1.oops ≡ d.oops)

after_shutdown-IsStuck :
    {V : Type 0} (d : Daemon V) (o : Outcome (List Sent × Active))
    → (o ≡ hangs) ⊎ (o ≡ panics)
    → IsStuck d (after_shutdown (record d { accepting_requests = false }) o)
unfolding after_shutdown
after_shutdown-IsStuck d o (inl e) = rw e (inl refl, refl, refl)
after_shutdown-IsStuck d o (inr e) = rw e (inr refl, refl, refl)

if-IsStuck :
    {V : Type 0} (d : Daemon V) (b : Bool) (x y : Outcome (List Sent) × Daemon V × Option Error)
    → b ≡ true
    → IsStuck d y
    → IsStuck d (if not b then x else y)
if-IsStuck d true x y e k = k
if-IsStuck d false x y e k = absurd (cc)

stop-IsStuck :
    {V : Type 0} (h : Host) (v : Vm) (m : Active) (d : Daemon V)
    → d.accepting_requests ≡ true
    → v.exec ≡ unstarted
    → All (Apart v) m
    → let e : Daemon V = record d { active = m ++ (v.uuid, v) ∷ [] } in IsStuck e (stop h e)
unfolding stop
stop-IsStuck {V} h v m d up q a =
    let e : Daemon V = record d { active = m ++ (v.uuid, v) ∷ [] } in
    if-IsStuck e d.accepting_requests _ _ up
      (after_shutdown-IsStuck e _ (shut_down_stuck h v m q a))

-- A VM of a client whose directory cannot be made stays in the map without a process. From then on
-- `Stop` cannot stop the server: it takes no more requests, but whatever the other VMs do, the call
-- waits for ever or panics, and never reports to `Start`.
pub stop-enter :
    {V : Type 0} (h : Host) (now : ℕ) (vm : Vm) (d : Daemon V)
    → d.accepting_requests ≡ true
    → vm.name ≢ codes "corectld"
    → vm.exec ≡ unstarted
    → All (Apart vm) d.active
    → IsStuck (enter false now vm d).0 (stop h (enter false now vm d).0)
unfolding after_register
stop-enter {V} h now vm d up n q a =
    let w = with_channels vm in
    let e = entered false now vm d up _ (register_fresh w d.active n a) in
    subst (λ (x : Daemon V). IsStuck x (stop h x)) (ap (λ p. p.0) (sym e))
      (stop-IsStuck h w d.active d up q a)
