-- ===== src/System/Drain.antt =====
-- components/server: how the map of running VMs becomes empty once the server takes no more requests.
use corectl.Base.{
  ap, false, none, some, List, [], ◌∷◌, Text, ◌≡◌, refl, ◌∙◌, =t_refl, All, lookup, lookup-delete,
  Option-cases, inl, inr,
}
use mathlib.Core.List.{Memᴰ}
use mathlib.Core.List.Memᴰ.{head, tail}
use mathlib.Core.Path.{subst}
use corectl.Coreos.{Semver}
use corectl.Registry.{Active, deregister}
use corectl.Registry.Change.{Held, All_lookup}
use corectl.System.{State, Event, reaps, act, handle, Reaches, stays, steps}
use corectl.System.Changes.{lookup_own}
use corectl.System.Invariant.{IsSound, Reaches-IsSound, IsClosing, Reaches-IsClosing}
use corectl.System.Lock.{handle_free, handle_was_free}
use corectl.Vm.{Vm}

module _ (s : Semver) where
  -- The state after some events.
  unfoldable pub run : List (Event s) → State s → State s
  run [] a = a
  run (e ∷ es) a = run es (handle s e a)

  pub run-Reaches : (es : List (Event s)) (a : State s) → Reaches s a (run es a)
  unfolding run
  run-Reaches [] a = stays a
  run-Reaches (e ∷ es) a = steps e a (run es (handle s e a)) (run-Reaches es (handle s e a))

  closed :
      (es : List (Event s)) (a : State s)
      → IsSound s a
      → a.daemon.accepting_requests ≡ false
      → IsClosing s a (run es a)
  closed es a i t = Reaches-IsClosing s a (run es a) (run-Reaches es a) i t

  pub run_was_free :
      (es : List (Event s)) (a : State s) → (run es a).locked ≡ false → a.locked ≡ false
  unfolding run
  run_was_free [] a f = f
  run_was_free (e ∷ es) a f = handle_was_free s e a (run_was_free es (handle s e a) f)

  -- A VM that is gone does not come back.
  stays_gone :
      (k : Text) (es : List (Event s)) (a : State s)
      → IsSound s a
      → a.daemon.accepting_requests ≡ false
      → lookup k a.daemon.active ≡ none
      → lookup k (run es a).daemon.active ≡ none
  stays_gone k es a i t n = elim (Option-cases (lookup k (run es a).daemon.active)) [
    | inl e ↦ e
    | inr (v, e) ↦
        let (w, f, p) =
          All_lookup (Held a.daemon.active) k v (run es a).daemon.active (closed es a i t).within
            e in
        absurd (cc)
  ]

  reaped :
      (v : Vm) (es : List (Event s)) (a : State s)
      → IsSound s a
      → a.daemon.accepting_requests ≡ false
      → (run es a).locked ≡ false
      → Memᴰ (reaps v) es
      → lookup v.uuid (run es a).daemon.active ≡ none
  unfolding run act deregister
  reaped v [] a i t f o = elim o [ ]
  reaped v (e ∷ es) a i t f (tail o) =
      let c = handle s e a in
      let step = steps e a c (stays c) in
      reaped v es c (Reaches-IsSound s a c step i) (Reaches-IsClosing s a c step i t).refuses f o
  reaped v (e ∷ es) a i t f (head q) =
      let c = handle s e a in
      let step = steps e a c (stays c) in
      stays_gone v.uuid es c (Reaches-IsSound s a c step i)
        (Reaches-IsClosing s a c step i t).refuses
        (subst (λ x. lookup v.uuid (handle s x a).daemon.active ≡ none) q
          (ap (λ (b : State s). lookup v.uuid b.daemon.active)
              (handle_free s (reaps v) a (run_was_free (e ∷ es) a f))
            ∙ lookup-delete v.uuid v.uuid a.daemon.active
            ∙ rw (=t_refl v.uuid) refl))

  first_held : (k : Text) (v : Vm) (m : Active) → lookup k ((k, v) ∷ m) ≡ some v
  unfolding lookup
  first_held k v m = rw (=t_refl k) refl

  empty :
      (es : List (Event s)) (a : State s) (m : Active)
      → IsSound s a
      → a.daemon.accepting_requests ≡ false
      → (run es a).locked ≡ false
      → All (λ e. Memᴰ (reaps e.1) es) a.daemon.active
      → (run es a).daemon.active ≡ m
      → m ≡ []
  empty es a [] i t g h e = refl
  empty es a ((k, v) ∷ m) i t g h e =
      let last : lookup k (run es a).daemon.active ≡ some v = rw e (first_held k v m) in
      let (w, f, p) =
        All_lookup (Held a.daemon.active) k v (run es a).daemon.active (closed es a i t).within
          last in
      let gone =
        reaped w es a i t g (All_lookup (λ e. Memᴰ (reaps e.1) es) k w a.daemon.active h f) in
      absurd (cc (last, gone, lookup_own k w a.daemon.active i.unique f))

  -- Once the server takes no more requests, and the process of each VM that runs then ends at some
  -- time, no VM runs afterwards, whatever else happens before, between and after, if no handler
  -- panics with the lock.
  pub run-reaps :
      (es : List (Event s)) (a : State s)
      → IsSound s a
      → a.daemon.accepting_requests ≡ false
      → (run es a).locked ≡ false
      → All (λ e. Memᴰ (reaps e.1) es) a.daemon.active
      → (run es a).daemon.active ≡ []
  run-reaps es a i t g h = empty es a (run es a).daemon.active i t g h refl
