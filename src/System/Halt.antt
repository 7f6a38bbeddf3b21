-- ===== src/System/Halt.antt =====
-- components/server/rpcservices.go and server.go: `Stop` on a server whose VMs end when signalled.
use mathlib.Core.Path.{subst}
use corectl.Base.{
  true, false, none, [], ◌∷◌, ◌≡◌, refl, sym, ap, ◌∙◌, =t_refl, All, Text, lookup, values, returns,
}
use corectl.Coreos.{Semver}
use corectl.Daemon.{Daemon}
use corectl.Registry.{Active}
use corectl.Registry.Unique.{IsUnique}
use corectl.Shutdown.{Host, stop, after_shutdown, report_stop, shut_down, newest_first}
use corectl.Shutdown.Graceful.{
  IsCalm, Halts, shut_down-Stops, values-AreDistinct, values-IsListed, lookup-values, signals,
}
use corectl.System.{State, stops, receives, act, handle}
use corectl.System.Lock.{handle_free}
use corectl.System.Invariant.{IsSound}
use corectl.System.Signal.{send_first}

none_left : (n : Active) → ((k : Text) → lookup k n ≡ none) → n ≡ []
unfolding lookup
none_left [] h = refl
none_left ((k, v) ∷ n) h = absurd (cc (h k, =t_refl k))

all_gone :
    (h : Host) (m : Active)
    → IsUnique m
    → IsCalm h
    → All (Halts h) (values m)
    → shut_down h (values m) m ≡ returns (signals h (newest_first (values m)), [])
all_gone h m u calm ends =
    let (n, run, left) =
      shut_down-Stops h (values m) m calm ends (values-AreDistinct m u) (values-IsListed m u) in
    run
    ∙ ap (λ l. returns (signals h (newest_first (values m)), l))
        (none_left n (λ k. left k ∙ lookup-values k m u))

-- The server's state when `Stop` returns.
abbrev emptied : {V : Type 0} → Daemon V → Daemon V
emptied d = record d {
  accepting_requests = false;
  active = [];
  oops = record d.oops { buffer = none ∷ [] };
}

stop_all_gone :
    {V : Type 0} (h : Host) (d : Daemon V)
    → d.accepting_requests ≡ true
    → IsUnique d.active
    → d.oops.closed ≡ false
    → d.oops.buffer ≡ []
    → IsCalm h
    → All (Halts h) (values d.active)
    → stop h d ≡ (returns (signals h (newest_first (values d.active))), emptied d, none)
unfolding stop after_shutdown report_stop
stop_all_gone h d up u o e calm ends =
    rw (up, all_gone h d.active u calm ends, send_first d.oops o e) refl

module _ (s : Semver) where
  -- `Start` has left its select, and nothing runs.
  abbrev pub IsStopped : State s → Type 0
  IsStopped b = (b.serving ≡ false) × (b.daemon.accepting_requests ≡ false) × (b.daemon.active ≡ [])

  emptied-received :
      (a : State s)
      → a.serving ≡ true
      → IsStopped (act s receives (record a { daemon = emptied a.daemon }))
  unfolding act
  emptied-received a t = rw t (refl, refl, refl)

  -- If no report waits in `Oops`, the lock is free, each VM of a server that takes requests has a process that ends when it is signalled, and none
  -- exits by itself meanwhile, then `Stop` returns without an error. It has signalled each VM once
  -- or twice, from the newest to the oldest; and when `Start` then receives the report, it leaves
  -- its select, no VM runs, and the server takes no more requests.
  pub stop_ends :
      (h : Host) (a : State s)
      → IsSound s a
      → a.locked ≡ false
      → a.serving ≡ true
      → a.daemon.accepting_requests ≡ true
      → a.daemon.oops.buffer ≡ []
      → IsCalm h
      → All (Halts h) (values a.daemon.active)
      → let r = stop h a.daemon in
        let b = handle s receives (handle s (stops h) a) in
        (r.0 ≡ returns (signals h (newest_first (values a.daemon.active))))
        × (r.2 ≡ none)
        × IsStopped b
  unfolding act
  stop_ends h a i f t up e calm ends =
      let q = stop_all_gone h a.daemon up i.unique i.reports.is_open e calm ends in
      let b = record a { daemon = (stop h a.daemon).1 } in
      (
        ap (λ r. r.0) q,
        ap (λ r. r.2) q,
        subst (λ c. IsStopped (handle s receives c)) (sym (handle_free s (stops h) a f))
            (subst IsStopped (sym (handle_free s receives b f)) (
              subst (λ d. IsStopped (act s receives (record a { daemon = d })))
                (sym (ap (λ r. r.1) q)) (emptied-received a t))),
      )
