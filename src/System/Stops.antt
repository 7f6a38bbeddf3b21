-- ===== src/System/Stops.antt =====
-- components/server/server.go: from a signal to the end of the last VM.
use mathlib.Core.List.{Memᴰ}
use mathlib.Core.Path.{subst}
use corectl.Base.{true, false, List, [], ◌∷◌, ◌≡◌, sym, All}
use corectl.Coreos.{Semver}
use corectl.Shutdown
use corectl.Shutdown.{Sent, stop, after_shutdown, report_stop, shut_down}
use corectl.System.{State, Event, reaps, catches_signal, receives, act, handle}
use corectl.System.Drain.{run, run-Reaches, run_was_free, run-reaps}
use corectl.System.Lock.{handle_free, handle_was_free}
use corectl.System.Invariant.{IsSound, Reaches-IsSound}
use corectl.System.Report.{HasReport}
use corectl.System.Reported.{
  Reported, waiting, received, IsOver, signal-Reported, after_report-IsOver, handle-IsOver,
  handle-Reported, handle-IsSound,
}

module _ (s : Semver) where
  run-Reported :
      (es : List (Event s)) (a : State s)
      → IsSound s a
      → (run s es a).locked ≡ false
      → Reported s a
      → Reported s (run s es a)
  unfolding run
  run-Reported [] a i f r = r
  run-Reported (e ∷ es) a i f r =
      run-Reported es (handle s e a) (handle-IsSound s e a i) f
        (handle-Reported s e a i (run_was_free s (e ∷ es) a f) r)

  run-IsOver :
      (es : List (Event s)) (a : State s) → IsSound s a → IsOver s a → IsOver s (run s es a)
  unfolding run
  run-IsOver [] a i o = o
  run-IsOver (e ∷ es) a i o =
      run-IsOver es (handle s e a) (handle-IsSound s e a i) (handle-IsOver s e a i o)

  receives-IsOver :
      (a : State s) → IsSound s a → a.locked ≡ false → Reported s a → IsOver s (handle s receives a)
  unfolding act IsOver HasReport
  receives-IsOver a i f (waiting t (e, es, q)) =
      subst (IsOver s) (sym (handle_free s receives a f))
        (after_report-IsOver s a a.serving a.daemon.oops.buffer e es t q)
  receives-IsOver a i f (received t u) = handle-IsOver s receives a i (t, u)

  -- When a signal comes, then whatever handlers run before `Start` looks at `Oops` the next time, it
  -- finds a report there or has received one. If the processes of the VMs that run at that moment
  -- then end, whatever else runs meanwhile, then in the end no VM runs, `Start` has left its select,
  -- and the server takes no more requests. No handler may have panicked with the server's lock; and
  -- steps are whole handlers, so that no `Run` is under way when `Start` receives.
  pub signal_drains :
      (h : Shutdown.Host) (es fs : List (Event s)) (a : State s)
      → IsSound s a
      → a.serving ≡ true
      → (run s fs (handle s receives (run s es (handle s (catches_signal h) a)))).locked ≡ false
      → All
          (λ e. Memᴰ (reaps e.1) fs)
          (handle s receives (run s es (handle s (catches_signal h) a))).daemon.active
      → let b = run s fs (handle s receives (run s es (handle s (catches_signal h) a))) in
        (b.serving ≡ false) × (b.daemon.accepting_requests ≡ false) × (b.daemon.active ≡ [])
  unfolding IsOver
  signal_drains h es fs a i t f k =
      let b = handle s (catches_signal h) a in
      let sound_b = handle-IsSound s (catches_signal h) a i in
      let c = run s es b in
      let sound_c = Reaches-IsSound s b c (run-Reaches s es b) sound_b in
      let free_c = handle_was_free s receives c (run_was_free s fs (handle s receives c) f) in
      let free_a = handle_was_free s (catches_signal h) a (run_was_free s es b free_c) in
      let reported =
        subst (Reported s) (sym (handle_free s (catches_signal h) a free_a))
          (signal-Reported s h a i t) in
      let over = receives-IsOver c sound_c free_c (run-Reported es b sound_b free_c reported) in
      let sound = handle-IsSound s receives c sound_c in
      let (left, refuses) = run-IsOver fs (handle s receives c) sound over in
      (left, refuses, run-reaps s fs (handle s receives c) sound over.1 f k)
