-- ===== src/System/Reported.antt =====
-- components/server/server.go: a report in `Oops` stays there until `Start` receives.
use mathlib.Core.Path.{subst}
use corectl.Base.{
  if_elim, Bool, true, false, Option, none, List, [], ◌∷◌, ◌≡◌, refl, sym, ◌∙◌, Outcome, returns,
  hangs, panics,
}
use corectl.Coreos.{Semver}
use corectl.Daemon.{Error}
use corectl.Services.{Query, Served}
use corectl.Services.Frame.{Kept, serve-Kept}
use corectl.Shutdown
use corectl.Shutdown.{Sent, stop, after_shutdown, report_stop, shut_down}
use corectl.System.{
  State, Event, serves, runs, stops_vms, stops, is_called, is_seen, lives, reaps, catches_signal,
  api_reports, receives, act, wait, asks_lock, handle, settle, after_send, after_receipt,
  after_signal, after_report, stays, steps,
}
use corectl.System.Lock.{handle_free}
use corectl.System.Invariant.{IsSound, Reaches-IsSound, Reaches-IsClosing}
use corectl.Vm.{Chan, send}
use corectl.System.Report.{HasReport, Sending, send-Sending, enter-oops, stop-HasReport}

module _ (s : Semver) where
  -- `Start` is in its select and a report waits for it, or it has left the select and the server
  -- takes no more requests.
  pub data Reported (a : State s) : Type 0 where
    waiting : a.serving ≡ true → HasReport a.daemon.oops → Reported a
    received : a.serving ≡ false → a.daemon.accepting_requests ≡ false → Reported a

  settle-Reported :
      (q : Query s) (a : State s) (r : Outcome (Served s))
      → a.serving ≡ true
      → HasReport a.daemon.oops
      → Kept s a.daemon r
      → Reported (settle s q a r)
  settle-Reported q a (returns r) t h k = waiting t (subst HasReport (sym k.oops) h)
  settle-Reported q a hangs t h k = waiting t h
  settle-Reported q a panics t h k = waiting t h

  after_signal-Reported :
      (g : Shutdown.Host) (a : State s) (r : Outcome (Chan (Option Error)))
      → a.serving ≡ true
      → Sending a.daemon.oops r
      → Reported (after_signal s g a r)
  unfolding Sending
  after_signal-Reported g a (returns c) t q = waiting t q
  after_signal-Reported g a hangs t q = waiting t q
  after_signal-Reported g a panics t q = absurd q

  pub signal-Reported :
      (g : Shutdown.Host) (a : State s)
      → IsSound s a
      → a.serving ≡ true
      → Reported (act s (catches_signal g) a)
  unfolding act
  signal-Reported g a i t =
      after_signal-Reported g a (send none a.daemon.oops) t
        (send-Sending none a.daemon.oops i.reports.is_open)

  -- `Start` has left its select, and the server takes no more requests.
  unfoldable pub IsOver : State s → Type 0
  IsOver a = (a.serving ≡ false) × (a.daemon.accepting_requests ≡ false)

  pub after_report-IsOver :
      (a : State s) (b : Bool) (l : List (Option Error)) (e : Option Error)
      (es : List (Option Error))
      → b ≡ true
      → l ≡ e ∷ es
      → IsOver (after_report s a b l)
  unfolding IsOver
  after_report-IsOver a true [] e es t q = absurd (cc)
  after_report-IsOver a true (x ∷ xs) e es t q = (refl, refl)
  after_report-IsOver a false l e es t q = absurd (cc)

  settle-serving :
      (q : Query s) (a : State s) (r : Outcome (Served s)) → (settle s q a r).serving ≡ a.serving
  settle-serving q a (returns r) = refl
  settle-serving q a hangs = refl
  settle-serving q a panics = refl

  after_send-serving :
      (a : State s) (r : Outcome (Chan (Option Error))) → (after_send s a r).serving ≡ a.serving
  after_send-serving a (returns c) = refl
  after_send-serving a hangs = refl
  after_send-serving a panics = refl

  after_send-Reported :
      (a : State s) (r : Outcome (Chan (Option Error)))
      → a.serving ≡ true
      → Sending a.daemon.oops r
      → Reported (after_send s a r)
  unfolding Sending
  after_send-Reported a (returns c) t q = waiting t q
  after_send-Reported a hangs t q = waiting t q
  after_send-Reported a panics t q = absurd q

  after_receipt-left :
      (a : State s) (b : Bool) (l : List (Option Error))
      → b ≡ false
      → (after_receipt s a b l).serving ≡ a.serving
  after_receipt-left a true l t = absurd (cc)
  after_receipt-left a false l t = refl

  after_signal-serving :
      (g : Shutdown.Host) (a : State s) (r : Outcome (Chan (Option Error)))
      → (after_signal s g a r).serving ≡ a.serving
  after_signal-serving g a (returns c) = refl
  after_signal-serving g a hangs = refl
  after_signal-serving g a panics = refl

  after_report-left :
      (a : State s) (b : Bool) (l : List (Option Error))
      → b ≡ false
      → (after_report s a b l).serving ≡ a.serving
  after_report-left a true l t = absurd (cc)
  after_report-left a false l t = refl

  act-left : (e : Event s) (a : State s) → a.serving ≡ false → (act s e a).serving ≡ false
  unfolding act
  act-left (serves h q) a t = settle-serving q a _ ∙ t
  act-left (catches_signal h) a t = after_signal-serving h a _ ∙ t
  act-left receives a t = after_report-left a a.serving a.daemon.oops.buffer t ∙ t
  act-left (runs made now vm) a t = t
  act-left (stops_vms h pick forced input) a t = t
  act-left (stops h) a t = t
  act-left (is_called n sender uuid) a t = t
  act-left (is_seen n sender uuid) a t = t
  act-left (lives uuid w r e) a t = t
  act-left (reaps vm) a t = t
  act-left (api_reports r) a t = after_send-serving a _ ∙ t

  wait-left : (e : Event s) (a : State s) → a.serving ≡ false → (wait s e a).serving ≡ false
  unfolding wait
  wait-left (lives uuid w r e) a t =
      if_elim {A = State s} (λ b. b.serving ≡ false) (asks_lock e) _ _ t t
  wait-left (catches_signal h) a t = after_send-serving a _ ∙ t
  wait-left (api_reports r) a t = after_send-serving a _ ∙ t
  wait-left receives a t = after_receipt-left a a.serving a.daemon.oops.buffer t ∙ t
  wait-left _ a t = t

  -- `Start` does not come back to its select.
  handle-left : (e : Event s) (a : State s) → a.serving ≡ false → (handle s e a).serving ≡ false
  unfolding handle
  handle-left e a t =
      if_elim {A = State s} (λ b. b.serving ≡ false) a.locked _ _ (wait-left e a t) (act-left e a t)

  pub handle-IsOver : (e : Event s) (a : State s) → IsSound s a → IsOver a → IsOver (handle s e a)
  unfolding IsOver
  handle-IsOver e a i (t, u) =
      let b = handle s e a in
      (handle-left e a t, (Reaches-IsClosing s a b (steps e a b (stays b)) i u).refuses)

  over-Reported : (a : State s) → IsOver a → Reported a
  unfolding IsOver
  over-Reported a (t, u) = received t u

  act_waiting :
      (e : Event s) (a : State s)
      → IsSound s a
      → a.serving ≡ true
      → HasReport a.daemon.oops
      → Reported (act s e a)
  unfolding act HasReport
  act_waiting (serves h q) a i t r = settle-Reported q a _ t r (serve-Kept s h q a.daemon a.store)
  act_waiting (runs made now vm) a i t r =
      waiting t (subst HasReport (sym (enter-oops made now vm a.daemon)) r)
  act_waiting (stops h) a i t r = waiting t (stop-HasReport h a.daemon i.reports.is_open r)
  act_waiting (catches_signal h) a i t r =
      after_signal-Reported h a _ t (send-Sending none a.daemon.oops i.reports.is_open)
  act_waiting receives a i t (e, es, q) =
      over-Reported _ (after_report-IsOver a a.serving a.daemon.oops.buffer e es t q)
  act_waiting (stops_vms h pick forced input) a i t r = waiting t r
  act_waiting (is_called n sender uuid) a i t r = waiting t r
  act_waiting (is_seen n sender uuid) a i t r = waiting t r
  act_waiting (lives uuid w r e) a i t q = waiting t q
  act_waiting (reaps vm) a i t r = waiting t r
  act_waiting (api_reports r) a i t h =
      after_send-Reported a _ t (send-Sending r a.daemon.oops i.reports.is_open)

  pub handle-Reported :
      (e : Event s) (a : State s)
      → IsSound s a
      → a.locked ≡ false
      → Reported a
      → Reported (handle s e a)
  unfolding IsOver
  handle-Reported e a i f (waiting t r) =
      subst Reported (sym (handle_free s e a f)) (act_waiting e a i t r)
  handle-Reported e a i f (received t u) = over-Reported _ (handle-IsOver e a i (t, u))

  pub handle-IsSound : (e : Event s) (a : State s) → IsSound s a → IsSound s (handle s e a)
  handle-IsSound e a i = let b = handle s e a in Reaches-IsSound s a b (steps e a b (stays b)) i
