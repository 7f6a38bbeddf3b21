-- ===== src/System/Moves.antt =====
-- components/server: what each handler does to the state that they share.
use mathlib.Core.Path.{subst}
use corectl.Base.{
  suc, ◌≤◌, Bool, true, false, not, inl, inr, ◌⊎◌, Option, none, List, [], ◌∷◌, ◌≡◌, refl, sym,
  arith, length, values, if_elim, Outcome, returns, hangs, panics,
}
use corectl.Coreos.{Semver}
use corectl.Daemon.{Daemon, Error}
use corectl.Registry.{Active}
use corectl.Registry.Change.{Change, same}
use corectl.Services.{Query, Served}
use corectl.Services.Frame.{Kept}
use corectl.Shutdown
use corectl.Shutdown.{Stopped, Sent, stop_vms, stop, after_shutdown, report_stop, shut_down}
use corectl.Shutdown.Changes.{Changes, Changed, shut_down-Changes}
use corectl.System.{
  active_after, map_after, State, settle, after_signal, after_report, after_receipt, after_send,
}
use corectl.Vm.{Chan, send}

-- `Oops` has room for one report, and nobody closes it.
pub record HasRoom (c : Chan (Option Error)) : Type 0 where
  pub room : length c.buffer ≤ 1
  pub is_open : c.closed ≡ false

pub RoomAfter : Outcome (Chan (Option Error)) → Type 0
RoomAfter (returns c) = HasRoom c
RoomAfter hangs = Unit
RoomAfter panics = ⊥

pub send-RoomAfter : (r : Option Error) (c : Chan (Option Error)) → HasRoom c → RoomAfter (send r c)
unfolding send RoomAfter
send-RoomAfter r c h = ground arith

pub map_after-Change :
    {A : Type 0} (m : Active) (r : Outcome (A × Active)) → Changes m r → Change m (map_after m r)
map_after-Change m (returns (x, n)) c = c
map_after-Change m hangs c = same m
map_after-Change m panics c = same m

pub active_after-Change :
    (m : Active) (r : Outcome Stopped) → Changed m r → Change m (active_after m r)
active_after-Change m (returns r) c = c
active_after-Change m hangs c = same m
active_after-Change m panics c = same m

-- What a step other than `Run` does to the state that the handlers share.
pub record Moves {V : Type 0} (d e : Daemon V) : Type 0 where
  pub change : Change d.active e.active
  pub accepting : (e.accepting_requests ≡ d.accepting_requests) ⊎ (e.accepting_requests ≡ false)
  pub reports : HasRoom e.oops

module _ {V : Type 0} (d : Daemon V) (h : HasRoom d.oops) where
  pub unmoved : Moves d d
  unmoved = record { change = same d.active; accepting = inl refl; reports = h }

  report_stop-Moves :
      (s : List Sent) (e : Daemon V) (r : Outcome (Chan (Option Error)))
      → Change d.active e.active
      → e.accepting_requests ≡ false
      → HasRoom e.oops
      → RoomAfter r
      → Moves d (report_stop s e r).1
  unfolding report_stop RoomAfter
  report_stop-Moves s e (returns c) x a k r = record { change = x; accepting = inr a; reports = r }
  report_stop-Moves s e hangs x a k r = record { change = x; accepting = inr a; reports = k }
  report_stop-Moves s e panics x a k r = absurd r

  after_shutdown-Moves :
      (r : Outcome (List Sent × Active))
      → Changes d.active r
      → Moves d (after_shutdown (record d { accepting_requests = false }) r).1
  unfolding after_shutdown
  after_shutdown-Moves (returns (s, m)) c =
      report_stop-Moves s (record d { accepting_requests = false; active = m }) (send none d.oops) c
        refl h (send-RoomAfter none d.oops h)
  after_shutdown-Moves hangs c = record {
    change = same d.active;
    accepting = inr refl;
    reports = h;
  }
  after_shutdown-Moves panics c = record {
    change = same d.active;
    accepting = inr refl;
    reports = h;
  }

  pub stop-Moves : (g : Shutdown.Host) → Moves d (stop g d).1
  unfolding stop
  stop-Moves g =
      if_elim {A = Outcome (List Sent) × Daemon V × Option Error} (λ x. Moves d x.1)
        (not d.accepting_requests) _ _ unmoved
        (after_shutdown-Moves (shut_down g (values d.active) d.active)
          (shut_down-Changes g (values d.active) d.active))

  pub change-Moves : (m : Active) → Change d.active m → Moves d (record d { active = m })
  change-Moves m c = record { change = c; accepting = inl refl; reports = h }

module _ (s : Semver) where
  pub settle-Moves :
      (q : Query s) (a : State s) (r : Outcome (Served s))
      → HasRoom a.daemon.oops
      → Kept s a.daemon r
      → Moves a.daemon (settle s q a r).daemon
  settle-Moves q a (returns r) h k = record {
    change = subst (λ m. Change a.daemon.active m) (sym k.active) (same a.daemon.active);
    accepting = inl k.accepting;
    reports = subst HasRoom (sym k.oops) h;
  }
  settle-Moves q a hangs h k = unmoved a.daemon h
  settle-Moves q a panics h k = unmoved a.daemon h

  pub after_signal-Moves :
      (g : Shutdown.Host) (a : State s) (r : Outcome (Chan (Option Error)))
      → HasRoom a.daemon.oops
      → RoomAfter r
      → Moves a.daemon (after_signal s g a r).daemon
  unfolding RoomAfter
  after_signal-Moves g a (returns c) h r =
      let m = a.daemon.active in
      record {
        change = map_after-Change m (shut_down g (values m) m) (shut_down-Changes g (values m) m);
        accepting = inl refl;
        reports = r;
      }
  after_signal-Moves g a hangs h r = unmoved a.daemon h
  after_signal-Moves g a panics h r = absurd r

  pub after_report-Moves :
      (a : State s) (b : Bool) (es : List (Option Error))
      → HasRoom a.daemon.oops
      → a.daemon.oops.buffer ≡ es
      → Moves a.daemon (after_report s a b es).daemon
  after_report-Moves a true [] h q = unmoved a.daemon h
  after_report-Moves a false es h q = unmoved a.daemon h
  after_report-Moves a true (e ∷ es) h q = record {
    change = same a.daemon.active;
    accepting = inr refl;
    reports = record {
      room = let r : suc (length es) ≤ 1 = subst (λ l. length l ≤ 1) q h.room in omega arith;
      is_open = h.is_open;
    };
  }

  pub after_receipt-Moves :
      (a : State s) (b : Bool) (es : List (Option Error))
      → HasRoom a.daemon.oops
      → a.daemon.oops.buffer ≡ es
      → Moves a.daemon (after_receipt s a b es).daemon
  after_receipt-Moves a true [] h q = unmoved a.daemon h
  after_receipt-Moves a false es h q = unmoved a.daemon h
  after_receipt-Moves a true (e ∷ es) h q = record {
    change = same a.daemon.active;
    accepting = inl refl;
    reports = record {
      room = let r : suc (length es) ≤ 1 = subst (λ l. length l ≤ 1) q h.room in omega arith;
      is_open = h.is_open;
    };
  }

  pub after_send-Moves :
      (a : State s) (r : Outcome (Chan (Option Error)))
      → HasRoom a.daemon.oops
      → RoomAfter r
      → Moves a.daemon (after_send s a r).daemon
  unfolding RoomAfter
  after_send-Moves a (returns c) h r = record {
    change = same a.daemon.active;
    accepting = inl refl;
    reports = r;
  }
  after_send-Moves a hangs h r = unmoved a.daemon h
  after_send-Moves a panics h r = absurd r
