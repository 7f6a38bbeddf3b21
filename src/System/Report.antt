-- ===== src/System/Report.antt =====
-- components/server: what the handlers do to a report that waits in `Oops`.
use corectl.Base.{
  ℕ, Bool, true, false, not, Option, none, some, List, ◌∷◌, ◌≡◌, refl, arith, values, if_elim,
  Outcome, returns, hangs, panics, Result,
}
use corectl.Daemon.{Daemon, Error}
use corectl.Lifecycle.{Boot, with_channels}
use corectl.Lifecycle.Entry.{enter, after_register}
use corectl.Registry.{Active, register}
use corectl.Shutdown
use corectl.Shutdown.{Sent, stop, after_shutdown, report_stop, shut_down}
use corectl.Vm.{Vm, Chan, send}

-- A report waits in the channel.
unfoldable pub HasReport : Chan (Option Error) → Type 0
HasReport c = (e : Option Error) × (es : List (Option Error)) × (c.buffer ≡ e ∷ es)

-- Once a report was sent, one waits, even if the sender does too.
unfoldable pub Sending : Chan (Option Error) → Outcome (Chan (Option Error)) → Type 0
Sending c (returns d) = HasReport d
Sending c hangs = HasReport c
Sending c panics = ⊥

pub send-Sending :
    (r : Option Error) (c : Chan (Option Error)) → c.closed ≡ false → Sending c (send r c)
unfolding send Sending HasReport
send-Sending r c o = ground arith

module _ {V : Type 0} where
  after_register-oops :
      (made : Bool) (now : ℕ) (vm : Vm) (d : Daemon V) (r : Active × Option Error)
      → (after_register made now vm d r).0.oops ≡ d.oops
  unfolding after_register
  after_register-oops made now vm d (m, some e) = refl
  after_register-oops true now vm d (m, none) = refl
  after_register-oops false now vm d (m, none) = refl

  pub enter-oops :
      (made : Bool) (now : ℕ) (vm : Vm) (d : Daemon V) → (enter made now vm d).0.oops ≡ d.oops
  unfolding enter
  enter-oops made now vm d =
      if_elim {A = Daemon V × Result Error Boot} (λ x. x.0.oops ≡ d.oops) (not d.accepting_requests)
        _ _ refl (after_register-oops made now vm d (register (with_channels vm) d.active))

  report_stop-HasReport :
      (sent : List Sent) (d : Daemon V) (r : Outcome (Chan (Option Error)))
      → HasReport d.oops
      → Sending d.oops r
      → HasReport (report_stop sent d r).1.oops
  unfolding report_stop Sending
  report_stop-HasReport sent d (returns c) h q = q
  report_stop-HasReport sent d hangs h q = h
  report_stop-HasReport sent d panics h q = h

  after_shutdown-HasReport :
      (d : Daemon V) (r : Outcome (List Sent × Active))
      → d.oops.closed ≡ false
      → HasReport d.oops
      → HasReport (after_shutdown d r).1.oops
  unfolding after_shutdown
  after_shutdown-HasReport d (returns (sent, m)) o h =
      report_stop-HasReport sent (record d { active = m }) _ h (send-Sending none d.oops o)
  after_shutdown-HasReport d hangs o h = h
  after_shutdown-HasReport d panics o h = h

  pub stop-HasReport :
      (g : Shutdown.Host) (d : Daemon V)
      → d.oops.closed ≡ false
      → HasReport d.oops
      → HasReport (stop g d).1.oops
  unfolding stop
  stop-HasReport g d o h =
      if_elim {A = Outcome (List Sent) × Daemon V × Option Error} (λ x. HasReport x.1.oops)
        (not d.accepting_requests) _ _ h
        (after_shutdown-HasReport (record d { accepting_requests = false })
          (shut_down g (values d.active) d.active) o h)
