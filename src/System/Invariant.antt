-- ===== src/System/Invariant.antt =====
-- components/server: what holds of the server however its handlers and goroutines interleave.
use mathlib.Core.Path.{subst}
use corectl.Base.{
  none, some, lookup, insert, lookup-insert, =t_refl, ℕ, Bool, true, false, not, inl, inr, ◌⊎◌,
  Option, ◌≡◌, refl, sym, ap, ◌∙◌, arith, if◌then◌else◌, if_elim, err,
}
use corectl.Coreos.{Semver}
use corectl.Daemon.{Daemon, Error, server_shutting_down}
use corectl.Lifecycle.{with_channels}
use corectl.Lifecycle.Entry.{enter, after_register, stamped}
use corectl.Registry.{Active, register, deregister}
use corectl.Registry.Change.{
  Change, same, updated, gone, Within, change-IsUnique, change-Within, Within-refl, Within-trans,
}
use corectl.Registry.Unique.{IsUnique, register-IsUnique}
use corectl.Services.Frame.{serve-Kept}
use corectl.Shutdown.Changes.{stop_vms-Changed}
use corectl.System.{
  State, Event, serves, runs, stops_vms, stops, is_called, is_seen, lives, reaps, catches_signal,
  api_reports, receives, act, wait, asks_lock, handle, Reaches, stays, steps,
}
use corectl.System.Changes.{live-Change, external_connectivity-Change, instance_callback-Changes}
use corectl.System.Moves.{
  HasRoom, Moves, unmoved, after_send-Moves, after_receipt-Moves, stop-Moves, change-Moves,
  settle-Moves, after_signal-Moves, after_report-Moves, map_after-Change, active_after-Change,
  send-RoomAfter,
}
use corectl.Vm.{Vm}

-- What `Run` leaves of the state: all of it, or it took requests and has registered the VM, whose
-- entry may have changed since.
Entered : {V : Type 0} → Vm → Daemon V → Daemon V → Type 0
Entered vm d e =
    (e ≡ d)
    ⊎ ((n : Active) × (d.accepting_requests ≡ true)
        × (e ≡ record d { active = n })
        × Change (register (with_channels vm) d.active).0 n)

registered : (vm : Vm) (a m : Active) → register vm a ≡ (m, none) → lookup vm.uuid m ≡ some vm
unfolding register
registered vm a m e = ground (arith, lookup-insert vm.uuid vm.uuid vm a, =t_refl vm.uuid)

module _ {V : Type 0} (made : Bool) (now : ℕ) (vm : Vm) (d : Daemon V) where
  after_register-Entered :
      (b : Bool) (r : Active × Option Error)
      → d.accepting_requests ≡ true
      → register (with_channels vm) d.active ≡ r
      → Entered vm d (after_register b now vm d r).0
  unfolding after_register Entered
  after_register-Entered b (m, some e) q p =
      inr (m, q, refl, subst (λ n. Change n m) (ap (λ r. r.0) (sym p)) (same m))
  after_register-Entered true (m, none) q p = inr (
    insert vm.uuid (stamped now vm) m,
    q,
    refl,
    subst (λ n. Change n (insert vm.uuid (stamped now vm) m)) (ap (λ r. r.0) (sym p))
        (updated vm.uuid (with_channels vm) (stamped now vm) m
          (registered (with_channels vm) d.active m p) refl refl refl),
  )
  after_register-Entered false (m, none) q p =
      inr (m, q, refl, subst (λ n. Change n m) (ap (λ r. r.0) (sym p)) (same m))

  enter_if :
      (b : Bool)
      → d.accepting_requests ≡ b
      → Entered vm d
          (if not b
            then (d, err server_shutting_down)
            else after_register made now vm d (register (with_channels vm) d.active)).0
  unfolding Entered
  enter_if true q = after_register-Entered made (register (with_channels vm) d.active) q refl
  enter_if false q = inl refl

  enter-Entered : Entered vm d (enter made now vm d).0
  unfolding enter
  enter-Entered = enter_if d.accepting_requests refl

module _ (s : Semver) where
  -- UUIDs and names are used once, and `Oops` is open and not overfull.
  pub record IsSound (a : State s) : Type 0 where
    pub unique : IsUnique a.daemon.active
    pub reports : HasRoom a.daemon.oops

  pub data Step (a b : State s) : Type 0 where
    moves : Moves a.daemon b.daemon → Step a b
    enters :
        (made : Bool) (now : ℕ) (vm : Vm) → b.daemon ≡ (enter made now vm a.daemon).0 → Step a b

  -- A step is one of `Run`, or leaves the names and the UUIDs that there are.
  act-Step : (e : Event s) (a : State s) → IsSound a → Step a (act s e a)
  unfolding act deregister
  act-Step (serves h q) a i =
      moves (settle-Moves s q a _ i.reports (serve-Kept s h q a.daemon a.store))
  act-Step (runs made now vm) a i = enters made now vm refl
  act-Step (stops_vms h pick forced input) a i = moves (
      change-Moves a.daemon i.reports _
        (active_after-Change _ _ (stop_vms-Changed h pick forced input a.daemon)))
  act-Step (stops h) a i = moves (stop-Moves a.daemon i.reports h)
  act-Step (is_called n sender uuid) a i = moves (
      change-Moves a.daemon i.reports _
        (map_after-Change _ _ (instance_callback-Changes a.daemon.active i.unique n sender uuid)))
  act-Step (is_seen n sender uuid) a i = moves (
      change-Moves a.daemon i.reports _
        (external_connectivity-Change a.daemon.active i.unique n sender uuid))
  act-Step (lives uuid w r e) a i =
      moves (change-Moves a.daemon i.reports _ (live-Change a.daemon.active i.unique uuid w r e))
  act-Step (reaps vm) a i = moves (change-Moves a.daemon i.reports _ (gone vm.uuid a.daemon.active))
  act-Step (catches_signal h) a i =
      moves (after_signal-Moves s h a _ i.reports (send-RoomAfter none a.daemon.oops i.reports))
  act-Step receives a i =
      moves (after_report-Moves s a a.serving a.daemon.oops.buffer i.reports refl)
  act-Step (api_reports r) a i =
      moves (after_send-Moves s a _ i.reports (send-RoomAfter r a.daemon.oops i.reports))

  wait-Step : (e : Event s) (a : State s) → IsSound a → Step a (wait s e a)
  unfolding wait
  wait-Step (lives uuid w r e) a i =
      if_elim (λ b. Step a b) (asks_lock e) _ _ (moves (unmoved a.daemon i.reports))
        (moves
          (change-Moves a.daemon i.reports _ (live-Change a.daemon.active i.unique uuid w r e)))
  wait-Step (catches_signal h) a i =
      moves (after_send-Moves s a _ i.reports (send-RoomAfter none a.daemon.oops i.reports))
  wait-Step (api_reports r) a i =
      moves (after_send-Moves s a _ i.reports (send-RoomAfter r a.daemon.oops i.reports))
  wait-Step receives a i =
      moves (after_receipt-Moves s a a.serving a.daemon.oops.buffer i.reports refl)
  wait-Step _ a i = moves (unmoved a.daemon i.reports)

  pub handle-Step : (e : Event s) (a : State s) → IsSound a → Step a (handle s e a)
  unfolding handle
  handle-Step e a i = if_elim (λ b. Step a b) a.locked _ _ (wait-Step e a i) (act-Step e a i)

  Entered-IsSound : (vm : Vm) (a b : State s) → Entered vm a.daemon b.daemon → IsSound a → IsSound b
  unfolding Entered
  Entered-IsSound vm a b (inl e) i = record {
    unique = subst (λ d. IsUnique d.active) (sym e) i.unique;
    reports = subst (λ d. HasRoom d.oops) (sym e) i.reports;
  }
  Entered-IsSound vm a b (inr (n, t, e, c)) i = record {
    unique =
        subst (λ d. IsUnique d.active) (sym e)
          (change-IsUnique _ n c (register-IsUnique (with_channels vm) a.daemon.active i.unique));
    reports = subst (λ d. HasRoom d.oops) (sym e) i.reports;
  }

  Step-Entered :
      (made : Bool) (now : ℕ) (vm : Vm) (a b : State s)
      → b.daemon ≡ (enter made now vm a.daemon).0
      → Entered vm a.daemon b.daemon
  Step-Entered made now vm a b e =
      subst (λ d. Entered vm a.daemon d) (sym e) (enter-Entered made now vm a.daemon)

  Step-IsSound : (a b : State s) → Step a b → IsSound a → IsSound b
  Step-IsSound a b (moves m) i = record {
    unique = change-IsUnique a.daemon.active b.daemon.active m.change i.unique;
    reports = m.reports;
  }
  Step-IsSound a b (enters made now vm e) i =
      Entered-IsSound vm a b (Step-Entered made now vm a b e) i

  -- However the RPC services, the requests of the VMs, their goroutines, the signal handler and
  -- `Start` follow one another: no two running VMs have a UUID or a name in common, and `Oops` is
  -- open and holds at most one report. Steps are whole handlers; `register` alone is looked at
  -- more closely in Registry/Race.
  pub Reaches-IsSound : (a b : State s) → Reaches s a b → IsSound a → IsSound b
  Reaches-IsSound _ _ (stays a) i = i
  Reaches-IsSound _ _ (steps e a b r) i =
      Reaches-IsSound (handle s e a) b r (Step-IsSound a (handle s e a) (handle-Step e a i) i)

  -- The server takes no requests, and has only VMs that the other state has.
  pub record IsClosing (a b : State s) : Type 0 where
    pub refuses : b.daemon.accepting_requests ≡ false
    pub within : Within a.daemon.active b.daemon.active

  Entered-IsClosing :
      (vm : Vm) (a b : State s)
      → Entered vm a.daemon b.daemon
      → IsSound a
      → a.daemon.accepting_requests ≡ false
      → IsClosing a b
  unfolding Entered
  Entered-IsClosing vm a b (inl e) i t = record {
    refuses = ap (λ d. d.accepting_requests) e ∙ t;
    within =
        subst (λ d. Within a.daemon.active d.active) (sym e) (Within-refl a.daemon.active i.unique);
  }
  Entered-IsClosing vm a b (inr (n, q, e, c)) i t = absurd (cc)

  Step-IsClosing :
      (a b : State s) → Step a b → IsSound a → a.daemon.accepting_requests ≡ false → IsClosing a b
  Step-IsClosing a b (moves m) i t = record {
    refuses = elim m.accepting [ inl q ↦ q ∙ t | inr q ↦ q ];
    within = change-Within a.daemon.active b.daemon.active m.change i.unique;
  }
  Step-IsClosing a b (enters made now vm e) i t =
      Entered-IsClosing vm a b (Step-Entered made now vm a b e) i t

  -- Once the server takes no more requests, it never does again, and whichever handlers run after
  -- that, the VMs that it has are some of those that it had, under the same UUIDs and names. Steps
  -- are whole handlers: a `Run` that has tested before whether the server takes requests, and is
  -- still to register its VM, is none of them.
  pub Reaches-IsClosing :
      (a b : State s)
      → Reaches s a b
      → IsSound a
      → a.daemon.accepting_requests ≡ false
      → IsClosing a b
  Reaches-IsClosing _ _ (stays a) i t = record {
    refuses = t;
    within = Within-refl a.daemon.active i.unique;
  }
  Reaches-IsClosing _ _ (steps e a b r) i t =
      let c = handle s e a in
      let step = handle-Step e a i in
      let first = Step-IsClosing a c step i t in
      let rest = Reaches-IsClosing c b r (Step-IsSound a c step i) first.refuses in
      record {
        refuses = rest.refuses;
        within =
            Within-trans a.daemon.active c.daemon.active b.daemon.active first.within rest.within;
      }
