-- ===== src/System/Signal.antt =====
-- components/server/server.go: the signal handler, and a `Run` that comes before `Start` has received
-- its report.
use mathlib.Core.Path.{subst}
use corectl.Base.{
  ℕ, Bool, true, false, Option, none, List, [], ◌∷◌, ◌++◌, ◌≡◌, ◌≢◌, refl, sym, ap, ◌∙◌, arith,
  codes, All, Outcome, returns, hangs, panics,
}
use corectl.Coreos.{Semver}
use corectl.Daemon.{Daemon, Error}
use corectl.Lifecycle.Entry.{enter, stamped}
use corectl.Lifecycle.Shared.{enter_fresh}
use corectl.Registry.Unique.{Apart}
use corectl.Shutdown
use corectl.System.{State, runs, catches_signal, receives, after_signal, after_report, act, handle}
use corectl.System.Lock.{handle_free}
use corectl.Vm.{Vm, Chan, send}

pub send_first :
    (c : Chan (Option Error))
    → c.closed ≡ false
    → c.buffer ≡ []
    → send none c ≡ returns (record c { buffer = none ∷ [] })
unfolding send
send_first c h e = ground arith

module _ (s : Semver) where
  -- What `Start` does to the daemon when it receives.
  received :
      (a : State s) (es : List (Option Error)) (b : Bool)
      → b ≡ true
      → (e : Option Error) → (after_report s a b (e ∷ es)).daemon.active ≡ a.daemon.active
  received a es true t e = refl
  received a es false t e = cc

  refuses :
      (a : State s) (es : List (Option Error)) (b : Bool)
      → b ≡ true
      → (e : Option Error) → (after_report s a b (e ∷ es)).daemon.accepting_requests ≡ false
  refuses a es true t e = refl
  refuses a es false t e = cc

  -- The server takes no more requests, and has one more VM.
  abbrev IsLate : ℕ → Vm → State s → State s → Type 0
  IsLate now vm b c =
      (b.daemon.accepting_requests ≡ false)
      × (b.daemon.active ≡ c.daemon.active ++ (vm.uuid, stamped now vm) ∷ [])

  LateRun : ℕ → Vm → State s → Type 0
  LateRun now vm c = let b = act s receives (act s (runs true now vm) c) in IsLate now vm b c

  late_run :
      (now : ℕ) (vm : Vm) (c : State s) (e : Option Error) (es : List (Option Error))
      → c.daemon.accepting_requests ≡ true
      → c.serving ≡ true
      → c.daemon.oops.buffer ≡ e ∷ es
      → vm.name ≢ codes "corectld"
      → All (Apart vm) c.daemon.active
      → LateRun now vm c
  unfolding act LateRun
  late_run now vm c e es up serving full n fresh =
      let d : Daemon s.Version = record c.daemon {
        active = c.daemon.active ++ (vm.uuid, stamped now vm) ∷ [];
      } in
      let q : (enter true now vm c.daemon).0 ≡ d = enter_fresh now vm c.daemon up n fresh in
      subst
        (λ (x : Daemon s.Version).
          let b = after_report s (record c { daemon = x }) c.serving x.oops.buffer in
          (b.daemon.accepting_requests ≡ false)
          × (b.daemon.active ≡ c.daemon.active ++ (vm.uuid, stamped now vm) ∷ []))
        (sym q)
        (subst
          (λ (l : List (Option Error)).
            let b = after_report s (record c { daemon = d }) c.serving l in
            (b.daemon.accepting_requests ≡ false)
            × (b.daemon.active ≡ c.daemon.active ++ (vm.uuid, stamped now vm) ∷ []))
          (sym full)
          (
            refuses (record c { daemon = d }) es c.serving serving e,
            received (record c { daemon = d }) es c.serving serving e,
          ))

  after_signal-locked :
      (h : Shutdown.Host) (a : State s) (r : Outcome (Chan (Option Error)))
      → (after_signal s h a r).locked ≡ a.locked
  after_signal-locked h a (returns c) = refl
  after_signal-locked h a hangs = refl
  after_signal-locked h a panics = refl

  -- The same with the signal handler before, while the lock is free.
  signal_then_run :
      (h : Shutdown.Host) (now : ℕ) (vm : Vm) (a : State s)
      → a.daemon.accepting_requests ≡ true
      → a.serving ≡ true
      → a.daemon.oops.closed ≡ false
      → a.daemon.oops.buffer ≡ []
      → vm.name ≢ codes "corectld"
      → All (Apart vm) (act s (catches_signal h) a).daemon.active
      → LateRun now vm (act s (catches_signal h) a)
  unfolding act
  signal_then_run h now vm a up serving is_open empty n fresh =
      let r = send_first a.daemon.oops is_open empty in
      late_run now vm (act s (catches_signal h) a) none []
        (ap (λ o. (after_signal s h a o).daemon.accepting_requests) r ∙ up)
        (ap (λ o. (after_signal s h a o).serving) r ∙ serving)
        (ap (λ o. (after_signal s h a o).daemon.oops.buffer) r) n fresh

  free_run :
      (now : ℕ) (vm : Vm) (c : State s)
      → c.locked ≡ false
      → LateRun now vm c
      → IsLate now vm (handle s receives (handle s (runs true now vm) c)) c
  unfolding LateRun act
  free_run now vm c f l =
      let d = act s (runs true now vm) c in
      subst (λ e. IsLate now vm (handle s receives e) c)
        (sym (handle_free s (runs true now vm) c f))
        (subst (λ e. IsLate now vm e c) (sym (handle_free s receives d f)) l)

  -- The signal handler does not stop the server from taking requests. The lock is free and `Oops` is
  -- empty when a signal comes. If a client's `Run` comes after
  -- the handler has looked which VMs run, and before `Start` has received its report, then the new VM
  -- is registered and stays in the map when the server takes no more requests.
  pub signal_race :
      (h : Shutdown.Host) (now : ℕ) (vm : Vm) (a : State s)
      → a.locked ≡ false
      → a.daemon.accepting_requests ≡ true
      → a.serving ≡ true
      → a.daemon.oops.closed ≡ false
      → a.daemon.oops.buffer ≡ []
      → vm.name ≢ codes "corectld"
      → All (Apart vm) (handle s (catches_signal h) a).daemon.active
      → let c = handle s (catches_signal h) a in
        let b = handle s receives (handle s (runs true now vm) c) in
        (b.daemon.accepting_requests ≡ false)
        × (b.daemon.active ≡ c.daemon.active ++ (vm.uuid, stamped now vm) ∷ [])
  unfolding act
  signal_race h now vm a f up serving is_open empty n fresh =
      let c = act s (catches_signal h) a in
      let q : handle s (catches_signal h) a ≡ c = handle_free s (catches_signal h) a f in
      subst (λ d. IsLate now vm (handle s receives (handle s (runs true now vm) d)) d) (sym q)
        (free_run now vm c (after_signal-locked h a _ ∙ f) (
          signal_then_run h now vm a up serving is_open empty n
            (subst (λ (d : State s). All (Apart vm) d.daemon.active) q fresh)))
