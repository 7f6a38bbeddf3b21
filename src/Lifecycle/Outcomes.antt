-- ===== src/Lifecycle/Outcomes.antt =====
-- components/server/rpcservices.go: how starting a VM can end.
use corectl.Base.{
  true, false, Option, none, some, List, [], ◌∷◌, ◌++◌, ◌≡◌, ◌≢◌, refl, All, ℤ, arith, Outcome,
  returns, hangs, panics,
}
use corectl.Http.{call_back}
use corectl.Lifecycle.{
  Watcher, waiting, stopping, over, Runner, ready, running, reaped, started, too_early, failure,
  Boot, Event, starts, fails_to_start, exits, calls_back, calls_back_late, receives, times_out,
  is_killed, sees_done, sees_error, launched, has_process, dispatch, step, run,
}
use corectl.Lifecycle.Invariant.{Inv, HasAddress, Safe, launched-Inv, step-Safe}
use corectl.Vm.{Vm, start_failed, send}

-- An answer of success carries the VM's address; none says that the VM came up too early.
abbrev pub IsHonest : Boot → Option corectl.Lifecycle.Answer → Type 0
IsHonest c none = Unit
IsHonest c (some (started ip)) = (c.vm.done ≡ true) × (c.vm.public_ip ≡ ip) × (ip ≢ [])
IsHonest c (some too_early) = ⊥
IsHonest c (some (failure e)) = Unit

-- What is left of a VM whose hypervisor could not be started.
record Failed (b : Boot) : Type 0 where
  inv : Inv b
  nil_process : b.vm.exec ≡ start_failed
  still_waiting : b.watcher ≡ waiting
  is_reaped : b.runner ≡ reaped

abbrev StaysFailed : Outcome Boot → Type 0
StaysFailed (returns c) = (c.vm.exec ≡ start_failed) × (c.watcher ≡ waiting) × (c.runner ≡ reaped)
StaysFailed hangs = Unit
StaysFailed panics = Unit

failed_step :
    (e : Event) (b : Boot)
    → b.vm.exec ≡ start_failed
    → b.watcher ≡ waiting
    → b.runner ≡ reaped
    → StaysFailed (dispatch e waiting reaped b)
unfolding dispatch send call_back
failed_step (starts pid) b h w r = (h, w, r)
failed_step fails_to_start b h w r = (h, w, r)
failed_step exits b h w r = (h, w, r)
failed_step (calls_back ip) b h w r = ground arith
failed_step (calls_back_late ip) b h w r = ground arith
failed_step (receives pid) b h w r = ground arith
failed_step (times_out pid) b h w r = ground arith
failed_step is_killed b h w r = (h, w, r)
failed_step sees_done b h w r = ground arith
failed_step sees_error b h w r = ground arith

start_failure_stays : (e : Event) (b : Boot) → Failed b → StaysFailed (step e b)
unfolding step
start_failure_stays e b f =
    simp (f.still_waiting, f.is_reaped) (failed_step e b f.nil_process f.still_waiting f.is_reaped)

times_out_panics : (pid : ℤ) (b : Boot) → Failed b → step (times_out pid) b ≡ panics
unfolding step dispatch
times_out_panics pid b f = ground arith

abbrev Crashes : List Event → Boot → Type 0
Crashes es b = run es b ≡ panics

crash_on :
    (e : Event) (es : List Event) (b : Boot) (o : Outcome Boot)
    → step e b ≡ o
    → Safe e b o
    → StaysFailed o
    → ((c : Boot) → Failed c → Crashes es c)
    → Crashes (e ∷ es) b
unfolding run
crash_on e es b (returns c) q s f ih =
    rw (q, run) (ih c (record { inv = s; nil_process = f.0; still_waiting = f.1; is_reaped = f.2 }))
crash_on e es b hangs q s f ih = absurd s
crash_on e es b panics q s f ih = rw (q, run) refl

start_failure-Crashes :
    (pid : ℤ) (es : List Event) (b : Boot)
    → All HasAddress es
    → Failed b
    → Crashes (es ++ times_out pid ∷ []) b
unfolding run
start_failure-Crashes pid [] b h f = rw (times_out_panics pid b f, run) refl
start_failure-Crashes pid (e ∷ es) b h f =
    crash_on e (es ++ times_out pid ∷ []) b (step e b) refl (step-Safe e b h.0 f.inv)
      (start_failure_stays e b f) λ c g. start_failure-Crashes pid es c h.1 g

-- If the hypervisor cannot be started, the handler may report it, but the timeout of the other
-- goroutine then reads a nil process: whatever happens in between, the server panics.
pub run_start_failure :
    (pid : ℤ) (es : List Event) (vm : Vm)
    → vm.call_back ≡ false
    → All HasAddress es
    → run (fails_to_start ∷ (es ++ times_out pid ∷ [])) (launched vm) ≡ panics
unfolding run step launched send dispatch
run_start_failure pid es vm h a = start_failure-Crashes pid es _ a (record {
  inv = step-Safe fails_to_start (launched vm) tt (launched-Inv vm h);
  nil_process = refl;
  still_waiting = refl;
  is_reaped = refl;
})
