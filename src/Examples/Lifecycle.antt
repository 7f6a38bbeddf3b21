-- ===== src/Examples/Lifecycle.antt =====
-- The theorems on starting a VM at a concrete VM and concrete events.
use corectl.Base.{
  [], ◌∷◌, ◌++◌, false, true, none, some, ◌≡◌, ◌≢◌, refl, codes, List, Text, pos, returns, panics,
  Outcome, ◌=t◌, ne_of_test,
}
use corectl.Daemon
use corectl.Daemon.{Daemon, os_error, already_running}
use corectl.Lifecycle.Entry.{enter}
use corectl.Base.{err}
use corectl.Examples.{core1}
use corectl.Lifecycle.{
  with_channels, Boot, Event, starts, fails_to_start, exits, calls_back, receives, times_out,
  is_killed, sees_done, sees_error, started, too_early, launched, step, run,
}
use corectl.Lifecycle.Stuck.{IsStuck, stop-enter}
use corectl.Shutdown.{Host, stop}
use corectl.Lifecycle.Outcomes.{run_start_failure}

-- The VM calls back, its address is taken, and the handler sees it.
abbrev good : List Event
good = calls_back (codes "192.168.64.2") ∷ receives (pos 7) ∷ sees_done ∷ exits ∷ []

run_start_failure_example :
    run (fails_to_start ∷ (sees_error ∷ []) ++ times_out (pos 0) ∷ []) (launched core1) ≡ panics
run_start_failure_example = run_start_failure (pos 0) (sees_error ∷ []) core1 refl (tt, tt)

-- The run above ends with the address as the answer.
answer_of : Outcome Boot → corectl.Base.Option corectl.Lifecycle.Answer
answer_of (returns c) = c.answer
answer_of _ = none

good_answers :
    answer_of (run (starts (pos 7) ∷ good) (launched core1)) ≡ some (started (codes "192.168.64.2"))
unfolding answer_of run step launched corectl.Http.call_back corectl.Vm.send
good_answers = refl

abbrev daemon : Daemon Text
daemon =
    Daemon.new
      (record { version = []; started = 0; pid = 1; built = []; runtime = []; os = []; arch = [] })

abbrev obedient : Host
obedient = record { comes_up = λ v. false; exits_on_sigterm = λ v. true; also_gone = λ v. [] }

stop-enter_example :
    IsStuck (enter false 5 core1 daemon).0 (stop obedient (enter false 5 core1 daemon).0)
unfolding ◌=t◌
stop-enter_example = stop-enter obedient 5 core1 daemon refl (ne_of_test _ _ refl) refl tt
