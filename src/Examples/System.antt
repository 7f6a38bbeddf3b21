-- ===== src/Examples/System.antt =====
-- The theorems on the server as a whole at a concrete state and concrete steps.
use mathlib.Core.List.Memᴰ.{head}
use corectl.Base.{
  values, none, returns, List, [], ◌∷◌, ◌++◌, Text, true, false, ◌≡◌, refl, codes, arith, ◌=t◌,
  ne_of_test, lookup, delete, insert,
}
use corectl.Daemon
use corectl.Daemon.{Daemon}
use corectl.Examples.{core1, core2, plain}
use corectl.Lifecycle.Entry.{enter, stamped}
use corectl.Registry.{register, lookup_vm, deregister}
use corectl.Shutdown.{Host, stop, shut_down, shut_down_each, newest_first, ends, while_waiting}
use corectl.System.{
  Event, State, act, handle, stays, steps, runs, stops, reaps, catches_signal, receives,
}
use corectl.System.Book.{book, BookRun}
use corectl.Shutdown.Graceful.{signals}
use corectl.System.Halt.{IsStopped, stop_ends}
use corectl.System.Drain.{run}
use corectl.System.Refines.{Reaches-BookRun}
use corectl.System.Stops.{signal_drains}
use corectl.System.Invariant.{IsSound, Reaches-IsSound, IsClosing, Reaches-IsClosing}
use corectl.System.Signal.{signal_race}
use corectl.Vm.{send, alive}

abbrev idle : State plain
idle = record {
  daemon =
      Daemon.new {V = Text} (record {
        version = [];
        started = 0;
        pid = 1;
        built = [];
        runtime = [];
        os = [];
        arch = [];
      });
  store = [];
  serving = true;
  locked = false;
}

idle-IsSound : IsSound plain idle
idle-IsSound = record { unique = tt; reports = record { room = omega arith; is_open = refl } }

abbrev obedient : Host
obedient = record { comes_up = λ v. false; exits_on_sigterm = λ v. true; also_gone = λ v. [] }

-- A VM is started, and its process ends.
abbrev later : State plain
later = handle plain (reaps core1) (handle plain (runs true 5 core1) idle)

Reaches-IsSound_example : IsSound plain later
Reaches-IsSound_example =
    Reaches-IsSound plain idle later
      (steps (runs true 5 core1) idle later (steps (reaps core1) _ later (stays later)))
      idle-IsSound

Reaches-BookRun_example : BookRun (book idle.daemon) (book later.daemon)
Reaches-BookRun_example =
    Reaches-BookRun plain idle later
      (steps (runs true 5 core1) idle later (steps (reaps core1) _ later (stays later)))
      idle-IsSound

-- `Stop` waits for a VM that ignores the signal, and a `Run` comes meanwhile.
abbrev stubborn : Host
stubborn = record { comes_up = λ v. true; exits_on_sigterm = λ v. false; also_gone = λ v. [] }

abbrev busy : State plain
busy = record idle {
  daemon = record idle.daemon { active = (codes "A1", record core1 { exec = alive }) ∷ [] };
}

busy-IsSound : IsSound plain busy
busy-IsSound = record {
  unique = (refl, tt, tt);
  reports = record { room = omega arith; is_open = refl };
}

abbrev stopped : State plain
stopped = handle plain (stops stubborn) busy

abbrev after : State plain
after = handle plain (runs true 5 core2) stopped

Reaches-IsClosing_example : IsClosing plain stopped after
unfolding handle act stop shut_down shut_down_each newest_first send lookup ends ◌=t◌
Reaches-IsClosing_example =
    Reaches-IsClosing plain stopped after (steps (runs true 5 core2) stopped after (stays after))
      (Reaches-IsSound plain busy stopped (steps (stops stubborn) busy stopped (stays stopped))
        busy-IsSound)
      refl

signal_race_example :
    let c = handle plain (catches_signal obedient) idle in
    let b = handle plain receives (handle plain (runs true 5 core2) c) in
    (b.daemon.accepting_requests ≡ false)
    × (b.daemon.active ≡ c.daemon.active ++ (core2.uuid, stamped 5 core2) ∷ [])
unfolding handle act ◌=t◌ send shut_down shut_down_each newest_first
signal_race_example =
    signal_race plain obedient 5 core2 idle refl refl refl refl refl (ne_of_test _ _ refl) tt

-- A signal stops the VM that runs, a `Run` comes before `Start` has the report, and the process of
-- its VM ends later.
abbrev late : List (Event plain)
late = runs true 5 core2 ∷ []

signal_drains_example :
    let b =
      run plain
        (reaps (stamped 5 core2) ∷ [])
        (handle plain receives (run plain late (handle plain (catches_signal obedient) busy))) in
    (b.serving ≡ false) × (b.daemon.accepting_requests ≡ false) × (b.daemon.active ≡ [])
unfolding run handle act shut_down shut_down_each newest_first send lookup ends ◌=t◌ enter register
    lookup_vm while_waiting deregister delete insert
signal_drains_example =
    signal_drains plain obedient late (reaps (stamped 5 core2) ∷ []) busy busy-IsSound refl refl
      (head refl, tt)

stop_ends_example :
    let r = stop obedient busy.daemon in
    let b = handle plain receives (handle plain (stops obedient) busy) in
    (r.0 ≡ returns (signals obedient (newest_first (values busy.daemon.active))))
    × (r.2 ≡ none)
    × IsStopped plain b
unfolding ends
stop_ends_example =
    stop_ends plain obedient busy busy-IsSound refl refl refl refl (λ v. refl) ((refl, refl), tt)
