-- ===== src/Lifecycle/Invariant.antt =====
-- components/server/rpcservices.go: what holds at every moment of a VM's start.
use corectl.Base.{
  ◌⊎◌, true, false, Option, none, some, List, [], Text, ◌≡◌, ◌≢◌, refl, All, ℤ, arith, Outcome,
  returns, hangs, panics,
}
use corectl.Http.{call_back}
use corectl.Lifecycle.{
  Watcher, waiting, stopping, over, Runner, ready, running, reaped, Answer, started, too_early,
  failure, Boot, Event, starts, fails_to_start, exits, calls_back, calls_back_late, receives,
  times_out, is_killed, sees_done, sees_error, launched, dispatch, step,
}
use corectl.Vm.{has_process, Vm, Chan, Process, unstarted, alive, gone, start_failed, send}

-- How full the channel of errors may be: it is empty until one of the two senders has used it.
abbrev ErrorsFit : Watcher → Process → List corectl.Vm.VmError → Type 0
ErrorsFit waiting start_failed es = Unit
ErrorsFit waiting _ es = es ≡ []
ErrorsFit stopping _ es = es ≡ []
ErrorsFit over _ es = Unit

-- The runner and the process agree.
abbrev Agree : Runner → Process → Type 0
Agree ready unstarted = Unit
Agree running alive = Unit
Agree reaped gone = Unit
Agree reaped start_failed = Unit
Agree _ _ = ⊥

abbrev AnswerFits : Vm → Option Answer → Type 0
AnswerFits vm none = Unit
AnswerFits vm (some (started ip)) = (vm.done ≡ true) × (vm.public_ip ≡ ip)
AnswerFits vm (some too_early) = ⊥
AnswerFits vm (some (failure e)) = Unit

pub record Inv (b : Boot) : Type 0 where
  pub unsent :
      b.vm.call_back ≡ false → (b.vm.public_ip_ch.buffer ≡ []) × (b.vm.public_ip_ch.closed ≡ false)
  pub addressed : All (λ ip. ip ≢ []) b.vm.public_ip_ch.buffer
  pub closed_once : b.vm.public_ip_ch.closed ≡ b.vm.done
  pub done_over : b.vm.done ≡ true → (b.watcher ≡ over) × (b.vm.public_ip ≢ [])
  pub errors_open : b.vm.err_ch.closed ≡ false
  pub errors_fit : ErrorsFit b.watcher b.vm.exec b.vm.err_ch.buffer
  pub agree : Agree b.runner b.vm.exec
  pub has_run : b.watcher ≢ waiting → has_process b.vm.exec ≡ true
  pub answered : AnswerFits b.vm b.answer
  pub listed : (b.registered ≡ false) → b.runner ≡ reaped

-- A request carries the address of its sender.
abbrev pub HasAddress : Event → Type 0
HasAddress (calls_back ip) = ip ≢ []
HasAddress (calls_back_late ip) = ip ≢ []
HasAddress _ = Unit

-- A request that was tested before the VM was deregistered, and is handled after that.
abbrev pub IsOvertaken : Event → Boot → Type 0
IsOvertaken (calls_back_late ip) b = b.registered ≡ false
IsOvertaken _ b = ⊥

-- What a step may do: it keeps the invariant, or panics because the process is nil, or because the VM
-- was deregistered while a request of it was under way.
abbrev pub Safe : Event → Boot → Outcome Boot → Type 0
Safe e b (returns c) = Inv c
Safe e b hangs = ⊥
Safe e b panics = (has_process b.vm.exec ≡ false) ⊎ IsOvertaken e b

pub launched-Inv : (vm : Vm) → vm.call_back ≡ false → Inv (launched vm)
unfolding launched
launched-Inv vm h = ground arith

-- Every event keeps the invariant.
abbrev Kept : Event → Type 0
Kept e =
    (w : Watcher) (r : Runner) (b : Boot)
    → b.watcher ≡ w
    → b.runner ≡ r
    → Inv b
    → Safe e b (dispatch e w r b)

starts-Kept : (pid : ℤ) → Kept (starts pid)
unfolding dispatch
starts-Kept pid waiting ready b ew er i = ground arith
starts-Kept pid _ ready b ew er i = ground arith
starts-Kept pid _ _ b ew er i = i

fails-Kept : Kept fails_to_start
unfolding dispatch send
fails-Kept waiting ready b ew er i = ground arith
fails-Kept stopping ready b ew er i = ground arith
fails-Kept over ready b ew er i = ground arith
fails-Kept _ _ b ew er i = i

exits-Kept : Kept exits
unfolding dispatch
exits-Kept waiting running b ew er i = ground arith
exits-Kept _ running b ew er i = ground arith
exits-Kept _ _ b ew er i = i

calls_back-Kept : (ip : Text) → ip ≢ [] → Kept (calls_back ip)
unfolding dispatch call_back send
calls_back-Kept ip h waiting ready b ew er i = ground arith
calls_back-Kept ip h _ _ b ew er i = ground arith

calls_back_late-Kept : (ip : Text) → ip ≢ [] → Kept (calls_back_late ip)
unfolding dispatch call_back send
calls_back_late-Kept ip h waiting ready b ew er i = ground arith
calls_back_late-Kept ip h _ _ b ew er i = ground arith

receives-Kept : (pid : ℤ) → Kept (receives pid)
unfolding dispatch
receives-Kept pid waiting ready b ew er i = ground arith
receives-Kept pid waiting _ b ew er i = ground arith
receives-Kept pid _ _ b ew er i = i

times_out-Kept : (pid : ℤ) → Kept (times_out pid)
unfolding dispatch
times_out-Kept pid waiting ready b ew er i = ground arith
times_out-Kept pid waiting _ b ew er i = ground arith
times_out-Kept pid _ _ b ew er i = i

is_killed-Kept : Kept is_killed
unfolding dispatch send
is_killed-Kept stopping ready b ew er i = ground arith
is_killed-Kept stopping _ b ew er i = ground arith
is_killed-Kept _ _ b ew er i = i

sees_done-Kept : Kept sees_done
unfolding dispatch
sees_done-Kept waiting ready b ew er i = ground arith
sees_done-Kept _ _ b ew er i = ground arith

sees_error-Kept : Kept sees_error
unfolding dispatch
sees_error-Kept waiting ready b ew er i = ground arith
sees_error-Kept _ _ b ew er i = ground arith

pub step-Safe : (e : Event) (b : Boot) → HasAddress e → Inv b → Safe e b (step e b)
unfolding step
step-Safe (starts pid) b h i = starts-Kept pid b.watcher b.runner b refl refl i
step-Safe fails_to_start b h i = fails-Kept b.watcher b.runner b refl refl i
step-Safe exits b h i = exits-Kept b.watcher b.runner b refl refl i
step-Safe (calls_back ip) b h i = calls_back-Kept ip h b.watcher b.runner b refl refl i
step-Safe (calls_back_late ip) b h i = calls_back_late-Kept ip h b.watcher b.runner b refl refl i
step-Safe (receives pid) b h i = receives-Kept pid b.watcher b.runner b refl refl i
step-Safe (times_out pid) b h i = times_out-Kept pid b.watcher b.runner b refl refl i
step-Safe is_killed b h i = is_killed-Kept b.watcher b.runner b refl refl i
step-Safe sees_done b h i = sees_done-Kept b.watcher b.runner b refl refl i
step-Safe sees_error b h i = sees_error-Kept b.watcher b.runner b refl refl i

-- A process that is there stays there.
process_stays :
    (e : Event) (w : Watcher) (r : Runner) (b c : Boot)
    → Agree r b.vm.exec
    → has_process b.vm.exec ≡ true
    → dispatch e w r b ≡ returns c
    → has_process c.vm.exec ≡ true
unfolding dispatch send call_back
process_stays (starts pid) _ ready b c g p e = ground arith
process_stays fails_to_start _ ready b c g p e = ground arith
process_stays exits _ running b c g p e = ground arith
process_stays (calls_back ip) _ _ b c g p e = ground arith
process_stays (calls_back_late ip) _ _ b c g p e = ground arith
process_stays (receives pid) waiting _ b c g p e = ground arith
process_stays (times_out pid) waiting _ b c g p e = ground arith
process_stays is_killed stopping _ b c g p e = ground arith
process_stays sees_done _ _ b c g p e = ground arith
process_stays sees_error _ _ b c g p e = ground arith
process_stays _ _ _ b c g p e = ground arith

pub has_process-step :
    (e : Event) (b c : Boot)
    → Inv b
    → has_process b.vm.exec ≡ true
    → step e b ≡ returns c
    → has_process c.vm.exec ≡ true
unfolding step
has_process-step e b c i p q = process_stays e b.watcher b.runner b c i.agree p q
