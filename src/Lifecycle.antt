-- ===== src/Lifecycle.antt =====
-- components/server/rpcservices.go: the life of a VM that `RPCservice.Run` starts. Two goroutines, the
-- handler itself and the requests of the VM share it; an event is a step of one of them.
pub mod Invariant
pub mod Outcomes
pub mod Entry
pub mod Shared
pub mod Stuck
pub mod Timely
use corectl.Base.{
  ℕ, Bool, true, false, not, ◌||◌, Option, none, some, List, [], ◌∷◌, Text, ℤ, if◌then◌else◌,
  Outcome, returns, hangs, panics,
}
use corectl.Http.{call_back}
use corectl.Vm.{
  Vm, Chan, Process, unstarted, alive, gone, start_failed, VmError, ip_timeout, start_error, send,
  has_process,
}

-- The goroutine that waits for the VM's address: it waits, it has sent SIGTERM and waits for the
-- timeout of `gracefullyShutdown`, or it is over.
pub data Watcher : Type 0 where
  waiting stopping over : Watcher

-- The goroutine that runs the hypervisor: it has not started it, it is in `exec.Wait`, or it has
-- deregistered the VM.
pub data Runner : Type 0 where
  ready running reaped : Runner

-- What the handler returned.
pub data Answer : Type 0 where
  started : Text → Answer
  too_early : Answer
  failure : VmError → Answer

pub record Boot : Type 0 where
  pub vm : Vm
  pub watcher : Watcher
  pub runner : Runner
  pub registered : Bool
  pub answer : Option Answer

pub data Event : Type 0 where
  starts : ℤ → Event
  fails_to_start : Event
  exits : Event
  calls_back : Text → Event
  calls_back_late : Text → Event
  receives : ℤ → Event
  times_out : ℤ → Event
  is_killed : Event
  sees_done : Event
  sees_error : Event

-- The channels that `Run` makes for a VM before it registers it.
abbrev pub with_channels : Vm → Vm
with_channels vm = record vm {
  public_ip_ch = record { buffer = []; closed = false };
  err_ch = record { buffer = []; closed = false };
  done = false;
}

-- The state once the VM is registered and both goroutines are launched.
unfoldable pub launched : Vm → Boot
launched vm = record {
  vm = record (with_channels vm) { exec = unstarted };
  watcher = waiting;
  runner = ready;
  registered = true;
  answer = none;
}

-- `vm.errCh <- e`, then the rest
send_error : VmError → Boot → Outcome Boot
send_error e b = elim (send e b.vm.err_ch) [
  | returns c ↦ returns (record b { vm = record (b.vm) { err_ch = c } })
  | hangs ↦ hangs
  | panics ↦ panics
]

-- The case `ip := <-vm.publicIPCh`: `vm.exec.Process` is read, and both channels are closed.
on_ip : ℤ → Text → Boot → Outcome Boot
on_ip pid ip b =
    if not (has_process b.vm.exec) || b.vm.public_ip_ch.closed || b.vm.done
    then panics
    else returns (record b {
      watcher = over;
      vm = record (b.vm) {
        pid = pid;
        public_ip = ip;
        public_ip_ch = record { buffer = []; closed = true };
        done = true;
      };
    })

-- The case `<-timeout`, up to the wait in `gracefullyShutdown`.
on_timeout : ℤ → Boot → Outcome Boot
on_timeout pid b =
    if has_process b.vm.exec
    then returns (record b { watcher = stopping; vm = record (b.vm) { pid = pid } })
    else panics

-- The handler's `case <-vm.done`
on_done : Boot → Boot
on_done b = elim b.vm.public_ip [
  | [] ↦ record b { answer = some too_early }
  | c ∷ s ↦ record b { answer = some (started (c ∷ s)) }
]

is_waiting : Watcher → Bool
is_waiting waiting = true
is_waiting _ = false

-- The VM's request is a step from the test of its UUID on if nothing comes in between; a late one was
-- tested before, and looks the VM up again: a nil pointer if the VM has been deregistered since.
-- An event whose goroutine is elsewhere does not happen, and leaves the state as it is.
dispatch : Event → Watcher → Runner → Boot → Outcome Boot
unfolding on_ip on_timeout on_done send_error
dispatch (starts pid) _ ready b =
    returns (record b { runner = running; vm = record (b.vm) { exec = alive } })
dispatch fails_to_start _ ready b =
    send_error start_error
      (record b { runner = reaped; registered = false; vm = record (b.vm) { exec = start_failed } })
dispatch exits _ running b =
    returns (record b { runner = reaped; registered = false; vm = record (b.vm) { exec = gone } })
dispatch (calls_back ip) _ _ b =
    if b.registered
    then elim (call_back ip b.vm) [
      | returns vm ↦ returns (record b { vm = vm })
      | hangs ↦ hangs
      | panics ↦ panics
    ]
    else returns b
dispatch (calls_back_late ip) _ _ b =
    if b.registered
    then elim (call_back ip b.vm) [
      | returns vm ↦ returns (record b { vm = vm })
      | hangs ↦ hangs
      | panics ↦ panics
    ]
    else panics
dispatch (receives pid) waiting _ b = elim b.vm.public_ip_ch.buffer [
  | [] ↦ returns b
  | ip ∷ _ ↦ on_ip pid ip b
]
dispatch (times_out pid) waiting _ b = on_timeout pid b
dispatch is_killed stopping _ b = send_error ip_timeout (record b { watcher = over })
dispatch sees_done _ _ b = elim b.answer [
  | none ↦ if b.vm.done then returns (on_done b) else returns b
  | some a ↦ returns b
]
dispatch sees_error _ _ b = elim b.answer [
  | none ↦ elim b.vm.err_ch.buffer [
    | [] ↦ returns b
    | e ∷ es ↦ returns (record b {
      answer = some (failure e);
      vm = record (b.vm) { err_ch = record { buffer = es; closed = b.vm.err_ch.closed } };
    })
  ]
  | some a ↦ returns b
]
dispatch _ _ _ b = returns b

unfoldable pub step : Event → Boot → Outcome Boot
unfolding dispatch
step e b = dispatch e b.watcher b.runner b

-- A run ends at the first step that blocks or panics.
unfoldable pub run : List Event → Boot → Outcome Boot
run [] b = returns b
run (e ∷ es) b = elim (step e b) [ returns c ↦ run es c | hangs ↦ hangs | panics ↦ panics ]
