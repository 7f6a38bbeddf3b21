-- ===== src/System.antt =====
-- components/server: the server as a whole. Its RPC services, the requests of the VMs, the VMs' own
-- goroutines, the signal handler and `Start` act on the shared state one after the other.
pub mod Book
pub mod Changes
pub mod Drain
pub mod Halt
pub mod Invariant
pub mod Lock
pub mod Moves
pub mod Refines
pub mod Report
pub mod Reported
pub mod Signal
pub mod Stops
use corectl.Base.{
  ◌||◌, ℕ, Bool, true, false, Option, none, some, List, [], ◌∷◌, Text, ℤ, lookup, insert, values,
  if◌then◌else◌, Outcome, returns, hangs, panics, Result,
}
use corectl.Coreos.{Semver}
use corectl.Daemon.{Daemon, Error}
use corectl.Http.{Network, instance_callback, external_connectivity}
use corectl.Images.{Store}
use corectl.Lifecycle
use corectl.Lifecycle.{Boot, Watcher, Runner, times_out, is_killed, sees_done, sees_error}
use corectl.Lifecycle.Entry.{enter}
use corectl.Registry.{Active, deregister}
use corectl.Services
use corectl.Services.{Query, remove_an_image, Served, serve}
use corectl.Shutdown
use corectl.Shutdown.{Stopped, Sent, stop_vms, stop, shut_down}
use corectl.Vm.{Vm, Chan, send}

-- The VM's part of the state of its goroutines, wherever they are.
abbrev pub boot_of : Watcher → Runner → Vm → Boot
boot_of w r vm = record { vm = vm; watcher = w; runner = r; registered = true; answer = none }

-- A handler that waits for ever or panics leaves the map as it found it: what the goroutines of the
-- VMs do meanwhile are steps of their own.
abbrev pub active_after : Active → Outcome Stopped → Active
active_after m (returns r) = r.active
active_after m hangs = m
active_after m panics = m

abbrev pub map_after : {A : Type 0} → Active → Outcome (A × Active) → Active
map_after m (returns (r, n)) = n
map_after m hangs = m
map_after m panics = m

abbrev pub vm_after : Active → Text → Outcome Boot → Active
vm_after m uuid (returns b) = insert uuid b.vm m
vm_after m uuid hangs = m
vm_after m uuid panics = m

-- A step of the goroutines of the VM with that UUID.
unfoldable pub live : Text → Watcher → Runner → Lifecycle.Event → Active → Active
live uuid w r e m = elim (lookup uuid m) [
  | none ↦ m
  | some vm ↦ vm_after m uuid (Lifecycle.step e (boot_of w r vm))
]

-- The steps of a VM's goroutines and requests that are made under the server's lock.
abbrev pub asks_lock : Lifecycle.Event → Bool
asks_lock (times_out pid) = false
asks_lock is_killed = false
asks_lock sees_done = false
asks_lock sees_error = false
asks_lock _ = true

module _ (s : Semver) where
  -- The shared state, the images on disk, whether `Start` is still in its select, and whether a
  -- handler has panicked while it held the server's lock, which nobody then releases.
  pub record State : Type 0 where
    pub daemon : Daemon s.Version
    pub store : Store
    pub serving : Bool
    pub locked : Bool

  pub data Event : Type 0 where
    serves : Services.Host s → Query s → Event
    runs : Bool → ℕ → Vm → Event
    stops_vms : Shutdown.Host → ℕ → Bool → List Text → Event
    stops : Shutdown.Host → Event
    is_called : Network → Text → Text → Event
    is_seen : Network → Text → Text → Event
    lives : Text → Watcher → Runner → Lifecycle.Event → Event
    reaps : Vm → Event
    catches_signal : Shutdown.Host → Event
    api_reports : Option Error → Event
    receives : Event

  abbrev pub with_active : State → Active → State
  with_active a m = record a { daemon = record a.daemon { active = m } }

  -- Where a service may panic with the lock: `RemoveImage`, once it has read its input.
  abbrev holds_lock : Query s → Bool
  holds_lock (remove_an_image (channel ∷ version ∷ more)) = true
  holds_lock _ = false

  abbrev pub settle : Query s → State → Outcome (Served s) → State
  settle q a (returns r) = record a { daemon = r.daemon; store = r.store }
  settle q a hangs = a
  settle q a panics = record a { locked = a.locked || holds_lock q }

  abbrev pub after_send : State → Outcome (Chan (Option Error)) → State
  after_send a (returns c) = record a { daemon = record a.daemon { oops = c } }
  after_send a hangs = a
  after_send a panics = a

  -- The handler of SIGTERM and the like: it reports to `Start`, and then stops the VMs.
  abbrev pub after_signal : Shutdown.Host → State → Outcome (Chan (Option Error)) → State
  after_signal h a (returns c) =
      let m = a.daemon.active in
      record a {
        daemon = record a.daemon { oops = c; active = map_after m (shut_down h (values m) m) };
      }
  after_signal h a hangs = a
  after_signal h a panics = a

  -- `Start` receives a report and takes no more requests.
  abbrev pub after_report : State → Bool → List (Option Error) → State
  after_report a true (e ∷ es) = record a {
    daemon = record a.daemon {
      oops = record a.daemon.oops { buffer = es };
      accepting_requests = false;
    };
    serving = false;
  }
  after_report a _ _ = a

  -- `Start` has received, and waits for the lock.
  abbrev pub after_receipt : State → Bool → List (Option Error) → State
  after_receipt a true (e ∷ es) = record a {
    daemon = record a.daemon { oops = record a.daemon.oops { buffer = es } };
    serving = false;
  }
  after_receipt a _ _ = a

  -- A step while the lock can be had.
  unfoldable pub act : Event → State → State
  unfolding live
  act (serves h q) a = settle q a (serve s h q a.daemon a.store)
  act (runs made now vm) a = record a { daemon = (enter made now vm a.daemon).0 }
  act (stops_vms h pick forced input) a =
      with_active a (active_after a.daemon.active (stop_vms h pick forced input a.daemon))
  act (stops h) a = record a { daemon = (stop h a.daemon).1 }
  act (is_called n sender uuid) a =
      with_active a (map_after a.daemon.active (instance_callback n sender uuid a.daemon.active))
  act (is_seen n sender uuid) a =
      with_active a (external_connectivity n sender uuid a.daemon.active).1
  act (lives uuid w r e) a = with_active a (live uuid w r e a.daemon.active)
  act (reaps vm) a = with_active a (deregister vm a.daemon.active)
  act (catches_signal h) a = after_signal h a (send none a.daemon.oops)
  act (api_reports r) a = after_send a (send r a.daemon.oops)
  act receives a = after_report a a.serving a.daemon.oops.buffer

  -- A step once the lock is lost: what asks for it waits there. The signal handler and the API's
  -- goroutine still report, and `Start` still receives. Of the steps of a VM's goroutines, those
  -- remain that do not ask for the lock.
  unfoldable pub wait : Event → State → State
  unfolding live
  wait (lives uuid w r e) a =
      if asks_lock e then a else with_active a (live uuid w r e a.daemon.active)
  wait (catches_signal h) a = after_send a (send none a.daemon.oops)
  wait (api_reports r) a = after_send a (send r a.daemon.oops)
  wait receives a = after_receipt a a.serving a.daemon.oops.buffer
  wait _ a = a

  unfoldable pub handle : Event → State → State
  unfolding act wait
  handle e a = if a.locked then wait e a else act e a

  -- What the server comes to by some sequence of steps.
  pub data Reaches : State → State → Type 0 where
    stays : (a : State) → Reaches a a
    steps : (e : Event) (a b : State) → Reaches (handle e a) b → Reaches a b
