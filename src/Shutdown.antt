-- ===== src/Shutdown.antt =====
-- components/server/run.go and rpcservices.go: how VMs and the server are stopped.
pub mod Changes
pub mod Order
pub mod Returns
pub mod Targets
pub mod Graceful
use corectl.Base.{
  ℕ, Bool, true, false, ◌||◌, not, Option, none, some, List, [], ◌∷◌, ◌++◌, Text, ◌=t◌, ltb, length,
  get_elem?, map, lookup, delete, values, if◌then◌else◌, ◌==◌, Outcome, returns, hangs, panics,
}
use corectl.Daemon.{Daemon, Error, server_shutting_down, nothing_to_shutdown, unknown_vm}
use corectl.Registry.{Active, deregister}
use corectl.Vm.{Vm, Chan, send, has_process}

pub data Signal : Type 0 where
  sigterm sigkill : Signal

abbrev pub Sent : Type 0
Sent = Text × Signal

-- What the processes do meanwhile: whether `vm.done` is closed before the timeout, whether the
-- process of a VM exits when it gets SIGTERM, and which other VMs exit by themselves while the
-- server waits for this one.
pub record Host : Type 0 where
  pub comes_up : Vm → Bool
  pub exits_on_sigterm : Vm → Bool
  pub also_gone : Vm → List Text

-- `VMInfo.kill`
unfoldable pub kill : Vm → List Sent
kill vm = (vm.uuid, sigkill) ∷ []

-- `VMInfo.gracefullyShutdown`: SIGTERM, then SIGKILL if `vm.done` is not closed in time.
unfoldable pub gracefully_shutdown : Host → Vm → List Sent
unfolding kill
gracefully_shutdown h vm = (vm.uuid, sigterm) ∷ (if vm.done || h.comes_up vm then [] else kill vm)

-- Whether the process of the VM ends after those signals.
unfoldable pub ends : Host → Vm → Bool
ends h vm = h.exits_on_sigterm vm || not (vm.done || h.comes_up vm)

unfoldable pub delete_all : List Text → Active → Active
delete_all [] m = m
delete_all (k ∷ ks) m = delete_all ks (delete k m)

-- What a VM's own goroutine and those of others do to the map while the server waits.
unfoldable pub while_waiting : Host → Vm → Active → Active
unfolding delete_all
while_waiting h vm m = delete_all (h.also_gone vm) (deregister vm m)

abbrev pub prepend : List Sent → Outcome (List Sent × Active) → Outcome (List Sent × Active)
prepend s (returns (t, m)) = returns (s ++ t, m)
prepend s hangs = hangs
prepend s panics = panics

-- The loop of `VMs.gracefullyShutdown` over the sorted list. A VM that is no longer in the map is
-- a nil pointer there, and so is the process of a VM that was not started.
unfoldable pub shut_down_each : Host → List Vm → Active → Outcome (List Sent × Active)
shut_down_each h [] m = returns ([], m)
shut_down_each h (v ∷ vs) m = elim (lookup v.uuid m) [
  | none ↦ panics
  | some w ↦
      let rest = shut_down_each h vs (while_waiting h w m) in
      if not (has_process w.exec)
      then panics
      else if ends h w
      then prepend (gracefully_shutdown h w) rest
      else hangs
]

-- `sort.Sort(sort.Reverse(list))`: the VM that was created last comes first.
unfoldable pub insert_vm : Vm → List Vm → List Vm
insert_vm v [] = v ∷ []
insert_vm v (w ∷ ws) =
    if ltb v.creation_time w.creation_time then w ∷ insert_vm v ws else v ∷ w ∷ ws

unfoldable pub newest_first : List Vm → List Vm
unfolding insert_vm
newest_first [] = []
newest_first (v ∷ vs) = insert_vm v (newest_first vs)

-- `VMs.gracefullyShutdown`
unfoldable pub shut_down : Host → List Vm → Active → Outcome (List Sent × Active)
shut_down h vs m = shut_down_each h (newest_first vs) m

-- The VMs that an argument of `StopVMs` names.
unfoldable pub matches : Text → Active → List Vm
matches id [] = []
matches id ((k, v) ∷ m) =
    let rest = matches id m in if v.name =t id || v.uuid =t id then v ∷ rest else rest

unfoldable pub targets : List Text → Active → List Vm
targets [] m = []
targets (t ∷ ts) m = matches t m ++ targets ts m

-- What a service returns: the error, `reply.Output`, the signals sent and the map of running VMs.
pub record Stopped : Type 0 where
  pub error : Option Error
  pub output : List Text
  pub sent : List Sent
  pub active : Active

abbrev refuse : Error → Active → Outcome Stopped
refuse e m = returns (record { error = some e; output = []; sent = []; active = m })

abbrev pub finish : Outcome (List Sent × Active) → Outcome Stopped
finish (returns (s, m)) = returns (record { error = none; output = []; sent = s; active = m })
finish hangs = hangs
finish panics = panics

-- The end of `StopVMs`, with the targets chosen.
unfoldable pub stop_targets : Host → Bool → List Text → List Vm → Active → Outcome Stopped
stop_targets h false output vs m = finish (shut_down h vs m)
stop_targets h true output [] m = panics
stop_targets h true output (v ∷ vs) m =
    if has_process v.exec
    then returns (record { error = none; output = output; sent = kill v; active = m })
    else panics

-- `StopVMs` with no argument: every VM, or, if forced, the one at the random index.
unfoldable pub stop_all : Host → ℕ → Bool → Active → Outcome Stopped
unfolding stop_targets
stop_all h pick forced [] = refuse nothing_to_shutdown []
stop_all h pick false (e ∷ m) = stop_targets h false [] (values (e ∷ m)) (e ∷ m)
stop_all h pick true (e ∷ m) = elim (get_elem? (values (e ∷ m)) pick) [
  | none ↦ panics
  | some v ↦ stop_targets h true (v.name ∷ []) (v ∷ []) (e ∷ m)
]

unfoldable pub stop_named : Host → Bool → List Text → Active → Outcome Stopped
unfolding stop_targets
stop_named h forced input m =
    let vs = targets input m in
    if length vs == length input then stop_targets h forced [] vs m else refuse unknown_vm m

-- `RPCservice.StopVMs`; `pick` is what `rand.Intn` returns.
unfoldable pub stop_vms : {V : Type 0} → Host → ℕ → Bool → List Text → Daemon V → Outcome Stopped
unfolding stop_all stop_named
stop_vms h pick forced input d =
    if not d.accepting_requests then refuse server_shutting_down d.active else elim input [
      | [] ↦ stop_all h pick forced d.active
      | t ∷ ts ↦ stop_named h forced (t ∷ ts) d.active
    ]

-- The end of `Stop`: it reports to `Start` through `Oops`, which has room for one report.
unfoldable pub report_stop :
    {V : Type 0}
    → List Sent
    → Daemon V
    → Outcome (Chan (Option Error))
    → Outcome (List Sent) × Daemon V × Option Error
report_stop sent d (returns c) = (returns sent, record d { oops = c }, none)
report_stop sent d hangs = (hangs, d, none)
report_stop sent d panics = (panics, d, none)

unfoldable pub after_shutdown :
    {V : Type 0}
    → Daemon V
    → Outcome (List Sent × Active)
    → Outcome (List Sent) × Daemon V × Option Error
unfolding report_stop
after_shutdown d (returns (s, m)) = report_stop s (record d { active = m }) (send none d.oops)
after_shutdown d hangs = (hangs, d, none)
after_shutdown d panics = (panics, d, none)

-- `RPCservice.Stop`. It first stops taking requests.
unfoldable pub stop : {V : Type 0} → Host → Daemon V → Outcome (List Sent) × Daemon V × Option Error
unfolding after_shutdown
stop h d =
    if not d.accepting_requests
    then (returns [], d, some server_shutting_down)
    else after_shutdown (record d { accepting_requests = false })
        (shut_down h (values d.active) d.active)
