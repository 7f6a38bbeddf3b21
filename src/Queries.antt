-- ===== src/Queries.antt =====
-- cmd/ps.go and list.go: what `ps`, `query` and `list` show.
pub mod Status
use corectl.Base.{
  ℕ, zero, suc, ◌+◌, Bool, true, false, not, ◌&&◌, ◌||◌, Option, none, some, List, [], ◌∷◌, ◌++◌,
  Text, codes, ◌=t◌, length, lookup, map, values, ◌==◌, if◌then◌else◌, Result, ok, err, ℤ, pos,
  ◌+ℤ◌,
}
use corectl.Commands.{vm_info, query_vms}
use corectl.Coreos.{Semver, channel, channels}
use corectl.Daemon.{Error, Info, server_unreachable}
use corectl.Images.{or_empty}
use corectl.Registry.{Active}
use corectl.Payload.{Caller, log_file, tty}
use corectl.Vm.{Vm}

-- The flags of `query`.
pub record Flags : Type 0 where
  pub ip : Bool
  pub tty : Bool
  pub online : Bool
  pub up : Bool
  pub uuid : Bool
  pub log : Bool
  pub json : Bool
  pub all : Bool

-- The `PreRunE` of `query`: whether the arguments are accepted.
unfoldable pub accepts_query : Flags → List Text → Bool
accepts_query f args =
    not ((f.ip || f.tty || f.online || f.up || f.uuid || f.log) && not (length args == 1))

-- What is printed: a text, a truth value, the VMs as JSON or as a table, or their names.
pub data Shown : Type 0 where
  one_text : Text → Shown
  one_truth : Bool → Shown
  as_json : Active → Shown
  as_table : Active → Shown
  as_names : List Text → Shown

-- The chain of tests for one VM; `none` where no flag of it is set.
unfoldable pub one_answer : Caller → Flags → Vm → Option Shown
unfolding tty log_file
one_answer c f vm =
    if f.ip
    then some (one_text vm.public_ip)
    else if f.uuid
    then some (one_text vm.uuid)
    else if f.tty
    then some (one_text (tty c vm))
    else if f.log
    then some (one_text (log_file c vm))
    else if f.online
    then some (one_truth vm.not_isolated)
    else if f.up
    then some (one_truth true)
    else none

-- The end of `queryCommand`, over the VMs that are selected.
unfoldable pub show_selected : Flags → Active → Shown
show_selected f selected =
    if f.json
    then as_json selected
    else if f.all
    then as_table selected
    else as_names (map (λ (v : Vm). v.name) (values selected))

unfoldable pub select_and_show : Flags → List Text → Active → Result Error Shown
unfolding show_selected
select_and_show f args m = elim (query_vms args m) [
  | err e ↦ err e
  | ok selected ↦ ok (show_selected f selected)
]

-- The branch for one argument, given what `vmInfo` answers and what follows it.
unfoldable pub answer_one :
    Caller → Flags → Result Error Vm → Result Error Shown → Result Error Shown
unfolding one_answer
answer_one c f (err e) later = if f.up then ok (one_truth false) else err e
answer_one c f (ok vm) later = elim (one_answer c f vm) [ none ↦ later | some shown ↦ ok shown ]

unfoldable pub answer : Caller → Flags → List Text → Active → Result Error Shown
unfolding answer_one select_and_show
answer c f (id ∷ []) m = answer_one c f (vm_info id m) (select_and_show f (id ∷ []) m)
answer c f args m = select_and_show f args m

-- `queryCommand`, given whether the server answers and its answer to `ActiveVMs`
unfoldable pub query_command :
    Caller → Flags → Option Error → Result Error Active → List Text → Result Error Shown
unfolding answer
query_command c f (some e) active args = err server_unreachable
query_command c f none (err e) args = err e
query_command c f none (ok m) args = answer c f args m

-- What `psCommand` prints: the VMs as JSON, or the server, the totals and each VM.
pub record Totals : Type 0 where
  pub active : ℕ
  pub memory : ℤ
  pub vcpus : ℤ

pub data Report : Type 0 where
  json_report : Active → Report
  full_report : Info → Totals → List Vm → Report

unfoldable pub add_totals : List Vm → Totals → Totals
add_totals [] t = t
add_totals (v ∷ vs) t =
    add_totals vs (record t { memory = t.memory +ℤ v.memory; vcpus = t.vcpus +ℤ v.cpus })

unfoldable pub totals : Active → Totals
unfolding add_totals
totals m = add_totals (values m) (record { active = length m; memory = pos 0; vcpus = pos 0 })

-- `psCommand`
unfoldable pub ps_command : Bool → Result Error Info → Result Error Active → Result Error Report
unfolding totals
ps_command json (err e) active = err e
ps_command json (ok srv) (err e) = err e
ps_command json (ok srv) (ok m) =
    ok (if json then json_report m else full_report srv (totals m) (values m))

module _ (s : Semver) where
  -- What `lsCommand` prints: as JSON the images of one channel or all of them, or a header and the
  -- versions of each channel that has some.
  pub data Listing : Type 0 where
    json_channel : List s.Version → Listing
    json_all : List (Text × List s.Version) → Listing
    listed : List (Text × List Text) → Listing

  unfoldable pub list_channels : List Text → List (Text × List s.Version) → List (Text × List Text)
  list_channels [] local = []
  list_channels (c ∷ cs) local =
      let rest = list_channels cs local in
      elim (or_empty (lookup c local)) [ [] ↦ rest | v ∷ vs ↦ (c, map s.string (v ∷ vs)) ∷ rest ]

  unfoldable pub list_images : Bool → Bool → Text → List (Text × List s.Version) → Listing
  unfolding list_channels
  list_images json all flag local =
      let c = channel flag in
      if json
      then (if all then json_all local else json_channel (or_empty (lookup c local)))
      else listed (list_channels (if all then channels else c ∷ []) local)

  -- `lsCommand`
  unfoldable pub ls_command :
      Bool
      → Bool
      → Text
      → Option Error
      → Result Error (List (Text × List s.Version))
      → Result Error Listing
  unfolding list_images
  ls_command json all flag (some e) local = err server_unreachable
  ls_command json all flag none (err e) = err e
  ls_command json all flag none (ok local) = ok (list_images json all flag local)
