-- ===== src/Services.antt =====
-- components/server/rpcservices.go: the services that answer a client, but for `Run`, which is in
-- Lifecycle, and `StopVMs` and `Stop`, which are in Shutdown.
pub mod Frame
pub mod Gate
pub mod Mac
use corectl.Base.{
  ℕ, zero, suc, ◌+◌, Bool, true, false, not, ◌&&◌, Option, none, some, List, [], ◌∷◌, ◌++◌, Text,
  codes, ◌=t◌, to_upper, lookup, insert, if◌then◌else◌, Result, ok, err, Outcome, returns, hangs,
  panics, ◌==◌,
}
use corectl.Coreos.{Semver}
use corectl.Daemon.{
  Daemon, Error, Info, server_shutting_down, same_uuid, mac_failure, os_error, other,
}
use corectl.Images.{Rev, Store, local_images, remove_image, or_empty}
use corectl.Registry.{Active}

-- One run of `corectld uuid2mac`: it cannot be started, or it ends, with an error or not, and has
-- printed a line.
pub data Attempt : Type 0 where
  broken : Error → Attempt
  exited : Option Error → Text → Attempt

-- What `UUIDtoMACaddr` calls: the tool at its n-th run, and the UUIDs of `uuid.NewV4`.
pub record MacTool : Type 0 where
  pub run_tool : ℕ → Text → Attempt
  pub fresh : ℕ → Text

-- The variables of the loop.
pub record Search : Type 0 where
  pub i : ℕ
  pub uuid : Text
  pub mac : Text
  pub error : Option Error

-- Whether an attempt ends the loop: it broke, or it gave an address for a UUID that is free.
abbrev succeeded : Option Error → Text → Option corectl.Vm.Vm → Bool
succeeded none (c ∷ s) none = true
succeeded _ _ _ = false

-- A round of the loop, given what the later rounds make of its line and its error.
unfoldable pub after_attempt : Active → Search → Attempt → (Text → Option Error → Search) → Search
after_attempt m s (broken e) rest = record s { error = some e }
after_attempt m s (exited e line) rest =
    let later = rest line e in
    if succeeded e line (lookup s.uuid m) then record s { mac = line; error = none } else later

-- The loop of `UUIDtoMACaddr`, with the rounds that are left.
unfoldable pub search_mac : MacTool → Active → ℕ → Search → Search
unfolding after_attempt
search_mac t m zero s = s
search_mac t m (suc left) s = after_attempt m s (t.run_tool s.i s.uuid) λ line e.
    search_mac t m left (record { i = suc s.i; uuid = t.fresh s.i; mac = line; error = e })

-- `err` after the loop: after the third round an error of the tool becomes another one.
abbrev pub final_error : Search → Option Error
final_error s = elim s.error [
  | none ↦ none
  | some e ↦ if s.i == 3 then some mac_failure else some e
]

-- `UUIDtoMACaddr`: `reply.Output` and the error
unfoldable pub uuid_to_mac : {V : Type 0} → MacTool → Text → Daemon V → (Text × Text) × Option Error
unfolding search_mac
uuid_to_mac t uuid d =
    if not d.accepting_requests
    then (([], []), some server_shutting_down)
    else elim (lookup uuid d.active) [
      | some vm ↦ (([], to_upper uuid), some same_uuid)
      | none ↦
          let s = search_mac t d.active 3 (record { i = 0; uuid = uuid; mac = []; error = none }) in
          ((s.mac, to_upper s.uuid), final_error s)
    ]

module _ (s : Semver) where
  -- `RPCreply`, the fields that these services fill
  pub record Reply : Type 0 where
    pub meta : Option Info
    pub output : List Text
    pub images : List (Text × List s.Version)
    pub running : Active
    pub working_nfs : Bool

  abbrev pub blank : Reply
  blank = record { meta = none; output = []; images = []; running = []; working_nfs = false }

  -- The services by their names, with the part of `RPCquery` that each reads: `RemoveImage` and
  -- `UUIDtoMACaddr` index `args.Input`.
  pub data Query : Type 0 where
    echo handles_nfs available_images active_vms : Query
    remove_an_image : List Text → Query
    uuid_to_mac_addr : List Text → Query

  -- What the services read besides the server's state. `remove_dir` is `os.RemoveAll` on the
  -- directory of a channel and version; `none` is an error.
  pub record Host : Type 0 where
    pub breakage : ℕ
    pub remove_dir : Text → Text → Store → Option Store
    pub tool : MacTool

  -- What a service leaves: its reply and error, the state of the server, and the image store.
  pub record Served : Type 0 where
    pub reply : Reply
    pub error : Option Error
    pub daemon : Daemon s.Version
    pub store : Store

  abbrev refuse : Error → Daemon s.Version → Store → Outcome Served
  refuse e d store = returns (record { reply = blank; error = some e; daemon = d; store = store })

  abbrev answer : Reply → Daemon s.Version → Store → Outcome Served
  answer r d store = returns (record { reply = r; error = none; daemon = d; store = store })

  list_images :
      Store × Result Error (List (Text × List s.Version)) → Daemon s.Version → Outcome Served
  list_images (store, ok images) d = answer (record blank { images = images }) d store
  list_images (store, err e) d = refuse e d store

  -- The end of `RemoveImage`, once `Daemon.Media` is changed.
  delete_files : Host → Text → Text → Daemon s.Version → Store → Outcome Served
  unfolding list_images
  delete_files h channel version d store = elim (h.remove_dir channel version store) [
    | none ↦ refuse os_error d store
    | some left ↦ list_images (local_images s h.breakage left) d
  ]

  abbrev forget : Text → List s.Version → Daemon s.Version → Daemon s.Version
  forget channel left d = record d { media = insert channel left d.media }

  -- `RemoveImage`
  remove_service : Host → Text → Text → Daemon s.Version → Store → Outcome Served
  unfolding delete_files
  remove_service h channel version d store =
      elim (remove_image s version (or_empty (lookup channel d.media))) [
        | none ↦ panics
        | some r ↦ delete_files h channel (s.string r.1) (forget channel r.0 d) store
      ]

  mac_service : Host → Text → Daemon s.Version → Store → Outcome Served
  unfolding uuid_to_mac
  mac_service h uuid d store =
      let (out, e) = uuid_to_mac h.tool uuid d in
      returns (record {
        reply = record blank { output = out.0 ∷ out.1 ∷ [] };
        error = e;
        daemon = d;
        store = store;
      })

  -- The guard with which a service begins.
  abbrev pub guarded : Daemon s.Version → Store → Outcome Served → Outcome Served
  guarded d store o = if not d.accepting_requests then refuse server_shutting_down d store else o

  unfoldable pub echo_service : Daemon s.Version → Store → Outcome Served
  echo_service d store = guarded d store (answer (record blank { meta = some d.meta }) d store)

  unfoldable pub nfs_service : Daemon s.Version → Store → Outcome Served
  nfs_service d store =
      guarded d store (answer (record blank { working_nfs = d.working_nfs }) d store)

  unfoldable pub images_service : Host → Daemon s.Version → Store → Outcome Served
  unfolding list_images
  images_service h d store = guarded d store (list_images (local_images s h.breakage store) d)

  unfoldable pub vms_service : Daemon s.Version → Store → Outcome Served
  vms_service d store = guarded d store (answer (record blank { running = d.active }) d store)

  -- `args.Input[0]` and `args.Input[1]` are read before the guard.
  unfoldable pub remove_image_service : Host → List Text → Daemon s.Version → Store → Outcome Served
  unfolding remove_service
  remove_image_service h (channel ∷ version ∷ more) d store =
      guarded d store (remove_service h channel version d store)
  remove_image_service h _ d store = panics

  unfoldable pub mac_address_service : Host → List Text → Daemon s.Version → Store → Outcome Served
  unfolding mac_service
  mac_address_service h (uuid ∷ original ∷ more) d store =
      guarded d store (mac_service h uuid d store)
  mac_address_service h _ d store = panics

  unfoldable pub serve : Host → Query → Daemon s.Version → Store → Outcome Served
  unfolding echo_service nfs_service images_service vms_service remove_image_service
      mac_address_service
  serve h echo d store = echo_service d store
  serve h handles_nfs d store = nfs_service d store
  serve h available_images d store = images_service h d store
  serve h active_vms d store = vms_service d store
  serve h (remove_an_image input) d store = remove_image_service h input d store
  serve h (uuid_to_mac_addr input) d store = mac_address_service h input d store
