-- ===== src/Services/Gate.antt =====
-- components/server/rpcservices.go: what a server that is being stopped still answers.
use corectl.Base.{
  ℕ, Bool, false, some, List, [], ◌∷◌, Text, ◌≡◌, refl, arith, err, returns, Outcome,
}
use corectl.Coreos.{Semver}
use corectl.Daemon.{Daemon, server_shutting_down}
use corectl.Lifecycle.Entry.{enter}
use corectl.Services.{
  Query, echo, handles_nfs, available_images, active_vms, remove_an_image, uuid_to_mac_addr, Host,
  blank, serve, Served, guarded, echo_service, nfs_service, images_service, vms_service,
  remove_image_service, mac_address_service,
}
use corectl.Images.{Store}
use corectl.Shutdown.{stop, stop_vms}
use corectl.Shutdown
use corectl.Vm.{Vm}

stop_closes :
    {V : Type 0} (g : Shutdown.Host) (d : Daemon V) → (stop g d).1.accepting_requests ≡ false
unfolding stop
stop_closes g d = ground arith

-- A query with the two texts of its input, where the service reads them.
abbrev pub HasInput : {s : Semver} → Query s → Type 0
HasInput (remove_an_image (c ∷ v ∷ ts)) = Unit
HasInput (remove_an_image _) = ⊥
HasInput (uuid_to_mac_addr (u ∷ o ∷ ts)) = Unit
HasInput (uuid_to_mac_addr _) = ⊥
HasInput _ = Unit

module _ (s : Semver) (d : Daemon s.Version) (closed : d.accepting_requests ≡ false) where
  abbrev refusal : Store → Outcome (Served s)
  refusal store =
      returns
        (record { reply = blank s; error = some server_shutting_down; daemon = d; store = store })

  guarded_closed : (store : Store) (o : Outcome (Served s)) → guarded s d store o ≡ refusal store
  guarded_closed store o = rw closed refl

  serve_closed :
      (h : Host s) (q : Query s) (store : Store) → HasInput q → serve s h q d store ≡ refusal store
  unfolding serve echo_service nfs_service images_service vms_service remove_image_service
      mac_address_service
  serve_closed h echo store i = guarded_closed store _
  serve_closed h handles_nfs store i = guarded_closed store _
  serve_closed h available_images store i = guarded_closed store _
  serve_closed h active_vms store i = guarded_closed store _
  serve_closed h (remove_an_image []) store i = absurd i
  serve_closed h (remove_an_image (c ∷ [])) store i = absurd i
  serve_closed h (remove_an_image (c ∷ v ∷ ts)) store i = guarded_closed store _
  serve_closed h (uuid_to_mac_addr []) store i = absurd i
  serve_closed h (uuid_to_mac_addr (u ∷ [])) store i = absurd i
  serve_closed h (uuid_to_mac_addr (u ∷ o ∷ ts)) store i = guarded_closed store _

  enter_closed :
      (made : Bool) (now : ℕ) (vm : Vm) → enter made now vm d ≡ (d, err server_shutting_down)
  unfolding enter
  enter_closed made now vm = rw closed refl

  stop_vms_closed :
      (g : Shutdown.Host) (pick : ℕ) (forced : Bool) (input : List Text)
      → stop_vms g pick forced input d
        ≡ returns (record {
          error = some server_shutting_down;
          output = [];
          sent = [];
          active = d.active;
        })
  unfolding stop_vms
  stop_vms_closed g pick forced [] = rw closed refl
  stop_vms_closed g pick forced (t ∷ ts) = rw closed refl

  stop_closed : (g : Shutdown.Host) → stop g d ≡ (returns [], d, some server_shutting_down)
  unfolding stop
  stop_closed g = rw closed refl

-- Once `Stop` was called, whether or not the VMs can be shut down, each of the nine services, `Run`,
-- `StopVMs` and `Stop` among them, refuses and leaves the server and the images as they are. Those
-- that index their input do so if it has two texts.
pub serve-stop :
    (s : Semver) (h : Host s) (g f : Shutdown.Host) (q : Query s) (made : Bool) (now pick : ℕ)
    (vm : Vm) (forced : Bool) (input : List Text) (before : Daemon s.Version) (store : Store)
    → HasInput q
    → let d = (stop g before).1 in
      (serve s h q d store
        ≡ returns (record {
          reply = blank s;
          error = some server_shutting_down;
          daemon = d;
          store = store;
        }))
      × (enter made now vm d ≡ (d, err server_shutting_down))
      × (stop_vms f pick forced input d
          ≡ returns (record {
            error = some server_shutting_down;
            output = [];
            sent = [];
            active = d.active;
          }))
      × (stop f d ≡ (returns [], d, some server_shutting_down))
serve-stop s h g f q made now pick vm forced input before store i =
    let d = (stop g before).1 in
    let c = stop_closes g before in
    (
      serve_closed s d c h q store i,
      enter_closed s d c made now vm,
      stop_vms_closed s d c f pick forced input,
      stop_closed s d c f,
    )
