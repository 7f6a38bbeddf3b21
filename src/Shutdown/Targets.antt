-- ===== src/Shutdown/Targets.antt =====
-- components/server/rpcservices.go: which VMs `StopVMs` and `Stop` stop.
use corectl.Base.{
  Outcome, returns, ℕ, Bool, true, false, inl, inr, ◌⊎◌, none, some, List, [], ◌∷◌, append-nil,
  Text, ◌≡◌, ◌≢◌, refl, ◌∙◌, =t_iff, All, arith, length, lookup, values, if◌then◌else◌, ◌==◌,
}
use corectl.Daemon.{Daemon, unknown_vm, nothing_to_shutdown}
use corectl.Registry.{Active}
use corectl.Registry.Unique.{IsUnique}
use corectl.Shutdown.{
  Host, Stopped, newest_first, matches, targets, stop_targets, stop_all, stop_named, stop_vms,
}
use corectl.Shutdown.Graceful.{
  IsCalm, Halts, signals, shut_down-Stops, values-AreDistinct, values-IsListed, lookup-values,
}
use corectl.Vm.{Vm}

abbrev AllStopped : Host → Active → Outcome Stopped → Type 0
AllStopped h m o =
    (r : Stopped) × (o ≡ returns r)
    × (r.sent ≡ signals h (newest_first (values m)))
    × ((k : Text) → lookup k r.active ≡ none)
    × (r.error ≡ (if length m == 0 then some nothing_to_shutdown else none))

stop_all-AllStopped :
    (h : Host) (pick : ℕ) (m : Active)
    → IsUnique m
    → IsCalm h
    → All (Halts h) (values m)
    → AllStopped h m (stop_all h pick false m)
unfolding stop_all lookup newest_first
stop_all-AllStopped h pick [] u calm e = (
  record { error = some nothing_to_shutdown; output = []; sent = []; active = [] },
  refl,
  refl,
  λ k. refl,
  refl,
)
stop_all-AllStopped h pick (x ∷ m) u calm e =
    let vs = values (x ∷ m) in
    let (n, run, left) =
      shut_down-Stops h vs (x ∷ m) calm e (values-AreDistinct (x ∷ m) u)
        (values-IsListed (x ∷ m) u) in
    (
      record { error = none; output = []; sent = signals h (newest_first vs); active = n },
      rw run,
      refl,
      λ k. left k ∙ lookup-values k (x ∷ m) u,
      ground arith,
    )

-- Without an argument `StopVMs` stops every VM, the newest first, and leaves the map empty. It
-- reports an error only when there is none.
pub stop_vms_without_argument :
    {V : Type 0} (h : Host) (pick : ℕ) (d : Daemon V)
    → d.accepting_requests ≡ true
    → IsUnique d.active
    → IsCalm h
    → All (Halts h) (values d.active)
    → (r : Stopped) × (stop_vms h pick false [] d ≡ returns r)
      × (r.sent ≡ signals h (newest_first (values d.active)))
      × ((k : Text) → lookup k r.active ≡ none)
      × (r.error ≡ (if length d.active == 0 then some nothing_to_shutdown else none))
unfolding stop_vms
stop_vms_without_argument h pick d up u calm e =
    rw up (stop_all-AllStopped h pick d.active u calm e)

-- The call acts on the one VM that matches, or several or none match and it touches none.
abbrev pub ActsOnOne : {V : Type 0} → Host → ℕ → Bool → Text → Daemon V → Type 0
ActsOnOne h pick forced id d =
    ((v : Vm) × (matches id d.active ≡ v ∷ [])
      × (stop_vms h pick forced (id ∷ []) d ≡ stop_targets h forced [] (v ∷ []) d.active))
    ⊎ ((length (matches id d.active) ≢ 1)
        × (stop_vms h pick forced (id ∷ []) d
            ≡ returns
                (record { error = some unknown_vm; output = []; sent = []; active = d.active })))

acts_by_matches :
    {V : Type 0} (h : Host) (pick : ℕ) (forced : Bool) (id : Text) (d : Daemon V) (vs : List Vm)
    → d.accepting_requests ≡ true
    → matches id d.active ≡ vs
    → ActsOnOne h pick forced id d
unfolding stop_vms targets stop_named
acts_by_matches h pick forced id d [] up e =
    inr (ground arith, ground (arith, append-nil (matches id d.active)))
acts_by_matches h pick forced id d (v ∷ []) up e =
    inl (v, e, ground (arith, append-nil (matches id d.active)))
acts_by_matches h pick forced id d (v ∷ w ∷ vs) up e =
    inr (ground arith, ground (arith, append-nil (matches id d.active)))

-- If exactly one running VM has the name or the UUID, `StopVMs` acts on that VM alone: it kills it
-- if forced and else shuts it down. If none or several have it, no VM is touched.
pub stop_vms_one :
    {V : Type 0} (h : Host) (pick : ℕ) (forced : Bool) (id : Text) (d : Daemon V)
    → d.accepting_requests ≡ true
    → ActsOnOne h pick forced id d
stop_vms_one h pick forced id d up =
    acts_by_matches h pick forced id d (matches id d.active) up refl

-- An argument that is the UUID of one VM and the name of another stops neither of them.
pub stop_vms_ambiguous :
    {V : Type 0} (h : Host) (pick : ℕ) (forced : Bool) (id : Text) (v w : Vm) (d : Daemon V)
    → d.accepting_requests ≡ true
    → d.active ≡ (v.uuid, v) ∷ (w.uuid, w) ∷ []
    → v.uuid ≡ id
    → w.name ≡ id
    → stop_vms h pick forced (id ∷ []) d
      ≡ returns (record { error = some unknown_vm; output = []; sent = []; active = d.active })
unfolding stop_vms targets stop_named matches
stop_vms_ambiguous h pick forced id v w d up a p q =
    ground (arith, =t_iff v.uuid id, =t_iff w.name id, =t_iff v.name id)
