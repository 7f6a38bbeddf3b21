-- ===== src/System/Changes.antt =====
-- components/server: what the requests and the goroutines of a VM do to the map of running VMs.
use corectl.Base.{
  Bool-cases, inl, inr, Option-cases, some, [], ◌∷◌, Text, ◌≡◌, refl, sym, ap, ◌∙◌, arith, =t_iff,
  lookup, insert, Outcome, returns, hangs, panics,
}
use corectl.Http.{
  Network, Reply, refusal, remote_ip, is_loopback, call_back, see_world, instance_callback,
  external_connectivity,
}
use corectl.Lifecycle.{Boot, Watcher, Runner, Event, step}
use corectl.Registry.{Active}
use corectl.Registry.Change.{Change, same, updated}
use corectl.Registry.Unique.{IsUnique}
use corectl.Shutdown.Changes.{Changes}
use corectl.System.{boot_of, vm_after, live}
use corectl.Vm.{Vm, send}

-- Each VM stands under its own UUID.
pub lookup_own : (k : Text) (v : Vm) (m : Active) → IsUnique m → lookup k m ≡ some v → k ≡ v.uuid
unfolding lookup
lookup_own k v [] u e = absurd (cc)
lookup_own k v ((j, w) ∷ m) u e =
    ground (arith, =t_iff j k, λ (p : lookup k m ≡ some v). lookup_own k v m u.2 p)

-- A VM with the UUID and the name of another.
Twins : Vm → Vm → Type 0
Twins v w = (w.uuid ≡ v.uuid) × (w.name ≡ v.name)

TwinsIf : Vm → Outcome Vm → Type 0
TwinsIf v (returns w) = Twins v w
TwinsIf v hangs = Unit
TwinsIf v panics = Unit

call_back-TwinsIf : (ip : Text) (v : Vm) → TwinsIf v (call_back ip v)
unfolding call_back TwinsIf Twins send
call_back-TwinsIf ip v = ground arith

see_world-Twins : (v : Vm) → Twins v (see_world v)
unfolding see_world Twins
see_world-Twins v = ground arith

TwinBoots : Boot → Outcome Boot → Type 0
TwinBoots b (returns c) = Twins b.vm c.vm
TwinBoots b hangs = Unit
TwinBoots b panics = Unit

step-TwinBoots : (e : Event) (b : Boot) → TwinBoots b (step e b)
unfolding step TwinBoots Twins call_back send
step-TwinBoots e b = ground arith

module _ (m : Active) (u : IsUnique m) where
  -- A VM of the map gets the content of its twin.
  renewed : (k : Text) (v w : Vm) → lookup k m ≡ some v → Twins v w → Change m (insert k w m)
  unfolding Twins
  renewed k v w e t = updated k v w m e (lookup_own k v m u e) t.0 t.1

  vm_after-Change :
      (uuid : Text) (v : Vm) (b : Boot) (r : Outcome Boot)
      → lookup uuid m ≡ some v
      → b.vm ≡ v
      → TwinBoots b r
      → Change m (vm_after m uuid r)
  unfolding TwinBoots
  vm_after-Change uuid v b (returns c) e q t = renewed uuid b.vm c.vm (rw q e) t
  vm_after-Change uuid v b hangs e q t = same m
  vm_after-Change uuid v b panics e q t = same m

  pub live-Change :
      (uuid : Text) (w : Watcher) (r : Runner) (e : Event) → Change m (live uuid w r e m)
  unfolding live
  live-Change uuid w r e = elim (Option-cases (lookup uuid m)) [
    | inl t ↦ rw (t, live) (same m)
    | inr (v, t) ↦
        rw (t, live)
          (vm_after-Change uuid v (boot_of w r v) (step e (boot_of w r v)) t refl
            (step-TwinBoots e (boot_of w r v)))
  ]

  stored :
      (uuid : Text) (v w : Vm) → lookup uuid m ≡ some v → Twins v w → Change m (insert v.uuid w m)
  stored uuid v w e t =
      renewed v.uuid v w (ap (λ k. lookup k m) (sym (lookup_own uuid v m u e)) ∙ e) t

  pub external_connectivity-Change :
      (n : Network) (sender uuid : Text) → Change m (external_connectivity n sender uuid m).1
  unfolding external_connectivity
  external_connectivity-Change n sender uuid = elim (Option-cases (refusal n sender uuid m)) [
    | inr (status, t) ↦ rw (t, external_connectivity) (same m)
    | inl t ↦ elim (Bool-cases (is_loopback (remote_ip sender))) [
      | inl l ↦ rw (t, external_connectivity, l) (same m)
      | inr l ↦ elim (Option-cases (lookup uuid m)) [
        | inl x ↦ rw (t, external_connectivity, l, x) (same m)
        | inr (v, x) ↦
            rw (t, external_connectivity, l, x) (stored uuid v (see_world v) x (see_world-Twins v))
      ]
    ]
  ]

  replied-Changes :
      (uuid : Text) (v : Vm) (reply : Reply) (r : Outcome Vm)
      → lookup uuid m ≡ some v
      → TwinsIf v r
      → Changes m (elim r as (λ r. Outcome (Reply × Active)) [
        | returns w ↦ returns (reply, insert v.uuid w m)
        | hangs ↦ hangs
        | panics ↦ panics
      ])
  unfolding TwinsIf
  replied-Changes uuid v reply (returns w) e t = stored uuid v w e t
  replied-Changes uuid v reply hangs e t = tt
  replied-Changes uuid v reply panics e t = tt

  pub instance_callback-Changes :
      (n : Network) (sender uuid : Text) → Changes m (instance_callback n sender uuid m)
  unfolding instance_callback
  instance_callback-Changes n sender uuid = elim (Option-cases (refusal n sender uuid m)) [
    | inr (status, t) ↦ rw (t, instance_callback, Changes) (same m)
    | inl t ↦ elim (Bool-cases (is_loopback (remote_ip sender))) [
      | inl l ↦ rw (t, instance_callback, l, Changes) (same m)
      | inr l ↦ elim (Option-cases (lookup uuid m)) [
        | inl x ↦ rw (t, instance_callback, l, x, Changes) tt
        | inr (v, x) ↦
            rw (t, instance_callback, l, x)
              (replied-Changes uuid v _ (call_back (remote_ip sender) v) x
                (call_back-TwinsIf (remote_ip sender) v))
      ]
    ]
  ]
