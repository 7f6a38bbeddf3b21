-- ===== src/Cli/Targets.antt =====
-- cmd/panic.go and components/server/rpcservices.go: the command `panic` as the server sees it.
use corectl.Base.{
  All, Bool-cases, ◌=t◌, ◌||◌, ℕ, zero, suc, ◌<◌, Bool, true, false, not, ◌⊎◌, none, some, List, [],
  ◌∷◌, append-nil, Text, ◌≡◌, ◌≢◌, refl, ap, arith, length, get_elem?, values, ◌==◌, if◌then◌else◌,
  Outcome, returns, inl, inr,
}
use corectl.Cli.{accepts_targets, panic_command}
use corectl.Daemon.{Daemon, unknown_vm, server_shutting_down}
use corectl.Registry.{Active}
use corectl.Shutdown.{
  Host, Stopped, kill, matches, targets, stop_targets, stop_all, stop_named, stop_vms,
}
use corectl.Vm.{Vm, has_process}

-- Every VM has a process.
abbrev pub Alive : List Vm → Type 0
Alive = All (λ v. has_process v.exec ≡ true)

element :
    (vs : List Vm) (i : ℕ)
    → Alive vs
    → i < length vs
    → (v : Vm) × (get_elem? vs i ≡ some v) × (has_process v.exec ≡ true)
element [] i a h = absurd (omega arith)
element (v ∷ vs) zero a h = (v, refl, a.0)
element (v ∷ vs) (suc i) a h = element vs i a.1 (omega arith)

matches-Alive : (t : Text) (m : Active) → Alive (values m) → Alive (matches t m)
unfolding matches
matches-Alive t [] a = tt
matches-Alive t ((k, v) ∷ m) a =
    let rest = matches-Alive t m a.1 in
    elim (Bool-cases (v.name =t t || v.uuid =t t)) [ inl e ↦ rw e (a.0, rest) | inr e ↦ rw e rest ]

-- At most one SIGKILL is sent, and the map is left to the goroutine of the VM.
abbrev pub KillsOne : Active → Stopped → Type 0
KillsOne m r = ((r.sent ≡ []) ⊎ ((v : Vm) × (r.sent ≡ kill v))) × (r.active ≡ m)

random_kill :
    (h : Host) (pick : ℕ) (m : Active)
    → Alive (values m)
    → (m ≢ [] → pick < length (values m))
    → (r : Stopped) × (stop_all h pick true m ≡ returns r) × KillsOne m r
unfolding stop_all
random_kill h pick [] a b = (_, refl, (inl refl, refl))
random_kill h pick (e ∷ m) a b =
    let (v, q, p) = element (values (e ∷ m)) pick a (b (λ x. cc)) in
    (
      record { error = none; output = v.name ∷ []; sent = kill v; active = e ∷ m },
      rw (q, p) refl,
      (inr (v, refl), refl),
    )

named_kill :
    (h : Host) (t : Text) (m : Active)
    → Alive (values m)
    → (r : Stopped) × (stop_named h true (t ∷ []) m ≡ returns r) × KillsOne m r
unfolding stop_named targets
named_kill h t m a = rw (append-nil (matches t m)) (one (matches t m) (matches-Alive t m a))
  where
    one :
        (vs : List Vm)
        → Alive vs
        → (r : Stopped) × ((if length vs == 1
              then stop_targets h true [] vs m
              else returns (record { error = some unknown_vm; output = []; sent = []; active = m }))
            ≡ returns r)
          × KillsOne m r
    one [] p = (_, refl, (inl refl, refl))
    one (v ∷ []) p = (
      record { error = none; output = []; sent = kill v; active = m },
      rw p.0 refl,
      (inr (v, refl), refl),
    )
    one (v ∷ w ∷ vs) p = (
      record { error = some unknown_vm; output = []; sent = []; active = m },
      ground arith,
      (inl refl, refl),
    )

-- The guard of the service refuses, or the rest answers.
guarded :
    (up : Bool) (m : Active) (o : Outcome Stopped)
    → (r : Stopped) × (o ≡ returns r) × KillsOne m r
    → (r : Stopped) × (some (
          if not up
          then returns
              (record { error = some server_shutting_down; output = []; sent = []; active = m })
          else o)
        ≡ some (returns r))
      × KillsOne m r
guarded false m o g = (_, refl, (inl refl, refl))
guarded true m o (r, e, k) = (r, ap some e, k)

-- Arguments that the command `panic` accepts never crash the server, if every VM has a process and
-- the random index is one of its list: the call returns, has sent at most one SIGKILL and no other signal, and leaves the map
-- as it was.
pub panic_command_lem :
    {V : Type 0} (h : Host) (pick : ℕ) (random : Bool) (args : List Text) (d : Daemon V)
    → accepts_targets random args ≡ true
    → Alive (values d.active)
    → (d.active ≢ [] → pick < length (values d.active))
    → (r : Stopped) × (panic_command h pick random args d ≡ some (returns r)) × KillsOne d.active r
unfolding panic_command accepts_targets stop_vms
panic_command_lem h pick true [] d ok a b =
    guarded d.accepting_requests d.active _ (random_kill h pick d.active a b)
panic_command_lem h pick true (t ∷ ts) d ok a b = absurd (ground arith)
panic_command_lem h pick false [] d ok a b = absurd (ground arith)
panic_command_lem h pick false (t ∷ []) d ok a b =
    guarded d.accepting_requests d.active _ (named_kill h t d.active a)
panic_command_lem h pick false (t ∷ u ∷ ts) d ok a b = absurd (ground arith)
