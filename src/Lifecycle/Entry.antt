-- ===== src/Lifecycle/Entry.antt =====
-- components/server/rpcservices.go: `RPCservice.Run` up to the goroutines that it launches.
use corectl.Base.{
  ℕ, Bool, true, false, not, inl, inr, Option, none, some, [], ◌∷◌, ◌++◌, codes, ◌≡◌, insert, ◌≢◌,
  refl, ap, ◌∙◌, All, if◌then◌else◌, Result, ok, err,
}
use corectl.Daemon.{Daemon, Error, server_shutting_down, os_error, already_running}
use corectl.Lifecycle.{Boot, launched, with_channels}
use corectl.Registry.{Active, register}
use corectl.Registry.Unique.{Apart, register_outcome}
use corectl.Vm.{Vm}

-- The VM in the map once `Run` has set its `CreationTime`.
abbrev pub stamped : ℕ → Vm → Vm
stamped now vm = record (with_channels vm) { creation_time = now }

-- The rest of `Run` after `register`: the directory is made, or the call ends. The map has a pointer
-- to the VM, whose time is set once the directory is there.
unfoldable pub after_register :
    {V : Type 0} → Bool → ℕ → Vm → Daemon V → Active × Option Error → Daemon V × Result Error Boot
after_register made now vm d (m, some e) = (record d { active = m }, err e)
after_register made now vm d (m, none) =
    if made
    then (record d { active = insert vm.uuid (stamped now vm) m }, ok (launched (stamped now vm)))
    else (record d { active = m }, err os_error)

-- `Run` before its `select`; `made` is whether `MkRunDir` succeeds and `now` the time.
unfoldable pub enter : {V : Type 0} → Bool → ℕ → Vm → Daemon V → Daemon V × Result Error Boot
unfolding after_register
enter made now vm d =
    if not d.accepting_requests
    then (d, err server_shutting_down)
    else after_register made now vm d (register (with_channels vm) d.active)

pub entered :
    {V : Type 0} (made : Bool) (now : ℕ) (vm : Vm) (d : Daemon V)
    → d.accepting_requests ≡ true
    → (r : Active × Option Error) → register (with_channels vm) d.active ≡ r
    → enter made now vm d ≡ after_register made now vm d r
unfolding enter
entered made now vm d up r e = rw (up, e) refl

itself_not-Apart : (vm : Vm) (m : Active) → ¬ All (Apart vm) (m ++ (vm.uuid, vm) ∷ [])
itself_not-Apart vm [] a = a.0.0 refl
itself_not-Apart vm (e ∷ m) a = itself_not-Apart vm m a.1

pub register_fresh :
    (vm : Vm) (m : Active)
    → vm.name ≢ codes "corectld"
    → All (Apart vm) m
    → register vm m ≡ (m ++ (vm.uuid, vm) ∷ [], none)
register_fresh vm m n a = elim (register_outcome vm m) [
  | inl (p, q, r) ↦ r
  | inr (inl (p, r)) ↦ absurd (n p)
  | inr (inr (p, q, r)) ↦ absurd (q a)
]

register_again :
    (vm : Vm) (m : Active)
    → vm.name ≢ codes "corectld"
    → ¬ All (Apart vm) m
    → register vm m ≡ (m, some already_running)
register_again vm m n a = elim (register_outcome vm m) [
  | inl (p, q, r) ↦ absurd (a q)
  | inr (inl (p, r)) ↦ absurd (n p)
  | inr (inr (p, q, r)) ↦ r
]

-- If the directory of a new VM cannot be made, `Run` reports an error, and the VM stays registered:
-- the same VM is refused from then on, although no process was started for it.
pub enter_twice :
    {V : Type 0} (now : ℕ) (later : Bool) (vm : Vm) (d : Daemon V)
    → d.accepting_requests ≡ true
    → vm.name ≢ codes "corectld"
    → All (Apart vm) d.active
    → ((enter false now vm d).1 ≡ err os_error)
      × ((enter false now vm d).0.active ≡ d.active ++ (vm.uuid, with_channels vm) ∷ [])
      × ((enter later now vm (enter false now vm d).0).1 ≡ err already_running)
unfolding after_register
enter_twice now later vm d up n a =
    let m = d.active ++ (vm.uuid, with_channels vm) ∷ [] in
    let first = entered false now vm d up _ (register_fresh (with_channels vm) d.active n a) in
    let second =
      entered later now vm (record d { active = m }) up _
        (register_again (with_channels vm) m n (itself_not-Apart (with_channels vm) d.active)) in
    (
      ap (λ p. p.1) first,
      ap (λ p. p.0.active) first,
      ap (λ p. (enter later now vm p.0).1) first ∙ ap (λ p. p.1) second,
    )
