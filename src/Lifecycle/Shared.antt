-- ===== src/Lifecycle/Shared.antt =====
-- components/server/run.go and rpcservices.go: two clients that validate the same volumes before
-- either calls `Run`.
use corectl.Bootstrap.Frame.{validate_volumes-Keeps}
use corectl.Base.{
  ℕ, Bool, true, ◌++◌, Option, List, [], ◌∷◌, Text, codes, ◌≡◌, ◌≢◌, refl, sym, insert, =t_refl,
  =t_iff, arith, ap, ◌∙◌, All, All-append, append_assoc, Result, ok, err, values,
}
use corectl.Daemon.{Daemon, Error}
use corectl.Lifecycle.Entry.{enter, entered, register_fresh, after_register, stamped}
use corectl.Lifecycle.{with_channels}
use corectl.Registry.{Active}
use corectl.Registry.Unique.{Apart, Apart-moves}
use corectl.Storage.{
  Files, Drives, add_volume, check_volume, after_volume, add_volumes, validate_volumes,
}
use corectl.Vm.{Vm, Kind, qcow2}

abbrev pub drives : Vm → Drives
drives v = v.storage.hard_drives

check_volume_same :
    (f : Files) (running : Result Error (List Vm)) (format : Kind) (j : Text) (v w : Vm)
    → drives v ≡ drives w
    → check_volume f running format j v ≡ check_volume f running format j w
unfolding check_volume
check_volume_same f running format j v w e =
    ap
      (λ (m : Drives).
        check_volume f running format j
          (record v { storage = record v.storage { hard_drives = m } }))
      e

add_volume_same :
    (root : Bool) (format : Kind) (path : Text) (v w : Vm)
    → drives v ≡ drives w
    → drives (add_volume root format path v) ≡ drives (add_volume root format path w)
unfolding add_volume
add_volume_same root format path v w e = rw e refl

-- The drives and the error depend on the drives alone.
Same : Vm × Option Error → Vm × Option Error → Type 0
Same p q = (drives p.0 ≡ drives q.0) × (p.1 ≡ q.1)

after_volume-Same :
    (root : Bool) (v w : Vm) (rest : Kind → Vm → Vm × Option Error) (r : Result Error (Text × Kind))
    → ((k : Kind) (x y : Vm) → drives x ≡ drives y → Same (rest k x) (rest k y))
    → drives v ≡ drives w
    → Same (after_volume root v rest r) (after_volume root w rest r)
unfolding after_volume Same
after_volume-Same root v w rest (err x) h e = (e, refl)
after_volume-Same root v w rest (ok (path, k)) h e =
    h k (add_volume root k path v) (add_volume root k path w) (add_volume_same root k path v w e)

module _ (f : Files) (running : Result Error (List Vm)) (root : Bool) where
  add_volumes-Same :
      (js : List Text) (k : Kind) (v w : Vm)
      → drives v ≡ drives w
      → Same (add_volumes f running root k js v) (add_volumes f running root k js w)
  unfolding add_volumes Same
  add_volumes-Same [] k v w e = (e, refl)
  add_volumes-Same ([] ∷ js) k v w e = add_volumes-Same js k v w e
  add_volumes-Same ((c ∷ j) ∷ js) k v w e = rw (check_volume_same f running k (c ∷ j) v w e) (
      after_volume-Same root v w (λ k' u. add_volumes f running root k' js u)
        (check_volume f running k (c ∷ j) w) (add_volumes-Same js) e)

insert_last :
    (k : Text) (v w : Vm) (m : Active)
    → All (λ e. e.0 ≢ k) m
    → insert k w (m ++ (k, v) ∷ []) ≡ m ++ (k, w) ∷ []
unfolding insert
insert_last k v w [] h = rw (=t_refl k) refl
insert_last k v w ((j, x) ∷ m) h = ground (arith, =t_iff j k, insert_last k v w m h.1)

keys-Apart : (vm : Vm) (m : Active) → All (Apart vm) m → All (λ e. e.0 ≢ vm.uuid) m
keys-Apart vm [] h = tt
keys-Apart vm (e ∷ m) h = (h.0.0, keys-Apart vm m h.1)

-- `Run` of a VM that clashes with none.
pub enter_fresh :
    {V : Type 0} (now : ℕ) (vm : Vm) (d : Daemon V)
    → d.accepting_requests ≡ true
    → vm.name ≢ codes "corectld"
    → All (Apart vm) d.active
    → (enter true now vm d).0 ≡ record d { active = d.active ++ (vm.uuid, stamped now vm) ∷ [] }
unfolding after_register
enter_fresh now vm d up n a =
    ap (λ p. p.0) (entered true now vm d up _ (register_fresh (with_channels vm) d.active n a))
    ∙ ap (λ m. record d { active = m })
        (insert_last vm.uuid (with_channels vm) (stamped now vm) d.active
          (keys-Apart vm d.active a))

enter_both :
    {V : Type 0} (now : ℕ) (a b : Vm) (d : Daemon V)
    → d.accepting_requests ≡ true
    → (a.name ≢ codes "corectld") × (b.name ≢ codes "corectld")
    → (a.uuid ≢ b.uuid) × (a.name ≢ b.name)
    → All (Apart a) d.active
    → All (Apart b) d.active
    → (enter true now b (enter true now a d).0).0.active
      ≡ d.active ++ (a.uuid, stamped now a) ∷ (b.uuid, stamped now b) ∷ []
enter_both now a b d up (n, m) apart h k =
    let first = enter_fresh now a d up n h in
    let second =
      enter_fresh now b (record d { active = d.active ++ (a.uuid, stamped now a) ∷ [] }) up m
        (All-append (Apart b) d.active _ k (apart, tt)) in
    ap (λ x. (enter true now b x).0.active) first
    ∙ (ap (λ x. x.active) second ∙ append_assoc d.active _ _)

-- Two clients ask for the running VMs before either calls `Run`, and validate the same volumes for
-- VMs without drives, whose names are not reserved, and that have a UUID or a name in common neither
-- with each other nor with a VM that runs. Then both get the same drives and the same error, and
-- `Run` registers both: the server does not look for a volume that is in use.
pub enter_shared :
    {V : Type 0} (f : Files) (volumes : List Text) (root : Bool) (now : ℕ) (v w : Vm) (d : Daemon V)
    → d.accepting_requests ≡ true
    → (v.name ≢ codes "corectld") × (w.name ≢ codes "corectld")
    → (v.uuid ≢ w.uuid) × (v.name ≢ w.name)
    → All (Apart v) d.active
    → All (Apart w) d.active
    → (drives v ≡ []) × (drives w ≡ [])
    → let (a, e) = validate_volumes f (ok (values d.active)) volumes root v in
      let (b, x) = validate_volumes f (ok (values d.active)) volumes root w in
      (drives a ≡ drives b)
      × (e ≡ x)
      × ((enter true now b (enter true now a d).0).0.active
          ≡ d.active ++ (v.uuid, stamped now a) ∷ (w.uuid, stamped now b) ∷ [])
unfolding validate_volumes Same
enter_shared f volumes root now v w d up names apart av aw empty =
    let running = ok (values d.active) in
    let a = (validate_volumes f running volumes root v).0 in
    let b = (validate_volumes f running volumes root w).0 in
    let ka = validate_volumes-Keeps f running root volumes v in
    let kb = validate_volumes-Keeps f running root volumes w in
    let (same, errors) =
      add_volumes-Same f running root volumes qcow2 v w (empty.0 ∙ sym empty.1) in
    (
      same,
      errors,
      (enter_both now a b d up ((λ e. names.0 (sym ka.name ∙ e)), (λ e. names.1 (sym kb.name ∙ e)))
            (
              (λ e. apart.0 (sym ka.uuid ∙ (e ∙ kb.uuid))),
              (λ e. apart.1 (sym ka.name ∙ (e ∙ kb.name))),
            )
            (Apart-moves v a d.active ka.uuid ka.name av)
            (Apart-moves w b d.active kb.uuid kb.name aw)
          ∙ (ap (λ k. d.active ++ (k, stamped now a) ∷ (b.uuid, stamped now b) ∷ []) ka.uuid
              ∙ ap (λ k. d.active ++ (v.uuid, stamped now a) ∷ (k, stamped now b) ∷ []) kb.uuid)),
    )
