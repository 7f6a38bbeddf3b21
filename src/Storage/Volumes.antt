-- ===== src/Storage/Volumes.antt =====
-- components/server/run.go: the drives that `ValidateVolumes` adds.
use corectl.Base.{
  ℕ, suc, ◌+◌, Bool, false, List, [], ◌∷◌, ◌++◌, Text, ◌≡◌, ◌≢◌, refl, sym, =t_iff, All, All-append,
  arith, length, Result, ok, err,
}
use native.Mathlib.Nat.{zero-add}
use corectl.Daemon.{Error}
use corectl.Storage.{
  Files, Drives, put, uses_path, used_by, add_volume, check_volume, after_volume, add_volumes,
  validate_volumes,
}
use corectl.Vm.{Vm, Kind, qcow2, StorageDevice}

-- Keys and slots count up from `n`.
abbrev pub CountsFrom : ℕ → Drives → Type 0
CountsFrom n [] = Unit
CountsFrom n ((k, d) ∷ m) = (k ≡ n) × (d.slot ≡ n) × CountsFrom (suc n) m

-- No file is the base of two drives.
abbrev pub HasDistinctPaths : Drives → Type 0
HasDistinctPaths [] = Unit
HasDistinctPaths ((k, d) ∷ m) = All (λ e. e.1.path ≢ d.path) m × HasDistinctPaths m

-- No drive's file is that of a VM that runs.
abbrev pub IsFree : List Vm → Drives → Type 0
IsFree vms = All (λ e. used_by e.1.path vms ≡ false)

pub record IsSound (vms : List Vm) (m : Drives) : Type 0 where
  pub counts : CountsFrom 0 m
  pub distinct : HasDistinctPaths m
  pub free : IsFree vms m

put_next :
    (n : ℕ) (d : StorageDevice) (m : Drives)
    → CountsFrom n m
    → put (n + length m) d m ≡ m ++ (n + length m, d) ∷ []
unfolding put
put_next n d [] h = refl
put_next n d ((k, e) ∷ m) h = ground (arith, put_next (suc n) d m h.2)

counts-append :
    (n : ℕ) (d : StorageDevice) (m : Drives)
    → CountsFrom n m
    → d.slot ≡ n + length m
    → CountsFrom n (m ++ (n + length m, d) ∷ [])
counts-append n d [] h s = omega arith
counts-append n d ((k, e) ∷ m) h s = ground (arith, counts-append (suc n) d m h.2)

apart_of_unused : (p : Text) (m : Drives) → uses_path p m ≡ false → All (λ e. e.1.path ≢ p) m
unfolding uses_path
apart_of_unused p [] h = tt
apart_of_unused p ((k, e) ∷ m) h = ground (arith, =t_iff e.path p, apart_of_unused p m)

distinct-append :
    (k : ℕ) (d : StorageDevice) (m : Drives)
    → HasDistinctPaths m
    → All (λ e. e.1.path ≢ d.path) m
    → HasDistinctPaths (m ++ (k, d) ∷ [])
distinct-append k d [] h a = (tt, tt)
distinct-append k d ((j, e) ∷ m) h a = (
  All-append (λ x. x.1.path ≢ e.path) m ((k, d) ∷ []) h.0 ((λ q. a.0 (sym q)), tt),
  distinct-append k d m h.1 a.1,
)

put-IsSound :
    (vms : List Vm) (m : Drives) (d : StorageDevice)
    → IsSound vms m
    → d.slot ≡ length m
    → used_by d.path vms ≡ false
    → uses_path d.path m ≡ false
    → IsSound vms (put (length m) d m)
put-IsSound vms m d s n u p =
    let end : put (length m) d m ≡ m ++ (length m, d) ∷ [] =
      ground (arith, put_next 0 d m s.counts, zero-add (length m)) in
    let counts : CountsFrom 0 (m ++ (length m, d) ∷ []) =
      rw zero-add at (counts-append 0 d m s.counts (rw zero-add n)) in
    rw end (record {
      counts = counts;
      distinct = distinct-append (length m) d m s.distinct (apart_of_unused d.path m p);
      free = All-append (λ e. used_by e.1.path vms ≡ false) m _ s.free (u, tt);
    })

add_volume-IsSound :
    (vms : List Vm) (root : Bool) (format : Kind) (path : Text) (vm : Vm)
    → IsSound vms vm.storage.hard_drives
    → used_by path vms ≡ false
    → uses_path path vm.storage.hard_drives ≡ false
    → IsSound vms (add_volume root format path vm).storage.hard_drives
unfolding add_volume
add_volume-IsSound vms root format path vm s u p =
    put-IsSound vms vm.storage.hard_drives _ s refl u p

check_volume_free :
    (f : Files) (vms : List Vm) (format format' : Kind) (j path : Text) (vm : Vm)
    → check_volume f (ok vms) format j vm ≡ ok (path, format')
    → (used_by path vms ≡ false) × (uses_path path vm.storage.hard_drives ≡ false)
unfolding check_volume
check_volume_free f vms format format' j path vm e = ground arith

module _ (f : Files) (vms : List Vm) (root : Bool) where
  abbrev Sound : Vm → Type 0
  Sound vm = IsSound vms vm.storage.hard_drives

  after_check :
      (format : Kind) (j : Text) (js : List Text) (vm : Vm) (r : Result Error (Text × Kind))
      → check_volume f (ok vms) format j vm ≡ r
      → Sound vm
      → ((format' : Kind) (vm' : Vm)
          → Sound vm'
          → Sound (add_volumes f (ok vms) root format' js vm').0)
      → Sound (after_volume root vm (λ format' vm'. add_volumes f (ok vms) root format' js vm') r).0
  unfolding after_volume
  after_check format j js vm (err e) q s ih = s
  after_check format j js vm (ok (path, format')) q s ih =
      let (u, p) = check_volume_free f vms format format' j path vm q in
      ih format' _ (add_volume-IsSound vms root format' path vm s u p)

  add_volumes-IsSound :
      (js : List Text) (format : Kind) (vm : Vm)
      → Sound vm
      → Sound (add_volumes f (ok vms) root format js vm).0
  unfolding add_volumes
  add_volumes-IsSound [] format vm s = s
  add_volumes-IsSound ([] ∷ js) format vm s = add_volumes-IsSound js format vm s
  add_volumes-IsSound ((c ∷ j) ∷ js) format vm s =
      after_check format (c ∷ j) js vm (check_volume f (ok vms) format (c ∷ j) vm) refl s
        λ format' vm' s'. add_volumes-IsSound js format' vm' s'

  -- Whether or not it reports an error, `ValidateVolumes` leaves drives whose slots count up from 0
  -- and equal their keys, with no file twice and no file of a running VM.
  pub validate_volumes-IsSound :
      (volumes : List Text) (vm : Vm)
      → IsSound vms vm.storage.hard_drives
      → IsSound vms (validate_volumes f (ok vms) volumes root vm).0.storage.hard_drives
  unfolding validate_volumes
  validate_volumes-IsSound volumes vm s = add_volumes-IsSound volumes qcow2 vm s
