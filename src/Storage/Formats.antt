-- ===== src/Storage/Formats.antt =====
-- components/server/run.go: the format that `ValidateVolumes` records for a volume. Its variable
-- `format` is set before the loop, and a volume that is no QCOW2 file sets it to `Raw`.
use corectl.Base.{
  ℕ, Bool, true, inl, inr, ◌⊎◌, none, some, List, [], ◌∷◌, Text, ◌≡◌, refl, codes, has_suffix, All,
  arith, Result, ok, err,
}
use corectl.Daemon.{Error}
use corectl.Qcow2.{not_qcow2, validate_qcow2}
use corectl.Storage.{
  Files, Drives, put, add_volume, check_volume, next_format, after_volume, add_volumes,
  validate_volumes,
}
use corectl.Vm.{Vm, Kind, raw, qcow2, StorageDevice}

-- Every drive has the format.
abbrev pub AllOf : Kind → Drives → Type 0
AllOf k = All (λ e. e.1.format ≡ k)

put-AllOf :
    (k : Kind) (n : ℕ) (d : StorageDevice) (m : Drives)
    → d.format ≡ k
    → AllOf k m
    → AllOf k (put n d m)
unfolding put
put-AllOf k n d [] e h = (e, tt)
put-AllOf k n d ((j, x) ∷ m) e h = ground (arith, put-AllOf k n d m e h.1)

add_volume-AllOf :
    (k : Kind) (root : Bool) (path : Text) (vm : Vm)
    → AllOf k vm.storage.hard_drives
    → AllOf k (add_volume root k path vm).storage.hard_drives
unfolding add_volume
add_volume-AllOf k root path vm h = put-AllOf k _ _ vm.storage.hard_drives refl h

-- Once the variable is `Raw` it stays `Raw`, also for a QCOW2 file.
check_volume_raw :
    (f : Files) (running : Result Error (List Vm)) (format : Kind) (j path : Text) (vm : Vm)
    → check_volume f running raw j vm ≡ ok (path, format)
    → (format ≡ raw) × (has_suffix j (codes ".img") ≡ true)
unfolding check_volume next_format
check_volume_raw f running format j path vm e = ground arith

-- The file at the path is a QCOW2 one.
abbrev pub IsQcow2 : Files → Text → Type 0
IsQcow2 f j = (bytes : Text) × (f.contents j ≡ some bytes) × (validate_qcow2 bytes ≡ none)

check_volume_qcow2 :
    (f : Files) (running : Result Error (List Vm)) (format : Kind) (j path : Text) (vm : Vm)
    → IsQcow2 f j
    → check_volume f running qcow2 j vm ≡ ok (path, format)
    → format ≡ qcow2
unfolding check_volume next_format
check_volume_qcow2 f running format j path vm (bytes, p, q) e = ground arith

-- The file at the path is read, and is no QCOW2 one.
abbrev pub IsPlain : Files → Text → Type 0
IsPlain f j = (bytes : Text) × (f.contents j ≡ some bytes) × (validate_qcow2 bytes ≡ some not_qcow2)

check_volume_plain :
    (f : Files) (running : Result Error (List Vm)) (format : Kind) (j path : Text) (vm : Vm)
    → IsPlain f j
    → check_volume f running qcow2 j vm ≡ ok (path, format)
    → format ≡ raw
unfolding check_volume next_format
check_volume_plain f running format j path vm (bytes, p, q) e = ground arith

module _ (f : Files) (running : Result Error (List Vm)) (root : Bool) where
  -- One round, for a format that every round keeps.
  round :
      (k format : Kind) (j : Text) (js : List Text) (vm : Vm) (r : Result Error (Text × Kind))
      → ((path : Text) (format' : Kind) → r ≡ ok (path, format') → format' ≡ k)
      → AllOf k vm.storage.hard_drives
      → ((vm' : Vm)
          → AllOf k vm'.storage.hard_drives
          → AllOf k (add_volumes f running root k js vm').0.storage.hard_drives)
      → AllOf k
          (after_volume root vm
            (λ format' vm'. add_volumes f running root format' js vm')
            r).0.storage.hard_drives
  unfolding after_volume
  round k format j js vm (err e) keeps h ih = h
  round k format j js vm (ok (path, format')) keeps h ih =
      let e = keeps path format' refl in rw e (ih _ (add_volume-AllOf k root path vm h))

  raw_rest :
      (js : List Text) (vm : Vm)
      → AllOf raw vm.storage.hard_drives
      → AllOf raw (add_volumes f running root raw js vm).0.storage.hard_drives
  unfolding add_volumes
  raw_rest [] vm h = h
  raw_rest ([] ∷ js) vm h = raw_rest js vm h
  raw_rest ((c ∷ j) ∷ js) vm h =
      round raw raw (c ∷ j) js vm (check_volume f running raw (c ∷ j) vm)
        (λ path format' e. (check_volume_raw f running format' (c ∷ j) path vm e).0) h
        λ vm' h'. raw_rest js vm' h'

  qcow2_rest :
      (js : List Text) (vm : Vm)
      → All (λ j. (j ≡ []) ⊎ IsQcow2 f j) js
      → AllOf qcow2 vm.storage.hard_drives
      → AllOf qcow2 (add_volumes f running root qcow2 js vm).0.storage.hard_drives
  unfolding add_volumes
  qcow2_rest [] vm a h = h
  qcow2_rest ([] ∷ js) vm a h = qcow2_rest js vm a.1 h
  qcow2_rest ((c ∷ j) ∷ js) vm (inl e, a) h = absurd (cc)
  qcow2_rest ((c ∷ j) ∷ js) vm (inr q, a) h =
      round qcow2 qcow2 (c ∷ j) js vm (check_volume f running qcow2 (c ∷ j) vm)
        (λ path format' e. check_volume_qcow2 f running format' (c ∷ j) path vm q e) h
        λ vm' h'. qcow2_rest js vm' a h'

  -- If every volume is a QCOW2 file, every drive is recorded as one.
  pub validate_volumes_qcow2 :
      (js : List Text) (vm : Vm)
      → All (λ j. (j ≡ []) ⊎ IsQcow2 f j) js
      → AllOf qcow2 vm.storage.hard_drives
      → AllOf qcow2 (validate_volumes f running js root vm).0.storage.hard_drives
  unfolding validate_volumes
  validate_volumes_qcow2 js vm a h = qcow2_rest js vm a h

  -- If the first volume is not a QCOW2 file, every drive is recorded as `Raw`, also those whose
  -- files are QCOW2.
  pub validate_volumes_raw :
      (c : ℕ) (j : Text) (js : List Text) (vm : Vm)
      → IsPlain f (c ∷ j)
      → AllOf raw vm.storage.hard_drives
      → AllOf raw (validate_volumes f running ((c ∷ j) ∷ js) root vm).0.storage.hard_drives
  unfolding validate_volumes add_volumes
  validate_volumes_raw c j js vm q h =
      round raw qcow2 (c ∷ j) js vm (check_volume f running qcow2 (c ∷ j) vm)
        (λ path format' e. check_volume_plain f running format' (c ∷ j) path vm q e) h
        λ vm' h'. raw_rest js vm' h'
