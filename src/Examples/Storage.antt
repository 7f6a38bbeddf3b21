-- ===== src/Examples/Storage.antt =====
-- The theorems on volumes, CD-ROMs and cloud-configs at concrete files.
use corectl.Base.{
  ℕ, values, ne_of_test, [], ◌∷◌, none, some, true, ◌≡◌, ◌↔◌, refl, codes, List, Text, ok, take,
  ◌++◌, arith, ◌=t◌,
}
use corectl.Coreos.{failed}
use corectl.Daemon
use corectl.Daemon.{Daemon}
use corectl.Examples.{core1, core2}
use corectl.Lifecycle.Entry.{enter, stamped}
use corectl.Lifecycle.Shared.{drives, enter_shared}
use corectl.Qcow2.{validate_qcow2, magic, zeros, read_size, fill, be32, not_qcow2}
use corectl.Qcow2.Accepts.{IsComplete, validate_qcow2_accepts}
use corectl.Storage.{Files, validate_volumes}
use corectl.Storage.Volumes.{IsSound, validate_volumes-IsSound}

-- A file of version 2 that is as short as a QCOW2 file can be.
abbrev image : Text
image = magic ++ 0 ∷ 0 ∷ 0 ∷ 2 ∷ zeros 136

abbrev plain_image : Text
plain_image = zeros 144

-- Every path is there and absolute, and every file is that image.
abbrev disk : Text → Files
disk bytes = record {
  exists = λ p. true;
  abs = λ p. some p;
  contents = λ p. some bytes;
  get = λ p. failed;
}

validate_qcow2_accepts_example :
    (validate_qcow2 image ≡ none) ↔ ((take 4 image ≡ magic) × IsComplete image)
unfolding zeros
validate_qcow2_accepts_example = validate_qcow2_accepts image (omega arith)

accepted : validate_qcow2 image ≡ none
unfolding validate_qcow2 zeros read_size ◌=t◌ fill be32
accepted = refl

refused : validate_qcow2 plain_image ≡ some not_qcow2
unfolding validate_qcow2 zeros read_size ◌=t◌ fill
refused = refl

abbrev volumes : List Text
volumes = codes "/a.img" ∷ codes "/b.img" ∷ []

no_drives-IsSound : IsSound (core1 ∷ []) []
no_drives-IsSound = record { counts = tt; distinct = tt; free = tt }

validate_volumes-IsSound_example :
    IsSound
      (core1 ∷ [])
      (validate_volumes (disk image) (ok (core1 ∷ [])) volumes true core1).0.storage.hard_drives
validate_volumes-IsSound_example =
    validate_volumes-IsSound (disk image) (core1 ∷ []) true volumes core1 no_drives-IsSound

abbrev idle : Daemon ℕ
idle =
    Daemon.new
      (record { version = []; started = 0; pid = 1; built = []; runtime = []; os = []; arch = [] })

enter_shared_example :
    let (a, e) = validate_volumes (disk image) (ok (values idle.active)) volumes true core1 in
    let (b, x) = validate_volumes (disk image) (ok (values idle.active)) volumes true core2 in
    (drives a ≡ drives b)
    × (e ≡ x)
    × ((enter true 5 b (enter true 5 a idle).0).0.active
        ≡ idle.active ++ (core1.uuid, stamped 5 a) ∷ (core2.uuid, stamped 5 b) ∷ [])
unfolding ◌=t◌
enter_shared_example =
    enter_shared (disk image) volumes true 5 core1 core2 idle refl
      (ne_of_test _ _ refl, ne_of_test _ _ refl) (ne_of_test _ _ refl, ne_of_test _ _ refl) tt tt
      (refl, refl)
