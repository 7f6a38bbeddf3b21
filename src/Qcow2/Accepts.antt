-- ===== src/Qcow2/Accepts.antt =====
-- components/server/qcow2.go: which files `ValidateQcow2` accepts.
use corectl.Base.{
  ℕ, zero, suc, ◌+◌, ◌-◌, ◌≤◌, Bool, true, false, not, ◌⊎◌, ◌↔◌, Option, none, some, [], ◌∷◌, Text,
  ◌≡◌, ◌≢◌, refl, ap, ◌∙◌, arith, ◌=t◌, =t_iff, length, take, drop, ◌==◌, if◌then◌else◌,
}
use corectl.Qcow2.{
  magic, zeros, read_size, on_read, check_header, fill, be32_of, be32, read_extension, validate_v3,
  validate_qcow2, v2_header_size, v3_header_size,
}

length-drop : (n : ℕ) (s : Text) → length (drop n s) ≡ length s - n
length-drop zero s = omega arith
length-drop (suc n) [] = omega arith
length-drop (suc n) (c ∷ s) = ground (arith, length-drop n s)

read_extension_iff : (n : ℕ) (s : Text) → (read_extension n s ≡ none) ↔ (n ≤ length s)
unfolding read_extension read_size
read_extension_iff n s = ground arith

validate_v3_iff : (s : Text) → (validate_v3 s ≡ none) ↔ (32 + be32 28 s ≤ length s)
unfolding validate_v3 read_size
validate_v3_iff s = ground (arith, read_extension_iff (be32 28 s) (drop 32 s), length-drop 32 s)

-- The header of a file that is long enough is read whole.
header :
    (file : Text)
    → 72 ≤ length file
    → (take 4 (fill 72 file) ≡ take 4 file) × (be32 4 (fill 72 file) ≡ be32 4 file)
unfolding fill be32 be32_of
header (a ∷ b ∷ c ∷ d ∷ e ∷ f ∷ g ∷ h ∷ s) l = (refl, refl)
header _ l = absurd (omega arith)

-- The length that is asked for: 72 bytes twice, or for version 3 104 bytes and then once more as many
-- as the header says that it has.
abbrev pub IsComplete : Text → Type 0
IsComplete file =
    ((be32 4 file ≢ 3) × (144 ≤ length file))
    ⊎ ((be32 4 file ≡ 3) × (104 + be32 28 (drop 72 file) ≤ length file))

abbrev pub after_header : Text → Option corectl.Qcow2.Qcow2Error
after_header file =
    if be32 4 file == 3 then validate_v3 (drop 72 file) else read_extension 72 (drop 72 file)

read_72 : (file : Text) → 72 ≤ length file → read_size 72 file ≡ some 72
unfolding read_size
read_72 file l = ground arith

checked :
    (file : Text)
    → take 4 (fill 72 file) ≡ take 4 file
    → be32 4 (fill 72 file) ≡ be32 4 file
    → on_read file (some 72)
      ≡ (if not (take 4 file =t magic) then some corectl.Qcow2.not_qcow2 else after_header file)
unfolding on_read check_header
checked file m v = rw (m, v) refl

whole_header :
    (file : Text)
    → 72 ≤ length file
    → validate_qcow2 file
      ≡ (if not (take 4 file =t magic) then some corectl.Qcow2.not_qcow2 else after_header file)
unfolding validate_qcow2
whole_header file l =
    let (m, v) = header file l in ap (on_read file) (read_72 file l) ∙ checked file m v

split_iff :
    (v l n d : ℕ) (o p : Option corectl.Qcow2.Qcow2Error)
    → d ≡ l - 72
    → (o ≡ none) ↔ (72 ≤ d)
    → (p ≡ none) ↔ (32 + n ≤ d)
    → ((if v == 3 then p else o) ≡ none) ↔ (((v ≢ 3) × (144 ≤ l)) ⊎ ((v ≡ 3) × (104 + n ≤ l)))
split_iff v l n d o p e f g = ground arith

after_header_iff : (file : Text) → (after_header file ≡ none) ↔ IsComplete file
after_header_iff file =
    split_iff (be32 4 file) (length file) (be32 28 (drop 72 file)) (length (drop 72 file)) _ _
      (length-drop 72 file) (read_extension_iff 72 (drop 72 file)) (validate_v3_iff (drop 72 file))

-- A file of at least 72 bytes is accepted exactly when it starts with the magic number and has, for
-- version 3, 104 bytes and as many more as the field for the header's length says, and for any
-- other version 144 bytes.
pub validate_qcow2_accepts :
    (file : Text)
    → 72 ≤ length file
    → (validate_qcow2 file ≡ none) ↔ ((take 4 file ≡ magic) × IsComplete file)
validate_qcow2_accepts file l =
    rw (whole_header file l) (pair (after_header_iff file) (=t_iff (take 4 file) magic))
  where
    pair :
        {c : Option corectl.Qcow2.Qcow2Error} {b : Bool} {P Q : Type 0}
        → (c ≡ none) ↔ P
        → (b ≡ true) ↔ Q
        → ((if not b then some corectl.Qcow2.not_qcow2 else c) ≡ none) ↔ (Q × P)
    pair {b = true} p q = ground arith
    pair {b = false} p q = ground arith
