-- ===== src/Coreos/Names.antt =====
-- components/target/coreos/media.go: the names of channels and versions that the rest works with.
use corectl.Base.{
  ℕ, ◌<◌, Bool, true, Bool-cases, Option-cases, any, inl, inr, ◌⊎◌, none, some, List, [], ◌∷◌, Text,
  codes, ◌≡◌, ◌≢◌, refl, sym, ap, ◌∙◌, ◌=t◌, =t_iff, =t_refl, arith, has_prefix, split,
  split-ne-nil, cons_of_ne_nil, length, ◌==◌, ok, err,
}
use corectl.Coreos.{
  Semver, channels, default_channel, default_version, pick_channel, channel, version, contains,
  Scan, version_found, nothing_found, out_of_range, scan_lines, Response, failed, answered,
  is_success, latest_upstream,
}
use corectl.Daemon.{Error, os_error, other}

abbrev pub IsOneOf : Text → List Text → Type 0
IsOneOf t [] = ⊥
IsOneOf t (b ∷ bs) = (t ≡ b) ⊎ IsOneOf t bs

pick_channel-IsOneOf :
    (name : Text) (bs : List Text) → IsOneOf name bs → pick_channel name bs ≡ name
unfolding pick_channel
pick_channel-IsOneOf name [] h = absurd h
pick_channel-IsOneOf name (b ∷ bs) h = ground (arith, =t_iff b name, pick_channel-IsOneOf name bs)

pick_channel_known :
    (name : Text) (bs : List Text)
    → (pick_channel name bs ≡ default_channel) ⊎ IsOneOf (pick_channel name bs) bs
unfolding pick_channel
pick_channel_known name [] = inl refl
pick_channel_known name (b ∷ bs) = ground (arith, pick_channel_known name bs)

pick_channel_other :
    (name : Text) (bs : List Text) → IsOneOf name bs ⊎ (pick_channel name bs ≡ default_channel)
unfolding pick_channel
pick_channel_other name [] = inr refl
pick_channel_other name (b ∷ bs) = ground (arith, =t_iff b name, pick_channel_other name bs)

-- `Channel` always gives one of the three channels: the given one if it is one of them, and else
-- the default. So a second call changes nothing.
pub channel_normalises :
    (name : Text)
    → IsOneOf (channel name) channels
      × ((IsOneOf name channels × (channel name ≡ name)) ⊎ (channel name ≡ default_channel))
      × (channel (channel name) ≡ channel name)
unfolding channel
channel_normalises name =
    let known : IsOneOf (channel name) channels =
      ground (arith, pick_channel_known name channels) in
    (
      known,
      elim (pick_channel_other name channels) [
        | inl o ↦ inl (o, pick_channel-IsOneOf name channels o)
        | inr o ↦ inr o
      ],
      pick_channel-IsOneOf (channel name) channels known,
    )

version_unknown : (s : Semver) (t : Text) → s.make t ≡ none → version s t ≡ default_version
unfolding version
version_unknown s t e = elim (Bool-cases (t =t default_version)) [
  | inl p ↦ rw p ((=t_iff t default_version).0 p)
  | inr p ↦ rw (p, e) refl
]

version_known : (s : Semver) (t : Text) (v : s.Version) → s.make t ≡ some v → version s t ≡ t
unfolding version
version_known s t v e = elim (Bool-cases (t =t default_version)) [
  | inl p ↦ rw p refl
  | inr p ↦ rw (p, e) refl
]

version_default : (s : Semver) → version s default_version ≡ default_version
unfolding version
version_default s = rw (=t_refl default_version) refl

-- `Version` keeps a version that parses and gives the default for any other text, so a second call
-- changes nothing.
pub version_normalises :
    (s : Semver) (t : Text)
    → (((v : s.Version) × (s.make t ≡ some v) × (version s t ≡ t))
        ⊎ ((s.make t ≡ none) × (version s t ≡ default_version)))
      × (version s (version s t) ≡ version s t)
version_normalises s t = elim (Option-cases (s.make t)) [
  | inl e ↦
      let d = version_unknown s t e in (inr (e, d), ap (version s) d ∙ version_default s ∙ sym d)
  | inr (v, e) ↦ let d = version_known s t v e in (inl (v, e, d), ap (version s) d)
]

abbrev has_byte : ℕ → Text → Bool
has_byte b = any (λ c. c == b)

has_prefix-has_byte :
    (b : ℕ) (s t : Text) → has_prefix s t ≡ true → has_byte b t ≡ true → has_byte b s ≡ true
unfolding has_prefix
has_prefix-has_byte b s [] h t = cc
has_prefix-has_byte b [] (d ∷ t) h k = cc
has_prefix-has_byte b (c ∷ s) (d ∷ t) h k = ground (arith, has_prefix-has_byte b s t)

contains-has_byte :
    (b : ℕ) (s t : Text) → contains s t ≡ true → has_byte b t ≡ true → has_byte b s ≡ true
unfolding contains
contains-has_byte b [] t h k = has_prefix-has_byte b [] t h k
contains-has_byte b (c ∷ s) t h k = elim (Bool-cases (has_prefix (c ∷ s) t)) [
  | inl e ↦ has_prefix-has_byte b (c ∷ s) t e k
  | inr e ↦ ground (arith, contains-has_byte b s t)
]

split-has_byte :
    (s : Text) (b : ℕ)
    → has_byte b s ≡ true
    → (p : Text) × (q : Text) × (ps : List Text) × (split s b ≡ p ∷ q ∷ ps)
unfolding split
split-has_byte [] b h = cc
split-has_byte (c ∷ s) b h = elim (Bool-cases (c == b)) [
  | inl e ↦
      let (q, ps, r) = cons_of_ne_nil (split s b) (split-ne-nil s b) in ([], q, ps, ground arith)
  | inr e ↦ let (p, q, ps, r) = split-has_byte s b (ground arith) in (c ∷ p, q, ps, ground arith)
]

-- The scan of `version.txt` never indexes out of range.
scan_lines_in_range : (ls : List Text) → scan_lines ls ≢ out_of_range
unfolding scan_lines
scan_lines_in_range [] = cc
scan_lines_in_range (l ∷ ls) = elim (Bool-cases (contains l (codes "COREOS_VERSION="))) [
  | inl e ↦
      let (p, q, ps, r) = split-has_byte l b'=' (contains-has_byte b'=' l _ e refl) in
      ground (arith, scan_lines_in_range ls)
  | inr e ↦ ground (arith, scan_lines_in_range ls)
]

scan_lines_found : (ls : List Text) (v : Text) → scan_lines ls ≡ version_found v → 0 < length v
unfolding scan_lines
scan_lines_found [] v h = cc
scan_lines_found (l ∷ ls) v h = ground (arith, scan_lines_found ls v)

-- It returns an error, or a version that is not empty and came with a status of success.
abbrev pub IsSafe : Response → Type 0
IsSafe r =
    ((e : Error) × (latest_upstream r ≡ some (err e)))
    ⊎ ((v : Text) × (status : ℕ) × (ls : List Text) × (r ≡ answered status ls)
        × (is_success status ≡ true)
        × (0 < length v)
        × (latest_upstream r ≡ some (ok v)))

answered-IsSafe :
    (status : ℕ) (ls : List Text) (found : Scan)
    → is_success status ≡ true
    → scan_lines ls ≡ found
    → IsSafe (answered status ls)
unfolding latest_upstream
answered-IsSafe status ls (version_found w) h e =
    inr (w, status, ls, refl, h, scan_lines_found ls w e, ground arith)
answered-IsSafe status ls nothing_found h e = inl (other, ground arith)
answered-IsSafe status ls out_of_range h e = absurd (scan_lines_in_range ls e)

-- Whatever the server answers, `LatestUpstream` does not panic: it returns an error, or a version
-- that is not empty and came with a status of success.
pub latest_upstream-IsSafe : (r : Response) → IsSafe r
unfolding latest_upstream
latest_upstream-IsSafe failed = inl (os_error, refl)
latest_upstream-IsSafe (answered status ls) = elim (Bool-cases (is_success status)) [
  | inl h ↦ answered-IsSafe status ls (scan_lines ls) h refl
  | inr h ↦ inl (other, ground arith)
]
