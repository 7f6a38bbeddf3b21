-- ===== src/Coreos.antt =====
-- components/target/coreos: the channels and versions of CoreOS images.
pub mod Names
use corectl.Base.{
  ℕ, Bool, true, false, ◌||◌, Option, none, some, List, [], ◌∷◌, Text, codes, ◌=t◌, has_prefix,
  split, length, ltb, leb, ◌==◌, if◌then◌else◌, Result, ok, err, ◌≡◌,
}
use corectl.Daemon.{Error, os_error, other}

-- `semver.Version` and what the code calls of that library. `sort` is `semver.Sort`, `zero` the
-- zero value. A version is read back from its print, and what is read prints as it was.
pub record Semver : Type 1 where
  pub Version : Type 0
  pub make : Text → Option Version
  pub string : Version → Text
  pub zero : Version
  pub sort : List Version → List Version
  pub make-string : (v : Version) → make (string v) ≡ some v
  pub string-make : (t : Text) (v : Version) → make t ≡ some v → string v ≡ t

-- `Channels`
abbrev pub channels : List Text
channels = codes "alpha" ∷ codes "beta" ∷ codes "stable" ∷ []

abbrev pub default_channel : Text
default_channel = codes "alpha"

abbrev pub default_version : Text
default_version = codes "latest"

-- the loop of `Channel`
pick_channel : Text → List Text → Text
pick_channel name [] = default_channel
pick_channel name (b ∷ bs) = if b =t name then b else pick_channel name bs

-- `Channel`
unfoldable pub channel : Text → Text
unfolding pick_channel
channel name = pick_channel name channels

-- `Version`
unfoldable pub version : Semver → Text → Text
version s t =
    if t =t default_version then t else elim (s.make t) [ none ↦ default_version | some v ↦ t ]

-- Whether `strings.LastIndex(line, t)` is not negative.
unfoldable pub contains : Text → Text → Bool
contains [] t = has_prefix [] t
contains (c ∷ s) t = has_prefix (c ∷ s) t || contains s t

-- `strings.Split(line, "=")[1]`; `none` is an index out of range.
second_part : List Text → Option Text
second_part (p ∷ q ∷ ps) = some q
second_part _ = none

-- What the scan of `version.txt` finds: a version, nothing, or an index out of range.
pub data Scan : Type 0 where
  version_found : Text → Scan
  nothing_found out_of_range : Scan

unfoldable pub scan_lines : List Text → Scan
unfolding second_part
scan_lines [] = nothing_found
scan_lines (l ∷ ls) =
    let rest = scan_lines ls in
    if contains l (codes "COREOS_VERSION=")
    then elim (second_part (split l b'=')) [
      | none ↦ out_of_range
      | some v ↦ if ltb 0 (length v) then version_found v else rest
    ]
    else rest

-- What `http.Get` brought: an error, or a status and the lines of the body.
pub data Response : Type 0 where
  failed : Response
  answered : ℕ → List Text → Response

-- `http.StatusOK` and `http.StatusNoContent`
abbrev pub is_success : ℕ → Bool
is_success status = status == 200 || status == 204

-- `LatestUpstream`, given the response; `none` is a panic.
unfoldable pub latest_upstream : Response → Option (Result Error Text)
latest_upstream failed = some (err os_error)
latest_upstream (answered status lines) =
    if is_success status
    then elim (scan_lines lines) [
      | version_found v ↦ some (ok v)
      | nothing_found ↦ some (err other)
      | out_of_range ↦ none
    ]
    else some (err other)
