-- ===== src/Images/Fetch.antt =====
-- components/server/images.go: `PullImage`.
use corectl.Base.{
  Bool, true, false, not, Option, none, some, List, [], Text, codes, ◌=t◌, ltb, length, lookup,
  if◌then◌else◌, Result, ok, err,
}
use corectl.Coreos.{Semver}
use corectl.Daemon.{Error, other}
use corectl.Images.{has_version, newest, or_empty}

-- What `PullImage` returns, and what it did: whether it asked the server to remove the image, and
-- the version that it downloaded.
pub record Pull : Type 0 where
  pub version : Text
  pub error : Option Error
  pub removes : Bool
  pub downloads : Option Text

-- What the calls of `PullImage` answer: `LatestUpstream`, the service `RemoveImage`, and `localize`.
pub record Upstream : Type 0 where
  pub latest : Result Error Text
  pub remove : Option Error
  pub localize : Text → Option Error

-- The version to pull, or no image at all. The error of `LatestUpstream` is kept where a local
-- image takes its place.
pub data Choice : Type 0 where
  chosen : Text → Option Error → Choice
  offline : Choice

unfoldable pub fall_back : Option Error → Option Text → Choice
fall_back e none = offline
fall_back e (some t) = chosen t e

unfoldable pub choose_upstream : Result Error Text → Option Text → Choice
unfolding fall_back
choose_upstream (err e) local = fall_back (some e) local
choose_upstream (ok t) local = if ltb 0 (length t) then chosen t none else fall_back none local

-- `newest` is the last local version, if there is one.
unfoldable pub choose : Text → Bool → Option Text → Result Error Text → Choice
unfolding choose_upstream
choose version prefer_local local latest =
    if not (version =t codes "latest")
    then chosen version none
    else if prefer_local
    then elim local [ none ↦ choose_upstream latest none | some t ↦ chosen t none ]
    else choose_upstream latest local

-- The end of `PullImage`, once the version is chosen.
unfoldable pub fetch : Text → Option Error → Bool → Bool → Upstream → Pull
fetch version e available override up =
    let download : Pull = record {
      version = version;
      error = up.localize version;
      removes = false;
      downloads = some version;
    } in
    if not available
    then download
    else if not override
    then record { version = version; error = e; removes = false; downloads = none }
    else elim up.remove [
      | none ↦ record {
        version = version;
        error = up.localize version;
        removes = true;
        downloads = some version;
      }
      | some f ↦ record { version = []; error = some f; removes = true; downloads = none }
    ]

module _ (s : Semver) where
  unfoldable pub pull_chosen : Choice → List s.Version → Bool → Upstream → Pull
  unfolding fetch has_version
  pull_chosen offline local override up = record {
    version = [];
    error = some other;
    removes = false;
    downloads = none;
  }
  pull_chosen (chosen t e) local override up = fetch t e (has_version s t local) override up

  unfoldable pub pull_from : Text → Bool → Bool → List s.Version → Upstream → Pull
  unfolding pull_chosen choose
  pull_from version override prefer_local local up =
      pull_chosen (choose version prefer_local (newest s local) up.latest) local override up

  -- `PullImage`, given what `localImages` returned
  unfoldable pub pull_image :
      Text → Text → Bool → Bool → Result Error (List (Text × List s.Version)) → Upstream → Pull
  unfolding pull_from
  pull_image channel version override prefer_local (err e) up = record {
    version = version;
    error = some e;
    removes = false;
    downloads = none;
  }
  pull_image channel version override prefer_local (ok images) up =
      pull_from version override prefer_local (or_empty (lookup channel images)) up
