-- ===== src/Images/Pulling.antt =====
-- components/server/images.go: what `PullImage` decides.
use corectl.Base.{
  Bool, true, false, ◌&&◌, not, Option, none, some, List, [], ◌∷◌, Text, codes, ◌≡◌, refl, ◌=t◌,
  =t_iff, arith, last?, lookup, Result, ok, err, if◌then◌else◌,
}
use corectl.Coreos.{Semver}
use corectl.Daemon.{Error}
use corectl.Images.{has_version, newest, or_empty}
use corectl.Images.Fetch.{Upstream, chosen, choose, fetch, pull_chosen, pull_from, pull_image}

abbrev pub is_none : Option Error → Bool
is_none none = true
is_none (some e) = false

-- The error that comes back: that of the removal if it fails, the one at hand if the image is
-- kept, and else that of the download.
abbrev pub outcome : Bool → Bool → Text → Option Error → Upstream → Option Error
outcome removes keeps t e up =
    if keeps then e else if removes && not (is_none up.remove) then up.remove else up.localize t

module _ (s : Semver) where
  has_version-last :
      (vs : List s.Version) (v : s.Version)
      → last? vs ≡ some v
      → has_version s (s.string v) vs ≡ true
  unfolding has_version
  has_version-last [] v e = cc
  has_version-last (w ∷ []) v e = ground (arith, =t_iff (s.string v) (s.string w))
  has_version-last (w ∷ x ∷ vs) v e =
      ground (arith, =t_iff (s.string v) (s.string w), has_version-last (x ∷ vs) v e)

  fetch_plan :
      (t : Text) (e : Option Error) (available override : Bool) (up : Upstream)
      → let p = fetch t e available override up in
        (p.removes ≡ (available && override))
        × (p.downloads
            ≡ (if available && not (override && is_none up.remove) then none else some t))
        × (p.error ≡ outcome (available && override) (available && not override) t e up)
  unfolding fetch
  fetch_plan t e available override up = ground arith

  -- Once a version is chosen, `PullImage` asks the server to remove it exactly if it is there and an
  -- override is asked for, and fetches it unless it is there and stays there. Its error is that of
  -- the download, or of the removal that failed, or for an image that is kept the one it had.
  pub pull_image_plan :
      (channel version t : Text) (override prefer_local : Bool) (e : Option Error)
      (images : List (Text × List s.Version)) (up : Upstream)
      → choose version prefer_local (newest s (or_empty (lookup channel images))) up.latest
        ≡ chosen t e
      → let there = has_version s t (or_empty (lookup channel images)) in
        let p = pull_image s channel version override prefer_local (ok images) up in
        (p.removes ≡ (there && override))
        × (p.downloads ≡ (if there && not (override && is_none up.remove) then none else some t))
        × (p.error ≡ outcome (there && override) (there && not override) t e up)
  unfolding pull_image
  pull_image_plan channel version t override prefer_local e images up c =
      let vs = or_empty (lookup channel images) in
      let q : pull_image s channel version override prefer_local (ok images) up
          ≡ fetch t e (has_version s t vs) override up =
        rw (c, pull_chosen) refl in
      rw q (fetch_plan t e (has_version s t vs) override up)

  newest-last :
      (vs : List s.Version) (v : s.Version) → last? vs ≡ some v → newest s vs ≡ some (s.string v)
  newest-last vs v n = rw (n, newest) refl

  choose_local :
      (t : Text) (r : Result Error Text) → choose (codes "latest") true (some t) r ≡ chosen t none
  unfolding choose ◌=t◌
  choose_local t r = refl

  choose_stale :
      (t : Text) (e : Error) → choose (codes "latest") false (some t) (err e) ≡ chosen t (some e)
  unfolding choose ◌=t◌
  choose_stale t e = refl

  keep_local :
      (t : Text) (e : Option Error) (up : Upstream)
      → fetch t e true false up
        ≡ record { version = t; error = e; removes = false; downloads = none }
  unfolding fetch
  keep_local t e up = refl

  pull_newest :
      (prefer_local : Bool) (e : Option Error) (vs : List s.Version) (v : s.Version) (up : Upstream)
      → last? vs ≡ some v
      → choose (codes "latest") prefer_local (newest s vs) up.latest ≡ chosen (s.string v) e
      → pull_from s (codes "latest") false prefer_local vs up
        ≡ record { version = s.string v; error = e; removes = false; downloads = none }
  unfolding pull_from
  pull_newest prefer_local e vs v up n c =
      rw (c, pull_chosen) (rw (has_version-last vs v n) (keep_local (s.string v) e up))

  -- With "latest", a preference for local images and a local image at hand, `PullImage` returns the
  -- newest local version at once: it neither asks upstream nor the server, and fetches nothing.
  pub pull_image_prefers_local :
      (channel : Text) (images : List (Text × List s.Version)) (v : s.Version) (up : Upstream)
      → last? (or_empty (lookup channel images)) ≡ some v
      → pull_image s channel (codes "latest") false true (ok images) up
        ≡ record { version = s.string v; error = none; removes = false; downloads = none }
  unfolding pull_image
  pull_image_prefers_local channel images v up n =
      pull_newest true none (or_empty (lookup channel images)) v up n
        (rw (newest-last _ v n) (choose_local (s.string v) up.latest))

  -- When upstream cannot be reached and there is a local image, `PullImage` falls back to the newest
  -- one and fetches nothing, but it still returns the error of the failed request.
  pub pull_image_offline :
      (channel : Text) (images : List (Text × List s.Version)) (v : s.Version) (up : Upstream)
      (e : Error)
      → last? (or_empty (lookup channel images)) ≡ some v
      → up.latest ≡ err e
      → pull_image s channel (codes "latest") false false (ok images) up
        ≡ record { version = s.string v; error = some e; removes = false; downloads = none }
  unfolding pull_image
  pull_image_offline channel images v up e n u =
      pull_newest false (some e) (or_empty (lookup channel images)) v up n
        (rw (newest-last _ v n, u) (choose_stale (s.string v) e))
