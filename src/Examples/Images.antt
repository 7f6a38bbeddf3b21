-- ===== src/Examples/Images.antt =====
-- The theorems on images at concrete versions and directories.
use corectl.Base.{
  [], ◌∷◌, ◌&&◌, false, true, not, none, some, ◌≡◌, refl, codes, List, Text, ◌=t◌, lookup, ok, err,
  if◌then◌else◌, select, map,
}
use corectl.Daemon.{os_error}
use corectl.Examples.{plain}
use corectl.Images.{Rev, scan_revs, has_version, judge, is_usable}
use corectl.Images.Fetch.{Upstream, pull_image, choose}
use corectl.Images.Listing.{is_kept, is_image, names, scan_revs_lem}
use corectl.Images.Pulling.{outcome, is_none, pull_image_plan}

abbrev old : Text
old = codes "1.0.0"

abbrev new : Text
new = codes "2.0.0"

-- An image, a directory with no kernel, and a file.
abbrev image : Rev
image = record {
  name = new;
  is_dir = true;
  mod_time = 50;
  vmlinuz = some 60;
  cpio = some 70;
  removable = true;
}

abbrev broken : Rev
broken = record {
  name = old;
  is_dir = true;
  mod_time = 50;
  vmlinuz = none;
  cpio = some 70;
  removable = true;
}

abbrev readme : Rev
readme = record {
  name = codes "README";
  is_dir = false;
  mod_time = 5;
  vmlinuz = none;
  cpio = none;
  removable = true;
}

scan_revs_lem_example :
    let revs = broken ∷ image ∷ readme ∷ [] in
    let left = image ∷ readme ∷ [] in
    (left ≡ select (is_kept 40) revs)
    × (map plain.string (new ∷ []) ≡ names (select (is_image 40) revs))
    × (scan_revs plain 40 left [] ≡ (left, ok (new ∷ [])))
unfolding scan_revs judge is_usable
scan_revs_lem_example =
    scan_revs_lem plain 40 (broken ∷ image ∷ readme ∷ []) (image ∷ readme ∷ []) (new ∷ []) refl

abbrev stored : List (Text × List Text)
stored = (codes "alpha", old ∷ new ∷ []) ∷ []

abbrev unreachable : Upstream
unreachable = record { latest = err os_error; remove = none; localize = λ t. none }

pull_image_plan_example :
    let there = has_version plain new (old ∷ new ∷ []) in
    let p = pull_image plain (codes "alpha") new true false (ok stored) unreachable in
    (p.removes ≡ (there && true))
    × (p.downloads ≡ (if there && not (true && is_none unreachable.remove) then none else some new))
    × (p.error ≡ outcome (there && true) (there && false) new none unreachable)
unfolding choose ◌=t◌ has_version lookup
pull_image_plan_example =
    pull_image_plan plain (codes "alpha") new new true false none stored unreachable refl
