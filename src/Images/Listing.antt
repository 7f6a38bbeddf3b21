-- ===== src/Images/Listing.antt =====
-- components/server/images.go: what `localImages` keeps, deletes and lists.
use corectl.Base.{
  ℕ, Bool, true, false, ◌&&◌, ◌||◌, not, Option, none, some, List, [], ◌∷◌, ◌++◌, append_assoc,
  append-nil, map, map-append, Text, ◌≡◌, refl, sym, ltb, arith, select, ok,
}
use corectl.Coreos.{Semver}
use corectl.Images.{
  Rev, Verdict, plain_file, misnamed, deleted, undeletable, listed, verdict, judge, is_usable,
  scan_revs,
}

abbrev pub names : List Rev → List Text
names rs = map (λ r. r.name) rs

-- A kernel and an initial file system are there, and one of the three times is after the breakage.
abbrev pub is_whole : ℕ → Option ℕ → Option ℕ → ℕ → Bool
is_whole breakage (some t) (some u) time = ltb breakage t || ltb breakage u || ltb breakage time
is_whole breakage _ _ time = false

is_usable_lem :
    (breakage : ℕ) (r : Rev) → is_usable breakage r ≡ is_whole breakage r.vmlinuz r.cpio r.mod_time
unfolding is_usable
is_usable_lem breakage r = by_files r r.vmlinuz r.cpio refl refl
  where
    by_files :
        (r : Rev) (t u : Option ℕ)
        → r.vmlinuz ≡ t
        → r.cpio ≡ u
        → is_usable breakage r ≡ is_whole breakage r.vmlinuz r.cpio r.mod_time
    by_files r none u e f = ground arith
    by_files r (some t) none e f = ground arith
    by_files r (some t) (some u) e f = ground arith

-- An entry that is listed, and one that is left on disk.
abbrev pub is_image : ℕ → Rev → Bool
is_image breakage r = r.is_dir && is_whole breakage r.vmlinuz r.cpio r.mod_time

abbrev pub is_kept : ℕ → Rev → Bool
is_kept breakage r = not r.is_dir || is_whole breakage r.vmlinuz r.cpio r.mod_time

module _ (s : Semver) where
  abbrev Fits : Text → Bool → Bool → Verdict s.Version → Type 0
  Fits name kept image plain_file = (kept ≡ true) × (image ≡ false)
  Fits name kept image misnamed = Unit
  Fits name kept image deleted = (kept ≡ false) × (image ≡ false)
  Fits name kept image undeletable = Unit
  Fits name kept image (listed v) = (kept ≡ true) × (image ≡ true) × (s.string v ≡ name)

  verdict-Fits :
      (name : Text) (is_dir usable removable : Bool) (made : Option s.Version)
      → s.make name ≡ made
      → Fits name (not is_dir || usable) (is_dir && usable) (verdict is_dir usable removable made)
  unfolding verdict
  verdict-Fits name false usable removable made e = (refl, refl)
  verdict-Fits name true true removable none e = tt
  verdict-Fits name true true removable (some v) e = (refl, refl, s.string-make name v e)
  verdict-Fits name true false true made e = (refl, refl)
  verdict-Fits name true false false made e = tt

module _ (s : Semver) (breakage : ℕ) where
  judge-Fits :
      (r : Rev) → Fits s r.name (is_kept breakage r) (is_image breakage r) (judge s breakage r)
  unfolding judge
  judge-Fits r =
      rw (sym (is_usable_lem breakage r))
        (verdict-Fits s r.name r.is_dir (is_usable breakage r) r.removable (s.make r.name) refl)

  -- What a scan that succeeds leaves and lists, and what a second scan of what is left gives.
  pub record Lists (rs left : List Rev) (all vs : List s.Version) : Type 0 where
    pub left_eq : left ≡ select (is_kept breakage) rs
    pub listed_eq : map s.string vs ≡ map s.string all ++ names (select (is_image breakage) rs)
    pub again : scan_revs s breakage left all ≡ (left, ok vs)

  scan_step :
      (r : Rev) (rs left : List Rev) (all vs : List s.Version) (v : Verdict s.Version)
      → judge s breakage r ≡ v
      → Fits s r.name (is_kept breakage r) (is_image breakage r) v
      → ((l : List Rev) (a : List s.Version)
          → scan_revs s breakage rs a ≡ (l, ok vs)
          → Lists rs l a vs)
      → scan_revs s breakage (r ∷ rs) all ≡ (left, ok vs)
      → Lists (r ∷ rs) left all vs
  unfolding scan_revs
  scan_step r rs left all vs plain_file j f ih e =
      let rest = scan_revs s breakage rs all in
      let h = ih rest.0 all (ground arith) in
      record {
        left_eq = ground (arith, h.left_eq);
        listed_eq = ground (arith, h.listed_eq);
        again = ground (arith, h.again);
      }
  scan_step r rs left all vs misnamed j f ih e = ground arith
  scan_step r rs left all vs deleted j f ih e =
      let h = ih left all (ground arith) in
      record {
        left_eq = ground (arith, h.left_eq);
        listed_eq = ground (arith, h.listed_eq);
        again = h.again;
      }
  scan_step r rs left all vs undeletable j f ih e = ground arith
  scan_step r rs left all vs (listed v) j f ih e =
      let rest = scan_revs s breakage rs (all ++ v ∷ []) in
      let h = ih rest.0 (all ++ v ∷ []) (ground arith) in
      record {
        left_eq = ground (arith, h.left_eq);
        listed_eq = ground (
          arith,
          h.listed_eq,
          map-append s.string all (v ∷ []),
          append_assoc (map s.string all) (s.string v ∷ []) (names (select (is_image breakage) rs)),
        );
        again = ground (arith, h.again);
      }

  scan_revs-Lists :
      (rs left : List Rev) (all vs : List s.Version)
      → scan_revs s breakage rs all ≡ (left, ok vs)
      → Lists rs left all vs
  unfolding scan_revs
  scan_revs-Lists [] left all vs e = ground (arith, append-nil (map s.string all))
  scan_revs-Lists (r ∷ rs) left all vs e =
      scan_step r rs left all vs (judge s breakage r) refl (judge-Fits r)
        (λ l a h. scan_revs-Lists rs l a vs h) e

  -- When the scan of a channel succeeds, it has deleted exactly the directories that are no usable
  -- image, it lists exactly the others, under their names and in their order, and a second scan
  -- deletes nothing and lists the same.
  pub scan_revs_lem :
      (rs left : List Rev) (vs : List s.Version)
      → scan_revs s breakage rs [] ≡ (left, ok vs)
      → (left ≡ select (is_kept breakage) rs)
        × (map s.string vs ≡ names (select (is_image breakage) rs))
        × (scan_revs s breakage left [] ≡ (left, ok vs))
  scan_revs_lem rs left vs e =
      let h = scan_revs-Lists rs left [] vs e in (h.left_eq, h.listed_eq, h.again)
