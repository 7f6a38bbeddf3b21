-- ===== src/Images.antt =====
-- components/server/images.go and rpcservices.go: the images on disk and `Daemon.Media`.
pub mod Listing
pub mod Removal
pub mod Fetch
pub mod Pulling
use Prim.Native.Nat.{max}
use corectl.Base.{
  ℕ, suc, ◌+◌, Bool, true, false, ◌&&◌, not, Option, none, some, List, [], ◌∷◌, ◌++◌, Text, codes,
  ◌=t◌, ltb, length, take, drop, last?, lookup, insert, if◌then◌else◌, Result, ok, err,
}
use corectl.Coreos.{Semver, channels}
use corectl.Daemon.{Error, os_error, other}

-- A directory entry of a channel: its name, whether it is a directory, its modification time, and
-- those of the kernel and the initial file system in it, if they are there; and whether the
-- operating system lets it be removed.
pub record Rev : Type 0 where
  pub name : Text
  pub is_dir : Bool
  pub mod_time : ℕ
  pub vmlinuz : Option ℕ
  pub cpio : Option ℕ
  pub removable : Bool

-- The image store: the entries of each channel's directory.
abbrev pub Store : Type 0
Store = List (Text × List Rev)

-- `lastMod` after the loop over the two files: the time of a file that was not read is zero.
pub record Times : Type 0 where
  pub ok : Bool
  pub kernel : ℕ
  pub initrd : ℕ

unfoldable pub stat_files : Rev → Times
stat_files r = elim r.vmlinuz [
  | none ↦ record { ok = false; kernel = 0; initrd = 0 }
  | some t ↦ elim r.cpio [
    | none ↦ record { ok = false; kernel = t; initrd = 0 }
    | some u ↦ record { ok = true; kernel = t; initrd = u }
  ]
]

-- The last of the three times once they are sorted.
unfoldable pub latest_time : Rev → ℕ
unfolding stat_files
latest_time r = let t = stat_files r in max (max t.kernel t.initrd) r.mod_time

-- An image that is kept: both files are there, and it is newer than the last breakage.
unfoldable pub is_usable : ℕ → Rev → Bool
unfolding stat_files latest_time
is_usable breakage r = (stat_files r).ok && ltb breakage (latest_time r)

-- What the loop does with an entry: it passes over a file, lists an image, fails on a name that
-- does not parse, deletes the directory, or fails to delete it.
pub data Verdict (V : Type 0) : Type 0 where
  plain_file misnamed deleted undeletable : Verdict V
  listed : V → Verdict V

-- The tests of the loop: the entry is a directory, its image is usable, it can be removed, and what
-- `semver.Make` makes of its name.
unfoldable pub verdict : {V : Type 0} → Bool → Bool → Bool → Option V → Verdict V
verdict is_dir usable removable made =
    if not is_dir
    then plain_file
    else if usable
    then elim made [ none ↦ misnamed | some v ↦ listed v ]
    else if removable
    then deleted
    else undeletable

module _ (s : Semver) where
  unfoldable pub judge : ℕ → Rev → Verdict s.Version
  unfolding verdict
  judge breakage r = verdict r.is_dir (is_usable breakage r) r.removable (s.make r.name)

  -- The loop over a channel's directory: the entries that are left, and the versions found.
  unfoldable pub scan_revs :
      ℕ → List Rev → List s.Version → List Rev × Result Error (List s.Version)
  scan_revs breakage [] all = ([], ok all)
  scan_revs breakage (r ∷ rs) all = elim (judge breakage r) [
    | plain_file ↦ let rest = scan_revs breakage rs all in (r ∷ rest.0, rest.1)
    | misnamed ↦ (r ∷ rs, err other)
    | deleted ↦ scan_revs breakage rs all
    | undeletable ↦ (r ∷ rs, err os_error)
    | listed v ↦ let rest = scan_revs breakage rs (all ++ v ∷ []) in (r ∷ rest.0, rest.1)
  ]

  -- The loop over the channels. A channel with no directory is an error.
  unfoldable pub scan_channels :
      ℕ
      → List Text
      → Store
      → List (Text × List s.Version)
      → Store × Result Error (List (Text × List s.Version))
  scan_channels breakage [] store found = (store, ok found)
  scan_channels breakage (c ∷ cs) store found = elim (lookup c store) [
    | none ↦ (store, err os_error)
    | some revs ↦
        let (left, result) = scan_revs breakage revs [] in
        let store' = insert c left store in
        elim result [
          | err e ↦ (store', err e)
          | ok all ↦ scan_channels breakage cs store' (insert c (s.sort all) found)
        ]
  ]

  -- `localImages`
  unfoldable pub local_images : ℕ → Store → Store × Result Error (List (Text × List s.Version))
  local_images breakage store = scan_channels breakage channels store []

  -- The loop of `RemoveImage`: the last index and value that it saw.
  unfoldable pub find_version : Text → ℕ → ℕ × s.Version → List s.Version → ℕ × s.Version
  find_version t i seen [] = seen
  find_version t i seen (v ∷ vs) =
      let rest = find_version t (suc i) (i, v) vs in if t =t s.string v then (i, v) else rest

  -- What `RemoveImage` does to `Daemon.Media[channel]`, and the version whose files it deletes.
  -- `none` is a slice bound out of range.
  unfoldable pub remove_image : Text → List s.Version → Option (List s.Version × s.Version)
  unfolding find_version
  remove_image t vs =
      let (x, y) = find_version t 0 (0, s.zero) vs in
      if ltb (length vs) (x + 1) then none else some (take x vs ++ drop (x + 1) vs, y)

  unfoldable pub has_version : Text → List s.Version → Bool
  has_version t [] = false
  has_version t (v ∷ vs) = if t =t s.string v then true else has_version t vs

  abbrev pub newest : List s.Version → Option Text
  newest vs = elim (last? vs) [ none ↦ none | some v ↦ some (s.string v) ]

-- A missing key of a Go map reads as the zero value.
abbrev pub or_empty {ℓ} : {A : Type ℓ} → Option (List A) → List A
or_empty none = []
or_empty (some xs) = xs
