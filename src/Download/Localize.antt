-- ===== src/Download/Localize.antt =====
-- components/server/images.go: `localize`, over what the disk answers.
use corectl.Base.{
  Bool, false, Option, none, some, List, [], ◌∷◌, Text, Result, ok, err, Outcome, returns, hangs,
  panics, insert,
}
use corectl.Daemon.{Error}
use corectl.Download.{Crypto, Round, Stored, download_and_verify, without}

-- What the disk answers to `localize`: making the destination, the renaming of each file, and
-- `NormalizeOnDiskLayout`. `kernel_first` is the order in which Go visits the map.
pub record Disk : Type 0 where
  pub mkdir : Option Error
  pub rename : Text → Option Error
  pub normalize : Option Error
  pub kernel_first : Bool

-- The destination's files, and the temporary directories that are left.
pub record Localized : Type 0 where
  pub result : Outcome (Option Error)
  pub files : List (Text × Text)
  pub dirs : List Text

abbrev pub visit : Bool → List Stored → List Stored
visit false (f ∷ h ∷ []) = h ∷ f ∷ []
visit _ fs = fs

-- The renames, up to the first that fails.
abbrev pub unless_failed :
    Option Error
    → List (Text × Text)
    → List (Text × Text) × Option Error
    → List (Text × Text) × Option Error
unless_failed none files later = later
unless_failed (some e) files later = (files, some e)

unfoldable pub rename_all :
    (Text → Option Error) → List Stored → List (Text × Text) → List (Text × Text) × Option Error
rename_all rename [] files = (files, none)
rename_all rename (f ∷ fs) files =
    unless_failed (rename f.name) files (rename_all rename fs (insert f.name f.text files))

unfoldable pub remove_dirs : List Stored → List Text → List Text
unfolding without
remove_dirs [] ds = ds
remove_dirs (f ∷ fs) ds = remove_dirs fs (without f.dir ds)

abbrev pub first_error : Option Error → Option Error → Option Error
first_error none later = later
first_error (some e) later = some e

-- The end of `localize`: its deferred function runs whatever the renames do.
unfoldable pub install : Disk → List Stored → List (Text × Text) → List Text → Localized
unfolding rename_all remove_dirs
install d fs files dirs =
    let renamed = rename_all d.rename (visit d.kernel_first fs) files in
    record {
      result = returns (first_error renamed.1 d.normalize);
      files = renamed.0;
      dirs = remove_dirs fs dirs;
    }

-- `localize`, from the files that the destination already has
unfoldable pub after_download :
    Disk → List (Text × Text) → List Text → Outcome (Result Error (List Stored)) → Localized
unfolding install
after_download d files dirs (returns (ok fs)) = install d fs files dirs
after_download d files dirs (returns (err e)) = record {
  result = returns (some e);
  files = files;
  dirs = dirs;
}
after_download d files dirs hangs = record { result = hangs; files = files; dirs = dirs }
after_download d files dirs panics = record { result = panics; files = files; dirs = dirs }

unfoldable pub after_mkdir :
    Crypto → Disk → Round → Round → List (Text × Text) → Option Error → Localized
unfolding download_and_verify after_download
after_mkdir g d r1 r2 files (some e) = record {
  result = returns (some e);
  files = files;
  dirs = [];
}
after_mkdir g d r1 r2 files none =
    let got = download_and_verify g r1 r2 in after_download d files got.dirs got.result

unfoldable pub localize : Crypto → Disk → Round → Round → List (Text × Text) → Localized
unfolding after_mkdir
localize g d r1 r2 files = after_mkdir g d r1 r2 files d.mkdir
