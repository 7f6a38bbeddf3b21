-- ===== src/Download.antt =====
-- components/server/images.go: `downloadAndVerify`, over what the network, the OpenPGP library and
-- the disk answer.
pub mod Genuine
pub mod Leftovers
pub mod Rounds
pub mod Localize
pub mod Verified
use corectl.Base.{
  ℕ, Bool, true, false, ◌||◌, not, Option, none, some, List, [], ◌∷◌, ◌++◌, Text, codes, ◌=t◌, ◌==◌,
  if◌then◌else◌, Result, ok, err, ◌>>=◌, ◌>>◌, Outcome, returns, hangs, panics, any, map, insert,
  select,
}
use corectl.Daemon.{Error, other}
use corectl.Digests.{expected}

-- What the code calls of `openpgp` and `clearsign`, and SHA-512 in hexadecimal. `clear` splits a
-- signed message in its text and its signature, and answers `none` where there is no message;
-- `signer` is the id of the key whose signature it is, among those of the key ring.
pub record Crypto : Type 0 where
  pub keyring : Option Error
  pub clear : Text → Option (Text × Text)
  pub signer : Text → Text → Option ℕ
  pub sha512 : Text → Text

-- A piece of a body that `io.Copy` writes: the file takes it whole, or only a part and an error.
pub record Chunk : Type 0 where
  pub bytes : Text
  pub partly : Option Text

-- What is answered to one round of the loop: the name of a new directory, the HEAD request, the
-- DIGESTS file as status and body, the file itself as status and pieces, and its creation.
pub record Round : Type 0 where
  pub temp : Result Error Text
  pub head : Option Error
  pub digest : Result Error (ℕ × Result Error Text)
  pub file : Result Error (ℕ × List Chunk)
  pub create : Option Error

abbrev pub check : Option Error → Result Error (Unit {0})
check none = ok tt
check (some e) = err e

-- the switches on `StatusCode`: 200 and 204 pass
unfoldable pub check_status : ℕ → Result Error (Unit {0})
check_status n = if (n == 200) || (n == 204) then ok tt else err other

-- `io.Copy` to the hash, the progress bar and the file: what was hashed and what was written. It
-- ends with the first piece that the file does not take; its error is dropped.
pub record Copied : Type 0 where
  pub hashed : Text
  pub written : Text

unfoldable pub copy : List Chunk → Copied
copy [] = record { hashed = []; written = [] }
copy (c ∷ cs) =
    let later = copy cs in
    elim c.partly [
      | none ↦ record { hashed = c.bytes ++ later.hashed; written = c.bytes ++ later.written }
      | some p ↦ record { hashed = c.bytes; written = p }
    ]

-- From the HEAD request to the body of the DIGESTS file and the reading of the key ring.
unfoldable pub raw_digest : Crypto → Round → Result Error Text
unfolding check_status
raw_digest g r =
    check r.head
    >> (r.digest >>= λ (d : ℕ × Result Error Text).
        check_status d.0 >> (d.1 >>= λ (raw : Text). check g.keyring >> ok raw))

-- `clearsign.Decode` and the check of the signature. The key's id is only logged.
unfoldable pub signed_text : Crypto → Text → Outcome (Result Error Text)
signed_text g raw = elim (g.clear raw) [
  | none ↦ panics
  | some (text, signature) ↦ elim (g.signer text signature) [
    | none ↦ returns (err other)
    | some id ↦ returns (ok text)
  ]
]

unfoldable pub digest_text : Crypto → Round → Outcome (Result Error Text)
unfolding raw_digest signed_text
digest_text g r = elim (raw_digest g r) [ err e ↦ returns (err e) | ok raw ↦ signed_text g raw ]

-- The file's download, and the comparison with the hash: the text that is now in the file.
unfoldable pub verify : Crypto → Text → List Chunk → Result Error Text
unfolding copy
verify g hash cs = if g.sha512 (copy cs).hashed =t hash then ok (copy cs).written else err other

unfoldable pub store_file : Crypto → Round → Text → Result Error Text
unfolding verify check_status
store_file g r hash =
    r.file >>= λ (f : ℕ × List Chunk). check_status f.0 >> (check r.create >> verify g hash f.1)

-- A file of `location`: its name, the temporary directory it is in, and its text.
pub record Stored : Type 0 where
  pub name : Text
  pub dir : Text
  pub text : Text

-- The variables of the loop, and the temporary directories on disk.
pub record Loop : Type 0 where
  pub hash : Text
  pub location : List Stored
  pub dirs : List Text

-- How the loop ends. `failed` has the value of `tmpDir`, which the deferred functions share.
pub data End : Type 0 where
  finished : Loop → End
  failed : Error → Text → List Text → End
  crashed : List Text → End

-- The end of a round, and its part once the DIGESTS text is known.
unfoldable pub after_store : Text → Text → Text → Loop → Result Error Text → End
after_store target dir hash s (err e) = failed e dir (s.dirs ++ (dir ∷ []))
after_store target dir hash s (ok content) = finished (record {
  hash = hash;
  location = s.location ++ (record { name = target; dir = dir; text = content } ∷ []);
  dirs = s.dirs ++ (dir ∷ []);
})

unfoldable pub after_digest :
    Crypto → Text → Text → Round → Loop → Outcome (Result Error Text) → End
unfolding after_store store_file expected
after_digest g target dir r s panics = crashed (s.dirs ++ (dir ∷ []))
after_digest g target dir r s hangs = crashed (s.dirs ++ (dir ∷ []))
after_digest g target dir r s (returns (err e)) = failed e dir (s.dirs ++ (dir ∷ []))
after_digest g target dir r s (returns (ok text)) =
    let hash = expected text target s.hash in after_store target dir hash s (store_file g r hash)

-- One round. Where no directory can be made, `tmpDir` is the empty path.
unfoldable pub after_temp : Crypto → Text → Round → Loop → Result Error Text → End
unfolding after_digest digest_text
after_temp g target r s (err e) = failed e [] s.dirs
after_temp g target r s (ok dir) = after_digest g target dir r s (digest_text g r)

unfoldable pub round : Crypto → Text → Round → Loop → End
unfolding after_temp
round g target r s = after_temp g target r s r.temp

unfoldable pub rounds : Crypto → List (Text × Round) → Loop → End
unfolding round
rounds g [] s = finished s
rounds g ((target, r) ∷ more) s = elim (round g target r s) [
  | finished t ↦ rounds g more t
  | failed e tmp dirs ↦ failed e tmp dirs
  | crashed dirs ↦ crashed dirs
]

abbrev pub kernel : Text
kernel = codes "coreos_production_pxe.vmlinuz"

abbrev pub initrd : Text
initrd = codes "coreos_production_pxe_image.cpio.gz"

-- `os.RemoveAll`
unfoldable pub without : Text → List Text → List Text
without d ds = select (λ x. not (x =t d)) ds

-- What `downloadAndVerify` returns, and the temporary directories that it leaves on disk.
pub record Download : Type 0 where
  pub result : Outcome (Result Error (List Stored))
  pub dirs : List Text

-- The deferred functions: after an error each of them removes the directory `tmpDir` names then.
unfoldable pub deferred : End → Download
unfolding without
deferred (finished s) = record { result = returns (ok s.location); dirs = s.dirs }
deferred (failed e tmp dirs) = record { result = returns (err e); dirs = without tmp dirs }
deferred (crashed dirs) = record { result = panics; dirs = dirs }

-- `downloadAndVerify`, given what is answered to its two rounds
unfoldable pub download_and_verify : Crypto → Round → Round → Download
unfolding rounds deferred
download_and_verify g r1 r2 =
    deferred
      (rounds g ((kernel, r1) ∷ (initrd, r2) ∷ []) (record { hash = []; location = []; dirs = [] }))
