-- ===== src/Examples/Download.antt =====
-- The theorems on downloads at a concrete image.
use corectl.Base.{
  false, none, some, List, [], ◌∷◌, Text, codes, ◌≡◌, ◌≢◌, refl, ◌=t◌, has_prefix, inr,
  if◌then◌else◌, ok, ne_of_test, insert, arith,
}
use corectl.Daemon.{other}
use corectl.Digests.{
  Match, matches, listed, expected, find_all, match_here, match_heading, match_line, match_hash,
  run, rest, is_space, is_word,
}
use corectl.Digests.Entries.{print_all, IsPlain, matches-print_all}
use corectl.Download.{
  Crypto, Round, Stored, kernel, initrd, download_and_verify, digest_text, store_file, raw_digest,
  signed_text, verify, check_status, copy, after_store, after_digest, after_temp, round, rounds,
  deferred, without,
}
use corectl.Download.Localize.{
  Disk, localize, rename_all, remove_dirs, install, after_download, after_mkdir,
}
use corectl.Download.Genuine.{IsIntact}
use corectl.Download.Leftovers.{download_and_verify_leaves, localize_cleans}
use corectl.Download.Verified.{IsInstalled, localize-IsInstalled}

-- Each text is its own hash but for a letter in front, and every signature is good.
abbrev crypto : Crypto
crypto = record {
  keyring = none;
  clear = λ t. some (t, []);
  signer = λ t u. some 7;
  sha512 = λ t. b'h' ∷ t;
}

abbrev entries : List Match
entries =
    record { method = codes "SHA1"; hash = codes "0a1b"; file = kernel }
    ∷ record { method = codes "SHA512"; hash = codes "hboot"; file = kernel }
    ∷ record { method = codes "SHA512"; hash = codes "hroot"; file = initrd }
    ∷ []

abbrev answering : Text → Text → Round
answering dir content = record {
  temp = ok dir;
  head = none;
  digest = ok (200, ok (print_all entries));
  file = ok (200, record { bytes = content; partly = none } ∷ []);
  create = none;
}

abbrev first_round : Round
first_round = answering (codes "/tmp/coreos1") (codes "boot")

abbrev second_round : Round
second_round = answering (codes "/tmp/coreos2") (codes "root")

-- A file that is not the one that was signed.
abbrev forged : Round
forged = answering (codes "/tmp/coreos2") (codes "evil")

abbrev disk : Disk
disk = record { mkdir = none; rename = λ t. none; normalize = none; kernel_first = false }

whole : (dir content : Text) → IsIntact (answering dir content)
whole dir content n cs e =
    let q : cs ≡ record { bytes = content; partly = none } ∷ [] = cc in rw q (refl, tt)

localize-IsInstalled_example :
    IsInstalled crypto (localize crypto disk first_round second_round []).files
unfolding localize download_and_verify digest_text store_file raw_digest signed_text verify
    check_status copy after_store after_digest after_temp round rounds deferred without rename_all
    remove_dirs install after_download after_mkdir expected matches listed find_all match_here
    match_heading match_line match_hash run rest is_space is_word ◌=t◌ has_prefix insert
localize-IsInstalled_example =
    localize-IsInstalled crypto disk first_round second_round []
      (whole (codes "/tmp/coreos1") (codes "boot")) (whole (codes "/tmp/coreos2") (codes "root"))
      (λ t. cc) refl

-- Two good signatures, and then a file that is not the one that was signed.
download_and_verify_leaves_example :
    (download_and_verify crypto first_round forged).dirs ≡ codes "/tmp/coreos1" ∷ []
unfolding localize download_and_verify digest_text store_file raw_digest signed_text verify
    check_status copy after_store after_digest after_temp round rounds deferred without expected
    matches listed find_all match_here match_heading match_line match_hash run rest is_space is_word
    ◌=t◌ has_prefix
download_and_verify_leaves_example =
    download_and_verify_leaves crypto first_round forged (codes "/tmp/coreos1") other refl (cc)
      (λ d e. ne_sym d e) refl
  where
    ne_sym : (d : Text) → forged.temp ≡ ok d → d ≢ codes "/tmp/coreos1"
    ne_sym d e q = ne_of_test (codes "/tmp/coreos2") (codes "/tmp/coreos1") refl (cc)

-- The second file cannot be renamed.
abbrev full_disk : Disk
full_disk = record disk { rename = λ t. if t =t kernel then some other else none }

abbrev downloaded : List Stored
downloaded =
    record { name = kernel; dir = codes "/tmp/coreos1"; text = codes "boot" }
    ∷ record { name = initrd; dir = codes "/tmp/coreos2"; text = codes "root" }
    ∷ []

localize_cleans_example : (localize crypto full_disk first_round second_round []).dirs ≡ []
unfolding localize download_and_verify digest_text store_file raw_digest signed_text verify
    check_status copy after_store after_digest after_temp round rounds deferred without expected
    matches listed find_all match_here match_heading match_line match_hash run rest is_space is_word
    ◌=t◌ has_prefix
localize_cleans_example =
    localize_cleans crypto full_disk first_round second_round downloaded [] refl refl

kernel_entry-IsPlain :
    (m : Match) → m.file ≡ kernel → m.hash ≡ codes "hboot" → m.method ≡ codes "SHA512" → IsPlain m
unfolding is_word is_space
kernel_entry-IsPlain m f h t = record {
  method = inr t;
  first = b'h';
  hash = codes "boot";
  hash_whole = h;
  first_solid = omega arith;
  hash_solid = (refl, (refl, (refl, (refl, tt))));
  letter = b'c';
  file = codes "oreos_production_pxe.vmlinuz";
  file_whole = f;
  file_words = ground arith;
}

abbrev kernel_entry : Match
kernel_entry = record { method = codes "SHA512"; hash = codes "hboot"; file = kernel }

matches-print_all_example : matches (print_all (kernel_entry ∷ [])) ≡ kernel_entry ∷ []
matches-print_all_example =
    matches-print_all (kernel_entry ∷ []) (kernel_entry-IsPlain kernel_entry refl refl refl, tt)
