-- ===== src/Download/Genuine.antt =====
-- components/server/images.go, `downloadAndVerify`: what a round of it that succeeded has checked.
use corectl.Base.{
  ℕ, suc, ◌&&◌, none, some, List, [], ◌∷◌, ◌++◌, Text, codes, ◌=t◌, =t_iff, ◌≡◌, refl, sym, ◌∙◌,
  ◌⊎◌, inl, inr, All, get_elem?, Bool-cases, Option-cases, Result, ok, err, bind_inv, Outcome,
  returns, hangs, panics, arith, if◌then◌else◌,
}
use corectl.Daemon.{Error}
use corectl.Digests.{Match, matches, listed, expected}
use corectl.Download.{
  Crypto, Chunk, Round, Loop, finished, copy, raw_digest, signed_text, digest_text, verify,
  store_file, after_store, after_digest, after_temp, round,
}

-- A SHA512 entry for the file in what the expression finds in the text.
pub record IsListed (text file hash : Text) : Type 0 where
  pub entry : Match
  pub index : ℕ
  pub found : get_elem? (matches text) index ≡ some entry
  pub of_file : entry.file ≡ file
  pub of_method : entry.method ≡ codes "SHA512"
  pub of_hash : entry.hash ≡ hash

-- The text of a message that a key of the key ring has signed.
pub record IsSigned (g : Crypto) (text : Text) : Type 0 where
  pub raw : Text
  pub signature : Text
  pub id : ℕ
  pub split : g.clear raw ≡ some (text, signature)
  pub known : g.signer text signature ≡ some id

-- A signed text lists the hash of the content for the file.
pub record IsGenuine (g : Crypto) (file content : Text) : Type 0 where
  pub text : Text
  pub signed : IsSigned g text
  pub lists : IsListed text file (g.sha512 content)

-- The disk takes all that is written to it.
abbrev pub IsIntact : Round → Type 0
IsIntact r =
    (n : ℕ) (cs : List Chunk) → r.file ≡ ok (n, cs) → All (λ (c : Chunk). c.partly ≡ none) cs

-- Where a looked up hash comes from.
data Origin (ms : List Match) (file prior hash : Text) : Type 0 where
  kept : hash ≡ prior → Origin ms file prior hash
  taken :
      (m : Match) (i : ℕ)
      → get_elem? ms i ≡ some m
      → m.file ≡ file
      → m.method ≡ codes "SHA512"
      → m.hash ≡ hash
      → Origin ms file prior hash

listed-Origin : (ms : List Match) (file prior : Text) → Origin ms file prior (listed ms file prior)
unfolding listed
listed-Origin [] file prior = kept refl
listed-Origin (m ∷ ms) file prior =
    let hit = (m.file =t file) && (m.method =t codes "SHA512") in
    elim (listed-Origin ms file (if hit then m.hash else prior)) [
      | taken k i j f e h ↦ taken k (suc i) j f e h
      | kept p ↦ elim (Bool-cases hit) [
        | inl q ↦
            taken m 0 refl (ground (arith, =t_iff m.file file))
              (ground (arith, =t_iff m.method (codes "SHA512"))) (ground arith)
        | inr q ↦ kept (ground arith)
      ]
    ]

copy_whole :
    (cs : List Chunk)
    → All (λ (c : Chunk). c.partly ≡ none) cs
    → (copy cs).written ≡ (copy cs).hashed
unfolding copy
copy_whole [] h = refl
copy_whole (c ∷ cs) h = ground (arith, copy_whole cs h.1)

signed_text-IsSigned :
    (g : Crypto) (raw text : Text) → signed_text g raw ≡ returns (ok text) → IsSigned g text
unfolding signed_text
signed_text-IsSigned g raw text e = elim (Option-cases (g.clear raw)) [
  | inl p ↦ absurd (ground arith)
  | inr ((t, x), p) ↦ elim (Option-cases (g.signer t x)) [
    | inl q ↦ absurd (ground arith)
    | inr (k, q) ↦
        let same : t ≡ text = ground arith in
        record { raw = raw; signature = x; id = k; split = rw (← same) p; known = rw (← same) q }
  ]
]

after_raw : Crypto → Result Error Text → Outcome (Result Error Text)
after_raw g x = elim x [ err e ↦ returns (err e) | ok raw ↦ signed_text g raw ]

after_raw-IsSigned :
    (g : Crypto) (x : Result Error Text) (text : Text)
    → after_raw g x ≡ returns (ok text)
    → IsSigned g text
unfolding after_raw
after_raw-IsSigned g (err f) text e = absurd (cc)
after_raw-IsSigned g (ok raw) text e = signed_text-IsSigned g raw text e

digest_text-IsSigned :
    (g : Crypto) (r : Round) (text : Text) → digest_text g r ≡ returns (ok text) → IsSigned g text
unfolding digest_text after_raw
digest_text-IsSigned g r text e = after_raw-IsSigned g (raw_digest g r) text e

store_file_hash :
    (g : Crypto) (r : Round) (hash content : Text)
    → IsIntact r
    → store_file g r hash ≡ ok content
    → g.sha512 content ≡ hash
unfolding store_file verify
store_file_hash g r hash content h e =
    let ((n, cs), a, b) = bind_inv r.file _ content e in
    let whole = copy_whole cs (h n cs a) in ground (arith, =t_iff (g.sha512 (copy cs).hashed) hash)

-- What a round that succeeded did.
pub record IsPassed (g : Crypto) (target : Text) (s t : Loop) : Type 0 where
  pub text : Text
  pub dir : Text
  pub content : Text
  pub signed : IsSigned g text
  pub hash : g.sha512 content ≡ expected text target s.hash
  pub hash_kept : t.hash ≡ expected text target s.hash
  pub location :
      t.location ≡ s.location ++ (record { name = target; dir = dir; text = content } ∷ [])

after_store-IsPassed :
    (g : Crypto) (target dir text : Text) (r : Round) (s t : Loop) (x : Result Error Text)
    → IsIntact r
    → IsSigned g text
    → store_file g r (expected text target s.hash) ≡ x
    → after_store target dir (expected text target s.hash) s x ≡ finished t
    → IsPassed g target s t
unfolding after_store
after_store-IsPassed g target dir text r s t (err f) h y e p = absurd (cc)
after_store-IsPassed g target dir text r s t (ok content) h y e p = record {
  text = text;
  dir = dir;
  content = content;
  signed = y;
  hash = store_file_hash g r (expected text target s.hash) content h e;
  hash_kept = cc;
  location = cc;
}

after_digest-IsPassed :
    (g : Crypto) (target dir : Text) (r : Round) (s t : Loop) (o : Outcome (Result Error Text))
    → IsIntact r
    → digest_text g r ≡ o
    → after_digest g target dir r s o ≡ finished t
    → IsPassed g target s t
unfolding after_digest
after_digest-IsPassed g target dir r s t panics h e p = absurd (cc)
after_digest-IsPassed g target dir r s t hangs h e p = absurd (cc)
after_digest-IsPassed g target dir r s t (returns (err f)) h e p = absurd (cc)
after_digest-IsPassed g target dir r s t (returns (ok text)) h e p =
    after_store-IsPassed g target dir text r s t _ h (digest_text-IsSigned g r text e) refl p

after_temp-IsPassed :
    (g : Crypto) (target : Text) (r : Round) (s t : Loop) (x : Result Error Text)
    → IsIntact r
    → after_temp g target r s x ≡ finished t
    → IsPassed g target s t
unfolding after_temp
after_temp-IsPassed g target r s t (err f) h p = absurd (cc)
after_temp-IsPassed g target r s t (ok dir) h p =
    after_digest-IsPassed g target dir r s t (digest_text g r) h refl p

pub round-IsPassed :
    (g : Crypto) (target : Text) (r : Round) (s t : Loop)
    → IsIntact r
    → round g target r s ≡ finished t
    → IsPassed g target s t
unfolding round
round-IsPassed g target r s t h p = after_temp-IsPassed g target r s t r.temp h p

-- The hash that the digest of a round lists, or the one of the round before.
pub genuine :
    (g : Crypto) (target text content prior : Text)
    → IsSigned g text
    → g.sha512 content ≡ expected text target prior
    → IsGenuine g target content ⊎ (g.sha512 content ≡ prior)
unfolding expected
genuine g target text content prior y e = elim (listed-Origin (matches text) target prior) [
  | kept p ↦ inr (e ∙ p)
  | taken m i f n k h ↦ inl (record {
    text = text;
    signed = y;
    lists = record {
      entry = m;
      index = i;
      found = f;
      of_file = n;
      of_method = k;
      of_hash = h ∙ sym e;
    };
  })
]
