-- ===== src/Download/Verified.antt =====
-- components/server/images.go, `localize`: what is in the image store once it has succeeded.
use corectl.Base.{
  Bool, true, false, Option, none, some, List, [], ◌∷◌, ◌++◌, Text, ◌=t◌, =t_refl, =t_ne,
  ne_of_test, ◌≡◌, ◌≢◌, refl, sym, ◌∙◌, ap, ◌⊎◌, inl, inr, Option-cases, Result, ok, err, Outcome,
  returns, hangs, panics, arith, insert, lookup, lookup-insert,
}
use corectl.Daemon.{Error}
use corectl.Digests.{expected}
use corectl.Download.Genuine.{IsGenuine, IsIntact, round-IsPassed, genuine}
use corectl.Download.Rounds.{finished_of_ok, rounds-finished, start}
use corectl.Download.{Crypto, Round, Stored, rounds, kernel, initrd, download_and_verify}
use corectl.Download.Localize.{
  Disk, visit, rename_all, install, after_download, after_mkdir, first_error, localize,
}

rename_two :
    (rename : Text → Option Error) (f h : Stored) (files : List (Text × Text))
    → f.name ≢ h.name
    → (rename_all rename (f ∷ h ∷ []) files).1 ≡ none
    → let out = (rename_all rename (f ∷ h ∷ []) files).0 in
      (lookup f.name out ≡ some f.text) × (lookup h.name out ≡ some h.text)
unfolding rename_all
rename_two rename f h files n p = elim (Option-cases (rename f.name)) [
  | inr (e, a) ↦ absurd (ground arith)
  | inl a ↦ elim (Option-cases (rename h.name)) [
    | inr (e, b) ↦ absurd (ground arith)
    | inl b ↦
        let one = lookup-insert f.name f.name f.text files in
        let m = insert f.name f.text files in
        rw (a, b)
          (
            (lookup-insert h.name f.name h.text m
                ∙ rw (=t_ne h.name f.name (λ q. n (sym q)), one, =t_refl f.name) refl),
            (lookup-insert h.name h.name h.text m ∙ rw (=t_refl h.name) refl),
          )
  ]
]

rename_visited :
    (rename : Text → Option Error) (a : Bool) (f h : Stored) (files : List (Text × Text))
    → f.name ≢ h.name
    → (rename_all rename (visit a (f ∷ h ∷ [])) files).1 ≡ none
    → let out = (rename_all rename (visit a (f ∷ h ∷ [])) files).0 in
      (lookup f.name out ≡ some f.text) × (lookup h.name out ≡ some h.text)
rename_visited rename true f h files n p = rename_two rename f h files n p
rename_visited rename false f h files n p =
    let (x, y) = rename_two rename h f files (λ q. n (sym q)) p in (y, x)

-- What `downloadAndVerify` returns when it succeeds.
record IsVerified (g : Crypto) (fs : List Stored) : Type 0 where
  kernel_dir : Text
  initrd_dir : Text
  kernel_text : Text
  initrd_text : Text
  files :
      fs
      ≡ record { name = kernel; dir = kernel_dir; text = kernel_text }
        ∷ record { name = initrd; dir = initrd_dir; text = initrd_text }
        ∷ []
  kernel_genuine : IsGenuine g kernel kernel_text ⊎ (g.sha512 kernel_text ≡ [])
  initrd_genuine : IsGenuine g initrd initrd_text ⊎ (g.sha512 initrd_text ≡ g.sha512 kernel_text)

download_and_verify-IsVerified :
    (g : Crypto) (r1 r2 : Round) (fs : List Stored)
    → IsIntact r1
    → IsIntact r2
    → (download_and_verify g r1 r2).result ≡ returns (ok fs)
    → IsVerified g fs
unfolding download_and_verify
download_and_verify-IsVerified g r1 r2 fs h1 h2 p =
    let (t, e, l, d) = finished_of_ok (rounds g ((kernel, r1) ∷ (initrd, r2) ∷ []) start) fs p in
    let (m, a, b) = rounds-finished g r1 r2 start t e in
    let x = round-IsPassed g kernel r1 start m h1 a in
    let y = round-IsPassed g initrd r2 m t h2 b in
    let last : Stored = record { name = initrd; dir = y.dir; text = y.content } in
    record {
      kernel_dir = x.dir;
      initrd_dir = y.dir;
      kernel_text = x.content;
      initrd_text = y.content;
      files = sym l ∙ (y.location ∙ ap (λ (z : List Stored). z ++ (last ∷ [])) x.location);
      kernel_genuine = genuine g kernel x.text x.content [] x.signed x.hash;
      initrd_genuine =
          genuine g initrd y.text y.content (g.sha512 x.content) y.signed
            (y.hash ∙ ap (expected y.text initrd) (x.hash_kept ∙ sym x.hash));
    }

failed_first : (e k : Option Error) → first_error e k ≡ none → e ≡ none
failed_first none k p = refl
failed_first (some x) k p = absurd (cc)

-- What `localize` put in the destination when it succeeded.
pub record IsInstalled (g : Crypto) (files : List (Text × Text)) : Type 0 where
  pub kernel_text : Text
  pub initrd_text : Text
  pub kernel_stored : lookup kernel files ≡ some kernel_text
  pub initrd_stored : lookup initrd files ≡ some initrd_text
  pub kernel_genuine : IsGenuine g kernel kernel_text
  pub initrd_genuine :
      IsGenuine g initrd initrd_text ⊎ (g.sha512 initrd_text ≡ g.sha512 kernel_text)

-- A call of `localize` that succeeded: both parts of it did.
record IsDone (g : Crypto) (d : Disk) (r1 r2 : Round) (files out : List (Text × Text))
    : Type 0 where
  stored : List Stored
  got : (download_and_verify g r1 r2).result ≡ returns (ok stored)
  renamed : (rename_all d.rename (visit d.kernel_first stored) files).1 ≡ none
  left : out ≡ (rename_all d.rename (visit d.kernel_first stored) files).0

after_download-IsDone :
    (g : Crypto) (d : Disk) (r1 r2 : Round) (files : List (Text × Text)) (dirs : List Text)
    (o : Outcome (Result Error (List Stored)))
    → (download_and_verify g r1 r2).result ≡ o
    → (after_download d files dirs o).result ≡ returns none
    → IsDone g d r1 r2 files (after_download d files dirs o).files
unfolding after_download install
after_download-IsDone g d r1 r2 files dirs hangs e p = absurd (cc)
after_download-IsDone g d r1 r2 files dirs panics e p = absurd (cc)
after_download-IsDone g d r1 r2 files dirs (returns (err x)) e p = absurd (cc)
after_download-IsDone g d r1 r2 files dirs (returns (ok fs)) e p = record {
  stored = fs;
  got = e;
  renamed = failed_first _ d.normalize (cc);
  left = refl;
}

localize-IsDone :
    (g : Crypto) (d : Disk) (r1 r2 : Round) (files : List (Text × Text)) (m : Option Error)
    → (after_mkdir g d r1 r2 files m).result ≡ returns none
    → IsDone g d r1 r2 files (after_mkdir g d r1 r2 files m).files
unfolding after_mkdir
localize-IsDone g d r1 r2 files (some e) p = absurd (cc)
localize-IsDone g d r1 r2 files none p =
    after_download-IsDone g d r1 r2 files _ (download_and_verify g r1 r2).result refl p

-- When `localize` succeeds, the image store holds both files. A text that a key of the key ring
-- signed has a SHA512 entry for the kernel with the hash of the kernel's content, and one for the
-- other file with the hash of its content, unless that content has the hash of the kernel. The
-- disk takes all that is written, and a hash is never empty.
pub localize-IsInstalled :
    (g : Crypto) (d : Disk) (r1 r2 : Round) (files : List (Text × Text))
    → IsIntact r1
    → IsIntact r2
    → ((t : Text) → g.sha512 t ≢ [])
    → (localize g d r1 r2 files).result ≡ returns none
    → IsInstalled g (localize g d r1 r2 files).files
unfolding localize
localize-IsInstalled g d r1 r2 files h1 h2 n p =
    let done = localize-IsDone g d r1 r2 files d.mkdir p in
    let v = download_and_verify-IsVerified g r1 r2 done.stored h1 h2 done.got in
    let f : Stored = record { name = kernel; dir = v.kernel_dir; text = v.kernel_text } in
    let h : Stored = record { name = initrd; dir = v.initrd_dir; text = v.initrd_text } in
    let (a, b) =
      rename_visited d.rename d.kernel_first f h files (ne_of_test _ _ (unfold ◌=t◌ in refl))
        (rw v.files at done.renamed) in
    let at_end : (localize g d r1 r2 files).files
        ≡ (rename_all d.rename (visit d.kernel_first (f ∷ h ∷ [])) files).0 =
      done.left
      ∙ ap (λ (fs : List Stored). (rename_all d.rename (visit d.kernel_first fs) files).0)
          v.files in
    record {
      kernel_text = v.kernel_text;
      initrd_text = v.initrd_text;
      kernel_stored = ap (lookup kernel) at_end ∙ a;
      initrd_stored = ap (lookup initrd) at_end ∙ b;
      kernel_genuine = elim v.kernel_genuine [ inl q ↦ q | inr q ↦ absurd (n _ q) ];
      initrd_genuine = v.initrd_genuine;
    }
