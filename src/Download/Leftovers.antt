-- ===== src/Download/Leftovers.antt =====
-- components/server/images.go: the temporary directories that `downloadAndVerify` and `localize`
-- leave on disk.
use corectl.Base.{
  none, List, [], ◌∷◌, ◌++◌, Text, =t_refl, =t_ne, ◌≡◌, ◌≢◌, refl, sym, ap, ◌∙◌, ◌⊎◌, inl, inr,
  Result, ok, err, returns, arith, if◌then◌else◌,
}
use corectl.Daemon.{Error}
use corectl.Download.{
  Crypto, Round, Stored, Loop, End, finished, failed, crashed, after_temp, round, rounds, kernel,
  initrd, without, deferred, download_and_verify,
}
use corectl.Download.Localize.{Disk, remove_dirs, install, after_download, after_mkdir, localize}
use corectl.Download.Rounds.{
  start, is_finished, rounds-finished, Leaves, passes, fails, crashes, round-Leaves, round-IsAdded,
  finished_of_ok,
}

-- The second round fails with its own directory, or with none, and the first one stays.
second :
    (s : Loop) (d1 : Text) (e : End) (f : Error)
    → s.dirs ≡ d1 ∷ []
    → ((d2 : Text) × (d2 ≢ d1) × Leaves s d2 e) ⊎ ((x : Error) × (e ≡ failed x [] (d1 ∷ [])))
    → d1 ≢ []
    → (deferred e).result ≡ returns (err f)
    → (deferred e).dirs ≡ d1 ∷ []
unfolding deferred without
second s d1 e f h (inl (d2, n, passes t text target a b)) k p = absurd (cc)
second s d1 e f h (inl (d2, n, crashes)) k p = absurd (cc)
second s d1 e f h (inl (d2, n, fails x)) k p = rw (h, =t_ne d1 d2 (λ q. n (sym q)), =t_refl d2) refl
second s d1 e f h (inr (x, q)) k p = rw (q, =t_ne d1 [] k) refl

abbrev continue : Crypto → Round → End → End
continue g r2 (finished t) = rounds g ((initrd, r2) ∷ []) t
continue g r2 (failed f tmp dirs) = failed f tmp dirs
continue g r2 (crashed dirs) = crashed dirs

same_end :
    (e : End)
    → (elim e [
      | finished t ↦ finished t
      | failed f tmp dirs ↦ failed f tmp dirs
      | crashed dirs ↦ crashed dirs
    ])
      ≡ e
same_end (finished t) = refl
same_end (failed f tmp dirs) = refl
same_end (crashed dirs) = refl

last_round :
    (g : Crypto) (r2 : Round) (t : Loop) → rounds g ((initrd, r2) ∷ []) t ≡ round g initrd r2 t
unfolding rounds
last_round g r2 t = same_end (round g initrd r2 t)

second_temp :
    (g : Crypto) (r2 : Round) (t : Loop) (d1 : Text) (x : Result Error Text)
    → r2.temp ≡ x
    → t.dirs ≡ d1 ∷ []
    → ((d2 : Text) → r2.temp ≡ ok d2 → d2 ≢ d1)
    → ((d2 : Text) × (d2 ≢ d1) × Leaves t d2 (round g initrd r2 t))
      ⊎ ((y : Error) × (round g initrd r2 t ≡ failed y [] (d1 ∷ [])))
second_temp g r2 t d1 (ok d2) e h n = inl (d2, n d2 e, round-Leaves g initrd d2 r2 t e)
second_temp g r2 t d1 (err y) e h n = inr (y, unfold round after_temp in rw (e, h) refl)

second_round :
    (g : Crypto) (r2 : Round) (t : Loop) (d1 : Text)
    → t.dirs ≡ d1 ∷ []
    → ((d2 : Text) → r2.temp ≡ ok d2 → d2 ≢ d1)
    → ((d2 : Text) × (d2 ≢ d1) × Leaves t d2 (rounds g ((initrd, r2) ∷ []) t))
      ⊎ ((x : Error) × (rounds g ((initrd, r2) ∷ []) t ≡ failed x [] (d1 ∷ [])))
second_round g r2 t d1 h n = rw (last_round g r2 t) (second_temp g r2 t d1 r2.temp refl h n)

after_first :
    (g : Crypto) (r2 : Round) (d1 : Text) (e : End) (f : Error)
    → Leaves start d1 e
    → d1 ≢ []
    → ((d2 : Text) → r2.temp ≡ ok d2 → d2 ≢ d1)
    → (deferred (continue g r2 e)).result ≡ returns (err f)
    → (deferred (continue g r2 e)).dirs ≡ (if is_finished e then d1 ∷ [] else [])
after_first g r2 d1 e f (passes t text target a b) k n p =
    second t d1 _ f a (second_round g r2 t d1 a n) k p
after_first g r2 d1 e f (fails x) k n p = unfold deferred without in rw (=t_refl d1) refl
after_first g r2 d1 e f crashes k n p = unfold deferred in absurd (cc)

-- When `downloadAndVerify` fails, the temporary directory of the kernel stays on disk exactly if
-- the error is one of the second round, since both deferred functions then remove the directory
-- of that round. The directories' names are new ones, and not empty.
pub download_and_verify_leaves :
    (g : Crypto) (r1 r2 : Round) (d1 : Text) (f : Error)
    → r1.temp ≡ ok d1
    → d1 ≢ []
    → ((d2 : Text) → r2.temp ≡ ok d2 → d2 ≢ d1)
    → (download_and_verify g r1 r2).result ≡ returns (err f)
    → (download_and_verify g r1 r2).dirs
      ≡ (if is_finished (round g kernel r1 start) then d1 ∷ [] else [])
unfolding download_and_verify rounds
download_and_verify_leaves g r1 r2 d1 f e k n p =
    after_first g r2 d1 (round g kernel r1 start) f (round-Leaves g kernel d1 r1 start e) k n p

remove_dirs_both : (f h : Stored) → remove_dirs (f ∷ h ∷ []) (f.dir ∷ h.dir ∷ []) ≡ []
unfolding remove_dirs without
remove_dirs_both f h = ground (arith, =t_refl f.dir, =t_refl h.dir)

downloaded :
    (g : Crypto) (r1 r2 : Round) (fs : List Stored)
    → (download_and_verify g r1 r2).result ≡ returns (ok fs)
    → (f h : Stored) × (fs ≡ f ∷ h ∷ []) × ((download_and_verify g r1 r2).dirs ≡ f.dir ∷ h.dir ∷ [])
unfolding download_and_verify
downloaded g r1 r2 fs p =
    let (t, e, l, d) = finished_of_ok (rounds g ((kernel, r1) ∷ (initrd, r2) ∷ []) start) fs p in
    let (m, a, b) = rounds-finished g r1 r2 start t e in
    let x = round-IsAdded g kernel r1 start m r1.temp refl a in
    let y = round-IsAdded g initrd r2 m t r2.temp refl b in
    (
      x.file,
      y.file,
      sym l ∙ (y.location ∙ ap (λ (z : List Stored). z ++ (y.file ∷ [])) x.location),
      d ∙ (y.dirs ∙ ap (λ (z : List Text). z ++ (y.file.dir ∷ [])) x.dirs),
    )

-- Once both files are downloaded, `localize` leaves no temporary directory, whatever the renames and
-- `NormalizeOnDiskLayout` answer.
pub localize_cleans :
    (g : Crypto) (d : Disk) (r1 r2 : Round) (fs : List Stored) (files : List (Text × Text))
    → d.mkdir ≡ none
    → (download_and_verify g r1 r2).result ≡ returns (ok fs)
    → (localize g d r1 r2 files).dirs ≡ []
unfolding localize after_mkdir after_download install
localize_cleans g d r1 r2 fs files m p =
    let (f, h, e, l) = downloaded g r1 r2 fs p in simp (m, p, l, e) (remove_dirs_both f h)
