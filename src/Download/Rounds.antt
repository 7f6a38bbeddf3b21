-- ===== src/Download/Rounds.antt =====
-- components/server/images.go: what one round of `downloadAndVerify` leaves, and two that succeed.
use corectl.Base.{
  Bool, true, false, List, [], ◌∷◌, ◌++◌, Text, ◌≡◌, refl, ◌⊎◌, inl, inr, Result, ok, err, Outcome,
  returns, hangs, panics, arith,
}
use corectl.Daemon.{Error}
use corectl.Download.{
  Crypto, Round, Stored, Loop, End, finished, failed, crashed, digest_text, after_store,
  after_digest, after_temp, round, rounds, kernel, initrd, deferred,
}

pub End-cases :
    (e : End)
    → ((t : Loop) × (e ≡ finished t))
      ⊎ (((f : Error) × (tmp : Text) × (dirs : List Text) × (e ≡ failed f tmp dirs))
          ⊎ ((dirs : List Text) × (e ≡ crashed dirs)))
End-cases (finished t) = inl (t, refl)
End-cases (failed f tmp dirs) = inr (inl (f, tmp, dirs, refl))
End-cases (crashed dirs) = inr (inr (dirs, refl))

abbrev pub start : Loop
start = record { hash = []; location = []; dirs = [] }

abbrev pub is_finished : End → Bool
is_finished (finished t) = true
is_finished (failed f tmp dirs) = false
is_finished (crashed dirs) = false

-- Two rounds that succeed one after the other.
pub rounds-finished :
    (g : Crypto) (r1 r2 : Round) (s t : Loop)
    → rounds g ((kernel, r1) ∷ (initrd, r2) ∷ []) s ≡ finished t
    → (m : Loop) × (round g kernel r1 s ≡ finished m) × (round g initrd r2 m ≡ finished t)
unfolding rounds
rounds-finished g r1 r2 s t e = elim (End-cases (round g kernel r1 s)) [
  | inl (m, p) ↦ elim (End-cases (round g initrd r2 m)) [
    | inl (u, q) ↦ (m, p, ground arith)
    | inr (inl (f, tmp, dirs, q)) ↦ absurd (ground arith)
    | inr (inr (dirs, q)) ↦ absurd (ground arith)
  ]
  | inr (inl (f, tmp, dirs, p)) ↦ absurd (ground arith)
  | inr (inr (dirs, p)) ↦ absurd (ground arith)
]

-- What a round leaves, for the name that it asks for: it makes the directory before it can fail.
pub data Leaves (s : Loop) (dir : Text) : End → Type 0 where
  passes :
      (t : Loop) (text : Text) (target : Text)
      → t.dirs ≡ s.dirs ++ (dir ∷ [])
      → t.location ≡ s.location ++ (record { name = target; dir = dir; text = text } ∷ [])
      → Leaves s dir (finished t)
  fails : (f : Error) → Leaves s dir (failed f dir (s.dirs ++ (dir ∷ [])))
  crashes : Leaves s dir (crashed (s.dirs ++ (dir ∷ [])))

after_store-Leaves :
    (target dir hash : Text) (s : Loop) (x : Result Error Text)
    → Leaves s dir (after_store target dir hash s x)
unfolding after_store
after_store-Leaves target dir hash s (err f) = fails f
after_store-Leaves target dir hash s (ok text) = passes _ text target refl refl

after_digest-Leaves :
    (g : Crypto) (target dir : Text) (r : Round) (s : Loop) (o : Outcome (Result Error Text))
    → Leaves s dir (after_digest g target dir r s o)
unfolding after_digest
after_digest-Leaves g target dir r s panics = crashes
after_digest-Leaves g target dir r s hangs = crashes
after_digest-Leaves g target dir r s (returns (err f)) = fails f
after_digest-Leaves g target dir r s (returns (ok text)) = after_store-Leaves target dir _ s _

pub round-Leaves :
    (g : Crypto) (target dir : Text) (r : Round) (s : Loop)
    → r.temp ≡ ok dir
    → Leaves s dir (round g target r s)
unfolding round after_temp
round-Leaves g target dir r s e = rw e (after_digest-Leaves g target dir r s (digest_text g r))

-- What a round that succeeded added.
pub record IsAdded (s t : Loop) : Type 0 where
  pub file : Stored
  pub dirs : t.dirs ≡ s.dirs ++ (file.dir ∷ [])
  pub location : t.location ≡ s.location ++ (file ∷ [])

Leaves-IsAdded : (s t : Loop) (dir : Text) (e : End) → Leaves s dir e → e ≡ finished t → IsAdded s t
Leaves-IsAdded s t dir e (passes u text target a b) p = record {
  file = record { name = target; dir = dir; text = text };
  dirs = cc;
  location = cc;
}
Leaves-IsAdded s t dir e (fails f) p = absurd (cc)
Leaves-IsAdded s t dir e crashes p = absurd (cc)

pub round-IsAdded :
    (g : Crypto) (target : Text) (r : Round) (s t : Loop) (x : Result Error Text)
    → r.temp ≡ x
    → round g target r s ≡ finished t
    → IsAdded s t
round-IsAdded g target r s t (ok dir) e p =
    Leaves-IsAdded s t dir _ (round-Leaves g target dir r s e) p
round-IsAdded g target r s t (err f) e p =
    let q : round g target r s ≡ failed f [] s.dirs = unfold round after_temp in rw e refl in
    absurd (cc)

pub finished_of_ok :
    (e : End) (fs : List Stored)
    → (deferred e).result ≡ returns (ok fs)
    → (t : Loop) × (e ≡ finished t) × (t.location ≡ fs) × ((deferred e).dirs ≡ t.dirs)
unfolding deferred
finished_of_ok (finished t) fs p = (t, refl, cc, refl)
finished_of_ok (failed f tmp dirs) fs p = absurd (cc)
finished_of_ok (crashed dirs) fs p = absurd (cc)
