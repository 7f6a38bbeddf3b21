-- ===== src/Digests/Entries.antt =====
-- components/server/images.go, `downloadAndVerify`: the expression reads the entries of a DIGESTS
-- text back.
use corectl.Base.{
  ℕ, zero, suc, ◌+◌, ◌-◌, ◌≤◌, Bool, true, false, none, some, List, [], ◌∷◌, ◌++◌, Text, codes, ◌≡◌,
  ◌≢◌, ◌⊎◌, inl, inr, refl, ◌∙◌, ap, arith, All, has_prefix, length, length-append, ◌==◌,
}
use corectl.Digests.{
  Match, Found, is_space, is_word, no_space, run, rest, match_hash, match_line, match_heading,
  match_here, find_all, matches,
}

-- An entry as the CoreOS project writes it, before what follows.
abbrev pub print : Match → Text → Text
print m s =
    codes "# "
    ++ (m.method ++ (codes " HASH\n" ++ (m.hash ++ (codes "  " ++ (m.file ++ (10 ∷ s))))))

abbrev pub print_all : List Match → Text
print_all [] = []
print_all (m ∷ ms) = print m (print_all ms)

-- One of the two methods that are read, a hash in one piece, and a file's name in the characters
-- that the expression allows.
pub record IsPlain (m : Match) : Type 0 where
  pub method : (m.method ≡ codes "SHA1") ⊎ (m.method ≡ codes "SHA512")
  pub first : ℕ
  pub hash : Text
  pub hash_whole : m.hash ≡ first ∷ hash
  pub first_solid : first ≢ 10
  pub hash_solid : All (λ c. no_space c ≡ true) hash
  pub letter : ℕ
  pub file : Text
  pub file_whole : m.file ≡ letter ∷ file
  pub file_words : All (λ c. is_word c ≡ true) (letter ∷ file)

run_through :
    (p : ℕ → Bool) (w s : Text) (c : ℕ)
    → All (λ x. p x ≡ true) w
    → p c ≡ false
    → (run p (w ++ c ∷ s) ≡ w) × (rest p (w ++ c ∷ s) ≡ c ∷ s)
unfolding run rest
run_through p [] s c h n = ground arith
run_through p (x ∷ w) s c h n = ground (arith, run_through p w s c h.1 n)

word_no_space : (c : ℕ) → is_word c ≡ true → is_space c ≡ false
unfolding is_word is_space
word_no_space c h = ground arith

-- The text from the hash on.
abbrev tail : ℕ → Text → Text → Text → Text
tail c h f s = c ∷ (h ++ (codes "  " ++ (f ++ (10 ∷ s))))

space_lem : is_space 32 ≡ true
unfolding is_space
space_lem = refl

two_spaces : (c : ℕ) (s : Text) → is_space c ≡ false → rest is_space (32 ∷ 32 ∷ c ∷ s) ≡ c ∷ s
unfolding rest
two_spaces c s n = rw (space_lem, n) refl

ten_test : (c : ℕ) → c ≢ 10 → (c == 10) ≡ false
ten_test c n = ground arith

match_hash-tail :
    (method : Text) (m : Match) (s : Text) (q : IsPlain m)
    → match_hash method (tail q.first q.hash (q.letter ∷ q.file) s)
      ≡ some (record {
        entry = record { method = method; hash = q.first ∷ q.hash; file = q.letter ∷ q.file };
        after = 10 ∷ s;
      })
unfolding match_hash
match_hash-tail method m s q =
    let rest_of = 32 ∷ (q.letter ∷ q.file) ++ (10 ∷ s) in
    let (a, b) = run_through no_space q.hash rest_of 32 q.hash_solid (unfold is_space in refl) in
    let (c, d) =
      run_through is_word (q.letter ∷ q.file) s 10 q.file_words (unfold is_word in refl) in
    let n : is_space q.letter ≡ false = word_no_space q.letter q.file_words.0 in
    let e = two_spaces q.letter (q.file ++ (10 ∷ s)) n in
    rw (ten_test q.first q.first_solid, a, b, e, c, d) refl

-- The method and the rest of an entry.
match_heading-tail :
    (method : Text) (m : Match) (s : Text) (q : IsPlain m)
    → match_heading method (codes " HASH\n" ++ tail q.first q.hash (q.letter ∷ q.file) s)
      ≡ some (record {
        entry = record { method = method; hash = q.first ∷ q.hash; file = q.letter ∷ q.file };
        after = 10 ∷ s;
      })
unfolding match_heading match_line has_prefix
match_heading-tail method m s q = match_hash-tail method m s q

match_here_tail :
    (m : Match) (s : Text) (q : IsPlain m)
    → match_here (m.method ++ (codes " HASH\n" ++ (m.hash ++ (codes "  " ++ (m.file ++ (10 ∷ s))))))
      ≡ some (record { entry = m; after = 10 ∷ s })
unfolding match_here has_prefix
match_here_tail m s q = elim q.method [
  | inl e ↦ rw (e, q.hash_whole, q.file_whole) (match_heading-tail (codes "SHA1") m s q)
  | inr e ↦ rw (e, q.hash_whole, q.file_whole) (match_heading-tail (codes "SHA512") m s q)
]

find_none :
    (n c : ℕ) (s : Text) → match_here (c ∷ s) ≡ none → find_all (suc n) (c ∷ s) ≡ find_all n s
unfolding find_all
find_none n c s e = rw (find_all, e) refl

find_some :
    (n : ℕ) (s : Text) (f : Found)
    → match_here s ≡ some f
    → find_all (suc n) s ≡ f.entry ∷ find_all n f.after
unfolding find_all
find_some n [] f e = absurd (unfold match_here has_prefix in cc)
find_some n (c ∷ s) f e = rw (find_all, e) refl

-- No method begins at `#`, at a space or at the end of a line.
nothing_here :
    (s : Text)
    → (match_here (35 ∷ s) ≡ none) × (match_here (32 ∷ s) ≡ none) × (match_here (10 ∷ s) ≡ none)
unfolding match_here has_prefix
nothing_here s = (refl, refl, refl)

find_all-print :
    (n : ℕ) (m : Match) (s : Text)
    → IsPlain m
    → find_all (suc (suc (suc (suc n)))) (print m s) ≡ m ∷ find_all n s
find_all-print n m s q =
    let t = m.method ++ (codes " HASH\n" ++ (m.hash ++ (codes "  " ++ (m.file ++ (10 ∷ s))))) in
    find_none _ 35 (32 ∷ t) (nothing_here (32 ∷ t)).0
    ∙ (find_none _ 32 t (nothing_here t).1
        ∙ (find_some _ t _ (match_here_tail m s q)
            ∙ ap (λ (l : List Match). m ∷ l) (find_none n 10 s (nothing_here s).2)))

length-print : (m : Match) (s : Text) → IsPlain m → 4 + length s ≤ length (print m s)
length-print m s q =
    let a = length-append {0} (m.file) (10 ∷ s) in
    let b = length-append {0} m.hash (codes "  " ++ (m.file ++ (10 ∷ s))) in
    let c =
      length-append {0} m.method
        (codes " HASH\n" ++ (m.hash ++ (codes "  " ++ (m.file ++ (10 ∷ s))))) in
    omega (arith, a, b, c)

find_all-print_all :
    (n : ℕ) (ms : List Match)
    → All IsPlain ms
    → length (print_all ms) ≤ n
    → find_all n (print_all ms) ≡ ms
unfolding find_all
find_all-print_all zero [] h l = refl
find_all-print_all (suc n) [] h l = refl
find_all-print_all n (m ∷ ms) h l =
    let rest_of = print_all ms in
    let long = length-print m rest_of h.0 in
    let e : n ≡ suc (suc (suc (suc (n - 4)))) = omega arith in
    ap (λ (k : ℕ). find_all k (print m rest_of)) e
    ∙ (find_all-print (n - 4) m rest_of h.0
        ∙ ap (λ (t : List Match). m ∷ t) (find_all-print_all (n - 4) ms h.1 (omega arith)))

-- The expression finds in a DIGESTS text that lists SHA1 and SHA512 hashes exactly its entries, in
-- their order, for hashes without spaces and file names in letters, digits, dots and underlines.
pub matches-print_all : (ms : List Match) → All IsPlain ms → matches (print_all ms) ≡ ms
unfolding matches
matches-print_all ms h = find_all-print_all (length (print_all ms)) ms h (omega arith)
