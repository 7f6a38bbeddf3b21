-- ===== src/Digests.antt =====
-- components/server/images.go, `downloadAndVerify`: the expression that reads a DIGESTS text, and
-- the hash that is looked up in what it finds.
pub mod Entries
use corectl.Base.{
  ℕ, zero, suc, ◌+◌, Bool, true, false, ◌&&◌, ◌||◌, not, Option, none, some, List, [], ◌∷◌, Text,
  codes, ◌=t◌, has_prefix, length, drop, leb, ◌==◌, if◌then◌else◌,
}

-- The groups of a match that the code reads.
pub record Match : Type 0 where
  pub method : Text
  pub hash : Text
  pub file : Text

-- `\s` and `[\w\d_\.]`
unfoldable pub is_space : ℕ → Bool
is_space c = (((c == 32) || (c == 9)) || ((c == 10) || (c == 12))) || (c == 13)

unfoldable pub is_word : ℕ → Bool
is_word c =
    ((leb 48 c && leb c 57) || (leb 65 c && leb c 90))
    || ((leb 97 c && leb c 122) || ((c == 95) || (c == 46)))

abbrev pub no_space : ℕ → Bool
no_space c = not (is_space c)

-- A greedy run of a class of characters, and what follows it.
unfoldable pub run : (ℕ → Bool) → Text → Text
run p [] = []
run p (c ∷ s) = if p c then c ∷ run p s else []

unfoldable pub rest : (ℕ → Bool) → Text → Text
rest p [] = []
rest p (c ∷ s) = if p c then rest p s else c ∷ s

-- A match at the head of a text, and what follows it.
pub record Found : Type 0 where
  pub entry : Match
  pub after : Text

-- `(?P<hash>.[^\s]*)\s*(?P<file>[\w\d_\.]*)`
unfoldable pub match_hash : Text → Text → Option Found
match_hash method [] = none
match_hash method (c ∷ s) =
    if c == 10
    then none
    else some (record {
      entry = record {
        method = method;
        hash = c ∷ run no_space s;
        file = run is_word (rest is_space (rest no_space s));
      };
      after = rest is_word (rest is_space (rest no_space s));
    })

-- `(?:\r?)\n`
unfoldable pub match_line : Text → Text → Option Found
unfolding match_hash
match_line method [] = none
match_line method (c ∷ []) = none
match_line method (c ∷ d ∷ s) =
    if c == 10
    then match_hash method (d ∷ s)
    else if (c == 13) && (d == 10)
    then match_hash method s
    else none

abbrev pub heading : Text
heading = codes " HASH"

-- ` HASH` and the end of its line
unfoldable pub match_heading : Text → Text → Option Found
unfolding match_line
match_heading method s =
    if has_prefix s heading then match_line method (drop (length heading) s) else none

-- `(?P<method>(SHA1|SHA512))` and what follows
unfoldable pub match_here : Text → Option Found
unfolding match_heading
match_here s =
    if has_prefix s (codes "SHA1")
    then match_heading (codes "SHA1") (drop 4 s)
    else if has_prefix s (codes "SHA512")
    then match_heading (codes "SHA512") (drop 6 s)
    else none

-- `re.FindAllStringSubmatch(text, -1)`: the matches that do not overlap, from the left. The fuel is
-- the number of characters that are left to look at.
unfoldable pub find_all : ℕ → Text → List Match
unfolding match_here
find_all zero s = []
find_all (suc n) [] = []
find_all (suc n) (c ∷ s) = elim (match_here (c ∷ s)) [
  | none ↦ find_all n s
  | some f ↦ f.entry ∷ find_all n f.after
]

unfoldable pub matches : Text → List Match
unfolding find_all
matches s = find_all (length s) s

-- The loop over the matches: the last SHA512 entry of the file, else the hash that `bzHashSHA512`
-- already holds.
unfoldable pub listed : List Match → Text → Text → Text
listed [] file prior = prior
listed (m ∷ ms) file prior =
    listed ms file (if (m.file =t file) && (m.method =t codes "SHA512") then m.hash else prior)

unfoldable pub expected : Text → Text → Text → Text
unfolding matches listed
expected digest file prior = listed (matches digest) file prior
