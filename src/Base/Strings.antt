-- ===== src/Base/Strings.antt =====
-- Text as a list of bytes, and what the code uses of Go's package strings.
use Prim.Native.Char.{code}
use Prim.Native.Nat.{ℕ, zero, suc, ◌+◌, ◌-◌}
use Prim.Native.String.{String}
use mathlib.Core.Bool.{Bool, true, false, ◌&&◌}
use mathlib.Core.List.{List, [], ◌∷◌, ◌++◌, map, reverse}
use mathlib.Core.Logic.{◌↔◌, ◌≢◌}
use mathlib.Core.Path.{◌≡◌, refl}
use native.Mathlib.Omega.{arith}
use corectl.Base.Lists.{length, All}
use corectl.Base.Tests.{◌==◌, leb, if◌then◌else◌}

abbrev pub Text : Type 0
Text = List ℕ

-- The code points of a literal, which are its bytes when it is ASCII.
abbrev pub codes : String → Text
codes String.[] = []
codes (String.◌∷◌ c s) = code c ∷ codes s

infix 50 ◌=t◌
unfoldable pub ◌=t◌ : Text → Text → Bool
[] =t [] = true
(a ∷ s) =t [] = false
[] =t (b ∷ t) = false
(a ∷ s) =t (b ∷ t) = (a == b) && (s =t t)

pub =t_iff : (s t : Text) → ((s =t t) ≡ true) ↔ (s ≡ t)
unfolding ◌=t◌
=t_iff [] [] = ground arith
=t_iff (a ∷ s) [] = ground arith
=t_iff [] (b ∷ t) = ground arith
=t_iff (a ∷ s) (b ∷ t) = ground (arith, =t_iff s t)

pub =t_refl : (s : Text) → (s =t s) ≡ true
=t_refl s = (=t_iff s s).1 refl

-- strings.HasPrefix
unfoldable pub has_prefix : Text → Text → Bool
has_prefix s [] = true
has_prefix [] (b ∷ t) = false
has_prefix (a ∷ s) (b ∷ t) = (a == b) && has_prefix s t

-- strings.HasSuffix
unfoldable pub has_suffix : Text → Text → Bool
unfolding has_prefix
has_suffix s t = has_prefix (reverse s) (reverse t)

-- strings.Split at a separator of one byte: the part before the first one, and the rest.
add_head : ℕ → List Text → List Text
add_head c [] = (c ∷ []) ∷ []
add_head c (p ∷ ps) = (c ∷ p) ∷ ps

unfoldable pub split : Text → ℕ → List Text
unfolding add_head
split [] sep = [] ∷ []
split (c ∷ s) sep = let rest = split s sep in if c == sep then [] ∷ rest else add_head c rest

-- strings.Join
unfoldable pub join : List Text → Text → Text
join [] sep = []
join (p ∷ []) sep = p
join (p ∷ q ∷ ps) sep = p ++ (sep ++ join (q ∷ ps) sep)

-- strings.Replace with -1, from one byte to one byte
unfoldable pub replace_byte : ℕ → ℕ → Text → Text
replace_byte old new s = map (λ c. if c == old then new else c) s

replace_from : Text → Text → ℕ → Text → Text
replace_from old new skip [] = []
replace_from old new (suc k) (c ∷ s) = replace_from old new k s
replace_from old new zero (c ∷ s) =
    let hit = new ++ replace_from old new (length old - 1) s in
    let miss = c ∷ replace_from old new 0 s in if has_prefix (c ∷ s) old then hit else miss

-- strings.Replace with -1; `old` is not empty
unfoldable pub replace_all : Text → Text → Text → Text
unfolding replace_from has_prefix
replace_all old new s = replace_from old new 0 s

-- strings.TrimPrefix and strings.TrimSuffix at one byte
unfoldable pub trim_prefix : ℕ → Text → Text
trim_prefix b [] = []
trim_prefix b (c ∷ s) = if c == b then s else c ∷ s

unfoldable pub trim_suffix : ℕ → Text → Text
trim_suffix b s = reverse (trim_prefix b (reverse s))

abbrev pub lower : ℕ → ℕ
lower c = if leb b'A' c && leb c b'Z' then c + 32 else c

abbrev pub upper : ℕ → ℕ
upper c = if leb b'a' c && leb c b'z' then c - 32 else c

-- strings.ToLower and strings.ToUpper, on ASCII text
unfoldable pub to_lower : Text → Text
to_lower = map lower

unfoldable pub to_upper : Text → Text
to_upper = map upper

abbrev pub Lacks : ℕ → Text → Type 0
Lacks b = All (λ c. c ≢ b)

pub upper_idem : (c : ℕ) → upper (upper c) ≡ upper c
upper_idem c = ground arith

pub to_upper_idem : (s : Text) → to_upper (to_upper s) ≡ to_upper s
unfolding to_upper
to_upper_idem [] = refl
to_upper_idem (c ∷ s) = cc (upper_idem c, to_upper_idem s)

pub split-ne-nil : (s : Text) (sep : ℕ) → split s sep ≢ []
unfolding split
split-ne-nil [] sep = cc
split-ne-nil (c ∷ s) sep = ground (arith, split-ne-nil s sep)

pub cons_of_ne_nil : (xs : List Text) → xs ≢ [] → (x : Text) × (ys : List Text) × (xs ≡ x ∷ ys)
cons_of_ne_nil [] h = absurd (h refl)
cons_of_ne_nil (x ∷ xs) h = (x, xs, refl)

-- A text without the separator is its own only part.
pub split-Lacks : (s : Text) (sep : ℕ) → Lacks sep s → split s sep ≡ s ∷ []
unfolding split
split-Lacks [] sep h = refl
split-Lacks (c ∷ s) sep h = ground (arith, split-Lacks s sep h.1)

-- A part that lacks the separator is split off in front of it.
pub split_at_sep : (p s : Text) (sep : ℕ) → Lacks sep p → split (p ++ sep ∷ s) sep ≡ p ∷ split s sep
unfolding split
split_at_sep [] s sep h = ground arith
split_at_sep (c ∷ p) s sep h = ground (arith, split_at_sep p s sep h.1)

-- Splitting a join gives the parts back, if there is a part and none holds the separator.
pub split-join :
    (p : Text) (ps : List Text) (sep : ℕ)
    → All (Lacks sep) (p ∷ ps)
    → split (join (p ∷ ps) (sep ∷ [])) sep ≡ p ∷ ps
unfolding join
split-join p [] sep h = split-Lacks p sep h.0
split-join p (q ∷ ps) sep h =
    rw (split_at_sep p (join (q ∷ ps) (sep ∷ [])) sep h.0, split-join q ps sep h.1)

pub has_prefix-append : (p s : Text) → has_prefix (p ++ s) p ≡ true
unfolding has_prefix
has_prefix-append [] s = refl
has_prefix-append (a ∷ p) s = ground (arith, has_prefix-append p s)

pub =t_ne : (s t : Text) → s ≢ t → (s =t t) ≡ false
=t_ne s t h = ground (arith, =t_iff s t)

join-add_head :
    (c : ℕ) (ps : List Text) (sep : Text) → ps ≢ [] → join (add_head c ps) sep ≡ c ∷ join ps sep
unfolding join add_head
join-add_head c [] sep h = absurd (h refl)
join-add_head c (p ∷ []) sep h = refl
join-add_head c (p ∷ q ∷ ps) sep h = refl

join-nil_head : (b : ℕ) (ps : List Text) → ps ≢ [] → join ([] ∷ ps) (b ∷ []) ≡ b ∷ join ps (b ∷ [])
unfolding join
join-nil_head b [] h = absurd (h refl)
join-nil_head b (p ∷ ps) h = refl

-- Joining the parts of a split gives the text back.
pub join-split : (s : Text) (sep : ℕ) → join (split s sep) (sep ∷ []) ≡ s
unfolding split
join-split [] sep = unfold join in refl
join-split (c ∷ s) sep = ground (
  arith,
  join-split s sep,
  join-nil_head sep (split s sep) (split-ne-nil s sep),
  join-add_head c (split s sep) (sep ∷ []) (split-ne-nil s sep),
)

-- The parts of a text lack what the text lacks.
pub split-Lacks_of_Lacks : (b : ℕ) (s : Text) (sep : ℕ) → Lacks b s → All (Lacks b) (split s sep)
unfolding split add_head
split-Lacks_of_Lacks b [] sep h = (tt, tt)
split-Lacks_of_Lacks b (c ∷ s) sep h =
    let (p, ps, e) = cons_of_ne_nil (split s sep) (split-ne-nil s sep) in
    ground (arith, split-Lacks_of_Lacks b s sep h.1)

pub split-Lacks_sep : (s : Text) (sep : ℕ) → All (Lacks sep) (split s sep)
unfolding split add_head
split-Lacks_sep [] sep = (tt, tt)
split-Lacks_sep (c ∷ s) sep =
    let (p, ps, e) = cons_of_ne_nil (split s sep) (split-ne-nil s sep) in
    ground (arith, split-Lacks_sep s sep)

pub ne_of_test : (s t : Text) → (s =t t) ≡ false → s ≢ t
ne_of_test s t h e = cc ((=t_iff s t).1 e)
