-- ===== src/Cli/Slices.antt =====
-- cmd/main.go: what `viperStringSliceBugWorkaround` makes of a list.
use corectl.Base.{
  ℕ, List, [], ◌∷◌, Text, ◌≡◌, refl, All, All-append, arith, split, split-Lacks, split-Lacks_sep,
  split-Lacks_of_Lacks, Lacks,
}
use corectl.Cli.{remove_byte, strip, slices}

remove_byte-Lacks : (b : ℕ) (s : Text) → Lacks b (remove_byte b s)
unfolding remove_byte
remove_byte-Lacks b [] = tt
remove_byte-Lacks b (c ∷ s) = ground (arith, remove_byte-Lacks b s)

Lacks-remove_byte : (a b : ℕ) (s : Text) → Lacks a s → Lacks a (remove_byte b s)
unfolding remove_byte
Lacks-remove_byte a b [] h = tt
Lacks-remove_byte a b (c ∷ s) h = ground (arith, Lacks-remove_byte a b s h.1)

remove_byte_absent : (b : ℕ) (s : Text) → Lacks b s → remove_byte b s ≡ s
unfolding remove_byte
remove_byte_absent b [] h = refl
remove_byte_absent b (c ∷ s) h = ground (arith, remove_byte_absent b s h.1)

-- A text without a comma and without brackets.
abbrev pub IsPlain : Text → Type 0
IsPlain t = Lacks b',' t × Lacks b'[' t × Lacks b']' t

zip-IsPlain :
    (ts : List Text)
    → All (Lacks b',') ts
    → All (Lacks b'[') ts
    → All (Lacks b']') ts
    → All IsPlain ts
zip-IsPlain [] a b c = tt
zip-IsPlain (t ∷ ts) a b c = ((a.0, b.0, c.0), zip-IsPlain ts a.1 b.1 c.1)

split-strip-IsPlain : (x : Text) → All IsPlain (split (strip x) b',')
unfolding strip
split-strip-IsPlain x =
    let y = remove_byte b']' x in
    zip-IsPlain (split (strip x) b',') (split-Lacks_sep (strip x) b',')
      (split-Lacks_of_Lacks b'[' (strip x) b',' (remove_byte-Lacks b'[' y))
      (split-Lacks_of_Lacks b']' (strip x) b','
        (Lacks-remove_byte b']' b'[' y (remove_byte-Lacks b']' x)))

slices-AllPlain : (xs : List Text) → All IsPlain (slices xs)
unfolding slices
slices-AllPlain [] = tt
slices-AllPlain (x ∷ xs) =
    All-append IsPlain (split (strip x) b',') (slices xs) (split-strip-IsPlain x)
      (slices-AllPlain xs)

slices_plain : (xs : List Text) → All IsPlain xs → slices xs ≡ xs
unfolding slices strip
slices_plain [] h = refl
slices_plain (x ∷ xs) ((a, b, c), h) =
    rw
      (
        remove_byte_absent b']' x c,
        remove_byte_absent b'[' x b,
        split-Lacks x b',' a,
        slices_plain xs h,
      )
      refl

-- The workaround leaves no comma and no bracket in any element, and so changes nothing the second
-- time.
pub slices_normalise : (xs : List Text) → All IsPlain (slices xs) × (slices (slices xs) ≡ slices xs)
slices_normalise xs = (slices-AllPlain xs, slices_plain (slices xs) (slices-AllPlain xs))
