-- ===== src/Nfs/Again.antt =====
-- components/server/nfs.go: the lines of the new file, and a second call.
use corectl.Base.{
  Bool, true, Option, none, some, List, [], ◌∷◌, ◌++◌, append_assoc, map, any, Text, ◌≡◌, refl, sym,
  ap, ◌∙◌, arith, ◌⊎◌, inl, inr, Bool-cases, has_prefix, has_prefix-append, append-nil, split,
  split_at_sep, split-Lacks_sep, Lacks, All,
}
use corectl.Nfs.{
  NfsHost, new_line, new_lines, signature, is_set, rewritten, serves, set_up, nfs_setup,
}

abbrev OneLine : Text → Type 0
OneLine = Lacks b'\n'

new_line-OneLine : (h : NfsHost) (t : Text) → OneLine t → OneLine (new_line h t)
unfolding new_line
new_line-OneLine h t l = ground arith

split-new_lines :
    (h : NfsHost) (lines : List Text) (rest : Text)
    → All OneLine lines
    → split (new_lines h lines ++ rest) b'\n' ≡ map (new_line h) lines ++ split rest b'\n'
unfolding new_lines
split-new_lines h [] rest l = refl
split-new_lines h (t ∷ ts) rest l =
    ap (λ x. split x b'\n') (append_assoc (new_line h t) _ rest)
    ∙ split_at_sep (new_line h t) (new_lines h ts ++ rest) b'\n' (new_line-OneLine h t l.0)
    ∙ ap (λ x. new_line h t ∷ x) (split-new_lines h ts rest l.1)

signature_line :
    (h : NfsHost)
    → OneLine (signature h)
    → split (signature h ++ b'\n' ∷ []) b'\n' ≡ signature h ∷ [] ∷ []
unfolding split
signature_line h l = split_at_sep (signature h) [] b'\n' l

-- The file that is written has the lines of the old one in their order, those of an earlier release
-- empty, then the signature and an empty line.
lines_lem :
    (h : NfsHost) (buf : Text)
    → OneLine (signature h)
    → split (rewritten h buf) b'\n' ≡ map (new_line h) (split buf b'\n') ++ signature h ∷ [] ∷ []
unfolding rewritten
lines_lem h buf l =
    split-new_lines h (split buf b'\n') (signature h ++ b'\n' ∷ []) (split-Lacks_sep buf b'\n')
    ∙ ap (λ x. map (new_line h) (split buf b'\n') ++ x) (signature_line h l)

any-append :
    {A : Type 0} (p : A → Bool) (xs ys : List A) → any p ys ≡ true → any p (xs ++ ys) ≡ true
any-append p [] ys e = e
any-append p (x ∷ xs) ys e = ground (arith, any-append p xs ys)

rewritten-is_set :
    (h : NfsHost) (buf : Text) → OneLine (signature h) → is_set h (rewritten h buf) ≡ true
unfolding is_set
rewritten-is_set h buf l = rw (lines_lem h buf l) (
    any-append (λ line. has_prefix line (signature h)) (map (new_line h) (split buf b'\n'))
      (signature h ∷ [] ∷ []) (rw (self (signature h)) refl))
  where
    self : (s : Text) → has_prefix s s ≡ true
    self s = ap (λ x. has_prefix x s) (sym (append-nil s)) ∙ has_prefix-append s []

-- Where it succeeds, what is left is set and passes the check, and the service is served again.
set_up_inv :
    (h : NfsHost) (buf t : Text)
    → OneLine (signature h)
    → set_up h buf ≡ (t, none)
    → (is_set h t ≡ true) × ((t ≡ buf) ⊎ (t ≡ rewritten h buf)) × (set_up h t ≡ (t, none))
unfolding set_up serves
set_up_inv h buf t l e = elim (Bool-cases (is_set h buf)) [
  | inl s ↦ ground arith
  | inr s ↦ ground (arith, rewritten-is_set h buf l)
]

abbrev pub contents : Option Text → Text
contents none = []
contents (some t) = t

-- If `nfsSetup` succeeds, the home directory is exported and a second call succeeds and changes
-- nothing. The file is as it was, or its lines are the old ones in their order, those of an earlier
-- release emptied, then the export and an empty line.
pub nfs_setup_twice :
    (h : NfsHost) (file : Option Text) (t : Text)
    → Lacks b'\n' (signature h)
    → nfs_setup h file ≡ (some t, none)
    → (is_set h t ≡ true)
      × (nfs_setup h (some t) ≡ (some t, none))
      × ((t ≡ contents file)
          ⊎ (split t b'\n'
              ≡ map (new_line h) (split (contents file) b'\n') ++ signature h ∷ [] ∷ []))
unfolding nfs_setup
nfs_setup_twice h file t l e =
    let (s, w, again) = set_up_inv h (contents file) t l (inner file e) in
    (
      s,
      ap (λ r. (some r.0, r.1)) again,
      elim w [ inl q ↦ inl q | inr q ↦ inr (rw q (lines_lem h (contents file) l)) ],
    )
  where
    inner : (f : Option Text) → nfs_setup h f ≡ (some t, none) → set_up h (contents f) ≡ (t, none)
    inner none q = ground arith
    inner (some b) q = ground arith
