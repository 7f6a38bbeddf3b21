-- ===== src/Dns/Paths.antt =====
-- components/server/dns.go: different names have different keys.
use mathlib.Core.List.{reverse, reverse-cons, reverse-reverse, reverse-append}
use corectl.Base.{
  ℕ, List, [], ◌∷◌, ◌++◌, append_assoc, Text, ◌≡◌, ◌≢◌, refl, sym, ap, ◌∙◌, codes, split, join,
  join-split, split-join, split-Lacks_of_Lacks, split-Lacks_sep, split-ne-nil, cons_of_ne_nil,
  trim_suffix, trim_prefix, replace_byte, Lacks, All, All-append, arith,
}
use corectl.Dns.{add_parts, invert_domain, fqdn, forward_key}

slash : List ℕ
slash = b'/' ∷ []

add_parts-join :
    (p : Text) (ps : List Text) (out : Text)
    → add_parts (p ∷ ps) out ≡ out ++ (join (p ∷ ps) (b'/' ∷ []) ++ b'/' ∷ [])
unfolding add_parts join
add_parts-join p [] out = refl
add_parts-join p (q ∷ ps) out = add_parts-join q ps (out ++ (p ++ b'/' ∷ [])) ∙ simp append_assoc

trim_prefix_self : (b : ℕ) (s : Text) → trim_prefix b (b ∷ s) ≡ s
unfolding trim_prefix
trim_prefix_self b s = ground arith

trim_suffix-append : (b : ℕ) (s : Text) → trim_suffix b (s ++ b ∷ []) ≡ s
unfolding trim_suffix
trim_suffix-append b s =
    rw (reverse-append s (b ∷ []), trim_prefix_self b (reverse s)) (reverse-reverse s)

reverse-ne-nil : (ps : List Text) → ps ≢ [] → reverse ps ≢ []
reverse-ne-nil ps h e = h (sym (reverse-reverse ps) ∙ ap reverse e)

-- `invertDomain` joins the labels by slashes, the last label first.
pub invert_domain_lem : (s : Text) → invert_domain s ≡ join (reverse (split s b'.')) (b'/' ∷ [])
unfolding invert_domain
invert_domain_lem s =
    let (p, ps, e) =
      cons_of_ne_nil (reverse (split s b'.')) (reverse-ne-nil _ (split-ne-nil s b'.')) in
    rw (e, add_parts-join p ps []) (trim_suffix-append b'/' (join (p ∷ ps) (b'/' ∷ [])))

All-reverse : (P : Text → Type 0) (ps : List Text) → All P ps → All P (reverse ps)
All-reverse P [] h = tt
All-reverse P (p ∷ ps) h =
    rw (reverse-cons p ps) (All-append P (reverse ps) (p ∷ []) (All-reverse P ps h.1) (h.0, tt))

-- The labels come back from an inverted name that has no slash.
labels_back : (s : Text) → Lacks b'/' s → reverse (split (invert_domain s) b'/') ≡ split s b'.'
labels_back s h =
    let (p, ps, e) =
      cons_of_ne_nil (reverse (split s b'.')) (reverse-ne-nil _ (split-ne-nil s b'.')) in
    let whole : All (Lacks b'/') (reverse (split s b'.')) =
      All-reverse (Lacks b'/') (split s b'.') (split-Lacks_of_Lacks b'/' s b'.' h) in
    rw (invert_domain_lem s, e)
      (ap reverse (split-join p ps b'/' (rw e at whole))
        ∙ ap reverse (sym e)
        ∙ reverse-reverse (split s b'.'))

-- `invertDomain` takes different names to different paths, if they have no slash.
pub invert_domain_injective :
    (s t : Text) → Lacks b'/' s → Lacks b'/' t → invert_domain s ≡ invert_domain t → s ≡ t
invert_domain_injective s t h k e =
    sym (join-split s b'.')
    ∙ ap (λ ps. join ps (b'.' ∷ []))
        (sym (labels_back s h) ∙ (ap (λ x. reverse (split x b'/')) e ∙ labels_back t k))
    ∙ join-split t b'.'

join-Lacks : (b : ℕ) (ps : List Text) → b ≢ b'/' → All (Lacks b) ps → Lacks b (join ps (b'/' ∷ []))
unfolding join
join-Lacks b [] ne h = tt
join-Lacks b (p ∷ []) ne h = h.0
join-Lacks b (p ∷ q ∷ ps) ne h =
    All-append (λ c. c ≢ b) p _ h.0 ((λ e. ne (sym e)), join-Lacks b (q ∷ ps) ne h.1)

replace_byte-Lacks : (old new : ℕ) (s : Text) → Lacks old s → replace_byte old new s ≡ s
unfolding replace_byte
replace_byte-Lacks old new [] h = refl
replace_byte-Lacks old new (c ∷ s) h = ground (arith, replace_byte-Lacks old new s h.1)

-- An inverted name has no dot left, so the replacement that follows it changes nothing.
forward_key_lem : (s : Text) → forward_key s ≡ codes "/skydns/" ++ invert_domain s
unfolding forward_key
forward_key_lem s =
    ap (λ x. codes "/skydns/" ++ x)
      (replace_byte-Lacks b'.' b'/' (invert_domain s) (
        rw (invert_domain_lem s) (
          join-Lacks b'.' (reverse (split s b'.')) (omega arith)
            (All-reverse (Lacks b'.') (split s b'.') (split-Lacks_sep s b'.')))))

append_left_cancel : (p s t : Text) → p ++ s ≡ p ++ t → s ≡ t
append_left_cancel [] s t e = e
append_left_cancel (c ∷ p) s t e = append_left_cancel p s t (cc)

append_right_cancel : (s t p : Text) → s ++ p ≡ t ++ p → s ≡ t
append_right_cancel s t p e =
    sym (reverse-reverse s)
    ∙ ap reverse (
        append_left_cancel (reverse p) (reverse s) (reverse t)
          (sym (reverse-append s p) ∙ ap reverse e ∙ reverse-append t p))
    ∙ reverse-reverse t

-- The records of different hosts have different keys, if no host name has a slash.
pub forward_key_injective :
    (domain a b : Text)
    → Lacks b'/' domain
    → Lacks b'/' a
    → Lacks b'/' b
    → forward_key (fqdn domain a) ≡ forward_key (fqdn domain b)
    → a ≡ b
unfolding fqdn
forward_key_injective domain a b d ha hb e = append_right_cancel a b (b'.' ∷ domain) (
    invert_domain_injective (a ++ b'.' ∷ domain) (b ++ b'.' ∷ domain)
      (All-append (λ c. c ≢ b'/') a (b'.' ∷ domain) ha (omega arith, d))
      (All-append (λ c. c ≢ b'/') b (b'.' ∷ domain) hb (omega arith, d))
      (append_left_cancel (codes "/skydns/") _ _ (sym (forward_key_lem _) ∙ e ∙ forward_key_lem _)))
