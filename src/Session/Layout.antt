-- ===== src/Session/Layout.antt =====
-- components/host/session/session.go: what `NormalizeOnDiskLayout` makes of the disk.
use mathlib.Core.Path.{subst}
use corectl.Base.{
  Bool, true, false, Option, none, some, List, [], ◌∷◌, ◌++◌, Text, codes, ◌≡◌, ◌≢◌, refl, ◌∙◌, sym,
  ap, arith, ◌=t◌, =t_refl, ne_of_test, All, Lacks, Bool-cases, Option-cases, inl, inr,
  if◌then◌else◌, ◌==◌,
}
use corectl.Daemon.{Error}
use corectl.Session.{
  Entry, Caller, Answers, exists, make_dir, make_dirs, layout, image_store, run_dir, tmp_dir,
  etc_dir, config_dir, base_after, base_name, walk, and_walk, normalize,
}
use corectl.Session.Walk.{IsSettled, walk-IsSettled, walk_again, walk-exists, or_later}

exists-append : (p : Text) (es fs : List Entry) → exists p es ≡ true → exists p (es ++ fs) ≡ true
unfolding exists
exists-append p [] fs h = absurd (cc)
exists-append p (e ∷ es) fs h = or_later (e.path =t p) _ _ (exists-append p es fs) h

exists_last :
    (p : Text) (es : List Entry) (e : Entry) → e.path ≡ p → exists p (es ++ (e ∷ [])) ≡ true
unfolding exists
exists_last p [] e h = rw (h, =t_refl p) refl
exists_last p (d ∷ es) e h = ground (arith, exists_last p es e h)

make_dir-exists :
    (c : Caller) (p q : Text) (es : List Entry)
    → exists p es ≡ true
    → exists p (make_dir c q es) ≡ true
unfolding make_dir
make_dir-exists c p q es h = elim (Bool-cases (exists q es)) [
  | inl t ↦ rw t h
  | inr t ↦ rw t (exists-append p es _ h)
]

make_dir_lem : (c : Caller) (p : Text) (es : List Entry) → exists p (make_dir c p es) ≡ true
unfolding make_dir
make_dir_lem c p es = elim (Bool-cases (exists p es)) [
  | inl t ↦ rw t t
  | inr t ↦ rw t (exists_last p es _ refl)
]

make_dirs-exists :
    (c : Caller) (w : Answers) (p : Text) (ps : List Text) (es : List Entry)
    → exists p es ≡ true
    → exists p (make_dirs c w ps es).0 ≡ true
unfolding make_dirs
make_dirs-exists c w p [] es h = h
make_dirs-exists c w p (q ∷ ps) es h = elim (Option-cases (w.mkdir q)) [
  | inr (x, t) ↦ rw t h
  | inl t ↦ rw t (make_dirs-exists c w p ps (make_dir c q es) (make_dir-exists c p q es h))
]

-- Directories that could be made are there.
make_dirs_made :
    (c : Caller) (w : Answers) (ps : List Text) (es : List Entry)
    → (make_dirs c w ps es).1 ≡ none
    → All (λ p. (w.mkdir p ≡ none) × (exists p (make_dirs c w ps es).0 ≡ true)) ps
unfolding make_dirs
make_dirs_made c w [] es h = tt
make_dirs_made c w (p ∷ ps) es h = elim (Option-cases (w.mkdir p)) [
  | inr (x, t) ↦ absurd (ground arith)
  | inl t ↦
      let made = make_dirs-exists c w p ps (make_dir c p es) (make_dir_lem c p es) in
      let q : make_dirs c w (p ∷ ps) es ≡ make_dirs c w ps (make_dir c p es) = rw t refl in
      let later = make_dirs_made c w ps (make_dir c p es) (sym (ap (λ r. r.1) q) ∙ h) in
      subst
        (λ (r : List Entry × Option Error).
          All (λ x. (w.mkdir x ≡ none) × (exists x r.0 ≡ true)) (p ∷ ps))
        (sym q) ((t, made), later)
]

make_dirs_again :
    (c : Caller) (w : Answers) (ps : List Text) (es : List Entry)
    → All (λ p. (w.mkdir p ≡ none) × (exists p es ≡ true)) ps
    → make_dirs c w ps es ≡ (es, none)
unfolding make_dirs make_dir
make_dirs_again c w [] es h = refl
make_dirs_again c w (p ∷ ps) es h = rw (h.0.0, h.0.1) (make_dirs_again c w ps es h.1)

-- The base of a path that ends in a part without a slash.
base_after_part : (out s : Text) → Lacks b'/' s → base_after out s ≡ out
unfolding base_after
base_after_part out [] h = refl
base_after_part out (c ∷ s) h = ground (arith, base_after_part out s h.1)

base_after_lem : (out p s : Text) → Lacks b'/' s → base_after out (p ++ b'/' ∷ s) ≡ s
unfolding base_after
base_after_lem out [] s h = base_after_part s s h
base_after_lem out (c ∷ p) s h = base_after_lem (if c == b'/' then p ++ b'/' ∷ s else out) p s h

base_name_lem : (p s : Text) → Lacks b'/' s → base_name (p ++ b'/' ∷ s) ≡ s
unfolding base_name
base_name_lem p s h = base_after_lem (p ++ b'/' ∷ s) p s h

named :
    (p s : Text)
    → Lacks b'/' s
    → (s =t codes "tty") ≡ false
    → base_name (p ++ b'/' ∷ s) ≢ codes "tty"
named p s l n e = ne_of_test s (codes "tty") n (sym (base_name_lem p s l) ∙ e)

-- None of the directories of the layout is called tty.
layout_named : (home : Text) → All (λ p. base_name p ≢ codes "tty") (layout home)
unfolding layout image_store run_dir tmp_dir etc_dir ◌=t◌
layout_named home =
    let c = config_dir home in
    (
      named (image_store home) (codes "alpha") (omega arith) refl,
      (
        named (image_store home) (codes "beta") (omega arith) refl,
        (
          named (image_store home) (codes "stable") (omega arith) refl,
          (
            named c (codes "running") (omega arith) refl,
            (
              named c (codes "tmp") (omega arith) refl,
              (named c (codes "embedded.etcd") (omega arith) refl, tt),
            ),
          ),
        ),
      ),
    )

walk-exists_each :
    (c : Caller) (w : Answers) (es : List Entry) (ps : List Text)
    → (walk c w es).1 ≡ none
    → All (λ p. base_name p ≢ codes "tty") ps
    → All (λ p. (w.mkdir p ≡ none) × (exists p es ≡ true)) ps
    → All (λ p. (w.mkdir p ≡ none) × (exists p (walk c w es).0 ≡ true)) ps
walk-exists_each c w es [] q n h = tt
walk-exists_each c w es (p ∷ ps) q n h =
    ((h.0.0, walk-exists c w p es n.0 q h.0.1), walk-exists_each c w es ps q n.1 h.1)

-- What a successful call for root leaves: the directories, and settled entries.
record IsNormal (c : Caller) (w : Answers) (es : List Entry) : Type 0 where
  dirs : All (λ p. (w.mkdir p ≡ none) × (exists p es ≡ true)) (layout c.home)
  settled : All (IsSettled c w) es

and_walk-IsNormal :
    (c : Caller) (w : Answers) (es : List Entry) (r : List Entry × Option Error)
    → c.privileged ≡ true
    → make_dirs c w (layout c.home) es ≡ r
    → (and_walk c w r).1 ≡ none
    → IsNormal c w (and_walk c w r).0
and_walk-IsNormal c w es (ds, some e) h q p = absurd (cc)
and_walk-IsNormal c w es (ds, none) h q p =
    let q' : and_walk c w (ds, none) ≡ walk c w ds =
      ap (λ (b : Bool). if b then walk c w ds else (ds, none)) h in
    let l : (walk c w ds).1 ≡ none = sym (ap (λ r. r.1) q') ∙ p in
    let made =
      subst
        (λ (r : List Entry × Option Error).
          All (λ x. (w.mkdir x ≡ none) × (exists x r.0 ≡ true)) (layout c.home))
        q (make_dirs_made c w (layout c.home) es (ap (λ r. r.1) q)) in
    let kept = walk-exists_each c w ds (layout c.home) l (layout_named c.home) made in
    subst (λ (r : List Entry × Option Error). IsNormal c w r.0) (sym q')
      (record { dirs = kept; settled = walk-IsSettled c w ds l })

normalize-IsNormal :
    (c : Caller) (w : Answers) (es : List Entry)
    → c.privileged ≡ true
    → (normalize c w es).1 ≡ none
    → IsNormal c w (normalize c w es).0
unfolding normalize
normalize-IsNormal c w es h p = and_walk-IsNormal c w es _ h refl p

normal_again :
    (c : Caller) (w : Answers) (es : List Entry)
    → c.privileged ≡ true
    → IsNormal c w es
    → normalize c w es ≡ (es, none)
unfolding normalize
normal_again c w es h n =
    rw (make_dirs_again c w (layout c.home) es n.dirs, h) (walk_again c w es n.settled)

-- When `NormalizeOnDiskLayout` succeeds for root, a second call succeeds and changes nothing.
pub normalize_again :
    (c : Caller) (w : Answers) (es : List Entry)
    → c.privileged ≡ true
    → (normalize c w es).1 ≡ none
    → normalize c w (normalize c w es).0 ≡ ((normalize c w es).0, none)
normalize_again c w es h p = normal_again c w _ h (normalize-IsNormal c w es h p)
