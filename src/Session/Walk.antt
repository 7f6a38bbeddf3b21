-- ===== src/Session/Walk.antt =====
-- components/host/session/session.go: what the walk of `NormalizeOnDiskLayout` does to the entries.
use corectl.Base.{
  Bool, true, false, ◌||◌, Option, none, some, List, [], ◌∷◌, Text, codes, ◌≡◌, ◌≢◌, refl, ◌∙◌, sym,
  ap, arith, ◌=t◌, =t_iff, =t_ne, ne_of_test, All, Bool-cases, Option-cases, inl, inr, Result, ok,
  err,
}
use corectl.Daemon.{Error}
use corectl.Session.{
  Entry, Caller, Answers, mode_755, exists, config_dir, base_name, fix_entry, is_below, keep_entry,
  after_fix, walk,
}

-- An entry outside the directory, or one that has the permissions and the owner that it should.
pub data IsSettled (c : Caller) (w : Answers) (e : Entry) : Type 0 where
  outside : is_below (config_dir c.home) e.path ≡ false → IsSettled c w e
  inside :
      is_below (config_dir c.home) e.path ≡ true
      → base_name e.path ≢ codes "tty"
      → w.chmod e.path ≡ none
      → w.chown e.path ≡ none
      → e ≡ record e { mode = mode_755; uid = c.uid; gid = c.gid }
      → IsSettled c w e

abbrev fixed : Caller → Entry → Entry
fixed c e = record e { mode = mode_755; uid = c.uid; gid = c.gid }

-- An entry of the directory that was seen without an error.
data IsFixed (c : Caller) (w : Answers) (e : Entry) (o : Option Entry) : Type 0 where
  removed : base_name e.path ≡ codes "tty" → o ≡ none → IsFixed c w e o
  repaired :
      base_name e.path ≢ codes "tty"
      → w.chmod e.path ≡ none
      → w.chown e.path ≡ none
      → o ≡ some (fixed c e)
      → IsFixed c w e o

fix_entry-IsFixed :
    (c : Caller) (w : Answers) (e : Entry) (o : Option Entry)
    → fix_entry c w e ≡ ok o
    → IsFixed c w e o
unfolding fix_entry
fix_entry-IsFixed c w e o p = elim (Bool-cases (base_name e.path =t codes "tty")) [
  | inl t ↦ elim (Option-cases (w.remove e.path)) [
    | inl r ↦ removed ((=t_iff _ _).0 t) (ground arith)
    | inr (x, r) ↦ absurd (ground arith)
  ]
  | inr t ↦ elim (Option-cases (w.chmod e.path)) [
    | inr (x, r) ↦ absurd (ground arith)
    | inl m ↦ elim (Option-cases (w.chown e.path)) [
      | inr (x, r) ↦ absurd (ground arith)
      | inl n ↦ repaired (ne_of_test _ _ t) m n (ground arith)
    ]
  ]
]

-- A step of a walk that succeeded.
step-IsFixed :
    (c : Caller) (w : Answers) (e : Entry) (es : List Entry) (later : List Entry × Option Error)
    (r : Result Error (Option Entry))
    → fix_entry c w e ≡ r
    → (after_fix e es later r).1 ≡ none
    → (o : Option Entry) × IsFixed c w e o
      × (later.1 ≡ none)
      × ((after_fix e es later r).0 ≡ keep_entry o later.0)
unfolding after_fix
step-IsFixed c w e es later (err x) p q = absurd (cc)
step-IsFixed c w e es later (ok o) p q = (o, fix_entry-IsFixed c w e o p, q, refl)

fixed-IsSettled :
    (c : Caller) (w : Answers) (e : Entry) (o : Option Entry) (es : List Entry)
    → is_below (config_dir c.home) e.path ≡ true
    → IsFixed c w e o
    → All (IsSettled c w) es
    → All (IsSettled c w) (keep_entry o es)
fixed-IsSettled c w e o es b (removed t r) h = rw r h
fixed-IsSettled c w e o es b (repaired t m n r) h = rw r (inside b t m n refl, h)

pub walk-IsSettled :
    (c : Caller) (w : Answers) (es : List Entry)
    → (walk c w es).1 ≡ none
    → All (IsSettled c w) (walk c w es).0
unfolding walk
walk-IsSettled c w [] p = tt
walk-IsSettled c w (e ∷ es) p = elim (Bool-cases (is_below (config_dir c.home) e.path)) [
  | inr b ↦ rw b (outside b, walk-IsSettled c w es (rw b at p))
  | inl b ↦
      let (o, f, l, q) = step-IsFixed c w e es (walk c w es) (fix_entry c w e) refl (rw b at p) in
      rw (b, q) (fixed-IsSettled c w e o _ b f (walk-IsSettled c w es l))
]

fix_settled :
    (c : Caller) (w : Answers) (e : Entry)
    → base_name e.path ≢ codes "tty"
    → w.chmod e.path ≡ none
    → w.chown e.path ≡ none
    → fix_entry c w e ≡ ok (some (fixed c e))
unfolding fix_entry
fix_settled c w e t m n = rw (=t_ne _ _ t, m, n) refl

-- A walk of settled entries changes nothing.
pub walk_again :
    (c : Caller) (w : Answers) (es : List Entry) → All (IsSettled c w) es → walk c w es ≡ (es, none)
unfolding walk after_fix
walk_again c w [] h = refl
walk_again c w (e ∷ es) h = elim h.0 [
  | outside b ↦ rw (b, walk_again c w es h.1) refl
  | inside b t m n s ↦
      rw (b, walk_again c w es h.1, fix_settled c w e t m n)
        (ap (λ (x : Entry). (x ∷ es, none)) (sym s))
]

-- What a walk does not remove stays where it is.
keep_exists :
    (c : Caller) (w : Answers) (p : Text) (e : Entry) (o : Option Entry) (es : List Entry)
    → base_name p ≢ codes "tty"
    → IsFixed c w e o
    → (e.path =t p || exists p es) ≡ true
    → exists p (keep_entry o es) ≡ true
unfolding exists
keep_exists c w p e o es n (removed t r) x =
    let q : e.path ≢ p = λ z. n (ap base_name (sym z) ∙ t) in rw r (rw (=t_ne e.path p q) at x)
keep_exists c w p e o es n (repaired t a b r) x = rw r x

pub or_later : (a b c : Bool) → (b ≡ true → c ≡ true) → (a || b) ≡ true → (a || c) ≡ true
or_later true b c f h = refl
or_later false b c f h = f h

pub walk-exists :
    (c : Caller) (w : Answers) (p : Text) (es : List Entry)
    → base_name p ≢ codes "tty"
    → (walk c w es).1 ≡ none
    → exists p es ≡ true
    → exists p (walk c w es).0 ≡ true
unfolding walk exists
walk-exists c w p [] n q x = x
walk-exists c w p (e ∷ es) n q x = elim (Bool-cases (is_below (config_dir c.home) e.path)) [
  | inr b ↦ rw b (or_later (e.path =t p) _ _ (walk-exists c w p es n (rw b at q)) x)
  | inl b ↦
      let (o, f, l, r) = step-IsFixed c w e es (walk c w es) (fix_entry c w e) refl (rw b at q) in
      rw (b, r)
        (keep_exists c w p e o (walk c w es).0 n f
          (or_later (e.path =t p) _ _ (walk-exists c w p es n l) x))
]
