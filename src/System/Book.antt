-- ===== src/System/Book.antt =====
-- components/server: the whole server, as a book of UUIDs and names.
use mathlib.Core.Path.{subst}
use corectl.Base.{
  ℕ, Bool, true, false, Bool-cases, Option-cases, inl, inr, ◌⊎◌, Option, none, some, [], ◌∷◌, ◌++◌,
  Text, codes, ◌≡◌, ◌≢◌, refl, sym, ap, ◌∙◌, ◌=t◌, All, arith, lookup, insert, lookup-insert,
  if◌then◌else◌, err,
}
use corectl.Daemon.{Daemon, Error, server_shutting_down}
use corectl.Lifecycle.{with_channels}
use corectl.Lifecycle.Entry.{enter, entered, after_register, stamped}
use corectl.Registry.{Active}
use corectl.Registry.Change.{Change, Held, All_lookup, change-Within}
use corectl.Registry.Spec.{Apart-lookup}
use corectl.Registry.Unique.{Apart, IsUnique, register_outcome, insert_fresh, lookup-Apart}
use corectl.System.Moves.{Moves}
use corectl.Vm.{Vm}

-- The name of the VM with a UUID, if there is one.
abbrev name_of : Option Vm → Option Text
name_of none = none
name_of (some v) = some v.name

names : Active → Text → Option Text
names m k = name_of (lookup k m)

abbrev noted : Text → Text → (Text → Option Text) → Text → Option Text
noted uuid name f k = if uuid =t k then some name else f k

-- What is seen of the server: who is registered, and whether it takes requests.
pub record Book : Type 0 where
  pub names : Text → Option Text
  pub is_open : Bool

-- The promise: entries are only taken out, and the book only closed; but while it is open, a VM may
-- be entered whose name is not reserved, and whose UUID and name are in no entry.
pub data BookStep (b c : Book) : Type 0 where
  shrinks :
      ((k n : Text) → c.names k ≡ some n → b.names k ≡ some n)
      → (c.is_open ≡ b.is_open) ⊎ (c.is_open ≡ false)
      → BookStep b c
  admits :
      (uuid name : Text)
      → b.is_open ≡ true
      → name ≢ codes "corectld"
      → b.names uuid ≡ none
      → ((k : Text) → b.names k ≢ some name)
      → ((k : Text) → c.names k ≡ noted uuid name b.names k)
      → c.is_open ≡ b.is_open
      → BookStep b c

pub data BookRun : Book → Book → Type 0 where
  done : (b : Book) → BookRun b b
  next : (b c d : Book) → BookStep b c → BookRun c d → BookRun b d

names-insert :
    (uuid : Text) (v : Vm) (m : Active) (k : Text)
    → names (insert uuid v m) k ≡ noted uuid v.name (names m) k
unfolding names
names-insert uuid v m k = ground (arith, lookup-insert uuid k v m)

names_of :
    (m : Active) (k n : Text) → names m k ≡ some n → (v : Vm) × (lookup k m ≡ some v) × (v.name ≡ n)
unfolding names
names_of m k n e = elim (Option-cases (lookup k m)) [
  | inl t ↦ absurd (ground arith)
  | inr (v, t) ↦ (v, t, ground arith)
]

names_at : (m : Active) (k : Text) (v : Vm) → lookup k m ≡ some v → names m k ≡ some v.name
unfolding names
names_at m k v e = ap name_of e

names_none : (m : Active) (k : Text) → lookup k m ≡ none → names m k ≡ none
unfolding names
names_none m k e = ap name_of e

change-names :
    (m n : Active)
    → Change m n
    → IsUnique m
    → (k x : Text) → names n k ≡ some x
    → names m k ≡ some x
change-names m n c u k x e =
    let (v, p, q) = names_of n k x e in
    let (w, r, t) = All_lookup (Held m) k v n (change-Within m n c u) p in
    names_at m k w r ∙ ap (λ y. some y) (t ∙ q)

-- Twice under one UUID is as once.
noted_again :
    (uuid name : Text) (f g : Text → Option Text) (k : Text)
    → g k ≡ noted uuid name f k
    → noted uuid name g k ≡ noted uuid name f k
noted_again uuid name f g k e = ground arith

-- The map once a VM that is like no other is registered.
added : Vm → Active → Active
added vm m = m ++ (vm.uuid, with_channels vm) ∷ []

added-names :
    (vm : Vm) (m : Active) (k : Text)
    → All (Apart (with_channels vm)) m
    → names (added vm m) k ≡ noted vm.uuid vm.name (names m) k
unfolding added
added-names vm m k a =
    subst (λ n. names n k ≡ noted vm.uuid vm.name (names m) k) (insert_fresh (with_channels vm) m a)
      (names-insert vm.uuid (with_channels vm) m k)

module _ {V : Type 0} where
  pub book : Daemon V → Book
  book d = record { names = names d.active; is_open = d.accepting_requests }

  unchanged : (d : Daemon V) → BookStep (book d) (book d)
  unchanged d = shrinks (λ k n e. e) (inl refl)

  pub Moves-BookStep : (d e : Daemon V) → IsUnique d.active → Moves d e → BookStep (book d) (book e)
  unfolding book
  Moves-BookStep d e u m = shrinks (change-names d.active e.active m.change u) m.accepting

  fresh-names :
      (made : Bool) (now : ℕ) (vm : Vm) (d : Daemon V) (k : Text)
      → All (Apart (with_channels vm)) d.active
      → names (after_register made now vm d (added vm d.active, none)).0.active k
        ≡ noted vm.uuid vm.name (names d.active) k
  unfolding after_register
  fresh-names false now vm d k a = added-names vm d.active k a
  fresh-names true now vm d k a =
      names-insert vm.uuid (stamped now vm) (added vm d.active) k
      ∙ noted_again vm.uuid vm.name (names d.active) (names (added vm d.active)) k
          (added-names vm d.active k a)

  after_register-open :
      (made : Bool) (now : ℕ) (vm : Vm) (d : Daemon V) (r : Active × Option Error)
      → (after_register made now vm d r).0.accepting_requests ≡ d.accepting_requests
  unfolding after_register
  after_register-open made now vm d (m, some e) = refl
  after_register-open false now vm d (m, none) = refl
  after_register-open true now vm d (m, none) = refl

  fresh-BookStep :
      (made : Bool) (now : ℕ) (vm : Vm) (d : Daemon V)
      → d.accepting_requests ≡ true
      → vm.name ≢ codes "corectld"
      → All (Apart (with_channels vm)) d.active
      → BookStep (book d) (book (after_register made now vm d (added vm d.active, none)).0)
  unfolding book
  fresh-BookStep made now vm d t n a =
      admits vm.uuid vm.name t n
        (names_none d.active vm.uuid (Apart-lookup (with_channels vm) d.active a))
        (λ k e.
          let (w, p, q) = names_of d.active k vm.name e in
          lookup-Apart (with_channels vm) w k d.active a p (sym q))
        (λ k. fresh-names made now vm d k a)
        (after_register-open made now vm d (added vm d.active, none))

  refused :
      (made : Bool) (now : ℕ) (vm : Vm) (d : Daemon V)
      → d.accepting_requests ≡ false
      → enter made now vm d ≡ (d, err server_shutting_down)
  unfolding enter
  refused made now vm d f = rw f refl

  kept :
      (made : Bool) (now : ℕ) (vm : Vm) (d : Daemon V) (x : Error)
      → BookStep (book d) (book (after_register made now vm d (d.active, some x)).0)
  unfolding after_register book
  kept made now vm d x = shrinks (λ k n e. e) (inl refl)

  pub enter-BookStep :
      (made : Bool) (now : ℕ) (vm : Vm) (d : Daemon V)
      → BookStep (book d) (book (enter made now vm d).0)
  unfolding added
  enter-BookStep made now vm d = elim (Bool-cases d.accepting_requests) [
    | inr f ↦
        subst (λ r. BookStep (book d) (book r.0)) (sym (refused made now vm d f)) (unchanged d)
    | inl t ↦ elim (register_outcome (with_channels vm) d.active) [
      | inl (n, a, e) ↦
          subst (λ r. BookStep (book d) (book r.0)) (sym (entered made now vm d t _ e))
            (fresh-BookStep made now vm d t n a)
      | inr (inl (n, e)) ↦
          subst (λ r. BookStep (book d) (book r.0)) (sym (entered made now vm d t _ e))
            (kept made now vm d _)
      | inr (inr (n, a, e)) ↦
          subst (λ r. BookStep (book d) (book r.0)) (sym (entered made now vm d t _ e))
            (kept made now vm d _)
    ]
  ]
