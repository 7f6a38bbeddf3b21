-- ===== src/Loading/Sorted.antt =====
-- cmd/load.go: the order in which a profile's VMs are booted.
use mathlib.Core.List.{Perm}
use mathlib.Core.List.Perm
use corectl.Base.{
  true, false, Option, none, some, List, [], ◌∷◌, ◌++◌, Text, ◌≡◌, refl, ap, arith, All, Bool-cases,
  Option-cases, inl, inr, Result, ok, err,
}
use corectl.Daemon.{Error}
use corectl.Loading.{
  Format, format_of, before, insert_sorted, sort, boot_each, table, plain, Settings, definitions,
  names, World, boot_named, boot_all, with_config, with_format, with_file, if_running, load_command,
}

before_asym : (s t : Text) → before s t ≡ true → before t s ≡ false
unfolding before
before_asym [] [] e = refl
before_asym [] (b ∷ t) e = refl
before_asym (a ∷ s) [] e = cc
before_asym (a ∷ s) (b ∷ t) e = ground (arith, before_asym s t)

-- No name comes after one that it should precede.
abbrev pub IsSorted : List Text → Type 0
IsSorted [] = Unit
IsSorted (t ∷ []) = Unit
IsSorted (t ∷ u ∷ us) = (before u t ≡ false) × IsSorted (u ∷ us)

IsSorted-tail : (t : Text) (us : List Text) → IsSorted (t ∷ us) → IsSorted us
IsSorted-tail t [] h = tt
IsSorted-tail t (u ∷ us) h = h.1

insert_sorted_after :
    (v t : Text) (us : List Text)
    → before t v ≡ false
    → IsSorted (v ∷ us)
    → IsSorted (v ∷ insert_sorted t us)
unfolding insert_sorted
insert_sorted_after v t [] e h = (e, tt)
insert_sorted_after v t (u ∷ us) e h = elim (Bool-cases (before u t)) [
  | inl b ↦ rw b (h.0, insert_sorted_after u t us (before_asym u t b) h.1)
  | inr b ↦ rw b (e, (b, h.1))
]

insert_sorted-IsSorted : (t : Text) (us : List Text) → IsSorted us → IsSorted (insert_sorted t us)
unfolding insert_sorted
insert_sorted-IsSorted t [] h = tt
insert_sorted-IsSorted t (u ∷ us) h = elim (Bool-cases (before u t)) [
  | inl b ↦ rw b (insert_sorted_after u t us (before_asym u t b) h)
  | inr b ↦ rw b (b, h)
]

pub sort-IsSorted : (ts : List Text) → IsSorted (sort ts)
unfolding sort
sort-IsSorted [] = tt
sort-IsSorted (t ∷ ts) = insert_sorted-IsSorted t (sort ts) (sort-IsSorted ts)

insert_sorted-perm : (t : Text) (us : List Text) → Perm (insert_sorted t us) (t ∷ us)
unfolding insert_sorted
insert_sorted-perm t [] = Perm.refl _
insert_sorted-perm t (u ∷ us) = elim (Bool-cases (before u t)) [
  | inl b ↦ rw b (Perm.trans (Perm.cons u (insert_sorted-perm t us)) (Perm.swap t u us))
  | inr b ↦ rw b (Perm.refl _)
]

pub sort-perm : (ts : List Text) → Perm (sort ts) ts
unfolding sort
sort-perm [] = Perm.refl _
sort-perm (t ∷ ts) = Perm.trans (insert_sorted-perm t (sort ts)) (Perm.cons t (sort-perm ts))

-- Boots that all succeeded.
boot_each_ok :
    (boot : Text → Option Error) (ts : List Text)
    → (boot_each boot ts).1 ≡ none
    → ((boot_each boot ts).0 ≡ ts) × All (λ t. boot t ≡ none) ts
unfolding boot_each
boot_each_ok boot [] e = (refl, tt)
boot_each_ok boot (t ∷ ts) e = elim (Option-cases (boot t)) [
  | inr (x, b) ↦ absurd (ground arith)
  | inl b ↦
      let (p, q) = boot_each_ok boot ts (rw b at e) in
      (rw b (ap (λ (l : List Text). t ∷ l) p), (b, q))
]

-- When a boot fails, the VMs before it in the order were booted, and none after it was tried.
pub boot_each_fails :
    (boot : Text → Option Error) (ts us : List Text) (t : Text) (e : Error)
    → All (λ u. boot u ≡ none) ts
    → boot t ≡ some e
    → boot_each boot (ts ++ t ∷ us) ≡ (ts ++ (t ∷ []), some e)
unfolding boot_each
boot_each_fails boot [] us t e h b = rw b refl
boot_each_fails boot (u ∷ ts) us t e h b = rw (h.0, boot_each_fails boot ts us t e h.1 b) refl

-- The tables of a file.
abbrev pub tables : Settings → List Text
tables [] = []
tables ((name, plain v) ∷ l) = tables l
tables ((name, table own) ∷ l) = name ∷ tables l

names-definitions : (defaults file l : Settings) → names (definitions defaults file l) ≡ tables l
unfolding definitions
names-definitions defaults file [] = refl
names-definitions defaults file ((name, plain v) ∷ l) = names-definitions defaults file l
names-definitions defaults file ((name, table own) ∷ l) =
    ap (λ (x : List Text). name ∷ x) (names-definitions defaults file l)

-- A profile that was loaded: its VMs are booted, each of them, in the alphabetical order.
pub record IsLoaded (w : World) (defaults : Settings) (def : Text) (tried : List Text)
    : Type 0 where
  pub text : Text
  pub format : Format
  pub file : Settings
  pub read : w.read_file ≡ ok text
  pub known : format_of def ≡ some format
  pub parsed : w.read_config format text ≡ ok file
  pub sorted : IsSorted tried
  pub each : Perm tried (tables file)
  pub booted : All (λ t. boot_named w (definitions defaults file file) t ≡ none) tried

with_config-IsLoaded :
    (w : World) (defaults : Settings) (def text : Text) (format : Format)
    (r : Result Error Settings)
    → w.read_file ≡ ok text
    → format_of def ≡ some format
    → w.read_config format text ≡ r
    → (with_config w defaults r).1 ≡ none
    → IsLoaded w defaults def (with_config w defaults r).0
unfolding with_config boot_all
with_config-IsLoaded w defaults def text format (err x) a b c e = absurd (cc)
with_config-IsLoaded w defaults def text format (ok file) a b c e =
    let ds = definitions defaults file file in
    let (p, q) = boot_each_ok (boot_named w ds) (sort (names ds)) e in
    rw p (record {
      text = text;
      format = format;
      file = file;
      read = a;
      known = b;
      parsed = c;
      sorted = sort-IsSorted (names ds);
      each = rw (← names-definitions defaults file file) (sort-perm (names ds));
      booted = q;
    })

with_format-IsLoaded :
    (w : World) (defaults : Settings) (def text : Text) (o : Option Format)
    → w.read_file ≡ ok text
    → format_of def ≡ o
    → (with_format w defaults text o).1 ≡ none
    → IsLoaded w defaults def (with_format w defaults text o).0
unfolding with_format
with_format-IsLoaded w defaults def text none a b e = absurd (cc)
with_format-IsLoaded w defaults def text (some format) a b e =
    with_config-IsLoaded w defaults def text format (w.read_config format text) a b refl e

with_file-IsLoaded :
    (w : World) (defaults : Settings) (def : Text) (r : Result Error Text)
    → w.read_file ≡ r
    → (with_file w defaults def r).1 ≡ none
    → IsLoaded w defaults def (with_file w defaults def r).0
unfolding with_file
with_file-IsLoaded w defaults def (err x) a e = absurd (cc)
with_file-IsLoaded w defaults def (ok text) a e =
    with_format-IsLoaded w defaults def text (format_of def) a refl e

running-IsLoaded :
    (w : World) (defaults : Settings) (def : Text) (o : Option Error)
    → (if_running o (with_file w defaults def w.read_file)).1 ≡ none
    → IsLoaded w defaults def (if_running o (with_file w defaults def w.read_file)).0
running-IsLoaded w defaults def (some x) e = absurd (cc)
running-IsLoaded w defaults def none e = with_file-IsLoaded w defaults def w.read_file refl e

-- When `load` succeeds, the suffix of the file's name told its format, and the VMs that were booted
-- are those of the tables of the file, each as often as there, in alphabetical order, and each
-- without an error.
pub load_command-IsLoaded :
    (w : World) (defaults : Settings) (def : Text)
    → (load_command w defaults def).1 ≡ none
    → IsLoaded w defaults def (load_command w defaults def).0
unfolding load_command
load_command-IsLoaded w defaults def e = running-IsLoaded w defaults def w.running e
