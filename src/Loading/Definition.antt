-- ===== src/Loading/Definition.antt =====
-- cmd/load.go: where the settings of a VM come from.
use corectl.Base.{
  Option, none, some, List, [], ◌∷◌, Text, codes, ◌≡◌, refl, ◌∙◌, arith, ◌=t◌, lookup,
  lookup-insert, if◌then◌else◌,
}
use corectl.Loading.{Setting, plain, Settings, set_all, plain_all, define}

-- The first of two settings that is there.
abbrev pub first : Option Setting → Option Setting → Option Setting
first none later = later
first (some v) later = some v

lookup-set_all :
    (j : Text) (l def : Settings) → lookup j (set_all l def) ≡ first (lookup j l) (lookup j def)
unfolding set_all lookup
lookup-set_all j [] def = refl
lookup-set_all j ((k, v) ∷ l) def =
    ground (arith, lookup-insert k j v (set_all l def), lookup-set_all j l def)

-- A VM has the name of its table, and any other setting from its table if it is there, else from
-- the file, and else from the defaults.
pub lookup-define :
    (defaults file : Settings) (name j : Text) (own : List (Text × Text))
    → lookup j (define defaults file name own) ≡ (
        if codes "name" =t j
        then some (plain name)
        else first (lookup j (plain_all own)) (first (lookup j file) (lookup j defaults)))
unfolding define
lookup-define defaults file name j own =
    lookup-insert (codes "name") j (plain name) (set_all (plain_all own) (set_all file defaults))
    ∙ rw (lookup-set_all j (plain_all own) (set_all file defaults), lookup-set_all j file defaults)
        refl
