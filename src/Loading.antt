-- ===== src/Loading.antt =====
-- cmd/load.go: `loadCommand`. A profile is what viper reads from the file, with its keys in small
-- letters; a value that is not a table is given by its text.
pub mod Definition
pub mod Sorted
use corectl.Base.{
  ℕ, Bool, true, false, ◌||◌, not, Option, none, some, List, [], ◌∷◌, Text, codes, ◌=t◌, ltb,
  length, ◌==◌, has_suffix, insert, lookup, if◌then◌else◌, Result, ok, err,
}
use corectl.Daemon.{Error, server_unreachable, other}

-- The formats, by the suffix of the file's name.
pub data Format : Type 0 where
  toml json yaml : Format

unfoldable pub format_of : Text → Option Format
format_of def =
    if has_suffix def (codes ".toml")
    then some toml
    else if has_suffix def (codes ".json")
    then some json
    else if has_suffix def (codes ".yaml") || has_suffix def (codes ".yml")
    then some yaml
    else none

-- The comparison of `sort.Strings`, and the sort.
unfoldable pub before : Text → Text → Bool
before [] [] = false
before [] (b ∷ t) = true
before (a ∷ s) [] = false
before (a ∷ s) (b ∷ t) = let rest = before s t in if a == b then rest else ltb a b

unfoldable pub insert_sorted : Text → List Text → List Text
unfolding before
insert_sorted t [] = t ∷ []
insert_sorted t (u ∷ us) =
    let rest = insert_sorted t us in if before u t then u ∷ rest else t ∷ u ∷ us

unfoldable pub sort : List Text → List Text
unfolding insert_sorted
sort [] = []
sort (t ∷ ts) = insert_sorted t (sort ts)

abbrev pub after_boot : Text → Option Error → List Text × Option Error → List Text × Option Error
after_boot t none rest = (t ∷ rest.0, rest.1)
after_boot t (some e) rest = (t ∷ [], some e)

-- The boots, in their order, up to the first that fails: the names that were tried, and the error.
unfoldable pub boot_each : (Text → Option Error) → List Text → List Text × Option Error
boot_each boot [] = ([], none)
boot_each boot (t ∷ ts) = let rest = boot_each boot ts in after_boot t (boot t) rest

-- A setting of the file: a table, or a value.
pub data Setting : Type 0 where
  table : List (Text × Text) → Setting
  plain : Text → Setting

abbrev pub Settings : Type 0
Settings = List (Text × Setting)

-- The calls of `Set` for the keys of a map, which it visits in any order.
unfoldable pub set_all : Settings → Settings → Settings
set_all [] def = def
set_all ((k, v) ∷ l) def = insert k v (set_all l def)

abbrev pub plain_all : List (Text × Text) → Settings
plain_all [] = []
plain_all ((k, v) ∷ l) = (k, plain v) ∷ plain_all l

-- The definition of a VM: the flags' defaults, every setting of the file, those of its own table,
-- and its name. The test in the loop over the settings reads the kind of the key, which is never
-- that of a map, so the tables of the file are set too.
unfoldable pub define : Settings → Settings → Text → List (Text × Text) → Settings
unfolding set_all
define defaults file name own =
    insert (codes "name") (plain name) (set_all (plain_all own) (set_all file defaults))

-- The loop over the settings: a definition for each table.
unfoldable pub definitions : Settings → Settings → Settings → List (Text × Settings)
unfolding define
definitions defaults file [] = []
definitions defaults file ((name, plain v) ∷ l) = definitions defaults file l
definitions defaults file ((name, table own) ∷ l) =
    (name, define defaults file name own) ∷ definitions defaults file l

abbrev pub names : List (Text × Settings) → List Text
names [] = []
names ((k, v) ∷ m) = k ∷ names m

-- What `loadCommand` gets: whether the server answers, the file, what viper makes of it, and what
-- `vmBootstrap` and `bootIt` answer for the VM that a name defines.
pub record World : Type 0 where
  pub running : Option Error
  pub read_file : Result Error Text
  pub read_config : Format → Text → Result Error Settings
  pub boot : Settings → Option Error

abbrev pub Loaded : Type 0
Loaded = List Text × Option Error

-- `vmDefs[name]`, booted; the names are those of the map.
unfoldable pub boot_named : World → List (Text × Settings) → Text → Option Error
boot_named w defs name = elim (lookup name defs) [ none ↦ some other | some d ↦ w.boot d ]

unfoldable pub boot_all : World → List (Text × Settings) → Loaded
unfolding sort boot_each boot_named
boot_all w defs = boot_each (boot_named w defs) (sort (names defs))

unfoldable pub with_config : World → Settings → Result Error Settings → Loaded
unfolding boot_all definitions
with_config w defaults (err e) = ([], some e)
with_config w defaults (ok file) = boot_all w (definitions defaults file file)

unfoldable pub with_format : World → Settings → Text → Option Format → Loaded
unfolding with_config
with_format w defaults f none = ([], some other)
with_format w defaults f (some format) = with_config w defaults (w.read_config format f)

unfoldable pub with_file : World → Settings → Text → Result Error Text → Loaded
unfolding with_format format_of
with_file w defaults def (err e) = ([], some e)
with_file w defaults def (ok f) = with_format w defaults f (format_of def)

abbrev pub if_running : Option Error → Loaded → Loaded
if_running (some e) later = ([], some server_unreachable)
if_running none later = later

-- `loadCommand`: the names of the VMs that it tried to boot, and its error
unfoldable pub load_command : World → Settings → Text → Loaded
unfolding with_file
load_command w defaults def = if_running w.running (with_file w defaults def w.read_file)

-- the `PreRunE` of `load`
unfoldable pub accepts_one : List Text → Bool
accepts_one args = length args == 1
