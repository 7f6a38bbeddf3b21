-- ===== src/Cli.antt =====
-- cmd: the tests that the command line makes before it asks the server, and the queries of `kill`
-- and `panic`.
pub mod Entry
pub mod Rights
pub mod Slices
pub mod Targets
use corectl.Base.{
  ℕ, Bool, true, false, not, ◌&&◌, ◌||◌, Option, none, some, List, [], ◌∷◌, ◌++◌, Text, codes, ◌=t◌,
  has_prefix, split, length, ◌==◌, if◌then◌else◌, Outcome,
}
use corectl.Daemon.{Daemon, Error}
use corectl.Shutdown.{Host, Stopped, stop_vms}

-- `strings.Replace(x, "b", "", -1)`
unfoldable pub remove_byte : ℕ → Text → Text
remove_byte b [] = []
remove_byte b (c ∷ s) = let rest = remove_byte b s in if c == b then rest else c ∷ rest

-- `strip` of one element
unfoldable pub strip : Text → Text
unfolding remove_byte
strip x = remove_byte b'[' (remove_byte b']' x)

-- `viperStringSliceBugWorkaround`
unfoldable pub slices : List Text → List Text
unfolding strip
slices [] = []
slices (x ∷ xs) = split (strip x) b',' ++ slices xs

-- The `PreRunE` of `kill` and `panic`: the flag `--all` or `--random` and no argument, or one
-- argument.
unfoldable pub accepts_targets : Bool → List Text → Bool
accepts_targets flag args = if flag then length args == 0 else length args == 1

-- `in.Input` of the query.
unfoldable pub input_of : Bool → List Text → List Text
input_of flag args = if flag then [] else args

-- `killCmd` and `panicCmd` up to the service: `none` where the arguments are refused.
unfoldable pub kill_command :
    {V : Type 0} → Host → ℕ → Bool → List Text → Daemon V → Option (Outcome Stopped)
unfolding accepts_targets input_of
kill_command h pick all args d =
    if accepts_targets all args then some (stop_vms h pick false (input_of all args) d) else none

unfoldable pub panic_command :
    {V : Type 0} → Host → ℕ → Bool → List Text → Daemon V → Option (Outcome Stopped)
unfolding accepts_targets input_of
panic_command h pick random args d =
    if accepts_targets random args
    then some (stop_vms h pick true (input_of random args) d)
    else none

-- `defaultPreRunE`
unfoldable pub accepts_none : List Text → Bool
accepts_none args = length args == 0

-- How `PersistentPreRunE` ends.
pub data PreRun : Type 0 where
  too_many_rights not_enough_rights owner_unset : PreRun
  context_failed layout_failed : PreRun
  goes_on : PreRun

-- Whether the network's context could be set, and then the layout on disk.
unfoldable pub prepare : Text → Bool → Bool → PreRun
prepare name context layout =
    if has_prefix name (codes "genM") || (name =t codes "version")
    then goes_on
    else if not context
    then context_failed
    else if layout
    then goes_on
    else layout_failed

-- `PersistentPreRunE`: whether this is `corectld`, whether the caller is root, the command's name,
-- whether the user of `--user` exists, and the two steps that follow.
unfoldable pub pre_run : Bool → Bool → Text → Bool → Bool → Bool → PreRun
unfolding prepare
pre_run server privileged name user context layout =
    let rest = prepare name context layout in
    if not server
    then (if privileged then too_many_rights else rest)
    else if not privileged
    then (if name =t codes "uuid2mac" then not_enough_rights else rest)
    else if name =t codes "uuid2mac"
    then goes_on
    else if name =t codes "start"
    then (if user then rest else owner_unset)
    else too_many_rights
