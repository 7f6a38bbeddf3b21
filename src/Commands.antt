-- ===== src/Commands.antt =====
-- cmd: the commands that look VMs up and that remove and pull images.
pub mod Lookup
pub mod Purge
use corectl.Base.{
  ℕ, suc, ◌-◌, Bool, true, false, not, ◌&&◌, ◌||◌, Option, none, some, List, [], ◌∷◌, ◌++◌, Text,
  codes, ◌=t◌, split, length, take, ◌==◌, map, ltb, last?, if◌then◌else◌, Result, ok, err, Outcome,
  returns, hangs, panics, lookup, insert,
}
use corectl.Coreos.{Semver, channel, channels, version}
use corectl.Daemon.{Error, unknown_vm, server_unreachable}
use corectl.Images.{or_empty, newest}
use corectl.Registry.{Active}
use corectl.Vm.{Vm}

-- `vmInfo`, given the answer of `ActiveVMs`: the first VM with that name or UUID.
unfoldable pub vm_info : Text → Active → Result Error Vm
vm_info id [] = err unknown_vm
vm_info id ((k, v) ∷ m) =
    let rest = vm_info id m in if v.name =t id || v.uuid =t id then ok v else rest

-- The VM and the destination of `scpCommand`; `none` is an index out of range.
unfoldable pub scp_target : Text → Option (Text × Text)
scp_target t = elim (split t b':') [
  | [] ↦ none
  | p ∷ ps ↦ elim ps [ [] ↦ none | q ∷ qs ↦ some (p, q) ]
]

-- The VMs that `queryCommand` shows: all, or one after the other those that its arguments name.
unfoldable pub select_vms : List Text → Active → Active → Result Error Active
unfolding vm_info
select_vms [] selected m = ok selected
select_vms (t ∷ ts) selected m = elim (vm_info t m) [
  | err e ↦ err e
  | ok v ↦ select_vms ts (insert v.uuid v selected) m
]

unfoldable pub query_vms : List Text → Active → Result Error Active
unfolding select_vms
query_vms [] m = ok m
query_vms (t ∷ ts) m = select_vms (t ∷ ts) [] m

-- Requests of `RemoveImage` for one channel until one fails: those that were sent, and the error.
unfoldable pub remove_each : (Text → Option Error) → List Text → List Text × Option Error
remove_each remove [] = ([], none)
remove_each remove (t ∷ ts) =
    let rest = remove_each remove ts in
    elim (remove t) [ none ↦ (t ∷ rest.0, rest.1) | some e ↦ (t ∷ [], some e) ]

module _ (s : Semver) where
  -- The branch of `rmCommand` for old images: all but the last one. Of no image at all the slice is
  -- out of range.
  unfoldable pub purge : (Text → Option Error) → List s.Version → Outcome (List Text × Option Error)
  unfolding remove_each
  purge remove [] = panics
  purge remove (v ∷ vs) =
      returns (remove_each remove (map s.string (take (length (v ∷ vs) - 1) (v ∷ vs))))

  remove_one : (Text → Option Error) → Text → List Text × Option Error
  remove_one remove t = (t ∷ [], remove t)

  -- `rmCommand`, given the answer of `AvailableImages`.
  unfoldable pub rm_command :
      (Text → Text → Option Error)
      → Bool
      → Text
      → Text
      → List (Text × List s.Version)
      → Outcome (List Text × Option Error)
  unfolding purge remove_one
  rm_command remove old channel_flag version_flag images =
      let c = channel channel_flag in
      let v = version s version_flag in
      let l = or_empty (lookup c images) in
      if old
      then purge (remove c) l
      else if v =t codes "latest"
      then elim (newest s l) [
        | none ↦ returns ([], none)
        | some t ↦ returns (remove_one (remove c) t)
      ]
      else returns (remove_one (remove c) v)

  -- The loop of `pullCommand` for `--warmup`: the channels that have an image, until one fails.
  unfoldable pub warm_up :
      (Text → Text → Option Error)
      → List Text
      → List (Text × List s.Version)
      → List Text × Option Error
  warm_up pull [] images = ([], none)
  warm_up pull (c ∷ cs) images =
      let rest = warm_up pull cs images in
      if ltb 0 (length (or_empty (lookup c images)))
      then elim (pull c (codes "latest")) [
        | none ↦ (c ∷ rest.0, rest.1)
        | some e ↦ (c ∷ [], some e)
      ]
      else rest

  -- `pullCommand`: the channels that it pulls from, and the error.
  unfoldable pub pull_command :
      (Text → Text → Option Error)
      → Bool
      → Text
      → Text
      → List (Text × List s.Version)
      → List Text × Option Error
  unfolding warm_up
  pull_command pull warmup channel_flag version_flag images =
      let c = channel channel_flag in
      if warmup then warm_up pull channels images else (c ∷ [], pull c (version s version_flag))
