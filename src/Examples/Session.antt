-- ===== src/Examples/Session.antt =====
-- The theorems on the session at a concrete network and disk.
use corectl.Base.{true, none, List, [], ◌∷◌, codes, ◌≡◌, refl, ◌=t◌, has_prefix}
use corectl.Session.{
  Entry, Caller, Answers, normalize, make_dirs, make_dir, exists, layout, image_store, run_dir,
  tmp_dir, etc_dir, config_dir, walk, after_fix, fix_entry, is_below, base_name,
}
use corectl.Session.Layout.{normalize_again}

abbrev root : Caller
root = record {
  privileged = true;
  home = codes "/Users/core";
  uid = 501;
  gid = 20;
  process_uid = 0;
  process_gid = 0;
}

abbrev willing : Answers
willing = record { mkdir = λ p. none; remove = λ p. none; chmod = λ p. none; chown = λ p. none }

-- A terminal that a VM has left, and a file outside.
abbrev disk : List Entry
disk =
    record { path = codes "/Users/core/.coreos/running/A1/tty"; mode = 420; uid = 0; gid = 0 }
    ∷ record { path = codes "/Users/core/.coreos/images/a"; mode = 420; uid = 0; gid = 0 }
    ∷ record { path = codes "/etc/hosts"; mode = 420; uid = 0; gid = 0 }
    ∷ []

normalize_again_example :
    normalize root willing (normalize root willing disk).0 ≡ ((normalize root willing disk).0, none)
unfolding normalize make_dirs make_dir exists layout image_store run_dir tmp_dir etc_dir config_dir
    walk after_fix fix_entry is_below base_name ◌=t◌ has_prefix
normalize_again_example = normalize_again root willing disk refl refl
