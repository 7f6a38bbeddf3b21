-- ===== src/Examples/Nfs.antt =====
-- The theorem on the exports at one host.
use corectl.Base.{
  [], ◌∷◌, ◌++◌, true, none, some, ◌≡◌, ◌⊎◌, refl, codes, arith, Text, split, map, has_prefix,
}
use corectl.Nfs.{NfsHost, nfs_setup, is_set, signature, new_line, rewritten}
use corectl.Nfs.Again.{nfs_setup_twice}

abbrev host : NfsHost
host = record {
  home = codes "/Users/a";
  base = codes "192.168.64.0";
  mask = codes "255.255.255.0";
  readable = true;
  writable = true;
  checks = λ t. true;
  is_running = true;
  updates = true;
  starts = true;
}

abbrev old : Text
old = codes "/Users -network 192.168.64.0 -mask 255.255.255.0 -alldirs -mapall=501:20"

nfs_setup_twice_example :
    (is_set host (rewritten host old) ≡ true)
    × (nfs_setup host (some (rewritten host old)) ≡ (some (rewritten host old), none))
    × ((rewritten host old ≡ old)
        ⊎ (split (rewritten host old) b'\n'
            ≡ map (new_line host) (split old b'\n') ++ signature host ∷ [] ∷ []))
unfolding nfs_setup is_set signature has_prefix split
nfs_setup_twice_example = nfs_setup_twice host (some old) (rewritten host old) (omega arith) refl
