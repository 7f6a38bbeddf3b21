-- ===== src/Examples/Archive.antt =====
-- The theorem on archives at a concrete archive, and tests.
use corectl.Base.{
  [], ◌∷◌, ◌++◌, List, none, some, ◌≡◌, refl, codes, Bool, ◌=t◌, map, select, err, ok,
}
use corectl.Archive.{Header, Member, dir, reg, write_to_file, write_dir, copy_members}
use corectl.Archive.Copies.{
  header, content, copy, pieces, is_kept, copy_lem, log_header, log_content,
}
use corectl.Daemon.{other}

abbrev is_last : Header → Bool
is_last h = h.name =t codes "TRAILER!!!"

abbrev here : Member
here = record {
  header = record { name = codes "."; mode = 493; mtime = 0; size = 0; file_type = dir };
  content = [];
  broken = none;
}

abbrev etc : Header
etc = record { name = codes "etc"; mode = 493; mtime = 7; size = 0; file_type = dir }

abbrev motd : Header
motd = record { name = codes "etc/motd"; mode = 420; mtime = 7; size = 2; file_type = reg }

abbrev members : List Member
members =
    here
    ∷ record { header = etc; content = []; broken = none }
    ∷ record { header = motd; content = codes "hi"; broken = none }
    ∷ []

abbrev trailer : Member
trailer = record {
  header = record { name = codes "TRAILER!!!"; mode = 0; mtime = 0; size = 0; file_type = reg };
  content = [];
  broken = none;
}

copy_lem_example :
    let out = [] ++ pieces (select is_kept members) in
    (copy is_last (map ok members ++ ok trailer ∷ []) [] ≡ (out, none))
    × (copy is_last (map ok members ++ err other ∷ []) [] ≡ (out, some other))
    × (copy is_last (map ok members) [] ≡ (out, some other))
unfolding ◌=t◌
copy_lem_example =
    copy_lem is_last members trailer [] other [] ((refl, refl), ((refl, refl), ((refl, refl), tt)))
      refl

copied :
    copy is_last (map ok members ++ ok trailer ∷ []) []
    ≡ (header etc ∷ header motd ∷ content (codes "hi") ∷ [], none)
unfolding copy_members ◌=t◌
copied = refl

-- The members that `WriteDir` and `WriteToFile` write are those.
written :
    write_to_file log_header log_content 7
      (codes "hi")
      (codes "etc/motd")
      420
      (write_dir log_header log_content 7 (codes "etc") 493 []).0
    ≡ (header etc ∷ header motd ∷ content (codes "hi") ∷ [], none)
unfolding write_to_file write_dir
written = refl
