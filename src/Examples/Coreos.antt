-- ===== src/Examples/Coreos.antt =====
-- Tests of channels and versions at concrete names.
use corectl.Base.{[], ◌∷◌, codes, some, ok, err, ◌≡◌, refl, split, has_prefix, ◌=t◌}
use corectl.Coreos.{Response, answered, latest_upstream, scan_lines, contains}
use corectl.Daemon.{other}

-- What the server of the images sends.
abbrev page : Response
page = answered 200 (codes "COREOS_BUILD=1000" ∷ codes "COREOS_VERSION=1000.1.0" ∷ [])

reads_version : latest_upstream page ≡ some (ok (codes "1000.1.0"))
unfolding latest_upstream scan_lines contains split has_prefix ◌=t◌
reads_version = refl

not_found : latest_upstream (answered 404 []) ≡ some (err other)
unfolding latest_upstream
not_found = refl
