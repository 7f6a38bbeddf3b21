-- ===== src/Examples/Commands.antt =====
-- The theorem on the removal of old images at three versions.
use corectl.Base.{[], ◌∷◌, none, some, ◌≡◌, refl, codes, Text, returns, Option}
use corectl.Commands.{purge}
use corectl.Commands.Purge.{purge_lem, remove_all}
use corectl.Daemon.{Error}
use corectl.Examples.{plain}

abbrev server : Text → Option Error
server t = none

purge_lem_example :
    (purge plain server (codes "1.0.0" ∷ codes "2.0.0" ∷ codes "3.0.0" ∷ [])
      ≡ returns (codes "1.0.0" ∷ codes "2.0.0" ∷ [], none))
    × (remove_all plain
          (codes "1.0.0" ∷ codes "2.0.0" ∷ [])
          (codes "1.0.0" ∷ codes "2.0.0" ∷ codes "3.0.0" ∷ [])
        ≡ some (codes "3.0.0" ∷ []))
purge_lem_example =
    purge_lem plain server (codes "1.0.0" ∷ codes "2.0.0" ∷ [])
      (codes "1.0.0" ∷ codes "2.0.0" ∷ codes "3.0.0" ∷ []) (codes "3.0.0") (λ t. refl) refl
