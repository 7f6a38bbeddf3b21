-- ===== src/Cli/Rights.antt =====
-- cmd/main.go: who may run what.
use corectl.Base.{Bool, true, false, ◌⊎◌, inl, Text, codes, ◌≡◌, ◌≢◌, refl, arith, =t_iff}
use corectl.Cli.{goes_on, pre_run}

-- A command that goes on is one of the client, or of the server but `uuid2mac`, that root does not
-- run; or it is `uuid2mac` or `start` of the server and root runs it, `start` for a user that exists.
pub pre_run_lem :
    (server privileged : Bool) (name : Text) (user context layout : Bool)
    → pre_run server privileged name user context layout ≡ goes_on
    → ((privileged ≡ false) × ((server ≡ false) ⊎ (name ≢ codes "uuid2mac")))
      ⊎ ((privileged ≡ true)
          × (server ≡ true)
          × ((name ≡ codes "uuid2mac") ⊎ ((name ≡ codes "start") × (user ≡ true))))
unfolding pre_run
pre_run_lem false true name user context layout e = absurd (cc)
pre_run_lem false false name user context layout e = inl (refl, inl refl)
pre_run_lem true false name user context layout e = ground (arith, =t_iff name (codes "uuid2mac"))
pre_run_lem true true name user context layout e =
    ground (arith, =t_iff name (codes "uuid2mac"), =t_iff name (codes "start"))
