-- ===== src/Startup/Ends.antt =====
-- components/server/server.go: whether `Start` ends.
use corectl.Base.{Option, ◌≡◌, ◌≢◌, Outcome, hangs, panics}
use corectl.Daemon.{Daemon, Error}
use corectl.Startup.{Api, serving}

-- It does not wait for ever, and if the API's server serves it does not panic.
pub record Ends (api : Api) (o : Outcome (Option Error)) : Type 0 where
  pub stops : o ≢ hangs
  pub calm : api ≡ serving → o ≢ panics
