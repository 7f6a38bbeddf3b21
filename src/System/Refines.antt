-- ===== src/System/Refines.antt =====
-- components/server: what is seen of the server changes as its book may change.
use mathlib.Core.Path.{subst}
use corectl.Base.{sym}
use corectl.Coreos.{Semver}
use corectl.System.{State, handle, Reaches, stays, steps}
use corectl.System.Invariant.{IsSound, Step, moves, enters, handle-Step, Reaches-IsSound}
-- The name of the VM with a UUID, if there is one.
use corectl.System.Book.{book, BookStep, BookRun, done, next, Moves-BookStep, enter-BookStep}

module _ (s : Semver) where
  Step-BookStep :
      (a b : State s) → Step s a b → IsSound s a → BookStep (book a.daemon) (book b.daemon)
  Step-BookStep a b (moves m) i = Moves-BookStep a.daemon b.daemon i.unique m
  Step-BookStep a b (enters made now vm e) i =
      subst (λ d. BookStep (book a.daemon) (book d)) (sym e) (enter-BookStep made now vm a.daemon)

  -- However the services, the VMs, their goroutines, the signal handler and `Start` follow one
  -- another, as whole handlers, of which none begins before the one before it has ended (calls of
  -- `register` that overlap are looked at in Registry/Race): seen from outside, the server then does
  -- what the book promises. No VM is entered but by `Run` while the server takes requests, under a
  -- name that is not reserved, and with a UUID and a name that no VM has; and once the server takes
  -- no more requests, entries only go.
  pub Reaches-BookRun :
      (a b : State s) → Reaches s a b → IsSound s a → BookRun (book a.daemon) (book b.daemon)
  Reaches-BookRun _ _ (stays a) i = done (book a.daemon)
  Reaches-BookRun _ _ (steps e a b r) i =
      let c = handle s e a in
      next (book a.daemon) (book c.daemon) (book b.daemon)
        (Step-BookStep a c (handle-Step s e a i) i)
        (Reaches-BookRun c b r (Reaches-IsSound s a c (steps e a c (stays c)) i))
