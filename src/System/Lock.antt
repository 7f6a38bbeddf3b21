-- ===== src/System/Lock.antt =====
-- components/server: steps while the server's lock can be had.
use corectl.Base.{
  if◌then◌else◌, ap, Bool, true, false, Bool-cases, inl, inr, List, [], ◌∷◌, Option, ◌≡◌, refl, ◌∙◌,
  if_elim, Outcome, returns, hangs, panics,
}
use corectl.Coreos.{Semver}
use corectl.Daemon.{Error}
use corectl.System.{
  State, Event, lives, catches_signal, api_reports, receives, after_send, after_receipt, asks_lock,
  act, wait, handle,
}
use corectl.Vm.{Chan}

module _ (s : Semver) where
  pub handle_free : (e : Event s) (a : State s) → a.locked ≡ false → handle s e a ≡ act s e a
  unfolding handle
  handle_free e a f = rw f refl

  after_send-locked :
      (a : State s) (r : Outcome (Chan (Option Error))) → (after_send s a r).locked ≡ a.locked
  after_send-locked a (returns c) = refl
  after_send-locked a hangs = refl
  after_send-locked a panics = refl

  after_receipt-locked :
      (a : State s) (b : Bool) (es : List (Option Error))
      → (after_receipt s a b es).locked ≡ a.locked
  after_receipt-locked a true [] = refl
  after_receipt-locked a true (e ∷ es) = refl
  after_receipt-locked a false es = refl

  wait-locked : (e : Event s) (a : State s) → (wait s e a).locked ≡ a.locked
  unfolding wait
  wait-locked (lives uuid w r e) a =
      if_elim {A = State s} (λ b. b.locked ≡ a.locked) (asks_lock e) _ _ refl refl
  wait-locked (catches_signal h) a = after_send-locked a _
  wait-locked (api_reports r) a = after_send-locked a _
  wait-locked receives a = after_receipt-locked a a.serving a.daemon.oops.buffer
  wait-locked _ a = refl

  handle_locked : (e : Event s) (a : State s) → a.locked ≡ true → (handle s e a).locked ≡ true
  unfolding handle
  handle_locked e a t =
      ap (λ b. (if b then wait s e a else act s e a).locked) t ∙ (wait-locked e a ∙ t)

  -- A lock that can be had could be had before.
  pub handle_was_free :
      (e : Event s) (a : State s) → (handle s e a).locked ≡ false → a.locked ≡ false
  handle_was_free e a f = elim (Bool-cases a.locked) [
    | inl t ↦ absurd (cc (handle_locked e a t))
    | inr g ↦ g
  ]
