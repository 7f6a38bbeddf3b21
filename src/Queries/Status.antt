-- ===== src/Queries/Status.antt =====
-- cmd/ps.go: `query --up`.
use corectl.Base.{
  Bool, true, false, ◌||◌, none, [], ◌∷◌, Text, ◌≡◌, refl, arith, ◌=t◌, any, values, Result, ok,
  Bool-cases, inl, inr,
}
use corectl.Commands.{vm_info}
use corectl.Daemon.{Error}
use corectl.Queries.{
  Flags, Shown, one_truth, one_answer, answer_one, answer, query_command, select_and_show,
}
use corectl.Payload.{Caller}
use corectl.Registry.{Active}
use corectl.Vm.{Vm}

-- A running VM has the name or the UUID.
abbrev pub is_up : Text → Active → Bool
is_up id m = any (λ (v : Vm). v.name =t id || v.uuid =t id) (values m)

-- `--up` is the only one of the flags that ask for one thing.
pub record AsksUp (f : Flags) : Type 0 where
  pub up : f.up ≡ true
  pub ip : f.ip ≡ false
  pub tty : f.tty ≡ false
  pub online : f.online ≡ false
  pub uuid : f.uuid ≡ false
  pub log : f.log ≡ false

up_lem :
    (c : Caller) (id : Text) (f : Flags) (m : Active) (later : Result Error Shown)
    → AsksUp f
    → answer_one c f (vm_info id m) later ≡ ok (one_truth (is_up id m))
unfolding answer_one one_answer vm_info
up_lem c id f [] later h = ground (arith, h.up)
up_lem c id f ((k, v) ∷ m) later h = elim (Bool-cases (v.name =t id || v.uuid =t id)) [
  | inl e ↦ rw (e, h.ip, h.uuid, h.tty, h.log, h.online, h.up) refl
  | inr e ↦ rw e (up_lem c id f m later h)
]

-- `query --up` of a name or UUID never fails while the server answers: it prints true if a running
-- VM has it, and false if none has.
pub query_up :
    (c : Caller) (id : Text) (f : Flags) (m : Active)
    → AsksUp f
    → query_command c f none (ok m) (id ∷ []) ≡ ok (one_truth (is_up id m))
unfolding query_command answer
query_up c id f m h = up_lem c id f m (select_and_show f (id ∷ []) m) h
