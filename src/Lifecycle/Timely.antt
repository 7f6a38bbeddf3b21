-- ===== src/Lifecycle/Timely.antt =====
-- components/server/rpcservices.go: a start whose hypervisor runs comes to its end.
use corectl.Base.{
  Bool, Bool-cases, sym, ap, ◌∙◌, inl, inr, true, false, List, [], ◌∷◌, ◌≡◌, refl, All, ℤ, arith,
  Outcome, returns, hangs, panics,
}
use corectl.Http.{call_back}
use corectl.Lifecycle.{
  running, Boot, Event, starts, fails_to_start, exits, calls_back, calls_back_late, receives,
  times_out, is_killed, sees_done, sees_error, launched, has_process, dispatch, step, run,
}
use corectl.Lifecycle.Invariant.{
  Inv, HasAddress, Safe, IsOvertaken, launched-Inv, step-Safe, has_process-step,
}
use corectl.Vm.{Vm, send}

abbrev pub Ends : List Event → Boot → Type 0
Ends es b = (c : Boot) × (run es b ≡ returns c) × Inv c

-- A request that something may have come before since it was accepted.
abbrev pub IsLate : Event → Type 0
IsLate (calls_back_late ip) = Unit
IsLate _ = ⊥

overtaken_request : (e : Event) (b : Boot) → IsOvertaken e b → IsLate e
overtaken_request (calls_back_late ip) b o = tt
overtaken_request _ b o = o

abbrev pub is_exit : Event → Bool
is_exit exits = true
is_exit _ = false

-- No request of the VM that was accepted before is handled after the hypervisor has exited.
abbrev pub IsTimely : List Event → Type 0
IsTimely [] = Unit
IsTimely (e ∷ es) = (is_exit e ≡ true → All (λ x. ¬ IsLate x) es) × IsTimely es

run_on :
    (e : Event) (es : List Event) (b : Boot) (o : Outcome Boot)
    → has_process b.vm.exec ≡ true
    → step e b ≡ o
    → Safe e b o
    → ¬ IsOvertaken e b
    → ((c : Boot) → o ≡ returns c → Inv c → Ends es c)
    → Ends (e ∷ es) b
unfolding run
run_on e es b (returns c) p q s l ih = let (d, r, i) = ih c refl s in (d, rw (q, run) r, i)
run_on e es b hangs p q s l ih = absurd s
run_on e es b panics p q (inl n) l ih = absurd (cc)
run_on e es b panics p q (inr o) l ih = absurd (l o)

run_alive :
    (es : List Event) (b : Boot)
    → All HasAddress es
    → All (λ e. ¬ IsLate e) es
    → Inv b
    → has_process b.vm.exec ≡ true
    → Ends es b
unfolding run
run_alive [] b h l i p = (b, refl, i)
run_alive (e ∷ es) b h l i p =
    run_on e es b (step e b) p refl (step-Safe e b h.0 i) (λ o. l.0 (overtaken_request e b o))
      λ c q j. run_alive es c h.1 l.1 j (has_process-step e b c i p q)

-- While the hypervisor runs, the VM is registered.
record IsListed (b : Boot) : Type 0 where
  registered : b.registered ≡ true
  runs : b.runner ≡ running

not-IsOvertaken : (e : Event) (b : Boot) → IsListed b → ¬ IsOvertaken e b
not-IsOvertaken (calls_back_late ip) b l o = absurd (cc (l.registered))
not-IsOvertaken _ b l o = o

stays-IsListed :
    (e : Event) (b c : Boot)
    → is_exit e ≡ false
    → IsListed b
    → dispatch e b.watcher running b ≡ returns c
    → IsListed c
unfolding dispatch send call_back
stays-IsListed exits b c x l e = absurd (cc)
stays-IsListed (starts pid) b c x l e = ground arith
stays-IsListed fails_to_start b c x l e = ground arith
stays-IsListed (calls_back ip) b c x l e = ground arith
stays-IsListed (calls_back_late ip) b c x l e = ground arith
stays-IsListed (receives pid) b c x l e = ground arith
stays-IsListed (times_out pid) b c x l e = ground arith
stays-IsListed is_killed b c x l e = ground arith
stays-IsListed sees_done b c x l e = ground arith
stays-IsListed sees_error b c x l e = ground arith

step-IsListed :
    (e : Event) (b c : Boot) → is_exit e ≡ false → IsListed b → step e b ≡ returns c → IsListed c
unfolding step
step-IsListed e b c x l q =
    stays-IsListed e b c x l (ap (λ r. dispatch e b.watcher r b) (sym l.runs) ∙ q)

run_listed :
    (es : List Event) (b : Boot)
    → All HasAddress es
    → IsTimely es
    → Inv b
    → has_process b.vm.exec ≡ true
    → IsListed b
    → Ends es b
unfolding run
run_listed [] b h t i p l = (b, refl, i)
run_listed (e ∷ es) b h t i p l =
    run_on e es b (step e b) p refl (step-Safe e b h.0 i) (not-IsOvertaken e b l) λ c q j.
      let alive = has_process-step e b c i p q in
      elim (Bool-cases (is_exit e)) [
        | inl x ↦ run_alive es c h.1 (t.0 x) j alive
        | inr x ↦ run_listed es c h.1 t.1 j alive (step-IsListed e b c x l q)
      ]

pub first_step :
    (pid : ℤ) (es : List Event) (vm : Vm)
    → vm.call_back ≡ false
    → All HasAddress es
    → IsTimely es
    → Ends (starts pid ∷ es) (launched vm)
unfolding run step launched dispatch
first_step pid es vm h a t =
    run_listed es _ a t (step-Safe (starts pid) (launched vm) tt (launched-Inv vm h)) refl
      (record { registered = refl; runs = refl })
