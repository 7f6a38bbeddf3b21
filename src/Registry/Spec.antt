-- ===== src/Registry/Spec.antt =====
-- components/server/run.go: what `register` and `deregister` promise, whatever order the map has.
use mathlib.Core.Path.{fun_ext, subst}
use corectl.Base.{
  Bool-cases, Option-cases, inl, inr, ◌⊎◌, Option, none, some, List, [], ◌∷◌, Text, ◌≡◌, ◌≢◌, refl,
  sym, codes, ◌=t◌, =t_iff, =t_refl, All, arith, lookup, insert, delete, lookup-insert,
  lookup-delete, if◌then◌else◌,
}
use corectl.Daemon.{Error, reserved_name, already_running}
use corectl.Registry.{Active, register, deregister}
use corectl.Registry.Unique.{
  Apart, IsUnique, register-IsUnique, deregister-IsUnique, register_outcome, lookup-Apart,
  insert_fresh,
}
use corectl.Vm.{Vm}

-- The abstract registry: which VM has a UUID, if any.
abbrev pub Spec : Type 0
Spec = Text → Option Vm

abbrev pub view : Active → Spec
view m = λ k. lookup k m

abbrev pub put : Text → Option Vm → Spec → Spec
put k o f = λ j. if k =t j then o else f j

pub data Request : Type 0 where
  enrol release : Vm → Request

-- The answers that the abstract registry may give.
pub data SpecStep : Spec → Request → Option Error → Spec → Type 0 where
  reserved :
      (f : Spec) (vm : Vm)
      → vm.name ≡ codes "corectld"
      → SpecStep f (enrol vm) (some reserved_name) f
  taken :
      (f : Spec) (vm w : Vm) (k : Text)
      → vm.name ≢ codes "corectld"
      → f k ≡ some w
      → (k ≡ vm.uuid) ⊎ (w.name ≡ vm.name)
      → SpecStep f (enrol vm) (some already_running) f
  enrolled :
      (f : Spec) (vm : Vm)
      → vm.name ≢ codes "corectld"
      → f vm.uuid ≡ none
      → ((k : Text) (w : Vm) → f k ≡ some w → vm.name ≢ w.name)
      → SpecStep f (enrol vm) none (put vm.uuid (some vm) f)
  released : (f : Spec) (vm : Vm) → SpecStep f (release vm) none (put vm.uuid none f)

pub data SpecRun : Spec → List Request → List (Option Error) → Spec → Type 0 where
  done : (f : Spec) → SpecRun f [] [] f
  next :
      (f g h : Spec) (r : Request) (e : Option Error) (rs : List Request) (es : List (Option Error))
      → SpecStep f r e g
      → SpecRun g rs es h
      → SpecRun f (r ∷ rs) (e ∷ es) h

-- The requests on the map itself, and their errors.
unfoldable pub serve_request : Request → Active → Active × Option Error
serve_request (enrol vm) m = register vm m
serve_request (release vm) m = (deregister vm m, none)

unfoldable pub serve_requests : List Request → Active → Active × List (Option Error)
unfolding serve_request
serve_requests [] m = (m, [])
serve_requests (r ∷ rs) m =
    let (n, e) = serve_request r m in let (o, es) = serve_requests rs n in (o, e ∷ es)

view-insert : (vm : Vm) (m : Active) → view (insert vm.uuid vm m) ≡ put vm.uuid (some vm) (view m)
view-insert vm m = fun_ext (λ k. lookup-insert vm.uuid k vm m)

view-delete : (vm : Vm) (m : Active) → view (delete vm.uuid m) ≡ put vm.uuid none (view m)
view-delete vm m = fun_ext (λ k. lookup-delete vm.uuid k m)

lookup_key-Apart :
    (v w : Vm) (k : Text) (m : Active) → All (Apart v) m → lookup k m ≡ some w → k ≢ v.uuid
unfolding lookup
lookup_key-Apart v w k [] h e = cc
lookup_key-Apart v w k ((j, x) ∷ m) h e =
    ground (arith, =t_iff j k, λ (p : lookup k m ≡ some w). lookup_key-Apart v w k m h.1 p)

pub Apart-lookup : (v : Vm) (m : Active) → All (Apart v) m → lookup v.uuid m ≡ none
Apart-lookup v m h = elim (Option-cases (lookup v.uuid m)) [
  | inl n ↦ n
  | inr (w, e) ↦ absurd (lookup_key-Apart v w v.uuid m h e refl)
]

-- An entry that stands in the way of a VM.
Clash : Vm → Active → Type 0
Clash vm m = (k : Text) × (w : Vm) × (lookup k m ≡ some w) × ((k ≡ vm.uuid) ⊎ (w.name ≡ vm.name))

behind :
    (vm v : Vm) (k : Text) (m : Active)
    → k ≡ v.uuid
    → All (Apart v) m
    → Clash vm m
    → Clash vm ((k, v) ∷ m)
unfolding Clash lookup
behind vm v k m own a (j, w, e, c) =
    (j, w, ground (arith, =t_iff k j, lookup_key-Apart v w j m a e), c)

clash : (vm : Vm) (m : Active) → IsUnique m → ¬ All (Apart vm) m → Clash vm m
unfolding Clash lookup
clash vm [] u n = absurd (n tt)
clash vm ((k, v) ∷ m) (own, a, u) n = elim (Bool-cases (k =t vm.uuid)) [
  | inl t ↦ (k, v, rw (=t_refl k) refl, inl ((=t_iff k vm.uuid).0 t))
  | inr t ↦ elim (Bool-cases (v.name =t vm.name)) [
    | inl q ↦ (k, v, rw (=t_refl k) refl, inr ((=t_iff v.name vm.name).0 q))
    | inr q ↦ behind vm v k m own a (
        clash vm m u
          (λ h. n ((ground (arith, =t_iff k vm.uuid), ground (arith, =t_iff v.name vm.name)), h)))
  ]
]

-- What a request does to the map is a step of the abstract registry.
IsStep : Request → Active → Active × Option Error → Type 0
IsStep r m a = SpecStep (view m) r a.1 (view a.0)

serve_request-IsStep : (r : Request) (m : Active) → IsUnique m → IsStep r m (serve_request r m)
unfolding serve_request deregister IsStep Clash
serve_request-IsStep (release vm) m u =
    subst (λ f. SpecStep (view m) (release vm) none f) (sym (view-delete vm m))
      (released (view m) vm)
serve_request-IsStep (enrol vm) m u = elim (register_outcome vm m) [
  | inl (n, a, e) ↦
      rw (e, sym (insert_fresh vm m a))
        (subst (λ f. SpecStep (view m) (enrol vm) none f) (sym (view-insert vm m))
          (enrolled (view m) vm n (Apart-lookup vm m a) (λ k w q. lookup-Apart vm w k m a q)))
  | inr (inl (n, e)) ↦ rw e (reserved (view m) vm n)
  | inr (inr (n, a, e)) ↦ rw e (let (k, w, q, c) = clash vm m u a in taken (view m) vm w k n q c)
]

serve_request-IsUnique : (r : Request) (m : Active) → IsUnique m → IsUnique (serve_request r m).0
unfolding serve_request
serve_request-IsUnique (enrol vm) m u = register-IsUnique vm m u
serve_request-IsUnique (release vm) m u = deregister-IsUnique vm m u

-- Any sequence of requests on a map without a repeated UUID or name gives errors that the abstract
-- registry may give, and ends in a map that shows the abstract registry's last state and repeats no
-- UUID and no name.
pub serve_requests-SpecRun :
    (rs : List Request) (m : Active)
    → IsUnique m
    → let r = serve_requests rs m in SpecRun (view m) rs r.1 (view r.0) × IsUnique r.0
unfolding serve_requests IsStep
serve_requests-SpecRun [] m u = (done (view m), u)
serve_requests-SpecRun (r ∷ rs) m u =
    let a = serve_request r m in
    let (run, last) = serve_requests-SpecRun rs a.0 (serve_request-IsUnique r m u) in
    (next (view m) (view a.0) _ r a.1 rs _ (serve_request-IsStep r m u) run, last)
