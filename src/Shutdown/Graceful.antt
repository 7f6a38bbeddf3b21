-- ===== src/Shutdown/Graceful.antt =====
-- components/server/run.go: what a graceful shutdown achieves.
use corectl.Base.{
  ◌||◌, Outcome, returns, panics, true, none, some, List, [], ◌∷◌, Text, ◌≡◌, ◌≢◌, refl, =t_iff,
  All, arith, lookup, lookup-delete, delete, values, if◌then◌else◌,
}
use corectl.Registry.{Active, deregister}
use corectl.Registry.Unique.{IsUnique, Apart}
use corectl.Shutdown.{
  Host, Sent, sigterm, sigkill, gracefully_shutdown, ends, while_waiting, shut_down_each, shut_down,
  newest_first,
}
use corectl.Shutdown.Order.{
  AreDistinct, has_uuid, has_uuid-newest_first, newest_first-AreDistinct, All-newest_first,
}
use corectl.Vm.{Vm, has_process}

-- No VM exits by itself while another one is being stopped.
abbrev pub IsCalm : Host → Type 0
IsCalm h = (vm : Vm) → h.also_gone vm ≡ []

-- The VM has a process, which ends when it is signalled.
abbrev pub Halts : Host → Vm → Type 0
Halts h v = (has_process v.exec ≡ true) × (ends h v ≡ true)

-- SIGTERM for each VM, and SIGKILL after it for those that neither had come up nor do so in time.
abbrev pub signals : Host → List Vm → List Sent
signals h [] = []
signals h (v ∷ vs) =
    if v.done || h.comes_up v
    then (v.uuid, sigterm) ∷ signals h vs
    else (v.uuid, sigterm) ∷ (v.uuid, sigkill) ∷ signals h vs

-- The VM stands in the map under its UUID.
abbrev pub IsListed : Active → Vm → Type 0
IsListed m v = lookup v.uuid m ≡ some v

still-IsListed :
    (v : Vm) (m : Active) (vs : List Vm)
    → All (λ w. v.uuid ≢ w.uuid) vs
    → All (IsListed m) vs
    → All (IsListed (delete v.uuid m)) vs
still-IsListed v m [] d l = tt
still-IsListed v m (w ∷ vs) d l = (
  ground (arith, lookup-delete v.uuid w.uuid m, =t_iff v.uuid w.uuid),
  still-IsListed v m vs d.1 l.1,
)

while_waiting_calm :
    (h : Host) (v : Vm) (m : Active) → IsCalm h → while_waiting h v m ≡ delete v.uuid m
unfolding while_waiting deregister
while_waiting_calm h v m calm = ground (arith, calm v)

abbrev pub Stops : Host → List Vm → Active → Outcome (List Sent × Active) → Type 0
Stops h vs m r =
    (n : Active) × (r ≡ returns (signals h vs, n))
    × ((k : Text) → lookup k n ≡ (if has_uuid k vs then none else lookup k m))

shut_down_each-Stops :
    (h : Host) (vs : List Vm) (m : Active)
    → IsCalm h
    → All (Halts h) vs
    → AreDistinct vs
    → All (IsListed m) vs
    → Stops h vs m (shut_down_each h vs m)
unfolding shut_down_each gracefully_shutdown
shut_down_each-Stops h [] m calm e d l = (m, refl, λ k. refl)
shut_down_each-Stops h (v ∷ vs) m calm e d l =
    let (n, run, left) =
      shut_down_each-Stops h vs (delete v.uuid m) calm e.1 d.1 (still-IsListed v m vs d.0 l.1) in
    (
      n,
      ground (arith, while_waiting_calm h v m calm),
      λ k. ground (arith, left k, lookup-delete v.uuid k m),
    )

-- If every VM has a process, which ends when it is signalled, and no VM exits by itself meanwhile, then shutting
-- down VMs that are registered, each once, returns. Each gets SIGTERM, and
-- SIGKILL if it neither had come up nor does so in time, from the newest VM to the oldest. Their
-- UUIDs are then free, and no other entry has changed.
pub shut_down-Stops :
    (h : Host) (vs : List Vm) (m : Active)
    → IsCalm h
    → All (Halts h) vs
    → AreDistinct vs
    → All (IsListed m) vs
    → (n : Active) × (shut_down h vs m ≡ returns (signals h (newest_first vs), n))
      × ((k : Text) → lookup k n ≡ (if has_uuid k vs then none else lookup k m))
unfolding shut_down
shut_down-Stops h vs m calm e d l =
    let (n, run, left) =
      shut_down_each-Stops h (newest_first vs) m calm (All-newest_first (Halts h) vs e)
        (newest_first-AreDistinct vs d) (All-newest_first (IsListed m) vs l) in
    (n, run, λ k. ground (arith, left k, has_uuid-newest_first k vs))

-- A VM in the list that is not in the map by its turn is a nil dereference.
pub shut_down_each_panics :
    (h : Host) (v w : Vm) (vs : List Vm) (m : Active)
    → IsListed m v
    → Halts h v
    → lookup w.uuid (while_waiting h v m) ≡ none
    → shut_down_each h (v ∷ w ∷ vs) m ≡ panics
unfolding shut_down_each
shut_down_each_panics h v w vs m l e gone = ground arith

-- In a registry with unique names every VM is listed, and no UUID stands twice.
later-IsListed :
    (k : Text) (v : Vm) (m : Active) (vs : List Vm)
    → k ≡ v.uuid
    → All (λ w. v.uuid ≢ w.uuid) vs
    → All (IsListed m) vs
    → All (IsListed ((k, v) ∷ m)) vs
unfolding lookup
later-IsListed k v m [] e d l = tt
later-IsListed k v m (w ∷ vs) e d l =
    (ground (arith, =t_iff k w.uuid), later-IsListed k v m vs e d.1 l.1)

Apart-values :
    (v : Vm) (m : Active) → IsUnique m → All (Apart v) m → All (λ w. v.uuid ≢ w.uuid) (values m)
Apart-values v [] u a = tt
Apart-values v ((k, w) ∷ m) u a = (λ e. a.0.0 (cc), Apart-values v m u.2 a.1)

pub values-AreDistinct : (m : Active) → IsUnique m → AreDistinct (values m)
values-AreDistinct [] u = tt
values-AreDistinct ((k, v) ∷ m) u = (Apart-values v m u.2 u.1, values-AreDistinct m u.2)

pub values-IsListed : (m : Active) → IsUnique m → All (IsListed m) (values m)
unfolding lookup
values-IsListed [] u = tt
values-IsListed ((k, v) ∷ m) u = (
  ground (arith, =t_iff k v.uuid),
  later-IsListed k v m (values m) u.0 (Apart-values v m u.2 u.1) (values-IsListed m u.2),
)

pub lookup-values :
    (k : Text) (m : Active)
    → IsUnique m
    → (if has_uuid k (values m) then none else lookup k m) ≡ none
unfolding lookup
lookup-values k [] u = refl
lookup-values k ((j, v) ∷ m) u = ground (arith, =t_iff j k, =t_iff v.uuid k, lookup-values k m u.2)
