-- ===== src/Bootstrap/Frame.antt =====
-- cmd/run.go: what each stage of `vmBootstrap` leaves alone.
use corectl.Base.{
  Bool, true, false, Option, List, [], ◌∷◌, Text, ◌≡◌, refl, ◌∙◌, arith, Result, ok, err,
  if◌then◌else◌,
}
use corectl.Daemon.{Error}
use corectl.Storage.{
  Files, add_volume, add_volumes, after_volume, check_volume, validate_volumes,
  validate_cloud_config, local_config,
}
use corectl.Vm.{Vm, Kind, qcow2}

-- What the stages after the memory and the names leave alone.
pub record Keeps (v w : Vm) : Type 0 where
  pub memory : w.memory ≡ v.memory
  pub uuid : w.uuid ≡ v.uuid
  pub name : w.name ≡ v.name
  pub channel : w.channel ≡ v.channel
  pub version : w.version ≡ v.version
  pub mac : w.mac_address ≡ v.mac_address

pub Keeps-refl : (v : Vm) → Keeps v v
Keeps-refl v = record {
  memory = refl;
  uuid = refl;
  name = refl;
  channel = refl;
  version = refl;
  mac = refl;
}

pub Keeps-trans : (u v w : Vm) → Keeps u v → Keeps v w → Keeps u w
Keeps-trans u v w a b = record {
  memory = b.memory ∙ a.memory;
  uuid = b.uuid ∙ a.uuid;
  name = b.name ∙ a.name;
  channel = b.channel ∙ a.channel;
  version = b.version ∙ a.version;
  mac = b.mac ∙ a.mac;
}

add_volume-Keeps : (root : Bool) (k : Kind) (p : Text) (v : Vm) → Keeps v (add_volume root k p v)
unfolding add_volume
add_volume-Keeps root k p v = record {
  memory = refl;
  uuid = refl;
  name = refl;
  channel = refl;
  version = refl;
  mac = refl;
}

module _ (f : Files) (running : Result Error (List Vm)) (root : Bool) where
  after_volume-Keeps :
      (v : Vm) (rest : Kind → Vm → Vm × Option Error) (r : Result Error (Text × Kind))
      → ((k : Kind) (w : Vm) → Keeps w (rest k w).0)
      → Keeps v (after_volume root v rest r).0
  unfolding after_volume
  after_volume-Keeps v rest (err e) h = Keeps-refl v
  after_volume-Keeps v rest (ok (p, k)) h =
      Keeps-trans v (add_volume root k p v) _ (add_volume-Keeps root k p v) (h k _)

  add_volumes-Keeps :
      (js : List Text) (k : Kind) (v : Vm) → Keeps v (add_volumes f running root k js v).0
  unfolding add_volumes
  add_volumes-Keeps [] k v = Keeps-refl v
  add_volumes-Keeps ([] ∷ js) k v = add_volumes-Keeps js k v
  add_volumes-Keeps ((c ∷ j) ∷ js) k v =
      after_volume-Keeps v (λ k' w. add_volumes f running root k' js w)
        (check_volume f running k (c ∷ j) v) λ k' w. add_volumes-Keeps js k' w

  pub validate_volumes-Keeps :
      (js : List Text) (v : Vm) → Keeps v (validate_volumes f running js root v).0
  unfolding validate_volumes
  validate_volumes-Keeps js v = add_volumes-Keeps js qcow2 v

local_config-Keeps : (f : Files) (t : Text) (v : Vm) → Keeps v (local_config f t v).0
unfolding local_config
local_config-Keeps f t v = ground arith

pub validate_cloud_config-Keeps :
    (f : Files) (t : Text) (v : Vm) → Keeps v (validate_cloud_config f t v).0
unfolding validate_cloud_config
validate_cloud_config-Keeps f [] v = Keeps-refl v
validate_cloud_config-Keeps f (c ∷ t) v = ground (arith, local_config-Keeps f (c ∷ t) v)

local_config_storage : (f : Files) (t : Text) (v : Vm) → (local_config f t v).0.storage ≡ v.storage
unfolding local_config
local_config_storage f t v = ground arith

pub validate_cloud_config_storage :
    (f : Files) (t : Text) (v : Vm) → (validate_cloud_config f t v).0.storage ≡ v.storage
unfolding validate_cloud_config
validate_cloud_config_storage f [] v = refl
validate_cloud_config_storage f (c ∷ t) v = ground (arith, local_config_storage f (c ∷ t) v)

-- A computation that succeeds did so at each of its parts.
-- A test that was passed.
pub test_inv :
    {A : Type 0} (b : Bool) (x u : A) (e : Error)
    → (if b then ok x else err e) ≡ ok u
    → (b ≡ true) × (u ≡ x)
test_inv true x u e p = (refl, cc)
test_inv false x u e p = absurd (cc)
