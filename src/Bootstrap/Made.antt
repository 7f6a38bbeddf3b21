-- ===== src/Bootstrap/Made.antt =====
-- cmd/run.go: `vmBootstrap` as a whole.
use corectl.Base.{
  List, [], Text, ◌≡◌, refl, sym, ap, ◌∙◌, arith, to_lower, ◌=t◌, if◌then◌else◌, ok, bind_inv,
}
use corectl.Bootstrap.{
  Flags, World, from_flags, with_memory, choose_uuid, with_uuid, with_homedir, with_name,
  with_image, checked, with_volumes, with_ethernet, with_keys, vm_bootstrap,
}
use corectl.Bootstrap.Frame.{
  Keeps, Keeps-trans, validate_cloud_config-Keeps, validate_cloud_config_storage,
}
use corectl.Bootstrap.Sound.{
  MemoryFits, Identity, with_memory-MemoryFits, with_uuid_inv, with_homedir_inv, pulled_inv,
  checked_inv, with_volumes_inv, keep_fits, keep-Identity,
}
use corectl.Coreos.{Semver, channel, version}
use corectl.Coreos.Names.{channel_normalises}
use corectl.Storage.{validate_cloud_config}
use corectl.Storage.Volumes.{IsSound}
use corectl.Vm.{Vm}

-- The VM up to its volumes.
record IsPrepared (s : Semver) (w : World) (f : Flags) (vm : Vm) : Type 0 where
  fits : MemoryFits w vm
  identity : Identity s w f vm
  empty : vm.storage.hard_drives ≡ []

-- The VM up to its name.
record IsKnown (w : World) (f : Flags) (vm : Vm) : Type 0 where
  fits : MemoryFits w vm
  address : w.to_mac (choose_uuid w f.uuid) f.uuid ≡ ok (vm.mac_address, vm.uuid)
  from_flag : vm.name ≡ to_lower f.name
  offline : vm.offline_mode ≡ f.offline
  empty : vm.storage.hard_drives ≡ []

sized-IsKnown :
    (w : World) (f : Flags) (v u : Vm)
    → with_memory w f (from_flags f) ≡ ok v
    → with_uuid w f v ≡ ok u
    → IsKnown w f u
unfolding from_flags
sized-IsKnown w f v u e d =
    let (m, q) = with_memory-MemoryFits w f (from_flags f) v e in
    let (a, r) = with_uuid_inv w f v u d in
    record {
      fits = keep_fits w v u (ap (λ x. x.memory) r) m;
      address = a;
      from_flag = ap (λ x. x.name) r ∙ ap (λ x. x.name) q;
      offline = ap (λ x. x.offline_mode) r ∙ ap (λ x. x.offline_mode) q;
      empty = ap (λ x. x.storage.hard_drives) r ∙ ap (λ x. x.storage.hard_drives) q;
    }

homed-IsKnown :
    (w : World) (f : Flags) (v u : Vm) → with_homedir w f v ≡ ok u → IsKnown w f v → IsKnown w f u
homed-IsKnown w f v u e k =
    let q = with_homedir_inv w f v u e in
    record {
      fits = keep_fits w v u (ap (λ x. x.memory) q) k.fits;
      address = rw q k.address;
      from_flag = ap (λ x. x.name) q ∙ k.from_flag;
      offline = ap (λ x. x.offline_mode) q ∙ k.offline;
      empty = ap (λ x. x.storage.hard_drives) q ∙ k.empty;
    }

named_well : (t : Text) (v : Vm) → v.name ≡ t → (with_name v).name ≡ (if t =t [] then v.uuid else t)
unfolding with_name
named_well t v e = ground arith

with_name_rest : (v : Vm) → with_name v ≡ record v { name = (with_name v).name }
unfolding with_name
with_name_rest v = ground arith

imaged-IsPrepared :
    (s : Semver) (w : World) (f : Flags) (v u : Vm)
    → IsKnown w f v
    → with_image s w f (with_name v) ≡ ok u
    → IsPrepared s w f u
unfolding with_image
imaged-IsPrepared s w f v u k e =
    let n = with_name v in
    let c = channel f.channel in
    let o : n.offline_mode ≡ f.offline = ap (λ x. x.offline_mode) (with_name_rest v) ∙ k.offline in
    let (good, q) =
      pulled_inv (record n { channel = c }) u (w.pull c (version s f.version) n.offline_mode) e in
    let same_channel : u.channel ≡ c = ap (λ x. x.channel) q in
    let same_uuid : u.uuid ≡ v.uuid = ap (λ x. x.uuid) q ∙ ap (λ x. x.uuid) (with_name_rest v) in
    let same_mac : u.mac_address ≡ v.mac_address =
      ap (λ x. x.mac_address) q ∙ ap (λ x. x.mac_address) (with_name_rest v) in
    record {
      fits = keep_fits w v u (ap (λ x. x.memory) q ∙ ap (λ x. x.memory) (with_name_rest v)) k.fits;
      identity = record {
        address = rw (same_mac, same_uuid) k.address;
        named = ap (λ x. x.name) q ∙ rw same_uuid (named_well (to_lower f.name) v k.from_flag);
        channel_known = rw same_channel (channel_normalises f.channel).0;
        pulled_well = rw (same_channel, sym o) good;
        pulled_version = rw (same_channel, sym o) (sym (ap (λ x. x.version) q));
      };
      empty =
          ap (λ x. x.storage.hard_drives) q
          ∙ ap (λ x. x.storage.hard_drives) (with_name_rest v)
          ∙ k.empty;
    }

-- What a VM is made of when `vmBootstrap` succeeds.
pub record IsBootable (s : Semver) (w : World) (f : Flags) (vm : Vm) : Type 0 where
  pub fits : MemoryFits w vm
  pub identity : Identity s w f vm
  pub drives :
      (running : List Vm) × (w.active_vms ≡ ok running) × IsSound running vm.storage.hard_drives

-- The stages after the volumes.
finished :
    (s : Semver) (w : World) (f : Flags) (running : List Vm) (x y z : Vm)
    → IsPrepared s w f x
    → w.active_vms ≡ ok running
    → with_volumes w f x ≡ ok y
    → checked (validate_cloud_config w.files f.cloud_config (with_ethernet y)) ≡ ok z
    → Keeps x z × IsSound running z.storage.hard_drives
unfolding with_ethernet
finished s w f running x y z p a e c =
    let none_yet : IsSound running x.storage.hard_drives =
      rw p.empty (record { counts = tt; distinct = tt; free = tt }) in
    let (k, d) = with_volumes_inv w f running x y a none_yet e in
    let q = checked_inv (validate_cloud_config w.files f.cloud_config (with_ethernet y)) z c in
    let wired : Keeps y (with_ethernet y) = record {
      memory = refl;
      uuid = refl;
      name = refl;
      channel = refl;
      version = refl;
      mac = refl;
    } in
    let configured : Keeps (with_ethernet y) z =
      rw (sym q) (validate_cloud_config-Keeps w.files f.cloud_config (with_ethernet y)) in
    let stored : z.storage ≡ y.storage =
      rw (sym q) (validate_cloud_config_storage w.files f.cloud_config (with_ethernet y)) in
    (Keeps-trans x y z k (Keeps-trans y (with_ethernet y) z wired configured), rw stored d)

keyed : (w : World) (v u : Vm) → with_keys w v ≡ ok u → Keeps v u × (u.storage ≡ v.storage)
unfolding with_keys
keyed w v u e =
    let (k, a, b) = bind_inv w.keys _ u e in
    let q : u ≡ record v { internal_ssh_private = k.0; internal_ssh_key = k.1 } = cc in
    (
      record {
        memory = ap (λ x. x.memory) q;
        uuid = ap (λ x. x.uuid) q;
        name = ap (λ x. x.name) q;
        channel = ap (λ x. x.channel) q;
        version = ap (λ x. x.version) q;
        mac = ap (λ x. x.mac_address) q;
      },
      ap (λ x. x.storage) q,
    )

bootable :
    (s : Semver) (w : World) (f : Flags) (x z vm : Vm) (p : IsPrepared s w f x)
    → Keeps x z × IsSound p.fits.running z.storage.hard_drives
    → Keeps z vm × (vm.storage ≡ z.storage)
    → IsBootable s w f vm
bootable s w f x z vm p (k, sound) (l, same) =
    let all = Keeps-trans x z vm k l in
    record {
      fits = keep_fits w x vm all.memory p.fits;
      identity = keep-Identity s w f x vm all p.identity;
      drives = (p.fits.running, p.fits.active, rw same sound);
    }

-- If `vmBootstrap` gives a VM, then its memory is from 1024 to 8192 and fits with that of the
-- running VMs in two thirds of the host's; its UUID and address are what the server gave; its name
-- is the flag in lower case or else the UUID; its channel is one of the three and its version was
-- pulled without an error; and its drives are numbered from 0, of different files, and of none that
-- a running VM uses.
pub vm_bootstrap-IsBootable :
    (s : Semver) (w : World) (f : Flags) (vm : Vm)
    → vm_bootstrap s w f ≡ ok vm
    → IsBootable s w f vm
unfolding vm_bootstrap
vm_bootstrap-IsBootable s w f vm e =
    let (sized, a, e₁) = bind_inv (with_memory w f (from_flags f)) _ vm e in
    let (known, b, e₂) = bind_inv (with_uuid w f sized) _ vm e₁ in
    let (homed, c, e₃) = bind_inv (with_homedir w f known) _ vm e₂ in
    let (imaged, d, e₄) = bind_inv (with_image s w f (with_name homed)) _ vm e₃ in
    let (stored, g, e₅) = bind_inv (with_volumes w f imaged) _ vm e₄ in
    let (configured, h, e₆) =
      bind_inv (checked (validate_cloud_config w.files f.cloud_config (with_ethernet stored))) _ vm
        e₅ in
    let ready =
      imaged-IsPrepared s w f homed imaged
        (homed-IsKnown w f known homed c (sized-IsKnown w f sized known a b)) d in
    bootable s w f imaged configured vm ready
      (finished s w f ready.fits.running imaged stored configured ready ready.fits.active g h)
      (keyed w configured vm e₆)
