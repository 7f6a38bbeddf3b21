-- ===== src/Bootstrap/Sound.antt =====
-- cmd/run.go: what a VM that `vmBootstrap` made satisfies.
use corectl.Base.{
  ℕ, ◌*◌, ◌/◌, ◌≤◌, true, false, not, Option, none, List, [], ◌∷◌, ◌≡◌, refl, sym, ap, ◌∙◌, arith,
  to_lower, ◌=t◌, if◌then◌else◌, ok, ℤ, pos, negsuc, ◌+ℤ◌, to_u64, ltb, Bool-cases, inl, inr,
  bind_inv,
}
use corectl.Bootstrap.{
  Flags, World, clamp_memory, total_memory, fits_memory, with_memory, choose_uuid, with_uuid,
  with_homedir, pulled, checked, with_format, with_volumes,
}
use corectl.Bootstrap.Frame.{Keeps, Keeps-trans, validate_volumes-Keeps, test_inv}
use corectl.Cli.{slices}
use corectl.Coreos.{Semver, channels, version}
use corectl.Coreos.Names.{IsOneOf}
use corectl.Daemon.{Error}
use corectl.Images.Fetch.{Pull}
use corectl.Storage.{validate_volumes, validate_cdrom}
use corectl.Storage.Volumes.{IsSound, validate_volumes-IsSound}
use corectl.Vm.{Vm}

-- The memory is within its bounds, and the running VMs and this one fit in two thirds of the host's.
pub record MemoryFits (w : World) (vm : Vm) : Type 0 where
  pub size : ℕ
  pub memory : vm.memory ≡ pos size
  pub least : 1024 ≤ size
  pub most : size ≤ 8192
  pub running : List Vm
  pub active : w.active_vms ≡ ok running
  pub host : ℕ
  pub host_memory : w.mem_size ≡ ok host
  pub fits : to_u64 (total_memory (pos 0) running +ℤ vm.memory) ≤ host / 1024 / 1024 * 2 / 3

clamp_bounds : (m : ℤ) → (n : ℕ) × (clamp_memory m ≡ pos n) × (1024 ≤ n) × (n ≤ 8192)
unfolding clamp_memory
clamp_bounds (negsuc k) = (1024, refl, omega arith, omega arith)
clamp_bounds (pos k) = elim (Bool-cases (ltb k 1024)) [
  | inl p ↦ (1024, rw p refl, omega arith, omega arith)
  | inr p ↦ elim (Bool-cases (ltb 8192 k)) [
    | inl q ↦ (8192, rw (p, q) refl, omega arith, omega arith)
    | inr q ↦ (k, rw (p, q) refl, ground arith, ground arith)
  ]
]

below : (x y : ℕ) → not (ltb y x) ≡ true → x ≤ y
below x y e = ground arith

pub with_memory-MemoryFits :
    (w : World) (f : Flags) (v u : Vm)
    → with_memory w f v ≡ ok u
    → MemoryFits w u × (u ≡ record v { memory = clamp_memory f.memory })
unfolding with_memory fits_memory
with_memory-MemoryFits w f v u e =
    let (running, a, e₁) = bind_inv w.active_vms _ u e in
    let (host, b, e₂) = bind_inv w.mem_size _ u e₁ in
    let (t, q) = test_inv (fits_memory running (clamp_memory f.memory) host) _ u _ e₂ in
    let (n, p, l, m) = clamp_bounds f.memory in
    let mem : u.memory ≡ clamp_memory f.memory = ap (λ x. x.memory) q in
    (
      record {
        size = n;
        memory = mem ∙ p;
        least = l;
        most = m;
        running = running;
        active = a;
        host = host;
        host_memory = b;
        fits = below _ _ (rw (sym mem) at t);
      },
      q,
    )

-- The stages up to the image: what they leave of the flags, and what the world said to them.
pub record Identity (s : Semver) (w : World) (f : Flags) (vm : Vm) : Type 0 where
  pub address : w.to_mac (choose_uuid w f.uuid) f.uuid ≡ ok (vm.mac_address, vm.uuid)
  pub named : vm.name ≡ (if to_lower f.name =t [] then vm.uuid else to_lower f.name)
  pub channel_known : IsOneOf vm.channel channels
  pub pulled_well : (w.pull vm.channel (version s f.version) f.offline).error ≡ none
  pub pulled_version : (w.pull vm.channel (version s f.version) f.offline).version ≡ vm.version

pub with_uuid_inv :
    (w : World) (f : Flags) (v u : Vm)
    → with_uuid w f v ≡ ok u
    → (w.to_mac (choose_uuid w f.uuid) f.uuid ≡ ok (u.mac_address, u.uuid))
      × (u ≡ record v { mac_address = u.mac_address; uuid = u.uuid })
unfolding with_uuid
with_uuid_inv w f v u e =
    let (out, a, b) = bind_inv (w.to_mac (choose_uuid w f.uuid) f.uuid) _ u e in ground arith

pub with_homedir_inv :
    (w : World) (f : Flags) (v u : Vm)
    → with_homedir w f v ≡ ok u
    → u ≡ record v { shared_homedir = u.shared_homedir }
unfolding with_homedir
with_homedir_inv w f v u e = ground arith

pub pulled_inv :
    (v u : Vm) (p : Pull)
    → pulled v p ≡ ok u
    → (p.error ≡ none) × (u ≡ record v { version = p.version })
unfolding pulled
pulled_inv v u p e = ground arith

pub checked_inv : (r : Vm × Option Error) (u : Vm) → checked r ≡ ok u → r.0 ≡ u
checked_inv r u e = ground arith

with_format_inv :
    (f : Flags) (v u : Vm) → with_format f v ≡ ok u → (u ≡ record v { format_root = u.format_root })
unfolding with_format
with_format_inv f v u e = ground arith

-- Later stages change neither the memory nor the identity.
pub keep_fits : (w : World) (v u : Vm) → u.memory ≡ v.memory → MemoryFits w v → MemoryFits w u
keep_fits w v u k m = record {
  size = m.size;
  memory = k ∙ m.memory;
  least = m.least;
  most = m.most;
  running = m.running;
  active = m.active;
  host = m.host;
  host_memory = m.host_memory;
  fits = rw k m.fits;
}

pub keep-Identity :
    (s : Semver) (w : World) (f : Flags) (v u : Vm)
    → Keeps v u
    → Identity s w f v
    → Identity s w f u
keep-Identity s w f v u k i = record {
  address = rw (k.mac, k.uuid) i.address;
  named = k.name ∙ rw k.uuid i.named;
  channel_known = rw k.channel i.channel_known;
  pulled_well = rw k.channel i.pulled_well;
  pulled_version = rw (k.channel, k.version) i.pulled_version;
}

-- The volumes are added to drives that were sound, and nothing else of interest changes.
pub with_volumes_inv :
    (w : World) (f : Flags) (running : List Vm) (v u : Vm)
    → w.active_vms ≡ ok running
    → IsSound running v.storage.hard_drives
    → with_volumes w f v ≡ ok u
    → Keeps v u × IsSound running u.storage.hard_drives
unfolding with_volumes validate_cdrom
with_volumes_inv w f running v u a s e =
    let (x, p, e₁) = bind_inv (with_format f v) _ u e in
    let (y, q, e₂) =
      bind_inv (checked (validate_volumes w.files w.active_vms (f.root ∷ []) true x)) _ u e₁ in
    let qx = checked_inv (validate_volumes w.files w.active_vms (f.root ∷ []) true x) y q in
    let qy = checked_inv (validate_volumes w.files w.active_vms (slices f.volumes) false y) u e₂ in
    let kx : Keeps v x = rw (with_format_inv f v x p) (record {
      memory = refl;
      uuid = refl;
      name = refl;
      channel = refl;
      version = refl;
      mac = refl;
    }) in
    let ky : Keeps x y =
      rw (sym qx) (validate_volumes-Keeps w.files w.active_vms true (f.root ∷ []) x) in
    let ku : Keeps y u =
      rw (sym qy) (validate_volumes-Keeps w.files w.active_vms false (slices f.volumes) y) in
    let sx : IsSound running x.storage.hard_drives =
      rw (ap (λ z. z.storage.hard_drives) (with_format_inv f v x p)) s in
    let sy : IsSound running y.storage.hard_drives =
      rw (sym qx, a) (validate_volumes-IsSound w.files running true (f.root ∷ []) x sx) in
    let su : IsSound running u.storage.hard_drives =
      rw (sym qy, a) (validate_volumes-IsSound w.files running false (slices f.volumes) y sy) in
    (Keeps-trans v y u (Keeps-trans v x y kx ky) ku, su)
