-- ===== src/Examples/Bootstrap.antt =====
-- The theorem on `vmBootstrap` at one set of flags and one world.
use corectl.Base.{[], ◌∷◌, true, false, none, some, refl, codes, pos, ok, err, Result, to_u64, ◌+ℤ◌}
use corectl.Bootstrap.{Flags, World, vm_bootstrap}
use corectl.Bootstrap.Made.{IsBootable, vm_bootstrap-IsBootable}
use corectl.Cli.{slices}
use corectl.Coreos.{failed}
use corectl.Examples.{core1, plain}
use corectl.Storage.{validate_volumes, validate_cloud_config}
use corectl.Vm.{Vm}

abbrev flags : Flags
flags = record {
  offline = false;
  cpus = pos 1;
  extra = [];
  boot = [];
  sshkey = [];
  name = codes "Core2";
  uuid = codes "a2";
  memory = pos 2048;
  shared_homedir = false;
  channel = codes "beta";
  version = codes "1.0.0";
  format_root = false;
  root = [];
  volumes = [];
  cloud_config = [];
}

abbrev world : World
world = record {
  active_vms = ok (core1 ∷ []);
  mem_size = ok 17179869184;
  new_uuid = codes "b1";
  is_uuid = λ t. true;
  to_mac = λ u original. ok (codes "6a:0:0:0:0:1", u);
  handles_nfs = ok true;
  pull = λ c v local. record { version = v; error = none; removes = false; downloads = none };
  files = record { exists = λ p. true; abs = λ p. some p; contents = λ p. none; get = λ p. failed };
  keys = ok (codes "private", codes "public");
}

vm_or_new : Result corectl.Daemon.Error Vm → Vm
vm_or_new (ok vm) = vm
vm_or_new (err e) = corectl.Vm.new

abbrev made : Vm
made = vm_or_new (vm_bootstrap plain world flags)

vm_bootstrap-IsBootable_example : IsBootable plain world flags made
unfolding vm_or_new vm_bootstrap to_u64 ◌+ℤ◌ validate_volumes validate_cloud_config slices
vm_bootstrap-IsBootable_example = vm_bootstrap-IsBootable plain world flags made refl
