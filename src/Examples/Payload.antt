-- ===== src/Examples/Payload.antt =====
-- The theorem on the hypervisor's arguments at a VM with one drive.
use corectl.Base.{[], ◌∷◌, ◌++◌, ◌≡◌, codes, arith}
use corectl.Examples.{core1}
use corectl.Payload.{
  Caller, run_arguments, assemble_boot_payload, instructions, kexec, command_line,
}
use corectl.Payload.Arguments.{IsClean, run_arguments_lem}
use corectl.Vm.{Vm, qcow2, hdd}

abbrev caller : Caller
caller = record {
  image_store = codes "/images";
  run_dir = codes "/run";
  address = codes "192.168.64.1";
}

abbrev vm : Vm
vm = record core1 {
  storage = record {
    cd_drives = [];
    hard_drives =
        (0, record { slot = 0; format = qcow2; device_type = hdd; path = codes "/a.img" }) ∷ [];
  };
}

vm-IsClean : IsClean caller vm
vm-IsClean = record {
  folder = omega arith;
  uuid = omega arith;
  extra = tt;
  interfaces = tt;
  discs = tt;
  drives = (omega arith, tt);
}

run_arguments_lem_example :
    run_arguments (assemble_boot_payload caller vm)
    ≡ instructions caller vm ++ codes "-f" ∷ (kexec caller vm ++ command_line caller vm) ∷ []
run_arguments_lem_example = run_arguments_lem caller vm vm-IsClean
