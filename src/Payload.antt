-- ===== src/Payload.antt =====
-- components/server/run.go and rpcservices.go: the arguments of the hypervisor of a VM, as
-- `assembleBootPayload` joins them and `RPCservice.Run` splits them again.
pub mod Arguments
mod Decimal
pub mod Devices
pub mod Files
use corectl.Base.{
  ℕ, zero, suc, ◌+◌, ◌/◌, ◌%◌, Bool, true, false, List, [], ◌∷◌, ◌++◌, Text, codes, ◌=t◌, split,
  join, ltb, if◌then◌else◌, ℤ, pos, negsuc,
}
use corectl.Vm.{
  Vm, Kind, unset, raw, qcow2, tap, NetworkInterface, StorageDevice, Location, nowhere, local_file,
  remote_url, endpoint,
}

-- The digits of a number. The fuel is the number itself, one more than it needs.
decimal_digits : ℕ → ℕ → Text
decimal_digits zero n = []
decimal_digits (suc fuel) n =
    let rest = decimal_digits fuel (n / 10) in
    (if ltb n 10 then [] else rest) ++ (b'0' + n % 10) ∷ []

unfoldable pub decimal : ℕ → Text
unfolding decimal_digits
decimal n = decimal_digits (suc n) n

unfoldable pub show_int : ℤ → Text
unfolding decimal
show_int (pos n) = decimal n
show_int (negsuc n) = b'-' ∷ decimal (suc n)

-- What the session knows: `ImageStore`, `RunDir` and the host's address.
pub record Caller : Type 0 where
  pub image_store : Text
  pub run_dir : Text
  pub address : Text

-- `VMInfo.RunDir`; the paths are clean, so `filepath.Join` puts a slash between them.
unfoldable pub run_dir : Caller → Vm → Text
run_dir c vm = c.run_dir ++ b'/' ∷ vm.uuid

unfoldable pub log_file : Caller → Vm → Text
unfolding run_dir
log_file c vm = run_dir c vm ++ codes "/log"

unfoldable pub tty : Caller → Vm → Text
unfolding run_dir
tty c vm = run_dir c vm ++ codes "/tty"

abbrev pub slot : Text → ℕ → Text → List Text
slot bus n device = codes "-s" ∷ (bus ++ (decimal n ++ device)) ∷ []

-- One round of the loop over the interfaces.
unfoldable pub ethernet_argument : ℕ → NetworkInterface → List Text
unfolding decimal
ethernet_argument i n = elim n.kind [
  | tap ↦ slot (codes "2:") i (codes ",virtio-tap," ++ n.path)
  | unset ↦ slot (codes "2:") i (codes ",virtio-net")
  | raw ↦ slot (codes "2:") i (codes ",virtio-net")
  | qcow2 ↦ slot (codes "2:") i (codes ",virtio-net")
]

unfoldable pub ethernet_arguments : ℕ → List NetworkInterface → List Text
unfolding ethernet_argument
ethernet_arguments i [] = []
ethernet_arguments i (n ∷ ns) = ethernet_argument i n ++ ethernet_arguments (suc i) ns

unfoldable pub cd_arguments : List (ℕ × StorageDevice) → List Text
unfolding decimal
cd_arguments [] = []
cd_arguments ((k, d) ∷ ds) =
    slot (codes "3:") d.slot (codes ",ahci-cd," ++ d.path) ++ cd_arguments ds

-- The `switch` on the format: a drive of another format has no argument.
unfoldable pub drive_argument : StorageDevice → List Text
unfolding decimal
drive_argument d = elim d.format [
  | raw ↦ slot (codes "4:") d.slot (codes ",virtio-blk," ++ d.path)
  | qcow2 ↦
      slot (codes "4:") d.slot (codes ",virtio-blk,file://" ++ (d.path ++ codes ",format=qcow"))
  | unset ↦ []
  | tap ↦ []
]

unfoldable pub drive_arguments : List (ℕ × StorageDevice) → List Text
unfolding drive_argument
drive_arguments [] = []
drive_arguments ((k, d) ∷ ds) = drive_argument d ++ drive_arguments ds

abbrev pub if_set : Text → List Text → List Text
if_set [] xs = []
if_set (c ∷ s) xs = xs

-- `instr`, once everything is appended to it.
unfoldable pub instructions : Caller → Vm → List Text
unfolding log_file tty ethernet_arguments cd_arguments drive_arguments show_int
instructions c vm =
    codes "-s"
    ∷ codes "0:0,hostbridge"
    ∷ codes "-l"
    ∷ (codes "com1,autopty=" ++ (tty c vm ++ (codes ",log=" ++ log_file c vm)))
    ∷ codes "-s"
    ∷ codes "5,virtio-rnd"
    ∷ codes "-s"
    ∷ codes "31,lpc"
    ∷ codes "-U"
    ∷ vm.uuid
    ∷ codes "-m"
    ∷ (show_int vm.memory ++ codes "M")
    ∷ codes "-c"
    ∷ show_int vm.cpus
    ∷ codes "-A"
    ∷ codes "-u"
    ∷ (if_set vm.add_to_hypervisor (vm.add_to_hypervisor ∷ [])
        ++ (ethernet_arguments 0 vm.ethernet
            ++ (cd_arguments vm.storage.cd_drives ++ drive_arguments vm.storage.hard_drives)))

abbrev is_local : Location → Bool
is_local local_file = true
is_local _ = false

abbrev config_url : Caller → Vm → Text
config_url c vm =
    if is_local vm.cc_location
    then endpoint c.address vm ++ codes "/cloud-config"
    else vm.cloud_config

-- The kernel's command line.
unfoldable pub command_line : Caller → Vm → Text
unfolding endpoint
command_line c vm =
    codes "earlyprintk=serial console=ttyS0 coreos.autologin coreos.first_boot=1"
    ++ ((if vm.persistent_root then codes " root=LABEL=ROOT" else [])
        ++ (codes " corectl.hostname="
            ++ (vm.name
                ++ (codes "  coreos.config.url="
                    ++ (endpoint c.address vm
                        ++ (codes "/ignition"
                            ++ ((if vm.cloud_config =t []
                                  then []
                                  else codes " cloud-config-url=" ++ config_url c vm)
                                ++ (if vm.add_to_kernel =t []
                                    then []
                                    else b' ' ∷ vm.add_to_kernel))))))))

-- The kernel and the initial file system: "kexec,VMLINUZ,INITRD,"
unfoldable pub kexec : Caller → Vm → Text
kexec c vm =
    let folder = c.image_store ++ b'/' ∷ (vm.channel ++ b'/' ∷ vm.version) in
    codes "kexec,"
    ++ (folder
        ++ (codes "/coreos_production_pxe.vmlinuz,"
            ++ (folder ++ codes "/coreos_production_pxe_image.cpio.gz,")))

-- `assembleBootPayload`
unfoldable pub assemble_boot_payload : Caller → Vm → Text × Text × Text
unfolding instructions kexec command_line
assemble_boot_payload c vm = (join (instructions c vm) (b' ' ∷ []), kexec c vm, command_line c vm)

-- The arguments that `Run` gives to the hypervisor.
unfoldable pub run_arguments : Text × Text × Text → List Text
run_arguments (instr, kernel, line) = split instr b' ' ++ codes "-f" ∷ (kernel ++ line) ∷ []
