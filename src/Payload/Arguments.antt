-- ===== src/Payload/Arguments.antt =====
-- components/server/run.go and rpcservices.go: the arguments arrive as they were assembled.
use corectl.Base.{[], ◌∷◌, ◌++◌, Text, ◌≡◌, ap, All, All-append, arith, codes, split-join}
use corectl.Payload.{
  show_int, Caller, run_dir, log_file, tty, ethernet_arguments, cd_arguments, if_set, instructions,
  kexec, command_line, assemble_boot_payload, run_arguments,
}
use corectl.Vm.{Vm}
use corectl.Payload.Devices.{
  NoSpace, NoSpaces, Lacks-append, show_int-NoSpace, CleanDevice, ethernet_arguments-NoSpaces,
  cd_arguments-NoSpaces, drive_arguments-NoSpaces,
}

-- What the arguments are made of has no space.
pub record IsClean (c : Caller) (vm : Vm) : Type 0 where
  pub folder : NoSpace c.run_dir
  pub uuid : NoSpace vm.uuid
  pub extra : NoSpace vm.add_to_hypervisor
  pub interfaces : All (λ n. NoSpace n.path) vm.ethernet
  pub discs : All CleanDevice vm.storage.cd_drives
  pub drives : All CleanDevice vm.storage.hard_drives

extra-NoSpaces : (s : Text) → NoSpace s → NoSpaces (if_set s (s ∷ []))
extra-NoSpaces [] h = tt
extra-NoSpaces (c ∷ s) h = (h, tt)

instructions-NoSpaces : (c : Caller) (vm : Vm) → IsClean c vm → NoSpaces (instructions c vm)
unfolding instructions tty log_file run_dir
instructions-NoSpaces c vm h =
    let dir : NoSpace (run_dir c vm) =
      Lacks-append c.run_dir (b'/' ∷ vm.uuid) h.folder (omega arith, h.uuid) in
    let console : NoSpace
        (codes "com1,autopty=" ++ (tty c vm ++ (codes ",log=" ++ log_file c vm))) =
      Lacks-append (codes "com1,autopty=") _ (omega arith) (
        Lacks-append (tty c vm) _ (Lacks-append (run_dir c vm) (codes "/tty") dir (omega arith)) (
          Lacks-append (codes ",log=") _ (omega arith)
            (Lacks-append (run_dir c vm) (codes "/log") dir (omega arith)))) in
    let memory : NoSpace (show_int vm.memory ++ codes "M") =
      Lacks-append (show_int vm.memory) (codes "M") (show_int-NoSpace vm.memory) (omega arith) in
    let devices =
      All-append NoSpace (if_set vm.add_to_hypervisor (vm.add_to_hypervisor ∷ [])) _
        (extra-NoSpaces vm.add_to_hypervisor h.extra)
        (All-append NoSpace (ethernet_arguments 0 vm.ethernet) _
          (ethernet_arguments-NoSpaces 0 vm.ethernet h.interfaces)
          (All-append NoSpace (cd_arguments vm.storage.cd_drives) _
            (cd_arguments-NoSpaces vm.storage.cd_drives h.discs)
            (drive_arguments-NoSpaces vm.storage.hard_drives h.drives))) in
    ground (arith, console, h.uuid, memory, show_int-NoSpace vm.cpus, devices)

-- If no path, no UUID and no extra argument has a space, the hypervisor gets the arguments that
-- `assembleBootPayload` lists, each of them whole, and the kernel with its command line as the last.
pub run_arguments_lem :
    (c : Caller) (vm : Vm)
    → IsClean c vm
    → run_arguments (assemble_boot_payload c vm)
      ≡ instructions c vm ++ codes "-f" ∷ (kexec c vm ++ command_line c vm) ∷ []
unfolding run_arguments assemble_boot_payload instructions
run_arguments_lem c vm h =
    ap (λ xs. xs ++ codes "-f" ∷ (kexec c vm ++ command_line c vm) ∷ [])
      (split-join _ _ b' ' (instructions-NoSpaces c vm h))
