-- ===== src/Payload/Devices.antt =====
-- components/server/run.go: the arguments for the VM's devices have no spaces.
use corectl.Base.{
  ℕ, zero, suc, ◌/◌, Bool, true, false, List, [], ◌∷◌, ◌++◌, Text, ◌≢◌, All, All-append, arith,
  codes, Lacks, ltb, if◌then◌else◌, ℤ, pos, negsuc,
}
use corectl.Payload.{
  decimal_digits, decimal, show_int, slot, ethernet_argument, ethernet_arguments, cd_arguments,
  drive_argument, drive_arguments,
}
use corectl.Vm.{Kind, unset, raw, qcow2, tap, NetworkInterface, StorageDevice}

abbrev pub NoSpace : Text → Type 0
NoSpace = Lacks b' '

abbrev pub NoSpaces : List Text → Type 0
NoSpaces = All NoSpace

pub Lacks-append : (s t : Text) → NoSpace s → NoSpace t → NoSpace (s ++ t)
Lacks-append s t h k = All-append (λ c. c ≢ b' ') s t h k

decimal_digits-NoSpace : (fuel n : ℕ) → NoSpace (decimal_digits fuel n)
unfolding decimal_digits
decimal_digits-NoSpace zero n = tt
decimal_digits-NoSpace (suc fuel) n =
    Lacks-append (if ltb n 10 then [] else decimal_digits fuel (n / 10)) _
      (either (ltb n 10) (decimal_digits fuel (n / 10)) (decimal_digits-NoSpace fuel (n / 10)))
      ((λ e. omega arith), tt)
  where
    either : (b : Bool) (t : Text) → NoSpace t → NoSpace (if b then [] else t)
    either true t h = tt
    either false t h = h

pub show_int-NoSpace : (x : ℤ) → NoSpace (show_int x)
unfolding show_int decimal
show_int-NoSpace (pos n) = decimal_digits-NoSpace (suc n) n
show_int-NoSpace (negsuc n) = ((λ e. omega arith), decimal_digits-NoSpace (suc (suc n)) (suc n))

slot-NoSpaces :
    (bus : Text) (n : ℕ) (device : Text)
    → NoSpace bus
    → NoSpace device
    → NoSpaces (slot bus n device)
unfolding decimal
slot-NoSpaces bus n device b d = (
  (omega arith),
  (Lacks-append bus _ b (Lacks-append _ device (decimal_digits-NoSpace (suc n) n) d), tt),
)

abbrev pub CleanDevice : ℕ × StorageDevice → Type 0
CleanDevice e = NoSpace e.1.path

pub ethernet_arguments-NoSpaces :
    (i : ℕ) (ns : List NetworkInterface)
    → All (λ n. NoSpace n.path) ns
    → NoSpaces (ethernet_arguments i ns)
unfolding ethernet_arguments ethernet_argument
ethernet_arguments-NoSpaces i [] h = tt
ethernet_arguments-NoSpaces i (n ∷ ns) h =
    All-append NoSpace (ethernet_argument i n) _ (one n.kind)
      (ethernet_arguments-NoSpaces (suc i) ns h.1)
  where
    net : NoSpaces (slot (codes "2:") i (codes ",virtio-net"))
    net = slot-NoSpaces (codes "2:") i (codes ",virtio-net") (omega arith) (omega arith)

    tapped : NoSpaces (slot (codes "2:") i (codes ",virtio-tap," ++ n.path))
    tapped =
        slot-NoSpaces (codes "2:") i (codes ",virtio-tap," ++ n.path) (omega arith)
          (Lacks-append (codes ",virtio-tap,") n.path (omega arith) h.0)

    one :
        (k : Kind)
        → NoSpaces (elim k [
          | tap ↦ slot (codes "2:") i (codes ",virtio-tap," ++ n.path)
          | unset ↦ slot (codes "2:") i (codes ",virtio-net")
          | raw ↦ slot (codes "2:") i (codes ",virtio-net")
          | qcow2 ↦ slot (codes "2:") i (codes ",virtio-net")
        ])
    one tap = tapped
    one unset = net
    one raw = net
    one qcow2 = net

pub cd_arguments-NoSpaces :
    (ds : List (ℕ × StorageDevice)) → All CleanDevice ds → NoSpaces (cd_arguments ds)
unfolding cd_arguments
cd_arguments-NoSpaces [] h = tt
cd_arguments-NoSpaces ((k, d) ∷ ds) h =
    All-append NoSpace (slot (codes "3:") d.slot (codes ",ahci-cd," ++ d.path)) _
      (slot-NoSpaces (codes "3:") d.slot (codes ",ahci-cd," ++ d.path) (omega arith)
        (Lacks-append (codes ",ahci-cd,") d.path (omega arith) h.0))
      (cd_arguments-NoSpaces ds h.1)

pub drive_arguments-NoSpaces :
    (ds : List (ℕ × StorageDevice)) → All CleanDevice ds → NoSpaces (drive_arguments ds)
unfolding drive_arguments drive_argument
drive_arguments-NoSpaces [] h = tt
drive_arguments-NoSpaces ((k, d) ∷ ds) h =
    All-append NoSpace (drive_argument d) _ (one d.format) (drive_arguments-NoSpaces ds h.1)
  where
    one :
        (f : Kind)
        → NoSpaces (elim f [
          | raw ↦ slot (codes "4:") d.slot (codes ",virtio-blk," ++ d.path)
          | qcow2 ↦
              slot
                (codes "4:")
                d.slot
                (codes ",virtio-blk,file://" ++ (d.path ++ codes ",format=qcow"))
          | unset ↦ []
          | tap ↦ []
        ])
    one raw =
        slot-NoSpaces (codes "4:") d.slot (codes ",virtio-blk," ++ d.path) (omega arith)
          (Lacks-append (codes ",virtio-blk,") d.path (omega arith) h.0)
    one qcow2 =
        slot-NoSpaces (codes "4:") d.slot
          (codes ",virtio-blk,file://" ++ (d.path ++ codes ",format=qcow")) (omega arith)
          (Lacks-append (codes ",virtio-blk,file://") _ (omega arith)
            (Lacks-append d.path (codes ",format=qcow") h.0 (omega arith)))
    one unset = tt
    one tap = tt
