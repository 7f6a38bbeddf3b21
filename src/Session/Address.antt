-- ===== src/Session/Address.antt =====
-- components/host/session/session.go: the VMs' network, as `SetContext` and `Base` give it.
use Prim.Native.Nat.{bit_and}
use corectl.Base.{
  ℕ, ◌<◌, Bool, true, false, ◌&&◌, Option, none, some, [], ◌∷◌, Text, ◌≡◌, refl, ◌↔◌, arith, ◌==◌,
  if◌then◌else◌, Lacks, err, split, split-join, ltb,
}
use corectl.Daemon.{Error}
use corectl.Http.{Ip, Network, parse_ip, parse_octet, same_network, in_network, contains}
use corectl.Http.Access.{IsIp, in_network_default, parse_ip-IsIp, for_octets, for_octets_at}
use corectl.Payload.{decimal}
use corectl.Session.{
  base, mask_ip, show_ip, show_masked, set_context, trim_space, trim_left, is_blank,
}

-- Where `defaults` answers neither for the address nor for the mask, the VMs' network is
-- 192.168.64.0/24.
pub set_context_default :
    (e f : Error) (addr : Text) (guest : Ip)
    → parse_ip addr ≡ some guest
    → IsIp guest
    → (in_network (set_context (err e) (err f)) addr ≡ true)
      ↔ ((192 ≡ guest.a) × (168 ≡ guest.b) × (64 ≡ guest.c))
unfolding set_context trim_space trim_left is_blank parse_ip split
set_context_default e f addr guest p v =
    let host : Ip = record { a = 192; b = 168; c = 64; d = 1 } in
    in_network_default (set_context (err e) (err f)) addr host guest refl refl p
      (record {
        a_fits = omega arith;
        b_fits = omega arith;
        c_fits = omega arith;
        d_fits = omega arith;
      })
      v

lacks_dot : Text → Bool
lacks_dot [] = true
lacks_dot (c ∷ s) = if c == b'.' then false else lacks_dot s

lacks_dot-Lacks : (s : Text) → lacks_dot s ≡ true → Lacks b'.' s
unfolding lacks_dot
lacks_dot-Lacks [] e = tt
lacks_dot-Lacks (c ∷ s) e = (ground arith, lacks_dot-Lacks s (ground arith))

same_option : Option ℕ → ℕ → Bool
same_option none n = false
same_option (some m) n = m == n

same_option_lem : (o : Option ℕ) (n : ℕ) → same_option o n ≡ true → o ≡ some n
unfolding same_option
same_option_lem none n e = cc
same_option_lem (some m) n e = ground arith

-- Printed octets are read back, and have no dot.
reads_back : ℕ → Bool
reads_back o = same_option (parse_octet (decimal o)) o && lacks_dot (decimal o)

all_read_back : for_octets reads_back 256 ≡ true
unfolding for_octets reads_back same_option parse_octet decimal lacks_dot
all_read_back = refl

octet_lem : (o : ℕ) → o < 256 → (parse_octet (decimal o) ≡ some o) × Lacks b'.' (decimal o)
unfolding reads_back
octet_lem o l =
    let t = for_octets_at reads_back 256 o l all_read_back in
    (same_option_lem _ o (ground arith), lacks_dot-Lacks _ (ground arith))

-- A printed address is read back.
pub parse_ip-show_ip : (x : Ip) → IsIp x → parse_ip (show_ip x) ≡ some x
unfolding parse_ip show_ip
parse_ip-show_ip x v =
    let (a, al) = octet_lem x.a v.a_fits in
    let (b, bl) = octet_lem x.b v.b_fits in
    let (c, cl) = octet_lem x.c v.c_fits in
    let (d, dl) = octet_lem x.d v.d_fits in
    rw
      (
        split-join (decimal x.a) (decimal x.b ∷ decimal x.c ∷ decimal x.d ∷ []) b'.'
            (al, (bl, (cl, (dl, tt)))),
        a,
        b,
        c,
        d,
      )
      refl

-- Masking twice is masking once, and stays an octet.
masks_once : ℕ → ℕ → Bool
masks_once m x = (bit_and (bit_and x m) m == bit_and x m) && ltb (bit_and x m) 256

masks_all : ℕ → Bool
masks_all m = for_octets (masks_once m) 256

all_masks : for_octets masks_all 256 ≡ true
unfolding for_octets masks_all masks_once
all_masks = refl

mask_lem :
    (m x : ℕ) → m < 256 → x < 256 → (bit_and (bit_and x m) m ≡ bit_and x m) × (bit_and x m < 256)
unfolding masks_all masks_once
mask_lem m x l k =
    let t = for_octets_at (masks_once m) 256 x k (for_octets_at masks_all 256 m l all_masks) in
    ground arith

mask_ip-IsIp : (x m : Ip) → IsIp x → IsIp m → IsIp (mask_ip x m)
unfolding mask_ip
mask_ip-IsIp x m v w = record {
  a_fits = (mask_lem m.a x.a w.a_fits v.a_fits).1;
  b_fits = (mask_lem m.b x.b w.b_fits v.b_fits).1;
  c_fits = (mask_lem m.c x.c w.c_fits v.c_fits).1;
  d_fits = (mask_lem m.d x.d w.d_fits v.d_fits).1;
}

same_network-mask_ip : (x m : Ip) → IsIp x → IsIp m → same_network m x (mask_ip x m) ≡ true
unfolding same_network mask_ip
same_network-mask_ip x m v w = ground (
  arith,
  (mask_lem m.a x.a w.a_fits v.a_fits).0,
  (mask_lem m.b x.b w.b_fits v.b_fits).0,
  (mask_lem m.c x.c w.c_fits v.c_fits).0,
  (mask_lem m.d x.d w.d_fits v.d_fits).0,
)

-- `Base` prints the host's address with the bits outside the mask cleared: the print reads back as
-- that address, and the address is one of the VMs' network.
pub base_lem :
    (n : Network) (x m : Ip)
    → parse_ip n.address ≡ some x
    → parse_ip n.mask ≡ some m
    → (parse_ip (base n) ≡ some (mask_ip x m)) × (in_network n (base n) ≡ true)
unfolding base show_masked in_network contains
base_lem n x m p q =
    let v = parse_ip-IsIp n.address x p in
    let w = parse_ip-IsIp n.mask m q in
    let r = parse_ip-show_ip (mask_ip x m) (mask_ip-IsIp x m v w) in
    rw (p, q, r) (refl, same_network-mask_ip x m v w)
