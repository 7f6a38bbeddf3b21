-- ===== src/Http/Access.antt =====
-- components/server/httpservices.go: who is answered, and with what status.
use Prim.Native.Nat.{bit_and, suc, zero}
use corectl.Base.{
  ℕ, ◌<◌, Bool, true, false, ◌&&◌, ◌||◌, Option, List, [], leb, split, Option-cases, inl, inr, none,
  some, ◌∷◌, ◌++◌, Text, ◌≡◌, ◌↔◌, ◌⊎◌, refl, arith, lookup, ◌==◌, if◌then◌else◌, Lacks,
  split_at_sep,
}
use corectl.Http.{
  digits_value, parse_parts, parse_octet, Ip, Network, remote_ip, is_loopback, parse_ip,
  same_network, in_network, refusal,
}
use corectl.Registry.{Active}
use corectl.Vm.{Vm}

-- A request is refused with 401 exactly if its sender is neither on the host nor in the VMs'
-- network, and with 404 exactly if its sender is in one of them and the UUID is unknown; it goes
-- through exactly if its sender is in one of them and the VM is registered. There is no other refusal.
pub refusal_cases :
    (n : Network) (sender uuid : Text) (m : Active)
    → ((refusal n sender uuid m ≡ some 401)
        ↔ ((is_loopback (remote_ip sender) ≡ false) × (in_network n (remote_ip sender) ≡ false)))
      × ((refusal n sender uuid m ≡ some 404) ↔ (
          ((is_loopback (remote_ip sender) || in_network n (remote_ip sender)) ≡ true)
          × (lookup uuid m ≡ none)))
      × ((refusal n sender uuid m ≡ none) ↔ (
          ((is_loopback (remote_ip sender) || in_network n (remote_ip sender)) ≡ true)
          × ((vm : Vm) × (lookup uuid m ≡ some vm))))
      × ((refusal n sender uuid m ≡ some 401)
          ⊎ (refusal n sender uuid m ≡ some 404)
          ⊎ (refusal n sender uuid m ≡ none))
unfolding refusal
refusal_cases n sender uuid m = elim (Option-cases (lookup uuid m)) [
  | inl e ↦ (
    (λ h. ground arith, λ h. ground arith),
    (λ h. ground arith, λ h. ground arith),
    (λ h. absurd (ground arith), λ h. ground arith),
    ground arith,
  )
  | inr (vm, e) ↦ (
    (λ h. ground arith, λ h. ground arith),
    (λ h. absurd (ground arith), λ h. ground arith),
    (λ h. (ground arith, (vm, e)), λ h. ground arith),
    ground arith,
  )
]

-- `remoteIP` cuts the port off an address that has no colon of its own.
pub remote_ip_lem : (addr port : Text) → Lacks b':' addr → remote_ip (addr ++ b':' ∷ port) ≡ addr
unfolding remote_ip
remote_ip_lem addr port h = rw (split_at_sep addr port b':' h) refl

-- A test of the octets below a bound.
unfoldable pub for_octets : (ℕ → Bool) → ℕ → Bool
for_octets test zero = true
for_octets test (suc n) = if test n then for_octets test n else false

pub for_octets_at : (test : ℕ → Bool) (n o : ℕ) → o < n → for_octets test n ≡ true → test o ≡ true
unfolding for_octets
for_octets_at test zero o l e = absurd (omega arith)
for_octets_at test (suc n) o l e = ground (arith, for_octets_at test n o)

keeps_octet : ℕ → Bool
keeps_octet o = bit_and o 255 == o

clears_octet : ℕ → Bool
clears_octet o = bit_and o 0 == 0

masks_checked : (for_octets keeps_octet 256 ≡ true) × (for_octets clears_octet 256 ≡ true)
unfolding for_octets keeps_octet clears_octet
masks_checked = (refl, refl)

full_octet : (o : ℕ) → o < 256 → bit_and o 255 ≡ o
unfolding keeps_octet
full_octet o l = ground (arith, for_octets_at keeps_octet 256 o l masks_checked.0)

empty_octet : (o : ℕ) → o < 256 → bit_and o 0 ≡ 0
unfolding clears_octet
empty_octet o l = ground (arith, for_octets_at clears_octet 256 o l masks_checked.1)

pub record IsIp (x : Ip) : Type 0 where
  pub a_fits : x.a < 256
  pub b_fits : x.b < 256
  pub c_fits : x.c < 256
  pub d_fits : x.d < 256

abbrev pub default_mask : Ip
default_mask = record { a = 255; b = 255; c = 255; d = 0 }

same_network_default :
    (host guest : Ip)
    → IsIp host
    → IsIp guest
    → same_network default_mask host guest
      ≡ (host.a == guest.a && host.b == guest.b && host.c == guest.c)
unfolding same_network
same_network_default host guest v w = ground (
  arith,
  full_octet host.a v.a_fits,
  full_octet host.b v.b_fits,
  full_octet host.c v.c_fits,
  empty_octet host.d v.d_fits,
  full_octet guest.a w.a_fits,
  full_octet guest.b w.b_fits,
  full_octet guest.c w.c_fits,
  empty_octet guest.d w.d_fits,
)

-- With the mask 255.255.255.0 an address is in the VMs' network exactly if its first three octets
-- are those of the host's address.
pub in_network_default :
    (n : Network) (addr : Text) (host guest : Ip)
    → parse_ip n.address ≡ some host
    → parse_ip n.mask ≡ some default_mask
    → parse_ip addr ≡ some guest
    → IsIp host
    → IsIp guest
    → (in_network n addr ≡ true) ↔ ((host.a ≡ guest.a) × (host.b ≡ guest.b) × (host.c ≡ guest.c))
unfolding in_network
in_network_default n addr host guest p q r v w =
    let facts : (in_network n addr)
        ≡ (host.a == guest.a && host.b == guest.b && host.c == guest.c) =
      rw (p, q, r) (same_network_default host guest v w) in
    (λ h. ground arith, λ h. ground arith)

parse_octet_fits : (s : Text) (n : ℕ) → parse_octet s ≡ some n → n < 256
unfolding parse_octet
parse_octet_fits [] n e = absurd (cc)
parse_octet_fits (c ∷ s) n e = fits_of (digits_value 0 (c ∷ s)) e
  where
    fits_of :
        (o : Option ℕ)
        → (elim o [ none ↦ none | some m ↦ if leb m 255 then some m else none ]) ≡ some n
        → n < 256
    fits_of none e = absurd (cc)
    fits_of (some m) e = ground arith

parse_parts-IsIp : (ps : List Text) (x : Ip) → parse_parts ps ≡ some x → IsIp x
unfolding parse_parts
parse_parts-IsIp [] x e = absurd (cc)
parse_parts-IsIp (p ∷ []) x e = absurd (cc)
parse_parts-IsIp (p ∷ q ∷ []) x e = absurd (cc)
parse_parts-IsIp (p ∷ q ∷ r ∷ []) x e = absurd (cc)
parse_parts-IsIp (p ∷ q ∷ r ∷ s ∷ t ∷ ts) x e = absurd (cc)
parse_parts-IsIp (p ∷ q ∷ r ∷ s ∷ []) x e = elim (Option-cases (parse_octet p)) [
  | inl a ↦ absurd (ground arith)
  | inr (a, ea) ↦ elim (Option-cases (parse_octet q)) [
    | inl b ↦ absurd (ground arith)
    | inr (b, eb) ↦ elim (Option-cases (parse_octet r)) [
      | inl c ↦ absurd (ground arith)
      | inr (c, ec) ↦ elim (Option-cases (parse_octet s)) [
        | inl d ↦ absurd (ground arith)
        | inr (d, ed) ↦
            let fa = parse_octet_fits p a ea in
            let fb = parse_octet_fits q b eb in
            let fc = parse_octet_fits r c ec in let fd = parse_octet_fits s d ed in ground arith
      ]
    ]
  ]
]

-- What parses has four octets.
pub parse_ip-IsIp : (s : Text) (x : Ip) → parse_ip s ≡ some x → IsIp x
unfolding parse_ip
parse_ip-IsIp s x e = parse_parts-IsIp (split s b'.') x e
