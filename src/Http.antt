-- ===== src/Http.antt =====
-- components/server/httpservices.go: what the server answers to the VMs.
pub mod Access
pub mod Callback
pub mod Ignition
use Prim.Native.Nat.{bit_and}
use corectl.Base.{
  ℕ, ◌+◌, ◌*◌, ◌-◌, Bool, true, false, ◌&&◌, ◌||◌, not, Option, none, some, List, [], ◌∷◌, ◌++◌,
  Text, codes, ◌=t◌, has_prefix, split, replace_all, lookup, insert, leb, ltb, ◌==◌, if◌then◌else◌,
  Outcome, returns, hangs, panics,
}
use corectl.Registry.{Active}
use corectl.Vm.{Vm, Location, nowhere, local_file, remote_url, send}

first_part : List Text → Text
first_part [] = []
first_part (p ∷ ps) = p

-- `remoteIP`
unfoldable pub remote_ip : Text → Text
unfolding first_part
remote_ip s = first_part (split s b':')

-- `isLoopback`
unfoldable pub is_loopback : Text → Bool
is_loopback s = has_prefix s (codes "127.")

-- net.ParseIP on dotted decimals, the only form that reaches the code here; `none` is nil.
digits_value : ℕ → Text → Option ℕ
digits_value n [] = some n
digits_value n (c ∷ s) =
    let rest = digits_value (n * 10 + (c - b'0')) s in
    if leb b'0' c && leb c b'9' && leb n 255 then rest else none

unfoldable pub parse_octet : Text → Option ℕ
unfolding digits_value
parse_octet [] = none
parse_octet (c ∷ s) = elim (digits_value 0 (c ∷ s)) [
  | none ↦ none
  | some n ↦ if leb n 255 then some n else none
]

pub record Ip : Type 0 where
  pub a : ℕ
  pub b : ℕ
  pub c : ℕ
  pub d : ℕ

infixl 5 ◌>>=◌
abbrev ◌>>=◌ : {A B : Type 0} → Option A → (A → Option B) → Option B
none >>= f = none
some a >>= f = f a

parse_parts : List Text → Option Ip
parse_parts (p ∷ q ∷ r ∷ s ∷ []) = do
  a ← parse_octet p
  b ← parse_octet q
  c ← parse_octet r
  d ← parse_octet s
  some (record { a = a; b = b; c = c; d = d })
parse_parts _ = none

unfoldable pub parse_ip : Text → Option Ip
unfolding parse_parts parse_octet
parse_ip s = parse_parts (split s b'.')

abbrev pub same_octet : ℕ → ℕ → ℕ → Bool
same_octet m x y = bit_and x m == bit_and y m

unfoldable pub same_network : Ip → Ip → Ip → Bool
same_network m x y =
    same_octet m.a x.a y.a
    && same_octet m.b x.b y.b
    && same_octet m.c x.c y.c
    && same_octet m.d x.d y.d

-- `session.Network`: the host's address and its mask
pub record Network : Type 0 where
  pub address : Text
  pub mask : Text

-- net.IPNet.Contains. A network whose address or mask does not parse is nil, and has only nil in it.
unfoldable pub contains : Option Ip → Option Ip → Option Ip → Bool
contains (some x) (some m) (some y) = same_network m x y
contains (some x) (some m) none = false
contains (some x) none (some y) = false
contains (some x) none none = true
contains none _ (some y) = false
contains none _ none = true

unfoldable pub in_network : Network → Text → Bool
unfolding contains
in_network n addr = contains (parse_ip n.address) (parse_ip n.mask) (parse_ip addr)

-- `acceptableRequest`, for a sender and the UUID in the path: `none`, or the status that it writes.
unfoldable pub refusal : Network → Text → Text → Active → Option ℕ
refusal n sender uuid m =
    let addr = remote_ip sender in
    if is_loopback addr || in_network n addr
    then elim (lookup uuid m) [ none ↦ some 404 | some vm ↦ none ]
    else some 401

-- A status and a body; a body with no other status goes out with 200.
pub record Reply : Type 0 where
  pub status : ℕ
  pub body : Text

-- `httpError`
abbrev pub http_error : ℕ → Reply
http_error status = record { status = status; body = [] }

abbrev pub is_local : Location → Bool
is_local local_file = true
is_local _ = false

-- The body of `httpInstanceCloudConfig` for a VM.
unfoldable pub cloud_config_of : Vm → Reply
cloud_config_of vm =
    if vm.cloud_config =t [] || not (is_local vm.cc_location)
    then http_error 412
    else elim vm.cloud_config_contents [
      | none ↦ http_error 500
      | some text ↦ record { status = 200; body = replace_all (codes "__vm.Name__") vm.name text }
    ]

-- `httpInstanceCloudConfig`
unfoldable pub cloud_config : Network → Text → Text → Active → Reply
cloud_config n sender uuid m = elim (refusal n sender uuid m) [
  | some status ↦ http_error status
  | none ↦ elim (lookup uuid m) [ none ↦ http_error 500 | some vm ↦ cloud_config_of vm ]
]

-- The VM's own part of `httpInstanceExternalConnectivity`, under its `sync.Once`.
unfoldable pub see_world : Vm → Vm
see_world vm =
    if vm.isolation_check then vm else record vm { isolation_check = true; not_isolated = true }

-- The VM's own part of `httpInstanceCallback`, under its `sync.Once`: the address is sent once.
unfoldable pub call_back : Text → Vm → Outcome Vm
call_back ip vm = if vm.call_back then returns vm else elim (send ip vm.public_ip_ch) [
  | returns c ↦ returns (record vm { call_back = true; public_ip_ch = c })
  | hangs ↦ hangs
  | panics ↦ panics
]

-- `httpInstanceExternalConnectivity`
unfoldable pub external_connectivity : Network → Text → Text → Active → Reply × Active
external_connectivity n sender uuid m = elim (refusal n sender uuid m) [
  | some status ↦ (http_error status, m)
  | none ↦ if is_loopback (remote_ip sender) then (http_error 401, m) else elim (lookup uuid m) [
    | none ↦ (http_error 500, m)
    | some vm ↦ (record { status = 200; body = codes "ok\n" }, insert vm.uuid (see_world vm) m)
  ]
]

-- `httpInstanceCallback`
unfoldable pub instance_callback : Network → Text → Text → Active → Outcome (Reply × Active)
instance_callback n sender uuid m = elim (refusal n sender uuid m) [
  | some status ↦ returns (http_error status, m)
  | none ↦
      if is_loopback (remote_ip sender) then returns (http_error 401, m) else elim (lookup uuid m) [
        | none ↦ panics
        | some vm ↦ elim (call_back (remote_ip sender) vm) [
          | returns vm' ↦
              returns (record { status = 200; body = codes "ok\n" }, insert vm.uuid vm' m)
          | hangs ↦ hangs
          | panics ↦ panics
        ]
      ]
]
