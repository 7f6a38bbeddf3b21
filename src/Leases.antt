-- ===== src/Leases.antt =====
-- components/host/darwin/misc/uuid2ip/uuid2ip.go: the address that a MAC address was leased,
-- and the MAC address of a UUID.
pub mod Scan
use mathlib.Core.List.{reverse}
use corectl.Base.{
  ℕ, Bool, true, false, Option, none, some, List, [], ◌∷◌, ◌++◌, Text, codes, ◌=t◌, has_prefix,
  drop, length, split, replace_all, to_lower, ◌==◌, if◌then◌else◌, Result, ok, err,
}
use corectl.Daemon.{Error, other}

-- strings.TrimRight(l, "\r")
unfoldable pub trim_returns : Text → Text
trim_returns [] = []
trim_returns (c ∷ s) = if c == 13 then trim_returns s else c ∷ s

unfoldable pub trim_line : Text → Text
unfolding trim_returns
trim_line l = reverse (trim_returns (reverse l))

-- `^.*key(.+?)$`: what follows the last key that something follows.
unfoldable pub value_here : Text → Text → Option Text
value_here key s =
    if has_prefix s key
    then elim (drop (length key) s) [ [] ↦ none | c ∷ r ↦ some (c ∷ r) ]
    else none

unfoldable pub value_of : Text → Text → Option Text
unfolding value_here
value_of key [] = none
value_of key (c ∷ s) =
    let later = value_of key s in elim later [ some v ↦ some v | none ↦ value_here key (c ∷ s) ]

abbrev pub ip_key : Text
ip_key = codes "ip_address="

abbrev pub mac_key : Text
mac_key = codes "hw_address=1,"

-- strings.TrimPrefix(s, "0")
unfoldable pub trim_zero : Text → Text
trim_zero [] = []
trim_zero (c ∷ s) = if c == b'0' then s else c ∷ s

-- The address as the lease file has it, without the zeros that begin its parts.
unfoldable pub stripped : Text → Text
unfolding trim_zero
stripped mac = trim_zero (replace_all (codes ":0") (codes ":") mac)

-- strings.EqualFold on ASCII text
unfoldable pub equal_fold : Text → Text → Bool
equal_fold s t = to_lower s =t to_lower t

-- What a line says.
pub data Line : Type 0 where
  leases : Text → Line
  names_mac : Line
  says_nothing : Line

unfoldable pub read_mac : Text → Option Text → Line
unfolding stripped equal_fold
read_mac mac none = says_nothing
read_mac mac (some v) = if equal_fold v (stripped mac) then names_mac else says_nothing

unfoldable pub read_ip : Text → Text → Option Text → Line
unfolding read_mac value_of
read_ip mac l (some ip) = leases ip
read_ip mac l none = read_mac mac (value_of mac_key l)

unfoldable pub read_line : Text → Text → Line
unfolding read_ip trim_line
read_line mac l = read_ip mac (trim_line l) (value_of ip_key (trim_line l))

unfoldable pub read_lines : Text → List Text → List Line
unfolding read_line
read_lines mac [] = []
read_lines mac (l ∷ ls) = read_line mac l ∷ read_lines mac ls

-- The loop over the lines; `last` is `lastFound`.
unfoldable pub scan : List Line → Text → Result Error Text
scan [] last = err other
scan (leases ip ∷ ls) last = scan ls ip
scan (names_mac ∷ ls) last = ok last
scan (says_nothing ∷ ls) last = scan ls last

-- `GuestIPfromMAC`, given the lease file
unfoldable pub guest_ip : Result Error Text → Text → Result Error Text
unfolding scan read_lines
guest_ip (err e) mac = err e
guest_ip (ok all) mac = scan (read_lines mac (split all b'\n')) []

-- `GuestMACfromUUID`, given the text that vmnet answers and what `net.ParseMAC` makes of a text.
unfoldable pub guest_mac : Text → (Text → Result Error Text) → Result Error Text
guest_mac [] parse = err other
guest_mac (c ∷ t) parse = parse (c ∷ t)
