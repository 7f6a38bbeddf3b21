-- ===== src/Examples/Http.antt =====
-- The theorems on the VMs' requests at concrete addresses.
use corectl.Base.{
  [], ◌∷◌, ◌||◌, false, true, none, some, ◌≡◌, ◌↔◌, refl, codes, ◌=t◌, lookup, split, has_prefix,
}
use corectl.Examples.{core1}
use corectl.Http.{Network, Ip, remote_ip, is_loopback, in_network, parse_ip, refusal, same_network}
use corectl.Http.Access.{refusal_cases}
use corectl.Base.{◌⊎◌, ne_of_test, replace_byte, trim_suffix, trim_prefix}
use corectl.Dns.{invert_domain, fqdn, forward_key, entry, reverse_key, add_record}
use corectl.Dns.Records.{in_memory}
use corectl.Http.Ignition.{setup_of, IgnitionHost, ignition_config, ignition_config_lem}
use corectl.Registry.{Active}
use corectl.Vm.{Vm}

-- The default network of macOS.
abbrev vmnet : Network
vmnet = record { address = codes "192.168.64.1"; mask = codes "255.255.255.0" }

abbrev one : Active
one = (codes "A1", core1) ∷ []

refusal_cases_example :
    ((refusal vmnet (codes "10.0.0.1:80") (codes "A1") one ≡ some 401) ↔ (
      (is_loopback (remote_ip (codes "10.0.0.1:80")) ≡ false)
      × (in_network vmnet (remote_ip (codes "10.0.0.1:80")) ≡ false)))
    × ((refusal vmnet (codes "10.0.0.1:80") (codes "A1") one ≡ some 404) ↔ (
        ((is_loopback (remote_ip (codes "10.0.0.1:80"))
            || in_network vmnet (remote_ip (codes "10.0.0.1:80")))
          ≡ true)
        × (lookup (codes "A1") one ≡ none)))
    × ((refusal vmnet (codes "10.0.0.1:80") (codes "A1") one ≡ none) ↔ (
        ((is_loopback (remote_ip (codes "10.0.0.1:80"))
            || in_network vmnet (remote_ip (codes "10.0.0.1:80")))
          ≡ true)
        × ((vm : Vm) × (lookup (codes "A1") one ≡ some vm))))
    × ((refusal vmnet (codes "10.0.0.1:80") (codes "A1") one ≡ some 401)
        ⊎ (refusal vmnet (codes "10.0.0.1:80") (codes "A1") one ≡ some 404)
        ⊎ (refusal vmnet (codes "10.0.0.1:80") (codes "A1") one ≡ none))
refusal_cases_example = refusal_cases vmnet (codes "10.0.0.1:80") (codes "A1") one

abbrev host : Ip
host = record { a = 192; b = 168; c = 64; d = 1 }

abbrev guest : Ip
guest = record { a = 192; b = 168; c = 64; d = 2 }

-- A server whose template and translation are the identity on one text.
abbrev server : IgnitionHost
server = record {
  version = codes "0.7.18";
  home = codes "/Users/a";
  escape = λ t. t;
  read_file = λ t. none;
  execute = λ setup. (setup.hostname, false);
  translate = λ t. some t;
}

ignition_config_lem_example :
    let r =
      ignition_config in_memory server vmnet
        (codes "local")
        (codes "192.168.64.2:5000")
        (codes "A1")
        one
        [] in
    (r.0 ≡ record { status = 200; body = codes "core1\n" })
    × (lookup (forward_key (fqdn (codes "local") (codes "core1"))) r.2
        ≡ some (entry (codes "192.168.64.2")))
unfolding refusal is_loopback in_network parse_ip remote_ip lookup split has_prefix ◌=t◌
    same_network add_record setup_of forward_key fqdn reverse_key invert_domain replace_byte
    trim_suffix trim_prefix
ignition_config_lem_example =
    ignition_config_lem in_memory server vmnet (codes "local") (codes "192.168.64.2:5000")
      (codes "A1") (codes "core1") (codes "core1") one core1 [] _ refl refl refl refl refl refl
      (ne_of_test _ _ refl)
