-- ===== src/Examples/Dns.antt =====
-- The theorems on the name server at concrete names and a store in memory.
use corectl.Base.{
  [], none, ◌≡◌, refl, codes, List, Text, ◌=t◌, lookup, insert, delete, split, trim_suffix,
  trim_prefix, if◌then◌else◌, replace_byte,
}
use corectl.Dns.{fqdn, forward_key, reverse_key, invert_domain, add_record, rm_record}
use corectl.Dns.Records.{in_memory, rm_record-add_record}

abbrev domain : Text
domain = codes "coreos.local"

abbrev ip : Text
ip = codes "192.168.64.2"

inverted : invert_domain (codes "core1.coreos.local") ≡ codes "local/coreos/core1"
unfolding invert_domain split trim_suffix trim_prefix
inverted = refl

abbrev key : Text
key = forward_key (fqdn domain (codes "core1"))

-- The store with the record of one VM.
abbrev one : List (Text × Text)
one = (add_record in_memory domain (codes "core1") ip []).0

rm_record-add_record_example :
    lookup key (rm_record in_memory domain (codes "core1") ip one).0
    ≡ (if reverse_key ip =t key then none else if key =t key then none else lookup key [])
unfolding add_record rm_record lookup ◌=t◌ insert forward_key reverse_key replace_byte invert_domain
    trim_suffix trim_prefix split fqdn delete
rm_record-add_record_example =
    rm_record-add_record in_memory domain (codes "core1") ip [] one _ key refl refl
