-- ===== src/Dns/Records.antt =====
-- components/server/dns.go: what adding and removing a record does to the store.
use corectl.Base.{
  Bool, true, false, Option, none, some, List, Text, ◌≡◌, refl, ◌∙◌, ◌=t◌, arith, if◌then◌else◌,
  lookup, insert, delete, lookup-insert, lookup-delete,
}
use corectl.Dns.{
  KeysApi, fqdn, forward_key, reverse_key, entry, add_record, rm_record, both_calls_inv,
}

module _ (k : KeysApi) (domain host ip : Text) where
  abbrev here : Text
  here = forward_key (fqdn domain host)

  -- After a record was added, the name has the address and the address has the name; every other
  -- key has what it had.
  pub add_record_lem :
      (s t : k.Store) (j : Text)
      → add_record k domain host ip s ≡ (t, true)
      → k.get j t ≡ (
          if reverse_key ip =t j
          then some (entry (fqdn domain host))
          else if here =t j
          then some (entry ip)
          else k.get j s)
  unfolding add_record
  add_record_lem s t j e =
      let (m, p, q) =
        both_calls_inv s t (k.set here (entry ip) s)
          (k.set (reverse_key ip) (entry (fqdn domain host))) e in
      k.get-set (reverse_key ip) j _ m t q ∙ rw (k.get-set here j _ s m p) refl

  gone_twice :
      (a b : Bool) (x y z : Option Text)
      → (if a then none else if b then none else (if a then x else if b then y else z))
        ≡ (if a then none else if b then none else z)
  gone_twice true _ x y z = refl
  gone_twice false true x y z = refl
  gone_twice false false x y z = refl

  -- Removing what was added leaves neither key, and every other key as it was before.
  pub rm_record-add_record :
      (s t u : k.Store) (j : Text)
      → add_record k domain host ip s ≡ (t, true)
      → rm_record k domain host ip t ≡ (u, true)
      → k.get j u ≡ (if reverse_key ip =t j then none else if here =t j then none else k.get j s)
  unfolding rm_record
  rm_record-add_record s t u j e f =
      let (m, p, q) = both_calls_inv t u (k.delete here t) (k.delete (reverse_key ip)) f in
      k.get-delete (reverse_key ip) j m u q
      ∙ rw (k.get-delete here j t m p, add_record_lem s t j e)
          (gone_twice (reverse_key ip =t j) (here =t j) _ _ _)

-- An etcd that keeps its keys in a list and never fails, but to delete a key that is missing.
abbrev pub in_memory_delete : Text → List (Text × Text) → Option (List (Text × Text))
in_memory_delete key s = elim (lookup key s) [ none ↦ none | some v ↦ some (delete key s) ]

pub in_memory-get-set :
    (i j v : Text) (s t : List (Text × Text))
    → some (insert i v s) ≡ some t
    → lookup j t ≡ (if i =t j then some v else lookup j s)
in_memory-get-set i j v s t e = ground (arith, lookup-insert i j v s)

pub in_memory-get-delete :
    (i j : Text) (s t : List (Text × Text))
    → in_memory_delete i s ≡ some t
    → lookup j t ≡ (if i =t j then none else lookup j s)
in_memory-get-delete i j s t e = ground (arith, lookup-delete i j s)

abbrev pub in_memory : KeysApi
in_memory = record {
  Store = List (Text × Text);
  get = lookup;
  set = λ i v s. some (insert i v s);
  delete = in_memory_delete;
  get-set = in_memory-get-set;
  get-delete = in_memory-get-delete;
}
