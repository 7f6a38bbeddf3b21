-- ===== src/Dns.antt =====
-- components/server/dns.go: the records of the embedded name server.
pub mod Paths
pub mod Records
use mathlib.Core.List.{reverse}
use corectl.Base.{
  ℕ, Bool, true, false, Option, none, some, List, [], ◌∷◌, ◌++◌, Text, codes, ◌≡◌, refl, ◌=t◌,
  split, trim_suffix, replace_byte, if◌then◌else◌,
}

-- `client.KeysAPI`, the etcd client, over the store of the server. `none` is an error. A key that
-- is set reads back, a key that is deleted is gone, and neither call touches another key.
pub record KeysApi : Type 1 where
  pub Store : Type 0
  pub get : Text → Store → Option Text
  pub set : Text → Text → Store → Option Store
  pub delete : Text → Store → Option Store
  pub get-set :
      (k j v : Text) (s t : Store)
      → set k v s ≡ some t
      → get j t ≡ (if k =t j then some v else get j s)
  pub get-delete :
      (k j : Text) (s t : Store)
      → delete k s ≡ some t
      → get j t ≡ (if k =t j then none else get j s)

-- The loop of `invertDomain`, over the parts from the last one.
add_parts : List Text → Text → Text
add_parts [] out = out
add_parts (p ∷ ps) out = add_parts ps (out ++ (p ++ b'/' ∷ []))

-- `invertDomain`
unfoldable pub invert_domain : Text → Text
unfolding add_parts
invert_domain s = trim_suffix b'/' (add_parts (reverse (split s b'.')) [])

-- `fqdn` for a host under `LocalDomainName`
unfoldable pub fqdn : Text → Text → Text
fqdn domain host = host ++ b'.' ∷ domain

unfoldable pub forward_key : Text → Text
forward_key name = codes "/skydns/" ++ replace_byte b'.' b'/' (invert_domain name)

unfoldable pub reverse_key : Text → Text
reverse_key ip = codes "/skydns/arpa/in-addr/" ++ replace_byte b'.' b'/' ip

unfoldable pub entry : Text → Text
entry host = codes "{\"host\":\"" ++ (host ++ codes "\", \"TTL\": 20 }")

-- Two calls on the store, the second one only if the first succeeds; the error is the last one's.
module _ {S : Type 0} where
  unfoldable pub last_call : S → Option S → S × Bool
  last_call s none = (s, false)
  last_call s (some t) = (t, true)

  unfoldable pub both_calls : S → Option S → (S → Option S) → S × Bool
  unfolding last_call
  both_calls s none f = (s, false)
  both_calls s (some t) f = last_call t (f t)

  pub both_calls_inv :
      (s u : S) (o : Option S) (f : S → Option S)
      → both_calls s o f ≡ (u, true)
      → (t : S) × (o ≡ some t) × (f t ≡ some u)
  unfolding both_calls
  both_calls_inv s u none f e = cc
  both_calls_inv s u (some t) f e = (t, refl, last (f t) e)
    where
      last : (o : Option S) → last_call t o ≡ (u, true) → o ≡ some u
      last none q = cc
      last (some v) q = cc

module _ (k : KeysApi) (domain : Text) where
  -- `addRecord`: the store, and whether it succeeded
  unfoldable pub add_record : Text → Text → k.Store → k.Store × Bool
  unfolding both_calls
  add_record host ip s =
      both_calls s (k.set (forward_key (fqdn domain host)) (entry ip) s)
        (k.set (reverse_key ip) (entry (fqdn domain host)))

  -- `rmRecord`
  unfoldable pub rm_record : Text → Text → k.Store → k.Store × Bool
  unfolding both_calls
  rm_record host ip s =
      both_calls s (k.delete (forward_key (fqdn domain host)) s) (k.delete (reverse_key ip))

  -- The records that `NewDNSServer` adds for the host.
  unfoldable pub add_host : Text → k.Store → k.Store × Bool
  add_host address s =
      let (t, added) = add_record (codes "corectld") address s in
      if added then add_record (codes "corectld.ns.dns") address t else (t, false)

  -- What `teardownService` does to them.
  unfoldable pub teardown : Text → k.Store → k.Store
  teardown address s = (rm_record (codes "corectld") address s).0
