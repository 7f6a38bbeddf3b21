-- ===== src/Http/Ignition.antt =====
-- components/server/httpservices.go: the ignition config of a VM, and the name that it gets with it.
use corectl.Base.{
  ℕ, Bool, true, false, ◌&&◌, not, Option, none, some, List, [], ◌∷◌, ◌++◌, Text, ◌≡◌, ◌≢◌, refl,
  ap, ◌∙◌, ◌=t◌, =t_refl, =t_ne, lookup, insert, if◌then◌else◌,
}
use corectl.Dns.{KeysApi, add_record, forward_key, reverse_key, fqdn, entry}
use corectl.Dns.Records.{add_record_lem}
use corectl.Http.{Network, remote_ip, is_loopback, refusal, Reply, http_error, is_local}
use corectl.Registry.{Active}
use corectl.Vm.{Vm, endpoint}

-- `corectlTmpl`
pub record Setup : Type 0 where
  pub setup_root : Bool
  pub persistent_root : Bool
  pub shared_homedir : Bool
  pub corectl_version : Text
  pub corectld_endpoint : Text
  pub networkd_gateway : Text
  pub networkd_dns : Text
  pub hostname : Text
  pub ssh_authorized_keys : List Text
  pub nfs_homedir_path : Text
  pub nfs_homedir_path_escaped : Text

-- What the handler reads of the session and calls: the version of the server, the home directory,
-- `UnitNamePathEscape`, `ioutil.ReadFile`, the template with whether it failed, and the translation
-- of its output to an ignition config.
pub record IgnitionHost : Type 0 where
  pub version : Text
  pub home : Text
  pub escape : Text → Text
  pub read_file : Text → Option Text
  pub execute : Setup → Text × Bool
  pub translate : Text → Option Text

unfoldable pub setup_of : IgnitionHost → Network → Text → Vm → Setup
setup_of i n domain vm = record {
  setup_root = vm.format_root;
  persistent_root = vm.persistent_root;
  shared_homedir = vm.shared_homedir;
  corectl_version = i.version;
  corectld_endpoint = endpoint n.address vm;
  networkd_gateway = n.address;
  networkd_dns = domain;
  hostname = vm.name;
  ssh_authorized_keys = vm.internal_ssh_key ∷ (if vm.ssh_key =t [] then [] else vm.ssh_key ∷ []);
  nfs_homedir_path = i.home;
  nfs_homedir_path_escaped = i.escape i.home;
}

-- A local cloud-config is read now, for the request that follows; no contents where that fails.
unfoldable pub read_config : IgnitionHost → Vm → Vm
read_config i vm =
    if not (vm.cloud_config =t []) && is_local vm.cc_location
    then record vm { cloud_config_contents = i.read_file vm.cloud_config }
    else vm

-- What is written: a failed template has sent 500 before its output is translated.
unfoldable pub reply_of : Bool → Option Text → Reply
reply_of failed none = http_error 500
reply_of failed (some config) = record {
  status = if failed then 500 else 200;
  body = config ++ b'\n' ∷ [];
}

module _ (k : KeysApi) where
  -- The record of the VM's name, for a request that does not come from the host.
  unfoldable pub name_vm : Text → Text → Vm → Option Text → k.Store → k.Store
  name_vm domain addr vm none store = store
  name_vm domain addr vm (some config) store =
      if is_loopback addr then store else (add_record k domain vm.name addr store).0

  -- What the request leaves, once the config is known or is not to be had.
  unfoldable pub written :
      IgnitionHost
      → Text
      → Text
      → Text
      → Active
      → k.Store
      → Vm
      → Bool
      → Option Text
      → Reply × Active × k.Store
  unfolding read_config reply_of name_vm
  written i domain addr uuid m store vm failed config = (
    reply_of failed config,
    insert uuid (read_config i vm) m,
    name_vm domain addr vm config store,
  )

  unfoldable pub for_vm :
      IgnitionHost
      → Network
      → Text
      → Text
      → Text
      → Active
      → k.Store
      → Option Vm
      → Reply × Active × k.Store
  unfolding setup_of written
  for_vm i n domain addr uuid m store none = (http_error 500, m, store)
  for_vm i n domain addr uuid m store (some vm) =
      let out = i.execute (setup_of i n domain vm) in
      written i domain addr uuid m store vm out.1 (i.translate out.0)

  unfoldable pub unless_refused :
      Active → k.Store → Reply × Active × k.Store → Option ℕ → Reply × Active × k.Store
  unless_refused m store r none = r
  unless_refused m store r (some status) = (http_error status, m, store)

  -- `httpInstanceIgnitionConfig`
  unfoldable pub ignition_config :
      IgnitionHost → Network → Text → Text → Text → Active → k.Store → Reply × Active × k.Store
  unfolding for_vm unless_refused
  ignition_config i n domain sender uuid m store =
      unless_refused m store (for_vm i n domain (remote_ip sender) uuid m store (lookup uuid m))
        (refusal n sender uuid m)

  named :
      (domain addr : Text) (vm : Vm) (json : Text) (store left : k.Store)
      → is_loopback addr ≡ false
      → add_record k domain vm.name addr store ≡ (left, true)
      → reverse_key addr ≢ forward_key (fqdn domain vm.name)
      → k.get (forward_key (fqdn domain vm.name)) (name_vm domain addr vm (some json) store)
        ≡ some (entry addr)
  unfolding name_vm
  named domain addr vm json store left c f g =
      let here = forward_key (fqdn domain vm.name) in
      rw (c, f)
        (add_record_lem k domain vm.name addr store left here f
          ∙ rw (=t_ne _ _ g, =t_refl here) refl)

  -- If the template is executed and translated, etcd sets both records of a registered VM, and these
  -- have different keys, then the VM gets its ignition config from the VMs' network and can be found
  -- by its name: the reply is the config, and the store has its address under its name.
  pub ignition_config_lem :
      (i : IgnitionHost) (n : Network) (domain sender uuid config json : Text) (m : Active)
      (vm : Vm) (store left : k.Store)
      → refusal n sender uuid m ≡ none
      → lookup uuid m ≡ some vm
      → is_loopback (remote_ip sender) ≡ false
      → i.execute (setup_of i n domain vm) ≡ (config, false)
      → i.translate config ≡ some json
      → add_record k domain vm.name (remote_ip sender) store ≡ (left, true)
      → reverse_key (remote_ip sender) ≢ forward_key (fqdn domain vm.name)
      → let r = ignition_config i n domain sender uuid m store in
        (r.0 ≡ record { status = 200; body = json ++ b'\n' ∷ [] })
        × (k.get (forward_key (fqdn domain vm.name)) r.2 ≡ some (entry (remote_ip sender)))
  unfolding ignition_config for_vm unless_refused written
  ignition_config_lem i n domain sender uuid config json m vm store left a b c d e f g =
      let addr = remote_ip sender in
      let whole : ignition_config i n domain sender uuid m store
          ≡ written i domain addr uuid m store vm false (some json) =
        ap (unless_refused m store (for_vm i n domain addr uuid m store (lookup uuid m))) a
        ∙ ap (for_vm i n domain addr uuid m store) b
        ∙ ap (λ out. written i domain addr uuid m store vm out.1 (i.translate out.0)) d
        ∙ ap (written i domain addr uuid m store vm false) e in
      (
        ap (λ r. r.0) whole,
        ap (λ r. k.get (forward_key (fqdn domain vm.name)) r.2) whole
            ∙ named domain addr vm json store left c f g,
      )
