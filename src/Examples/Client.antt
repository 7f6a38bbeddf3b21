-- ===== src/Examples/Client.antt =====
-- Tests of the client's commands and of what is printed.
use corectl.Base.{
  ℕ, true, false, none, some, [], ◌∷◌, codes, ◌≡◌, refl, ◌=t◌, has_prefix, ok, err, pos, split,
  join, lookup, trim_suffix, trim_prefix, ◌||◌, panics, drop, ◌+ℤ◌,
}
use corectl.Leases.{guest_mac}
use corectl.Client.{
  Wire, rpc_query, running, shutdown_command, uuid_to_mac_command, start_script, suggest,
  version_command,
}
use corectl.Cli.{slices, strip, remove_byte}
use corectl.Connector.{
  scopy, place, fill, dir_name, Transfer, scp_command, scp_to, start_session, close,
}
use corectl.Coreos.{channel}
use corectl.Commands.{scp_target}
use corectl.Connector
use corectl.Daemon.{Info, server_unreachable, other}
use corectl.Examples.{plain, core1, core2}
use corectl.Loading.{accepts_one}
use corectl.Payload.{decimal, show_int}
use corectl.Payload.Files.{mk_run_dir, ssh_key_gen, print_storage, cd_line, drive_line, print_vm}
use corectl.Release.{pretty_print, contents, trim_v}
use corectl.Queries.{
  ps_command, totals, add_totals, full_report, ls_command, list_images, list_channels, listed,
}
use corectl.Session.{base_name}
use corectl.Vm.{StorageAssets, Vm, qcow2, raw, hdd, cdrom}

abbrev info : Info
info = record {
  version = codes "v0.7";
  started = 0;
  pid = 42;
  built = codes "2016";
  runtime = codes "go1.7";
  os = codes "darwin";
  arch = codes "amd64";
}

abbrev wire : Wire Info
wire = record {
  encode = λ m. ok m;
  request = λ url m. ok m;
  send = λ url m. ok m;
  decode = λ body. ok info;
}

abbrev cut : Wire Info
cut = record wire { send = λ url m. err other }

runs : running wire (codes "127.0.0.1:2511") ≡ ok info
unfolding running rpc_query
runs = refl

is_unreachable : running cut (codes "10.0.0.1:2511") ≡ err server_unreachable
unfolding running rpc_query
is_unreachable = refl

shuts_down : shutdown_command wire wire (codes "127.0.0.1:2511") ≡ none
unfolding shutdown_command running rpc_query
shuts_down = refl

no_uuid : uuid_to_mac_command false (codes "aa") ok ≡ err other
unfolding uuid_to_mac_command
no_uuid = refl

no_address : uuid_to_mac_command true [] ok ≡ err other
unfolding uuid_to_mac_command guest_mac
no_address = refl

scripts :
    start_script (codes "corectld") (codes "a") (record {
      domain = codes "d";
      port = codes "5";
      nameservers = codes "[8.8.8.8" ∷ codes "8.8.4.4]" ∷ [];
    })
    ≡ codes
        "do shell script \"corectld start  -u a -D d --dns-port 5 -r 8.8.8.8,8.8.4.4 > /dev/null 2>&1 & \" with administrator privileges"
unfolding start_script slices strip remove_byte split join
scripts = refl

suggests :
    version_command plain ◌=t◌ false (ok info) (codes "v0.7") (ok (codes "v0.8"))
    ≡ record { server = some info; suggested = some (codes "0.8") }
unfolding version_command suggest trim_v has_prefix ◌=t◌
suggests = refl

describes :
    pretty_print (record { stamp = λ t. codes "now"; since = λ n. codes "1 hour ago" }) true info
    ≡ codes
        " Version:\t0.7\n Go Version:\tgo1.7\n Built:\t\tnow\n OS/Arch:\tdarwin/amd64\n\n Pid:\t\t42\n Uptime:\t1 hour ago\n\n"
unfolding pretty_print has_prefix decimal
describes = refl

empty_asset : contents (ok 7) (λ (n : ℕ). err other) ≡ []
unfolding contents
empty_asset = refl

reuses_dir : mk_run_dir true (some other) ≡ (false, none)
unfolding mk_run_dir
reuses_dir = refl

makes_keys :
    ssh_key_gen (ok (codes "PEM")) (ok (codes "ssh-rsa K\n")) core1
    ≡ ok (record core1 { internal_ssh_private = codes "PEM"; internal_ssh_key = codes "ssh-rsa K" })
unfolding ssh_key_gen trim_suffix trim_prefix
makes_keys = refl

abbrev one_drive : StorageAssets
one_drive = record {
  cd_drives = [];
  hard_drives =
      (0, record { slot = 0; format = qcow2; device_type = hdd; path = codes "/a.qcow2" }) ∷ [];
}

prints_drive :
    print_storage true one_drive
    ≡ codes "  Volumes:" ∷ codes "   /,/dev/vda\t/a.qcow2,format=qcow2" ∷ []
unfolding print_storage cd_line drive_line
prints_drive = refl

accepts : accepts_one (codes "a.toml" ∷ []) ≡ true
unfolding accepts_one
accepts = refl

lists :
    ls_command plain false false (codes "beta") none (ok ((codes "beta", codes "1.0.0" ∷ []) ∷ []))
    ≡ ok (listed ((codes "beta", codes "1.0.0" ∷ []) ∷ []))
unfolding ls_command list_images list_channels lookup ◌=t◌ channel
lists = refl

-- A directory takes the file under its own name.
abbrev transfer : Transfer
transfer = record {
  client = none;
  open_source = none;
  source_size = ok 5;
  is_dir = λ p. has_prefix (codes "/home") p || (p =t codes "/");
  create = λ p. none;
  copy = none;
  written = ok 5;
}

copies : scopy transfer (codes "docs/a.txt") (codes "/home") ≡ (some (codes "/home/a.txt"), none)
unfolding scopy place fill dir_name base_name has_prefix ◌=t◌
copies = refl

abbrev settled : Connector.Answers
settled = record {
  parse_key = none;
  dial = none;
  new_session = none;
  make_raw = none;
  get_size = none;
  request_pty = none;
}

abbrev big : Vm → Vm
big v = record v { memory = pos 2048; cpus = pos 2 }

abbrev with_cdrom : StorageAssets
with_cdrom = record {
  cd_drives =
      (0, record { slot = 0; format = raw; device_type = cdrom; path = codes "/c.iso" }) ∷ [];
  hard_drives = [];
}

-- The argument of `put` has no destination.
put_panics : scp_command settled transfer (codes "a.txt") (codes "core1") [] ≡ panics
unfolding scp_command scp_target split
put_panics = refl

totals_of_two :
    ps_command false (ok info) (ok ((codes "A1", big core1) ∷ (codes "A2", big core2) ∷ []))
    ≡ ok (
        full_report info
          (record { active = 2; memory = pos 4096; vcpus = pos 4 })
          (big core1 ∷ big core2 ∷ []))
unfolding ps_command totals add_totals ◌+ℤ◌
totals_of_two = refl

prints_cdrom :
    drop 11 (print_vm (codes "now") (record core1 { storage = with_cdrom }))
    ≡ codes "    eth0:\t" ∷ codes "  Volumes:" ∷ codes "   /dev/cdrom0\t/c.iso" ∷ []
unfolding print_vm print_storage cd_line drive_line decimal show_int ◌=t◌
prints_cdrom = refl
