-- ===== src/Examples/Loading.antt =====
-- The theorems on `load` and `query` at concrete profiles and VMs, and on a session and a lease.
use corectl.Base.{
  split, to_lower, replace_all, true, false, none, some, [], ◌∷◌, Text, codes, ◌≡◌, refl, ◌=t◌,
  has_suffix, has_prefix, lookup, insert, ok,
}
use corectl.Connector
use corectl.Connector.{
  Remote, ssh_command, start_session, in_session, close, talk, remote_shell, reported, State,
}
use corectl.Connector.Terminal.{ssh_command_leaves}
use corectl.Examples.{core1, core2}
use corectl.Leases.{
  guest_ip, read_lines, read_line, read_ip, read_mac, value_of, value_here, stripped, trim_zero,
  equal_fold, trim_line, trim_returns,
}
use corectl.Loading.{
  World, Settings, plain, table, load_command, with_file, with_format, with_config, boot_all,
  boot_named, definitions, define, set_all, sort, insert_sorted, before, boot_each, format_of,
}
use corectl.Loading.Sorted.{IsLoaded, load_command-IsLoaded}
use corectl.Payload.{Caller}
use corectl.Queries.{Flags}
use corectl.Registry.{Active}

abbrev profile : Settings
profile =
    (codes "memory", plain (codes "2048"))
    ∷ (codes "web", table ((codes "cpus", codes "2") ∷ []))
    ∷ (codes "db", table ((codes "memory", codes "4096") ∷ []))
    ∷ []

abbrev world : World
world = record {
  running = none;
  read_file = ok (codes "...");
  read_config = λ f t. ok profile;
  boot = λ d. none;
}

load_command-IsLoaded_example :
    IsLoaded world [] (codes "a.toml") (load_command world [] (codes "a.toml")).0
unfolding load_command with_file with_format with_config boot_all boot_named definitions define
    set_all sort insert_sorted before boot_each format_of has_suffix has_prefix ◌=t◌ lookup insert
load_command-IsLoaded_example = load_command-IsLoaded world [] (codes "a.toml") refl

abbrev active : Active
active = (codes "A1", core1) ∷ (codes "A2", core2) ∷ []

abbrev caller : Caller
caller = record {
  image_store = codes "/images";
  run_dir = codes "/running";
  address = codes "192.168.64.1";
}

abbrev up_flag : Flags
up_flag = record {
  ip = false;
  tty = false;
  online = false;
  up = true;
  uuid = false;
  log = false;
  json = false;
  all = false;
}

-- The size of the terminal cannot be read.
abbrev answers : Connector.Answers
answers = record {
  parse_key = none;
  dial = none;
  new_session = none;
  make_raw = none;
  get_size = some (codes "not a terminal");
  request_pty = none;
}

abbrev remote : Remote
remote = record { run = λ t. none; shell = none; wait = none }

abbrev left : State
left = record { conn = true; session = true; raw = true }

ssh_command_leaves_example : (left.raw ≡ true) × (left.conn ≡ true)
unfolding ssh_command start_session in_session close talk remote_shell reported
ssh_command_leaves_example =
    ssh_command_leaves answers remote [] core1 left (some (codes "not a terminal")) refl

abbrev lease_file : Text
lease_file = codes "{\nip_address=192.168.64.2\nhw_address=1,a:b:0:1\n}\n"

finds_address : guest_ip (ok lease_file) (codes "0A:0b:00:01") ≡ ok (codes "192.168.64.2")
unfolding guest_ip split read_lines read_line read_ip read_mac value_of value_here stripped
    trim_zero equal_fold trim_line trim_returns has_prefix ◌=t◌ to_lower replace_all
finds_address = refl
