-- ===== src/Examples/Startup.antt =====
-- The theorems on the server's start and its helpers at a concrete host.
use corectl.Base.{true, false, none, some, [], ◌∷◌, Text, codes, ◌≡◌, refl, ok}
use corectl.Daemon.{new}
use corectl.Dns.Records.{in_memory}
use corectl.Etcd
use corectl.Etcd.{
  EtcdServer, started, stopped, new_etcd, with_parsed, with_urls, start_after, with_listeners,
  create_listeners, after_listen,
}
use corectl.Etcd.Sockets.{stop-new_etcd}
use corectl.Examples.{plain}
use corectl.NameServer
use corectl.NameServer.{Turn, until, message, forward}
use corectl.Startup
use corectl.Startup.{Server, World, start, serving}
use corectl.Startup.Ends.{Ends}

abbrev host_url : Text
host_url = codes "localhost:2379"

abbrev etcd_answers : Etcd.Answers
etcd_answers = record {
  client_urls = ok (host_url ∷ []);
  peer_urls = ok (codes "0.0.0.0:2380" ∷ []);
  new_server = none;
  listen = λ t. none;
  keep_alive = λ t. none;
  new_client = none;
}

abbrev running_etcd : EtcdServer
running_etcd = record {
  server = some started;
  config = record {
    name = codes "corectld";
    client_urls = host_url ∷ [];
    peer_urls = codes "0.0.0.0:2380" ∷ [];
    data_dir = codes "/etcd";
    tick_ms = 100;
    election_ticks = 10;
  };
  client_listens = [];
}

stop-new_etcd_example :
    ((Etcd.stop running_etcd (host_url ∷ [])).0.server ≡ some stopped)
    × ((Etcd.stop running_etcd (host_url ∷ [])).1 ≡ host_url ∷ [])
unfolding new_etcd with_parsed with_urls Etcd.start start_after with_listeners create_listeners
    after_listen
stop-new_etcd_example =
    stop-new_etcd etcd_answers (codes "corectld") (codes "/etcd") [] (host_url ∷ []) running_etcd
      refl refl refl

abbrev world : World in_memory plain
world = record {
  privileged = true;
  domain = codes "coreos.local";
  port = codes "15353";
  etcd = etcd_answers;
  etcd_dir = codes "/etcd";
  wipe = λ s. [];
  port_open = false;
  address = codes "192.168.64.1";
  dns = record { resolve = none; create = none; temp = ok (codes "/tmp/rules"); forward = none };
  nfs = record {
    home = codes "/Users/core";
    base = codes "192.168.64.0";
    mask = codes "255.255.255.0";
    readable = true;
    writable = true;
    checks = λ t. true;
    is_running = true;
    updates = true;
    starts = true;
  };
  breakage = 40;
  report = some none;
  drain = λ d. some d;
  api = serving;
}

abbrev idle : Server in_memory plain
idle = record {
  daemon = new (record {
    version = codes "1";
    started = 0;
    pid = 7;
    built = [];
    runtime = [];
    os = [];
    arch = [];
  });
  etcd = none;
  sockets = [];
  host = record { store = []; dns = none; resolver = none; commands = [] };
  exports = none;
  images = (codes "alpha", []) ∷ (codes "beta", []) ∷ (codes "stable", []) ∷ [];
  api_closed = false;
}
