-- ===== src/Etcd.antt =====
-- components/server/etcd.go: the embedded store's server, its sockets and its timeout.
pub mod Sockets
use corectl.Base.{
  ℕ, ◌+◌, ◌*◌, Bool, true, false, Option, none, some, List, [], ◌∷◌, ◌++◌, Text, codes, ◌=t◌, any,
  not, select, if◌then◌else◌, Result, ok, err,
}
use corectl.Daemon.{Error, other}

-- The fields of `etcdserver.ServerConfig` that the code reads again. A URL is its host.
pub record Config : Type 0 where
  pub name : Text
  pub client_urls : List Text
  pub peer_urls : List Text
  pub data_dir : Text
  pub tick_ms : ℕ
  pub election_ticks : ℕ

-- The library's server: made by `NewServer`, and then started and stopped.
pub data Phase : Type 0 where
  made started stopped : Phase

-- `EtcdServer`; `server` is nil where `NewServer` failed.
pub record EtcdServer : Type 0 where
  pub server : Option Phase
  pub config : Config
  pub client_listens : List Text

-- What the libraries and the network answer: `NewServer`, `net.Listen` and `NewKeepAliveListener`
-- for a host, and `client.New`.
pub record Answers : Type 0 where
  pub client_urls : Result Error (List Text)
  pub peer_urls : Result Error (List Text)
  pub new_server : Option Error
  pub listen : Text → Option Error
  pub keep_alive : Text → Option Error
  pub new_client : Option Error

-- What `createListeners` returns, and the sockets that are open afterwards.
pub record Listeners : Type 0 where
  pub listeners : List Text
  pub sockets : List Text
  pub error : Option Error

-- One round of the loop, given the later ones: the socket is open before it is wrapped.
unfoldable pub after_listen :
    Text → Option Error → Option Error → List Text → List Text → Listeners → Listeners
after_listen host (some e) kept listeners sockets later = record {
  listeners = listeners;
  sockets = sockets;
  error = some e;
}
after_listen host none (some e) listeners sockets later = record {
  listeners = listeners;
  sockets = sockets ++ (host ∷ []);
  error = some e;
}
after_listen host none none listeners sockets later = later

-- `createListeners`
unfoldable pub create_listeners : Answers → List Text → List Text → List Text → Listeners
unfolding after_listen
create_listeners w [] listeners sockets = record {
  listeners = listeners;
  sockets = sockets;
  error = none;
}
create_listeners w (host ∷ hosts) listeners sockets =
    after_listen host (w.listen host) (w.keep_alive host) listeners sockets
      (create_listeners w hosts (listeners ++ (host ∷ [])) (sockets ++ (host ∷ [])))

-- `requestTimeout`, in milliseconds
unfoldable pub request_timeout : Config → ℕ
request_timeout c = 5 * 1000 + 2 * c.election_ticks * c.tick_ms

-- What `EtcdServer.Start` and `NewEtcd` leave: the server, the open sockets, those that are served
-- with the timeout, and the error.
pub record Running : Type 0 where
  pub etcd : Option EtcdServer
  pub sockets : List Text
  pub serving : List (Text × ℕ)
  pub error : Option Error

abbrev pub serve : ℕ → List Text → List (Text × ℕ)
serve t [] = []
serve t (host ∷ hosts) = (host, t) ∷ serve t hosts

-- `EtcdServer.Start`, from the listeners on. They are not stored in `clientListens`.
unfoldable pub with_listeners : EtcdServer → Listeners → Option Error → Running
unfolding request_timeout
with_listeners e l (some x) = record {
  etcd = some (record e { server = some made });
  sockets = l.sockets;
  serving = [];
  error = some x;
}
with_listeners e l none = record {
  etcd = some (record e { server = some started });
  sockets = l.sockets;
  serving = serve (request_timeout e.config) l.listeners;
  error = none;
}

-- `EtcdServer.Start`
unfoldable pub start_after : Answers → EtcdServer → List Text → Option Error → Running
unfolding with_listeners create_listeners
start_after w e sockets (some x) = record {
  etcd = some (record e { server = none });
  sockets = sockets;
  serving = [];
  error = some other;
}
start_after w e sockets none =
    let l = create_listeners w e.config.client_urls [] sockets in with_listeners e l l.error

unfoldable pub start : Answers → EtcdServer → List Text → Running
unfolding start_after
start w e sockets = start_after w e sockets w.new_server

-- `client.New`, at the end of `NewEtcd`
abbrev pub first_error : Option Error → Option Error → Option Error
first_error (some x) later = some x
first_error none later = later

-- The server that `NewEtcd` configures.
abbrev pub configured : Text → Text → List Text → List Text → EtcdServer
configured name dir client peer = record {
  server = none;
  config = record {
    name = name;
    client_urls = client;
    peer_urls = peer;
    data_dir = dir;
    tick_ms = 100;
    election_ticks = 10;
  };
  client_listens = [];
}

unfoldable pub with_urls : Answers → Text → Text → List Text → List Text → List Text → Running
unfolding start
with_urls w name dir client peer sockets =
    let r = start w (configured name dir client peer) sockets in
    record r { error = first_error r.error w.new_client }

abbrev pub refused : List Text → Error → Running
refused sockets x = record { etcd = none; sockets = sockets; serving = []; error = some x }

-- `NewEtcd`
unfoldable pub with_parsed :
    Answers
    → Text
    → Text
    → List Text
    → Result Error (List Text)
    → Result Error (List Text)
    → Running
unfolding with_urls
with_parsed w name dir sockets (err x) peers = refused sockets x
with_parsed w name dir sockets (ok client) (err x) = refused sockets x
with_parsed w name dir sockets (ok client) (ok peer) = with_urls w name dir client peer sockets

unfoldable pub new_etcd : Answers → Text → Text → List Text → Running
unfolding with_parsed
new_etcd w name dir sockets = with_parsed w name dir sockets w.client_urls w.peer_urls

-- `EtcdServer.Stop`: the library's server, if it was made, and the sockets in `clientListens`.
abbrev pub stopped_phase : Option Phase → Option Phase
stopped_phase none = none
stopped_phase (some p) = some stopped

unfoldable pub close_all : List Text → List Text → List Text
close_all ls sockets = select (λ s. not (any (λ (l : Text). l =t s) ls)) sockets

unfoldable pub stop : EtcdServer → List Text → EtcdServer × List Text
unfolding close_all
stop e sockets = (record e { server = stopped_phase e.server }, close_all e.client_listens sockets)
