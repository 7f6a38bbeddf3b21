-- ===== src/Client.antt =====
-- components/server/rpcservices.go and cmd: the client's requests, and the commands that start, stop
-- and describe the server.
use corectl.Base.{
  Bool, false, not, Option, none, some, List, ◌++◌, Text, codes, join, if◌then◌else◌, Result, ok,
  err, ◌>>=◌, Outcome,
}
use corectl.Cli.{slices}
use corectl.Coreos.{Semver}
use corectl.Daemon.{Error, Info, server_unreachable, other, new}
use corectl.Dns.{KeysApi}
use corectl.Leases.{guest_mac}
use corectl.Release.{trim_v}
use corectl.Startup
use corectl.Startup.{Server, World}

-- What the JSON and HTTP libraries answer, for replies in `R`: the request's text, whether a request
-- can be made for a URL, the reply's text, and its content.
pub record Wire (R : Type 0) : Type 0 where
  pub encode : Text → Result Error Text
  pub request : Text → Text → Result Error Text
  pub send : Text → Text → Result Error Text
  pub decode : Text → Result Error R

-- `RPCQuery`, for the server's address and a service; the query stands in `encode`.
unfoldable pub rpc_query : {R : Type 0} → Wire R → Text → Text → Result Error R
rpc_query w address f =
    let url = codes "http://" ++ (address ++ codes "/rpc") in
    w.encode (codes "RPCservice." ++ f) >>= λ (message : Text).
    w.request url message >>= λ (request : Text).
    w.send url request >>= λ (body : Text). w.decode body

-- `Running`
abbrev pub or_unreachable : {A : Type 0} → Result Error A → Result Error A
or_unreachable (ok a) = ok a
or_unreachable (err e) = err server_unreachable

unfoldable pub running : Wire Info → Text → Result Error Info
unfolding rpc_query
running w address = or_unreachable (rpc_query w address (codes "Echo"))

-- `shutdownCommand`
unfoldable pub shutdown_command : {R : Type 0} → Wire Info → Wire R → Text → Option Error
unfolding running
shutdown_command echo w address = elim (running echo address) [
  | err e ↦ some e
  | ok srv ↦ elim (rpc_query w address (codes "Stop")) [ err e ↦ some e | ok reply ↦ none ]
]

-- `uuidToMacCommand`, given whether the argument is a UUID, and for `GuestMACfromUUID` what vmnet
-- answers and how MAC addresses are read: the line that it prints.
unfoldable pub uuid_to_mac_command : Bool → Text → (Text → Result Error Text) → Result Error Text
unfolding guest_mac
uuid_to_mac_command valid answer parse = if valid then guest_mac answer parse else err other

-- The flags of `start`.
pub record Settings : Type 0 where
  pub domain : Text
  pub port : Text
  pub nameservers : List Text

-- The script that a user without privileges has the system run.
unfoldable pub start_script : Text → Text → Settings → Text
start_script executable user f =
    codes "do shell script \""
    ++ (executable
        ++ (codes " start  -u "
            ++ (user
                ++ (codes " -D "
                    ++ (f.domain
                        ++ (codes " --dns-port "
                            ++ (f.port
                                ++ (codes " -r "
                                    ++ (join (slices f.nameservers) (codes ",")
                                        ++ codes
                                            " > /dev/null 2>&1 & \" with administrator privileges")))))))))

-- How `serverStartCommand` ends: with an error, with a server that the system has started, or as the
-- server itself.
module _ (k : KeysApi) (s : Semver) where
  pub data Started : Type 0 where
    refused : Error → Started
    elsewhere : Text → Info → Started
    served : Outcome (Option Error) × Server k s → Started

  -- The branch without privileges, given what the system answers to the script and what `Running`
  -- answers then.
  unfoldable pub ask_system : Text → Option Error → Result Error Info → Started
  ask_system script (some e) again = refused e
  ask_system script none (err e) = refused e
  ask_system script none (ok srv) = elsewhere script srv

  -- The branch of the server: a new `ServerContext`, and `Start`. The other name servers are only
  -- passed on to the DNS library.
  unfoldable pub serve_here : Settings → World k s → Info → Server k s → Started
  unfolding Startup.start
  serve_here f w meta v = served (
      Startup.start k s (record w { domain = f.domain; port = f.port })
        (record v {
          daemon = new meta;
          etcd = none;
          host = record v.host { dns = none };
          api_closed = false;
        }))

  -- `serverStartCommand`
  unfoldable pub server_start_command :
      Text
      → Text
      → Settings
      → World k s
      → Info
      → Server k s
      → Result Error Info
      → Option Error
      → Result Error Info
      → Started
  unfolding start_script ask_system serve_here
  server_start_command executable user f w meta v (ok srv) told again = refused other
  server_start_command executable user f w meta v (err e) told again =
      if not w.privileged
      then ask_system (start_script executable user f) told again
      else serve_here f w meta v

-- `versionCommand`: the server it describes, if it is asked for and answers, and the version that it
-- suggests. `LatestVersion` is what the releases of the project answer.
pub record Described : Type 0 where
  pub server : Option Info
  pub suggested : Option Text

-- `same` is the comparison `EQ` of the semver library.
module _ (s : Semver) (same : s.Version → s.Version → Bool) where
  unfoldable pub suggest : Option s.Version → Option s.Version → Option Text
  suggest none remote = none
  suggest (some here) none = none
  suggest (some here) (some there) = if same there here then none else some (s.string there)

  unfoldable pub version_command : Bool → Result Error Info → Text → Result Error Text → Described
  unfolding suggest trim_v
  version_command is_server srv here latest = record {
    server = (if is_server then none else elim srv [ err e ↦ none | ok i ↦ some i ]);
    suggested = elim latest [
      | err e ↦ none
      | ok t ↦ suggest (s.make (trim_v here)) (s.make (trim_v t))
    ];
  }
