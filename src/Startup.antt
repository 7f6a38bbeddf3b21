-- ===== src/Startup.antt =====
-- components/server/server.go: `Start`, with the functions that it defers.
pub mod Ends
pub mod Release
use corectl.Base.{
  ℕ, Bool, true, false, not, Option, none, some, List, [], ◌∷◌, ◌++◌, Text, codes, if◌then◌else◌,
  Result, ok, err, Outcome, returns, hangs, panics,
}
use corectl.Coreos.{Semver}
use corectl.Daemon.{Daemon, Error, other}
use corectl.Dns.{KeysApi}
use corectl.Etcd
use corectl.Etcd.{EtcdServer, new_etcd, Running}
use corectl.Images.{Store, local_images}
use corectl.NameServer
use corectl.NameServer.{Host, DnsServer, new_dns_server}
use corectl.Nfs.{NfsHost, nfs_setup}

-- The API's server when `Start` closes it: the goroutine has not made it yet, its `ListenAndServe`
-- failed, or it serves. `Close` of manners waits until a server that serves answers.
pub data Api : Type 0 where
  unmade failed serving : Api

module _ (k : KeysApi) (s : Semver) where
  -- The server's process and what it changes on the host: the shared state, etcd, the open sockets,
  -- the name server, the exports file, and the images.
  pub record Server : Type 0 where
    pub daemon : Daemon s.Version
    pub etcd : Option EtcdServer
    pub sockets : List Text
    pub host : Host k
    pub exports : Option Text
    pub images : Store
    pub api_closed : Bool

  -- The server's settings, `LocalDomainName` and `EmbeddedDNSport`, the directory of etcd and the
  -- host's address; and what the rest of the world answers. `wipe` is what the deletion of /skydns
  -- leaves in the store, `report` what the select receives from `Oops`, if it ever does, `drain` the
  -- state once every job is done, if that ever is, and `api` what has become of the API's server
  -- by then.
  pub record World : Type 0 where
    pub privileged : Bool
    pub domain : Text
    pub port : Text
    pub etcd : Etcd.Answers
    pub etcd_dir : Text
    pub wipe : k.Store → k.Store
    pub port_open : Bool
    pub address : Text
    pub dns : NameServer.Answers
    pub nfs : NfsHost
    pub breakage : ℕ
    pub report : Option (Option Error)
    pub drain : Daemon s.Version → Option (Daemon s.Version)
    pub api : Api

  abbrev pub End : Type 0
  End = Outcome (Option Error) × Server

  -- `Jobs.Wait` and `APIserver.Close`
  unfoldable pub after_jobs : Option Error → Api → Server → Option (Daemon s.Version) → End
  after_jobs e api v none = (hangs, v)
  after_jobs e serving v (some d) = (returns e, record v { daemon = d; api_closed = true })
  after_jobs e unmade v (some d) = (panics, record v { daemon = d })
  after_jobs e failed v (some d) = (hangs, record v { daemon = d })

  -- What follows the select, if it receives.
  unfoldable pub after_select : World → Server → Option (Option Error) → End
  unfolding after_jobs
  after_select w v none = (hangs, v)
  after_select w v (some e) =
      let d : Daemon s.Version = record v.daemon { accepting_requests = false } in
      after_jobs e w.api (record v { daemon = d }) (w.drain d)

  -- From the select on.
  unfoldable pub serve : World → Server → End
  unfolding after_select
  serve w v = after_select w v w.report

  -- `localImages`, and what follows if it succeeds
  unfoldable pub with_images :
      World → Server → Store × Result Error (List (Text × List s.Version)) → End
  unfolding serve
  with_images w v (store, err e) = (returns (some e), record v { images = store })
  with_images w v (store, ok media) =
      serve w (record v { images = store; daemon = record v.daemon { media = media } })

  -- `nfsSetup`: its failure is not one of `Start`.
  unfoldable pub with_nfs : World → Server → Option Text × Option Error → End
  unfolding with_images
  with_nfs w v (exports, some e) =
      with_images w (record v { exports = exports }) (local_images s w.breakage v.images)
  with_nfs w v (exports, none) =
      with_images w
        (record v { exports = exports; daemon = record v.daemon { working_nfs = true } })
        (local_images s w.breakage v.images)

  -- `defer Daemon.DNSServer.Stop()`
  unfoldable pub dns_stopped : Outcome (Option Error) → Server → Outcome (Host k) → End
  dns_stopped o v (returns h) = (o, record v { host = h })
  dns_stopped o v hangs = (hangs, v)
  dns_stopped o v panics = (panics, v)

  unfoldable pub stop_dns_of : World → Outcome (Option Error) → Server → Option DnsServer → End
  unfolding dns_stopped
  stop_dns_of w o v none = (panics, v)
  stop_dns_of w o v (some d) =
      dns_stopped o v (NameServer.stop k w.domain w.port w.address d v.host)

  unfoldable pub stop_dns : World → End → End
  unfolding stop_dns_of
  stop_dns w (hangs, v) = (hangs, v)
  stop_dns w (panics, v) = stop_dns_of w panics v v.host.dns
  stop_dns w (returns e, v) = stop_dns_of w (returns e) v v.host.dns

  -- `defer Daemon.EtcdServer.Stop()`
  unfoldable pub stop_etcd_of : Outcome (Option Error) → Server → Option EtcdServer → End
  stop_etcd_of o v none = (panics, v)
  stop_etcd_of o v (some e) =
      let (f, open_sockets) = Etcd.stop e v.sockets in
      (o, record v { etcd = some f; sockets = open_sockets })

  unfoldable pub stop_etcd : End → End
  unfolding stop_etcd_of
  stop_etcd (hangs, v) = (hangs, v)
  stop_etcd (panics, v) = stop_etcd_of panics v v.etcd
  stop_etcd (returns e, v) = stop_etcd_of (returns e) v v.etcd

  -- `NewDNSServer`, and what follows if it succeeds
  unfoldable pub with_dns : World → Server → Host k × Option Error → End
  unfolding with_nfs stop_dns
  with_dns w v (h, some e) = (returns (some e), record v { host = h })
  with_dns w v (h, none) =
      stop_dns w (with_nfs w (record v { host = h }) (nfs_setup w.nfs v.exports))

  -- The test of the port, and what follows if it is free.
  unfoldable pub after_port : World → Server → Bool → End
  unfolding with_dns
  after_port w v true = (returns (some other), v)
  after_port w v false =
      with_dns w v (new_dns_server k w.domain w.port w.address w.dns (b':' ∷ w.port) v.host)

  -- From the deletion of /skydns on.
  unfoldable pub with_etcd : World → Server → End
  unfolding after_port
  with_etcd w v =
      let h : Host k = record v.host { store = w.wipe v.host.store } in
      after_port w (record v { host = h }) w.port_open

  unfoldable pub after_etcd : World → Server → Option Error → End
  unfolding with_etcd stop_etcd
  after_etcd w v (some e) = (returns (some e), v)
  after_etcd w v none = stop_etcd (with_etcd w v)

  -- `Start`
  unfoldable pub start : World → Server → End
  unfolding after_etcd
  start w v =
      let r = new_etcd w.etcd (codes "corectld." ++ w.domain) w.etcd_dir v.sockets in
      if not w.privileged
      then (returns (some other), v)
      else after_etcd w (record v { etcd = r.etcd; sockets = r.sockets }) r.error
