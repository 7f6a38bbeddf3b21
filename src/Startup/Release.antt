-- ===== src/Startup/Release.antt =====
-- components/server/server.go: what `Start` has given back when it ends.
use corectl.Base.{
  Bool, true, false, Option, none, some, List, ◌∷◌, Text, ◌≡◌, ◌≢◌, refl, ◌∙◌, sym, ap, Result, ok,
  err, Outcome, returns, hangs, panics,
}
use corectl.Coreos.{Semver}
use corectl.Daemon.{Daemon, Error}
use corectl.Dns.{KeysApi}
use corectl.Etcd
use corectl.Etcd.{EtcdServer, stopped, Running}
use corectl.Images.{Store, local_images}
use corectl.NameServer.{Host, DnsServer, new_dns_server}
use corectl.NameServer.Closed.{IsClosed, closed, new_dns_server-IsClosed}
use corectl.NameServer.Running.{IsUp, new_dns_server-IsUp, stop-IsDown}
use corectl.Nfs.{nfs_setup}
use corectl.Startup.{
  Server, World, End, Api, unmade, failed, serving, after_jobs, after_select, serve, with_images,
  with_nfs, dns_stopped, stop_dns_of, stop_dns, with_dns, after_port, with_etcd,
}

pub inj : (a b : DnsServer) → some a ≡ some b → a ≡ b
inj a b e = cc

module _ (k : KeysApi) (s : Semver) where
  -- What the serving part of `Start` leaves alone.
  pub record Keeps (v : Server k s) (e : End k s) : Type 0 where
    pub host : e.1.host ≡ v.host
    pub etcd : e.1.etcd ≡ v.etcd

  after_jobs-Keeps :
      (e : Option Error) (api : Api) (v : Server k s) (o : Option (Daemon s.Version))
      → Keeps v (after_jobs k s e api v o)
  unfolding after_jobs
  after_jobs-Keeps e api v none = record { host = refl; etcd = refl }
  after_jobs-Keeps e unmade v (some d) = record { host = refl; etcd = refl }
  after_jobs-Keeps e failed v (some d) = record { host = refl; etcd = refl }
  after_jobs-Keeps e serving v (some d) = record { host = refl; etcd = refl }

  after_select-Keeps :
      (w : World k s) (v : Server k s) (r : Option (Option Error))
      → Keeps v (after_select k s w v r)
  unfolding after_select
  after_select-Keeps w v none = record { host = refl; etcd = refl }
  after_select-Keeps w v (some e) =
      let d : Daemon s.Version = record v.daemon { accepting_requests = false } in
      let q = after_jobs-Keeps e w.api (record v { daemon = d }) (w.drain d) in
      record { host = q.host; etcd = q.etcd }

  with_images-Keeps :
      (w : World k s) (v : Server k s) (r : Store × Result Error (List (Text × List s.Version)))
      → Keeps v (with_images k s w v r)
  unfolding with_images serve
  with_images-Keeps w v (store, err e) = record { host = refl; etcd = refl }
  with_images-Keeps w v (store, ok media) =
      let d : Daemon s.Version = record v.daemon { media = media } in
      let q = after_select-Keeps w (record v { images = store; daemon = d }) w.report in
      record { host = q.host; etcd = q.etcd }

  pub with_nfs-Keeps :
      (w : World k s) (v : Server k s) (r : Option Text × Option Error)
      → Keeps v (with_nfs k s w v r)
  unfolding with_nfs
  with_nfs-Keeps w v (x, some e) =
      let q = with_images-Keeps w (record v { exports = x }) (local_images s w.breakage v.images) in
      record { host = q.host; etcd = q.etcd }
  with_nfs-Keeps w v (x, none) =
      let u : Server k s = record v {
        exports = x;
        daemon = record v.daemon { working_nfs = true };
      } in
      let q = with_images-Keeps w u (local_images s w.breakage v.images) in
      record { host = q.host; etcd = q.etcd }

  -- A name server that ran when its `Stop` was called.
  stop_dns_of-IsClosed :
      (w : World k s) (o : Outcome (Option Error)) (v : Server k s) (x : Option DnsServer)
      → v.host.dns ≡ x
      → IsUp k w.domain w.port w.address v.host
      → let e = stop_dns_of k s w o v x in IsClosed e.1.host.dns × (e.1.etcd ≡ v.etcd)
  unfolding stop_dns_of dns_stopped
  stop_dns_of-IsClosed w o v none p up = absurd (cc (up.there))
  stop_dns_of-IsClosed w o v (some d) p up =
      let same : d ≡ up.dns = inj d up.dns (sym p ∙ up.there) in
      let (u, q, down) =
        stop-IsDown k w.domain w.port w.address d v.host
          (ap (λ (x : DnsServer). x.done) same ∙ up.waits) in
      rw (q, down.there) (closed down.dns down.closed, refl)

  stop_dns-IsClosed :
      (w : World k s) (v : Server k s) (e : End k s)
      → IsUp k w.domain w.port w.address v.host
      → Keeps v e
      → (stop_dns k s w e).0 ≢ hangs
      → let r = stop_dns k s w e in IsClosed r.1.host.dns × (r.1.etcd ≡ v.etcd)
  unfolding stop_dns
  stop_dns-IsClosed w v (hangs, u) up q n = absurd (n refl)
  stop_dns-IsClosed w v (panics, u) up q n =
      let (a, b) = stop_dns_of-IsClosed w panics u u.host.dns refl (rw (sym q.host) at up) in
      (a, b ∙ q.etcd)
  stop_dns-IsClosed w v (returns e, u) up q n =
      let (a, b) = stop_dns_of-IsClosed w (returns e) u u.host.dns refl (rw (sym q.host) at up) in
      (a, b ∙ q.etcd)

  with_dns-IsClosed :
      (w : World k s) (v : Server k s) (h : Host k) (listen : Text) (r : Host k × Option Error)
      → IsClosed h.dns
      → new_dns_server k w.domain w.port w.address w.dns listen h ≡ r
      → (with_dns k s w v r).0 ≢ hangs
      → let e = with_dns k s w v r in IsClosed e.1.host.dns × (e.1.etcd ≡ v.etcd)
  unfolding with_dns
  with_dns-IsClosed w v h listen (u, some e) i p n =
      (new_dns_server-IsClosed k w.domain w.port w.address w.dns listen h u e i p, refl)
  with_dns-IsClosed w v h listen (u, none) i p n =
      let up = new_dns_server-IsUp k w.domain w.port w.address w.dns listen h u p in
      let t : Server k s = record v { host = u } in
      stop_dns-IsClosed w t (with_nfs k s w t (nfs_setup w.nfs v.exports)) up
        (with_nfs-Keeps w t (nfs_setup w.nfs v.exports)) n

  after_port-IsClosed :
      (w : World k s) (v : Server k s) (open_port : Bool)
      → IsClosed v.host.dns
      → (after_port k s w v open_port).0 ≢ hangs
      → let e = after_port k s w v open_port in IsClosed e.1.host.dns × (e.1.etcd ≡ v.etcd)
  unfolding after_port
  after_port-IsClosed w v true i n = (i, refl)
  after_port-IsClosed w v false i n = with_dns-IsClosed w v v.host (b':' ∷ w.port) _ i refl n

  pub with_etcd-IsClosed :
      (w : World k s) (v : Server k s)
      → IsClosed v.host.dns
      → (with_etcd k s w v).0 ≢ hangs
      → let e = with_etcd k s w v in IsClosed e.1.host.dns × (e.1.etcd ≡ v.etcd)
  unfolding with_etcd
  with_etcd-IsClosed w v i n =
      let h : Host k = record v.host { store = w.wipe v.host.store } in
      after_port-IsClosed w (record v { host = h }) w.port_open i n

  -- What `Start` has given back: etcd's server is stopped, and the name server is not started again.
  pub record IsReleased (v : Server k s) : Type 0 where
    pub idle : IsClosed v.host.dns
    pub etcd : EtcdServer
    pub there : v.etcd ≡ some etcd
    pub stops : etcd.server ≡ some stopped
