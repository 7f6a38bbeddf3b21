-- ===== src/NameServer/Closed.antt =====
-- components/server/dns.go: a `NewDNSServer` that fails has started nothing.
use corectl.Base.{Bool, true, false, Option, none, some, ◌++◌, Text, ◌≡◌, refl, ap}
use corectl.Daemon.{Error}
use corectl.Dns.{KeysApi, add_host}
use corectl.NameServer.{
  Answers, Host, DnsServer, nil_channel, closed_channel, forwarded, forward, with_resolver,
  with_records, resolved, new_dns_server, port_forward, resolver_text,
}

-- A name server that is not started again: there is none, it was never started, or its `done` is
-- closed. A run that goes on when `done` is closed is not ended by it.
pub data IsClosed : Option DnsServer → Type 0 where
  absent : IsClosed none
  unstarted : (d : DnsServer) → d.done ≡ nil_channel → IsClosed (some d)
  closed : (d : DnsServer) → d.done ≡ closed_channel → IsClosed (some d)

module _ (k : KeysApi) (domain port address : Text) where
  forwarded-IsClosed :
      (d : DnsServer) (h u : Host k) (x : Option Error) (e : Error)
      → IsClosed h.dns
      → forwarded k domain port address d h x ≡ (u, some e)
      → IsClosed u.dns
  unfolding forwarded
  forwarded-IsClosed d h u none e i p = absurd (cc)
  forwarded-IsClosed d h u (some x) e i p = rw (← ap (λ (r : Host k × Option Error). r.0) p) i

  with_resolver-IsClosed :
      (w : Answers) (d : DnsServer) (h u : Host k) (x : Option Error) (e : Error)
      → IsClosed h.dns
      → with_resolver k domain port address w d h x ≡ (u, some e)
      → IsClosed u.dns
  unfolding with_resolver forward
  with_resolver-IsClosed w d h u (some x) e i p = rw (← ap (λ (r : Host k × Option Error). r.0) p) i
  with_resolver-IsClosed w d h u none e i p =
      let f = port_forward port address w.temp w.forward in
      forwarded-IsClosed d
        (record h { resolver = some (resolver_text domain port); commands = h.commands ++ f.ran }) u
        f.error e i p

  with_records-IsClosed :
      (w : Answers) (d : DnsServer) (h u : Host k) (r : k.Store × Bool) (e : Error)
      → d.done ≡ nil_channel
      → with_records k domain port address w d h r ≡ (u, some e)
      → IsClosed u.dns
  unfolding with_records
  with_records-IsClosed w d h u (t, false) e n p =
      rw (← ap (λ (r : Host k × Option Error). r.0) p) (unstarted d n)
  with_records-IsClosed w d h u (t, true) e n p =
      with_resolver-IsClosed w d (record h { store = t; dns = some d }) u w.create e (unstarted d n)
        p

  resolved-IsClosed :
      (w : Answers) (listen : Text) (h u : Host k) (x : Option Error) (e : Error)
      → IsClosed h.dns
      → resolved k domain port address w listen h x ≡ (u, some e)
      → IsClosed u.dns
  unfolding resolved
  resolved-IsClosed w listen h u (some x) e i p = rw (← ap (λ (r : Host k × Option Error). r.0) p) i
  resolved-IsClosed w listen h u none e i p =
      let d : DnsServer = record { address = listen; done = nil_channel; runs = 0 } in
      with_records-IsClosed w d h u (add_host k domain address h.store) e refl p

  -- A `NewDNSServer` that fails leaves no name server running.
  pub new_dns_server-IsClosed :
      (w : Answers) (listen : Text) (h u : Host k) (e : Error)
      → IsClosed h.dns
      → new_dns_server k domain port address w listen h ≡ (u, some e)
      → IsClosed u.dns
  unfolding new_dns_server
  new_dns_server-IsClosed w listen h u e i p = resolved-IsClosed w listen h u w.resolve e i p
