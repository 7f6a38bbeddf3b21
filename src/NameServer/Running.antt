-- ===== src/NameServer/Running.antt =====
-- components/server/dns.go: the life of the embedded name server.
use corectl.Base.{
  suc, Bool, true, false, Option, none, some, List, [], ◌∷◌, ◌++◌, Text, ◌≡◌, refl, ◌∙◌, sym, ap,
  arith, All, length, map, returns,
}
use corectl.Daemon.{Error}
use corectl.Dns.{KeysApi, add_host}
use corectl.NameServer.{
  DnsServer, nil_channel, open_channel, closed_channel, start, close_done, Answers, Turn, message,
  until, Host, forwarded, forward, with_resolver, with_records, resolved, new_dns_server, torn_down,
  after_close, stop, resolver_text, port_forward,
}

-- `until` runs the server in each round before the first that finds `done` closed, prints one line
-- for each run, and ends in that round, whatever would come after it.
pub until_ends :
    (name : Text) (before after : List Turn) (last : Turn)
    → All (λ (t : Turn). t.closed ≡ false) before
    → last.closed ≡ true
    → until name (before ++ last ∷ after) ≡ record {
      ran = length before;
      printed = map (λ (t : Turn). message name t.error) before;
      ended = true;
    }
unfolding until
until_ends name [] after last h c = rw c refl
until_ends name (t ∷ ts) after last h c = rw (h.0, until_ends name ts after last h.1 c) refl

-- A loop that never finds `done` closed does not end.
until_open :
    (name : Text) (turns : List Turn)
    → All (λ (t : Turn). t.closed ≡ false) turns
    → (until name turns).ended ≡ false
unfolding until
until_open name [] h = refl
until_open name (t ∷ ts) h = rw h.0 (until_open name ts h.1)

start_again : (d : DnsServer) → start (start d) ≡ start d
unfolding start
start_again d = ground arith

module _ (k : KeysApi) (domain port address : Text) where
  -- A name server that runs, over the files that it needs.
  pub record IsUp (h : Host k) : Type 0 where
    pub dns : DnsServer
    pub there : h.dns ≡ some dns
    pub waits : dns.done ≡ open_channel
    pub runs_once : dns.runs ≡ 1
    pub resolves : h.resolver ≡ some (resolver_text domain port)

  forwarded-IsUp :
      (d : DnsServer) (h u : Host k) (e : Option Error)
      → d.done ≡ nil_channel
      → d.runs ≡ 0
      → h.resolver ≡ some (resolver_text domain port)
      → forwarded k domain port address d h e ≡ (u, none)
      → IsUp u
  unfolding forwarded start
  forwarded-IsUp d h u (some x) n z r e = absurd (cc)
  forwarded-IsUp d h u none n z r e =
      let q : record h { dns = some (start d) } ≡ u = ap (λ x. x.0) e in
      record {
        dns = start d;
        there = sym (ap (λ (x : Host k). x.dns) q);
        waits = rw n refl;
        runs_once = rw n (ap suc z);
        resolves = sym (ap (λ (x : Host k). x.resolver) q) ∙ r;
      }

  forward-IsUp :
      (w : Answers) (d : DnsServer) (h u : Host k)
      → d.done ≡ nil_channel
      → d.runs ≡ 0
      → h.resolver ≡ some (resolver_text domain port)
      → forward k domain port address w d h ≡ (u, none)
      → IsUp u
  unfolding forward
  forward-IsUp w d h u n z r e =
      let f = port_forward port address w.temp w.forward in
      forwarded-IsUp d (record h { commands = h.commands ++ f.ran }) u f.error n z r e

  with_resolver-IsUp :
      (w : Answers) (d : DnsServer) (h u : Host k) (e : Option Error)
      → d.done ≡ nil_channel
      → d.runs ≡ 0
      → with_resolver k domain port address w d h e ≡ (u, none)
      → IsUp u
  unfolding with_resolver
  with_resolver-IsUp w d h u (some x) n z e = absurd (cc)
  with_resolver-IsUp w d h u none n z e =
      forward-IsUp w d (record h { resolver = some (resolver_text domain port) }) u n z refl e

  with_records-IsUp :
      (w : Answers) (d : DnsServer) (h u : Host k) (r : k.Store × Bool)
      → d.done ≡ nil_channel
      → d.runs ≡ 0
      → with_records k domain port address w d h r ≡ (u, none)
      → IsUp u
  unfolding with_records
  with_records-IsUp w d h u (t, false) n z e = absurd (cc)
  with_records-IsUp w d h u (t, true) n z e =
      with_resolver-IsUp w d (record h { store = t; dns = some d }) u w.create n z e

  resolved-IsUp :
      (w : Answers) (listen : Text) (h u : Host k) (x : Option Error)
      → resolved k domain port address w listen h x ≡ (u, none)
      → IsUp u
  unfolding resolved
  resolved-IsUp w listen h u (some x) e = absurd (cc)
  resolved-IsUp w listen h u none e =
      let d : DnsServer = record { address = listen; done = nil_channel; runs = 0 } in
      with_records-IsUp w d h u (add_host k domain address h.store) refl refl e

  -- When `NewDNSServer` succeeds, the server runs in one loop, and the resolver file is there.
  pub new_dns_server-IsUp :
      (w : Answers) (listen : Text) (h u : Host k)
      → new_dns_server k domain port address w listen h ≡ (u, none)
      → IsUp u
  unfolding new_dns_server
  new_dns_server-IsUp w listen h u e = resolved-IsUp w listen h u w.resolve e

  -- A name server that has been stopped: `done` is closed, so that its loop starts it no more, and
  -- its resolver file is gone. A run that goes on is not killed.
  pub record IsDown (h : Host k) : Type 0 where
    pub dns : DnsServer
    pub there : h.dns ≡ some dns
    pub closed : dns.done ≡ closed_channel
    pub unresolved : h.resolver ≡ none

  -- `Stop` of a server whose `done` is open returns, and closes it.
  pub stop-IsDown :
      (d : DnsServer) (h : Host k)
      → d.done ≡ open_channel
      → (u : Host k) × (stop k domain port address d h ≡ returns u) × IsDown u
  unfolding stop close_done after_close torn_down
  stop-IsDown d h o = (
    record (torn_down k domain port address h) { dns = some (record d { done = closed_channel }) },
    rw o refl,
    record {
      dns = record d { done = closed_channel };
      there = refl;
      closed = refl;
      unresolved = refl;
    },
  )
