-- ===== src/NameServer.antt =====
-- components/server/dns.go: how the embedded name server is set up, started and stopped. Its records
-- are those of Dns.
pub mod Closed
pub mod Running
use corectl.Base.{
  ℕ, zero, suc, Bool, true, false, not, Option, none, some, List, [], ◌∷◌, ◌++◌, Text, codes, ◌==◌,
  if◌then◌else◌, Result, ok, err, Outcome, returns, hangs, panics,
}
use corectl.Daemon.{Error, other}
use corectl.Dns.{KeysApi, add_host, teardown}

-- `DNSServer`: `done` is nil, an open channel, or a closed one; `runs` is how many goroutines were
-- started with `until`.
pub data Done : Type 0 where
  nil_channel open_channel closed_channel : Done

pub record DnsServer : Type 0 where
  pub address : Text
  pub done : Done
  pub runs : ℕ

-- `WatermarkHeader`
abbrev pub watermark : Text
watermark = codes "#\n# This file is automatically generated and managed by corectl\n#\n"

-- `DNSServer.Start`
unfoldable pub start : DnsServer → DnsServer
start d = elim d.done [
  | nil_channel ↦ record d { done = open_channel; runs = suc d.runs }
  | open_channel ↦ d
  | closed_channel ↦ d
]

-- `close(dns.done)`
unfoldable pub close_done : DnsServer → Outcome DnsServer
close_done d = elim d.done [
  | nil_channel ↦ panics
  | open_channel ↦ returns (record d { done = closed_channel })
  | closed_channel ↦ panics
]

-- The text of the resolver file, for the domain and the port.
unfoldable pub resolver_text : Text → Text → Text
resolver_text root port =
    watermark
    ++ (codes "domain "
        ++ (root
            ++ (codes "\nsearch "
                ++ (root ++ (codes "\nnameserver 127.0.0.1\nport " ++ (port ++ codes "\n"))))))

-- A program that is run, with its arguments.
abbrev pub Command : Type 0
Command = List Text

abbrev pub pfctl : List Text → Command
pfctl args = codes "echo" ∷ codes "/sbin/pfctl" ∷ args

abbrev pub anchor : Text
anchor = codes "corectld-forwarding-dns"

-- The rules that `PortForward` writes to a temporary file.
unfoldable pub rules_text : Text → Text → Text
rules_text port address =
    watermark
    ++ (codes " rdr pass on bridge100 inet proto { tcp udp } from any to any port = domain -> "
        ++ (address ++ (codes " port " ++ (port ++ codes "\n"))))

-- `PortForward`, given the temporary file's name and what the last command answers: the commands
-- that it ran, what it wrote to the file, and its error. The file is removed when it returns.
pub record Forwarding : Type 0 where
  pub ran : List Command
  pub wrote : Option Text
  pub error : Option Error

unfoldable pub port_forward : Text → Text → Result Error Text → Option Error → Forwarding
unfolding rules_text
port_forward port address (err e) answer = record { ran = []; wrote = none; error = some e }
port_forward port address (ok file) answer = record {
  ran = pfctl (codes "-e" ∷ []) ∷ pfctl (codes "-a" ∷ anchor ∷ codes "-f" ∷ file ∷ []) ∷ [];
  wrote = some (rules_text port address);
  error = answer;
}

-- What the system answers to `NewDNSServer`.
pub record Answers : Type 0 where
  pub resolve : Option Error
  pub create : Option Error
  pub temp : Result Error Text
  pub forward : Option Error

-- What `until` finds in a round: whether `done` is closed, and what the server's `Run` returns.
pub record Turn : Type 0 where
  pub closed : Bool
  pub error : Option Text

-- `pad`. It is `Sprint`, so the format stays in the text.
unfoldable pub pad : Text → Text
pad s = codes "\n%s\n" ++ s

-- Fprintf with `%s` and `%v` for texts.
unfoldable pub format : Text → List Text → Text
format [] args = []
format (c ∷ []) args = c ∷ []
format (c ∷ d ∷ s) args =
    let skip = format (d ∷ s) args in
    elim (c == b'%') [
      | false ↦ c ∷ skip
      | true ↦ elim args [
        | [] ↦ codes "%!" ++ (d ∷ (codes "(MISSING)" ++ format s []))
        | a ∷ more ↦ a ++ format s more
      ]
    ]

unfoldable pub message : Text → Option Text → Text
unfolding pad format
message name none = format (pad (codes "%s: Exited with no errors.\n")) (name ∷ [])
message name (some e) = format (pad (codes "%s: Exit with error: %v")) (name ∷ e ∷ [])

-- `until`, over the rounds that there are: how often the server was run, what was printed, and
-- whether the loop has ended.
pub record Loop : Type 0 where
  pub ran : ℕ
  pub printed : List Text
  pub ended : Bool

abbrev pub ran_once : Text → Loop → Loop
ran_once t l = record { ran = suc l.ran; printed = t ∷ l.printed; ended = l.ended }

unfoldable pub until : Text → List Turn → Loop
unfolding message
until name [] = record { ran = 0; printed = []; ended = false }
until name (t ∷ ts) =
    let later = until name ts in
    if t.closed
    then record { ran = 0; printed = []; ended = true }
    else ran_once (message name t.error) later

module _ (k : KeysApi) where
  -- What the name server leaves in the rest of the program: the store, the server, the resolver
  -- file, and the commands that were run.
  pub record Host : Type 0 where
    pub store : k.Store
    pub dns : Option DnsServer
    pub resolver : Option Text
    pub commands : List Command

module _ (k : KeysApi) (domain port address : Text) where
  unfoldable pub forwarded : DnsServer → Host k → Option Error → Host k × Option Error
  unfolding start
  forwarded d h (some x) = (h, some x)
  forwarded d h none = (record h { dns = some (start d) }, none)

  unfoldable pub forward : Answers → DnsServer → Host k → Host k × Option Error
  unfolding port_forward forwarded
  forward w d h =
      let f = port_forward port address w.temp w.forward in
      forwarded d (record h { commands = h.commands ++ f.ran }) f.error

  unfoldable pub with_resolver : Answers → DnsServer → Host k → Option Error → Host k × Option Error
  unfolding forward resolver_text
  with_resolver w d h (some x) = (h, some x)
  with_resolver w d h none = forward w d (record h { resolver = some (resolver_text domain port) })

  unfoldable pub with_records :
      Answers → DnsServer → Host k → k.Store × Bool → Host k × Option Error
  unfolding with_resolver
  with_records w d h (t, false) = (record h { store = t; dns = some d }, some other)
  with_records w d h (t, true) = with_resolver w d (record h { store = t; dns = some d }) w.create

  -- `NewDNSServer`
  unfoldable pub resolved : Answers → Text → Host k → Option Error → Host k × Option Error
  unfolding with_records
  resolved w listen h (some x) = (h, some x)
  resolved w listen h none =
      with_records w (record { address = listen; done = nil_channel; runs = 0 }) h
        (add_host k domain address h.store)

  unfoldable pub new_dns_server : Answers → Text → Host k → Host k × Option Error
  unfolding resolved
  new_dns_server w listen h = resolved w listen h w.resolve

  -- `DNSServer.Stop`: `teardownService`, and the closing of `done`
  unfoldable pub torn_down : Host k → Host k
  torn_down h = record h {
    store = teardown k domain address h.store;
    resolver = none;
    commands = h.commands ++ (pfctl (codes "-a" ∷ anchor ∷ codes "-Fa" ∷ []) ∷ []);
  }

  unfoldable pub after_close : Host k → Outcome DnsServer → Outcome (Host k)
  unfolding torn_down
  after_close h (returns e) = returns (record (torn_down h) { dns = some e })
  after_close h hangs = hangs
  after_close h panics = panics

  unfoldable pub stop : DnsServer → Host k → Outcome (Host k)
  unfolding close_done after_close
  stop d h = after_close h (close_done d)
