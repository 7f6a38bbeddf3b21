-- ===== src/Examples/Services.antt =====
-- The theorems on the services at a server with one VM.
use corectl.Base.{
  err, [], ◌∷◌, true, false, none, some, ◌≡◌, refl, codes, Text, returns, lookup, ◌=t◌, to_upper,
}
use corectl.Daemon
use corectl.Daemon.{Daemon, server_shutting_down}
use corectl.Examples.{core1, plain}
use corectl.Services.{MacTool, exited, Query, remove_an_image, blank, serve, uuid_to_mac}
use corectl.Services
use corectl.Services.Gate.{serve-stop}
use corectl.Services.Mac.{IsReply, uuid_to_mac-IsReply}
use corectl.Shutdown
use corectl.Shutdown.{stop, stop_vms}
use corectl.Lifecycle.Entry.{enter}

abbrev daemon : Daemon Text
daemon =
    record (Daemon.new {V = Text} (record {
      version = [];
      started = 0;
      pid = 1;
      built = [];
      runtime = [];
      os = [];
      arch = [];
    })) { active = (codes "A1", core1) ∷ [] }

-- A tool that always prints the same address.
abbrev tool : MacTool
tool = record { run_tool = λ n u. exited none (codes "6a:0:0:0:0:1"); fresh = λ n. codes "b1" }

abbrev host : Services.Host plain
host = record { breakage = 0; remove_dir = λ c v s. none; tool = tool }

abbrev obedient : Shutdown.Host
obedient = record { comes_up = λ v. false; exits_on_sigterm = λ v. true; also_gone = λ v. [] }

serve-stop_example :
    let d = (stop obedient daemon).1 in
    (serve plain host (remove_an_image (codes "alpha" ∷ codes "1" ∷ [])) d []
      ≡ returns (record {
        reply = blank plain;
        error = some server_shutting_down;
        daemon = d;
        store = [];
      }))
    × (enter true 5 core1 d ≡ (d, err server_shutting_down))
    × (stop_vms obedient 0 true [] d
        ≡ returns (record {
          error = some server_shutting_down;
          output = [];
          sent = [];
          active = d.active;
        }))
    × (stop obedient d ≡ (returns [], d, some server_shutting_down))
serve-stop_example =
    serve-stop plain host obedient obedient (remove_an_image (codes "alpha" ∷ codes "1" ∷ [])) true
      5 0 core1 true [] daemon [] tt

uuid_to_mac-IsReply_example :
    (lookup (codes "c1") daemon.active ≡ none)
    × IsReply tool daemon.active (codes "c1") (codes "C1") (codes "6a:0:0:0:0:1")
unfolding uuid_to_mac lookup ◌=t◌ to_upper
uuid_to_mac-IsReply_example =
    uuid_to_mac-IsReply tool (codes "c1") (codes "C1") (codes "6a:0:0:0:0:1") daemon refl
