-- ===== src/Examples/Cli.antt =====
-- The theorems on the command line at concrete arguments.
use corectl.Base.{[], true, false, none, some, ◌≡◌, refl, codes, ok, err, ◌=t◌, if◌then◌else◌}
use corectl.Cli.Entry.{User, Context, System, new_session, enter_command, main}
use corectl.Cli.Entry.Ends.{Ends, enter_command-Ends}
use corectl.Daemon.{other}

abbrev owner : User
owner = record { home = codes "/Users/core"; uid = 501; gid = 20 }

-- root starts the server for a user, on an empty disk that takes every call.
abbrev system : System
system = record {
  lookup_user = ok owner;
  read_address = err other;
  read_mask = err other;
  process_uid = 0;
  process_gid = 0;
  answers = record { mkdir = λ p. none; remove = λ p. none; chmod = λ p. none; chown = λ p. none };
}

abbrev fresh : Context
fresh = record {
  privileged = true;
  user = none;
  server_address = codes "127.0.0.1:2511";
  network = record { address = []; mask = [] };
}

enter_command-Ends_example :
    Ends system true (codes "start") fresh [] (enter_command system true (codes "start") fresh [])
unfolding new_session
enter_command-Ends_example =
    enter_command-Ends system true (codes "start") true (err other) fresh [] refl

fails_silently :
    main false (codes "127.0.0.1") (err other) (λ c. none) ≡ record { status = 0; printed = none }
unfolding main
fails_silently = refl

asks_the_server :
    main false
      (codes "10.0.0.1")
      (ok fresh)
      (λ c. if c.server_address =t codes "10.0.0.1:2511" then none else some other)
    ≡ record { status = 0; printed = none }
unfolding main ◌=t◌
asks_the_server = refl
