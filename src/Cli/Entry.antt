-- ===== src/Cli/Entry.antt =====
-- components/host/session/session.go and cmd/main.go: the session that `New` makes, and what
-- `PersistentPreRunE` does to it and to the disk before a command runs.
pub mod Ends
use corectl.Base.{
  ℕ, Bool, true, false, not, ◌||◌, Option, none, some, List, [], ◌∷◌, ◌++◌, Text, codes, ◌=t◌,
  =t_iff, has_prefix, ◌≡◌, refl, sym, ◌∙◌, ap, ◌⊎◌, inl, inr, arith, if◌then◌else◌, Result, ok, err,
  Outcome, returns, hangs, panics, Bool-cases,
}
use corectl.Cli
use corectl.Cli.{
  PreRun, too_many_rights, not_enough_rights, owner_unset, layout_failed, goes_on, pre_run, prepare,
}
use corectl.Daemon.{Error}
use corectl.Http.{Network}
use corectl.Session
use corectl.Session.{Entry, Answers, set_context, normalize}

-- The part of `user.User` that the code reads.
pub record User : Type 0 where
  pub home : Text
  pub uid : ℕ
  pub gid : ℕ

-- `Context`, without the build information and the flags.
pub record Context : Type 0 where
  pub privileged : Bool
  pub user : Option User
  pub server_address : Text
  pub network : Network

-- `New`, given whether the process runs as root and what `user.Current` answers.
unfoldable pub new_session : Bool → Result Error User → Result Error Context
new_session root current =
    let made : Option User → Context = λ u. record {
      privileged = root;
      user = u;
      server_address = codes "127.0.0.1:2511";
      network = record { address = []; mask = [] };
    } in
    if root then ok (made none) else elim current [ err e ↦ err e | ok u ↦ ok (made (some u)) ]

-- What the system answers: the user of `--user`, the two calls of `defaults read`, the numbers of
-- the process, and the disk.
pub record System : Type 0 where
  pub lookup_user : Result Error User
  pub read_address : Result Error Text
  pub read_mask : Result Error Text
  pub process_uid : ℕ
  pub process_gid : ℕ
  pub answers : Answers

-- The session, the disk, and how `PersistentPreRunE` ended.
pub record Ran : Type 0 where
  pub context : Context
  pub disk : List Entry
  pub result : PreRun

abbrev pub caller_of : System → Bool → User → Session.Caller
caller_of s root u = record {
  privileged = root;
  home = u.home;
  uid = u.uid;
  gid = u.gid;
  process_uid = s.process_uid;
  process_gid = s.process_gid;
}

abbrev pub ending : Option Error → PreRun
ending none = goes_on
ending (some e) = layout_failed

-- `NormalizeOnDiskLayout` reads the home directory of the session's user, which is a pointer.
abbrev pub lay_out : System → Context → List Entry → Option User → Outcome Ran
lay_out s c es none = panics
lay_out s c es (some u) =
    let laid = normalize (caller_of s c.privileged u) s.answers es in
    returns (record { context = c; disk = laid.0; result = ending laid.1 })

-- The network, and the layout on disk.
unfoldable pub prepare_session : System → Text → Context → List Entry → Outcome Ran
prepare_session s name c es =
    if has_prefix name (codes "genM") || (name =t codes "version")
    then returns (record { context = c; disk = es; result = goes_on })
    else lay_out s (record c { network = set_context s.read_address s.read_mask }) es c.user

abbrev pub with_owner : System → Text → Context → List Entry → Result Error User → Outcome Ran
with_owner s name c es (err e) = returns (record { context = c; disk = es; result = owner_unset })
with_owner s name c es (ok u) = prepare_session s name (record c { user = some u }) es

abbrev pub end_early : Context → List Entry → PreRun → Outcome Ran
end_early c es r = returns (record { context = c; disk = es; result = r })

-- `PersistentPreRunE`, by whether this is `corectld` and whether the session is root's.
unfoldable pub enter_as : System → Bool → Bool → Text → Context → List Entry → Outcome Ran
unfolding prepare_session
enter_as s false true name c es = end_early c es too_many_rights
enter_as s false false name c es = prepare_session s name c es
enter_as s true false name c es =
    if name =t codes "uuid2mac"
    then end_early c es not_enough_rights
    else prepare_session s name c es
enter_as s true true name c es =
    if name =t codes "uuid2mac"
    then end_early c es goes_on
    else if name =t codes "start"
    then with_owner s name c es s.lookup_user
    else end_early c es too_many_rights

unfoldable pub enter_command : System → Bool → Text → Context → List Entry → Outcome Ran
unfolding enter_as
enter_command s server name c es = enter_as s server c.privileged name c es

-- The address of the server: `New` sets one, and `main` takes the flag's for the client.
abbrev pub with_flag : Bool → Text → Context → Context
with_flag true flag c = c
with_flag false flag c = record c { server_address = flag ++ codes ":2511" }

-- How the process ends: its exit status, and the error that it prints.
pub record Exit : Type 0 where
  pub status : ℕ
  pub printed : Option Error

-- `main`, given whether this is `corectld`, the flag `server`, and what `rootCmd.Execute` answers:
-- `os.Exit(-1)` is status 255.
unfoldable pub main : Bool → Text → Result Error Context → (Context → Option Error) → Exit
main server flag (err e) execute = record { status = 0; printed = none }
main server flag (ok c) execute = elim (execute (with_flag server flag c)) [
  | none ↦ record { status = 0; printed = none }
  | some e ↦ record { status = 255; printed = some e }
]
