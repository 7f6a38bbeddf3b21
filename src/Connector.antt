-- ===== src/Connector.antt =====
-- components/server/connector/ssh.go and cmd/ssh.go: sessions inside a VM. What the SSH library,
-- the terminal and the file transfer answer are parameters. An error is its text.
pub mod Terminal
use corectl.Base.{
  ℕ, Bool, true, false, not, Option, none, some, List, [], ◌∷◌, ◌++◌, Text, codes, has_suffix, join,
  ◌==◌, ◌=t◌, if◌then◌else◌, Result, ok, err, drop, Outcome, returns, hangs, panics,
}
use corectl.Commands.{vm_info, scp_target}
use corectl.Daemon.{Error}
use corectl.Registry.{Active}
use corectl.Session.{base_name}
use corectl.Vm.{Vm}

-- What the steps of `StartSSHsession` answer.
pub record Answers : Type 0 where
  pub parse_key : Option Text
  pub dial : Option Text
  pub new_session : Option Text
  pub make_raw : Option Text
  pub get_size : Option Text
  pub request_pty : Option Text

-- The connection and the session that are open, and whether the terminal is in raw mode.
pub record State : Type 0 where
  pub conn : Bool
  pub session : Bool
  pub raw : Bool

abbrev pub at_rest : State
at_rest = record { conn = false; session = false; raw = false }

abbrev pub Started : Type 0
Started = State × Option Text

abbrev pub step : Option Text → Text → State → Started → Started
step none text s later = later
step (some e) text s later = (s, some text)

-- `StartSSHsession`
unfoldable pub start_session : Answers → Text → Started
start_session w ip =
    let connected : State = record { conn = true; session = false; raw = false } in
    let opened : State = record { conn = true; session = true; raw = false } in
    let raw : State = record { conn = true; session = true; raw = true } in
    let own : Option Text → Text = λ o. elim o [ none ↦ [] | some e ↦ e ] in
    step w.parse_key (own w.parse_key) at_rest (
      step w.dial (ip ++ codes ":22 unreachable") at_rest (
        step w.new_session (codes "unable to create session: " ++ own w.new_session) connected (
          step w.make_raw (own w.make_raw) opened (
            step w.get_size (own w.get_size) raw (
              step w.request_pty (codes "request for pseudo terminal failed: " ++ own w.request_pty)
                raw (raw, none))))))

-- `Close`
unfoldable pub close : State → State
close s = record s { conn = false; session = false; raw = false }

-- The errors that `ExecuteRemoteCommand` and `RemoteShell` do not report.
abbrev pub unclean_exit : Text
unclean_exit = codes "exited without exit status or exit signal"

unfoldable pub reported : Option Text → Option Text
reported none = none
reported (some e) = if has_suffix e unclean_exit then none else some e

-- What the session answers.
pub record Remote : Type 0 where
  pub run : Text → Option Text
  pub shell : Option Text
  pub wait : Option Text

unfoldable pub execute_remote_command : Remote → Text → Option Text
unfolding reported
execute_remote_command r command = reported (r.run command)

unfoldable pub remote_shell : Remote → Option Text
unfolding reported
remote_shell r = elim r.shell [ none ↦ reported r.wait | some e ↦ some e ]

-- The end of `sshCommand`: what the session says, once it is there, and the terminal afterwards.
unfoldable pub talk : Remote → List Text → Option Text
unfolding execute_remote_command remote_shell
talk r [] = remote_shell r
talk r (c ∷ cs) = execute_remote_command r (join (c ∷ cs) (codes " "))

unfoldable pub in_session : Remote → List Text → Started → State × Option Text
unfolding close talk
in_session r commands (s, some e) = (s, some e)
in_session r commands (s, none) = (close s, talk r commands)

-- `sshCommand`, for the VM that the first argument names: `err` where there is none.
unfoldable pub ssh_command :
    Answers → Remote → List Text → Result Error Vm → Result Error (State × Option Text)
unfolding start_session in_session
ssh_command w r commands (err e) = err e
ssh_command w r commands (ok vm) = ok (in_session r commands (start_session w vm.public_ip))

-- What the steps of `SCoPy` answer: the transfer, the local file and its size, the remote
-- directories, the creation of a file, and what is written to it.
pub record Transfer : Type 0 where
  pub client : Option Text
  pub open_source : Option Text
  pub source_size : Result Text ℕ
  pub is_dir : Text → Bool
  pub create : Text → Option Text
  pub copy : Option Text
  pub written : Result Text ℕ

-- filepath.Dir of a clean path with a slash: what is before the last one.
dir_after : Text → Text → Text → Text
dir_after out seen [] = out
dir_after out seen (c ∷ s) = dir_after (if c == b'/' then seen else out) (seen ++ (c ∷ [])) s

unfoldable pub dir_name : Text → Text
unfolding dir_after
dir_name p = let d = dir_after (codes ".") [] p in if d =t [] then codes "/" else d

-- The remote file that `SCoPy` creates, if it comes that far, and its error.
abbrev pub Copied : Type 0
Copied = Option Text × Option Text

abbrev pub check : Option Text → Option Text → Copied → Copied
check file none later = later
check file (some e) later = (file, some e)

abbrev pub sized : Result Text ℕ → Option Text → (ℕ → Copied) → Copied
sized (err e) file later = (file, some e)
sized (ok n) file later = later n

-- A directory takes a file with the name of the source.
unfoldable pub place : Transfer → Text → Text → Text
place t source destination =
    if t.is_dir destination then destination ++ (b'/' ∷ base_name source) else destination

unfoldable pub fill : Transfer → Text → ℕ → Copied
fill t file size = check none (t.create file) (
    check (some file) t.copy (
      sized t.written (some file) λ n. (
        some file,
        (if n == size
            then none
            else some (codes "something went wrong. destination file size != from sources'")),
      )))

-- `SCoPy`
unfoldable pub scopy : Transfer → Text → Text → Copied
unfolding place fill dir_name
scopy t source destination = check none t.client (
    check none t.open_source (
      sized t.source_size none λ size.
        if t.is_dir (dir_name destination) then fill t (place t source destination) size else (
          none,
          some (
              codes "unable to upload "
              ++ (source
                  ++ (codes " as parent " ++ (dir_name destination ++ codes " not in target")))),
        )))

-- `scpCommand`, given the answer of `ActiveVMs`
abbrev pub transfer : Transfer → Text → Text → Started → State × Option Text
transfer t source destination (s, some e) = (s, some e)
transfer t source destination (s, none) = (close s, (scopy t source destination).1)

unfoldable pub scp_to :
    Answers → Transfer → Text → Text → Result Error Vm → Result Error (State × Option Text)
unfolding start_session scopy close
scp_to w t source destination (err e) = err e
scp_to w t source destination (ok vm) =
    ok (transfer t source destination (start_session w vm.public_ip))

unfoldable pub scp_command :
    Answers → Transfer → Text → Text → Active → Outcome (Result Error (State × Option Text))
unfolding scp_to
scp_command w t source arg m = elim (scp_target arg) [
  | none ↦ panics
  | some (target, destination) ↦ returns (scp_to w t source destination (vm_info target m))
]
