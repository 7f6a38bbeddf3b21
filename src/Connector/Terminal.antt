-- ===== src/Connector/Terminal.antt =====
-- cmd/ssh.go and components/server/connector/ssh.go: what a session leaves behind.
use corectl.Base.{
  Bool, true, false, ◌&&◌, not, Option, none, some, List, Text, ◌≡◌, ◌∙◌, sym, ap, arith, ok,
}
use corectl.Connector.{Answers, State, start_session, close, Remote, in_session, ssh_command}
use corectl.Vm.{Vm}

abbrev pub works : Option Text → Bool
works none = true
works (some e) = false

-- The steps up to the connection, those that follow it up to the terminal, and the last two.
abbrev pub connects : Answers → Bool
connects w = works w.parse_key && works w.dial

abbrev pub goes_raw : Answers → Bool
goes_raw w = works w.new_session && works w.make_raw

abbrev pub gets_pty : Answers → Bool
gets_pty w = works w.get_size && works w.request_pty

-- What is still open after the end of the command.
record IsLeft (w : Answers) (s : State) : Type 0 where
  conn : s.conn ≡ (connects w && not (goes_raw w && gets_pty w))
  raw : s.raw ≡ ((connects w && goes_raw w) && not (gets_pty w))

in_session-IsLeft :
    (w : Answers) (r : Remote) (ip : Text) (commands : List Text)
    → IsLeft w (in_session r commands (start_session w ip)).0
unfolding in_session start_session close
in_session-IsLeft w r ip commands = record { conn = ground arith; raw = ground arith }

-- However `sshCommand` ends, the terminal is left in raw mode exactly if it was put into it and its
-- size or the pseudo terminal then failed, and the connection is left open exactly if there was one
-- and a later step of the session failed.
pub ssh_command_leaves :
    (w : Answers) (r : Remote) (commands : List Text) (vm : Vm) (s : State) (e : Option Text)
    → ssh_command w r commands (ok vm) ≡ ok (s, e)
    → (s.raw ≡ ((connects w && goes_raw w) && not (gets_pty w)))
      × (s.conn ≡ (connects w && not (goes_raw w && gets_pty w)))
unfolding ssh_command
ssh_command_leaves w r commands vm s e p =
    let l = in_session-IsLeft w r vm.public_ip commands in
    let q : (in_session r commands (start_session w vm.public_ip)).0 ≡ s = cc in
    (ap (λ (x : State). x.raw) (sym q) ∙ l.raw, ap (λ (x : State). x.conn) (sym q) ∙ l.conn)
