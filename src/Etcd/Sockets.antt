-- ===== src/Etcd/Sockets.antt =====
-- components/server/etcd.go: which sockets are open when the server has started and stopped.
use corectl.Base.{
  Option, none, some, List, [], ◌∷◌, ◌++◌, Text, ◌≡◌, refl, ◌∙◌, sym, ap, arith, append-nil,
  append_assoc, Option-cases, inl, inr, Result, ok, err,
}
use corectl.Daemon.{Error}
use corectl.Etcd.{
  started, stopped, EtcdServer, Answers, Listeners, after_listen, create_listeners, request_timeout,
  Running, serve, with_listeners, start_after, start, first_error, with_urls, configured,
  with_parsed, stopped_phase, new_etcd, close_all, stop,
}

some_inj : (a b : EtcdServer) → some a ≡ some b → a ≡ b
some_inj a b e = cc

ok_inj : (a b : List Text) → (◌≡◌ {A = Result Error (List Text)} (ok a) (ok b)) → a ≡ b
ok_inj a b e = cc

create_listeners_lem :
    (w : Answers) (hosts listeners sockets : List Text)
    → (create_listeners w hosts listeners sockets).error ≡ none
    → (((create_listeners w hosts listeners sockets).listeners) ≡ listeners ++ hosts)
      × (((create_listeners w hosts listeners sockets).sockets) ≡ sockets ++ hosts)
unfolding create_listeners after_listen
create_listeners_lem w [] listeners sockets p =
    (sym (append-nil listeners), sym (append-nil sockets))
create_listeners_lem w (h ∷ hs) listeners sockets p = elim (Option-cases (w.listen h)) [
  | inr (x, a) ↦ absurd (ground arith)
  | inl a ↦ elim (Option-cases (w.keep_alive h)) [
    | inr (x, b) ↦ absurd (ground arith)
    | inl b ↦
        let (l, s) =
          create_listeners_lem w hs (listeners ++ (h ∷ [])) (sockets ++ (h ∷ []))
            (rw (a, b) at p) in
        rw (a, b) (l ∙ append_assoc listeners (h ∷ []) hs, s ∙ append_assoc sockets (h ∷ []) hs)
  ]
]

-- What `NewEtcd` made, when it succeeded.
pub record IsServing (w : Answers) (sockets : List Text) (r : Running) : Type 0 where
  pub etcd : EtcdServer
  pub hosts : List Text
  pub urls : w.client_urls ≡ ok hosts
  pub there : r.etcd ≡ some etcd
  pub runs : etcd.server ≡ some started
  pub no_listens : etcd.client_listens ≡ []
  pub open_sockets : r.sockets ≡ sockets ++ hosts
  pub served : r.serving ≡ serve 7000 hosts

first_none : (e k : Option Error) → first_error e k ≡ none → e ≡ none
first_none none k p = refl
first_none (some x) k p = p

listeners-IsServing :
    (w : Answers) (e : EtcdServer) (hosts sockets : List Text) (l : Listeners) (x : Option Error)
    → w.client_urls ≡ ok hosts
    → e.client_listens ≡ []
    → request_timeout e.config ≡ 7000
    → l.error ≡ x
    → (l.error ≡ none → (l.listeners ≡ hosts) × (l.sockets ≡ sockets ++ hosts))
    → (with_listeners e l x).error ≡ none
    → IsServing w sockets (with_listeners e l x)
unfolding with_listeners
listeners-IsServing w e hosts sockets l (some x) u n t q f p = absurd (cc)
listeners-IsServing w e hosts sockets l none u n t q f p =
    let (a, b) = f q in
    record {
      etcd = record e { server = some started };
      hosts = hosts;
      urls = u;
      there = refl;
      runs = refl;
      no_listens = n;
      open_sockets = b;
      served = cc;
    }

start-IsServing :
    (w : Answers) (e : EtcdServer) (hosts sockets : List Text) (x : Option Error)
    → w.client_urls ≡ ok hosts
    → e.config.client_urls ≡ hosts
    → e.client_listens ≡ []
    → request_timeout e.config ≡ 7000
    → (start_after w e sockets x).error ≡ none
    → IsServing w sockets (start_after w e sockets x)
unfolding start_after
start-IsServing w e hosts sockets (some x) u c n t p = absurd (cc)
start-IsServing w e hosts sockets none u c n t p =
    listeners-IsServing w e hosts sockets _ _ u n t refl
      (λ h.
        let (a, b) = create_listeners_lem w e.config.client_urls [] sockets h in
        (a ∙ c, b ∙ ap (λ (x : List Text). sockets ++ x) c))
      p

with_urls-IsServing :
    (w : Answers) (name dir : Text) (client peer sockets : List Text)
    → w.client_urls ≡ ok client
    → (with_urls w name dir client peer sockets).error ≡ none
    → IsServing w sockets (with_urls w name dir client peer sockets)
unfolding with_urls start
with_urls-IsServing w name dir client peer sockets u p =
    let s =
      start-IsServing w (configured name dir client peer) client sockets w.new_server u refl refl
        (unfold request_timeout in refl) (first_none _ w.new_client p) in
    record {
      etcd = s.etcd;
      hosts = s.hosts;
      urls = s.urls;
      there = s.there;
      runs = s.runs;
      no_listens = s.no_listens;
      open_sockets = s.open_sockets;
      served = s.served;
    }

with_parsed-IsServing :
    (w : Answers) (name dir : Text) (sockets : List Text) (c d : Result Error (List Text))
    → w.client_urls ≡ c
    → (with_parsed w name dir sockets c d).error ≡ none
    → IsServing w sockets (with_parsed w name dir sockets c d)
unfolding with_parsed
with_parsed-IsServing w name dir sockets (err x) d u p = absurd (cc)
with_parsed-IsServing w name dir sockets (ok client) (err x) u p = absurd (cc)
with_parsed-IsServing w name dir sockets (ok client) (ok peer) u p =
    with_urls-IsServing w name dir client peer sockets u p

-- When `NewEtcd` succeeds, etcd's server has been started, and each of the client URLs has an open
-- socket that is served with a timeout of seven seconds. Those sockets are not the ones that `Stop`
-- closes.
pub new_etcd-IsServing :
    (w : Answers) (name dir : Text) (sockets : List Text)
    → (new_etcd w name dir sockets).error ≡ none
    → IsServing w sockets (new_etcd w name dir sockets)
unfolding new_etcd
new_etcd-IsServing w name dir sockets p =
    with_parsed-IsServing w name dir sockets w.client_urls w.peer_urls refl p

close_none : (sockets : List Text) → close_all [] sockets ≡ sockets
unfolding close_all
close_none [] = refl
close_none (s ∷ ss) = ap (λ (x : List Text). s ∷ x) (close_none ss)

-- `Stop` after a `NewEtcd` that succeeded stops etcd's server, and leaves the socket of each client
-- URL open.
pub stop-new_etcd :
    (w : Answers) (name dir : Text) (sockets hosts : List Text) (e : EtcdServer)
    → w.client_urls ≡ ok hosts
    → (new_etcd w name dir sockets).error ≡ none
    → (new_etcd w name dir sockets).etcd ≡ some e
    → let r = new_etcd w name dir sockets in
      ((stop e r.sockets).0.server ≡ some stopped) × ((stop e r.sockets).1 ≡ sockets ++ hosts)
unfolding stop
stop-new_etcd w name dir sockets hosts e u p q =
    let s = new_etcd-IsServing w name dir sockets p in
    let same : s.etcd ≡ e = some_inj _ _ (sym s.there ∙ q) in
    let same_hosts : s.hosts ≡ hosts = ok_inj _ _ (sym s.urls ∙ u) in
    let runs : e.server ≡ some started = sym (ap (λ (x : EtcdServer). x.server) same) ∙ s.runs in
    let none_left : e.client_listens ≡ [] =
      sym (ap (λ (x : EtcdServer). x.client_listens) same) ∙ s.no_listens in
    (
      ap stopped_phase runs,
      ap (λ (x : List Text). close_all x (new_etcd w name dir sockets).sockets) none_left
          ∙ (close_none _ ∙ (s.open_sockets ∙ ap (λ (x : List Text). sockets ++ x) same_hosts)),
    )
