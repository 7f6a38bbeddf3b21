-- ===== src/Cli/Entry/Ends.antt =====
-- cmd/main.go: how `PersistentPreRunE` ends for a session that `New` has made.
use corectl.Base.{
  Bool, true, false, ◌||◌, Option, none, some, List, Text, codes, ◌=t◌, =t_iff, has_prefix, ◌≡◌,
  refl, sym, ◌∙◌, ap, inl, inr, Result, ok, err, Outcome, returns, Bool-cases,
}
use corectl.Cli.{PreRun, too_many_rights, not_enough_rights, owner_unset, goes_on, pre_run, prepare}
use corectl.Daemon.{Error}
use corectl.Session.{Entry, set_context, normalize}
use corectl.Cli.Entry.{
  User, Context, System, Ran, new_session, caller_of, ending, prepare_session, with_owner, enter_as,
  enter_command,
}

abbrev pub succeeds : {A : Type 0} → Result Error A → Bool
succeeds (ok a) = true
succeeds (err e) = false

abbrev pub is_none : Option Error → Bool
is_none none = true
is_none (some e) = false

-- What `PersistentPreRunE` has done: nothing to the session and the disk, or the layout for the
-- user of the session; it ends as `pre_run` says.
pub record IsUntouched (s : System) (server : Bool) (name : Text) (c : Context) (es : List Entry)
    (r : Ran) : Type 0 where
  pub context : r.context ≡ c
  pub disk : r.disk ≡ es
  pub result : r.result ≡ pre_run server c.privileged name (succeeds s.lookup_user) true true

pub record IsLaidOut (s : System) (server : Bool) (name : Text) (c : Context) (es : List Entry)
    (r : Ran) : Type 0 where
  pub user : User
  pub there : r.context.user ≡ some user
  pub disk : r.disk ≡ (normalize (caller_of s c.privileged user) s.answers es).0
  pub network : r.context.network ≡ set_context s.read_address s.read_mask
  pub result :
      r.result
      ≡ pre_run server c.privileged name
          (succeeds s.lookup_user)
          true
          (is_none (normalize (caller_of s c.privileged user) s.answers es).1)

pub data IsEntered (s : System) (server : Bool) (name : Text) (c : Context) (es : List Entry)
    (r : Ran) : Type 0 where
  untouched : IsUntouched s server name c es r → IsEntered s server name c es r
  laid_out : IsLaidOut s server name c es r → IsEntered s server name c es r

pub Ends : System → Bool → Text → Context → List Entry → Outcome Ran → Type 0
Ends s server name c es o = (r : Ran) × (o ≡ returns r) × IsEntered s server name c es r

new_session-user :
    (root : Bool) (current : Result Error User) (c : Context)
    → new_session root current ≡ ok c
    → c.privileged ≡ false
    → (u : User) × (c.user ≡ some u)
unfolding new_session
new_session-user true current c e p = absurd (cc)
new_session-user false (err x) c e p = absurd (cc)
new_session-user false (ok u) c e p =
    (u, ap (λ (r : Result Error Context). elim r [ ok x ↦ x.user | err x ↦ none ]) (sym e))

ending_lem :
    (name : Text) (o : Option Error)
    → (has_prefix name (codes "genM") || (name =t codes "version")) ≡ false
    → ending o ≡ prepare name true (is_none o)
unfolding prepare
ending_lem name none n = rw n refl
ending_lem name (some e) n = rw n refl

exempt_lem :
    (name : Text) (b : Bool)
    → (has_prefix name (codes "genM") || (name =t codes "version")) ≡ true
    → prepare name true b ≡ goes_on
unfolding prepare
exempt_lem name b t = rw t refl

-- The steps after the tests, for a session whose user is known.
prepare_session-Ends :
    (s : System) (server : Bool) (name : Text) (c d : Context) (es : List Entry) (u : User)
    → d.user ≡ some u
    → d.privileged ≡ c.privileged
    → ((has_prefix name (codes "genM") || (name =t codes "version")) ≡ true → d ≡ c)
    → ((b : Bool)
        → pre_run server c.privileged name (succeeds s.lookup_user) true b ≡ prepare name true b)
    → Ends s server name c es (prepare_session s name d es)
unfolding prepare_session Ends
prepare_session-Ends s server name c d es u p q same reach =
    elim (Bool-cases (has_prefix name (codes "genM") || (name =t codes "version"))) [
      | inl t ↦ rw (t) (
        record { context = d; disk = es; result = goes_on },
        refl,
        untouched (record {
          context = same t;
          disk = refl;
          result = sym (reach true ∙ exempt_lem name true t);
        }),
      )
      | inr t ↦
          rw (t, p)
            (
              _,
              refl,
              laid_out (record {
                user = u;
                there = refl;
                disk = ap (λ (b : Bool). (normalize (caller_of s b u) s.answers es).0) q;
                network = refl;
                result =
                    ap (λ (b : Bool). ending (normalize (caller_of s b u) s.answers es).1) q
                    ∙ (ending_lem name _ t ∙ sym (reach _));
              }),
            )
    ]

end_early-Ends :
    (s : System) (server : Bool) (name : Text) (c : Context) (es : List Entry) (r : PreRun)
    → r ≡ pre_run server c.privileged name (succeeds s.lookup_user) true true
    → Ends s server name c es (returns (record { context = c; disk = es; result = r }))
unfolding Ends
end_early-Ends s server name c es r e =
    (_, refl, untouched (record { context = refl; disk = refl; result = e }))

-- `start` by root, for the user that `--user` names.
with_owner-Ends :
    (s : System) (name : Text) (c : Context) (es : List Entry) (o : Result Error User)
    → s.lookup_user ≡ o
    → c.privileged ≡ true
    → name ≡ codes "start"
    → Ends s true name c es (with_owner s name c es o)
unfolding pre_run ◌=t◌ has_prefix
with_owner-Ends s name c es (err x) l q n =
    end_early-Ends s true name c es owner_unset (rw (q, l, n) refl)
with_owner-Ends s name c es (ok u) l q n =
    prepare_session-Ends s true name c (record c { user = some u }) es u refl refl
      (λ t. absurd (cc (rw n at t))) (λ b. rw (q, l, n) refl)

enter_as-Ends :
    (s : System) (server root : Bool) (name : Text) (c : Context) (es : List Entry)
    → c.privileged ≡ root
    → (root ≡ false → (u : User) × (c.user ≡ some u))
    → Ends s server name c es (enter_as s server root name c es)
unfolding enter_as pre_run
enter_as-Ends s false true name c es q user =
    end_early-Ends s false name c es too_many_rights (rw q refl)
enter_as-Ends s false false name c es q user =
    let (u, p) = user refl in
    prepare_session-Ends s false name c c es u p refl (λ t. refl) (λ b. rw q refl)
enter_as-Ends s true false name c es q user = elim (Bool-cases (name =t codes "uuid2mac")) [
  | inl t ↦ rw t (end_early-Ends s true name c es not_enough_rights (rw (q, t) refl))
  | inr t ↦
      let (u, p) = user refl in
      rw t (prepare_session-Ends s true name c c es u p refl (λ t. refl) (λ b. rw (q, t) refl))
]
enter_as-Ends s true true name c es q user = elim (Bool-cases (name =t codes "uuid2mac")) [
  | inl t ↦ rw t (end_early-Ends s true name c es goes_on (rw (q, t) refl))
  | inr t ↦ elim (Bool-cases (name =t codes "start")) [
    | inl n ↦
        rw (t, n)
          (with_owner-Ends s name c es s.lookup_user refl q ((=t_iff name (codes "start")).0 n))
    | inr n ↦ rw (t, n) (end_early-Ends s true name c es too_many_rights (rw (q, t, n) refl))
  ]
]

-- The session that `New` makes has a user wherever `PersistentPreRunE` reads the user's home
-- directory: whoever runs whatever command, it does not panic, it ends as `pre_run` says, and the
-- disk is as it was or laid out for the session's user.
pub enter_command-Ends :
    (s : System) (server : Bool) (name : Text) (root : Bool) (current : Result Error User)
    (c : Context) (es : List Entry)
    → new_session root current ≡ ok c
    → Ends s server name c es (enter_command s server name c es)
unfolding enter_command
enter_command-Ends s server name root current c es e =
    enter_as-Ends s server c.privileged name c es refl (new_session-user root current c e)
