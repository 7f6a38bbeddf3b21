-- ===== src/Services/Mac.antt =====
-- components/server/rpcservices.go: what `UUIDtoMACaddr` answers.
use corectl.Base.{
  ℕ, zero, suc, true, false, ◌⊎◌, inl, inr, Option, none, some, Option-cases, [], ◌∷◌, Text, ◌≡◌,
  ◌≢◌, refl, ap, sym, arith, to_upper, lookup,
}
use corectl.Daemon.{Daemon, Error}
use corectl.Registry.{Active}
use corectl.Services.{
  Attempt, broken, exited, MacTool, Search, after_attempt, search_mac, succeeded, final_error,
  uuid_to_mac,
}

-- The tool gave the address for the UUID at that round, and no running VM has the UUID.
pub record IsAddressOf (t : MacTool) (m : Active) (uuid mac : Text) : Type 0 where
  pub round : ℕ
  pub printed : t.run_tool round uuid ≡ exited none mac
  pub real : mac ≢ []
  pub free : lookup uuid m ≡ none

-- A run for a UUID that gave no address for a free one.
pub record IsUseless (t : MacTool) (m : Active) (round : ℕ) (asked : Text) (e : Option Error)
    (line : Text) : Type 0 where
  pub printed : t.run_tool round asked ≡ exited e line
  pub useless : succeeded e line (lookup asked m) ≡ false

-- So many runs from that round on, the first for that UUID and each later one for a fresh one, gave
-- nothing, and the loop holds what the last one gave.
abbrev pub InVain : MacTool → Active → ℕ → Text → ℕ → Search → Type 0
InVain t m i uuid zero s = Unit
InVain t m i uuid (suc zero) s = IsUseless t m i uuid s.error s.mac
InVain t m i uuid (suc (suc n)) s =
    ((e : Option Error) × (line : Text) × IsUseless t m i uuid e line)
    × InVain t m (suc i) (t.fresh i) (suc n) s

-- How the loop ends: with an address, with an error, or after a last round in vain.
abbrev pub Ends : MacTool → Active → ℕ → Text → ℕ → Search → Type 0
Ends t m i uuid n s =
    IsAddressOf t m s.uuid s.mac ⊎ ((e : Error) × (s.error ≡ some e)) ⊎ InVain t m i uuid n s

round-Ends :
    (t : MacTool) (m : Active) (s : Search) (n : ℕ) (a : Attempt)
    (rest : Text → Option Error → Search)
    → t.run_tool s.i s.uuid ≡ a
    → ((e : Option Error) (line : Text)
        → a ≡ exited e line
        → succeeded e line (lookup s.uuid m) ≡ false
        → Ends t m s.i s.uuid n (rest line e))
    → Ends t m s.i s.uuid n (after_attempt m s a rest)
unfolding after_attempt
round-Ends t m s n (broken e) rest p ih = inr (inl (e, refl))
round-Ends t m s n (exited (some e) line) rest p ih = ih (some e) line refl refl
round-Ends t m s n (exited none []) rest p ih = ih none [] refl refl
round-Ends t m s n (exited none (c ∷ line)) rest p ih = elim (Option-cases (lookup s.uuid m)) [
  | inl q ↦ rw q (inl (record { round = s.i; printed = p; real = λ x. cc; free = q }))
  | inr (vm, q) ↦ rw q (ih none (c ∷ line) refl (rw q refl))
]

later-Ends :
    (t : MacTool) (m : Active) (i n : ℕ) (uuid line : Text) (e : Option Error) (s : Search)
    → IsUseless t m i uuid e line
    → Ends t m (suc i) (t.fresh i) (suc n) s
    → Ends t m i uuid (suc (suc n)) s
later-Ends t m i n uuid line e s u (inl a) = inl a
later-Ends t m i n uuid line e s u (inr (inl f)) = inr (inl f)
later-Ends t m i n uuid line e s u (inr (inr v)) = inr (inr ((e, line, u), v))

search_mac-Ends :
    (t : MacTool) (m : Active) (left : ℕ) (s : Search)
    → Ends t m s.i s.uuid (suc left) (search_mac t m (suc left) s)
unfolding search_mac after_attempt
search_mac-Ends t m zero s =
    round-Ends t m s 1 (t.run_tool s.i s.uuid) _ refl
      λ e line p u. inr (inr (record { printed = p; useless = u }))
search_mac-Ends t m (suc left) s =
    round-Ends t m s (suc (suc left)) (t.run_tool s.i s.uuid) _ refl λ e line p u.
      later-Ends t m s.i left s.uuid line e _ (record { printed = p; useless = u })
        (search_mac-Ends t m left
          (record { i = suc s.i; uuid = t.fresh s.i; mac = line; error = e }))

-- What a reply without an error says: the address is the tool's for a UUID that no running VM has,
-- or three runs were in vain, the first for the UUID that was asked for, and the last of them without
-- an error.
abbrev pub IsReply : MacTool → Active → Text → Text → Text → Type 0
IsReply t m asked uuid mac =
    (s : Search) × (uuid ≡ to_upper s.uuid)
    × (mac ≡ s.mac)
    × (IsAddressOf t m s.uuid s.mac ⊎ ((s.error ≡ none) × InVain t m 0 asked 3 s))

no_error : (s : Search) → final_error s ≡ none → s.error ≡ none
no_error s e = ground arith

-- If `UUIDtoMACaddr` reports no error, no running VM had the UUID that was asked for, and the reply
-- has the address that the tool gave for a UUID that is free, and the UUID in upper case; or each of
-- three runs, for the UUID that was asked for and for two fresh ones, gave no address of a free
-- UUID, and the last one ended without an error.
pub uuid_to_mac-IsReply :
    {V : Type 0} (t : MacTool) (asked uuid mac : Text) (d : Daemon V)
    → uuid_to_mac t asked d ≡ ((mac, uuid), none)
    → (lookup asked d.active ≡ none) × IsReply t d.active asked uuid mac
unfolding uuid_to_mac
uuid_to_mac-IsReply t asked uuid mac d e = elim (Option-cases (lookup asked d.active)) [
  | inr (vm, q) ↦ absurd (ground arith)
  | inl q ↦
      let r = search_mac t d.active 3 (record { i = 0; uuid = asked; mac = []; error = none }) in
      let open_server : d.accepting_requests ≡ true = ground arith in
      let same : ((r.mac, to_upper r.uuid), final_error r) ≡ ((mac, uuid), none) =
        rw (open_server, q) at e in
      let quiet = no_error r (ap (λ x. x.1) same) in
      (
        q,
        (
          r,
          sym (ap (λ x. x.0.1) same),
          sym (ap (λ x. x.0.0) same),
          elim (search_mac-Ends t d.active 2
              (record { i = 0; uuid = asked; mac = []; error = none })) [
                | inl a ↦ inl a
                | inr (inl (f, g)) ↦ absurd (cc)
                | inr (inr x) ↦ inr (quiet, x)
              ],
        ),
      )
]
