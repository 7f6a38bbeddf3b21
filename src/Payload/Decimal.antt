-- ===== src/Payload/Decimal.antt =====
-- components/server/run.go: the fuel for printing a number is enough.
use corectl.Base.{
  ℕ, zero, suc, ◌+◌, ◌/◌, ◌%◌, ◌<◌, [], ◌∷◌, ◌++◌, ◌≡◌, refl, ap, arith, ltb, if◌then◌else◌,
  Bool-cases, inl, inr,
}
use corectl.Payload.{decimal_digits}

-- Any two amounts of fuel above the number give the same digits.
decimal_digits_fuel : (f g n : ℕ) → n < f → n < g → decimal_digits f n ≡ decimal_digits g n
unfolding decimal_digits
decimal_digits_fuel zero g n h k = absurd (omega arith)
decimal_digits_fuel (suc f) zero n h k = absurd (omega arith)
decimal_digits_fuel (suc f) (suc g) n h k = elim (Bool-cases (ltb n 10)) [
  | inl e ↦ rw e refl
  | inr e ↦
      let big : 9 < n = ground arith in
      let rest = decimal_digits_fuel f g (n / 10) (omega arith) (omega arith) in
      ap (λ t. (if ltb n 10 then [] else t) ++ (b'0' + n % 10) ∷ []) rest
]
