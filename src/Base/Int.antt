-- ===== src/Base/Int.antt =====
-- Go's int where the code lets it be negative, and its conversion to uint64.
use Prim.Native.Nat.{ℕ, suc, ◌+◌, ◌-◌, ◌%◌, ◌^◌}
use corectl.Base.Tests.{leb, ltb, if◌then◌else◌}
use mathlib.Core.Bool.{Bool, true, false}

-- `negsuc n` is -(n + 1).
pub data ℤ : Type 0 where
  pos : ℕ → ℤ
  negsuc : ℕ → ℤ

abbrev pub sub_ℕ : ℕ → ℕ → ℤ
sub_ℕ a b = if leb b a then pos (a - b) else negsuc (b - a - 1)

infixl 65 ◌+ℤ◌
unfoldable pub ◌+ℤ◌ : ℤ → ℤ → ℤ
pos a +ℤ pos b = pos (a + b)
pos a +ℤ negsuc b = sub_ℕ a (suc b)
negsuc a +ℤ pos b = sub_ℕ b (suc a)
negsuc a +ℤ negsuc b = negsuc (suc (a + b))

-- `x < n` for a bound that is not negative
abbrev pub ltb_ℕ : ℤ → ℕ → Bool
ltb_ℕ (pos a) n = ltb a n
ltb_ℕ (negsuc a) n = true

-- `n < x`
abbrev pub gtb_ℕ : ℤ → ℕ → Bool
gtb_ℕ (pos a) n = ltb n a
gtb_ℕ (negsuc a) n = false

-- `uint64(x)`: the residue of x modulo 2^64. A sum that wraps around in int has the same residue.
unfoldable pub to_u64 : ℤ → ℕ
to_u64 (pos a) = a % 2 ^ 64
to_u64 (negsuc a) = 2 ^ 64 - 1 - a % 2 ^ 64
