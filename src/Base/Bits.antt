-- ===== src/Base/Bits.antt =====
-- The two flag bits of an ADD-PATH mode, and how `|=` acts on them.
use Prim.Native.Nat.{ℕ, zero, suc, ◌+◌, ◌*◌, ◌/◌, ◌%◌, ◌≤◌, max, bit_or, digits, bit_or-bitwise}
use mathlib.Core.Path.{◌≡◌, refl}
use mathlib.Core.Bool.{Bool, ◌||◌}
use native.Mathlib.Omega.{arith}
use xk6_bgp.Base.Tests.{◌==◌}

-- Bit 0 and bit 1, as `m&1 != 0` and `m&2 != 0` test them.
abbrev pub bit0 : ℕ → Bool
bit0 m = m % 2 == 1

abbrev pub bit1 : ℕ → Bool
bit1 m = m / 2 % 2 == 1

abbrev join : ℕ → ℕ → ℕ → ℕ
join count a b = digits (λ d. d) max count a b

-- Two counts that cover the first number give one result.
join_enough : (k l a b : ℕ) → a ≤ k → a ≤ l → join k a b ≡ join l a b
join_enough zero zero zero b p q = refl
join_enough zero (suc l) zero b p q = refl
join_enough (suc k) zero zero b p q = refl
join_enough (suc k) (suc l) zero b p q = refl
join_enough zero l (suc a) b p q = absurd (omega arith)
join_enough (suc k) zero (suc a) b p q = absurd (omega arith)
join_enough (suc k) (suc l) (suc a) b p q =
    omega (arith, join_enough k l (suc a / 2) (b / 2) (omega arith) (omega arith))

zero-bit_or : (b : ℕ) → bit_or 0 b ≡ b
zero-bit_or b = bit_or-bitwise 0 b

pub bit_or_step : (a b : ℕ) → bit_or a b ≡ bit_or (a / 2) (b / 2) * 2 + max (a % 2) (b % 2)
bit_or_step zero b = omega (arith, zero-bit_or b, zero-bit_or (b / 2))
bit_or_step (suc a) b = omega (
  arith,
  bit_or-bitwise (suc a) b,
  bit_or-bitwise (suc a / 2) (b / 2),
  join_enough a (suc a / 2) (suc a / 2) (b / 2) (omega arith) (omega arith),
)

max_parity : (p q : ℕ) → ((max (p % 2) (q % 2)) == 1) ≡ ((p % 2 == 1) || (q % 2 == 1))
max_parity p q = ground arith

bit_or_parity : (a b : ℕ) → bit_or a b % 2 ≡ max (a % 2) (b % 2)
bit_or_parity a b = omega (arith, bit_or_step a b)

bit_or_half : (a b : ℕ) → bit_or a b / 2 ≡ bit_or (a / 2) (b / 2)
bit_or_half a b = omega (arith, bit_or_step a b)

pub bit0-bit_or : (a b : ℕ) → bit0 (bit_or a b) ≡ (bit0 a || bit0 b)
bit0-bit_or a b = rw (bit_or_parity a b) (max_parity a b)

pub bit1-bit_or : (a b : ℕ) → bit1 (bit_or a b) ≡ (bit1 a || bit1 b)
bit1-bit_or a b = rw (bit_or_half a b, bit_or_parity (a / 2) (b / 2)) (max_parity (a / 2) (b / 2))
