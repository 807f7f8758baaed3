-- ===== src/Go/Int64.antt =====
-- Go's int64 (and int, on the relay's 64-bit targets): arithmetic that wraps around.
use poolpilot_relay.Prelude.{arith, if◌then◌else◌, ltb, suc, ℕ, ◌%◌, ◌-◌, ◌/◌, ◌<◌, ◌^◌, ◌≡◌}
use poolpilot_relay.Prelude.Int.{
  neg_part, negsuc, pos, pos_part, sub_ℕ, ℤ, ◌*ℤ◌, ◌+ℤ◌, ◌-ℤ◌, ◌<ℤ◌, ◌≤ℤ◌,
}

-- The signed reading of a 64-bit pattern.

abbrev signed64 : ℕ → ℤ
signed64 m = if ltb m (2 ^ 63) then pos m else negsuc (2 ^ 64 - 1 - m)

-- An integer reduced to 64 bits, two's complement.
unfoldable pub wrap64 : ℤ → ℤ
wrap64 (pos n) = signed64 (n % 2 ^ 64)
wrap64 (negsuc n) = signed64 (2 ^ 64 - 1 - n % 2 ^ 64)

unfoldable pub add64 : ℤ → ℤ → ℤ
add64 a b = wrap64 (a +ℤ b)

unfoldable pub mul64 : ℤ → ℤ → ℤ
mul64 a b = wrap64 (a *ℤ b)

-- A value of the type.
abbrev pub IsInt64 : ℤ → Type 0
IsInt64 z = (negsuc (2 ^ 63 - 1) ≤ℤ z) × (z <ℤ pos (2 ^ 63))

-- Wrapping leaves a value of the type alone, and yields one.
pub wrap64-eq_of_IsInt64 : (z : ℤ) → IsInt64 z → wrap64 z ≡ z
unfolding wrap64
wrap64-eq_of_IsInt64 (pos n) h = ground arith
wrap64-eq_of_IsInt64 (negsuc n) h = ground arith

pub wrap64-IsInt64 : (z : ℤ) → IsInt64 (wrap64 z)
unfolding wrap64
wrap64-IsInt64 (pos n) = ground arith
wrap64-IsInt64 (negsuc n) = ground arith

pub add64_one : (n : ℕ) → suc n < 2 ^ 63 → add64 (pos n) (pos 1) ≡ pos (suc n)
unfolding add64 wrap64 ◌+ℤ◌
add64_one n h = ground arith

unfoldable pub sub64 : ℤ → ℤ → ℤ
sub64 a b = wrap64 (a -ℤ b)

-- A quotient by a positive number, cut towards zero.
unfoldable pub div_trunc : ℤ → ℤ → ℤ
div_trunc a b = sub_ℕ (pos_part a / pos_part b) (neg_part a / pos_part b)
