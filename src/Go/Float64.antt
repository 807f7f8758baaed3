-- ===== src/Go/Float64.antt =====
-- Go's float64 by its bit pattern, with the comparisons of IEEE 754. The arithmetic that the
-- source does on measurements (one sum, one difference) is a parameter where it is used.
use poolpilot_relay.Prelude.{
  Bool, false, if◌then◌else◌, leb, ltb, not, refl, true, ℕ, ◌%◌, ◌&&◌, ◌+◌, ◌-◌, ◌^◌, ◌≡◌,
}

pub record Float64 : Type 0 where
  pub bits : ℕ

-- The exponent is all ones and the fraction is not zero.
unfoldable pub is_nan : Float64 → Bool
is_nan f = ltb 0x7ff0_0000_0000_0000 (f.bits % 2 ^ 63)

-- The place of a float that is no NaN in the order: sign and magnitude, the two zeros alike.
unfoldable pub rank : Float64 → ℕ
rank f = if ltb f.bits (2 ^ 63) then 2 ^ 63 + f.bits % 2 ^ 63 else 2 ^ 63 - f.bits % 2 ^ 63

-- `a < b` and `a <= b`: false if either side is a NaN.
abbrev pub flt : Float64 → Float64 → Bool
flt a b = not (is_nan a) && (not (is_nan b) && ltb (rank a) (rank b))

abbrev pub fle : Float64 → Float64 → Bool
fle a b = not (is_nan a) && (not (is_nan b) && leb (rank a) (rank b))

abbrev pub f_zero : Float64
f_zero = record { bits = 0 }

abbrev pub f_nan : Float64
f_nan = record { bits = 0x7ff8_0000_0000_0001 }

-- 0.2, 75 and 0.5.
abbrev pub f_fifth : Float64
f_fifth = record { bits = 0x3fc9_9999_9999_999a }

abbrev pub f_seventy_five : Float64
f_seventy_five = record { bits = 0x4052_c000_0000_0000 }

abbrev pub f_half : Float64
f_half = record { bits = 0x3fe0_0000_0000_0000 }

tests :
    (flt f_zero f_fifth ≡ true)
    × (flt f_fifth f_half ≡ true)
    × (fle f_seventy_five f_half ≡ false)
    × (flt (record { bits = 2 ^ 63 + 1 }) f_zero ≡ true)
    × (fle (record { bits = 2 ^ 63 }) f_zero ≡ true)
    × (fle f_nan f_nan ≡ false)
unfolding is_nan rank
tests = (refl, refl, refl, refl, refl, refl)
