-- ===== src/Go/Time.antt =====
-- Package time: an instant is the number of nanoseconds since the zero Time (instants before it
-- are not represented, a monotonic clock reading and the location are left out), a Duration an
-- int64 of nanoseconds.
use poolpilot_relay.Prelude.{
  Bool, arith, eqb, if◌then◌else◌, leb, ltb, ℕ, ◌*◌, ◌+◌, ◌-◌, ◌/◌, ◌^◌, ◌≡◌, ◌≤◌,
}
use poolpilot_relay.Go.Int64.{mul64, wrap64}
use poolpilot_relay.Prelude.Int.{ltb_ℤ, neg_part, negsuc, pos, pos_part, sub_ℕ, ℤ, ◌*ℤ◌}

abbrev pub Time : Type 0
Time = ℕ

abbrev pub Duration : Type 0
Duration = ℤ

abbrev pub zero_time : Time
zero_time = 0

abbrev pub is_zero : Time → Bool
is_zero t = eqb t 0

abbrev pub before : Time → Time → Bool
before t u = ltb t u

abbrev pub after : Time → Time → Bool
after t u = ltb u t

-- `t.Sub(u)`, which saturates at the ends of the int64 range.
unfoldable pub sub_time : Time → Time → Duration
sub_time t u =
    if leb u t
    then (if ltb (t - u) (2 ^ 63) then pos (t - u) else pos (2 ^ 63 - 1))
    else (if leb (u - t) (2 ^ 63) then negsuc (u - t - 1) else negsuc (2 ^ 63 - 1))

-- `t.Add(d)`; a result before the zero Time is cut off there.
unfoldable pub add_time : Time → Duration → Time
add_time t d = (t + pos_part d) - neg_part d

abbrev pub nanoseconds : ℕ
nanoseconds = 1000000000

-- `time.Duration(n) * time.Second`, an int64 product.
unfoldable pub from_seconds : ℤ → Duration
from_seconds n = mul64 n (pos nanoseconds)

-- The largest whole number of seconds that a Duration holds.
abbrev pub max_seconds : ℕ
max_seconds = 9223372036

pub from_seconds_lem : (n : ℕ) → n ≤ max_seconds → from_seconds (pos n) ≡ pos (n * nanoseconds)
unfolding from_seconds mul64 ◌*ℤ◌ wrap64
from_seconds_lem n h = ground arith

-- A difference is below a Duration of whole seconds exactly when the instant is.
pub sub_time-lt-seconds :
    (t u : Time) (n : ℕ)
    → n ≤ max_seconds
    → ltb_ℤ (sub_time t u) (from_seconds (pos n)) ≡ ltb t (u + n * nanoseconds)
unfolding sub_time
sub_time-lt-seconds t u n h = ground (arith, from_seconds_lem n)

pub seconds-lt-sub_time :
    (t u : Time) (n : ℕ)
    → n ≤ max_seconds
    → ltb_ℤ (from_seconds (pos n)) (sub_time t u) ≡ ltb (u + n * nanoseconds) t
unfolding sub_time
seconds-lt-sub_time t u n h = ground (arith, from_seconds_lem n)

-- Seconds from the zero Time to the start of 1970.
abbrev pub unix_epoch : ℕ
unix_epoch = 62135596800

-- `t.Unix()`, and `time.Unix(n, 0)`, cut off at the zero Time.
unfoldable pub unix : Time → ℤ
unix t = sub_ℕ (t / nanoseconds) unix_epoch

unfoldable pub of_unix : ℤ → Time
of_unix n = ((unix_epoch + pos_part n) - neg_part n) * nanoseconds
