-- ===== src/Clock.antt =====
-- internal/timing/clock.go. A reading is the number of nanoseconds of the clock, and 0 stands for
-- the zero time.Time, which no reading of a running clock is.
use xk6_bgp.Base.{ℕ, ◌+◌, ◌-◌, ◌^◌, ◌≤◌, ◌<◌, min, Bool, if◌then◌else◌, ltb, leb, ◌==◌, ◌≡◌, arith}

abbrev pub Timestamp : Type 0
Timestamp = ℕ

abbrev pub no_time : Timestamp
no_time = 0

abbrev pub is_zero : Timestamp → Bool
is_zero t = t == 0

abbrev pub before : Timestamp → Timestamp → Bool
before a b = ltb a b

abbrev pub after : Timestamp → Timestamp → Bool
after a b = ltb b a

-- Sub: an int64 as its 64 bits, which stops at both ends; the zero time lies before every reading.
abbrev pub elapsed : Timestamp → Timestamp → ℕ
elapsed t since =
    if leb since t
    then min (t - since) (2 ^ 63 - 1)
    else if is_zero t
    then 2 ^ 63
    else 2 ^ 64 - min (since - t) (2 ^ 63)

-- `epoch` is monoEpoch, the clock when the package was loaded.
unfoldable pub mono_ns : Timestamp → Timestamp → ℕ
mono_ns epoch t = elapsed t epoch

-- The argument is an int64 as its 64 bits. An instant before the clock's zero is taken as that.
unfoldable pub from_mono_ns : Timestamp → ℕ → Timestamp
from_mono_ns epoch n = if ltb n (2 ^ 63) then epoch + n else epoch - (2 ^ 64 - n)

-- A mark that a script got from a reading is turned back into that reading.
pub from_mono_ns-mono_ns :
    (epoch t : Timestamp)
    → epoch ≤ t
    → t < epoch + 2 ^ 63
    → from_mono_ns epoch (mono_ns epoch t) ≡ t
unfolding mono_ns from_mono_ns
from_mono_ns-mono_ns epoch t h b = ground arith
