-- ===== src/Coord/Barrier.antt =====
-- internal/coord/barrier.go: Barrier and ArriveTimeout, with any number of callers interleaved.
-- A caller's thread takes one atomic action at a time; the schedule says whose turn it is.
pub mod Invariant
pub mod Release
use xk6_bgp.Base.{
  ℕ, ◌+◌, Bool, true, false, not, ◌||◌, List, [], ◌∷◌, if◌then◌else◌, ltb, ◌==◌, Result, ok, err,
}

-- Where one call of ArriveTimeout stands, with its index once it has one.
pub data Pc : Type 0 where
  idle : Pc
  -- the counter is incremented, the comparison with the target is still to come
  counted : ℕ → Pc
  waiting : ℕ → Pc
  released : ℕ → Pc
  timed_out : ℕ → Pc

pub record Barrier : Type 0 where
  pub target : ℕ
  pub arrived : ℕ
  pub is_closed : Bool
  -- a second close of a channel panics in Go
  pub panicked : Bool
  pub pc : ℕ → Pc

-- One turn of a thread; a timer that fires is the environment's choice, and fires only for a
-- call with a positive duration.
pub data Turn : Type 0 where
  runs : ℕ → Turn
  timer_fires : ℕ → Turn

pub data BarrierError : Type 0 where
  target_not_positive : BarrierError

unfoldable pub new_barrier : ℕ → Result BarrierError Barrier
new_barrier target =
    if target == 0
    then err target_not_positive
    else ok (record {
      target = target;
      arrived = 0;
      is_closed = false;
      panicked = false;
      pc = λ i. idle;
    })

abbrev pub set_pc : (ℕ → Pc) → ℕ → Pc → ℕ → Pc
set_pc f i p j = if i == j then p else f j

unfoldable pub arrive : Barrier → ℕ → Barrier
arrive b i = record b { arrived = b.arrived + 1; pc = set_pc b.pc i (counted (b.arrived + 1)) }

unfoldable pub compare_target : Barrier → ℕ → ℕ → Barrier
compare_target b i n =
    if n == b.target
    then record b {
      is_closed = true;
      panicked = b.is_closed || b.panicked;
      pc = set_pc b.pc i (waiting n);
    }
    else record b { pc = set_pc b.pc i (waiting n) }

unfoldable pub receive : Barrier → ℕ → ℕ → Barrier
receive b i n = if b.is_closed then record b { pc = set_pc b.pc i (released n) } else b

-- The next action of thread `i`, by where it stands.
unfoldable pub run_thread : Barrier → ℕ → Pc → Barrier
unfolding arrive compare_target receive
run_thread b i idle = arrive b i
run_thread b i (counted n) = compare_target b i n
run_thread b i (waiting n) = receive b i n
run_thread b i (released n) = b
run_thread b i (timed_out n) = b

unfoldable pub fire_timer : Barrier → ℕ → Pc → Barrier
fire_timer b i (waiting n) = record b { pc = set_pc b.pc i (timed_out n) }
fire_timer b i idle = b
fire_timer b i (counted n) = b
fire_timer b i (released n) = b
fire_timer b i (timed_out n) = b

unfoldable pub turn : Barrier → Turn → Barrier
unfolding run_thread fire_timer
turn b (runs i) = run_thread b i (b.pc i)
turn b (timer_fires i) = fire_timer b i (b.pc i)

unfoldable pub run : Barrier → List Turn → Barrier
run b [] = b
run b (t ∷ ts) = run (turn b t) ts
