-- ===== src/Coord/Barrier/Invariant.antt =====
-- What holds of a barrier between two actions of any threads.
use xk6_bgp.Base.{
  ℕ, ◌<◌, ◌≤◌, Bool, true, false, List, [], ◌∷◌, if◌then◌else◌, ok, ◌≡◌, refl, sym, subst, ◌∙◌,
  arith, inl, inr, Bool-cases, Option, none, some,
}
use xk6_bgp.Coord.Barrier.{
  Pc, idle, counted, waiting, released, timed_out, Barrier, Turn, runs, timer_fires, new_barrier,
  set_pc, arrive, compare_target, receive, run_thread, fire_timer, turn, run,
}

abbrev pub index : Pc → Option ℕ
index idle = none
index (counted n) = some n
index (waiting n) = some n
index (released n) = some n
index (timed_out n) = some n

-- Past the comparison with the target.
abbrev is_past : Pc → Bool
is_past idle = false
is_past (counted n) = false
is_past (waiting n) = true
is_past (released n) = true
is_past (timed_out n) = true

abbrev pub is_released : Pc → Bool
is_released (released n) = true
is_released _ = false

-- What the other fields say of one thread.
pub record ThreadInv (b : Barrier) (i : ℕ) : Type 0 where
  pub in_range : (n : ℕ) → index (b.pc i) ≡ some n → (0 < n) × (n ≤ b.arrived)
  pub closer : index (b.pc i) ≡ some b.target → is_past (b.pc i) ≡ b.is_closed
  pub held_back : is_released (b.pc i) ≡ true → b.is_closed ≡ true

pub record Inv (b : Barrier) : Type 0 where
  pub thread : (i : ℕ) → ThreadInv b i
  pub distinct : (i j n : ℕ) → index (b.pc i) ≡ some n → index (b.pc j) ≡ some n → i ≡ j
  pub full : b.is_closed ≡ true → b.target ≤ b.arrived
  pub calm : b.panicked ≡ false

arrive-thread :
    (b : Barrier) (i j : ℕ)
    → b.pc i ≡ idle
    → (b.is_closed ≡ true → b.target ≤ b.arrived)
    → ThreadInv b j
    → ThreadInv (arrive b i) j
unfolding arrive
arrive-thread b i j e full t = record {
  in_range = λ n q. ground (arith, t.in_range n);
  closer = λ q. ground (arith, t.closer, Bool-cases b.is_closed);
  held_back = λ q. ground (arith, t.held_back);
}

arrive-distinct :
    (b : Barrier) (i : ℕ)
    → ((j n : ℕ) → index (b.pc j) ≡ some n → (0 < n) × (n ≤ b.arrived))
    → ((j k n : ℕ) → index (b.pc j) ≡ some n → index (b.pc k) ≡ some n → j ≡ k)
    → (j k n : ℕ) → index ((arrive b i).pc j) ≡ some n
    → index ((arrive b i).pc k) ≡ some n
    → j ≡ k
unfolding arrive
arrive-distinct b i range d j k n p q = ground (arith, range j n, range k n, d j k n)

arrive-Inv : (b : Barrier) (i : ℕ) → b.pc i ≡ idle → Inv b → Inv (arrive b i)
arrive-Inv b i e v = record {
  thread = λ j. arrive-thread b i j e v.full (v.thread j);
  distinct = arrive-distinct b i (λ j n. (v.thread j).in_range n) v.distinct;
  full = unfold arrive in (λ c. let f = v.full c in omega arith);
  calm = unfold arrive in v.calm;
}

compare-thread :
    (b : Barrier) (i n j : ℕ)
    → b.pc i ≡ counted n
    → (index (b.pc j) ≡ some n → index (b.pc i) ≡ some n → j ≡ i)
    → ThreadInv b j
    → ThreadInv (compare_target b i n) j
unfolding compare_target
compare-thread b i n j e d t = record {
  in_range = λ m q. ground (arith, t.in_range m, t.in_range n);
  closer = λ q. ground (arith, t.closer);
  held_back = λ q. ground (arith, t.held_back);
}

compare-index :
    (b : Barrier) (i n j : ℕ)
    → b.pc i ≡ counted n
    → index ((compare_target b i n).pc j) ≡ index (b.pc j)
unfolding compare_target
compare-index b i n j e = ground arith

compare-Inv : (b : Barrier) (i n : ℕ) → b.pc i ≡ counted n → Inv b → Inv (compare_target b i n)
compare-Inv b i n e v = record {
  thread = λ j. compare-thread b i n j e (v.distinct j i n) (v.thread j);
  distinct = λ j k m p q.
      v.distinct j k m (sym (compare-index b i n j e) ∙ p) (sym (compare-index b i n k e) ∙ q);
  full = unfold compare_target in (λ c. ground (arith, v.full, (v.thread i).in_range n));
  calm = unfold compare_target in ground (arith, v.calm, (v.thread i).closer);
}

-- A thread that waits goes on, and nothing else changes.
leave-Inv :
    (b : Barrier) (i n : ℕ) (p : Pc)
    → b.pc i ≡ waiting n
    → index p ≡ some n
    → is_past p ≡ true
    → (is_released p ≡ true → b.is_closed ≡ true)
    → Inv b
    → Inv (record b { pc = set_pc b.pc i p })
leave-Inv b i n p e x past h v = record {
  thread = λ j. record {
    in_range = λ m q. ground (arith, (v.thread j).in_range m);
    closer = λ q. ground (arith, (v.thread j).closer);
    held_back = λ q. ground (arith, (v.thread j).held_back);
  };
  distinct = λ j k m q r. v.distinct j k m (ground arith) (ground arith);
  full = v.full;
  calm = v.calm;
}

receive-Inv : (b : Barrier) (i n : ℕ) → b.pc i ≡ waiting n → Inv b → Inv (receive b i n)
unfolding receive
receive-Inv b i n e v = elim (Bool-cases b.is_closed) [
  | inl c ↦
      subst (λ t. Inv (if t then record b { pc = set_pc b.pc i (released n) } else b)) (sym c)
        (leave-Inv b i n (released n) e refl refl (λ _. c) v)
  | inr c ↦
      subst (λ t. Inv (if t then record b { pc = set_pc b.pc i (released n) } else b)) (sym c) v
]

run_thread-Inv : (b : Barrier) (i : ℕ) (p : Pc) → b.pc i ≡ p → Inv b → Inv (run_thread b i p)
unfolding run_thread
run_thread-Inv b i idle e v = arrive-Inv b i e v
run_thread-Inv b i (counted n) e v = compare-Inv b i n e v
run_thread-Inv b i (waiting n) e v = receive-Inv b i n e v
run_thread-Inv b i (released n) e v = v
run_thread-Inv b i (timed_out n) e v = v

fire_timer-Inv : (b : Barrier) (i : ℕ) (p : Pc) → b.pc i ≡ p → Inv b → Inv (fire_timer b i p)
unfolding fire_timer
fire_timer-Inv b i (waiting n) e v = leave-Inv b i n (timed_out n) e refl refl (λ f. cc) v
fire_timer-Inv b i idle e v = v
fire_timer-Inv b i (counted n) e v = v
fire_timer-Inv b i (released n) e v = v
fire_timer-Inv b i (timed_out n) e v = v

pub turn-Inv : (b : Barrier) (t : Turn) → Inv b → Inv (turn b t)
unfolding turn
turn-Inv b (runs i) v = run_thread-Inv b i (b.pc i) refl v
turn-Inv b (timer_fires i) v = fire_timer-Inv b i (b.pc i) refl v

pub run-Inv : (b : Barrier) (ts : List Turn) → Inv b → Inv (run b ts)
unfolding run
run-Inv b [] v = v
run-Inv b (t ∷ ts) v = run-Inv (turn b t) ts (turn-Inv b t v)

pub new_barrier-Inv : (target : ℕ) (b : Barrier) → new_barrier target ≡ ok b → Inv b
unfolding new_barrier
new_barrier-Inv target b h = record {
  thread = λ i. record {
    in_range = λ n q. ground arith;
    closer = λ q. ground arith;
    held_back = λ q. ground arith;
  };
  distinct = λ i j n p q. ground arith;
  full = λ c. ground arith;
  calm = ground arith;
}
