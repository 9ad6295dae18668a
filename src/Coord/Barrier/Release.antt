-- ===== src/Coord/Barrier/Release.antt =====
-- Who is released, and that a full barrier opens.
use xk6_bgp.Base.{
  ℕ, ◌+◌, ◌<◌, ◌≤◌, true, false, List, [], ◌∷◌, ok, ◌≡◌, ◌≢◌, refl, sym, subst, ap, ◌∙◌, arith, ◌⊎◌,
  inl, inr, Bool-cases, some, ltb,
}
use xk6_bgp.Coord.Barrier.{
  Pc, idle, counted, waiting, released, timed_out, Barrier, Turn, runs, timer_fires, new_barrier,
  arrive, compare_target, receive, run_thread, fire_timer, turn, run,
}
use xk6_bgp.Coord.Barrier.Invariant.{index, is_released, Inv, run-Inv, new_barrier-Inv}

-- An index is kept, also by a caller that gives up.
index-run_thread :
    (b : Barrier) (i : ℕ) (p : Pc) (j n : ℕ)
    → b.pc i ≡ p
    → index (b.pc j) ≡ some n
    → index ((run_thread b i p).pc j) ≡ some n
unfolding run_thread
index-run_thread b i idle j n e h = ground arith
index-run_thread b i (counted m) j n e h = ground arith
index-run_thread b i (waiting m) j n e h = ground arith
index-run_thread b i (released m) j n e h = h
index-run_thread b i (timed_out m) j n e h = h

index-fire_timer :
    (b : Barrier) (i : ℕ) (p : Pc) (j n : ℕ)
    → b.pc i ≡ p
    → index (b.pc j) ≡ some n
    → index ((fire_timer b i p).pc j) ≡ some n
unfolding fire_timer
index-fire_timer b i (waiting m) j n e h = ground arith
index-fire_timer b i idle j n e h = h
index-fire_timer b i (counted m) j n e h = h
index-fire_timer b i (released m) j n e h = h
index-fire_timer b i (timed_out m) j n e h = h

index-turn :
    (b : Barrier) (t : Turn) (j n : ℕ) → index (b.pc j) ≡ some n → index ((turn b t).pc j) ≡ some n
unfolding turn
index-turn b (runs i) j n h = index-run_thread b i (b.pc i) j n refl h
index-turn b (timer_fires i) j n h = index-fire_timer b i (b.pc i) j n refl h

target-run_thread :
    (b : Barrier) (i : ℕ) (p : Pc)
    → ((run_thread b i p).target ≡ b.target)
      × (((run_thread b i p).arrived ≡ b.arrived)
          ⊎ (((run_thread b i p).arrived ≡ b.arrived + 1)
              × (index ((run_thread b i p).pc i) ≡ some (b.arrived + 1))))
unfolding run_thread
target-run_thread b i idle = (refl, inr (refl, ground arith))
target-run_thread b i (counted m) = ground arith
target-run_thread b i (waiting m) = ground arith
target-run_thread b i (released m) = (refl, inl refl)
target-run_thread b i (timed_out m) = (refl, inl refl)

target-fire_timer :
    (b : Barrier) (i : ℕ) (p : Pc)
    → ((fire_timer b i p).target ≡ b.target) × ((fire_timer b i p).arrived ≡ b.arrived)
unfolding fire_timer
target-fire_timer b i (waiting m) = (refl, refl)
target-fire_timer b i idle = (refl, refl)
target-fire_timer b i (counted m) = (refl, refl)
target-fire_timer b i (released m) = (refl, refl)
target-fire_timer b i (timed_out m) = (refl, refl)

-- Someone holds each index that was given out.
abbrev Held : Barrier → Type 0
Held b = (n : ℕ) → 0 < n → n ≤ b.arrived → (j : ℕ) × (index (b.pc j) ≡ some n)

Held-turn : (b : Barrier) (t : Turn) → Held b → Held (turn b t)
unfolding turn
Held-turn b (timer_fires i) h n z l =
    let (_, same) = target-fire_timer b i (b.pc i) in
    let (j, e) = h n z (omega arith) in (j, index-fire_timer b i (b.pc i) j n refl e)
Held-turn b (runs i) h n z l = elim ((target-run_thread b i (b.pc i)).1) [
  | inl same ↦ let (j, e) = h n z (omega arith) in (j, index-run_thread b i (b.pc i) j n refl e)
  | inr (up, mine) ↦ elim (Bool-cases (ltb b.arrived n)) [
    | inl new ↦ (i, ground arith)
    | inr old ↦ let (j, e) = h n z (ground arith) in (j, index-run_thread b i (b.pc i) j n refl e)
  ]
]

Held-run : (b : Barrier) (ts : List Turn) → Held b → Held (run b ts)
unfolding run
Held-run b [] h = h
Held-run b (t ∷ ts) h = Held-run (turn b t) ts (Held-turn b t h)

target-turn : (b : Barrier) (t : Turn) → (turn b t).target ≡ b.target
unfolding turn
target-turn b (runs i) = (target-run_thread b i (b.pc i)).0
target-turn b (timer_fires i) = (target-fire_timer b i (b.pc i)).0

target-run : (b : Barrier) (ts : List Turn) → (run b ts).target ≡ b.target
unfolding run
target-run b [] = refl
target-run b (t ∷ ts) = target-run (turn b t) ts ∙ target-turn b t

Held-new : (target : ℕ) (b : Barrier) → new_barrier target ≡ ok b → Held b
unfolding new_barrier
Held-new target b h n z l = absurd (ground arith)

target-new :
    (target : ℕ) (b : Barrier) → new_barrier target ≡ ok b → (b.target ≡ target) × (0 < target)
unfolding new_barrier
target-new target b h = ground arith

-- Whatever the schedule, the channel is closed at most once, no two callers share an index, and
-- a caller that is released without a timeout was so after `target` callers had arrived.
pub barrier_safe :
    (target : ℕ) (b : Barrier) (ts : List Turn)
    → new_barrier target ≡ ok b
    → ((run b ts).panicked ≡ false)
      × ((i j n : ℕ) → index ((run b ts).pc i) ≡ some n → index ((run b ts).pc j) ≡ some n → i ≡ j)
      × ((i : ℕ) → is_released ((run b ts).pc i) ≡ true → target ≤ (run b ts).arrived)
barrier_safe target b ts h =
    let v = run-Inv b ts (new_barrier-Inv target b h) in
    let size : (run b ts).target ≡ target = target-run b ts ∙ (target-new target b h).0 in
    (
      v.calm,
      v.distinct,
      λ i r. subst (λ t. t ≤ (run b ts).arrived) size (v.full ((v.thread i).held_back r)),
    )

turn_closes :
    (b : Barrier) (j : ℕ) (p : Pc)
    → b.pc j ≡ p
    → index p ≡ some b.target
    → Inv b
    → (turn b (runs j)).is_closed ≡ true
unfolding turn run_thread arrive compare_target receive
turn_closes b j idle e x v = ground arith
turn_closes b j (counted n) e x v = ground arith
turn_closes b j (waiting n) e x v = ground (arith, (v.thread j).closer)
turn_closes b j (released n) e x v = ground (arith, (v.thread j).closer)
turn_closes b j (timed_out n) e x v = ground (arith, (v.thread j).closer)

pc-other : (b : Barrier) (j i : ℕ) (p : Pc) → b.pc j ≡ p → i ≢ j → (run_thread b j p).pc i ≡ b.pc i
unfolding run_thread
pc-other b j i idle e n = ground arith
pc-other b j i (counted m) e n = ground arith
pc-other b j i (waiting m) e n = ground arith
pc-other b j i (released m) e n = refl
pc-other b j i (timed_out m) e n = refl

turn_releases :
    (b : Barrier) (i n : ℕ) (p : Pc)
    → b.pc i ≡ p
    → p ≡ waiting n
    → b.is_closed ≡ true
    → (run_thread b i p).pc i ≡ released n
unfolding run_thread
turn_releases b i n (waiting m) e q c = ground arith
turn_releases b i n idle e q c = cc
turn_releases b i n (counted m) e q c = cc
turn_releases b i n (released m) e q c = cc
turn_releases b i n (timed_out m) e q c = cc

turn_other :
    (b : Barrier) (j i n : ℕ)
    → b.pc i ≡ waiting n
    → i ≢ j
    → (turn b (runs j)).is_closed ≡ true
    → (turn (turn b (runs j)) (runs i)).pc i ≡ released n
unfolding turn
turn_other b j i n w d c =
    turn_releases (run_thread b j (b.pc j)) i n ((run_thread b j (b.pc j)).pc i) refl
      (pc-other b j i (b.pc j) refl d ∙ w) c

-- Once `target` callers have arrived, timed-out ones included, some caller holds the last index;
-- its next turn leaves the channel closed, and then any other waiting caller's turn releases it.
pub full_barrier_opens :
    (target : ℕ) (b : Barrier) (ts : List Turn)
    → new_barrier target ≡ ok b
    → target ≤ (run b ts).arrived
    → (j : ℕ) × (index ((run b ts).pc j) ≡ some target)
      × ((turn (run b ts) (runs j)).is_closed ≡ true)
      × ((i n : ℕ)
          → (run b ts).pc i ≡ waiting n
          → i ≢ j
          → (turn (turn (run b ts) (runs j)) (runs i)).pc i ≡ released n)
full_barrier_opens target b ts h l =
    let c = run b ts in
    let v : Inv c = run-Inv b ts (new_barrier-Inv target b h) in
    let size : c.target ≡ target = target-run b ts ∙ (target-new target b h).0 in
    let (j, e) = Held-run b ts (Held-new target b h) target ((target-new target b h).1) l in
    let closed = turn_closes c j (c.pc j) refl (e ∙ ap some (sym size)) v in
    (j, e, closed, λ i n w d. turn_other c j i n w d closed)
