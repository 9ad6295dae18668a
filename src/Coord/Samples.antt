-- ===== src/Coord/Samples.antt =====
-- Rendezvous at concrete inputs.
use xk6_bgp.Base.{ℕ, true, false, List, [], ◌∷◌, ok, some, ◌≡◌, ◌≢◌, refl, arith, lookup}
use xk6_bgp.Coord.Barrier.{
  Barrier, Turn, idle, waiting, released, runs, timer_fires, new_barrier, run, turn,
}
use xk6_bgp.Coord.Barrier.Invariant.{index}
use xk6_bgp.Coord.Barrier.Release.{barrier_safe, full_barrier_opens}
use xk6_bgp.Coord.Registry.{new_registry, barrier, lookups, barrier_first_wins}

abbrev pair : Barrier
pair = record { target = 2; arrived = 0; is_closed = false; panicked = false; pc = λ i. idle }

-- Caller 0 gives up; caller 1 completes the rendezvous all the same, and caller 2 passes.
abbrev schedule : List Turn
schedule = runs 0 ∷ runs 0 ∷ timer_fires 0 ∷ runs 1 ∷ runs 2 ∷ runs 2 ∷ runs 1 ∷ runs 1 ∷ []

barrier_safe_example : (run pair schedule).panicked ≡ false
unfolding new_barrier
barrier_safe_example = (barrier_safe 2 pair schedule refl).0

schedule_releases : (run pair schedule).pc 1 ≡ released 2
unfolding run turn
schedule_releases = refl

abbrev crowd : List Turn
crowd = runs 0 ∷ runs 0 ∷ runs 1 ∷ []

full_barrier_opens_example :
    (j : ℕ) × (index ((run pair crowd).pc j) ≡ some 2)
    × ((turn (run pair crowd) (runs j)).is_closed ≡ true)
    × ((i n : ℕ)
        → (run pair crowd).pc i ≡ waiting n
        → i ≢ j
        → (turn (turn (run pair crowd) (runs j)) (runs i)).pc i ≡ released n)
unfolding new_barrier run turn
full_barrier_opens_example = full_barrier_opens 2 pair crowd refl (omega arith)

barrier_first_wins_example :
    (barrier "go" 5 (lookups (("stop", 2) ∷ []) (barrier "go" 3 new_registry).0)).1
    ≡ ok (record { address = 0; target = 3 })
unfolding barrier lookup new_registry
barrier_first_wins_example =
    barrier_first_wins new_registry "go" 3 5 (("stop", 2) ∷ []) (record { address = 0; target = 3 })
      refl
