-- ===== src/Coord/Registry.antt =====
-- internal/coord/barrier.go: Registry. A Barrier is named by its address, the position at which
-- it was created, so that two lookups of one name can be seen to give one instance.
use xk6_bgp.Base.{
  ℕ, ◌+◌, String, none, some, List, [], ◌∷◌, Map, lookup, insert, string_eq, lookup-insert,
  if◌then◌else◌, ◌==◌, Result, ok, err, ◌≡◌, arith, inl, inr, Option-cases,
}
use xk6_bgp.Coord.Barrier.{BarrierError, target_not_positive}

-- The instance that a name stands for: its address and the target that it was created with.
pub record Entry : Type 0 where
  pub address : ℕ
  pub target : ℕ

pub record Registry : Type 0 where
  pub barriers : Map String Entry
  pub next_address : ℕ

unfoldable pub new_registry : Registry
new_registry = record { barriers = []; next_address = 0 }

create : Registry → String → ℕ → Registry × Result BarrierError Entry
create r name target =
    if target == 0
    then (r, err target_not_positive)
    else let b : Entry = record { address = r.next_address; target = target } in
      (record { barriers = insert name b r.barriers; next_address = r.next_address + 1 }, ok b)

unfoldable pub barrier : String → ℕ → Registry → Registry × Result BarrierError Entry
unfolding create
barrier name target r = elim (lookup name r.barriers) [
  | some b ↦ (r, ok b)
  | none ↦ create r name target
]

abbrev pub lookups : List (String × ℕ) → Registry → Registry
lookups [] r = r
lookups ((name, target) ∷ qs) r = lookups qs (barrier name target r).0

lookup-barrier_other :
    (r : Registry) (name other : String) (u : ℕ) (b : Entry)
    → lookup name r.barriers ≡ some b
    → lookup name (barrier other u r).0.barriers ≡ some b
unfolding barrier
lookup-barrier_other r name other u b h = elim (Option-cases (lookup other r.barriers)) [
  | inr (c, e) ↦ ground arith
  | inl e ↦
      let new : Entry = record { address = r.next_address; target = u } in
      ground (arith, lookup-insert other name new r.barriers, string_eq.beq_iff other name)
]

lookup-barrier_self :
    (r : Registry) (name : String) (target : ℕ) (b : Entry)
    → (barrier name target r).1 ≡ ok b
    → lookup name (barrier name target r).0.barriers ≡ some b
unfolding barrier
lookup-barrier_self r name target b h =
    let new : Entry = record { address = r.next_address; target = target } in
    ground (arith, lookup-insert name name new r.barriers, string_eq.beq_iff name name)

lookup-lookups :
    (qs : List (String × ℕ)) (r : Registry) (name : String) (b : Entry)
    → lookup name r.barriers ≡ some b
    → lookup name (lookups qs r).barriers ≡ some b
lookup-lookups [] r name b h = h
lookup-lookups ((other, u) ∷ qs) r name b h =
    lookup-lookups qs (barrier other u r).0 name b (lookup-barrier_other r name other u b h)

-- The first creator wins: once a lookup has given an instance, a later lookup of the same name
-- gives that very instance, whatever target it states and whatever lookups lie in between.
pub barrier_first_wins :
    (r : Registry) (name : String) (target t : ℕ) (qs : List (String × ℕ)) (b : Entry)
    → (barrier name target r).1 ≡ ok b
    → (barrier name t (lookups qs (barrier name target r).0)).1 ≡ ok b
unfolding barrier
barrier_first_wins r name target t qs b h = ground (
  arith,
  lookup-lookups qs (barrier name target r).0 name b (lookup-barrier_self r name target b h),
)
