-- ===== src/Observed/Visible.antt =====
-- What an UPDATE does to the routes that are visible, and the refinement of applyUpdate to it.
use xk6_bgp.Base.{
  String, Bool, true, false, List, [], ◌∷◌, ◌≡◌, refl, map, arith, lookup, if◌then◌else◌, string_eq,
  lookup-insert, contains-insert, contains-delete,
}
use xk6_bgp.Clock.{Timestamp}
use xk6_bgp.Observed.State.{PathNlri, ObservedSet, visible, passes}
use xk6_bgp.Observed.Updates.{
  nlri_key, first_seen_or, reach_key, unreach_key, reach_all, unreach_all, count_update,
  apply_update,
}

abbrev pub same : String → String → Bool
same k j = string_eq.beq k j

abbrev pub has_key : String → List String → Bool
has_key j [] = false
has_key j (k ∷ ks) = if same k j then true else has_key j ks

-- The first observation of a route, after an UPDATE that was read at `ts` announces it.
abbrev pub first_after : Timestamp → String → ObservedSet → Timestamp
first_after ts k o = first_seen_or ts (lookup k o.first_seen)

pub visible-reach_key :
    (ts : Timestamp) (o : ObservedSet) (k : String) (c : Timestamp) (j : String)
    → visible c j (reach_key ts o k)
      ≡ (if same k j then passes c (first_after ts k o) else visible c j o)
unfolding visible reach_key
visible-reach_key ts o k c j =
    ground
      (arith, lookup-insert k j (first_after ts k o) o.first_seen, contains-delete k j o.withdrawn)

pub visible-unreach_key :
    (o : ObservedSet) (k : String) (c : Timestamp) (j : String)
    → visible c j (unreach_key o k) ≡ (if same k j then false else visible c j o)
unfolding visible unreach_key
visible-unreach_key o k c j = ground (arith, contains-insert k j tt o.withdrawn)

first_after-reach_key :
    (ts : Timestamp) (o : ObservedSet) (k j : String)
    → first_after ts j (reach_key ts o k) ≡ first_after ts j o
unfolding reach_key
first_after-reach_key ts o k j =
    ground (arith, lookup-insert k j (first_after ts k o) o.first_seen, string_eq.beq_iff k j)

visible-reach_all :
    (ts : Timestamp) (o : ObservedSet) (ks : List String) (c : Timestamp) (j : String)
    → visible c j (reach_all ts o ks)
      ≡ (if has_key j ks then passes c (first_after ts j o) else visible c j o)
unfolding reach_all
visible-reach_all ts o [] c j = refl
visible-reach_all ts o (k ∷ ks) c j = ground (
  arith,
  visible-reach_all ts (reach_key ts o k) ks c j,
  visible-reach_key ts o k c j,
  first_after-reach_key ts o k j,
  string_eq.beq_iff k j,
)

visible-unreach_all :
    (o : ObservedSet) (ks : List String) (c : Timestamp) (j : String)
    → visible c j (unreach_all o ks) ≡ (if has_key j ks then false else visible c j o)
unfolding unreach_all
visible-unreach_all o [] c j = refl
visible-unreach_all o (k ∷ ks) c j =
    ground (arith, visible-unreach_all (unreach_key o k) ks c j, visible-unreach_key o k c j)

-- After an UPDATE a route is invisible if the UPDATE withdraws it; else, if it is advertised, it is
-- visible exactly if its first observation, which an earlier one keeps, passes the cutoff; any
-- other route is as visible as before.
pub visible-apply_update :
    (add_path : Bool) (ts : Timestamp) (reach unreach : List PathNlri) (o : ObservedSet)
    (c : Timestamp) (j : String)
    → visible c j (apply_update add_path ts reach unreach o) ≡ (
        if has_key j (map (nlri_key add_path) unreach)
        then false
        else if has_key j (map (nlri_key add_path) reach)
        then passes c (first_after ts j o)
        else visible c j o)
unfolding apply_update visible
visible-apply_update add_path ts reach unreach o c j = ground (
  arith,
  visible-unreach_all (reach_all ts (count_update ts o) (map (nlri_key add_path) reach))
      (map (nlri_key add_path) unreach) c j,
  visible-reach_all ts (count_update ts o) (map (nlri_key add_path) reach) c j,
)
