-- ===== src/Observed/Spec.antt =====
-- What internal/peer/recv.go promises, apart from its maps and its waiters: a table that tells for
-- each route when it was first seen and whether it has been withdrawn since.
use xk6_bgp.Base.{
  ℕ, String, Bool, true, false, not, ◌&&◌, Option, none, some, List, [], ◌∷◌, ◌≡◌, refl, ap, ◌∙◌,
  map, arith, lookup, contains, if◌then◌else◌, string_eq, lookup-insert, contains-insert,
  contains-delete,
}
use xk6_bgp.Clock.{Timestamp}
use xk6_bgp.Observed.State.{ObservedSet, visible, passes, fail}
use xk6_bgp.Observed.Updates.{
  nlri_key, first_seen_or, reach_key, unreach_key, reach_all, unreach_all, count_update,
  apply_update,
}
use xk6_bgp.Observed.Refresh.{
  apply_route_refresh, register_refresh_waiter, deregister_refresh_waiter,
}
use xk6_bgp.Observed.Waiters.{register_waiter, enroll, deregister_waiter}
use xk6_bgp.Observed.Events.{
  Event, update, route_refresh, session_fails, registers, deregisters, registers_refresh,
  deregisters_refresh, step, run,
}
use xk6_bgp.Observed.Visible.{same}

-- The first observation, and whether the route is withdrawn.
abbrev pub Table : Type 0
Table = String → Option (Timestamp × Bool)

abbrev pub first_or : Timestamp → Option (Timestamp × Bool) → Timestamp
first_or ts none = ts
first_or ts (some (fs, gone)) = fs

abbrev pub gone : Option (Timestamp × Bool) → Option (Timestamp × Bool)
gone none = none
gone (some (fs, g)) = some (fs, true)

abbrev pub announce : Timestamp → Table → String → Table
announce ts t k j = if same k j then some (first_or ts (t k), false) else t j

abbrev pub withdraw : Table → String → Table
withdraw t k j = if same k j then gone (t k) else t j

unfoldable pub announce_all : Timestamp → Table → List String → Table
announce_all ts t [] = t
announce_all ts t (k ∷ ks) = announce_all ts (announce ts t k) ks

unfoldable pub withdraw_all : Table → List String → Table
withdraw_all t [] = t
withdraw_all t (k ∷ ks) = withdraw_all (withdraw t k) ks

-- Only an UPDATE touches the table.
unfoldable pub table_step : Table → Event → Table
unfolding announce_all withdraw_all
table_step t (update add_path ts reach unreach) =
    withdraw_all (announce_all ts t (map (nlri_key add_path) reach))
      (map (nlri_key add_path) unreach)
table_step t _ = t

unfoldable pub table_run : Table → List Event → Table
unfolding table_step
table_run t [] = t
table_run t (e ∷ es) = table_run (table_step t e) es

abbrev pub entry : Option Timestamp → Bool → Option (Timestamp × Bool)
entry none g = none
entry (some fs) g = some (fs, g)

-- The table of an observedSet.
unfoldable pub table_of : ObservedSet → Table
table_of o k = entry (lookup k o.first_seen) (contains k o.withdrawn)

abbrev pub shows : Timestamp → Option (Timestamp × Bool) → Bool
shows c none = false
shows c (some (fs, g)) = not g && passes c fs

pub visible-table_of :
    (c : Timestamp) (k : String) (o : ObservedSet) → visible c k o ≡ shows c (table_of o k)
unfolding visible table_of
visible-table_of c k o = ground arith

reach_key_table :
    (ts : Timestamp) (o : ObservedSet) (k : String)
    → table_of (reach_key ts o k) ≡ announce ts (table_of o) k
unfolding table_of reach_key
reach_key_table ts o k i j = at j i
  where
    at :
        (j : String)
        → entry (lookup j (reach_key ts o k).first_seen) (contains j (reach_key ts o k).withdrawn)
          ≡ announce ts (table_of o) k j
    at j = ground (
      arith,
      lookup-insert k j (first_seen_or ts (lookup k o.first_seen)) o.first_seen,
      contains-delete k j o.withdrawn,
    )

unreach_key_table :
    (o : ObservedSet) (k : String) → table_of (unreach_key o k) ≡ withdraw (table_of o) k
unfolding table_of unreach_key
unreach_key_table o k i j = at j i
  where
    at :
        (j : String)
        → entry (lookup j (unreach_key o k).first_seen) (contains j (unreach_key o k).withdrawn)
          ≡ withdraw (table_of o) k j
    at j = ground (arith, contains-insert k j tt o.withdrawn, string_eq.beq_iff k j)

reach_all_table :
    (ts : Timestamp) (o : ObservedSet) (ks : List String)
    → table_of (reach_all ts o ks) ≡ announce_all ts (table_of o) ks
unfolding reach_all announce_all
reach_all_table ts o [] = refl
reach_all_table ts o (k ∷ ks) =
    reach_all_table ts (reach_key ts o k) ks
    ∙ ap (λ t. announce_all ts t ks) (reach_key_table ts o k)

unreach_all_table :
    (o : ObservedSet) (ks : List String)
    → table_of (unreach_all o ks) ≡ withdraw_all (table_of o) ks
unfolding unreach_all withdraw_all
unreach_all_table o [] = refl
unreach_all_table o (k ∷ ks) =
    unreach_all_table (unreach_key o k) ks ∙ ap (λ t. withdraw_all t ks) (unreach_key_table o k)

-- A call that leaves the two maps alone leaves the table alone.
pub same_table :
    (o p : ObservedSet)
    → p.first_seen ≡ o.first_seen
    → p.withdrawn ≡ o.withdrawn
    → table_of p ≡ table_of o
unfolding table_of
same_table o p f w i k = entry (lookup k (f i)) (contains k (w i))

pub register_maps :
    (want : List String) (c : Timestamp) (o : ObservedSet)
    → ((register_waiter want c o).0.first_seen ≡ o.first_seen)
      × ((register_waiter want c o).0.withdrawn ≡ o.withdrawn)
unfolding register_waiter enroll
register_maps want c o = ground arith

refresh_maps :
    (fam demarcation : ℕ) (enhanced : Bool) (ts : Timestamp) (o : ObservedSet)
    → ((apply_route_refresh fam demarcation enhanced ts o).first_seen ≡ o.first_seen)
      × ((apply_route_refresh fam demarcation enhanced ts o).withdrawn ≡ o.withdrawn)
unfolding apply_route_refresh
refresh_maps fam demarcation enhanced ts o = ground arith

registered_maps :
    (fam : ℕ) (since : Timestamp) (o : ObservedSet)
    → ((register_refresh_waiter fam since o).0.first_seen ≡ o.first_seen)
      × ((register_refresh_waiter fam since o).0.withdrawn ≡ o.withdrawn)
unfolding register_refresh_waiter
registered_maps fam since o = ground arith

step_table : (o : ObservedSet) (e : Event) → table_of (step o e) ≡ table_step (table_of o) e
unfolding step table_step apply_update
step_table o (update add_path ts reach unreach) =
    unreach_all_table (reach_all ts (count_update ts o) (map (nlri_key add_path) reach))
      (map (nlri_key add_path) unreach)
    ∙ ap (λ t. withdraw_all t (map (nlri_key add_path) unreach))
        (reach_all_table ts (count_update ts o) (map (nlri_key add_path) reach)
          ∙ ap (λ t. announce_all ts t (map (nlri_key add_path) reach))
              (same_table o (count_update ts o) refl refl))
step_table o (route_refresh fam demarcation enhanced ts) =
    let m = refresh_maps fam demarcation enhanced ts o in same_table o _ m.0 m.1
step_table o (session_fails err) = unfold fail in same_table o (fail err o) refl refl
step_table o (registers want c) = let m = register_maps want c o in same_table o _ m.0 m.1
step_table o (deregisters n) =
    unfold deregister_waiter in same_table o (deregister_waiter n o) refl refl
step_table o (registers_refresh fam since) =
    let m = registered_maps fam since o in same_table o _ m.0 m.1
step_table o (deregisters_refresh n) =
    unfold deregister_refresh_waiter in same_table o (deregister_refresh_waiter n o) refl refl

run_table : (o : ObservedSet) (es : List Event) → table_of (run o es) ≡ table_run (table_of o) es
unfolding run table_run
run_table o [] = refl
run_table o (e ∷ es) = run_table (step o e) es ∙ ap (λ t. table_run t es) (step_table o e)

-- An observedSet refines the table: after any calls in any order, the table of the set is the table
-- that the UPDATEs among the calls make of its earlier one, and a route is visible to a waiter exactly
-- if that table shows it.
pub run-table_run :
    (o : ObservedSet) (es : List Event)
    → (table_of (run o es) ≡ table_run (table_of o) es)
      × ((c : Timestamp) (k : String)
          → visible c k (run o es) ≡ shows c (table_run (table_of o) es k))
run-table_run o es = (
  run_table o es,
  λ c k. visible-table_of c k (run o es) ∙ ap (λ t. shows c (t k)) (run_table o es),
)
