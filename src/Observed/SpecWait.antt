-- ===== src/Observed/SpecWait.antt =====
-- internal/peer/recv.go: WaitForPrefixes against the table alone.
use xk6_bgp.Base.{
  String, true, false, not, none, List, ◌≡◌, ◌≢◌, ◌↔◌, sym, ap, ◌∙◌, All, if◌then◌else◌,
}
use xk6_bgp.Clock.{Timestamp}
use xk6_bgp.Observed.State.{ObservedSet, visible}
use xk6_bgp.Observed.Waiters.{register_waiter}
use xk6_bgp.Observed.Visible.{has_key}
use xk6_bgp.Observed.Tracks.{IsConsistent}
use xk6_bgp.Observed.Events.{Event, deregisters, during_wait, wait_for_prefixes}
use xk6_bgp.Observed.Handles.{IsFresh}
use xk6_bgp.Observed.Wait.{is_returned, result_of, wait_exact}
use xk6_bgp.Observed.Spec.{table_of, table_run, shows, same_table, register_maps, run-table_run}

waited_table :
    (want : List String) (c : Timestamp) (es : List Event) (o : ObservedSet) (j : String)
    → visible c j (during_wait want c es o) ≡ shows c (table_run (table_of o) es j)
unfolding during_wait
waited_table want c es o j =
    let m = register_maps want c o in
    let r = (register_waiter want c o).0 in
    (run-table_run r es).1 c j ∙ ap (λ t. shows c (table_run t es j)) (same_table o r m.0 m.1)

-- WaitForPrefixes implements a wait on the table: for a call as in `wait_exact`, whatever the other
-- goroutines call while it blocks, the missing prefixes are the wanted ones that the table does not
-- show after their UPDATEs, and the call succeeds exactly if the table then shows all of them.
pub wait_for_prefixes-table_run :
    (want : List String) (c : Timestamp) (es : List Event) (o : ObservedSet) (k : String)
    → IsConsistent o
    → IsFresh o
    → o.failed_err ≡ none
    → has_key k want ≡ true
    → visible c k o ≡ false
    → All (λ e. e ≢ deregisters o.next_id) es
    → ((j : String)
        → has_key j (result_of (wait_for_prefixes want c es o).0).missing
          ≡ (if has_key j want then not (shows c (table_run (table_of o) es j)) else false))
      × ((is_returned (wait_for_prefixes want c es o).0 ≡ true)
          ↔ ((j : String) → has_key j want ≡ true → shows c (table_run (table_of o) es j) ≡ true))
wait_for_prefixes-table_run want c es o k good fresh up wanted absent ours =
    let (missing, done) = wait_exact want c es o k good fresh up wanted absent ours in
    (
      λ j.
          missing j
          ∙ ap (λ b. if has_key j want then not b else false) (waited_table want c es o j),
      (
        λ r j w. sym (waited_table want c es o j) ∙ done.0 r j w,
        λ all. done.1 (λ j w. waited_table want c es o j ∙ all j w),
      ),
    )
