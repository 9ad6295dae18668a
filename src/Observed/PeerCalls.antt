-- ===== src/Observed/PeerCalls.antt =====
-- internal/peer/recv.go: the calls of Peer, which may have no session yet, and
-- WaitForRouteRefreshEnd.
use xk6_bgp.Base.{
  ℕ, String, Bool, not, Option, none, some, List, [], ◌∷◌, if◌then◌else◌, ◌==◌, Result, ok, err,
}
use xk6_bgp.Clock.{Timestamp, no_time, is_zero}
use xk6_bgp.Observed.State.{SessionError, RefreshWaiter, ObservedSet, failure_cause}
use xk6_bgp.Observed.Refresh.{register_refresh_waiter, deregister_refresh_waiter}
use xk6_bgp.Observed.Waiters.{WaitOutcome, failed, session_not_ready, Stats, stats}
use xk6_bgp.Observed.Events.{Event, run, wait_for_prefixes}

-- Without a session (a nil fsm) there is no receiver state.
unfoldable pub peer_wait_for_prefixes :
    List String → Timestamp → List Event → Option ObservedSet → WaitOutcome × Option ObservedSet
peer_wait_for_prefixes want c es none = (
  failed (record { matched = 0; missing = []; first_seen = no_time; last_seen = no_time })
      session_not_ready,
  none,
)
peer_wait_for_prefixes want c es (some o) = let r = wait_for_prefixes want c es o in (r.0, some r.1)

unfoldable pub peer_stats : Option ObservedSet → Stats
peer_stats none = record {
  updates = 0;
  advertised_nlri = 0;
  withdrawn_nlri = 0;
  unique_prefixes = 0;
  first_update_at = no_time;
  last_update_at = no_time;
  route_refreshes = 0;
  borrs = 0;
  eorrs = 0;
}
peer_stats (some o) = stats o

pub data RefreshError : Type 0 where
  not_established : Option SessionError → RefreshError
  enhanced_refresh_not_negotiated : RefreshError
  refresh_session_down : SessionError → RefreshError
  refresh_timed_out : RefreshError

-- What the caller sees through its pointer.
unfoldable pub current_refresh : RefreshWaiter → List RefreshWaiter → RefreshWaiter
current_refresh w [] = w
current_refresh w (x ∷ xs) = if x.id == w.id then x else current_refresh w xs

-- The end of the call, after the select.
unfoldable pub conclude_refresh : Timestamp → Option SessionError → Result RefreshError Timestamp
conclude_refresh ts failure =
    if is_zero ts
    then elim failure [ some e ↦ err (refresh_session_down e) | none ↦ err refresh_timed_out ]
    else ok ts

unfoldable pub awaited_refresh : ℕ → Timestamp → List Event → ObservedSet → RefreshWaiter
awaited_refresh fam since es o =
    let r = register_refresh_waiter fam since o in current_refresh r.1 (run r.0 es).refresh_waiters

wait_refresh :
    ℕ → Timestamp → List Event → ObservedSet → Result RefreshError Timestamp × ObservedSet
unfolding awaited_refresh
wait_refresh fam since es o =
    let r = register_refresh_waiter fam since o in
    let o' = run r.0 es in
    (
      conclude_refresh (awaited_refresh fam since es o).ts o'.failed_err,
      deregister_refresh_waiter (r.1).id o',
    )

-- `up` and `enhanced` are the session's state and what it negotiated; `es` is what happens while
-- the caller is blocked.
unfoldable pub wait_for_route_refresh_end :
    Bool
    → Bool
    → ℕ
    → Timestamp
    → List Event
    → ObservedSet
    → Result RefreshError Timestamp × ObservedSet
unfolding wait_refresh
wait_for_route_refresh_end up enhanced fam since es o =
    if not up
    then (err (not_established (failure_cause o)), o)
    else if not enhanced
    then (err enhanced_refresh_not_negotiated, o)
    else wait_refresh fam since es o
