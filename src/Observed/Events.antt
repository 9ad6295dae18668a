-- ===== src/Observed/Events.antt =====
-- internal/peer/recv.go: the calls that reach one observedSet, each under its mutex, and a whole
-- WaitForPrefixes as the calls that other goroutines make between its two critical sections.
use xk6_bgp.Base.{ℕ, String, Bool, List, [], ◌∷◌, length}
use xk6_bgp.Clock.{Timestamp, no_time}
use xk6_bgp.Observed.State.{SessionError, PathNlri, ObservedSet, fail}
use xk6_bgp.Observed.Updates.{apply_update}
use xk6_bgp.Observed.Refresh.{
  apply_route_refresh, register_refresh_waiter, deregister_refresh_waiter,
}
use xk6_bgp.Observed.Waiters.{
  register_waiter, deregister_waiter, current, conclude, WaitOutcome, failed, no_prefixes,
}

pub data Event : Type 0 where
  update : Bool → Timestamp → List PathNlri → List PathNlri → Event
  route_refresh : ℕ → ℕ → Bool → Timestamp → Event
  session_fails : SessionError → Event
  registers : List String → Timestamp → Event
  deregisters : ℕ → Event
  registers_refresh : ℕ → Timestamp → Event
  deregisters_refresh : ℕ → Event

unfoldable pub step : ObservedSet → Event → ObservedSet
step o (update add_path ts reach unreach) = apply_update add_path ts reach unreach o
step o (route_refresh fam demarcation enhanced ts) =
    apply_route_refresh fam demarcation enhanced ts o
step o (session_fails err) = fail err o
step o (registers want c) = (register_waiter want c o).0
step o (deregisters i) = deregister_waiter i o
step o (registers_refresh fam since) = (register_refresh_waiter fam since o).0
step o (deregisters_refresh i) = deregister_refresh_waiter i o

unfoldable pub run : ObservedSet → List Event → ObservedSet
run o [] = o
run o (e ∷ es) = run (step o e) es

-- The caller blocks between `register_waiter` and the snapshot; `es` is what happens meanwhile,
-- whichever of the two cases of the select ends the wait.
unfoldable pub during_wait : List String → Timestamp → List Event → ObservedSet → ObservedSet
during_wait want c es o = run (register_waiter want c o).0 es

wait_registered : List String → Timestamp → List Event → ObservedSet → WaitOutcome × ObservedSet
unfolding during_wait
wait_registered want c es o =
    let w = (register_waiter want c o).1 in
    let o' = during_wait want c es o in
    (conclude (length want) (current w o'.waiters) o'.failed_err, deregister_waiter w.id o')

unfoldable pub wait_for_prefixes :
    List String → Timestamp → List Event → ObservedSet → WaitOutcome × ObservedSet
unfolding wait_registered
wait_for_prefixes [] c es o = (
  failed (record { matched = 0; missing = []; first_seen = no_time; last_seen = no_time })
      no_prefixes,
  o,
)
wait_for_prefixes (k ∷ ks) c es o = wait_registered (k ∷ ks) c es o
