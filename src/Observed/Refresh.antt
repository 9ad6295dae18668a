-- ===== src/Observed/Refresh.antt =====
-- internal/peer/recv.go: applyRouteRefresh and the waiters for an EoRR.
use xk6_bgp.Base.{
  ℕ, ◌+◌, Bool, false, not, ◌&&◌, Option, none, some, List, [], ◌∷◌, ◌++◌, map, lookup, insert,
  if◌then◌else◌, ◌==◌, nat_eq,
}
use xk6_bgp.Clock.{Timestamp, no_time, is_zero, before}
use xk6_bgp.Observed.State.{RefreshWaiter, ObservedSet, inc64, is_some, mark_refresh_done, passes}

-- The RFC 7313 subtypes (message.go).
abbrev pub route_refresh_normal : ℕ
route_refresh_normal = 0

abbrev pub route_refresh_borr : ℕ
route_refresh_borr = 1

abbrev pub route_refresh_eorr : ℕ
route_refresh_eorr = 2

unfoldable pub eorr_waiter : ℕ → Timestamp → RefreshWaiter → RefreshWaiter
eorr_waiter fam ts w =
    if not (w.family == fam)
    then w
    else if not (is_zero w.since) && before ts w.since
    then w
    else mark_refresh_done (record w { ts = ts })

unfoldable pub apply_route_refresh : ℕ → ℕ → Bool → Timestamp → ObservedSet → ObservedSet
unfolding eorr_waiter
apply_route_refresh fam demarcation enhanced ts o =
    if not enhanced
    then record o { route_refresh_n = inc64 o.route_refresh_n }
    else if demarcation == route_refresh_borr
    then record o { borr_n = inc64 o.borr_n }
    else if demarcation == route_refresh_eorr
    then record o {
      eorr_n = inc64 o.eorr_n;
      last_eorr = insert fam ts o.last_eorr;
      refresh_waiters = map (eorr_waiter fam ts) o.refresh_waiters;
    }
    else record o { route_refresh_n = inc64 o.route_refresh_n }

-- An EoRR that was read already satisfies the waiter.
eorr_ready : Timestamp → Option Timestamp → Option Timestamp
eorr_ready since none = none
eorr_ready since (some ts) = if passes since ts then some ts else none

unfoldable pub register_refresh_waiter : ℕ → Timestamp → ObservedSet → ObservedSet × RefreshWaiter
unfolding eorr_ready
register_refresh_waiter fam since o = elim (eorr_ready since (lookup fam o.last_eorr)) [
  | some ts ↦ (record o { next_id = o.next_id + 1 }, mark_refresh_done (record w { ts = ts }))
  | none ↦
      if is_some o.failed_err
      then (record o { next_id = o.next_id + 1 }, mark_refresh_done w)
      else (record o { next_id = o.next_id + 1; refresh_waiters = o.refresh_waiters ++ w ∷ [] }, w)
]
  where
    w : RefreshWaiter
    w = record { id = o.next_id; family = fam; since = since; ts = no_time; is_done = false }

unfoldable pub remove_refresh : ℕ → List RefreshWaiter → List RefreshWaiter
remove_refresh i [] = []
remove_refresh i (w ∷ ws) = if w.id == i then ws else w ∷ remove_refresh i ws

unfoldable pub deregister_refresh_waiter : ℕ → ObservedSet → ObservedSet
unfolding remove_refresh
deregister_refresh_waiter i o = record o { refresh_waiters = remove_refresh i o.refresh_waiters }
