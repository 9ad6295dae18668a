-- ===== src/Observed/Invariant.antt =====
-- Every call keeps the registered waiters exact, awake and reachable.
use xk6_bgp.Base.{
  ℕ, String, Bool, List, [], ◌∷◌, ◌≡◌, refl, sym, subst, arith, All, All-map, All-weaken,
}
use xk6_bgp.Clock.{Timestamp}
use xk6_bgp.Observed.State.{
  SessionError, Waiter, ObservedSet, visible, mark_done, fail, new_observed_set,
}
use xk6_bgp.Observed.Refresh.{
  apply_route_refresh, register_refresh_waiter, deregister_refresh_waiter,
}
use xk6_bgp.Observed.Waiters.{remove_waiter, deregister_waiter}
use xk6_bgp.Observed.Tracks.{Tracks, IsConsistent, Tracks-same, apply_update-IsConsistent}
use xk6_bgp.Observed.Register.{register_waiter-IsConsistent}
use xk6_bgp.Observed.Events.{
  Event, update, route_refresh, session_fails, registers, deregisters, registers_refresh,
  deregisters_refresh, step, run,
}

-- The parts of the state that IsConsistent reads.
abbrev SameView : ObservedSet → ObservedSet → Type 0
SameView o p = (p.first_seen ≡ o.first_seen) × (p.withdrawn ≡ o.withdrawn) × (p.waiters ≡ o.waiters)

SameView-visible :
    (o p : ObservedSet)
    → SameView o p
    → (c : Timestamp) (k : String) → visible c k p ≡ visible c k o
unfolding visible
SameView-visible o p v c k = ground arith

SameView-IsConsistent : (o p : ObservedSet) → SameView o p → IsConsistent o → IsConsistent p
SameView-IsConsistent o p v h = subst (All (Tracks p)) (sym v.2) (
    All-weaken (Tracks o) (Tracks p) (λ w t. Tracks-same o p w (SameView-visible o p v) t) o.waiters
      h)

apply_route_refresh-SameView :
    (fam demarcation : ℕ) (enhanced : Bool) (ts : Timestamp) (o : ObservedSet)
    → SameView o (apply_route_refresh fam demarcation enhanced ts o)
unfolding apply_route_refresh
apply_route_refresh-SameView fam demarcation enhanced ts o = ground arith

register_refresh_waiter-SameView :
    (fam : ℕ) (since : Timestamp) (o : ObservedSet)
    → SameView o (register_refresh_waiter fam since o).0
unfolding register_refresh_waiter
register_refresh_waiter-SameView fam since o = ground arith

pub remove_waiter-All {ℓ} :
    (P : Waiter → Type ℓ) (i : ℕ) (ws : List Waiter) → All P ws → All P (remove_waiter i ws)
unfolding remove_waiter
remove_waiter-All P i [] a = tt
remove_waiter-All P i (w ∷ ws) a = ground (arith, remove_waiter-All P i ws a.1)

deregister_waiter-IsConsistent :
    (i : ℕ) (o : ObservedSet) → IsConsistent o → IsConsistent (deregister_waiter i o)
unfolding deregister_waiter visible
deregister_waiter-IsConsistent i o h =
    remove_waiter-All (Tracks (deregister_waiter i o)) i o.waiters (
      All-weaken (Tracks o) (Tracks (deregister_waiter i o))
        (λ w t. Tracks-same o (deregister_waiter i o) w (λ c k. refl) t) o.waiters h)

fail-IsConsistent :
    (err : SessionError) (o : ObservedSet) → IsConsistent o → IsConsistent (fail err o)
unfolding fail visible
fail-IsConsistent err o h =
    All-map (Tracks o) (Tracks (fail err o)) mark_done
      (λ w t. record {
        pending_exact = t.pending_exact;
        pending_wanted = t.pending_wanted;
        woken = λ _. refl;
      })
      o.waiters h

pub step-IsConsistent : (o : ObservedSet) (e : Event) → IsConsistent o → IsConsistent (step o e)
unfolding step
step-IsConsistent o (update add_path ts reach unreach) h =
    apply_update-IsConsistent add_path ts reach unreach o h
step-IsConsistent o (route_refresh fam demarcation enhanced ts) h =
    SameView-IsConsistent o (apply_route_refresh fam demarcation enhanced ts o)
      (apply_route_refresh-SameView fam demarcation enhanced ts o) h
step-IsConsistent o (session_fails err) h = fail-IsConsistent err o h
step-IsConsistent o (registers want c) h = register_waiter-IsConsistent want c o h
step-IsConsistent o (deregisters i) h = deregister_waiter-IsConsistent i o h
step-IsConsistent o (registers_refresh fam since) h =
    SameView-IsConsistent o (register_refresh_waiter fam since o).0
      (register_refresh_waiter-SameView fam since o) h
step-IsConsistent o (deregisters_refresh i) h =
    SameView-IsConsistent o (deregister_refresh_waiter i o)
      (unfold deregister_refresh_waiter in (refl, refl, refl)) h

-- Whatever calls follow each other on a consistent set, in any order, it stays consistent: a
-- registered waiter pends exactly on the wanted
-- routes that are not visible to it, and one that pends on nothing has been signalled.
pub run-IsConsistent :
    (o : ObservedSet) (es : List Event) → IsConsistent o → IsConsistent (run o es)
unfolding run
run-IsConsistent o [] h = h
run-IsConsistent o (e ∷ es) h = run-IsConsistent (step o e) es (step-IsConsistent o e h)

pub new_observed_set-IsConsistent : IsConsistent new_observed_set
unfolding new_observed_set
new_observed_set-IsConsistent = tt
