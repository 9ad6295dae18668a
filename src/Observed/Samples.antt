-- ===== src/Observed/Samples.antt =====
-- Runs of the receiver state at concrete inputs.
use xk6_bgp.Base.{
  ok, String, true, false, List, [], ◌∷◌, ◌≡◌, refl, arith, All, Bool-cases, inl, inr, subst,
  contains, lookup, insert, delete, string_eq, not, nat_eq,
}
use xk6_bgp.Observed.State.{PathNlri, ObservedSet, new_observed_set, visible, peer_rejected, fail}
use xk6_bgp.Observed.Updates.{apply_update, reach_waiter, withdraw_waiter, reach_key, unreach_key}
use xk6_bgp.Observed.PeerCalls.{wait_for_route_refresh_end}
use xk6_bgp.Observed.RefreshEnd.{refresh_end_exact}
use xk6_bgp.Observed.Waiters.{
  register_waiter, enroll, register_keys, register_key, new_waiter, deregister_waiter, current,
  conclude,
}
use xk6_bgp.Observed.Events.{
  route_refresh, Event, update, session_fails, registers, step, run, during_wait, wait_for_prefixes,
}
use xk6_bgp.Observed.Visible.{has_key, visible-apply_update}
use xk6_bgp.Observed.Tracks.{IsConsistent}
use xk6_bgp.Observed.Invariant.{run-IsConsistent, new_observed_set-IsConsistent}
use xk6_bgp.Observed.Wait.{wait_exact, wait_wakes, waited, result_of}
use xk6_bgp.Observed.Spec.{table_of, table_run, run-table_run}
use xk6_bgp.Observed.SpecWait.{wait_for_prefixes-table_run}
use xk6_bgp.Observed.Release.{failed_session_wakes}

abbrev net_a : String
net_a = "10.0.0.0/24"

abbrev net_b : String
net_b = "10.0.1.0/24"

abbrev nlri : String → PathNlri
nlri s = record { plain = s; with_id = s }

abbrev both : List String
both = net_a ∷ net_b ∷ []

abbrev arrivals : List Event
arrivals =
    update false 7 (nlri net_a ∷ []) []
    ∷ registers (net_a ∷ []) 0
    ∷ update false 9 (nlri net_b ∷ []) []
    ∷ []

abbrev flap : List Event
flap = update false 7 (nlri net_a ∷ nlri net_b ∷ []) [] ∷ update false 9 [] (nlri net_a ∷ []) ∷ []

-- The state after some calls, with everything that they compute with.
after_calls : List Event → ObservedSet
unfolding during_wait run step new_observed_set register_waiter enroll new_waiter register_keys
    register_key apply_update reach_key unreach_key current conclude insert contains delete
    reach_waiter withdraw_waiter lookup deregister_waiter fail visible
after_calls es = run new_observed_set es

visible-apply_update_example :
    visible 0 net_a (apply_update false 7 (nlri net_a ∷ []) (nlri net_b ∷ []) new_observed_set)
    ≡ true
unfolding new_observed_set lookup
visible-apply_update_example =
    visible-apply_update false 7 (nlri net_a ∷ []) (nlri net_b ∷ []) new_observed_set 0 net_a

run-IsConsistent_example : IsConsistent (run new_observed_set (registers both 5 ∷ arrivals))
run-IsConsistent_example =
    run-IsConsistent new_observed_set (registers both 5 ∷ arrivals) new_observed_set-IsConsistent

wait_exact_example :
    has_key net_a (result_of (wait_for_prefixes both 5 flap new_observed_set).0).missing
    ≡ not (visible 5 net_a (during_wait both 5 flap new_observed_set))
unfolding new_observed_set visible lookup
wait_exact_example =
    (wait_exact both 5 flap new_observed_set net_a new_observed_set-IsConsistent tt refl refl refl
        ((λ e. cc), ((λ e. cc), tt))).0
      net_a

run-table_run_example : visible 5 net_a (run new_observed_set flap) ≡ false
unfolding table_run table_of new_observed_set lookup
run-table_run_example = (run-table_run new_observed_set flap).1 5 net_a

wait_for_prefixes-table_run_example :
    has_key net_a (result_of (wait_for_prefixes both 5 flap new_observed_set).0).missing ≡ true
unfolding table_run table_of new_observed_set visible lookup
wait_for_prefixes-table_run_example =
    (wait_for_prefixes-table_run both 5 flap new_observed_set net_a new_observed_set-IsConsistent tt
        refl refl refl ((λ e. cc), ((λ e. cc), tt))).0
      net_a

flap_misses : (result_of (wait_for_prefixes both 5 flap new_observed_set).0).missing ≡ net_a ∷ []
unfolding wait_for_prefixes after_calls
flap_misses = refl

all_arrive :
    (j : String)
    → has_key j both ≡ true
    → visible 5 j (during_wait both 5 arrivals new_observed_set) ≡ true
unfolding after_calls
all_arrive j h = elim (Bool-cases (string_eq.beq net_a j)) [
  | inl e ↦
      subst (λ k. visible 5 k (during_wait both 5 arrivals new_observed_set) ≡ true)
        ((string_eq.beq_iff net_a j).0 e) refl
  | inr e ↦
      subst (λ k. visible 5 k (during_wait both 5 arrivals new_observed_set) ≡ true)
        ((string_eq.beq_iff net_b j).0 (ground arith)) refl
]

wait_wakes_example : (waited both 5 arrivals new_observed_set).is_done ≡ true
unfolding new_observed_set visible lookup
wait_wakes_example =
    wait_wakes both 5 arrivals new_observed_set net_a new_observed_set-IsConsistent tt refl refl
      refl ((λ e. cc), ((λ e. cc), ((λ e. cc), tt))) all_arrive

failed_session_wakes_example :
    All
      (λ w. w.is_done ≡ true)
      (run new_observed_set (registers both 5 ∷ session_fails (peer_rejected 6 2) ∷ [])).waiters
unfolding after_calls
failed_session_wakes_example =
    (failed_session_wakes (registers both 5 ∷ session_fails (peer_rejected 6 2) ∷ []) refl).0

-- An EoRR of another family, an early one, and the one that ends the wait.
abbrev demarcations : List Event
demarcations =
    route_refresh 131073 2 true 6 ∷ route_refresh 65537 2 true 4 ∷ route_refresh 65537 2 true 7 ∷ []

refresh_end_exact_example :
    (wait_for_route_refresh_end true true 65537 5 demarcations new_observed_set).0 ≡ ok 7
unfolding new_observed_set lookup
refresh_end_exact_example =
    (refresh_end_exact 65537 5 demarcations new_observed_set refl refl tt
        (λ e. cc, (λ e. cc, (λ e. cc, tt)))).1
      (omega arith)
