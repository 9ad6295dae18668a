-- ===== src/Observed/Release.antt =====
-- A dead session leaves nobody blocked, and a wait that was signalled can still come back empty.
use xk6_bgp.Base.{
  ℕ, String, Bool, true, false, List, [], ◌∷◌, ◌≡◌, refl, sym, subst, map, arith, ◌==◌, All,
  All-map, inl, inr, lookup, string_eq, nat_eq, Bool-cases,
}
use xk6_bgp.Clock.{Timestamp}
use xk6_bgp.Observed.State.{
  SessionError, PathNlri, Waiter, RefreshWaiter, ObservedSet, mark_done, mark_refresh_done, fail,
  is_some, new_observed_set,
}
use xk6_bgp.Observed.Updates.{
  nlri_key, first_seen_or, reach_waiter, withdraw_waiter, reach_key, unreach_key, reach_all,
  unreach_all, count_update, apply_update,
}
use xk6_bgp.Observed.Refresh.{
  eorr_waiter, apply_route_refresh, register_refresh_waiter, deregister_refresh_waiter,
  remove_refresh,
}
use xk6_bgp.Observed.Waiters.{deregister_waiter, register_waiter}
use xk6_bgp.Observed.Register.{built, enroll_cases}
use xk6_bgp.Observed.Events.{
  Event, update, route_refresh, session_fails, registers, deregisters, registers_refresh,
  deregisters_refresh, step, run,
}
use xk6_bgp.Observed.Invariant.{remove_waiter-All}

abbrev Awake : Waiter → Type 0
Awake w = w.is_done ≡ true

abbrev RefreshAwake : RefreshWaiter → Type 0
RefreshAwake w = w.is_done ≡ true

-- A recorded failure has signalled every waiter of both kinds.
abbrev pub IsReleased : ObservedSet → Type 0
IsReleased o =
    is_some o.failed_err ≡ true
    → All (λ w. w.is_done ≡ true) o.waiters × All (λ w. w.is_done ≡ true) o.refresh_waiters

reach_waiter-Awake :
    (k : String) (fs ts : Timestamp) (w : Waiter) → Awake w → Awake (reach_waiter k fs ts w)
unfolding reach_waiter
reach_waiter-Awake k fs ts w h = ground arith

withdraw_waiter-Awake : (k : String) (w : Waiter) → Awake w → Awake (withdraw_waiter k w)
unfolding withdraw_waiter
withdraw_waiter-Awake k w h = ground arith

eorr_waiter-Awake :
    (fam : ℕ) (ts : Timestamp) (w : RefreshWaiter)
    → RefreshAwake w
    → RefreshAwake (eorr_waiter fam ts w)
unfolding eorr_waiter
eorr_waiter-Awake fam ts w h = ground arith

reach_all-IsReleased :
    (ts : Timestamp) (o : ObservedSet) (ks : List String)
    → IsReleased o
    → IsReleased (reach_all ts o ks)
unfolding reach_all reach_key
reach_all-IsReleased ts o [] h = h
reach_all-IsReleased ts o (k ∷ ks) h = reach_all-IsReleased ts (reach_key ts o k) ks λ f.
    let fs = first_seen_or ts (lookup k o.first_seen) in
    (
      All-map Awake Awake (reach_waiter k fs ts) (reach_waiter-Awake k fs ts) o.waiters ((h f).0),
      (h f).1,
    )

unreach_all-IsReleased :
    (o : ObservedSet) (ks : List String) → IsReleased o → IsReleased (unreach_all o ks)
unfolding unreach_all unreach_key
unreach_all-IsReleased o [] h = h
unreach_all-IsReleased o (k ∷ ks) h = unreach_all-IsReleased (unreach_key o k) ks λ f.
    (All-map Awake Awake (withdraw_waiter k) (withdraw_waiter-Awake k) o.waiters ((h f).0), (h f).1)

apply_update-IsReleased :
    (add_path : Bool) (ts : Timestamp) (reach unreach : List PathNlri) (o : ObservedSet)
    → IsReleased o
    → IsReleased (apply_update add_path ts reach unreach o)
unfolding apply_update
apply_update-IsReleased add_path ts reach unreach o h =
    unreach_all-IsReleased (reach_all ts (count_update ts o) (map (nlri_key add_path) reach))
      (map (nlri_key add_path) unreach)
      (reach_all-IsReleased ts (count_update ts o) (map (nlri_key add_path) reach) h)

apply_route_refresh-IsReleased :
    (fam demarcation : ℕ) (enhanced : Bool) (ts : Timestamp) (o : ObservedSet)
    → IsReleased o
    → IsReleased (apply_route_refresh fam demarcation enhanced ts o)
unfolding apply_route_refresh
apply_route_refresh-IsReleased fam demarcation false ts o h = h
apply_route_refresh-IsReleased fam demarcation true ts o h = elim (Bool-cases (demarcation == 1)) [
  | inl e ↦ rw e h
  | inr e ↦ rw e (elim (Bool-cases (demarcation == 2)) [
    | inl d ↦ rw d (λ f. (
      (h f).0,
      All-map RefreshAwake RefreshAwake (eorr_waiter fam ts) (eorr_waiter-Awake fam ts)
          o.refresh_waiters ((h f).1),
    ))
    | inr d ↦ rw d h
  ])
]

register_waiter-IsReleased :
    (want : List String) (c : Timestamp) (o : ObservedSet)
    → IsReleased o
    → IsReleased (register_waiter want c o).0
unfolding register_waiter
register_waiter-IsReleased want c o h = elim (enroll_cases o (built want c o)) [
  | inl (_, e) ↦ rw e h
  | inr (_, alive, e) ↦ rw e (λ f. cc)
]

register_refresh_waiter_kept :
    (fam : ℕ) (since : Timestamp) (o : ObservedSet)
    → is_some (register_refresh_waiter fam since o).0.failed_err ≡ true
    → (is_some o.failed_err ≡ true)
      × ((register_refresh_waiter fam since o).0.waiters ≡ o.waiters)
      × ((register_refresh_waiter fam since o).0.refresh_waiters ≡ o.refresh_waiters)
unfolding register_refresh_waiter
register_refresh_waiter_kept fam since o f = ground arith

register_refresh_waiter-IsReleased :
    (fam : ℕ) (since : Timestamp) (o : ObservedSet)
    → IsReleased o
    → IsReleased (register_refresh_waiter fam since o).0
register_refresh_waiter-IsReleased fam since o h f =
    let (g, w, r) = register_refresh_waiter_kept fam since o f in
    (subst (All Awake) (sym w) ((h g).0), subst (All RefreshAwake) (sym r) ((h g).1))

remove_refresh-All :
    (i : ℕ) (ws : List RefreshWaiter) → All RefreshAwake ws → All RefreshAwake (remove_refresh i ws)
unfolding remove_refresh
remove_refresh-All i [] a = tt
remove_refresh-All i (w ∷ ws) a = ground (arith, remove_refresh-All i ws a.1)

pub fail-IsReleased : (err : SessionError) (o : ObservedSet) → IsReleased (fail err o)
unfolding fail
fail-IsReleased err o f = (all_awake o.waiters, all_refresh_awake o.refresh_waiters)
  where
    all_awake : (ws : List Waiter) → All Awake (map mark_done ws)
    all_awake [] = tt
    all_awake (w ∷ ws) = (refl, all_awake ws)

    all_refresh_awake : (ws : List RefreshWaiter) → All RefreshAwake (map mark_refresh_done ws)
    all_refresh_awake [] = tt
    all_refresh_awake (w ∷ ws) = (refl, all_refresh_awake ws)

pub step-IsReleased : (o : ObservedSet) (e : Event) → IsReleased o → IsReleased (step o e)
unfolding step
step-IsReleased o (update add_path ts reach unreach) h =
    apply_update-IsReleased add_path ts reach unreach o h
step-IsReleased o (route_refresh fam demarcation enhanced ts) h =
    apply_route_refresh-IsReleased fam demarcation enhanced ts o h
step-IsReleased o (session_fails err) h = fail-IsReleased err o
step-IsReleased o (registers want c) h = register_waiter-IsReleased want c o h
step-IsReleased o (deregisters i) h =
    unfold deregister_waiter in λ f. (remove_waiter-All Awake i o.waiters ((h f).0), (h f).1)
step-IsReleased o (registers_refresh fam since) h = register_refresh_waiter-IsReleased fam since o h
step-IsReleased o (deregisters_refresh i) h =
    unfold deregister_refresh_waiter in
    λ f. ((h f).0, remove_refresh-All i o.refresh_waiters ((h f).1))

-- After any calls whatever on a new set, a recorded failure has signalled every registered waiter
-- of both kinds: nobody waits out a timeout on a dead session.
pub run-IsReleased : (o : ObservedSet) (es : List Event) → IsReleased o → IsReleased (run o es)
unfolding run
run-IsReleased o [] h = h
run-IsReleased o (e ∷ es) h = run-IsReleased (step o e) es (step-IsReleased o e h)

-- After any calls whatever on a new set, if a failure is recorded, every registered waiter of both
-- kinds has been signalled.
pub failed_session_wakes :
    (es : List Event)
    → is_some (run new_observed_set es).failed_err ≡ true
    → All (λ w. w.is_done ≡ true) (run new_observed_set es).waiters
      × All (λ w. w.is_done ≡ true) (run new_observed_set es).refresh_waiters
unfolding new_observed_set
failed_session_wakes es f = run-IsReleased new_observed_set es (λ f. cc) f
