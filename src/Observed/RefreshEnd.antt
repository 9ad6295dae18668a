-- ===== src/Observed/RefreshEnd.antt =====
-- What WaitForRouteRefreshEnd returns, over everything that may happen while it blocks.
use xk6_bgp.Base.{
  ℕ, ◌<◌, String, Bool, true, false, ◌||◌, Option, none, some, List, [], ◌∷◌, ◌++◌, ◌≡◌, ◌≢◌, ◌⊎◌,
  refl, sym, ap, subst, ◌∙◌, arith, if◌then◌else◌, All, Bool-cases, inl, inr, ok, lookup, nat_eq,
}
use xk6_bgp.Clock.{Timestamp, no_time}
use xk6_bgp.Observed.State.{SessionError, RefreshWaiter, ObservedSet, fail, passes, is_some}
use xk6_bgp.Observed.Refresh.{register_refresh_waiter, deregister_refresh_waiter}
use xk6_bgp.Observed.Waiters.{register_waiter, enroll, deregister_waiter}
use xk6_bgp.Observed.Events.{
  Event, update, route_refresh, session_fails, registers, deregisters, registers_refresh,
  deregisters_refresh, step, run,
}
use xk6_bgp.Observed.PeerCalls.{
  current_refresh, conclude_refresh, awaited_refresh, wait_for_route_refresh_end,
}
use xk6_bgp.Observed.RefreshWait.{
  latest, latest_after, HasTime, HasTime-append, HasTime-done, HasTime-remove, HasTime-last,
  HasTime-current, apply_update-refresh, route_refresh-HasTime,
}

register_waiter-refresh :
    (want : List String) (c : Timestamp) (o : ObservedSet)
    → (register_waiter want c o).0.refresh_waiters ≡ o.refresh_waiters
unfolding register_waiter enroll
register_waiter-refresh want c o = ground arith

-- An EoRR of the family that was read before the call and counts for it.
abbrev pub is_ready : Timestamp → Option Timestamp → Bool
is_ready since none = false
is_ready since (some ts) = passes since ts

abbrev fresh_waiter : ℕ → Timestamp → ObservedSet → RefreshWaiter
fresh_waiter fam since o = record {
  id = o.next_id;
  family = fam;
  since = since;
  ts = no_time;
  is_done = false;
}

register_refresh-list :
    (fam : ℕ) (since : Timestamp) (o : ObservedSet)
    → ((register_refresh_waiter fam since o).0.refresh_waiters ≡ (
        if is_ready since (lookup fam o.last_eorr) || is_some o.failed_err
        then o.refresh_waiters
        else o.refresh_waiters ++ fresh_waiter fam since o ∷ []))
      × ((register_refresh_waiter fam since o).1.id ≡ o.next_id)
unfolding register_refresh_waiter
register_refresh-list fam since o = ground arith

-- Another caller's registration leaves the list alone or appends to it.
register_refresh-appends :
    (fam : ℕ) (since : Timestamp) (o : ObservedSet)
    → ((register_refresh_waiter fam since o).0.refresh_waiters ≡ o.refresh_waiters)
      ⊎ ((w : RefreshWaiter) × ((register_refresh_waiter fam since o).0.refresh_waiters
            ≡ o.refresh_waiters ++ w ∷ []))
register_refresh-appends fam since o =
    let (list, _) = register_refresh-list fam since o in
    elim (Bool-cases (is_ready since (lookup fam o.last_eorr) || is_some o.failed_err)) [
      | inl kept ↦ inl (list ∙ rw kept refl)
      | inr added ↦ inr (fresh_waiter fam since o, list ∙ rw added refl)
    ]

step-HasTime :
    (i fam since t : ℕ) (o : ObservedSet) (e : Event)
    → e ≢ deregisters_refresh i
    → HasTime i fam since t o.refresh_waiters
    → HasTime i fam since (latest_after fam since t e) (step o e).refresh_waiters
unfolding step
step-HasTime i fam since t o (update a ts r u) n h =
    subst (HasTime i fam since t) (sym (apply_update-refresh a ts r u o)) h
step-HasTime i fam since t o (route_refresh g d enhanced ts) n h =
    route_refresh-HasTime i fam since t g d enhanced ts o h
step-HasTime i fam since t o (session_fails e) n h =
    unfold fail in HasTime-done i fam since t o.refresh_waiters h
step-HasTime i fam since t o (registers want c) n h =
    subst (HasTime i fam since t) (sym (register_waiter-refresh want c o)) h
step-HasTime i fam since t o (deregisters j) n h = unfold deregister_waiter in h
step-HasTime i fam since t o (registers_refresh g c) n h = elim (register_refresh-appends g c o) [
  | inl e ↦ subst (HasTime i fam since t) (sym e) h
  | inr (w, e) ↦
      subst (HasTime i fam since t) (sym e)
        (HasTime-append i fam since t o.refresh_waiters (w ∷ []) h)
]
step-HasTime i fam since t o (deregisters_refresh j) n h =
    unfold deregister_refresh_waiter in
    HasTime-remove i j fam since t o.refresh_waiters (λ e. n (ap deregisters_refresh e)) h

run-HasTime :
    (i fam since t : ℕ) (o : ObservedSet) (es : List Event)
    → All (λ e. e ≢ deregisters_refresh i) es
    → HasTime i fam since t o.refresh_waiters
    → HasTime i fam since (latest fam since t es) (run o es).refresh_waiters
unfolding run
run-HasTime i fam since t o [] a h = h
run-HasTime i fam since t o (e ∷ es) (n, a) h =
    run-HasTime i fam since (latest_after fam since t e) (step o e) es a
      (step-HasTime i fam since t o e n h)

-- The new waiter is the last of the list.
register_refresh-HasTime :
    (fam : ℕ) (since : Timestamp) (o : ObservedSet)
    → is_ready since (lookup fam o.last_eorr) ≡ false
    → o.failed_err ≡ none
    → All (λ w. w.id < o.next_id) o.refresh_waiters
    → HasTime o.next_id fam since no_time (register_refresh_waiter fam since o).0.refresh_waiters
      × ((register_refresh_waiter fam since o).1.id ≡ o.next_id)
register_refresh-HasTime fam since o r f a =
    let (list, i) = register_refresh-list fam since o in
    let added : (register_refresh_waiter fam since o).0.refresh_waiters
        ≡ o.refresh_waiters ++ fresh_waiter fam since o ∷ [] =
      list ∙ rw (r, f) refl in
    (
      subst (HasTime o.next_id fam since no_time) (sym added) (
          HasTime-last o.next_id fam since no_time (fresh_waiter fam since o) o.refresh_waiters refl
            refl refl refl a),
      i,
    )

conclude_refresh_exact :
    (t : Timestamp) (f : Option SessionError)
    → ((ts : Timestamp) → conclude_refresh t f ≡ ok ts → (t ≡ ts) × (0 < ts))
      × (0 < t → conclude_refresh t f ≡ ok t)
unfolding conclude_refresh
conclude_refresh_exact t none = (λ ts e. ground arith, λ p. ground arith)
conclude_refresh_exact t (some x) = (λ ts e. ground arith, λ p. ground arith)

-- On a session that is up, with enhanced refresh negotiated, no failure so far and no EoRR that
-- counts already, a call that nobody else deregisters returns the time of the last EoRR of the
-- family, not before the cutoff, that was read while it was blocked; and an error if there was
-- none (a time of 0 stands for none).
pub refresh_end_exact :
    (fam : ℕ) (since : Timestamp) (es : List Event) (o : ObservedSet)
    → is_ready since (lookup fam o.last_eorr) ≡ false
    → o.failed_err ≡ none
    → All (λ w. w.id < o.next_id) o.refresh_waiters
    → All (λ e. e ≢ deregisters_refresh o.next_id) es
    → ((ts : Timestamp)
        → (wait_for_route_refresh_end true true fam since es o).0 ≡ ok ts
        → (latest fam since no_time es ≡ ts) × (0 < ts))
      × (0 < latest fam since no_time es
          → (wait_for_route_refresh_end true true fam since es o).0
            ≡ ok (latest fam since no_time es))
unfolding wait_for_route_refresh_end awaited_refresh
refresh_end_exact fam since es o r f a n =
    let (h, i) = register_refresh-HasTime fam since o r f a in
    let w = (register_refresh_waiter fam since o).1 in
    let p = (register_refresh_waiter fam since o).0 in
    let q : (current_refresh w (run p es).refresh_waiters).ts ≡ latest fam since no_time es =
      HasTime-current o.next_id fam since (latest fam since no_time es) w (run p es).refresh_waiters
        i (run-HasTime o.next_id fam since no_time p es n h) in
    subst
      (λ t.
        ((ts : Timestamp)
          → conclude_refresh (awaited_refresh fam since es o).ts (run p es).failed_err ≡ ok ts
          → (t ≡ ts) × (0 < ts))
        × (0 < t
            → conclude_refresh (awaited_refresh fam since es o).ts (run p es).failed_err ≡ ok t))
      q (conclude_refresh_exact (awaited_refresh fam since es o).ts (run p es).failed_err)
