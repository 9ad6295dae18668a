-- ===== src/Observed/RefreshWait.antt =====
-- How the calls on the receiver state change a waiter for an EoRR.
use xk6_bgp.Base.{
  ℕ, ◌<◌, String, Bool, true, false, ◌&&◌, List, [], ◌∷◌, ◌++◌, map, ◌≡◌, ◌≢◌, ◌⊎◌, refl, ◌∙◌,
  arith, if◌then◌else◌, ◌==◌, ==_iff, All, Bool-cases, inl, inr, nat_eq,
}
use xk6_bgp.Clock.{Timestamp}
use xk6_bgp.Observed.State.{PathNlri, RefreshWaiter, ObservedSet, mark_refresh_done, passes}
use xk6_bgp.Observed.Updates.{
  reach_all, reach_key, unreach_all, unreach_key, count_update, apply_update, nlri_key,
}
use xk6_bgp.Observed.Refresh.{eorr_waiter, apply_route_refresh, route_refresh_eorr, remove_refresh}
use xk6_bgp.Observed.Events.{Event, route_refresh}
use xk6_bgp.Observed.PeerCalls.{current_refresh}

-- The EoRR of the family that counts, among those read so far the latest.
abbrev pub latest_after : ℕ → Timestamp → Timestamp → Event → Timestamp
latest_after fam since t (route_refresh f d enhanced ts) =
    if enhanced && ((d == route_refresh_eorr) && ((f == fam) && passes since ts)) then ts else t
latest_after fam since t _ = t

abbrev pub latest : ℕ → Timestamp → Timestamp → List Event → Timestamp
latest fam since t [] = t
latest fam since t (e ∷ es) = latest fam since (latest_after fam since t e) es

-- The waiter with the address stands in the list with this time.
abbrev pub HasTime : ℕ → ℕ → Timestamp → Timestamp → List RefreshWaiter → Type 0
HasTime i fam since t [] = ⊥
HasTime i fam since t (w ∷ ws) =
    ((w.id ≡ i) × (w.family ≡ fam) × (w.since ≡ since) × (w.ts ≡ t))
    ⊎ ((w.id ≢ i) × HasTime i fam since t ws)

pub HasTime-eorr :
    (i fam since t g ts : ℕ) (ws : List RefreshWaiter)
    → HasTime i fam since t ws
    → HasTime i fam since
        (if (g == fam) && passes since ts then ts else t)
        (map (eorr_waiter g ts) ws)
unfolding eorr_waiter
HasTime-eorr i fam since t g ts [] h = h
HasTime-eorr i fam since t g ts (w ∷ ws) (inl (a, b, c, d)) = inl (ground arith)
HasTime-eorr i fam since t g ts (w ∷ ws) (inr (n, h)) =
    inr (λ e. n (ground arith), HasTime-eorr i fam since t g ts ws h)

pub HasTime-done :
    (i fam since t : ℕ) (ws : List RefreshWaiter)
    → HasTime i fam since t ws
    → HasTime i fam since t (map mark_refresh_done ws)
HasTime-done i fam since t [] h = h
HasTime-done i fam since t (w ∷ ws) (inl a) = inl a
HasTime-done i fam since t (w ∷ ws) (inr (n, h)) = inr (n, HasTime-done i fam since t ws h)

pub HasTime-append :
    (i fam since t : ℕ) (ws vs : List RefreshWaiter)
    → HasTime i fam since t ws
    → HasTime i fam since t (ws ++ vs)
HasTime-append i fam since t [] vs h = absurd h
HasTime-append i fam since t (w ∷ ws) vs (inl a) = inl a
HasTime-append i fam since t (w ∷ ws) vs (inr (n, h)) =
    inr (n, HasTime-append i fam since t ws vs h)

pub HasTime-remove :
    (i j fam since t : ℕ) (ws : List RefreshWaiter)
    → j ≢ i
    → HasTime i fam since t ws
    → HasTime i fam since t (remove_refresh j ws)
unfolding remove_refresh
HasTime-remove i j fam since t [] n h = h
HasTime-remove i j fam since t (w ∷ ws) n (inl a) = elim (Bool-cases (w.id == j)) [
  | inl e ↦ absurd (n (ground arith))
  | inr e ↦ rw e (inl a)
]
HasTime-remove i j fam since t (w ∷ ws) n (inr (m, h)) = elim (Bool-cases (w.id == j)) [
  | inl e ↦ rw e h
  | inr e ↦ rw e (inr (m, HasTime-remove i j fam since t ws n h))
]

pub HasTime-last :
    (i fam since t : ℕ) (w : RefreshWaiter) (ws : List RefreshWaiter)
    → w.id ≡ i
    → w.family ≡ fam
    → w.since ≡ since
    → w.ts ≡ t
    → All (λ x. x.id < i) ws
    → HasTime i fam since t (ws ++ w ∷ [])
HasTime-last i fam since t w [] a b c d h = inl (a, b, c, d)
HasTime-last i fam since t w (x ∷ ws) a b c d (lt, h) =
    inr (λ e. omega arith, HasTime-last i fam since t w ws a b c d h)

pub HasTime-current :
    (i fam since t : ℕ) (w : RefreshWaiter) (ws : List RefreshWaiter)
    → w.id ≡ i
    → HasTime i fam since t ws
    → (current_refresh w ws).ts ≡ t
unfolding current_refresh
HasTime-current i fam since t w [] e h = absurd h
HasTime-current i fam since t w (x ∷ ws) e (inl (a, b, c, d)) = ground arith
HasTime-current i fam since t w (x ∷ ws) e (inr (n, h)) = elim (Bool-cases (x.id == w.id)) [
  | inl q ↦ absurd (n ((==_iff x.id w.id).0 q ∙ e))
  | inr q ↦ rw q (HasTime-current i fam since t w ws e h)
]

reach_all-refresh :
    (ts : Timestamp) (o : ObservedSet) (ks : List String)
    → (reach_all ts o ks).refresh_waiters ≡ o.refresh_waiters
unfolding reach_all reach_key
reach_all-refresh ts o [] = refl
reach_all-refresh ts o (k ∷ ks) = reach_all-refresh ts (reach_key ts o k) ks

unreach_all-refresh :
    (o : ObservedSet) (ks : List String) → (unreach_all o ks).refresh_waiters ≡ o.refresh_waiters
unfolding unreach_all unreach_key
unreach_all-refresh o [] = refl
unreach_all-refresh o (k ∷ ks) = unreach_all-refresh (unreach_key o k) ks

pub apply_update-refresh :
    (a : Bool) (ts : Timestamp) (r u : List PathNlri) (o : ObservedSet)
    → (apply_update a ts r u o).refresh_waiters ≡ o.refresh_waiters
unfolding apply_update count_update
apply_update-refresh a ts r u o =
    unreach_all-refresh (reach_all ts (count_update ts o) (map (nlri_key a) r)) (map (nlri_key a) u)
    ∙ reach_all-refresh ts (count_update ts o) (map (nlri_key a) r)

pub route_refresh-HasTime :
    (i fam since t g d : ℕ) (enhanced : Bool) (ts : Timestamp) (o : ObservedSet)
    → HasTime i fam since t o.refresh_waiters
    → HasTime i fam since
        (latest_after fam since t (route_refresh g d enhanced ts))
        (apply_route_refresh g d enhanced ts o).refresh_waiters
unfolding apply_route_refresh
route_refresh-HasTime i fam since t g d false ts o h = h
route_refresh-HasTime i fam since t g d true ts o h = elim (Bool-cases (d == 1)) [
  | inl begin ↦ let other : (d == 2) ≡ false = ground arith in rw (begin, other) h
  | inr not_begin ↦ elim (Bool-cases (d == 2)) [
    | inl end ↦ rw (not_begin, end) (HasTime-eorr i fam since t g ts o.refresh_waiters h)
    | inr not_end ↦ rw (not_begin, not_end) h
  ]
]
