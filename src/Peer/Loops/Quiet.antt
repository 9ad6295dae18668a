-- ===== src/Peer/Loops/Quiet.antt =====
-- The calls on the receiver state that a session makes while it is up.
use xk6_bgp.Base.{ℕ, String, Bool, ◌||◌, List, [], ◌∷◌, ◌≡◌, refl, ◌∙◌, arith, Bool-cases, inl, inr}
use xk6_bgp.Clock.{Timestamp}
use xk6_bgp.Packet.Route.{rf_ipv4_uc}
use xk6_bgp.Observed.State.{ObservedSet, PathNlri}
use xk6_bgp.Observed.Updates.{
  reach_all, reach_key, unreach_all, unreach_key, count_update, apply_update, nlri_key,
}
use xk6_bgp.Observed.Refresh.{apply_route_refresh}
use xk6_bgp.Observed.Waiters.{register_waiter, enroll, deregister_waiter}
use xk6_bgp.Observed.Events.{
  step, update as updates, route_refresh as refreshes, registers, deregisters,
}
use xk6_bgp.Observed.Release.{IsReleased, step-IsReleased}
use xk6_bgp.Base.{map}
use xk6_bgp.Peer.Negotiate.{Session}
use xk6_bgp.Peer.Fsm.{UpdateAttribute, mp_reach, mp_unreach, other_attribute, UpdateBody}
use xk6_bgp.Peer.Loops.{
  add_path_receive, dispatch_attribute, dispatch_attributes, dispatch_update,
  dispatch_route_refresh, has_any,
}

-- A call that records no failure, and leaves nobody unsignalled after one.
abbrev pub Quiet : ObservedSet → ObservedSet → Type 0
Quiet o p = (p.failed_err ≡ o.failed_err) × (IsReleased o → IsReleased p)

Quiet-trans : (o p q : ObservedSet) → Quiet o p → Quiet p q → Quiet o q
Quiet-trans o p q a b = (b.0 ∙ a.0, λ h. b.1 (a.1 h))

failed-reach_all :
    (ts : Timestamp) (o : ObservedSet) (ks : List String)
    → (reach_all ts o ks).failed_err ≡ o.failed_err
unfolding reach_all reach_key
failed-reach_all ts o [] = refl
failed-reach_all ts o (k ∷ ks) = failed-reach_all ts (reach_key ts o k) ks

failed-unreach_all :
    (o : ObservedSet) (ks : List String) → (unreach_all o ks).failed_err ≡ o.failed_err
unfolding unreach_all unreach_key
failed-unreach_all o [] = refl
failed-unreach_all o (k ∷ ks) = failed-unreach_all (unreach_key o k) ks

apply_update-Quiet :
    (a : Bool) (ts : Timestamp) (r u : List PathNlri) (o : ObservedSet)
    → Quiet o (apply_update a ts r u o)
unfolding apply_update step count_update
apply_update-Quiet a ts r u o = (
  failed-unreach_all (reach_all ts (count_update ts o) (map (nlri_key a) r)) (map (nlri_key a) u)
      ∙ failed-reach_all ts (count_update ts o) (map (nlri_key a) r),
  step-IsReleased o (updates a ts r u),
)

dispatch_attribute-Quiet :
    (s : Session) (ts : Timestamp) (a : UpdateAttribute) (o : ObservedSet)
    → Quiet o (dispatch_attribute s ts a o)
unfolding dispatch_attribute
dispatch_attribute-Quiet s ts (mp_reach fam v) o =
    apply_update-Quiet (add_path_receive s fam) ts v [] o
dispatch_attribute-Quiet s ts (mp_unreach fam v) o =
    apply_update-Quiet (add_path_receive s fam) ts [] v o
dispatch_attribute-Quiet s ts other_attribute o = (refl, λ h. h)

dispatch_attributes-Quiet :
    (s : Session) (ts : Timestamp) (xs : List UpdateAttribute) (o : ObservedSet)
    → Quiet o (dispatch_attributes s ts xs o)
unfolding dispatch_attributes
dispatch_attributes-Quiet s ts [] o = (refl, λ h. h)
dispatch_attributes-Quiet s ts (x ∷ xs) o =
    Quiet-trans o (dispatch_attribute s ts x o)
      (dispatch_attributes s ts xs (dispatch_attribute s ts x o))
      (dispatch_attribute-Quiet s ts x o)
      (dispatch_attributes-Quiet s ts xs (dispatch_attribute s ts x o))

pub dispatch_update-Quiet :
    (s : Session) (u : UpdateBody) (ts : Timestamp) (o : ObservedSet)
    → Quiet o (dispatch_update s u ts o)
unfolding dispatch_update
dispatch_update-Quiet s u ts o =
    let p = dispatch_attributes s ts u.path_attributes o in
    let q = dispatch_attributes-Quiet s ts u.path_attributes o in
    elim (Bool-cases (has_any u.nlri || has_any u.withdrawn_routes)) [
      | inl e ↦ rw e (
          Quiet-trans o p
            (apply_update (add_path_receive s rf_ipv4_uc) ts u.nlri u.withdrawn_routes p) q
            (apply_update-Quiet (add_path_receive s rf_ipv4_uc) ts u.nlri u.withdrawn_routes p))
      | inr e ↦ rw e q
    ]

pub route_refresh-Quiet :
    (s : Session) (fam d : ℕ) (ts : Timestamp) (o : ObservedSet)
    → Quiet o (dispatch_route_refresh s fam d ts o)
unfolding dispatch_route_refresh apply_route_refresh step
route_refresh-Quiet s fam d ts o =
    (ground arith, step-IsReleased o (refreshes fam d s.enhanced_refresh ts))

pub register_waiter-Quiet :
    (want : List String) (c : Timestamp) (o : ObservedSet) → Quiet o (register_waiter want c o).0
unfolding register_waiter enroll step
register_waiter-Quiet want c o = (ground arith, step-IsReleased o (registers want c))

pub deregister_waiter-Quiet : (i : ℕ) (o : ObservedSet) → Quiet o (deregister_waiter i o)
unfolding deregister_waiter step
deregister_waiter-Quiet i o = (refl, step-IsReleased o (deregisters i))
