-- ===== src/Observed/Tracks.antt =====
-- The invariant of a registered waiter: what it still waits for is what is not visible.
use xk6_bgp.Base.{
  String, Bool, true, false, not, ◌&&◌, List, [], ◌∷◌, ◌≡◌, refl, map, arith, contains,
  if◌then◌else◌, string_eq, contains-insert, contains-delete, All, All-map, All-weaken, Set, insert,
}
use xk6_bgp.Clock.{Timestamp}
use xk6_bgp.Observed.State.{PathNlri, Waiter, ObservedSet, visible, passes, is_empty}
use xk6_bgp.Observed.Updates.{
  nlri_key, reach_waiter, withdraw_waiter, reach_key, unreach_key, reach_all, unreach_all,
  count_update, apply_update,
}
use xk6_bgp.Observed.Visible.{same, first_after, visible-reach_key, visible-unreach_key}

pub record Tracks (o : ObservedSet) (w : Waiter) : Type 0 where
  pub pending_exact :
      (k : String)
      → contains k w.want ≡ true
      → contains k w.pending ≡ not (visible w.only_after k o)
  pub pending_wanted : (k : String) → contains k w.pending ≡ true → contains k w.want ≡ true
  pub woken : is_empty w.pending ≡ true → w.is_done ≡ true

abbrev pub IsConsistent : ObservedSet → Type 0
IsConsistent o = All (Tracks o) o.waiters

pub pending-reach_waiter :
    (k : String) (fs ts : Timestamp) (w : Waiter) (j : String)
    → contains j (reach_waiter k fs ts w).pending ≡ (
        if contains k w.want && passes w.only_after fs && same k j
        then false
        else contains j w.pending)
unfolding reach_waiter
pending-reach_waiter k fs ts w j =
    ground (arith, contains-delete k j w.pending, string_eq.beq_iff k j)

pub reach_waiter_frame :
    (k : String) (fs ts : Timestamp) (w : Waiter)
    → ((reach_waiter k fs ts w).want ≡ w.want)
      × ((reach_waiter k fs ts w).only_after ≡ w.only_after)
      × ((reach_waiter k fs ts w).id ≡ w.id)
unfolding reach_waiter
reach_waiter_frame k fs ts w = ground arith

reach_waiter_woken :
    (k : String) (fs ts : Timestamp) (w : Waiter)
    → (is_empty w.pending ≡ true → w.is_done ≡ true)
    → is_empty (reach_waiter k fs ts w).pending ≡ true
    → (reach_waiter k fs ts w).is_done ≡ true
unfolding reach_waiter
reach_waiter_woken k fs ts w h e = ground arith

reach_exact :
    (ts : Timestamp) (o : ObservedSet) (k : String) (w : Waiter) (j : String)
    → contains j w.want ≡ true
    → contains j w.pending ≡ not (visible w.only_after j o)
    → contains j (reach_waiter k (first_after ts k o) ts w).pending
      ≡ not (visible w.only_after j (reach_key ts o k))
unfolding visible
reach_exact ts o k w j wanted h = ground (
  arith,
  pending-reach_waiter k (first_after ts k o) ts w j,
  visible-reach_key ts o k w.only_after j,
  string_eq.beq_iff k j,
)

Tracks-reach_waiter :
    (ts : Timestamp) (o : ObservedSet) (k : String) (w : Waiter)
    → Tracks o w
    → Tracks (reach_key ts o k) (reach_waiter k (first_after ts k o) ts w)
Tracks-reach_waiter ts o k w t = record {
  pending_exact = λ j wanted.
      let (same_want, same_cut, _) = reach_waiter_frame k (first_after ts k o) ts w in
      rw same_cut (
        reach_exact ts o k w j (rw same_want at wanted)
          (t.pending_exact j (rw same_want at wanted)));
  pending_wanted = λ j p.
      rw ((reach_waiter_frame k (first_after ts k o) ts w).0)
        (t.pending_wanted j (ground (arith, pending-reach_waiter k (first_after ts k o) ts w j)));
  woken = reach_waiter_woken k (first_after ts k o) ts w t.woken;
}

pending-withdraw_waiter :
    (k : String) (w : Waiter) (j : String)
    → contains j (withdraw_waiter k w).pending
      ≡ (if contains k w.want && same k j then true else contains j w.pending)
unfolding withdraw_waiter
pending-withdraw_waiter k w j = ground (arith, contains-insert k j tt w.pending)

pub withdraw_waiter_frame :
    (k : String) (w : Waiter)
    → ((withdraw_waiter k w).want ≡ w.want)
      × ((withdraw_waiter k w).only_after ≡ w.only_after)
      × ((withdraw_waiter k w).id ≡ w.id)
unfolding withdraw_waiter
withdraw_waiter_frame k w = ground arith

is_empty-insert : (k : String) (m : Set String) → is_empty (insert ⦃e = string_eq⦄ k tt m) ≡ false
unfolding insert
is_empty-insert k [] = refl
is_empty-insert k ((j, v) ∷ m) = ground arith

withdraw_waiter_woken :
    (k : String) (w : Waiter)
    → (is_empty w.pending ≡ true → w.is_done ≡ true)
    → is_empty (withdraw_waiter k w).pending ≡ true
    → (withdraw_waiter k w).is_done ≡ true
unfolding withdraw_waiter
withdraw_waiter_woken k w h e = ground (arith, is_empty-insert k w.pending)

withdraw_exact :
    (o : ObservedSet) (k : String) (w : Waiter) (j : String)
    → contains j w.want ≡ true
    → contains j w.pending ≡ not (visible w.only_after j o)
    → contains j (withdraw_waiter k w).pending ≡ not (visible w.only_after j (unreach_key o k))
withdraw_exact o k w j wanted h = ground (
  arith,
  pending-withdraw_waiter k w j,
  visible-unreach_key o k w.only_after j,
  string_eq.beq_iff k j,
)

withdraw_wanted :
    (k : String) (w : Waiter) (j : String)
    → (contains j w.pending ≡ true → contains j w.want ≡ true)
    → contains j (withdraw_waiter k w).pending ≡ true
    → contains j w.want ≡ true
withdraw_wanted k w j h p = ground (arith, pending-withdraw_waiter k w j, string_eq.beq_iff k j)

Tracks-withdraw_waiter :
    (o : ObservedSet) (k : String) (w : Waiter)
    → Tracks o w
    → Tracks (unreach_key o k) (withdraw_waiter k w)
Tracks-withdraw_waiter o k w t = record {
  pending_exact = λ j wanted.
      let (same_want, same_cut, _) = withdraw_waiter_frame k w in
      let wanted' = rw same_want at wanted in
      rw same_cut (withdraw_exact o k w j wanted' (t.pending_exact j wanted'));
  pending_wanted =
      λ j p. rw ((withdraw_waiter_frame k w).0) (withdraw_wanted k w j (t.pending_wanted j) p);
  woken = withdraw_waiter_woken k w t.woken;
}

-- A step that leaves the routes alone leaves a waiter's claim alone.
pub Tracks-same :
    (o p : ObservedSet) (w : Waiter)
    → ((c : Timestamp) (k : String) → visible c k p ≡ visible c k o)
    → Tracks o w
    → Tracks p w
Tracks-same o p w h t = record {
  pending_exact = λ k wanted. rw (h w.only_after k) (t.pending_exact k wanted);
  pending_wanted = t.pending_wanted;
  woken = t.woken;
}

reach_key-IsConsistent :
    (ts : Timestamp) (o : ObservedSet) (k : String)
    → IsConsistent o
    → IsConsistent (reach_key ts o k)
unfolding reach_key
reach_key-IsConsistent ts o k h =
    All-map (Tracks o) (Tracks (reach_key ts o k)) (reach_waiter k (first_after ts k o) ts)
      (Tracks-reach_waiter ts o k) o.waiters h

unreach_key-IsConsistent :
    (o : ObservedSet) (k : String) → IsConsistent o → IsConsistent (unreach_key o k)
unfolding unreach_key
unreach_key-IsConsistent o k h =
    All-map (Tracks o) (Tracks (unreach_key o k)) (withdraw_waiter k) (Tracks-withdraw_waiter o k)
      o.waiters h

reach_all-IsConsistent :
    (ts : Timestamp) (o : ObservedSet) (ks : List String)
    → IsConsistent o
    → IsConsistent (reach_all ts o ks)
unfolding reach_all
reach_all-IsConsistent ts o [] h = h
reach_all-IsConsistent ts o (k ∷ ks) h =
    reach_all-IsConsistent ts (reach_key ts o k) ks (reach_key-IsConsistent ts o k h)

unreach_all-IsConsistent :
    (o : ObservedSet) (ks : List String) → IsConsistent o → IsConsistent (unreach_all o ks)
unfolding unreach_all
unreach_all-IsConsistent o [] h = h
unreach_all-IsConsistent o (k ∷ ks) h =
    unreach_all-IsConsistent (unreach_key o k) ks (unreach_key-IsConsistent o k h)

pub apply_update-IsConsistent :
    (add_path : Bool) (ts : Timestamp) (reach unreach : List PathNlri) (o : ObservedSet)
    → IsConsistent o
    → IsConsistent (apply_update add_path ts reach unreach o)
unfolding apply_update visible
apply_update-IsConsistent add_path ts reach unreach o h =
    unreach_all-IsConsistent (reach_all ts (count_update ts o) (map (nlri_key add_path) reach))
      (map (nlri_key add_path) unreach)
      (reach_all-IsConsistent ts (count_update ts o) (map (nlri_key add_path) reach) (
        All-weaken (Tracks o) (Tracks (count_update ts o))
          (λ w t. Tracks-same o (count_update ts o) w (λ c k. refl) t) o.waiters h))
