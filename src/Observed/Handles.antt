-- ===== src/Observed/Handles.antt =====
-- A registered waiter stays the object that its caller holds, until its caller removes it.
use xk6_bgp.Base.{
  ℕ, ◌+◌, ◌<◌, ◌≤◌, String, Bool, List, [], ◌∷◌, ◌++◌, ◌≡◌, refl, sym, subst, ap, map, arith, ◌==◌,
  ==_iff, Bool-cases, All, All-map, All-weaken, All-append, inl, inr, ◌≢◌, ◌⊎◌, Set, lookup,
  string_eq,
}
use xk6_bgp.Clock.{Timestamp}
use xk6_bgp.Observed.Tracks.{reach_waiter_frame, withdraw_waiter_frame}
use xk6_bgp.Observed.Register.{enroll_cases, aged, built, built_frame}
use xk6_bgp.Observed.State.{PathNlri, Waiter, ObservedSet, mark_done, fail}
use xk6_bgp.Observed.Updates.{
  nlri_key, first_seen_or, reach_waiter, withdraw_waiter, reach_key, unreach_key, reach_all,
  unreach_all, count_update, apply_update,
}
use xk6_bgp.Observed.Refresh.{
  apply_route_refresh, register_refresh_waiter, deregister_refresh_waiter,
}
use xk6_bgp.Observed.Waiters.{remove_waiter, deregister_waiter, register_waiter, current, enroll}
use xk6_bgp.Observed.Invariant.{remove_waiter-All}
use xk6_bgp.Observed.Events.{
  Event, update, route_refresh, session_fails, registers, deregisters, registers_refresh,
  deregisters_refresh, step, run,
}

-- Some waiter of the list has the address, the wanted routes and the cutoff.
abbrev pub Holds : ℕ → Set String → Timestamp → List Waiter → Type 0
Holds i want c [] = ⊥
Holds i want c (w ∷ ws) =
    ((w.id ≡ i) × (w.want ≡ want) × (w.only_after ≡ c)) ⊎ ((w.id ≢ i) × Holds i want c ws)

abbrev IsFrame : (Waiter → Waiter) → Type 0
IsFrame f =
    (w : Waiter) → ((f w).want ≡ w.want) × ((f w).only_after ≡ w.only_after) × ((f w).id ≡ w.id)

Holds-map :
    (i : ℕ) (want : Set String) (c : Timestamp) (f : Waiter → Waiter)
    → IsFrame f
    → (ws : List Waiter) → Holds i want c ws
    → Holds i want c (map f ws)
Holds-map i want c f h [] a = a
Holds-map i want c f h (w ∷ ws) (inl a) = inl (ground (arith, h w))
Holds-map i want c f h (w ∷ ws) (inr (n, a)) =
    inr (λ e. n (ground (arith, h w)), Holds-map i want c f h ws a)

Holds-append :
    (i : ℕ) (want : Set String) (c : Timestamp) (ws vs : List Waiter)
    → Holds i want c ws
    → Holds i want c (ws ++ vs)
Holds-append i want c [] vs a = absurd a
Holds-append i want c (w ∷ ws) vs (inl a) = inl a
Holds-append i want c (w ∷ ws) vs (inr (n, a)) = inr (n, Holds-append i want c ws vs a)

Holds-remove :
    (i j : ℕ) (want : Set String) (c : Timestamp)
    → j ≢ i
    → (ws : List Waiter) → Holds i want c ws
    → Holds i want c (remove_waiter j ws)
unfolding remove_waiter
Holds-remove i j want c n [] a = a
Holds-remove i j want c n (w ∷ ws) (inl a) = elim (Bool-cases (w.id == j)) [
  | inl e ↦ absurd (n (ground arith))
  | inr e ↦ rw e (inl a)
]
Holds-remove i j want c n (w ∷ ws) (inr (m, a)) = elim (Bool-cases (w.id == j)) [
  | inl e ↦ rw e a
  | inr e ↦ rw e (inr (m, Holds-remove i j want c n ws a))
]

-- Addresses are below the next one to be given out.
abbrev pub IsFresh : ObservedSet → Type 0
IsFresh o = All (λ w. w.id < o.next_id) o.waiters

pub Holds-last :
    (i : ℕ) (w : Waiter) (ws : List Waiter)
    → w.id ≡ i
    → All (λ x. x.id < i) ws
    → Holds i w.want w.only_after (ws ++ w ∷ [])
Holds-last i w [] e a = inl (e, refl, refl)
Holds-last i w (x ∷ ws) e (lt, a) = inr (λ q. omega arith, Holds-last i w ws e a)

-- The object that the caller reads is the registered one, so it has what holds of every one.
pub Holds-current :
    (P : Waiter → Type 0) (h : Waiter) (want : Set String) (c : Timestamp) (ws : List Waiter)
    → Holds h.id want c ws
    → All P ws
    → P (current h ws) × ((current h ws).want ≡ want) × ((current h ws).only_after ≡ c)
unfolding current
Holds-current P h want c [] a b = absurd a
Holds-current P h want c (w ∷ ws) (inl (p, q, r)) b = rw ((==_iff w.id h.id).1 p) (b.0, q, r)
Holds-current P h want c (w ∷ ws) (inr (n, a)) b = elim (Bool-cases (w.id == h.id)) [
  | inl e ↦ absurd (n ((==_iff w.id h.id).0 e))
  | inr e ↦ rw e (Holds-current P h want c ws a b.1)
]

-- What a call may do to the registered waiters: keep each one's identity, and add new ones last.
pub record Keeps (i : ℕ) (want : Set String) (c : Timestamp) (o p : ObservedSet) : Type 0 where
  pub holds : Holds i want c o.waiters → Holds i want c p.waiters
  pub fresh : IsFresh o → IsFresh p

Keeps-map :
    (i : ℕ) (want : Set String) (c : Timestamp) (f : Waiter → Waiter)
    → IsFrame f
    → (o p : ObservedSet) → p.waiters ≡ map f o.waiters
    → p.next_id ≡ o.next_id
    → Keeps i want c o p
Keeps-map i want c f h o p e n = record {
  holds = λ a. subst (Holds i want c) (sym e) (Holds-map i want c f h o.waiters a);
  fresh = λ a. subst (All (λ w. w.id < p.next_id)) (sym e) (
      All-map (λ w. w.id < o.next_id) (λ w. w.id < p.next_id) f (λ w lt. ground (arith, h w))
        o.waiters a);
}

Keeps-trans :
    (i : ℕ) (want : Set String) (c : Timestamp) (o p q : ObservedSet)
    → Keeps i want c o p
    → Keeps i want c p q
    → Keeps i want c o q
Keeps-trans i want c o p q k l = record {
  holds = λ a. l.holds (k.holds a);
  fresh = λ a. l.fresh (k.fresh a);
}

module _ (i : ℕ) (want : Set String) (c : Timestamp) where
  Keeps-reach_all :
      (ts : Timestamp) (o : ObservedSet) (ks : List String) → Keeps i want c o (reach_all ts o ks)
  unfolding reach_all reach_key
  Keeps-reach_all ts o [] = record { holds = λ a. a; fresh = λ a. a }
  Keeps-reach_all ts o (k ∷ ks) =
      let fs = first_seen_or ts (lookup k o.first_seen) in
      Keeps-trans i want c o (reach_key ts o k) (reach_all ts (reach_key ts o k) ks)
        (Keeps-map i want c (reach_waiter k fs ts) (reach_waiter_frame k fs ts) o (reach_key ts o k)
          refl refl)
        (Keeps-reach_all ts (reach_key ts o k) ks)

  Keeps-unreach_all : (o : ObservedSet) (ks : List String) → Keeps i want c o (unreach_all o ks)
  unfolding unreach_all unreach_key
  Keeps-unreach_all o [] = record { holds = λ a. a; fresh = λ a. a }
  Keeps-unreach_all o (k ∷ ks) =
      Keeps-trans i want c o (unreach_key o k) (unreach_all (unreach_key o k) ks)
        (Keeps-map i want c (withdraw_waiter k) (withdraw_waiter_frame k) o (unreach_key o k) refl
          refl)
        (Keeps-unreach_all (unreach_key o k) ks)

  Keeps-apply_update :
      (add_path : Bool) (ts : Timestamp) (reach unreach : List PathNlri) (o : ObservedSet)
      → Keeps i want c o (apply_update add_path ts reach unreach o)
  unfolding apply_update
  Keeps-apply_update add_path ts reach unreach o =
      let p = count_update ts o in
      let q = reach_all ts p (map (nlri_key add_path) reach) in
      Keeps-trans i want c o q (unreach_all q (map (nlri_key add_path) unreach))
        (Keeps-trans i want c o p q (record { holds = λ a. a; fresh = λ a. a })
          (Keeps-reach_all ts p (map (nlri_key add_path) reach)))
        (Keeps-unreach_all q (map (nlri_key add_path) unreach))

  Keeps-same :
      (o p : ObservedSet) → p.waiters ≡ o.waiters → o.next_id ≤ p.next_id → Keeps i want c o p
  Keeps-same o p e n = record {
    holds = subst (Holds i want c) (sym e);
    fresh = λ a. subst (All (λ w. w.id < p.next_id)) (sym e) (
        All-weaken (λ w. w.id < o.next_id) (λ w. w.id < p.next_id) (λ w lt. omega arith) o.waiters
          a);
  }

  Keeps-enroll : (o : ObservedSet) (w : Waiter) → w.id ≡ o.next_id → Keeps i want c o (enroll o w).0
  Keeps-enroll o w e = elim (enroll_cases o w) [
    | inl (_, q) ↦ rw q (Keeps-same o (aged o) refl (omega arith))
    | inr (_, _, q) ↦ rw q (record {
      holds = Holds-append i want c o.waiters (w ∷ []);
      fresh = λ a.
          All-append (λ x. x.id < o.next_id + 1) o.waiters (w ∷ [])
            (All-weaken (λ x. x.id < o.next_id) (λ x. x.id < o.next_id + 1) (λ x lt. omega arith)
              o.waiters a)
            (omega arith, tt);
    })
  ]

  Keeps-registers :
      (ks : List String) (d : Timestamp) (o : ObservedSet)
      → Keeps i want c o (register_waiter ks d o).0
  unfolding register_waiter
  Keeps-registers ks d o = Keeps-enroll o (built ks d o) ((built_frame ks d o).1)

  Keeps-registers_refresh :
      (fam : ℕ) (since : Timestamp) (o : ObservedSet)
      → Keeps i want c o (register_refresh_waiter fam since o).0
  unfolding register_refresh_waiter
  Keeps-registers_refresh fam since o =
      Keeps-same o (register_refresh_waiter fam since o).0 (ground arith) (ground arith)

  Keeps-route_refresh :
      (fam demarcation : ℕ) (enhanced : Bool) (ts : Timestamp) (o : ObservedSet)
      → Keeps i want c o (apply_route_refresh fam demarcation enhanced ts o)
  unfolding apply_route_refresh
  Keeps-route_refresh fam demarcation enhanced ts o =
      Keeps-same o (apply_route_refresh fam demarcation enhanced ts o) (ground arith) (ground arith)

  pub Keeps-step : (o : ObservedSet) (e : Event) → e ≢ deregisters i → Keeps i want c o (step o e)
  unfolding step
  Keeps-step o (update add_path ts reach unreach) n = Keeps-apply_update add_path ts reach unreach o
  Keeps-step o (route_refresh fam demarcation enhanced ts) n =
      Keeps-route_refresh fam demarcation enhanced ts o
  Keeps-step o (session_fails err) n =
      Keeps-map i want c mark_done (λ w. (refl, refl, refl)) o (fail err o) (unfold fail in refl)
        (unfold fail in refl)
  Keeps-step o (registers ks d) n = Keeps-registers ks d o
  Keeps-step o (deregisters j) n =
      unfold deregister_waiter in
      record {
        holds = Holds-remove i j want c (λ q. n (ap deregisters q)) o.waiters;
        fresh = remove_waiter-All (λ w. w.id < o.next_id) j o.waiters;
      }
  Keeps-step o (registers_refresh fam since) n = Keeps-registers_refresh fam since o
  Keeps-step o (deregisters_refresh j) n =
      unfold deregister_refresh_waiter in record { holds = λ a. a; fresh = λ a. a }

  pub Keeps-run :
      (o : ObservedSet) (es : List Event)
      → All (λ e. e ≢ deregisters i) es
      → Keeps i want c o (run o es)
  unfolding run
  Keeps-run o [] n = record { holds = λ a. a; fresh = λ a. a }
  Keeps-run o (e ∷ es) n =
      Keeps-trans i want c o (step o e) (run (step o e) es) (Keeps-step o e n.0)
        (Keeps-run (step o e) es n.1)
