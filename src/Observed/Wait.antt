-- ===== src/Observed/Wait.antt =====
-- What WaitForPrefixes returns, over everything that may happen while it blocks.
use xk6_bgp.Base.{
  ℕ, String, Bool, true, false, not, Option, none, List, [], ◌∷◌, ◌++◌, ◌≡◌, refl, sym, subst, ap,
  ◌∙◌, arith, if◌then◌else◌, All, inl, inr, ◌≢◌, Set, contains, lookup, string_eq, length, ◌↔◌,
  Bool-cases,
}
use xk6_bgp.Clock.{Timestamp}
use xk6_bgp.Observed.State.{SessionError, Waiter, ObservedSet, visible, is_empty}
use xk6_bgp.Observed.Waiters.{
  register_waiter, current, conclude, keys, WaitOutcome, WaitResult, returned, failed,
}
use xk6_bgp.Observed.Visible.{has_key}
use xk6_bgp.Observed.Tracks.{Tracks, IsConsistent}
use xk6_bgp.Observed.Register.{
  built, built_frame, built-exact, want-built, handle, enroll_cases, appended,
  register_waiter-IsConsistent,
}
use xk6_bgp.Observed.Events.{Event, deregisters, during_wait, wait_for_prefixes}
use xk6_bgp.Observed.Invariant.{run-IsConsistent}
use xk6_bgp.Observed.Handles.{Holds, IsFresh, Holds-current, Holds-last, Keeps-run}

abbrev pub is_returned : WaitOutcome → Bool
is_returned (returned r) = true
is_returned (failed r e) = false

abbrev pub result_of : WaitOutcome → WaitResult
result_of (returned r) = r
result_of (failed r e) = r

has_key-keys : (j : String) (m : Set String) → has_key j (keys m) ≡ contains j m
unfolding contains lookup
has_key-keys j [] = refl
has_key-keys j ((k, v) ∷ m) = ground (arith, has_key-keys j m)

-- The caller's object after the wait.
abbrev pub waited : List String → Timestamp → List Event → ObservedSet → Waiter
waited want c es o = current (handle want c o) (during_wait want c es o).waiters

not-is_empty : (k : String) (m : Set String) → contains k m ≡ true → is_empty m ≡ false
unfolding contains lookup
not-is_empty k [] h = sym h
not-is_empty k (x ∷ m) h = refl

some_key : (m : Set String) → is_empty m ≡ false → (k : String) × (contains k m ≡ true)
unfolding contains lookup
some_key [] e = cc
some_key ((k, v) ∷ m) e = (k, ground (arith, string_eq.beq_iff k k))

-- A route that is not there yet makes registerWaiter append the waiter.
handle_appended :
    (want : List String) (c : Timestamp) (o : ObservedSet) (k : String)
    → o.failed_err ≡ none
    → has_key k want ≡ true
    → visible c k o ≡ false
    → register_waiter want c o ≡ (appended o (built want c o), built want c o)
unfolding register_waiter
handle_appended want c o k f h v = elim (enroll_cases o (built want c o)) [
  | inl (inl e, _) ↦
      let p : contains k (built want c o).pending ≡ true =
        ground (arith, built-exact want c o k h) in
      cc (e, not-is_empty k (built want c o).pending p)
  | inl (inr e, _) ↦ ground arith
  | inr (_, _, q) ↦ q
]

module _ (want : List String) (c : Timestamp) (es : List Event) (o : ObservedSet) (k : String)
    (good : IsConsistent o) (fresh : IsFresh o) (up : o.failed_err ≡ none)
    (wanted : has_key k want ≡ true) (absent : visible c k o ≡ false)
    (ours : All (λ e. e ≢ deregisters o.next_id) es) where
  handle-id : (handle want c o).id ≡ o.next_id
  handle-id =
      ap (λ r. r.1.id) (handle_appended want c o k up wanted absent) ∙ (built_frame want c o).1

  handle-Holds : Holds o.next_id (built want c o).want c (register_waiter want c o).0.waiters
  handle-Holds =
      let (cut, ident) = built_frame want c o in
      let h : Holds o.next_id (built want c o).want (built want c o).only_after
          (o.waiters ++ built want c o ∷ []) =
        Holds-last o.next_id (built want c o) o.waiters ident fresh in
      rw (handle_appended want c o k up wanted absent) (
        subst (λ t. Holds o.next_id (built want c o).want t (o.waiters ++ built want c o ∷ [])) cut
          h)

  waited-Tracks :
      Tracks (during_wait want c es o) (waited want c es o)
      × ((waited want c es o).want ≡ (built want c o).want)
      × ((waited want c es o).only_after ≡ c)
  unfolding during_wait
  waited-Tracks =
      Holds-current (Tracks (during_wait want c es o)) (handle want c o) (built want c o).want c
        (during_wait want c es o).waiters
        (rw handle-id (
          (Keeps-run o.next_id (built want c o).want c (register_waiter want c o).0 es ours).holds
            handle-Holds))
        (run-IsConsistent (register_waiter want c o).0 es
          (register_waiter-IsConsistent want c o good))

  waited-exact :
      (j : String)
      → contains j (waited want c es o).pending
        ≡ (if has_key j want then not (visible c j (during_wait want c es o)) else false)
  waited-exact j =
      let (t, w, q) = waited-Tracks in
      ground (arith, t.pending_exact j, t.pending_wanted j, w, q, want-built want c o j)

  empty-all :
      is_empty (waited want c es o).pending ≡ true
      → (j : String) → has_key j want ≡ true
      → visible c j (during_wait want c es o) ≡ true
  empty-all e j w = ground (arith, waited-exact j, not-is_empty j (waited want c es o).pending)

  all-empty :
      ((j : String) → has_key j want ≡ true → visible c j (during_wait want c es o) ≡ true)
      → is_empty (waited want c es o).pending ≡ true
  all-empty all = elim (Bool-cases (is_empty (waited want c es o).pending)) [
    | inl e ↦ e
    | inr e ↦
        let (x, q) = some_key (waited want c es o).pending e in
        ground (arith, q, waited-exact x, all x)
  ]

conclude_missing :
    (n : ℕ) (w : Waiter) (f : Option SessionError)
    → ((result_of (conclude n w f)).missing ≡ keys w.pending)
      × (is_returned (conclude n w f) ≡ is_empty w.pending)
unfolding conclude
conclude_missing n w f = ground arith

-- For a call on a consistent set whose waiters have earlier addresses, with no failure recorded and
-- some wanted prefix not visible yet, while nobody else deregisters it: the missing prefixes are
-- exactly the wanted ones that are not visible at the snapshot, and the call succeeds exactly if
-- every wanted prefix is visible.
pub wait_exact :
    (want : List String) (c : Timestamp) (es : List Event) (o : ObservedSet) (k : String)
    → IsConsistent o
    → IsFresh o
    → o.failed_err ≡ none
    → has_key k want ≡ true
    → visible c k o ≡ false
    → All (λ e. e ≢ deregisters o.next_id) es
    → ((j : String)
        → has_key j (result_of (wait_for_prefixes want c es o).0).missing
          ≡ (if has_key j want then not (visible c j (during_wait want c es o)) else false))
      × ((is_returned (wait_for_prefixes want c es o).0 ≡ true)
          ↔ ((j : String) → has_key j want ≡ true → visible c j (during_wait want c es o) ≡ true))
unfolding wait_for_prefixes
wait_exact [] c es o k good fresh up wanted absent ours = cc
wait_exact (p ∷ ps) c es o k good fresh up wanted absent ours =
    let w = waited (p ∷ ps) c es o in
    let (missing, done) =
      conclude_missing (length (p ∷ ps)) w (during_wait (p ∷ ps) c es o).failed_err in
    (
      λ j. rw missing (
          has_key-keys j w.pending
          ∙ waited-exact (p ∷ ps) c es o k good fresh up wanted absent ours j),
      (
        λ r. empty-all (p ∷ ps) c es o k good fresh up wanted absent ours (sym done ∙ r),
        λ all. done ∙ all-empty (p ∷ ps) c es o k good fresh up wanted absent ours all,
      ),
    )

-- No wakeup is lost: under the conditions of `wait_exact`, when every wanted route is visible after
-- the calls that came in between, the waiter has been signalled.
pub wait_wakes :
    (want : List String) (c : Timestamp) (es : List Event) (o : ObservedSet) (k : String)
    → IsConsistent o
    → IsFresh o
    → o.failed_err ≡ none
    → has_key k want ≡ true
    → visible c k o ≡ false
    → All (λ e. e ≢ deregisters o.next_id) es
    → ((j : String) → has_key j want ≡ true → visible c j (during_wait want c es o) ≡ true)
    → (waited want c es o).is_done ≡ true
wait_wakes want c es o k good fresh up wanted absent ours all =
    (waited-Tracks want c es o k good fresh up wanted absent ours).0.woken
      (all-empty want c es o k good fresh up wanted absent ours all)
