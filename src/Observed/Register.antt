-- ===== src/Observed/Register.antt =====
-- registerWaiter sets a waiter up so that it tracks the routes from its first moment.
use xk6_bgp.Base.{
  ◌+◌, String, true, false, not, ◌&&◌, List, [], ◌∷◌, ◌++◌, ◌≡◌, refl, arith, lookup, contains,
  if◌then◌else◌, string_eq, contains-insert, All-weaken, All-append, ◌⊎◌, inl, inr,
}
use xk6_bgp.Clock.{Timestamp}
use xk6_bgp.Observed.State.{Waiter, ObservedSet, visible, is_empty, is_some, mark_done}
use xk6_bgp.Observed.Waiters.{register_key, register_keys, new_waiter, register_waiter, enroll}
use xk6_bgp.Observed.Visible.{same, has_key}
use xk6_bgp.Observed.Tracks.{Tracks, IsConsistent, Tracks-same}

-- A waiter under construction: it tracks what it asked for so far, and is not woken yet.
record Builds (o : ObservedSet) (w : Waiter) : Type 0 where
  pending_exact :
      (k : String)
      → contains k w.want ≡ true
      → contains k w.pending ≡ not (visible w.only_after k o)
  pending_wanted : (k : String) → contains k w.pending ≡ true → contains k w.want ≡ true

want-register_key :
    (o : ObservedSet) (w : Waiter) (p j : String)
    → contains j (register_key o w p).want ≡ (if same p j then true else contains j w.want)
unfolding register_key
want-register_key o w p j = ground (arith, contains-insert p j tt w.want)

pending-register_key :
    (o : ObservedSet) (w : Waiter) (p j : String)
    → contains j (register_key o w p).pending
      ≡ (if same p j && not (visible w.only_after p o) then true else contains j w.pending)
unfolding register_key visible
pending-register_key o w p j = ground (arith, contains-insert p j tt w.pending)

register_key_frame :
    (o : ObservedSet) (w : Waiter) (p : String)
    → ((register_key o w p).only_after ≡ w.only_after)
      × ((register_key o w p).id ≡ w.id)
      × ((register_key o w p).is_done ≡ w.is_done)
unfolding register_key
register_key_frame o w p = ground arith

register_exact :
    (o : ObservedSet) (w : Waiter) (p j : String)
    → (contains j w.want ≡ true → contains j w.pending ≡ not (visible w.only_after j o))
    → (contains j w.pending ≡ true → contains j w.want ≡ true)
    → contains j (register_key o w p).want ≡ true
    → contains j (register_key o w p).pending ≡ not (visible w.only_after j o)
register_exact o w p j h1 h2 wanted =
    ground (arith, want-register_key o w p j, pending-register_key o w p j, string_eq.beq_iff p j)

register_wanted :
    (o : ObservedSet) (w : Waiter) (p j : String)
    → (contains j w.pending ≡ true → contains j w.want ≡ true)
    → contains j (register_key o w p).pending ≡ true
    → contains j (register_key o w p).want ≡ true
register_wanted o w p j h e =
    ground (arith, want-register_key o w p j, pending-register_key o w p j)

Builds-register_key :
    (o : ObservedSet) (w : Waiter) (p : String) → Builds o w → Builds o (register_key o w p)
Builds-register_key o w p b = record {
  pending_exact = λ j wanted.
      rw ((register_key_frame o w p).0)
        (register_exact o w p j (b.pending_exact j) (b.pending_wanted j) wanted);
  pending_wanted = λ j e. register_wanted o w p j (b.pending_wanted j) e;
}

Builds-register_keys :
    (o : ObservedSet) (w : Waiter) (ps : List String) → Builds o w → Builds o (register_keys o w ps)
unfolding register_keys
Builds-register_keys o w [] b = b
Builds-register_keys o w (p ∷ ps) b =
    Builds-register_keys o (register_key o w p) ps (Builds-register_key o w p b)

want-register_keys :
    (o : ObservedSet) (w : Waiter) (ps : List String) (j : String)
    → contains j (register_keys o w ps).want ≡ (if has_key j ps then true else contains j w.want)
unfolding register_keys
want-register_keys o w [] j = refl
want-register_keys o w (p ∷ ps) j =
    ground (arith, want-register_keys o (register_key o w p) ps j, want-register_key o w p j)

register_keys_frame :
    (o : ObservedSet) (w : Waiter) (ps : List String)
    → ((register_keys o w ps).only_after ≡ w.only_after) × ((register_keys o w ps).id ≡ w.id)
unfolding register_keys
register_keys_frame o w [] = (refl, refl)
register_keys_frame o w (p ∷ ps) =
    ground (arith, register_keys_frame o (register_key o w p) ps, register_key_frame o w p)

Builds-new_waiter : (o : ObservedSet) (c : Timestamp) → Builds o (new_waiter o c)
unfolding new_waiter contains lookup
Builds-new_waiter o c = record { pending_exact = λ k e. ground arith; pending_wanted = λ k e. e }

-- The waiter that registerWaiter hands out.
abbrev pub handle : List String → Timestamp → ObservedSet → Waiter
handle want c o = (register_waiter want c o).1

abbrev pub built : List String → Timestamp → ObservedSet → Waiter
built want c o = register_keys o (new_waiter o c) want

built-Builds : (want : List String) (c : Timestamp) (o : ObservedSet) → Builds o (built want c o)
built-Builds want c o = Builds-register_keys o (new_waiter o c) want (Builds-new_waiter o c)

pub built_frame :
    (want : List String) (c : Timestamp) (o : ObservedSet)
    → ((built want c o).only_after ≡ c) × ((built want c o).id ≡ o.next_id)
unfolding new_waiter
built_frame want c o = register_keys_frame o (new_waiter o c) want

pub want-built :
    (want : List String) (c : Timestamp) (o : ObservedSet) (j : String)
    → contains j (built want c o).want ≡ has_key j want
unfolding new_waiter contains lookup
want-built want c o j = ground (arith, want-register_keys o (new_waiter o c) want j)

pub built-exact :
    (want : List String) (c : Timestamp) (o : ObservedSet) (j : String)
    → has_key j want ≡ true
    → contains j (built want c o).pending ≡ not (visible c j o)
built-exact want c o j wanted =
    let b = (built-Builds want c o).pending_exact j (rw (want-built want c o j) wanted) in
    ground (arith, b, built_frame want c o)

-- Registered or not, the handle asks for what the caller asked for and tracks the routes.
pub handle-exact :
    (want : List String) (c : Timestamp) (o : ObservedSet) (j : String)
    → has_key j want ≡ true
    → contains j (handle want c o).pending ≡ not (visible c j o)
unfolding register_waiter enroll
handle-exact want c o j wanted = ground (arith, built-exact want c o j wanted)

abbrev pub aged : ObservedSet → ObservedSet
aged o = record o { next_id = o.next_id + 1 }

abbrev pub appended : ObservedSet → Waiter → ObservedSet
appended o w = record o { next_id = o.next_id + 1; waiters = o.waiters ++ w ∷ [] }

pub enroll_cases :
    (o : ObservedSet) (w : Waiter)
    → (((is_empty w.pending ≡ true) ⊎ (is_some o.failed_err ≡ true))
        × (enroll o w ≡ (aged o, mark_done w)))
      ⊎ ((is_empty w.pending ≡ false)
          × (is_some o.failed_err ≡ false)
          × (enroll o w ≡ (appended o w, w)))
unfolding enroll
enroll_cases o w = ground arith

Tracks-built :
    (want : List String) (c : Timestamp) (o p : ObservedSet)
    → ((d : Timestamp) (k : String) → visible d k p ≡ visible d k o)
    → is_empty (built want c o).pending ≡ false
    → Tracks p (built want c o)
Tracks-built want c o p h e = Tracks-same o p (built want c o) h (record {
  pending_exact = (built-Builds want c o).pending_exact;
  pending_wanted = (built-Builds want c o).pending_wanted;
  woken = λ f. cc;
})

pub register_waiter-IsConsistent :
    (want : List String) (c : Timestamp) (o : ObservedSet)
    → IsConsistent o
    → IsConsistent (register_waiter want c o).0
unfolding register_waiter visible
register_waiter-IsConsistent want c o h = elim (enroll_cases o (built want c o)) [
  | inl (_, e) ↦ rw e (
      All-weaken (Tracks o) (Tracks (aged o)) (λ w t. Tracks-same o (aged o) w (λ d k. refl) t)
        o.waiters h)
  | inr (more, _, e) ↦
      let p = appended o (built want c o) in
      rw e (
        All-append (Tracks p) o.waiters (built want c o ∷ [])
          (All-weaken (Tracks o) (Tracks p) (λ w t. Tracks-same o p w (λ d k. refl) t) o.waiters h)
          (Tracks-built want c o p (λ d k. refl) more, tt))
]
