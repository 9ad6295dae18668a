-- ===== src/Observed/State.antt =====
-- internal/peer/recv.go: observedSet, waiter and refreshWaiter, and fail.
use xk6_bgp.Base.{
  ℕ, ◌+◌, ◌%◌, ◌^◌, String, Bool, true, false, not, ◌&&◌, ◌||◌, Option, none, some, List, [], ◌∷◌,
  map, Map, Set, lookup, contains, string_eq,
}
use xk6_bgp.Clock.{Timestamp, no_time, is_zero, before}

-- What ends a session: the errors that fsm.go hands to fail.
pub data SessionError : Type 0 where
  peer_rejected : ℕ → ℕ → SessionError
  hold_timer_expired read_failed keepalive_failed : SessionError

-- A received NLRI with its Path Identifier, by the two texts that gobgp gives for it:
-- NLRI.String() and PathNLRI.String().
pub record PathNlri : Type 0 where
  pub plain : String
  pub with_id : String

pub record Waiter : Type 0 where
  pub id : ℕ
  pub want : Set String
  pub pending : Set String
  pub only_after : Timestamp
  pub first : Timestamp
  pub last : Timestamp
  pub is_done : Bool

pub record RefreshWaiter : Type 0 where
  pub id : ℕ
  pub family : ℕ
  pub since : Timestamp
  pub ts : Timestamp
  pub is_done : Bool

pub record ObservedSet : Type 0 where
  pub failed_err : Option SessionError
  pub first_seen : Map String Timestamp
  pub withdrawn : Set String
  pub update_seq : ℕ
  pub advertise_n : ℕ
  pub withdraw_n : ℕ
  pub last_update_at : Timestamp
  pub first_update : Timestamp
  pub waiters : List Waiter
  pub route_refresh_n : ℕ
  pub borr_n : ℕ
  pub eorr_n : ℕ
  pub last_eorr : Map ℕ Timestamp
  pub refresh_waiters : List RefreshWaiter
  -- the address of the next waiter
  pub next_id : ℕ

-- uint64 increment
abbrev pub inc64 : ℕ → ℕ
inc64 n = (n + 1) % 2 ^ 64

abbrev pub is_empty {ℓ} : {A : Type ℓ} → List A → Bool
is_empty [] = true
is_empty (x ∷ xs) = false

abbrev pub is_some {ℓ} : {A : Type ℓ} → Option A → Bool
is_some none = false
is_some (some a) = true

unfoldable pub new_observed_set : ObservedSet
new_observed_set = record {
  failed_err = none;
  first_seen = [];
  withdrawn = [];
  update_seq = 0;
  advertise_n = 0;
  withdraw_n = 0;
  last_update_at = no_time;
  first_update = no_time;
  waiters = [];
  route_refresh_n = 0;
  borr_n = 0;
  eorr_n = 0;
  last_eorr = [];
  refresh_waiters = [];
  next_id = 0;
}

-- markDone closes the channel once; a second call changes nothing.
abbrev pub mark_done : Waiter → Waiter
mark_done w = record w { is_done = true }

abbrev pub mark_refresh_done : RefreshWaiter → RefreshWaiter
mark_refresh_done w = record w { is_done = true }

-- The first error is kept, and every blocked waiter is released.
unfoldable pub fail : SessionError → ObservedSet → ObservedSet
fail err o = record o {
  failed_err = elim o.failed_err [ none ↦ some err | some first ↦ some first ];
  waiters = map mark_done o.waiters;
  refresh_waiters = map mark_refresh_done o.refresh_waiters;
}

unfoldable pub failure_cause : ObservedSet → Option SessionError
failure_cause o = o.failed_err

-- A time passes the cutoff of a waiter: there is none, or the time is not before it.
abbrev pub passes : Timestamp → Timestamp → Bool
passes cutoff fs = is_zero cutoff || not (before fs cutoff)

-- What WaitForPrefixes promises to wait for: the route is known, not withdrawn, and its first
-- observation passes the cutoff.
unfoldable pub visible : Timestamp → String → ObservedSet → Bool
visible cutoff k o = elim (lookup k o.first_seen) [
  | none ↦ false
  | some fs ↦ not (contains k o.withdrawn) && passes cutoff fs
]
