-- ===== src/Observed/Waiters.antt =====
-- internal/peer/recv.go: registerWaiter, deregisterWaiter, WaitForPrefixes and Stats.
use xk6_bgp.Base.{
  ℕ, ◌+◌, ◌-◌, String, Bool, false, not, ◌&&◌, ◌||◌, Option, none, some, List, [], ◌∷◌, ◌++◌, Set,
  length, lookup, insert, contains, if◌then◌else◌, ◌==◌, string_eq,
}
use xk6_bgp.Clock.{Timestamp, no_time, is_zero, before, after}
use xk6_bgp.Observed.State.{SessionError, Waiter, ObservedSet, is_empty, is_some, mark_done, passes}

-- One round of the loop of registerWaiter, at a prefix that is observed with first time `fs`.
count_match : Timestamp → Waiter → Waiter
count_match fs w = record w {
  first = if is_zero w.first || before fs w.first then fs else w.first;
  last = if is_zero w.last || after fs w.last then fs else w.last;
}

await : String → Waiter → Waiter
await p w = record w { pending = insert p tt w.pending }

abbrev match_or_await : Bool → Option Timestamp → String → Waiter → Waiter
match_or_await gone none p w = await p w
match_or_await gone (some fs) p w =
    if not gone && passes w.only_after fs then count_match fs w else await p w

unfoldable pub register_key : ObservedSet → Waiter → String → Waiter
unfolding count_match await
register_key o w p =
    match_or_await (contains p o.withdrawn) (lookup p o.first_seen) p
      (record w { want = insert p tt w.want })

unfoldable pub register_keys : ObservedSet → Waiter → List String → Waiter
register_keys o w [] = w
register_keys o w (p ∷ ps) = register_keys o (register_key o w p) ps

unfoldable pub new_waiter : ObservedSet → Timestamp → Waiter
new_waiter o only_after = record {
  id = o.next_id;
  want = [];
  pending = [];
  only_after = only_after;
  first = no_time;
  last = no_time;
  is_done = false;
}

-- A waiter with nothing to wait for is not appended: only its caller holds it.
unfoldable pub enroll : ObservedSet → Waiter → ObservedSet × Waiter
enroll o w =
    if is_empty w.pending || is_some o.failed_err
    then (record o { next_id = o.next_id + 1 }, mark_done w)
    else (record o { next_id = o.next_id + 1; waiters = o.waiters ++ w ∷ [] }, w)

unfoldable pub register_waiter : List String → Timestamp → ObservedSet → ObservedSet × Waiter
register_waiter want only_after o = enroll o (register_keys o (new_waiter o only_after) want)

unfoldable pub remove_waiter : ℕ → List Waiter → List Waiter
remove_waiter i [] = []
remove_waiter i (w ∷ ws) = if w.id == i then ws else w ∷ remove_waiter i ws

unfoldable pub deregister_waiter : ℕ → ObservedSet → ObservedSet
deregister_waiter i o = record o { waiters = remove_waiter i o.waiters }

-- What the caller of registerWaiter sees through its pointer: the registered object, or, if the
-- set never appended it, the object as registerWaiter returned it.
unfoldable pub current : Waiter → List Waiter → Waiter
current w [] = w
current w (x ∷ xs) = if x.id == w.id then x else current w xs

pub record WaitResult : Type 0 where
  pub matched : ℕ
  pub missing : List String
  pub first_seen : Timestamp
  pub last_seen : Timestamp

pub data WaitError : Type 0 where
  session_not_ready no_prefixes : WaitError
  session_down : SessionError → ℕ → ℕ → WaitError
  timed_out : ℕ → ℕ → WaitError

pub data WaitOutcome : Type 0 where
  returned : WaitResult → WaitOutcome
  failed : WaitResult → WaitError → WaitOutcome

abbrev pub keys : Set String → List String
keys [] = []
keys ((k, _) ∷ m) = k ∷ keys m

-- `len(w.want) - len(missing)`; no key is pending that is not wanted, so `-` is exact.
unfoldable pub snapshot : Waiter → WaitResult
snapshot w = record {
  matched = length w.want - length (keys w.pending);
  missing = keys w.pending;
  first_seen = w.first;
  last_seen = w.last;
}

-- The end of WaitForPrefixes, after the select; `asked` is len(want).
unfoldable pub conclude : ℕ → Waiter → Option SessionError → WaitOutcome
unfolding snapshot
conclude asked w failure =
    let missing = length (keys w.pending) in
    if is_empty w.pending then returned (snapshot w) else elim failure [
      | some e ↦ failed (snapshot w) (session_down e missing asked)
      | none ↦ failed (snapshot w) (timed_out missing asked)
    ]

pub record Stats : Type 0 where
  pub updates : ℕ
  pub advertised_nlri : ℕ
  pub withdrawn_nlri : ℕ
  pub unique_prefixes : ℕ
  pub first_update_at : Timestamp
  pub last_update_at : Timestamp
  pub route_refreshes : ℕ
  pub borrs : ℕ
  pub eorrs : ℕ

unfoldable pub stats : ObservedSet → Stats
stats o = record {
  updates = o.update_seq;
  advertised_nlri = o.advertise_n;
  withdrawn_nlri = o.withdraw_n;
  unique_prefixes = length o.first_seen;
  first_update_at = o.first_update;
  last_update_at = o.last_update_at;
  route_refreshes = o.route_refresh_n;
  borrs = o.borr_n;
  eorrs = o.eorr_n;
}
