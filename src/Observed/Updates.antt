-- ===== src/Observed/Updates.antt =====
-- internal/peer/recv.go: applyUpdate, notifyReach and notifyWithdraw.
use xk6_bgp.Base.{
  String, Bool, not, ◌&&◌, ◌||◌, Option, none, some, List, [], ◌∷◌, map, lookup, insert, delete,
  contains, if◌then◌else◌, string_eq,
}
use xk6_bgp.Clock.{Timestamp, is_zero, before, after}
use xk6_bgp.Observed.State.{PathNlri, Waiter, ObservedSet, inc64, is_empty, mark_done}

-- With ADD-PATH receive the key carries the Path Identifier.
abbrev pub nlri_key : Bool → PathNlri → String
nlri_key add_path n = if add_path then n.with_id else n.plain

-- The three parts of one round of notifyReach, in the order of the code.
strike : String → Timestamp → Waiter → Waiter
strike key fs w =
    if contains key w.pending
    then record w {
      pending = delete key w.pending;
      first = if is_zero w.first || before fs w.first then fs else w.first;
    }
    else w

stamp_last : Timestamp → Waiter → Waiter
stamp_last ts w = if is_zero w.last || after ts w.last then record w { last = ts } else w

done_if_empty : Waiter → Waiter
done_if_empty w = if is_empty w.pending then mark_done w else w

unfoldable pub reach_waiter : String → Timestamp → Timestamp → Waiter → Waiter
unfolding strike stamp_last done_if_empty
reach_waiter key fs ts w =
    if not (contains key w.want)
    then w
    else if not (is_zero w.only_after) && before fs w.only_after
    then w
    else done_if_empty (stamp_last ts (strike key fs w))

unfoldable pub notify_reach : String → Timestamp → Timestamp → ObservedSet → ObservedSet
notify_reach key fs ts o = record o { waiters = map (reach_waiter key fs ts) o.waiters }

unfoldable pub withdraw_waiter : String → Waiter → Waiter
withdraw_waiter key w =
    if not (contains key w.want) then w else record w { pending = insert key tt w.pending }

unfoldable pub notify_withdraw : String → ObservedSet → ObservedSet
notify_withdraw key o = record o { waiters = map (withdraw_waiter key) o.waiters }

-- A first observation is sticky.
abbrev pub first_seen_or : Timestamp → Option Timestamp → Timestamp
first_seen_or ts none = ts
first_seen_or ts (some fs) = fs

-- One round of the loop over `reach`.
unfoldable pub reach_key : Timestamp → ObservedSet → String → ObservedSet
unfolding notify_reach
reach_key ts o key =
    let fs = first_seen_or ts (lookup key o.first_seen) in
    notify_reach key fs ts (record o {
      first_seen = insert key fs o.first_seen;
      withdrawn = delete key o.withdrawn;
      advertise_n = inc64 o.advertise_n;
    })

-- One round of the loop over `unreach`.
unfoldable pub unreach_key : ObservedSet → String → ObservedSet
unfolding notify_withdraw
unreach_key o key =
    notify_withdraw key
      (record o { withdrawn = insert key tt o.withdrawn; withdraw_n = inc64 o.withdraw_n })

unfoldable pub reach_all : Timestamp → ObservedSet → List String → ObservedSet
reach_all ts o [] = o
reach_all ts o (k ∷ ks) = reach_all ts (reach_key ts o k) ks

unfoldable pub unreach_all : ObservedSet → List String → ObservedSet
unreach_all o [] = o
unreach_all o (k ∷ ks) = unreach_all (unreach_key o k) ks

unfoldable pub count_update : Timestamp → ObservedSet → ObservedSet
count_update ts o = record o {
  update_seq = inc64 o.update_seq;
  first_update = if is_zero o.first_update then ts else o.first_update;
  last_update_at = ts;
}

unfoldable pub apply_update :
    Bool → Timestamp → List PathNlri → List PathNlri → ObservedSet → ObservedSet
unfolding count_update reach_all unreach_all
apply_update add_path ts reach unreach o =
    unreach_all (reach_all ts (count_update ts o) (map (nlri_key add_path) reach))
      (map (nlri_key add_path) unreach)
