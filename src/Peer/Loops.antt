-- ===== src/Peer/Loops.antt =====
-- internal/peer/fsm.go: readLoop, keepaliveLoop, Close and fail; internal/peer/recv.go: what
-- readLoop does with an UPDATE or a ROUTE-REFRESH.
-- The goroutines of an open session take turns; an event is what one of them does next.
pub mod Quiet
pub mod Endings
pub mod Ends
pub mod Finish
pub mod Turns
pub mod Life
use xk6_bgp.Base.{
  ℕ, Bool, true, false, not, ◌&&◌, ◌||◌, Option, none, some, List, [], ◌∷◌, if◌then◌else◌, ◌==◌,
  String, ltb,
}
use xk6_bgp.Base.Bits.{bit0}
use xk6_bgp.Clock.{Timestamp}
use xk6_bgp.Packet.Route.{Family, rf_ipv4_uc}
use xk6_bgp.Observed.State.{
  SessionError, hold_timer_expired, read_failed, keepalive_failed, peer_rejected, ObservedSet,
  PathNlri,
}
use xk6_bgp.Observed.Updates.{apply_update}
use xk6_bgp.Observed.Refresh.{apply_route_refresh}
use xk6_bgp.Observed.Waiters.{register_waiter, deregister_waiter}
use xk6_bgp.Observed.State
use xk6_bgp.Peer.Negotiate.{Session, mode_of}
use xk6_bgp.Peer.Fsm.{
  State, idle, established, same_state, UpdateAttribute, mp_reach, mp_unreach, other_attribute,
  UpdateBody, Body, bgp_open, keepalive, notification, update, route_refresh, Fsm, write,
  wrote_keepalive, wrote_notification, ReaderPc, testing, reading, ended, Ending, nothing_left,
  ceasing, cancelling, closing_conn, storing_idle, recording, reader_in_fail, KeepalivePc, ticking,
  stopped, keepalive_in_fail, watcher_turn,
}

unfoldable pub add_path_receive : Session → Family → Bool
add_path_receive s fam = bit0 (mode_of fam s.add_path)

unfoldable pub dispatch_attribute :
    Session → Timestamp → UpdateAttribute → ObservedSet → ObservedSet
dispatch_attribute s ts (mp_reach fam v) o = apply_update (add_path_receive s fam) ts v [] o
dispatch_attribute s ts (mp_unreach fam v) o = apply_update (add_path_receive s fam) ts [] v o
dispatch_attribute s ts other_attribute o = o

unfoldable pub dispatch_attributes :
    Session → Timestamp → List UpdateAttribute → ObservedSet → ObservedSet
dispatch_attributes s ts [] o = o
dispatch_attributes s ts (a ∷ as') o = dispatch_attributes s ts as' (dispatch_attribute s ts a o)

abbrev pub has_any : List PathNlri → Bool
has_any [] = false
has_any (n ∷ ns) = true

unfoldable pub dispatch_update : Session → UpdateBody → Timestamp → ObservedSet → ObservedSet
unfolding dispatch_attributes
dispatch_update s u ts o =
    let o' = dispatch_attributes s ts u.path_attributes o in
    if has_any u.nlri || has_any u.withdrawn_routes
    then apply_update (add_path_receive s rf_ipv4_uc) ts u.nlri u.withdrawn_routes o'
    else o'

unfoldable pub dispatch_route_refresh : Session → Family → ℕ → Timestamp → ObservedSet → ObservedSet
dispatch_route_refresh s fam demarcation ts o =
    apply_route_refresh fam demarcation s.enhanced_refresh ts o

-- fail and the tail of Close take one step after the other, and others may come between: the next
-- state, and what is left to do.
unfoldable pub ending_step : Ending → Fsm → Fsm × Ending
ending_step nothing_left f = (f, nothing_left)
ending_step (ceasing seen) f = (
  (if f.has_conn && same_state seen established then write (wrote_notification 6 2) f else f),
  cancelling none,
)
ending_step (cancelling e) f =
    (record f { loops_cancelled = f.loops_started || f.loops_cancelled }, closing_conn e)
ending_step (closing_conn none) f = (record f { is_open = false }, nothing_left)
ending_step (closing_conn (some e)) f = (record f { is_open = false }, storing_idle e)
ending_step (storing_idle e) f = (record f { state = idle }, recording e)
ending_step (recording e) f =
    (record f { observed = xk6_bgp.Observed.State.fail e f.observed }, nothing_left)

-- The call of fail by readLoop, which ends with it, and that by keepaliveLoop.
unfoldable pub reader_fails : SessionError → Fsm → Fsm
reader_fails e f = record f { reader = reader_in_fail (cancelling (some e)) }

unfoldable pub keepalive_fails : SessionError → Fsm → Fsm
keepalive_fails e f = record f { keepalive_loop = keepalive_in_fail (cancelling (some e)) }

-- `seen` is the state that Close loaded first; the swap succeeds if it is still the state.
unfoldable pub close_from : State → Fsm → Fsm
close_from seen f =
    if same_state seen idle
    then f
    else if not (same_state f.state seen)
    then f
    else record f { state = idle; closing = ceasing seen }

pub data ReadResult : Type 0 where
  read_message : Timestamp → Body → ReadResult
  -- a net.Error with Timeout, or any other
  times_out fails : ReadResult

unfoldable pub on_read_error : Bool → Fsm → Fsm
unfolding reader_fails
on_read_error timed_out f =
    if f.loops_cancelled
    then record f { reader = ended }
    else if timed_out && ltb 0 f.session.negotiated_hold
    then reader_fails hold_timer_expired (write (wrote_notification 4 0) f)
    else reader_fails read_failed f

unfoldable pub on_read_message : Timestamp → Body → Fsm → Fsm
unfolding reader_fails dispatch_update dispatch_route_refresh
on_read_message ts (update u) f = record f {
  reader = testing;
  observed = dispatch_update f.session u ts f.observed;
}
on_read_message ts (route_refresh fam d) f = record f {
  reader = testing;
  observed = dispatch_route_refresh f.session fam d ts f.observed;
}
on_read_message ts keepalive f = record f { reader = testing }
on_read_message ts (notification c s) f = reader_fails (peer_rejected c s) f
on_read_message ts (bgp_open m) f = record f { reader = testing }

unfoldable pub on_read : ReadResult → Fsm → Fsm
unfolding on_read_message on_read_error
on_read (read_message ts m) f = on_read_message ts m f
on_read times_out f = on_read_error true f
on_read fails f = on_read_error false f

-- The test of the context at the top of the loop of readLoop.
unfoldable pub test_context : Fsm → Fsm
test_context f =
    if f.loops_cancelled then record f { reader = ended } else record f { reader = reading }

abbrev pub is_ticking : KeepalivePc → Bool
is_ticking ticking = true
is_ticking _ = false

unfoldable pub tick : Bool → Fsm → Fsm
unfolding keepalive_fails
tick is_written f =
    let g = write wrote_keepalive f in
    if not (is_ticking f.keepalive_loop && ltb 0 f.session.keepalive_tick)
    then f
    else if is_written
    then g
    else keepalive_fails keepalive_failed g

-- What happens next: a turn of readLoop, the result of its read, a tick of keepaliveLoop with
-- the fate of its write, the end of that loop by its context, a Close that had seen a state, the
-- next step of a loop's fail or of that Close, the end of the context that Open was called with, the
-- end of the handshake's watcher, or another goroutine that starts or ends a wait.
pub data SessionEvent : Type 0 where
  tests : SessionEvent
  reads : ReadResult → SessionEvent
  ticks : Bool → SessionEvent
  keepalive_ends : SessionEvent
  closes : State → SessionEvent
  reader_fail_goes_on keepalive_fail_goes_on close_goes_on : SessionEvent
  parent_ends : SessionEvent
  watcher_ends : Bool → SessionEvent
  waits : List String → Timestamp → SessionEvent
  leaves : ℕ → SessionEvent

unfoldable pub reader_turn : SessionEvent → ReaderPc → Fsm → Fsm
unfolding on_read test_context
reader_turn tests testing f = test_context f
reader_turn (reads r) reading f = on_read r f
reader_turn e p f = f

unfoldable pub reader_fail_step : ReaderPc → Fsm → Fsm
unfolding ending_step
reader_fail_step (reader_in_fail x) f =
    let r = ending_step x f in record (r.0) { reader = reader_in_fail r.1 }
reader_fail_step p f = f

unfoldable pub keepalive_fail_step : KeepalivePc → Fsm → Fsm
unfolding ending_step
keepalive_fail_step (keepalive_in_fail x) f =
    let r = ending_step x f in record (r.0) { keepalive_loop = keepalive_in_fail r.1 }
keepalive_fail_step p f = f

unfoldable pub keepalive_stop : KeepalivePc → Fsm → Fsm
keepalive_stop ticking f = if f.loops_cancelled then record f { keepalive_loop = stopped } else f
keepalive_stop p f = f

unfoldable pub session_step : Fsm → SessionEvent → Fsm
unfolding reader_turn tick close_from reader_fail_step keepalive_fail_step keepalive_stop
    ending_step
session_step f tests = reader_turn tests f.reader f
session_step f (reads r) = reader_turn (reads r) f.reader f
session_step f (ticks written) = tick written f
session_step f keepalive_ends = keepalive_stop f.keepalive_loop f
session_step f (closes seen) = close_from seen f
session_step f reader_fail_goes_on = reader_fail_step f.reader f
session_step f keepalive_fail_goes_on = keepalive_fail_step f.keepalive_loop f
session_step f close_goes_on = let r = ending_step f.closing f in record (r.0) { closing = r.1 }
session_step f parent_ends = record f {
  parent_cancelled = true;
  loops_cancelled = f.loops_started || f.loops_cancelled;
}
session_step f (watcher_ends chosen) = watcher_turn chosen f
session_step f (waits want c) = record f { observed = (register_waiter want c f.observed).0 }
session_step f (leaves i) = record f { observed = deregister_waiter i f.observed }

unfoldable pub session_run : Fsm → List SessionEvent → Fsm
session_run f [] = f
session_run f (e ∷ es) = session_run (session_step f e) es
