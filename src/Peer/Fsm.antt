-- ===== src/Peer/Fsm.antt =====
-- internal/peer/fsm.go: the state machine of a session up to Established, and its end.
-- What the connection, the clock and the context answer is an input of each call.
pub mod Handshake
pub mod Opening
use xk6_bgp.Base.{
  ℕ, ◌+◌, Bool, true, false, not, ◌&&◌, ◌||◌, Option, none, some, List, [], ◌∷◌, ◌++◌,
  if◌then◌else◌, ◌==◌, Result, ok, err,
}
use xk6_bgp.Clock.{Timestamp}
use xk6_bgp.Packet.Route.{Family}
use xk6_bgp.Observed.State.{PathNlri, SessionError, ObservedSet, new_observed_set}
use xk6_bgp.Peer.Config.{Config, OpenMessage, OpenError, NewOpen, build_open}
use xk6_bgp.Peer.Negotiate.{Session, OpenReject, new_session, subcode, accept_peer_open}

pub data State : Type 0 where
  idle active open_sent open_confirm established : State

abbrev pub state_code : State → ℕ
state_code idle = 0
state_code active = 1
state_code open_sent = 2
state_code open_confirm = 3
state_code established = 4

abbrev pub same_state : State → State → Bool
same_state a b = state_code a == state_code b

pub data UpdateAttribute : Type 0 where
  mp_reach mp_unreach : Family → List PathNlri → UpdateAttribute
  other_attribute : UpdateAttribute

pub record UpdateBody : Type 0 where
  pub path_attributes : List UpdateAttribute
  pub nlri : List PathNlri
  pub withdrawn_routes : List PathNlri

-- The bodies of gobgp's messages.
pub data Body : Type 0 where
  bgp_open : OpenMessage → Body
  keepalive : Body
  notification : ℕ → ℕ → Body
  update : UpdateBody → Body
  route_refresh : Family → ℕ → Body

-- What was handed to conn.Write, whether or not it went out.
pub data Written : Type 0 where
  wrote_open : OpenMessage → Written
  wrote_keepalive : Written
  wrote_notification : ℕ → ℕ → Written

-- What a call of fail, with its error, or the rest of a Close has still to do: to write the Cease,
-- to cancel the loops, to close the connection, to store Idle, to record the error.
pub data Ending : Type 0 where
  nothing_left : Ending
  ceasing : State → Ending
  cancelling closing_conn : Option SessionError → Ending
  storing_idle recording : SessionError → Ending

-- Where readLoop stands: about to test its context, blocked in a read, ended, or in fail.
pub data ReaderPc : Type 0 where
  testing reading ended : ReaderPc
  reader_in_fail : Ending → ReaderPc

pub data KeepalivePc : Type 0 where
  ticking stopped : KeepalivePc
  keepalive_in_fail : Ending → KeepalivePc

pub record Fsm : Type 0 where
  pub cfg : Config
  pub state : State
  -- f.conn is set, and is not closed
  pub has_conn : Bool
  pub is_open : Bool
  pub session : Session
  pub written : List Written
  pub loops_started : Bool
  pub loops_cancelled : Bool
  pub reader : ReaderPc
  pub keepalive_loop : KeepalivePc
  -- the call of Close that won
  pub closing : Ending
  -- the context of the call of Open, and the goroutine that watches it during the handshake
  pub parent_cancelled : Bool
  pub is_watched : Bool
  pub has_established_at : Bool
  pub observed : ObservedSet

unfoldable pub new_fsm : Config → Fsm
new_fsm cfg = record {
  cfg = cfg;
  state = idle;
  has_conn = false;
  is_open = false;
  session = new_session;
  written = [];
  loops_started = false;
  loops_cancelled = false;
  reader = ended;
  keepalive_loop = stopped;
  closing = nothing_left;
  parent_cancelled = false;
  is_watched = false;
  has_established_at = false;
  observed = new_observed_set;
}

abbrev pub write : Written → Fsm → Fsm
write w f = record f { written = f.written ++ w ∷ [] }

-- conn.Close() and setState(StateIdle), the way every failure of Open ends.
unfoldable pub give_up : Fsm → Fsm
give_up f = record f { is_open = false; state = idle }

-- One round of the loop of handshake: what ReadMessage gives, and what the context, the
-- connection and the clock answer in this round.
pub record Round : Type 0 where
  pub read : Option Body
  pub is_cancelled : Bool
  pub is_written : Bool
  pub is_late : Bool

pub data HandshakeError : Type 0 where
  read_failed cancelled duplicate_open send_keepalive_failed keepalive_before_open : HandshakeError
  unexpected_message open_timeout : HandshakeError
  rejected : OpenReject → HandshakeError
  peer_rejected : ℕ → ℕ → HandshakeError

-- gotPeerOpen and gotPeerKA after the switch, or the error that it returns.
pub data Progress : Type 0 where
  got : Bool → Bool → Progress
  stops : HandshakeError → Progress

-- The rest of the OPEN case, after acceptPeerOpen.
unfoldable pub answer_open : Fsm → Bool → Bool → Session × Option OpenReject → Fsm × Progress
answer_open f written ka (s, some e) =
    (write (wrote_notification 2 (subcode e)) (record f { session = s }), stops (rejected e))
answer_open f written ka (s, none) =
    if written
    then (write wrote_keepalive (record f { session = s; state = open_confirm }), got true ka)
    else (write wrote_keepalive (record f { session = s }), stops send_keepalive_failed)

unfoldable pub on_message : Fsm → Bool → Bool → Bool → Body → Fsm × Progress
unfolding answer_open
on_message f written true ka (bgp_open m) = (f, stops duplicate_open)
on_message f written false ka (bgp_open m) =
    answer_open f written ka (accept_peer_open f.cfg m f.session)
on_message f written true ka keepalive = (f, got true true)
on_message f written false ka keepalive = (f, stops keepalive_before_open)
on_message f written o ka (notification c s) = (f, stops (peer_rejected c s))
on_message f written o ka (update u) = (f, stops unexpected_message)
on_message f written o ka (route_refresh fam d) = (f, stops unexpected_message)

unfoldable pub on_round : Fsm → Bool → Bool → Round → Option Body → Fsm × Progress
unfolding on_message
on_round f o ka r none = (f, stops read_failed)
on_round f o ka r (some m) =
    if r.is_cancelled then (f, stops cancelled) else on_message f r.is_written o ka m

pub data Outcome : Type 0 where
  -- the rounds are used up: the call is blocked in the next read
  blocked : Outcome
  is_established : Outcome
  failed : HandshakeError → Outcome

abbrev pub establish : Fsm → Fsm
establish f = record f { state = established; has_established_at = true }

unfoldable pub continue :
    (Fsm → Bool → Bool → Fsm × Outcome) → Bool → Fsm × Progress → Fsm × Outcome
continue rest late (f, stops e) = (f, failed e)
continue rest late (f, got o ka) =
    if o && ka
    then (establish f, is_established)
    else if late
    then (f, failed open_timeout)
    else rest f o ka

unfoldable pub handshake : List Round → Fsm → Bool → Bool → Fsm × Outcome
unfolding on_round continue
handshake [] f o ka = (f, blocked)
handshake (r ∷ rs) f o ka =
    let rest = handshake rs in continue rest r.is_late (on_round f o ka r r.read)

-- What Open meets around the handshake. The last two are for a handshake that succeeds: whether its
-- context is cancelled after the handshake's last test of it and before Open returns, and whether
-- the watcher has ended by then, the flag telling whether it took the branch of the context.
pub record Dial : Type 0 where
  pub is_connected : Bool
  pub is_serialized : Bool
  pub is_written : Bool
  pub is_cancelled : Bool
  pub watcher_ended : Option Bool

pub data OpenResult : Type 0 where
  opened still_waiting dial_failed serialize_failed send_open_failed : OpenResult
  called_in_state : State → OpenResult
  build_failed : OpenError → OpenResult
  handshake_failed : HandshakeError → OpenResult

-- When hsCtx and hsDone are both done, either branch may be taken; that of the context closes the
-- connection if it is the parent that was cancelled.
unfoldable pub watcher_turn : Bool → Fsm → Fsm
watcher_turn chosen f = record f {
  is_watched = false;
  is_open = if f.is_watched && (chosen && f.parent_cancelled) then false else f.is_open;
}

abbrev pub maybe_watcher : Option Bool → Fsm → Fsm
maybe_watcher none f = f
maybe_watcher (some chosen) f = watcher_turn chosen f

-- The context of the loops is a child of the call's.
abbrev pub start_loops : Dial → Fsm → Fsm
start_loops d f = maybe_watcher d.watcher_ended (record f {
  loops_started = true;
  loops_cancelled = f.loops_cancelled || d.is_cancelled;
  reader = testing;
  keepalive_loop = ticking;
  parent_cancelled = d.is_cancelled;
  is_watched = true;
})

unfoldable pub conclude_open : Dial → Fsm × Outcome → Fsm × OpenResult
unfolding give_up watcher_turn
conclude_open d (f, blocked) = (f, still_waiting)
conclude_open d (f, is_established) = (start_loops d f, opened)
conclude_open d (f, failed e) = (give_up f, handshake_failed e)

unfoldable pub send_open : Dial → List Round → Fsm → Result OpenError OpenMessage → Fsm × OpenResult
unfolding handshake conclude_open give_up
send_open d rs f (err e) = (give_up f, build_failed e)
send_open d rs f (ok m) =
    if not d.is_serialized
    then (give_up f, serialize_failed)
    else if not d.is_written
    then (give_up (write (wrote_open m) f), send_open_failed)
    else conclude_open d
        (handshake rs (write (wrote_open m) (record f { state = open_sent })) false false)

unfoldable pub open_fsm : NewOpen → Dial → List Round → Fsm → Fsm × OpenResult
unfolding send_open
open_fsm new_open d rs f =
    if not (same_state f.state idle)
    then (f, called_in_state f.state)
    else if not d.is_connected
    then (record f { state = idle }, dial_failed)
    else send_open d rs (record f { state = active; has_conn = true; is_open = true })
        (build_open new_open f.cfg.local_as f.cfg.timers.hold_time f.cfg.router_id f.cfg.caps)
