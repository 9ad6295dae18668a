-- ===== src/Peer/Negotiate.antt =====
-- internal/peer/fsm.go: acceptPeerOpen, the negotiation of a session.
pub mod Modes
pub mod Learn
pub mod Offered
pub mod OfferedAs
pub mod Agreement
pub mod Accept
use xk6_bgp.Base.{
  ℕ, ◌+◌, ◌*◌, ◌/◌, ◌%◌, ◌^◌, min, max, bit_or, Bool, true, false, not, ◌&&◌, ◌||◌, Option, none,
  some, List, [], ◌∷◌, ◌++◌, if◌then◌else◌, ltb, ◌==◌, Map, lookup, insert, nat_eq,
}
use xk6_bgp.Base.Bits.{bit0, bit1}
use xk6_bgp.Packet.Route.{Family}
use xk6_bgp.Packet.Caps.{
  Capability, four_octet_as, code, extended_message_code, route_refresh_code,
  enhanced_route_refresh_code, CapsConfig,
}
use xk6_bgp.Peer.Config.{
  Config, OpenMessage, OptionParameter, capability_parameter, other_parameter, second,
}

pub record MsgOpts : Type 0 where
  pub add_path : Map Family ℕ
  pub use_2_byte_as : Bool

-- The fields of fsm that acceptPeerOpen sets; an empty map is a nil one.
pub record Session : Type 0 where
  pub negotiated_hold : ℕ
  pub keepalive_tick : ℕ
  pub peer_as : ℕ
  pub peer_caps : List Capability
  pub extended_messages : Bool
  pub four_octet : Bool
  pub route_refresh : Bool
  pub enhanced_refresh : Bool
  pub add_path : Map Family ℕ
  pub msg_opts : Option MsgOpts

unfoldable pub new_session : Session
new_session = record {
  negotiated_hold = 0;
  keepalive_tick = 0;
  peer_as = 0;
  peer_caps = [];
  extended_messages = false;
  four_octet = false;
  route_refresh = false;
  enhanced_refresh = false;
  add_path = [];
  msg_opts = none;
}

-- A read of a Go map of modes: 0 where there is none.
abbrev pub value_or : Option ℕ → ℕ
value_or none = 0
value_or (some m) = m

unfoldable pub mode_of : Family → Map Family ℕ → ℕ
mode_of f ms = value_or (lookup f ms)

unfoldable pub add_tuples : Map Family ℕ → List (Family × ℕ) → Map Family ℕ
add_tuples ms [] = ms
add_tuples ms ((f, m) ∷ ts) = add_tuples (insert f (bit_or (mode_of f ms) m) ms) ts

abbrev pub learn_as : Capability → Session → Session
learn_as (four_octet_as n) s = record s { peer_as = n; four_octet = true }
learn_as _ s = s

abbrev pub learn_modes : Capability → Map Family ℕ → Map Family ℕ
learn_modes (Capability.add_path ts) ms = add_tuples ms ts
learn_modes _ ms = ms

-- One round of the loop over the capabilities of a parameter.
unfoldable pub learn : CapsConfig → Capability → Session → Session
learn caps c s =
    let t : Session = learn_as c s in
    record t {
      extended_messages =
          t.extended_messages || code c == extended_message_code && caps.extended_message;
      route_refresh = t.route_refresh || code c == route_refresh_code;
      enhanced_refresh =
          t.enhanced_refresh || code c == enhanced_route_refresh_code && caps.enhanced_refresh;
      peer_caps = t.peer_caps ++ c ∷ [];
    }

unfoldable pub learn_all :
    CapsConfig → List Capability → Session → Map Family ℕ → Session × Map Family ℕ
learn_all caps [] s ms = (s, ms)
learn_all caps (c ∷ cs) s ms = learn_all caps cs (learn caps c s) (learn_modes c ms)

unfoldable pub learn_params :
    CapsConfig → List OptionParameter → Session → Map Family ℕ → Session × Map Family ℕ
learn_params caps [] s ms = (s, ms)
learn_params caps (other_parameter ∷ ps) s ms = learn_params caps ps s ms
learn_params caps (capability_parameter cs ∷ ps) s ms =
    let r = learn_all caps cs s ms in learn_params caps ps r.0 r.1

-- Bit 0 is receive, bit 1 is send.
unfoldable pub effective_mode : ℕ → ℕ → ℕ
effective_mode own peer =
    let send = if bit1 own && bit0 peer then bit_or 0 2 else 0 in
    if bit0 own && bit1 peer then bit_or send 1 else send

unfoldable pub negotiate_modes : Map Family ℕ → Map Family ℕ → Map Family ℕ
negotiate_modes peer [] = []
negotiate_modes peer ((f, own) ∷ ms) =
    let rest = negotiate_modes peer ms in
    let mode = effective_mode own (mode_of f peer) in if mode == 0 then rest else insert f mode rest

unfoldable pub options_of : Map Family ℕ → Bool → Option MsgOpts
options_of [] true = none
options_of [] false = some (record { add_path = []; use_2_byte_as = true })
options_of (e ∷ ms) four = some (record { add_path = e ∷ ms; use_2_byte_as = not four })

pub data OpenReject : Type 0 where
  unacceptable_hold_time : ℕ → OpenReject
  bad_peer_as : ℕ → ℕ → OpenReject

-- openRejectError.subcode, RFC 4271 section 6.2
unfoldable pub subcode : OpenReject → ℕ
subcode (unacceptable_hold_time h) = 6
subcode (bad_peer_as c w) = 2

unfoldable pub tick_of : ℕ → ℕ
tick_of negotiated = if negotiated == 0 then 0 else max (negotiated * second / 3) second

unfoldable pub set_hold : ℕ → ℕ → Session → Session
unfolding tick_of
set_hold own peer s = record s {
  negotiated_hold = min own peer * second;
  keepalive_tick = tick_of (min own peer);
}

unfoldable pub finish_modes : CapsConfig → Session × Map Family ℕ → Session
unfolding negotiate_modes options_of
finish_modes caps (s, peer) =
    let modes = negotiate_modes peer caps.add_path in
    record s { add_path = modes; msg_opts = options_of modes s.four_octet }

unfoldable pub negotiate : Config → OpenMessage → Session → Session
unfolding set_hold learn_params finish_modes
negotiate cfg m s =
    let t : Session = set_hold (cfg.timers.hold_time / second % 2 ^ 16) m.hold_time s in
    finish_modes cfg.caps (learn_params cfg.caps m.opt_params (record t { peer_as = m.my_as }) [])

-- The session is written before the last check, which can still refuse it.
unfoldable pub accept_peer_open : Config → OpenMessage → Session → Session × Option OpenReject
accept_peer_open cfg m s =
    if not (m.hold_time == 0) && ltb m.hold_time 3
    then (s, some (unacceptable_hold_time m.hold_time))
    else let t = negotiate cfg m s in
      if not (cfg.peer_as == 0) && not (t.peer_as == cfg.peer_as)
      then (t, some (bad_peer_as cfg.peer_as t.peer_as))
      else (t, none)
