-- ===== src/Fakebgpd/Greetings.antt =====
-- One connection to the test speaker, at concrete octets.
use xk6_bgp.Base.{
  ℕ, ◌*◌, true, false, none, some, Option, List, [], ◌∷◌, ◌++◌, ◌≡◌, refl, arith, Map, lookup,
  insert, ok, replicate, ◌==◌, if◌then◌else◌,
}
use xk6_bgp.Packet.Addr.{v4, zero_addr}
use xk6_bgp.Packet.Caps.{Capability, multi_protocol, build_capabilities}
use xk6_bgp.Packet.Route.{Family}
use xk6_bgp.Peer.Config.{Config, OpenMessage, NewOpen, capability_parameter, second, build_open}
use xk6_bgp.Peer.Frame.{get_or, short_header, read_message, read_message_max, header}
use xk6_bgp.Peer.Frame.Laws.{IsFrame}
use xk6_bgp.Peer.Fsm.{Body, bgp_open, keepalive}
use xk6_bgp.Peer.Negotiate.{mode_of, negotiate, new_session}
use xk6_bgp.Peer.Negotiate.Agreement.{Keeps}
use xk6_bgp.Fakebgpd.{receive_tuples, joins, has_cap, add_path_receive_modes}
use xk6_bgp.Fakebgpd.Connection.{
  Flags, Greeting, greet, own_caps, sends_open, sends_keepalive, on_hub, handle_conn,
}
use xk6_bgp.Fakebgpd.Connection.Exchange.{negotiate-greet}
use xk6_bgp.Fakebgpd.Connection.Serving.{stream_of, seen, handle_conn-seen}

-- A peer that sends additional paths.
abbrev sender : Config
sender = record {
  local_as = 65001;
  peer_as = 0;
  router_id = v4 1;
  has_target = true;
  local_address = zero_addr;
  families = 65537 ∷ [];
  timers = record { hold_time = 30 * second; open_timeout = second };
  caps = record {
    families = 65537 ∷ [];
    four_octet_as = 65001;
    route_refresh = true;
    extended_message = false;
    graceful_restart = none;
    enhanced_refresh = true;
    add_path = (65537, 2) ∷ [];
  };
}

abbrev kept : NewOpen
kept a h r ps = some (record { my_as = a; hold_time = h; router_id = r; opt_params = ps })

kept-Keeps : Keeps kept
kept-Keeps a h r ps m e = ground arith

abbrev flags : Flags
flags = record { my_as = 65000; router_id = v4 2; families = 65537 ∷ []; add_path = true }

abbrev said : OpenMessage
said = record {
  my_as = 65001;
  hold_time = 30;
  router_id = v4 1;
  opt_params =
      capability_parameter (
        multi_protocol 65537
        ∷ Capability.four_octet_as 65001
        ∷ Capability.route_refresh
        ∷ Capability.enhanced_route_refresh
        ∷ Capability.add_path ((65537, 2) ∷ [])
        ∷ [])
      ∷ [];
}

abbrev answered : OpenMessage
answered = record {
  my_as = 65000;
  hold_time = 90;
  router_id = v4 2;
  opt_params =
      capability_parameter (
        multi_protocol 65537
        ∷ Capability.four_octet_as 65000
        ∷ Capability.route_refresh
        ∷ Capability.enhanced_route_refresh
        ∷ Capability.default_capability 6
        ∷ Capability.add_path ((65537, 3) ∷ [])
        ∷ [])
      ∷ [];
}

abbrev greeting : Greeting
greeting = record {
  negotiated_hold = 30 * second;
  enhanced = true;
  modes = (65537, 1) ∷ [];
  answer = answered;
}

sender_is_greeted : greet kept flags (bgp_open said) ≡ ok greeting
unfolding greet build_open build_capabilities own_caps has_cap add_path_receive_modes lookup insert
    receive_tuples mode_of
sender_is_greeted = refl

negotiate-greet_example :
    (negotiate sender greeting.answer new_session).negotiated_hold ≡ greeting.negotiated_hold
unfolding build_open build_capabilities lookup
negotiate-greet_example =
    (negotiate-greet kept sender flags said greeting 65537 kept-Keeps refl (refl, tt)
      sender_is_greeted).0

-- A header alone stands for a message of its type.
abbrev frame : ℕ → List ℕ
frame kind = replicate 16 0xff ++ 0 ∷ 19 ∷ kind ∷ []

frame-IsFrame : (kind : ℕ) → IsFrame (frame kind)
frame-IsFrame kind = record { long_enough = omega arith; marked = refl; own_length = refl }

abbrev by_type : Map Family ℕ → List ℕ → Option Body
by_type modes raw =
    if get_or raw 18 0 == 1
    then some (bgp_open said)
    else if get_or raw 18 0 == 4
    then some keepalive
    else none

-- An OPEN, a KEEPALIVE, and the end of the stream.
handle_conn-seen_example :
    handle_conn kept by_type flags 1 true true (frame 1 ++ stream_of ((frame 4, keepalive) ∷ []) [])
    ≡ sends_open answered
      ∷ on_hub (joins 1)
      ∷ sends_keepalive
      ∷ seen 1 greeting ((frame 4, keepalive) ∷ [])
unfolding read_message read_message_max header
handle_conn-seen_example =
    handle_conn-seen kept by_type flags 1 (frame 1) (bgp_open said) greeting
      ((frame 4, keepalive) ∷ []) [] short_header (frame-IsFrame 1, omega arith, refl)
      sender_is_greeted ((frame-IsFrame 4, omega arith, refl), refl, tt) refl
