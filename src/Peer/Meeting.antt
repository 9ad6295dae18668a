-- ===== src/Peer/Meeting.antt =====
-- Two configurations that meet, at concrete values.
use xk6_bgp.Base.{
  lookup, insert, ℕ, ◌*◌, true, false, none, some, List, [], ◌∷◌, ◌≡◌, ◌&&◌, refl, arith,
}
use xk6_bgp.Base.Bits.{bit0, bit1}
use xk6_bgp.Observed.State.{fail, is_some, new_observed_set}
use xk6_bgp.Observed.Waiters.{register_waiter, enroll, register_keys, register_key, new_waiter}
use xk6_bgp.Packet.Addr.{v4, zero_addr}
use xk6_bgp.Packet.Caps.{build_capabilities, Capability, CapsConfig, multi_protocol}
use xk6_bgp.Peer.Config.{
  Config, OpenMessage, NewOpen, capability_parameter, second, check_families, new, build_open,
}
use xk6_bgp.Peer.Negotiate.{mode_of, negotiate, new_session, accept_peer_open}
use xk6_bgp.Peer.Negotiate.Modes.{params_say, negotiate_directions}
use xk6_bgp.Peer.Negotiate.Agreement.{Keeps, sessions_agree}
use xk6_bgp.Peer.Negotiate.Accept.{accepted_timers, HasTimers}
use xk6_bgp.Peer.Fsm.{
  Fsm, Body, open_sent, Round, Dial, bgp_open, keepalive, notification, opened, open_fsm, new_fsm,
  handshake, is_established,
}
use xk6_bgp.Peer.Fsm.Handshake.{Establishes, handshake-Establishes}
use xk6_bgp.Peer.Fsm.Opening.{Settled, open_fsm-Settled}
use xk6_bgp.Peer.Loops.{
  session_step, SessionEvent, reader_fail_goes_on, tests, reads, read_message, waits, session_run,
}
use xk6_bgp.Peer.Loops.Endings.{IsDown}
use xk6_bgp.Peer.Loops.Life.{session_life}

abbrev caps : ℕ → CapsConfig
caps mode = record {
  families = 65537 ∷ [];
  four_octet_as = 0;
  route_refresh = true;
  extended_message = true;
  graceful_restart = none;
  enhanced_refresh = false;
  add_path = (65537, mode) ∷ [];
}

abbrev config : ℕ → ℕ → ℕ → Config
config local hold mode = record {
  local_as = local;
  peer_as = 0;
  router_id = v4 1;
  has_target = true;
  local_address = zero_addr;
  families = 65537 ∷ [];
  timers = record { hold_time = hold * second; open_timeout = second };
  caps = record (caps mode) { four_octet_as = local };
}

abbrev gobgp_open : NewOpen
gobgp_open a h r ps = some (record { my_as = a; hold_time = h; router_id = r; opt_params = ps })

gobgp_open-Keeps : Keeps gobgp_open
gobgp_open-Keeps a h r ps m e = ground arith

-- One side sends additional paths, the other side receives them.
abbrev pub alice : Config
alice = config 65001 9 2

abbrev bob : Config
bob = config 70000 30 3

abbrev message : ℕ → ℕ → ℕ → ℕ → OpenMessage
message my_as local hold mode = record {
  my_as = my_as;
  hold_time = hold;
  router_id = v4 1;
  opt_params =
      capability_parameter (
        multi_protocol 65537
        ∷ Capability.four_octet_as local
        ∷ Capability.route_refresh
        ∷ Capability.default_capability 6
        ∷ Capability.add_path ((65537, mode) ∷ [])
        ∷ [])
      ∷ [];
}

abbrev open_alice : OpenMessage
open_alice = message 65001 65001 9 2

abbrev open_bob : OpenMessage
open_bob = message 23456 70000 30 3

sessions_agree_example :
    (negotiate alice open_bob new_session).negotiated_hold
    ≡ (negotiate bob open_alice new_session).negotiated_hold
unfolding build_open build_capabilities lookup
sessions_agree_example =
    (sessions_agree gobgp_open alice bob open_alice open_bob 65537 gobgp_open-Keeps refl refl
      (refl, tt) (refl, tt)).0

negotiate_directions_example :
    bit1 (mode_of 65537 (negotiate alice open_bob new_session).add_path)
    ≡ (bit1 (mode_of 65537 alice.caps.add_path) && params_say bit0 65537 open_bob.opt_params)
unfolding lookup
negotiate_directions_example = (negotiate_directions alice open_bob new_session 65537 (refl, tt)).0

accepted_timers_example : HasTimers (accept_peer_open alice open_bob new_session).0
unfolding new accept_peer_open check_families
accepted_timers_example =
    (accepted_timers alice alice open_bob (accept_peer_open alice open_bob new_session).0 refl
      refl).2

abbrev fsm : Fsm
fsm = record (new_fsm alice) { state = open_sent; has_conn = true; is_open = true }

abbrev round : Body → Round
round m = record { read = some m; is_cancelled = false; is_written = true; is_late = false }

abbrev rounds : List Round
rounds = round (bgp_open open_bob) ∷ round keepalive ∷ []

rounds-Establishes : Establishes fsm rounds
unfolding accept_peer_open new_fsm
rounds-Establishes = record {
  first = round (bgp_open open_bob);
  second = round keepalive;
  later = [];
  peer_open = open_bob;
  rounds = refl;
  reads_open = refl;
  accepts = refl;
  in_time = (refl, refl, refl);
  reads_keepalive = (refl, refl);
}

handshake-Establishes_example : (handshake rounds fsm false false).1 ≡ is_established
handshake-Establishes_example = (handshake-Establishes rounds fsm).0.1 rounds-Establishes

abbrev dial : Dial
dial = record {
  is_connected = true;
  is_serialized = true;
  is_written = true;
  is_cancelled = false;
  watcher_ended = none;
}

open_fsm-Settled_example : Settled (open_fsm gobgp_open dial rounds (new_fsm alice))
unfolding new_fsm
open_fsm-Settled_example = open_fsm-Settled gobgp_open dial rounds (new_fsm alice) refl refl

-- A wait begins, and the peer ends the session.
abbrev ending : List SessionEvent
ending =
    waits ("10.0.0.0/24" ∷ []) 0
    ∷ tests
    ∷ reads (read_message 7 (notification 6 2))
    ∷ reader_fail_goes_on
    ∷ reader_fail_goes_on
    ∷ reader_fail_goes_on
    ∷ reader_fail_goes_on
    ∷ []

alice_opens : (open_fsm gobgp_open dial rounds (new_fsm alice)).1 ≡ opened
unfolding open_fsm new_fsm accept_peer_open build_open build_capabilities lookup
alice_opens = refl

alice_fails :
    is_some
      (session_run (open_fsm gobgp_open dial rounds (new_fsm alice)).0 ending).observed.failed_err
    ≡ true
unfolding open_fsm new_fsm accept_peer_open build_open build_capabilities lookup session_run
    session_step fail register_waiter enroll register_keys register_key new_observed_set insert
    new_waiter
alice_fails = refl

session_life_example :
    IsDown (session_run (open_fsm gobgp_open dial rounds (new_fsm alice)).0 ending)
session_life_example =
    ((session_life gobgp_open dial rounds alice ending alice_opens).0 alice_fails).0
