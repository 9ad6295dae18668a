-- ===== src/Facade/Samples.antt =====
-- Tests of bgp.go's facade.
use xk6_bgp.Base.{
  ◌≤◌, lookup, insert, true, false, String, none, some, [], ◌∷◌, ok, err, ◌≡◌, refl, length, arith,
}
use xk6_bgp.Clock.{mono_ns}
use xk6_bgp.Packet.Evpn.{rf_evpn, new_evpn_ip_prefix}
use xk6_bgp.Packet.Evpn.Laws.{IsGateway, IsPure, new_evpn_ip_prefix_sound}
use xk6_bgp.Observed.State.{failure_cause, new_observed_set}
use xk6_bgp.Facade.Runtime.{is_positive}
use xk6_bgp.Packet.Addr.{is6, Addr, zero_addr, v4}
use xk6_bgp.Packet.Route.{Route, rf_ipv4_uc}
use xk6_bgp.Facade.Wait.{id_suffix, split_path_id, WaitArgument, wait_argument}
use xk6_bgp.Facade.Wait.Laws.{split_path_id-id_suffix, wait_argument-mono_ns}
use xk6_bgp.Packet.Types.{plain_route, ip_wire_len}
use xk6_bgp.Packet.Caps.{Capability, multi_protocol, build_capabilities}
use xk6_bgp.Packet.Update.Attrs.{PathAttrs}
use xk6_bgp.Peer.Negotiate.Agreement.{Keeps}
use xk6_bgp.Peer.Config.{
  NewOpen, OpenMessage, capability_parameter, build_open, Config, check_families,
}
use xk6_bgp.Peer.Fsm.{new_fsm}
use xk6_bgp.Peer.Send.{check_request, session_not_ready}
use xk6_bgp.Facade.Config.{default_restart, ScriptPeer, new_peer}
use xk6_bgp.Facade.Config.Laws.{announces, new_peer-parse_advertise_arg}
use xk6_bgp.Facade.Request.{AdvertiseRequest, parse_encoding, parse_attrs, parse_advertise_arg}
use xk6_bgp.Facade.Request.Laws.{Origin, parse_advertise_arg-check_request}
use xk6_bgp.Facade.Request.Bounds.{IsBounded, parse_attrs-IsBounded}
use xk6_bgp.Facade.Text.{format_digits, parse_uint32, parse_digits}
use xk6_bgp.Facade.Text.Laws.{has_code}
use xk6_bgp.Facade.Scripts.{
  js, net, im, evpn_parts, list, advertised, configured_peer, Js, text, number, object, end, field,
}

-- The descriptor's route, and the key to wait for.
isd_route : Route String
isd_route = record { family = 65621; nlri = "isd"; wire_len = 16; path_id = some 3 }

split_path_id-id_suffix_example :
    (split_path_id "10.0.0.0/24:7" ≡ ok ("10.0.0.0/24", ":7"))
    × (split_path_id "10.0.0.0/24" ≡ ok ("10.0.0.0/24", ""))
unfolding has_code id_suffix format_digits
split_path_id-id_suffix_example = split_path_id-id_suffix "10.0.0.0" "24" refl refl 7 (omega arith)

peer_config : Config
peer_config = record {
  local_as = 65001;
  peer_as = 65002;
  router_id = v4 167772161;
  has_target = true;
  local_address = zero_addr;
  families = rf_ipv4_uc ∷ [];
  timers = record { hold_time = 180000000000; open_timeout = 30000000000 };
  caps = record {
    families = rf_ipv4_uc ∷ [];
    four_octet_as = 65001;
    route_refresh = true;
    extended_message = true;
    graceful_restart = some default_restart;
    enhanced_refresh = false;
    add_path = [];
  };
}

peer : ScriptPeer
peer = record { config = peer_config; families = ("ipv4-unicast", rf_ipv4_uc) ∷ []; tag = "" }

request_attrs : PathAttrs
request_attrs = record {
  origin = 2;
  next_hop = v4 167772161;
  local_as = 65001;
  med = none;
  local_pref = none;
  ext_communities = [];
  srv6_l3_service = none;
  pmsi_tunnel = none;
}

request : AdvertiseRequest String
request = record {
  family = rf_ipv4_uc;
  attrs = request_attrs;
  routes = plain_route rf_ipv4_uc "10.0.0.0/24" 4 ∷ [];
  encoding = parse_encoding js im advertised;
  update_rate = 0;
}

request_parsed : parse_advertise_arg js im peer.families advertised false ≡ ok request
unfolding parse_advertise_arg js peer request request_attrs lookup ip_wire_len
request_parsed = refl

abbrev kept : NewOpen
kept a h r ps = some (record { my_as = a; hold_time = h; router_id = r; opt_params = ps })

kept-Keeps : Keeps kept
kept-Keeps a h r ps m e = ground arith

abbrev peer_open : OpenMessage
peer_open = record {
  my_as = 65001;
  hold_time = 180;
  router_id = v4 167772161;
  opt_params =
      capability_parameter (
        multi_protocol rf_ipv4_uc
        ∷ Capability.four_octet_as 65001
        ∷ Capability.route_refresh
        ∷ Capability.default_capability 6
        ∷ Capability.graceful_restart default_restart.restarting default_restart.notification
            default_restart.restart_time ((rf_ipv4_uc, false) ∷ [])
        ∷ [])
      ∷ [];
}

new_peer-parse_advertise_arg_example : announces rf_ipv4_uc peer_open.opt_params ≡ true
unfolding new_peer js peer peer_config request check_families insert lookup build_open
    build_capabilities
new_peer-parse_advertise_arg_example =
    new_peer-parse_advertise_arg js im kept (configured_peer ∷ []) peer advertised false request
      peer_open kept-Keeps refl request_parsed refl

attrs_parsed : parse_attrs js im advertised ≡ ok request_attrs
unfolding parse_attrs js request_attrs
attrs_parsed = refl

parse_attrs-IsBounded_example : IsBounded request_attrs
parse_attrs-IsBounded_example = parse_attrs-IsBounded js im advertised request_attrs attrs_parsed

parse_advertise_arg-check_request_example :
    Origin js im peer.families advertised request
    × (check_request (new_fsm peer_config) rf_ipv4_uc request.routes request.encoding
        ≡ err (session_not_ready none))
unfolding request new_fsm failure_cause new_observed_set
parse_advertise_arg-check_request_example =
    parse_advertise_arg-check_request js im peer.families advertised false request
      (new_fsm peer_config) request_parsed

wait_call : Js
wait_call =
    object (field "prefixes" (list (text "10.0.0.0/24:7")) (field "sentAtMonoNs" (number 40) end))

wait_call_argument : WaitArgument
wait_call_argument = record {
  prefixes = "10.0.0.0/24:7" ∷ [];
  timeout = 30000000000;
  only_after = 140;
}

wait_argument-mono_ns_example :
    (wait_call_argument.only_after ≡ 140)
    × (is_positive (length wait_call_argument.prefixes) ≡ true)
    × (is_positive wait_call_argument.timeout ≡ true)
unfolding wait_argument js wait_call wait_call_argument format_digits mono_ns parse_uint32
    parse_digits
wait_argument-mono_ns_example =
    wait_argument-mono_ns js im 100 140 wait_call wait_call wait_call_argument (omega arith)
      (omega arith) refl refl refl

new_evpn_ip_prefix_sound_example :
    (rf_evpn ≡ rf_evpn)
    × ((g : Addr) × ((evpn_parts 24 (v4 167772160) g ≡ some ("ip-prefix", 34))
          × (24 ≤ 128)
          × IsGateway false zero_addr g
          × IsPure g
          × IsPure (v4 167772160)
          × (is6 g ≡ false)))
unfolding new_evpn_ip_prefix
new_evpn_ip_prefix_sound_example =
    new_evpn_ip_prefix_sound evpn_parts true net zero_addr (plain_route rf_evpn "ip-prefix" 34) refl
