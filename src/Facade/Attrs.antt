-- ===== src/Facade/Attrs.antt =====
-- bgp.go: the optional attributes of an advertisement: extended communities, the SRv6 L3 service
-- and the PMSI tunnel.
use xk6_bgp.Base.{
  ℕ, not, String, Option, none, some, List, if◌then◌else◌, ◌==◌, is, Result, ok, ◌>>=◌, ◌>>◌,
  guard_not,
}
use xk6_bgp.Packet.Addr.{Addr}
use xk6_bgp.Packet.Update.Attrs.{Srv6L3ServiceConfig, PmsiTunnelConfig}
use xk6_bgp.Facade.Text.{colon, cut}
use xk6_bgp.Facade.Runtime.{
  Runtime, Imports, FacadeError, missing, malformed, unknown, transposed, not_an_object, wrap8,
  or_error, is_string_value, field_or, object_of, opt_string, opt_uint32, opt_bool, read_array,
}
use xk6_bgp.Facade.Descriptors.{optional_addr, addr_or_zero}

-- gobgp's EC_SUBTYPE constants
abbrev pub route_target : ℕ
route_target = 2

abbrev pub route_origin : ℕ
route_origin = 3

abbrev pub encapsulation : ℕ
encapsulation = 12

-- The tunnel types of RFC 6514 section 5.
unfoldable pub pmsi_tunnel_by_name : (String → String) → (String → String) → String → Option ℕ
pmsi_tunnel_by_name to_lower trim_space s =
    let t = to_lower (trim_space s) in
    if is t "no-tunnel-info"
    then some 0
    else if is t "rsvp-te-p2mp"
    then some 1
    else if is t "mldp-p2mp"
    then some 2
    else if is t "pim-ssm"
    then some 3
    else if is t "pim-sm"
    then some 4
    else if is t "bidir-pim"
    then some 5
    else if is t "ingress-repl"
    then some 6
    else if is t "mldp-mp2mp"
    then some 7
    else none

-- The numbers of RFC 8986's registry that gobgp has for them.
unfoldable pub sr_behavior_by_name : (String → String) → String → Option ℕ
sr_behavior_by_name to_upper s =
    let t = to_upper s in
    if is t "END_DT4"
    then some 19
    else if is t "END_DT6"
    then some 18
    else if is t "END_DT46"
    then some 20
    else if is t "END_DX4"
    then some 17
    else if is t "END_DX6"
    then some 16
    else none

module _ {V O : Type 0} (js : Runtime V O) {Rd Esi N : Type 0} (im : Imports Rd Esi N) where
  -- A community with the text before its first colon in lower case, and the text after it.
  abbrev pub prefixed_community : String → String → String → Result FacadeError ℕ
  prefixed_community s kind rest =
      if is kind "rt"
      then or_error (malformed s) (im.parse_extended_community route_target rest)
      else if is kind "soo"
      then or_error (malformed s) (im.parse_extended_community route_origin rest)
      else if is kind "encap"
      then or_error (malformed s) (im.parse_extended_community encapsulation rest)
      else if is kind "routermac"
      then (do mac ← or_error (malformed s) (im.parse_mac rest); ok (im.routers_mac mac))
      else or_error (malformed s) (im.parse_extended_community route_target s)

  unfoldable pub parse_ext_community : String → Result FacadeError ℕ
  parse_ext_community s = elim (cut colon s) [
    | none ↦ or_error (malformed s) (im.parse_extended_community route_target s)
    | some (kind, rest) ↦
        if is kind ""
        then or_error (malformed s) (im.parse_extended_community route_target s)
        else prefixed_community s (im.to_lower kind) rest
  ]

  unfoldable pub parse_ext_communities : V → Result FacadeError (List ℕ)
  unfolding read_array parse_ext_community
  parse_ext_communities v = read_array js (λ e. parse_ext_community (js.to_string e)) v

  abbrev pub octet_or : O → String → ℕ → ℕ
  octet_or o key d = field_or js o key d (λ v. wrap8 (js.to_integer v))

  abbrev pub default_structure : Addr → ℕ → Srv6L3ServiceConfig
  default_structure sid behavior = record {
    sid = sid;
    endpoint_behavior = behavior;
    locator_block_length = 40;
    locator_node_length = 24;
    function_length = 16;
    argument_length = 0;
    transposition_length = 0;
    transposition_offset = 0;
  }

  abbrev pub with_structure : Srv6L3ServiceConfig → O → Srv6L3ServiceConfig
  with_structure c o = record c {
    locator_block_length = octet_or o "locatorBlockLength" c.locator_block_length;
    locator_node_length = octet_or o "locatorNodeLength" c.locator_node_length;
    function_length = octet_or o "functionLength" c.function_length;
    argument_length = octet_or o "argumentLength" c.argument_length;
    transposition_length = octet_or o "transpositionLength" c.transposition_length;
    transposition_offset = octet_or o "transpositionOffset" c.transposition_offset;
  }

  abbrev pub read_structure : Srv6L3ServiceConfig → O → Result FacadeError Srv6L3ServiceConfig
  read_structure c o =
      let v = js.get o "structure" in
      if js.is_nullish v
      then ok c
      else (do so ← object_of js not_an_object v; ok (with_structure c so))

  unfoldable pub parse_srv6_l3_service : V → Result FacadeError Srv6L3ServiceConfig
  unfolding opt_string sr_behavior_by_name
  parse_srv6_l3_service v = do
    o ← object_of js not_an_object v
    guard_not (is (opt_string js o "sid") "") (missing "sid")
    sid ← or_error (malformed "sid") (im.parse_addr (opt_string js o "sid"))
    guard_not (is (opt_string js o "behavior") "") (missing "behavior")
    behavior ←
        or_error (unknown "behavior") (sr_behavior_by_name im.to_upper (opt_string js o "behavior"))
    c ← read_structure (default_structure sid behavior) o
    guard_not (not (c.transposition_length == 0)) transposed
    ok c

  unfoldable pub read_tunnel : V → Result FacadeError ℕ
  unfolding pmsi_tunnel_by_name
  read_tunnel v =
      if is_string_value js v
      then or_error (unknown "tunnel")
          (pmsi_tunnel_by_name im.to_lower im.trim_space (js.to_string v))
      else ok (wrap8 (js.to_integer v))

  unfoldable pub parse_pmsi_tunnel : V → Result FacadeError PmsiTunnelConfig
  unfolding opt_uint32 opt_bool read_tunnel
  parse_pmsi_tunnel v = do
    o ← object_of js not_an_object v
    guard_not (js.is_nullish (js.get o "tunnel")) (missing "tunnel")
    tunnel ← read_tunnel (js.get o "tunnel")
    endpoint ← optional_addr js im o "endpoint"
    ok (record {
      tunnel = tunnel;
      is_leaf_info_required = opt_bool js o "isLeafInfoRequired";
      label = opt_uint32 js o "label";
      endpoint = addr_or_zero js im endpoint;
    })
