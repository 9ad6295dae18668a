-- ===== src/Facade/Request.antt =====
-- bgp.go: the argument of advertise and withdraw, and the two calls.
pub mod Laws
pub mod Bounds
use xk6_bgp.Base.{
  ℕ, Bool, true, false, String, Option, none, some, List, [], if◌then◌else◌, ltb, is, Result, ok,
  ◌>>=◌, ◌>>◌, guard_not, map_err, Map, lookup, string_eq,
}
use xk6_bgp.Packet.Route.{Family, Route}
use xk6_bgp.Packet.Update.Attrs.{PathAttrs, Gobgp, UpdateMessage}
use xk6_bgp.Packet.Update.Build.{EncodingOptions}
use xk6_bgp.Peer.Fsm.{Fsm}
use xk6_bgp.Peer.Send.{Attempt, Fate, empty_attrs, advertise, withdraw}
use xk6_bgp.Facade.Runtime.{
  Runtime, Imports, FacadeError, missing_argument, missing, malformed, family_not_configured,
  origin_out_of_range, not_an_object, in_field, wrap32, or_error, field_or, object_of, opt_string,
  opt_uint32,
}
use xk6_bgp.Facade.Routes.{parse_routes_array}
use xk6_bgp.Facade.Attrs.{parse_ext_communities, parse_srv6_l3_service, parse_pmsi_tunnel}

pub record AdvertiseRequest (N : Type 0) : Type 0 where
  pub family : Family
  pub attrs : PathAttrs
  pub routes : List (Route N)
  pub encoding : EncodingOptions
  -- a float64
  pub update_rate : ℕ

-- Peer.families
abbrev pub Families : Type 0
Families = Map String Family

abbrev pub configured : Families → String → Result FacadeError Family
configured fams name = or_error (family_not_configured name) (lookup name fams)

module _ {V O : Type 0} (js : Runtime V O) {Rd Esi N : Type 0} (im : Imports Rd Esi N) where
  -- A field that is parsed if it is there.
  abbrev pub optional_field :
      {A : Type 0} → O → String → (V → Result FacadeError A) → Result FacadeError (Option A)
  optional_field o key f =
      let v = js.get o key in
      if js.is_nullish v then ok none else (do a ← map_err (in_field key) (f v); ok (some a))

  abbrev pub optional_uint32 : O → String → Option ℕ
  optional_uint32 o key = field_or js o key none (λ v. some (wrap32 (js.to_integer v)))

  abbrev pub list_or_empty : Option (List ℕ) → List ℕ
  list_or_empty none = []
  list_or_empty (some xs) = xs

  unfoldable pub parse_attrs : O → Result FacadeError PathAttrs
  unfolding opt_string opt_uint32 parse_ext_communities parse_srv6_l3_service parse_pmsi_tunnel
  parse_attrs o = do
    guard_not (is (opt_string js o "nextHop") "") (missing "nextHop")
    next_hop ← or_error (malformed "nextHop") (im.parse_addr (opt_string js o "nextHop"))
    guard_not (ltb 2 (opt_uint32 js o "origin")) (origin_out_of_range (opt_uint32 js o "origin"))
    communities ← optional_field o "extCommunities" (parse_ext_communities js im)
    service ← optional_field o "srv6L3Service" (parse_srv6_l3_service js im)
    tunnel ← optional_field o "pmsiTunnel" (parse_pmsi_tunnel js im)
    ok (record {
      origin = opt_uint32 js o "origin";
      next_hop = next_hop;
      local_as = opt_uint32 js o "localAs";
      med = optional_uint32 o "med";
      local_pref = optional_uint32 o "localPref";
      ext_communities = list_or_empty communities;
      srv6_l3_service = service;
      pmsi_tunnel = tunnel;
    })

  abbrev pub parse_encoding : O → EncodingOptions
  parse_encoding o = record {
    use_mp_reach_for_ipv4_unicast = field_or js o "useMpReach" false js.to_boolean;
    use_extended_messages = field_or js o "useExtendedMessages" false js.to_boolean;
    add_path = λ f. 0;
    use_2_byte_as = false;
  }

  unfoldable pub attrs_unless : Bool → O → Result FacadeError PathAttrs
  unfolding parse_attrs
  attrs_unless true o = ok empty_attrs
  attrs_unless false o = parse_attrs o

  unfoldable pub parse_advertise_arg : Families → V → Bool → Result FacadeError (AdvertiseRequest N)
  unfolding opt_string attrs_unless parse_routes_array
  parse_advertise_arg fams v is_withdraw = do
    guard_not (js.is_nullish v) missing_argument
    o ← object_of js not_an_object v
    guard_not (is (opt_string js o "family") "") (missing "family")
    fam ← configured fams (opt_string js o "family")
    attrs ← attrs_unless is_withdraw o
    routes ← parse_routes_array js im fam (js.get o "routes")
    ok (record {
      family = fam;
      attrs = attrs;
      routes = routes;
      encoding = parse_encoding o;
      update_rate = field_or js o "updateRate" 0 js.to_float;
    })

  -- An argument that is refused sends nothing.
  module _ (g : Gobgp N) (body_len : UpdateMessage N → Option ℕ) (fams : Families) (f : Fsm) where
    unfoldable pub script_advertise : V → (ℕ → Fate) → Result FacadeError (Attempt N)
    unfolding parse_advertise_arg advertise
    script_advertise v fates = do
      r ← parse_advertise_arg fams v false
      ok (advertise g body_len f r.family r.attrs r.routes r.encoding fates)

    unfoldable pub script_withdraw : V → (ℕ → Fate) → Result FacadeError (Attempt N)
    unfolding parse_advertise_arg withdraw
    script_withdraw v fates = do
      r ← parse_advertise_arg fams v true
      ok (withdraw g body_len f r.family r.routes r.encoding fates)
