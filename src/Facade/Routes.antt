-- ===== src/Facade/Routes.antt =====
-- bgp.go: the routes of a script: bare texts, descriptors, and arrays of them.
pub mod Yield
use xk6_bgp.Base.{
  ℕ, ◌%◌, ◌^◌, Bool, true, false, not, ◌&&◌, ◌||◌, String, Option, none, some, List, [], ◌∷◌, map,
  length, if◌then◌else◌, ltb, ◌==◌, ◌+◌, is, Result, ok, err, ◌>>=◌, ◌>>◌, guard_not, map_err,
}
use xk6_bgp.Packet.Addr.{Addr, zero_addr, is_v6, Prefix}
use xk6_bgp.Packet.Route.{
  Family, Route, new_family, safi, afi_ip, afi_ip6, safi_mpls_vpn, safi_mup, safi_unicast,
  rf_ipv4_uc, with_path_id,
}
use xk6_bgp.Packet.Types.{
  new_ip_route, new_vpn_ip_route, new_mup_isd, new_mup_dsd, new_mup_t1st, new_mup_t2st,
}
use xk6_bgp.Packet.Evpn.{rf_evpn, new_evpn_mac_ip, new_evpn_imet, new_evpn_ip_prefix}
use xk6_bgp.Facade.Runtime.{
  Exported, exported_int, exported_float, exported_array, Runtime, Imports, FacadeError, missing,
  malformed, unknown, label_count, not_a_number, needs_object, prefix_only, bad_route, at_index,
  no_discriminator, not_an_object, wrap32, wrap8, or_error, is_string_value, opt_string, opt_uint32,
  object_of, read_array, require_prefix, require_addr, parse_rd,
}
use xk6_bgp.Facade.Descriptors.{
  rf_ipv4_vpn, rf_ipv6_vpn, rf_mup_ipv4, rf_mup_ipv6, mup_family_for_addr, vpn_family_for_addr,
  optional_addr, addr_or_zero, parse_esi_text, parse_esi, label_of, read_labels, exported_labels,
  parse_labels, parse_vpn_ip_route, parse_mac_ip, parse_imet, parse_ip_prefix, parse_evpn_route,
  parse_isd, parse_dsd, parse_t1st, parse_t2st, parse_mup_route,
}

abbrev pub rf_ipv6_uc : Family
rf_ipv6_uc = new_family afi_ip6 safi_unicast

module _ {V O : Type 0} (js : Runtime V O) {Rd Esi N : Type 0} (im : Imports Rd Esi N) where
  unfoldable pub new_route_for_family : Family → Prefix → Result FacadeError (Route N)
  unfolding new_ip_route
  new_route_for_family fam p =
      if fam == rf_ipv4_uc || fam == rf_ipv6_uc
      then map_err bad_route (new_ip_route im.ip_nlri fam p)
      else err prefix_only

  -- A bare text is a prefix of a unicast family.
  unfoldable pub parse_route_text : Family → String → Result FacadeError (Route N)
  unfolding new_route_for_family
  parse_route_text fam s = do
    guard_not (safi fam == safi_mup || safi fam == safi_mpls_vpn || fam == rf_evpn) needs_object
    p ← or_error (malformed "prefix") (im.parse_prefix s)
    new_route_for_family fam p

  unfoldable pub parse_plain_route : Family → O → Result FacadeError (Route N)
  unfolding require_prefix new_route_for_family
  parse_plain_route fam o = do p ← require_prefix js im o "prefix"; new_route_for_family fam p

  unfoldable pub parse_descriptor : Family → O → Result FacadeError (Route N)
  unfolding parse_mup_route parse_vpn_ip_route parse_evpn_route parse_plain_route
  parse_descriptor fam o =
      if safi fam == safi_mup
      then parse_mup_route js im fam o
      else if safi fam == safi_mpls_vpn
      then parse_vpn_ip_route js im fam o
      else if fam == rf_evpn
      then parse_evpn_route js im o
      else parse_plain_route fam o

  unfoldable pub decorate : O → Route N → Route N
  unfolding with_path_id
  decorate o r =
      let v = js.get o "pathId" in
      if js.is_nullish v then r else with_path_id r (wrap32 (js.to_integer v))

  unfoldable pub object_route : Family → V → Result FacadeError (Route N)
  unfolding parse_descriptor decorate
  object_route fam v = do
    o ← object_of js not_an_object v
    r ← parse_descriptor fam o
    ok (decorate o r)

  unfoldable pub parse_route : Family → V → Result FacadeError (Route N)
  unfolding parse_route_text object_route
  parse_route fam v =
      if is_string_value js v then parse_route_text fam (js.to_string v) else object_route fam v

  unfoldable pub parse_routes_array : Family → V → Result FacadeError (List (Route N))
  unfolding read_array parse_route
  parse_routes_array fam v = do
    guard_not (js.is_nullish v) (missing "routes")
    read_array js (parse_route fam) v
