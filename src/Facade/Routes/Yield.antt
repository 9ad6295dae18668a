-- ===== src/Facade/Routes/Yield.antt =====
-- bgp.go: every route that a script's descriptor becomes is of the family it was asked for.
use xk6_bgp.Base.{
  bind-ok, ok-inj, if_ok, ℕ, ◌||◌, ◌==◌, String, none, List, ◌≡◌, sym, ap, ◌∙◌, arith, ok,
  guard_not, seq-ok, All, inl, inr, is,
}
use xk6_bgp.Packet.Addr.{Prefix}
use xk6_bgp.Packet.Route.{Family, Route, safi, safi_mup, safi_mpls_vpn, with_path_id}
use xk6_bgp.Packet.Types.{
  new_ip_route, new_vpn_ip_route, new_mup_isd, new_mup_dsd, new_mup_t1st, new_mup_t2st,
}
use xk6_bgp.Packet.Evpn.{rf_evpn, new_evpn_mac_ip, new_evpn_imet, new_evpn_ip_prefix}
use xk6_bgp.Facade.Runtime.{
  Runtime, Imports, missing, malformed, needs_object, not_an_object, or_error, parse_rd, opt_string,
  opt_uint32, is_string_value, object_of,
}
use xk6_bgp.Facade.Runtime.Laws.{read_array-All}
use xk6_bgp.Facade.Descriptors.{
  parse_vpn_ip_route, parse_evpn_route, parse_mup_route, parse_mac_ip, parse_imet, parse_ip_prefix,
  parse_isd, parse_dsd, parse_t1st, parse_t2st,
}
use xk6_bgp.Facade.Routes.{
  new_route_for_family, parse_route_text, parse_plain_route, parse_descriptor, decorate,
  object_route, parse_route, parse_routes_array,
}

-- Of this family, and without a path id.
abbrev pub IsPlain : {N : Type 0} → Family → Route N → Type 0
IsPlain fam r = (r.family ≡ fam) × (r.path_id ≡ none)

module _ {V O : Type 0} (js : Runtime V O) {Rd Esi N : Type 0} (im : Imports Rd Esi N) where
  mac_ip_family :
      (rd : Rd) (tag : ℕ) (o : O) (r : Route N)
      → parse_mac_ip js im rd tag o ≡ ok r
      → IsPlain rf_evpn r
  unfolding parse_mac_ip new_evpn_mac_ip
  mac_ip_family rd tag o r h = ground arith

  imet_family :
      (rd : Rd) (tag : ℕ) (o : O) (r : Route N)
      → parse_imet js im rd tag o ≡ ok r
      → IsPlain rf_evpn r
  unfolding parse_imet new_evpn_imet
  imet_family rd tag o r h = ground arith

  ip_prefix_family :
      (rd : Rd) (tag : ℕ) (o : O) (r : Route N)
      → parse_ip_prefix js im rd tag o ≡ ok r
      → IsPlain rf_evpn r
  unfolding parse_ip_prefix new_evpn_ip_prefix
  ip_prefix_family rd tag o r h = ground arith

  evpn_family : (o : O) (r : Route N) → parse_evpn_route js im o ≡ ok r → IsPlain rf_evpn r
  unfolding parse_evpn_route
  evpn_family o r h =
      let (g, h1) = seq-ok (guard_not (is (opt_string js o "type") "") (missing "type")) _ r h in
      let (rd, (e, h2)) = bind-ok (parse_rd js im o) _ r h1 in
      let tag = opt_uint32 js o "ethTag" in
      let mac = mac_ip_family rd tag o r in
      let imet = imet_family rd tag o r in
      let prefix = ip_prefix_family rd tag o r in ground (arith, mac, imet, prefix)

  module _ (fam : Family) where
    vpn_family : (o : O) (r : Route N) → parse_vpn_ip_route js im fam o ≡ ok r → IsPlain fam r
    unfolding parse_vpn_ip_route new_vpn_ip_route
    vpn_family o r h = ground arith

    isd_family : (rd : Rd) (o : O) (r : Route N) → parse_isd js im fam rd o ≡ ok r → IsPlain fam r
    unfolding parse_isd new_mup_isd
    isd_family rd o r h = ground arith

    dsd_family : (rd : Rd) (o : O) (r : Route N) → parse_dsd js im fam rd o ≡ ok r → IsPlain fam r
    unfolding parse_dsd new_mup_dsd
    dsd_family rd o r h = ground arith

    t1st_family : (rd : Rd) (o : O) (r : Route N) → parse_t1st js im fam rd o ≡ ok r → IsPlain fam r
    unfolding parse_t1st new_mup_t1st
    t1st_family rd o r h = ground arith

    t2st_family : (rd : Rd) (o : O) (r : Route N) → parse_t2st js im fam rd o ≡ ok r → IsPlain fam r
    unfolding parse_t2st new_mup_t2st
    t2st_family rd o r h = ground arith

    mup_family : (o : O) (r : Route N) → parse_mup_route js im fam o ≡ ok r → IsPlain fam r
    unfolding parse_mup_route
    mup_family o r h =
        let (g, h1) = seq-ok (guard_not (is (opt_string js o "type") "") (missing "type")) _ r h in
        let (rd, (e, h2)) = bind-ok (parse_rd js im o) _ r h1 in
        let isd = isd_family rd o r in
        let dsd = dsd_family rd o r in
        let t1st = t1st_family rd o r in
        let t2st = t2st_family rd o r in ground (arith, isd, dsd, t1st, t2st)

    prefix_family :
        (p : Prefix) (r : Route N) → new_route_for_family js im fam p ≡ ok r → IsPlain fam r
    unfolding new_route_for_family new_ip_route
    prefix_family p r h = ground arith

    pub descriptor_family :
        (o : O) (r : Route N) → parse_descriptor js im fam o ≡ ok r → IsPlain fam r
    unfolding parse_descriptor parse_plain_route
    descriptor_family o r h = ground (arith, evpn_family o r, vpn_family o r, mup_family o r)

    text_family : (t : String) (r : Route N) → parse_route_text js im fam t ≡ ok r → IsPlain fam r
    unfolding parse_route_text
    text_family t r h =
        let (g, h1) =
          seq-ok
            (guard_not (safi fam == safi_mup || safi fam == safi_mpls_vpn || fam == rf_evpn)
              needs_object)
            _ r h in
        let (p, (e, h2)) = bind-ok (or_error (malformed "prefix") (im.parse_prefix t)) _ r h1 in
        prefix_family p r h2

    decorate_family : (o : O) (r : Route N) → (decorate js im o r).family ≡ r.family
    unfolding decorate with_path_id
    decorate_family o r = ground arith

    object_family : (v : V) (r : Route N) → object_route js im fam v ≡ ok r → r.family ≡ fam
    unfolding object_route
    object_family v r h =
        let (o, (e, h1)) = bind-ok (object_of js not_an_object v) _ r h in
        let (q, (f, h2)) = bind-ok (parse_descriptor js im fam o) _ r h1 in
        ap (λ x. x.family) (sym (ok-inj (decorate js im o q) r h2))
        ∙ decorate_family o q
        ∙ (descriptor_family o q f).0

    pub parse_route_family : (v : V) (r : Route N) → parse_route js im fam v ≡ ok r → r.family ≡ fam
    unfolding parse_route object_route
    parse_route_family v r h =
        elim (if_ok (is_string_value js v) (parse_route_text js im fam (js.to_string v))
          (object_route js im fam v) r h) [
            | inl t ↦ (text_family (js.to_string v) r t).0
            | inr t ↦ object_family v r t
          ]

    pub parse_routes_array_family :
        (v : V) (rs : List (Route N))
        → parse_routes_array js im fam v ≡ ok rs
        → All (λ r. r.family ≡ fam) rs
    unfolding parse_routes_array
    parse_routes_array_family v rs h =
        let (g, h1) = seq-ok (guard_not (js.is_nullish v) (missing "routes")) _ rs h in
        read_array-All js (parse_route js im fam) (λ r. r.family ≡ fam) parse_route_family v rs h1
