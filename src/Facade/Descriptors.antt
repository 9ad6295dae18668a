-- ===== src/Facade/Descriptors.antt =====
-- bgp.go: descriptors of L3VPN, EVPN and MUP routes, and the routes made of them. A route
-- distinguisher that was parsed is never nil, so the constructors get `true` for it.
use xk6_bgp.Base.{
  ℕ, true, not, ◌||◌, String, Option, none, some, List, [], ◌∷◌, length, if◌then◌else◌, ltb, ◌==◌,
  ◌+◌, is, Result, ok, err, ◌>>=◌, ◌>>◌, guard_not, map_err,
}
use xk6_bgp.Packet.Addr.{Addr, zero_addr, is_v6}
use xk6_bgp.Packet.Route.{Family, Route, new_family, afi_ip, afi_ip6, safi_mpls_vpn, safi_mup}
use xk6_bgp.Packet.Types.{new_vpn_ip_route, new_mup_isd, new_mup_dsd, new_mup_t1st, new_mup_t2st}
use xk6_bgp.Packet.Evpn.{new_evpn_mac_ip, new_evpn_imet, new_evpn_ip_prefix}
use xk6_bgp.Facade.Runtime.{
  Exported, exported_int, exported_float, exported_array, Runtime, Imports, FacadeError, missing,
  malformed, unknown, label_count, not_a_number, bad_route, at_index, wrap32, wrap8, or_error,
  opt_string, opt_uint32, require_prefix, require_addr, parse_rd,
}

abbrev pub rf_ipv4_vpn : Family
rf_ipv4_vpn = new_family afi_ip safi_mpls_vpn

abbrev pub rf_ipv6_vpn : Family
rf_ipv6_vpn = new_family afi_ip6 safi_mpls_vpn

abbrev pub rf_mup_ipv4 : Family
rf_mup_ipv4 = new_family afi_ip safi_mup

abbrev pub rf_mup_ipv6 : Family
rf_mup_ipv6 = new_family afi_ip6 safi_mup

abbrev pub mup_family_for_addr : Addr → Family
mup_family_for_addr a = if is_v6 a then rf_mup_ipv6 else rf_mup_ipv4

abbrev pub vpn_family_for_addr : Addr → Family
vpn_family_for_addr a = if is_v6 a then rf_ipv6_vpn else rf_ipv4_vpn

module _ {V O : Type 0} (js : Runtime V O) {Rd Esi N : Type 0} (im : Imports Rd Esi N) where
  -- An address field that may be absent.
  abbrev pub optional_addr : O → String → Result FacadeError (Option Addr)
  optional_addr o key =
      let v = js.get o key in
      if js.is_nullish v
      then ok none
      else (do a ← or_error (malformed key) (im.parse_addr (js.to_string v)); ok (some a))

  abbrev pub addr_or_zero : Option Addr → Addr
  addr_or_zero none = zero_addr
  addr_or_zero (some a) = a

  unfoldable pub parse_esi_text : String → Option Esi
  parse_esi_text s =
      let t = im.trim_space s in
      if is t "" || is t "single-homed"
      then some im.arbitrary_esi
      else im.read_esi (im.split_fields t)

  unfoldable pub parse_esi : O → Result FacadeError Esi
  unfolding parse_esi_text
  parse_esi o =
      let v = js.get o "esi" in
      if js.is_nullish v
      then or_error (malformed "esi") (parse_esi_text "")
      else or_error (malformed "esi") (parse_esi_text (js.to_string v))

  abbrev pub label_of : Exported V → Result FacadeError ℕ
  label_of (exported_int n) = ok (wrap32 n)
  label_of (exported_float x) = ok (im.float_to_uint32 x)
  label_of _ = err not_a_number

  unfoldable pub read_labels : ℕ → List V → Result FacadeError (List ℕ)
  read_labels i [] = ok []
  read_labels i (v ∷ vs) = do
    n ← map_err (at_index i) (label_of (js.export v))
    rest ← read_labels (i + 1) vs
    ok (n ∷ rest)

  unfoldable pub exported_labels : Exported V → Result FacadeError (List ℕ)
  unfolding read_labels
  exported_labels (exported_array vs) = do
    guard_not (length vs == 0 || ltb 2 (length vs)) (label_count (length vs))
    read_labels 0 vs
  exported_labels _ = err not_a_number

  unfoldable pub parse_labels : O → Result FacadeError (List ℕ)
  unfolding exported_labels
  parse_labels o =
      if not (js.is_nullish (js.get o "labels"))
      then exported_labels (js.export (js.get o "labels"))
      else if not (js.is_nullish (js.get o "label"))
      then ok (wrap32 (js.to_integer (js.get o "label")) ∷ [])
      else err (missing "label")

  unfoldable pub parse_vpn_ip_route : Family → O → Result FacadeError (Route N)
  unfolding parse_rd require_prefix
  parse_vpn_ip_route fam o = do
    rd ← parse_rd js im o
    p ← require_prefix js im o "prefix"
    map_err bad_route (new_vpn_ip_route (im.vpn_nlri rd) true fam p)

  unfoldable pub parse_mac_ip : Rd → ℕ → O → Result FacadeError (Route N)
  unfolding opt_string parse_esi parse_labels
  parse_mac_ip rd tag o = do
    esi ← parse_esi o
    guard_not (is (opt_string js o "mac") "") (missing "mac")
    mac ← or_error (malformed "mac") (im.parse_mac (opt_string js o "mac"))
    ip ← optional_addr o "ip"
    labels ← parse_labels o
    map_err bad_route (
        new_evpn_mac_ip (λ n a. im.evpn_mac_ip rd esi tag mac n a labels) true mac (addr_or_zero ip)
          labels)

  unfoldable pub parse_imet : Rd → ℕ → O → Result FacadeError (Route N)
  unfolding require_addr
  parse_imet rd tag o = do
    a ← require_addr js im o "originIp"
    map_err bad_route (new_evpn_imet (im.evpn_imet rd tag) true a)

  unfoldable pub parse_ip_prefix : Rd → ℕ → O → Result FacadeError (Route N)
  unfolding opt_uint32 parse_esi require_prefix
  parse_ip_prefix rd tag o = do
    esi ← parse_esi o
    p ← require_prefix js im o "prefix"
    gw ← optional_addr o "gwIp"
    map_err bad_route (
        new_evpn_ip_prefix (λ n a g. im.evpn_prefix rd esi tag n a g (opt_uint32 js o "label")) true
          p (addr_or_zero gw))

  unfoldable pub parse_evpn_route : O → Result FacadeError (Route N)
  unfolding opt_string opt_uint32 parse_rd parse_mac_ip parse_imet parse_ip_prefix
  parse_evpn_route o =
      let type = opt_string js o "type" in
      let tag = opt_uint32 js o "ethTag" in
      do
        guard_not (is type "") (missing "type")
        rd ← parse_rd js im o
        if is type "mac-ip"
            then parse_mac_ip rd tag o
            else if is type "imet"
            then parse_imet rd tag o
            else if is type "ip-prefix"
            then parse_ip_prefix rd tag o
            else err (unknown type)

  unfoldable pub parse_isd : Family → Rd → O → Result FacadeError (Route N)
  unfolding require_prefix
  parse_isd fam rd o = do
    p ← require_prefix js im o "prefix"
    map_err bad_route (new_mup_isd (im.mup_isd rd) true fam p)

  unfoldable pub parse_dsd : Family → Rd → O → Result FacadeError (Route N)
  unfolding require_addr
  parse_dsd fam rd o = do
    a ← require_addr js im o "address"
    map_err bad_route (new_mup_dsd (im.mup_dsd rd) true fam a)

  unfoldable pub parse_t1st : Family → Rd → O → Result FacadeError (Route N)
  unfolding require_prefix require_addr opt_uint32
  parse_t1st fam rd o = do
    p ← require_prefix js im o "prefix"
    teid ← require_addr js im o "teid"
    endpoint ← require_addr js im o "endpoint"
    source ← optional_addr o "source"
    map_err bad_route (
        new_mup_t1st (λ q t e s. im.mup_t1st rd q t (wrap8 (opt_uint32 js o "qfi")) e s) true fam p
          teid endpoint source)

  unfoldable pub parse_t2st : Family → Rd → O → Result FacadeError (Route N)
  unfolding require_addr
  parse_t2st fam rd o = do
    endpoint ← require_addr js im o "endpoint"
    teid ← require_addr js im o "teid"
    guard_not (js.is_nullish (js.get o "endpointAddressLength")) (missing "endpointAddressLength")
    map_err bad_route (
        new_mup_t2st (im.mup_t2st rd) true fam endpoint
          (wrap8 (js.to_integer (js.get o "endpointAddressLength"))) teid)

  unfoldable pub parse_mup_route : Family → O → Result FacadeError (Route N)
  unfolding opt_string parse_rd parse_isd parse_dsd parse_t1st parse_t2st
  parse_mup_route fam o =
      let type = opt_string js o "type" in
      do
        guard_not (is type "") (missing "type")
        rd ← parse_rd js im o
        if is type "isd"
            then parse_isd fam rd o
            else if is type "dsd"
            then parse_dsd fam rd o
            else if is type "t1st"
            then parse_t1st fam rd o
            else if is type "t2st"
            then parse_t2st fam rd o
            else err (unknown type)
