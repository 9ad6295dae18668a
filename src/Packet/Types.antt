-- ===== src/Packet/Types.antt =====
-- internal/packet/iproute.go, vpn.go and mup.go: the constructors of IP, VPN and MUP routes.
-- gobgp's NLRI constructors answer with an NLRI and its length, or refuse.
pub mod Laws
use xk6_bgp.Base.{
  ℕ, ◌+◌, ◌/◌, Bool, true, false, not, ◌&&◌, ◌||◌, Option, none, some, if◌then◌else◌, ltb, ◌==◌,
  Result, ok, err, ◌>>=◌, ◌>>◌, guard_not,
}
use xk6_bgp.Packet.Addr.{Addr, is_valid, is4, is_v6, Prefix, is_valid_prefix}
use xk6_bgp.Packet.Route.{
  Family, Route, afi, safi, afi_ip, afi_ip6, safi_unicast, safi_mpls_vpn, safi_mup,
}

pub data RouteError : Type 0 where
  wrong_safi wrong_afi rd_required invalid_prefix family_mismatch constructor_failed : RouteError
  teid_not_ipv4 endpoint_required source_invalid : RouteError
  mac_length label_count ip_invalid origin_required gateway_mismatch : RouteError
  endpoint_length_out_of_range : ℕ → RouteError

-- `!=` on two flags
abbrev pub differ : Bool → Bool → Bool
differ true b = not b
differ false b = b

unfoldable pub ip_wire_len : Prefix → ℕ
ip_wire_len p = 1 + (p.bits + 7) / 8

module _ {N : Type 0} where
  abbrev pub plain_route : Family → N → ℕ → Route N
  plain_route fam n len = record { family = fam; nlri = n; wire_len = len; path_id = none }

  abbrev pub built : Family → Option (N × ℕ) → Result RouteError (Route N)
  built fam none = err constructor_failed
  built fam (some (n, len)) = ok (plain_route fam n len)

  abbrev pub ip_built : Family → Prefix → Option N → Result RouteError (Route N)
  ip_built fam p none = err constructor_failed
  ip_built fam p (some n) = ok (plain_route fam n (ip_wire_len p))

  unfoldable pub new_ip_route : (Prefix → Option N) → Family → Prefix → Result RouteError (Route N)
  new_ip_route nlri fam p = do
    guard_not (not (safi fam == safi_unicast)) wrong_safi
    guard_not (not (afi fam == afi_ip || afi fam == afi_ip6)) wrong_afi
    guard_not (not (is_valid_prefix p)) invalid_prefix
    guard_not (differ (afi fam == afi_ip6) (is_v6 p.addr)) family_mismatch
    ip_built fam p (nlri p)

  -- `has_rd` is `rd != nil`.
  unfoldable pub new_vpn_ip_route :
      (Prefix → Option (N × ℕ)) → Bool → Family → Prefix → Result RouteError (Route N)
  new_vpn_ip_route nlri has_rd fam p = do
    guard_not (not (safi fam == safi_mpls_vpn)) wrong_safi
    guard_not (not (afi fam == afi_ip || afi fam == afi_ip6)) wrong_afi
    guard_not (not has_rd) rd_required
    guard_not (not (is_valid_prefix p)) invalid_prefix
    guard_not (differ (afi fam == afi_ip6) (is_v6 p.addr)) family_mismatch
    built fam (nlri p)

unfoldable pub check_mup_family_for_addr : Family → Addr → Result RouteError (Unit {0})
check_mup_family_for_addr fam a = do
  guard_not (not (safi fam == safi_mup)) wrong_safi
  guard_not (differ (afi fam == afi_ip6) (is_v6 a)) family_mismatch
  ok tt

unfoldable pub check_mup_family_for_prefix : Family → Prefix → Result RouteError (Unit {0})
unfolding check_mup_family_for_addr
check_mup_family_for_prefix fam p = do
  guard_not (not (safi fam == safi_mup)) wrong_safi
  guard_not (not (is_valid_prefix p)) invalid_prefix
  check_mup_family_for_addr fam p.addr

abbrev pub check_source : Family → Option Addr → Result RouteError (Unit {0})
check_source fam none = ok tt
check_source fam (some a) = do
  guard_not (not (is_valid a)) source_invalid
  check_mup_family_for_addr fam a

abbrev pub check_endpoint_length : ℕ → ℕ → Result RouteError (Unit {0})
check_endpoint_length a n =
    if a == afi_ip
    then guard_not (ltb n 32 || ltb 64 n) (endpoint_length_out_of_range n)
    else if a == afi_ip6
    then guard_not (ltb n 128 || ltb 160 n) (endpoint_length_out_of_range n)
    else ok tt

module _ {N : Type 0} where
  -- gobgp's MUP constructors do not fail.
  unfoldable pub new_mup_isd :
      (Prefix → N × ℕ) → Bool → Family → Prefix → Result RouteError (Route N)
  unfolding check_mup_family_for_prefix
  new_mup_isd nlri has_rd fam p = do
    check_mup_family_for_prefix fam p
    guard_not (not has_rd) rd_required
    built fam (some (nlri p))

  unfoldable pub new_mup_dsd : (Addr → N × ℕ) → Bool → Family → Addr → Result RouteError (Route N)
  unfolding check_mup_family_for_addr
  new_mup_dsd nlri has_rd fam a = do
    check_mup_family_for_addr fam a
    guard_not (not has_rd) rd_required
    built fam (some (nlri a))

  unfoldable pub new_mup_t1st :
      (Prefix → Addr → Addr → Option Addr → N × ℕ)
      → Bool
      → Family
      → Prefix
      → Addr
      → Addr
      → Option Addr
      → Result RouteError (Route N)
  unfolding check_mup_family_for_prefix check_mup_family_for_addr
  new_mup_t1st nlri has_rd fam p teid endpoint source = do
    check_mup_family_for_prefix fam p
    guard_not (not has_rd) rd_required
    guard_not (not (is4 teid)) teid_not_ipv4
    guard_not (not (is_valid endpoint)) endpoint_required
    check_mup_family_for_addr fam endpoint
    check_source fam source
    built fam (some (nlri p teid endpoint source))

  unfoldable pub new_mup_t2st :
      (Addr → ℕ → Addr → N × ℕ) → Bool → Family → Addr → ℕ → Addr → Result RouteError (Route N)
  unfolding check_mup_family_for_addr
  new_mup_t2st nlri has_rd fam endpoint n teid = do
    guard_not (not has_rd) rd_required
    guard_not (not (is_valid endpoint)) endpoint_required
    check_mup_family_for_addr fam endpoint
    check_endpoint_length (afi fam) n
    guard_not (not (is4 teid)) teid_not_ipv4
    built fam (some (nlri endpoint n teid))
