-- ===== src/Packet/Evpn.antt =====
-- internal/packet/evpn.go: the constructors of EVPN routes.
pub mod Laws
use xk6_bgp.Base.{
  ℕ, ◌%◌, ◌+◌, ◌^◌, Bool, true, false, not, ◌&&◌, ◌||◌, Option, none, some, List, [], ◌∷◌, length,
  if◌then◌else◌, ltb, ◌==◌, Result, ok, err, ◌>>=◌, ◌>>◌, guard_not,
}
use xk6_bgp.Packet.Addr.{Addr, v4, v6, is_valid, is6, bit_len, Prefix, is_valid_prefix}
use xk6_bgp.Packet.Route.{Family, Route, new_family}
use xk6_bgp.Packet.Types.{
  RouteError, rd_required, invalid_prefix, mac_length, label_count, ip_invalid, origin_required,
  gateway_mismatch, differ, built,
}
use xk6_bgp.Packet.Update.Attrs.{unmap}

abbrev pub rf_evpn : Family
rf_evpn = new_family 25 70

-- The address that goes into a MAC/IP route and its length in bits; none is 0 bits long.
unfoldable pub mac_ip_address : Addr → Result RouteError (ℕ × Addr)
mac_ip_address ip =
    let a = unmap ip in
    if not (is_valid ip)
    then ok (0, ip)
    else if not (bit_len a == 32) && not (bit_len a == 128)
    then err ip_invalid
    else ok (bit_len a, a)

-- The gateway that goes into an IP prefix route for a prefix of this family.
unfoldable pub gateway_for : Bool → Addr → Result RouteError Addr
gateway_for want_v6 gw =
    if not (is_valid gw)
    then ok (if want_v6 then v6 0 else v4 0)
    else if differ (is6 (unmap gw)) want_v6
    then err gateway_mismatch
    else ok (unmap gw)

-- `has_rd` is `rd != nil`; gobgp's constructors take the parts that the checks settle.
module _ {N : Type 0} where
  unfoldable pub new_evpn_mac_ip :
      (ℕ → Addr → N × ℕ) → Bool → List ℕ → Addr → List ℕ → Result RouteError (Route N)
  unfolding mac_ip_address
  new_evpn_mac_ip nlri has_rd mac ip labels = do
    guard_not (not has_rd) rd_required
    guard_not (not (length mac == 6)) mac_length
    guard_not (length labels == 0 || ltb 2 (length labels)) label_count
    a ← mac_ip_address ip
    built rf_evpn (some (nlri a.0 a.1))

  unfoldable pub new_evpn_imet : (Addr → Option (N × ℕ)) → Bool → Addr → Result RouteError (Route N)
  new_evpn_imet nlri has_rd origin_ip = do
    guard_not (not has_rd) rd_required
    guard_not (not (is_valid origin_ip)) origin_required
    built rf_evpn (nlri origin_ip)

  unfoldable pub new_evpn_ip_prefix :
      (ℕ → Addr → Addr → Option (N × ℕ)) → Bool → Prefix → Addr → Result RouteError (Route N)
  unfolding gateway_for
  new_evpn_ip_prefix nlri has_rd p gateway = do
    guard_not (not has_rd) rd_required
    guard_not (not (is_valid_prefix p)) invalid_prefix
    gw ← gateway_for (is6 (unmap p.addr)) gateway
    built rf_evpn (nlri (p.bits % 2 ^ 8) (unmap p.addr) gw)
