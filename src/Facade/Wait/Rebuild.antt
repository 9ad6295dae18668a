-- ===== src/Facade/Wait/Rebuild.antt =====
-- bgp.go and internal/packet/mup.go, vpn.go: the family that fits an address builds the same NLRI
-- as any other family that the constructors accept it for.
use xk6_bgp.Base.{ℕ, true, Option, ◌≡◌, ◌⊎◌, arith, ok}
use xk6_bgp.Packet.Addr.{Addr, Prefix}
use xk6_bgp.Packet.Route.{Family, Route, afi}
use xk6_bgp.Packet.Types.{
  check_mup_family_for_addr, check_mup_family_for_prefix, new_vpn_ip_route, new_mup_isd,
  new_mup_dsd, new_mup_t1st, new_mup_t2st,
}
use xk6_bgp.Facade.Descriptors.{mup_family_for_addr, vpn_family_for_addr}

abbrev pub moved : {N : Type 0} → Route N → Family → Route N
moved r fam = record r { family = fam }

module _ {N : Type 0} (fam : Family) where
  pub rebuild_isd :
      (nlri : Prefix → N × ℕ) (p : Prefix) (r : Route N)
      → new_mup_isd nlri true fam p ≡ ok r
      → new_mup_isd nlri true (mup_family_for_addr p.addr) p
        ≡ ok (moved r (mup_family_for_addr p.addr))
  unfolding new_mup_isd check_mup_family_for_prefix check_mup_family_for_addr
  rebuild_isd nlri p r h = ground arith

  pub rebuild_dsd :
      (nlri : Addr → N × ℕ) (a : Addr) (r : Route N)
      → new_mup_dsd nlri true fam a ≡ ok r
      → new_mup_dsd nlri true (mup_family_for_addr a) a ≡ ok (moved r (mup_family_for_addr a))
  unfolding new_mup_dsd check_mup_family_for_addr
  rebuild_dsd nlri a r h = ground arith

  pub rebuild_t1st :
      (nlri : Prefix → Addr → Addr → Option Addr → N × ℕ) (p : Prefix) (t e : Addr)
      (s : Option Addr) (r : Route N)
      → new_mup_t1st nlri true fam p t e s ≡ ok r
      → new_mup_t1st nlri true (mup_family_for_addr p.addr) p t e s
        ≡ ok (moved r (mup_family_for_addr p.addr))
  unfolding new_mup_t1st check_mup_family_for_prefix check_mup_family_for_addr
  rebuild_t1st nlri p t e s r h = ground arith

  pub rebuild_t2st :
      (nlri : Addr → ℕ → Addr → N × ℕ) (e : Addr) (n : ℕ) (t : Addr) (r : Route N)
      → (afi fam ≡ 1) ⊎ (afi fam ≡ 2)
      → new_mup_t2st nlri true fam e n t ≡ ok r
      → new_mup_t2st nlri true (mup_family_for_addr e) e n t ≡ ok (moved r (mup_family_for_addr e))
  unfolding new_mup_t2st check_mup_family_for_addr
  rebuild_t2st nlri e n t r k h = ground arith

  pub rebuild_vpn :
      (nlri : Prefix → Option (N × ℕ)) (p : Prefix) (r : Route N)
      → new_vpn_ip_route nlri true fam p ≡ ok r
      → new_vpn_ip_route nlri true (vpn_family_for_addr p.addr) p
        ≡ ok (moved r (vpn_family_for_addr p.addr))
  unfolding new_vpn_ip_route
  rebuild_vpn nlri p r h = ground arith
