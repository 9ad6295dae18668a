-- ===== src/Facade/Wait/Keys.antt =====
-- bgp.go: the key that a script waits for is the text of the NLRI that the same descriptor
-- advertises.
use Prim.Native.String.{◌++◌ as append}
use xk6_bgp.Base.{
  Bool, true, not, String, none, some, ◌≡◌, ◌⊎◌, err, Result, if◌then◌else◌, string_eq,
}
use xk6_bgp.Packet.Route.{Family, Route, afi, safi, safi_mup, safi_mpls_vpn}
use xk6_bgp.Packet.Evpn.{rf_evpn}
use xk6_bgp.Facade.Runtime.{Runtime, Imports, FacadeError, no_discriminator, wrap32, field_or}
use xk6_bgp.Facade.Routes.Yield.{descriptor_family as plain_descriptor}
use xk6_bgp.Facade.Wait.{id_suffix}

module _ {V O : Type 0} (js : Runtime V O) {Rd Esi N : Type 0} (im : Imports Rd Esi N) where
  -- The three ways of descriptorKey.
  dispatch :
      Bool
      → Bool
      → Bool
      → Result FacadeError String
      → Result FacadeError String
      → Result FacadeError String
      → Result FacadeError String
  dispatch untyped is_evpn without_rd x y z =
      if not untyped
      then if is_evpn then x else y
      else if not without_rd
      then z
      else err no_discriminator

  -- A family that is carried by descriptors: MUP over IPv4 or IPv6, L3VPN, where a descriptor has no
  -- type, or EVPN.
  pub data IsDescribed (o : O) (fam : Family) : Type 0 where
    mup : safi fam ≡ safi_mup → (afi fam ≡ 1) ⊎ (afi fam ≡ 2) → IsDescribed o fam
    l3vpn : safi fam ≡ safi_mpls_vpn → js.is_nullish (js.get o "type") ≡ true → IsDescribed o fam
    evpn : fam ≡ rf_evpn → IsDescribed o fam

  -- The key of the receive side: the text of the NLRI, with the path id behind it.
  abbrev pub route_key : Route N → String
  route_key r = elim r.path_id [
    | none ↦ im.nlri_string r.nlri
    | some i ↦ append (im.nlri_string r.nlri) (id_suffix i)
  ]

  path_suffix : O → String → String
  path_suffix o key =
      field_or js o "pathId" key (λ i. append key (id_suffix (wrap32 (js.to_integer i))))
