-- ===== src/Fakebgpd/Connection/Enhanced.antt =====
-- Which side knows of Enhanced Route Refresh, by the OPEN that each of them reads.
use xk6_bgp.Base.{
  ℕ, Bool, true, false, ◌&&◌, ◌||◌, Option, none, some, List, [], ◌∷◌, ◌++◌, map, ◌≡◌, refl, arith,
  ap, ◌∙◌, ◌==◌, Map, nat_eq, ok,
}
use xk6_bgp.Packet.Route.{Family}
use xk6_bgp.Packet.Caps.{
  Capability, multi_protocol, four_octet_as, enhanced_route_refresh, default_capability, GrConfig,
  CapsConfig, code, extended_message_code, enhanced_route_refresh_code, when, add_path_cap,
  restart_cap, plain_caps, build_capabilities,
}
use xk6_bgp.Peer.Config.{capability_parameter}
use xk6_bgp.Peer.Negotiate.{Session, learn, learn_modes, learn_all}
use xk6_bgp.Peer.Negotiate.Offered.{built_parts, or_false}
use xk6_bgp.Fakebgpd.{caps_have, has_cap}

abbrev enhances : List Capability → Bool
enhances cs = caps_have enhanced_route_refresh_code cs

enhances-append : (xs ys : List Capability) → enhances (xs ++ ys) ≡ (enhances xs || enhances ys)
unfolding caps_have
enhances-append [] ys = refl
enhances-append (x ∷ xs) ys = ground (arith, enhances-append xs ys)

enhances-multi_protocol :
    (fs : List Family) (cs : List Capability) → enhances (map multi_protocol fs ++ cs) ≡ enhances cs
unfolding caps_have
enhances-multi_protocol [] cs = refl
enhances-multi_protocol (f ∷ fs) cs = enhances-multi_protocol fs cs

enhances-flags :
    (n : ℕ) (x y z : Bool)
    → enhances (
        four_octet_as n
        ∷ (when x Capability.route_refresh
            ++ (when y enhanced_route_refresh
                ++ when z (default_capability extended_message_code))))
      ≡ y
unfolding caps_have
enhances-flags n false false false = refl
enhances-flags n false false true = refl
enhances-flags n false true false = refl
enhances-flags n false true true = refl
enhances-flags n true false false = refl
enhances-flags n true false true = refl
enhances-flags n true true false = refl
enhances-flags n true true true = refl

enhances-rest :
    (c : CapsConfig) (cs : List Capability)
    → add_path_cap c ≡ ok cs
    → (g : Option GrConfig) → enhances (cs ++ restart_cap c g) ≡ false
unfolding add_path_cap caps_have
enhances-rest c cs h g = go c.add_path refl g
  where
    go :
        (ms : Map Family ℕ)
        → c.add_path ≡ ms
        → (g : Option GrConfig) → enhances (cs ++ restart_cap c g) ≡ false
    go [] e none = ground arith
    go [] e (some r) = ground arith
    go (t ∷ ts) e none = ground arith
    go (t ∷ ts) e (some r) = ground arith

-- A list that was built has the capability exactly if the configuration asks for it.
pub build_capabilities-enhances :
    (c : CapsConfig) (cs : List Capability)
    → build_capabilities c ≡ ok cs
    → caps_have enhanced_route_refresh_code cs ≡ c.enhanced_refresh
unfolding plain_caps
build_capabilities-enhances c cs h =
    let (more, q, e) = built_parts c cs h in
    let tail = more ++ restart_cap c c.graceful_restart in
    ap enhances e
    ∙ enhances-append (plain_caps c) tail
    ∙ ap (λ x. enhances (plain_caps c) || x) (enhances-rest c more q c.graceful_restart)
    ∙ or_false (enhances (plain_caps c))
    ∙ enhances-multi_protocol c.families _
    ∙ enhances-flags c.four_octet_as c.route_refresh c.enhanced_refresh c.extended_message

pub has_cap-one :
    (k : ℕ) (cs : List Capability) → has_cap (capability_parameter cs ∷ []) k ≡ caps_have k cs
unfolding has_cap
has_cap-one k cs = ground arith

learn-enhanced_refresh :
    (caps : CapsConfig) (c : Capability) (s : Session)
    → (learn caps c s).enhanced_refresh
      ≡ (s.enhanced_refresh || code c == enhanced_route_refresh_code && caps.enhanced_refresh)
unfolding learn
learn-enhanced_refresh caps (four_octet_as k) s = refl
learn-enhanced_refresh caps c s = refl

pub learn_all-enhanced_refresh :
    (caps : CapsConfig) (cs : List Capability) (s : Session) (ms : Map Family ℕ)
    → (learn_all caps cs s ms).0.enhanced_refresh
      ≡ (s.enhanced_refresh || caps_have enhanced_route_refresh_code cs && caps.enhanced_refresh)
unfolding learn_all caps_have
learn_all-enhanced_refresh caps [] s ms = ground arith
learn_all-enhanced_refresh caps (c ∷ cs) s ms = ground (
  arith,
  learn_all-enhanced_refresh caps cs (learn caps c s) (learn_modes c ms),
  learn-enhanced_refresh caps c s,
)
