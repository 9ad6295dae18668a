-- ===== src/Peer/Negotiate/OfferedAs.antt =====
-- internal/packet/caps.go: the AS number that BuildCapabilities tells the other side.
use xk6_bgp.Base.{
  ℕ, Bool, true, false, ◌||◌, Option, none, some, List, [], ◌∷◌, ◌++◌, map, ◌≡◌, refl, arith, ap,
  ◌∙◌, Map, nat_eq, ok,
}
use xk6_bgp.Packet.Route.{Family}
use xk6_bgp.Packet.Caps.{
  Capability, multi_protocol, four_octet_as, enhanced_route_refresh, default_capability, GrConfig,
  CapsConfig, extended_message_code, when, add_path_cap, restart_cap, plain_caps,
  build_capabilities,
}
use xk6_bgp.Peer.Negotiate.Offered.{built_parts}
use xk6_bgp.Peer.Negotiate.Learn.{last_as, has_four_octet}

last_as-append :
    (n : ℕ) (xs ys : List Capability) → last_as n (xs ++ ys) ≡ last_as (last_as n xs) ys
last_as-append n [] ys = refl
last_as-append n (four_octet_as k ∷ xs) ys = last_as-append k xs ys
last_as-append n (x ∷ xs) ys = last_as-append n xs ys

has_four_octet-append :
    (xs ys : List Capability) → has_four_octet (xs ++ ys) ≡ (has_four_octet xs || has_four_octet ys)
has_four_octet-append [] ys = refl
has_four_octet-append (four_octet_as k ∷ xs) ys = refl
has_four_octet-append (x ∷ xs) ys = has_four_octet-append xs ys

multi_protocol-as :
    (n : ℕ) (fs : List Family) (cs : List Capability)
    → last_as n (map multi_protocol fs ++ cs) ≡ last_as n cs
multi_protocol-as n [] cs = refl
multi_protocol-as n (f ∷ fs) cs = multi_protocol-as n fs cs

multi_protocol-four :
    (fs : List Family) (cs : List Capability)
    → has_four_octet (map multi_protocol fs ++ cs) ≡ has_four_octet cs
multi_protocol-four [] cs = refl
multi_protocol-four (f ∷ fs) cs = multi_protocol-four fs cs

add_path_cap-as :
    (n : ℕ) (c : CapsConfig) (cs : List Capability)
    → add_path_cap c ≡ ok cs
    → (g : Option GrConfig) → last_as n (cs ++ restart_cap c g) ≡ n
unfolding add_path_cap
add_path_cap-as n c cs h g = go c.add_path refl g
  where
    go :
        (ms : Map Family ℕ)
        → c.add_path ≡ ms
        → (g : Option GrConfig) → last_as n (cs ++ restart_cap c g) ≡ n
    go [] e none = ground arith
    go [] e (some r) = ground arith
    go (t ∷ ts) e none = ground arith
    go (t ∷ ts) e (some r) = ground arith

flags-as :
    (k : ℕ) (x y z : Bool)
    → last_as k (
        when x Capability.route_refresh
        ++ (when y enhanced_route_refresh ++ when z (default_capability extended_message_code)))
      ≡ k
flags-as k false false false = refl
flags-as k false false true = refl
flags-as k false true false = refl
flags-as k false true true = refl
flags-as k true false false = refl
flags-as k true false true = refl
flags-as k true true false = refl
flags-as k true true true = refl

-- The other side reads the AS of the capability, and knows that numbers take four octets.
pub offered_as :
    (c : CapsConfig) (cs : List Capability) (n : ℕ)
    → build_capabilities c ≡ ok cs
    → (last_as n cs ≡ c.four_octet_as) × (has_four_octet cs ≡ true)
unfolding plain_caps
offered_as c cs n h =
    let (more, q, e) = built_parts c cs h in
    let tail = more ++ restart_cap c c.graceful_restart in
    (
      ap (last_as n) e
          ∙ last_as-append n (plain_caps c) tail
          ∙ ap (λ k. last_as k tail)
              (multi_protocol-as n c.families _
                ∙ flags-as c.four_octet_as c.route_refresh c.enhanced_refresh c.extended_message)
          ∙ add_path_cap-as c.four_octet_as c more q c.graceful_restart,
      ap has_four_octet e
          ∙ has_four_octet-append (plain_caps c) tail
          ∙ ap (λ x. x || has_four_octet tail) (multi_protocol-four c.families _),
    )
