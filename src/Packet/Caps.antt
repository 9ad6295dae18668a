-- ===== src/Packet/Caps.antt =====
-- internal/packet/caps.go: the capabilities of an OPEN.
use xk6_bgp.Base.{
  ℕ, Bool, true, false, not, ◌||◌, Option, none, some, List, [], ◌∷◌, ◌++◌, map, if◌then◌else◌, ltb,
  ◌==◌, is, String, Result, ok, err, ◌>>=◌, ◌>>◌, guard_not, Map, lookup, nat_eq,
}
use xk6_bgp.Packet.Route.{Family}

-- gobgp's ParameterCapabilityInterface with the types that the code builds or looks for; any
-- other capability is known by its code alone.
pub data Capability : Type 0 where
  multi_protocol : Family → Capability
  four_octet_as : ℕ → Capability
  route_refresh enhanced_route_refresh : Capability
  add_path : List (Family × ℕ) → Capability
  graceful_restart : Bool → Bool → ℕ → List (Family × Bool) → Capability
  default_capability : ℕ → Capability

abbrev pub extended_message_code : ℕ
extended_message_code = 6

abbrev pub route_refresh_code : ℕ
route_refresh_code = 2

abbrev pub enhanced_route_refresh_code : ℕ
enhanced_route_refresh_code = 70

-- The codes of the IANA registry.
abbrev pub code : Capability → ℕ
code (multi_protocol f) = 1
code (four_octet_as n) = 65
code route_refresh = route_refresh_code
code enhanced_route_refresh = enhanced_route_refresh_code
code (add_path ts) = 69
code (graceful_restart r n t ts) = 64
code (default_capability c) = c

pub record GrConfig : Type 0 where
  pub restart_time : ℕ
  pub notification : Bool
  pub restarting : Bool

pub record CapsConfig : Type 0 where
  pub families : List Family
  pub four_octet_as : ℕ
  pub route_refresh : Bool
  pub extended_message : Bool
  pub graceful_restart : Option GrConfig
  pub enhanced_refresh : Bool
  pub add_path : Map Family ℕ

pub data CapsError : Type 0 where
  no_families no_local_as : CapsError
  bad_mode : ℕ → Family → CapsError
  not_advertised : Family → CapsError

unfoldable pub has_extended_message_cap : List Capability → Bool
has_extended_message_cap [] = false
has_extended_message_cap (c ∷ cs) =
    if code c == extended_message_code then true else has_extended_message_cap cs

abbrev pub is_member : Family → List Family → Bool
is_member f [] = false
is_member f (g ∷ gs) = if g == f then true else is_member f gs

-- The checks of the loop over the ADD-PATH map, `advertised` being the families.
unfoldable pub check_add_path : List Family → Map Family ℕ → Result CapsError (Unit {0})
check_add_path advertised [] = ok tt
check_add_path advertised ((f, m) ∷ ms) = do
  guard_not (ltb m 1 || ltb 3 m) (bad_mode m f)
  guard_not (not (is_member f advertised)) (not_advertised f)
  check_add_path advertised ms

-- The tuples in the order of the families.
unfoldable pub add_path_tuples : Map Family ℕ → List Family → List (Family × ℕ)
add_path_tuples ms [] = []
add_path_tuples ms (f ∷ fs) = elim (lookup f ms) [
  | some m ↦ (f, m) ∷ add_path_tuples ms fs
  | none ↦ add_path_tuples ms fs
]

abbrev pub when : Bool → Capability → List Capability
when b c = if b then c ∷ [] else []

unfoldable pub add_path_cap : CapsConfig → Result CapsError (List Capability)
unfolding check_add_path add_path_tuples
add_path_cap c = elim c.add_path [
  | [] ↦ ok []
  | t ∷ ts ↦ do
    check_add_path c.families c.add_path
    ok (Capability.add_path (add_path_tuples c.add_path c.families) ∷ [])
]

abbrev pub restart_cap : CapsConfig → Option GrConfig → List Capability
restart_cap c none = []
restart_cap c (some gr) =
    Capability.graceful_restart gr.restarting gr.notification gr.restart_time
      (map (λ f. (f, false)) c.families)
    ∷ []

-- What stands in front of the ADD-PATH capability.
unfoldable pub plain_caps : CapsConfig → List Capability
plain_caps c =
    map multi_protocol c.families
    ++ (Capability.four_octet_as c.four_octet_as
        ∷ (when c.route_refresh Capability.route_refresh
            ++ (when c.enhanced_refresh enhanced_route_refresh
                ++ when c.extended_message (default_capability extended_message_code))))

unfoldable pub build_capabilities : CapsConfig → Result CapsError (List Capability)
unfolding add_path_cap plain_caps
build_capabilities c = elim c.families [
  | [] ↦ err no_families
  | f ∷ fs ↦ do
    guard_not (c.four_octet_as == 0) no_local_as
    ap ← add_path_cap c
    ok (plain_caps c ++ (ap ++ restart_cap c c.graceful_restart))
]

-- The names in scripts; the texts are lowered and trimmed by the standard library's functions.
module _ (to_lower trim_space : String → String) where
  unfoldable pub resolve_add_path_mode : String → Option ℕ
  resolve_add_path_mode name =
      let s = to_lower (trim_space name) in
      if is s "receive"
      then some 1
      else if is s "send"
      then some 2
      else if is s "both"
      then some 3
      else none

  -- `values` is gobgp's AddressFamilyValueMap.
  unfoldable pub resolve_family : (String → Option Family) → String → Option Family
  resolve_family values name = values (to_lower (trim_space name))
