-- ===== src/Packet/Update/Attrs.antt =====
-- internal/packet/path.go: PathAttrs, and the attributes that do not depend on the routes.
-- Extended communities are kept as the opaque values that gobgp hands out for them.
use xk6_bgp.Base.{
  ℕ, ◌%◌, ◌^◌, Bool, not, ◌||◌, Option, none, some, List, [], ◌∷◌, ◌++◌, if◌then◌else◌, ltb, ◌==◌,
  Result, ok, err, ◌>>=◌, ◌>>◌, guard_not,
}
use xk6_bgp.Packet.Addr.{Addr, zero_addr, v4, v6, is_valid, is6, is4in6}
use xk6_bgp.Packet.Route.{Family}

-- A bgp.PathNLRI as it is handed to gobgp: an ID of 0 where the route carries none.
pub record SentNlri (N : Type 0) : Type 0 where
  pub nlri : N
  pub id : ℕ

pub record Srv6L3ServiceConfig : Type 0 where
  pub sid : Addr
  pub endpoint_behavior : ℕ
  pub locator_block_length : ℕ
  pub locator_node_length : ℕ
  pub function_length : ℕ
  pub argument_length : ℕ
  pub transposition_length : ℕ
  pub transposition_offset : ℕ

pub record PmsiTunnelConfig : Type 0 where
  pub tunnel : ℕ
  pub is_leaf_info_required : Bool
  pub label : ℕ
  pub endpoint : Addr

-- The tunnel identifier: of Ingress Replication, or the raw octets of an address or of none.
pub data TunnelId : Type 0 where
  ingress_repl : Addr → TunnelId
  default_id : Option Addr → TunnelId

pub data Attribute (N : Type 0) : Type 0 where
  origin : ℕ → Attribute N
  -- one AS_SEQUENCE of one 4-octet, or one 2-octet, number
  as_path4 as_path2 as4_path : ℕ → Attribute N
  mp_reach : Family → List (SentNlri N) → Addr → Attribute N
  mp_unreach : Family → List (SentNlri N) → Attribute N
  next_hop : Addr → Attribute N
  multi_exit_disc local_pref : ℕ → Attribute N
  ext_communities : List ℕ → Attribute N
  prefix_sid : Srv6L3ServiceConfig → Attribute N
  pmsi_tunnel : PmsiTunnelConfig → TunnelId → Attribute N

pub record UpdateMessage (N : Type 0) : Type 0 where
  pub withdrawn_routes : List (SentNlri N)
  pub path_attributes : List (Attribute N)
  pub nlri : List (SentNlri N)

pub record PathAttrs : Type 0 where
  pub origin : ℕ
  pub next_hop : Addr
  pub local_as : ℕ
  pub med : Option ℕ
  pub local_pref : Option ℕ
  pub ext_communities : List ℕ
  pub srv6_l3_service : Option Srv6L3ServiceConfig
  pub pmsi_tunnel : Option PmsiTunnelConfig

pub data UpdateError : Type 0 where
  no_routes mixed_families next_hop_required local_as_required next_hop_not_ipv4 : UpdateError
  sid_not_ipv6 endpoint_required constructor_failed : UpdateError

abbrev pub as_trans : ℕ
as_trans = 23456

unfoldable pub as_path_attributes : {N : Type 0} → ℕ → Bool → List (Attribute N)
as_path_attributes local_as use_2_byte =
    if not use_2_byte
    then as_path4 local_as ∷ []
    else if ltb 0xffff local_as
    then as_path2 as_trans ∷ as4_path local_as ∷ []
    else as_path2 (local_as % 2 ^ 16) ∷ []

-- PMSI_TUNNEL_TYPE_INGRESS_REPL
abbrev pub ingress_repl_type : ℕ
ingress_repl_type = 6

-- Addr.Unmap: an IPv4-mapped IPv6 address becomes the IPv4 one.
abbrev pub unmap : Addr → Addr
unmap zero_addr = zero_addr
unmap (v4 n) = v4 n
unmap (v6 n) = if is4in6 (v6 n) then v4 (n % 2 ^ 32) else v6 n

-- Which of gobgp's constructors fail, and on what: they are not part of this repository.
pub record Gobgp (N : Type 0) : Type 0 where
  pub mp_unreach_fails : Family → List (SentNlri N) → Bool
  pub mp_reach_fails : Family → List (SentNlri N) → Addr → Bool
  pub next_hop_fails : Addr → Bool
  pub ingress_fails : Addr → Bool
  pub pmsi_fails : PmsiTunnelConfig → TunnelId → Bool

module _ {N : Type 0} where
  unfoldable pub build_prefix_sid : Srv6L3ServiceConfig → Result UpdateError (Attribute N)
  build_prefix_sid c =
      if not (is6 c.sid) || is4in6 c.sid then err sid_not_ipv6 else ok (prefix_sid c)

  tunnel_id : Gobgp N → PmsiTunnelConfig → Result UpdateError TunnelId
  tunnel_id g c =
      if c.tunnel == ingress_repl_type
      then if not (is_valid c.endpoint)
        then err endpoint_required
        else if g.ingress_fails (unmap c.endpoint)
        then err constructor_failed
        else ok (ingress_repl (unmap c.endpoint))
      else if is_valid c.endpoint
      then ok (default_id (some (unmap c.endpoint)))
      else ok (default_id none)

  unfoldable pub build_pmsi : Gobgp N → PmsiTunnelConfig → Result UpdateError (Attribute N)
  unfolding tunnel_id
  build_pmsi g c = do
    id ← tunnel_id g c
    guard_not (g.pmsi_fails c id) constructor_failed
    ok (pmsi_tunnel c id)

  abbrev option_attr : {A : Type 0} → (A → Attribute N) → Option A → List (Attribute N)
  option_attr f none = []
  option_attr f (some a) = f a ∷ []

  abbrev optional :
      {A : Type 0}
      → (A → Result UpdateError (Attribute N))
      → Option A
      → Result UpdateError (List (Attribute N))
  optional f none = ok []
  optional f (some a) = do b ← f a; ok (b ∷ [])

  abbrev communities_attr : List ℕ → List (Attribute N)
  communities_attr [] = []
  communities_attr (x ∷ xs) = ext_communities (x ∷ xs) ∷ []

  -- The end of both builders: what a caller may add to an advertisement.
  unfoldable pub optional_attributes : Gobgp N → PathAttrs → Result UpdateError (List (Attribute N))
  optional_attributes g a = do
    sid ← optional build_prefix_sid a.srv6_l3_service
    pmsi ← optional (build_pmsi g) a.pmsi_tunnel
    ok (
        option_attr multi_exit_disc a.med
        ++ (option_attr local_pref a.local_pref
            ++ (communities_attr a.ext_communities ++ (sid ++ pmsi))))
