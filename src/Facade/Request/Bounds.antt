-- ===== src/Facade/Request/Bounds.antt =====
-- bgp.go: the numbers in the attributes of a script fit into their fields.
use xk6_bgp.Base.{
  bind-ok, ok-inj, if_ok, ℕ, ◌^◌, ◌<◌, ◌≤◌, Bool, true, false, not, ◌==◌, ltb, String, Option, none,
  some, ◌≡◌, refl, subst, arith, ok, err, Result, guard_not, seq-ok, guard-ok, guard-holds, is,
  map_err, ◌>>=◌, inl, inr, if◌then◌else◌,
}
use xk6_bgp.Packet.Update.Attrs.{PathAttrs, Srv6L3ServiceConfig, PmsiTunnelConfig}
use xk6_bgp.Facade.Runtime.{
  Runtime, Imports, FacadeError, missing, malformed, unknown, transposed, origin_out_of_range,
  in_field, not_an_object, or_error, object_of, opt_string, opt_uint32, wrap32, is_string_value,
}
use xk6_bgp.Facade.Runtime.Laws.{or_error-ok}
use xk6_bgp.Facade.Descriptors.{optional_addr}
use xk6_bgp.Facade.Attrs.{
  pmsi_tunnel_by_name, sr_behavior_by_name, parse_ext_communities, parse_srv6_l3_service,
  parse_pmsi_tunnel, default_structure, with_structure, read_structure, read_tunnel, octet_or,
}
use xk6_bgp.Facade.Request.{optional_field, optional_uint32, parse_attrs}

-- All that an Option holds.
abbrev pub Every : {A : Type 0} → (A → Type 0) → Option A → Type 0
Every P none = Unit {0}
Every P (some a) = P a

-- One octet each, and nothing transposed.
abbrev pub IsServiceBounded : Srv6L3ServiceConfig → Type 0
IsServiceBounded c =
    (16 ≤ c.endpoint_behavior)
    × (c.endpoint_behavior ≤ 20)
    × (c.locator_block_length < 256)
    × (c.locator_node_length < 256)
    × (c.function_length < 256)
    × (c.argument_length < 256)
    × (c.transposition_length ≡ 0)
    × (c.transposition_offset < 256)

-- The same before the check on transposition.
abbrev AreOctets : Srv6L3ServiceConfig → Type 0
AreOctets c =
    (16 ≤ c.endpoint_behavior)
    × (c.endpoint_behavior ≤ 20)
    × (c.locator_block_length < 256)
    × (c.locator_node_length < 256)
    × (c.function_length < 256)
    × (c.argument_length < 256)
    × (c.transposition_length < 256)
    × (c.transposition_offset < 256)

untransposed :
    (c : Srv6L3ServiceConfig) → AreOctets c → c.transposition_length ≡ 0 → IsServiceBounded c
untransposed c (b1, b2, l, n, f, a, t, u) e = (b1, b2, l, n, f, a, e, u)

conditional_all :
    {A : Type 0} (P : A → Type 0) (b : Bool) (a : A) → P a → Every P (if b then none else some a)
conditional_all P true a p = tt
conditional_all P false a p = p

field_all :
    {A : Type 0} (P : A → Type 0) (w : FacadeError → FacadeError) (b : Bool)
    (m : Result FacadeError A) (x : Option A)
    → ((a : A) → m ≡ ok a → P a)
    → (if b then ok none else (do a ← map_err w m; ok (some a))) ≡ ok x
    → Every P x
field_all P w true m x h e = subst (Every P) (ok-inj none x e) tt
field_all P w false (ok a) x h e = subst (Every P) (ok-inj (some a) x e) (h a refl)
field_all P w false (err f) x h e = ground arith

abbrev pub IsTunnelBounded : PmsiTunnelConfig → Type 0
IsTunnelBounded c = (c.tunnel < 256) × (c.label < 2 ^ 32)

abbrev pub IsBounded : PathAttrs → Type 0
IsBounded a =
    (a.origin ≤ 2)
    × (a.local_as < 2 ^ 32)
    × Every (λ n. n < 2 ^ 32) a.med
    × Every (λ n. n < 2 ^ 32) a.local_pref
    × Every IsServiceBounded a.srv6_l3_service
    × Every IsTunnelBounded a.pmsi_tunnel

behavior_range :
    (to_upper : String → String) (s : String) (n : ℕ)
    → sr_behavior_by_name to_upper s ≡ some n
    → (16 ≤ n) × (n ≤ 20)
unfolding sr_behavior_by_name
behavior_range to_upper s n h = (ground arith, ground arith)

tunnel_range :
    (f g : String → String) (s : String) (n : ℕ) → pmsi_tunnel_by_name f g s ≡ some n → n < 256
unfolding pmsi_tunnel_by_name
tunnel_range f g s n h = ground arith

module _ {V O : Type 0} (js : Runtime V O) {Rd Esi N : Type 0} (im : Imports Rd Esi N) where
  uint32_range : (o : O) (key : String) → opt_uint32 js o key < 2 ^ 32
  unfolding opt_uint32
  uint32_range o key = ground arith

  octet_range : (o : O) (key : String) (d : ℕ) → d < 256 → octet_or js im o key d < 256
  octet_range o key d h = ground arith

  optional_range : (o : O) (key : String) → Every (λ n. n < 2 ^ 32) (optional_uint32 js im o key)
  optional_range o key =
      conditional_all (λ n. n < 2 ^ 32) (js.is_nullish (js.get o key))
        (wrap32 (js.to_integer (js.get o key))) (omega arith)

  structure_octets :
      (o : O) (c d : Srv6L3ServiceConfig)
      → AreOctets c
      → read_structure js im c o ≡ ok d
      → AreOctets d
  structure_octets o c d a h = elim (if_ok (js.is_nullish (js.get o "structure")) (ok c) _ d h) [
    | inl e ↦ subst AreOctets (ok-inj c d e) a
    | inr e ↦
        let (so, (f, g)) = bind-ok (object_of js not_an_object (js.get o "structure")) _ d e in
        subst AreOctets (ok-inj (with_structure js im c so) d g) (fields so c a)
  ]
    where
      fields :
          (so : O) (c : Srv6L3ServiceConfig) → AreOctets c → AreOctets (with_structure js im c so)
      fields so c (b1, b2, l, n, f, r, t, u) = (
        b1,
        b2,
        octet_range so "locatorBlockLength" c.locator_block_length l,
        octet_range so "locatorNodeLength" c.locator_node_length n,
        octet_range so "functionLength" c.function_length f,
        octet_range so "argumentLength" c.argument_length r,
        octet_range so "transpositionLength" c.transposition_length t,
        octet_range so "transpositionOffset" c.transposition_offset u,
      )

  service_bounded :
      (v : V) (c : Srv6L3ServiceConfig) → parse_srv6_l3_service js im v ≡ ok c → IsServiceBounded c
  unfolding parse_srv6_l3_service
  service_bounded v c h =
      let (o, (eo, h1)) = bind-ok (object_of js not_an_object v) _ c h in
      let (g1, h2) = seq-ok (guard_not (is (opt_string js o "sid") "") (missing "sid")) _ c h1 in
      let (sid, (es, h3)) =
        bind-ok (or_error (malformed "sid") (im.parse_addr (opt_string js o "sid"))) _ c h2 in
      let (g2, h4) =
        seq-ok (guard_not (is (opt_string js o "behavior") "") (missing "behavior")) _ c h3 in
      let named = sr_behavior_by_name im.to_upper (opt_string js o "behavior") in
      let (n, (en, h5)) = bind-ok (or_error (unknown "behavior") named) _ c h4 in
      let (d, (ed, h6)) = bind-ok (read_structure js im (default_structure js im sid n) o) _ c h5 in
      let (g3, h7) = seq-ok (guard_not (not (d.transposition_length == 0)) transposed) _ c h6 in
      let range =
        behavior_range im.to_upper (opt_string js o "behavior") n
          (or_error-ok (unknown "behavior") named n en) in
      let octets : AreOctets d =
        structure_octets o (default_structure js im sid n) d
          (
            range.0,
            range.1,
            ground arith,
            ground arith,
            ground arith,
            ground arith,
            ground arith,
            ground arith,
          )
          ed in
      let zeroed : (d.transposition_length == 0) ≡ true =
        guard-holds (d.transposition_length == 0) _ g3 in
      subst IsServiceBounded (ok-inj d c h7) (untransposed d octets (ground arith))

  tunnel_number : (v : V) (n : ℕ) → read_tunnel js im v ≡ ok n → n < 256
  unfolding read_tunnel
  tunnel_number v n h = elim (if_ok (is_string_value js v) _ _ n h) [
    | inl e ↦ tunnel_range im.to_lower im.trim_space (js.to_string v) n (
        or_error-ok (unknown "tunnel")
          (pmsi_tunnel_by_name im.to_lower im.trim_space (js.to_string v)) n e)
    | inr e ↦ ground arith
  ]

  tunnel_bounded :
      (v : V) (c : PmsiTunnelConfig) → parse_pmsi_tunnel js im v ≡ ok c → IsTunnelBounded c
  unfolding parse_pmsi_tunnel
  tunnel_bounded v c h =
      let (o, (eo, h1)) = bind-ok (object_of js not_an_object v) _ c h in
      let (g1, h2) =
        seq-ok (guard_not (js.is_nullish (js.get o "tunnel")) (missing "tunnel")) _ c h1 in
      let (n, (en, h3)) = bind-ok (read_tunnel js im (js.get o "tunnel")) _ c h2 in
      let (ep, (ee, h4)) = bind-ok (optional_addr js im o "endpoint") _ c h3 in
      subst IsTunnelBounded (ok-inj _ c h4)
        (tunnel_number (js.get o "tunnel") n en, uint32_range o "label")

  optional_all :
      {A : Type 0} (P : A → Type 0) (o : O) (key : String) (f : V → Result FacadeError A)
      (x : Option A)
      → ((v : V) (a : A) → f v ≡ ok a → P a)
      → optional_field js im o key f ≡ ok x
      → Every P x
  optional_all P o key f x h e =
      field_all P (in_field key) (js.is_nullish (js.get o key)) (f (js.get o key)) x
        (h (js.get o key)) e

  -- The numbers in the attributes of a script's advertisement are bounded: the origin is one of the
  -- three of RFC 4271, the local AS, MED and LOCAL_PREF are less than 2 ^ 32, the SRv6 lengths are
  -- octets of which none is transposed, the behaviour is one of the five, the tunnel type is an
  -- octet, and the tunnel's label is less than 2 ^ 32, which is all that the code checks of it.
  pub parse_attrs-IsBounded : (o : O) (a : PathAttrs) → parse_attrs js im o ≡ ok a → IsBounded a
  unfolding parse_attrs
  parse_attrs-IsBounded o a h =
      let (g1, h1) =
        seq-ok (guard_not (is (opt_string js o "nextHop") "") (missing "nextHop")) _ a h in
      let (nh, (en, h2)) =
        bind-ok (or_error (malformed "nextHop") (im.parse_addr (opt_string js o "nextHop"))) _ a
          h1 in
      let origin = opt_uint32 js o "origin" in
      let (g2, h3) = seq-ok (guard_not (ltb 2 origin) (origin_out_of_range origin)) _ a h2 in
      let (ec, (ee, h4)) =
        bind-ok (optional_field js im o "extCommunities" (parse_ext_communities js im)) _ a h3 in
      let (sv, (es, h5)) =
        bind-ok (optional_field js im o "srv6L3Service" (parse_srv6_l3_service js im)) _ a h4 in
      let (pt, (ep, h6)) =
        bind-ok (optional_field js im o "pmsiTunnel" (parse_pmsi_tunnel js im)) _ a h5 in
      let small : ltb 2 origin ≡ false = guard-ok (ltb 2 origin) _ g2 in
      subst IsBounded (ok-inj _ a h6) (
        ground arith,
        uint32_range o "localAs",
        optional_range o "med",
        optional_range o "localPref",
        optional_all IsServiceBounded o "srv6L3Service" (parse_srv6_l3_service js im) sv
            service_bounded es,
        optional_all IsTunnelBounded o "pmsiTunnel" (parse_pmsi_tunnel js im) pt tunnel_bounded ep,
      )
