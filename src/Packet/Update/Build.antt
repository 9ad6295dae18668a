-- ===== src/Packet/Update/Build.antt =====
-- internal/packet/path.go: BuildUpdateMessage and buildIPv4UnicastUpdate.
use xk6_bgp.Base.{
  ℕ, Bool, true, false, not, ◌&&◌, ◌||◌, Option, none, some, List, [], ◌∷◌, ◌++◌, if◌then◌else◌,
  ◌==◌, Result, ok, err, ◌>>=◌, ◌>>◌, guard_not,
}
use xk6_bgp.Packet.Addr.{Addr, is_valid, is4, is4in6}
use xk6_bgp.Packet.Route.{Family, Route, is_ipv4_unicast}
use xk6_bgp.Packet.Update.Attrs.{
  SentNlri, Attribute, origin, mp_reach, mp_unreach, next_hop, UpdateMessage, PathAttrs,
  UpdateError, no_routes, mixed_families, next_hop_required, local_as_required, next_hop_not_ipv4,
  constructor_failed, Gobgp, as_path_attributes, optional_attributes,
}

pub record EncodingOptions : Type 0 where
  pub use_mp_reach_for_ipv4_unicast : Bool
  pub use_extended_messages : Bool
  -- the negotiated ADD-PATH mode of each family, 0 where there is none
  pub add_path : Family → ℕ
  pub use_2_byte_as : Bool

-- An ID of 0 stands where the route carries none.
abbrev pub id_or_zero : Option ℕ → ℕ
id_or_zero none = 0
id_or_zero (some i) = i

module _ {N : Type 0} where
  unfoldable pub to_nlri : Route N → SentNlri N
  to_nlri r = record { nlri = r.nlri; id = id_or_zero r.path_id }

  -- The loop over the routes, which also checks that they are of one family.
  unfoldable pub collect : Family → List (Route N) → Result UpdateError (List (SentNlri N))
  collect family [] = ok []
  collect family (r ∷ rs) =
      let rest = collect family rs in
      if not (r.family == family) then err mixed_families else do ns ← rest; ok (to_nlri r ∷ ns)

  unfoldable pub build_ipv4_unicast :
      Gobgp N
      → Bool
      → PathAttrs
      → List (SentNlri N)
      → EncodingOptions
      → Result UpdateError (UpdateMessage N)
  build_ipv4_unicast g true a nlris opts =
      ok (record { withdrawn_routes = nlris; path_attributes = []; nlri = [] })
  build_ipv4_unicast g false a nlris opts = do
    guard_not (not (is_valid a.next_hop)) next_hop_required
    guard_not (a.local_as == 0) local_as_required
    guard_not (not (is4 a.next_hop) && not (is4in6 a.next_hop)) next_hop_not_ipv4
    guard_not (g.next_hop_fails a.next_hop) constructor_failed
    more ← optional_attributes g a
    ok (record {
      withdrawn_routes = [];
      path_attributes =
          origin a.origin
          ∷ (as_path_attributes a.local_as opts.use_2_byte_as ++ (next_hop a.next_hop ∷ more));
      nlri = nlris;
    })

  -- NEXT_HOP stands beside MP_REACH_NLRI for IPv4 unicast alone.
  unfoldable pub mp_next_hop : Gobgp N → Family → Addr → Result UpdateError (List (Attribute N))
  mp_next_hop g family nh =
      if is_ipv4_unicast family && (is4 nh || is4in6 nh)
      then if g.next_hop_fails nh then err constructor_failed else ok (next_hop nh ∷ [])
      else ok []

  unfoldable pub build_mp :
      Gobgp N
      → Bool
      → PathAttrs
      → Family
      → List (SentNlri N)
      → EncodingOptions
      → Result UpdateError (UpdateMessage N)
  build_mp g true a family nlris opts = do
    guard_not (g.mp_unreach_fails family nlris) constructor_failed
    ok (record { withdrawn_routes = []; path_attributes = mp_unreach family nlris ∷ []; nlri = [] })
  build_mp g false a family nlris opts = do
    guard_not (not (is_valid a.next_hop)) next_hop_required
    guard_not (a.local_as == 0) local_as_required
    guard_not (g.mp_reach_fails family nlris a.next_hop) constructor_failed
    nh ← mp_next_hop g family a.next_hop
    more ← optional_attributes g a
    ok (record {
      withdrawn_routes = [];
      path_attributes =
          origin a.origin
          ∷ (as_path_attributes a.local_as opts.use_2_byte_as
              ++ (mp_reach family nlris a.next_hop ∷ (nh ++ more)));
      nlri = [];
    })

  unfoldable pub build_update_message :
      Gobgp N
      → Bool
      → PathAttrs
      → List (Route N)
      → EncodingOptions
      → Result UpdateError (UpdateMessage N)
  build_update_message g withdraw a [] opts = err no_routes
  build_update_message g withdraw a (r ∷ rs) opts = do
    nlris ← collect r.family (r ∷ rs)
    if is_ipv4_unicast r.family && not opts.use_mp_reach_for_ipv4_unicast
        then build_ipv4_unicast g withdraw a nlris opts
        else build_mp g withdraw a r.family nlris opts
