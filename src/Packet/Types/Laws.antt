-- ===== src/Packet/Types/Laws.antt =====
-- The routes that the constructors let through, and what they mean for the packing of UPDATEs.
use xk6_bgp.Base.{
  ℕ, ◌+◌, ◌/◌, ◌≤◌, Bool, true, false, not, ◌&&◌, ◌||◌, Option, none, some, List, [], ◌∷◌, leb,
  ◌==◌, ok, guard_not, seq-ok, guard-ok, ◌≡◌, ◌⊎◌, inl, inr, refl, ap, ◌∙◌, arith, All, Bool-cases,
}
use xk6_bgp.Packet.Addr.{Addr, zero_addr, v4, v6, is_valid, is_v6, Prefix, is_valid_prefix, bit_len}
use xk6_bgp.Packet.Route.{Family, Route, afi, safi}
use xk6_bgp.Packet.Types.{differ, ip_wire_len, ip_built, new_ip_route}
use xk6_bgp.Packet.Update.Attrs.{UpdateMessage, PathAttrs, Gobgp}
use xk6_bgp.Packet.Update.Build.{EncodingOptions}
use xk6_bgp.Packet.Chunk.Routes.{shell_overhead, chunk_routes, wire_size}
use xk6_bgp.Packet.Chunk.Partition.{answer, first_oversize, chunks_of, pack-answer}
use xk6_bgp.Packet.Chunk.Fit.{room}

bit_len_bound : (p : Prefix) → is_valid_prefix p ≡ true → p.bits ≤ 128
bit_len_bound p h = go p.addr p.bits h
  where
    go : (a : Addr) (b : ℕ) → (is_valid a && leb b (bit_len a)) ≡ true → b ≤ 128
    go zero_addr b h = cc
    go (v4 n) b h = ground arith
    go (v6 n) b h = ground arith

holds_of_guard : (b : Bool) → not b ≡ false → b ≡ true
holds_of_guard true h = refl
holds_of_guard false h = cc

same_flag : (x y : Bool) → differ x y ≡ false → y ≡ x
same_flag true true h = refl
same_flag true false h = cc
same_flag false true h = cc
same_flag false false h = refl

ip_afi : (n : ℕ) → not (n == 1 || n == 2) ≡ false → (n ≡ 1) ⊎ (n ≡ 2)
ip_afi n h = elim (Bool-cases (n == 1)) [ inl e ↦ inl (ground arith) | inr e ↦ inr (ground arith) ]

ip_built_ok :
    {N : Type 0} (fam : Family) (p : Prefix) (o : Option N) (r : Route N)
    → ip_built fam p o ≡ ok r
    → (r.family ≡ fam) × (r.wire_len ≡ 1 + (p.bits + 7) / 8)
unfolding ip_wire_len
ip_built_ok fam p none r h = cc
ip_built_ok fam p (some n) r h = ground arith

module _ {N : Type 0} where
  -- An IP route that was built is of a unicast family of IPv4 or IPv6, its address is of that
  -- family, and it takes from 1 to 17 octets.
  pub new_ip_route_sound :
      (nlri : Prefix → Option N) (fam : Family) (p : Prefix) (r : Route N)
      → new_ip_route nlri fam p ≡ ok r
      → (r.family ≡ fam)
        × (safi fam ≡ 1)
        × ((afi fam ≡ 1) ⊎ (afi fam ≡ 2))
        × (is_v6 p.addr ≡ (afi fam == 2))
        × (1 ≤ r.wire_len)
        × (r.wire_len ≤ 17)
  unfolding new_ip_route ip_wire_len
  new_ip_route_sound nlri fam p r h =
      let (a, h1) = seq-ok (guard_not (not (safi fam == 1)) _) _ r h in
      let (b, h2) = seq-ok (guard_not (not (afi fam == 1 || afi fam == 2)) _) _ r h1 in
      let (c, h3) = seq-ok (guard_not (not (is_valid_prefix p)) _) _ r h2 in
      let (d, h4) = seq-ok (guard_not (differ (afi fam == 2) (is_v6 p.addr)) _) _ r h3 in
      let s = guard-ok (not (safi fam == 1)) _ a in
      let t = guard-ok (not (afi fam == 1 || afi fam == 2)) _ b in
      let valid : is_valid_prefix p ≡ true =
        holds_of_guard (is_valid_prefix p) (guard-ok (not (is_valid_prefix p)) _ c) in
      let bits = bit_len_bound p valid in
      let made : (r.family ≡ fam) × (r.wire_len ≡ 1 + (p.bits + 7) / 8) =
        ip_built_ok fam p (nlri p) r h4 in
      (
        made.0,
        ground arith,
        ip_afi (afi fam) t,
        same_flag (afi fam == 2) (is_v6 p.addr)
            (guard-ok (differ (afi fam == 2) (is_v6 p.addr)) _ d),
        omega arith,
        omega arith,
      )

module _ {N : Type 0} (g : Gobgp N) (body_len : UpdateMessage N → Option ℕ) (w : Bool)
    (a : PathAttrs) (opts : EncodingOptions) where
  small_first_oversize :
      (fam overhead i : ℕ) (rs : List (Route N))
      → 21 ≤ room opts overhead
      → All (λ r. r.wire_len ≤ 17) rs
      → first_oversize (wire_size opts fam) (room opts overhead) i rs ≡ none
  small_first_oversize fam overhead i [] space small = refl
  small_first_oversize fam overhead i (r ∷ rs) space (s, small) =
      ground (arith, small_first_oversize fam overhead (i + 1) rs space small)

  -- IP routes are never too large for a message: as soon as the attributes leave 21 octets, the
  -- size of the largest IP route with a Path Identifier, ChunkRoutes returns chunks.
  pub small_routes_chunked :
      (r : Route N) (rs : List (Route N)) (overhead : ℕ)
      → All (λ x. x.wire_len ≤ 17) (r ∷ rs)
      → 21 ≤ room opts overhead
      → shell_overhead g body_len w a r opts ≡ ok overhead
      → chunk_routes g body_len w a (r ∷ rs) opts
        ≡ ok (chunks_of (wire_size opts r.family) (room opts overhead) [] 0 (r ∷ rs))
  unfolding chunk_routes
  small_routes_chunked r rs overhead small space e =
      let nonzero : (room opts overhead == 0) ≡ false = ground arith in
      let size = wire_size opts r.family in
      let chunks = chunks_of size (room opts overhead) [] 0 (r ∷ rs) in
      rw (e, nonzero)
        (pack-answer size (room opts overhead) [] [] 0 0 (r ∷ rs)
          ∙ ap (λ q. answer size (room opts overhead) q chunks)
              (small_first_oversize r.family overhead 0 (r ∷ rs) space small))
