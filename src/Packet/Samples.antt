-- ===== src/Packet/Samples.antt =====
-- Messages and chunks at concrete inputs.
use xk6_bgp.Base.{
  ◌++◌, true, ℕ, ◌+◌, ◌<◌, ◌≤◌, true, false, none, some, List, [], ◌∷◌, map, ◌≡◌, refl, ok, arith,
  All, replicate, All-replicate, if◌then◌else◌, ltb, length,
}
use xk6_bgp.Packet.Types.{new_ip_route, ip_wire_len}
use xk6_bgp.Packet.Types.Laws.{new_ip_route_sound, small_routes_chunked}
use xk6_bgp.Packet.Addr.{is_v6, v6}
use xk6_bgp.Packet.Route.{Route, new_family, with_path_id}
use xk6_bgp.Packet.Update.Attrs.{
  SentNlri, Attribute, UpdateMessage, PathAttrs, Gobgp, mp_reach, as_path_attributes,
  optional_attributes,
}
use xk6_bgp.Packet.Update.Build.{
  EncodingOptions, to_nlri, collect, build_ipv4_unicast, build_mp, mp_next_hop,
  build_update_message,
}
use xk6_bgp.Packet.Update.Laws.{
  on_wire, advertised, Carries, received_as, build_update_message-Carries,
  received_as-as_path_attributes,
}
use xk6_bgp.Packet.Chunk.Loop.{pack}
use xk6_bgp.Packet.Chunk.Routes.{wire_size, shell_overhead, chunk_routes}
use xk6_bgp.Packet.Chunk.Partition.{pack-answer, chunks_of, IsPartition, total}
use xk6_bgp.Packet.Chunk.Fit.{
  room, LengthLaw, chunk_routes-IsPartition, chunk_messages_fit, chunk_messages_full,
}

-- A gobgp that accepts all, over NLRI that are the numbers of their octets.
abbrev pub lenient : Gobgp ℕ
lenient = record {
  mp_unreach_fails = λ f ns. false;
  mp_reach_fails = λ f ns nh. false;
  next_hop_fails = λ a. false;
  ingress_fails = λ a. false;
  pmsi_fails = λ c i. false;
}

abbrev pub attrs : PathAttrs
attrs = record {
  origin = 0;
  next_hop = v6 1;
  local_as = 70000;
  med = some 5;
  local_pref = none;
  ext_communities = [];
  srv6_l3_service = none;
  pmsi_tunnel = none;
}

abbrev pub plain : EncodingOptions
plain = record {
  use_mp_reach_for_ipv4_unicast = false;
  use_extended_messages = false;
  add_path = λ f. 0;
  use_2_byte_as = false;
}

abbrev pub host : Route ℕ
host = record { family = new_family 2 1; nlri = 17; wire_len = 17; path_id = none }

-- Everything that a run of the builder computes with.
build : List (Route ℕ) → ℕ
unfolding build_update_message build_mp build_ipv4_unicast mp_next_hop collect to_nlri
    optional_attributes as_path_attributes with_path_id shell_overhead chunk_routes pack
build rs = length rs

received_as_example : received_as (as_path_attributes {N = ℕ} 70000 true) ≡ some 70000
received_as_example = (received_as-as_path_attributes ℕ 70000 true (omega arith)).0

abbrev sent : UpdateMessage ℕ
sent = record {
  withdrawn_routes = [];
  path_attributes =
      Attribute.origin 0
      ∷ Attribute.as_path4 70000
      ∷ mp_reach (new_family 2 1) (map to_nlri (host ∷ with_path_id host 9 ∷ [])) (v6 1)
      ∷ Attribute.multi_exit_disc 5
      ∷ [];
  nlri = [];
}

build_update_message-Carries_example :
    Carries false (map on_wire (host ∷ with_path_id host 9 ∷ [])) sent
unfolding build
build_update_message-Carries_example =
    build_update_message-Carries lenient false attrs (host ∷ with_path_id host 9 ∷ []) plain sent
      refl

abbrev octets : List (SentNlri ℕ) → ℕ
octets [] = 0
octets (x ∷ xs) = x.nlri + octets xs

-- RFC 4271: an attribute of more than 255 octets has a two-octet length.
abbrev growth_at : ℕ → ℕ
growth_at n = if ltb 255 (21 + n) then 1 else 0

-- The body of such an advertisement: 48 octets, the NLRI, and the longer header.
abbrev body_size : UpdateMessage ℕ → ℕ
body_size m = 48 + octets (advertised m) + growth_at (octets (advertised m))

abbrev sum_len : List (Route ℕ) → ℕ
sum_len c = total (wire_size plain (new_family 2 1)) (room plain 48) c

abbrev growth : List (Route ℕ) → ℕ
growth c = growth_at (sum_len c)

octets-map :
    (c : List (Route ℕ)) → All (λ r. r.wire_len ≡ r.nlri) c → octets (map on_wire c) ≡ sum_len c
octets-map [] a = refl
octets-map (r ∷ rs) (p, a) = omega (arith, octets-map rs a)

law :
    LengthLaw lenient
      (λ m. some (body_size m))
      false
      attrs
      plain
      (λ n. n)
      growth
      body_size
      (new_family 2 1)
      48
law c m measured b =
    let (carried, _) = build_update_message-Carries lenient false attrs c plain m b in
    rw (carried, octets-map c measured)

chunk_routes-IsPartition_example :
    IsPartition
      (wire_size plain (new_family 2 1))
      (room plain 48)
      (host ∷ host ∷ [])
      ((host ∷ host ∷ []) ∷ [])
unfolding build
chunk_routes-IsPartition_example =
    (chunk_routes-IsPartition lenient (λ m. some (body_size m)) false attrs plain host (host ∷ [])
      48 ((host ∷ host ∷ []) ∷ []) refl refl).0

chunk_messages_fit_example :
    All
      (λ c.
        (m : UpdateMessage ℕ)
        → build_update_message lenient false attrs c plain ≡ ok m
        → 19 + body_size m ≤ 4096 + growth c)
      ((host ∷ host ∷ []) ∷ [])
unfolding build
chunk_messages_fit_example =
    chunk_messages_fit lenient (λ m. some (body_size m)) false attrs plain (λ n. n) growth body_size
      host (host ∷ []) 48 ((host ∷ host ∷ []) ∷ []) law (refl, (refl, tt)) refl refl

pack-answer_example : pack (λ n. n) 5 [] [] 0 0 (3 ∷ 2 ∷ 4 ∷ []) ≡ ok ((3 ∷ 2 ∷ []) ∷ (4 ∷ []) ∷ [])
unfolding chunks_of
pack-answer_example = pack-answer (λ n. n) 5 [] [] 0 0 (3 ∷ 2 ∷ 4 ∷ [])

-- 237 IPv6 host routes with a MULTI_EXIT_DISC fill the room of 4029 octets.
abbrev many : List (Route ℕ)
many = replicate 237 host

abbrev many_sent : UpdateMessage ℕ
many_sent = record {
  withdrawn_routes = [];
  path_attributes =
      Attribute.origin 0
      ∷ Attribute.as_path4 70000
      ∷ mp_reach (new_family 2 1) (map to_nlri many) (v6 1)
      ∷ Attribute.multi_exit_disc 5
      ∷ [];
  nlri = [];
}

many_one_chunk :
    chunk_routes lenient (λ m. some (body_size m)) false attrs many plain ≡ ok (many ∷ [])
unfolding build
many_one_chunk = refl

-- The longer header of MP_REACH_NLRI is not in the overhead, and takes the message over the limit.
many_overflow : 4096 < 19 + body_size many_sent
unfolding build
many_overflow = omega arith

-- One route more, and there are two chunks.
abbrev too_many_sent : UpdateMessage ℕ
too_many_sent = record (many_sent) {
  path_attributes =
      Attribute.origin 0
      ∷ Attribute.as_path4 70000
      ∷ mp_reach (new_family 2 1) (map to_nlri (many ++ host ∷ [])) (v6 1)
      ∷ Attribute.multi_exit_disc 5
      ∷ [];
}

chunk_messages_full_example : 4096 < 19 + body_size too_many_sent
unfolding build
chunk_messages_full_example =
    (chunk_messages_full lenient (λ m. some (body_size m)) false attrs plain (λ n. n) growth
        body_size host many 48 (many ∷ (host ∷ []) ∷ []) law
        (All-replicate (λ r. r.wire_len ≡ r.nlri) 238 host refl) refl refl).0
      too_many_sent refl

new_ip_route_sound_example : is_v6 (v6 1) ≡ true
unfolding new_ip_route ip_wire_len
new_ip_route_sound_example =
    (new_ip_route_sound (λ p. some 17) (new_family 2 1) (record { addr = v6 1; bits = 128 }) host
      refl).3

small_routes_chunked_example :
    chunk_routes lenient (λ m. some (body_size m)) false attrs (host ∷ host ∷ []) plain
    ≡ ok ((host ∷ host ∷ []) ∷ [])
unfolding build chunks_of
small_routes_chunked_example =
    small_routes_chunked lenient (λ m. some (body_size m)) false attrs plain host (host ∷ []) 48
      (omega arith, (omega arith, tt)) (omega arith) refl
