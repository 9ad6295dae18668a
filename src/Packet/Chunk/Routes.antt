-- ===== src/Packet/Chunk/Routes.antt =====
-- internal/packet/path.go: ChunkRoutes and shellOverhead.
use xk6_bgp.Base.{
  ℕ, ◌+◌, ◌-◌, ◌/◌, ◌%◌, Bool, Option, none, some, List, [], ◌∷◌, if◌then◌else◌, ◌==◌, Result, ok,
  err, ◌>>=◌, map_err,
}
use xk6_bgp.Packet.Route.{Family, Route}
use xk6_bgp.Packet.Update.Attrs.{UpdateMessage, PathAttrs, Gobgp}
use xk6_bgp.Packet.Update.Build.{EncodingOptions, build_update_message}
use xk6_bgp.Packet.Chunk.Loop.{ChunkError, pack, no_room, build_failed, serialize_failed}

-- BGP_HEADER_LENGTH, BGP_MAX_MESSAGE_LENGTH and the RFC 8654 ceiling.
abbrev pub header_length : ℕ
header_length = 19

abbrev pub max_message_length : ℕ
max_message_length = 4096

abbrev pub extended_max_message_length : ℕ
extended_max_message_length = 65535

-- The ADD-PATH bits: 1 receive, 2 send.
abbrev pub has_receive : ℕ → Bool
has_receive mode = mode % 2 == 1

abbrev pub has_send : ℕ → Bool
has_send mode = mode / 2 % 2 == 1

abbrev pub max_len : EncodingOptions → ℕ
max_len opts =
    if opts.use_extended_messages then extended_max_message_length else max_message_length

abbrev pub per_nlri : EncodingOptions → Family → ℕ
per_nlri opts f = if has_send (opts.add_path f) then 4 else 0

abbrev pub or_serialize : Option ℕ → Result ChunkError ℕ
or_serialize none = err serialize_failed
or_serialize (some n) = ok n

module _ {N : Type 0} where
  -- The body holds the probe's own NLRI, so its size is subtracted from a larger number.
  unfoldable pub shell_overhead :
      Gobgp N
      → (UpdateMessage N → Option ℕ)
      → Bool
      → PathAttrs
      → Route N
      → EncodingOptions
      → Result ChunkError ℕ
  shell_overhead g body_len w a probe opts = do
    m ← map_err build_failed (build_update_message g w a (probe ∷ []) opts)
    n ← or_serialize (body_len m)
    ok (n - probe.wire_len)

  abbrev pub wire_size : EncodingOptions → Family → Route N → ℕ
  wire_size opts f r = r.wire_len + per_nlri opts f

  -- A budget that Go finds negative is 0 here; both are refused.
  pack_within :
      EncodingOptions → Family → ℕ → List (Route N) → Result ChunkError (List (List (Route N)))
  pack_within opts f overhead rs =
      let budget = max_len opts - header_length - overhead in
      if budget == 0
      then err (no_room overhead (max_len opts))
      else pack (wire_size opts f) budget [] [] 0 0 rs

  unfoldable pub chunk_routes :
      Gobgp N
      → (UpdateMessage N → Option ℕ)
      → Bool
      → PathAttrs
      → List (Route N)
      → EncodingOptions
      → Result ChunkError (List (List (Route N)))
  unfolding pack_within
  chunk_routes g body_len w a [] opts = ok []
  chunk_routes g body_len w a (r ∷ rs) opts = do
    overhead ← shell_overhead g body_len w a r opts
    pack_within opts r.family overhead (r ∷ rs)
