-- ===== src/Peer/Send.antt =====
-- internal/peer/send.go: Advertise, Withdraw and RouteRefresh, and writeUpdates under them;
-- internal/packet/path.go: SerializeMessage.
pub mod Accounting
pub mod Success
use xk6_bgp.Base.{
  ℕ, ◌+◌, Bool, true, false, not, ◌&&◌, ◌||◌, Option, none, some, List, [], ◌∷◌, ◌++◌, length,
  if◌then◌else◌, ltb, ◌==◌, Result, ok, err, ◌>>=◌, ◌>>◌, guard_not, map_err,
}
use xk6_bgp.Base.Bits.{bit1}
use xk6_bgp.Clock.{Timestamp, no_time, is_zero}
use xk6_bgp.Packet.Addr.{zero_addr}
use xk6_bgp.Packet.Route.{Family, Route}
use xk6_bgp.Packet.Update.Attrs.{Attribute, UpdateMessage, PathAttrs, UpdateError, Gobgp}
use xk6_bgp.Packet.Update.Build.{EncodingOptions, build_update_message}
use xk6_bgp.Packet.Chunk.Loop.{ChunkError}
use xk6_bgp.Packet.Chunk.Routes.{
  header_length, max_message_length, extended_max_message_length, chunk_routes,
}
use xk6_bgp.Peer.Negotiate.{Session, mode_of}
use xk6_bgp.Observed.State.{SessionError, failure_cause}
use xk6_bgp.Peer.Fsm.{State, established, same_state, Fsm}

pub data SendError : Type 0 where
  -- with the cause that the FSM recorded, if any
  session_not_ready : Option SessionError → SendError
  no_routes extended_messages_not_negotiated route_refresh_not_negotiated : SendError
  family_mismatch add_path_not_negotiated : ℕ → SendError
  chunk_failed : ChunkError → SendError
  build_failed : UpdateError → SendError
  serialize_failed write_failed : SendError

-- What went out, the time before the first write, the routes in it, and how it ended.
pub record Batch (N : Type 0) : Type 0 where
  pub messages : List (UpdateMessage N)
  pub first_at : Timestamp
  pub total : ℕ
  pub error : Option SendError

-- What Advertise and Withdraw return when they succeed.
pub record AdvertiseResult : Type 0 where
  pub sent : ℕ
  pub sent_at : Timestamp

-- A call: the messages that were written, and what it returns.
pub record Attempt (N : Type 0) : Type 0 where
  pub messages : List (UpdateMessage N)
  pub answer : Result SendError AdvertiseResult

-- The fate of a write: the time before it, and whether it succeeds.
pub record Fate : Type 0 where
  pub at : Timestamp
  pub is_written : Bool

-- The negotiation overrides what the caller put into the encoding.
abbrev pub session_encoding : Session → EncodingOptions → EncodingOptions
session_encoding s enc = record enc {
  add_path = λ f. mode_of f s.add_path;
  use_2_byte_as = not s.four_octet;
}

-- PathAttrs{}
abbrev pub empty_attrs : PathAttrs
empty_attrs = record {
  origin = 0;
  next_hop = zero_addr;
  local_as = 0;
  med = none;
  local_pref = none;
  ext_communities = [];
  srv6_l3_service = none;
  pmsi_tunnel = none;
}

module _ {N : Type 0} where
  unfoldable pub validate_route_family : Family → ℕ → List (Route N) → Result SendError (Unit {0})
  validate_route_family want i [] = ok tt
  validate_route_family want i (r ∷ rs) =
      if not (r.family == want)
      then err (family_mismatch i)
      else validate_route_family want (i + 1) rs

  abbrev pub has_path_id : Route N → Bool
  has_path_id r = elim r.path_id [ none ↦ false | some i ↦ true ]

  unfoldable pub reject_path_ids : ℕ → List (Route N) → Result SendError (Unit {0})
  reject_path_ids i [] = ok tt
  reject_path_ids i (r ∷ rs) =
      if has_path_id r then err (add_path_not_negotiated i) else reject_path_ids (i + 1) rs

  unfoldable pub validate_path_ids : Session → Family → List (Route N) → Result SendError (Unit {0})
  unfolding reject_path_ids
  validate_path_ids s fam rs = if bit1 (mode_of fam s.add_path) then ok tt else reject_path_ids 0 rs

  -- The message's length, or an error; `body_len` is gobgp's serializer of the body, and its
  -- BGPMessage.Serialize keeps the ceiling of RFC 4271 unless the length is set beforehand.
  unfoldable pub serialize_message :
      (UpdateMessage N → Option ℕ) → EncodingOptions → UpdateMessage N → Result SendError ℕ
  serialize_message body_len enc m = elim (body_len m) [
    | none ↦ err serialize_failed
    | some n ↦
        let limit =
          if enc.use_extended_messages then extended_max_message_length else max_message_length in
        if ltb limit (header_length + n) then err serialize_failed else ok (header_length + n)
  ]

  abbrev pub stopped : Timestamp → ℕ → SendError → Batch N
  stopped first total e = record { messages = []; first_at = first; total = total; error = some e }

  module _ (g : Gobgp N) (body_len : UpdateMessage N → Option ℕ) (withdraw : Bool)
      (attrs : PathAttrs) (enc : EncodingOptions) where
    -- The two steps that can refuse a chunk before it is written.
    unfoldable pub encode : List (Route N) → Result SendError (UpdateMessage N)
    unfolding serialize_message
    encode chunk = do
      m ← map_err build_failed (build_update_message g withdraw attrs chunk enc)
      _ ← serialize_message body_len enc m
      ok m

    abbrev pub add_message : UpdateMessage N → Batch N → Batch N
    add_message m b = record b { messages = m ∷ b.messages }

    unfoldable pub send_chunk :
        (Timestamp → ℕ → Batch N)
        → Timestamp
        → ℕ
        → ℕ
        → Fate
        → Result SendError (UpdateMessage N)
        → Batch N
    send_chunk rest first total n fate (err e) = stopped first total e
    send_chunk rest first total n fate (ok m) =
        let go = rest (if is_zero first then fate.at else first) (total + n) in
        if fate.is_written then add_message m go else stopped first total write_failed

    -- The loop over the chunks; `fates i` is what happens to the i-th write.
    unfoldable pub send_chunks : (ℕ → Fate) → ℕ → List (List (Route N)) → Timestamp → ℕ → Batch N
    unfolding encode send_chunk
    send_chunks fates i [] first total = record {
      messages = [];
      first_at = first;
      total = total;
      error = none;
    }
    send_chunks fates i (c ∷ cs) first total =
        send_chunk (send_chunks fates (i + 1) cs) first total (length c) (fates i) (encode c)

  abbrev pub is_nil : List (Route N) → Bool
  is_nil [] = true
  is_nil (r ∷ rs) = false

  -- The checks that Advertise and Withdraw make before anything is written.
  unfoldable pub check_request :
      Fsm → Family → List (Route N) → EncodingOptions → Result SendError (Unit {0})
  unfolding validate_route_family validate_path_ids
  check_request f fam rs enc = do
    guard_not (not (same_state f.state established)) (session_not_ready (failure_cause f.observed))
    guard_not (is_nil rs) no_routes
    validate_route_family fam 0 rs
    guard_not (enc.use_extended_messages && not f.session.extended_messages)
        extended_messages_not_negotiated
    validate_path_ids f.session fam rs

  module _ (g : Gobgp N) (body_len : UpdateMessage N → Option ℕ) where
    unfoldable pub send_all :
        Bool
        → PathAttrs
        → EncodingOptions
        → (ℕ → Fate)
        → Result ChunkError (List (List (Route N)))
        → Batch N
    send_all withdraw attrs enc fates (err e) = stopped no_time 0 (chunk_failed e)
    send_all withdraw attrs enc fates (ok chunks) =
        send_chunks g body_len withdraw attrs enc fates 0 chunks no_time 0

    unfoldable pub write_updates :
        Session → Bool → PathAttrs → List (Route N) → EncodingOptions → (ℕ → Fate) → Batch N
    unfolding send_all
    write_updates s withdraw attrs [] enc fates = record {
      messages = [];
      first_at = no_time;
      total = 0;
      error = none;
    }
    write_updates s withdraw attrs (r ∷ rs) enc fates =
        let enc' = session_encoding s enc in
        send_all withdraw attrs enc' fates (chunk_routes g body_len withdraw attrs (r ∷ rs) enc')

    abbrev pub answer_of : Option SendError → ℕ → Timestamp → Result SendError AdvertiseResult
    answer_of (some e) total first = err e
    answer_of none total first = ok (record { sent = total; sent_at = first })

    -- An error drops the count of what went out before it.
    abbrev pub attempt_of : Batch N → Attempt N
    attempt_of b = record { messages = b.messages; answer = answer_of b.error b.total b.first_at }

    unfoldable pub checked_send :
        Fsm
        → Bool
        → PathAttrs
        → List (Route N)
        → EncodingOptions
        → (ℕ → Fate)
        → Result SendError (Unit {0})
        → Attempt N
    unfolding write_updates
    checked_send f withdraw attrs rs enc fates (err e) = record { messages = []; answer = err e }
    checked_send f withdraw attrs rs enc fates (ok _) =
        attempt_of (write_updates f.session withdraw attrs rs enc fates)

    unfoldable pub advertise :
        Fsm → Family → PathAttrs → List (Route N) → EncodingOptions → (ℕ → Fate) → Attempt N
    unfolding check_request checked_send
    advertise f fam attrs rs enc fates =
        checked_send f false attrs rs enc fates (check_request f fam rs enc)

    unfoldable pub withdraw :
        Fsm → Family → List (Route N) → EncodingOptions → (ℕ → Fate) → Attempt N
    unfolding check_request checked_send
    withdraw f fam rs enc fates =
        checked_send f true empty_attrs rs enc fates (check_request f fam rs enc)

-- RouteRefresh: the time before the write, or an error. `is_serialized` is gobgp's answer.
unfoldable pub request_refresh : Fsm → Bool → Timestamp → Bool → Result SendError Timestamp
request_refresh f is_serialized at is_written = do
  guard_not (not (same_state f.state established)) (session_not_ready (failure_cause f.observed))
  guard_not (not f.session.route_refresh) route_refresh_not_negotiated
  guard_not (not is_serialized) serialize_failed
  guard_not (not is_written) write_failed
  ok at
