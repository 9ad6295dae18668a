-- ===== src/Peer/Frame.antt =====
-- internal/peer/message.go: ReadMessageMax over the octets that the connection still delivers.
-- `M` is gobgp's message, and `parse` its parser.
pub mod Laws
use xk6_bgp.Base.{
  ℕ, zero, suc, ◌+◌, ◌-◌, ◌*◌, ◌≤◌, ◌<◌, ◌^◌, Bool, true, false, not, Option, none, some, List, [],
  ◌∷◌, ◌++◌, length, take, drop, if◌then◌else◌, ltb, ◌==◌, Result, ok, err, ◌>>=◌, ◌>>◌, guard_not,
  ◌≡◌, refl, arith,
}
use xk6_bgp.Packet.Chunk.Routes.{header_length, max_message_length, extended_max_message_length}

pub data FrameError : Type 0 where
  short_header bad_marker : FrameError
  length_too_small length_too_large : ℕ → FrameError
  short_body parse_failed : FrameError

-- io.ReadFull: exactly `n` octets, or an error.
abbrev pub read_full : FrameError → ℕ → List ℕ → Result FrameError (List ℕ × List ℕ)
read_full e n s = if ltb (length s) n then err e else ok (take n s, drop n s)

abbrev pub get_or : List ℕ → ℕ → ℕ → ℕ
get_or [] i d = d
get_or (x ∷ xs) zero d = x
get_or (x ∷ xs) (suc i) d = get_or xs i d

-- The first `n` octets are all ones.
abbrev pub all_ones : ℕ → List ℕ → Bool
all_ones zero h = true
all_ones (suc n) [] = false
all_ones (suc n) (x ∷ h) = if x == 0xff then all_ones n h else false

-- Octets 16 and 17, big-endian.
abbrev pub length_field : List ℕ → ℕ
length_field h = get_or h 16 0 * 2 ^ 8 + get_or h 17 0

-- The header is judged before room for the body is allocated.
unfoldable pub accept : ℕ → List ℕ → List ℕ → Result FrameError (ℕ × List ℕ × List ℕ)
accept max_len h rest = do
  guard_not (not (all_ones 16 h)) bad_marker
  guard_not (ltb (length_field h) header_length) (length_too_small (length_field h))
  guard_not (ltb max_len (length_field h)) (length_too_large (length_field h))
  ok (length_field h, h, rest)

unfoldable pub header : ℕ → List ℕ → Result FrameError (ℕ × List ℕ × List ℕ)
header max_len s = do (h, rest) ← read_full short_header header_length s; accept max_len h rest

module _ {M : Type 0} (parse : List ℕ → Option M) where
  abbrev pub parsed : List ℕ → Option M → List ℕ → Result FrameError (List ℕ × M × List ℕ)
  parsed raw none rest = err parse_failed
  parsed raw (some m) rest = ok (raw, m, rest)

  unfoldable pub read_message_max : ℕ → List ℕ → Result FrameError (List ℕ × M × List ℕ)
  read_message_max max_len s = do
    (mlen, h, rest) ← header max_len s
    (body, rest') ← read_full short_body (mlen - header_length) rest
    parsed (h ++ body) (parse (h ++ body)) rest'

  -- The cap of RFC 4271.
  unfoldable pub read_message : List ℕ → Result FrameError (List ℕ × M × List ℕ)
  read_message s = read_message_max max_message_length s
