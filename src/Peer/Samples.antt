-- ===== src/Peer/Samples.antt =====
-- A session at concrete inputs.
use xk6_bgp.Base.{
  err, ℕ, ◌≤◌, Option, some, List, [], ◌∷◌, ◌++◌, ◌≡◌, refl, ok, arith, replicate, length,
}
use xk6_bgp.Peer.Frame.{length_too_large, header, accept, read_message_max}
use xk6_bgp.Peer.Frame.Laws.{IsFrame, read_message_max-append, read_message_max_sound}

-- A KEEPALIVE: the header alone.
abbrev keepalive : List ℕ
keepalive = replicate 16 0xff ++ 0 ∷ 19 ∷ 4 ∷ []

keepalive-IsFrame : IsFrame keepalive
keepalive-IsFrame = record { long_enough = omega arith; marked = refl; own_length = refl }

-- The parser gives the message's type.
abbrev kind : List ℕ → Option ℕ
kind raw = some 4

read_message_max-append_example :
    read_message_max kind 4096 (keepalive ++ keepalive) ≡ ok (keepalive, 4, keepalive)
read_message_max-append_example =
    read_message_max-append kind 4096 keepalive keepalive keepalive-IsFrame (omega arith)

two_keepalives : read_message_max kind 4096 (keepalive ++ keepalive) ≡ ok (keepalive, 4, keepalive)
unfolding read_message_max header accept
two_keepalives = refl

read_message_max_sound_example : length keepalive ≤ 4096
read_message_max_sound_example =
    (read_message_max_sound kind 4096 (keepalive ++ keepalive) keepalive keepalive 4
      two_keepalives).2

-- A marker, and a stated length of 5000.
abbrev long_header : List ℕ
long_header = replicate 16 0xff ++ 19 ∷ 136 ∷ 2 ∷ []

too_long_is_refused : read_message_max kind 4096 long_header ≡ err (length_too_large 5000)
unfolding read_message_max header accept
too_long_is_refused = refl
