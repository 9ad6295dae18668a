-- ===== src/Fakebgpd/Connection/Serving.antt =====
-- What the handler of a connection makes of the octets that it receives.
use xk6_bgp.Base.{
  ℕ, zero, suc, ◌≤◌, true, Option, some, List, [], ◌∷◌, ◌++◌, length, ◌≡◌, refl, arith, ap, ◌∙◌,
  Map, ok, err, length-append,
}
use xk6_bgp.Packet.Route.{Family}
use xk6_bgp.Peer.Config.{NewOpen}
use xk6_bgp.Peer.Frame.{FrameError, parsed, read_message}
use xk6_bgp.Peer.Frame.Laws.{IsFrame, read_message_max-append}
use xk6_bgp.Peer.Fsm.{Body}
use xk6_bgp.Fakebgpd.{Raw, joins, leaves}
use xk6_bgp.Fakebgpd.Connection.{
  Flags, Greeting, greet, Action, sends_open, sends_keepalive, on_hub, handles, goes_on, serve,
  handle_conn,
}

-- Messages one behind the other, and then `last`.
abbrev pub stream_of : List (Raw × Body) → List ℕ → List ℕ
stream_of [] last = last
stream_of ((raw, m) ∷ ms) last = raw ++ stream_of ms last

abbrev pub seen : ℕ → Greeting → List (Raw × Body) → List Action
seen s g [] = on_hub (leaves s) ∷ []
seen s g ((raw, m) ∷ ms) = handles s g.enhanced raw m ∷ seen s g ms

-- A whole message that a limit of 4096 octets lets through, and what it parses to.
abbrev pub IsMessage : (List ℕ → Option Body) → Raw → Body → Type 0
IsMessage parse raw m = IsFrame raw × (length raw ≤ 4096) × (parse raw ≡ some m)

-- Messages after which the loop goes on.
abbrev pub AreMessages : (List ℕ → Option Body) → List (Raw × Body) → Type 0
AreMessages parse [] = Unit
AreMessages parse ((raw, m) ∷ ms) =
    IsMessage parse raw m × (goes_on m ≡ true) × AreMessages parse ms

read_message-IsMessage :
    (parse : List ℕ → Option Body) (raw : Raw) (m : Body) (rest : List ℕ)
    → IsMessage parse raw m
    → read_message parse (raw ++ rest) ≡ ok (raw, m, rest)
unfolding read_message
read_message-IsMessage parse raw m rest (frame, fits, parses) =
    read_message_max-append parse 4096 raw rest frame fits
    ∙ ap (λ r. parsed parse raw r rest) parses

length-stream_of :
    (parse : List ℕ → Option Body) (ms : List (Raw × Body)) (last : List ℕ)
    → AreMessages parse ms
    → length ms ≤ length (stream_of ms last)
length-stream_of parse [] last a = omega arith
length-stream_of parse ((raw, m) ∷ ms) last ((frame, fits, parses), on, more) = omega (
  arith,
  length-stream_of parse ms last more,
  frame.long_enough,
  length-append raw (stream_of ms last),
)

module _ (new_open : NewOpen) (parse : Map Family ℕ → List ℕ → Option Body) where
  -- One round for each message is enough.
  serve-seen :
      (s : ℕ) (g : Greeting) (fuel : ℕ) (ms : List (Raw × Body)) (last : List ℕ) (e : FrameError)
      → AreMessages (parse g.modes) ms
      → length ms ≤ fuel
      → read_message (parse g.modes) last ≡ err e
      → serve parse s g fuel (stream_of ms last) ≡ seen s g ms
  unfolding serve
  serve-seen s g zero [] last e a f h = refl
  serve-seen s g (suc fuel) [] last e a f h = rw (serve, h) refl
  serve-seen s g zero (m ∷ ms) last e a f h = absurd (omega arith)
  serve-seen s g (suc fuel) ((raw, m) ∷ ms) last e (is_m, on, more) f h =
      rw (serve, read_message-IsMessage (parse g.modes) raw m (stream_of ms last) is_m, on)
        (ap (λ rest_of. handles s g.enhanced raw m ∷ rest_of)
          (serve-seen s g fuel ms last e more (omega arith) h))

  -- When the first message is one that the speaker answers, the messages after it are whole, of at
  -- most 4096 octets, parsed and no NOTIFICATION, what follows them cannot be read,
  -- and both writes succeed, then the handler sends its OPEN, enters the hub, sends its KEEPALIVE,
  -- and passes on each message with its octets, in their order, before it leaves.
  pub handle_conn-seen :
      (fl : Flags) (s : ℕ) (first : Raw) (b : Body) (g : Greeting) (ms : List (Raw × Body))
      (last : List ℕ) (e : FrameError)
      → IsMessage (parse []) first b
      → greet new_open fl b ≡ ok g
      → AreMessages (parse g.modes) ms
      → read_message (parse g.modes) last ≡ err e
      → handle_conn new_open parse fl s true true (first ++ stream_of ms last)
        ≡ sends_open g.answer ∷ on_hub (joins s) ∷ sends_keepalive ∷ seen s g ms
  unfolding handle_conn
  handle_conn-seen fl s first b g ms last e is_first answers more h =
      let rest = stream_of ms last in
      let fuel = length-stream_of (parse g.modes) ms last more in
      rw (handle_conn, read_message-IsMessage (parse []) first b rest is_first, answers)
        (ap (λ rest_of. sends_open g.answer ∷ on_hub (joins s) ∷ sends_keepalive ∷ rest_of)
          (serve-seen s g (length rest) ms last e more fuel h))
