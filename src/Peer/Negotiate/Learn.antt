-- ===== src/Peer/Negotiate/Learn.antt =====
-- What the negotiation learns from the capabilities besides the ADD-PATH modes.
use xk6_bgp.Base.{ℕ, Bool, true, false, ◌&&◌, ◌||◌, List, [], ◌∷◌, ◌≡◌, refl, arith, ◌==◌, Map}
use xk6_bgp.Packet.Route.{Family}
use xk6_bgp.Packet.Caps.{
  Capability, four_octet_as, code, CapsConfig, extended_message_code, has_extended_message_cap,
}
use xk6_bgp.Peer.Negotiate.{Session, learn, learn_modes, learn_all}

-- The AS number that the capabilities give, the last one if there are several.
abbrev pub last_as : ℕ → List Capability → ℕ
last_as n [] = n
last_as n (four_octet_as k ∷ cs) = last_as k cs
last_as n (c ∷ cs) = last_as n cs

abbrev pub has_four_octet : List Capability → Bool
has_four_octet [] = false
has_four_octet (four_octet_as k ∷ cs) = true
has_four_octet (c ∷ cs) = has_four_octet cs

pub learn_all-peer_as :
    (caps : CapsConfig) (cs : List Capability) (s : Session) (ms : Map Family ℕ)
    → (learn_all caps cs s ms).0.peer_as ≡ last_as s.peer_as cs
unfolding learn_all learn
learn_all-peer_as caps [] s ms = refl
learn_all-peer_as caps (four_octet_as k ∷ cs) s ms =
    learn_all-peer_as caps cs (learn caps (four_octet_as k) s) ms
learn_all-peer_as caps (c ∷ cs) s ms = learn_all-peer_as caps cs (learn caps c s) (learn_modes c ms)

pub learn_all-four_octet :
    (caps : CapsConfig) (cs : List Capability) (s : Session) (ms : Map Family ℕ)
    → (learn_all caps cs s ms).0.four_octet ≡ (s.four_octet || has_four_octet cs)
unfolding learn_all learn
learn_all-four_octet caps [] s ms = ground arith
learn_all-four_octet caps (four_octet_as k ∷ cs) s ms =
    ground (arith, learn_all-four_octet caps cs (learn caps (four_octet_as k) s) ms)
learn_all-four_octet caps (c ∷ cs) s ms =
    learn_all-four_octet caps cs (learn caps c s) (learn_modes c ms)

learn-extended_messages :
    (caps : CapsConfig) (c : Capability) (s : Session)
    → (learn caps c s).extended_messages
      ≡ (s.extended_messages || (code c == extended_message_code) && caps.extended_message)
unfolding learn
learn-extended_messages caps (four_octet_as k) s = refl
learn-extended_messages caps c s = refl

pub learn_all-extended_messages :
    (caps : CapsConfig) (cs : List Capability) (s : Session) (ms : Map Family ℕ)
    → (learn_all caps cs s ms).0.extended_messages
      ≡ (s.extended_messages || has_extended_message_cap cs && caps.extended_message)
unfolding learn_all has_extended_message_cap
learn_all-extended_messages caps [] s ms = ground arith
learn_all-extended_messages caps (c ∷ cs) s ms = ground (
  arith,
  learn_all-extended_messages caps cs (learn caps c s) (learn_modes c ms),
  learn-extended_messages caps c s,
)

-- The timers are settled before the capabilities are read.
abbrev pub SameTimers : Session → Session → Type 0
SameTimers s t = (t.negotiated_hold ≡ s.negotiated_hold) × (t.keepalive_tick ≡ s.keepalive_tick)

pub learn_all-SameTimers :
    (caps : CapsConfig) (cs : List Capability) (s : Session) (ms : Map Family ℕ)
    → SameTimers s (learn_all caps cs s ms).0
unfolding learn_all learn
learn_all-SameTimers caps [] s ms = (refl, refl)
learn_all-SameTimers caps (four_octet_as k ∷ cs) s ms =
    learn_all-SameTimers caps cs (learn caps (four_octet_as k) s) ms
learn_all-SameTimers caps (c ∷ cs) s ms =
    learn_all-SameTimers caps cs (learn caps c s) (learn_modes c ms)
