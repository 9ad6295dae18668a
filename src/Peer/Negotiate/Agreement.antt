-- ===== src/Peer/Negotiate/Agreement.antt =====
-- Two speakers that both run this code come out of the negotiation with matching sessions.
use xk6_bgp.Base.{
  ℕ, ◌*◌, ◌/◌, ◌%◌, ◌^◌, min, Bool, true, false, ◌&&◌, some, List, [], ◌∷◌, ◌≡◌, refl, sym, arith,
  ap, ◌∙◌, Result, ok, err,
}
use xk6_bgp.Base.Bits.{bit0, bit1}
use xk6_bgp.Packet.Route.{Family}
use xk6_bgp.Packet.Caps.{Capability, CapsError, build_capabilities}
use xk6_bgp.Peer.Config.{
  Config, OpenMessage, OpenError, NewOpen, capability_parameter, with_as, wire_as, second,
  build_open,
}
use xk6_bgp.Peer.Negotiate.{
  Session, mode_of, tick_of, learn_all, learn_params, negotiate, finish_modes, set_hold,
  new_session,
}
use xk6_bgp.Peer.Negotiate.Modes.{caps_say, params_say, IsDistinct, negotiate_directions}
use xk6_bgp.Peer.Negotiate.Learn.{
  learn_all-peer_as, learn_all-four_octet, learn_all-SameTimers, learn_all-extended_messages,
}
use xk6_bgp.Peer.Negotiate.Offered.{or_false, offered}
use xk6_bgp.Peer.Negotiate.OfferedAs.{offered_as}

-- gobgp's constructor keeps its arguments, and the parser of the other side reads them back.
abbrev pub Keeps : NewOpen → Type 0
Keeps new_open =
    (a h : ℕ) (r : _) (ps : List _) (m : OpenMessage)
    → new_open a h r ps ≡ some m
    → m ≡ record { my_as = a; hold_time = h; router_id = r; opt_params = ps }

abbrev pub open_of : NewOpen → Config → Result OpenError OpenMessage
open_of new_open c = build_open new_open c.local_as c.timers.hold_time c.router_id c.caps

-- What is in an OPEN that was built.
pub record IsOpenOf (c : Config) (m : OpenMessage) : Type 0 where
  pub caps : List Capability
  pub built : build_capabilities (with_as c.local_as c.caps) ≡ ok caps
  pub params : m.opt_params ≡ capability_parameter caps ∷ []
  pub hold : m.hold_time ≡ c.timers.hold_time / second % 2 ^ 16

pub build_open-IsOpenOf :
    (new_open : NewOpen) (c : Config) (m : OpenMessage)
    → Keeps new_open
    → open_of new_open c ≡ ok m
    → IsOpenOf c m
unfolding build_open
build_open-IsOpenOf new_open c m keeps h = go (build_capabilities (with_as c.local_as c.caps)) refl
  where
    go :
        (r : Result CapsError (List Capability))
        → build_capabilities (with_as c.local_as c.caps) ≡ r
        → IsOpenOf c m
    go (err e) q = ground arith
    go (ok cs) q =
        let params = capability_parameter cs ∷ [] in
        let hold = c.timers.hold_time / second % 2 ^ 16 in
        let made : new_open (wire_as c.local_as) hold c.router_id params ≡ some m = ground arith in
        let e = keeps (wire_as c.local_as) hold c.router_id params m made in
        record {
          caps = cs;
          built = q;
          params = ap (λ x. x.opt_params) e;
          hold = ap (λ x. x.hold_time) e;
        }

abbrev pub own_hold : Config → ℕ
own_hold c = c.timers.hold_time / second % 2 ^ 16

-- What `a` makes of the OPEN of `b`.
pub record Outcome (a b : Config) (f : Family) (s : Session) : Type 0 where
  pub hold : s.negotiated_hold ≡ min (own_hold a) (own_hold b) * second
  pub ticks : s.keepalive_tick ≡ tick_of (min (own_hold a) (own_hold b))
  pub extended : s.extended_messages ≡ (b.caps.extended_message && a.caps.extended_message)
  pub number : s.peer_as ≡ (with_as b.local_as b.caps).four_octet_as
  pub four : s.four_octet ≡ true
  pub sends :
      bit1 (mode_of f s.add_path)
      ≡ (bit1 (mode_of f a.caps.add_path) && bit0 (mode_of f b.caps.add_path))
  pub receives :
      bit0 (mode_of f s.add_path)
      ≡ (bit0 (mode_of f a.caps.add_path) && bit1 (mode_of f b.caps.add_path))

pub and_comm : (x y : Bool) → (x && y) ≡ (y && x)
and_comm true true = refl
and_comm true false = refl
and_comm false true = refl
and_comm false false = refl

pub heard :
    (b : Config) (m : OpenMessage) (f : Family) (bit : ℕ → Bool)
    → IsOpenOf b m
    → bit 0 ≡ false
    → params_say bit f m.opt_params ≡ bit (mode_of f b.caps.add_path)
heard b m f bit o z =
    ap (params_say bit f) o.params
    ∙ or_false (caps_say bit f o.caps)
    ∙ (offered (with_as b.local_as b.caps) o.caps f bit z o.built).0

pub negotiate-Outcome :
    (a b : Config) (m : OpenMessage) (f : Family)
    → IsOpenOf b m
    → IsDistinct a.caps.add_path
    → Outcome a b f (negotiate a m new_session)
unfolding negotiate finish_modes set_hold learn_params new_session
negotiate-Outcome a b m f o d =
    let start : Session = record (set_hold (own_hold a) m.hold_time new_session) {
      peer_as = m.my_as;
    } in
    let dirs = negotiate_directions a m new_session f d in
    let off = offered (with_as b.local_as b.caps) o.caps f bit0 refl o.built in
    let times = learn_all-SameTimers a.caps o.caps start [] in
    let met : (learn_params a.caps m.opt_params start []).0 ≡ (learn_all a.caps o.caps start []).0 =
      ap (λ ps. (learn_params a.caps ps start []).0) o.params in
    let number = offered_as (with_as b.local_as b.caps) o.caps m.my_as o.built in
    record {
      hold =
          ap (λ t. t.negotiated_hold) met ∙ times.0 ∙ ap (λ h. min (own_hold a) h * second) o.hold;
      ticks =
          ap (λ t. t.keepalive_tick) met ∙ times.1 ∙ ap (λ h. tick_of (min (own_hold a) h)) o.hold;
      extended =
          ap (λ t. t.extended_messages) met
          ∙ learn_all-extended_messages a.caps o.caps start []
          ∙ ap (λ x. x && a.caps.extended_message) off.1;
      number = ap (λ t. t.peer_as) met ∙ learn_all-peer_as a.caps o.caps start [] ∙ number.0;
      four = ap (λ t. t.four_octet) met ∙ learn_all-four_octet a.caps o.caps start [] ∙ number.1;
      sends = dirs.0 ∙ ap (λ x. bit1 (mode_of f a.caps.add_path) && x) (heard b m f bit0 o refl);
      receives = dirs.1 ∙ ap (λ x. bit0 (mode_of f a.caps.add_path) && x) (heard b m f bit1 o refl);
    }

-- The AS number that a configuration puts into its capability.
abbrev pub told_as : Config → ℕ
told_as c = (with_as c.local_as c.caps).four_octet_as

-- When gobgp's constructor keeps its arguments, the ADD-PATH maps of two configurations have one
-- entry for a family, and each reads the OPEN that the other one built, then both sessions have the
-- same timers and the same choice of Extended Messages, each side knows the AS number that the
-- other side told, and for every family one side sends Path Identifiers exactly if the other
-- side expects them.
pub sessions_agree :
    (new_open : NewOpen) (a b : Config) (open_a open_b : OpenMessage) (f : Family)
    → Keeps new_open
    → open_of new_open a ≡ ok open_a
    → open_of new_open b ≡ ok open_b
    → IsDistinct a.caps.add_path
    → IsDistinct b.caps.add_path
    → ((negotiate a open_b new_session).negotiated_hold
        ≡ (negotiate b open_a new_session).negotiated_hold)
      × ((negotiate a open_b new_session).keepalive_tick
          ≡ (negotiate b open_a new_session).keepalive_tick)
      × ((negotiate a open_b new_session).extended_messages
          ≡ (negotiate b open_a new_session).extended_messages)
      × ((negotiate a open_b new_session).peer_as ≡ told_as b)
      × ((negotiate b open_a new_session).peer_as ≡ told_as a)
      × (bit1 (mode_of f (negotiate a open_b new_session).add_path)
          ≡ bit0 (mode_of f (negotiate b open_a new_session).add_path))
      × (bit0 (mode_of f (negotiate a open_b new_session).add_path)
          ≡ bit1 (mode_of f (negotiate b open_a new_session).add_path))
sessions_agree new_open a b open_a open_b f keeps ea eb da db =
    let oa = negotiate-Outcome a b open_b f (build_open-IsOpenOf new_open b open_b keeps eb) da in
    let ob = negotiate-Outcome b a open_a f (build_open-IsOpenOf new_open a open_a keeps ea) db in
    let same : min (own_hold a) (own_hold b) ≡ min (own_hold b) (own_hold a) = omega arith in
    (
      oa.hold ∙ ap (λ h. h * second) same ∙ sym ob.hold,
      oa.ticks ∙ ap tick_of same ∙ sym ob.ticks,
      oa.extended ∙ and_comm b.caps.extended_message a.caps.extended_message ∙ sym ob.extended,
      oa.number,
      ob.number,
      oa.sends
          ∙ and_comm (bit1 (mode_of f a.caps.add_path)) (bit0 (mode_of f b.caps.add_path))
          ∙ sym ob.receives,
      oa.receives
          ∙ and_comm (bit0 (mode_of f a.caps.add_path)) (bit1 (mode_of f b.caps.add_path))
          ∙ sym ob.sends,
    )
