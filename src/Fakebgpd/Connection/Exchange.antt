-- ===== src/Fakebgpd/Connection/Exchange.antt =====
-- The OPEN exchange of the test speaker against the session of the peer that it talks to.
use xk6_bgp.Base.{
  ◌*◌, min, Bool, true, false, ◌&&◌, ◌||◌, List, [], ◌≡◌, refl, sym, arith, ap, ◌∙◌, if◌then◌else◌,
  nat_eq, Result, ok, err, Bool-cases, inl, inr,
}
use xk6_bgp.Base.Bits.{bit0, bit1}
use xk6_bgp.Packet.Addr.{zero_addr}
use xk6_bgp.Packet.Route.{Family}
use xk6_bgp.Packet.Caps.{is_member, enhanced_route_refresh_code}
use xk6_bgp.Peer.Config.{Config, OpenMessage, OpenError, NewOpen, OptionParameter, with_as, second}
use xk6_bgp.Peer.Negotiate.{
  Session, mode_of, negotiate, new_session, learn_params, finish_modes, set_hold,
}
use xk6_bgp.Peer.Negotiate.Modes.{params_say, IsDistinct, mode_of-nil}
use xk6_bgp.Peer.Negotiate.Agreement.{
  Keeps, open_of, IsOpenOf, build_open-IsOpenOf, negotiate-Outcome, heard, own_hold,
}
use xk6_bgp.Peer.Fsm.{bgp_open}
use xk6_bgp.Fakebgpd.{add_path_receive_modes, has_cap}
use xk6_bgp.Fakebgpd.Connection.{Flags, hold_time, own_caps, Greeting, greet}
use xk6_bgp.Fakebgpd.Connection.Enhanced.{
  build_capabilities-enhances, has_cap-one, learn_all-enhanced_refresh,
}
use xk6_bgp.Fakebgpd.Connection.Decoding.{receive_modes-params_say, own_caps-receives}

-- The speaker as a peer would be configured.
abbrev pub speaker : Flags → Config
speaker fl = record {
  local_as = fl.my_as;
  peer_as = 0;
  router_id = fl.router_id;
  has_target = true;
  local_address = zero_addr;
  families = fl.families;
  timers = record { hold_time = hold_time; open_timeout = 0 };
  caps = own_caps fl;
}

-- The parts of a greeting, by the OPEN that it answers.
record Parts (new_open : NewOpen) (fl : Flags) (m : OpenMessage) (g : Greeting) : Type 0 where
  pub answers : open_of new_open (speaker fl) ≡ ok g.answer
  pub holds : g.negotiated_hold ≡ min 90 m.hold_time * second
  pub enhances : g.enhanced ≡ has_cap m.opt_params enhanced_route_refresh_code
  pub decodes : g.modes ≡ (if fl.add_path then add_path_receive_modes m.opt_params [] else [])

greet-Parts :
    (new_open : NewOpen) (fl : Flags) (m : OpenMessage) (g : Greeting)
    → greet new_open fl (bgp_open m) ≡ ok g
    → Parts new_open fl m g
unfolding greet
greet-Parts new_open fl m g h = go (open_of new_open (speaker fl)) refl
  where
    go :
        (r : Result OpenError OpenMessage)
        → open_of new_open (speaker fl) ≡ r
        → Parts new_open fl m g
    go (err e) q = ground arith
    go (ok o) q =
        let modes = if fl.add_path then add_path_receive_modes m.opt_params [] else [] in
        let e : record {
          negotiated_hold = min 90 m.hold_time * second;
          enhanced = has_cap m.opt_params enhanced_route_refresh_code;
          modes = modes;
          answer = o;
        }
            ≡ g =
          ground arith in
        record {
          answers = q ∙ ap (λ x. ok x.answer) e;
          holds = sym (ap (λ x. x.negotiated_hold) e);
          enhances = sym (ap (λ x. x.enhanced) e);
          decodes = sym (ap (λ x. x.modes) e);
        }

sends_as_decoded : (x y z : Bool) → (x && (y && z)) ≡ (z && (if y then false || x else false))
sends_as_decoded true true true = refl
sends_as_decoded true true false = refl
sends_as_decoded true false true = refl
sends_as_decoded true false false = refl
sends_as_decoded false true true = refl
sends_as_decoded false true false = refl
sends_as_decoded false false true = refl
sends_as_decoded false false false = refl

decodes-mode :
    (fl : Flags) (f : Family) (ps : List OptionParameter)
    → bit0 (mode_of f (if fl.add_path then add_path_receive_modes ps [] else []))
      ≡ (if fl.add_path then false || params_say bit1 f ps else false)
decodes-mode fl f ps = elim (Bool-cases fl.add_path) [
  | inl on ↦
      rw on (
        receive_modes-params_say f ps [] ∙ ap (λ k. bit0 k || params_say bit1 f ps) (mode_of-nil f))
  | inr off ↦ rw off (ap bit0 (mode_of-nil f))
]

negotiate-enhanced_refresh :
    (a b : Config) (m : OpenMessage)
    → IsOpenOf b m
    → (negotiate a m new_session).enhanced_refresh
      ≡ (b.caps.enhanced_refresh && a.caps.enhanced_refresh)
unfolding negotiate finish_modes set_hold learn_params new_session
negotiate-enhanced_refresh a b m o =
    let start : Session = record (set_hold (own_hold a) m.hold_time new_session) {
      peer_as = m.my_as;
    } in
    ap (λ ps. (learn_params a.caps ps start []).0.enhanced_refresh) o.params
    ∙ learn_all-enhanced_refresh a.caps o.caps start []
    ∙ ap (λ x. x && a.caps.enhanced_refresh)
        (build_capabilities-enhances (with_as b.local_as b.caps) o.caps o.built)

has_cap-IsOpenOf :
    (a : Config) (m : OpenMessage)
    → IsOpenOf a m
    → has_cap m.opt_params enhanced_route_refresh_code ≡ a.caps.enhanced_refresh
has_cap-IsOpenOf a m o =
    ap (λ ps. has_cap ps enhanced_route_refresh_code) o.params
    ∙ has_cap-one enhanced_route_refresh_code o.caps
    ∙ build_capabilities-enhances (with_as a.local_as a.caps) o.caps o.built

own_enhanced : (fl : Flags) → (own_caps fl).enhanced_refresh ≡ true
unfolding own_caps
own_enhanced fl = refl

own_number : (fl : Flags) → (with_as fl.my_as (own_caps fl)).four_octet_as ≡ fl.my_as
unfolding own_caps
own_number fl = ground arith

-- When gobgp's constructor keeps its arguments, the ADD-PATH map of a configuration has one entry
-- for a family, and the test speaker answers the OPEN that was built from the configuration, then
-- the session that reads the answer has the hold time that the speaker waits for and knows the
-- speaker's AS number, it knows of Enhanced Route Refresh exactly if the speaker does, and it sends
-- a family with Path Identifiers exactly if that is one of the speaker's families and the
-- speaker expects the identifiers.
pub negotiate-greet :
    (new_open : NewOpen) (a : Config) (fl : Flags) (m : OpenMessage) (g : Greeting) (f : Family)
    → Keeps new_open
    → open_of new_open a ≡ ok m
    → IsDistinct a.caps.add_path
    → greet new_open fl (bgp_open m) ≡ ok g
    → ((negotiate a g.answer new_session).negotiated_hold ≡ g.negotiated_hold)
      × ((negotiate a g.answer new_session).peer_as ≡ fl.my_as)
      × ((negotiate a g.answer new_session).enhanced_refresh ≡ g.enhanced)
      × (bit1 (mode_of f (negotiate a g.answer new_session).add_path)
          ≡ (is_member f fl.families && bit0 (mode_of f g.modes)))
negotiate-greet new_open a fl m g f keeps built d h =
    let p = greet-Parts new_open fl m g h in
    let mine = build_open-IsOpenOf new_open a m keeps built in
    let theirs = build_open-IsOpenOf new_open (speaker fl) g.answer keeps p.answers in
    let out = negotiate-Outcome a (speaker fl) g.answer f theirs d in
    let same : min (own_hold a) 90 ≡ min 90 (own_hold a) = omega arith in
    let told = bit1 (mode_of f a.caps.add_path) in
    (
      out.hold ∙ ap (λ h. h * second) same ∙ sym (p.holds ∙ ap (λ h. min 90 h * second) mine.hold),
      out.number ∙ own_number fl,
      negotiate-enhanced_refresh a (speaker fl) g.answer theirs
          ∙ ap (λ x. x && a.caps.enhanced_refresh) (own_enhanced fl)
          ∙ sym (p.enhances ∙ has_cap-IsOpenOf a m mine),
      out.sends
          ∙ ap (λ x. told && x) (own_caps-receives f fl)
          ∙ sends_as_decoded told fl.add_path (is_member f fl.families)
          ∙ sym (
              ap (λ ms. is_member f fl.families && bit0 (mode_of f ms)) p.decodes
              ∙ ap (λ x. is_member f fl.families && x)
                  (decodes-mode fl f m.opt_params
                    ∙ ap (λ x. if fl.add_path then false || x else false)
                        (heard a m f bit1 mine refl))),
    )
