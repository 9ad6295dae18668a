-- ===== src/Fakebgpd/Connection/Decoding.antt =====
-- For which families the test speaker expects Path Identifiers, and for which it offers them.
use xk6_bgp.Base.{
  ℕ, bit_or, Bool, true, false, ◌&&◌, ◌||◌, List, [], ◌∷◌, ◌≡◌, refl, arith, ap, ◌∙◌, ◌==◌, Map,
  insert, nat_eq, Bool-cases, inl, inr,
}
use xk6_bgp.Base.Bits.{bit0, bit1, bit0-bit_or}
use xk6_bgp.Packet.Route.{Family}
use xk6_bgp.Packet.Caps.{Capability, is_member}
use xk6_bgp.Peer.Config.{OptionParameter, capability_parameter, other_parameter}
use xk6_bgp.Peer.Negotiate.{mode_of}
use xk6_bgp.Peer.Negotiate.Modes.{says, caps_say, params_say, mode_of-insert, mode_of-nil}
use xk6_bgp.Fakebgpd.{receive_tuples, receive_caps, add_path_receive_modes}
use xk6_bgp.Fakebgpd.Connection.{Flags, both_ways, own_caps}

or_assoc : (x y z : Bool) → ((x || y) || z) ≡ (x || (y || z))
or_assoc true y z = refl
or_assoc false y z = refl

-- Receiving is enabled for a family exactly if some tuple offers to send it.
receive_tuples-says :
    (f : Family) (ts : List (Family × ℕ)) (ms : Map Family ℕ)
    → bit0 (mode_of f (receive_tuples ts ms)) ≡ (bit0 (mode_of f ms) || says bit1 f ts)
unfolding receive_tuples
receive_tuples-says f [] ms = ground arith
receive_tuples-says f ((g, m) ∷ ts) ms = elim (Bool-cases (bit1 m)) [
  | inl on ↦ rw on (
      receive_tuples-says f ts (insert g (bit_or (mode_of g ms) 1) ms)
      ∙ ap (λ k. bit0 k || says bit1 f ts) (mode_of-insert f g (bit_or (mode_of g ms) 1) ms)
      ∙ elim (Bool-cases (g == f)) [
        | inl same ↦
            let e : g ≡ f = ground arith in
            rw (same, bit0-bit_or (mode_of g ms) 1, e)
              (or_assoc (bit0 (mode_of f ms)) true (says bit1 f ts))
        | inr other ↦ rw other refl
      ])
  | inr off ↦ rw off (receive_tuples-says f ts ms ∙ ground arith)
]

receive_caps-caps_say :
    (f : Family) (cs : List Capability) (ms : Map Family ℕ)
    → bit0 (mode_of f (receive_caps cs ms)) ≡ (bit0 (mode_of f ms) || caps_say bit1 f cs)
unfolding receive_caps
receive_caps-caps_say f [] ms = ground arith
receive_caps-caps_say f (Capability.add_path ts ∷ cs) ms =
    receive_caps-caps_say f cs (receive_tuples ts ms)
    ∙ ap (λ x. x || caps_say bit1 f cs) (receive_tuples-says f ts ms)
    ∙ or_assoc (bit0 (mode_of f ms)) (says bit1 f ts) (caps_say bit1 f cs)
receive_caps-caps_say f (c ∷ cs) ms = receive_caps-caps_say f cs ms

pub receive_modes-params_say :
    (f : Family) (ps : List OptionParameter) (ms : Map Family ℕ)
    → bit0 (mode_of f (add_path_receive_modes ps ms))
      ≡ (bit0 (mode_of f ms) || params_say bit1 f ps)
unfolding add_path_receive_modes
receive_modes-params_say f [] ms = ground arith
receive_modes-params_say f (other_parameter ∷ ps) ms = receive_modes-params_say f ps ms
receive_modes-params_say f (capability_parameter cs ∷ ps) ms =
    receive_modes-params_say f ps (receive_caps cs ms)
    ∙ ap (λ x. x || params_say bit1 f ps) (receive_caps-caps_say f cs ms)
    ∙ or_assoc (bit0 (mode_of f ms)) (caps_say bit1 f cs) (params_say bit1 f ps)

both_ways-is_member :
    (f : Family) (fs : List Family) (ms : Map Family ℕ)
    → bit0 (mode_of f (both_ways fs ms)) ≡ (is_member f fs || bit0 (mode_of f ms))
unfolding both_ways
both_ways-is_member f [] ms = refl
both_ways-is_member f (g ∷ fs) ms =
    both_ways-is_member f fs (insert g 3 ms)
    ∙ ap (λ k. is_member f fs || bit0 k) (mode_of-insert f g 3 ms)
    ∙ ground arith

pub own_caps-receives :
    (f : Family) (fl : Flags)
    → bit0 (mode_of f (own_caps fl).add_path) ≡ (fl.add_path && is_member f fl.families)
unfolding own_caps
own_caps-receives f fl = elim (Bool-cases fl.add_path) [
  | inl on ↦ rw on (
      both_ways-is_member f fl.families []
      ∙ ap (λ k. is_member f fl.families || bit0 k) (mode_of-nil f)
      ∙ ground arith)
  | inr off ↦ rw off (ap bit0 (mode_of-nil f))
]
