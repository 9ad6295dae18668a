-- ===== src/Peer/Negotiate/Accept.antt =====
-- The OPENs that are accepted, and the timers that they give.
use xk6_bgp.Base.{
  ℕ, ◌*◌, ◌/◌, ◌%◌, ◌^◌, ◌≤◌, min, false, not, ◌&&◌, none, List, [], ◌∷◌, ◌≡◌, refl, sym, arith, ap,
  subst, ◌∙◌, ◌⊎◌, ltb, ◌==◌, Map, ok, Bool-cases, inl, inr,
}
use xk6_bgp.Packet.Route.{Family}
use xk6_bgp.Packet.Caps.{CapsConfig}
use xk6_bgp.Peer.Config.{
  Config, OpenMessage, OptionParameter, capability_parameter, other_parameter, second, bad_hold,
  validate, apply_defaults, default_timers, new,
}
use xk6_bgp.Peer.Negotiate.{
  Session, tick_of, learn_all, learn_params, negotiate, finish_modes, set_hold, new_session,
  accept_peer_open,
}
use xk6_bgp.Peer.Negotiate.Learn.{SameTimers, learn_all-SameTimers}

-- The HoldTime of a configuration that New accepted fits its field, and is 0 or at least 3.
pub new-hold_time :
    (c cfg : Config) → new c ≡ ok cfg → bad_hold (cfg.timers.hold_time / second) ≡ false
unfolding new validate apply_defaults default_timers
new-hold_time c cfg h = ground arith

learn_params-SameTimers :
    (caps : CapsConfig) (ps : List OptionParameter) (s : Session) (ms : Map Family ℕ)
    → SameTimers s (learn_params caps ps s ms).0
unfolding learn_params
learn_params-SameTimers caps [] s ms = (refl, refl)
learn_params-SameTimers caps (other_parameter ∷ ps) s ms = learn_params-SameTimers caps ps s ms
learn_params-SameTimers caps (capability_parameter cs ∷ ps) s ms =
    let r = learn_all caps cs s ms in
    let (h, t) = learn_all-SameTimers caps cs s ms in
    let (h', t') = learn_params-SameTimers caps ps r.0 r.1 in (h' ∙ h, t' ∙ t)

tick_of-bounds : (n : ℕ) → 3 ≤ n → (second ≤ tick_of n) × (tick_of n * 3 ≤ n * second)
unfolding tick_of
tick_of-bounds n h = ground arith

negotiate-timers :
    (cfg : Config) (m : OpenMessage) (s : Session)
    → ((negotiate cfg m s).negotiated_hold
        ≡ min (cfg.timers.hold_time / second % 2 ^ 16) m.hold_time * second)
      × ((negotiate cfg m s).keepalive_tick
          ≡ tick_of (min (cfg.timers.hold_time / second % 2 ^ 16) m.hold_time))
unfolding negotiate finish_modes set_hold
negotiate-timers cfg m s = learn_params-SameTimers cfg.caps m.opt_params _ []

accepted :
    (cfg : Config) (m : OpenMessage) (s t : Session)
    → accept_peer_open cfg m s ≡ (t, none)
    → (t ≡ negotiate cfg m s)
      × ((m.hold_time ≡ 0) ⊎ (3 ≤ m.hold_time))
      × ((cfg.peer_as ≡ 0) ⊎ (t.peer_as ≡ cfg.peer_as))
unfolding accept_peer_open
accepted cfg m s t h = elim (Bool-cases (not (m.hold_time == 0) && ltb m.hold_time 3)) [
  | inl bad ↦ let q = rw bad at h in cc
  | inr fine ↦
      let q = rw fine at h in
      elim (Bool-cases
        (not (cfg.peer_as == 0) && not ((negotiate cfg m s).peer_as == cfg.peer_as))) [
          | inl other ↦ let r = rw other at q in cc
          | inr same ↦
              let r = rw same at q in
              let e : t ≡ negotiate cfg m s = sym (ap (λ x. x.0) r) in
              (
                e,
                long_enough m.hold_time fine,
                subst (λ x. (cfg.peer_as ≡ 0) ⊎ (x.peer_as ≡ cfg.peer_as)) (sym e)
                    (right_as cfg.peer_as (negotiate cfg m s).peer_as same),
              )
        ]
]
  where
    long_enough : (n : ℕ) → (not (n == 0) && ltb n 3) ≡ false → (n ≡ 0) ⊎ (3 ≤ n)
    long_enough n e = elim (Bool-cases (n == 0)) [
      | inl z ↦ inl (ground arith)
      | inr p ↦ inr (ground arith)
    ]

    right_as : (n k : ℕ) → (not (n == 0) && not (k == n)) ≡ false → (n ≡ 0) ⊎ (k ≡ n)
    right_as n k e = elim (Bool-cases (n == 0)) [
      | inl z ↦ inl (ground arith)
      | inr p ↦ inr (ground arith)
    ]

-- The timers are off, or the session is held for at least three seconds with its KEEPALIVEs at
-- least a second and at most a third of that apart.
abbrev pub HasTimers : Session → Type 0
HasTimers t =
    ((t.negotiated_hold ≡ 0) × (t.keepalive_tick ≡ 0))
    ⊎ ((3 * second ≤ t.negotiated_hold)
        × (second ≤ t.keepalive_tick)
        × (t.keepalive_tick * 3 ≤ t.negotiated_hold))

settled : (n : ℕ) → bad_hold n ≡ false → (n ≡ 0) ⊎ (3 ≤ n)
settled n e = elim (Bool-cases (n == 0)) [ inl z ↦ inl (ground arith) | inr p ↦ inr (ground arith) ]

timers_off :
    (s : Session) (n : ℕ)
    → n ≡ 0
    → s.negotiated_hold ≡ n * second
    → s.keepalive_tick ≡ tick_of n
    → HasTimers s
unfolding tick_of
timers_off s n z h k = inl (omega arith, k ∙ ap tick_of z)

min-HasTimers :
    (own peer : ℕ) (s : Session)
    → (own ≡ 0) ⊎ (3 ≤ own)
    → (peer ≡ 0) ⊎ (3 ≤ peer)
    → s.negotiated_hold ≡ min own peer * second
    → s.keepalive_tick ≡ tick_of (min own peer)
    → HasTimers s
min-HasTimers own peer s (inl z) p h k = timers_off s (min own peer) (omega arith) h k
min-HasTimers own peer s (inr z) (inl p) h k = timers_off s (min own peer) (omega arith) h k
min-HasTimers own peer s (inr z) (inr p) h k =
    let (lo, hi) = tick_of-bounds (min own peer) (omega arith) in
    inr (omega arith, omega arith, omega arith)

-- With a configuration that New returned, an OPEN that is accepted has the configured AS, if there
-- is one; the local HoldTime fits its two octets; and either the timers are off, or the session is
-- held for at least three seconds, with KEEPALIVEs at least a second and at most a third of that
-- apart.
pub accepted_timers :
    (c cfg : Config) (m : OpenMessage) (t : Session)
    → new c ≡ ok cfg
    → accept_peer_open cfg m new_session ≡ (t, none)
    → ((cfg.peer_as ≡ 0) ⊎ (t.peer_as ≡ cfg.peer_as))
      × (cfg.timers.hold_time / second % 2 ^ 16 ≡ cfg.timers.hold_time / second)
      × HasTimers t
accepted_timers c cfg m t n h =
    let (e, long, who) = accepted cfg m new_session t h in
    let range = new-hold_time c cfg n in
    let (hold, tick) = negotiate-timers cfg m new_session in
    let same : cfg.timers.hold_time / second % 2 ^ 16 ≡ cfg.timers.hold_time / second =
      ground arith in
    let own = cfg.timers.hold_time / second in
    (
      who,
      same,
      subst HasTimers (sym e) (
          min-HasTimers own m.hold_time (negotiate cfg m new_session) (settled own range) long
            (hold ∙ ap (λ x. min x m.hold_time * second) same)
            (tick ∙ ap (λ x. tick_of (min x m.hold_time)) same)),
    )
