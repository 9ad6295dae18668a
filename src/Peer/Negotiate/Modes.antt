-- ===== src/Peer/Negotiate/Modes.antt =====
-- What the negotiation makes of the ADD-PATH tuples: each direction on its own, RFC 7911.
use xk6_bgp.Base.{
  ℕ, bit_or, Bool, true, false, ◌&&◌, ◌||◌, none, List, [], ◌∷◌, ◌≡◌, refl, sym, ap, subst, ◌∙◌,
  arith, if◌then◌else◌, ◌==◌, Map, lookup, insert, lookup-insert, nat_eq, Bool-cases, inl, inr,
}
use xk6_bgp.Base.Bits.{bit0, bit1, bit0-bit_or, bit1-bit_or}
use xk6_bgp.Packet.Route.{Family}
use xk6_bgp.Packet.Caps.{Capability, CapsConfig}
use xk6_bgp.Peer.Config.{
  Config, OpenMessage, OptionParameter, capability_parameter, other_parameter,
}
use xk6_bgp.Peer.Negotiate.{
  Session, mode_of, add_tuples, learn, learn_all, learn_params, effective_mode, negotiate_modes,
  finish_modes, negotiate,
}

-- Some tuple for `f` has the bit.
abbrev pub says : (ℕ → Bool) → Family → List (Family × ℕ) → Bool
says b f [] = false
says b f ((g, m) ∷ ts) = (g == f) && b m || says b f ts

abbrev pub cap_says : (ℕ → Bool) → Family → Capability → Bool
cap_says b f (Capability.add_path ts) = says b f ts
cap_says b f _ = false

abbrev pub caps_say : (ℕ → Bool) → Family → List Capability → Bool
caps_say b f [] = false
caps_say b f (c ∷ cs) = cap_says b f c || caps_say b f cs

-- Some ADD-PATH tuple of the OPEN for `f` has the bit.
abbrev pub params_say : (ℕ → Bool) → Family → List OptionParameter → Bool
params_say b f [] = false
params_say b f (other_parameter ∷ ps) = params_say b f ps
params_say b f (capability_parameter cs ∷ ps) = caps_say b f cs || params_say b f ps

-- A Go map has one entry for a key.
abbrev pub IsDistinct : Map Family ℕ → Type 0
IsDistinct [] = Unit
IsDistinct ((f, m) ∷ ms) = (lookup f ms ≡ none) × IsDistinct ms

pub mode_of-insert :
    (f g m : ℕ) (ms : Map Family ℕ)
    → mode_of f (insert g m ms) ≡ (if g == f then m else mode_of f ms)
unfolding mode_of
mode_of-insert f g m ms = ground (arith, lookup-insert g f m ms)

-- A bit that `|=` joins.
module _ (b : ℕ → Bool) (join : (m n : ℕ) → b (bit_or m n) ≡ (b m || b n)) where
  mode_of-add_tuples :
      (f : Family) (ts : List (Family × ℕ)) (ms : Map Family ℕ)
      → b (mode_of f (add_tuples ms ts)) ≡ (b (mode_of f ms) || says b f ts)
  unfolding add_tuples
  mode_of-add_tuples f [] ms = ground arith
  mode_of-add_tuples f ((g, m) ∷ ts) ms =
      let n = bit_or (mode_of g ms) m in
      rw (mode_of-add_tuples f ts (insert g n ms), mode_of-insert f g n ms)
        (elim (Bool-cases (g == f)) [
          | inl same ↦
              let e : g ≡ f = ground arith in
              rw (same, join (mode_of g ms) m, e) (or_assoc (b (mode_of f ms)) (b m) (says b f ts))
          | inr other ↦ rw other refl
        ])
    where
      or_assoc : (x y z : Bool) → ((x || y) || z) ≡ (x || (y || z))
      or_assoc true y z = refl
      or_assoc false y z = refl

  mode_of-learn_all :
      (caps : CapsConfig) (f : Family) (cs : List Capability) (s : Session) (ms : Map Family ℕ)
      → b (mode_of f (learn_all caps cs s ms).1) ≡ (b (mode_of f ms) || caps_say b f cs)
  unfolding learn_all
  mode_of-learn_all caps f [] s ms = ground arith
  mode_of-learn_all caps f (Capability.add_path ts ∷ cs) s ms = ground (
    arith,
    mode_of-learn_all caps f cs (learn caps (Capability.add_path ts) s) (add_tuples ms ts),
    mode_of-add_tuples f ts ms,
  )
  mode_of-learn_all caps f (c ∷ cs) s ms = mode_of-learn_all caps f cs (learn caps c s) ms

  pub mode_of-learn_params :
      (caps : CapsConfig) (f : Family) (ps : List OptionParameter) (s : Session) (ms : Map Family ℕ)
      → b (mode_of f (learn_params caps ps s ms).1) ≡ (b (mode_of f ms) || params_say b f ps)
  unfolding learn_params
  mode_of-learn_params caps f [] s ms = ground arith
  mode_of-learn_params caps f (other_parameter ∷ ps) s ms = mode_of-learn_params caps f ps s ms
  mode_of-learn_params caps f (capability_parameter cs ∷ ps) s ms =
      let r = learn_all caps cs s ms in
      ground (arith, mode_of-learn_params caps f ps r.0 r.1, mode_of-learn_all caps f cs s ms)

bit1-effective_mode : (own peer : ℕ) → bit1 (effective_mode own peer) ≡ (bit1 own && bit0 peer)
unfolding effective_mode
bit1-effective_mode own peer = go (bit1 own) (bit0 own) (bit1 peer) (bit0 peer)
  where
    go :
        (x y z w : Bool)
        → bit1
            (let send = if x && w then bit_or 0 2 else 0 in if y && z then bit_or send 1 else send)
          ≡ (x && w)
    go false false z w = refl
    go false true false w = refl
    go false true true w = refl
    go true false z false = refl
    go true false z true = refl
    go true true false false = refl
    go true true false true = refl
    go true true true false = refl
    go true true true true = refl

bit0-effective_mode : (own peer : ℕ) → bit0 (effective_mode own peer) ≡ (bit0 own && bit1 peer)
unfolding effective_mode
bit0-effective_mode own peer = go (bit1 own) (bit0 own) (bit1 peer) (bit0 peer)
  where
    go :
        (x y z w : Bool)
        → bit0
            (let send = if x && w then bit_or 0 2 else 0 in if y && z then bit_or send 1 else send)
          ≡ (y && z)
    go false false z w = refl
    go false true false w = refl
    go false true true w = refl
    go true false z false = refl
    go true false z true = refl
    go true true false false = refl
    go true true false true = refl
    go true true true false = refl
    go true true true true = refl

effective_mode-zero : (peer : ℕ) → effective_mode 0 peer ≡ 0
unfolding effective_mode
effective_mode-zero peer = refl

mode_of-cons :
    (f g m : ℕ) (ms : Map Family ℕ) → mode_of f ((g, m) ∷ ms) ≡ (if g == f then m else mode_of f ms)
unfolding mode_of lookup
mode_of-cons f g m ms = ground arith

pub mode_of-none : (f : Family) (ms : Map Family ℕ) → lookup f ms ≡ none → mode_of f ms ≡ 0
unfolding mode_of
mode_of-none f ms e = rw e refl

pub mode_of-nil : (f : Family) → mode_of f [] ≡ 0
unfolding mode_of lookup
mode_of-nil f = refl

mode_of-insert_unless :
    (f g m : ℕ) (ms : Map Family ℕ)
    → (g ≡ f → mode_of f ms ≡ 0)
    → mode_of f (if m == 0 then ms else insert g m ms) ≡ (if g == f then m else mode_of f ms)
mode_of-insert_unless f g m ms z = elim (Bool-cases (m == 0)) [
  | inl zero ↦ rw zero (ground arith)
  | inr more ↦ rw more (mode_of-insert f g m ms)
]

mode_of-negotiate_modes :
    (f : Family) (peer ms : Map Family ℕ)
    → IsDistinct ms
    → mode_of f (negotiate_modes peer ms) ≡ effective_mode (mode_of f ms) (mode_of f peer)
unfolding negotiate_modes
mode_of-negotiate_modes f peer [] d =
    mode_of-nil f
    ∙ sym (ap (λ m. effective_mode m (mode_of f peer)) (mode_of-nil f) ∙ effective_mode-zero _)
mode_of-negotiate_modes f peer ((g, own) ∷ ms) (absent, d) =
    let rec = mode_of-negotiate_modes f peer ms d in
    ground (
      arith,
      mode_of-insert_unless f g (effective_mode own (mode_of g peer)) (negotiate_modes peer ms)
          (λ e.
            rec
            ∙ ap (λ m. effective_mode m (mode_of f peer))
                (mode_of-none f ms (subst (λ h. lookup h ms ≡ none) e absent))
            ∙ effective_mode-zero (mode_of f peer)),
      mode_of-cons f g own ms,
      rec,
    )

module _ (b c : ℕ → Bool) (join : (m n : ℕ) → c (bit_or m n) ≡ (c m || c n)) (z : c 0 ≡ false)
    (eff : (own peer : ℕ) → b (effective_mode own peer) ≡ (b own && c peer)) where
  direction :
      (caps : CapsConfig) (ps : List OptionParameter) (t : Session) (f : Family)
      → IsDistinct caps.add_path
      → b (mode_of f (negotiate_modes (learn_params caps ps t []).1 caps.add_path))
        ≡ (b (mode_of f caps.add_path) && params_say c f ps)
  direction caps ps t f d =
      let peer = (learn_params caps ps t []).1 in
      let start : c (mode_of f []) ≡ false = ap c (mode_of-nil f) ∙ z in
      ap b (mode_of-negotiate_modes f peer caps.add_path d)
      ∙ eff _ _
      ∙ ap (λ x. b (mode_of f caps.add_path) && x)
          (mode_of-learn_params c join caps f ps t [] ∙ ap (λ x. x || params_say c f ps) start)

-- With one entry for a family in the configured map, each direction is negotiated on its own: a family is sent with Path Identifiers exactly if the
-- configuration offers to send it and some tuple of the OPEN offers to receive it, and is
-- received with them exactly if the configuration offers to receive it and a tuple to send it.
pub negotiate_directions :
    (cfg : Config) (m : OpenMessage) (s : Session) (f : Family)
    → IsDistinct cfg.caps.add_path
    → (bit1 (mode_of f (negotiate cfg m s).add_path)
        ≡ (bit1 (mode_of f cfg.caps.add_path) && params_say bit0 f m.opt_params))
      × (bit0 (mode_of f (negotiate cfg m s).add_path)
          ≡ (bit0 (mode_of f cfg.caps.add_path) && params_say bit1 f m.opt_params))
unfolding negotiate finish_modes
negotiate_directions cfg m s f d = (
  direction bit1 bit0 bit0-bit_or refl bit1-effective_mode cfg.caps m.opt_params _ f d,
  direction bit0 bit1 bit1-bit_or refl bit0-effective_mode cfg.caps m.opt_params _ f d,
)
