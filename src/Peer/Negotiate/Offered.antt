-- ===== src/Peer/Negotiate/Offered.antt =====
-- internal/packet/caps.go: what the capabilities of BuildCapabilities tell the other side.
use xk6_bgp.Base.{
  ℕ, Bool, true, false, ◌&&◌, ◌||◌, Option, none, some, List, [], ◌∷◌, ◌++◌, map, ◌≡◌, refl, sym,
  arith, ap, subst, ◌∙◌, ◌==◌, Map, lookup, nat_eq, Result, ok, err, Bool-cases, Option-cases, inl,
  inr,
}
use xk6_bgp.Packet.Route.{Family}
use xk6_bgp.Packet.Caps.{
  Capability, multi_protocol, four_octet_as, enhanced_route_refresh, default_capability, GrConfig,
  CapsConfig, CapsError, extended_message_code, has_extended_message_cap, is_member, check_add_path,
  add_path_tuples, when, add_path_cap, restart_cap, plain_caps, build_capabilities,
}
use xk6_bgp.Peer.Negotiate.{mode_of}
use xk6_bgp.Peer.Negotiate.Modes.{mode_of-none, mode_of-nil, says, caps_say}

caps_say-append :
    (b : ℕ → Bool) (f : Family) (xs ys : List Capability)
    → caps_say b f (xs ++ ys) ≡ (caps_say b f xs || caps_say b f ys)
caps_say-append b f [] ys = refl
caps_say-append b f (x ∷ xs) ys = ground (arith, caps_say-append b f xs ys)

has_extended-append :
    (xs ys : List Capability)
    → has_extended_message_cap (xs ++ ys)
      ≡ (has_extended_message_cap xs || has_extended_message_cap ys)
unfolding has_extended_message_cap
has_extended-append [] ys = refl
has_extended-append (x ∷ xs) ys = ground (arith, has_extended-append xs ys)

-- What a list of capabilities tells: the bits of the modes, the AS and the flags.
record Tells (f : Family) (b : ℕ → Bool) (mode ext : Bool) (cs : List Capability) : Type 0 where
  pub modes : caps_say b f cs ≡ mode
  pub extended : has_extended_message_cap cs ≡ ext

Tells-append :
    (f : Family) (b : ℕ → Bool) {m n x y : Bool} {cs ds : List Capability}
    → Tells f b m x cs
    → Tells f b n y ds
    → Tells f b (m || n) (x || y) (cs ++ ds)
Tells-append f b {cs = cs} {ds = ds} t u = record {
  modes = ground (arith, caps_say-append b f cs ds, t.modes, u.modes);
  extended = ground (arith, has_extended-append cs ds, t.extended, u.extended);
}

Tells-multi_protocol :
    (f : Family) (b : ℕ → Bool) (fs : List Family) → Tells f b false false (map multi_protocol fs)
unfolding has_extended_message_cap
Tells-multi_protocol f b [] = record { modes = refl; extended = refl }
Tells-multi_protocol f b (g ∷ fs) =
    let t = Tells-multi_protocol f b fs in record { modes = t.modes; extended = t.extended }

Tells-flags :
    (f : Family) (b : ℕ → Bool) (n : ℕ) (x y z : Bool)
    → Tells f b false z (
        four_octet_as n
        ∷ (when x Capability.route_refresh
            ++ (when y enhanced_route_refresh
                ++ when z (default_capability extended_message_code))))
unfolding has_extended_message_cap
Tells-flags f b n false false false = record { modes = refl; extended = refl }
Tells-flags f b n false false true = record { modes = refl; extended = refl }
Tells-flags f b n false true false = record { modes = refl; extended = refl }
Tells-flags f b n false true true = record { modes = refl; extended = refl }
Tells-flags f b n true false false = record { modes = refl; extended = refl }
Tells-flags f b n true false true = record { modes = refl; extended = refl }
Tells-flags f b n true true false = record { modes = refl; extended = refl }
Tells-flags f b n true true true = record { modes = refl; extended = refl }

Tells-restart_cap :
    (f : Family) (b : ℕ → Bool) (c : CapsConfig) (g : Option GrConfig)
    → Tells f b false false (restart_cap c g)
unfolding has_extended_message_cap
Tells-restart_cap f b c none = record { modes = refl; extended = refl }
Tells-restart_cap f b c (some g) = record { modes = refl; extended = refl }

-- Every key of a checked map is an advertised family.
check_add_path-is_member :
    (fs : List Family) (f m : ℕ) (ms : Map Family ℕ)
    → check_add_path fs ms ≡ ok tt
    → lookup f ms ≡ some m
    → is_member f fs ≡ true
unfolding check_add_path lookup
check_add_path-is_member fs f m [] c h = ground arith
check_add_path-is_member fs f m ((g, n) ∷ ms) c h =
    ground (arith, check_add_path-is_member fs f m ms)

mode_of-some : (f m : ℕ) (ms : Map Family ℕ) → lookup f ms ≡ some m → mode_of f ms ≡ m
unfolding mode_of
mode_of-some f m ms e = rw e refl

tuples-none :
    (g : Family) (ms : Map Family ℕ) (fs : List Family)
    → lookup g ms ≡ none
    → add_path_tuples ms (g ∷ fs) ≡ add_path_tuples ms fs
unfolding add_path_tuples
tuples-none g ms fs e = rw (e, add_path_tuples) refl

tuples-some :
    (g m : ℕ) (ms : Map Family ℕ) (fs : List Family)
    → lookup g ms ≡ some m
    → add_path_tuples ms (g ∷ fs) ≡ (g, m) ∷ add_path_tuples ms fs
unfolding add_path_tuples
tuples-some g m ms fs e = rw (e, add_path_tuples) refl

says-add_path_tuples :
    (b : ℕ → Bool) (f : Family) (ms : Map Family ℕ) (fs : List Family)
    → b 0 ≡ false
    → says b f (add_path_tuples ms fs) ≡ (is_member f fs && b (mode_of f ms))
unfolding add_path_tuples
says-add_path_tuples b f ms [] z = refl
says-add_path_tuples b f ms (g ∷ fs) z = elim (Option-cases (lookup g ms)) [
  | inl absent ↦ rw (tuples-none g ms fs absent) (elim (Bool-cases (g == f)) [
    | inl same ↦
        let e : g ≡ f = ground arith in
        let off : b (mode_of f ms) ≡ false =
          ap b (mode_of-none f ms (subst (λ h. lookup h ms ≡ none) e absent)) ∙ z in
        ground (arith, says-add_path_tuples b f ms fs z, off)
    | inr other ↦ ground (arith, says-add_path_tuples b f ms fs z)
  ])
  | inr (m, found) ↦ rw (tuples-some g m ms fs found) (elim (Bool-cases (g == f)) [
    | inl same ↦
        let e : g ≡ f = ground arith in
        let on : b m ≡ b (mode_of f ms) =
          ap b (sym (mode_of-some f m ms (subst (λ h. lookup h ms ≡ some m) e found))) in
        ground (arith, says-add_path_tuples b f ms fs z, on)
    | inr other ↦ ground (arith, says-add_path_tuples b f ms fs z)
  ])
]

-- A mode is looked up among the advertised families alone.
covered :
    (b : ℕ → Bool) (f : Family) (ms : Map Family ℕ) (fs : List Family)
    → b 0 ≡ false
    → check_add_path fs ms ≡ ok tt
    → says b f (add_path_tuples ms fs) ≡ b (mode_of f ms)
covered b f ms fs z c = elim (Option-cases (lookup f ms)) [
  | inl absent ↦
      let off : b (mode_of f ms) ≡ false = ap b (mode_of-none f ms absent) ∙ z in
      ground (arith, says-add_path_tuples b f ms fs z, off)
  | inr (m, found) ↦
      ground (arith, says-add_path_tuples b f ms fs z, check_add_path-is_member fs f m ms c found)
]

Tells-add_path_cap :
    (f : Family) (b : ℕ → Bool) (c : CapsConfig) (cs : List Capability)
    → b 0 ≡ false
    → add_path_cap c ≡ ok cs
    → Tells f b (b (mode_of f c.add_path)) false cs
unfolding add_path_cap has_extended_message_cap
Tells-add_path_cap f b c cs z h = go c.add_path refl
  where
    go : (ms : Map Family ℕ) → c.add_path ≡ ms → Tells f b (b (mode_of f c.add_path)) false cs
    go [] e =
        let q : cs ≡ [] = ground arith in
        let off : b (mode_of f c.add_path) ≡ false =
          ap (λ ms. b (mode_of f ms)) e ∙ ap b (mode_of-nil f) ∙ z in
        record { modes = rw (q, off) refl; extended = rw q refl }
    go (t ∷ ts) e =
        let q : cs ≡ Capability.add_path (add_path_tuples c.add_path c.families) ∷ [] =
          ground arith in
        let checked : check_add_path c.families c.add_path ≡ ok tt = ground arith in
        record {
          modes = ground (arith, covered b f c.add_path c.families z checked, q);
          extended = rw q refl;
        }

Tells-plain_caps :
    (f : Family) (b : ℕ → Bool) (c : CapsConfig) → Tells f b false c.extended_message (plain_caps c)
unfolding plain_caps
Tells-plain_caps f b c =
    Tells-append f b (Tells-multi_protocol f b c.families)
      (Tells-flags f b c.four_octet_as c.route_refresh c.enhanced_refresh c.extended_message)

-- The parts of a list that BuildCapabilities returns.
pub built_parts :
    (c : CapsConfig) (cs : List Capability)
    → build_capabilities c ≡ ok cs
    → (ap : List Capability) × (add_path_cap c ≡ ok ap)
      × (cs ≡ plain_caps c ++ (ap ++ restart_cap c c.graceful_restart))
unfolding build_capabilities
built_parts c cs h = go c.families refl (add_path_cap c) refl
  where
    go :
        (fs : List Family)
        → c.families ≡ fs
        → (r : Result CapsError (List Capability)) → add_path_cap c ≡ r
        → (ap : List Capability) × (add_path_cap c ≡ ok ap)
          × (cs ≡ plain_caps c ++ (ap ++ restart_cap c c.graceful_restart))
    go [] e r q = ground arith
    go (f ∷ fs) e (err x) q = ground arith
    go (f ∷ fs) e (ok more) q = (more, q, ground arith)

pub or_false : (x : Bool) → (x || false) ≡ x
or_false true = refl
or_false false = refl

-- What the ADD-PATH map and the flag become on the other side.
pub offered :
    (c : CapsConfig) (cs : List Capability) (f : Family) (b : ℕ → Bool)
    → b 0 ≡ false
    → build_capabilities c ≡ ok cs
    → (caps_say b f cs ≡ b (mode_of f c.add_path))
      × (has_extended_message_cap cs ≡ c.extended_message)
offered c cs f b z h =
    let (more, q, e) = built_parts c cs h in
    let t = Tells-append f b (Tells-plain_caps f b c) (
      Tells-append f b (Tells-add_path_cap f b c more z q)
        (Tells-restart_cap f b c c.graceful_restart)) in
    (
      ap (caps_say b f) e ∙ t.modes ∙ or_false (b (mode_of f c.add_path)),
      ap has_extended_message_cap e ∙ t.extended ∙ or_false c.extended_message,
    )
