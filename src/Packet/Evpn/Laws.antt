-- ===== src/Packet/Evpn/Laws.antt =====
-- internal/packet/evpn.go: what the EVPN constructors hand to gobgp.
use xk6_bgp.Base.{
  sym, ok-inj, bind-ok, if_split, ◌&&◌, if◌then◌else◌, ℕ, ◌%◌, ◌^◌, ◌≤◌, Bool, true, false, not,
  Option, none, some, ok, guard_not, seq-ok, guard-holds, ◌≡◌, inl, inr, refl, subst, arith,
  Bool-cases,
}
use xk6_bgp.Packet.Addr.{Addr, zero_addr, v4, v6, is_valid, is6, is4in6, Prefix, is_valid_prefix}
use xk6_bgp.Packet.Route.{Route}
use xk6_bgp.Packet.Types.{differ, built, rd_required, invalid_prefix}
use xk6_bgp.Packet.Update.Attrs.{unmap}
use xk6_bgp.Packet.Evpn.{rf_evpn, gateway_for, new_evpn_ip_prefix}

built_parts :
    {N : Type 0} (o : Option (N × ℕ)) (r : Route N)
    → built rf_evpn o ≡ ok r
    → (r.family ≡ rf_evpn) × (o ≡ some (r.nlri, r.wire_len))
built_parts none r h = cc
built_parts {N = N} (some (n, len)) r h =
    subst
      (λ s.
        (s.family ≡ rf_evpn)
        × (◌≡◌ {A = Option (N × ℕ)} (some (n, len)) (some (s.nlri, s.wire_len))))
      (ok-inj _ r h) (refl, refl)

-- An address of IPv4, or one of IPv6 that is not a mapped one.
abbrev pub IsPure : Addr → Type 0
IsPure a = (is_valid a ≡ true) × (is4in6 a ≡ false)

unmap-IsPure : (a : Addr) → is_valid a ≡ true → IsPure (unmap a)
unmap-IsPure zero_addr h = cc
unmap-IsPure (v4 n) h = (refl, refl)
unmap-IsPure (v6 n) h = elim (Bool-cases (is4in6 (v6 n))) [
  | inl e ↦ rw (e) (refl, refl)
  | inr e ↦ rw (e) (refl, e)
]

gateway_sound : (w : Bool) (gw g : Addr) → gateway_for w gw ≡ ok g → IsPure g × (is6 g ≡ w)
unfolding gateway_for
gateway_sound w gw g h = elim (if_split (not (is_valid gw)) _ _ g h) [
  | inl (e, x) ↦ subst (λ a. IsPure a × (is6 a ≡ w)) (ok-inj _ g x) (unspecified w)
  | inr (e, x) ↦ elim (if_split (differ (is6 (unmap gw)) w) _ _ g x) [
    | inl (d, y) ↦ cc
    | inr (d, y) ↦
        subst (λ a. IsPure a × (is6 a ≡ w)) (ok-inj _ g y)
          (unmap-IsPure gw (flag (is_valid gw) e), same_kind (is6 (unmap gw)) w d)
  ]
]
  where
    unspecified :
        (w : Bool) → IsPure (if w then v6 0 else v4 0) × (is6 (if w then v6 0 else v4 0) ≡ w)
    unspecified true = ((refl, refl), refl)
    unspecified false = ((refl, refl), refl)

    flag : (b : Bool) → not b ≡ false → b ≡ true
    flag b e = ground arith

    same_kind : (x y : Bool) → differ x y ≡ false → x ≡ y
    same_kind x y e = ground arith

prefix_bits : (a : Addr) (b : ℕ) → is_valid_prefix (record { addr = a; bits = b }) ≡ true → b ≤ 128
prefix_bits zero_addr b h = cc
prefix_bits (v4 n) b h = ground arith
prefix_bits (v6 n) b h = ground arith

-- The gateway that a call asks for, in the family of the prefix.
abbrev pub IsGateway : Bool → Addr → Addr → Type 0
IsGateway w gw g =
    (is_valid gw ≡ false → g ≡ (if w then v6 0 else v4 0)) × (is_valid gw ≡ true → g ≡ unmap gw)

gateway_for-IsGateway : (w : Bool) (gw g : Addr) → gateway_for w gw ≡ ok g → IsGateway w gw g
unfolding gateway_for
gateway_for-IsGateway w gw g h = elim (if_split (not (is_valid gw)) _ _ g h) [
  | inl (e, x) ↦ ((λ _. sym (ok-inj _ g x)), λ v. ground arith)
  | inr (e, x) ↦ elim (if_split (differ (is6 (unmap gw)) w) _ _ g x) [
    | inl (d, y) ↦ cc
    | inr (d, y) ↦ ((λ v. ground arith), λ _. sym (ok-inj _ g y))
  ]
]

-- An IP prefix route that NewEVPNIPPrefixRoute builds is made of the prefix's address without the
-- mapping into IPv6, of the prefix's length as it is, which is at most 128 whatever the address
-- becomes, and of a gateway of that address's family: the given one without its mapping, or the
-- unspecified address of the family if none was given.
pub new_evpn_ip_prefix_sound :
    {N : Type 0} (nlri : ℕ → Addr → Addr → Option (N × ℕ)) (has_rd : Bool) (p : Prefix) (gw : Addr)
    (r : Route N)
    → new_evpn_ip_prefix nlri has_rd p gw ≡ ok r
    → (r.family ≡ rf_evpn)
      × ((g : Addr) × ((nlri p.bits (unmap p.addr) g ≡ some (r.nlri, r.wire_len))
            × (p.bits ≤ 128)
            × IsGateway (is6 (unmap p.addr)) gw g
            × IsPure g
            × IsPure (unmap p.addr)
            × (is6 g ≡ is6 (unmap p.addr))))
unfolding new_evpn_ip_prefix
new_evpn_ip_prefix_sound nlri has_rd p gw r h =
    let (g1, h1) = seq-ok (guard_not (not has_rd) rd_required) _ r h in
    let (g2, h2) = seq-ok (guard_not (not (is_valid_prefix p)) invalid_prefix) _ r h1 in
    let (g, (eg, h3)) = bind-ok (gateway_for (is6 (unmap p.addr)) gw) _ r h2 in
    let parts = built_parts _ r h3 in
    let kind = gateway_sound (is6 (unmap p.addr)) gw g eg in
    let valid : is_valid_prefix p ≡ true = guard-holds (is_valid_prefix p) _ g2 in
    let octet : p.bits % 2 ^ 8 ≡ p.bits = small p.bits (prefix_bits p.addr p.bits valid) in
    (
      parts.0,
      (
        g,
        (
          subst (λ n. nlri n (unmap p.addr) g ≡ some (r.nlri, r.wire_len)) octet parts.1,
          prefix_bits p.addr p.bits valid,
          gateway_for-IsGateway (is6 (unmap p.addr)) gw g eg,
          kind.0,
          unmap-IsPure p.addr (valid_addr (is_valid p.addr) _ valid),
          kind.1,
        ),
      ),
    )
  where
    small : (n : ℕ) → n ≤ 128 → n % 2 ^ 8 ≡ n
    small n h = omega arith

    valid_addr : (a b : Bool) → (a && b) ≡ true → a ≡ true
    valid_addr a b h = ground arith
