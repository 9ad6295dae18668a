-- ===== src/Facade/Wait/MupKeys.antt =====
-- bgp.go: the key of a MUP descriptor is the text of the NLRI that the descriptor advertises.
use xk6_bgp.Base.{
  bind-ok, map_err-ok, if_split, Bool, true, false, String, ◌≡◌, ◌⊎◌, inl, inr, refl, arith, ok,
  err, Result, guard_not, seq-ok, guard-ok, if◌then◌else◌, is, string_eq,
}
use xk6_bgp.Packet.Addr.{Addr, Prefix}
use xk6_bgp.Packet.Route.{Family, Route, afi}
use xk6_bgp.Facade.Runtime.{
  Runtime, Imports, FacadeError, missing, unknown, bad_route, wrap8, parse_rd, opt_string,
  opt_uint32, require_prefix, require_addr,
}
use xk6_bgp.Facade.Descriptors.{
  mup_family_for_addr, parse_isd, parse_dsd, parse_t1st, parse_t2st, parse_mup_route, optional_addr,
}
use xk6_bgp.Facade.Wait.{mup_descriptor_key, address_family, descriptor_family, is_evpn_type}
use xk6_bgp.Facade.Wait.Rebuild.{moved, rebuild_isd, rebuild_dsd, rebuild_t1st, rebuild_t2st}

is_text : (s t : String) → is s t ≡ true → s ≡ t
is_text s t h = (string_eq.beq_iff s t).0 h

nonempty : (b : Bool) (s : String) → is (if b then "" else s) "" ≡ false → b ≡ false
nonempty true s h = cc
nonempty false s h = refl

module _ {V O : Type 0} (js : Runtime V O) {Rd Esi N : Type 0} (im : Imports Rd Esi N) where
  -- The same descriptor for the family of its address, with that family.
  MupKey : Family → O → Route N → Type 0
  MupKey fam o r =
      (g : Family) × ((descriptor_family js im o (opt_string js o "type") ≡ ok g)
        × (parse_mup_route js im g o ≡ ok (moved r g)))

  isd_again :
      (fam : Family) (rd : Rd) (o : O) (r : Route N)
      → parse_isd js im fam rd o ≡ ok r
      → (p : Prefix) × ((require_prefix js im o "prefix" ≡ ok p)
          × (parse_isd js im (mup_family_for_addr p.addr) rd o
              ≡ ok (moved r (mup_family_for_addr p.addr))))
  unfolding parse_isd
  isd_again fam rd o r h =
      let (p, (ep, h1)) = bind-ok (require_prefix js im o "prefix") _ r h in
      let b = rebuild_isd fam (im.mup_isd rd) p r (map_err-ok bad_route _ r h1) in
      (p, (ep, rw (ep, b) refl))

  dsd_again :
      (fam : Family) (rd : Rd) (o : O) (r : Route N)
      → parse_dsd js im fam rd o ≡ ok r
      → (a : Addr) × ((require_addr js im o "address" ≡ ok a)
          × (parse_dsd js im (mup_family_for_addr a) rd o ≡ ok (moved r (mup_family_for_addr a))))
  unfolding parse_dsd
  dsd_again fam rd o r h =
      let (a, (ea, h1)) = bind-ok (require_addr js im o "address") _ r h in
      let b = rebuild_dsd fam (im.mup_dsd rd) a r (map_err-ok bad_route _ r h1) in
      (a, (ea, rw (ea, b) refl))

  t1st_again :
      (fam : Family) (rd : Rd) (o : O) (r : Route N)
      → parse_t1st js im fam rd o ≡ ok r
      → (p : Prefix) × ((require_prefix js im o "prefix" ≡ ok p)
          × (parse_t1st js im (mup_family_for_addr p.addr) rd o
              ≡ ok (moved r (mup_family_for_addr p.addr))))
  unfolding parse_t1st
  t1st_again fam rd o r h =
      let (p, (ep, h1)) = bind-ok (require_prefix js im o "prefix") _ r h in
      let (t, (et, h2)) = bind-ok (require_addr js im o "teid") _ r h1 in
      let (e, (ee, h3)) = bind-ok (require_addr js im o "endpoint") _ r h2 in
      let (s, (es, h4)) = bind-ok (optional_addr js im o "source") _ r h3 in
      let b =
        rebuild_t1st fam (λ q t e s. im.mup_t1st rd q t (wrap8 (opt_uint32 js o "qfi")) e s) p t e s
          r (map_err-ok bad_route _ r h4) in
      (p, (ep, rw (ep, et, ee, es, b) refl))

  t2st_again :
      (fam : Family) (rd : Rd) (o : O) (r : Route N)
      → (afi fam ≡ 1) ⊎ (afi fam ≡ 2)
      → parse_t2st js im fam rd o ≡ ok r
      → (a : Addr) × ((require_addr js im o "endpoint" ≡ ok a)
          × (parse_t2st js im (mup_family_for_addr a) rd o ≡ ok (moved r (mup_family_for_addr a))))
  unfolding parse_t2st
  t2st_again fam rd o r k h =
      let (a, (ea, h1)) = bind-ok (require_addr js im o "endpoint") _ r h in
      let (t, (et, h2)) = bind-ok (require_addr js im o "teid") _ r h1 in
      let (g, h3) =
        seq-ok
          (guard_not (js.is_nullish (js.get o "endpointAddressLength"))
            (missing "endpointAddressLength"))
          _ r h2 in
      let b = rebuild_t2st fam (im.mup_t2st rd) a _ t r k (map_err-ok bad_route _ r h3) in
      (a, (ea, rw (ea, et, g, b) refl))

  -- The branches of parse_mup_route, for a text of the type.
  mup_branch : Family → Rd → O → String → Result FacadeError (Route N)
  mup_branch fam rd o t =
      if is t "isd"
      then parse_isd js im fam rd o
      else if is t "dsd"
      then parse_dsd js im fam rd o
      else if is t "t1st"
      then parse_t1st js im fam rd o
      else if is t "t2st"
      then parse_t2st js im fam rd o
      else err (unknown t)

  BranchKey : Rd → O → String → Route N → Type 0
  BranchKey rd o t r =
      (g : Family) × ((descriptor_family js im o t ≡ ok g)
        × (mup_branch g rd o t ≡ ok (moved r g))
        × (is_evpn_type js im t ≡ false))

  mup_branch_again :
      (fam : Family) (rd : Rd) (o : O) (t : String) (r : Route N)
      → (afi fam ≡ 1) ⊎ (afi fam ≡ 2)
      → mup_branch fam rd o t ≡ ok r
      → BranchKey rd o t r
  unfolding BranchKey mup_branch descriptor_family address_family
  mup_branch_again fam rd o t r k h = elim (if_split (is t "isd") _ _ r h) [
    | inl (e, x) ↦
        let (p, (ep, q)) = isd_again fam rd o r x in
        (
          mup_family_for_addr p.addr,
          (rw (is_text t "isd" e, ep) refl, rw (is_text t "isd" e) q, rw (is_text t "isd" e) refl),
        )
    | inr (n1, h1) ↦ elim (if_split (is t "dsd") _ _ r h1) [
      | inl (e, x) ↦
          let (a, (ea, q)) = dsd_again fam rd o r x in
          (
            mup_family_for_addr a,
            (
              rw (is_text t "dsd" e, ea) refl,
              rw (is_text t "dsd" e) q,
              rw (is_text t "dsd" e) refl,
            ),
          )
      | inr (n2, h2) ↦ elim (if_split (is t "t1st") _ _ r h2) [
        | inl (e, x) ↦
            let (p, (ep, q)) = t1st_again fam rd o r x in
            (
              mup_family_for_addr p.addr,
              (
                rw (is_text t "t1st" e, ep) refl,
                rw (is_text t "t1st" e) q,
                rw (is_text t "t1st" e) refl,
              ),
            )
        | inr (n3, h3) ↦ elim (if_split (is t "t2st") _ _ r h3) [
          | inl (e, x) ↦
              let (a, (ea, q)) = t2st_again fam rd o r k x in
              (
                mup_family_for_addr a,
                (
                  rw (is_text t "t2st" e, ea) refl,
                  rw (is_text t "t2st" e) q,
                  rw (is_text t "t2st" e) refl,
                ),
              )
          | inr (n4, h4) ↦ absurd_branch t r h4
        ]
      ]
    ]
  ]
    where
      absurd_branch : (t : String) (r : Route N) → err (unknown t) ≡ ok r → BranchKey rd o t r
      absurd_branch t r h = ground arith

  pub given_text :
      (o : O) (key : String)
      → is (opt_string js o key) "" ≡ false
      → js.is_nullish (js.get o key) ≡ false
  unfolding opt_string
  given_text o key h = nonempty (js.is_nullish (js.get o key)) (js.to_string (js.get o key)) h

  pub mup_key :
      (fam : Family) (o : O) (r : Route N)
      → (afi fam ≡ 1) ⊎ (afi fam ≡ 2)
      → parse_mup_route js im fam o ≡ ok r
      → (mup_descriptor_key js im o ≡ ok (im.nlri_string r.nlri))
        × (js.is_nullish (js.get o "type") ≡ false)
        × (is_evpn_type js im (opt_string js o "type") ≡ false)
  unfolding parse_mup_route mup_descriptor_key BranchKey mup_branch
  mup_key fam o r k h =
      let t = opt_string js o "type" in
      let (g, h1) = seq-ok (guard_not (is t "") (missing "type")) _ r h in
      let (rd, (erd, h2)) = bind-ok (parse_rd js im o) _ r h1 in
      let (f, (ef, q, t4)) = mup_branch_again fam rd o t r k h2 in
      (rw (g, ef, erd, q) refl, given_text o "type" (guard-ok (is t "") _ g), t4)
