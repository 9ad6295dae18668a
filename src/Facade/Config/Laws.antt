-- ===== src/Facade/Config/Laws.antt =====
-- bgp.go: the families of a Peer by name, and those that its OPEN announces.
use xk6_bgp.Base.{
  map, ◌++◌, ◌==◌, bind-ok, map_err-ok, ok-inj, if_ok, ℕ, ◌+◌, Bool, true, false, String, Option,
  some, List, [], ◌∷◌, ◌≡◌, ◌⊎◌, inl, inr, sym, ap, subst, ◌∙◌, arith, ok, seq-ok, map_err,
  if◌then◌else◌, lookup, insert, lookup-insert, string_eq, is,
}
use xk6_bgp.Packet.Route.{Family}
use xk6_bgp.Packet.Caps.{is_member, Capability, CapsConfig, multi_protocol, plain_caps}
use xk6_bgp.Peer.Negotiate.Offered.{built_parts}
use xk6_bgp.Peer.Negotiate.Agreement.{Keeps, open_of, IsOpenOf, build_open-IsOpenOf}
use xk6_bgp.Peer.Config.{
  NewOpen, OpenMessage, OptionParameter, capability_parameter, other_parameter, with_as, Config,
  validate, apply_defaults, new,
}
use xk6_bgp.Facade.Runtime.{
  Exported, exported_string, exported_int, exported_float, exported_bool, exported_array,
  exported_other, Runtime, Imports, at_index, bad_config, not_an_object, object_of, opt_string,
}
use xk6_bgp.Facade.Request.{Families, AdvertiseRequest, parse_advertise_arg}
use xk6_bgp.Facade.Request.Laws.{parse_advertise_arg-Origin}
use xk6_bgp.Facade.Config.{
  ScriptConfig, ScriptPeer, text_of, known_family, read_families, exported_families, parse_families,
  named_addr, parse_timers, parse_caps, parse_tags, parse_peer_config, new_peer,
}

-- Every name leads to a family of the list.
abbrev pub AreListed : Families → List Family → Type 0
AreListed m fs = (name : String) (f : Family) → lookup name m ≡ some f → is_member f fs ≡ true

member_head : (f : Family) (fs : List Family) → is_member f (f ∷ fs) ≡ true
member_head f fs = ground arith

member_tail :
    (f g : Family) (fs : List Family) → is_member f fs ≡ true → is_member f (g ∷ fs) ≡ true
member_tail f g fs h = ground arith

inserted_at :
    (f g : Family) (o : Option Family) (fs : List Family) (b : Bool)
    → (if b then some g else o) ≡ some f
    → (o ≡ some f) ⊎ (is_member f (g ∷ fs) ≡ true)
inserted_at f g o fs true h = inr (ground arith)
inserted_at f g o fs false h = inl h

nothing_listed : (fs : List Family) → AreListed [] fs
unfolding lookup
nothing_listed fs name f e = cc

-- An OPEN with the multiprotocol capability of a family.
abbrev has_family : Family → List Capability → Bool
has_family f [] = false
has_family f (multi_protocol g ∷ cs) = if g == f then true else has_family f cs
has_family f (c ∷ cs) = has_family f cs

abbrev pub announces : Family → List OptionParameter → Bool
announces f [] = false
announces f (other_parameter ∷ ps) = announces f ps
announces f (capability_parameter cs ∷ ps) = if has_family f cs then true else announces f ps

has_family-multi_protocol :
    (f : Family) (fs : List Family)
    → is_member f fs ≡ true
    → has_family f (map multi_protocol fs) ≡ true
has_family-multi_protocol f [] h = h
has_family-multi_protocol f (g ∷ fs) h = ground (arith, has_family-multi_protocol f fs)

has_family-append :
    (f : Family) (xs ys : List Capability) → has_family f xs ≡ true → has_family f (xs ++ ys) ≡ true
has_family-append f [] ys h = cc
has_family-append f (multi_protocol g ∷ xs) ys h = ground (arith, has_family-append f xs ys)
has_family-append f (c ∷ xs) ys h = has_family-append f xs ys h

plain_caps-has_family :
    (f : Family) (c : CapsConfig)
    → is_member f c.families ≡ true
    → has_family f (plain_caps c) ≡ true
unfolding plain_caps
plain_caps-has_family f c h =
    has_family-append f (map multi_protocol c.families) _ (has_family-multi_protocol f c.families h)

IsOpenOf-announces :
    (c : Config) (m : OpenMessage) (f : Family)
    → IsOpenOf c m
    → is_member f c.caps.families ≡ true
    → announces f m.opt_params ≡ true
IsOpenOf-announces c m f o h =
    let (more, q, e) = built_parts (with_as c.local_as c.caps) o.caps o.built in
    let listed : has_family f o.caps ≡ true =
      ap (has_family f) e
      ∙ has_family-append f (plain_caps (with_as c.local_as c.caps)) _
          (plain_caps-has_family f (with_as c.local_as c.caps) h) in
    ap (announces f) o.params ∙ ap (λ b. if b then true else false) listed

module _ {V O : Type 0} (js : Runtime V O) {Rd Esi N : Type 0} (im : Imports Rd Esi N) where
  -- In a list and a map that grew out of `m`.
  Grown : Families → List Family × Families → Type 0
  Grown m x =
      (name : String) (f : Family)
      → lookup name x.1 ≡ some f
      → (lookup name m ≡ some f) ⊎ (is_member f x.0 ≡ true)

  kept_names : (m : Families) → Grown m ([], m)
  unfolding Grown
  kept_names m name f e = inl e

  added_name :
      (m : Families) (s : String) (g : Family) (x : List Family × Families)
      → Grown (insert s g m) x
      → Grown m (g ∷ x.0, x.1)
  unfolding Grown
  added_name m s g x k name f e = elim (k name f e) [
    | inr t ↦ inr (member_tail f g x.0 t)
    | inl l ↦ inserted_at f g (lookup name m) x.0 (is s name) (sym (lookup-insert s name g m) ∙ l)
  ]

  read_families-Grown :
      (i : ℕ) (m : Families) (vs : List V) (x : List Family × Families)
      → read_families js im i m vs ≡ ok x
      → Grown m x
  unfolding read_families
  read_families-Grown i m [] x h = subst (Grown m) (ok-inj _ x h) (kept_names m)
  read_families-Grown i m (v ∷ vs) x h =
      let (s, (es, h1)) = bind-ok (map_err (at_index i) (text_of js im (js.export v))) _ x h in
      let (g, (eg, h2)) = bind-ok (known_family js im s) _ x h1 in
      let (rest, (er, h3)) = bind-ok (read_families js im (i + 1) (insert s g m) vs) _ x h2 in
      subst (Grown m) (ok-inj _ x h3)
        (added_name m s g rest (read_families-Grown (i + 1) (insert s g m) vs rest er))

  all_listed : (x : List Family × Families) → Grown [] x → AreListed x.1 x.0
  unfolding Grown
  all_listed x k name f e = elim (k name f e) [ inl l ↦ nothing_listed x.0 name f l | inr m ↦ m ]

  exported_listed :
      (e : Exported V) (x : List Family × Families)
      → exported_families js im e ≡ ok x
      → AreListed x.1 x.0
  unfolding exported_families
  exported_listed (exported_string s) x h = cc
  exported_listed (exported_int n) x h = cc
  exported_listed (exported_float n) x h = cc
  exported_listed (exported_bool b) x h = cc
  exported_listed (exported_array vs) x h = all_listed x (read_families-Grown 0 [] vs x h)
  exported_listed exported_other x h = cc

  parse_families-AreListed :
      (o : O) (x : List Family × Families) → parse_families js im o ≡ ok x → AreListed x.1 x.0
  unfolding parse_families
  parse_families-AreListed o x h =
      elim (if_ok (js.is_nullish (js.get o "families")) (ok ([], []))
        (exported_families js im (js.export (js.get o "families"))) x h) [
          | inl e ↦ subst (λ y. AreListed y.1 y.0) (ok-inj ([], []) x e) (nothing_listed [])
          | inr e ↦ exported_listed (js.export (js.get o "families")) x e
        ]

  parse_peer_config-AreListed :
      (o : O) (c : ScriptConfig)
      → parse_peer_config js im o ≡ ok c
      → AreListed c.families c.config.families
  unfolding parse_peer_config
  parse_peer_config-AreListed o c h =
      let (rid, (e1, h1)) = bind-ok (named_addr js im o "routerId") _ c h in
      let (la, (e2, h2)) = bind-ok (named_addr js im o "localAddress") _ c h1 in
      let (x, (e3, h3)) = bind-ok (parse_families js im o) _ c h2 in
      let (t, (e4, h4)) = bind-ok (parse_timers js im o) _ c h3 in
      let (k, (e5, h5)) = bind-ok (parse_caps js im o) _ c h4 in
      let (g, (e6, h6)) = bind-ok (parse_tags js im o) _ c h5 in
      subst (λ d. AreListed d.families d.config.families) (ok-inj _ c h6)
        (parse_families-AreListed o x e3)

  -- The families of the configuration that New keeps are those that the OPEN announces.
  new_families : (c cfg : Config) → new c ≡ ok cfg → cfg.caps.families ≡ c.families
  unfolding new apply_defaults
  new_families c cfg h =
      let (g, h1) = seq-ok (validate c) _ cfg h in ap (λ d. d.caps.families) (sym (ok-inj _ cfg h1))

  new_peer-AreListed :
      (vs : List V) (p : ScriptPeer)
      → new_peer js im vs ≡ ok p
      → AreListed p.families p.config.caps.families
  unfolding new_peer
  new_peer-AreListed [] p h = cc
  new_peer-AreListed (v ∷ vs) p h =
      let (o, (e1, h1)) = bind-ok (object_of js not_an_object v) _ p h in
      let (c, (e2, h2)) = bind-ok (parse_peer_config js im o) _ p h1 in
      let (cfg, (e3, h3)) = bind-ok (map_err bad_config (new c.config)) _ p h2 in
      let kept = new_families c.config cfg (map_err-ok bad_config (new c.config) cfg e3) in
      subst (λ q. AreListed q.families q.config.caps.families) (ok-inj _ p h3)
        (subst (AreListed c.families) (sym kept) (parse_peer_config-AreListed o c e2))

  -- Whatever a script asks a Peer to advertise or withdraw, with the configuration that the Peer was
  -- made from: when gobgp's constructor keeps its arguments, an OPEN that is built from the
  -- configuration has the multiprotocol capability of the family of the request.
  pub new_peer-parse_advertise_arg :
      (new_open : NewOpen) (vs : List V) (p : ScriptPeer) (v : V) (w : Bool)
      (q : AdvertiseRequest N) (m : OpenMessage)
      → Keeps new_open
      → new_peer js im vs ≡ ok p
      → parse_advertise_arg js im p.families v w ≡ ok q
      → open_of new_open p.config ≡ ok m
      → announces q.family m.opt_params ≡ true
  new_peer-parse_advertise_arg new_open vs p v w q m keeps h k e =
      let origin = parse_advertise_arg-Origin js im p.families v w q k in
      IsOpenOf-announces p.config m q.family (build_open-IsOpenOf new_open p.config m keeps e) (
        new_peer-AreListed vs p h (opt_string js origin.object "family") q.family
          origin.is_configured)
