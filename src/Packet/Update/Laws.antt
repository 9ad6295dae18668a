-- ===== src/Packet/Update/Laws.antt =====
-- What a built UPDATE carries, read back the way a receiver reads it.
use mathlib.Core.List.{append-nil, append_assoc}
use native.Mathlib.Nat.{mod-eq_of_lt}
use xk6_bgp.Base.{
  ap₂, subst, ℕ, ◌<◌, ◌^◌, Bool, true, false, Option, none, some, List, [], ◌∷◌, ◌++◌, map,
  if◌then◌else◌, ltb, ◌==◌, Result, ok, err, ◌≡◌, refl, sym, ap, ◌∙◌, arith, Bool-cases, inl, inr,
}
use xk6_bgp.Packet.Addr.{Addr}
use xk6_bgp.Packet.Route.{Family, Route}
use xk6_bgp.Packet.Update.Attrs.{
  SentNlri, Attribute, as_path4, as_path2, as4_path, mp_reach, mp_unreach, next_hop, UpdateMessage,
  PathAttrs, UpdateError, Gobgp, as_path_attributes, build_prefix_sid, build_pmsi,
  optional_attributes, mixed_families,
}
use xk6_bgp.Packet.Update.Build.{
  EncodingOptions, id_or_zero, to_nlri, collect, mp_next_hop, build_ipv4_unicast, build_mp,
  build_update_message,
}

abbrev pub path_id_sent : Option ℕ → ℕ
path_id_sent none = 0
path_id_sent (some i) = i

module _ {N : Type 0} where
  abbrev reached : Attribute N → List (SentNlri N)
  reached (mp_reach f ns nh) = ns
  reached _ = []

  abbrev unreached : Attribute N → List (SentNlri N)
  unreached (mp_unreach f ns) = ns
  unreached _ = []

  abbrev all_reached : List (Attribute N) → List (SentNlri N)
  all_reached [] = []
  all_reached (x ∷ xs) = reached x ++ all_reached xs

  abbrev all_unreached : List (Attribute N) → List (SentNlri N)
  all_unreached [] = []
  all_unreached (x ∷ xs) = unreached x ++ all_unreached xs

  -- What a receiver takes from the two places that an UPDATE has for each kind.
  abbrev pub advertised : UpdateMessage N → List (SentNlri N)
  advertised m = m.nlri ++ all_reached m.path_attributes

  abbrev pub withdrawn : UpdateMessage N → List (SentNlri N)
  withdrawn m = m.withdrawn_routes ++ all_unreached m.path_attributes

  -- RFC 6793: AS4_PATH, where it is there, stands for the AS_TRANS of the AS_PATH.
  abbrev pub received_as : List (Attribute N) → Option ℕ
  received_as [] = none
  received_as (as_path4 n ∷ xs) = some n
  received_as (as_path2 n ∷ as4_path m ∷ xs) = some m
  received_as (as_path2 n ∷ xs) = some n
  received_as (x ∷ xs) = received_as xs

  abbrev pub all_of : Family → List (Route N) → Bool
  all_of f [] = true
  all_of f (r ∷ rs) = if r.family == f then all_of f rs else false

  collect-map :
      (f : Family) (rs : List (Route N))
      → collect f rs ≡ (if all_of f rs then ok (map to_nlri rs) else err mixed_families)
  unfolding collect
  collect-map f [] = refl
  collect-map f (r ∷ rs) = ground (arith, collect-map f rs)

  optional-no_nlri :
      (g : Gobgp N) (a : PathAttrs) {xs : List (Attribute N)}
      → optional_attributes g a ≡ ok xs
      → (all_reached xs ≡ []) × (all_unreached xs ≡ [])
  unfolding optional_attributes build_prefix_sid build_pmsi
  optional-no_nlri g a h = ground arith

  as_path_attributes-no_nlri :
      (n : ℕ) (two : Bool)
      → (all_reached (as_path_attributes {N = N} n two) ≡ [])
        × (all_unreached (as_path_attributes {N = N} n two) ≡ [])
  unfolding as_path_attributes
  as_path_attributes-no_nlri n two = ground arith

  all_reached-append :
      (xs ys : List (Attribute N)) → all_reached (xs ++ ys) ≡ all_reached xs ++ all_reached ys
  all_reached-append [] ys = refl
  all_reached-append (x ∷ xs) ys =
      ap (λ t. reached x ++ t) (all_reached-append xs ys)
      ∙ sym (append_assoc (reached x) (all_reached xs) (all_reached ys))

  all_unreached-append :
      (xs ys : List (Attribute N)) → all_unreached (xs ++ ys) ≡ all_unreached xs ++ all_unreached ys
  all_unreached-append [] ys = refl
  all_unreached-append (x ∷ xs) ys =
      ap (λ t. unreached x ++ t) (all_unreached-append xs ys)
      ∙ sym (append_assoc (unreached x) (all_unreached xs) (all_unreached ys))

  -- How a route is to go out: its NLRI with its Path Identifier, or with 0 where it has none.
  abbrev pub on_wire : Route N → SentNlri N
  on_wire r = record { nlri = r.nlri; id = path_id_sent r.path_id }

  to_nlri-on_wire : (r : Route N) → to_nlri r ≡ on_wire r
  unfolding to_nlri
  to_nlri-on_wire r = ap (λ i. record { nlri = r.nlri; id = i }) (same r.path_id)
    where
      same : (p : Option ℕ) → id_or_zero p ≡ path_id_sent p
      same none = refl
      same (some i) = refl

  pub map-on_wire : (rs : List (Route N)) → map to_nlri rs ≡ map on_wire rs
  map-on_wire [] = refl
  map-on_wire (r ∷ rs) = ap₂ (λ x xs. x ∷ xs) (to_nlri-on_wire r) (map-on_wire rs)

  -- What a message must carry: the routes on the side that the call is about, nothing on the other.
  abbrev pub Carries : Bool → List (SentNlri N) → UpdateMessage N → Type 0
  Carries true ns m = (withdrawn m ≡ ns) × (advertised m ≡ [])
  Carries false ns m = (advertised m ≡ ns) × (withdrawn m ≡ [])

  -- AS_PATH, one more attribute, and the optional ones: no NLRI but that attribute's.
  attributes-nlri :
      (g : Gobgp N) (a : PathAttrs) (two : Bool) (x : Attribute N) (nh more : List (Attribute N))
      → all_reached nh ≡ []
      → all_unreached nh ≡ []
      → optional_attributes g a ≡ ok more
      → (all_reached (as_path_attributes a.local_as two ++ (x ∷ (nh ++ more))) ≡ reached x)
        × (all_unreached (as_path_attributes a.local_as two ++ (x ∷ (nh ++ more))) ≡ unreached x)
  attributes-nlri g a two x nh more h k e = ground (
    arith,
    all_reached-append (as_path_attributes a.local_as two) (x ∷ (nh ++ more)),
    all_unreached-append (as_path_attributes a.local_as two) (x ∷ (nh ++ more)),
    all_reached-append nh more,
    all_unreached-append nh more,
    as_path_attributes-no_nlri a.local_as two,
    optional-no_nlri g a e,
    append-nil (reached x),
    append-nil (unreached x),
  )

  ipv4-Carries :
      (g : Gobgp N) (w : Bool) (a : PathAttrs) (ns : List (SentNlri N)) (opts : EncodingOptions)
      (m : UpdateMessage N) (r : Result UpdateError (List (Attribute N)))
      → optional_attributes g a ≡ r
      → build_ipv4_unicast g w a ns opts ≡ ok m
      → Carries w ns m
  unfolding build_ipv4_unicast
  ipv4-Carries g true a ns opts m r e h = ground (arith, append-nil ns)
  ipv4-Carries g false a ns opts m (err x) e h = ground arith
  ipv4-Carries g false a ns opts m (ok more) e h = ground (
    arith,
    attributes-nlri g a opts.use_2_byte_as (next_hop a.next_hop) [] more refl refl e,
    append-nil ns,
  )

  mp_next_hop-no_nlri :
      (g : Gobgp N) (f : Family) (nh : Addr) {xs : List (Attribute N)}
      → mp_next_hop g f nh ≡ ok xs
      → (all_reached xs ≡ []) × (all_unreached xs ≡ [])
  unfolding mp_next_hop
  mp_next_hop-no_nlri g f nh h = ground arith

  mp-Carries :
      (g : Gobgp N) (w : Bool) (a : PathAttrs) (f : Family) (ns : List (SentNlri N))
      (opts : EncodingOptions) (m : UpdateMessage N) (r s : Result UpdateError (List (Attribute N)))
      → optional_attributes g a ≡ r
      → mp_next_hop g f a.next_hop ≡ s
      → build_mp g w a f ns opts ≡ ok m
      → Carries w ns m
  unfolding build_mp
  mp-Carries g true a f ns opts m r s e q h = ground (arith, append-nil ns)
  mp-Carries g false a f ns opts m (ok more) (ok nh) e q h =
      let (nr, nu) = mp_next_hop-no_nlri g f a.next_hop q in
      ground (
        arith,
        attributes-nlri g a opts.use_2_byte_as (mp_reach f ns a.next_hop) nh more nr nu e,
        append-nil ns,
      )
  mp-Carries g false a f ns opts m (err x) s e q h = ground arith
  mp-Carries g false a f ns opts m (ok more) (err x) e q h = ground arith

  pub collected-Carries :
      (g : Gobgp N) (w : Bool) (a : PathAttrs) (rs : List (Route N)) (opts : EncodingOptions)
      (m : UpdateMessage N)
      → build_update_message g w a rs opts ≡ ok m
      → Carries w (map to_nlri rs) m
  unfolding build_update_message
  collected-Carries g w a [] opts m h = cc
  collected-Carries g w a (r ∷ rs) opts m h = ground (
    arith,
    collect-map r.family (r ∷ rs),
    ipv4-Carries g w a (map to_nlri (r ∷ rs)) opts m (optional_attributes g a) refl,
    mp-Carries g w a r.family (map to_nlri (r ∷ rs)) opts m (optional_attributes g a)
        (mp_next_hop g r.family a.next_hop) refl refl,
  )

  -- A message that was built carries exactly the routes that it was asked for, in their order
  -- and with their Path Identifiers, or 0 where a route has none, on the side that the call is about, and nothing else.
  pub build_update_message-Carries :
      (g : Gobgp N) (w : Bool) (a : PathAttrs) (rs : List (Route N)) (opts : EncodingOptions)
      (m : UpdateMessage N)
      → build_update_message g w a rs opts ≡ ok m
      → Carries w (map on_wire rs) m
  build_update_message-Carries g w a rs opts m h =
      subst (λ ns. Carries w ns m) (map-on_wire rs) (collected-Carries g w a rs opts m h)

  abbrev pub Encodable : List (Attribute N) → Type 0
  Encodable [] = Unit
  Encodable (as_path2 n ∷ xs) = (n < 2 ^ 16) × Encodable xs
  Encodable (as_path4 n ∷ xs) = (n < 2 ^ 32) × Encodable xs
  Encodable (as4_path n ∷ xs) = (n < 2 ^ 32) × Encodable xs
  Encodable (x ∷ xs) = Encodable xs

-- Whatever octet size the session negotiated, the receiver reads the local AS, a number of 32 bits,
-- back, and every number fits the field that it is put into.
pub received_as-as_path_attributes :
    (N : Type 0) (n : ℕ) (two : Bool)
    → n < 2 ^ 32
    → (received_as (as_path_attributes {N = N} n two) ≡ some n)
      × Encodable (as_path_attributes {N = N} n two)
unfolding as_path_attributes
received_as-as_path_attributes N n false h = (refl, (h, tt))
received_as-as_path_attributes N n true h = elim (Bool-cases (ltb 0xffff n)) [
  | inl big ↦ rw (big, received_as, Encodable) (refl, (omega arith, (h, tt)))
  | inr small ↦
      rw (small, received_as, Encodable) (ap some (mod-eq_of_lt (ground arith)), (omega arith, tt))
]
