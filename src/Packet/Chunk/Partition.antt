-- ===== src/Packet/Chunk/Partition.antt =====
-- What the packing loop promises: the routes in their order, in chunks that are within the
-- budget and as full as the order allows.
use mathlib.Core.List.{append_assoc}
use xk6_bgp.Base.{
  ℕ, ◌+◌, ◌≤◌, ◌<◌, true, false, List, [], ◌∷◌, ◌++◌, if◌then◌else◌, ltb, Result, ok, err, Option,
  none, some, ◌≡◌, refl, sym, ap, subst, ◌∙◌, arith, All, Bool-cases, inl, inr,
}
use xk6_bgp.Packet.Chunk.Loop.{ChunkError, pack, nlri_too_large}

abbrev pub concat : {A : Type 0} → List (List A) → List A
concat [] = []
concat (c ∷ cs) = c ++ concat cs

module _ {A : Type 0} (size : A → ℕ) (budget : ℕ) where
  abbrev pub total : List A → ℕ
  total [] = 0
  total (x ∷ xs) = size x + total xs

  -- The chunks by the cutting rule alone.
  unfoldable pub chunks_of : List A → ℕ → List A → List (List A)
  chunks_of cur used [] = cur ∷ []
  chunks_of cur used (r ∷ rs) = elim (ltb budget (used + size r)) [
    | true ↦ cur ∷ chunks_of (r ∷ []) (size r) rs
    | false ↦ chunks_of (cur ++ r ∷ []) (used + size r) rs
  ]

  -- The first route that fits in no message, with its size.
  abbrev pub first_oversize : ℕ → List A → Option (ℕ × ℕ)
  first_oversize i [] = none
  first_oversize i (r ∷ rs) =
      if ltb budget (size r) then some (i, size r) else first_oversize (i + 1) rs

  abbrev pub answer : Option (ℕ × ℕ) → List (List A) → Result ChunkError (List (List A))
  answer none out = ok out
  answer (some (i, sz)) out = err (nlri_too_large i sz budget)

  chunks_of-cut :
      (cur : List A) (used : ℕ) (r : A) (rs : List A)
      → ltb budget (used + size r) ≡ true
      → chunks_of cur used (r ∷ rs) ≡ cur ∷ chunks_of (r ∷ []) (size r) rs
  unfolding chunks_of
  chunks_of-cut cur used r rs e = rw (e, chunks_of)

  chunks_of-keep :
      (cur : List A) (used : ℕ) (r : A) (rs : List A)
      → ltb budget (used + size r) ≡ false
      → chunks_of cur used (r ∷ rs) ≡ chunks_of (cur ++ r ∷ []) (used + size r) rs
  unfolding chunks_of
  chunks_of-keep cur used r rs e = rw (e, chunks_of)

  -- The loop computes the chunks of the rule, or names the first route that fits nowhere.
  pub pack-answer :
      (chunks : List (List A)) (cur : List A) (used i : ℕ) (rs : List A)
      → pack size budget chunks cur used i rs
        ≡ answer (first_oversize i rs) (chunks ++ chunks_of cur used rs)
  unfolding pack
  pack-answer chunks cur used i [] = unfold chunks_of in refl
  pack-answer chunks cur used i (r ∷ rs) = elim (Bool-cases (ltb budget (size r))) [
    | inl big ↦ rw big
    | inr fits ↦ elim (Bool-cases (ltb budget (used + size r))) [
      | inl full ↦
          rw (fits, full, chunks_of-cut cur used r rs full)
            (pack-answer (chunks ++ cur ∷ []) (r ∷ []) (size r) (i + 1) rs
              ∙ ap (answer (first_oversize (i + 1) rs)) (append_assoc chunks (cur ∷ []) _))
      | inr more ↦
          rw (fits, more, chunks_of-keep cur used r rs more)
            (pack-answer chunks (cur ++ r ∷ []) (used + size r) (i + 1) rs)
    ]
  ]

  pub concat-chunks_of :
      (cur : List A) (used : ℕ) (rs : List A) → concat (chunks_of cur used rs) ≡ cur ++ rs
  concat-chunks_of cur used [] = unfold chunks_of in refl
  concat-chunks_of cur used (r ∷ rs) = elim (Bool-cases (ltb budget (used + size r))) [
    | inl full ↦
        rw (chunks_of-cut cur used r rs full)
          (ap (λ t. cur ++ t) (concat-chunks_of (r ∷ []) (size r) rs))
    | inr more ↦
        rw (chunks_of-keep cur used r rs more)
          (concat-chunks_of (cur ++ r ∷ []) (used + size r) rs ∙ append_assoc cur (r ∷ []) rs)
  ]

  abbrev pub Fits : List A → Type 0
  Fits c = total c ≤ budget

  -- Every chunk is full: the first route of the next one would not have fitted.
  abbrev pub IsGreedy : List (List A) → Type 0
  IsGreedy [] = Unit
  IsGreedy (c ∷ []) = Unit
  IsGreedy (c ∷ [] ∷ cs) = ⊥
  IsGreedy (c ∷ (r ∷ d) ∷ cs) = (budget < total c + size r) × IsGreedy ((r ∷ d) ∷ cs)

  abbrev pub IsCons : List A → Type 0
  IsCons [] = ⊥
  IsCons (x ∷ xs) = Unit

  total-snoc : (c : List A) (r : A) → total (c ++ r ∷ []) ≡ total c + size r
  total-snoc [] r = omega arith
  total-snoc (x ∷ xs) r = omega (arith, total-snoc xs r)

  IsCons-snoc : (c : List A) (r : A) → IsCons (c ++ r ∷ [])
  IsCons-snoc [] r = tt
  IsCons-snoc (x ∷ xs) r = tt

  chunks_of-Fits :
      (cur : List A) (used : ℕ) (rs : List A)
      → used ≡ total cur
      → used ≤ budget
      → All (λ r. size r ≤ budget) rs
      → All Fits (chunks_of cur used rs)
  chunks_of-Fits cur used [] e b a = unfold chunks_of in (omega arith, tt)
  chunks_of-Fits cur used (r ∷ rs) e b a = elim (Bool-cases (ltb budget (used + size r))) [
    | inl full ↦
        rw (chunks_of-cut cur used r rs full)
          (omega arith, chunks_of-Fits (r ∷ []) (size r) rs (omega arith) (a.0) (a.1))
    | inr more ↦ rw (chunks_of-keep cur used r rs more) (
        chunks_of-Fits (cur ++ r ∷ []) (used + size r) rs (omega (arith, total-snoc cur r))
          (ground arith) (a.1))
  ]

  chunks_of-head :
      (r : A) (c : List A) (used : ℕ) (rs : List A)
      → (d : List A) × (ds : List (List A)) × (chunks_of (r ∷ c) used rs ≡ (r ∷ d) ∷ ds)
  chunks_of-head r c used [] = (c, [], unfold chunks_of in refl)
  chunks_of-head r c used (x ∷ rs) = elim (Bool-cases (ltb budget (used + size x))) [
    | inl full ↦ (c, chunks_of (x ∷ []) (size x) rs, chunks_of-cut (r ∷ c) used x rs full)
    | inr more ↦
        let (d, ds, e) = chunks_of-head r (c ++ x ∷ []) (used + size x) rs in
        (d, ds, chunks_of-keep (r ∷ c) used x rs more ∙ e)
  ]

  chunks_of-IsGreedy :
      (cur : List A) (used : ℕ) (rs : List A) → used ≡ total cur → IsGreedy (chunks_of cur used rs)
  chunks_of-IsGreedy cur used [] e = unfold chunks_of in tt
  chunks_of-IsGreedy cur used (r ∷ rs) e = elim (Bool-cases (ltb budget (used + size r))) [
    | inl full ↦
        let (d, ds, q) = chunks_of-head r [] (size r) rs in
        let rest : IsGreedy ((r ∷ d) ∷ ds) =
          subst IsGreedy q (chunks_of-IsGreedy (r ∷ []) (size r) rs (omega arith)) in
        rw (chunks_of-cut cur used r rs full)
          (subst (λ t. IsGreedy (cur ∷ t)) (sym q) (ground arith, rest))
    | inr more ↦
        rw (chunks_of-keep cur used r rs more)
          (chunks_of-IsGreedy (cur ++ r ∷ []) (used + size r) rs (omega (arith, total-snoc cur r)))
  ]

  -- After the first route the loop never cuts an empty chunk.
  chunks_of-IsCons :
      (cur : List A) (used : ℕ) (rs : List A) → IsCons cur → All IsCons (chunks_of cur used rs)
  chunks_of-IsCons cur used [] n = unfold chunks_of in (n, tt)
  chunks_of-IsCons cur used (r ∷ rs) n = elim (Bool-cases (ltb budget (used + size r))) [
    | inl full ↦ rw (chunks_of-cut cur used r rs full) (n, chunks_of-IsCons (r ∷ []) (size r) rs tt)
    | inr more ↦
        rw (chunks_of-keep cur used r rs more)
          (chunks_of-IsCons (cur ++ r ∷ []) (used + size r) rs (IsCons-snoc cur r))
  ]

  first_oversize-none :
      (i : ℕ) (rs : List A) → first_oversize i rs ≡ none → All (λ r. size r ≤ budget) rs
  first_oversize-none i [] h = tt
  first_oversize-none i (r ∷ rs) h = elim (Bool-cases (ltb budget (size r))) [
    | inl big ↦ ground arith
    | inr fits ↦ (ground arith, first_oversize-none (i + 1) rs (ground arith))
  ]

  -- All that the loop promises of the chunks for a list of routes.
  pub record IsPartition (rs : List A) (out : List (List A)) : Type 0 where
    pub complete : concat out ≡ rs
    pub bounded : All Fits out
    pub nonempty : All IsCons out
    pub greedy : IsGreedy out

  chunks_of-first :
      (r : A) (rs : List A)
      → size r ≤ budget
      → chunks_of [] 0 (r ∷ rs) ≡ chunks_of (r ∷ []) (0 + size r) rs
  chunks_of-first r rs fits = chunks_of-keep [] 0 r rs (ground arith)

  chunks_of-IsPartition :
      (r : A) (rs : List A)
      → All (λ x. size x ≤ budget) (r ∷ rs)
      → IsPartition (r ∷ rs) (chunks_of [] 0 (r ∷ rs))
  chunks_of-IsPartition r rs a = rw (chunks_of-first r rs (a.0)) (record {
    complete = concat-chunks_of (r ∷ []) (0 + size r) rs;
    bounded = chunks_of-Fits (r ∷ []) (0 + size r) rs (omega arith) (omega arith) (a.1);
    nonempty = chunks_of-IsCons (r ∷ []) (0 + size r) rs tt;
    greedy = chunks_of-IsGreedy (r ∷ []) (0 + size r) rs (omega arith);
  })

  answer-ok :
      (q : Option (ℕ × ℕ)) (xs out : List (List A)) → answer q xs ≡ ok out → (q ≡ none) × (out ≡ xs)
  answer-ok none xs out h = ground arith
  answer-ok (some (i, sz)) xs out h = ground arith

  pub pack-IsPartition :
      (r : A) (rs : List A) (out : List (List A))
      → pack size budget [] [] 0 0 (r ∷ rs) ≡ ok out
      → IsPartition (r ∷ rs) out
  pack-IsPartition r rs out h =
      let (q, e) =
        answer-ok (first_oversize 0 (r ∷ rs)) (chunks_of [] 0 (r ∷ rs)) out
          (sym (pack-answer [] [] 0 0 (r ∷ rs)) ∙ h) in
      subst (IsPartition (r ∷ rs)) (sym e)
        (chunks_of-IsPartition r rs (first_oversize-none 0 (r ∷ rs) q))
