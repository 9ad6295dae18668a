-- ===== src/Fakebgpd/Streams.antt =====
-- What one session is sent.
use xk6_bgp.Base.{
  some-inj, ℕ, Bool, false, Option, none, some, not, ◌&&◌, List, [], ◌∷◌, ◌++◌, map, ◌≡◌, refl, ap,
  subst, ◌∙◌, arith, if◌then◌else◌, ◌==◌, Set, lookup, insert, delete, contains, nat_eq, Bool-cases,
  inl, inr, contains-insert, contains-delete,
}
use xk6_bgp.Fakebgpd.{Raw, Out, verbatim, Write, Hub, broadcasts, replay, replay_outs, take_write}

-- What the handler of `s` writes to `t`, in its order.
unfoldable pub stream : ℕ → ℕ → List Write → List Out
stream s t [] = []
stream s t ((o, (u, x)) ∷ ws) =
    let rest = stream s t ws in if o == s && u == t then x ∷ rest else rest

pub stream-append :
    (s t : ℕ) (xs ys : List Write) → stream s t (xs ++ ys) ≡ stream s t xs ++ stream s t ys
unfolding stream
stream-append s t [] ys = refl
stream-append s t ((o, (u, x)) ∷ xs) ys = ground (arith, stream-append s t xs ys)

stream-map :
    (s t o : ℕ) (xs : List Out)
    → stream s t (map (λ x. (o, (o, x))) xs) ≡ (if o == s && s == t then xs else [])
unfolding stream
stream-map s t o [] = ground arith
stream-map s t o (x ∷ xs) = ground (arith, stream-map s t o xs)

-- A write comes from its handler, and takes nothing else from any stream.
pub stream-take_write :
    (o : ℕ) (ws rest : List Write) (w : Write)
    → take_write o ws ≡ some (w, rest)
    → (w.0 ≡ o) × ((s t : ℕ) → stream s t ws ≡ stream s t (w ∷ []) ++ stream s t rest)
unfolding take_write stream
stream-take_write o [] rest w h = cc
stream-take_write o ((p, (u, x)) ∷ ws) rest w h = elim (Bool-cases (p == o)) [
  | inl own ↦
      let e : Path (Option (Write × List Write)) (some ((p, (u, x)), ws)) (some (w, rest)) =
        ground arith in
      (ground arith, λ s t. ground arith)
  | inr other ↦ go (λ v vs. stream-take_write o ws vs v) other (take_write o ws) refl
]
  where
    behind :
        (v : Write) (vs : List Write)
        → (p == o) ≡ false
        → v.0 ≡ o
        → ((s t : ℕ) → stream s t ws ≡ stream s t (v ∷ []) ++ stream s t vs)
        → (s t : ℕ)
        → stream s t ((p, (u, x)) ∷ ws) ≡ stream s t (v ∷ []) ++ stream s t ((p, (u, x)) ∷ vs)
    behind v vs other at_o rec s t = elim (Bool-cases (p == s)) [
      | inl mine ↦
          let not_mine : (v.0 == s) ≡ false = ground arith in
          let nothing : stream s t (v ∷ []) ≡ [] = ground arith in ground (arith, rec s t, nothing)
      | inr foreign ↦ ground (arith, rec s t)
    ]

    go :
        ((v : Write) (vs : List Write)
          → take_write o ws ≡ some (v, vs)
          → (v.0 ≡ o) × ((s t : ℕ) → stream s t ws ≡ stream s t (v ∷ []) ++ stream s t vs))
        → (p == o) ≡ false
        → (r : Option (Write × List Write)) → take_write o ws ≡ r
        → (w.0 ≡ o)
          × ((s t : ℕ) → stream s t ((p, (u, x)) ∷ ws) ≡ stream s t (w ∷ []) ++ stream s t rest)
    go ih other none q = absurd (ground arith)
    go ih other (some (v, vs)) q =
        let (at_o, rec) = ih v vs q in
        let e : Path (Option (Write × List Write)) (some (v, (p, (u, x)) ∷ vs)) (some (w, rest)) =
          ground arith in
        let pair : Path (Write × List Write) (v, (p, (u, x)) ∷ vs) (w, rest) = some-inj e in
        subst
          (λ y.
            (y.0.0 ≡ o)
            × ((s t : ℕ) → stream s t ((p, (u, x)) ∷ ws) ≡ stream s t (y.0 ∷ []) ++ stream s t y.1))
          pair (at_o, behind v vs other at_o rec)

-- Each client stands once in the set.
abbrev pub IsDistinctSet : Set ℕ → Type 0
IsDistinctSet [] = Unit
IsDistinctSet ((s, _) ∷ cs) = (contains s cs ≡ false) × IsDistinctSet cs

pub insert-IsDistinctSet : (s : ℕ) (cs : Set ℕ) → IsDistinctSet cs → IsDistinctSet (insert s tt cs)
unfolding insert contains lookup
insert-IsDistinctSet s [] d = (refl, tt)
insert-IsDistinctSet s ((t, u) ∷ cs) (a, d) = elim (Bool-cases (t == s)) [
  | inl same ↦ let e : t ≡ s = ground arith in rw same (subst (λ x. contains x cs ≡ false) e a, d)
  | inr other ↦ rw other (ground (arith, contains-insert s t tt cs), insert-IsDistinctSet s cs d)
]

pub delete-IsDistinctSet : (s : ℕ) (cs : Set ℕ) → IsDistinctSet cs → IsDistinctSet (delete s cs)
unfolding delete contains lookup
delete-IsDistinctSet s [] d = tt
delete-IsDistinctSet s ((t, u) ∷ cs) (a, d) = elim (Bool-cases (t == s)) [
  | inl same ↦ rw same (delete-IsDistinctSet s cs d)
  | inr other ↦ rw other (ground (arith, contains-delete s t cs), delete-IsDistinctSet s cs d)
]

pub stream-broadcasts :
    (s t from : ℕ) (raw : Raw) (cs : Set ℕ)
    → IsDistinctSet cs
    → stream s t (broadcasts from raw cs)
      ≡ (if from == s && (contains t cs && not (t == s)) then verbatim raw ∷ [] else [])
unfolding stream broadcasts contains lookup
stream-broadcasts s t from raw [] d = ground arith
stream-broadcasts s t from raw ((c, u) ∷ cs) (a, d) =
    ground (arith, stream-broadcasts s t from raw cs d)

-- A replay gives to its session what it asks for, and to the others nothing.
pub stream-replay :
    (s t o fam : ℕ) (enhanced : Bool) (h : Hub)
    → stream s t (replay o fam enhanced h).pending
      ≡ stream s t h.pending
        ++ (if o == s && s == t then replay_outs o fam enhanced h.updates else [])
unfolding replay
stream-replay s t o fam enhanced h =
    let outs = replay_outs o fam enhanced h.updates in
    stream-append s t h.pending (map (λ x. (o, (o, x))) outs)
    ∙ ap (λ ys. stream s t h.pending ++ ys) (stream-map s t o outs)
