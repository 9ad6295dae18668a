-- ===== src/Packet/Chunk/Fit.antt =====
-- ChunkRoutes as a whole: a partition of the routes, and the size of the messages for it.
use xk6_bgp.Base.{
  ◌++◌, [], ◌∷◌, ℕ, ◌+◌, ◌-◌, ◌≤◌, ◌<◌, Bool, Option, List, ◌==◌, ok, ◌≡◌, sym, subst, arith, All,
  Bool-cases, inl, inr,
}
use xk6_bgp.Packet.Route.{Family, Route}
use xk6_bgp.Packet.Update.Attrs.{UpdateMessage, PathAttrs, Gobgp}
use xk6_bgp.Packet.Update.Build.{EncodingOptions, build_update_message}
use xk6_bgp.Packet.Chunk.Routes.{header_length, max_len, wire_size, shell_overhead, chunk_routes}
use xk6_bgp.Packet.Chunk.Partition.{IsGreedy, concat, total, IsPartition, pack-IsPartition}

abbrev pub room : EncodingOptions → ℕ → ℕ
room opts overhead = max_len opts - header_length - overhead

All-concat {ℓ} :
    {A : Type 0} (P : A → Type ℓ) (cs : List (List A)) → All P (concat cs) → All (All P) cs
All-concat P [] a = tt
All-concat P ([] ∷ cs) a = (tt, All-concat P cs a)
All-concat P ((x ∷ c) ∷ cs) (p, a) = let (h, t) = All-concat P (c ∷ cs) a in ((p, h), t)

module _ {N : Type 0} (g : Gobgp N) (body_len : UpdateMessage N → Option ℕ) (w : Bool)
    (a : PathAttrs) (opts : EncodingOptions) where
  -- When the overhead is known and chunks come out, they are the routes in their order, cut into
  -- chunks that are not empty, fit the room and end only where the next route did not fit.
  pub chunk_routes-IsPartition :
      (r : Route N) (rs : List (Route N)) (overhead : ℕ) (out : List (List (Route N)))
      → shell_overhead g body_len w a r opts ≡ ok overhead
      → chunk_routes g body_len w a (r ∷ rs) opts ≡ ok out
      → IsPartition (wire_size opts r.family) (room opts overhead) (r ∷ rs) out
        × (0 < room opts overhead)
  unfolding chunk_routes
  chunk_routes-IsPartition r rs overhead out e h = elim (Bool-cases (room opts overhead == 0)) [
    | inl full ↦ ground arith
    | inr some_room ↦ (
      pack-IsPartition (wire_size opts r.family) (room opts overhead) r rs out (ground arith),
      ground arith,
    )
  ]

  -- The length law of a serialized body: what the probe left over, the routes, and `growth`
  -- octets by which the attribute that holds them has a longer header than the probe's.
  abbrev pub LengthLaw :
      (N → ℕ) → (List (Route N) → ℕ) → (UpdateMessage N → ℕ) → Family → ℕ → Type 0
  LengthLaw nlri_len growth wire_body f overhead =
      (c : List (Route N)) (m : UpdateMessage N)
      → All (λ r. r.wire_len ≡ nlri_len r.nlri) c
      → build_update_message g w a c opts ≡ ok m
      → wire_body m ≡ overhead + total (wire_size opts f) (room opts overhead) c + growth c

  -- When the body of a message is as long as the overhead, the sizes of its routes and the growth of
  -- its attribute header together, the routes state their true lengths, the overhead is known and
  -- chunks come out, then every message that is built for a chunk is within the limit, but for that
  -- growth.
  pub chunk_messages_fit :
      (nlri_len : N → ℕ) (growth : List (Route N) → ℕ) (wire_body : UpdateMessage N → ℕ)
      (r : Route N) (rs : List (Route N)) (overhead : ℕ) (out : List (List (Route N)))
      → LengthLaw nlri_len growth wire_body r.family overhead
      → All (λ x. x.wire_len ≡ nlri_len x.nlri) (r ∷ rs)
      → shell_overhead g body_len w a r opts ≡ ok overhead
      → chunk_routes g body_len w a (r ∷ rs) opts ≡ ok out
      → All
          (λ c.
            (m : UpdateMessage N)
            → build_update_message g w a c opts ≡ ok m
            → header_length + wire_body m ≤ max_len opts + growth c)
          out
  chunk_messages_fit nlri_len growth wire_body r rs overhead out law measured e h =
      let (part, some_room) = chunk_routes-IsPartition r rs overhead out e h in
      fit out
        (All-concat (λ x. x.wire_len ≡ nlri_len x.nlri) out
          (subst (All (λ x. x.wire_len ≡ nlri_len x.nlri)) (sym part.complete) measured))
        part.bounded some_room
    where
      fit :
          (cs : List (List (Route N)))
          → All (All (λ x. x.wire_len ≡ nlri_len x.nlri)) cs
          → All
              (λ c. total (wire_size opts r.family) (room opts overhead) c ≤ room opts overhead)
              cs
          → 0 < room opts overhead
          → All
              (λ c.
                (m : UpdateMessage N)
                → build_update_message g w a c opts ≡ ok m
                → header_length + wire_body m ≤ max_len opts + growth c)
              cs
      fit [] p q z = tt
      fit (c ∷ cs) (p, ps) (q, qs) z = (λ m b. omega (arith, law c m p b), fit cs ps qs z)

  -- Each chunk with the first route of the next one added is too much for one message.
  abbrev pub AreFull : (UpdateMessage N → ℕ) → List (List (Route N)) → Type 0
  AreFull wire_body [] = Unit
  AreFull wire_body (c ∷ []) = Unit
  AreFull wire_body (c ∷ [] ∷ cs) = AreFull wire_body ([] ∷ cs)
  AreFull wire_body (c ∷ (r ∷ d) ∷ cs) =
      ((m : UpdateMessage N)
        → build_update_message g w a (c ++ r ∷ []) opts ≡ ok m
        → max_len opts < header_length + wire_body m)
      × AreFull wire_body ((r ∷ d) ∷ cs)

  -- Under the conditions under which the messages are within the limit, ChunkRoutes uses no more
  -- of them than it must: a message that is built for a chunk and the first route of the next chunk
  -- is over the limit.
  pub chunk_messages_full :
      (nlri_len : N → ℕ) (growth : List (Route N) → ℕ) (wire_body : UpdateMessage N → ℕ)
      (r : Route N) (rs : List (Route N)) (overhead : ℕ) (out : List (List (Route N)))
      → LengthLaw nlri_len growth wire_body r.family overhead
      → All (λ x. x.wire_len ≡ nlri_len x.nlri) (r ∷ rs)
      → shell_overhead g body_len w a r opts ≡ ok overhead
      → chunk_routes g body_len w a (r ∷ rs) opts ≡ ok out
      → AreFull wire_body out
  chunk_messages_full nlri_len growth wire_body r rs overhead out law measured e h =
      let (part, some_room) = chunk_routes-IsPartition r rs overhead out e h in
      full out
        (All-concat (λ x. x.wire_len ≡ nlri_len x.nlri) out
          (subst (All (λ x. x.wire_len ≡ nlri_len x.nlri)) (sym part.complete) measured))
        part.greedy some_room
    where
      total-append :
          (c d : List (Route N))
          → total (wire_size opts r.family) (room opts overhead) (c ++ d)
            ≡ total (wire_size opts r.family) (room opts overhead) c
              + total (wire_size opts r.family) (room opts overhead) d
      total-append [] d = omega arith
      total-append (x ∷ c) d = omega (arith, total-append c d)

      measured-append :
          (c : List (Route N)) (x : Route N)
          → All (λ y. y.wire_len ≡ nlri_len y.nlri) c
          → x.wire_len ≡ nlri_len x.nlri
          → All (λ y. y.wire_len ≡ nlri_len y.nlri) (c ++ x ∷ [])
      measured-append [] x p q = (q, tt)
      measured-append (y ∷ c) x (p, ps) q = (p, measured-append c x ps q)

      full :
          (cs : List (List (Route N)))
          → All (All (λ x. x.wire_len ≡ nlri_len x.nlri)) cs
          → IsGreedy (wire_size opts r.family) (room opts overhead) cs
          → 0 < room opts overhead
          → AreFull wire_body cs
      full [] p q z = tt
      full (c ∷ []) p q z = tt
      full (c ∷ [] ∷ cs) (p, ps) q z = absurd q
      full (c ∷ (x ∷ d) ∷ cs) (p, ps) (q, qs) z = (
        λ m b. omega (
          arith,
          law (c ++ x ∷ []) m (measured-append c x p (ps.0.0)) b,
          total-append c (x ∷ []),
        ),
        full ((x ∷ d) ∷ cs) ps qs z,
      )
