-- ===== src/Peer/Send/Accounting.antt =====
-- What went out is what the call reports: the routes in their order, up to the first failure.
use mathlib.Core.List.{append_assoc}
use xk6_bgp.Base.{
  ℕ, ◌+◌, Bool, true, false, Option, none, List, [], ◌∷◌, ◌++◌, map, length, length-append, ◌≡◌,
  refl, sym, ap, ap₂, ◌∙◌, arith, if◌then◌else◌, Result, ok, err, Bool-cases, inl, inr,
}
use xk6_bgp.Clock.{Timestamp, is_zero}
use xk6_bgp.Packet.Route.{Route}
use xk6_bgp.Packet.Update.Attrs.{SentNlri, UpdateMessage, PathAttrs, UpdateError, Gobgp}
use xk6_bgp.Packet.Update.Build.{EncodingOptions, to_nlri, build_update_message}
use xk6_bgp.Packet.Update.Laws.{advertised, withdrawn, Carries, collected-Carries}
use xk6_bgp.Packet.Chunk.Partition.{concat}
use xk6_bgp.Peer.Send.{
  SendError, Batch, Fate, stopped, encode, send_chunk, send_chunks, write_failed,
}

module _ {N : Type 0} where
  abbrev pub carried : Bool → UpdateMessage N → List (SentNlri N)
  carried w m = if w then withdrawn m else advertised m

  abbrev pub all_carried : Bool → List (UpdateMessage N) → List (SentNlri N)
  all_carried w [] = []
  all_carried w (m ∷ ms) = carried w m ++ all_carried w ms

  -- A batch over the NLRI `ns` that starts with `before` routes counted.
  pub record Accounts (w : Bool) (ns : List (SentNlri N)) (before : ℕ) (b : Batch N) : Type 0 where
    -- what a failure keeps from going out
    pub unsent : List (SentNlri N)
    pub in_order : ns ≡ all_carried w b.messages ++ unsent
    pub counted : b.total ≡ before + length (all_carried w b.messages)
    pub complete : b.error ≡ none → unsent ≡ []

  pub stopped-Accounts :
      (w : Bool) (ns : List (SentNlri N)) (first : Timestamp) (n : ℕ) (e : SendError)
      → Accounts w ns n (stopped first n e)
  stopped-Accounts w ns first n e = record {
    unsent = ns;
    in_order = refl;
    counted = omega arith;
    complete = λ q. cc;
  }

  Carries-carried :
      (w : Bool) (ns : List (SentNlri N)) (m : UpdateMessage N) → Carries w ns m → carried w m ≡ ns
  Carries-carried true ns m c = c.0
  Carries-carried false ns m c = c.0

  pub length-to_nlri : (rs : List (Route N)) → length (map to_nlri rs) ≡ length rs
  length-to_nlri [] = refl
  length-to_nlri (r ∷ rs) = omega (arith, length-to_nlri rs)

  map-to_nlri-append :
      (xs ys : List (Route N)) → map to_nlri (xs ++ ys) ≡ map to_nlri xs ++ map to_nlri ys
  map-to_nlri-append [] ys = refl
  map-to_nlri-append (x ∷ xs) ys = ap (λ t. to_nlri x ∷ t) (map-to_nlri-append xs ys)

  added-Accounts :
      (w : Bool) (c rest : List (Route N)) (n : ℕ) (m : UpdateMessage N) (b : Batch N)
      → carried w m ≡ map to_nlri c
      → Accounts w (map to_nlri rest) (n + length c) b
      → Accounts w (map to_nlri (c ++ rest)) n (record b { messages = m ∷ b.messages })
  added-Accounts w c rest n m b e h =
      let sent = all_carried w b.messages in
      record {
        unsent = h.unsent;
        in_order =
            map-to_nlri-append c rest
            ∙ ap₂ (λ x y. x ++ y) (sym e) h.in_order
            ∙ sym (append_assoc (carried w m) sent h.unsent);
        counted =
            h.counted
            ∙ omega (arith, length-append (carried w m) sent, ap length e, length-to_nlri c);
        complete = h.complete;
      }

  module _ (g : Gobgp N) (body_len : UpdateMessage N → Option ℕ) (w : Bool) (a : PathAttrs)
      (enc : EncodingOptions) where
    encode-carried :
        (c : List (Route N)) (m : UpdateMessage N)
        → encode g body_len w a enc c ≡ ok m
        → carried w m ≡ map to_nlri c
    unfolding encode
    encode-carried c m h = go (build_update_message g w a c enc) refl
      where
        go :
            (r : Result UpdateError (UpdateMessage N))
            → build_update_message g w a c enc ≡ r
            → carried w m ≡ map to_nlri c
        go (err e) q = ground arith
        go (ok k) q =
            let same : k ≡ m = ground arith in
            Carries-carried w (map to_nlri c) m (collected-Carries g w a c enc m (q ∙ ap ok same))

    -- One round of the loop, given the rest of it.
    send_chunk-Accounts :
        (rest : Timestamp → ℕ → Batch N) (c : List (Route N)) (cs : List (List (Route N)))
        (first : Timestamp) (n : ℕ) (fate : Fate) (r : Result SendError (UpdateMessage N))
        → encode g body_len w a enc c ≡ r
        → ((t : Timestamp) (k : ℕ) → Accounts w (map to_nlri (concat cs)) k (rest t k))
        → Accounts w
            (map to_nlri (concat (c ∷ cs)))
            n
            (send_chunk g body_len w a enc rest first n (length c) fate r)
    unfolding send_chunk
    send_chunk-Accounts rest c cs first n fate (err e) q h =
        stopped-Accounts w (map to_nlri (concat (c ∷ cs))) first n e
    send_chunk-Accounts rest c cs first n fate (ok m) q h = elim (Bool-cases fate.is_written) [
      | inl sent ↦
          let start = if is_zero first then fate.at else first in
          rw sent (
            added-Accounts w c (concat cs) n m (rest start (n + length c)) (encode-carried c m q)
              (h start (n + length c)))
      | inr lost ↦ rw lost (stopped-Accounts w (map to_nlri (concat (c ∷ cs))) first n write_failed)
    ]

    pub send_chunks-Accounts :
        (fates : ℕ → Fate) (i : ℕ) (cs : List (List (Route N))) (first : Timestamp) (n : ℕ)
        → Accounts w (map to_nlri (concat cs)) n (send_chunks g body_len w a enc fates i cs first n)
    unfolding send_chunks
    send_chunks-Accounts fates i [] first n = record {
      unsent = [];
      in_order = refl;
      counted = omega arith;
      complete = λ q. refl;
    }
    send_chunks-Accounts fates i (c ∷ cs) first n =
        send_chunk-Accounts (send_chunks g body_len w a enc fates (i + 1) cs) c cs first n (fates i)
          (encode g body_len w a enc c) refl (send_chunks-Accounts fates (i + 1) cs)
