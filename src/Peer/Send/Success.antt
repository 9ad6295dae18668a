-- ===== src/Peer/Send/Success.antt =====
-- Advertise and Withdraw: what must hold for a call to succeed, and what it then has sent.
use mathlib.Core.List.{append-nil}
use xk6_bgp.Base.{
  ℕ, ◌+◌, Bool, true, false, not, ◌&&◌, Option, none, some, List, [], ◌∷◌, ◌++◌, map, length, ◌≡◌,
  ◌⊎◌, refl, sym, ap, subst, ◌∙◌, arith, Result, ok, err, guard_not, seq-ok, guard-ok, ok-inj, All,
  Bool-cases, inl, inr,
}
use xk6_bgp.Base.Bits.{bit1}
use xk6_bgp.Clock.{no_time}
use xk6_bgp.Packet.Route.{Family, Route}
use xk6_bgp.Packet.Update.Laws.{on_wire, map-on_wire}
use xk6_bgp.Packet.Update.Attrs.{SentNlri, UpdateMessage, PathAttrs, Gobgp}
use xk6_bgp.Packet.Update.Build.{EncodingOptions, to_nlri}
use xk6_bgp.Packet.Chunk.Loop.{ChunkError}
use xk6_bgp.Packet.Chunk.Partition.{concat}
use xk6_bgp.Packet.Chunk.Routes.{chunk_routes, shell_overhead}
use xk6_bgp.Packet.Chunk.Fit.{chunk_routes-IsPartition}
use xk6_bgp.Peer.Negotiate.{Session, mode_of}
use xk6_bgp.Peer.Fsm.{State, idle, active, open_sent, open_confirm, established, same_state, Fsm}
use xk6_bgp.Peer.Send.{
  SendError, chunk_failed, AdvertiseResult, Attempt, answer_of, Fate, session_encoding, empty_attrs,
  is_nil, validate_route_family, reject_path_ids, validate_path_ids, send_all, write_updates,
  check_request, checked_send, advertise, withdraw,
}
use xk6_bgp.Peer.Send.Accounting.{
  all_carried, Accounts, stopped-Accounts, send_chunks-Accounts, length-to_nlri,
}

same_state-established : (s : State) → same_state s established ≡ true → s ≡ established
same_state-established idle e = ground arith
same_state-established active e = ground arith
same_state-established open_sent e = ground arith
same_state-established open_confirm e = ground arith
same_state-established established e = refl

module _ {N : Type 0} where
  validate_route_family-ok :
      (want i : ℕ) (rs : List (Route N))
      → validate_route_family want i rs ≡ ok tt
      → All (λ r. r.family ≡ want) rs
  unfolding validate_route_family
  validate_route_family-ok want i [] h = tt
  validate_route_family-ok want i (r ∷ rs) h =
      ground (arith, validate_route_family-ok want (i + 1) rs)

  reject_path_ids-ok :
      (i : ℕ) (rs : List (Route N)) → reject_path_ids i rs ≡ ok tt → All (λ r. r.path_id ≡ none) rs
  unfolding reject_path_ids
  reject_path_ids-ok i [] h = tt
  reject_path_ids-ok i (r ∷ rs) h = ground (arith, reject_path_ids-ok (i + 1) rs)

  -- What the checks of Advertise and Withdraw let through.
  pub record IsAllowed (f : Fsm) (fam : Family) (rs : List (Route N)) (enc : EncodingOptions)
      : Type 0 where
    pub up : f.state ≡ established
    pub some_routes : is_nil rs ≡ false
    pub one_family : All (λ r. r.family ≡ fam) rs
    pub extended : enc.use_extended_messages ≡ true → f.session.extended_messages ≡ true
    pub path_ids : (bit1 (mode_of fam f.session.add_path) ≡ true) ⊎ All (λ r. r.path_id ≡ none) rs

  path_ids_fine :
      (s : Session) (fam : Family) (rs : List (Route N))
      → validate_path_ids s fam rs ≡ ok tt
      → (bit1 (mode_of fam s.add_path) ≡ true) ⊎ All (λ r. r.path_id ≡ none) rs
  unfolding validate_path_ids
  path_ids_fine s fam rs h = elim (Bool-cases (bit1 (mode_of fam s.add_path))) [
    | inl sent ↦ inl sent
    | inr off ↦ inr (reject_path_ids-ok 0 rs (rw off at h))
  ]

  check_request-ok :
      (f : Fsm) (fam : Family) (rs : List (Route N)) (enc : EncodingOptions)
      → check_request f fam rs enc ≡ ok tt
      → IsAllowed f fam rs enc
  unfolding check_request
  check_request-ok f fam rs enc h =
      let (a, h1) = seq-ok (guard_not (not (same_state f.state established)) _) _ tt h in
      let (b, h2) = seq-ok (guard_not (is_nil rs) _) _ tt h1 in
      let (c, h3) = seq-ok (validate_route_family fam 0 rs) _ tt h2 in
      let (d, e) =
        seq-ok (guard_not (enc.use_extended_messages && not f.session.extended_messages) _) _ tt
          h3 in
      let up = guard-ok (not (same_state f.state established)) _ a in
      let ext = guard-ok (enc.use_extended_messages && not f.session.extended_messages) _ d in
      record {
        up = same_state-established f.state (ground arith);
        some_routes = guard-ok (is_nil rs) _ b;
        one_family = validate_route_family-ok fam 0 rs c;
        extended = λ x. ground arith;
        path_ids = path_ids_fine f.session fam rs e;
      }

  chunk_routes_complete :
      (g : Gobgp N) (body_len : UpdateMessage N → Option ℕ) (w : Bool) (a : PathAttrs)
      (enc : EncodingOptions) (r : Route N) (rs : List (Route N)) (out : List (List (Route N)))
      → chunk_routes g body_len w a (r ∷ rs) enc ≡ ok out
      → concat out ≡ r ∷ rs
  unfolding chunk_routes
  chunk_routes_complete g body_len w a enc r rs out h =
      go (shell_overhead g body_len w a r enc) refl
    where
      go : (q : Result ChunkError ℕ) → shell_overhead g body_len w a r enc ≡ q → concat out ≡ r ∷ rs
      go (err e) q = ground arith
      go (ok n) q = (chunk_routes-IsPartition g body_len w a enc r rs n out q h).0.complete

  -- What a call of Advertise or Withdraw with these routes comes to.
  pub record IsReported (f : Fsm) (fam : Family) (w : Bool) (rs : List (Route N))
      (enc : EncodingOptions) (t : Attempt N) : Type 0 where
    -- what did not go out
    pub unsent : List (SentNlri N)
    pub in_order : map on_wire rs ≡ all_carried w t.messages ++ unsent
    pub success :
        (x : AdvertiseResult)
        → t.answer ≡ ok x
        → IsAllowed f fam rs enc
          × (all_carried w t.messages ≡ map on_wire rs)
          × (x.sent ≡ length rs)

  module _ (g : Gobgp N) (body_len : UpdateMessage N → Option ℕ) where
    write_updates-Accounts :
        (s : Session) (w : Bool) (a : PathAttrs) (rs : List (Route N)) (enc : EncodingOptions)
        (fates : ℕ → Fate)
        → Accounts w (map to_nlri rs) 0 (write_updates g body_len s w a rs enc fates)
    unfolding write_updates send_all
    write_updates-Accounts s w a [] enc fates = record {
      unsent = [];
      in_order = refl;
      counted = refl;
      complete = λ q. refl;
    }
    write_updates-Accounts s w a (r ∷ rs) enc fates =
        go (chunk_routes g body_len w a (r ∷ rs) (session_encoding s enc)) refl
      where
        go :
            (q : Result ChunkError (List (List (Route N))))
            → chunk_routes g body_len w a (r ∷ rs) (session_encoding s enc) ≡ q
            → Accounts w
                (map to_nlri (r ∷ rs))
                0
                (send_all g body_len w a (session_encoding s enc) fates q)
        go (err e) q = stopped-Accounts w (map to_nlri (r ∷ rs)) no_time 0 (chunk_failed e)
        go (ok cs) q =
            subst
              (λ t.
                Accounts w (map to_nlri t) 0
                  (send_all g body_len w a (session_encoding s enc) fates (ok cs)))
              (chunk_routes_complete g body_len w a (session_encoding s enc) r rs cs q)
              (send_chunks-Accounts g body_len w a (session_encoding s enc) fates 0 cs no_time 0)

    answered :
        (e : Option SendError) (n first : ℕ) (x : AdvertiseResult)
        → answer_of g body_len e n first ≡ ok x
        → (e ≡ none) × (x.sent ≡ n)
    answered (some e) n first x y = cc
    answered none n first x y = (refl, sym (ap (λ r. r.sent) (ok-inj _ x y)))

    checked_send-IsReported :
        (f : Fsm) (fam : Family) (w : Bool) (a : PathAttrs) (rs : List (Route N))
        (enc : EncodingOptions) (fates : ℕ → Fate)
        → IsReported f fam w rs enc
            (checked_send g body_len f w a rs enc fates (check_request f fam rs enc))
    unfolding checked_send
    checked_send-IsReported f fam w a rs enc fates = go (check_request f fam rs enc) refl
      where
        go :
            (q : Result SendError (Unit {0}))
            → check_request f fam rs enc ≡ q
            → IsReported f fam w rs enc (checked_send g body_len f w a rs enc fates q)
        go (err e) q = record { unsent = map on_wire rs; in_order = refl; success = λ x y. cc }
        go (ok u) q =
            let b = write_updates g body_len f.session w a rs enc fates in
            let h = write_updates-Accounts f.session w a rs enc fates in
            record {
              unsent = h.unsent;
              in_order = sym (map-on_wire rs) ∙ h.in_order;
              success = λ x y.
                  let (none_failed, counts) = answered b.error b.total b.first_at x y in
                  let all : map to_nlri rs ≡ all_carried w b.messages =
                    h.in_order
                    ∙ ap (λ t. all_carried w b.messages ++ t) (h.complete none_failed)
                    ∙ append-nil _ in
                  (
                    check_request-ok f fam rs enc q,
                    sym all ∙ map-on_wire rs,
                    omega (arith, counts, h.counted, ap length (sym all), length-to_nlri rs),
                  );
            }

    -- Whatever fails and when, the messages that Advertise has written carry a prefix of the
    -- routes asked for, in their order, with their Path Identifiers. If the call reports no error,
    -- the session was Established, all routes are of the stated family, Extended Messages and Path
    -- Identifiers are used only as negotiated, every route has been sent, and the reported number
    -- is the number of the routes.
    pub advertise-IsReported :
        (f : Fsm) (fam : Family) (a : PathAttrs) (rs : List (Route N)) (enc : EncodingOptions)
        (fates : ℕ → Fate)
        → IsReported f fam false rs enc (advertise g body_len f fam a rs enc fates)
    unfolding advertise
    advertise-IsReported f fam a rs enc fates = checked_send-IsReported f fam false a rs enc fates

    -- The same for Withdraw: the messages withdraw a prefix of the routes, all of them if no error
    -- is reported, and then under the same conditions.
    pub withdraw-IsReported :
        (f : Fsm) (fam : Family) (rs : List (Route N)) (enc : EncodingOptions) (fates : ℕ → Fate)
        → IsReported f fam true rs enc (withdraw g body_len f fam rs enc fates)
    unfolding withdraw
    withdraw-IsReported f fam rs enc fates =
        checked_send-IsReported f fam true empty_attrs rs enc fates
