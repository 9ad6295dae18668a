-- ===== src/Peer/Fsm/Handshake.antt =====
-- A session is established by an acceptable OPEN and then a KEEPALIVE, and by nothing else.
use xk6_bgp.Base.{true, false, Option, none, some, List, [], ◌∷◌, ◌≡◌, ◌↔◌, refl, ap, ◌∙◌, arith}
use xk6_bgp.Peer.Config.{OpenMessage}
use xk6_bgp.Peer.Negotiate.{Session, OpenReject, accept_peer_open}
use xk6_bgp.Peer.Fsm.{
  open_confirm, Body, bgp_open, keepalive, notification, update, route_refresh, Fsm, Round,
  is_established, answer_open, write, wrote_keepalive, on_message, on_round, establish, continue,
  handshake,
}

-- The first two rounds of a handshake that succeeds with the OPEN `m`.
pub record Establishes (f : Fsm) (rs : List Round) : Type 0 where
  pub first : Round
  pub second : Round
  pub later : List Round
  pub peer_open : OpenMessage
  pub rounds : rs ≡ first ∷ second ∷ later
  pub reads_open : first.read ≡ some (bgp_open peer_open)
  pub accepts : (accept_peer_open f.cfg peer_open f.session).1 ≡ none
  pub in_time : (first.is_cancelled ≡ false) × (first.is_written ≡ true) × (first.is_late ≡ false)
  pub reads_keepalive : (second.read ≡ some keepalive) × (second.is_cancelled ≡ false)

-- After the OPEN: the next round must be the KEEPALIVE.
second_round :
    (rs : List Round) (f : Fsm)
    → (handshake rs f true false).1 ≡ is_established
    → (r : Round) × (later : List Round) × (rs ≡ r ∷ later)
      × (r.read ≡ some keepalive)
      × (r.is_cancelled ≡ false)
unfolding handshake on_round on_message continue
second_round [] f h = cc
second_round (r ∷ rs) f h = go r.read refl
  where
    go :
        (o : Option Body)
        → r.read ≡ o
        → (s : Round) × (later : List Round) × (r ∷ rs ≡ s ∷ later)
          × (s.read ≡ some keepalive)
          × (s.is_cancelled ≡ false)
    go none e = ground arith
    go (some keepalive) e = (r, rs, refl, e, ground arith)
    go (some (bgp_open m)) e = ground arith
    go (some (notification c s)) e = ground arith
    go (some (update u)) e = ground arith
    go (some (route_refresh fam d)) e = ground arith

first_round :
    (rs : List Round) (f : Fsm) → (handshake rs f false false).1 ≡ is_established → Establishes f rs
unfolding handshake on_round on_message continue answer_open
first_round [] f h = cc
first_round (r ∷ rs) f h = go r.read refl
  where
    opens :
        (m : OpenMessage)
        → r.read ≡ some (bgp_open m)
        → (s : Session) (q : Option OpenReject) → accept_peer_open f.cfg m f.session ≡ (s, q)
        → Establishes f (r ∷ rs)
    opens m e s (some x) a = ground arith
    opens m e s none a =
        let f2 : Fsm = write wrote_keepalive (record f { session = s; state = open_confirm }) in
        let facts : (r.is_cancelled ≡ false)
            × (r.is_written ≡ true)
            × (r.is_late ≡ false)
            × ((handshake rs f2 true false).1 ≡ is_established) =
          ground arith in
        let (second, later, shape, ka, live) = second_round rs f2 facts.3 in
        record {
          first = r;
          second = second;
          later = later;
          peer_open = m;
          rounds = ap (λ t. r ∷ t) shape;
          reads_open = e;
          accepts = ap (λ x. x.1) a;
          in_time = (facts.0, facts.1, facts.2);
          reads_keepalive = (ka, live);
        }

    go : (o : Option Body) → r.read ≡ o → Establishes f (r ∷ rs)
    go none e = ground arith
    go (some keepalive) e = ground arith
    go (some (bgp_open m)) e =
        opens m e (accept_peer_open f.cfg m f.session).0 (accept_peer_open f.cfg m f.session).1 refl
    go (some (notification c s)) e = ground arith
    go (some (update u)) e = ground arith
    go (some (route_refresh fam d)) e = ground arith

-- What the handshake leaves behind when it succeeds.
abbrev pub established_with : Fsm → OpenMessage → Fsm
established_with f m = establish (
    write wrote_keepalive
      (record f { session = (accept_peer_open f.cfg m f.session).0; state = open_confirm }))

two_rounds :
    (r s : Round) (os : List Round) (f : Fsm) (m : OpenMessage)
    → r.read ≡ some (bgp_open m)
    → r.is_cancelled ≡ false
    → r.is_written ≡ true
    → r.is_late ≡ false
    → s.read ≡ some keepalive
    → s.is_cancelled ≡ false
    → (accept_peer_open f.cfg m f.session).1 ≡ none
    → handshake (r ∷ s ∷ os) f false false ≡ (established_with f m, is_established)
unfolding handshake on_round on_message continue answer_open
two_rounds r s os f m e c w l k d a =
    let accepted : accept_peer_open f.cfg m f.session
        ≡ ((accept_peer_open f.cfg m f.session).0, none) =
      ap (λ q. ((accept_peer_open f.cfg m f.session).0, q)) a in
    ground arith

Establishes-handshake :
    (rs : List Round) (f : Fsm) (e : Establishes f rs)
    → handshake rs f false false ≡ (established_with f e.peer_open, is_established)
Establishes-handshake rs f e =
    ap (λ t. handshake t f false false) e.rounds
    ∙ two_rounds e.first e.second e.later f e.peer_open e.reads_open e.in_time.0 e.in_time.1
        e.in_time.2 e.reads_keepalive.0 e.reads_keepalive.1 e.accepts

-- The handshake succeeds exactly if the peer first sends an OPEN that is accepted and then a
-- KEEPALIVE, no read fails, the context lives, the first KEEPALIVE goes out and the OPEN was not
-- late; the session is then Established with what was negotiated from that OPEN.
pub handshake-Establishes :
    (rs : List Round) (f : Fsm)
    → (((handshake rs f false false).1 ≡ is_established) ↔ Establishes f rs)
      × ((e : Establishes f rs)
          → handshake rs f false false ≡ (established_with f e.peer_open, is_established))
handshake-Establishes rs f = (
  (first_round rs f, λ e. ap (λ x. x.1) (Establishes-handshake rs f e)),
  Establishes-handshake rs f,
)
