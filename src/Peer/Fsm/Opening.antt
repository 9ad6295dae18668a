-- ===== src/Peer/Fsm/Opening.antt =====
-- How Open leaves the session.
use xk6_bgp.Base.{
  Bool, true, false, Option, none, some, List, [], ◌∷◌, ◌≡◌, ◌≢◌, ◌⊎◌, refl, ap, ◌∙◌, arith, Result,
  ok, err, Bool-cases, inl, inr, ◌++◌, ◌||◌,
}
use xk6_bgp.Observed.State.{ObservedSet}
use xk6_bgp.Peer.Config.{OpenMessage, OpenError, NewOpen}
use xk6_bgp.Peer.Negotiate.{Session, OpenReject}
use xk6_bgp.Peer.Fsm.{
  idle, active, open_sent, established, Body, bgp_open, keepalive, notification, update,
  route_refresh, Fsm, Round, Outcome, blocked, is_established, failed, Progress, got, stops,
  answer_open, wrote_open, on_message, on_round, continue, handshake, same_state, Dial, OpenResult,
  Ending, testing, ticking, start_loops, watcher_turn, opened, still_waiting, conclude_open,
  send_open, open_fsm, give_up,
}

-- What a handshake leaves alone.
abbrev Frame : Type 0
Frame = Bool × (Bool × (ObservedSet × Ending))

abbrev frame : Fsm → Frame
frame f = (f.is_open, (f.loops_cancelled, (f.observed, f.closing)))

answer_open-frame :
    (f : Fsm) (w ka : Bool) (q : Session × Option OpenReject)
    → frame (answer_open f w ka q).0 ≡ frame f
unfolding answer_open
answer_open-frame f w ka (s, some e) = refl
answer_open-frame f true ka (s, none) = refl
answer_open-frame f false ka (s, none) = refl

on_message-frame : (f : Fsm) (w o ka : Bool) (m : Body) → frame (on_message f w o ka m).0 ≡ frame f
unfolding on_message
on_message-frame f w true ka (bgp_open m) = refl
on_message-frame f w false ka (bgp_open m) = answer_open-frame f w ka _
on_message-frame f w true ka keepalive = refl
on_message-frame f w false ka keepalive = refl
on_message-frame f w o ka (notification c s) = refl
on_message-frame f w o ka (update u) = refl
on_message-frame f w o ka (route_refresh fam d) = refl

on_round-frame :
    (f : Fsm) (o ka : Bool) (r : Round) (m : Option Body) → frame (on_round f o ka r m).0 ≡ frame f
unfolding on_round
on_round-frame f o ka r none = refl
on_round-frame f o ka r (some m) = ground (arith, on_message-frame f r.is_written o ka m)

-- The connection stays as it is, and a handshake that succeeds ends in Established.
abbrev Kept : Frame → Fsm × Outcome → Type 0
Kept b r = (frame r.0 ≡ b) × (r.1 ≡ is_established → r.0.state ≡ established)

continue-Kept :
    (b : Frame) (late : Bool) (rest : Fsm → Bool → Bool → Fsm × Outcome) (p : Fsm × Progress)
    → ((f : Fsm) (o ka : Bool) → frame f ≡ b → Kept b (rest f o ka))
    → frame p.0 ≡ b
    → Kept b (continue rest late p)
unfolding continue
continue-Kept b late rest (f, stops e) k h = (h, λ q. cc)
continue-Kept b late rest (f, got true true) k h = (h, λ q. refl)
continue-Kept b true rest (f, got true false) k h = (h, λ q. cc)
continue-Kept b false rest (f, got true false) k h = k f true false h
continue-Kept b true rest (f, got false ka) k h = (h, λ q. cc)
continue-Kept b false rest (f, got false ka) k h = k f false ka h

handshake-Kept :
    (b : Frame) (rs : List Round) (f : Fsm) (o ka : Bool)
    → frame f ≡ b
    → Kept b (handshake rs f o ka)
unfolding handshake
handshake-Kept b [] f o ka h = (h, λ q. cc)
handshake-Kept b (r ∷ rs) f o ka h =
    continue-Kept b r.is_late (handshake rs) (on_round f o ka r r.read) (handshake-Kept b rs)
      (on_round-frame f o ka r r.read ∙ h)

-- The three ways in which a call of Open can stand.
abbrev pub Settled : Fsm × OpenResult → Type 0
Settled (f, result) =
    (result ≡ still_waiting)
    ⊎ (((result ≡ opened)
          × (f.state ≡ established)
          × (f.is_open ≡ false → (f.parent_cancelled ≡ true) × (f.loops_cancelled ≡ true)))
        ⊎ ((result ≢ opened) × (f.state ≡ idle) × (f.is_open ≡ false)))

started-Settled :
    (d : Dial) (w : Option Bool) (f : Fsm)
    → f.state ≡ established
    → f.is_open ≡ true
    → ((start_loops (record d { watcher_ended = w }) f).state ≡ established)
      × ((start_loops (record d { watcher_ended = w }) f).is_open ≡ false
          → ((start_loops (record d { watcher_ended = w }) f).parent_cancelled ≡ true)
            × ((start_loops (record d { watcher_ended = w }) f).loops_cancelled ≡ true))
unfolding watcher_turn
started-Settled d none f st up = (st, λ c. ground arith)
started-Settled d (some chosen) f st up = (st, λ c. (ground arith, ground arith))

conclude_open-Settled :
    (d : Dial) (b : Frame) (r : Fsm × Outcome) → b.0 ≡ true → Kept b r → Settled (conclude_open d r)
unfolding conclude_open give_up watcher_turn
conclude_open-Settled d b (f, blocked) t k = inl refl
conclude_open-Settled d b (f, is_established) t (h, e) =
    let up : f.is_open ≡ true = ap (λ x. x.0) h ∙ t in
    let (st, cut) = started-Settled d d.watcher_ended f (e refl) up in inr (inl (refl, st, cut))
conclude_open-Settled d b (f, failed e) t k = inr (inr (λ q. cc, refl, refl))

send_open-Settled :
    (d : Dial) (rs : List Round) (f : Fsm) (q : Result OpenError OpenMessage)
    → f.is_open ≡ true
    → Settled (send_open d rs f q)
unfolding send_open give_up
send_open-Settled d rs f (err e) h = inr (inr (λ q. cc, refl, refl))
send_open-Settled d rs f (ok m) h = elim (Bool-cases d.is_serialized) [
  | inl serialized ↦ elim (Bool-cases d.is_written) [
    | inl sent ↦
        rw (serialized, sent)
          (let g : Fsm = record f { written = f.written ++ wrote_open m ∷ []; state = open_sent } in
            conclude_open-Settled d (frame g) (handshake rs g false false) h
              (handshake-Kept (frame g) rs g false false refl))
    | inr lost ↦ rw (serialized, lost) (inr (inr (λ q. cc, refl, refl)))
  ]
  | inr bad ↦ rw bad (inr (inr (λ q. cc, refl, refl)))
]

-- Called on a session that is Idle with no connection, Open waits for the peer, or has succeeded
-- and leaves it Established, on an open connection unless the context of the call was cancelled
-- meanwhile, which has then cancelled the loops too, or has failed and leaves it Idle with its
-- connection closed.
pub open_fsm-Settled :
    (new_open : NewOpen) (d : Dial) (rs : List Round) (f : Fsm)
    → f.state ≡ idle
    → f.is_open ≡ false
    → Settled (open_fsm new_open d rs f)
unfolding open_fsm
open_fsm-Settled new_open d rs f i c =
    let start : same_state f.state idle ≡ true = ap (λ s. same_state s idle) i in
    elim (Bool-cases d.is_connected) [
      | inl up ↦
          rw (start, up)
            (send_open-Settled d rs (record f { state = active; has_conn = true; is_open = true }) _
              refl)
      | inr down ↦ rw (start, down) (inr (inr (λ q. cc, refl, c)))
    ]

-- A call that succeeds has started the loops, and touched nothing that they use.
abbrev Started : Fsm → Fsm × OpenResult → Type 0
Started f r =
    r.1 ≡ opened
    → (r.0.loops_started ≡ true)
      × (r.0.loops_cancelled ≡ (f.loops_cancelled || r.0.parent_cancelled))
      × (r.0.observed ≡ f.observed)
      × (r.0.closing ≡ f.closing)
      × (r.0.reader ≡ testing)
      × (r.0.keepalive_loop ≡ ticking)

conclude_open-Started :
    (d : Dial) (f : Fsm) (r : Fsm × Outcome) → frame r.0 ≡ frame f → Started f (conclude_open d r)
unfolding conclude_open watcher_turn
conclude_open-Started d f (g, blocked) h = λ q. cc
conclude_open-Started d f (g, is_established) h = λ q. loops d.watcher_ended
  where
    loops :
        (w : Option Bool)
        → ((start_loops (record d { watcher_ended = w }) g).loops_started ≡ true)
          × ((start_loops (record d { watcher_ended = w }) g).loops_cancelled ≡ (
              f.loops_cancelled
              || (start_loops (record d { watcher_ended = w }) g).parent_cancelled))
          × ((start_loops (record d { watcher_ended = w }) g).observed ≡ f.observed)
          × ((start_loops (record d { watcher_ended = w }) g).closing ≡ f.closing)
          × ((start_loops (record d { watcher_ended = w }) g).reader ≡ testing)
          × ((start_loops (record d { watcher_ended = w }) g).keepalive_loop ≡ ticking)
    loops none = (
      refl,
      ap (λ x. x.1.0 || d.is_cancelled) h,
      ap (λ x. x.1.1.0) h,
      ap (λ x. x.1.1.1) h,
      refl,
      refl,
    )
    loops (some chosen) = (
      refl,
      ap (λ x. x.1.0 || d.is_cancelled) h,
      ap (λ x. x.1.1.0) h,
      ap (λ x. x.1.1.1) h,
      refl,
      refl,
    )
conclude_open-Started d f (g, failed e) h = λ q. cc

send_open-Started :
    (d : Dial) (rs : List Round) (f : Fsm) (q : Result OpenError OpenMessage)
    → Started f (send_open d rs f q)
unfolding send_open
send_open-Started d rs f (err e) = λ q. cc
send_open-Started d rs f (ok m) = elim (Bool-cases d.is_serialized) [
  | inl serialized ↦ elim (Bool-cases d.is_written) [
    | inl sent ↦
        let g : Fsm = record f { written = f.written ++ wrote_open m ∷ []; state = open_sent } in
        rw (serialized, sent)
          (conclude_open-Started d f (handshake rs g false false)
            (handshake-Kept (frame g) rs g false false refl).0)
    | inr lost ↦ rw (serialized, lost) (λ q. cc)
  ]
  | inr bad ↦ rw bad (λ q. cc)
]

pub open_fsm-Started :
    (new_open : NewOpen) (d : Dial) (rs : List Round) (f : Fsm)
    → Started f (open_fsm new_open d rs f)
unfolding open_fsm
open_fsm-Started new_open d rs f = elim (Bool-cases (same_state f.state idle)) [
  | inl start ↦ elim (Bool-cases d.is_connected) [
    | inl up ↦
        rw (start, up)
          (send_open-Started d rs (record f { state = active; has_conn = true; is_open = true }) _)
    | inr down ↦ rw (start, down) (λ q. cc)
  ]
  | inr busy ↦ rw busy (λ q. cc)
]
