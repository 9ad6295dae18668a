-- ===== src/Peer/Loops/Ends.antt =====
-- internal/peer/fsm.go: the turns of the two loops of a session.
use xk6_bgp.Base.{
  Bool, true, false, ◌&&◌, ◌||◌, some, List, [], ◌∷◌, ◌++◌, ◌≡◌, refl, sym, ap, subst, ◌∙◌,
  if◌then◌else◌, ltb, Bool-cases, inl, inr,
}
use xk6_bgp.Clock.{Timestamp}
use xk6_bgp.Observed.State.{
  SessionError, hold_timer_expired, read_failed, keepalive_failed, peer_rejected, is_some,
  ObservedSet,
}
use xk6_bgp.Peer.Fsm.{
  Written, idle, same_state, wrote_keepalive, wrote_notification, Body, bgp_open, keepalive,
  notification, update, route_refresh, Fsm, ReaderPc, testing, reading, ended, nothing_left,
  cancelling, reader_in_fail, KeepalivePc, ticking, stopped, keepalive_in_fail,
}
use xk6_bgp.Peer.Loops.{
  dispatch_update, dispatch_route_refresh, reader_fails, keepalive_fails, keepalive_stop,
  is_ticking, ReadResult, read_message, times_out, fails, on_read_error, on_read_message, on_read,
  test_context, tick, SessionEvent, tests, reads, reader_turn,
}
use xk6_bgp.Peer.Loops.Quiet.{Quiet, dispatch_update-Quiet, route_refresh-Quiet}
use xk6_bgp.Peer.Loops.Endings.{
  is_midway, reader_ending, keepalive_ending, is_failing, is_of_close, IsReached, Grows,
  IsReached-Grows, IsCore, IsCaused, IsSound,
}

-- A turn that leaves the session's own state alone, and the receiver state quiet.
abbrev pub Same : Fsm → Fsm → Type 0
Same f g =
    (g.loops_started ≡ f.loops_started)
    × (g.state ≡ f.state)
    × (g.is_open ≡ f.is_open)
    × (g.loops_cancelled ≡ f.loops_cancelled)
    × (g.parent_cancelled ≡ f.parent_cancelled)
    × Quiet f.observed g.observed

pub Same-Grows : (f g : Fsm) → Same f g → Grows f g
Same-Grows f g (s, st, op, ca, pa, q) = ((λ h. st ∙ h), (λ h. op ∙ h), λ h. ca ∙ h)

Same-IsCore : (f g : Fsm) → Same f g → IsCore f → IsCore g
Same-IsCore f g (s, st, op, ca, pa, (q, r)) c = record {
  started = s ∙ c.started;
  closed = λ h. ca ∙ c.closed (sym op ∙ h);
  watched = λ h. ca ∙ c.watched (sym pa ∙ h);
  down = λ h. let (i, o, l) = c.down (ap is_some (sym q) ∙ h) in (st ∙ i, op ∙ o, ca ∙ l);
  released = r c.released;
}

Same-IsCaused : (f g : Fsm) (m n : Bool) → Same f g → n ≡ m → IsCaused m f → IsCaused n g
Same-IsCaused f g m n (s, st, op, ca, pa, q) e k h =
    (λ i. pa i || (same_state (st i) idle || e i)) ∙ k (sym ca ∙ h)

-- A thread moves, and no ending does but one that begins.
pub moved :
    (f g : Fsm)
    → Same f g
    → (is_midway (reader_ending g.reader) ≡ is_midway (reader_ending f.reader))
    → (is_midway (keepalive_ending g.keepalive_loop)
        ≡ is_midway (keepalive_ending f.keepalive_loop))
    → IsReached g (reader_ending g.reader)
    → IsReached g (keepalive_ending g.keepalive_loop)
    → IsReached g g.closing
    → (g.closing ≡ f.closing)
    → IsSound f
    → IsSound g
moved f g same r k ar ak ac cl h = record {
  core = Same-IsCore f g same h.core;
  caused = Same-IsCaused f g (is_failing f) (is_failing g) same (λ i. r i || k i) h.caused;
  by_reader = ar;
  by_keepalive = ak;
  by_close = ac;
  closes_only = ap is_of_close cl ∙ h.closes_only;
}

pub unmoved : (o : ObservedSet) → Quiet o o
unmoved o = (refl, λ h. h)

-- readLoop goes on to a point that is not in fail, or into fail.
reader_moves :
    (f : Fsm) (p : ReaderPc) (w : List Written) (o : ObservedSet)
    → Quiet f.observed o
    → reader_ending f.reader ≡ nothing_left
    → is_midway (reader_ending p) ≡ false
    → IsReached (record f { reader = p; written = w; observed = o }) (reader_ending p)
    → IsSound f
    → IsSound (record f { reader = p; written = w; observed = o })
reader_moves f p w o q at_rest calm ar h =
    let g : Fsm = record f { reader = p; written = w; observed = o } in
    let same : Same f g = (refl, refl, refl, refl, refl, q) in
    moved f g same (calm ∙ sym (ap is_midway at_rest)) refl ar
      (IsReached-Grows f g (keepalive_ending f.keepalive_loop) (Same-Grows f g same) h.by_keepalive)
      (IsReached-Grows f g f.closing (Same-Grows f g same) h.by_close) refl h

pub if-IsSound : (b : Bool) (x y : Fsm) → IsSound x → IsSound y → IsSound (if b then x else y)
if-IsSound true x y p q = p
if-IsSound false x y p q = q

-- What reads, tests and failures of readLoop come to, when it is not in fail.
module _ (f : Fsm) (at_rest : reader_ending f.reader ≡ nothing_left) (h : IsSound f) where
  reader_goes : (p : ReaderPc) → reader_ending p ≡ nothing_left → IsSound (record f { reader = p })
  reader_goes p e =
      reader_moves f p f.written f.observed (unmoved f.observed) at_rest (ap is_midway e)
        (subst (IsReached (record f { reader = p })) (sym e) tt) h

  reader_fails-IsSound :
      (e : SessionError) (w : List Written) → IsSound (reader_fails e (record f { written = w }))
  unfolding reader_fails
  reader_fails-IsSound e w =
      reader_moves f (reader_in_fail (cancelling (some e))) w f.observed (unmoved f.observed)
        at_rest refl tt h

  on_read_error-IsSound : (b : Bool) → IsSound (on_read_error b f)
  unfolding on_read_error
  on_read_error-IsSound b = if-IsSound f.loops_cancelled _ _ (reader_goes ended refl) (
      if-IsSound (b && ltb 0 f.session.negotiated_hold) _ _
        (reader_fails-IsSound hold_timer_expired (f.written ++ wrote_notification 4 0 ∷ []))
        (reader_fails-IsSound read_failed f.written))

  on_read_message-IsSound : (ts : Timestamp) (m : Body) → IsSound (on_read_message ts m f)
  unfolding on_read_message
  on_read_message-IsSound ts (update u) =
      reader_moves f testing f.written (dispatch_update f.session u ts f.observed)
        (dispatch_update-Quiet f.session u ts f.observed) at_rest refl tt h
  on_read_message-IsSound ts (route_refresh fam d) =
      reader_moves f testing f.written (dispatch_route_refresh f.session fam d ts f.observed)
        (route_refresh-Quiet f.session fam d ts f.observed) at_rest refl tt h
  on_read_message-IsSound ts keepalive = reader_goes testing refl
  on_read_message-IsSound ts (notification c s) = reader_fails-IsSound (peer_rejected c s) f.written
  on_read_message-IsSound ts (bgp_open m) = reader_goes testing refl

  on_read-IsSound : (r : ReadResult) → IsSound (on_read r f)
  unfolding on_read
  on_read-IsSound (read_message ts m) = on_read_message-IsSound ts m
  on_read-IsSound times_out = on_read_error-IsSound true
  on_read-IsSound fails = on_read_error-IsSound false

  test_context-IsSound : IsSound (test_context f)
  unfolding test_context
  test_context-IsSound =
      if-IsSound f.loops_cancelled _ _ (reader_goes ended refl) (reader_goes reading refl)

pub reader_turn-IsSound :
    (e : SessionEvent) (p : ReaderPc) (f : Fsm)
    → f.reader ≡ p
    → IsSound f
    → IsSound (reader_turn e p f)
unfolding reader_turn
reader_turn-IsSound tests testing f q h = test_context-IsSound f (ap reader_ending q) h
reader_turn-IsSound (reads r) reading f q h = on_read-IsSound f (ap reader_ending q) h r
reader_turn-IsSound e p f q h = h

-- The same for keepaliveLoop, which leaves the receiver state alone.
keepalive_moves :
    (f : Fsm) (p : KeepalivePc) (w : List Written)
    → keepalive_ending f.keepalive_loop ≡ nothing_left
    → is_midway (keepalive_ending p) ≡ false
    → IsReached (record f { keepalive_loop = p; written = w }) (keepalive_ending p)
    → IsSound f
    → IsSound (record f { keepalive_loop = p; written = w })
keepalive_moves f p w at_rest calm ak h =
    let g : Fsm = record f { keepalive_loop = p; written = w } in
    let same : Same f g = (refl, refl, refl, refl, refl, unmoved f.observed) in
    moved f g same refl (calm ∙ sym (ap is_midway at_rest))
      (IsReached-Grows f g (reader_ending f.reader) (Same-Grows f g same) h.by_reader) ak
      (IsReached-Grows f g f.closing (Same-Grows f g same) h.by_close) refl h

ticking_at_rest :
    (p : KeepalivePc) (b : Bool) → (is_ticking p && b) ≡ true → keepalive_ending p ≡ nothing_left
ticking_at_rest ticking b h = refl
ticking_at_rest stopped b h = refl
ticking_at_rest (keepalive_in_fail x) b h = cc

pub tick-IsSound : (b : Bool) (f : Fsm) → IsSound f → IsSound (tick b f)
unfolding tick keepalive_fails
tick-IsSound b f h =
    let w = f.written ++ wrote_keepalive ∷ [] in
    elim (Bool-cases (is_ticking f.keepalive_loop && ltb 0 f.session.keepalive_tick)) [
      | inl on ↦
          let at_rest = ticking_at_rest f.keepalive_loop (ltb 0 f.session.keepalive_tick) on in
          rw on (
            if-IsSound b _ _
              (keepalive_moves f f.keepalive_loop w at_rest (ap is_midway at_rest)
                (subst (IsReached (record f { written = w })) (sym at_rest) tt) h)
              (keepalive_moves f (keepalive_in_fail (cancelling (some keepalive_failed))) w at_rest
                refl tt h))
      | inr off ↦ rw off h
    ]

pub keepalive_stop-IsSound :
    (p : KeepalivePc) (f : Fsm) → f.keepalive_loop ≡ p → IsSound f → IsSound (keepalive_stop p f)
unfolding keepalive_stop
keepalive_stop-IsSound ticking f q h =
    if-IsSound f.loops_cancelled _ _
      (keepalive_moves f stopped f.written (ap keepalive_ending q) refl tt h) h
keepalive_stop-IsSound stopped f q h = h
keepalive_stop-IsSound (keepalive_in_fail x) f q h = h
