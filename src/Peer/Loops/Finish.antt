-- ===== src/Peer/Loops/Finish.antt =====
-- internal/peer/fsm.go: one step of a call of fail or of Close, by each thread.
use xk6_bgp.Base.{ap₂, Bool, true, false, ◌||◌, arith, ◌≡◌, refl, sym, ap, subst, ◌∙◌}
use xk6_bgp.Peer.Fsm.{
  idle, same_state, Fsm, ReaderPc, Ending, reader_in_fail, KeepalivePc, keepalive_in_fail,
}
use xk6_bgp.Peer.Loops.{ending_step, reader_fail_step, keepalive_fail_step}
use xk6_bgp.Peer.Loops.Endings.{
  is_midway, reader_ending, keepalive_ending, is_failing, IsReached, IsReached-Grows, IsCaused,
  IsSound, is_of_close, Steps, Grows-refl, close_step, ending_step-Steps,
}

-- Where the three endings stand after a step of one of them, which is `x`.
module _ (x : Ending) (f : Fsm) (m : Bool) (r : Steps f m (ending_step x f)) where
  after : ReaderPc → KeepalivePc → Ending → Fsm
  after p k c = record ((ending_step x f).0) { reader = p; keepalive_loop = k; closing = c }

  kept : (p : ReaderPc) (k : KeepalivePc) (c y : Ending) → IsReached f y → IsReached (after p k c) y
  unfolding after
  kept p k c y h = IsReached-Grows f (after p k c) y r.grows h

  stepped :
      (p : ReaderPc) (k : KeepalivePc) (c : Ending)
      → (is_midway (reader_ending p) || is_midway (keepalive_ending k))
        ≡ (is_midway (ending_step x f).1 || m)
      → IsReached (after p k c) (reader_ending p)
      → IsReached (after p k c) (keepalive_ending k)
      → IsReached (after p k c) c
      → is_of_close c ≡ true
      → IsSound (after p k c)
  unfolding after
  stepped p k c e ar ak ac cl = record {
    core = record {
      started = r.core.started;
      closed = r.core.closed;
      watched = r.core.watched;
      down = r.core.down;
      released = r.core.released;
    };
    caused = λ l.
        (λ i.
          (ending_step x f).0.parent_cancelled
          || (same_state (ending_step x f).0.state idle || e i))
        ∙ r.caused l;
    by_reader = ar;
    by_keepalive = ak;
    by_close = ac;
    closes_only = cl;
  }

  reached_now :
      (p : ReaderPc) (k : KeepalivePc) (c : Ending) → IsReached (after p k c) (ending_step x f).1
  unfolding after
  reached_now p k c =
      IsReached-Grows (ending_step x f).0 (after p k c) (ending_step x f).1
        (Grows-refl (ending_step x f).0) r.reached

or_comm : (a b : Bool) → (a || b) ≡ (b || a)
or_comm true true = refl
or_comm true false = refl
or_comm false true = refl
or_comm false false = refl

pub reader_fail_step-IsSound :
    (p : ReaderPc) (f : Fsm) → f.reader ≡ p → IsSound f → IsSound (reader_fail_step p f)
unfolding reader_fail_step after
reader_fail_step-IsSound (reader_in_fail x) f q h =
    let m = is_midway (keepalive_ending f.keepalive_loop) in
    let here : reader_ending f.reader ≡ x = ap reader_ending q in
    let r =
      ending_step-Steps x f m h.core (subst (λ y. IsCaused (is_midway y || m) f) here h.caused)
        (subst (IsReached f) here h.by_reader) in
    let g = (ending_step x f).0 in
    let y = (ending_step x f).1 in
    let p = reader_in_fail y in
    stepped x f m r p g.keepalive_loop g.closing
      (ap (λ k. is_midway y || is_midway (keepalive_ending k)) r.others.1)
      (reached_now x f m r p g.keepalive_loop g.closing)
      (kept x f m r p g.keepalive_loop g.closing (keepalive_ending g.keepalive_loop)
        (subst (λ k. IsReached f (keepalive_ending k)) (sym r.others.1) h.by_keepalive))
      (kept x f m r p g.keepalive_loop g.closing g.closing
        (subst (IsReached f) (sym r.others.2) h.by_close))
      (ap is_of_close r.others.2 ∙ h.closes_only)
reader_fail_step-IsSound p f q h = h

pub keepalive_fail_step-IsSound :
    (p : KeepalivePc) (f : Fsm)
    → f.keepalive_loop ≡ p
    → IsSound f
    → IsSound (keepalive_fail_step p f)
unfolding keepalive_fail_step after
keepalive_fail_step-IsSound (keepalive_in_fail x) f q h =
    let m = is_midway (reader_ending f.reader) in
    let here : keepalive_ending f.keepalive_loop ≡ x = ap keepalive_ending q in
    let cause : IsCaused (is_midway x || m) f =
      subst (λ b. IsCaused b f)
        (or_comm m (is_midway (keepalive_ending f.keepalive_loop))
          ∙ ap (λ y. is_midway y || m) here)
        h.caused in
    let r = ending_step-Steps x f m h.core cause (subst (IsReached f) here h.by_keepalive) in
    let g = (ending_step x f).0 in
    let y = (ending_step x f).1 in
    let k = keepalive_in_fail y in
    stepped x f m r g.reader k g.closing
      (ap (λ p. is_midway (reader_ending p) || is_midway y) r.others.0 ∙ or_comm m (is_midway y))
      (kept x f m r g.reader k g.closing (reader_ending g.reader)
        (subst (λ p. IsReached f (reader_ending p)) (sym r.others.0) h.by_reader))
      (reached_now x f m r g.reader k g.closing)
      (kept x f m r g.reader k g.closing g.closing
        (subst (IsReached f) (sym r.others.2) h.by_close))
      (ap is_of_close r.others.2 ∙ h.closes_only)
keepalive_fail_step-IsSound p f q h = h

pub close_step-IsSound :
    (f : Fsm)
    → IsSound f
    → IsSound (record ((ending_step f.closing f).0) { closing = (ending_step f.closing f).1 })
unfolding after
close_step-IsSound f h =
    let x = f.closing in
    let m = is_failing f in
    let cause : IsCaused (is_midway x || m) f =
      λ l. widen f.parent_cancelled (same_state f.state idle) (is_midway x) m (h.caused l) in
    let r = ending_step-Steps x f m h.core cause h.by_close in
    let g = (ending_step x f).0 in
    let y = (ending_step x f).1 in
    let (calm, of_close) = close_step x f h.closes_only in
    stepped x f m r g.reader g.keepalive_loop y
      (ap₂ (λ p k. is_midway (reader_ending p) || is_midway (keepalive_ending k)) r.others.0
          r.others.1
        ∙ sym (ap (λ b. b || m) calm))
      (kept x f m r g.reader g.keepalive_loop y (reader_ending g.reader)
        (subst (λ p. IsReached f (reader_ending p)) (sym r.others.0) h.by_reader))
      (kept x f m r g.reader g.keepalive_loop y (keepalive_ending g.keepalive_loop)
        (subst (λ k. IsReached f (keepalive_ending k)) (sym r.others.1) h.by_keepalive))
      (reached_now x f m r g.reader g.keepalive_loop y) of_close
  where
    widen : (a b c d : Bool) → (a || (b || d)) ≡ true → (a || (b || (c || d))) ≡ true
    widen a b c d h = ground arith
