-- ===== src/Peer/Loops/Turns.antt =====
-- internal/peer/fsm.go: the events of a session, one and many.
use xk6_bgp.Base.{
  not, ap₂, Bool, true, false, ◌&&◌, ◌||◌, arith, List, [], ◌∷◌, ◌≡◌, refl, sym, ap, subst,
  if◌then◌else◌,
}
use xk6_bgp.Observed.State.{ObservedSet}
use xk6_bgp.Observed.Waiters.{register_waiter, deregister_waiter}
use xk6_bgp.Peer.Fsm.{State, idle, same_state, Fsm, ceasing, watcher_turn}
use xk6_bgp.Peer.Loops.{
  close_from, reader_fail_goes_on, keepalive_fail_goes_on, close_goes_on, parent_ends, watcher_ends,
  SessionEvent, tests, reads, ticks, keepalive_ends, closes, waits, leaves, session_step,
  session_run,
}
use xk6_bgp.Peer.Loops.Quiet.{Quiet, register_waiter-Quiet, deregister_waiter-Quiet}
use xk6_bgp.Peer.Loops.Endings.{
  is_midway, reader_ending, keepalive_ending, is_failing, IsReached, Grows, IsReached-Grows, IsCore,
  IsCaused, IsSound, is_of_close,
}
use xk6_bgp.Peer.Loops.Ends.{
  Same, Same-Grows, moved, if-IsSound, reader_turn-IsSound, tick-IsSound, keepalive_stop-IsSound,
}
use xk6_bgp.Peer.Loops.Finish.{
  reader_fail_step-IsSound, keepalive_fail_step-IsSound, close_step-IsSound,
}

-- A step of another goroutine that only adds to what is never undone.
grown :
    (f g : Fsm)
    → Grows f g
    → IsCore g
    → (g.reader ≡ f.reader) × (g.keepalive_loop ≡ f.keepalive_loop)
    → (IsCaused (is_failing f) f → IsCaused (is_failing f) g)
    → IsReached g g.closing
    → is_of_close g.closing ≡ true
    → IsSound f
    → IsSound g
grown f g gr core (r, k) caused ac cl h = record {
  core = core;
  caused =
      subst (λ b. IsCaused b g)
        (ap₂ (λ p l. is_midway (reader_ending p) || is_midway (keepalive_ending l)) (sym r) (sym k))
        (caused h.caused);
  by_reader =
      IsReached-Grows f g (reader_ending g.reader) gr
        (subst (λ p. IsReached f (reader_ending p)) (sym r) h.by_reader);
  by_keepalive =
      IsReached-Grows f g (keepalive_ending g.keepalive_loop) gr
        (subst (λ p. IsReached f (keepalive_ending p)) (sym k) h.by_keepalive);
  by_close = ac;
  closes_only = cl;
}

close_from-IsSound : (seen : State) (f : Fsm) → IsSound f → IsSound (close_from seen f)
unfolding close_from
close_from-IsSound seen f h =
    let g : Fsm = record f { state = idle; closing = ceasing seen } in
    let core : IsCore g = record {
      started = h.core.started;
      closed = h.core.closed;
      watched = h.core.watched;
      down = λ e. (refl, (h.core.down e).1, (h.core.down e).2);
      released = h.core.released;
    } in
    if-IsSound (same_state seen idle) _ _ h (
      if-IsSound (not (same_state f.state seen)) _ _ h (
        grown f g ((λ i. refl), (λ i. i), λ i. i) core (refl, refl) (λ c l. ground arith) refl refl
          h))

parent_ends-IsSound :
    (f : Fsm)
    → IsSound f
    → IsSound (record f {
      parent_cancelled = true;
      loops_cancelled = f.loops_started || f.loops_cancelled;
    })
parent_ends-IsSound f h =
    let on : (f.loops_started || f.loops_cancelled) ≡ true =
      ap (λ b. b || f.loops_cancelled) h.core.started in
    let g : Fsm = record f {
      parent_cancelled = true;
      loops_cancelled = f.loops_started || f.loops_cancelled;
    } in
    let gr : Grows f g = ((λ i. i), (λ i. i), λ i. on) in
    let core : IsCore g = record {
      started = h.core.started;
      closed = λ _. on;
      watched = λ _. on;
      down = λ e. ((h.core.down e).0, (h.core.down e).1, on);
      released = h.core.released;
    } in
    grown f g gr core (refl, refl) (λ c l. refl) (IsReached-Grows f g f.closing gr h.by_close)
      h.closes_only h

watcher_turn-IsSound : (chosen : Bool) (f : Fsm) → IsSound f → IsSound (watcher_turn chosen f)
unfolding watcher_turn
watcher_turn-IsSound chosen f h =
    let g = watcher_turn chosen f in
    let cut = f.is_watched && (chosen && f.parent_cancelled) in
    let gr : Grows f g = ((λ i. i), (λ i. already cut f.is_open i), λ i. i) in
    let core : IsCore g = record {
      started = h.core.started;
      closed = λ c.
          closes f.is_watched chosen f.parent_cancelled f.is_open f.loops_cancelled h.core.watched
            h.core.closed c;
      watched = h.core.watched;
      down = λ e. ((h.core.down e).0, already cut f.is_open (h.core.down e).1, (h.core.down e).2);
      released = h.core.released;
    } in
    grown f g gr core (refl, refl) (λ c l. c l) (IsReached-Grows f g f.closing gr h.by_close)
      h.closes_only h
  where
    already : (b o : Bool) → o ≡ false → (if b then false else o) ≡ false
    already true o e = refl
    already false o e = e

    closes :
        (w c p o l : Bool)
        → (p ≡ true → l ≡ true)
        → (o ≡ false → l ≡ true)
        → (if w && (c && p) then false else o) ≡ false
        → l ≡ true
    closes true true true o l i j e = i refl
    closes true true false o l i j e = j e
    closes true false p o l i j e = j e
    closes false c p o l i j e = j e

waits-IsSound :
    (f : Fsm) (o : ObservedSet)
    → Quiet f.observed o
    → IsSound f
    → IsSound (record f { observed = o })
waits-IsSound f o q h =
    let g : Fsm = record f { observed = o } in
    let same : Same f g = (refl, refl, refl, refl, refl, q) in
    let gr = Same-Grows f g same in
    moved f g same refl refl (IsReached-Grows f g (reader_ending f.reader) gr h.by_reader)
      (IsReached-Grows f g (keepalive_ending f.keepalive_loop) gr h.by_keepalive)
      (IsReached-Grows f g f.closing gr h.by_close) refl h

session_step-IsSound : (f : Fsm) (e : SessionEvent) → IsSound f → IsSound (session_step f e)
unfolding session_step
session_step-IsSound f tests h = reader_turn-IsSound tests f.reader f refl h
session_step-IsSound f (reads r) h = reader_turn-IsSound (reads r) f.reader f refl h
session_step-IsSound f (ticks b) h = tick-IsSound b f h
session_step-IsSound f keepalive_ends h = keepalive_stop-IsSound f.keepalive_loop f refl h
session_step-IsSound f (closes seen) h = close_from-IsSound seen f h
session_step-IsSound f reader_fail_goes_on h = reader_fail_step-IsSound f.reader f refl h
session_step-IsSound f keepalive_fail_goes_on h =
    keepalive_fail_step-IsSound f.keepalive_loop f refl h
session_step-IsSound f close_goes_on h = close_step-IsSound f h
session_step-IsSound f parent_ends h = parent_ends-IsSound f h
session_step-IsSound f (watcher_ends chosen) h = watcher_turn-IsSound chosen f h
session_step-IsSound f (waits want c) h =
    waits-IsSound f (register_waiter want c f.observed).0 (register_waiter-Quiet want c f.observed)
      h
session_step-IsSound f (leaves i) h =
    waits-IsSound f (deregister_waiter i f.observed) (deregister_waiter-Quiet i f.observed) h

-- However the threads of the session take turns, its invariant stays.
pub session_run-IsSound :
    (f : Fsm) (es : List SessionEvent) → IsSound f → IsSound (session_run f es)
unfolding session_run
session_run-IsSound f [] h = h
session_run-IsSound f (e ∷ es) h =
    session_run-IsSound (session_step f e) es (session_step-IsSound f e h)
