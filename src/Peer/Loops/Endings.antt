-- ===== src/Peer/Loops/Endings.antt =====
-- internal/peer/fsm.go: the steps of fail and of Close, and the invariant of a session.
use xk6_bgp.Base.{
  Bool, true, false, ◌&&◌, ◌||◌, arith, some, none, ◌≡◌, refl, ap, Bool-cases, inl, inr,
}
use xk6_bgp.Observed.State.{SessionError, is_some, fail, ObservedSet}
use xk6_bgp.Observed.Release.{IsReleased, fail-IsReleased}
use xk6_bgp.Peer.Fsm.{
  idle, established, same_state, Fsm, ReaderPc, Ending, nothing_left, ceasing, cancelling,
  closing_conn, storing_idle, recording, reader_in_fail, KeepalivePc, keepalive_in_fail,
}
use xk6_bgp.Peer.Loops.{ending_step}

abbrev pub IsDown : Fsm → Type 0
IsDown f = (f.state ≡ idle) × (f.is_open ≡ false) × (f.loops_cancelled ≡ true)

-- In fail, between the cancelling of the loops and the store of Idle.
abbrev pub is_midway : Ending → Bool
is_midway (closing_conn (some e)) = true
is_midway (storing_idle e) = true
is_midway _ = false

abbrev pub reader_ending : ReaderPc → Ending
reader_ending (reader_in_fail x) = x
reader_ending _ = nothing_left

abbrev pub keepalive_ending : KeepalivePc → Ending
keepalive_ending (keepalive_in_fail x) = x
keepalive_ending _ = nothing_left

-- One of the two loops is there.
abbrev pub is_failing : Fsm → Bool
is_failing f = is_midway (reader_ending f.reader) || is_midway (keepalive_ending f.keepalive_loop)

-- What is left of a Close, which stored Idle first and records no error.
abbrev pub is_of_close : Ending → Bool
is_of_close nothing_left = true
is_of_close (ceasing seen) = true
is_of_close (cancelling none) = true
is_of_close (closing_conn none) = true
is_of_close _ = false

-- What the steps already taken have made true.
abbrev pub IsReached : Fsm → Ending → Type 0
IsReached f nothing_left = Unit
IsReached f (ceasing seen) = f.state ≡ idle
IsReached f (cancelling none) = f.state ≡ idle
IsReached f (cancelling (some e)) = Unit
IsReached f (closing_conn none) = (f.state ≡ idle) × (f.loops_cancelled ≡ true)
IsReached f (closing_conn (some e)) = f.loops_cancelled ≡ true
IsReached f (storing_idle e) = (f.is_open ≡ false) × (f.loops_cancelled ≡ true)
IsReached f (recording e) = IsDown f

-- What is never undone.
abbrev pub Grows : Fsm → Fsm → Type 0
Grows f g =
    (f.state ≡ idle → g.state ≡ idle)
    × (f.is_open ≡ false → g.is_open ≡ false)
    × (f.loops_cancelled ≡ true → g.loops_cancelled ≡ true)

pub IsReached-Grows : (f g : Fsm) (x : Ending) → Grows f g → IsReached f x → IsReached g x
IsReached-Grows f g nothing_left (i, c, l) h = tt
IsReached-Grows f g (ceasing seen) (i, c, l) h = i h
IsReached-Grows f g (cancelling none) (i, c, l) h = i h
IsReached-Grows f g (cancelling (some e)) (i, c, l) h = tt
IsReached-Grows f g (closing_conn none) (i, c, l) h = (i h.0, l h.1)
IsReached-Grows f g (closing_conn (some e)) (i, c, l) h = l h
IsReached-Grows f g (storing_idle e) (i, c, l) h = (c h.0, l h.1)
IsReached-Grows f g (recording e) (i, c, l) h = (i h.0, c h.1, l h.2)

-- The part of the invariant that does not look at where the threads stand.
pub record IsCore (f : Fsm) : Type 0 where
  pub started : f.loops_started ≡ true
  -- the connection is closed after the loops are cancelled
  pub closed : f.is_open ≡ false → f.loops_cancelled ≡ true
  pub watched : f.parent_cancelled ≡ true → f.loops_cancelled ≡ true
  -- the failure is recorded last
  pub down : is_some f.observed.failed_err ≡ true → IsDown f
  pub released : IsReleased f.observed

-- The loops are only cancelled by the parent, by a Close that has stored Idle, or by a fail that
-- is about to; `m` says that one is.
abbrev pub IsCaused : Bool → Fsm → Type 0
IsCaused m f =
    f.loops_cancelled ≡ true → (f.parent_cancelled || (same_state f.state idle || m)) ≡ true

pub record IsSound (f : Fsm) : Type 0 where
  pub core : IsCore f
  pub caused : IsCaused (is_failing f) f
  pub by_reader : IsReached f (reader_ending f.reader)
  pub by_keepalive : IsReached f (keepalive_ending f.keepalive_loop)
  pub by_close : IsReached f f.closing
  pub closes_only : is_of_close f.closing ≡ true

-- What one step of an ending does, the other threads being midway or not.
pub record Steps (f : Fsm) (m : Bool) (r : Fsm × Ending) : Type 0 where
  pub core : IsCore r.0
  pub caused : IsCaused (is_midway r.1 || m) r.0
  pub grows : Grows f r.0
  pub reached : IsReached r.0 r.1
  pub others :
      (r.0.reader ≡ f.reader) × (r.0.keepalive_loop ≡ f.keepalive_loop) × (r.0.closing ≡ f.closing)

pub Grows-refl : (f : Fsm) → Grows f f
Grows-refl f = ((λ h. h), (λ h. h), λ h. h)

fail-failed : (e : SessionError) (o : ObservedSet) → is_some (fail e o).failed_err ≡ true
unfolding fail
fail-failed e o = ground arith

pub ending_step-Steps :
    (x : Ending) (f : Fsm) (m : Bool)
    → IsCore f
    → IsCaused (is_midway x || m) f
    → IsReached f x
    → Steps f m (ending_step x f)
unfolding ending_step
ending_step-Steps nothing_left f m c k h = record {
  core = c;
  caused = k;
  grows = Grows-refl f;
  reached = tt;
  others = (refl, refl, refl);
}
ending_step-Steps (ceasing seen) f m c k h =
    elim (Bool-cases (f.has_conn && same_state seen established)) [
      | inl cease ↦ rw cease (record {
        core = record {
          started = c.started;
          closed = c.closed;
          watched = c.watched;
          down = c.down;
          released = c.released;
        };
        caused = k;
        grows = Grows-refl f;
        reached = h;
        others = (refl, refl, refl);
      })
      | inr quiet ↦ rw quiet (record {
        core = c;
        caused = k;
        grows = Grows-refl f;
        reached = h;
        others = (refl, refl, refl);
      })
    ]
ending_step-Steps (cancelling none) f m c k h =
    let on : (f.loops_started || f.loops_cancelled) ≡ true =
      ap (λ b. b || f.loops_cancelled) c.started in
    record {
      core = record {
        started = c.started;
        closed = λ _. on;
        watched = λ _. on;
        down = λ e. ((c.down e).0, (c.down e).1, on);
        released = c.released;
      };
      caused = λ _. ground (arith, ap (λ s. same_state s idle) h);
      grows = ((λ i. i), (λ i. i), λ _. on);
      reached = (h, on);
      others = (refl, refl, refl);
    }
ending_step-Steps (cancelling (some e)) f m c k h =
    let on : (f.loops_started || f.loops_cancelled) ≡ true =
      ap (λ b. b || f.loops_cancelled) c.started in
    record {
      core = record {
        started = c.started;
        closed = λ _. on;
        watched = λ _. on;
        down = λ e. ((c.down e).0, (c.down e).1, on);
        released = c.released;
      };
      caused = λ _. ground arith;
      grows = ((λ i. i), (λ i. i), λ _. on);
      reached = on;
      others = (refl, refl, refl);
    }
ending_step-Steps (closing_conn none) f m c k h = record {
  core = record {
    started = c.started;
    closed = λ _. h.1;
    watched = c.watched;
    down = λ e. ((c.down e).0, refl, (c.down e).2);
    released = c.released;
  };
  caused = k;
  grows = ((λ i. i), (λ i. refl), λ i. i);
  reached = tt;
  others = (refl, refl, refl);
}
ending_step-Steps (closing_conn (some e)) f m c k h = record {
  core = record {
    started = c.started;
    closed = λ _. h;
    watched = c.watched;
    down = λ e. ((c.down e).0, refl, (c.down e).2);
    released = c.released;
  };
  caused = k;
  grows = ((λ i. i), (λ i. refl), λ i. i);
  reached = (refl, h);
  others = (refl, refl, refl);
}
ending_step-Steps (storing_idle e) f m c k h = record {
  core = record {
    started = c.started;
    closed = c.closed;
    watched = c.watched;
    down = λ e. (refl, (c.down e).1, (c.down e).2);
    released = c.released;
  };
  caused = λ _. ground arith;
  grows = ((λ i. refl), (λ i. i), λ i. i);
  reached = (refl, h.0, h.1);
  others = (refl, refl, refl);
}
ending_step-Steps (recording e) f m c k h = record {
  core = record {
    started = c.started;
    closed = c.closed;
    watched = c.watched;
    down = λ _. h;
    released = fail-IsReleased e f.observed;
  };
  caused = k;
  grows = Grows-refl f;
  reached = tt;
  others = (refl, refl, refl);
}

pub close_step :
    (x : Ending) (f : Fsm)
    → is_of_close x ≡ true
    → (is_midway (ending_step x f).1 ≡ false) × (is_of_close (ending_step x f).1 ≡ true)
unfolding ending_step
close_step nothing_left f h = (refl, refl)
close_step (ceasing seen) f h = (refl, refl)
close_step (cancelling none) f h = (refl, refl)
close_step (cancelling (some e)) f h = cc
close_step (closing_conn none) f h = (refl, refl)
close_step (closing_conn (some e)) f h = cc
close_step (storing_idle e) f h = cc
close_step (recording e) f h = cc
