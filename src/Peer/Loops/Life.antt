-- ===== src/Peer/Loops/Life.antt =====
-- The life of a session, from New and Open to its end.
use xk6_bgp.Base.{
  subst, true, false, ◌||◌, List, ◌≡◌, refl, sym, ap, ◌∙◌, inl, inr, All, arith, Bool-cases,
}
use xk6_bgp.Observed.State.{is_some, new_observed_set}
use xk6_bgp.Peer.Config.{Config, NewOpen}
use xk6_bgp.Peer.Fsm.{
  idle, established, same_state, Fsm, Round, Dial, OpenResult, opened, open_fsm, new_fsm,
}
use xk6_bgp.Peer.Fsm.Opening.{Settled, open_fsm-Settled, open_fsm-Started}
use xk6_bgp.Peer.Loops.{SessionEvent, session_run}
use xk6_bgp.Peer.Loops.Endings.{
  IsDown, is_failing, reader_ending, keepalive_ending, IsSound, IsReached, is_of_close,
}
use xk6_bgp.Peer.Loops.Turns.{session_run-IsSound}

opened_up :
    (r : Fsm × OpenResult)
    → Settled r
    → r.1 ≡ opened
    → r.0.is_open ≡ false
    → (r.0.parent_cancelled ≡ true) × (r.0.loops_cancelled ≡ true)
opened_up (f, result) (inl w) e c = cc
opened_up (f, result) (inr (inl (o, s, cut))) e c = cut c
opened_up (f, result) (inr (inr (o, s, c))) e d = absurd (o e)

opened-IsSound :
    (new_open : NewOpen) (d : Dial) (rs : List Round) (cfg : Config)
    → (open_fsm new_open d rs (new_fsm cfg)).1 ≡ opened
    → IsSound (open_fsm new_open d rs (new_fsm cfg)).0
unfolding new_fsm new_observed_set
opened-IsSound new_open d rs cfg e =
    let f = new_fsm cfg in
    let g = (open_fsm new_open d rs f).0 in
    let cut = opened_up (open_fsm new_open d rs f) (open_fsm-Settled new_open d rs f refl refl) e in
    let (started, cancelled, same, closing, reads, ticks) = open_fsm-Started new_open d rs f e in
    let clean : is_some g.observed.failed_err ≡ false = ap (λ o. is_some o.failed_err) same in
    record {
      core = record {
        started = started;
        closed = λ c. (cut c).1;
        watched = λ p. cancelled ∙ p;
        down = λ s. absurd (differ (sym clean ∙ s));
        released = λ s. absurd (differ (sym clean ∙ s));
      };
      caused = λ l. ap (λ b. b || (same_state g.state idle || is_failing g)) (sym cancelled ∙ l);
      by_reader = subst (λ p. IsReached g (reader_ending p)) (sym reads) tt;
      by_keepalive = subst (λ p. IsReached g (keepalive_ending p)) (sym ticks) tt;
      by_close = subst (IsReached g) (sym closing) tt;
      closes_only = ap is_of_close closing;
    }
  where
    differ : false ≡ true → ⊥
    differ h = cc

-- A session in use.
abbrev pub IsUp : Fsm → Type 0
IsUp f = (f.is_open ≡ true) × (f.loops_cancelled ≡ false) × (is_some f.observed.failed_err ≡ false)

-- A session that Open established, whatever its threads, Close, the context of Open, the
-- handshake's watcher and other goroutines have done since, one step of fail and of Close at a time:
-- once a failure is recorded, the session is Idle, its connection is closed, its loops are cancelled
-- and every registered waiter has been signalled; a closed connection means that the loops are
-- cancelled; and as long as it is Established, the context is not cancelled and no call of fail
-- stands between the cancelling of the loops and the store of Idle, the connection is open, the
-- loops are not cancelled and no failure is recorded.
pub session_life :
    (new_open : NewOpen) (d : Dial) (rs : List Round) (cfg : Config) (es : List SessionEvent)
    → (open_fsm new_open d rs (new_fsm cfg)).1 ≡ opened
    → (is_some (session_run (open_fsm new_open d rs (new_fsm cfg)).0 es).observed.failed_err ≡ true
        → IsDown (session_run (open_fsm new_open d rs (new_fsm cfg)).0 es)
          × All
              (λ w. w.is_done ≡ true)
              (session_run (open_fsm new_open d rs (new_fsm cfg)).0 es).observed.waiters)
      × ((session_run (open_fsm new_open d rs (new_fsm cfg)).0 es).is_open ≡ false
          → (session_run (open_fsm new_open d rs (new_fsm cfg)).0 es).loops_cancelled ≡ true)
      × ((session_run (open_fsm new_open d rs (new_fsm cfg)).0 es).state ≡ established
          → (session_run (open_fsm new_open d rs (new_fsm cfg)).0 es).parent_cancelled ≡ false
          → is_failing (session_run (open_fsm new_open d rs (new_fsm cfg)).0 es) ≡ false
          → IsUp (session_run (open_fsm new_open d rs (new_fsm cfg)).0 es))
session_life new_open d rs cfg es e =
    let g = session_run (open_fsm new_open d rs (new_fsm cfg)).0 es in
    read g (
      session_run-IsSound (open_fsm new_open d rs (new_fsm cfg)).0 es
        (opened-IsSound new_open d rs cfg e))
  where
    no_cause :
        (g : Fsm)
        → (g.parent_cancelled || (same_state g.state idle || is_failing g)) ≡ true
        → g.parent_cancelled ≡ false
        → g.state ≡ established
        → is_failing g ≡ false
        → ⊥
    no_cause g c pa st fa =
        let none_left : (g.parent_cancelled || (same_state g.state idle || is_failing g)) ≡ false =
          λ i. pa i || (same_state (st i) idle || fa i) in
        ground (arith, none_left, c)

    in_use :
        (g : Fsm)
        → IsSound g
        → g.state ≡ established
        → g.parent_cancelled ≡ false
        → is_failing g ≡ false
        → IsUp g
    in_use g h st pa fa =
        let runs : g.loops_cancelled ≡ false = elim (Bool-cases g.loops_cancelled) [
          | inl l ↦ absurd (no_cause g (h.caused l) pa st fa)
          | inr l ↦ l
        ] in
        let is_open : g.is_open ≡ true = elim (Bool-cases g.is_open) [
          | inl o ↦ o
          | inr o ↦ ground (arith, h.core.closed o, runs)
        ] in
        let clean : is_some g.observed.failed_err ≡ false =
          elim (Bool-cases (is_some g.observed.failed_err)) [
            | inl b ↦ ground (arith, (h.core.down b).2, runs)
            | inr b ↦ b
          ] in
        (is_open, runs, clean)

    read :
        (g : Fsm)
        → IsSound g
        → (is_some g.observed.failed_err ≡ true
            → IsDown g × All (λ w. w.is_done ≡ true) g.observed.waiters)
          × (g.is_open ≡ false → g.loops_cancelled ≡ true)
          × (g.state ≡ established → g.parent_cancelled ≡ false → is_failing g ≡ false → IsUp g)
    read g h = ((λ f. (h.core.down f, (h.core.released f).0)), h.core.closed, in_use g h)
