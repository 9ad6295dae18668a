-- ===== src/Fakebgpd/Reflect.antt =====
-- cmd/fakebgpd/main.go: what the hub owes to each session, by the events alone.
use mathlib.Core.List.{append_assoc, append-nil}
use xk6_bgp.Base.{
  ℕ, Bool, true, false, not, ◌&&◌, ◌||◌, Option, none, some, List, [], ◌∷◌, ◌++◌, map, ◌≡◌, refl,
  sym, ap, ap₂, ◌∙◌, arith, if◌then◌else◌, ◌==◌, lookup, contains, nat_eq, Bool-cases, inl, inr,
  contains-insert, contains-delete,
}
use xk6_bgp.Packet.Route.{Family}
use xk6_bgp.Packet.Chunk.Partition.{concat}
use xk6_bgp.Fakebgpd.{
  Raw, Out, verbatim, begins, ends, Write, Hub, new_hub, add, remove, record_update, broadcasts,
  broadcast, others, replay_outs, replay, take_write, written, HubEvent, joins, leaves, records,
  gathers, asks, writes, hub_step, hub_run,
}
use xk6_bgp.Fakebgpd.Streams.{
  stream, stream-append, stream-broadcasts, stream-replay, stream-take_write, IsDistinctSet,
  insert-IsDistinctSet, delete-IsDistinctSet,
}

-- What the events so far say: who is connected, and which UPDATEs came from whom.
pub record Book : Type 0 where
  pub is_connected : ℕ → Bool
  pub log : List (ℕ × Raw)

abbrev pub empty_book : Book
empty_book = record { is_connected = λ t. false; log = [] }

abbrev pub note : Book → HubEvent → Book
note b (joins s) = record b { is_connected = λ t. s == t || b.is_connected t }
note b (leaves s) = record b { is_connected = λ t. not (s == t) && b.is_connected t }
note b (records s raw) = record b { log = b.log ++ (s, raw) ∷ [] }
note b _ = b

-- The UPDATEs that did not come from `s`.
abbrev pub from_others : ℕ → List (ℕ × Raw) → List Raw
from_others s us = concat (map (λ u. if u.0 == s then [] else u.1 ∷ []) us)

abbrev pub bracketed : Family → Bool → List Out → List Out
bracketed fam true xs = begins fam ∷ (xs ++ ends fam ∷ [])
bracketed fam false xs = xs

-- What an event makes the handler of `s` owe to `t`.
abbrev pub owed : ℕ → ℕ → Book → HubEvent → List Out
owed s t b (gathers o raw) =
    if o == s && (b.is_connected t && not (t == s)) then verbatim raw ∷ [] else []
owed s t b (asks o fam enhanced) =
    if o == s && s == t then bracketed fam enhanced (map verbatim (from_others s b.log)) else []
owed s t b _ = []

abbrev pub owed_all : ℕ → ℕ → Book → List HubEvent → List Out
owed_all s t b [] = []
owed_all s t b (e ∷ es) = owed s t b e ++ owed_all s t (note b e) es

-- The hub has what the book says.
record Agrees (h : Hub) (b : Book) : Type 0 where
  pub distinct : IsDistinctSet h.clients
  pub clients : (t : ℕ) → contains t h.clients ≡ b.is_connected t
  pub updates : h.updates ≡ b.log

others-from_others : (s : ℕ) (us : List (ℕ × Raw)) → others s us ≡ from_others s us
unfolding others
others-from_others s [] = refl
others-from_others s ((t, raw) ∷ us) = ground (arith, others-from_others s us)

replay_outs-bracketed :
    (s fam : ℕ) (enhanced : Bool) (us : List (ℕ × Raw))
    → replay_outs s fam enhanced us ≡ bracketed fam enhanced (map verbatim (from_others s us))
unfolding replay_outs
replay_outs-bracketed s fam true us =
    ap (λ rs. begins fam ∷ (map verbatim rs ++ ends fam ∷ [])) (others-from_others s us)
replay_outs-bracketed s fam false us =
    append-nil (map verbatim (others s us)) ∙ ap (map verbatim) (others-from_others s us)

written-Agrees :
    (r : Option (Write × List Write)) (h : Hub) (b : Book) → Agrees h b → Agrees (written r h) b
unfolding written
written-Agrees none h b a = a
written-Agrees (some (w, ws)) h b a = record {
  distinct = a.distinct;
  clients = a.clients;
  updates = a.updates;
}

step-Agrees : (h : Hub) (b : Book) (e : HubEvent) → Agrees h b → Agrees (hub_step h e) (note b e)
unfolding hub_step add remove record_update broadcast replay
step-Agrees h b (joins s) a = record {
  distinct = insert-IsDistinctSet s h.clients a.distinct;
  clients = λ t. ground (arith, contains-insert s t tt h.clients, a.clients t);
  updates = a.updates;
}
step-Agrees h b (leaves s) a = record {
  distinct = delete-IsDistinctSet s h.clients a.distinct;
  clients = λ t. ground (arith, contains-delete s t h.clients, a.clients t);
  updates = a.updates;
}
step-Agrees h b (records s raw) a = record {
  distinct = a.distinct;
  clients = a.clients;
  updates = ap (λ us. us ++ (s, raw) ∷ []) a.updates;
}
step-Agrees h b (gathers s raw) a = record {
  distinct = a.distinct;
  clients = a.clients;
  updates = a.updates;
}
step-Agrees h b (asks s fam enhanced) a = record {
  distinct = a.distinct;
  clients = a.clients;
  updates = a.updates;
}
step-Agrees h b (writes s) a = written-Agrees (take_write s h.pending) h b a

-- Sent, or still to be sent.
abbrev pub all_writes : ℕ → ℕ → Hub → List Out
all_writes s t h = stream s t h.sent ++ stream s t h.pending

written-all_writes :
    (s t o : ℕ) (h : Hub) (r : Option (Write × List Write))
    → take_write o h.pending ≡ r
    → all_writes s t (written r h) ≡ all_writes s t h
unfolding written
written-all_writes s t o h none q = refl
written-all_writes s t o h (some (w, ws)) q =
    ap (λ xs. xs ++ stream s t ws) (stream-append s t h.sent (w ∷ []))
    ∙ append_assoc (stream s t h.sent) (stream s t (w ∷ [])) (stream s t ws)
    ∙ ap (λ xs. stream s t h.sent ++ xs) (sym ((stream-take_write o h.pending ws w q).1 s t))

-- New writes stand behind those that are pending.
queued :
    (s t : ℕ) (h : Hub) (new : List Out) (ps : List Write)
    → stream s t ps ≡ stream s t h.pending ++ new
    → stream s t h.sent ++ stream s t ps ≡ all_writes s t h ++ new
queued s t h new ps e =
    ap (λ xs. stream s t h.sent ++ xs) e
    ∙ sym (append_assoc (stream s t h.sent) (stream s t h.pending) new)

asked_for :
    (s t o fam : ℕ) (enhanced : Bool) (us log : List (ℕ × Raw))
    → us ≡ log
    → (if o == s && s == t then replay_outs o fam enhanced us else [])
      ≡ (if o == s && s == t then bracketed fam enhanced (map verbatim (from_others s log)) else [])
asked_for s t o fam enhanced us log e = elim (Bool-cases (o == s)) [
  | inl own ↦
      let same : o ≡ s = ground arith in
      ap₂ (λ q vs. if o == s && s == t then replay_outs q fam enhanced vs else []) same e
      ∙ ap (λ xs. if o == s && s == t then xs else []) (replay_outs-bracketed s fam enhanced log)
  | inr other ↦ rw other refl
]

step-owed :
    (s t : ℕ) (h : Hub) (b : Book) (e : HubEvent)
    → Agrees h b
    → all_writes s t (hub_step h e) ≡ all_writes s t h ++ owed s t b e
unfolding hub_step add remove record_update broadcast
step-owed s t h b (joins o) a = sym (append-nil _)
step-owed s t h b (leaves o) a = sym (append-nil _)
step-owed s t h b (records o raw) a = sym (append-nil _)
step-owed s t h b (gathers o raw) a =
    queued s t h (owed s t b (gathers o raw)) (h.pending ++ broadcasts o raw h.clients) (
      stream-append s t h.pending (broadcasts o raw h.clients)
      ∙ ap (λ xs. stream s t h.pending ++ xs)
          (stream-broadcasts s t o raw h.clients a.distinct
            ∙ ap (λ c. if o == s && (c && not (t == s)) then verbatim raw ∷ [] else [])
                (a.clients t)))
step-owed s t h b (asks o fam enhanced) a =
    queued s t h (owed s t b (asks o fam enhanced)) (replay o fam enhanced h).pending (
      stream-replay s t o fam enhanced h
      ∙ ap (λ xs. stream s t h.pending ++ xs)
          (asked_for s t o fam enhanced h.updates b.log a.updates))
step-owed s t h b (writes o) a =
    written-all_writes s t o h (take_write o h.pending) refl ∙ sym (append-nil _)

run-owed :
    (s t : ℕ) (h : Hub) (b : Book) (es : List HubEvent)
    → Agrees h b
    → all_writes s t (hub_run h es) ≡ all_writes s t h ++ owed_all s t b es
unfolding hub_run
run-owed s t h b [] a = sym (append-nil _)
run-owed s t h b (e ∷ es) a =
    run-owed s t (hub_step h e) (note b e) es (step-Agrees h b e a)
    ∙ ap (λ xs. xs ++ owed_all s t (note b e) es) (step-owed s t h b e a)
    ∙ append_assoc (all_writes s t h) (owed s t b e) (owed_all s t (note b e) es)

new_hub-Agrees : Agrees new_hub empty_book
unfolding new_hub contains lookup
new_hub-Agrees = record { distinct = tt; clients = λ t. refl; updates = refl }

-- Over any run of the hub's critical sections and of single writes, what the handler of a session
-- has written to a session, followed by what it still has to write to it, is exactly what the events
-- make it owe, in their order: each UPDATE that it passes on while the other session is connected,
-- never to itself, and after each ROUTE-REFRESH that it answers to its own session, all UPDATEs
-- recorded before from the others, in the order in which they were recorded, between the two
-- demarcations if the session knows of them.
pub stream-hub_run :
    (s t : ℕ) (es : List HubEvent)
    → all_writes s t (hub_run new_hub es) ≡ owed_all s t empty_book es
unfolding new_hub stream
stream-hub_run s t es = run-owed s t new_hub empty_book es new_hub-Agrees
