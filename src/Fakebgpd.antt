-- ===== src/Fakebgpd.antt =====
-- cmd/fakebgpd/main.go: the test speaker. Its hub passes UPDATEs between sessions and answers a
-- ROUTE-REFRESH from its cache. A session's number stands for its pointer.
pub mod Streams
pub mod Reflect
pub mod Connection
mod Samples
mod Greetings
use xk6_bgp.Base.{
  ℕ, ◌+◌, ◌*◌, ◌/◌, ◌%◌, ◌^◌, min, bit_or, Bool, true, false, not, ◌&&◌, ◌||◌, Option, none, some,
  List, [], ◌∷◌, ◌++◌, map, if◌then◌else◌, ◌==◌, Map, Set, lookup, insert, delete, contains, nat_eq,
  Result, ok, err,
}
use xk6_bgp.Base.Bits.{bit1}
use xk6_bgp.Packet.Addr.{Addr}
use xk6_bgp.Packet.Route.{Family}
use xk6_bgp.Packet.Caps.{Capability, CapsConfig, code, enhanced_route_refresh_code}
use xk6_bgp.Observed.Refresh.{route_refresh_normal}
use xk6_bgp.Peer.Config.{
  OpenMessage, OptionParameter, capability_parameter, other_parameter, NewOpen, OpenError, second,
  build_open,
}
use xk6_bgp.Peer.Negotiate.{mode_of}
use xk6_bgp.Peer.Fsm.{Body, bgp_open, keepalive, notification, update, route_refresh}

abbrev pub Raw : Type 0
Raw = List ℕ

-- What a session is sent: an UPDATE as it was received, or a demarcation.
pub data Out : Type 0 where
  verbatim : Raw → Out
  begins ends : Family → Out

-- One write: the session whose handler makes it, the session that it goes to, and what it writes.
abbrev pub Write : Type 0
Write = ℕ × (ℕ × Out)

-- Behind the fields of hub, `pending` has the writes that the handlers still have to make, for the
-- mutex is not held while they write, and `sent` the writes made.
pub record Hub : Type 0 where
  pub clients : Set ℕ
  pub updates : List (ℕ × Raw)
  pub pending : List Write
  pub sent : List Write

unfoldable pub new_hub : Hub
new_hub = record { clients = []; updates = []; pending = []; sent = [] }

unfoldable pub add : ℕ → Hub → Hub
add s h = record h { clients = insert s tt h.clients }

unfoldable pub remove : ℕ → Hub → Hub
remove s h = record h { clients = delete s h.clients }

unfoldable pub record_update : ℕ → Raw → Hub → Hub
record_update s raw h = record h { updates = h.updates ++ (s, raw) ∷ [] }

-- What `s` did not originate.
unfoldable pub others : ℕ → List (ℕ × Raw) → List Raw
others s [] = []
others s ((t, raw) ∷ us) = let rest = others s us in if t == s then rest else raw ∷ rest

abbrev pub when : Bool → Out → List Out
when b x = if b then x ∷ [] else []

unfoldable pub replay_outs : ℕ → Family → Bool → List (ℕ × Raw) → List Out
replay_outs s fam enhanced us =
    when enhanced (begins fam) ++ (map verbatim (others s us) ++ when enhanced (ends fam))

unfoldable pub replay : ℕ → Family → Bool → Hub → Hub
unfolding replay_outs
replay s fam enhanced h = record h {
  pending = h.pending ++ map (λ x. (s, (s, x))) (replay_outs s fam enhanced h.updates);
}

-- Go visits the clients in any order; each of them gets its own write.
unfoldable pub broadcasts : ℕ → Raw → Set ℕ → List Write
broadcasts from raw [] = []
broadcasts from raw ((t, _) ∷ cs) =
    let rest = broadcasts from raw cs in
    if t == from then rest else (from, (t, verbatim raw)) ∷ rest

unfoldable pub broadcast : ℕ → Raw → Hub → Hub
unfolding broadcasts
broadcast from raw h = record h { pending = h.pending ++ broadcasts from raw h.clients }

unfoldable pub caps_have : ℕ → List Capability → Bool
caps_have k [] = false
caps_have k (c ∷ cs) = if code c == k then true else caps_have k cs

unfoldable pub has_cap : List OptionParameter → ℕ → Bool
unfolding caps_have
has_cap [] k = false
has_cap (other_parameter ∷ ps) k = has_cap ps k
has_cap (capability_parameter cs ∷ ps) k = if caps_have k cs then true else has_cap ps k

unfoldable pub receive_tuples : List (Family × ℕ) → Map Family ℕ → Map Family ℕ
receive_tuples [] ms = ms
receive_tuples ((f, m) ∷ ts) ms =
    if not (bit1 m)
    then receive_tuples ts ms
    else receive_tuples ts (insert f (bit_or (mode_of f ms) 1) ms)

abbrev pub receive_cap : Capability → Map Family ℕ → Map Family ℕ
receive_cap (Capability.add_path ts) ms = receive_tuples ts ms
receive_cap _ ms = ms

unfoldable pub receive_caps : List Capability → Map Family ℕ → Map Family ℕ
receive_caps [] ms = ms
receive_caps (c ∷ cs) ms = receive_caps cs (receive_cap c ms)

unfoldable pub add_path_receive_modes : List OptionParameter → Map Family ℕ → Map Family ℕ
unfolding receive_caps
add_path_receive_modes [] ms = ms
add_path_receive_modes (other_parameter ∷ ps) ms = add_path_receive_modes ps ms
add_path_receive_modes (capability_parameter cs ∷ ps) ms =
    add_path_receive_modes ps (receive_caps cs ms)

-- What the handlers of the sessions do to the hub, one critical section or one write at a time.
pub data HubEvent : Type 0 where
  joins leaves : ℕ → HubEvent
  records gathers : ℕ → Raw → HubEvent
  asks : ℕ → Family → Bool → HubEvent
  -- the next write that this session's handler has to make
  writes : ℕ → HubEvent

-- One message in the loop of handleConn: the critical sections that its handler enters. It makes
-- the writes that they leave it before it reads the next message.
unfoldable pub on_body : Bool → Bool → ℕ → Raw → Body → List HubEvent
on_body reflect enhanced s raw (update u) =
    records s raw ∷ (if reflect then gathers s raw ∷ [] else [])
on_body reflect enhanced s raw (route_refresh fam d) =
    if d == route_refresh_normal then asks s fam enhanced ∷ [] else []
on_body reflect enhanced s raw keepalive = []
on_body reflect enhanced s raw (notification c b) = []
on_body reflect enhanced s raw (bgp_open m) = []

abbrev pub put_back : Write → Option (Write × List Write) → Option (Write × List Write)
put_back w none = none
put_back w (some (x, ws)) = some (x, w ∷ ws)

-- The first write of a handler, and the rest.
unfoldable pub take_write : ℕ → List Write → Option (Write × List Write)
take_write s [] = none
take_write s ((o, x) ∷ ws) =
    let rest = take_write s ws in if o == s then some ((o, x), ws) else put_back (o, x) rest

unfoldable pub written : Option (Write × List Write) → Hub → Hub
written none h = h
written (some (w, ws)) h = record h { pending = ws; sent = h.sent ++ w ∷ [] }

unfoldable pub hub_step : Hub → HubEvent → Hub
unfolding add remove record_update broadcast replay take_write written
hub_step h (joins s) = add s h
hub_step h (leaves s) = remove s h
hub_step h (records s raw) = record_update s raw h
hub_step h (gathers s raw) = broadcast s raw h
hub_step h (asks s fam enhanced) = replay s fam enhanced h
hub_step h (writes s) = written (take_write s h.pending) h

unfoldable pub hub_run : Hub → List HubEvent → Hub
hub_run h [] = h
hub_run h (e ∷ es) = hub_run (hub_step h e) es
