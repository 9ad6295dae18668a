-- ===== src/Fakebgpd/Connection.antt =====
-- cmd/fakebgpd/main.go: parseFamilies and handleConn, from the accepted connection to the octets of
-- its messages. `parse` is gobgp's parser, by the families that carry Path Identifiers. The ticks
-- of its KEEPALIVEs are left out.
pub mod Enhanced
pub mod Decoding
pub mod Exchange
pub mod Serving
use Prim.Native.Char.{Char, code}
use Prim.Native.String.{[] as empty, ◌∷◌ as cons}
use xk6_bgp.Base.{
  ℕ, zero, suc, ◌*◌, ◌/◌, ◌%◌, ◌^◌, min, String, is, Bool, true, false, Option, none, some, List,
  [], ◌∷◌, length, if◌then◌else◌, ◌==◌, Map, insert, nat_eq, Result, ok, err, ◌>>=◌, ◌>>◌,
  guard_not, map_err,
}
use xk6_bgp.Packet.Addr.{Addr}
use xk6_bgp.Packet.Route.{Family}
use xk6_bgp.Packet.Caps.{CapsConfig, enhanced_route_refresh_code, resolve_family}
use xk6_bgp.Peer.Config.{OpenMessage, NewOpen, OpenError, second, build_open}
use xk6_bgp.Peer.Frame.{FrameError, read_message}
use xk6_bgp.Peer.Fsm.{Body, bgp_open, keepalive, notification, update, route_refresh}
use xk6_bgp.Fakebgpd.{Raw, HubEvent, joins, leaves, has_cap, add_path_receive_modes}

pub data FamiliesError : Type 0 where
  no_family : FamiliesError
  unknown_family : String → FamiliesError

abbrev in_front : Char → List String → List String
in_front c [] = cons c empty ∷ []
in_front c (s ∷ ss) = cons c s ∷ ss

-- strings.Split at a comma.
unfoldable pub split_commas : String → List String
split_commas empty = empty ∷ []
split_commas (cons c s) =
    let rest = split_commas s in if code c == 44 then empty ∷ rest else in_front c rest

abbrev resolved : String → Option Family → Result FamiliesError Family
resolved s none = err (unknown_family s)
resolved s (some f) = ok f

abbrev pub at_least_one : List Family → Result FamiliesError (List Family)
at_least_one [] = err no_family
at_least_one (f ∷ fs) = ok (f ∷ fs)

module _ (to_lower trim_space : String → String) (values : String → Option Family) where
  unfoldable pub resolve_parts : List String → Result FamiliesError (List Family)
  unfolding resolve_family
  resolve_parts [] = ok []
  resolve_parts (p ∷ ps) =
      let rest = resolve_parts ps in
      let s = trim_space p in
      if is s ""
      then rest
      else do f ← resolved s (resolve_family to_lower trim_space values s); fs ← rest; ok (f ∷ fs)

  unfoldable pub parse_families : String → Result FamiliesError (List Family)
  unfolding split_commas resolve_parts
  parse_families s = do fs ← resolve_parts (split_commas s); at_least_one fs

-- The flags of the command that a connection depends on.
pub record Flags : Type 0 where
  pub my_as : ℕ
  pub router_id : Addr
  pub families : List Family
  pub add_path : Bool

abbrev pub hold_time : ℕ
hold_time = 90 * second

-- caps.AddPath[f] = BGP_ADD_PATH_BOTH for each family.
unfoldable pub both_ways : List Family → Map Family ℕ → Map Family ℕ
both_ways [] ms = ms
both_ways (f ∷ fs) ms = both_ways fs (insert f 3 ms)

unfoldable pub own_caps : Flags → CapsConfig
unfolding both_ways
own_caps fl = record {
  families = fl.families;
  four_octet_as = fl.my_as;
  route_refresh = true;
  extended_message = true;
  graceful_restart = none;
  enhanced_refresh = true;
  add_path = if fl.add_path then both_ways fl.families [] else [];
}

pub data ConnError : Type 0 where
  expected_open : Body → ConnError
  open_not_built : OpenError → ConnError

-- What handleConn has when its OPEN is built; `modes` is the map of rxOpts.
pub record Greeting : Type 0 where
  pub negotiated_hold : ℕ
  pub enhanced : Bool
  pub modes : Map Family ℕ
  pub answer : OpenMessage

abbrev the_open : Body → Result ConnError OpenMessage
the_open (bgp_open m) = ok m
the_open b = err (expected_open b)

unfoldable pub greet : NewOpen → Flags → Body → Result ConnError Greeting
unfolding own_caps has_cap add_path_receive_modes
greet new_open fl first = do
  m ← the_open first
  o ← map_err open_not_built (build_open new_open fl.my_as hold_time fl.router_id (own_caps fl))
  ok (record {
    negotiated_hold = min (hold_time / second % 2 ^ 16) m.hold_time * second;
    enhanced = has_cap m.opt_params enhanced_route_refresh_code;
    modes = if fl.add_path then add_path_receive_modes m.opt_params [] else [];
    answer = o;
  })

-- What a handler does that others can see.
pub data Action : Type 0 where
  sends_open : OpenMessage → Action
  sends_keepalive : Action
  on_hub : HubEvent → Action
  -- a message of the session: what on_body makes of it, with this flag for demarcations
  handles : ℕ → Bool → Raw → Body → Action

abbrev pub goes_on : Body → Bool
goes_on (notification c b) = false
goes_on b = true

module _ (parse : Map Family ℕ → List ℕ → Option Body) where
  -- The loop, until a message cannot be read or a NOTIFICATION comes; a read takes at least the
  -- header, so the octets of the stream are fuel enough. At its end the handler leaves the hub.
  unfoldable pub serve : ℕ → Greeting → ℕ → List ℕ → List Action
  serve s g zero stream = on_hub (leaves s) ∷ []
  serve s g (suc fuel) stream = elim (read_message (parse g.modes) stream) [
    | err e ↦ on_hub (leaves s) ∷ []
    | ok (raw, m, rest) ↦
        handles s g.enhanced raw m
        ∷ elim (goes_on m) [ true ↦ serve s g fuel rest | false ↦ on_hub (leaves s) ∷ [] ]
  ]

  abbrev served : ℕ → List ℕ → Bool → Greeting → List Action
  served s stream false g = on_hub (leaves s) ∷ []
  served s stream true g = sends_keepalive ∷ serve s g (length stream) stream

  abbrev joined : ℕ → List ℕ → Bool → Bool → Greeting → List Action
  joined s stream false ka_goes g = []
  joined s stream true ka_goes g =
      sends_open g.answer ∷ on_hub (joins s) ∷ served s stream ka_goes g

  abbrev greeted : ℕ → List ℕ → Bool → Bool → Result ConnError Greeting → List Action
  greeted s rest open_goes ka_goes (err e) = []
  greeted s rest open_goes ka_goes (ok g) = joined s rest open_goes ka_goes g

module _ (new_open : NewOpen) (parse : Map Family ℕ → List ℕ → Option Body) where
  -- The flags tell whether the writes of the OPEN and of the KEEPALIVE succeed.
  unfoldable pub handle_conn : Flags → ℕ → Bool → Bool → List ℕ → List Action
  handle_conn fl s open_goes ka_goes stream = elim (read_message (parse []) stream) [
    | err e ↦ []
    | ok (raw, m, rest) ↦ greeted parse s rest open_goes ka_goes (greet new_open fl m)
  ]
