-- ===== src/Facade/Config.antt =====
-- bgp.go: the configuration object of a script, and the Peer that is built from it.
pub mod Laws
use xk6_bgp.Base.{
  ℕ, ◌+◌, ◌%◌, ◌^◌, Bool, true, false, not, String, Option, none, some, List, [], ◌∷◌,
  if◌then◌else◌, is, Result, ok, err, ◌>>=◌, ◌>>◌, guard_not, map_err, Map, insert, lookup,
  string_eq, nat_eq,
}
use xk6_bgp.Packet.Addr.{Addr, zero_addr}
use xk6_bgp.Packet.Route.{Family}
use xk6_bgp.Packet.Caps.{GrConfig, CapsConfig, resolve_add_path_mode, resolve_family}
use xk6_bgp.Peer.Config.{SessionTimers, Config, new}
use xk6_bgp.Facade.Runtime.{
  Exported, exported_string, exported_bool, exported_array, Runtime, Imports, FacadeError,
  missing_argument, malformed, unknown, not_an_object, not_a_string, empty_array, at_index,
  bad_config, or_error, field_or, object_of, opt_string, opt_uint32, opt_bool, opt_duration,
}
use xk6_bgp.Facade.Request.{Families}

abbrev pub default_restart : GrConfig
default_restart = record { restart_time = 120; notification = true; restarting = false }

-- What parsePeerConfig returns, with the tags of the config apart.
pub record ScriptConfig : Type 0 where
  pub config : Config
  pub families : Families
  pub tags : Map String String

-- The facade's Peer: the configuration of the one under it, the families by name, its tag.
pub record ScriptPeer : Type 0 where
  pub config : Config
  pub families : Families
  pub tag : String

module _ {V O : Type 0} (js : Runtime V O) {Rd Esi N : Type 0} (im : Imports Rd Esi N) where
  unfoldable pub named_addr : O → String → Result FacadeError Addr
  unfolding opt_string
  named_addr o key =
      let s = opt_string js o key in
      if is s "" then ok zero_addr else or_error (malformed key) (im.parse_addr s)

  unfoldable pub known_family : String → Result FacadeError Family
  unfolding resolve_family
  known_family s = or_error (unknown s) (resolve_family im.to_lower im.trim_space im.family_value s)

  abbrev pub text_of : Exported V → Result FacadeError String
  text_of (exported_string s) = ok s
  text_of _ = err not_a_string

  -- The families in their order, and the map from their names, in `fams` so far.
  unfoldable pub read_families : ℕ → Families → List V → Result FacadeError (List Family × Families)
  unfolding known_family
  read_families i fams [] = ok ([], fams)
  read_families i fams (v ∷ vs) = do
    s ← map_err (at_index i) (text_of (js.export v))
    f ← known_family s
    rest ← read_families (i + 1) (insert s f fams) vs
    ok (f ∷ rest.0, rest.1)

  unfoldable pub exported_families : Exported V → Result FacadeError (List Family × Families)
  unfolding read_families
  exported_families (exported_array vs) = read_families 0 [] vs
  exported_families _ = err not_a_string

  unfoldable pub parse_families : O → Result FacadeError (List Family × Families)
  unfolding exported_families
  parse_families o = field_or js o "families" (ok ([], [])) (λ v. exported_families (js.export v))

  unfoldable pub parse_timers : O → Result FacadeError SessionTimers
  unfolding opt_duration
  parse_timers o =
      let v = js.get o "timers" in
      if js.is_nullish v then ok (record { hold_time = 0; open_timeout = 0 }) else (do
        t ← object_of js not_an_object v
        hold ← opt_duration js im t "holdtime"
        timeout ← opt_duration js im t "openTimeout"
        ok (record { hold_time = hold; open_timeout = timeout }))

  unfoldable pub parse_graceful_restart : V → Result FacadeError (Option GrConfig)
  unfolding opt_uint32 opt_bool
  parse_graceful_restart v = elim (js.export v) [
    | exported_bool b ↦ ok (if b then some default_restart else none)
    | _ ↦ do
      o ← object_of js not_an_object v
      ok (
          some (record {
            restart_time = opt_uint32 js o "restartTime" % 2 ^ 16;
            notification = opt_bool js o "notification";
            restarting = false;
          }))
  ]

  unfoldable pub read_modes : O → List String → Map Family ℕ → Result FacadeError (Map Family ℕ)
  unfolding known_family resolve_add_path_mode
  read_modes o [] out = ok out
  read_modes o (k ∷ ks) out = do
    f ← known_family k
    m ←
        or_error (unknown k)
          (resolve_add_path_mode im.to_lower im.trim_space (js.to_string (js.get o k)))
    read_modes o ks (insert f m out)

  abbrev pub no_keys : List String → Bool
  no_keys [] = true
  no_keys (k ∷ ks) = false

  unfoldable pub parse_add_path : V → Result FacadeError (Map Family ℕ)
  unfolding read_modes
  parse_add_path v = do
    o ← object_of js not_an_object v
    guard_not (no_keys (js.keys o)) empty_array
    read_modes o (js.keys o) []

  abbrev pub default_caps : CapsConfig
  default_caps = record {
    families = [];
    four_octet_as = 0;
    route_refresh = true;
    extended_message = true;
    graceful_restart = some default_restart;
    enhanced_refresh = false;
    add_path = [];
  }

  -- A field that replaces a default if it is there.
  abbrev pub parsed_or :
      {A : Type 0} → O → String → A → (V → Result FacadeError A) → Result FacadeError A
  parsed_or o key d f = field_or js o key (ok d) f

  unfoldable pub read_caps : O → Result FacadeError CapsConfig
  unfolding parse_graceful_restart parse_add_path
  read_caps o = do
    gr ← parsed_or o "gracefulRestart" (some default_restart) parse_graceful_restart
    modes ← parsed_or o "addPath" [] parse_add_path
    ok (record {
      families = [];
      four_octet_as = 0;
      route_refresh = field_or js o "routeRefresh" true js.to_boolean;
      extended_message = field_or js o "extendedMessage" true js.to_boolean;
      graceful_restart = gr;
      enhanced_refresh = field_or js o "enhancedRouteRefresh" false js.to_boolean;
      add_path = modes;
    })

  unfoldable pub parse_caps : O → Result FacadeError CapsConfig
  unfolding read_caps
  parse_caps o =
      let v = js.get o "capabilities" in
      if js.is_nullish v
      then ok default_caps
      else (do c ← object_of js not_an_object v; read_caps c)

  unfoldable pub read_tags : O → List String → Map String String → Map String String
  read_tags o [] tags = tags
  read_tags o (k ∷ ks) tags = read_tags o ks (insert k (js.to_string (js.get o k)) tags)

  unfoldable pub parse_tags : O → Result FacadeError (Map String String)
  unfolding read_tags
  parse_tags o =
      let v = js.get o "tags" in
      if js.is_nullish v
      then ok []
      else (do t ← object_of js not_an_object v; ok (read_tags t (js.keys t) []))

  unfoldable pub parse_peer_config : O → Result FacadeError ScriptConfig
  unfolding opt_string opt_uint32 named_addr parse_families parse_timers parse_caps parse_tags
  parse_peer_config o = do
    router_id ← named_addr o "routerId"
    local_address ← named_addr o "localAddress"
    families ← parse_families o
    timers ← parse_timers o
    caps ← parse_caps o
    tags ← parse_tags o
    ok (record {
      config = record {
        local_as = opt_uint32 js o "localAs";
        peer_as = opt_uint32 js o "peerAs";
        router_id = router_id;
        has_target = not (is (opt_string js o "target") "");
        local_address = local_address;
        families = families.0;
        timers = timers;
        caps = caps;
      };
      families = families.1;
      tags = tags;
    })

  abbrev pub text_or_empty : Option String → String
  text_or_empty none = ""
  text_or_empty (some s) = s

  -- The constructor with its list of arguments.
  unfoldable pub new_peer : List V → Result FacadeError ScriptPeer
  unfolding parse_peer_config new
  new_peer [] = err missing_argument
  new_peer (v ∷ vs) = do
    o ← object_of js not_an_object v
    c ← parse_peer_config o
    cfg ← map_err bad_config (new c.config)
    ok (record { config = cfg; families = c.families; tag = text_or_empty (lookup "peer" c.tags) })
