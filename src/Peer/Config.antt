-- ===== src/Peer/Config.antt =====
-- internal/peer/peer.go and defaults.go: Config, its checks and its defaults; message.go: BuildOpen.
-- A time.Duration is a number of nanoseconds, not negative.
use xk6_bgp.Base.{
  ℕ, ◌+◌, ◌*◌, ◌/◌, ◌%◌, ◌^◌, Bool, true, false, not, ◌&&◌, ◌||◌, Option, none, some, List, [], ◌∷◌,
  if◌then◌else◌, ltb, ◌==◌, Result, ok, err, ◌>>=◌, ◌>>◌, guard_not,
}
use xk6_bgp.Packet.Addr.{Addr, is_valid, is4}
use xk6_bgp.Packet.Route.{Family}
use xk6_bgp.Packet.Caps.{Capability, CapsConfig, CapsError, build_capabilities}
use xk6_bgp.Packet.Update.Attrs.{as_trans}

abbrev pub second : ℕ
second = 10 ^ 9

abbrev pub default_hold_time : ℕ
default_hold_time = 180 * second

abbrev pub default_open_timeout : ℕ
default_open_timeout = 30 * second

pub record SessionTimers : Type 0 where
  pub hold_time : ℕ
  pub open_timeout : ℕ

pub record Config : Type 0 where
  pub local_as : ℕ
  -- 0 accepts any
  pub peer_as : ℕ
  pub router_id : Addr
  pub has_target : Bool
  pub local_address : Addr
  pub families : List Family
  pub timers : SessionTimers
  pub caps : CapsConfig

pub data ConfigError : Type 0 where
  local_as_zero no_target router_id_not_ipv4 no_families : ConfigError
  bad_hold_time : ℕ → ConfigError
  bad_family : ℕ → ConfigError

unfoldable pub check_families : ℕ → List Family → Result ConfigError (Unit {0})
check_families i [] = ok tt
check_families i (f ∷ fs) = if f == 0 then err (bad_family i) else check_families (i + 1) fs

abbrev is_nil : List Family → Bool
is_nil [] = true
is_nil (f ∷ fs) = false

-- 0 stands for "unset".
abbrev pub bad_hold : ℕ → Bool
bad_hold hs = not (hs == 0) && (ltb hs 3 || ltb 65535 hs)

unfoldable pub validate : Config → Result ConfigError (Unit {0})
validate c = do
  guard_not (c.local_as == 0) local_as_zero
  guard_not (not c.has_target) no_target
  guard_not (not (is_valid c.router_id) || not (is4 c.router_id)) router_id_not_ipv4
  guard_not (is_nil c.families) no_families
  guard_not (bad_hold (c.timers.hold_time / second)) (bad_hold_time c.timers.hold_time)
  check_families 0 c.families

unfoldable pub default_timers : SessionTimers → SessionTimers
default_timers s = record {
  hold_time = if s.hold_time == 0 then default_hold_time else s.hold_time;
  open_timeout = if s.open_timeout == 0 then default_open_timeout else s.open_timeout;
}

unfoldable pub apply_defaults : Config → Config
unfolding default_timers
apply_defaults c = record c {
  timers = default_timers c.timers;
  caps = record (c.caps) {
    families = c.families;
    four_octet_as = if c.caps.four_octet_as == 0 then c.local_as else c.caps.four_octet_as;
  };
}

-- The `cfg` of the Peer that New returns.
unfoldable pub new : Config → Result ConfigError Config
unfolding validate apply_defaults
new c = do validate c; ok (apply_defaults c)

pub data OptionParameter : Type 0 where
  capability_parameter : List Capability → OptionParameter
  other_parameter : OptionParameter

-- gobgp's BGPOpen.
pub record OpenMessage : Type 0 where
  pub my_as : ℕ
  pub hold_time : ℕ
  pub router_id : Addr
  pub opt_params : List OptionParameter

pub data OpenError : Type 0 where
  open_router_id constructor_failed : OpenError
  bad_caps : CapsError → OpenError

abbrev pub wire_as : ℕ → ℕ
wire_as local_as = if ltb 0xffff local_as then as_trans else local_as % 2 ^ 16

abbrev pub caps_result : Result CapsError (List Capability) → Result OpenError (List Capability)
caps_result (ok cs) = ok cs
caps_result (err e) = err (bad_caps e)

-- NewBGPOpenMessage
abbrev pub NewOpen : Type 0
NewOpen = ℕ → ℕ → Addr → List OptionParameter → Option OpenMessage

abbrev pub constructed : Option OpenMessage → Result OpenError OpenMessage
constructed (some m) = ok m
constructed none = err constructor_failed

abbrev pub with_as : ℕ → CapsConfig → CapsConfig
with_as local_as caps = record caps {
  four_octet_as = if caps.four_octet_as == 0 then local_as else caps.four_octet_as;
}

unfoldable pub build_open : NewOpen → ℕ → ℕ → Addr → CapsConfig → Result OpenError OpenMessage
build_open new_open local_as hold_time router_id caps = do
  guard_not (not (is4 router_id)) open_router_id
  params ← caps_result (build_capabilities (with_as local_as caps))
  constructed (
      new_open (wire_as local_as) (hold_time / second % 2 ^ 16) router_id
        (capability_parameter params ∷ []))
