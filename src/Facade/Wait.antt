-- ===== src/Facade/Wait.antt =====
-- bgp.go: the keys that a script waits for, and the calls that wait.
pub mod Laws
pub mod Rebuild
pub mod MupKeys
pub mod Keys
use Prim.Native.String.{◌++◌ as append}
use xk6_bgp.Base.{
  ℕ, ◌*◌, Bool, not, ◌||◌, String, Option, none, some, List, if◌then◌else◌, is, Result, ok, err,
  ◌>>=◌, ◌>>◌, guard_not,
}
use xk6_bgp.Clock.{Timestamp, no_time, from_mono_ns}
use xk6_bgp.Packet.Route.{Family, Route}
use xk6_bgp.Peer.Config.{second}
use xk6_bgp.Peer.Fsm.{Fsm}
use xk6_bgp.Peer.Send.{SendError, request_refresh}
use xk6_bgp.Observed.State.{ObservedSet}
use xk6_bgp.Observed.Events.{Event}
use xk6_bgp.Observed.Waiters.{WaitOutcome}
use xk6_bgp.Observed.PeerCalls.{RefreshError, peer_wait_for_prefixes, wait_for_route_refresh_end}
use xk6_bgp.Facade.Text.{colon, slash, cut, cut_last, parse_uint32, format_uint}
use xk6_bgp.Facade.Runtime.{
  Runtime, Imports, FacadeError, missing_argument, missing, malformed, unknown, not_an_object,
  no_discriminator, wrap32, is_positive, or_error, is_string_value, field_or, object_of, read_array,
  opt_string, opt_int64, opt_duration, require_prefix, require_addr,
}
use xk6_bgp.Facade.Descriptors.{
  mup_family_for_addr, vpn_family_for_addr, parse_evpn_route, parse_vpn_ip_route, parse_mup_route,
}
use xk6_bgp.Facade.Request.{Families, configured}

unfoldable pub id_suffix : ℕ → String
unfolding format_uint
id_suffix n = append ":" (format_uint n)

abbrev pub with_id_text : String → String → String → Result FacadeError (String × String)
with_id_text head len id_text = do
  n ← or_error (malformed "path id") (parse_uint32 id_text)
  ok (append head (append "/" len), id_suffix n)

unfoldable pub split_path_id : String → Result FacadeError (String × String)
unfolding cut cut_last
split_path_id s = elim (cut_last slash s) [
  | none ↦ ok (s, "")
  | some (head, tail) ↦ elim (cut colon tail) [
    | none ↦ ok (s, "")
    | some (len, id_text) ↦ with_id_text head len id_text
  ]
]

abbrev pub or_default : ℕ → ℕ
or_default timeout = if is_positive timeout then timeout else 30 * second

-- 0 or less stands for "since ever".
unfoldable pub mark : Timestamp → ℕ → Timestamp
unfolding from_mono_ns
mark epoch sent = if is_positive sent then from_mono_ns epoch sent else no_time

-- What waitForPrefixes takes out of its argument.
pub record WaitArgument : Type 0 where
  pub prefixes : List String
  pub timeout : ℕ
  pub only_after : Timestamp

module _ {V O : Type 0} (js : Runtime V O) {Rd Esi N : Type 0} (im : Imports Rd Esi N) where
  abbrev pub key_of : Result FacadeError (Route N) → Result FacadeError String
  key_of r = do a ← r; ok (im.nlri_string a.nlri)

  unfoldable pub evpn_descriptor_key : O → Result FacadeError String
  unfolding parse_evpn_route
  evpn_descriptor_key o = key_of (parse_evpn_route js im o)

  unfoldable pub vpn_descriptor_key : O → Result FacadeError String
  unfolding require_prefix parse_vpn_ip_route
  vpn_descriptor_key o = do
    p ← require_prefix js im o "prefix"
    key_of (parse_vpn_ip_route js im (vpn_family_for_addr p.addr) o)

  unfoldable pub address_family : O → String → Result FacadeError Family
  unfolding require_addr
  address_family o key = do a ← require_addr js im o key; ok (mup_family_for_addr a)

  -- The family that fits the address in the descriptor.
  unfoldable pub descriptor_family : O → String → Result FacadeError Family
  unfolding require_prefix address_family
  descriptor_family o type =
      if is type "isd" || is type "t1st"
      then (do p ← require_prefix js im o "prefix"; ok (mup_family_for_addr p.addr))
      else if is type "dsd"
      then address_family o "address"
      else if is type "t2st"
      then address_family o "endpoint"
      else err (unknown type)

  unfoldable pub mup_descriptor_key : O → Result FacadeError String
  unfolding opt_string descriptor_family parse_mup_route
  mup_descriptor_key o = do
    guard_not (is (opt_string js o "type") "") (missing "type")
    fam ← descriptor_family o (opt_string js o "type")
    key_of (parse_mup_route js im fam o)

  abbrev pub is_evpn_type : String → Bool
  is_evpn_type s = is s "mac-ip" || is s "imet" || is s "ip-prefix"

  unfoldable pub descriptor_key : O → Result FacadeError String
  unfolding opt_string evpn_descriptor_key mup_descriptor_key vpn_descriptor_key
  descriptor_key o =
      if not (js.is_nullish (js.get o "type"))
      then if is_evpn_type (opt_string js o "type")
        then evpn_descriptor_key o
        else mup_descriptor_key o
      else if not (js.is_nullish (js.get o "rd"))
      then vpn_descriptor_key o
      else err no_discriminator

  unfoldable pub text_key : String → Result FacadeError String
  unfolding split_path_id
  text_key s = do
    parts ← split_path_id s
    p ← or_error (malformed "prefixes") (im.parse_prefix parts.0)
    ok (append (im.prefix_string p) parts.1)

  unfoldable pub object_key : V → Result FacadeError String
  unfolding descriptor_key id_suffix
  object_key v = do
    o ← object_of js not_an_object v
    key ← descriptor_key o
    ok (field_or js o "pathId" key (λ i. append key (id_suffix (wrap32 (js.to_integer i)))))

  unfoldable pub prefix_key : V → Result FacadeError String
  unfolding text_key object_key
  prefix_key v = if is_string_value js v then text_key (js.to_string v) else object_key v

  unfoldable pub parse_prefix_list : O → Result FacadeError (List String)
  unfolding read_array prefix_key
  parse_prefix_list o = do
    guard_not (js.is_nullish (js.get o "prefixes")) (missing "prefixes")
    read_array js prefix_key (js.get o "prefixes")

  unfoldable pub wait_argument : Timestamp → V → Result FacadeError WaitArgument
  unfolding parse_prefix_list opt_duration opt_int64 mark
  wait_argument epoch v = do
    guard_not (js.is_nullish v) missing_argument
    o ← object_of js not_an_object v
    keys ← parse_prefix_list o
    timeout ← opt_duration js im o "timeout"
    ok (record {
      prefixes = keys;
      timeout = or_default timeout;
      only_after = mark epoch (opt_int64 js o "sentAtMonoNs");
    })

  -- `es` is what happens until the timeout or the release, whichever comes first.
  unfoldable pub script_wait_for_prefixes :
      Timestamp
      → V
      → List Event
      → Option ObservedSet
      → Result FacadeError (WaitOutcome × Option ObservedSet)
  unfolding wait_argument
  script_wait_for_prefixes epoch v es o = do
    a ← wait_argument epoch v
    ok (peer_wait_for_prefixes a.prefixes a.only_after es o)

  unfoldable pub refresh_family_arg : Families → V → Result FacadeError Family
  unfolding opt_string
  refresh_family_arg fams v = do
    guard_not (js.is_nullish v) missing_argument
    o ← object_of js not_an_object v
    guard_not (is (opt_string js o "family") "") (missing "family")
    configured fams (opt_string js o "family")

  -- With the family that the message asks for.
  unfoldable pub script_route_refresh :
      Families
      → V
      → Fsm
      → (Family → Bool)
      → Timestamp
      → Bool
      → Result FacadeError (Family × Result SendError Timestamp)
  unfolding refresh_family_arg request_refresh
  script_route_refresh fams v f is_serialized at is_written = do
    fam ← refresh_family_arg fams v
    ok (fam, request_refresh f (is_serialized fam) at is_written)

  unfoldable pub script_wait_for_route_refresh_end :
      Timestamp
      → Families
      → V
      → Bool
      → Bool
      → List Event
      → ObservedSet
      → Result FacadeError (Result RefreshError Timestamp × ObservedSet)
  unfolding refresh_family_arg opt_duration opt_int64 mark
  script_wait_for_route_refresh_end epoch fams v up enhanced es s = do
    fam ← refresh_family_arg fams v
    o ← object_of js not_an_object v
    _ ← opt_duration js im o "timeout"
    ok (
        wait_for_route_refresh_end up enhanced fam (mark epoch (opt_int64 js o "sentAtMonoNs")) es
          s)
