-- ===== src/Facade/Runtime.antt =====
-- bgp.go: script values as sobek hands them out, and the readers of single fields.
-- An int64 and a float64 are their 64 bits.
pub mod Laws
use xk6_bgp.Base.{
  ℕ, zero, suc, ◌+◌, ◌*◌, ◌%◌, ◌^◌, Bool, true, false, not, ◌&&◌, String, Option, none, some, List,
  [], ◌∷◌, if◌then◌else◌, ltb, ◌==◌, is, Result, ok, err, ◌>>=◌, ◌>>◌, guard_not, map_err,
}
use xk6_bgp.Packet.Addr.{Addr, Prefix}
use xk6_bgp.Packet.Route.{Family}
use xk6_bgp.Packet.Types.{RouteError}
use xk6_bgp.Peer.Config.{ConfigError}

-- What Export answers; the elements of an array are values again.
pub data Exported (V : Type 0) : Type 0 where
  exported_string : String → Exported V
  exported_int exported_float : ℕ → Exported V
  exported_bool : Bool → Exported V
  exported_array : List V → Exported V
  exported_other : Exported V

-- sobek: values `V`, with nil and undefined among them, and objects `O`.
pub record Runtime (V O : Type 0) : Type 0 where
  pub is_nullish : V → Bool
  pub to_object : V → Option O
  pub to_string : V → String
  pub to_integer : V → ℕ
  pub to_boolean : V → Bool
  pub to_float : V → ℕ
  pub export : V → Exported V
  pub get : O → String → V
  -- Get(strconv.Itoa(i))
  pub item : O → ℕ → V
  pub keys : O → List String

-- net/netip, net and strings, gobgp's parsers and constructors, and k6's durations. A parser
-- answers with nothing where the original returns an error.
pub record Imports (Rd Esi N : Type 0) : Type 0 where
  pub parse_addr : String → Option Addr
  pub parse_prefix : String → Option Prefix
  pub prefix_string : Prefix → String
  pub parse_mac : String → Option (List ℕ)
  pub to_lower : String → String
  pub to_upper : String → String
  pub trim_space : String → String
  pub split_fields : String → List String
  pub parse_extended_duration : String → Option ℕ
  -- the conversions of a float64 to a uint32 and, as seconds, to a time.Duration
  pub float_to_uint32 : ℕ → ℕ
  pub float_seconds : ℕ → ℕ
  pub family_value : String → Option Family
  pub read_rd : String → Option Rd
  pub read_esi : List String → Option Esi
  -- the ESI of type 0 with nine octets of zero
  pub arbitrary_esi : Esi
  pub parse_extended_community : ℕ → String → Option ℕ
  pub routers_mac : List ℕ → ℕ
  pub ip_nlri : Prefix → Option N
  pub vpn_nlri : Rd → Prefix → Option (N × ℕ)
  pub mup_isd : Rd → Prefix → N × ℕ
  pub mup_dsd : Rd → Addr → N × ℕ
  pub mup_t1st : Rd → Prefix → Addr → ℕ → Addr → Option Addr → N × ℕ
  pub mup_t2st : Rd → Addr → ℕ → Addr → N × ℕ
  pub evpn_mac_ip : Rd → Esi → ℕ → List ℕ → ℕ → Addr → List ℕ → N × ℕ
  pub evpn_imet : Rd → ℕ → Addr → Option (N × ℕ)
  pub evpn_prefix : Rd → Esi → ℕ → ℕ → Addr → Addr → ℕ → Option (N × ℕ)
  pub nlri_string : N → String

pub data FacadeError : Type 0 where
  missing_argument not_an_object not_an_array empty_array nullish_entry : FacadeError
  -- a field that is required, one that a parser refuses, a name that is not known
  missing malformed unknown : String → FacadeError
  family_not_configured : String → FacadeError
  origin_out_of_range : ℕ → FacadeError
  label_count : ℕ → FacadeError
  not_a_number not_a_string needs_object prefix_only transposed no_discriminator : FacadeError
  bad_route : RouteError → FacadeError
  bad_config : ConfigError → FacadeError
  at_index : ℕ → FacadeError → FacadeError
  in_field : String → FacadeError → FacadeError

abbrev pub wrap32 : ℕ → ℕ
wrap32 n = n % 2 ^ 32

abbrev pub wrap8 : ℕ → ℕ
wrap8 n = n % 2 ^ 8

-- 0 < n as an int64
abbrev pub is_positive : ℕ → Bool
is_positive n = not (n == 0) && ltb n (2 ^ 63)

abbrev pub or_error : {E A : Type 0} → E → Option A → Result E A
or_error e none = err e
or_error e (some a) = ok a

module _ {V O : Type 0} (js : Runtime V O) where
  abbrev pub is_string_value : V → Bool
  is_string_value v = elim (js.export v) [ exported_string s ↦ true | _ ↦ false ]

  unfoldable pub opt_string : O → String → String
  opt_string o key = let v = js.get o key in if js.is_nullish v then "" else js.to_string v

  unfoldable pub opt_int64 : O → String → ℕ
  opt_int64 o key = let v = js.get o key in if js.is_nullish v then 0 else js.to_integer v

  unfoldable pub opt_uint32 : O → String → ℕ
  opt_uint32 o key = let v = js.get o key in if js.is_nullish v then 0 else wrap32 (js.to_integer v)

  unfoldable pub opt_bool : O → String → Bool
  opt_bool o key = let v = js.get o key in if js.is_nullish v then false else js.to_boolean v

  -- `if v := obj.Get(key); !IsNullish(v) { x = f(v) }` around a default
  abbrev pub field_or : {A : Type 0} → O → String → A → (V → A) → A
  field_or o key d f = let v = js.get o key in if js.is_nullish v then d else f v

  abbrev pub object_of : FacadeError → V → Result FacadeError O
  object_of e v = or_error e (js.to_object v)

  -- The loop over the elements of an array from index `i` on, `n` of them to go.
  unfoldable pub read_items :
      {A : Type 0} → (V → Result FacadeError A) → O → ℕ → ℕ → Result FacadeError (List A)
  read_items f arr i zero = ok []
  read_items f arr i (suc n) = do
    guard_not (js.is_nullish (js.item arr i)) (at_index i nullish_entry)
    a ← map_err (at_index i) (f (js.item arr i))
    rest ← read_items f arr (i + 1) n
    ok (a ∷ rest)

  -- The walk over an array that the facade makes in three places, without exporting it.
  unfoldable pub read_array :
      {A : Type 0} → (V → Result FacadeError A) → V → Result FacadeError (List A)
  unfolding read_items
  read_array f v = do
    arr ← object_of not_an_array v
    guard_not (js.is_nullish (js.get arr "length")) not_an_array
    guard_not (not (is_positive (js.to_integer (js.get arr "length")))) empty_array
    read_items f arr 0 (js.to_integer (js.get arr "length"))

  module _ {Rd Esi N : Type 0} (im : Imports Rd Esi N) where
    unfoldable pub require_prefix : O → String → Result FacadeError Prefix
    require_prefix o key = do
      guard_not (js.is_nullish (js.get o key)) (missing key)
      or_error (malformed key) (im.parse_prefix (js.to_string (js.get o key)))

    unfoldable pub require_addr : O → String → Result FacadeError Addr
    require_addr o key = do
      guard_not (js.is_nullish (js.get o key)) (missing key)
      or_error (malformed key) (im.parse_addr (js.to_string (js.get o key)))

    unfoldable pub parse_rd : O → Result FacadeError Rd
    unfolding opt_string
    parse_rd o = do
      guard_not (is (opt_string o "rd") "") (missing "rd")
      or_error (malformed "rd") (im.read_rd (opt_string o "rd"))

    -- A duration is an int64 number of nanoseconds.
    unfoldable pub value_duration : V → Result FacadeError ℕ
    value_duration v = if js.is_nullish v then ok 0 else elim (js.export v) [
      | exported_string s ↦ or_error (malformed "duration") (im.parse_extended_duration s)
      | exported_int n ↦ ok (n * 10 ^ 9 % 2 ^ 64)
      | exported_float x ↦ ok (im.float_seconds x)
      | _ ↦ err (malformed "duration")
    ]

    unfoldable pub opt_duration : O → String → Result FacadeError ℕ
    unfolding value_duration
    opt_duration o key = value_duration (js.get o key)
