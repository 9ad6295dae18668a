-- ===== src/Facade/Scripts.antt =====
-- bgp.go, for its tests: script values of a small kind of their own, and parsers that know a
-- handful of texts.
use xk6_bgp.Base.{
  ℕ, zero, suc, ◌*◌, ◌^◌, Bool, true, false, String, Option, none, some, List, [], ◌∷◌,
  if◌then◌else◌, is,
}
use xk6_bgp.Packet.Addr.{Addr, v4, v6, Prefix}
use xk6_bgp.Packet.Route.{rf_ipv4_uc}
use xk6_bgp.Facade.Runtime.{
  Exported, exported_string, exported_int, exported_bool, exported_array, exported_other, Runtime,
  Imports,
}

mutual
  pub data Js : Type 0 where
    undefined : Js
    text : String → Js
    number : ℕ → Js
    flag : Bool → Js
    object array : Fields → Js

  pub data Fields : Type 0 where
    end : Fields
    field : String → Js → Fields → Fields

abbrev pub is_undefined : Js → Bool
is_undefined undefined = true
is_undefined _ = false

unfoldable pub field_of : String → Fields → Js
field_of k end = undefined
field_of k (field j v fs) = let rest = field_of k fs in if is j k then v else rest

unfoldable pub count : Fields → ℕ
count end = 0
count (field k v fs) = suc (count fs)

unfoldable pub nth : ℕ → Fields → Js
nth n end = undefined
nth zero (field k v fs) = v
nth (suc n) (field k v fs) = nth n fs

unfoldable pub values : Fields → List Js
values end = []
values (field k v fs) = v ∷ values fs

unfoldable pub names : Fields → List String
names end = []
names (field k v fs) = k ∷ names fs

abbrev pub text_or : Js → String
text_or (text s) = s
text_or _ = ""

abbrev pub number_or : Js → ℕ
number_or (number n) = n
number_or _ = 0

abbrev pub flag_or : Js → Bool
flag_or (flag b) = b
flag_or _ = false

unfoldable pub exported : Js → Exported Js
unfolding values
exported (text s) = exported_string s
exported (number n) = exported_int n
exported (flag b) = exported_bool b
exported (array fs) = exported_array (values fs)
exported _ = exported_other

unfoldable pub got : Js → String → Js
unfolding field_of count
got (object fs) k = field_of k fs
got (array fs) k = if is k "length" then number (count fs) else undefined
got _ k = undefined

unfoldable pub at : Js → ℕ → Js
unfolding nth
at (array fs) i = nth i fs
at _ i = undefined

unfoldable pub names_of : Js → List String
unfolding names
names_of (object fs) = names fs
names_of _ = []

unfoldable pub js : Runtime Js Js
unfolding exported got at names_of
js = record {
  is_nullish = is_undefined;
  to_object = λ v. some v;
  to_string = text_or;
  to_integer = number_or;
  to_boolean = flag_or;
  to_float = number_or;
  export = exported;
  get = got;
  item = at;
  keys = names_of;
}

abbrev pub net : Prefix
net = record { addr = v4 167772160; bits = 24 }

abbrev pub known_addr : String → Option Addr
known_addr s =
    if is s "10.0.0.1"
    then some (v4 167772161)
    else if is s "2001::"
    then some (v6 (8193 * 2 ^ 112))
    else none

abbrev pub known_prefix : String → Option Prefix
known_prefix s = if is s "10.0.0.0/24" then some net else none

-- An NLRI is its text.
abbrev pub im : Imports ℕ ℕ String
im = record {
  parse_addr = known_addr;
  parse_prefix = known_prefix;
  prefix_string = λ p. "10.0.0.0/24";
  parse_mac = λ s. none;
  to_lower = λ s. s;
  to_upper = λ s. s;
  trim_space = λ s. s;
  split_fields = λ s. s ∷ [];
  parse_extended_duration = λ s. some 5;
  float_to_uint32 = λ n. n;
  float_seconds = λ n. n;
  family_value =
      λ s. if is s "ipv4-unicast" then some rf_ipv4_uc else if is s "mup" then some 65621 else none;
  read_rd = λ s. some 7;
  read_esi = λ s. none;
  arbitrary_esi = 0;
  parse_extended_community = λ k s. some 3;
  routers_mac = λ m. 0;
  ip_nlri = λ p. some "10.0.0.0/24";
  vpn_nlri = λ rd p. some ("7:10.0.0.0/24", 12);
  mup_isd = λ rd p. ("isd", 16);
  mup_dsd = λ rd a. ("dsd", 16);
  mup_t1st = λ rd p t q e s. ("t1st", 30);
  mup_t2st = λ rd e n t. ("t2st", 30);
  evpn_mac_ip = λ rd esi tag mac n a ls. ("mac-ip", 33);
  evpn_imet = λ rd tag a. some ("imet", 17);
  evpn_prefix = λ rd esi tag n a g l. some ("ip-prefix", 34);
  nlri_string = λ s. s;
}

abbrev pub evpn_parts : ℕ → Addr → Addr → Option (String × ℕ)
evpn_parts n a g = some ("ip-prefix", 34)

abbrev pub list : Js → Js
list v = array (field "0" v end)

abbrev pub advertised : Js
advertised = object (
    field "family" (text "ipv4-unicast") (
      field "nextHop" (text "10.0.0.1") (
        field "origin" (number 2)
          (field "localAs" (number 65001) (field "routes" (list (text "10.0.0.0/24")) end)))))

abbrev pub descriptor : Js
descriptor = object (
    field "type" (text "isd") (
      field "rd" (text "65000:1")
        (field "prefix" (text "10.0.0.0/24") (field "pathId" (number 3) end))))

abbrev pub configured_peer : Js
configured_peer = object (
    field "localAs" (number 65001) (
      field "peerAs" (number 65002) (
        field "target" (text "10.0.0.1:179") (
          field "routerId" (text "10.0.0.1") (field "families" (list (text "ipv4-unicast")) end)))))
