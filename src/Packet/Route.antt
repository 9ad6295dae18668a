-- ===== src/Packet/Route.antt =====
-- internal/packet/path.go: routes and families. A family is its AFI and SAFI, packed in a number.
use xk6_bgp.Base.{ℕ, ◌+◌, ◌*◌, ◌/◌, ◌%◌, ◌^◌, Bool, Option, some, ◌==◌, ◌&&◌}

abbrev pub Family : Type 0
Family = ℕ

abbrev pub new_family : ℕ → ℕ → Family
new_family a s = a * 2 ^ 16 + s

abbrev pub afi : Family → ℕ
afi f = f / 2 ^ 16

abbrev pub safi : Family → ℕ
safi f = f % 2 ^ 16

abbrev pub afi_ip : ℕ
afi_ip = 1

abbrev pub afi_ip6 : ℕ
afi_ip6 = 2

abbrev pub safi_unicast : ℕ
safi_unicast = 1

abbrev pub safi_mpls_vpn : ℕ
safi_mpls_vpn = 128

abbrev pub safi_mup : ℕ
safi_mup = 85

abbrev pub rf_ipv4_uc : Family
rf_ipv4_uc = new_family afi_ip safi_unicast

abbrev pub is_ipv4_unicast : Family → Bool
is_ipv4_unicast f = afi f == afi_ip && safi f == safi_unicast

-- A Route with the values of its methods; a PathIDRoute has a Path Identifier. `N` is the NLRI
-- type of gobgp.
pub record Route (N : Type 0) : Type 0 where
  pub family : Family
  pub nlri : N
  pub wire_len : ℕ
  pub path_id : Option ℕ

-- WithPathID decorates any route.
unfoldable pub with_path_id : {N : Type 0} → Route N → ℕ → Route N
with_path_id r i = record r { path_id = some i }
