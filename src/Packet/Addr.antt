-- ===== src/Packet/Addr.antt =====
-- net/netip as the packet package uses it: addresses with their families, and prefixes.
use xk6_bgp.Base.{leb, not, ◌&&◌, ℕ, ◌/◌, ◌^◌, Bool, true, false, ◌==◌}

-- `v6` holds the 128-bit value; an IPv4-mapped one is ::ffff:0:0/96.
pub data Addr : Type 0 where
  zero_addr : Addr
  v4 v6 : ℕ → Addr

abbrev mapped : ℕ → Bool
mapped n = n / 2 ^ 32 == 0xffff

abbrev pub is_valid : Addr → Bool
is_valid zero_addr = false
is_valid (v4 n) = true
is_valid (v6 n) = true

abbrev pub is4 : Addr → Bool
is4 zero_addr = false
is4 (v4 n) = true
is4 (v6 n) = false

abbrev pub is6 : Addr → Bool
is6 zero_addr = false
is6 (v4 n) = false
is6 (v6 n) = true

abbrev pub is4in6 : Addr → Bool
is4in6 zero_addr = false
is4in6 (v4 n) = false
is4in6 (v6 n) = mapped n

abbrev pub bit_len : Addr → ℕ
bit_len zero_addr = 0
bit_len (v4 n) = 32
bit_len (v6 n) = 128

pub record Prefix : Type 0 where
  pub addr : Addr
  pub bits : ℕ

abbrev pub is_valid_prefix : Prefix → Bool
is_valid_prefix p = is_valid p.addr && leb p.bits (bit_len p.addr)

-- Is6() && !Is4In6(), the way the route constructors tell the families apart.
abbrev pub is_v6 : Addr → Bool
is_v6 a = is6 a && not (is4in6 a)
