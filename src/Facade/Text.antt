-- ===== src/Facade/Text.antt =====
-- The standard library's functions on texts that bgp.go walks: strings.IndexByte and LastIndexByte
-- with the slices around the byte, strconv.ParseUint and FormatUint in base 10.
pub mod Laws
use Prim.Native.Char.{Char, code}
use Prim.Native.String.{[] as empty, ◌∷◌ as cons, ◌++◌ as append}
use xk6_bgp.Base.{
  ℕ, zero, suc, ◌+◌, ◌-◌, ◌*◌, ◌/◌, ◌%◌, ◌^◌, ◌<◌, String, Option, none, some, if◌then◌else◌, ltb,
  ◌==◌, ◌≡◌, refl, sym, ap, subst, ◌∙◌, arith, Bool-cases, inl, inr,
}

abbrev pub colon : ℕ
colon = 58

abbrev pub slash : ℕ
slash = 47

abbrev pub in_front : Char → Option (String × String) → Option (String × String)
in_front c none = none
in_front c (some (a, b)) = some (cons c a, b)

-- What stands before and after the first character of this code.
unfoldable pub cut : ℕ → String → Option (String × String)
cut k empty = none
cut k (cons c s) = let rest = cut k s in if code c == k then some (empty, s) else in_front c rest

abbrev pub here_or : ℕ → Char → String → Option (String × String) → Option (String × String)
here_or k c s none = if code c == k then some (empty, s) else none
here_or k c s (some (a, b)) = some (cons c a, b)

-- What stands before and after the last one.
unfoldable pub cut_last : ℕ → String → Option (String × String)
cut_last k empty = none
cut_last k (cons c s) = here_or k c s (cut_last k s)

abbrev pub digit : ℕ → Char
digit n =
    if n == 0
    then "0"
    else if n == 1
    then "1"
    else if n == 2
    then "2"
    else if n == 3
    then "3"
    else if n == 4
    then "4"
    else if n == 5
    then "5"
    else if n == 6
    then "6"
    else if n == 7
    then "7"
    else if n == 8
    then "8"
    else "9"

unfoldable pub digit_value : Char → Option ℕ
digit_value c =
    if ltb (code c) 48 then none else if ltb 57 (code c) then none else some (code c - 48)

unfoldable pub parse_digits : ℕ → String → Option ℕ
unfolding digit_value
parse_digits n empty = some n
parse_digits n (cons c s) = elim (digit_value c) [
  | none ↦ none
  | some d ↦ parse_digits (n * 10 + d) s
]

abbrev pub in_range : Option ℕ → Option ℕ
in_range none = none
in_range (some n) = if ltb n (2 ^ 32) then some n else none

-- ParseUint(s, 10, 32)
unfoldable pub parse_uint32 : String → Option ℕ
parse_uint32 empty = none
parse_uint32 (cons c s) = in_range (parse_digits 0 (cons c s))

unfoldable pub format_digits : ℕ → ℕ → String → String
format_digits zero n s = s
format_digits (suc k) n s =
    let more = format_digits k (n / 10) (cons (digit (n % 10)) s) in
    if ltb n 10 then cons (digit n) s else more

-- FormatUint(n, 10) of a number of 32 bits: ten digits are enough.
unfoldable pub format_uint : ℕ → String
format_uint n = format_digits 10 n empty
