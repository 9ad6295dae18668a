-- ===== src/Facade/Text/Laws.antt =====
-- bgp.go: numbers that are printed and parsed back, and texts that are cut at a separator.
use Prim.Native.Char.{Char, code}
use Prim.Native.String.{[] as empty, ◌∷◌ as cons, ◌++◌ as append}
use Prim.Native.String.append
use xk6_bgp.Base.{
  ℕ, zero, suc, ◌+◌, ◌*◌, ◌/◌, ◌%◌, ◌^◌, ◌<◌, ◌≤◌, String, Bool, true, false, ◌||◌, none, some,
  if◌then◌else◌, ltb, ◌==◌, ◌≡◌, refl, sym, ap, subst, ◌∙◌, arith, Bool-cases, inl, inr,
}
use xk6_bgp.Facade.Text.{
  cut, cut_last, digit, digit_value, parse_digits, in_range, parse_uint32, format_digits,
  format_uint,
}

digit_value_lem : (n : ℕ) → n < 10 → digit_value (digit n) ≡ some n
unfolding digit_value
digit_value_lem zero h = refl
digit_value_lem (suc zero) h = refl
digit_value_lem (suc (suc zero)) h = refl
digit_value_lem (suc (suc (suc zero))) h = refl
digit_value_lem (suc (suc (suc (suc zero)))) h = refl
digit_value_lem (suc (suc (suc (suc (suc zero))))) h = refl
digit_value_lem (suc (suc (suc (suc (suc (suc zero)))))) h = refl
digit_value_lem (suc (suc (suc (suc (suc (suc (suc zero))))))) h = refl
digit_value_lem (suc (suc (suc (suc (suc (suc (suc (suc zero)))))))) h = refl
digit_value_lem (suc (suc (suc (suc (suc (suc (suc (suc (suc zero))))))))) h = refl
digit_value_lem (suc (suc (suc (suc (suc (suc (suc (suc (suc (suc n)))))))))) h = ground arith

-- 10 ^ k
abbrev power : ℕ → ℕ
power zero = 1
power (suc k) = 10 * power k

parse_digits_step :
    (m n : ℕ) (s : String)
    → n < 10
    → parse_digits m (cons (digit n) s) ≡ parse_digits (m * 10 + n) s
unfolding parse_digits
parse_digits_step m n s h = rw (digit_value_lem n h, parse_digits) refl

zero_of : (n : ℕ) → n < 1 → n ≡ 0
zero_of n h = omega arith

parse_digits-format_digits :
    (k n : ℕ) (s : String) → n < power k → parse_digits 0 (format_digits k n s) ≡ parse_digits n s
unfolding format_digits
parse_digits-format_digits zero n s h = ap (λ m. parse_digits m s) (sym (zero_of n h))
parse_digits-format_digits (suc k) n s h = elim (Bool-cases (ltb n 10)) [
  | inl small ↦
      rw (small) (parse_digits_step 0 n s (ground arith) ∙ ap (λ m. parse_digits m s) (omega arith))
  | inr large ↦
      let rest : n / 10 * 10 + n % 10 ≡ n = omega arith in
      rw (large) (
        parse_digits-format_digits k (n / 10) (cons (digit (n % 10)) s) (omega arith)
        ∙ parse_digits_step (n / 10) (n % 10) s (omega arith)
        ∙ ap (λ m. parse_digits m s) rest)
]

abbrev IsCons : String → Type 0
IsCons s = (c : Char) × ((t : String) × (s ≡ cons c t))

format_digits-IsCons : (k n : ℕ) (c : Char) (s : String) → IsCons (format_digits k n (cons c s))
unfolding format_digits
format_digits-IsCons zero n c s = (c, (s, refl))
format_digits-IsCons (suc k) n c s = elim (Bool-cases (ltb n 10)) [
  | inl small ↦ (digit n, (cons c s, rw (small) refl))
  | inr large ↦
      subst IsCons (sym (rw (large) refl))
        (format_digits-IsCons k (n / 10) (digit (n % 10)) (cons c s))
]

format_digits-IsCons_first : (k n : ℕ) → IsCons (format_digits (suc k) n empty)
unfolding format_digits
format_digits-IsCons_first k n = elim (Bool-cases (ltb n 10)) [
  | inl small ↦ (digit n, (empty, rw (small) refl))
  | inr large ↦
      subst IsCons (sym (rw (large) refl)) (format_digits-IsCons k (n / 10) (digit (n % 10)) empty)
]

parse_uint32_cons : (s : String) → IsCons s → parse_uint32 s ≡ in_range (parse_digits 0 s)
unfolding parse_uint32
parse_uint32_cons s (c, (t, e)) = rw (e) refl

in_range_below : (n : ℕ) → n < 2 ^ 32 → in_range (some n) ≡ some n
in_range_below n h = ground arith

parse_digits_end : (n : ℕ) → parse_digits n empty ≡ some n
unfolding parse_digits
parse_digits_end n = refl

-- A formatted number of 32 bits is parsed back.
pub parse_uint32-format_uint : (n : ℕ) → n < 2 ^ 32 → parse_uint32 (format_uint n) ≡ some n
unfolding format_uint
parse_uint32-format_uint n h =
    let value : parse_digits 0 (format_digits 10 n empty) ≡ some n =
      parse_digits-format_digits 10 n empty (omega arith) ∙ parse_digits_end n in
    parse_uint32_cons (format_digits 10 n empty) (format_digits-IsCons_first 9 n)
    ∙ ap in_range value
    ∙ in_range_below n h

-- A character of this code stands in the text.
unfoldable pub has_code : ℕ → String → Bool
has_code k empty = false
has_code k (cons c s) = (code c == k) || has_code k s

cut_last_absent : (k : ℕ) (s : String) → has_code k s ≡ false → cut_last k s ≡ none
unfolding has_code cut_last
cut_last_absent k empty h = refl
cut_last_absent k (cons c s) h = ground (arith, cut_last_absent k s)

pub cut_last-append :
    (k : ℕ) (h : String) (c : Char) (t : String)
    → code c ≡ k
    → has_code k t ≡ false
    → cut_last k (append h (cons c t)) ≡ some (h, t)
unfolding cut_last
cut_last-append k empty c t e a =
    rw (append.nil (cons c t)) (rw (cut_last_absent k t a) (ground arith))
cut_last-append k (cons d h) c t e a =
    rw (append.cons d h (cons c t)) (rw (cut_last-append k h c t e a) refl)

pub cut-append :
    (k : ℕ) (h : String) (c : Char) (t : String)
    → code c ≡ k
    → has_code k h ≡ false
    → cut k (append h (cons c t)) ≡ some (h, t)
unfolding cut has_code
cut-append k empty c t e a = rw (append.nil (cons c t)) (ground arith)
cut-append k (cons d h) c t e a =
    rw (append.cons d h (cons c t)) (ground (arith, cut-append k h c t e))

pub cut_absent : (k : ℕ) (s : String) → has_code k s ≡ false → cut k s ≡ none
unfolding has_code cut
cut_absent k empty h = refl
cut_absent k (cons c s) h = ground (arith, cut_absent k s)

or_assoc : (a b c : Bool) → (a || (b || c)) ≡ (a || b || c)
or_assoc true b c = refl
or_assoc false b c = refl

pub has_code-append :
    (k : ℕ) (s t : String) → has_code k (append s t) ≡ (has_code k s || has_code k t)
unfolding has_code
has_code-append k empty t = rw (append.nil t) refl
has_code-append k (cons c s) t =
    rw (append.cons c s t, has_code-append k s t)
      (or_assoc (code c == k) (has_code k s) (has_code k t))

at_least_if : (b : Bool) (x y : Char) → 48 ≤ code x → 48 ≤ code y → 48 ≤ code (if b then x else y)
at_least_if true x y h k = h
at_least_if false x y h k = k

digit_at_least : (n : ℕ) → 48 ≤ code (digit n)
digit_at_least n = at_least_if (n == 0) _ _ (omega arith) (
    at_least_if (n == 1) _ _ (omega arith) (
      at_least_if (n == 2) _ _ (omega arith) (
        at_least_if (n == 3) _ _ (omega arith) (
          at_least_if (n == 4) _ _ (omega arith) (
            at_least_if (n == 5) _ _ (omega arith) (
              at_least_if (n == 6) _ _ (omega arith) (
                at_least_if (n == 7) _ _ (omega arith)
                  (at_least_if (n == 8) _ _ (omega arith) (omega arith)))))))))

has_code-digit :
    (k n : ℕ) (s : String) → k < 48 → has_code k s ≡ false → has_code k (cons (digit n) s) ≡ false
unfolding has_code
has_code-digit k n s b h =
    let c = code (digit n) in
    let far : 48 ≤ c = digit_at_least n in
    let other : (c == k) ≡ false = ground arith in rw (other) h

pub has_code-format_digits :
    (k m n : ℕ) (s : String)
    → k < 48
    → has_code k s ≡ false
    → has_code k (format_digits m n s) ≡ false
unfolding format_digits
has_code-format_digits k zero n s b h = h
has_code-format_digits k (suc m) n s b h = elim (Bool-cases (ltb n 10)) [
  | inl small ↦ rw (small) (has_code-digit k n s b h)
  | inr large ↦ rw (large) (
      has_code-format_digits k m (n / 10) (cons (digit (n % 10)) s) b
        (has_code-digit k (n % 10) s b h))
]
