-- ===== src/Facade/Wait/Laws.antt =====
-- bgp.go: the texts that a script waits for are taken apart and put together again.
use Prim.Native.Char.{Char}
use Prim.Native.String.{[] as empty, ◌∷◌ as cons, ◌++◌ as append}
use Prim.Native.String.append
use xk6_bgp.Base.{
  ok-inj, bind-ok, some-inj, seq-ok, guard_not, ◌+◌, subst, length, Bool-cases, inl, inr, ℕ, ◌^◌,
  ◌<◌, String, true, false, some, ok, ◌≡◌, refl, sym, ap, ◌∙◌, arith,
}
use xk6_bgp.Clock.{Timestamp, mono_ns, from_mono_ns-mono_ns}
use xk6_bgp.Facade.Runtime.{
  Runtime, Imports, missing_argument, missing, not_an_object, object_of, is_positive, opt_int64,
  opt_duration,
}
use xk6_bgp.Facade.Runtime.Laws.{or_error-ok, read_array_exact}
use xk6_bgp.Facade.Text.{colon, slash, cut, cut_last, format_uint}
use xk6_bgp.Facade.Text.Laws.{
  has_code, cut_last-append, cut-append, has_code-append, has_code-format_digits, cut_absent,
  parse_uint32-format_uint,
}
use xk6_bgp.Facade.Wait.{
  id_suffix, split_path_id, mark, or_default, prefix_key, parse_prefix_list, WaitArgument,
  wait_argument,
}

abbrev slash_char : Char
slash_char = "/"

abbrev colon_char : Char
colon_char = ":"

after_slash : (t : String) → append "/" t ≡ cons slash_char t
after_slash t = append.cons slash_char empty t ∙ ap (cons slash_char) (append.nil t)

suffix_shape : (n : ℕ) → id_suffix n ≡ cons colon_char (format_uint n)
unfolding id_suffix
suffix_shape n =
    append.cons colon_char empty (format_uint n) ∙ ap (cons colon_char) (append.nil (format_uint n))

formatted_slash : (n : ℕ) → has_code slash (cons colon_char (format_uint n)) ≡ false
unfolding has_code format_uint
formatted_slash n = has_code-format_digits slash 10 n empty (omega arith) refl

suffix_slash : (n : ℕ) → has_code slash (id_suffix n) ≡ false
suffix_slash n = ap (has_code slash) (suffix_shape n) ∙ formatted_slash n

-- A prefix text: what stands before its last slash, and its length.
abbrev pub prefix_text : String → String → String
prefix_text head len = append head (append "/" len)

module _ (head len : String) (s : has_code slash len ≡ false) (c : has_code colon len ≡ false) where
  at_slash :
      (t : String)
      → has_code slash t ≡ false
      → cut_last slash (append head (append "/" (append len t))) ≡ some (head, append len t)
  at_slash t h = rw (after_slash (append len t)) (
      cut_last-append slash head slash_char (append len t) refl
        (has_code-append slash len t ∙ rw (s, h) refl))

  at_end : cut_last slash (prefix_text head len) ≡ some (head, len)
  at_end = rw (after_slash len) (cut_last-append slash head slash_char len refl s)

  at_colon : (n : ℕ) → cut colon (append len (id_suffix n)) ≡ some (len, format_uint n)
  at_colon n = rw (suffix_shape n) (cut-append colon len colon_char (format_uint n) refl c)

  split_plain : split_path_id (prefix_text head len) ≡ ok (prefix_text head len, "")
  unfolding split_path_id
  split_plain = rw (split_path_id, at_end, cut_absent colon len c) refl

  -- A prefix text with the path id suffix of the receive side is taken apart into that text and that
  -- suffix, and a prefix text alone is left as it is, when the length behind its last slash is a text
  -- without a slash and a colon and the path id fits into 32 bits.
  pub split_path_id-id_suffix :
      (n : ℕ)
      → n < 2 ^ 32
      → (split_path_id (append head (append "/" (append len (id_suffix n))))
          ≡ ok (prefix_text head len, id_suffix n))
        × (split_path_id (prefix_text head len) ≡ ok (prefix_text head len, ""))
  unfolding split_path_id id_suffix
  split_path_id-id_suffix n h = (
    rw
        (
          split_path_id,
          at_slash (id_suffix n) (suffix_slash n),
          at_colon n,
          parse_uint32-format_uint n h,
        )
        refl,
    split_plain,
  )

elapsed_positive :
    (epoch t : Timestamp) → epoch < t → t < epoch + 2 ^ 63 → is_positive (mono_ns epoch t) ≡ true
unfolding mono_ns
elapsed_positive epoch t a b = ground arith

mark-mono_ns :
    (epoch t : Timestamp) → epoch < t → t < epoch + 2 ^ 63 → mark epoch (mono_ns epoch t) ≡ t
unfolding mark
mark-mono_ns epoch t a b =
    rw (elapsed_positive epoch t a b) (from_mono_ns-mono_ns epoch t (omega arith) b)

default_positive : (n : ℕ) → is_positive (or_default n) ≡ true
default_positive n = elim (Bool-cases (is_positive n)) [ inl e ↦ rw (e) e | inr e ↦ rw (e) refl ]

module _ {V O : Type 0} (js : Runtime V O) {Rd Esi N : Type 0} (im : Imports Rd Esi N) where
  -- A wait whose argument carries the monotonic mark of a reading counts from that reading on, if it
  -- lies after the package was loaded and less than 2 ^ 63 nanoseconds after it; it waits for at
  -- least one key, for a positive time.
  pub wait_argument-mono_ns :
      (epoch t : Timestamp) (v : V) (o : O) (a : WaitArgument)
      → epoch < t
      → t < epoch + 2 ^ 63
      → js.to_object v ≡ some o
      → opt_int64 js o "sentAtMonoNs" ≡ mono_ns epoch t
      → wait_argument js im epoch v ≡ ok a
      → (a.only_after ≡ t)
        × (is_positive (length a.prefixes) ≡ true)
        × (is_positive a.timeout ≡ true)
  unfolding wait_argument parse_prefix_list
  wait_argument-mono_ns epoch t v o a lo hi eo em h =
      let (g, h1) = seq-ok (guard_not (js.is_nullish v) missing_argument) _ a h in
      let (u, (eu, h2)) = bind-ok (object_of js not_an_object v) _ a h1 in
      let (keys, (ek, h3)) = bind-ok (parse_prefix_list js im u) _ a h2 in
      let (n, (en, h4)) = bind-ok (opt_duration js im u "timeout") _ a h3 in
      let same : u ≡ o = some-inj (sym (or_error-ok not_an_object (js.to_object v) u eu) ∙ eo) in
      let (g2, h5) =
        seq-ok (guard_not (js.is_nullish (js.get u "prefixes")) (missing "prefixes")) _ keys ek in
      let r = (read_array_exact js (prefix_key js im) (js.get u "prefixes") keys).0 h5 in
      let since : mark epoch (opt_int64 js u "sentAtMonoNs") ≡ t =
        ap (λ x. mark epoch (opt_int64 js x "sentAtMonoNs")) same
        ∙ ap (mark epoch) em
        ∙ mark-mono_ns epoch t lo hi in
      subst
        (λ b.
          (b.only_after ≡ t)
          × (is_positive (length b.prefixes) ≡ true)
          × (is_positive b.timeout ≡ true))
        (ok-inj _ a h4) (since, r.is_nonempty, default_positive n)
