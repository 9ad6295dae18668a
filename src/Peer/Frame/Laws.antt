-- ===== src/Peer/Frame/Laws.antt =====
-- The reader takes exactly one message off the stream, and never more than the limit.
use mathlib.Core.List.{append_assoc}
use xk6_bgp.Base.{
  ℕ, zero, suc, ◌+◌, ◌-◌, ◌≤◌, ◌<◌, true, false, Option, none, some, List, [], ◌∷◌, ◌++◌, length,
  take, drop, ltb, Result, ok, err, ◌>>=◌, ◌≡◌, refl, sym, ap, ap₂, ◌∙◌, subst, arith, Bool-cases,
  inl, inr, length-append, take-append_le, drop-append_le, take-append-drop, take-length_le,
  drop-length_le, length-take_le, length-drop,
}
use xk6_bgp.Peer.Frame.{
  FrameError, read_full, get_or, all_ones, length_field, short_header, short_body, accept, header,
  parsed, read_message_max,
}

-- A whole message: a header of at least 19 octets with its marker, and a length that is its own.
pub record IsFrame (raw : List ℕ) : Type 0 where
  pub long_enough : 19 ≤ length raw
  pub marked : all_ones 16 raw ≡ true
  pub own_length : length_field raw ≡ length raw

get_or-take : (n i : ℕ) (xs : List ℕ) (d : ℕ) → i < n → get_or (take n xs) i d ≡ get_or xs i d
get_or-take zero i xs d h = absurd (omega arith)
get_or-take (suc n) i [] d h = refl
get_or-take (suc n) zero (x ∷ xs) d h = refl
get_or-take (suc n) (suc i) (x ∷ xs) d h = get_or-take n i xs d (omega arith)

pub all_ones-take : (k n : ℕ) (xs : List ℕ) → k ≤ n → all_ones k (take n xs) ≡ all_ones k xs
all_ones-take zero n xs h = refl
all_ones-take (suc k) zero xs h = absurd (omega arith)
all_ones-take (suc k) (suc n) [] h = refl
all_ones-take (suc k) (suc n) (x ∷ xs) h = ground (arith, all_ones-take k n xs (omega arith))

pub length_field-take : (xs : List ℕ) → length_field (take 19 xs) ≡ length_field xs
length_field-take xs =
    omega (arith, get_or-take 19 16 xs 0 (omega arith), get_or-take 19 17 xs 0 (omega arith))

read_full-append :
    (e : FrameError) (n : ℕ) (xs ys : List ℕ)
    → n ≤ length xs
    → read_full e n (xs ++ ys) ≡ ok (take n xs, drop n xs ++ ys)
read_full-append e n xs ys h =
    let long : ltb (length (xs ++ ys)) n ≡ false = ground (arith, length-append xs ys) in
    rw long (λ i. ok (take-append_le n xs ys h i, drop-append_le n xs ys h i))

accept-ok :
    (max_len : ℕ) (raw rest : List ℕ)
    → IsFrame raw
    → length raw ≤ max_len
    → accept max_len (take 19 raw) rest ≡ ok (length raw, take 19 raw, rest)
unfolding accept
accept-ok max_len raw rest f l =
    ground (arith, all_ones-take 16 19 raw (omega arith), length_field-take raw)

header-frame :
    (max_len : ℕ) (raw rest : List ℕ)
    → IsFrame raw
    → length raw ≤ max_len
    → header max_len (raw ++ rest) ≡ ok (length raw, take 19 raw, drop 19 raw ++ rest)
unfolding header
header-frame max_len raw rest f l =
    rw (read_full-append short_header 19 raw rest f.long_enough)
      (accept-ok max_len raw (drop 19 raw ++ rest) f l)

-- What is left of the message after its header, in front of the rest of the stream.
body-frame :
    (raw rest : List ℕ)
    → read_full short_body (length raw - 19) (drop 19 raw ++ rest) ≡ ok (drop 19 raw, rest)
body-frame raw rest =
    let n = length raw - 19 in
    let size = length-drop 19 raw in
    read_full-append short_body n (drop 19 raw) rest (omega arith)
    ∙ ap₂ (λ x y. ok (x, y ++ rest)) (take-length_le n (drop 19 raw) (omega arith))
        (drop-length_le n (drop 19 raw) (omega arith))

module _ {M : Type 0} (parse : List ℕ → Option M) (max_len : ℕ) where
  -- A whole message within the limit is read as itself, and the stream goes on right behind it.
  pub read_message_max-append :
      (raw rest : List ℕ)
      → IsFrame raw
      → length raw ≤ max_len
      → read_message_max parse max_len (raw ++ rest) ≡ parsed parse raw (parse raw) rest
  unfolding read_message_max
  read_message_max-append raw rest f l =
      rw (header-frame max_len raw rest f l, body-frame raw rest, take-append-drop 19 raw)

  header_sound :
      (s : List ℕ) {n : ℕ} {h r : List ℕ}
      → header max_len s ≡ ok (n, h, r)
      → (19 ≤ length s)
        × (h ≡ take 19 s)
        × (r ≡ drop 19 s)
        × (all_ones 16 (take 19 s) ≡ true)
        × (length_field (take 19 s) ≡ n)
        × (19 ≤ n)
        × (n ≤ max_len)
  unfolding header accept
  header_sound s e = ground arith

  -- The pieces that the reader puts together make a message with the header that it judged.
  joined-IsFrame :
      (s x : List ℕ)
      → 19 ≤ length s
      → all_ones 16 (take 19 s) ≡ true
      → length_field (take 19 s) ≡ 19 + length x
      → IsFrame (take 19 s ++ x)
  joined-IsFrame s x l ones field =
      let raw = take 19 s ++ x in
      let size : length (take 19 s) ≡ 19 = length-take_le 19 s l in
      let same : take 19 raw ≡ take 19 (take 19 s) =
        take-append_le 19 (take 19 s) x (omega arith) in
      let whole : take 19 (take 19 s) ≡ take 19 s = take-length_le 19 (take 19 s) (omega arith) in
      record {
        long_enough = omega (arith, length-append (take 19 s) x);
        marked =
            sym (all_ones-take 16 19 raw (omega arith)) ∙ ap (all_ones 16) (same ∙ whole) ∙ ones;
        own_length =
            sym (length_field-take raw)
            ∙ ap length_field (same ∙ whole)
            ∙ field
            ∙ omega (arith, length-append (take 19 s) x);
      }

  parsed-ok :
      (x y raw rest : List ℕ) (o : Option M) (m : M)
      → parsed parse x o y ≡ ok (raw, m, rest)
      → (raw ≡ x) × (rest ≡ y) × (o ≡ some m)
  parsed-ok x y raw rest none m e = cc
  parsed-ok x y raw rest (some k) m e = ground arith

  body_sound :
      (s : List ℕ) (n : ℕ) (raw rest : List ℕ) (m : M)
      → 19 ≤ length s
      → all_ones 16 (take 19 s) ≡ true
      → length_field (take 19 s) ≡ n
      → 19 ≤ n
      → (do
        (body, rest') ← read_full short_body (n - 19) (drop 19 s)
        parsed parse (take 19 s ++ body) (parse (take 19 s ++ body)) rest')
        ≡ ok (raw, m, rest)
      → IsFrame raw × (raw ++ rest ≡ s) × (length raw ≡ n) × (parse raw ≡ some m)
  body_sound s n raw rest m l ones field lo e =
      elim (Bool-cases (ltb (length (drop 19 s)) (n - 19))) [
        | inl short ↦ let f = rw short at e in cc
        | inr enough ↦
            let x = take (n - 19) (drop 19 s) in
            let y = drop (n - 19) (drop 19 s) in
            let (p, q, o) =
              parsed-ok (take 19 s ++ x) y raw rest (parse (take 19 s ++ x)) m (rw enough at e) in
            let size : length x ≡ n - 19 = length-take_le (n - 19) (drop 19 s) (ground arith) in
            let f : IsFrame (take 19 s ++ x) = joined-IsFrame s x l ones (omega arith) in
            (
              subst IsFrame (sym p) f,
              ap₂ (λ a b. a ++ b) p q
                  ∙ append_assoc (take 19 s) x y
                  ∙ ap (λ t. take 19 s ++ t) (take-append-drop (n - 19) (drop 19 s))
                  ∙ take-append-drop 19 s,
              ap length p ∙ omega (arith, length-append (take 19 s) x, length-take_le 19 s l),
              ap parse p ∙ o,
            )
      ]

  -- What is read is a whole message of at least 19 and at most `max_len` octets, it is the start
  -- of the stream, and the rest of the stream is left for the next call.
  pub read_message_max_sound :
      (s raw rest : List ℕ) (m : M)
      → read_message_max parse max_len s ≡ ok (raw, m, rest)
      → IsFrame raw × (raw ++ rest ≡ s) × (length raw ≤ max_len) × (parse raw ≡ some m)
  unfolding read_message_max
  read_message_max_sound s raw rest m e = go (header max_len s) refl e
    where
      go :
          (r : Result FrameError (ℕ × List ℕ × List ℕ))
          → header max_len s ≡ r
          → (do
            (mlen, h, rest) ← r
            (body, rest') ← read_full short_body (mlen - 19) rest
            parsed parse (h ++ body) (parse (h ++ body)) rest')
            ≡ ok (raw, m, rest)
          → IsFrame raw × (raw ++ rest ≡ s) × (length raw ≤ max_len) × (parse raw ≡ some m)
      go (err x) q f = cc
      go (ok (n, h, r)) q f =
          let (l, hq, rq, ones, field, lo, hi) = header_sound s q in
          let (frame, whole, size, parsed_m) =
            body_sound s n raw rest m l ones field lo (rw (← hq, ← rq) f) in
          (frame, whole, omega arith, parsed_m)
