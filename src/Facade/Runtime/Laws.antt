-- ===== src/Facade/Runtime/Laws.antt =====
-- bgp.go: what a walk over an array of a script reads.
use xk6_bgp.Base.{
  bind-ok, map_err-ok, ok-inj, ℕ, zero, suc, ◌+◌, true, false, not, Option, none, some, List, [],
  ◌∷◌, length, Result, ok, guard_not, map_err, seq-ok, guard-ok, guard-holds, ◌≡◌, ◌↔◌, sym, refl,
  arith, ap, subst, All, ◌∙◌,
}
use xk6_bgp.Facade.Runtime.{
  Runtime, FacadeError, at_index, nullish_entry, read_items, read_array, is_positive, object_of,
  or_error, not_an_array, empty_array,
}

pub or_error-ok : {E A : Type 0} (e : E) (o : Option A) (a : A) → or_error e o ≡ ok a → o ≡ some a
or_error-ok e none a h = ground arith
or_error-ok e (some b) a h = ground arith

module _ {V O A : Type 0} (js : Runtime V O) (f : V → Result FacadeError A) (arr : O) where
  -- The list holds what `f` makes of the elements from index `i` on.
  abbrev pub Reads : ℕ → List A → Type 0
  Reads i [] = Unit {0}
  Reads i (a ∷ xs) =
      (js.is_nullish (js.item arr i) ≡ false) × (f (js.item arr i) ≡ ok a) × Reads (i + 1) xs

  pub read_items-Reads :
      (i n : ℕ) (xs : List A) → read_items js f arr i n ≡ ok xs → (length xs ≡ n) × Reads i xs
  unfolding read_items
  read_items-Reads i zero xs h =
      subst (λ ys. (length ys ≡ 0) × Reads i ys) (ok-inj [] xs h) (refl, tt)
  read_items-Reads i (suc n) xs h =
      let (g, h1) =
        seq-ok (guard_not (js.is_nullish (js.item arr i)) (at_index i nullish_entry)) _ xs h in
      let (a, (ea, h2)) = bind-ok (map_err (at_index i) (f (js.item arr i))) _ xs h1 in
      let (rest, (er, h3)) = bind-ok (read_items js f arr (i + 1) n) _ xs h2 in
      let (size, reads) = read_items-Reads (i + 1) n rest er in
      subst (λ ys. (length ys ≡ suc n) × Reads i ys) (ok-inj (a ∷ rest) xs h3)
        (
          ap suc size,
          (
            guard-ok (js.is_nullish (js.item arr i)) _ g,
            map_err-ok (at_index i) (f (js.item arr i)) a ea,
            reads,
          ),
        )

  pub Reads-read_items :
      (i : ℕ) (xs : List A) → Reads i xs → read_items js f arr i (length xs) ≡ ok xs
  unfolding read_items
  Reads-read_items i [] r = refl
  Reads-read_items i (a ∷ xs) (n, e, r) = rw (n, e, Reads-read_items (i + 1) xs r) refl

  -- What holds of everything that `f` returns holds of the whole list.
  pub Reads-All :
      (P : A → Type 0)
      → ((v : V) (a : A) → f v ≡ ok a → P a)
      → (i : ℕ) (xs : List A) → Reads i xs
      → All P xs
  Reads-All P h i [] r = tt
  Reads-All P h i (a ∷ xs) (n, e, r) = (h (js.item arr i) a e, Reads-All P h (i + 1) xs r)

module _ {V O A : Type 0} (js : Runtime V O) (f : V → Result FacadeError A) where
  -- The list is what `f` makes of the elements of an array object, of which there are as many as
  -- its length says, and that is more than none.
  pub record ReadsFrom (v : V) (xs : List A) : Type 0 where
    pub object : O
    pub is_object : js.to_object v ≡ some object
    pub has_length : js.is_nullish (js.get object "length") ≡ false
    pub is_length : length xs ≡ js.to_integer (js.get object "length")
    pub is_nonempty : is_positive (length xs) ≡ true
    pub are_read : Reads js f object 0 xs

  read_array-ReadsFrom : (v : V) (xs : List A) → read_array js f v ≡ ok xs → ReadsFrom v xs
  unfolding read_array
  read_array-ReadsFrom v xs h =
      let (arr, (ea, h1)) = bind-ok (object_of js not_an_array v) _ xs h in
      let count = js.to_integer (js.get arr "length") in
      let (g, h2) = seq-ok (guard_not (js.is_nullish (js.get arr "length")) not_an_array) _ xs h1 in
      let (p, h3) = seq-ok (guard_not (not (is_positive count)) empty_array) _ xs h2 in
      let (size, reads) = read_items-Reads js f arr 0 count xs h3 in
      let positive : is_positive count ≡ true = guard-holds (is_positive count) _ p in
      record {
        object = arr;
        is_object = or_error-ok not_an_array (js.to_object v) arr ea;
        has_length = guard-ok (js.is_nullish (js.get arr "length")) _ g;
        is_length = size;
        is_nonempty = ap is_positive size ∙ positive;
        are_read = reads;
      }

  ReadsFrom-read_array : (v : V) (xs : List A) → ReadsFrom v xs → read_array js f v ≡ ok xs
  unfolding read_array
  ReadsFrom-read_array v xs r =
      let positive : is_positive (js.to_integer (js.get r.object "length")) ≡ true =
        ap is_positive (sym r.is_length) ∙ r.is_nonempty in
      let reads : read_items js f r.object 0 (js.to_integer (js.get r.object "length")) ≡ ok xs =
        ap (read_items js f r.object 0) (sym r.is_length)
        ∙ Reads-read_items js f r.object 0 xs r.are_read in
      rw (r.is_object, r.has_length, positive) reads

  -- An array of a script is read if and only if it has a positive length and every element up to it
  -- is there and is accepted, and the result is what they become, in their order.
  pub read_array_exact : (v : V) (xs : List A) → (read_array js f v ≡ ok xs) ↔ ReadsFrom v xs
  read_array_exact v xs = (read_array-ReadsFrom v xs, ReadsFrom-read_array v xs)

  pub read_array-All :
      (P : A → Type 0)
      → ((v : V) (a : A) → f v ≡ ok a → P a)
      → (v : V) (xs : List A) → read_array js f v ≡ ok xs
      → All P xs
  read_array-All P h v xs e =
      let r = read_array-ReadsFrom v xs e in Reads-All js f r.object P h 0 xs r.are_read
