-- ===== src/Base/Results.antt =====
-- The Go result (value, error): a value, or an error of the part's own type.
use mathlib.Core.Bool.{Bool, true, false, not}
use mathlib.Core.Path.{◌≡◌, refl}
use mathlib.Core.Logic.{◌⊎◌, inl, inr}
use xk6_bgp.Base.Tests.{if◌then◌else◌}
use mathlib.Core.Option.{Option, some}
use native.Mathlib.Omega.{arith}

pub data Result (E A : Type 0) : Type 0 where
  ok : A → Result E A
  err : E → Result E A

infixl 5 ◌>>=◌ ◌>>◌
abbrev pub ◌>>=◌ : {E A B : Type 0} → Result E A → (A → Result E B) → Result E B
ok a >>= f = f a
err e >>= f = err e

abbrev pub ◌>>◌ : {E B : Type 0} → Result E (Unit {0}) → Result E B → Result E B
m >> k = m >>= λ _. k

-- `if bad { return e }`
abbrev pub guard_not : {E : Type 0} → Bool → E → Result E (Unit {0})
guard_not true e = err e
guard_not false e = ok tt

abbrev pub map_err : {E F A : Type 0} → (E → F) → Result E A → Result F A
map_err f (ok a) = ok a
map_err f (err e) = err (f e)

pub seq-ok :
    {E B : Type 0} (m : Result E (Unit {0})) (k : Result E B) (x : B)
    → (m >> k) ≡ ok x
    → (m ≡ ok tt) × (k ≡ ok x)
seq-ok (ok tt) k x h = (refl, h)
seq-ok (err e) k x h = ground arith

pub guard-ok : {E : Type 0} (b : Bool) (e : E) → guard_not b e ≡ ok tt → b ≡ false
guard-ok true e h = ground arith
guard-ok false e h = refl

pub guard-holds : {E : Type 0} (b : Bool) (e : E) → guard_not (not b) e ≡ ok tt → b ≡ true
guard-holds true e h = refl
guard-holds false e h = ground arith

-- The success of a chain, read backwards.
pub bind-ok :
    {E A B : Type 0} (m : Result E A) (k : A → Result E B) (b : B)
    → (m >>= k) ≡ ok b
    → (a : A) × ((m ≡ ok a) × (k a ≡ ok b))
bind-ok (ok a) k b h = (a, (refl, h))
bind-ok (err e) k b h = ground arith

pub map_err-ok :
    {E F A : Type 0} (f : E → F) (m : Result E A) (a : A) → map_err f m ≡ ok a → m ≡ ok a
map_err-ok f (ok b) a h = ground arith
map_err-ok f (err e) a h = ground arith

pub ok-inj : {E A : Type 0} (a b : A) → ◌≡◌ {A = Result E A} (ok a) (ok b) → a ≡ b
ok-inj a b h = ground arith

pub if_ok :
    {E A : Type 0} (b : Bool) (x y : Result E A) (a : A)
    → (if b then x else y) ≡ ok a
    → (x ≡ ok a) ⊎ (y ≡ ok a)
if_ok true x y a h = inl h
if_ok false x y a h = inr h

pub first_of :
    {E A : Type 0} (b : Bool) (x y : Result E A) (a : A)
    → b ≡ true
    → (if b then x else y) ≡ ok a
    → x ≡ ok a
first_of true x y a e h = h
first_of false x y a e h = cc

pub second_of :
    {E A : Type 0} (b : Bool) (x y : Result E A) (a : A)
    → b ≡ false
    → (if b then x else y) ≡ ok a
    → y ≡ ok a
second_of true x y a e h = cc
second_of false x y a e h = h

pub if_split :
    {E A : Type 0} (b : Bool) (x y : Result E A) (a : A)
    → (if b then x else y) ≡ ok a
    → ((b ≡ true) × (x ≡ ok a)) ⊎ ((b ≡ false) × (y ≡ ok a))
if_split true x y a h = inl (refl, h)
if_split false x y a h = inr (refl, h)

pub some-inj : {A : Type 0} {a b : A} → ◌≡◌ {A = Option A} (some a) (some b) → a ≡ b
some-inj h = ground arith
