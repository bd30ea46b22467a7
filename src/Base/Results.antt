-- ===== src/Base/Results.antt =====
-- The outcome of a service call: a value, or the refusal or the raised error.
use mathlib.Core.Path.{◌≡◌, refl}
use mathlib.Core.Bool.{Bool, true, false}
use mathlib.Core.Option.{Option, none, some}

pub data Result (E A : Type 0) : Type 0 where
  err : E → Result E A
  ok : A → Result E A

module _ {E : Type 0} where
  infixl 5 ◌>>=◌
  abbrev pub ◌>>=◌ : {A B : Type 0} → Result E A → (A → Result E B) → Result E B
  ◌>>=◌ m next = elim m [ err refusal ↦ err refusal | ok value ↦ next value ]

  infixl 5 ◌>>◌
  abbrev pub ◌>>◌ : {B : Type 0} → Result E (Unit {0}) → Result E B → Result E B
  ◌>>◌ check rest = check >>= λ u. rest

  -- `if b: raise e`
  abbrev pub raise_if : Bool → E → Result E (Unit {0})
  raise_if true e = err e
  raise_if false e = ok tt

  -- the row, or the error if there is none
  abbrev pub or_raise : {A : Type 0} → Option A → E → Result E A
  or_raise none e = err e
  or_raise (some a) e = ok a

abbrev pub is_ok : {E A : Type 0} → Result E A → Bool
is_ok (err e) = false
is_ok (ok a) = true

-- What a chain that ended well has passed, for proofs where the parts stay shut.
module _ {E A : Type 0} where
  pub ok-injective : {a b : A} → let r : Result E A = ok a in r ≡ ok b → a ≡ b
  ok-injective h = cc

module _ {E A B : Type 0} (next : A → Result E B) {end : B} where
  pub bind_ok_inv :
      (m : Result E A) → (m >>= next) ≡ ok end → (a : A) × (m ≡ ok a) × (next a ≡ ok end)
  bind_ok_inv (err refusal) ended = cc
  bind_ok_inv (ok value) ended = (value, refl, ended)

  pub or_raise_inv :
      (o : Option A) (e : E)
      → (or_raise o e >>= next) ≡ ok end
      → (a : A) × (o ≡ some a) × (next a ≡ ok end)
  or_raise_inv (some row) e ended = (row, refl, ended)
  or_raise_inv none e ended = cc

module _ {E B : Type 0} (rest : Result E B) {end : B} where
  pub raise_if_inv :
      (test : Bool) (e : E) → (raise_if test e >> rest) ≡ ok end → (test ≡ false) × (rest ≡ ok end)
  raise_if_inv false e ended = (refl, ended)
  raise_if_inv true e ended = cc
