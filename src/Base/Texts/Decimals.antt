-- ===== src/Base/Texts/Decimals.antt =====
-- Printed decimals, read back as the language's `int` reads them.
use Prim.Native.Nat.{ℕ, zero, suc, ◌+◌, ◌*◌, ◌/◌, ◌%◌, ◌≤◌, ◌<◌}
use mathlib.Core.Path.{◌≡◌, refl, ap, ◌∙◌}
use mathlib.Core.Bool.{Bool, true, false, not, ◌&&◌}
use mathlib.Core.List.{[], ◌∷◌, ◌++◌, reverse, reverse_aux}
use native.Mathlib.Omega.{arith}
use alpha_pos_server.Base.Tests.{leb, length}
use alpha_pos_server.Base.Texts.{
  Text, is_space, lstrip, strip, digits_onto, decimal, is_digits, is_blank, read_digits,
}

-- No character is a space.
abbrev pub is_solid : Text → Bool
is_solid [] = true
is_solid (c ∷ s) = not (is_space c) && is_solid s

lstrip-solid : (s : Text) → is_solid s ≡ true → lstrip s ≡ s
unfolding lstrip
lstrip-solid [] h = refl
lstrip-solid (c ∷ s) h = ground (arith, lstrip-solid s)

reverse_aux-solid :
    (s t : Text) → is_solid s ≡ true → is_solid t ≡ true → is_solid (reverse_aux s t) ≡ true
reverse_aux-solid [] t h k = k
reverse_aux-solid (c ∷ s) t h k = ground (arith, reverse_aux-solid s (c ∷ t))

reverse_aux-twice : (s a b : Text) → reverse_aux (reverse_aux s a) b ≡ reverse_aux a (s ++ b)
reverse_aux-twice [] a b = refl
reverse_aux-twice (c ∷ s) a b = reverse_aux-twice s (c ∷ a) b

++_nil : (s : Text) → s ++ [] ≡ s
++_nil [] = refl
++_nil (c ∷ s) = ap (λ x. c ∷ x) (++_nil s)

pub strip-solid : (s : Text) → is_solid s ≡ true → strip s ≡ s
unfolding strip
strip-solid s h =
    rw (lstrip-solid s h, lstrip-solid (reverse s) (reverse_aux-solid s [] h refl))
      (reverse_aux-twice s [] [] ∙ ++_nil s)

digit-solid : (c : ℕ) → leb 48 c && leb c 57 ≡ true → not (is_space c) ≡ true
unfolding is_space
digit-solid c h = ground arith

pub digits-solid : (s : Text) → is_digits s ≡ true → is_solid s ≡ true
digits-solid [] h = refl
digits-solid (c ∷ s) h = ground (arith, digit-solid c, digits-solid s)

digits_onto-digits :
    (fuel n : ℕ) (rest : Text)
    → n ≤ fuel
    → is_digits rest ≡ true
    → is_digits (digits_onto fuel n rest) ≡ true
unfolding digits_onto
digits_onto-digits zero n rest h k = ground arith
digits_onto-digits (suc fuel) n rest h k =
    ground (arith, digits_onto-digits fuel (n / 10) ((48 + n % 10) ∷ rest))

digits_onto-read :
    (fuel n : ℕ) (rest : Text)
    → n ≤ fuel
    → read_digits 0 (digits_onto fuel n rest) ≡ read_digits n rest
unfolding digits_onto
digits_onto-read zero n rest h = ground arith
digits_onto-read (suc fuel) n rest h =
    ground (arith, digits_onto-read fuel (n / 10) ((48 + n % 10) ∷ rest))

-- 10 ^ (k + 1)
tens : ℕ → ℕ
tens zero = 10
tens (suc k) = tens k * 10

digits_onto-length :
    (k fuel n : ℕ) (rest : Text)
    → n ≤ fuel
    → n < tens k
    → length (digits_onto fuel n rest) ≤ length rest + (k + 1)
unfolding digits_onto tens
digits_onto-length zero zero n rest h b = ground arith
digits_onto-length zero (suc fuel) n rest h b = ground arith
digits_onto-length (suc k) zero n rest h b = ground arith
digits_onto-length (suc k) (suc fuel) n rest h b =
    ground (arith, digits_onto-length k fuel (n / 10) ((48 + n % 10) ∷ rest))

digits_onto-blank : (fuel n : ℕ) (rest : Text) → is_blank (digits_onto fuel n rest) ≡ false
unfolding digits_onto
digits_onto-blank zero n rest = refl
digits_onto-blank (suc fuel) n rest =
    ground (arith, digits_onto-blank fuel (n / 10) ((48 + n % 10) ∷ rest))

-- What a printed number is made of.
pub decimal-digits : (n : ℕ) → (is_digits (decimal n) ≡ true) × (is_blank (decimal n) ≡ false)
unfolding decimal
decimal-digits n = (digits_onto-digits n n [] (omega arith) refl, digits_onto-blank n n [])

pub decimal-read : (n : ℕ) → read_digits 0 (decimal n) ≡ n
unfolding decimal
decimal-read n = digits_onto-read n n [] (omega arith)

-- A number of at most 20 digits is printed with at most 20 digits.
pub decimal-length : (n : ℕ) → n < 100000000000000000000 → length (decimal n) ≤ 20
unfolding decimal tens
decimal-length n h = digits_onto-length 19 n n [] (omega arith) h
