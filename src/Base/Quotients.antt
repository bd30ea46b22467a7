-- ===== src/Base/Quotients.antt =====
-- The quotient of two decimals in the language's default context: it is rounded to 28 significant
-- digits, half to even, and `int` then cuts what follows the point.
use Prim.Native.Nat.{ℕ, zero, suc, ◌+◌, ◌-◌, ◌*◌, ◌/◌, ◌%◌, ◌^◌, ◌≤◌, ◌<◌}
use mathlib.Core.Path.{◌≡◌, refl, sym, ap, ◌∙◌}
use mathlib.Core.Path.{subst}
use mathlib.Core.Logic.{◌⊎◌, inl, inr}
use mathlib.Core.Bool.{Bool, true, false}
use native.Mathlib.Omega.{arith}
use native.Mathlib.Nat.{
  div-add-mod, mod-lt, mul-le-mul_left, mul-le-mul_right, div-mul-le_self, lt-div-mul-add,
  div-eq_of_lt-le, div-eq_of_lt, pow-suc,
}
use alpha_pos_server.Base.Tests.{length, ltb, leb, ◌==◌, if◌then◌else◌, Bool-cases, leb→le, leb→lt}
use alpha_pos_server.Base.Texts.{decimal}

-- The whole number that is nearest to `n / d`, the even one of two.
unfoldable pub half_even : ℕ → ℕ → ℕ
half_even n d =
    let q = n / d in
    let twice = 2 * (n % d) in
    if ltb twice d then q else if ltb d twice then q + 1 else if q % 2 == 0 then q else q + 1

-- The most places after the point, of `k`, with which a number of the whole part `q` has 28 digits.
unfoldable pub places : ℕ → ℕ → ℕ
places zero q = 0
places (suc k) q = let rest = places k q in if ltb (q * 10 ^ suc k) (10 ^ 28) then suc k else rest

-- `int(n / d)`
unfoldable pub whole_quotient : ℕ → ℕ → ℕ
whole_quotient n d =
    let q = n / d in
    let fraction = 10 ^ places 28 q in
    let extra = 10 ^ (length (decimal q) - 28) in
    if ltb q (10 ^ 28)
    then half_even (n * fraction) d / fraction
    else half_even n (d * extra) * extra

nearest_by :
    (n d q r : ℕ) (below above even : Bool)
    → d * q + r ≡ n
    → r < d
    → ltb (2 * r) d ≡ below
    → ltb d (2 * r) ≡ above
    → let h = if below then q else if above then q + 1 else if even then q else q + 1 in
      (2 * n ≤ 2 * (h * d) + d) × (2 * (h * d) ≤ 2 * n + d)
nearest_by n d q r true above even whole small e f =
    let less : 2 * r < d = ground arith in (omega arith, omega arith)
nearest_by n d q r false true even whole small e f =
    let more : d < 2 * r = ground arith in (omega arith, omega arith)
nearest_by n d q r false false true whole small e f =
    let half : 2 * r ≡ d = ground arith in (omega arith, omega arith)
nearest_by n d q r false false false whole small e f =
    let half : 2 * r ≡ d = ground arith in (omega arith, omega arith)

half_even-nearest :
    (n d : ℕ)
    → 0 < d
    → (2 * n ≤ 2 * (half_even n d * d) + d) × (2 * (half_even n d * d) ≤ 2 * n + d)
unfolding half_even
half_even-nearest n d h =
    nearest_by n d (n / d) (n % d) _ _ (n / d % 2 == 0) (div-add-mod n d) (mod-lt n h) refl refl

-- Rounding at `s` parts of a unit does not change the whole part, unless the divisor is large.
lower : (n d f s h : ℕ) → f * d ≤ n → 2 * (n * s) ≤ 2 * (h * d) + d → 0 < d → f * s ≤ h
lower n d f s h whole near some_d = elim (Bool-cases (leb (f * s) h)) [
  | inl e ↦ leb→le (f * s) h e
  | inr e ↦
      let over = mul-le-mul_right d (leb→lt (f * s) h e) in
      let scaled = mul-le-mul_right s whole in omega arith
]

upper :
    (n d f s h : ℕ) → n < (f + 1) * d → 2 * (h * d) ≤ 2 * (n * s) + d → d < 2 * s → h < (f + 1) * s
upper n d f s h whole near fine = elim (Bool-cases (leb ((f + 1) * s) h)) [
  | inl e ↦
      let over = mul-le-mul_right d (leb→le ((f + 1) * s) h e) in
      let scaled = mul-le-mul_right s whole in omega arith
  | inr e ↦ leb→lt ((f + 1) * s) h e
]

places-most : (k q : ℕ) → (places k q ≡ k) ⊎ (10 ^ 28 ≤ q * 10 ^ (places k q + 1))
unfolding places
places-most zero q = inl refl
places-most (suc k) q = elim (Bool-cases (ltb (q * 10 ^ suc k) (10 ^ 28))) [
  | inl e ↦ rw e (inl refl)
  | inr e ↦ rw e (by_rest e (places-most k q))
]
  where
    by_rest :
        ltb (q * 10 ^ suc k) (10 ^ 28) ≡ false
        → (places k q ≡ k) ⊎ (10 ^ 28 ≤ q * 10 ^ (places k q + 1))
        → (places k q ≡ suc k) ⊎ (10 ^ 28 ≤ q * 10 ^ (places k q + 1))
    by_rest e (inl all) =
        let next : suc k ≡ places k q + 1 = omega arith in
        let full : 10 ^ 28 ≤ q * 10 ^ suc k = ground arith in
        inr (subst (λ j. 10 ^ 28 ≤ q * 10 ^ j) next full)
    by_rest e (inr most) = inr most

-- The divisor is below two parts of the last place.
divisor_fits : (n d f s : ℕ) → f * d ≤ n → n < 10 ^ 27 → 10 ^ 28 ≤ f * (s * 10) → d < 2 * s
divisor_fits n d f s whole small most = elim (Bool-cases (leb (2 * s) d)) [
  | inl e ↦ let over = mul-le-mul_left f (leb→le (2 * s) d e) in omega arith
  | inr e ↦ leb→lt (2 * s) d e
]

-- A dividend below 10 ^ 27 leaves room: the divisor is too small for the rounding to reach the next
-- whole number, or the quotient is nearly 0.
room :
    (n d : ℕ)
    → 0 < d
    → n < 10 ^ 27
    → (d < 2 * 10 ^ places 28 (n / d)) ⊎ ((places 28 (n / d) ≡ 28) × (2 * 10 ^ 28 ≤ d))
room n d some_d small = elim (places-most 28 (n / d)) [
  | inl all ↦ elim (Bool-cases (leb (2 * 10 ^ 28) d)) [
    | inl e ↦ inr (all, leb→le (2 * 10 ^ 28) d e)
    | inr e ↦ inl (subst (λ j. d < 2 * 10 ^ j) (sym all) (leb→lt (2 * 10 ^ 28) d e))
  ]
  | inr most ↦
      let p = places 28 (n / d) in
      let next : p + 1 ≡ suc p = omega arith in
      inl (
        divisor_fits n d (n / d) (10 ^ p) (div-mul-le_self n d) small
          (subst (λ x. 10 ^ 28 ≤ n / d * x) (ap (λ j. 10 ^ j) next ∙ pow-suc 10 p) most))
]

-- Where the quotient is nearly 0, so is the rounded one.
nearly_zero :
    (n d h : ℕ) → 2 * 10 ^ 28 ≤ d → n < 10 ^ 27 → 2 * (h * d) ≤ 2 * (n * 10 ^ 28) + d → h < 10 ^ 28
nearly_zero n d h large small near = elim (Bool-cases (leb (10 ^ 28) h)) [
  | inl e ↦ let over = mul-le-mul_right d (leb→le (10 ^ 28) h e) in omega arith
  | inr e ↦ leb→lt (10 ^ 28) h e
]

-- Below 10 ^ 27 the dividend gives the floor.
pub whole_quotient-exact : (n d : ℕ) → 0 < d → n < 10 ^ 27 → whole_quotient n d ≡ n / d
unfolding whole_quotient
whole_quotient-exact n d some_d small =
    rw (few (n / d) (div-mul-le_self n d)) (by_room (room n d some_d small))
  where
    s : ℕ
    s = 10 ^ places 28 (n / d)

    few : (f : ℕ) → f * d ≤ n → ltb f (10 ^ 28) ≡ true
    few f below =
        let one_each = mul-le-mul_left f some_d in
        let less : f < 10 ^ 28 = omega arith in ground arith

    near :
        (2 * (n * s) ≤ 2 * (half_even (n * s) d * d) + d)
        × (2 * (half_even (n * s) d * d) ≤ 2 * (n * s) + d)
    near = half_even-nearest (n * s) d some_d

    by_room :
        (d < 2 * s) ⊎ ((places 28 (n / d) ≡ 28) × (2 * 10 ^ 28 ≤ d))
        → half_even (n * s) d / s ≡ n / d
    by_room (inl fine) =
        div-eq_of_lt-le s (lower n d (n / d) s _ (div-mul-le_self n d) near.0 some_d)
          (upper n d (n / d) s _ (omega (arith, lt-div-mul-add {a = n} some_d)) near.1 fine)
    by_room (inr (all, large)) =
        div-eq_of_lt (
          subst (λ j. half_even (n * 10 ^ j) d < 10 ^ j) (sym all)
            (nearly_zero n d _ large small (half_even-nearest (n * 10 ^ 28) d some_d).1))
        ∙ sym (div-eq_of_lt (omega arith))
