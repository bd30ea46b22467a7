-- ===== src/Base/Texts.antt =====
-- Texts as lists of code points, with Python's `strip` and `==`.
pub mod Decimals
use Prim.Native.Nat.{ℕ, zero, suc, ◌+◌, ◌-◌, ◌*◌, ◌/◌, ◌%◌}
use mathlib.Core.Path.{◌≡◌, refl}
use mathlib.Core.Bool.{Bool, true, false, ◌&&◌, ◌||◌}
use mathlib.Core.List.{List, [], ◌∷◌, reverse}
use native.Mathlib.Omega.{arith}
use Prim.Native.Char.{code}
use Prim.Native.String.{String}
use alpha_pos_server.Base.Tests.{leb, ◌==◌, if◌then◌else◌}

abbrev pub Text : Type 0
Text = List ℕ

abbrev pub text_eq : Text → Text → Bool
text_eq [] [] = true
text_eq (a ∷ s) (b ∷ t) = a == b && text_eq s t
text_eq _ _ = false

pub text_eq→eq : (s t : Text) → text_eq s t ≡ true → s ≡ t
text_eq→eq [] [] h = refl
text_eq→eq [] (b ∷ t) h = cc
text_eq→eq (a ∷ s) [] h = cc
text_eq→eq (a ∷ s) (b ∷ t) h = ground (arith, text_eq→eq s t)

pub text_eq_refl : (s : Text) → text_eq s s ≡ true
text_eq_refl [] = refl
text_eq_refl (a ∷ s) = ground (arith, text_eq_refl s)

-- Truthiness of a text: the empty one is false.
abbrev pub is_blank : Text → Bool
is_blank [] = true
is_blank (a ∷ s) = false

-- `str.isspace` of one character.
pub is_space : ℕ → Bool
is_space c =
    leb 9 c && leb c 13
    || leb 28 c && leb c 32
    || c == 0x85
    || c == 0xa0
    || c == 0x1680
    || leb 0x2000 c && leb c 0x200a
    || c == 0x2028
    || c == 0x2029
    || c == 0x202f
    || c == 0x205f
    || c == 0x3000

pub lstrip : Text → Text
lstrip [] = []
lstrip (c ∷ s) = let rest = lstrip s in if is_space c then rest else c ∷ s

unfoldable pub strip : Text → Text
unfolding lstrip is_space
strip s = reverse (lstrip (reverse (lstrip s)))

unfoldable pub take_chars : ℕ → Text → Text
take_chars zero s = []
take_chars (suc n) [] = []
take_chars (suc n) (c ∷ s) = c ∷ take_chars n s

-- The code points of a literal of the source.
abbrev pub text : String → Text
text String.[] = []
text (String.◌∷◌ c rest) = code c ∷ text rest

-- `str(n)`: the decimal digits, with as much fuel as the number itself, which is more than enough.
digits_onto : ℕ → ℕ → Text → Text
digits_onto zero n rest = (48 + n % 10) ∷ rest
digits_onto (suc fuel) n rest =
    let front = digits_onto fuel (n / 10) ((48 + n % 10) ∷ rest) in
    if leb 10 n then front else (48 + n % 10) ∷ rest

unfoldable pub decimal : ℕ → Text
unfolding digits_onto
decimal n = digits_onto n n []

-- `isascii() and isdecimal()`, of a text that is not empty.
abbrev pub is_digits : Text → Bool
is_digits [] = true
is_digits (c ∷ s) = leb 48 c && leb c 57 && is_digits s

-- `int(s)` of decimal digits, after a number that is already read.
abbrev pub read_digits : ℕ → Text → ℕ
read_digits n [] = n
read_digits n (c ∷ s) = read_digits (n * 10 + (c - 48)) s

-- `upper` and `lower`, on the characters that can become a letter of the words compared with.
abbrev pub upper_char : ℕ → ℕ
upper_char c =
    if leb 97 c && leb c 122
    then c - 32
    else if c == 0x131
    then 73
    else if c == 0x17f
    then 83
    else c

abbrev pub lower_char : ℕ → ℕ
lower_char c = if leb 65 c && leb c 90 then c + 32 else if c == 0x212a then 107 else c
