-- ===== src/Common/Numerals.antt =====
-- strconv: decimal numerals of natural numbers and integers, printed and parsed.
use Prim.Native.Nat.{ℕ, zero, suc, ◌+◌, ◌-◌, ◌*◌, ◌/◌, ◌%◌, ◌≤◌, ◌<◌}
use mathlib.Core.Path.{◌≡◌, refl, ap, ◌∙◌}
use mathlib.Core.Logic.{◌≢◌, inl, inr}
use mathlib.Core.Bool.{Bool, true, false, ◌&&◌, ◌||◌}
use mathlib.Core.Option.{Option, none, some}
use mathlib.Core.List.{[], ◌∷◌}
use native.Mathlib.Omega.{arith}
use wellcake.Common.Tests.{ltb, leb, ◌==◌, if◌then◌else◌, Bool-cases, lt→ltb}
use wellcake.Common.Int.{ℤ, pos, negsuc, neg, pos_part, neg_part}
use wellcake.Common.Text.{Bytes, codes, eqb}

-- The digits of n in front of `rest`; the fuel bounds the number of digits.
unfoldable pub digits_onto : ℕ → ℕ → Bytes → Bytes
digits_onto zero n rest = rest
digits_onto (suc f) n rest =
    let more = digits_onto f (n / 10) ((48 + n % 10) ∷ rest) in
    if ltb n 10 then (48 + n) ∷ rest else more

-- strconv.Itoa and "%d", of a number and of an integer.
unfoldable pub itoa : ℕ → Bytes
unfolding digits_onto
itoa n = digits_onto (suc n) n []

unfoldable pub itoa_ℤ : ℤ → Bytes
unfolding itoa
itoa_ℤ (pos n) = itoa n
itoa_ℤ (negsuc n) = b'-' ∷ itoa (suc n)

unfoldable pub is_digit : ℕ → Bool
is_digit c = leb 48 c && leb c 57

-- The value of a run of digits after the value `acc`.
unfoldable pub digits_value : ℕ → Bytes → Option ℕ
unfolding is_digit
digits_value acc [] = some acc
digits_value acc (c ∷ s) =
    let rest = digits_value (acc * 10 + (c - 48)) s in if is_digit c then rest else none

unfoldable pub parse_nat : Bytes → Option ℕ
unfolding digits_value
parse_nat [] = none
parse_nat (c ∷ s) = digits_value 0 (c ∷ s)

unfoldable pub pos_below : ℕ → Option ℕ → Option ℤ
pos_below bound none = none
pos_below bound (some n) = if ltb n bound then some (pos n) else none

unfoldable pub neg_to : ℕ → Option ℕ → Option ℤ
neg_to bound none = none
neg_to bound (some n) = if leb n bound then some (neg n) else none

-- strconv.ParseInt(s, 10, bits), where `bound` is 2 ^ (bits - 1); none is its error.
unfoldable pub parse_int : ℕ → Bytes → Option ℤ
unfolding parse_nat pos_below neg_to
parse_int bound [] = none
parse_int bound (c ∷ s) =
    if c == b'-'
    then neg_to bound (parse_nat s)
    else if c == b'+'
    then pos_below bound (parse_nat s)
    else pos_below bound (parse_nat (c ∷ s))

abbrev pub int32_bound : ℕ
int32_bound = 2147483648

abbrev pub int64_bound : ℕ
int64_bound = 9223372036854775808

-- strconv.ParseInt(s, 10, 32) and strconv.ParseInt(s, 10, 64); strconv.Atoi is the latter.
unfoldable pub parse_int32 : Bytes → Option ℤ
unfolding parse_int
parse_int32 = parse_int int32_bound

unfoldable pub parse_int64 : Bytes → Option ℤ
unfolding parse_int
parse_int64 = parse_int int64_bound

-- strconv.ParseBool; none is its error.
unfoldable pub parse_bool : Bytes → Option Bool
unfolding eqb
parse_bool s =
    if eqb s (codes "1")
      || eqb s (codes "t")
      || eqb s (codes "T")
      || eqb s (codes "true")
      || eqb s (codes "TRUE")
      || eqb s (codes "True")
    then some true
    else if eqb s (codes "0")
        || eqb s (codes "f")
        || eqb s (codes "F")
        || eqb s (codes "false")
        || eqb s (codes "FALSE")
        || eqb s (codes "False")
    then some false
    else none

-- The printed digits, with any bytes behind them, are read back as the number.
digits_value-digits_onto :
    (f n : ℕ) (rest : Bytes) → n < f → digits_value 0 (digits_onto f n rest) ≡ digits_value n rest
unfolding digits_onto digits_value
digits_value-digits_onto zero n rest h = elim h [ ]
digits_value-digits_onto (suc f) n rest h = elim (Bool-cases (ltb n 10)) [
  | inl small ↦ rw small (ground arith)
  | inr big ↦
      rw big
        (digits_value-digits_onto f (n / 10) ((48 + n % 10) ∷ rest) (ground arith) ∙ ground arith)
]

pub parse_nat-digits :
    (s : Bytes) {n : ℕ} → s ≢ [] → digits_value 0 s ≡ some n → parse_nat s ≡ some n
unfolding parse_nat
parse_nat-digits [] h e = absurd (h refl)
parse_nat-digits (c ∷ s) h e = e

-- A printed number starts with a digit.
abbrev pub StartsWithDigit : Bytes → Type 0
StartsWithDigit [] = ⊥
StartsWithDigit (c ∷ s) = (48 ≤ c) × (c ≤ 57)

digits_onto-StartsWithDigit :
    (f n : ℕ) (rest : Bytes) → n < f → StartsWithDigit (digits_onto f n rest)
unfolding digits_onto
digits_onto-StartsWithDigit zero n rest h = elim h [ ]
digits_onto-StartsWithDigit (suc f) n rest h = elim (Bool-cases (ltb n 10)) [
  | inl small ↦ rw small (ground arith)
  | inr big ↦ rw big (digits_onto-StartsWithDigit f (n / 10) ((48 + n % 10) ∷ rest) (ground arith))
]

parse_int-digits :
    (bound : ℕ) (s : Bytes) → StartsWithDigit s → parse_int bound s ≡ pos_below bound (parse_nat s)
unfolding parse_int
parse_int-digits bound [] h = absurd h
parse_int-digits bound (c ∷ s) h = ground arith

pub itoa-StartsWithDigit : (n : ℕ) → StartsWithDigit (itoa n)
unfolding itoa
itoa-StartsWithDigit n = digits_onto-StartsWithDigit (suc n) n [] (omega arith)

pub parse_nat-itoa : (n : ℕ) → parse_nat (itoa n) ≡ some n
unfolding itoa
parse_nat-itoa n =
    parse_nat-digits (digits_onto (suc n) n [])
      (λ e. rw e at (digits_onto-StartsWithDigit (suc n) n [] (omega arith)))
      (digits_value-digits_onto (suc n) n [] (omega arith) ∙ unfold digits_value in refl)

-- A number in the range of the type is printed and parsed back.
pub parse_int-itoa : (bound n : ℕ) → n < bound → parse_int bound (itoa n) ≡ some (pos n)
unfolding parse_int
parse_int-itoa bound n h =
    rw
      (parse_int-digits bound (itoa n) (itoa-StartsWithDigit n), parse_nat-itoa n, lt→ltb n bound h)

pub itoa_injective : (m n : ℕ) → itoa m ≡ itoa n → m ≡ n
itoa_injective m n e = cc (ap parse_nat e, parse_nat-itoa m, parse_nat-itoa n)

-- The sign is read too.
pub parse_int-itoa_ℤ :
    (bound : ℕ) (i : ℤ)
    → pos_part i < bound
    → neg_part i ≤ bound
    → parse_int bound (itoa_ℤ i) ≡ some i
unfolding parse_int itoa_ℤ
parse_int-itoa_ℤ bound (pos n) h k = parse_int-itoa bound n h
parse_int-itoa_ℤ bound (negsuc n) h k = rw (parse_nat-itoa (suc n)) (ground arith)

pub itoa_ℤ_injective : (i j : ℤ) → itoa_ℤ i ≡ itoa_ℤ j → i ≡ j
itoa_ℤ_injective i j e =
    let bound = suc (pos_part i + neg_part i + pos_part j + neg_part j) in
    cc (
      ap (parse_int bound) e,
      parse_int-itoa_ℤ bound i (omega arith) (omega arith),
      parse_int-itoa_ℤ bound j (omega arith) (omega arith),
    )
