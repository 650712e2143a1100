-- ===== src/Cluster/Slots.antt =====
-- internal/controller/cluster.go: slotsCount.
use wellcake.Common.{
  ℕ, zero, suc, ◌+◌, ◌-◌, ◌/◌, ◌%◌, ◌≤◌, ◌<◌, ◌≡◌, refl, ap, ◌∙◌, inl, inr, Bytes, Option, none,
  some, false, Bool-cases, List, [], ◌∷◌, ◌++◌, map, if◌then◌else◌, ◌==◌, ltb, is_empty, cut, ℤ,
  pos, leb_ℤ, parse_int64, int32, arith, itoa, All, StartsWithDigit, itoa-StartsWithDigit,
  parse_int-itoa, pos_part, neg_part, map_before, int64_bound, digits_onto,
}

-- int32(hi - lo + 1), where hi is at least lo.
unfoldable pub slot_span : ℤ → ℤ → ℕ
slot_span lo hi = int32 ((pos_part hi + neg_part lo) - (pos_part lo + neg_part hi) + 1)

unfoldable pub count_range : Option ℤ → Option ℤ → ℕ
unfolding slot_span
count_range (some lo) (some hi) = if leb_ℤ lo hi then slot_span lo hi else 0
count_range (some lo) none = 0
count_range none hi = 0

unfoldable pub count_single : Option ℤ → ℕ
count_single none = 0
count_single (some n) = 1

unfoldable pub count_cut : Option (Bytes × Bytes) → Bytes → ℕ
unfolding count_range count_single
count_cut none t = count_single (parse_int64 t)
count_cut (some (lo, hi)) t =
    if is_empty lo
    then count_single (parse_int64 t)
    else count_range (parse_int64 lo) (parse_int64 hi)

unfoldable pub slot_count : Bytes → ℕ
unfolding count_cut
slot_count t = count_cut (cut b'-' t) t

unfoldable pub add_slots : ℕ → List Bytes → ℕ
add_slots total [] = total
add_slots total (t ∷ tokens) = add_slots (int32 (total + slot_count t)) tokens

-- slotsCount.
unfoldable pub slots_count : List Bytes → ℕ
slots_count tokens = add_slots 0 tokens

-- The tokens that CLUSTER NODES prints for ranges of slots.
abbrev pub print_range : ℕ × ℕ → Bytes
print_range (lo, hi) = if lo == hi then itoa lo else itoa lo ++ (b'-' ∷ itoa hi)

abbrev pub IsRange : ℕ × ℕ → Type 0
IsRange (lo, hi) = (lo ≤ hi) × (hi < 16384)

abbrev pub total_size : ℕ → List (ℕ × ℕ) → ℕ
total_size n [] = n
total_size n ((lo, hi) ∷ ranges) = total_size (n + (hi - lo + 1)) ranges

-- No byte of a printed number is a dash.
abbrev NoDash : Bytes → Type 0
NoDash s = All (λ c. (c == b'-') ≡ false) s

digits_onto-NoDash : (f n : ℕ) (rest : Bytes) → NoDash rest → NoDash (digits_onto f n rest)
unfolding digits_onto
digits_onto-NoDash zero n rest h = h
digits_onto-NoDash (suc f) n rest h = elim (Bool-cases (ltb n 10)) [
  | inl small ↦ rw small (ground arith, h)
  | inr big ↦ rw big (digits_onto-NoDash f (n / 10) ((48 + n % 10) ∷ rest) (ground arith, h))
]

itoa-NoDash : (n : ℕ) → NoDash (itoa n)
unfolding itoa
itoa-NoDash n = digits_onto-NoDash (suc n) n [] tt

cut-NoDash : (s : Bytes) → NoDash s → cut b'-' s ≡ none
unfolding cut map_before
cut-NoDash [] h = refl
cut-NoDash (c ∷ s) (h, k) = rw (h, cut-NoDash s k)

cut-dash : (s t : Bytes) → NoDash s → cut b'-' (s ++ (b'-' ∷ t)) ≡ some (s, t)
unfolding cut map_before
cut-dash [] t h = refl
cut-dash (c ∷ s) t (h, k) = rw (h, cut-dash s t k)

itoa-not_empty : (n : ℕ) → is_empty (itoa n) ≡ false
itoa-not_empty n = starts (itoa n) (itoa-StartsWithDigit n)
  where
    starts : (s : Bytes) → StartsWithDigit s → is_empty s ≡ false
    starts [] h = absurd h
    starts (c ∷ s) h = unfold is_empty in refl

parse_int64-itoa : (n : ℕ) → n < 16384 → parse_int64 (itoa n) ≡ some (pos n)
unfolding parse_int64
parse_int64-itoa n h = parse_int-itoa int64_bound n (omega arith)

slot_count-print_range :
    (lo hi : ℕ) → lo ≤ hi → hi < 16384 → slot_count (print_range (lo, hi)) ≡ hi - lo + 1
unfolding slot_count count_cut count_range count_single slot_span leb_ℤ
slot_count-print_range lo hi h k = elim (Bool-cases (lo == hi)) [
  | inl one ↦
      rw (one, cut-NoDash (itoa lo) (itoa-NoDash lo), parse_int64-itoa lo (omega arith))
        (ground arith)
  | inr many ↦
      rw
        (
          many,
          cut-dash (itoa lo) (itoa hi) (itoa-NoDash lo),
          itoa-not_empty lo,
          parse_int64-itoa lo (omega arith),
          parse_int64-itoa hi k,
        )
        (ground arith)
]

add_slots-print_range :
    (n : ℕ) (ranges : List (ℕ × ℕ))
    → All IsRange ranges
    → add_slots (int32 n) (map print_range ranges) ≡ int32 (total_size n ranges)
unfolding add_slots
add_slots-print_range n [] h = refl
add_slots-print_range n ((lo, hi) ∷ ranges) ((le, lt), h) =
    ap (λ k. add_slots (int32 (int32 n + k)) (map print_range ranges))
      (slot_count-print_range lo hi le lt)
    ∙ ap (λ m. add_slots m (map print_range ranges)) same_int32
    ∙ add_slots-print_range (n + (hi - lo + 1)) ranges h
  where
    same_int32 : int32 (int32 n + (hi - lo + 1)) ≡ int32 (n + (hi - lo + 1))
    same_int32 = omega arith

-- slotsCount of the tokens that print ranges of slots is the number of slots in them, as an int32.
pub slots_count-print_range :
    (ranges : List (ℕ × ℕ))
    → All IsRange ranges
    → slots_count (map print_range ranges) ≡ int32 (total_size 0 ranges)
unfolding slots_count
slots_count-print_range ranges h = add_slots-print_range 0 ranges h
