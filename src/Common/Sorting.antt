-- ===== src/Common/Sorting.antt =====
-- sort.Slice and sort.Strings, as an insertion sort by a test "less".
use mathlib.Core.Path.{◌≡◌, refl, subst}
use mathlib.Core.Logic.{◌⊎◌, inl, inr}
use mathlib.Core.Bool.{Bool, true, false}
use mathlib.Core.List.{List, [], ◌∷◌}
use wellcake.Common.Tests.{if◌then◌else◌, ltb, ◌==◌}
use wellcake.Common.Lists.{In, here, there}
use wellcake.Common.Text.{Bytes}

-- a < b on strings.
unfoldable pub ltb_bytes : Bytes → Bytes → Bool
ltb_bytes [] [] = false
ltb_bytes [] (b ∷ t) = true
ltb_bytes (a ∷ s) [] = false
ltb_bytes (a ∷ s) (b ∷ t) = let later = ltb_bytes s t in if a == b then later else ltb a b

module _ {ℓ} {A : Type ℓ} (less : A → A → Bool) where
  unfoldable pub insert_by : A → List A → List A
  insert_by p [] = p ∷ []
  insert_by p (q ∷ rest) =
      let later = insert_by p rest in if less q p then q ∷ later else p ∷ q ∷ rest

  unfoldable pub sort_by : List A → List A
  sort_by [] = []
  sort_by (p ∷ rest) = insert_by p (sort_by rest)

  pub insert_by-In-inv : (p q : A) (xs : List A) → In q (insert_by p xs) → (p ≡ q) ⊎ In q xs
  unfolding insert_by
  insert_by-In-inv p q [] (here e) = inl e
  insert_by-In-inv p q [] (there i) = elim i [ ]
  insert_by-In-inv p q (x ∷ xs) i = by_test (insert_by-In-inv p q xs) (less x p) i
    where
      by_test :
          (In q (insert_by p xs) → (p ≡ q) ⊎ In q xs)
          → (b : Bool) → In q (if b then x ∷ insert_by p xs else p ∷ x ∷ xs)
          → (p ≡ q) ⊎ In q (x ∷ xs)
      by_test later true (here e) = inr (here e)
      by_test later true (there j) = elim (later j) [ inl e ↦ inl e | inr k ↦ inr (there k) ]
      by_test later false (here e) = inl e
      by_test later false (there j) = inr j

  insert_by-head : (p : A) (xs : List A) → In p (insert_by p xs)
  unfolding insert_by
  insert_by-head p [] = here refl
  insert_by-head p (x ∷ xs) = by_test (insert_by-head p xs) (less x p)
    where
      by_test :
          In p (insert_by p xs) → (b : Bool) → In p (if b then x ∷ insert_by p xs else p ∷ x ∷ xs)
      by_test later true = there later
      by_test later false = here refl

  insert_by-In : (p q : A) (xs : List A) → In q xs → In q (insert_by p xs)
  unfolding insert_by
  insert_by-In p q [] i = elim i [ ]
  insert_by-In p q (x ∷ xs) i = by_test (insert_by-In p q xs) (less x p) i
    where
      by_test :
          (In q xs → In q (insert_by p xs))
          → (b : Bool) → In q (x ∷ xs)
          → In q (if b then x ∷ insert_by p xs else p ∷ x ∷ xs)
      by_test later true (here e) = here e
      by_test later true (there j) = there (later j)
      by_test later false j = there j

  -- Sorting keeps the members.
  pub sort_by-In : (q : A) (xs : List A) → In q xs → In q (sort_by xs)
  unfolding sort_by
  sort_by-In q [] i = elim i [ ]
  sort_by-In q (p ∷ rest) (here e) =
      subst (λ y. In y (insert_by p (sort_by rest))) e (insert_by-head p (sort_by rest))
  sort_by-In q (p ∷ rest) (there i) = insert_by-In p q (sort_by rest) (sort_by-In q rest i)

  pub sort_by-In-inv : (q : A) (xs : List A) → In q (sort_by xs) → In q xs
  unfolding sort_by
  sort_by-In-inv q [] i = elim i [ ]
  sort_by-In-inv q (p ∷ rest) i = elim (insert_by-In-inv p q (sort_by rest) i) [
    | inl e ↦ here e
    | inr j ↦ there (sort_by-In-inv q rest j)
  ]
