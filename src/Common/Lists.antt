-- ===== src/Common/Lists.antt =====
-- Lists over the native numbers, and the predicates "all" and "some member" by recursion.
use Prim.Native.Nat.{ℕ, zero, suc, ◌+◌}
use mathlib.Core.Path.{◌≡◌, ap, ◌∙◌, sym, refl, subst}
use mathlib.Core.Logic.{◌⊎◌, inl, inr}
use mathlib.Core.Bool.{Bool, true, false, ◌&&◌, ◌||◌}
use mathlib.Core.Option.{Option, none, some}
use mathlib.Core.List.{List, [], ◌∷◌, ◌++◌}
use native.Mathlib.Omega.{arith}
use wellcake.Common.Tests.{if◌then◌else◌, Bool-cases, &&-left, &&-right}

or-true : (b : Bool) → (b || true) ≡ true
or-true true = refl
or-true false = refl

module _ {ℓ} {A : Type ℓ} where
  abbrev pub length : List A → ℕ
  length [] = 0
  length (x ∷ xs) = suc (length xs)

  abbrev pub get_elem? : List A → ℕ → Option A
  get_elem? [] i = none
  get_elem? (x ∷ xs) zero = some x
  get_elem? (x ∷ xs) (suc i) = get_elem? xs i

  abbrev pub drop : ℕ → List A → List A
  drop zero xs = xs
  drop (suc n) [] = []
  drop (suc n) (x ∷ xs) = drop n xs

  pub length-append : (xs ys : List A) → length (xs ++ ys) ≡ length xs + length ys
  length-append [] ys = omega arith
  length-append (x ∷ xs) ys = omega (arith, length-append xs ys)

  -- The items that pass a test, in order.
  unfoldable pub keep : (A → Bool) → List A → List A
  keep p [] = []
  keep p (x ∷ xs) = let rest = keep p xs in if p x then x ∷ rest else rest

  unfoldable pub exists : (A → Bool) → List A → Bool
  exists p [] = false
  exists p (x ∷ xs) = p x || exists p xs

  unfoldable pub every : (A → Bool) → List A → Bool
  every p [] = true
  every p (x ∷ xs) = p x && every p xs

module _ {ℓ κ} {A : Type ℓ} where
  abbrev pub All : (A → Type κ) → List A → Type κ
  All P [] = Unit
  All P (x ∷ xs) = P x × All P xs

module _ {ℓ} {A : Type ℓ} where
  -- Membership with the place kept, so that it can be matched.
  pub data In (a : A) : List A → Type ℓ where
    here : {x : A} {xs : List A} → x ≡ a → In a (x ∷ xs)
    there : {x : A} {xs : List A} → In a xs → In a (x ∷ xs)

  pub In-inv : {a x : A} {xs : List A} → In a (x ∷ xs) → (x ≡ a) ⊎ In a xs
  In-inv (here e) = inl e
  In-inv (there i) = inr i

  -- What passes the test is kept.
  pub In-keep : (p : A → Bool) (a : A) (xs : List A) → In a xs → p a ≡ true → In a (keep p xs)
  unfolding keep
  In-keep p a [] i h = elim i [ ]
  In-keep p a (x ∷ xs) (here e) h = rw (ap p e ∙ h) (here e)
  In-keep p a (x ∷ xs) (there i) h = elim (Bool-cases (p x)) [
    | inl passes ↦ rw passes (there (In-keep p a xs i h))
    | inr fails ↦ rw fails (In-keep p a xs i h)
  ]

  -- What is kept was there, and passes the test.
  In-if :
      {a : A} (b : Bool) (x : A) (rest : List A)
      → In a (if b then x ∷ rest else rest)
      → ((x ≡ a) × (b ≡ true)) ⊎ In a rest
  In-if true x rest (here e) = inl (e, refl)
  In-if true x rest (there i) = inr i
  In-if false x rest i = inr i

  pub In-keep-inv : (p : A → Bool) (a : A) (xs : List A) → In a (keep p xs) → In a xs × (p a ≡ true)
  unfolding keep
  In-keep-inv p a [] i = elim i [ ]
  In-keep-inv p a (x ∷ xs) i = elim (In-if (p x) x (keep p xs) i) [
    | inl (e, h) ↦ (here e, subst (λ y. p y ≡ true) e h)
    | inr j ↦ let (k, h) = In-keep-inv p a xs j in (there k, h)
  ]

  pub exists-In : (p : A → Bool) (a : A) (xs : List A) → In a xs → p a ≡ true → exists p xs ≡ true
  unfolding exists
  exists-In p a [] i h = elim i [ ]
  exists-In p a (x ∷ xs) (here e) h = rw (ap p e ∙ h) refl
  exists-In p a (x ∷ xs) (there i) h = rw (exists-In p a xs i h) (or-true (p x))

  pub exists-find :
      (p : A → Bool) (xs : List A) → exists p xs ≡ true → (a : A) × In a xs × (p a ≡ true)
  unfolding exists
  exists-find p [] h = cc
  exists-find p (x ∷ xs) h = elim (Bool-cases (p x)) [
    | inl e ↦ (x, here refl, e)
    | inr e ↦
        let (a, i, k) = exists-find p xs ((sym (ap (λ b. b || exists p xs) e)) ∙ h) in
        (a, there i, k)
  ]

  pub every-In : (p : A → Bool) (a : A) (xs : List A) → every p xs ≡ true → In a xs → p a ≡ true
  unfolding every
  every-In p a [] h i = elim i [ ]
  every-In p a (x ∷ xs) h (here e) = sym (ap p e) ∙ &&-left (p x) (every p xs) h
  every-In p a (x ∷ xs) h (there i) = every-In p a xs (&&-right (p x) (every p xs) h) i
