-- ===== src/Common/Text.antt =====
-- Go strings as lists of bytes, and the functions of `strings` and `strconv` that the code calls.
-- White space is the ASCII one: the texts that are split here come from Valkey and Kubernetes.
use Prim.Native.Nat.{ℕ}
use Prim.Native.Char.{code}
use Prim.Native.String.{String}
use mathlib.Core.Path.{◌≡◌, refl, ap}
use mathlib.Core.Logic.{◌≢◌}
use mathlib.Core.Bool.{Bool, true, false, ◌&&◌, ◌||◌, not}
use mathlib.Core.Option.{Option, none, some}
use mathlib.Core.List.{List, [], ◌∷◌}
use native.Mathlib.Omega.{arith}
use wellcake.Common.Tests.{leb, ◌==◌, if◌then◌else◌, ==→eq, ==_refl, &&-left, &&-right}
use wellcake.Common.Lists.{keep}

abbrev pub Bytes : Type 0
Bytes = List ℕ

-- The bytes of an ASCII literal.
abbrev pub codes : String → Bytes
codes String.[] = []
codes (String.◌∷◌ c s) = code c ∷ codes s

-- s == t on strings.
unfoldable pub eqb : Bytes → Bytes → Bool
eqb [] [] = true
eqb [] (b ∷ t) = false
eqb (a ∷ s) [] = false
eqb (a ∷ s) (b ∷ t) = (a == b) && eqb s t

pub eqb→eq : (s t : Bytes) → eqb s t ≡ true → s ≡ t
unfolding eqb
eqb→eq [] [] h = refl
eqb→eq [] (b ∷ t) h = cc
eqb→eq (a ∷ s) [] h = cc
eqb→eq (a ∷ s) (b ∷ t) h =
    cc (==→eq a b (&&-left (a == b) (eqb s t) h), eqb→eq s t (&&-right (a == b) (eqb s t) h))

pub eqb_refl : (s : Bytes) → eqb s s ≡ true
unfolding eqb
eqb_refl [] = refl
eqb_refl (a ∷ s) = rw (==_refl a, eqb_refl s)

pub eqb-ne : (s t : Bytes) → s ≢ t → eqb s t ≡ false
eqb-ne s t h = ground (arith, eqb→eq s t)

pub eqb-false : (s t : Bytes) → eqb s t ≡ false → s ≢ t
eqb-false s t h e = cc (h, ap (λ u. eqb s u) e, eqb_refl s)

-- s == "".
unfoldable pub is_empty : Bytes → Bool
is_empty [] = true
is_empty (c ∷ s) = false

-- strings.HasPrefix, strings.Contains and strings.HasSuffix.
unfoldable pub has_prefix : Bytes → Bytes → Bool
has_prefix s [] = true
has_prefix [] (b ∷ t) = false
has_prefix (a ∷ s) (b ∷ t) = (a == b) && has_prefix s t

unfoldable pub contains : Bytes → Bytes → Bool
contains [] t = is_empty t
contains (a ∷ s) t = has_prefix (a ∷ s) t || contains s t

unfoldable pub has_suffix : Bytes → Bytes → Bool
has_suffix [] t = is_empty t
has_suffix (a ∷ s) t = eqb (a ∷ s) t || has_suffix s t

-- strings.TrimPrefix, with whether the prefix was there.
unfoldable pub after_prefix : Bytes → Bytes → Option Bytes
after_prefix s [] = some s
after_prefix [] (b ∷ t) = none
after_prefix (a ∷ s) (b ∷ t) = let rest = after_prefix s t in if a == b then rest else none

-- strings.Cut at the first byte `sep`, and the cut at the last one.
unfoldable pub map_before : ℕ → Option (Bytes × Bytes) → Option (Bytes × Bytes)
map_before c none = none
map_before c (some (before, after)) = some (c ∷ before, after)

unfoldable pub cut : ℕ → Bytes → Option (Bytes × Bytes)
unfolding map_before
cut sep [] = none
cut sep (c ∷ s) = let rest = map_before c (cut sep s) in if c == sep then some ([], s) else rest

unfoldable pub or_cut : Option (Bytes × Bytes) → Option (Bytes × Bytes) → Option (Bytes × Bytes)
or_cut (some p) other = some p
or_cut none other = other

unfoldable pub last_cut : ℕ → Bytes → Option (Bytes × Bytes)
unfolding map_before or_cut
last_cut sep [] = none
last_cut sep (c ∷ s) =
    or_cut (map_before c (last_cut sep s)) (if c == sep then some ([], s) else none)

-- strings.Split at the bytes that a test picks: always one part more than separators.
unfoldable pub push_byte : ℕ → List Bytes → List Bytes
push_byte c [] = (c ∷ []) ∷ []
push_byte c (p ∷ ps) = (c ∷ p) ∷ ps

unfoldable pub split_by : (ℕ → Bool) → Bytes → List Bytes
unfolding push_byte
split_by sep [] = [] ∷ []
split_by sep (c ∷ s) = let parts = split_by sep s in if sep c then [] ∷ parts else push_byte c parts

unfoldable pub split_on : ℕ → Bytes → List Bytes
unfolding split_by
split_on b = split_by (λ c. c == b)

unfoldable pub is_space : ℕ → Bool
is_space c = c == 32 || (leb 9 c && leb c 13)

-- strings.Fields.
unfoldable pub fields : Bytes → List Bytes
unfolding split_by is_space keep is_empty
fields s = keep (λ p. not (is_empty p)) (split_by is_space s)

-- strings.TrimSpace.
unfoldable pub trim_left : Bytes → Bytes
unfolding is_space
trim_left [] = []
trim_left (c ∷ s) = let rest = trim_left s in if is_space c then rest else c ∷ s

unfoldable pub trim_onto : ℕ → Bytes → Bytes
unfolding is_space
trim_onto c [] = if is_space c then [] else c ∷ []
trim_onto c (d ∷ s) = c ∷ d ∷ s

unfoldable pub trim_right : Bytes → Bytes
unfolding trim_onto
trim_right [] = []
trim_right (c ∷ s) = trim_onto c (trim_right s)

unfoldable pub trim_space : Bytes → Bytes
unfolding trim_left trim_right
trim_space s = trim_right (trim_left s)
