-- ===== src/Runtime/Follows.antt =====
-- What an action may do and when: every effect that it adds satisfies a predicate of the effects
-- before it.
use wellcake.Common.{◌∷◌}
use wellcake.Runtime.{Effect, History}
use wellcake.Runtime.Emits.{Extends}

pub data Follows (P : History → Effect → Type 0) (old : History) : History → Type 0 where
  same : Follows P old old
  more : {e : Effect} {new : History} → P new e → Follows P old new → Follows P old (e ∷ new)

module _ {P : History → Effect → Type 0} where
  pub Follows-trans : {a b c : History} → Follows P a b → Follows P b c → Follows P a c
  Follows-trans x same = x
  Follows-trans x (more p y) = more p (Follows-trans x y)

  -- Effects that the predicate allows at any time.
  pub Extends-Follows :
      {Q : Effect → Type 0} {a b : History}
      → ((h : History) (e : Effect) → Q e → P h e)
      → Extends Q a b
      → Follows P a b
  Extends-Follows f Extends.same = same
  Extends-Follows f (Extends.more {e} {new} q x) = more (f new e q) (Extends-Follows f x)

pub Follows-map :
    {P Q : History → Effect → Type 0} {a b : History}
    → ((h : History) (e : Effect) → P h e → Q h e)
    → Follows P a b
    → Follows Q a b
Follows-map f same = same
Follows-map f (more {e} {new} p x) = more (f new e p) (Follows-map f x)
