-- ===== src/Rotation/Accepted.antt =====
-- Commands that a pod has accepted at some time, and what an action without an error has achieved.
use wellcake.Common.{Bytes, ◌≡◌, refl, List, ◌∷◌, Bool, true, false, not, In, if◌then◌else◌}
use wellcake.Naming.{PodRef}
use wellcake.Rotation.{and_then}
use wellcake.Runtime.{
  Env, World, History, Effect, Command, M, send, ◌>>=◌, pure, command, ask, is_some,
}
use wellcake.Runtime.Emits.{
  Extends, same, more, Extends-trans, Extends-map, Emits, Emits-bind, Emits-if, Emits-pure,
}
use wellcake.Runtime.Keeps.{Keeps, Keeps-bind, Keeps-if, Keeps-pure}
use wellcake.Runtime.Follows as follows

abbrev pub Grows : History → History → Type 0
Grows a b = Extends (λ e. Unit {0}) a b

pub Extends-Grows : {Q : Effect → Type 0} {a b : History} → Extends Q a b → Grows a b
Extends-Grows x = Extends-map (λ e q. tt) x

-- The command was sent to the host, and answered without an error.
abbrev pub Accepted : Env → Bytes → Command → History → Type 0
Accepted env host c h =
    (before : History) × Grows (send host c ∷ before) h
    × (is_some (env.reply (send host c ∷ before) host c) ≡ true)

pub Accepted-Grows :
    (env : Env) (host : Bytes) (c : Command) {a b : History}
    → Grows a b
    → Accepted env host c a
    → Accepted env host c b
Accepted-Grows env host c x (before, y, e) = (before, Extends-trans y x, e)

-- All pods have accepted it.
abbrev pub AllAccepted : Env → Command → List PodRef → History → Type 0
AllAccepted env c pods h = (p : PodRef) → In p pods → Accepted env p.host c h

pub AllAccepted-Grows :
    (env : Env) (c : Command) (pods : List PodRef) (a b : History)
    → Grows a b
    → AllAccepted env c pods a
    → AllAccepted env c pods b
AllAccepted-Grows env c pods a b x f = λ p i. Accepted-Grows env p.host c x (f p i)

pub command-Accepted :
    (env : Env) (host : Bytes) (c : Command) (w : World)
    → (command env host c w).0 ≡ true
    → Accepted env host c (command env host c w).1.effects
unfolding command ask
command-Accepted env host c w e = (w.effects, same, e)

-- Both parts of a sequence without an error had none.
pub record BothDone (m rest : M Bool) (w : World) : Type 0 where
  pub first : (m w).0 ≡ true
  pub second : (rest (m w).1).0 ≡ true
  pub ends : (and_then m rest w).1.effects ≡ (rest (m w).1).1.effects

pub and_then-BothDone :
    (m rest : M Bool) (w : World) → (and_then m rest w).0 ≡ true → BothDone m rest w
unfolding and_then ◌>>=◌ pure
and_then-BothDone m rest w e = by_result (m w).0 refl e
  where
    by_result :
        (b : Bool)
        → (m w).0 ≡ b
        → ((if not b then pure false else rest) (m w).1).0 ≡ true
        → BothDone m rest w
    by_result true f g = record { first = f; second = g; ends = unfold and_then ◌>>=◌ in rw f refl }
    by_result false f g = cc

module _ {P : Effect → Type 0} where
  pub Emits-and_then : (m rest : M Bool) → Emits P m → Emits P rest → Emits P (and_then m rest)
  unfolding and_then
  Emits-and_then m rest km kr =
      Emits-bind _ _ km (λ ok. Emits-if (not ok) _ _ (λ _. Emits-pure _) (λ _. kr))

pub Keeps-and_then : (m rest : M Bool) → Keeps m → Keeps rest → Keeps (and_then m rest)
unfolding and_then
Keeps-and_then m rest km kr = Keeps-bind _ _ km (λ ok. Keeps-if (not ok) _ _ (Keeps-pure _) kr)

-- Effects after a fact that stays.
pub Extends-Follows-after :
    {Q : Effect → Type 0} (F : History → Type 0) {a b : History}
    → ((x y : History) → Grows x y → F x → F y)
    → F a
    → Extends Q a b
    → follows.Follows (λ h e. Q e × F h) a b
Extends-Follows-after F grows f same = follows.same
Extends-Follows-after F grows f (more {e} {new} q x) =
    follows.more (q, grows _ _ (Extends-Grows x) f) (Extends-Follows-after F grows f x)
