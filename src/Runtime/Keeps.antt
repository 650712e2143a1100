-- ===== src/Runtime/Keeps.antt =====
-- Actions that leave the object in memory as it is. One rule for each way to build one.
use wellcake.Common.{ℕ, Bytes, Bool, true, false, ◌≡◌, refl, ◌∙◌, if◌then◌else◌}
use wellcake.Runtime.{
  Env, Effect, Command, dial_repl_client, query, command, clock, History, World, M, pure, ◌>>=◌,
  object, perform, ask,
}

pub record Keeps {A : Type 0} (m : M A) : Type 0 where
  pub kept : (w : World) → (m w).1.vc ≡ w.vc

module _ {A : Type 0} where
  pub Keeps-pure : (a : A) → Keeps (pure a)
  unfolding pure
  Keeps-pure a = record { kept = λ w. refl }

  pub Keeps-ask : (e : Effect) (f : History → A) → Keeps (ask e f)
  unfolding ask
  Keeps-ask e f = record { kept = λ w. refl }

  pub Keeps-if : (b : Bool) (m n : M A) → Keeps m → Keeps n → Keeps (if b then m else n)
  Keeps-if true m n km kn = km
  Keeps-if false m n km kn = kn

pub Keeps-object : Keeps object
unfolding object
Keeps-object = record { kept = λ w. refl }

pub Keeps-perform : (e : Effect) → Keeps (perform e)
unfolding perform
Keeps-perform e = record { kept = λ w. refl }

module _ {A B : Type 0} where
  pub Keeps-bind : (m : M A) (f : A → M B) → Keeps m → ((a : A) → Keeps (f a)) → Keeps (m >>= f)
  unfolding ◌>>=◌
  Keeps-bind m f km kf = record { kept = λ w. let (a, w') = m w in (kf a).kept w' ∙ km.kept w }

module _ (env : Env) where
  pub Keeps-dial :
      (host : Bytes) (port : ℕ) (password : Bytes) → Keeps (dial_repl_client env host port password)
  unfolding dial_repl_client ask
  Keeps-dial host port password = record { kept = λ w. refl }

  pub Keeps-query : (host : Bytes) (c : Command) → Keeps (query env host c)
  unfolding query ask
  Keeps-query host c = record { kept = λ w. refl }

  pub Keeps-command : (host : Bytes) (c : Command) → Keeps (command env host c)
  unfolding command ask
  Keeps-command host c = record { kept = λ w. refl }

  pub Keeps-clock : Keeps (clock env)
  unfolding clock ask
  Keeps-clock = record { kept = λ w. refl }

pub ruleset keeps_rules = (
  Keeps-pure, Keeps-ask, Keeps-if, Keeps-object, Keeps-perform, Keeps-bind, Keeps-dial, Keeps-query,
  Keeps-command, Keeps-clock,
)
