-- ===== src/Runtime/Emits.antt =====
-- What an action may do: every effect that it adds satisfies a predicate. One rule for each way to
-- build an action.
use wellcake.Common.{ℕ, Bytes, Bool, true, false, ◌∷◌, ◌≡◌, refl, In, there, if◌then◌else◌}
use wellcake.Api.{Status}
use wellcake.Runtime.{
  Env, Effect, Command, dial, send, read_clock, dial_repl_client, query, command, clock, is_some,
  succeeds, History, World, M, pure, ◌>>=◌, object, perform, ask, set_status,
}

-- `new` is `old` with effects that satisfy P in front of it.
pub data Extends (P : Effect → Type 0) (old : History) : History → Type 0 where
  same : Extends P old old
  more : {e : Effect} {new : History} → P e → Extends P old new → Extends P old (e ∷ new)

module _ {P : Effect → Type 0} where
  pub Extends-trans : {a b c : History} → Extends P a b → Extends P b c → Extends P a c
  Extends-trans x same = x
  Extends-trans x (more p y) = more p (Extends-trans x y)

pub Extends-map :
    {P Q : Effect → Type 0} {a b : History}
    → ((e : Effect) → P e → Q e)
    → Extends P a b
    → Extends Q a b
Extends-map f same = same
Extends-map f (more {e} p x) = more (f e p) (Extends-map f x)

-- An effect that was there is there later on.
pub In-Extends :
    {P : Effect → Type 0} {a b : History} {e : Effect} → Extends P a b → In e a → In e b
In-Extends same i = i
In-Extends (more p x) i = there (In-Extends x i)

-- A write that the API has accepted.
abbrev pub Written : Env → Effect → History → Type 0
Written env e h =
    (before : History) × Extends (λ x. Unit {0}) (e ∷ before) h
    × (succeeds (env.accepts (e ∷ before) e) ≡ true)

pub Written-Extends :
    {P : Effect → Type 0} (env : Env) (e : Effect) {a b : History}
    → Extends P a b
    → Written env e a
    → Written env e b
Written-Extends env e x (before, y, ok) = (before, Extends-trans y (Extends-map (λ d p. tt) x), ok)

pub record Emits {A : Type 0} (P : Effect → Type 0) (m : M A) : Type 0 where
  pub at : (w : World) → Extends P w.effects (m w).1.effects

module _ {A : Type 0} {P : Effect → Type 0} where
  pub Emits-pure : (a : A) → Emits P (pure a)
  unfolding pure
  Emits-pure a = record { at = λ w. same }

  pub Emits-ask : (e : Effect) (f : History → A) → P e → Emits P (ask e f)
  unfolding ask
  Emits-ask e f p = record { at = λ w. more p same }

  pub Emits-if :
      (b : Bool) (m n : M A)
      → (b ≡ true → Emits P m)
      → (b ≡ false → Emits P n)
      → Emits P (if b then m else n)
  Emits-if true m n km kn = km refl
  Emits-if false m n km kn = kn refl

module _ {P : Effect → Type 0} where
  pub Emits-object : Emits P object
  unfolding object
  Emits-object = record { at = λ w. same }

  pub Emits-perform : (e : Effect) → P e → Emits P (perform e)
  unfolding perform
  Emits-perform e p = record { at = λ w. more p same }

  pub Emits-set_status : (s : Status) → Emits P (set_status s)
  unfolding set_status
  Emits-set_status s = record { at = λ w. same }

module _ {A B : Type 0} {P : Effect → Type 0} where
  pub Emits-bind :
      (m : M A) (f : A → M B) → Emits P m → ((a : A) → Emits P (f a)) → Emits P (m >>= f)
  unfolding ◌>>=◌
  Emits-bind m f km kf = record {
    at = λ w. let (a, w') = m w in Extends-trans (km.at w) ((kf a).at w');
  }

module _ (env : Env) {P : Effect → Type 0} where
  pub Emits-dial :
      (host : Bytes) (port : ℕ) (password : Bytes)
      → P (dial host port password)
      → Emits P (dial_repl_client env host port password)
  unfolding dial_repl_client
  Emits-dial host port password =
      Emits-ask (dial host port password) (λ h. env.reachable h host port password)

  pub Emits-query : (host : Bytes) (c : Command) → P (send host c) → Emits P (query env host c)
  unfolding query
  Emits-query host c = Emits-ask (send host c) (λ h. env.reply h host c)

  pub Emits-command : (host : Bytes) (c : Command) → P (send host c) → Emits P (command env host c)
  unfolding command
  Emits-command host c = Emits-ask (send host c) (λ h. is_some (env.reply h host c))

  pub Emits-clock : P read_clock → Emits P (clock env)
  unfolding clock
  Emits-clock = Emits-ask read_clock env.now

pub ruleset emits_rules = (
  Emits-pure, Emits-if, Emits-object, Emits-perform, Emits-set_status, Emits-bind, Emits-dial,
  Emits-query, Emits-command, Emits-clock,
)
