-- ===== src/TlsReload/Served.antt =====
-- How the pods load a renewed certificate (internal/controller/tls_reload.go, reloadTLSOnPods).
use wellcake.Common.{
  Bytes, ◌≡◌, ◌⊎◌, inl, inr, refl, ap, ◌∙◌, Option, none, some, Bool, true, false, not, List, [],
  ◌∷◌, In, here, there, Bool-cases, if◌then◌else◌, ◌&&◌, &&-left, &&-right, eqb, eqb→eq,
}
use mathlib.Core.Path.{subst}
use mathlib.Core.Option.{some-injective}
use wellcake.Rotation.Accepted.{Extends-Grows, Accepted}
use wellcake.TlsReload.{
  serves, and_rest, served_cert_fingerprint, config_sets, reload_connected, reload_serving,
  reload_pod, reload_rest, reload_tls_on_pods,
}
use wellcake.Runtime.{
  Env, World, Effect, History, Command, dial, handshake, send, is_some, pure, ◌>>=◌, ask,
  dial_repl_client, command,
}
use wellcake.Runtime.Emits.{Extends, same, more, Extends-trans}

serves-eq : (desired : Bytes) (o : Option Bytes) → serves desired o ≡ true → o ≡ some desired
unfolding serves
serves-eq desired none h = cc
serves-eq desired (some f) h = ap some (eqb→eq f desired h)

both : (b : Bool) (o : Option Bool) → and_rest b o ≡ some true → (b ≡ true) × (o ≡ some true)
unfolding and_rest
both b none e = cc
both b (some c) e =
    let h = some-injective (b && c) true e in (&&-left b c h, ap some (&&-right b c h))

-- A connection to the host, or one of the settings sent to it.
abbrev pub SetsUp : List (Bytes × Bytes) → Bytes → Effect → Type 0
SetsUp all host (dial h port password) = h ≡ host
SetsUp all host (send h (Command.config_set param value)) = (h ≡ host) × In (param, value) all
SetsUp all host e = ⊥

module _ (env : Env) (all : List (Bytes × Bytes)) (desired : Bytes) where
  -- The host was sent the settings, accepted each of them, and then served the certificate.
  abbrev pub IsReloaded : Bytes → History → History → Type 0
  IsReloaded host a b =
      (mid : History) × Extends (SetsUp all host) (handshake host 6380 ∷ a) mid
      × ((s : Bytes × Bytes) → In s all → Accepted env host (Command.config_set s.0 s.1) mid)
      × (b ≡ handshake host 6380 ∷ mid)
      × (env.served b host ≡ some desired)

  -- All that is done to one pod: a look that gets no answer or finds the certificate, or a look that
  -- is followed by the settings and by another look, which finds the certificate.
  abbrev pub IsLoaded : Bytes → History → History → Type 0
  IsLoaded host a b =
      ((b ≡ handshake host 6380 ∷ a)
        × ((env.served b host ≡ none) ⊎ (env.served b host ≡ some desired)))
      ⊎ IsReloaded host a b

  -- The pods are loaded one after the other, and nothing else is done.
  pub data Loads : List Bytes → History → History → Type 0 where
    idle : {a : History} → Loads [] a a
    then_load :
        {host : Bytes} {hosts : List Bytes} {a b c : History}
        → IsLoaded host a b
        → Loads hosts b c
        → Loads (host ∷ hosts) a c

  abbrev Sets : Bytes → List (Bytes × Bytes) → World → Bool × World → Type 0
  Sets host settings w r =
      Extends (SetsUp all host) w.effects r.1.effects
      × (r.0 ≡ true
          → (s : Bytes × Bytes) → In s settings
          → Accepted env host (Command.config_set s.0 s.1) r.1.effects)

  sets :
      (host : Bytes) (settings : List (Bytes × Bytes)) (w : World)
      → ((s : Bytes × Bytes) → In s settings → In s all)
      → Sets host settings w (config_sets env host settings w)
  unfolding config_sets ◌>>=◌ command ask pure
  sets host [] w k = (same, λ ok s i. elim i [ ])
  sets host ((param, value) ∷ settings) w k = elim (Bool-cases (is_some (env.reply sent host c))) [
    | inr refused ↦ rw refused (more (refl, k (param, value) (here refl)) same, λ ok. cc)
    | inl accepted ↦
        let (x, l) = sets host settings (record w { effects = sent }) (λ s i. k s (there i)) in
        rw accepted (
          Extends-trans (more (refl, k (param, value) (here refl)) same) x,
          λ ok. each _ (w.effects, Extends-Grows x, accepted) (l ok),
        )
  ]
    where
      c : Command
      c = Command.config_set param value

      each :
          (h : History)
          → Accepted env host c h
          → ((s : Bytes × Bytes) → In s settings → Accepted env host (Command.config_set s.0 s.1) h)
          → (s : Bytes × Bytes) → In s ((param, value) ∷ settings)
          → Accepted env host (Command.config_set s.0 s.1) h
      each h first later s (here e) =
          subst (λ v. Accepted env host (Command.config_set v.0 v.1) h) e first
      each h first later s (there j) = later s j

      sent : History
      sent = send host c ∷ w.effects

  abbrev LoadsPod : Bytes → History → Option Bool × World → Type 0
  LoadsPod host a r = r.0 ≡ some true → IsLoaded host a r.1.effects

  looks :
      (host : Bytes) (a : History) (now : World) (ok : Bool)
      → Extends (SetsUp all host) (handshake host 6380 ∷ a) now.effects
      → (ok ≡ true
          → (s : Bytes × Bytes) → In s all
          → Accepted env host (Command.config_set s.0 s.1) now.effects)
      → LoadsPod host a (
          (if not ok
              then pure none
              else served_cert_fingerprint env host >>= λ served.
                  pure (some (serves desired served)))
            now)
  unfolding served_cert_fingerprint ◌>>=◌ ask pure
  looks host a now false x k e = cc
  looks host a now true x k e =
      inr (now.effects, x, k refl, refl, serves-eq desired _ (some-injective _ _ e))

  connects :
      (host : Bytes) (a : History) (b : Bool) (w : World)
      → Extends (SetsUp all host) (handshake host 6380 ∷ a) w.effects
      → LoadsPod host a (reload_connected env desired all host b w)
  unfolding reload_connected ◌>>=◌
  connects host a false w x = unfold pure in λ e. cc
  connects host a true w x =
      let (y, k) = sets host all w (λ s i. i) in
      looks host a (config_sets env host all w).1 (config_sets env host all w).0 (Extends-trans x y)
        k

  module _ (password : Bytes) where
    pod_loads :
        (host : Bytes) (w : World)
        → LoadsPod host w.effects (reload_pod env password all desired host w)
    unfolding reload_pod served_cert_fingerprint ◌>>=◌ ask
    pod_loads host w = by_served (env.served seen host) refl
      where
        seen : History
        seen = handshake host 6380 ∷ w.effects

        by_served :
            (o : Option Bytes)
            → env.served (handshake host 6380 ∷ w.effects) host ≡ o
            → LoadsPod host w.effects (
                reload_serving env password all desired host o
                  (record w { effects = handshake host 6380 ∷ w.effects }))
        by_served none e = unfold reload_serving pure in λ k. inl (refl, inl e)
        by_served (some f) e =
            unfold reload_serving ◌>>=◌ dial_repl_client ask pure in
            elim (Bool-cases (eqb f desired)) [
              | inl new ↦ rw new (λ k. inl (refl, inr (e ∙ ap some (eqb→eq f desired new))))
              | inr old ↦ rw old (connects host w.effects _ _ (more refl same))
            ]

    abbrev LoadsAll : List Bytes → History → Option Bool × World → Type 0
    LoadsAll hosts a r = r.0 ≡ some true → Loads hosts a r.1.effects

    rest_loads :
        (host : Bytes) (hosts : List Bytes) (a : History) (o : Option Bool) (now : World)
        → LoadsPod host a (o, now)
        → ((later : World)
            → LoadsAll hosts later.effects
                (reload_tls_on_pods env password all desired hosts later))
        → LoadsAll
            (host ∷ hosts)
            a
            (reload_rest env o (reload_tls_on_pods env password all desired hosts) now)
    unfolding reload_rest ◌>>=◌ pure
    rest_loads host hosts a none now l rest e = cc
    rest_loads host hosts a (some b) now l rest e =
        let (first, others) = both b (reload_tls_on_pods env password all desired hosts now).0 e in
        then_load (l (ap some first)) (rest now others)

    pub pods_load :
        (hosts : List Bytes) (w : World)
        → LoadsAll hosts w.effects (reload_tls_on_pods env password all desired hosts w)
    unfolding reload_tls_on_pods ◌>>=◌ pure
    pods_load [] w = λ e. idle
    pods_load (host ∷ hosts) w =
        rest_loads host hosts w.effects (reload_pod env password all desired host w).0
          (reload_pod env password all desired host w).1 (pod_loads host w) (pods_load hosts)
