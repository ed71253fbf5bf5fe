-- ===== src/Component/Reconnecting.antt =====
-- How `run` tries again.
use aegis_sdk.Prelude.{
  ℕ, ◌+◌, ◌-◌, ◌∙◌, ◌^◌, ◌<◌, ◌≤◌, ◌≡◌, refl, ap, ◌⊎◌, List, [], ◌∷◌, ◌++◌, length, ⊤, arith,
}
use aegis_sdk.Config.{Config}
use aegis_sdk.Runtime.{
  System, slept, Attempt, Component, Outcome, ok, err, panicked, pending, Action, ◌>>=◌,
}
use aegis_sdk.Component.Running.{u32, run_once, back_off, after_attempt, run_from, run}
use aegis_sdk.Component.Sessions.{run_once-keeps}

-- Two continuations that agree on what `m` returns are interchangeable.
bind-cong :
    {V A B : Type 0} (m : Action V A) (f g : A → Action V B) (c : Component V)
    → ((a : A) (c' : Component V) → m c ≡ (ok a, c') → f a c' ≡ g a c')
    → (m >>= f) c ≡ (m >>= g) c
unfolding ◌>>=◌
bind-cong {V} {A} {B} m f g c same = go (m c).0 (m c).1 refl
  where
    go :
        (o : Outcome A) (c' : Component V)
        → m c ≡ (o, c')
        → ((λ (x : Component V). (o, c')) >>= f) c ≡ ((λ (x : Component V). (o, c')) >>= g) c
    go (ok a) c' e = same a c' e
    go (err x) c' e = refl
    go (panicked x) c' e = refl
    go pending c' e = refl

module _ {V : Type 0} (sys : System V) where
  -- What holds once `back_off` has slept.
  pub back_off-ok :
      (k d : ℕ) {k' d' : ℕ} (c : Component V) {c' : Component V}
      → back_off sys k d c ≡ (ok (k', d'), c')
      → (k' ≡ u32 (k + 1))
        × ((c.cfg.max_reconnect_attempts ≡ 0) ⊎ (k' < c.cfg.max_reconnect_attempts))
        × (c' ≡ record c { history = slept d ∷ c.history })
        × (d' ≤ c.cfg.max_reconnect_delay)
  unfolding back_off ◌>>=◌
  back_off-ok k d c e = ground arith

  after_attempt-cong :
      (o : Outcome ⊤) (m n : Action V ⊤) (c : Component V)
      → m c ≡ n c
      → after_attempt sys o m c ≡ after_attempt sys o n c
  unfolding after_attempt
  after_attempt-cong o m n c e = ground arith

  -- After a failed attempt that was not the last, the count has gone up by one.
  pub count-back_off :
      (a : Attempt) (k d : ℕ) (c : Component V) {k' d' : ℕ} {c' : Component V}
      → back_off sys k d (run_once sys a c).1 ≡ (ok (k', d'), c')
      → k < 2 ^ 32 - 1
      → (k' ≡ k + 1)
        × (c'.cfg ≡ c.cfg)
        × ((c.cfg.max_reconnect_attempts ≡ 0) ⊎ (k' < c.cfg.max_reconnect_attempts))
  count-back_off a k d c e h =
      let kept = (run_once-keeps sys a c).0 in
      let (counted, room, state, capped) = back_off-ok k d (run_once sys a c).1 e in
      (omega arith, ap (λ (x : Component V). x.cfg) state ∙ kept, rw kept at room)

  run_from-within :
      (first more : List Attempt) (k d : ℕ) (c : Component V)
      → k < c.cfg.max_reconnect_attempts
      → c.cfg.max_reconnect_attempts < 2 ^ 32
      → k + length first ≡ c.cfg.max_reconnect_attempts
      → run_from sys k d (first ++ more) c ≡ run_from sys k d first c
  unfolding run_from
  run_from-within [] more k d c lt fits e = absurd (omega arith)
  run_from-within (a ∷ first) more k d c lt fits e =
      after_attempt-cong (run_once sys a c).0 _ _ (run_once sys a c).1 (
        bind-cong (back_off sys k d) _ _ (run_once sys a c).1 λ next c' slept_once.
          let (counted, kept, room) = count-back_off a k d c slept_once (omega arith) in
          let most = ap (λ (x : Config). x.max_reconnect_attempts) kept in
          run_from-within first more next.0 next.1 c' (omega arith) (omega arith) (omega arith))

  -- With a limit of m attempts, where 0 < m < 2 ^ 32, `run` never makes an attempt after the
  -- m-th: what would come after the first m changes nothing.
  pub run-within :
      (first more : List Attempt) (c : Component V)
      → 0 < c.cfg.max_reconnect_attempts
      → c.cfg.max_reconnect_attempts < 2 ^ 32
      → length first ≡ c.cfg.max_reconnect_attempts
      → run sys (first ++ more) c ≡ run sys first c
  unfolding run ◌>>=◌
  run-within first more c lt fits e =
      run_from-within first more 0 c.cfg.reconnect_delay c lt fits (omega arith)
