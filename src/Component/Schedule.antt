-- ===== src/Component/Schedule.antt =====
-- When `run` tries again, whatever its attempts come to.
use aegis_sdk.Prelude.{
  ℕ, zero, suc, ◌+◌, ◌*◌, ◌≤◌, ◌≡◌, refl, ap, sym, ◌∙◌, ◌⊎◌, inl, inr, List, [], ◌∷◌, ◌++◌, length,
  min, ⊤, arith,
}
use aegis_sdk.Config.{from_secs}
use aegis_sdk.Runtime.{System, slept, Attempt, Component, Outcome, Action, ◌>>=◌}
use aegis_sdk.Component.Running.{u32, run_once, back_off, after_attempt, run_from, run}
use aegis_sdk.Component.BackOff.{DoublesSeconds, IsBackOff, pause, pause-suc, starts}
use aegis_sdk.Component.Sessions.{sleeps, run_once-keeps}
use mathlib.Core.List.{append_assoc}

-- The i-th pause and the n - 1 after it, the newest first.
unfoldable pub delays : ℕ → ℕ → ℕ → ℕ → List ℕ
delays first most i zero = []
delays first most i (suc n) = delays first most (suc i) n ++ from_secs (pause first most i) ∷ []

module _ {V : Type 0} (sys : System V) where
  after_attempt-cases :
      (o : Outcome ⊤) (again : Action V ⊤) (c : Component V)
      → ((after_attempt sys o again c).1 ≡ c) ⊎ (after_attempt sys o again c ≡ again c)
  unfolding after_attempt ◌>>=◌
  after_attempt-cases o again c = ground arith

  -- Either `run` gives up after a failed attempt, or it sleeps and goes on.
  retry-cases :
      (k d d' : ℕ) (f : ℕ × ℕ → Action V ⊤) (c : Component V)
      → sys.mul_f32_2 d ≡ inr d'
      → (((back_off sys k d >>= f) c).1 ≡ c)
        ⊎ ((back_off sys k d >>= f) c
            ≡ f
                (u32 (k + 1), min d' c.cfg.max_reconnect_delay)
                (record c { history = slept d ∷ c.history }))
  unfolding back_off ◌>>=◌
  retry-cases k d d' f c e = ground arith

  -- One round of `run`: the attempt is the last, or a pause follows and the next.
  round-cases :
      (k d d' : ℕ) (a : Attempt) (later : List Attempt) (c : Component V)
      → sys.mul_f32_2 d ≡ inr d'
      → (sleeps (run_from sys k d (a ∷ later) c).1.history ≡ sleeps c.history)
        ⊎ ((c' : Component V) × (c'.cfg ≡ c.cfg)
            × (sleeps c'.history ≡ d ∷ sleeps c.history)
            × (run_from sys k d (a ∷ later) c
                ≡ run_from sys (u32 (k + 1)) (min d' c.cfg.max_reconnect_delay) later c'))
  unfolding run_from
  round-cases k d d' a later c e =
      let c₁ = (run_once sys a c).1 in
      let (cfg, quiet) = run_once-keeps sys a c in
      let again = back_off sys k d >>= λ next. run_from sys next.0 next.1 later in
      elim (after_attempt-cases (run_once sys a c).0 again c₁) [
        | inl ends ↦ inl (ap (λ (x : Component V). sleeps x.history) ends ∙ quiet)
        | inr goes ↦ elim (retry-cases k d d' (λ next. run_from sys next.0 next.1 later) c₁ e) [
          | inl ends ↦ inl (
              ap (λ r. sleeps r.1.history) goes
              ∙ ap (λ (x : Component V). sleeps x.history) ends
              ∙ quiet)
          | inr sleeps_once ↦ inr (
            record c₁ { history = slept d ∷ c₁.history },
            cfg,
            ap (λ s. d ∷ s) quiet,
            goes
                ∙ sleeps_once
                ∙ ap
                    (λ m.
                      run_from sys (u32 (k + 1)) (min d' m) later
                        (record c₁ { history = slept d ∷ c₁.history }))
                    (ap (λ x. x.max_reconnect_delay) cfg),
          )
        ]
      ]

module _ {V : Type 0} (sys : System V) (doubles : DoublesSeconds sys) (first most : ℕ) where
  run_from-delays :
      (i k : ℕ) (attempts : List Attempt) (c : Component V)
      → IsBackOff c.cfg first most
      → (n : ℕ) × (n ≤ length attempts)
        × (sleeps (run_from sys k (from_secs (pause first most i)) attempts c).1.history
            ≡ delays first most i n ++ sleeps c.history)
  unfolding delays
  run_from-delays i k [] c b = (0, omega arith, unfold run_from in refl)
  run_from-delays i k (a ∷ later) c b =
      let d' = from_secs (2 * pause first most i) in
      let next : min d' c.cfg.max_reconnect_delay ≡ from_secs (pause first most (suc i)) =
        omega (arith, pause-suc first most i, b.stops_at) in
      elim (round-cases sys k _ d' a later c
        (doubles (pause first most i) (omega (arith, b.exact)))) [
          | inl ends ↦ (0, omega arith, ends)
          | inr (c', cfg, slept_once, goes) ↦
              let (n, few, rest) = run_from-delays (suc i) (u32 (k + 1)) later c' (rw cfg b) in
              (
                suc n,
                omega arith,
                ap (λ r. sleeps r.1.history)
                      (goes ∙ ap (λ d. run_from sys (u32 (k + 1)) d later c') next)
                    ∙ rest
                    ∙ ap (λ s. delays first most (suc i) n ++ s) slept_once
                    ∙ sym (
                        append_assoc (delays first most (suc i) n)
                          (from_secs (pause first most i) ∷ []) (sleeps c.history)),
              )
        ]

  -- Whatever the attempts come to, connections that were served for a time included: the pauses of `run`
  -- are the first delay, then each twice as long as the one before, up to the longest delay, and a
  -- connection that succeeds does not start them again. There is at most one for each attempt.
  -- Reconnection is enabled, the first delay is at most the longest, and both are whole seconds, at
  -- which doubling is exact.
  pub run-delays :
      (attempts : List Attempt) (c : Component V)
      → IsBackOff c.cfg first most
      → (n : ℕ) × (n ≤ length attempts)
        × (sleeps (run sys attempts c).1.history ≡ delays first most 0 n ++ sleeps c.history)
  unfolding run ◌>>=◌
  run-delays attempts c b =
      let (n, few, rest) = run_from-delays 0 0 attempts c b in
      (
        n,
        few,
        ap (λ d. sleeps (run_from sys 0 d attempts c).1.history) (starts sys doubles first most c b)
            ∙ rest,
      )
