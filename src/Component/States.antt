-- ===== src/Component/States.antt =====
-- The states that `run` takes a component through.
use aegis_sdk.Prelude.{ℕ, ◌≡◌, refl, subst, ◌≢◌, ◌⊎◌, ◌↔◌, inl, inr, List, ◌∷◌, ⊤, arith}
use aegis_sdk.Protocol.{
  Envelope, ComponentState, registered, initializing, ready, configured, running, shutdown,
}
use aegis_sdk.Runtime.{System, Read, Attempt, Component, Outcome, ok, err, panicked, pending, ◌>>=◌}
use aegis_sdk.Runtime.Hoare.{Hoare, After}
use aegis_sdk.Component.Sending.{send_envelope, send_state_update, send_error, send_ack}
use aegis_sdk.Component.Registering.{register}
use aegis_sdk.Component.Handling.{
  handle_heartbeat, handle_config, handle_lifecycle, handle_error_msg,
}
use aegis_sdk.Component.Running.{run}
use aegis_sdk.Component.Rules.{IsInvariant, Next, run-Hoare}

infix 40 ◌⟶◌
pub data ◌⟶◌ : ComponentState → ComponentState → Type 0 where
  -- REGISTERED, on the first or on a later connection
  join : {s : ComponentState} → s ≢ shutdown → s ⟶ registered
  prepare : registered ⟶ initializing
  settle : initializing ⟶ ready
  configure : ready ⟶ configured
  reconfigure : running ⟶ configured
  start : configured ⟶ running
  stop_early : ready ⟶ shutdown
  stop : running ⟶ shutdown

-- The states that have been passed, the newest first, are `old` and then a path of the diagram that
-- begins at s₀ and ends at the state given last.
pub data Trail (s₀ : ComponentState) (old : List ComponentState)
    : List ComponentState → ComponentState → Type 0 where
  here : Trail s₀ old old s₀
  then :
      {passed : List ComponentState} {t u : ComponentState}
      → Trail s₀ old passed t
      → t ⟶ u
      → Trail s₀ old (u ∷ passed) u

module _ {s₀ s : ComponentState} {old ss : List ComponentState} (trail : Trail s₀ old ss s) where
  joined :
      s ≢ shutdown
      → Trail s₀ old (registered ∷ ss) registered
        × Trail s₀ old (initializing ∷ registered ∷ ss) initializing
        × Trail s₀ old (ready ∷ initializing ∷ registered ∷ ss) ready
  joined h = let a = then trail (join h) in let b = then a prepare in (a, b, then b settle)

  configures :
      (s ≡ ready) ⊎ (s ≡ running)
      → Trail s₀ old (configured ∷ ss) configured × Trail s₀ old (running ∷ configured ∷ ss) running
  configures (inl e) = let a = then (subst (Trail s₀ old ss) e trail) configure in (a, then a start)
  configures (inr e) =
      let a = then (subst (Trail s₀ old ss) e trail) reconfigure in (a, then a start)

  stops : (s ≡ ready) ⊎ (s ≡ running) → Trail s₀ old (shutdown ∷ ss) shutdown
  stops (inl e) = then (subst (Trail s₀ old ss) e trail) stop_early
  stops (inr e) = then (subst (Trail s₀ old ss) e trail) stop

module _ {V : Type 0} (sys : System V) (s₀ : ComponentState) (old : List ComponentState) where
  abbrev Follows : Component V → Type 0
  Follows c = Trail s₀ old c.passed c.state

  abbrev Idle : Component V → Type 0
  Idle c = Follows c × (c.state ≢ shutdown)

  abbrev Joined : Component V → Type 0
  Joined c = Follows c × (c.state ≡ ready)

  abbrev Live : ℕ → Component V → Type 0
  Live t c = Follows c × ((c.state ≡ ready) ⊎ (c.state ≡ running))

  abbrev Done : Component V → Type 0
  Done c = Follows c × (c.state ≡ shutdown)

  register-Joined : (reads : List Read) → Hoare Idle (register sys reads) (λ _. Joined) Idle
  unfolding register send_state_update send_envelope ◌>>=◌
  register-Joined reads = record { at = λ c h. ground (arith, joined h.0 h.1) }

  config-Live :
      (t : ℕ) (env : Envelope V) → Hoare (Live t) (handle_config sys env t) (λ _. Live t) Idle
  unfolding handle_config send_state_update send_error send_ack send_envelope ◌>>=◌
  config-Live t env = record { at = λ c h. ground (arith, configures h.0 h.1) }

  heartbeat-Live :
      (t : ℕ) (env : Envelope V) → Hoare (Live t) (handle_heartbeat sys env) (λ _. Live t) Idle
  unfolding handle_heartbeat send_envelope ◌>>=◌
  heartbeat-Live t env = record { at = λ c h. ground arith }

  lifecycle-Live :
      (t : ℕ) (env : Envelope V)
      → Hoare (Live t) (handle_lifecycle sys env t) (Next (Live t) Done) Idle
  unfolding handle_lifecycle send_ack send_envelope ◌>>=◌
  lifecycle-Live t env = record { at = λ c h. ground (arith, stops h.0 h.1) }

  error-Live :
      (t : ℕ) (env : Envelope V) → Hoare (Live t) (handle_error_msg sys env) (λ _. Live t) Idle
  unfolding handle_error_msg ◌>>=◌
  error-Live t env = record { at = λ c h. h }

  states-IsInvariant : IsInvariant sys Idle Joined Live Done
  states-IsInvariant = record {
    connects = λ c path h. h;
    registers = register-Joined;
    starts = λ c h. (h.0, inl h.1);
    drops = λ t c h. ground arith;
    heartbeat = heartbeat-Live;
    config = config-Live;
    lifecycle = lifecycle-Live;
    error_msg = error-Live;
  }

  outcome :
      (r : Outcome ⊤ × Component V)
      → After (λ _. Done) Idle r
      → Follows r.1 × ((r.0 ≡ ok tt) ↔ (r.1.state ≡ shutdown))
  outcome (ok x, c) h = (h.0, ((λ _. h.1), λ _. refl))
  outcome (err e, c) h = (h.0, ((λ p. cc), λ p. absurd (h.1 p)))
  outcome (panicked e, c) h = (h.0, ((λ p. cc), λ p. absurd (h.1 p)))
  outcome (pending, c) h = (h.0, ((λ p. cc), λ p. absurd (h.1 p)))

module _ {V : Type 0} (sys : System V) (attempts : List Attempt) (c : Component V) where
  -- Whatever `run` reads and whatever fails: the states that it takes a component through, each write to
  -- `state` counted, are a path of the lifecycle diagram from the state before to the state
  -- afterwards, unless the component had shut down before. READY is entered from INITIALIZING only,
  -- CONFIGURED from READY or RUNNING, RUNNING from CONFIGURED, and SHUTDOWN from READY or RUNNING.
  pub run-path :
      c.state ≢ shutdown
      → let c' = (run sys attempts c).1 in Trail c.state c.passed c'.passed c'.state
  run-path h =
      (outcome sys c.state c.passed (run sys attempts c) (
        (run-Hoare (states-IsInvariant sys c.state c.passed) (λ x d k. k) attempts).at c
          (here, h))).0

  -- Unless it had shut down before, `run` returns `Ok` exactly if the component is then in the state
  -- SHUTDOWN.
  pub run-ok_iff :
      c.state ≢ shutdown
      → ((run sys attempts c).0 ≡ ok tt) ↔ ((run sys attempts c).1.state ≡ shutdown)
  run-ok_iff h =
      (outcome sys c.state c.passed (run sys attempts c) (
        (run-Hoare (states-IsInvariant sys c.state c.passed) (λ x d k. k) attempts).at c
          (here, h))).1
