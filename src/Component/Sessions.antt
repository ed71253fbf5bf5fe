-- ===== src/Component/Sessions.antt =====
-- What a connection leaves alone: the configuration, and the pauses of `run` so far.
use aegis_sdk.Prelude.{ℕ, ◌≡◌, refl, List, [], ◌∷◌, arith}
use aegis_sdk.Config.{Config}
use aegis_sdk.Protocol.{Envelope}
use aegis_sdk.Runtime.{System, slept, History, Read, Attempt, Component, ◌>>=◌}
use aegis_sdk.Runtime.Hoare.{Hoare, After-same}
use aegis_sdk.Component.Registering.{register}
use aegis_sdk.Component.Handling.{
  handle_heartbeat, handle_config, handle_lifecycle, handle_error_msg,
}
use aegis_sdk.Component.Sending.{send_envelope, send_state_update, send_error, send_ack}
use aegis_sdk.Component.Running.{run_once}
use aegis_sdk.Component.Rules.{IsInvariant, Next, run_once-Hoare}

-- The pauses in a history, the newest first.
abbrev pub sleeps : {V : Type 0} → History V → List ℕ
sleeps [] = []
sleeps (slept d ∷ events) = d ∷ sleeps events
sleeps (event ∷ events) = sleeps events

module _ {V : Type 0} (sys : System V) where
  module _ (cfg : Config) (pauses : List ℕ) where
    abbrev Keeps : Component V → Type 0
    Keeps c = (c.cfg ≡ cfg) × (sleeps c.history ≡ pauses)

    register-Keeps : (reads : List Read) → Hoare Keeps (register sys reads) (λ _. Keeps) Keeps
    unfolding register send_state_update send_envelope ◌>>=◌
    register-Keeps reads = record { at = λ c h. ground arith }

    config-Keeps :
        (t : ℕ) (env : Envelope V) → Hoare Keeps (handle_config sys env t) (λ _. Keeps) Keeps
    unfolding handle_config send_state_update send_error send_ack send_envelope ◌>>=◌
    config-Keeps t env = record { at = λ c h. ground arith }

    heartbeat-Keeps :
        (t : ℕ) (env : Envelope V) → Hoare Keeps (handle_heartbeat sys env) (λ _. Keeps) Keeps
    unfolding handle_heartbeat send_envelope ◌>>=◌
    heartbeat-Keeps t env = record { at = λ c h. ground arith }

    lifecycle-Keeps :
        (t : ℕ) (env : Envelope V)
        → Hoare Keeps (handle_lifecycle sys env t) (Next Keeps Keeps) Keeps
    unfolding handle_lifecycle send_ack send_envelope ◌>>=◌
    lifecycle-Keeps t env = record { at = λ c h. ground arith }

    error-Keeps :
        (t : ℕ) (env : Envelope V) → Hoare Keeps (handle_error_msg sys env) (λ _. Keeps) Keeps
    unfolding handle_error_msg ◌>>=◌
    error-Keeps t env = record { at = λ c h. h }

    session-IsInvariant : IsInvariant sys Keeps Keeps (λ t. Keeps) Keeps
    session-IsInvariant = record {
      connects = λ c path h. h;
      registers = register-Keeps;
      starts = λ c h. h;
      drops = λ t c h. h;
      heartbeat = heartbeat-Keeps;
      config = config-Keeps;
      lifecycle = lifecycle-Keeps;
      error_msg = error-Keeps;
    }

  pub run_once-keeps :
      (a : Attempt) (c : Component V)
      → ((run_once sys a c).1.cfg ≡ c.cfg)
        × (sleeps (run_once sys a c).1.history ≡ sleeps c.history)
  run_once-keeps a c =
      After-same (Keeps c.cfg (sleeps c.history)) (run_once sys a c)
        ((run_once-Hoare (session-IsInvariant c.cfg (sleeps c.history)) a).at c (refl, refl))
