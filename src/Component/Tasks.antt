-- ===== src/Component/Tasks.antt =====
-- When the tasks that run `on_running` are started, and with which tokens.
use aegis_sdk.Prelude.{ℕ, suc, ◌<◌, ◌≡◌, ◌≢◌, List, [], ◌∷◌, some, none, arith, lookup}
use aegis_sdk.Protocol.{Envelope, Command, MessageType, running, configured}
use aegis_sdk.Protocol.Names.{state_name}
use aegis_sdk.Runtime.{
  System, History, sent, on_configure, spawned, cancelled, Read, Attempt, Component, ◌>>=◌,
}
use aegis_sdk.Runtime.Hoare.{Hoare, After-same}
use aegis_sdk.Component.Sending.{send_envelope, send_state_update, send_error, send_ack}
use aegis_sdk.Component.Registering.{register}
use aegis_sdk.Component.Handling.{
  handle_heartbeat, handle_config, handle_lifecycle, handle_error_msg,
}
use aegis_sdk.Component.Running.{run}
use aegis_sdk.Component.Rules.{IsInvariant, Next, run-Hoare}
use aegis_sdk.Component.Announcements.{announced_in}

module _ {V : Type 0} where
  -- No event cancels this token.
  abbrev pub Uncancelled : ℕ → History V → Type 0
  Uncancelled t [] = Unit
  Uncancelled t (cancelled u ∷ h) = (t ≢ u) × Uncancelled t h
  Uncancelled t (_ ∷ h) = Uncancelled t h

  -- Every token that was cancelled is below this one.
  abbrev pub CancelledBelow : ℕ → History V → Type 0
  CancelledBelow n [] = Unit
  CancelledBelow n (cancelled u ∷ h) = (u < n) × CancelledBelow n h
  CancelledBelow n (_ ∷ h) = CancelledBelow n h

  CancelledBelow-suc : (n : ℕ) (h : History V) → CancelledBelow n h → CancelledBelow (suc n) h
  CancelledBelow-suc n [] b = tt
  CancelledBelow-suc n (cancelled u ∷ h) b = (omega arith, CancelledBelow-suc n h b.1)
  CancelledBelow-suc n (_ ∷ h) b = CancelledBelow-suc n h b

  fresh-Uncancelled : (n : ℕ) (h : History V) → CancelledBelow n h → Uncancelled n h
  fresh-Uncancelled n [] b = tt
  fresh-Uncancelled n (cancelled u ∷ h) b = (omega arith, fresh-Uncancelled n h b.1)
  fresh-Uncancelled n (_ ∷ h) b = fresh-Uncancelled n h b

module _ {V : Type 0} (sys : System V) where
  -- The last four events: `on_configure`, then the ACK, CONFIGURED and RUNNING.
  abbrev pub Prepared : History V → Type 0
  Prepared (sent r ∷ sent s ∷ sent a ∷ on_configure path topics ∷ h) =
      (announced_in sys r.command r none ≡ some "RUNNING")
      × (announced_in sys s.command s none ≡ some "CONFIGURED")
      × (a.msg_type ≡ MessageType.control)
      × (a.command ≡ Command.ack)
  Prepared _ = ⊥

  -- Every task was started right after a complete configuration, with a token that had not been
  -- cancelled.
  abbrev pub IsOrderly : History V → Type 0
  IsOrderly [] = Unit
  IsOrderly (spawned t ∷ h) = Prepared h × Uncancelled t h × IsOrderly h
  IsOrderly (_ ∷ h) = IsOrderly h

  abbrev Idle : Component V → Type 0
  Idle c = IsOrderly c.history × CancelledBelow c.tokens c.history

  abbrev Live : ℕ → Component V → Type 0
  Live t c =
      IsOrderly c.history
      × CancelledBelow c.tokens c.history
      × Uncancelled t c.history
      × (t < c.tokens)

  register-Idle : (reads : List Read) → Hoare Idle (register sys reads) (λ _. Idle) Idle
  unfolding register send_state_update send_envelope ◌>>=◌
  register-Idle reads = record { at = λ c h. ground arith }

  config-Live :
      (t : ℕ) (env : Envelope V) → Hoare (Live t) (handle_config sys env t) (λ _. Live t) Idle
  unfolding handle_config send_state_update send_error send_ack send_envelope ◌>>=◌ lookup
      state_name
  config-Live t env = record {
    at = λ c h. ground (
      arith,
      sys.json.as_str-string (state_name running),
      sys.json.as_str-string (state_name configured),
    );
  }

  heartbeat-Live :
      (t : ℕ) (env : Envelope V) → Hoare (Live t) (handle_heartbeat sys env) (λ _. Live t) Idle
  unfolding handle_heartbeat send_envelope ◌>>=◌
  heartbeat-Live t env = record { at = λ c h. ground arith }

  lifecycle-Live :
      (t : ℕ) (env : Envelope V)
      → Hoare (Live t) (handle_lifecycle sys env t) (Next (Live t) Idle) Idle
  unfolding handle_lifecycle send_ack send_envelope ◌>>=◌
  lifecycle-Live t env = record { at = λ c h. ground arith }

  error-Live :
      (t : ℕ) (env : Envelope V) → Hoare (Live t) (handle_error_msg sys env) (λ _. Live t) Idle
  unfolding handle_error_msg ◌>>=◌
  error-Live t env = record { at = λ c h. h }

  tasks-IsInvariant : IsInvariant sys Idle Idle Live Idle
  tasks-IsInvariant = record {
    connects = λ c path h. h;
    registers = register-Idle;
    starts = λ c h. (
      h.0,
      CancelledBelow-suc c.tokens c.history h.1,
      fresh-Uncancelled c.tokens c.history h.1,
      omega arith,
    );
    drops = λ t c h. (h.0, h.1);
    heartbeat = heartbeat-Live;
    config = config-Live;
    lifecycle = lifecycle-Live;
    error_msg = error-Live;
  }

  -- Whatever `run` reads and whatever fails: if the history was orderly and the tokens cancelled in it
  -- are old ones, it is orderly afterwards.
  pub run-IsOrderly :
      (attempts : List Attempt) (c : Component V)
      → IsOrderly c.history
      → CancelledBelow c.tokens c.history
      → IsOrderly (run sys attempts c).1.history
  run-IsOrderly attempts c h b =
      (After-same Idle (run sys attempts c)
        ((run-Hoare tasks-IsInvariant (λ c d k. k) attempts).at c (h, b))).0
