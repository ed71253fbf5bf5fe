-- ===== src/Component/Rules.antt =====
-- One rule for every invariant of `Component::run`: it is enough to look at its parts.
use aegis_sdk.Prelude.{ℕ, suc, String, List, [], ◌∷◌, ⊤, ltb, leb, ◌&&◌, not, ◌+◌, arith}
use aegis_sdk.Error.{registration, connection, io, json, timeout}
use aegis_sdk.Protocol.{Envelope, MessageType}
use aegis_sdk.Runtime.{
  System, Read, Attempt, refused, accepted, connected, slept, Component, Outcome, ok, err, panicked,
  pending, Action, ◌>>=◌, lift, pure, raise,
}
use aegis_sdk.Runtime.Hoare.{
  Hoare, After, Hoare-bind, Hoare-pure, Hoare-raise, Hoare-lift, Hoare-if, Hoare-self, Hoare-emit,
}
use aegis_sdk.Component.Sending.{recv_before_deadline}
use aegis_sdk.Component.Registering.{register}
use aegis_sdk.Component.Handling.{
  LifecycleOutcome, continue, stop, handle_heartbeat, handle_config, handle_lifecycle,
  handle_error_msg,
}
use aegis_sdk.Component.Running.{
  u32, dispatch, turn, message_loop_from, message_loop, run_once, doubled, back_off, after_attempt,
  run_from, run,
}

-- What holds after a lifecycle message, by whether the loop goes on.
abbrev pub Next :
    {V : Type 0}
    → (Component V → Type 0)
    → (Component V → Type 0)
    → LifecycleOutcome
    → Component V
    → Type 0
Next Live Done continue = Live
Next Live Done stop = Done

-- The pauses of `run` leave `Idle` alone.
abbrev pub Sleeps : {V : Type 0} → (Component V → Type 0) → Type 0
Sleeps {V} Idle =
    (c : Component V) (d : ℕ) → Idle c → Idle (record c { history = slept d ∷ c.history })

-- `Idle` holds between connections, `Joined` after the registration, `Live t` in the message loop
-- with the token `t`, and `Done` after a shutdown.
pub record IsInvariant {V : Type 0} (sys : System V) (Idle Joined : Component V → Type 0)
    (Live : ℕ → Component V → Type 0) (Done : Component V → Type 0) : Type 0 where
  pub connects :
      (c : Component V) (path : String)
      → Idle c
      → Idle (record c { history = connected path ∷ c.history })
  pub registers : (reads : List Read) → Hoare Idle (register sys reads) (λ _. Joined) Idle
  pub starts : (c : Component V) → Joined c → Live c.tokens (record c { tokens = suc c.tokens })
  pub drops : (t : ℕ) (c : Component V) → Live t c → Idle c
  pub heartbeat :
      (t : ℕ) (env : Envelope V) → Hoare (Live t) (handle_heartbeat sys env) (λ _. Live t) Idle
  pub config :
      (t : ℕ) (env : Envelope V) → Hoare (Live t) (handle_config sys env t) (λ _. Live t) Idle
  pub lifecycle :
      (t : ℕ) (env : Envelope V)
      → Hoare (Live t) (handle_lifecycle sys env t) (Next (Live t) Done) Idle
  pub error_msg :
      (t : ℕ) (env : Envelope V) → Hoare (Live t) (handle_error_msg sys env) (λ _. Live t) Idle

module _ {V : Type 0} {sys : System V} {Idle Joined : Component V → Type 0}
    {Live : ℕ → Component V → Type 0} {Done : Component V → Type 0}
    (inv : IsInvariant sys Idle Joined Live Done) where
  dispatch-Hoare :
      (t : ℕ) (kind : MessageType) (env : Envelope V)
      → Hoare (Live t) (dispatch sys kind env t) (Next (Live t) Done) Idle
  unfolding dispatch
  dispatch-Hoare t MessageType.heartbeat env =
      Hoare-bind _ _ (inv.heartbeat t env) (λ _. Hoare-pure continue (λ c h. h))
  dispatch-Hoare t MessageType.config env =
      Hoare-bind _ _ (inv.config t env) (λ _. Hoare-pure continue (λ c h. h))
  dispatch-Hoare t MessageType.lifecycle env = inv.lifecycle t env
  dispatch-Hoare t MessageType.error env =
      Hoare-bind _ _ (inv.error_msg t env)
        λ fatal. Hoare-if fatal _ _ (Hoare-raise _ (inv.drops t)) (Hoare-pure continue (λ c h. h))
  dispatch-Hoare t MessageType.control env = Hoare-pure continue (λ c h. h)
  dispatch-Hoare t MessageType.data_message env = Hoare-pure continue (λ c h. h)

  turn-Hoare : (t : ℕ) (read : Read) → Hoare (Live t) (turn sys t read) (Next (Live t) Done) Idle
  unfolding turn
  turn-Hoare t read =
      Hoare-lift (recv_before_deadline sys read) _ (inv.drops t)
        (λ env _. dispatch-Hoare t env.msg_type env)

  message_loop_from-Hoare :
      (t : ℕ) (reads : List Read) → Hoare (Live t) (message_loop_from sys t reads) (λ _. Done) Idle
  unfolding message_loop_from
  message_loop_from-Hoare t [] = unfold lift in record { at = inv.drops t }
  message_loop_from-Hoare t (read ∷ reads) =
      let ih = message_loop_from-Hoare t reads in
      Hoare-bind _ _ (turn-Hoare t read) (elim [ continue ↦ ih | stop ↦ Hoare-pure tt (λ c h. h) ])

  message_loop-Hoare : (reads : List Read) → Hoare Joined (message_loop sys reads) (λ _. Done) Idle
  unfolding message_loop ◌>>=◌
  message_loop-Hoare reads = record {
    at = λ c h. (message_loop_from-Hoare c.tokens reads).at _ (inv.starts c h);
  }

  pub run_once-Hoare : (attempt : Attempt) → Hoare Idle (run_once sys attempt) (λ _. Done) Idle
  unfolding run_once
  run_once-Hoare (refused e) = Hoare-raise (io e) (λ c h. h)
  run_once-Hoare (accepted reads) = Hoare-self _ λ s.
      Hoare-bind _ _
        (Hoare-emit (connected s.cfg.socket_path) (λ c. inv.connects c s.cfg.socket_path))
        λ _. Hoare-bind _ _ (inv.registers reads) message_loop-Hoare

  doubled-Hoare : (delay : ℕ) → Hoare Idle (doubled sys delay) (λ _. Idle) Idle
  unfolding doubled lift pure
  doubled-Hoare delay = record { at = λ c h. ground arith }

  back_off-Hoare :
      Sleeps Idle → (attempts delay : ℕ) → Hoare Idle (back_off sys attempts delay) (λ _. Idle) Idle
  unfolding back_off
  back_off-Hoare sleeps attempts delay = Hoare-self _ λ s.
      let most = s.cfg.max_reconnect_attempts in
      Hoare-if (not s.cfg.reconnect) _ _ (Hoare-raise _ (λ d k. k)) (
        Hoare-if (ltb 0 most && leb most (u32 (attempts + 1))) _ _ (Hoare-raise _ (λ d k. k)) (
          Hoare-bind _ _ (Hoare-emit (slept delay) (λ d. sleeps d delay))
            λ _. Hoare-bind _ _ (doubled-Hoare delay) λ d. Hoare-pure _ (λ e k. k)))

  after_attempt-Hoare :
      (r : Outcome ⊤ × Component V) (again : Action V ⊤)
      → After (λ _. Done) Idle r
      → Hoare Idle again (λ _. Done) Idle
      → After (λ _. Done) Idle (after_attempt sys r.0 again r.1)
  unfolding after_attempt raise lift pure
  after_attempt-Hoare (ok x, c) again h k = h
  after_attempt-Hoare (err (registration m), c) again h k = h
  after_attempt-Hoare (err (connection m), c) again h k = k.at c h
  after_attempt-Hoare (err (io m), c) again h k = k.at c h
  after_attempt-Hoare (err (json m), c) again h k = k.at c h
  after_attempt-Hoare (err timeout, c) again h k = k.at c h
  after_attempt-Hoare (panicked e, c) again h k = h
  after_attempt-Hoare (pending, c) again h k = h

  run_from-Hoare :
      Sleeps Idle
      → (attempts delay : ℕ) (later : List Attempt)
      → Hoare Idle (run_from sys attempts delay later) (λ _. Done) Idle
  unfolding run_from
  run_from-Hoare sleeps attempts delay [] = record { at = λ c h. h }
  run_from-Hoare sleeps attempts delay (attempt ∷ later) = record {
    at = λ c h. after_attempt-Hoare (run_once sys attempt c) _ ((run_once-Hoare attempt).at c h) (
        Hoare-bind _ _ (back_off-Hoare sleeps attempts delay)
          (λ next. run_from-Hoare sleeps next.0 next.1 later));
  }

  -- What is idle stays idle, unless `run` returns: then it is done.
  pub run-Hoare :
      Sleeps Idle → (attempts : List Attempt) → Hoare Idle (run sys attempts) (λ _. Done) Idle
  unfolding run
  run-Hoare sleeps attempts =
      Hoare-self _ λ s. run_from-Hoare sleeps 0 s.cfg.reconnect_delay attempts
