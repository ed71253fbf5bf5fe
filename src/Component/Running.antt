-- ===== src/Component/Running.antt =====
-- `message_loop`, `run_once` and `run`. Each takes the input that it gets: the reads of a
-- connection, the attempts to connect. It is `pending` where that input ends and it still waits.
use aegis_sdk.Prelude.{
  ℕ, ◌+◌, ◌%◌, ◌^◌, concat, not, ◌&&◌, inl, inr, List, [], ◌∷◌, min, ⊤, ltb, leb, if◌then◌else◌,
  decimal,
}
use aegis_sdk.Error.{connection, registration, io}
use aegis_sdk.Protocol.{MessageType, Envelope}
use aegis_sdk.Runtime.{
  System, Read, Attempt, refused, accepted, connected, slept, Outcome, ok, err, panicked, pending,
  Action, ◌>>=◌, ◌>>◌, self, lift, pure, raise, emit, new_token,
}
use aegis_sdk.Component.Sending.{recv_before_deadline}
use aegis_sdk.Component.Registering.{register}
use aegis_sdk.Component.Handling.{
  LifecycleOutcome, continue, stop, handle_heartbeat, handle_config, handle_lifecycle,
  handle_error_msg,
}

-- `attempts += 1` on a `u32`, as a release build does it
abbrev pub u32 : ℕ → ℕ
u32 n = n % 2 ^ 32

module _ {V : Type 0} (sys : System V) where
  -- `match env.msg_type`
  unfoldable pub dispatch : MessageType → Envelope V → ℕ → Action V LifecycleOutcome
  dispatch MessageType.heartbeat env token = handle_heartbeat sys env >> pure continue
  dispatch MessageType.config env token = handle_config sys env token >> pure continue
  dispatch MessageType.lifecycle env token = handle_lifecycle sys env token
  dispatch MessageType.error env token = do
    fatal ← handle_error_msg sys env
    if fatal then raise (connection "non-recoverable error") else pure continue
  dispatch _ env token = pure continue

  -- one turn of the loop
  unfoldable pub turn : ℕ → Read → Action V LifecycleOutcome
  unfolding dispatch recv_before_deadline
  turn token read = do env ← lift (recv_before_deadline sys read); dispatch env.msg_type env token

  abbrev pub resume : LifecycleOutcome → Action V ⊤ → Action V ⊤
  resume continue again = again
  resume stop again = pure tt

  unfoldable pub message_loop_from : ℕ → List Read → Action V ⊤
  unfolding turn
  message_loop_from token [] = lift pending
  message_loop_from token (read ∷ reads) = do
    outcome ← turn token read
    resume outcome (message_loop_from token reads)

  unfoldable pub message_loop : List Read → Action V ⊤
  unfolding message_loop_from
  message_loop reads = do token ← new_token; message_loop_from token reads

  unfoldable pub run_once : Attempt → Action V ⊤
  unfolding register message_loop
  run_once (refused e) = raise (io e)
  run_once (accepted reads) = do
    c ← self
    emit (connected c.cfg.socket_path)
    rest ← register sys reads
    message_loop rest

  -- `delay.mul_f32(2.0)`
  unfoldable pub doubled : ℕ → Action V ℕ
  doubled delay = elim (sys.mul_f32_2 delay) [ inl e ↦ lift (panicked e) | inr d ↦ pure d ]

  -- the end of the loop's body in `run`, after a failed connection: the new attempts and delay
  unfoldable pub back_off : ℕ → ℕ → Action V (ℕ × ℕ)
  unfolding doubled
  back_off attempts delay = do
    c ← self
    let attempts' = u32 (attempts + 1)
    let most = c.cfg.max_reconnect_attempts
    if not c.cfg.reconnect
        then raise (connection "reconnect disabled")
        else if ltb 0 most && leb most attempts'
        then raise (
            connection (concat "max reconnect attempts (" (concat (decimal attempts') ") reached")))
        else do
          emit (slept delay)
          delay' ← doubled delay
          pure (attempts', min delay' c.cfg.max_reconnect_delay)

  -- `match self.run_once().await`
  unfoldable pub after_attempt : Outcome ⊤ → Action V ⊤ → Action V ⊤
  after_attempt (ok x) again = pure tt
  after_attempt (err (registration m)) again = raise (registration m)
  after_attempt (err e) again = again
  after_attempt (panicked e) again = lift (panicked e)
  after_attempt pending again = lift pending

  unfoldable pub run_from : ℕ → ℕ → List Attempt → Action V ⊤
  unfolding run_once back_off after_attempt
  run_from attempts delay [] c = (pending, c)
  run_from attempts delay (attempt ∷ later) c =
      let (outcome, c') = run_once attempt c in
      after_attempt outcome (do next ← back_off attempts delay; run_from next.0 next.1 later) c'

  unfoldable pub run : List Attempt → Action V ⊤
  unfolding run_from
  run attempts = do c ← self; run_from 0 c.cfg.reconnect_delay attempts
