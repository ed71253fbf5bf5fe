-- ===== src/Component/Returns.antt =====
-- Runs that come to an end.
use aegis_sdk.Prelude.{
  ℕ, ◌+◌, ◌^◌, ◌<◌, ◌≤◌, String, ◌≡◌, ◌≢◌, refl, ap, ◌⊎◌, inl, inr, List, [], ◌∷◌, length, ⊤, arith,
}
use aegis_sdk.Error.{AegisError}
use aegis_sdk.Config.{Config}
use aegis_sdk.Component.Reconnecting.{count-back_off}
use aegis_sdk.Protocol.{Envelope, MessageType}
use aegis_sdk.Runtime.{
  System, Read, line, failed, elapsed, Attempt, refused, accepted, connected, Component, Outcome,
  ok, err, panicked, pending, Action, lift, ◌>>=◌,
}
use aegis_sdk.Component.Sending.{
  recv_before_deadline, send_envelope, send_state_update, send_error, send_ack, recv_envelope,
  parse_line,
}
use aegis_sdk.Component.Registering.{register, accept_registration}
use aegis_sdk.Component.Handling.{
  LifecycleOutcome, continue, stop, handle_heartbeat, handle_config, handle_lifecycle,
  handle_error_msg,
}
use aegis_sdk.Component.Running.{
  turn, dispatch, resume, message_loop_from, message_loop, run_once, back_off, after_attempt,
  run_from, run,
}

-- The peer closes the stream, or reading fails, at some point.
pub data Closes : List Read → Type 0 where
  at_end : {reads : List Read} → Closes (line "" ∷ reads)
  on_failure : {e : String} {reads : List Read} → Closes (failed e ∷ reads)
  later : {read : Read} {reads : List Read} → Closes reads → Closes (read ∷ reads)

-- The attempt does not leave `run` waiting.
pub data Settles : Attempt → Type 0 where
  refuses : {e : String} → Settles (refused e)
  closes : {reads : List Read} → Closes reads → Settles (accepted reads)

abbrev pub AllSettle : List Attempt → Type 0
AllSettle [] = ⊤
AllSettle (attempt ∷ attempts) = Settles attempt × AllSettle attempts

-- An action that does not wait for input that never comes.
abbrev Returns : {V A : Type 0} → Action V A → Type 0
Returns {V} m = (c : Component V) → (m c).0 ≢ pending

returns-bind :
    {V A B : Type 0} (m : Action V A) (f : A → Action V B) (c : Component V)
    → (m c).0 ≢ pending
    → ((a : A) (c' : Component V) → m c ≡ (ok a, c') → (f a c').0 ≢ pending)
    → ((m >>= f) c).0 ≢ pending
unfolding ◌>>=◌
returns-bind {V} {A} {B} m f c h k = go (m c).0 (m c).1 h refl
  where
    go :
        (o : Outcome A) (c' : Component V)
        → o ≢ pending
        → m c ≡ (o, c')
        → (((λ (x : Component V). (o, c')) >>= f) c).0 ≢ pending
    go (ok a) c' h e = k a c' e
    go (err x) c' h e = λ e. cc
    go (panicked x) c' h e = λ e. cc
    go pending c' h e = absurd (h refl)

module _ {V : Type 0} (sys : System V) where
  dispatch-Returns :
      (t : ℕ) (kind : MessageType) (env : Envelope V) → Returns (dispatch sys kind env t)
  unfolding dispatch handle_heartbeat handle_config handle_lifecycle handle_error_msg
      send_state_update send_error send_ack send_envelope ◌>>=◌
  dispatch-Returns t kind env c = ground arith

  parsed : (read : Read) → recv_before_deadline sys read ≢ pending
  unfolding recv_before_deadline
  parsed read = ground arith

  turn-Returns : (t : ℕ) (read : Read) → Returns (turn sys t read)
  unfolding turn
  turn-Returns t read c =
      returns-bind (lift (recv_before_deadline sys read)) _ c (unfold lift in parsed read)
        (λ env c' _. dispatch-Returns t env.msg_type env c')

  resume-Returns :
      (outcome : LifecycleOutcome) (again : Action V ⊤)
      → Returns again
      → Returns (resume sys outcome again)
  unfolding ◌>>=◌
  resume-Returns continue again h = h
  resume-Returns stop again h = λ c e. cc

  message_loop_from-Returns :
      (t : ℕ) (reads : List Read) → Closes reads → Returns (message_loop_from sys t reads)
  unfolding message_loop_from
  message_loop_from-Returns t _ at_end = unfold turn parse_line ◌>>=◌ in λ c e. cc
  message_loop_from-Returns t _ on_failure = unfold turn ◌>>=◌ in λ c e. cc
  message_loop_from-Returns t (read ∷ reads) (later cl) = λ c.
      returns-bind (turn sys t read) _ c (turn-Returns t read c)
        (λ outcome c' _. resume-Returns outcome _ (message_loop_from-Returns t reads cl) c')

  recv-Closes :
      (reads : List Read)
      → Closes reads
      → ((recv_envelope sys reads).0 ≢ pending)
        × (((e : AegisError) × ((recv_envelope sys reads).0 ≡ err e))
            ⊎ Closes (recv_envelope sys reads).1)
  unfolding recv_envelope
  recv-Closes _ at_end = unfold parse_line in (λ e. cc, inl (_, refl))
  recv-Closes _ on_failure = (λ e. cc, inl (_, refl))
  recv-Closes (line received ∷ reads) (later cl) =
      (unfold recv_before_deadline in parsed (line received), inr cl)
  recv-Closes (failed e ∷ reads) (later cl) = (λ e. cc, inr cl)
  recv-Closes (elapsed ∷ reads) (later cl) = recv-Closes reads cl

  accept-Returns : (resp : Envelope V) → Returns (accept_registration sys resp)
  unfolding accept_registration send_state_update send_envelope ◌>>=◌
  accept-Returns resp c = ground arith

  send-Returns : (env : Envelope V) → Returns (send_envelope sys env)
  unfolding send_envelope
  send-Returns env c = ground arith

  register-Returns :
      (reads : List Read) → (recv_envelope sys reads).0 ≢ pending → Returns (register sys reads)
  unfolding register send_state_update send_envelope ◌>>=◌
  register-Returns reads h c = ground arith

  register-rest :
      (reads : List Read) (c : Component V) {rest : List Read}
      → (register sys reads c).0 ≡ ok rest
      → (rest ≡ (recv_envelope sys reads).1)
        × ((e : AegisError) → (recv_envelope sys reads).0 ≢ err e)
  unfolding register send_state_update send_envelope ◌>>=◌
  register-rest reads c e = (ground arith, λ x h. ground arith)

  message_loop-Returns : (reads : List Read) → Closes reads → Returns (message_loop sys reads)
  unfolding message_loop ◌>>=◌
  message_loop-Returns reads cl c = message_loop_from-Returns c.tokens reads cl _

  joined-Returns :
      (reads : List Read)
      → Closes reads
      → Returns (register sys reads >>= λ rest. message_loop sys rest)
  joined-Returns reads cl c =
      let (arrives, left) = recv-Closes reads cl in
      returns-bind (register sys reads) _ c (register-Returns reads arrives c) λ rest c' e.
        let (is_rest, no_error) = register-rest reads c (ap (λ r. r.0) e) in
        elim left [
          | inl (x, bad) ↦ absurd (no_error x bad)
          | inr still ↦ message_loop-Returns rest (rw is_rest still) c'
        ]

  -- A connection whose stream closes at some point does not last for ever.
  run_once-Returns : (a : Attempt) → Settles a → Returns (run_once sys a)
  unfolding run_once ◌>>=◌
  run_once-Returns _ refuses c = λ e. cc
  run_once-Returns (accepted reads) (closes cl) c =
      joined-Returns reads cl (record c { history = connected c.cfg.socket_path ∷ c.history })

  back_off-Returns : (k d : ℕ) → Returns (back_off sys k d)
  unfolding back_off ◌>>=◌
  back_off-Returns k d c = ground arith

  returns-after_attempt :
      (o : Outcome ⊤) (again : Action V ⊤) (c : Component V)
      → o ≢ pending
      → (again c).0 ≢ pending
      → (after_attempt sys o again c).0 ≢ pending
  unfolding after_attempt ◌>>=◌
  returns-after_attempt o again c h k = ground arith

  run_from-Returns :
      (attempts : List Attempt) (k d : ℕ) (c : Component V)
      → AllSettle attempts
      → k < c.cfg.max_reconnect_attempts
      → c.cfg.max_reconnect_attempts < 2 ^ 32
      → c.cfg.max_reconnect_attempts ≤ k + length attempts
      → (run_from sys k d attempts c).0 ≢ pending
  unfolding run_from
  run_from-Returns [] k d c settle lt fits enough = absurd (omega arith)
  run_from-Returns (a ∷ others) k d c (settles, settle) lt fits enough =
      returns-after_attempt (run_once sys a c).0 _ (run_once sys a c).1
        (run_once-Returns a settles c)
        (returns-bind (back_off sys k d) _ (run_once sys a c).1 (back_off-Returns k d _)
          λ next c' slept_once.
            let (counted, kept, room) = count-back_off sys a k d c slept_once (omega arith) in
            let most = ap (λ (x : Config). x.max_reconnect_attempts) kept in
            run_from-Returns others next.0 next.1 c' settle (omega arith) (omega arith)
              (omega arith))

  -- With a limit of m attempts, where 0 < m < 2 ^ 32, `run` comes to an end, with or without an
  -- error or by a panic, if it is given m attempts or more and each is refused or has a stream
  -- that closes or fails at some point.
  pub run-Returns :
      (attempts : List Attempt) (c : Component V)
      → AllSettle attempts
      → 0 < c.cfg.max_reconnect_attempts
      → c.cfg.max_reconnect_attempts < 2 ^ 32
      → c.cfg.max_reconnect_attempts ≤ length attempts
      → (run sys attempts c).0 ≢ pending
  unfolding run ◌>>=◌
  run-Returns attempts c settle lt fits enough =
      run_from-Returns attempts 0 c.cfg.reconnect_delay c settle lt fits (omega arith)
