-- ===== src/Component/Replies.antt =====
-- The answers to PING, REBORN, SHUTDOWN and ERROR messages.
use aegis_sdk.Prelude.{ℕ, ◌∷◌, some, true, false, ◌≡◌, refl, [], arith, ◌↔◌, unwrap_or}
use aegis_sdk.Error.{AegisError}
use aegis_sdk.Protocol.{Envelope, MessageType, Command, shutdown}
use aegis_sdk.Protocol.Names.{state_name}
use aegis_sdk.Runtime.{System, on_shutdown, on_error, cancelled, sent, Component, ok, err, ◌>>=◌}
use aegis_sdk.Component.Sending.{send_envelope, send_ack}
use aegis_sdk.Component.Handling.{handle_lifecycle, handle_error_msg, stop, get_as}
use aegis_sdk.Component.Messages.{seen, in_state, IsSent, answer, ack_message}

module _ {V : Type 0} (sys : System V) (env : Envelope V) where
  -- The PONG that answers `env`.
  abbrev pub pong_message : Component V → Envelope V
  pong_message c =
      answer sys env.message_id MessageType.heartbeat Command.pong
        (("state", sys.json.string (state_name c.state))
          ∷ ("uptime_seconds", sys.json.number (sys.elapsed_secs c.history))
          ∷ [])
        c

  module _ (token : ℕ) (c : Component V) (same : env.command ≡ Command.shutdown) where
    -- SHUTDOWN cancels the token, is acknowledged, calls `on_shutdown` and leaves the component in the
    -- state SHUTDOWN; the loop stops.
    pub shutdown_lem :
        let c₁ = seen (cancelled token) c in
        IsSent sys (ack_message sys env.message_id c₁) c₁
        → handle_lifecycle sys env token c ≡ (
          ok stop,
          in_state shutdown (seen on_shutdown (seen (sent (ack_message sys env.message_id c₁)) c₁)),
        )
    unfolding handle_lifecycle send_ack ◌>>=◌
    shutdown_lem acked = ground arith

    -- If the acknowledgement of SHUTDOWN cannot be sent, the token is cancelled all the same, but
    -- `on_shutdown` is not called, the state stays, and the handler fails with that error.
    pub shutdown_unacknowledged :
        {e : AegisError}
        → let c₁ = seen (cancelled token) c in
          send_envelope sys (ack_message sys env.message_id c₁) c₁ ≡ (err e, c₁)
          → handle_lifecycle sys env token c ≡ (err e, c₁)
    unfolding handle_lifecycle send_ack ◌>>=◌
    shutdown_unacknowledged failed = ground arith

  -- Every ERROR message calls `on_error`, also a recoverable one, and changes nothing else; it is fatal
  -- unless its payload says `recoverable: true`, and only then not.
  pub error_msg_lem :
      (c : Component V)
      → ((handle_error_msg sys env c).1
          ≡ seen
              (on_error
                (unwrap_or (get_as sys sys.json.as_str "code" env.payload) "UNKNOWN")
                (unwrap_or (get_as sys sys.json.as_str "message" env.payload) ""))
              c)
        × (((handle_error_msg sys env c).0 ≡ ok false)
            ↔ (get_as sys sys.json.as_bool "recoverable" env.payload ≡ some true))
  unfolding handle_error_msg ◌>>=◌
  error_msg_lem c = (refl, ground arith)
