-- ===== src/Scenarios/Exchanges.antt =====
-- Instances of the theorems about single messages.
use aegis_sdk.Prelude.{◌≡◌, ◌↔◌, refl, some, true, false, [], ◌∷◌, ◌++◌, lookup, replicate}
use aegis_sdk.Error.{connection, io, json}
use aegis_sdk.Protocol.{ComponentState}
use aegis_sdk.Runtime.{
  line, elapsed, accepted, System, Component, ok, err, panicked, on_error, on_shutdown, cancelled,
  spawned, sent, ◌>>=◌,
}
use aegis_sdk.Component.Sending.{send_ack, send_envelope, recv_envelope}
use aegis_sdk.Component.Registering.{register}
use aegis_sdk.Component.Handling.{handle_config, handle_lifecycle, handle_error_msg, stop, get_as}
use aegis_sdk.Component.Running.{message_loop_from, run}
use aegis_sdk.Component.Reborns.{none_left, reborn, IsReborn, message_loop-IsReborn}
use aegis_sdk.Component.Messages.{
  seen, in_state, announced, registered_as, register_message, ack_message,
}
use aegis_sdk.Component.Registration.{
  register-silence, register-panics, register-panics_later, register-accepted,
}
use aegis_sdk.Component.Configuration.{
  config_values, config-accepted, config-starts_iff, IsAccepted, last_configure, tasks, asked,
  acknowledged,
}
use aegis_sdk.Component.Replies.{shutdown_lem, shutdown_unacknowledged, error_msg_lem}
use aegis_sdk.Component.Turns.{
  garbled, no_ping, ReadsShutdown, message_loop-Breaks, message_loop-ignores, message_loop-fatal,
  message_loop-ok,
}
use aegis_sdk.Scenarios.Sample

abbrev sys : System Sample.Value
sys = Sample.sample

abbrev fresh : Component Sample.Value
fresh = Sample.fresh

abbrev ready : Component Sample.Value
ready = record fresh { state = ComponentState.ready }

register-silence_example :
    run sys (accepted (replicate 3 elapsed ++ line "refusal\n" ∷ []) ∷ []) fresh
    ≡ run sys (accepted (line "refusal\n" ∷ []) ∷ []) fresh
register-silence_example = register-silence sys 3 (line "refusal\n" ∷ []) [] fresh

register-panics_example :
    register sys (line "bare\n" ∷ []) fresh
    ≡ (panicked "no entry found for key", seen (sent (register_message sys fresh)) fresh)
unfolding send_envelope recv_envelope lookup
register-panics_example =
    register-panics sys (line "bare\n" ∷ []) {resp = Sample.bare_reply} fresh refl refl refl refl

register-panics_later_example : register sys (line "half\n" ∷ []) fresh ≡ (
  panicked "no entry found for key",
  record fresh { component_id = "c-1"; history = sent (register_message sys fresh) ∷ [] },
)
unfolding send_envelope recv_envelope lookup
register-panics_later_example =
    register-panics_later sys (line "half\n" ∷ []) {resp = Sample.half_reply} fresh refl refl refl
      refl refl

abbrev joined : Component Sample.Value
joined = registered_as sys (Sample.Value.text "c-1") (Sample.Value.text "s-1") fresh

register-accepted_example : register sys (line "registered\n" ∷ line "ping\n" ∷ []) fresh ≡ (
  ok (line "ping\n" ∷ []),
  announced sys ComponentState.ready (announced sys ComponentState.initializing joined),
)
unfolding send_envelope recv_envelope lookup
register-accepted_example =
    register-accepted sys (line "registered\n" ∷ line "ping\n" ∷ [])
      {resp = Sample.registered_reply} fresh refl refl refl refl refl refl refl

config_values_example :
    last_configure (handle_config sys Sample.configure 0 ready).1.history
    ≡ some ("/tmp/ds", "klines" ∷ "aggTrades" ∷ [])
unfolding lookup
config_values_example =
    config_values sys Sample.configure ("klines" ∷ "aggTrades" ∷ []) "/tmp/ds" 0 ready refl refl
      refl

abbrev acked : Component Sample.Value
acked = acknowledged sys Sample.configure (asked sys Sample.configure ready)

config-accepted_example : handle_config sys Sample.configure 0 ready ≡ (
  ok tt,
  seen
      (spawned 0)
      (announced sys ComponentState.running (announced sys ComponentState.configured acked)),
)
unfolding send_envelope
config-accepted_example = config-accepted sys Sample.configure 0 ready refl refl refl refl refl

-- The handler's `on_configure` fails.
abbrev refusing : System Sample.Value
refusing = record sys { configure_result = λ h p ts. some (connection "no feed") }

config-starts_iff_example :
    (tasks (handle_config sys Sample.configure 0 ready).1.history ≡ 1)
    ↔ IsAccepted sys Sample.configure ready
config-starts_iff_example = config-starts_iff sys Sample.configure 0 ready

message_loop-IsReborn_example :
    IsReborn sys ready 2 (message_loop_from sys 0 (line "reborn\n" ∷ line "reborn\n" ∷ []) ready)
message_loop-IsReborn_example =
    message_loop-IsReborn sys 0 (line "reborn\n" ∷ line "reborn\n" ∷ []) ready (
      reborn {env = Sample.reborn} (λ e. cc) refl refl refl
        (reborn {env = Sample.reborn} (λ e. cc) refl refl refl none_left))

shutdown_lem_example :
    let c = seen (cancelled 0) ready in
    handle_lifecycle sys Sample.shutdown 0 ready ≡ (
      ok stop,
      in_state ComponentState.shutdown
          (seen on_shutdown (seen (sent (ack_message sys "id-7" c)) c)),
    )
unfolding send_envelope
shutdown_lem_example = shutdown_lem sys Sample.shutdown 0 ready refl refl

-- Every write fails.
abbrev broken_pipe : System Sample.Value
broken_pipe = record sys { write_all = λ h l. some "EPIPE" }

shutdown_unacknowledged_example :
    handle_lifecycle broken_pipe Sample.shutdown 0 ready
    ≡ (err (io "EPIPE"), seen (cancelled 0) ready)
unfolding send_envelope
shutdown_unacknowledged_example =
    shutdown_unacknowledged broken_pipe Sample.shutdown 0 ready refl {e = io "EPIPE"} refl

error_msg_lem_example :
    ((handle_error_msg sys Sample.warning ready).1 ≡ seen (on_error "W1" "") ready)
    × (((handle_error_msg sys Sample.warning ready).0 ≡ ok false)
        ↔ (get_as sys sys.json.as_bool "recoverable" Sample.warning.payload ≡ some true))
unfolding get_as lookup
error_msg_lem_example = error_msg_lem sys Sample.warning ready

message_loop-Breaks_example :
    message_loop_from sys 0 (line "???" ∷ line "ping\n" ∷ []) ready
    ≡ (err (json "expected value"), ready)
message_loop-Breaks_example =
    message_loop-Breaks sys 0 (line "ping\n" ∷ []) ready (garbled (λ e. cc) refl)

message_loop-ignores_example :
    message_loop_from sys 0 (line "pong\n" ∷ line "ping\n" ∷ []) ready
    ≡ message_loop_from sys 0 (line "ping\n" ∷ []) ready
message_loop-ignores_example =
    message_loop-ignores sys 0 {l = "pong\n"} {env = Sample.pong} (λ e. cc) refl
      (line "ping\n" ∷ []) ready (no_ping (λ e. cc))

message_loop-fatal_example :
    message_loop_from sys 0 (line "fatal\n" ∷ []) ready
    ≡ (err (connection "non-recoverable error"), seen (on_error "UNKNOWN" "boom") ready)
unfolding get_as lookup
message_loop-fatal_example =
    message_loop-fatal sys 0 {l = "fatal\n"} {env = Sample.fatal} (λ e. cc) refl [] ready refl
      (λ e. cc)

message_loop-ok_example : ReadsShutdown sys (line "shutdown\n" ∷ [])
unfolding message_loop_from handle_lifecycle send_ack send_envelope ◌>>=◌
message_loop-ok_example = message_loop-ok sys 0 (line "shutdown\n" ∷ []) ready refl
