-- ===== src/Component/Handling.antt =====
-- The handlers of incoming messages: `handle_heartbeat`, `handle_config`, `handle_lifecycle` and
-- `handle_error_msg`.
use aegis_sdk.Prelude.{
  ℕ, String, Bool, true, false, not, Option, none, some, List, [], ⊤, HashMap, lookup, insert,
  unwrap_or,
}
use aegis_sdk.Error
use aegis_sdk.Error.{AegisError}
use aegis_sdk.Protocol
use aegis_sdk.Protocol.{MessageType, Command, Command-discrete, ComponentState, Envelope}
use aegis_sdk.Protocol.Names.{state_name}
use aegis_sdk.Runtime.{
  System, on_configure, on_reborn, on_ping, on_shutdown, on_error, spawned, cancelled, Action,
  ◌>>=◌, ◌>>◌, self, pure, emit, set_state,
}
use aegis_sdk.Component.Sending.{
  text, envelope, send_envelope, send_state_update, send_error, send_ack,
}
use mathlib.Core.List.{filter_map}
use mathlib.Core.Option

-- `enum LifecycleOutcome`
pub data LifecycleOutcome : Type 0 where
  continue stop : LifecycleOutcome

module _ {V : Type 0} (sys : System V) where
  -- `payload.get(key).and_then(as_…)`
  unfoldable pub get_as : {A : Type 0} → (V → Option A) → String → HashMap V → Option A
  unfolding lookup
  get_as read key payload = elim (lookup key payload) [ none ↦ none | some v ↦ read v ]

  unfoldable pub handle_heartbeat : Envelope V → Action V ⊤
  unfolding envelope insert Protocol.with_correlation
  handle_heartbeat env = elim (Command-discrete env.command Command.ping) [
    | no other ↦ pure tt
    | yes ping ↦ do
      emit on_ping
      c ← self
      let uptime = sys.elapsed_secs c.history
      let payload =
          insert "uptime_seconds" (sys.json.number uptime)
            (insert "state" (text sys (state_name c.state)) [])
      let pong = envelope sys MessageType.heartbeat Command.pong payload c
      send_envelope sys (Protocol.with_correlation env.message_id pong)
  ]

  unfoldable pub config_socket : Envelope V → String
  unfolding get_as
  config_socket env = unwrap_or (get_as sys.json.as_str "data_stream_socket" env.payload) ""

  unfoldable pub config_topics : Envelope V → List String
  unfolding get_as filter_map
  config_topics env =
      unwrap_or
        (Option.map (filter_map sys.json.as_str) (get_as sys.json.as_array "topics" env.payload)) []

  -- what `handle_config` does once `on_configure` has returned
  unfoldable pub after_configure : Envelope V → ℕ → Option AegisError → Action V ⊤
  after_configure env token (some e) = send_error sys "CONFIGURE_FAILED" (Error.to_string e) true
  after_configure env token none = do
    send_ack sys env.message_id
    send_state_update sys ComponentState.configured none
    send_state_update sys ComponentState.running none
    emit (spawned token)

  unfoldable pub handle_config : Envelope V → ℕ → Action V ⊤
  unfolding config_socket config_topics after_configure
  handle_config env token = elim (Command-discrete env.command Command.configure) [
    | no other ↦ pure tt
    | yes configure ↦ do
      let socket_path = config_socket env
      let topics = config_topics env
      c ← self
      emit (on_configure socket_path topics)
      after_configure env token (sys.configure_result c.history socket_path topics)
  ]

  unfoldable pub graceful_shutdown : Action V ⊤
  graceful_shutdown = do emit on_shutdown; set_state ComponentState.shutdown

  -- `match env.command`
  unfoldable pub lifecycle_command : Command → Envelope V → ℕ → Action V LifecycleOutcome
  unfolding graceful_shutdown
  lifecycle_command Command.reborn env token = do
    emit on_reborn
    send_ack sys env.message_id
    pure continue
  lifecycle_command Command.shutdown env token = do
    emit (cancelled token)
    send_ack sys env.message_id
    graceful_shutdown
    pure stop
  lifecycle_command _ env token = pure continue

  unfoldable pub handle_lifecycle : Envelope V → ℕ → Action V LifecycleOutcome
  unfolding lifecycle_command
  handle_lifecycle env token = lifecycle_command env.command env token

  -- Whether the error is fatal.
  unfoldable pub handle_error_msg : Envelope V → Action V Bool
  unfolding get_as
  handle_error_msg env = do
    let code = unwrap_or (get_as sys.json.as_str "code" env.payload) "UNKNOWN"
    let message = unwrap_or (get_as sys.json.as_str "message" env.payload) ""
    let recoverable = unwrap_or (get_as sys.json.as_bool "recoverable" env.payload) false
    emit (on_error code message)
    pure (not recoverable)
