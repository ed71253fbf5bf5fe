-- ===== src/Component/Configuration.antt =====
-- What `handle_config` does with a CONFIGURE message.
use mathlib.Core.List.{filter_map}
use aegis_sdk.Prelude.{
  ℕ, suc, String, Option, none, some, true, ◌≡◌, ◌↔◌, refl, List, [], ◌∷◌, map, arith, lookup,
}
use aegis_sdk.Error.{AegisError, to_string}
use aegis_sdk.Protocol.{Envelope, MessageType, Command, configured, running}
use aegis_sdk.Runtime.{System, History, on_configure, sent, spawned, Component, ok, ◌>>=◌}
use aegis_sdk.Component.Sending.{source, send_envelope, send_state_update, send_ack, send_error}
use aegis_sdk.Component.Handling.{handle_config, config_socket, config_topics}
use aegis_sdk.Component.Messages.{seen, IsSent, update_message, ack_message, announced}

-- The arguments of the last call of `on_configure`.
abbrev pub last_configure : {V : Type 0} → History V → Option (String × List String)
last_configure [] = none
last_configure (on_configure path topics ∷ h) = some (path, topics)
last_configure (e ∷ h) = last_configure h

-- How many tasks were started.
abbrev pub tasks : {V : Type 0} → History V → ℕ
tasks [] = 0
tasks (spawned t ∷ h) = suc (tasks h)
tasks (e ∷ h) = tasks h

module _ {V : Type 0} (sys : System V) (env : Envelope V) where
  filter_map-string :
      (topics : List String) → filter_map sys.json.as_str (map sys.json.string topics) ≡ topics
  unfolding filter_map
  filter_map-string [] = refl
  filter_map-string (t ∷ topics) =
      ground (arith, sys.json.as_str-string t, filter_map-string topics)

  payload_values :
      (topics : List String) (path : String)
      → lookup "topics" env.payload ≡ some (sys.json.array (map sys.json.string topics))
      → lookup "data_stream_socket" env.payload ≡ some (sys.json.string path)
      → (config_topics sys env ≡ topics) × (config_socket sys env ≡ path)
  unfolding config_topics config_socket
  payload_values topics path has_topics has_path = ground (
    arith,
    sys.json.as_array-array (map sys.json.string topics),
    sys.json.as_str-string path,
    filter_map-string topics,
  )

  handler-asked :
      (token : ℕ) (c : Component V)
      → env.command ≡ Command.configure
      → last_configure (handle_config sys env token c).1.history
        ≡ some (config_socket sys env, config_topics sys env)
  unfolding handle_config send_state_update send_error send_ack send_envelope ◌>>=◌
  handler-asked token c same = ground arith

  -- Whatever the handler answers and whatever can be written: the last call of `on_configure` after a
  -- CONFIGURE message was handled is with the socket path and the topics of its payload.
  pub config_values :
      (topics : List String) (path : String) (token : ℕ) (c : Component V)
      → env.command ≡ Command.configure
      → lookup "topics" env.payload ≡ some (sys.json.array (map sys.json.string topics))
      → lookup "data_stream_socket" env.payload ≡ some (sys.json.string path)
      → last_configure (handle_config sys env token c).1.history ≡ some (path, topics)
  config_values topics path token c same has_topics has_path =
      let (their_topics, their_path) = payload_values topics path has_topics has_path in
      rw (their_topics, their_path) at handler-asked token c same

  abbrev pub asked : Component V → Component V
  asked c = seen (on_configure (config_socket sys env) (config_topics sys env)) c

  abbrev pub acknowledged : Component V → Component V
  acknowledged c = seen (sent (ack_message sys env.message_id c)) c

  module _ (token : ℕ) (c : Component V) (is_configure : env.command ≡ Command.configure) where
    -- If the handler accepts a CONFIGURE message and the writes succeed, the component acknowledges
    -- the message, announces CONFIGURED, announces RUNNING, and then starts the task, in this order; it
    -- is then RUNNING.
    pub config-accepted :
        sys.configure_result c.history (config_socket sys env) (config_topics sys env) ≡ none
        → let c₁ = asked c in
          let c₂ = acknowledged c₁ in
          let c₃ = announced sys configured c₂ in
          IsSent sys (ack_message sys env.message_id c₁) c₁
          → IsSent sys (update_message sys configured c₂) c₂
          → IsSent sys (update_message sys running c₃) c₃
          → handle_config sys env token c ≡ (ok tt, seen (spawned token) (announced sys running c₃))
    unfolding handle_config send_ack send_state_update ◌>>=◌
    config-accepted accepts acked first second = ground arith

  -- The report of an error of the handler.
  abbrev pub report_message : AegisError → Component V → Envelope V
  report_message e c = record {
    protocol_version = "0.1";
    message_id = sys.new_v4 c.history;
    correlation_id = none;
    timestamp = sys.now c.history;
    source = source c;
    target = "aegis";
    msg_type = MessageType.error;
    command = Command.runtime_error;
    payload =
        ("code", sys.json.string "CONFIGURE_FAILED")
        ∷ ("message", sys.json.string (to_string e))
        ∷ ("recoverable", sys.json.bool true)
        ∷ [];
  }

  -- The handler accepts a CONFIGURE message, and the acknowledgement and both announcements are written.
  pub record IsAccepted (c : Component V) : Type 0 where
    pub is_configure : env.command ≡ Command.configure
    pub accepts :
        sys.configure_result c.history (config_socket sys env) (config_topics sys env) ≡ none
    pub acks : IsSent sys (ack_message sys env.message_id (asked c)) (asked c)
    pub first : let c₂ = acknowledged (asked c) in IsSent sys (update_message sys configured c₂) c₂
    pub second :
        let c₃ = announced sys configured (acknowledged (asked c)) in
        IsSent sys (update_message sys running c₃) c₃

  -- `handle_config` starts a task exactly if the message is a CONFIGURE, the handler accepts it, and the
  -- acknowledgement, CONFIGURED and RUNNING are all written.
  pub config-starts_iff :
      (token : ℕ) (c : Component V)
      → (tasks (handle_config sys env token c).1.history ≡ suc (tasks c.history)) ↔ IsAccepted c
  unfolding handle_config send_state_update send_error send_ack send_envelope ◌>>=◌
  config-starts_iff token c = (
    λ h. record {
      is_configure = ground arith;
      accepts = ground arith;
      acks = ground arith;
      first = ground arith;
      second = ground arith;
    },
    λ a. ground (arith, a.is_configure, a.accepts, a.acks, a.first, a.second),
  )
