-- ===== src/Component/Messages.antt =====
-- The messages that the methods of `Component` send, and what sending one does.
use aegis_sdk.Prelude.{String, HashMap, none, some, ◌≡◌, ◌∷◌, [], unwrap_or}
use aegis_sdk.Protocol.{Envelope, MessageType, Command, ComponentState}
use aegis_sdk.Runtime.{System, Event, sent, Component, ok}
use aegis_sdk.Component.Sending.{source, envelope, state_payload, send_envelope}
use aegis_sdk.Component.Registering.{register_payload}

module _ {V : Type 0} where
  -- The event is added to the history.
  abbrev pub seen : Event V → Component V → Component V
  seen e c = record c { history = e ∷ c.history }

  abbrev pub in_state : ComponentState → Component V → Component V
  in_state s c = record c { state = s; passed = s ∷ c.passed }

module _ {V : Type 0} (sys : System V) where
  -- Encoding and writing this message succeeds in this state.
  abbrev pub IsSent : Envelope V → Component V → Type 0
  IsSent env c = send_envelope sys env c ≡ (ok tt, seen (sent env) c)

  abbrev pub register_message : Component V → Envelope V
  register_message c =
      envelope sys MessageType.lifecycle Command.register (register_payload sys c) c

  abbrev pub update_message : ComponentState → Component V → Envelope V
  update_message s c =
      envelope sys MessageType.lifecycle Command.state_update (state_payload sys s none) c

  -- A message to Aegis that answers the one with this id.
  abbrev pub answer : String → MessageType → Command → HashMap V → Component V → Envelope V
  answer id kind command payload c = record {
    protocol_version = "0.1";
    message_id = sys.new_v4 c.history;
    correlation_id = some id;
    timestamp = sys.now c.history;
    source = source c;
    target = "aegis";
    msg_type = kind;
    command = command;
    payload = payload;
  }

  abbrev pub ack_message : String → Component V → Envelope V
  ack_message id c =
      answer id MessageType.control Command.ack (("status", sys.json.string "ok") ∷ []) c

  -- What sending a state update does once the message is written.
  abbrev pub announced : ComponentState → Component V → Component V
  announced s c = in_state s (seen (sent (update_message s c)) c)

  -- What `register` stores of the answer with these ids.
  abbrev pub registered_as : V → V → Component V → Component V
  registered_as id session c = record c {
    component_id = unwrap_or (sys.json.as_str id) "";
    session_id = unwrap_or (sys.json.as_str session) "";
    state = ComponentState.registered;
    passed = ComponentState.registered ∷ c.passed;
    history = sent (register_message c) ∷ c.history;
  }
