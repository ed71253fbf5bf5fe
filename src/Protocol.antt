-- ===== src/Protocol.antt =====
-- aegis-rust/src/protocol.rs: the enumerations, their names on the wire, and the envelope.
pub mod Names
use aegis_sdk.Prelude.{String, Option, none, some, HashMap}

pub data MessageType : Type 0 where
  control lifecycle config error heartbeat data_message : MessageType

pub data Command : Type 0 where
  register registered state_update shutdown reborn ack nack configure configured ping pong
        runtime_error registration_failed :
      Command

pub data ComponentState : Type 0 where
  init registered initializing ready configured running waiting error finished shutdown :
      ComponentState

pub MessageType-discrete : Discrete MessageType
MessageType-discrete = hlevel

unfoldable pub Command-discrete : Discrete Command
Command-discrete = hlevel

pub ComponentState-discrete : Discrete ComponentState
ComponentState-discrete = hlevel

abbrev pub protocol_version : String
protocol_version = "0.1"

-- `struct Envelope`; the payload's values are those of `serde_json`
pub record Envelope (V : Type 0) : Type 0 where
  pub protocol_version : String
  pub message_id : String
  pub correlation_id : Option String
  pub timestamp : String
  pub source : String
  pub target : String
  pub msg_type : MessageType
  pub command : Command
  pub payload : HashMap V

-- `Envelope::new`, given what `Uuid::new_v4` and `Utc::now` return
unfoldable pub new :
    {V : Type 0} → String → String → MessageType → Command → String → HashMap V → Envelope V
new message_id timestamp msg_type command source payload = record {
  protocol_version = protocol_version;
  message_id = message_id;
  correlation_id = none;
  timestamp = timestamp;
  source = source;
  target = "aegis";
  msg_type = msg_type;
  command = command;
  payload = payload;
}

-- `Envelope::with_correlation`
unfoldable pub with_correlation : {V : Type 0} → String → Envelope V → Envelope V
with_correlation id env = record env { correlation_id = some id }
