-- ===== src/Protocol/Names.antt =====
-- The names of the enumerations' variants: on the wire, by `rename_all = "SCREAMING_SNAKE_CASE"`,
-- and under `{:?}`.
use aegis_sdk.Prelude.{String}
use aegis_sdk.Protocol.{MessageType, Command, ComponentState}

unfoldable pub type_name : MessageType → String
type_name MessageType.control = "CONTROL"
type_name MessageType.lifecycle = "LIFECYCLE"
type_name MessageType.config = "CONFIG"
type_name MessageType.error = "ERROR"
type_name MessageType.heartbeat = "HEARTBEAT"
type_name MessageType.data_message = "DATA"

unfoldable pub command_name : Command → String
command_name Command.register = "REGISTER"
command_name Command.registered = "REGISTERED"
command_name Command.state_update = "STATE_UPDATE"
command_name Command.shutdown = "SHUTDOWN"
command_name Command.reborn = "REBORN"
command_name Command.ack = "ACK"
command_name Command.nack = "NACK"
command_name Command.configure = "CONFIGURE"
command_name Command.configured = "CONFIGURED"
command_name Command.ping = "PING"
command_name Command.pong = "PONG"
command_name Command.runtime_error = "RUNTIME_ERROR"
command_name Command.registration_failed = "REGISTRATION_FAILED"

-- also `Display for ComponentState`
unfoldable pub state_name : ComponentState → String
state_name ComponentState.init = "INIT"
state_name ComponentState.registered = "REGISTERED"
state_name ComponentState.initializing = "INITIALIZING"
state_name ComponentState.ready = "READY"
state_name ComponentState.configured = "CONFIGURED"
state_name ComponentState.running = "RUNNING"
state_name ComponentState.waiting = "WAITING"
state_name ComponentState.error = "ERROR"
state_name ComponentState.finished = "FINISHED"
state_name ComponentState.shutdown = "SHUTDOWN"

-- `{:?}`
unfoldable pub command_debug : Command → String
command_debug Command.register = "Register"
command_debug Command.registered = "Registered"
command_debug Command.state_update = "StateUpdate"
command_debug Command.shutdown = "Shutdown"
command_debug Command.reborn = "Reborn"
command_debug Command.ack = "Ack"
command_debug Command.nack = "Nack"
command_debug Command.configure = "Configure"
command_debug Command.configured = "Configured"
command_debug Command.ping = "Ping"
command_debug Command.pong = "Pong"
command_debug Command.runtime_error = "RuntimeError"
command_debug Command.registration_failed = "RegistrationFailed"
