-- ===== src/Component/Sending.antt =====
-- `send_envelope` and the methods that build a message and send it, and `recv_envelope`.
use aegis_sdk.Prelude.{
  String, concat, Bool, Option, none, some, inl, inr, List, [], ◌∷◌, ⊤, HashMap, insert, ◌==◌,
  if◌then◌else◌,
}
use aegis_sdk.Error.{connection, io, json, timeout}
use aegis_sdk.Protocol
use aegis_sdk.Protocol.{MessageType, Command, ComponentState, Envelope}
use aegis_sdk.Protocol.Names.{state_name}
use aegis_sdk.Runtime.{
  System, Read, line, failed, elapsed, sent, Component, Outcome, ok, err, pending, Action, ◌>>=◌,
  ◌>>◌, self, emit, set_state,
}

-- `Component::source`
unfoldable pub source : {V : Type 0} → Component V → String
source c = concat "component:" c.cfg.component_name

module _ {V : Type 0} (sys : System V) where
  -- `Value::String`
  abbrev pub text : String → V
  text = sys.json.string

  -- `Envelope::new` with `self.source()`
  unfoldable pub envelope : MessageType → Command → HashMap V → Component V → Envelope V
  unfolding Protocol.new source
  envelope msg_type command payload c =
      Protocol.new (sys.new_v4 c.history) (sys.now c.history) msg_type command (source c) payload

  unfoldable pub send_envelope : Envelope V → Action V ⊤
  unfolding emit
  send_envelope env c = elim (sys.encode env) [
    | inl e ↦ (err (json e), c)
    | inr encoded ↦ elim (sys.write_all c.history (concat encoded "\n")) [
      | some e ↦ (err (io e), c)
      | none ↦ emit (sent env) c
    ]
  ]

  -- the payload of `send_state_update`
  unfoldable pub state_payload : ComponentState → Option String → HashMap V
  unfolding insert
  state_payload new_state none = insert "state" (text (state_name new_state)) []
  state_payload new_state (some message) =
      insert "message" (text message) (insert "state" (text (state_name new_state)) [])

  unfoldable pub send_state_update : ComponentState → Option String → Action V ⊤
  unfolding envelope state_payload
  send_state_update new_state message = do
    c ← self
    send_envelope
        (envelope MessageType.lifecycle Command.state_update (state_payload new_state message) c)
    set_state new_state

  unfoldable pub send_error : String → String → Bool → Action V ⊤
  unfolding envelope insert
  send_error code message recoverable = do
    let payload =
        insert "recoverable" (sys.json.bool recoverable)
          (insert "message" (text message) (insert "code" (text code) []))
    c ← self
    send_envelope (envelope MessageType.error Command.runtime_error payload c)

  unfoldable pub send_ack : String → Action V ⊤
  unfolding envelope insert Protocol.with_correlation
  send_ack correlation_id = do
    let payload = insert "status" (text "ok") []
    c ← self
    send_envelope (
        Protocol.with_correlation correlation_id
          (envelope MessageType.control Command.ack payload c))

  -- `recv_envelope` once the line is read; it is empty if `read_line` returned 0
  unfoldable pub parse_line : String → Outcome (Envelope V)
  parse_line received =
      if received == ""
      then err (connection "connection closed")
      else elim (sys.decode received) [ inl e ↦ err (json e) | inr env ↦ ok env ]

  -- `recv_envelope` with no deadline: the message, and what is left to read
  unfoldable pub recv_envelope : List Read → Outcome (Envelope V) × List Read
  unfolding parse_line
  recv_envelope [] = (pending, [])
  recv_envelope (elapsed ∷ reads) = recv_envelope reads
  recv_envelope (failed e ∷ reads) = (err (io e), reads)
  recv_envelope (line received ∷ reads) = (parse_line received, reads)

  -- `timeout(…, recv_envelope(…))`
  unfoldable pub recv_before_deadline : Read → Outcome (Envelope V)
  unfolding parse_line
  recv_before_deadline elapsed = err timeout
  recv_before_deadline (failed e) = err (io e)
  recv_before_deadline (line received) = parse_line received
