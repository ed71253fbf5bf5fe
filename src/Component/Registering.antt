-- ===== src/Component/Registering.antt =====
-- `Component::register`.
use aegis_sdk.Prelude.{
  String, concat, not, none, some, List, [], map, ⊤, HashMap, lookup, insert, ◌==◌, if◌then◌else◌,
  unwrap_or,
}
use aegis_sdk.Error.{registration}
use aegis_sdk.Protocol.{MessageType, Command, Command-discrete, ComponentState, Envelope}
use aegis_sdk.Protocol.Names.{command_debug}
use aegis_sdk.Config.{Config}
use aegis_sdk.Runtime.{
  System, Read, Component, Outcome, ok, panicked, Action, ◌>>=◌, ◌>>◌, self, lift, pure, raise,
  set_state, set_component_id, set_session_id,
}
use aegis_sdk.Component.Sending.{text, envelope, send_envelope, send_state_update, recv_envelope}

module _ {V : Type 0} (sys : System V) where
  -- a list of texts under `json!`
  unfoldable pub texts : List String → V
  texts items = sys.json.array (map (text sys) items)

  -- the value of `json!` under "capabilities"
  unfoldable pub capabilities : Config → V
  unfolding insert texts
  capabilities cfg = sys.json.object (
      insert "requires_streams" (texts cfg.requires_streams) (
        insert "supported_timeframes" (texts cfg.supported_timeframes)
          (insert "supported_symbols" (texts cfg.supported_symbols) [])))

  -- the stored id, or else the environment's
  unfoldable pub own_id : Component V → String
  own_id c =
      if not (c.component_id == "")
      then c.component_id
      else unwrap_or (sys.env_var "AEGIS_COMPONENT_ID") ""

  -- an empty id is left out
  unfoldable pub insert_id : String → HashMap V → HashMap V
  unfolding insert
  insert_id id payload =
      if not (id == "") then insert "component_id" (text sys id) payload else payload

  unfoldable pub register_payload : Component V → HashMap V
  unfolding insert capabilities own_id insert_id
  register_payload c = insert "capabilities" (capabilities c.cfg) (
      insert_id (own_id c) (
        insert "version" (text sys c.cfg.version) (
          insert "component_name" (text sys c.cfg.component_name)
            (insert "session_token" (text sys c.cfg.session_token) []))))

  -- `resp.payload[key].as_str().unwrap_or_default()`: the index panics if the key is missing
  unfoldable pub text_at : String → HashMap V → Outcome String
  unfolding lookup
  text_at key payload = elim (lookup key payload) [
    | none ↦ panicked "no entry found for key"
    | some v ↦ ok (unwrap_or (sys.json.as_str v) "")
  ]

  -- what `register` does with the message that it has received
  unfoldable pub accept_registration : Envelope V → Action V ⊤
  unfolding text_at
  accept_registration resp = elim (Command-discrete resp.command Command.registered) [
    | no other ↦ raise (registration (concat "unexpected response: " (command_debug resp.command)))
    | yes same ↦ do
      component_id ← lift (text_at "component_id" resp.payload)
      set_component_id component_id
      session_id ← lift (text_at "session_id" resp.payload)
      set_session_id session_id
      set_state ComponentState.registered
      send_state_update sys ComponentState.initializing none
      send_state_update sys ComponentState.ready none
  ]

  -- Returns what is left to read.
  unfoldable pub register : List Read → Action V (List Read)
  unfolding envelope register_payload recv_envelope accept_registration
  register reads = do
    c ← self
    send_envelope sys (envelope sys MessageType.lifecycle Command.register (register_payload c) c)
    resp ← lift (recv_envelope sys reads).0
    accept_registration resp
    pure (recv_envelope sys reads).1
