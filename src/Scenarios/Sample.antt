-- ===== src/Scenarios/Sample.antt =====
-- A sample outside world: JSON values, a server that speaks in single words, and a clock that stands.
use aegis_sdk.Prelude.{
  ℕ, ◌*◌, String, Bool, true, Option, none, some, ◌⊎◌, inl, inr, List, [], ◌∷◌, ◌≡◌, refl, ap,
  HashMap, ◌==◌, if◌then◌else◌,
}
use aegis_sdk.Config
use aegis_sdk.Config.{Config}
use aegis_sdk.Protocol.{Envelope, MessageType, Command}
use aegis_sdk.Protocol.Names.{command_name}
use aegis_sdk.Runtime
use aegis_sdk.Runtime.{Json, System, Component}

mutual
  -- the members of an object, and the elements of an array
  pub data Members : Type 0 where
    no_members : Members
    member : Value → Members → String → Members

  pub data Elements : Type 0 where
    no_elements : Elements
    element : Elements → Value → Elements

  pub data Value : Type 0 where
    text : String → Value
    flag : Bool → Value
    list : Elements → Value
    dict : Members → Value
    amount : ℕ → Value

abbrev elements : List Value → Elements
elements [] = no_elements
elements (v ∷ vs) = element (elements vs) v

abbrev listed : Elements → List Value
listed no_elements = []
listed (element vs v) = v ∷ listed vs

abbrev members : HashMap Value → Members
members [] = no_members
members ((k, v) ∷ m) = member v (members m) k

abbrev as_str : Value → Option String
as_str (text s) = some s
as_str _ = none

abbrev as_bool : Value → Option Bool
as_bool (flag b) = some b
as_bool _ = none

abbrev as_array : Value → Option (List Value)
as_array (list vs) = some (listed vs)
as_array _ = none

listed-elements : (vs : List Value) → listed (elements vs) ≡ vs
listed-elements [] = refl
listed-elements (v ∷ vs) = ap (λ ws. v ∷ ws) (listed-elements vs)

pub as_array-elements : (vs : List Value) → as_array (list (elements vs)) ≡ some vs
as_array-elements vs = ap some (listed-elements vs)

abbrev pub json : Json Value
json = record {
  string = text;
  bool = flag;
  number = amount;
  array = λ vs. list (elements vs);
  object = λ m. dict (members m);
  as_str = as_str;
  as_bool = as_bool;
  as_array = as_array;
  as_str-string = λ s. refl;
  as_bool-bool = λ b. refl;
  as_array-array = as_array-elements;
}

abbrev message : MessageType → Command → HashMap Value → Envelope Value
message kind command payload = record {
  protocol_version = "0.1";
  message_id = "id-7";
  correlation_id = none;
  timestamp = "2024-01-01T00:00:00+00:00";
  source = "aegis";
  target = "component:md";
  msg_type = kind;
  command = command;
  payload = payload;
}

abbrev pub registered_reply : Envelope Value
registered_reply =
    message MessageType.lifecycle Command.registered
      (("component_id", text "c-1") ∷ ("session_id", text "s-1") ∷ [])

-- A REGISTERED message without a session id.
abbrev pub half_reply : Envelope Value
half_reply = message MessageType.lifecycle Command.registered (("component_id", text "c-1") ∷ [])

abbrev pub bare_reply : Envelope Value
bare_reply = message MessageType.lifecycle Command.registered []

abbrev pub refusal : Envelope Value
refusal = message MessageType.lifecycle Command.registration_failed []

abbrev pub configure : Envelope Value
configure = message MessageType.config Command.configure (
    ("data_stream_socket", text "/tmp/ds")
    ∷ ("topics", list (element (element no_elements (text "aggTrades")) (text "klines")))
    ∷ [])

abbrev pub ping : Envelope Value
ping = message MessageType.heartbeat Command.ping []

abbrev pub pong : Envelope Value
pong = message MessageType.heartbeat Command.pong []

abbrev pub reborn : Envelope Value
reborn = message MessageType.lifecycle Command.reborn []

abbrev pub shutdown : Envelope Value
shutdown = message MessageType.lifecycle Command.shutdown []

abbrev pub warning : Envelope Value
warning =
    message MessageType.error Command.runtime_error
      (("code", text "W1") ∷ ("recoverable", flag true) ∷ [])

abbrev pub fatal : Envelope Value
fatal = message MessageType.error Command.runtime_error (("message", text "boom") ∷ [])

abbrev pub decode : String → String ⊎ Envelope Value
decode l =
    if l == "registered\n"
    then inr registered_reply
    else if l == "half\n"
    then inr half_reply
    else if l == "bare\n"
    then inr bare_reply
    else if l == "refusal\n"
    then inr refusal
    else if l == "configure\n"
    then inr configure
    else if l == "ping\n"
    then inr ping
    else if l == "pong\n"
    then inr pong
    else if l == "reborn\n"
    then inr reborn
    else if l == "shutdown\n"
    then inr shutdown
    else if l == "warning\n"
    then inr warning
    else if l == "fatal\n"
    then inr fatal
    else inl "expected value"

abbrev pub sample : System Value
sample = record {
  json = json;
  encode = λ env. inr (command_name env.command);
  decode = decode;
  new_v4 = λ h. "id-1";
  now = λ h. "2024-01-01T00:00:01+00:00";
  elapsed_secs = λ h. 5;
  write_all = λ h l. none;
  env_var = λ k. some "c-0";
  configure_result = λ h p ts. none;
  mul_f32_2 = λ d. inr (2 * d);
}

abbrev pub cfg : Config
cfg = Config.new "/tmp/aegis.sock" "token" "md"

abbrev pub fresh : Component Value
fresh = Runtime.new cfg
