-- ===== src/Config.antt =====
-- aegis-rust/src/config.rs. A `Duration` is a number of nanoseconds.
use aegis_sdk.Prelude.{ℕ, ◌*◌, ◌^◌, String, Bool, true, List, []}

abbrev pub from_secs : ℕ → ℕ
from_secs s = s * 10 ^ 9

pub record Config : Type 0 where
  pub socket_path : String
  pub session_token : String
  pub component_name : String
  pub version : String
  pub supported_symbols : List String
  pub supported_timeframes : List String
  pub requires_streams : List String
  pub reconnect : Bool
  pub reconnect_delay : ℕ
  pub max_reconnect_delay : ℕ
  -- `u32`; 0 is unlimited
  pub max_reconnect_attempts : ℕ

-- `Config::new`
abbrev pub new : String → String → String → Config
new socket_path session_token component_name = record {
  socket_path = socket_path;
  session_token = session_token;
  component_name = component_name;
  version = "0.1.0";
  supported_symbols = [];
  supported_timeframes = [];
  requires_streams = [];
  reconnect = true;
  reconnect_delay = from_secs 3;
  max_reconnect_delay = from_secs 60;
  max_reconnect_attempts = 0;
}
