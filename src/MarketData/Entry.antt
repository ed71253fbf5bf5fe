-- ===== src/MarketData/Entry.antt =====
-- The handler `MarketDataHandler`, and `main`.
pub mod Ids
pub mod Exits
use aegis_sdk.Prelude.{ℕ, String, Bool, Option, none, some, List, [], ◌∷◌, ⊤, unwrap_or}
use aegis_sdk.Config
use aegis_sdk.Config.{Config}
use aegis_sdk.Runtime
use aegis_sdk.Runtime.{
  System, Event, connected, sent, on_configure, on_reborn, on_ping, on_shutdown, on_error, spawned,
  cancelled, slept, History, Attempt, Component, Outcome, ok, err, panicked, pending,
}
use aegis_sdk.Component.Running.{run}
use aegis_sdk.MarketData.Worker.{outer, Worker}

-- `std::env::var`
abbrev pub Environment : Type 0
Environment = String → Option String

pub record MarketDataHandler : Type 0 where
  pub socket_path : String
  pub component_id : String
  pub session_id : String

-- `MarketDataHandler::new`
unfoldable pub new_handler : Environment → MarketDataHandler
new_handler env = record {
  socket_path = "";
  component_id = unwrap_or (env "AEGIS_COMPONENT_ID") "";
  session_id = unwrap_or (env "AEGIS_SESSION_TOKEN") "";
}

-- `on_configure`
abbrev configured_by : String → List String → MarketDataHandler → MarketDataHandler
configured_by socket_path topics handler = record handler { socket_path = socket_path }

-- The worker that `on_running` spawns; `is_cancelled` tells whether its token is cancelled by then.
unfoldable pub on_running : {V : Type 0} → MarketDataHandler → Bool → Worker V
on_running handler is_cancelled = record {
  socket_path = handler.socket_path;
  component_id = handler.component_id;
  session_id = handler.session_id;
  cancelled = is_cancelled;
  phase = outer;
  dials = [];
  handled = [];
}

-- What an event means to the handler, whose fields are private: `on_configure` sets one, and the other
-- methods of the trait, and what is no call of a method, set none.
unfoldable pub observe : {V : Type 0} → Event V → MarketDataHandler → MarketDataHandler
observe (on_configure socket_path topics) handler = configured_by socket_path topics handler
observe on_reborn handler = handler
observe on_ping handler = handler
observe on_shutdown handler = handler
observe (on_error code message) handler = handler
observe (spawned token) handler = handler
observe (connected socket_path) handler = handler
observe (sent env) handler = handler
observe (cancelled token) handler = handler
observe (slept delay) handler = handler

-- The handler after these events, the newest first.
unfoldable pub handler_after : {V : Type 0} → Environment → History V → MarketDataHandler
unfolding new_handler observe
handler_after env [] = new_handler env
handler_after env (event ∷ events) = observe event (handler_after env events)

-- `cfg` in `main`
unfoldable pub main_config : Environment → Config
main_config env =
    let cfg =
      Config.new (unwrap_or (env "AEGIS_SOCKET") "/tmp/aegis-components.sock")
        (unwrap_or (env "AEGIS_SESSION_TOKEN") "") "market_data" in
    record cfg {
      version = "0.1.0";
      supported_symbols = "BTCUSDT" ∷ "ETHUSDT" ∷ [];
      supported_timeframes = "1m" ∷ "5m" ∷ [];
      requires_streams = "aggTrades" ∷ "klines" ∷ [];
      max_reconnect_attempts = 10;
    }

-- The branch that `select!` takes in `main`.
pub data Ended : Type 0 where
  ran : Outcome ⊤ → Ended
  ctrl_c : Ended

-- The code with which the process exits, 101 if it unwinds from a panic; `none` where it runs on.
unfoldable pub exit_code : Ended → Option ℕ
exit_code (ran (ok x)) = some 0
exit_code (ran (err e)) = some 1
exit_code (ran (panicked e)) = some 101
exit_code (ran pending) = none
exit_code ctrl_c = some 0

-- `component.run()` in `main`
unfoldable pub run_main : {V : Type 0} → System V → List Attempt → Outcome ⊤ × Component V
unfolding main_config
run_main sys attempts = run sys attempts (Runtime.new (main_config sys.env_var))
