-- ===== src/Runtime/World.antt =====
-- The outside world, as the parameter `System`: `serde_json`, `uuid`, `chrono`, tokio's sockets and
-- timers, the environment, `Duration`'s floating-point product and the user's handler. What may
-- answer differently at each call takes the history.
use aegis_sdk.Prelude.{ℕ, String, Option, List, ◌⊎◌}
use aegis_sdk.Error.{AegisError}
use aegis_sdk.Protocol.{Envelope}
use aegis_sdk.Runtime.Values.{Json}

-- What an observer sees of a component.
pub data Event (V : Type 0) : Type 0 where
  -- `UnixStream::connect` succeeded
  connected : String → Event V
  -- the whole line of an envelope was written
  sent : Envelope V → Event V
  -- callbacks of `trait ComponentHandler`
  on_configure : String → List String → Event V
  on_reborn on_ping on_shutdown : Event V
  on_error : String → String → Event V
  -- a task was spawned that runs `on_running` with this cancellation token
  spawned : ℕ → Event V
  -- this token was cancelled
  cancelled : ℕ → Event V
  -- `sleep`, in nanoseconds
  slept : ℕ → Event V

-- The events so far, the newest first.
abbrev pub History : Type 0 → Type 0
History V = List (Event V)

pub record System (V : Type 0) : Type 0 where
  pub json : Json V
  -- `serde_json::to_string` and `from_str` at `Envelope`; an error is given by its text
  pub encode : Envelope V → String ⊎ String
  pub decode : String → String ⊎ Envelope V
  -- `Uuid::new_v4`, `Utc::now`, and the seconds since `started_at`
  pub new_v4 : History V → String
  pub now : History V → String
  pub elapsed_secs : History V → ℕ
  -- `write_all`: `none`, or the error
  pub write_all : History V → String → Option String
  -- `std::env::var`
  pub env_var : String → Option String
  -- the result of the handler's `on_configure`: `none`, or the error
  pub configure_result : History V → String → List String → Option AegisError
  -- `Duration::mul_f32(2.0)`; or the text of its panic on overflow
  pub mul_f32_2 : ℕ → String ⊎ ℕ

-- What the reader's `read_line` brings while a task waits for it: the line (empty at the end of the
-- stream), an error, or nothing until the caller's deadline.
pub data Read : Type 0 where
  line : String → Read
  failed : String → Read
  elapsed : Read

-- An attempt to connect: refused, or a connection with what can be read from it.
pub data Attempt : Type 0 where
  refused : String → Attempt
  accepted : List Read → Attempt
