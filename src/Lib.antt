-- ===== src/Lib.antt =====
-- The Rust SDK of Aegis components, aegis-rust/.
--
-- A component connects to Aegis over a Unix socket, registers, and then handles messages until it is
-- told to shut down or the connection is lost; `Component::run` connects again, with growing pauses.
-- A component that is configured reads market data from a second socket, the data stream.
--
-- - Config, Error, Protocol: aegis-rust/src/config.rs, error.rs and protocol.rs. A duration is a
--   number of nanoseconds; `HashMap` is an association list (Prelude).
-- - Runtime: `struct Component` of aegis-rust/src/component.rs, extended by the history of what an
--   observer sees (callbacks, messages written, tasks started, tokens cancelled, sleeps), by the states
--   that `state` has been set to, and by a count of the cancellation tokens. A method is an action: it takes the state and returns the new state
--   with an outcome, which is a result, an `AegisError`, a panic, or `pending`. What is not in the
--   repository is the record `System`: `serde_json` at its values and at envelopes, `uuid`, `chrono`,
--   the timers, the socket's writes, the environment, `Duration::mul_f32(2.0)` and the handler's
--   `on_configure`; what may vary from call to call takes the history. Runtime.Hoare has the rules for
--   what an action ensures.
-- - Component: the methods of `impl Component`. Component.Sending has `send_envelope`,
--   `send_state_update`, `send_error`, `send_ack` and `recv_envelope`; Component.Registering
--   `register`; Component.Handling the four handlers; Component.Running `message_loop`, `run_once` and
--   `run`. The other modules below Component hold the proofs. Component.Rules proves once that an
--   invariant of the parts is one of `run`.
-- - DataStream: `DataStream::connect` and `next` of aegis-rust/src/data_stream.rs, over a socket that is
--   a parameter.
-- - MarketData: the example aegis-rust/examples/market_data.rs. MarketData.Worker is `stream_worker` as
--   a machine that stands at its awaits, its `select!`s and its tests of the token, and takes what
--   happens there as input; it calls `connect` and `next` of DataStream, and `handle_message`, which is
--   MarketData.Topics. MarketData.Entry is `MarketDataHandler`, as the callbacks in a component's
--   history change it, and `main` around the component's `run`.
-- - Scenarios: a sample outside world, runs, and instances of the theorems.
--
-- Input is a list: the attempts to connect, each refused or with the list of what its reader brings (a
-- line, an error, or silence until the caller's deadline). The loops recur on these lists and need no
-- fuel; where a list ends while the code still waits, the outcome is `pending`. A line that is empty
-- stands for the end of the stream, at which `read_line` returns 0. `attempts += 1` wraps, as in a
-- release build.
--
-- Not modelled: the JSON text of an envelope; logging; the tasks that run `on_running` once they are
-- started; code of the user that changes the component's shared fields from outside; the SDKs in other
-- languages.
pub mod Component
pub mod Config
pub mod DataStream
pub mod Error
pub mod MarketData
pub mod Prelude
pub mod Protocol
pub mod Runtime
pub mod Scenarios
