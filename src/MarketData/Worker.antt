-- ===== src/MarketData/Worker.antt =====
-- `stream_worker`, as a machine that stands at one of its waits or tests. Whatever may happen there is
-- an input: `select!` may take either branch if both are ready, so the input chooses.
pub mod Cancellation
pub mod Messages
pub mod Calls
pub mod Connects
use aegis_sdk.Prelude.{
  ℕ, suc, ◌+◌, String, Bool, true, false, Option, none, some, List, [], ◌∷◌, if◌then◌else◌,
}
use aegis_sdk.Runtime.{Read, Outcome, ok, err}
use aegis_sdk.DataStream.{DataStream, StreamMessage, Dial, Wire, connect, next_message}
use aegis_sdk.MarketData.Topics.{Handled, handle_message}

-- The arguments of a call of `DataStream::connect`.
pub record Call : Type 0 where
  pub socket_path : String
  pub component_id : String
  pub session_id : String

pub data Phase : Type 0 where
  -- the tests of `is_cancelled` at the head of the outer and of the inner loop
  outer dialing : Phase
  -- `DataStream::connect(…).await`, with its arguments
  connecting : Call → Phase
  -- `select!` between the token and a sleep of 1 s
  retrying : Phase
  -- `select!` between the token and `stream.next()`
  reading : Phase
  -- `select!` between the token and a sleep of 500 ms
  pausing : Phase
  stopped : Phase

pub data Input (V : Type 0) : Type 0 where
  -- someone cancels the token
  cancel : Input V
  -- the test of `is_cancelled` is made
  test : Input V
  -- `select!` takes the branch of the token, or that of the sleep
  woken slept : Input V
  -- what the sockets at each path do when `DataStream::connect` dials
  dialled : (String → Dial) → Input V
  -- what the reader brings to `stream.next()`
  received : Read → Input V

pub record Worker (V : Type 0) : Type 0 where
  pub socket_path : String
  pub component_id : String
  pub session_id : String
  pub cancelled : Bool
  pub phase : Phase
  -- the calls of `DataStream::connect`, the newest first
  pub dials : List Call
  -- what `handle_message` has made of its messages, the newest first
  pub handled : List (Handled V)

module _ {V : Type 0} where
  abbrev to : Phase → Worker V → Option (Worker V)
  to p w = some (record w { phase = p })

  -- `break 'outer` if the token is cancelled
  unfoldable pub unless_cancelled : Option (Worker V) → Worker V → Option (Worker V)
  unless_cancelled go w = if w.cancelled then to stopped w else go

  -- the branch `shutdown.cancelled()` of a `select!` is ready once the token is cancelled
  unfoldable pub wake : Worker V → Option (Worker V)
  wake w = if w.cancelled then to stopped w else none

  -- `match DataStream::connect(…).await`
  unfoldable pub after_connect : Outcome DataStream → Worker V → Option (Worker V)
  after_connect (ok stream) w = to reading w
  after_connect (err e) w = to retrying w
  after_connect _ w = none

  -- `match result` once `stream.next()` has returned
  unfoldable pub after_next : Outcome (StreamMessage V) → Worker V → Option (Worker V)
  after_next (ok msg) w = some (record w { handled = handle_message msg ∷ w.handled })
  after_next (err e) w = to pausing w
  after_next _ w = none

-- The call that the worker makes.
abbrev pub call_of : {V : Type 0} → Worker V → Call
call_of w = record {
  socket_path = w.socket_path;
  component_id = w.component_id;
  session_id = w.session_id;
}

module _ {V : Type 0} (wire : Wire V) where
  -- one step of the worker in this phase; `none` where this input cannot occur
  unfoldable pub step_in : Phase → Input V → Worker V → Option (Worker V)
  unfolding unless_cancelled wake after_connect after_next
  step_in p cancel w = some (record w { cancelled = true })
  step_in outer test w = unless_cancelled (to dialing w) w
  step_in dialing test w =
      let call = call_of w in
      unless_cancelled (some (record w { phase = connecting call; dials = call ∷ w.dials })) w
  step_in (connecting call) (dialled sockets) w =
      after_connect (connect wire (sockets call.socket_path) call.component_id call.session_id) w
  step_in retrying woken w = wake w
  step_in retrying slept w = to dialing w
  step_in reading woken w = wake w
  step_in reading (received read) w = after_next (next_message wire (read ∷ [])) w
  step_in pausing woken w = wake w
  step_in pausing slept w = to outer w
  step_in p input w = none

  unfoldable pub step : Worker V → Input V → Option (Worker V)
  unfolding step_in
  step w input = step_in w.phase input w

  -- Steps one after the other.
  unfoldable pub steps : Worker V → List (Input V) → Option (Worker V)
  unfolding step
  steps w [] = some w
  steps w (input ∷ inputs) = elim (step w input) [ none ↦ none | some w' ↦ steps w' inputs ]
