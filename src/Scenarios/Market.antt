-- ===== src/Scenarios/Market.antt =====
-- The example component at concrete inputs.
use aegis_sdk.Prelude.{
  ℕ, ◌≤◌, String, concat, inl, inr, ◌==◌, if◌then◌else◌, true, false, ◌≡◌, ◌↔◌, refl, none, some,
  List, [], ◌∷◌, map,
}
use aegis_sdk.Protocol.{ComponentState}
use aegis_sdk.Runtime
use aegis_sdk.Runtime.{
  Event, on_configure, spawned, Attempt, refused, accepted, Read, line, ok, err,
}
use aegis_sdk.DataStream.{StreamMessage, Frame, Wire, Dial, DataStream, connect, next_message}
use aegis_sdk.Component.BackOff.{gave_up, add_events, pauses}
use aegis_sdk.MarketData.Topics.{
  dotless, handle_message, kline, agg_trade, unhandled, ◌▪◌, handle_message-prefixed,
  handle_message-bare,
}
use aegis_sdk.MarketData.Worker.{
  call_of, dialing, connecting, Phase, outer, stopped, Input, cancel, test, woken, slept, dialled,
  received, Worker, steps,
}
use aegis_sdk.MarketData.Worker.Cancellation.{
  others, wind_down, steps-stopped, steps-cancelled, steps-wind_down,
}
use aegis_sdk.MarketData.Worker.Messages.{frames_onto, steps-handled}
use aegis_sdk.MarketData.Worker.Calls.{Repeats}
use aegis_sdk.MarketData.Worker.Connects.{reads_on, steps-IsWelcomed}
use aegis_sdk.DataStream.Handshakes.{IsWelcomed}
use aegis_sdk.MarketData.Entry.{on_running, ran, exit_code, main_config, run_main}
use aegis_sdk.MarketData.Entry.Ids.{last_socket, worker, worker-Repeats}
use aegis_sdk.MarketData.Entry.Exits.{exit_code-shutdown, exit_code-unreachable}
use aegis_sdk.Scenarios.Sample.{Value, sample}
use aegis_sdk.Scenarios.Instances.{session, sample-DoublesSeconds}

-- A message of the data stream, whose values are numbers here.
abbrev message : String → StreamMessage ℕ
message topic = record { topic = topic; content = 42 }

handle_message-prefixed_example :
    (handle_message (message ("aegis" ▪ "s-1" ▪ "klines" ▪ "BTCUSDT" ▪ "1h"))
      ≡ kline "BTCUSDT" "1h" 42)
    × (handle_message (message ("aegis" ▪ "s-1" ▪ "aggTrades" ▪ "BTCUSDT"))
        ≡ agg_trade "BTCUSDT" 42)
unfolding dotless
handle_message-prefixed_example = handle_message-prefixed "BTCUSDT" "1h" refl refl "s-1" 42 refl

handle_message-bare_example :
    (handle_message (message ("klines" ▪ "BTCUSDT" ▪ "1h"))
      ≡ unhandled ("klines" ▪ "BTCUSDT" ▪ "1h"))
    × (handle_message (message ("aggTrades" ▪ "BTCUSDT")) ≡ agg_trade "BTCUSDT" 42)
unfolding dotless
handle_message-bare_example = handle_message-bare "BTCUSDT" "1h" refl refl 42

-- A data stream whose server takes only this worker's handshake.
abbrev trade_frame : Frame ℕ
trade_frame = record { topic = "aegis.s-1.aggTrades.BTCUSDT"; content = 42 }

abbrev wire : Wire ℕ
wire = record {
  encode_handshake = λ h. inr (concat h.component_id (concat "/" h.session_token));
  decode_response = λ l. inr (record { status = "ok"; message = none; topics = none });
  decode_frame = λ l. if l == "trade\n" then inr trade_frame else inl "expected value";
}

abbrev served : String → Dial
served path =
    if path == "/tmp/ds"
    then Dial.opened (λ l. if l == "c-0/s-0\n" then none else some "EPIPE") none (line "{}\n" ∷ [])
    else Dial.refused "ENOENT"

abbrev nobody : String → Dial
nobody path = Dial.refused "ENOENT"

abbrev started : Worker ℕ
started = record {
  socket_path = "/tmp/ds";
  component_id = "c-0";
  session_id = "s-0";
  cancelled = false;
  phase = outer;
  dials = [];
  handled = [];
}

-- A failed connection, then one that brings a trade, and the cancellation of the token.
abbrev day : List (Input ℕ)
day =
    test
    ∷ test
    ∷ dialled nobody
    ∷ slept
    ∷ test
    ∷ dialled served
    ∷ received (line "trade\n")
    ∷ cancel
    ∷ woken
    ∷ []

abbrev evening : Worker ℕ
evening = record started {
  cancelled = true;
  phase = stopped;
  dials = call_of started ∷ call_of started ∷ [];
  handled = agg_trade "BTCUSDT" 42 ∷ [];
}

steps_run : steps wire started day ≡ some evening
unfolding steps connect next_message handle_message
steps_run = refl

steps-stopped_example : evening.cancelled ≡ true
steps-stopped_example = steps-stopped wire started day (λ e. cc) steps_run refl

steps-handled_example : evening.handled ≡ frames_onto wire day []
steps-handled_example = steps-handled wire started day steps_run

-- About to connect.
abbrev ready : Worker ℕ
ready = record started { phase = dialing }

steps-IsWelcomed_example :
    (steps wire ready (test ∷ dialled served ∷ []) ≡ some (reads_on wire ready))
    ↔ ((stream : DataStream) × IsWelcomed wire "c-0" "s-0" (served "/tmp/ds") stream)
steps-IsWelcomed_example = steps-IsWelcomed wire ready served refl refl

-- Cancelled while it reads.
abbrev cancelled_reading : Worker ℕ
cancelled_reading = record started {
  cancelled = true;
  phase = Phase.reading;
  dials = call_of started ∷ call_of started ∷ [];
}

steps_end : steps wire cancelled_reading (received (line "trade\n") ∷ woken ∷ []) ≡ some evening
unfolding steps next_message handle_message
steps_end = refl

steps-cancelled_example :
    (evening.dials ≡ cancelled_reading.dials)
    × (others wire (received (line "trade\n") ∷ woken ∷ []) ≤ 4)
steps-cancelled_example =
    steps-cancelled wire cancelled_reading (received (line "trade\n") ∷ woken ∷ []) refl steps_end

steps-wind_down_example :
    steps wire cancelled_reading (wind_down wire "ENOENT" cancelled_reading.phase)
    ≡ some (record cancelled_reading { phase = stopped })
steps-wind_down_example = steps-wind_down wire "ENOENT" cancelled_reading refl

-- Configured, and then lost.
abbrev lost : List Attempt
lost = accepted (line "registered\n" ∷ line "configure\n" ∷ line "" ∷ []) ∷ []

-- The data stream of `main`, whose values are those of the sample world.
abbrev deaf : Wire Value
deaf = record {
  encode_handshake = λ h. inr "hello";
  decode_response = λ l. inl "expected value";
  decode_frame = λ l. inl "expected value";
}

abbrev spawned_worker : Worker Value
spawned_worker = worker sample.env_var (run_main sample lost).1.history false

abbrev waiting : Worker Value
waiting = record spawned_worker {
  phase = connecting (call_of spawned_worker);
  dials = call_of spawned_worker ∷ [];
}

steps_dial : steps deaf spawned_worker (test ∷ test ∷ []) ≡ some waiting
unfolding steps on_running
steps_dial = refl

worker-Repeats_example :
    Repeats
      (record {
        socket_path = last_socket (run_main sample lost).1.history;
        component_id = "c-0";
        session_id = "c-0";
      })
      []
      waiting.dials
worker-Repeats_example = worker-Repeats sample deaf lost false (test ∷ test ∷ []) steps_dial

exit_code-shutdown_example :
    (exit_code (ran (run_main sample (accepted session ∷ [])).0) ≡ some 0)
    ↔ ((run_main sample (accepted session ∷ [])).1.state ≡ ComponentState.shutdown)
exit_code-shutdown_example = exit_code-shutdown sample (accepted session ∷ [])

abbrev refusals : List String
refusals = "2" ∷ "3" ∷ "4" ∷ "5" ∷ "6" ∷ "7" ∷ "8" ∷ "9" ∷ "10" ∷ []

exit_code-unreachable_example :
    (run_main sample (map refused ("1" ∷ refusals))
      ≡ (err (gave_up 10), add_events (pauses 3 60 0 9) (Runtime.new (main_config sample.env_var))))
    × (exit_code (ran (run_main sample (map refused ("1" ∷ refusals))).0) ≡ some 1)
exit_code-unreachable_example = exit_code-unreachable sample sample-DoublesSeconds "1" refusals refl
