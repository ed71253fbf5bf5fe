-- ===== src/MarketData/Entry/Ids.antt =====
-- With which ids the stream worker dials.
use aegis_sdk.Prelude.{String, Bool, List, [], ◌∷◌, ◌≡◌, refl, ap, some, unwrap_or, arith}
use aegis_sdk.Runtime.{System, Event, on_configure, History, Attempt}
use aegis_sdk.DataStream.{Wire}
use aegis_sdk.MarketData.Worker.{Input, Worker, call_of, steps}
use aegis_sdk.MarketData.Worker.Calls.{Repeats, steps-Repeats}
use aegis_sdk.MarketData.Entry.{
  Environment, MarketDataHandler, new_handler, observe, handler_after, on_running, run_main,
}

abbrev fields : MarketDataHandler → String × String × String
fields h = (h.socket_path, h.component_id, h.session_id)

module _ {V : Type 0} where
  abbrev socket_after : Event V → String → String
  socket_after (on_configure socket_path topics) old = socket_path
  socket_after event old = old

  -- The data stream's socket that `on_configure` was called with last, or nothing.
  abbrev pub last_socket : History V → String
  last_socket [] = ""
  last_socket (event ∷ events) = socket_after event (last_socket events)

  observe-fields :
      (event : Event V) (h : MarketDataHandler) {p i s : String}
      → fields h ≡ (p, i, s)
      → fields (observe event h) ≡ (socket_after event p, i, s)
  unfolding observe
  observe-fields event h e = ground arith

  handler_after-fields :
      (env : Environment) (events : History V)
      → fields (handler_after env events) ≡ (
        last_socket events,
        unwrap_or (env "AEGIS_COMPONENT_ID") "",
        unwrap_or (env "AEGIS_SESSION_TOKEN") "",
      )
  unfolding handler_after
  handler_after-fields env [] = unfold new_handler in refl
  handler_after-fields env (event ∷ events) =
      observe-fields event (handler_after env events) (handler_after-fields env events)

  -- The worker that `on_running` spawns after these events.
  abbrev pub worker : Environment → History V → Bool → Worker V
  worker env events cancelled = on_running (handler_after env events) cancelled

  worker-call :
      (env : Environment) (events : History V) (cancelled : Bool)
      → call_of (worker env events cancelled) ≡ (record {
        socket_path = last_socket events;
        component_id = unwrap_or (env "AEGIS_COMPONENT_ID") "";
        session_id = unwrap_or (env "AEGIS_SESSION_TOKEN") "";
      })
  unfolding on_running
  worker-call env events cancelled =
      ap (λ f. record { socket_path = f.0; component_id = f.1; session_id = f.2 })
        (handler_after-fields env events)

module _ {V : Type 0} (sys : System V) (wire : Wire V) where
  -- Whatever the attempts of `main` come to, and whatever happens to a worker that `on_running` then spawns:
  -- each call of `DataStream::connect` that it makes is with the socket path of the last CONFIGURE that
  -- was handled, and with the ids that the environment gave the program at its start, empty if there
  -- are none.
  pub worker-Repeats :
      (attempts : List Attempt) (cancelled : Bool) (inputs : List (Input V)) {w' : Worker V}
      → let history = (run_main sys attempts).1.history in
        steps wire (worker sys.env_var history cancelled) inputs ≡ some w'
        → Repeats
            (record {
              socket_path = last_socket history;
              component_id = unwrap_or (sys.env_var "AEGIS_COMPONENT_ID") "";
              session_id = unwrap_or (sys.env_var "AEGIS_SESSION_TOKEN") "";
            })
            []
            w'.dials
  unfolding on_running
  worker-Repeats attempts cancelled inputs e =
      let history = (run_main sys attempts).1.history in
      (steps-Repeats wire _ (worker sys.env_var history cancelled) inputs
        (worker-call sys.env_var history cancelled) tt e).0
