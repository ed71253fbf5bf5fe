-- ===== src/Component/Turns.antt =====
-- What ends the message loop, and what does not.
use mathlib.Core.List.{Memᴰ}
use aegis_sdk.Prelude.{
  ℕ, String, some, true, ◌≡◌, refl, ◌≢◌, List, [], ◌∷◌, Either-cases, arith, inl, inr, eq_iff,
  unwrap_or,
}
use aegis_sdk.Error.{AegisError, io, json, connection, timeout}
use aegis_sdk.Protocol.{Envelope, MessageType, Command}
use aegis_sdk.Runtime.{
  System, Read, line, failed, elapsed, Component, on_error, ok, err, lift, ◌>>=◌,
}
use aegis_sdk.Runtime.Hoare.{bind-ok}
use aegis_sdk.Component.Sending.{send_envelope, send_ack}
use aegis_sdk.Component.Handling.{
  LifecycleOutcome, continue, stop, handle_heartbeat, handle_config, handle_lifecycle,
  handle_error_msg, get_as,
}
use aegis_sdk.Component.Running.{dispatch, turn, resume, message_loop_from}
use aegis_sdk.Component.Messages.{seen}

-- The messages that no handler acts on.
pub data IsIgnored : MessageType → Command → Type 0 where
  control : (x : Command) → IsIgnored MessageType.control x
  market_data : (x : Command) → IsIgnored MessageType.data_message x
  no_ping : {x : Command} → x ≢ Command.ping → IsIgnored MessageType.heartbeat x
  no_configure : {x : Command} → x ≢ Command.configure → IsIgnored MessageType.config x
  no_request :
      {x : Command} → x ≢ Command.reborn → x ≢ Command.shutdown → IsIgnored MessageType.lifecycle x

module _ {V : Type 0} (sys : System V) where
  -- What ends a turn of the loop with an error: the deadline, a read error, the end of the stream, and a
  -- line that is no envelope.
  pub data Breaks : Read → AegisError → Type 0 where
    silence : Breaks elapsed timeout
    broken : (e : String) → Breaks (failed e) (io e)
    closed : Breaks (line "") (connection "connection closed")
    garbled : {l e : String} → l ≢ "" → sys.decode l ≡ inl e → Breaks (line l) (json e)

  -- Each of these ends the message loop with its error at once. Nothing else changes; in particular no
  -- token is cancelled.
  pub message_loop-Breaks :
      (token : ℕ) {read : Read} {e : AegisError} (reads : List Read) (c : Component V)
      → Breaks read e
      → message_loop_from sys token (read ∷ reads) c ≡ (err e, c)
  unfolding message_loop_from ◌>>=◌
  message_loop-Breaks token reads c silence = ground arith
  message_loop-Breaks token reads c (broken e) = ground arith
  message_loop-Breaks token reads c closed = ground arith
  message_loop-Breaks token reads c (garbled {l} full bad) = ground (arith, eq_iff l "")

  dispatch-ignored :
      {m : MessageType} {x : Command} (token : ℕ) (env : Envelope V) (c : Component V)
      → env.command ≡ x
      → IsIgnored m x
      → dispatch sys m env token c ≡ (ok continue, c)
  unfolding dispatch handle_heartbeat handle_config handle_lifecycle ◌>>=◌
  dispatch-ignored token env c e (control x) = refl
  dispatch-ignored token env c e (market_data x) = refl
  dispatch-ignored token env c e (no_ping h) = ground arith
  dispatch-ignored token env c e (no_configure h) = ground arith
  dispatch-ignored token env c e (no_request h k) = ground arith

  module _ (token : ℕ) {l : String} {env : Envelope V} (full : l ≢ "")
      (received : sys.decode l ≡ inr env) (reads : List Read) (c : Component V) where
    turn-line : turn sys token (line l) c ≡ dispatch sys env.msg_type env token c
    unfolding turn ◌>>=◌
    turn-line = ground (arith, eq_iff l "")

    -- A message of type CONTROL or DATA, a HEARTBEAT that is no PING, a CONFIG that is no CONFIGURE and a
    -- LIFECYCLE that is neither REBORN nor SHUTDOWN have no effect at all on the loop.
    pub message_loop-ignores :
        IsIgnored env.msg_type env.command
        → message_loop_from sys token (line l ∷ reads) c ≡ message_loop_from sys token reads c
    unfolding message_loop_from ◌>>=◌
    message_loop-ignores ignored =
        ground (arith, eq_iff l "", dispatch-ignored token env c refl ignored)

    -- A fatal ERROR message ends the loop with a connection error, after `on_error` was called.
    pub message_loop-fatal :
        env.msg_type ≡ MessageType.error
        → get_as sys sys.json.as_bool "recoverable" env.payload ≢ some true
        → message_loop_from sys token (line l ∷ reads) c ≡ (
          err (connection "non-recoverable error"),
          seen
              (on_error
                (unwrap_or (get_as sys sys.json.as_str "code" env.payload) "UNKNOWN")
                (unwrap_or (get_as sys sys.json.as_str "message" env.payload) ""))
              c,
        )
    unfolding message_loop_from handle_error_msg ◌>>=◌
    message_loop-fatal kind fatal = ground (arith, eq_iff l "")

  -- A SHUTDOWN message is among these lines.
  pub record ReadsShutdown (reads : List Read) : Type 0 where
    pub received : String
    pub env : Envelope V
    pub among : Memᴰ (line received) reads
    pub decoded : sys.decode received ≡ inr env
    pub kind : env.msg_type ≡ MessageType.lifecycle
    pub command : env.command ≡ Command.shutdown

  lifecycle-stop :
      (token : ℕ) (env : Envelope V) (c : Component V)
      → (handle_lifecycle sys env token c).0 ≡ ok stop
      → env.command ≡ Command.shutdown
  unfolding handle_lifecycle send_ack send_envelope ◌>>=◌
  lifecycle-stop token env c h = ground arith

  dispatch-stop :
      (token : ℕ) (env : Envelope V) (c : Component V)
      → (dispatch sys env.msg_type env token c).0 ≡ ok stop
      → (env.msg_type ≡ MessageType.lifecycle) × (env.command ≡ Command.shutdown)
  unfolding dispatch ◌>>=◌
  dispatch-stop token env c h = ground (arith, lifecycle-stop token env c)

  turn-stop :
      (token : ℕ) (read : Read) (reads : List Read) (c : Component V)
      → (turn sys token read c).0 ≡ ok stop
      → ReadsShutdown (read ∷ reads)
  unfolding turn ◌>>=◌
  turn-stop token elapsed reads c h = cc
  turn-stop token (failed e) reads c h = cc
  turn-stop token (line l) reads c h = elim (Either-cases (sys.decode l)) [
    | inl (e, bad) ↦ ground (arith, eq_iff l "")
    | inr (env, good) ↦
        let found : (env.msg_type ≡ MessageType.lifecycle) × (env.command ≡ Command.shutdown) =
          ground (arith, dispatch-stop token env c, eq_iff l "") in
        record {
          received = l;
          env = env;
          among = Memᴰ.head refl;
          decoded = good;
          kind = found.0;
          command = found.1;
        }
  ]

  weaken : (read : Read) {reads : List Read} → ReadsShutdown reads → ReadsShutdown (read ∷ reads)
  weaken read r = record {
    received = r.received;
    env = r.env;
    among = Memᴰ.tail r.among;
    decoded = r.decoded;
    kind = r.kind;
    command = r.command;
  }

  after_turn :
      (token : ℕ) (read : Read) (reads : List Read) (c : Component V) (o : LifecycleOutcome)
      → (turn sys token read c).0 ≡ ok o
      → (resume sys o (message_loop_from sys token reads) (turn sys token read c).1).0 ≡ ok tt
      → ((message_loop_from sys token reads (turn sys token read c).1).0 ≡ ok tt
          → ReadsShutdown reads)
      → ReadsShutdown (read ∷ reads)
  after_turn token read reads c continue e h ih = weaken read (ih h)
  after_turn token read reads c stop e h ih = turn-stop token read reads c e

  -- The message loop ends without an error only if a SHUTDOWN message is among what it can read.
  pub message_loop-ok :
      (token : ℕ) (reads : List Read) (c : Component V)
      → (message_loop_from sys token reads c).0 ≡ ok tt
      → ReadsShutdown reads
  unfolding message_loop_from
  message_loop-ok token [] c h = unfold lift in cc
  message_loop-ok token (read ∷ reads) c h =
      let (outcome, turned, rest) = bind-ok (turn sys token read) _ c h in
      after_turn token read reads c outcome turned rest
        (message_loop-ok token reads (turn sys token read c).1)
