-- ===== src/Scenarios/Streams.antt =====
-- Instances of the theorems about the data stream.
use aegis_sdk.Prelude.{
  ℕ, ◌≡◌, ◌↔◌, refl, none, some, inl, inr, concat, List, [], ◌∷◌, ◌==◌, if◌then◌else◌,
}
use aegis_sdk.Error.{json}
use aegis_sdk.Runtime.{Read, line, elapsed, ok, err}
use aegis_sdk.DataStream.{DataStream, Dial, opened, Frame, HandshakeResponse, Wire, connect, next}
use aegis_sdk.DataStream.Handshakes.{IsWelcomed, connect-ok_iff}
use aegis_sdk.DataStream.Frames.{calls, calls-Frames, finished, more, Fails, next-err_iff}

abbrev welcome : HandshakeResponse
welcome = record { status = "ok"; message = none; topics = some ("klines" ∷ []) }

abbrev denial : HandshakeResponse
denial = record { status = "denied"; message = none; topics = none }

abbrev frame : Frame ℕ
frame = record { topic = "klines.BTCUSDT.1h"; content = 42 }

-- The values of frames are numbers here.
abbrev wire : Wire ℕ
wire = record {
  encode_handshake = λ h. inr (concat h.component_id (concat "/" h.session_token));
  decode_response = λ l.
      if l == "welcome\n"
      then inr welcome
      else if l == "denial\n"
      then inr denial
      else inl "expected value";
  decode_frame = λ l. if l == "frame\n" then inr frame else inl "expected value";
}

-- A server that takes only the right handshake.
abbrev server : List Read → Dial
server reads = opened (λ l. if l == "c-1/s-1\n" then none else some "EPIPE") none reads

abbrev stream : DataStream
stream = record { topics = "klines" ∷ []; reader = line "frame\n" ∷ [] }

connect_runs :
    connect wire (server (line "welcome\n" ∷ line "frame\n" ∷ [])) "c-1" "s-1" ≡ ok stream
unfolding connect
connect_runs = refl

connect-ok_iff_example :
    (connect wire (server (line "welcome\n" ∷ line "frame\n" ∷ [])) "c-1" "s-1" ≡ ok stream)
    ↔ IsWelcomed wire "c-1" "s-1" (server (line "welcome\n" ∷ line "frame\n" ∷ [])) stream
connect-ok_iff_example =
    connect-ok_iff wire "c-1" "s-1" (server (line "welcome\n" ∷ line "frame\n" ∷ [])) stream

calls-Frames_example :
    calls wire 2 (record { topics = []; reader = line "frame\n" ∷ line "frame\n" ∷ elapsed ∷ [] })
    ≡ (
      ok (record { topic = "klines.BTCUSDT.1h"; content = 42 })
          ∷ ok (record { topic = "klines.BTCUSDT.1h"; content = 42 })
          ∷ [],
      record { topics = []; reader = elapsed ∷ [] },
    )
calls-Frames_example = calls-Frames wire [] (elapsed ∷ []) (
    more {l = "frame\n"} {f = frame} (λ e. cc) refl
      (more {l = "frame\n"} {f = frame} (λ e. cc) refl finished))

next-err_iff_example :
    ((next wire (record { topics = []; reader = line "???" ∷ [] })).0 ≡ err (json "expected value"))
    ↔ Fails wire (line "???") (json "expected value")
next-err_iff_example = next-err_iff wire (line "???") [] [] (json "expected value")
