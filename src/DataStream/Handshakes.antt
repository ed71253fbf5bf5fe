-- ===== src/DataStream/Handshakes.antt =====
-- When `connect` succeeds, and what it has done then.
use aegis_sdk.Prelude.{
  String, concat, none, inl, inr, ◌≡◌, ◌↔◌, Option, List, [], ◌∷◌, eq_iff, unwrap_or, Either-cases,
  arith,
}
use aegis_sdk.Runtime.{Read, line, failed, elapsed, ok}
use aegis_sdk.DataStream.{
  DataStream, Handshake, HandshakeResponse, Dial, refused, opened, Wire, connect,
}

module _ {V : Type 0} (wire : Wire V) (component_id session_id : String) where
  abbrev pub hello : Handshake
  hello = record { component_id = component_id; session_token = session_id }

  -- The handshake went through, and the stream is what it promised.
  pub record IsWelcomed (dial : Dial) (stream : DataStream) : Type 0 where
    pub write_all : String → Option String
    pub encoded : String
    pub answer : String
    pub resp : HandshakeResponse
    -- the socket was opened, took one line and was flushed, and its first line is the answer
    pub socket : dial ≡ opened write_all none (line answer ∷ stream.reader)
    -- the line names the component, and the session id as the token
    pub greeting : wire.encode_handshake hello ≡ inr encoded
    pub greeted : write_all (concat encoded "\n") ≡ none
    pub answered : wire.decode_response answer ≡ inr resp
    pub welcome : resp.status ≡ "ok"
    pub subscribed : stream.topics ≡ unwrap_or resp.topics []

  connect-opened :
      (write_all : String → Option String) (flush : Option String) (reads : List Read)
      (stream : DataStream)
      → connect wire (opened write_all flush reads) component_id session_id ≡ ok stream
      → IsWelcomed (opened write_all flush reads) stream
  unfolding connect
  connect-opened write_all flush [] stream h =
      ground (arith, Either-cases (wire.encode_handshake hello))
  connect-opened write_all flush (elapsed ∷ reads) stream h =
      ground (arith, Either-cases (wire.encode_handshake hello))
  connect-opened write_all flush (failed e ∷ reads) stream h =
      ground (arith, Either-cases (wire.encode_handshake hello))
  connect-opened write_all flush (line answer ∷ reads) stream h =
      elim (Either-cases (wire.encode_handshake hello)) [
        | inl (e, bad) ↦ ground arith
        | inr (encoded, good) ↦ elim (Either-cases (wire.decode_response answer)) [
          | inl (e, bad) ↦ ground arith
          | inr (resp, decoded) ↦ record {
            write_all = write_all;
            encoded = encoded;
            answer = answer;
            resp = resp;
            socket = ground arith;
            greeting = good;
            greeted = ground arith;
            answered = decoded;
            welcome = ground (arith, eq_iff resp.status "ok");
            subscribed = ground arith;
          }
        ]
      ]

  connect-IsWelcomed :
      (dial : Dial) (stream : DataStream)
      → connect wire dial component_id session_id ≡ ok stream
      → IsWelcomed dial stream
  connect-IsWelcomed (refused e) stream h = unfold connect in cc
  connect-IsWelcomed (opened write_all flush reads) stream h =
      connect-opened write_all flush reads stream h

  welcomed_connect :
      (dial : Dial) (stream : DataStream)
      → IsWelcomed dial stream
      → connect wire dial component_id session_id ≡ ok stream
  unfolding connect
  welcomed_connect dial stream w = ground (arith, eq_iff w.resp.status "ok")

  -- `connect` succeeds with a stream exactly if the socket opens, the line with the component's id and
  -- the session id as token is written and flushed, and the first line of the socket is a response
  -- with the status "ok". The stream has the topics of the response, or none if it has none, and the
  -- rest of the socket to read.
  pub connect-ok_iff :
      (dial : Dial) (stream : DataStream)
      → (connect wire dial component_id session_id ≡ ok stream) ↔ IsWelcomed dial stream
  connect-ok_iff dial stream = (connect-IsWelcomed dial stream, welcomed_connect dial stream)
