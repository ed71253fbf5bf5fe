-- ===== src/DataStream.antt =====
-- aegis-rust/src/data_stream.rs: the handshake with the data stream's server, and its frames. The
-- socket and `serde_json` are parameters.
pub mod Handshakes
pub mod Frames
use aegis_sdk.Prelude.{
  ℕ, String, concat, not, Option, none, some, inl, inr, ◌⊎◌, List, [], ◌∷◌, ⊤, ◌==◌, if◌then◌else◌,
  unwrap_or,
}
use aegis_sdk.Error.{AegisError, connection, io, json, timeout}
use aegis_sdk.Runtime.{Read, line, failed, elapsed, Outcome, ok, err, panicked, pending}

pub record StreamMessage (V : Type 0) : Type 0 where
  pub topic : String
  pub content : V

-- The topics, and what the reader has still to bring.
pub record DataStream : Type 0 where
  pub topics : List String
  pub reader : List Read

pub record Frame (V : Type 0) : Type 0 where
  pub topic : String
  pub content : V

pub record Handshake : Type 0 where
  pub component_id : String
  pub session_token : String

pub record HandshakeResponse : Type 0 where
  pub status : String
  pub message : Option String
  pub topics : Option (List String)

-- `UnixStream::connect`: refused, or a socket with the results of its writes and of `flush`, and what
-- it has to read.
pub data Dial : Type 0 where
  refused : String → Dial
  opened : (String → Option String) → Option String → List Read → Dial

-- `serde_json` at the types of the wire; an error is given by its text.
pub record Wire (V : Type 0) : Type 0 where
  pub encode_handshake : Handshake → String ⊎ String
  pub decode_response : String → String ⊎ HandshakeResponse
  pub decode_frame : String → String ⊎ Frame V

infixl 5 ◌>>=◌ ◌>>◌
unfoldable pub ◌>>=◌ : {A B : Type 0} → Outcome A → (A → Outcome B) → Outcome B
ok a >>= f = f a
err e >>= f = err e
panicked e >>= f = panicked e
pending >>= f = pending

abbrev pub ◌>>◌ : {A B : Type 0} → Outcome A → Outcome B → Outcome B
m >> k = m >>= λ _. k

-- `map_err`
unfoldable pub map_err : {A : Type 0} → (String → AegisError) → String ⊎ A → Outcome A
map_err wrap (inl e) = err (wrap e)
map_err wrap (inr a) = ok a

-- The result of a write.
unfoldable pub written : Option String → Outcome ⊤
written none = ok tt
written (some e) = err (io e)

-- `timeout(…, reader.read_line(…))`: the line, empty at the end of the stream.
unfoldable pub read_line : List Read → Outcome String
read_line [] = pending
read_line (elapsed ∷ reads) = err timeout
read_line (failed e ∷ reads) = err (io e)
read_line (line received ∷ reads) = ok received

-- What is left to read afterwards.
unfoldable pub unread : List Read → List Read
unread [] = []
unread (read ∷ reads) = reads

module _ {V : Type 0} (wire : Wire V) where
  -- the end of `connect`, with the server's response
  unfoldable pub check_status : HandshakeResponse → List Read → Outcome DataStream
  check_status resp reads =
      if not (resp.status == "ok")
      then err (
          connection
            (concat "data stream handshake rejected: " (unwrap_or resp.message "no message")))
      else ok (record { topics = unwrap_or resp.topics []; reader = reads })

  -- `DataStream::connect`, from what the socket does
  unfoldable pub connect : Dial → String → String → Outcome DataStream
  unfolding ◌>>=◌ map_err written read_line unread check_status
  connect (refused e) component_id session_id = err (connection (concat "data stream connect: " e))
  connect (opened write_all flush reads) component_id session_id = do
    encoded ←
        map_err json (
          wire.encode_handshake
            (record { component_id = component_id; session_token = session_id }))
    written (write_all (concat encoded "\n"))
    written flush
    received ← read_line reads
    resp ←
        map_err (λ e. connection (concat "data stream handshake response: " e))
          (wire.decode_response received)
    check_status resp (unread reads)

  -- the body of `next`
  unfoldable pub next_message : List Read → Outcome (StreamMessage V)
  unfolding ◌>>=◌ map_err read_line
  next_message reads = do
    received ← read_line reads
    frame ←
        if received == ""
        then err (connection "data stream closed")
        else map_err json (wire.decode_frame received)
    ok (record { topic = frame.topic; content = frame.content })

  -- `DataStream::next`: the message, and the stream afterwards
  unfoldable pub next : DataStream → Outcome (StreamMessage V) × DataStream
  unfolding next_message unread
  next stream = (next_message stream.reader, record stream { reader = unread stream.reader })
