-- ===== src/MarketData/Worker/Connects.antt =====
-- When the stream worker gets a data stream.
use aegis_sdk.Prelude.{
  String, false, ◌≡◌, ◌↔◌, refl, ap, ◌∙◌, sym, Option, none, some, [], ◌∷◌, arith,
}
use aegis_sdk.Runtime.{Outcome, ok, err, panicked, pending}
use aegis_sdk.DataStream.{DataStream, Dial, Wire, connect}
use aegis_sdk.DataStream.Handshakes.{IsWelcomed, connect-ok_iff}
use aegis_sdk.MarketData.Worker.{
  call_of, dialing, connecting, reading, test, dialled, Worker, after_connect, step_in, step, steps,
}

module _ {V : Type 0} (wire : Wire V) where
  -- The worker while it waits for the call that it has made.
  abbrev pub calling : Worker V → Worker V
  calling w = record w { phase = connecting (call_of w); dials = call_of w ∷ w.dials }

  abbrev pub reads_on : Worker V → Worker V
  reads_on w = record w { phase = reading; dials = call_of w ∷ w.dials }

  after_connect-ok :
      (o : Outcome DataStream) (w : Worker V)
      → (after_connect o (calling w) ≡ some (reads_on w))
        ↔ ((stream : DataStream) × (o ≡ ok stream))
  unfolding after_connect
  after_connect-ok (ok stream) w = (λ e. (stream, refl), λ e. refl)
  after_connect-ok (err x) w = (λ e. absurd (ground arith), λ e. absurd (ground arith))
  after_connect-ok (panicked x) w = (λ e. cc, λ e. absurd (ground arith))
  after_connect-ok pending w = (λ e. cc, λ e. absurd (ground arith))

  step-last : (r : Option (Worker V)) → elim r [ none ↦ none | some w ↦ steps wire w [] ] ≡ r
  unfolding steps
  step-last none = refl
  step-last (some w) = refl

  step-test :
      (w : Worker V) → w.phase ≡ dialing → w.cancelled ≡ false → step wire w test ≡ some (calling w)
  unfolding step step_in
  step-test w at live = ground arith

  dialled-calls :
      (w : Worker V) (sockets : String → Dial)
      → w.phase ≡ dialing
      → w.cancelled ≡ false
      → steps wire w (test ∷ dialled sockets ∷ [])
        ≡ after_connect
            (connect wire (sockets w.socket_path) w.component_id w.session_id)
            (calling w)
  unfolding steps
  dialled-calls w sockets at live =
      ap (λ r. elim r [ none ↦ none | some w' ↦ steps wire w' (dialled sockets ∷ []) ])
        (step-test w at live)
      ∙ step-last (step wire (calling w) (dialled sockets))
      ∙ (unfold step in refl)

  -- A worker that is not cancelled and about to connect goes on to read exactly if the socket at its path
  -- welcomes a handshake with its component id, and its session id as the token.
  pub steps-IsWelcomed :
      (w : Worker V) (sockets : String → Dial)
      → w.phase ≡ dialing
      → w.cancelled ≡ false
      → (steps wire w (test ∷ dialled sockets ∷ []) ≡ some (reads_on w)) ↔ (
          (stream : DataStream) × IsWelcomed wire w.component_id w.session_id
            (sockets w.socket_path)
            stream)
  steps-IsWelcomed w sockets at live =
      let o = connect wire (sockets w.socket_path) w.component_id w.session_id in
      let goes = dialled-calls w sockets at live in
      let result = after_connect-ok o w in
      (
        λ e.
            let (stream, opens) = result.0 (sym goes ∙ e) in
            (
              stream,
              (connect-ok_iff wire w.component_id w.session_id (sockets w.socket_path) stream).0
                  opens,
            ),
        λ found.
            goes
            ∙ result.1 (
              found.0,
              (connect-ok_iff wire w.component_id w.session_id (sockets w.socket_path) found.0).1
                  found.1,
            ),
      )
