-- ===== src/MarketData/Worker/Messages.antt =====
-- What the stream worker hands to `handle_message`, and how it dials.
use aegis_sdk.Prelude.{if◌then◌else◌, ◌==◌, ◌≡◌, ap, ◌∙◌, some, inl, inr, List, [], ◌∷◌, arith}
use aegis_sdk.Runtime.{line}
use aegis_sdk.DataStream.{Wire, next_message}
use aegis_sdk.MarketData.Topics.{Handled, handle_message}
use aegis_sdk.MarketData.Worker.{Phase, Input, received, Worker, step_in, steps}
use aegis_sdk.MarketData.Worker.Cancellation.{steps-cons}

module _ {V : Type 0} (wire : Wire V) where
  -- A line that is a frame is handled by its topic; nothing else is.
  abbrev handled_onto : Input V → List (Handled V) → List (Handled V)
  handled_onto (received (line l)) old = if l == "" then old else elim (wire.decode_frame l) [
    | inl e ↦ old
    | inr frame ↦ handle_message (record { topic = frame.topic; content = frame.content }) ∷ old
  ]
  handled_onto i old = old

  -- What is made of the frames among these inputs, the newest first, before older results.
  abbrev pub frames_onto : List (Input V) → List (Handled V) → List (Handled V)
  frames_onto [] old = old
  frames_onto (i ∷ is) old = frames_onto is (handled_onto i old)

  step-handled :
      (w : Worker V) (p : Phase) (i : Input V) {w' : Worker V}
      → step_in wire p i w ≡ some w'
      → w'.handled ≡ handled_onto i w.handled
  unfolding step_in next_message
  step-handled w p i e = ground arith

  -- Along any run the worker handles every frame that the data stream brings, once and in order, by its
  -- topic, and nothing else.
  pub steps-handled :
      (w : Worker V) (inputs : List (Input V)) {w' : Worker V}
      → steps wire w inputs ≡ some w'
      → w'.handled ≡ frames_onto inputs w.handled
  unfolding steps
  steps-handled w [] e = ground arith
  steps-handled w (i ∷ inputs) e =
      let (w₁, here, there) = steps-cons wire w i inputs e in
      let h₁ = step-handled w w.phase i here in
      steps-handled w₁ inputs there ∙ ap (frames_onto inputs) h₁
