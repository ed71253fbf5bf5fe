-- ===== src/DataStream/Frames.antt =====
-- What successive calls of `next` return.
use aegis_sdk.Prelude.{
  ℕ, zero, suc, String, inl, inr, ◌≡◌, refl, subst, Bool-cases, ◌≢◌, ◌↔◌, List, [], ◌∷◌, ◌++◌, map,
  length, ◌==◌, eq_iff, Either-cases, arith,
}
use aegis_sdk.Error.{AegisError, connection, io, json, timeout}
use aegis_sdk.Runtime.{Read, line, failed, elapsed, Outcome, ok, err}
use aegis_sdk.DataStream.{DataStream, StreamMessage, Frame, Wire, next}

module _ {V : Type 0} (wire : Wire V) where
  -- The results of n calls of `next`, and the stream after them.
  pub calls : ℕ → DataStream → List (Outcome (StreamMessage V)) × DataStream
  calls zero stream = ([], stream)
  calls (suc n) stream =
      let (result, stream') = next wire stream in
      let (results, stream'') = calls n stream' in (result ∷ results, stream'')

  -- The lines are the frames of the messages, one by one.
  pub data Frames : List String → List (StreamMessage V) → Type 0 where
    finished : Frames [] []
    more :
        {l : String} {ls : List String} {f : Frame V} {ms : List (StreamMessage V)}
        → l ≢ ""
        → wire.decode_frame l ≡ inr f
        → Frames ls ms
        → Frames (l ∷ ls) (record { topic = f.topic; content = f.content } ∷ ms)

  next-frame :
      {l : String} {f : Frame V} (reads : List Read) (topics : List String)
      → l ≢ ""
      → wire.decode_frame l ≡ inr f
      → next wire (record { topics = topics; reader = line l ∷ reads }) ≡ (
        ok (record { topic = f.topic; content = f.content }),
        record { topics = topics; reader = reads },
      )
  unfolding next
  next-frame {l} reads topics full good = ground (arith, eq_iff l "")

  -- As many calls of `next` as there are frames return the messages of the frames, all of them and in
  -- order, and leave what follows them.
  pub calls-Frames :
      {ls : List String} {ms : List (StreamMessage V)} (topics : List String) (rest : List Read)
      → Frames ls ms
      → calls (length ls) (record { topics = topics; reader = map line ls ++ rest })
        ≡ (map ok ms, record { topics = topics; reader = rest })
  unfolding calls next
  calls-Frames topics rest finished = refl
  calls-Frames topics rest (more {l = l} {ls = ls} {f = f} full good frames) = cc (
    next-frame {l = l} {f = f} (map line ls ++ rest) topics full good,
    calls-Frames topics rest frames,
  )

  -- A call that fails names the failure: nothing came in time, the read failed, the stream was closed,
  -- or the line is no frame.
  pub data Fails : Read → AegisError → Type 0 where
    silence : Fails elapsed timeout
    broken : (e : String) → Fails (failed e) (io e)
    closed : Fails (line "") (connection "data stream closed")
    garbled : {l e : String} → l ≢ "" → wire.decode_frame l ≡ inl e → Fails (line l) (json e)

  fails :
      (read : Read) (reads : List Read) (topics : List String) (e : AegisError)
      → (next wire (record { topics = topics; reader = read ∷ reads })).0 ≡ err e
      → Fails read e
  unfolding next
  fails elapsed reads topics e h = subst (Fails elapsed) (cc) silence
  fails (failed x) reads topics e h = subst (Fails (failed x)) (cc) (broken x)
  fails (line l) reads topics e h = elim (Bool-cases (l == "")) [
    | inl empty ↦ rw ((eq_iff l "").0 empty) (subst (Fails (line "")) (ground arith) closed)
    | inr full ↦ elim (Either-cases (wire.decode_frame l)) [
      | inl (x, bad) ↦
          subst (Fails (line l)) (ground arith) (garbled (ground (arith, eq_iff l "")) bad)
      | inr (f, good) ↦ absurd (ground arith)
    ]
  ]

  failing :
      (read : Read) (reads : List Read) (topics : List String) (e : AegisError)
      → Fails read e
      → (next wire (record { topics = topics; reader = read ∷ reads })).0 ≡ err e
  unfolding next
  failing read reads topics e silence = refl
  failing read reads topics e (broken x) = refl
  failing read reads topics e closed = refl
  failing read reads topics e (garbled {l = l} full bad) = ground (arith, eq_iff l "")

  -- `next` fails exactly in these ways.
  pub next-err_iff :
      (read : Read) (reads : List Read) (topics : List String) (e : AegisError)
      → ((next wire (record { topics = topics; reader = read ∷ reads })).0 ≡ err e) ↔ Fails read e
  next-err_iff read reads topics e = (fails read reads topics e, failing read reads topics e)
