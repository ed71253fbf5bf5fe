-- ===== src/MarketData/Worker/Calls.antt =====
-- With which arguments the stream worker calls `DataStream::connect`.
use aegis_sdk.Prelude.{◌≡◌, refl, sym, subst, ◌⊎◌, inl, inr, some, List, [], ◌∷◌, arith}
use aegis_sdk.DataStream.{Wire}
use aegis_sdk.MarketData.Worker.{Call, call_of, Phase, connecting, Input, Worker, step_in, steps}
use aegis_sdk.MarketData.Worker.Cancellation.{steps-cons}

module _ (call : Call) where
  -- All calls so far are this one, but the old ones.
  pub data Repeats (old : List Call) : List Call → Type 0 where
    none_yet : Repeats old old
    once_more : {calls : List Call} → Repeats old calls → Repeats old (call ∷ calls)

  -- A connection that is under way is by this call.
  abbrev pub IsAimed : Phase → Type 0
  IsAimed (connecting other) = other ≡ call
  IsAimed p = Unit

module _ {V : Type 0} (wire : Wire V) (call : Call) where
  step-calls :
      (w : Worker V) (p : Phase) (i : Input V) {w' : Worker V}
      → step_in wire p i w ≡ some w'
      → w.phase ≡ p
      → call_of w ≡ call
      → IsAimed call p
      → (call_of w' ≡ call)
        × IsAimed call w'.phase
        × ((w'.dials ≡ w.dials) ⊎ (w'.dials ≡ call ∷ w.dials))
  unfolding step_in
  step-calls w p i e at same aimed = ground arith

  steps-calls :
      (w : Worker V) (inputs : List (Input V)) {w' : Worker V} {old : List Call}
      → steps wire w inputs ≡ some w'
      → call_of w ≡ call
      → IsAimed call w.phase
      → Repeats call old w.dials
      → IsAimed call w'.phase × Repeats call old w'.dials
  unfolding steps
  steps-calls w [] {w'} {old} e same aimed calls =
      let done : w ≡ w' = ground arith in
      subst (λ x. IsAimed call x.phase × Repeats call old x.dials) done (aimed, calls)
  steps-calls w (i ∷ inputs) {w'} {old} e same aimed calls =
      let (w₁, here, there) = steps-cons wire w i inputs e in
      let (same₁, aimed₁, dials) = step-calls w w.phase i here refl same aimed in
      elim dials [
        | inl before ↦
            steps-calls w₁ inputs there same₁ aimed₁ (subst (Repeats call old) (sym before) calls)
        | inr again ↦
            steps-calls w₁ inputs there same₁ aimed₁
              (subst (Repeats call old) (sym again) (once_more calls))
      ]

  -- From the call that the worker's socket path and ids make up, a worker makes no other: every call of
  -- `connect` along any run is that one, and so is a connection that is under way.
  pub steps-Repeats :
      (w : Worker V) (inputs : List (Input V)) {w' : Worker V}
      → call_of w ≡ call
      → IsAimed call w.phase
      → steps wire w inputs ≡ some w'
      → Repeats call w.dials w'.dials × IsAimed call w'.phase
  steps-Repeats w inputs same aimed e =
      let (aims, calls) = steps-calls w inputs e same aimed none_yet in (calls, aims)
