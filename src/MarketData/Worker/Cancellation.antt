-- ===== src/MarketData/Worker/Cancellation.antt =====
-- What the cancellation of its token does to the stream worker.
use aegis_sdk.Prelude.{
  ℕ, suc, ◌+◌, ◌≤◌, String, Bool, true, false, if◌then◌else◌, ◌≡◌, refl, ◌∙◌, some, List, [], ◌∷◌,
  arith, Option-cases, inl, inr,
}
use aegis_sdk.Runtime.{Outcome, ok}
use aegis_sdk.DataStream.{StreamMessage, Wire, refused, connect, next_message}
use aegis_sdk.MarketData.Worker.{
  Phase, outer, dialing, connecting, retrying, reading, pausing, stopped, Input, cancel, test,
  woken, dialled, received, Worker, step_in, step, steps,
}

-- What is left to do after a cancellation, messages aside.
abbrev pub rank : Phase → ℕ
rank (connecting call) = 4
rank reading = 3
rank pausing = 2
rank retrying = 2
rank outer = 1
rank dialing = 1
rank stopped = 0

rank_le : (p : Phase) → rank p ≤ 4
rank_le p = ground arith

abbrev is_message : {V : Type 0} → Outcome (StreamMessage V) → Bool
is_message (ok msg) = true
is_message _ = false

module _ {V : Type 0} (wire : Wire V) where
  -- How many inputs are neither a message nor a cancellation.
  abbrev pub others : List (Input V) → ℕ
  others [] = 0
  others (cancel ∷ is) = others is
  others (received read ∷ is) =
      let rest = others is in if is_message (next_message wire (read ∷ [])) then rest else suc rest
  others (i ∷ is) = suc (others is)

  step-stopped :
      (w : Worker V) (p : Phase) (i : Input V) {w' : Worker V}
      → step_in wire p i w ≡ some w'
      → (p ≡ stopped → w.cancelled ≡ true)
      → w.phase ≡ p
      → w'.phase ≡ stopped
      → w'.cancelled ≡ true
  unfolding step_in
  step-stopped w p i e h q s = ground arith

  step-rank :
      (w : Worker V) (p : Phase) (i : Input V) (is : List (Input V)) {w' : Worker V}
      → w.cancelled ≡ true
      → w.phase ≡ p
      → step_in wire p i w ≡ some w'
      → (w'.cancelled ≡ true)
        × (w'.dials ≡ w.dials)
        × (rank w'.phase + others (i ∷ is) ≤ rank p + others is)
  unfolding step_in
  step-rank w p i is c q e = ground arith

  -- The first step and the others.
  pub steps-cons :
      (w : Worker V) (i : Input V) (is : List (Input V)) {w' : Worker V}
      → steps wire w (i ∷ is) ≡ some w'
      → (w₁ : Worker V) × (step_in wire w.phase i w ≡ some w₁) × (steps wire w₁ is ≡ some w')
  unfolding steps step
  steps-cons w i is e = elim (Option-cases (step_in wire w.phase i w)) [
    | inl gone ↦ ground (arith, gone, e)
    | inr (w₁, here) ↦ (w₁, here, ground (arith, here, e))
  ]

  -- A worker that stands at `stopped` after any inputs has had its token cancelled, if it did not stand
  -- there uncancelled at the start.
  pub steps-stopped :
      (w : Worker V) (inputs : List (Input V)) {w' : Worker V}
      → (w.phase ≡ stopped → w.cancelled ≡ true)
      → steps wire w inputs ≡ some w'
      → w'.phase ≡ stopped
      → w'.cancelled ≡ true
  unfolding steps
  steps-stopped w [] h e s = ground arith
  steps-stopped w (i ∷ inputs) h e s =
      let (w₁, here, there) = steps-cons w i inputs e in
      steps-stopped w₁ inputs (step-stopped w w.phase i here h refl) there s

  steps-rank :
      (w : Worker V) (inputs : List (Input V)) {w' : Worker V}
      → w.cancelled ≡ true
      → steps wire w inputs ≡ some w'
      → (w'.cancelled ≡ true)
        × (w'.dials ≡ w.dials)
        × (rank w'.phase + others inputs ≤ rank w.phase)
  unfolding steps
  steps-rank w [] c e = ground arith
  steps-rank w (i ∷ inputs) c e =
      let (w₁, here, there) = steps-cons w i inputs e in
      let (c₁, d₁, r₁) = step-rank w w.phase i inputs c refl here in
      let (c₂, d₂, r₂) = steps-rank w₁ inputs c₁ there in (c₂, d₂ ∙ d₁, omega arith)

  -- How a cancelled worker comes to its end from each phase, a failed connection at most.
  abbrev pub wind_down : String → Phase → List (Input V)
  wind_down e outer = test ∷ []
  wind_down e dialing = test ∷ []
  wind_down e (connecting call) = dialled (λ path. refused e) ∷ woken ∷ []
  wind_down e stopped = []
  wind_down e _ = woken ∷ []

  wound_down :
      (e : String) (w : Worker V) (p : Phase)
      → w.cancelled ≡ true
      → w.phase ≡ p
      → steps wire w (wind_down e p) ≡ some (record w { phase = stopped })
  unfolding steps step step_in connect
  wound_down e w p c q = ground arith

  -- From a worker whose token is cancelled on, no sequence of inputs makes a further call of `connect`, and
  -- at most four of its inputs are neither messages nor cancellations.
  pub steps-cancelled :
      (w : Worker V) (inputs : List (Input V)) {w' : Worker V}
      → w.cancelled ≡ true
      → steps wire w inputs ≡ some w'
      → (w'.dials ≡ w.dials) × (others inputs ≤ 4)
  steps-cancelled w inputs c e =
      let (_, dials, bound) = steps-rank w inputs c e in
      let most = rank_le w.phase in (dials, omega arith)

  -- A worker whose token is cancelled can stop: in every phase at most two inputs lead it to its
  -- end, which are one test, or one wait in which `select!` takes the token, after a failed
  -- `connect` where one is under way.
  pub steps-wind_down :
      (e : String) (w : Worker V)
      → w.cancelled ≡ true
      → steps wire w (wind_down e w.phase) ≡ some (record w { phase = stopped })
  steps-wind_down e w c = wound_down e w w.phase c refl
