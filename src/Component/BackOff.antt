-- ===== src/Component/BackOff.antt =====
-- The pauses of `run` while Aegis cannot be reached.
use native.Mathlib.Nat.{pow-suc}
use mathlib.Core.List.{append_assoc}
use aegis_sdk.Prelude.{
  ℕ, zero, suc, ◌+◌, ◌*◌, ◌^◌, ◌<◌, ◌≤◌, min, String, concat, decimal, ◌≡◌, refl, ap, sym, ◌∙◌, ◌⊎◌,
  inl, inr, List, [], ◌∷◌, ◌++◌, map, length, true, arith,
}
use aegis_sdk.Error.{AegisError, connection}
use aegis_sdk.Config.{Config, from_secs}
use aegis_sdk.Runtime.{
  System, Event, History, slept, Attempt, refused, Component, err, pending, ◌>>=◌,
}
use aegis_sdk.Component.Running.{u32, run_from, run}

-- What `run` does to the history while it only waits.
abbrev pub add_events : {V : Type 0} → List (Event V) → Component V → Component V
add_events es c = record c { history = es ++ c.history }

-- The i-th pause in seconds: doubled each time, up to `most`.
abbrev pub pause : ℕ → ℕ → ℕ → ℕ
pause first most i = min (first * 2 ^ i) most

-- The pauses from the i-th on, the newest first.
unfoldable pub pauses : {V : Type 0} → ℕ → ℕ → ℕ → ℕ → History V
pauses first most i zero = []
pauses first most i (suc n) =
    pauses first most (suc i) n ++ slept (from_secs (pause first most i)) ∷ []

abbrev pub gave_up : ℕ → AegisError
gave_up m = connection (concat "max reconnect attempts (" (concat (decimal m) ") reached"))

pub pause-suc : (first most i : ℕ) → min (2 * pause first most i) most ≡ pause first most (suc i)
pause-suc first most i = rw pow-suc (omega arith)

module _ {V : Type 0} (sys : System V) where
  run_from-refused :
      (k d d' : ℕ) (e : String) (later : List Attempt) (c : Component V)
      → c.cfg.reconnect ≡ true
      → (c.cfg.max_reconnect_attempts ≡ 0) ⊎ (u32 (k + 1) < c.cfg.max_reconnect_attempts)
      → sys.mul_f32_2 d ≡ inr d'
      → run_from sys k d (refused e ∷ later) c
        ≡ run_from sys
            (u32 (k + 1))
            (min d' c.cfg.max_reconnect_delay)
            later
            (record c { history = slept d ∷ c.history })
  unfolding run_from ◌>>=◌
  run_from-refused k d d' e later c on room doubles = ground arith

  run_from-last :
      (k d : ℕ) (e : String) (later : List Attempt) (c : Component V)
      → c.cfg.reconnect ≡ true
      → k + 1 ≡ c.cfg.max_reconnect_attempts
      → k + 1 < 2 ^ 32
      → run_from sys k d (refused e ∷ later) c ≡ (err (gave_up (k + 1)), c)
  unfolding run_from ◌>>=◌
  run_from-last k d e later c on last fits =
      let counted : u32 (k + 1) ≡ k + 1 = omega arith in ground arith

-- `mul_f32(2.0)` is exact at whole seconds that an `f32` represents.
abbrev pub DoublesSeconds : {V : Type 0} → System V → Type 0
DoublesSeconds sys = (s : ℕ) → s < 2 ^ 23 → sys.mul_f32_2 (from_secs s) ≡ inr (from_secs (2 * s))

-- Both delays are whole seconds, and the first is no longer than the longest.
pub record IsBackOff (cfg : Config) (first most : ℕ) : Type 0 where
  pub reconnects : cfg.reconnect ≡ true
  pub starts_at : cfg.reconnect_delay ≡ from_secs first
  pub stops_at : cfg.max_reconnect_delay ≡ from_secs most
  pub ordered : first ≤ most
  pub exact : most < 2 ^ 23

module _ {V : Type 0} (sys : System V) (doubles : DoublesSeconds sys) (first most : ℕ) where
  next_pause :
      (i k : ℕ) (e : String) (later : List Attempt) (c : Component V)
      → IsBackOff c.cfg first most
      → (c.cfg.max_reconnect_attempts ≡ 0) ⊎ (u32 (k + 1) < c.cfg.max_reconnect_attempts)
      → run_from sys k (from_secs (pause first most i)) (refused e ∷ later) c
        ≡ run_from sys
            (u32 (k + 1))
            (from_secs (pause first most (suc i)))
            later
            (record c { history = slept (from_secs (pause first most i)) ∷ c.history })
  next_pause i k e later c b room =
      run_from-refused sys k _ _ e later c b.reconnects room
        (doubles (pause first most i) (omega (arith, b.exact)))
      ∙ ap
          (λ d.
            run_from sys (u32 (k + 1)) d later
              (record c { history = slept (from_secs (pause first most i)) ∷ c.history }))
          (omega (arith, pause-suc first most i, b.stops_at))

  unlimited_from :
      (i k : ℕ) (es : List String) (c : Component V)
      → IsBackOff c.cfg first most
      → c.cfg.max_reconnect_attempts ≡ 0
      → run_from sys k (from_secs (pause first most i)) (map refused es) c
        ≡ (pending, add_events (pauses first most i (length es)) c)
  unfolding pauses
  unlimited_from i k [] c b free = unfold run_from in refl
  unlimited_from i k (e ∷ es) c b free =
      next_pause i k e (map refused es) c b (inl free)
      ∙ unlimited_from (suc i) (u32 (k + 1)) es _ b free
      ∙ ap (λ h. (pending, record c { history = h }))
          (sym (
            append_assoc (pauses first most (suc i) (length es))
              (slept (from_secs (pause first most i)) ∷ []) c.history))

  limited_from :
      (k : ℕ) (e : String) (es : List String) (c : Component V)
      → IsBackOff c.cfg first most
      → k + suc (length es) ≡ c.cfg.max_reconnect_attempts
      → c.cfg.max_reconnect_attempts < 2 ^ 32
      → run_from sys k (from_secs (pause first most k)) (map refused (e ∷ es)) c ≡ (
        err (gave_up c.cfg.max_reconnect_attempts),
        add_events (pauses first most k (length es)) c,
      )
  unfolding pauses
  limited_from k e [] c b last fits =
      let now : k + 1 ≡ c.cfg.max_reconnect_attempts = omega arith in
      run_from-last sys k _ e [] c b.reconnects now (omega arith)
      ∙ ap (λ m. (err (gave_up m), c)) now
  limited_from k e (e' ∷ es) c b last fits =
      let counted : u32 (k + 1) ≡ suc k = omega arith in
      next_pause k k e (map refused (e' ∷ es)) c b (inr (omega arith))
      ∙ ap
          (λ n.
            run_from sys n (from_secs (pause first most (suc k))) (map refused (e' ∷ es))
              (record c { history = slept (from_secs (pause first most k)) ∷ c.history }))
          counted
      ∙ limited_from (suc k) e' es _ b (omega arith) fits
      ∙ ap (λ h. (err (gave_up c.cfg.max_reconnect_attempts), record c { history = h }))
          (sym (
            append_assoc (pauses first most (suc k) (length es))
              (slept (from_secs (pause first most k)) ∷ []) c.history))

  -- `run` begins with the first pause.
  pub starts :
      (c : Component V)
      → IsBackOff c.cfg first most
      → c.cfg.reconnect_delay ≡ from_secs (pause first most 0)
  starts c b = omega (arith, b.starts_at, b.ordered)

  -- While every attempt is refused and no limit is set, `run` goes on for ever: after n refusals it
  -- still waits, nothing has changed, and it has slept n times, each time twice as long as before, up
  -- to the longest delay. Reconnection is enabled, the first delay is at most the longest, and both are
  -- whole seconds, at which doubling is exact.
  pub run-unlimited :
      (es : List String) (c : Component V)
      → IsBackOff c.cfg first most
      → c.cfg.max_reconnect_attempts ≡ 0
      → run sys (map refused es) c ≡ (pending, add_events (pauses first most 0 (length es)) c)
  unfolding run ◌>>=◌
  run-unlimited es c b free =
      ap (λ d. run_from sys 0 d (map refused es) c) (starts c b) ∙ unlimited_from 0 0 es c b free

  -- With a limit of m attempts, where 0 < m < 2 ^ 32, all refused, `run` gives up at the m-th
  -- with a connection error that names m, after m - 1 pauses, each twice as long as the one
  -- before, up to the longest delay. Reconnection is enabled, the first delay is at most the
  -- longest, and both are whole seconds, at which doubling is exact.
  pub run-limited :
      (e : String) (es : List String) (c : Component V)
      → IsBackOff c.cfg first most
      → suc (length es) ≡ c.cfg.max_reconnect_attempts
      → c.cfg.max_reconnect_attempts < 2 ^ 32
      → run sys (map refused (e ∷ es)) c ≡ (
        err (gave_up c.cfg.max_reconnect_attempts),
        add_events (pauses first most 0 (length es)) c,
      )
  unfolding run ◌>>=◌
  run-limited e es c b last fits =
      ap (λ d. run_from sys 0 d (map refused (e ∷ es)) c) (starts c b)
      ∙ limited_from 0 e es c b (omega arith) fits
