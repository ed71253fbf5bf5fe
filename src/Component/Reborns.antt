-- ===== src/Component/Reborns.antt =====
-- What the message loop does while it reads REBORN messages only.
use aegis_sdk.Prelude.{
  ℕ, suc, ◌+◌, String, ◌≡◌, ◌≢◌, refl, ◌∙◌, List, [], ◌∷◌, length, ⊤, arith, eq_iff, inr,
}
use aegis_sdk.Protocol.{Envelope, MessageType, Command, ComponentState}
use aegis_sdk.Runtime.{
  System, History, on_reborn, spawned, cancelled, Read, line, Component, Outcome, ok, err, panicked,
  pending, Action, lift, ◌>>=◌,
}
use aegis_sdk.Component.Sending.{send_envelope, send_ack}
use aegis_sdk.Component.Handling.{LifecycleOutcome, handle_lifecycle, continue, stop}
use aegis_sdk.Component.Running.{turn, resume, message_loop_from}

-- The calls of `on_reborn`.
abbrev pub reborns : {V : Type 0} → History V → ℕ
reborns [] = 0
reborns (on_reborn ∷ h) = suc (reborns h)
reborns (e ∷ h) = reborns h

-- The tokens of the tasks that were started, and the tokens that were cancelled.
abbrev pub started : {V : Type 0} → History V → List ℕ
started [] = []
started (spawned t ∷ h) = t ∷ started h
started (e ∷ h) = started h

abbrev pub cancellations : {V : Type 0} → History V → List ℕ
cancellations [] = []
cancellations (cancelled t ∷ h) = t ∷ cancellations h
cancellations (e ∷ h) = cancellations h

-- What a restart of the session must leave alone: the component's state and ids, its tasks and tokens.
abbrev pub kept :
    {V : Type 0} → Component V → ComponentState × String × String × ℕ × List ℕ × List ℕ
kept c =
    (c.state, c.component_id, c.session_id, c.tokens, started c.history, cancellations c.history)

module _ {V : Type 0} (sys : System V) where
  -- Lines that are REBORN messages.
  pub data Reborns : List Read → Type 0 where
    none_left : Reborns []
    reborn :
        {l : String} {env : Envelope V} {reads : List Read}
        → l ≢ ""
        → sys.decode l ≡ inr env
        → env.msg_type ≡ MessageType.lifecycle
        → env.command ≡ Command.reborn
        → Reborns reads
        → Reborns (line l ∷ reads)

  -- How the loop stands that began with `c` and has read n messages, all of them REBORN.
  abbrev pub IsReborn : Component V → ℕ → Outcome ⊤ × Component V → Type 0
  IsReborn c n (ok x, c') = ⊥
  IsReborn c n (panicked x, c') = ⊥
  IsReborn c n (err e, c') = kept c' ≡ kept c
  IsReborn c n (pending, c') = (kept c' ≡ kept c) × (reborns c'.history ≡ n + reborns c.history)

  abbrev Goes : Outcome LifecycleOutcome → Type 0
  Goes (ok continue) = Unit
  Goes (err e) = Unit
  Goes _ = ⊥

  turn-reborn :
      (t : ℕ) {l : String} {env : Envelope V} (c : Component V)
      → l ≢ ""
      → sys.decode l ≡ inr env
      → env.msg_type ≡ MessageType.lifecycle
      → env.command ≡ Command.reborn
      → let r = turn sys t (line l) c in
        Goes r.0 × (kept r.1 ≡ kept c) × (reborns r.1.history ≡ suc (reborns c.history))
  unfolding turn handle_lifecycle send_ack send_envelope ◌>>=◌
  turn-reborn t {l} c full received kind same = ground (arith, eq_iff l "")

  rebased :
      (c c' : Component V) (n : ℕ) (r : Outcome ⊤ × Component V)
      → kept c' ≡ kept c
      → reborns c'.history ≡ suc (reborns c.history)
      → IsReborn c' n r
      → IsReborn c (suc n) r
  rebased c c' n (ok x, c'') k more h = h
  rebased c c' n (panicked x, c'') k more h = h
  rebased c c' n (err e, c'') k more h = h ∙ k
  rebased c c' n (pending, c'') k more h = (h.0 ∙ k, omega (arith, h.1))

  IsReborn-then :
      (c : Component V) (n : ℕ) (r : Outcome LifecycleOutcome × Component V) (again : Action V ⊤)
      → Goes r.0
      → kept r.1 ≡ kept c
      → reborns r.1.history ≡ suc (reborns c.history)
      → IsReborn r.1 n (again r.1)
      → IsReborn c (suc n) (((λ (x : Component V). r) >>= λ o. resume sys o again) c)
  unfolding ◌>>=◌
  IsReborn-then c n (ok continue, c') again g k more h = rebased c c' n (again c') k more h
  IsReborn-then c n (ok stop, c') again g k more h = absurd g
  IsReborn-then c n (panicked x, c') again g k more h = absurd g
  IsReborn-then c n (err e, c') again g k more h = k
  IsReborn-then c n (pending, c') again g k more h = absurd g

  -- However often Aegis restarts the session, the message loop goes on, or ends with an error; it neither
  -- returns nor panics. The component's state and ids stay, no task is started, and no token is made
  -- or cancelled; and while the loop goes on, `on_reborn` has been called once for each REBORN.
  pub message_loop-IsReborn :
      (token : ℕ) (reads : List Read) (c : Component V)
      → Reborns reads
      → IsReborn c (length reads) (message_loop_from sys token reads c)
  unfolding message_loop_from ◌>>=◌
  message_loop-IsReborn token _ c none_left = unfold lift in (refl, omega arith)
  message_loop-IsReborn token (line l ∷ reads) c (reborn full received kind same rest) =
      let (goes, keeps, more) = turn-reborn token c full received kind same in
      let r = turn sys token (line l) c in
      IsReborn-then c (length reads) r (message_loop_from sys token reads) goes keeps more
        (message_loop-IsReborn token reads r.1 rest)
