-- ===== src/Runtime/Actions.antt =====
-- `struct Component` (aegis-rust/src/component.rs), and its methods as actions: a state, and an
-- outcome that may be an error, a panic, or a wait for input that has not come.
use aegis_sdk.Prelude.{ℕ, suc, String, List, [], ◌∷◌, ⊤}
use aegis_sdk.Error.{AegisError}
use aegis_sdk.Config.{Config}
use aegis_sdk.Protocol.{ComponentState}
use aegis_sdk.Runtime.World.{Event, History}

-- The fields behind `Arc<Mutex<…>>` and `cfg`; `tokens` numbers the cancellation tokens, and
-- `history` is what an observer has seen; `passed` is what has been written to `state`, the newest first.
pub record Component (V : Type 0) : Type 0 where
  pub cfg : Config
  pub component_id : String
  pub session_id : String
  pub state : ComponentState
  pub tokens : ℕ
  pub history : History V
  pub passed : List ComponentState

-- `Component::new`
abbrev pub new : {V : Type 0} → Config → Component V
new cfg = record {
  cfg = cfg;
  component_id = "";
  session_id = "";
  state = ComponentState.init;
  tokens = 0;
  history = [];
  passed = [];
}

pub data Outcome (A : Type 0) : Type 0 where
  ok : A → Outcome A
  err : AegisError → Outcome A
  panicked : String → Outcome A
  pending : Outcome A

abbrev pub Action : Type 0 → Type 0 → Type 0
Action V A = Component V → Outcome A × Component V

module _ {V A : Type 0} where
  unfoldable pub lift : Outcome A → Action V A
  lift o c = (o, c)

  unfoldable pub pure : A → Action V A
  pure a c = (ok a, c)

  unfoldable pub raise : AegisError → Action V A
  raise e c = (err e, c)

module _ {V : Type 0} where
  unfoldable pub self : Action V (Component V)
  self c = (ok c, c)

  unfoldable pub emit : Event V → Action V ⊤
  emit e c = (ok tt, record c { history = e ∷ c.history })

  unfoldable pub set_state : ComponentState → Action V ⊤
  set_state s c = (ok tt, record c { state = s; passed = s ∷ c.passed })

  unfoldable pub set_component_id : String → Action V ⊤
  set_component_id id c = (ok tt, record c { component_id = id })

  unfoldable pub set_session_id : String → Action V ⊤
  set_session_id id c = (ok tt, record c { session_id = id })

  -- `CancellationToken::new`
  unfoldable pub new_token : Action V ℕ
  new_token c = (ok c.tokens, record c { tokens = suc c.tokens })

infixl 5 ◌>>=◌ ◌>>◌
-- To unfold this is to unfold the actions above too.
unfoldable pub ◌>>=◌ : {V A B : Type 0} → Action V A → (A → Action V B) → Action V B
unfolding lift pure raise self emit set_state set_component_id set_session_id new_token
◌>>=◌ m f c =
    let (o, c') = m c in
    elim o [
      | ok a ↦ f a c'
      | err e ↦ (err e, c')
      | panicked e ↦ (panicked e, c')
      | pending ↦ (pending, c')
    ]

abbrev pub ◌>>◌ : {V A B : Type 0} → Action V A → Action V B → Action V B
m >> k = m >>= λ _. k
