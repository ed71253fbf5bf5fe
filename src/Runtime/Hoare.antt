-- ===== src/Runtime/Hoare.antt =====
-- What an action of aegis-rust/src/component.rs ensures, by how it ends.
use aegis_sdk.Runtime.World.{Event}
use aegis_sdk.Protocol.{ComponentState}
use aegis_sdk.Prelude.{String, ⊤, ◌∷◌, Bool, true, false, ◌≡◌, refl, if◌then◌else◌}
use aegis_sdk.Error.{AegisError}
use aegis_sdk.Runtime.Actions.{
  Component, Outcome, ok, err, panicked, pending, Action, ◌>>=◌, lift, pure, raise, self, emit,
  set_state, set_component_id, set_session_id,
}

-- `Q` if there is a result, `E` after an error or a panic, or while input is awaited.
abbrev pub After :
    {V A : Type 0}
    → (A → Component V → Type 0)
    → (Component V → Type 0)
    → Outcome A × Component V
    → Type 0
After Q E (ok a, c) = Q a c
After Q E (err e, c) = E c
After Q E (panicked e, c) = E c
After Q E (pending, c) = E c

pub record Hoare {V A : Type 0} (P : Component V → Type 0) (m : Action V A)
    (Q : A → Component V → Type 0) (E : Component V → Type 0) : Type 0 where
  pub at : (c : Component V) → P c → After Q E (m c)

module _ {V A B : Type 0} {E : Component V → Type 0} {Q : A → Component V → Type 0}
    {R : B → Component V → Type 0} where
  After-bind :
      (r : Outcome A × Component V) (f : A → Action V B)
      → After Q E r
      → ((a : A) → Hoare (Q a) (f a) R E)
      → After R E (((λ _. r) >>= f) r.1)
  unfolding ◌>>=◌
  After-bind (ok a, c) f h k = (k a).at c h
  After-bind (err e, c) f h k = h
  After-bind (panicked e, c) f h k = h
  After-bind (pending, c) f h k = h

  pub Hoare-bind :
      {P : Component V → Type 0} (m : Action V A) (f : A → Action V B)
      → Hoare P m Q E
      → ((a : A) → Hoare (Q a) (f a) R E)
      → Hoare P (m >>= f) R E
  unfolding ◌>>=◌
  Hoare-bind m f h k = record { at = λ c p. After-bind (m c) f (h.at c p) k }

module _ {V A : Type 0} {P E : Component V → Type 0} {Q : A → Component V → Type 0} where
  pub Hoare-pure : (a : A) → ((c : Component V) → P c → Q a c) → Hoare P (pure a) Q E
  unfolding pure
  Hoare-pure a h = record { at = h }

  pub Hoare-raise : (e : AegisError) → ((c : Component V) → P c → E c) → Hoare P (raise e) Q E
  unfolding raise
  Hoare-raise e h = record { at = h }

  -- The continuation may use that `o` is a result.
  pub Hoare-lift :
      {B : Type 0} (o : Outcome B) (f : B → Action V A)
      → ((c : Component V) → P c → E c)
      → ((b : B) → o ≡ ok b → Hoare P (f b) Q E)
      → Hoare P (lift o >>= f) Q E
  unfolding ◌>>=◌
  Hoare-lift (ok b) f h k = k b refl
  Hoare-lift (err e) f h k = record { at = h }
  Hoare-lift (panicked e) f h k = record { at = h }
  Hoare-lift pending f h k = record { at = h }

  pub Hoare-if :
      (b : Bool) (m n : Action V A)
      → Hoare P m Q E
      → Hoare P n Q E
      → Hoare P (if b then m else n) Q E
  Hoare-if true m n hm hn = hm
  Hoare-if false m n hm hn = hn

  pub Hoare-dec :
      {X : Type 0} (d : Dec X) (m n : Action V A)
      → Hoare P m Q E
      → Hoare P n Q E
      → Hoare P (elim d [ yes x ↦ m | no y ↦ n ]) Q E
  Hoare-dec (yes x) m n hm hn = hm
  Hoare-dec (no y) m n hm hn = hn

  -- The state is read, and the rest knows it.
  pub Hoare-self_known :
      (f : Component V → Action V A)
      → ((s : Component V) → P s → Hoare (λ c. c ≡ s) (f s) Q E)
      → Hoare P (self >>= f) Q E
  unfolding ◌>>=◌
  Hoare-self_known f h = record { at = λ c p. (h c p).at c refl }

  -- The state is read, and the rest need not know which it is.
  pub Hoare-self :
      (f : Component V → Action V A)
      → ((s : Component V) → Hoare P (f s) Q E)
      → Hoare P (self >>= f) Q E
  unfolding ◌>>=◌
  Hoare-self f h = record { at = λ c p. (h c).at c p }

module _ {V : Type 0} {P E : Component V → Type 0} {Q : ⊤ → Component V → Type 0} where
  pub Hoare-emit :
      (e : Event V)
      → ((c : Component V) → P c → Q tt (record c { history = e ∷ c.history }))
      → Hoare P (emit e) Q E
  unfolding emit
  Hoare-emit e h = record { at = h }

  pub Hoare-set_state :
      (s : ComponentState)
      → ((c : Component V) → P c → Q tt (record c { state = s; passed = s ∷ c.passed }))
      → Hoare P (set_state s) Q E
  unfolding set_state
  Hoare-set_state s h = record { at = h }

-- What holds however the action ends holds of the state.
pub After-same :
    {V A : Type 0} (P : Component V → Type 0) (r : Outcome A × Component V)
    → After (λ _. P) P r
    → P r.1
After-same P (ok x, c) h = h
After-same P (err e, c) h = h
After-same P (panicked e, c) h = h
After-same P (pending, c) h = h

-- Where a chain of actions has a result, so has its first.
pub bind-ok :
    {V A B : Type 0} (m : Action V A) (f : A → Action V B) (c : Component V) {b : B}
    → ((m >>= f) c).0 ≡ ok b
    → (a : A) × ((m c).0 ≡ ok a) × ((f a (m c).1).0 ≡ ok b)
unfolding ◌>>=◌
bind-ok {V} {A} {B} m f c {b} h = go (m c).0 refl h
  where
    go :
        (o : Outcome A)
        → (m c).0 ≡ o
        → (((λ (x : Component V). (o, (m c).1)) >>= f) c).0 ≡ ok b
        → (a : A) × ((m c).0 ≡ ok a) × ((f a (m c).1).0 ≡ ok b)
    go (ok a) e k = (a, e, k)
    go (err x) e k = cc
    go (panicked x) e k = cc
    go pending e k = cc

module _ {V : Type 0} {P E : Component V → Type 0} {Q : ⊤ → Component V → Type 0} where
  pub Hoare-set_component_id :
      (id : String)
      → ((c : Component V) → P c → Q tt (record c { component_id = id }))
      → Hoare P (set_component_id id) Q E
  unfolding set_component_id
  Hoare-set_component_id id h = record { at = h }

  pub Hoare-set_session_id :
      (id : String)
      → ((c : Component V) → P c → Q tt (record c { session_id = id }))
      → Hoare P (set_session_id id) Q E
  unfolding set_session_id
  Hoare-set_session_id id h = record { at = h }
