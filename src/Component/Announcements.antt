-- ===== src/Component/Announcements.antt =====
-- What Aegis is told of the component's state.
use aegis_sdk.Prelude.{ℕ, String, ◌≡◌, refl, List, [], ◌∷◌, Bool, Option, some, none, arith, lookup}
use aegis_sdk.Error.{AegisError}
use aegis_sdk.Protocol.{
  Envelope, Command-discrete, Command, ComponentState, registered, initializing, ready, configured,
  running,
}
use aegis_sdk.Protocol.Names.{state_name}
use aegis_sdk.Runtime.{
  System, Event, emit, on_configure, spawned, History, sent, Read, Attempt, Component, ◌>>=◌,
}
use aegis_sdk.Runtime.Hoare.{
  After-same, Hoare, Hoare-bind, Hoare-pure, Hoare-self, Hoare-dec, Hoare-lift, Hoare-raise,
  Hoare-set_component_id, Hoare-set_session_id, Hoare-set_state,
}
use aegis_sdk.Component.Sending.{
  envelope, recv_envelope, send_envelope, send_state_update, send_error, send_ack,
}
use aegis_sdk.Component.Registering.{register, accept_registration, text_at}
use aegis_sdk.Component.Handling.{
  config_socket, config_topics, after_configure, handle_heartbeat, handle_config, handle_lifecycle,
  handle_error_msg,
}
use aegis_sdk.Component.Messages.{register_message}
use aegis_sdk.Component.Running.{run}
use aegis_sdk.Component.Rules.{IsInvariant, Sleeps, Next, run-Hoare}

module _ {V : Type 0} (sys : System V) where
  abbrev pub announced_in : Command → Envelope V → Option String → Option String
  announced_in Command.state_update env rest = elim (lookup "state" env.payload) [
    | none ↦ none
    | some v ↦ sys.json.as_str v
  ]
  announced_in _ env rest = rest

  -- The state in the last STATE_UPDATE that was written.
  pub last_announced : History V → Option String
  unfolding lookup
  last_announced [] = none
  last_announced (sent env ∷ h) = let rest = last_announced h in announced_in env.command env rest
  last_announced (_ ∷ h) = last_announced h

  -- In the states that the SDK announces, the last announcement names the state.
  abbrev pub IsAnnouncedAt : ComponentState → History V → Type 0
  IsAnnouncedAt initializing h = last_announced h ≡ some "INITIALIZING"
  IsAnnouncedAt ready h = last_announced h ≡ some "READY"
  IsAnnouncedAt configured h = last_announced h ≡ some "CONFIGURED"
  IsAnnouncedAt running h = last_announced h ≡ some "RUNNING"
  IsAnnouncedAt _ h = Unit

  abbrev pub IsAnnounced : Component V → Type 0
  IsAnnounced c = IsAnnouncedAt c.state c.history

  abbrev Live : ℕ → Component V → Type 0
  Live t c = IsAnnounced c

  update-IsAnnounced :
      (s : ComponentState)
      → Hoare IsAnnounced (send_state_update sys s none) (λ _. IsAnnounced) IsAnnounced
  unfolding send_state_update send_envelope ◌>>=◌ last_announced state_name
  update-IsAnnounced s = record {
    at = λ c h. ground (arith, sys.json.as_str-string (state_name s));
  }

  -- A message other than STATE_UPDATE announces nothing.
  sent-IsAnnounced :
      (env : Envelope V)
      → ((h : History V) → last_announced (sent env ∷ h) ≡ last_announced h)
      → Hoare IsAnnounced (send_envelope sys env) (λ _. IsAnnounced) IsAnnounced
  unfolding send_envelope emit
  sent-IsAnnounced env same = record { at = λ c h. ground (arith, same c.history) }

  accept-IsAnnounced :
      (resp : Envelope V)
      → Hoare IsAnnounced (accept_registration sys resp) (λ _. IsAnnounced) IsAnnounced
  unfolding accept_registration
  accept-IsAnnounced resp =
      Hoare-dec (Command-discrete resp.command Command.registered) _ _
        (Hoare-lift (text_at sys "component_id" resp.payload) _ (λ c h. h)
          λ id _. Hoare-bind {Q = λ _. IsAnnounced} _ _ (Hoare-set_component_id id (λ c h. h)) λ _.
            Hoare-lift (text_at sys "session_id" resp.payload) _ (λ c h. h)
              λ session _.
                Hoare-bind {Q = λ _. IsAnnounced} _ _ (Hoare-set_session_id session (λ c h. h)) λ _.
                  Hoare-bind {Q = λ _. IsAnnounced} _ _ (Hoare-set_state registered (λ c h. tt))
                    λ _.
                      Hoare-bind {Q = λ _. IsAnnounced} _ _ (update-IsAnnounced initializing)
                        λ _. update-IsAnnounced ready)
        (Hoare-raise _ (λ c h. h))

  register-IsAnnounced :
      (reads : List Read) → Hoare IsAnnounced (register sys reads) (λ _. IsAnnounced) IsAnnounced
  unfolding register
  register-IsAnnounced reads = Hoare-self _ λ s.
      Hoare-bind _ _
        (sent-IsAnnounced (register_message sys s) (unfold last_announced envelope in λ h. refl))
        λ _.
          Hoare-lift (recv_envelope sys reads).0 _ (λ c h. h)
            λ resp _. Hoare-bind _ _ (accept-IsAnnounced resp) λ _. Hoare-pure _ (λ c h. h)

  ack-IsAnnounced :
      (id : String) → Hoare IsAnnounced (send_ack sys id) (λ _. IsAnnounced) IsAnnounced
  unfolding send_ack send_envelope ◌>>=◌ last_announced
  ack-IsAnnounced id = record { at = λ c h. ground arith }

  send_error-IsAnnounced :
      (code message : String) (b : Bool)
      → Hoare IsAnnounced (send_error sys code message b) (λ _. IsAnnounced) IsAnnounced
  unfolding send_error send_envelope ◌>>=◌ last_announced
  send_error-IsAnnounced code message b = record { at = λ c h. ground arith }

  emit_rest :
      (e : Event V)
      → ((h : History V) → last_announced (e ∷ h) ≡ last_announced h)
      → Hoare IsAnnounced (emit e) (λ _. IsAnnounced) IsAnnounced
  unfolding emit
  emit_rest e same = record { at = λ c h. ground (arith, same c.history) }

  after_configure-IsAnnounced :
      (env : Envelope V) (t : ℕ) (r : Option AegisError)
      → Hoare IsAnnounced (after_configure sys env t r) (λ _. IsAnnounced) IsAnnounced
  unfolding after_configure
  after_configure-IsAnnounced env t (some e) = send_error-IsAnnounced _ _ _
  after_configure-IsAnnounced env t none = Hoare-bind _ _ (ack-IsAnnounced env.message_id) λ _.
      Hoare-bind _ _ (update-IsAnnounced configured) λ _.
        Hoare-bind _ _ (update-IsAnnounced running)
          λ _. emit_rest (spawned t) (unfold last_announced in λ h. refl)

  config-IsAnnounced :
      (t : ℕ) (env : Envelope V)
      → Hoare IsAnnounced (handle_config sys env t) (λ _. IsAnnounced) IsAnnounced
  unfolding handle_config
  config-IsAnnounced t env =
      Hoare-dec (Command-discrete env.command Command.configure) _ _
        (Hoare-self _ λ s.
          Hoare-bind _ _
            (emit_rest (on_configure (config_socket sys env) (config_topics sys env))
              (unfold last_announced in λ h. refl))
            λ _. after_configure-IsAnnounced env t _)
        (Hoare-pure tt (λ c h. h))

  heartbeat-IsAnnounced :
      (t : ℕ) (env : Envelope V)
      → Hoare IsAnnounced (handle_heartbeat sys env) (λ _. IsAnnounced) IsAnnounced
  unfolding handle_heartbeat send_envelope ◌>>=◌ last_announced
  heartbeat-IsAnnounced t env = record { at = λ c h. ground arith }

  lifecycle-IsAnnounced :
      (t : ℕ) (env : Envelope V)
      → Hoare IsAnnounced (handle_lifecycle sys env t) (Next IsAnnounced IsAnnounced) IsAnnounced
  unfolding handle_lifecycle send_ack send_envelope ◌>>=◌ last_announced
  lifecycle-IsAnnounced t env = record { at = λ c h. ground arith }

  error-IsAnnounced :
      (t : ℕ) (env : Envelope V)
      → Hoare IsAnnounced (handle_error_msg sys env) (λ _. IsAnnounced) IsAnnounced
  unfolding handle_error_msg ◌>>=◌ last_announced
  error-IsAnnounced t env = record { at = λ c h. ground arith }

  announcements-IsInvariant : IsInvariant sys IsAnnounced IsAnnounced Live IsAnnounced
  unfolding last_announced
  announcements-IsInvariant = record {
    connects = λ c path h. ground arith;
    registers = register-IsAnnounced;
    starts = λ c h. h;
    drops = λ t c h. h;
    heartbeat = heartbeat-IsAnnounced;
    config = config-IsAnnounced;
    lifecycle = lifecycle-IsAnnounced;
    error_msg = error-IsAnnounced;
  }

  announcements-Sleeps : Sleeps IsAnnounced
  unfolding last_announced
  announcements-Sleeps c d h = ground arith

  -- Whatever `run` reads and whatever fails: if the component is then in the state INITIALIZING,
  -- READY, CONFIGURED or RUNNING, the last STATE_UPDATE that was written has this name as its state, provided
  -- that this held at the start.
  pub run-IsAnnounced :
      (attempts : List Attempt) (c : Component V)
      → IsAnnounced c
      → IsAnnounced (run sys attempts c).1
  run-IsAnnounced attempts c h =
      After-same IsAnnounced (run sys attempts c)
        ((run-Hoare announcements-IsInvariant announcements-Sleeps attempts).at c h)
