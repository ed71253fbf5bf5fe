-- ===== src/Component/Registration.antt =====
-- What `register` does with each answer.
use aegis_sdk.Prelude.{
  ℕ, zero, suc, replicate, concat, none, some, ◌≡◌, refl, ◌≢◌, List, ◌∷◌, ◌++◌, arith, lookup,
  unwrap_or,
}
use aegis_sdk.Error.{registration}
use aegis_sdk.Protocol.{Envelope, Command, initializing, ready}
use aegis_sdk.Protocol.Names.{command_debug}
use aegis_sdk.Runtime.{
  System, Read, elapsed, Attempt, accepted, connected, sent, Component, ok, err, panicked, ◌>>=◌,
}
use aegis_sdk.Component.Sending.{recv_envelope, send_state_update}
use aegis_sdk.Component.Registering.{register}
use aegis_sdk.Component.Running.{run_once, run}
use aegis_sdk.Component.Messages.{
  seen, IsSent, register_message, update_message, announced, registered_as,
}

module _ {V : Type 0} (sys : System V) where
  recv_envelope-silence :
      (silence : ℕ) (reads : List Read)
      → recv_envelope sys (replicate silence elapsed ++ reads) ≡ recv_envelope sys reads
  unfolding recv_envelope
  recv_envelope-silence zero reads = refl
  recv_envelope-silence (suc n) reads = recv_envelope-silence n reads

  register-same :
      (reads reads' : List Read)
      → recv_envelope sys reads ≡ recv_envelope sys reads'
      → register sys reads ≡ register sys reads'
  unfolding register
  register-same reads reads' e = rw e refl

  run_once-same :
      (reads reads' : List Read)
      → register sys reads ≡ register sys reads'
      → run_once sys (accepted reads) ≡ run_once sys (accepted reads')
  unfolding run_once
  run_once-same reads reads' e = rw e refl

  run-same :
      (a a' : Attempt) (later : List Attempt) (c : Component V)
      → run_once sys a ≡ run_once sys a'
      → run sys (a ∷ later) c ≡ run sys (a' ∷ later) c
  unfolding run ◌>>=◌
  run-same a a' later c e = rw e refl

  -- While `register` waits for the answer of Aegis there is no deadline: whatever number of deadlines of
  -- the message loop passes in silence first, `run` does the same as without.
  pub register-silence :
      (silence : ℕ) (reads : List Read) (later : List Attempt) (c : Component V)
      → run sys (accepted (replicate silence elapsed ++ reads) ∷ later) c
        ≡ run sys (accepted reads ∷ later) c
  register-silence silence reads later c =
      run-same (accepted (replicate silence elapsed ++ reads)) (accepted reads) later c (
        run_once-same (replicate silence elapsed ++ reads) reads (
          register-same (replicate silence elapsed ++ reads) reads
            (recv_envelope-silence silence reads)))

  module _ (reads : List Read) {rest : List Read} {resp : Envelope V} (c : Component V)
      (got : recv_envelope sys reads ≡ (ok resp, rest))
      (asked : IsSent sys (register_message sys c) c) where
    -- Any answer but REGISTERED is a registration error that names the command; the REGISTER message
    -- was sent, and nothing else has changed.
    pub register-rejected :
        resp.command ≢ Command.registered
        → register sys reads c ≡ (
          err (registration (concat "unexpected response: " (command_debug resp.command))),
          seen (sent (register_message sys c)) c,
        )
    unfolding register ◌>>=◌
    register-rejected other = ground arith

    -- An answer REGISTERED without a component id is a panic.
    pub register-panics :
        resp.command ≡ Command.registered
        → lookup "component_id" resp.payload ≡ none
        → register sys reads c
          ≡ (panicked "no entry found for key", seen (sent (register_message sys c)) c)
    unfolding register ◌>>=◌
    register-panics same missing = ground arith

    -- An answer REGISTERED with a component id and no session id is a panic too, after the component id
    -- was stored.
    pub register-panics_later :
        {id : V}
        → resp.command ≡ Command.registered
        → lookup "component_id" resp.payload ≡ some id
        → lookup "session_id" resp.payload ≡ none
        → register sys reads c ≡ (
          panicked "no entry found for key",
          record c {
            component_id = unwrap_or (sys.json.as_str id) "";
            history = sent (register_message sys c) ∷ c.history;
          },
        )
    unfolding register ◌>>=◌
    register-panics_later same has_id missing = ground arith

    -- An answer REGISTERED with both ids stores them, and leads through INITIALIZING to READY, each
    -- announced to Aegis, in this order; what was not read yet is left to the message loop.
    pub register-accepted :
        {id session : V}
        → resp.command ≡ Command.registered
        → lookup "component_id" resp.payload ≡ some id
        → lookup "session_id" resp.payload ≡ some session
        → let c₁ = registered_as sys id session c in
          let c₂ = announced sys initializing c₁ in
          IsSent sys (update_message sys initializing c₁) c₁
          → IsSent sys (update_message sys ready c₂) c₂
          → register sys reads c ≡ (ok rest, announced sys ready c₂)
    unfolding register send_state_update ◌>>=◌
    register-accepted same has_id has_session first second = ground arith

module _ {V : Type 0} (sys : System V) (reads : List Read) (later : List Attempt) {rest : List Read}
    {resp : Envelope V} (c : Component V) where
  -- If the first connection answers REGISTER with anything but REGISTERED, `run` returns that
  -- registration error. It does not sleep, nor make another attempt.
  pub run-rejected :
      recv_envelope sys reads ≡ (ok resp, rest)
      → resp.command ≢ Command.registered
      → let c' = seen (connected c.cfg.socket_path) c in
        IsSent sys (register_message sys c') c'
        → run sys (accepted reads ∷ later) c ≡ (
          err (registration (concat "unexpected response: " (command_debug resp.command))),
          seen (sent (register_message sys c')) c',
        )
  unfolding run run_once ◌>>=◌
  run-rejected got other asked =
      let c' = seen (connected c.cfg.socket_path) c in
      ground (arith, register-rejected sys reads c' got asked other)
