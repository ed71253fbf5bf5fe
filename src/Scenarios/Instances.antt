-- ===== src/Scenarios/Instances.antt =====
-- Instances of the theorems about `run`.
use aegis_sdk.Prelude.{ℕ, ◌≤◌, ◌≡◌, ◌≢◌, ◌↔◌, refl, ap, inr, List, [], ◌∷◌, ◌++◌, map, arith}
use aegis_sdk.Error.{registration}
use aegis_sdk.Config.{from_secs}
use aegis_sdk.Protocol.{ComponentState}
use aegis_sdk.Protocol.Names.{command_debug}
use aegis_sdk.Runtime.{
  Read, line, elapsed, Attempt, refused, accepted, Component, connected, slept, sent, ok, err,
  pending,
}
use aegis_sdk.Component.Sending.{send_envelope, recv_envelope}
use aegis_sdk.Component.Running.{run}
use aegis_sdk.Component.States.{Trail, run-path, run-ok_iff}
use aegis_sdk.Component.Announcements.{IsAnnounced, run-IsAnnounced}
use aegis_sdk.Component.Tasks.{IsOrderly, run-IsOrderly}
use aegis_sdk.Component.Reconnecting.{run-within}
use aegis_sdk.Component.BackOff.{
  DoublesSeconds, gave_up, add_events, pauses, run-unlimited, run-limited,
}
use aegis_sdk.Component.Schedule.{delays, run-delays}
use aegis_sdk.Component.Sessions.{sleeps}
use aegis_sdk.Component.Returns.{at_end, later, refuses, closes, AllSettle, run-Returns}
use aegis_sdk.Component.Messages.{seen, register_message}
use aegis_sdk.Component.Registration.{run-rejected}
use aegis_sdk.Scenarios.Sample.{Value, sample, fresh, cfg, refusal}

abbrev pub session : List Read
session =
    line "registered\n"
    ∷ line "configure\n"
    ∷ line "ping\n"
    ∷ line "reborn\n"
    ∷ line "pong\n"
    ∷ line "warning\n"
    ∷ line "shutdown\n"
    ∷ []

-- Refused once, then cut off in the middle of a session, then a whole session.
abbrev attempts : List Attempt
attempts =
    refused "ENOENT"
    ∷ accepted (line "registered\n" ∷ line "configure\n" ∷ elapsed ∷ [])
    ∷ accepted session
    ∷ []

run-path_example :
    let c = (run sample attempts fresh).1 in Trail ComponentState.init [] c.passed c.state
run-path_example = run-path sample attempts fresh (λ e. cc)

run-ok_iff_example :
    ((run sample attempts fresh).0 ≡ ok tt)
    ↔ ((run sample attempts fresh).1.state ≡ ComponentState.shutdown)
run-ok_iff_example = run-ok_iff sample attempts fresh (λ e. cc)

run-IsAnnounced_example : IsAnnounced sample (run sample attempts fresh).1
run-IsAnnounced_example = run-IsAnnounced sample attempts fresh tt

run-IsOrderly_example : IsOrderly sample (run sample attempts fresh).1.history
run-IsOrderly_example = run-IsOrderly sample attempts fresh tt tt

abbrev limited : ℕ → Component Value
limited m = record fresh { cfg = record cfg { max_reconnect_attempts = m } }

run-within_example :
    run sample ((refused "a" ∷ refused "b" ∷ []) ++ attempts) (limited 2)
    ≡ run sample (refused "a" ∷ refused "b" ∷ []) (limited 2)
run-within_example =
    run-within sample (refused "a" ∷ refused "b" ∷ []) attempts (limited 2) (omega arith)
      (omega arith) refl

pub sample-DoublesSeconds : DoublesSeconds sample
sample-DoublesSeconds s h = ap inr (omega arith)

run-unlimited_example :
    run sample (map refused ("a" ∷ "b" ∷ [])) fresh ≡ (pending, add_events (pauses 3 60 0 2) fresh)
run-unlimited_example =
    run-unlimited sample sample-DoublesSeconds 3 60 ("a" ∷ "b" ∷ []) fresh
      (record {
        reconnects = refl;
        starts_at = refl;
        stops_at = refl;
        ordered = omega arith;
        exact = omega arith;
      })
      refl

run-limited_example :
    run sample (map refused ("a" ∷ "b" ∷ "c" ∷ [])) (limited 3)
    ≡ (err (gave_up 3), add_events (pauses 3 60 0 2) (limited 3))
run-limited_example =
    run-limited sample sample-DoublesSeconds 3 60 "a" ("b" ∷ "c" ∷ []) (limited 3)
      (record {
        reconnects = refl;
        starts_at = refl;
        stops_at = refl;
        ordered = omega arith;
        exact = omega arith;
      })
      refl (omega arith)

-- A connection that is lost after the registration, and a server that is gone then.
abbrev lost : List Attempt
lost = accepted (line "registered\n" ∷ elapsed ∷ []) ∷ refused "ENOENT" ∷ []

run-delays_example :
    (n : ℕ) × (n ≤ 2) × (sleeps (run sample lost fresh).1.history ≡ delays 3 60 0 n ++ [])
run-delays_example = run-delays sample sample-DoublesSeconds 3 60 lost fresh (record {
  reconnects = refl;
  starts_at = refl;
  stops_at = refl;
  ordered = omega arith;
  exact = omega arith;
})

-- A server that closes the stream after the registration, and one that is gone.
abbrev closed : List Attempt
closed = accepted (line "registered\n" ∷ line "" ∷ []) ∷ refused "ENOENT" ∷ []

closed-AllSettle : AllSettle closed
closed-AllSettle = (closes (later at_end), (refuses, tt))

run-Returns_example : (run sample closed (limited 2)).0 ≢ pending
run-Returns_example =
    run-Returns sample closed (limited 2) closed-AllSettle (omega arith) (omega arith) (omega arith)

-- The pauses of the default configuration.
default_pauses :
    pauses {V = Value} 3 60 0 6
    ≡ slept (from_secs 60)
      ∷ slept (from_secs 48)
      ∷ slept (from_secs 24)
      ∷ slept (from_secs 12)
      ∷ slept (from_secs 6)
      ∷ slept (from_secs 3)
      ∷ []
unfolding pauses
default_pauses = refl

abbrev connected_once : Component Value
connected_once = seen (connected cfg.socket_path) fresh

run-rejected_example :
    run sample (accepted (line "refusal\n" ∷ []) ∷ accepted session ∷ []) fresh ≡ (
      err (registration "unexpected response: RegistrationFailed"),
      seen (sent (register_message sample connected_once)) connected_once,
    )
unfolding send_envelope recv_envelope command_debug
run-rejected_example =
    run-rejected sample (line "refusal\n" ∷ []) (accepted session ∷ []) {resp = refusal} fresh refl
      (λ e. cc) refl
