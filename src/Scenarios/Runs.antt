-- ===== src/Scenarios/Runs.antt =====
-- Runs of the component against the sample world.
use aegis_sdk.Prelude.{◌≡◌, refl, List, [], ◌∷◌}
use aegis_sdk.Protocol.{Command-discrete}
use aegis_sdk.Runtime.{Read, line, refused, accepted, ok, ◌>>=◌}
use aegis_sdk.Component.Sending.{send_envelope, send_state_update, send_ack, send_error}
use aegis_sdk.Component.Handling.{
  handle_heartbeat, handle_config, handle_lifecycle, handle_error_msg,
}
use aegis_sdk.Component.Running.{run}
use aegis_sdk.Scenarios.Sample.{sample, fresh}

abbrev session : List Read
session =
    line "registered\n"
    ∷ line "configure\n"
    ∷ line "ping\n"
    ∷ line "reborn\n"
    ∷ line "pong\n"
    ∷ line "warning\n"
    ∷ line "shutdown\n"
    ∷ []

run-session : (run sample (refused "ENOENT" ∷ accepted session ∷ []) fresh).0 ≡ ok tt
unfolding run handle_heartbeat handle_config handle_lifecycle handle_error_msg send_envelope
    send_state_update send_ack send_error ◌>>=◌ Command-discrete
run-session = refl
