-- ===== src/MarketData/Entry/Exits.antt =====
-- How the program ends.
use aegis_sdk.Prelude.{String, some, List, ◌∷◌, map, length, ◌≡◌, refl, ap, ◌∙◌, ◌↔◌, ⊤, arith}
use aegis_sdk.Protocol.{ComponentState}
use aegis_sdk.Runtime
use aegis_sdk.Runtime.{System, Attempt, refused, Component, Outcome, ok, err, panicked, pending}
use aegis_sdk.Component.BackOff.{
  IsBackOff, DoublesSeconds, add_events, pauses, gave_up, run-limited,
}
use aegis_sdk.Component.States.{run-ok_iff}
use aegis_sdk.MarketData.Entry.{Environment, ran, exit_code, main_config, run_main}

exit_code-ok : (o : Outcome ⊤) → (exit_code (ran o) ≡ some 0) ↔ (o ≡ ok tt)
unfolding exit_code
exit_code-ok o = ground arith

main_config-IsBackOff : (env : Environment) → IsBackOff (main_config env) 3 60
unfolding main_config
main_config-IsBackOff env = record {
  reconnects = refl;
  starts_at = refl;
  stops_at = refl;
  ordered = omega arith;
  exact = omega arith;
}

module _ {V : Type 0} (sys : System V) where
  -- Without ctrl-c, the program exits with code 0 exactly if its component has been shut down.
  pub exit_code-shutdown :
      (attempts : List Attempt)
      → (exit_code (ran (run_main sys attempts).0) ≡ some 0)
        ↔ ((run_main sys attempts).1.state ≡ ComponentState.shutdown)
  unfolding run_main
  exit_code-shutdown attempts =
      let c = Runtime.new (main_config sys.env_var) in
      let done = run-ok_iff sys attempts c (λ e. cc) in
      let exits = exit_code-ok (run_main sys attempts).0 in
      ((λ e. done.0 (exits.0 e)), (λ e. exits.1 (done.1 e)))

  -- If its first ten attempts to connect are refused, the program exits with code 1, after nine
  -- pauses of 3, 6, 12, 24, 48 and then 60 seconds. Doubling is taken to be exact at whole
  -- seconds.
  pub exit_code-unreachable :
      DoublesSeconds sys
      → (e : String) (es : List String) → length es ≡ 9
      → (run_main sys (map refused (e ∷ es)) ≡ (
        err (gave_up 10),
        add_events (pauses 3 60 0 9) (Runtime.new (main_config sys.env_var)),
      ))
        × (exit_code (ran (run_main sys (map refused (e ∷ es))).0) ≡ some 1)
  unfolding run_main
  exit_code-unreachable doubles e es nine =
      let c = Runtime.new (main_config sys.env_var) in
      let gives_up =
        run-limited sys doubles 3 60 e es c (main_config-IsBackOff sys.env_var) (omega arith)
          (omega arith)
        ∙ ap (λ n. (err (gave_up 10), add_events (pauses 3 60 0 n) c)) nine in
      (gives_up, ap (λ r. exit_code (ran r.0)) gives_up ∙ (unfold exit_code in refl))
