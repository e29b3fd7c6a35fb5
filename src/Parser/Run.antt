-- ===== src/Parser/Run.antt =====
-- What `parser_run` of common/parser.c returns.
use membrane_app_bitcoin_new.Common.{
  drop, length-drop, ℕ, ◌∷◌, [], refl, List, length, ◌+◌, ◌≤◌, ◌≡◌, ◌↔◌, arith,
}
use membrane_app_bitcoin_new.Parser.{ParsingStep, run_steps, parser_run, completed}

-- Interrupted or not, a run from `cur_step` ends at a step that is not before it, and the returned
-- value is 1 exactly when all the steps are done.
run_steps_lem {ℓ} :
    {State : Type ℓ} {D : Type 0} (steps : List (ParsingStep State D)) (cur_step : ℕ)
    (state : State) (d : D)
    → (cur_step ≤ (run_steps steps cur_step state d).1)
      × ((run_steps steps cur_step state d).1 ≤ cur_step + length steps)
      × (((run_steps steps cur_step state d).0 ≡ completed)
          ↔ ((run_steps steps cur_step state d).1 ≡ cur_step + length steps))
unfolding run_steps
run_steps_lem [] cur_step state d = (omega arith, omega arith, (λ _. omega arith, λ _. refl))
run_steps_lem (step ∷ steps) cur_step state d =
    ground (arith, run_steps_lem steps (cur_step + 1) (step state d).1 (step state d).2)

-- `parser_run` from a step that exists, interrupted or not: it ends at a step that is not before
-- the one it started at and at most the number of steps, and it returns 1 exactly if all the steps
-- are done.
pub parser_run_lem {ℓ} :
    {State : Type ℓ} {D : Type 0} (parsing_steps : List (ParsingStep State D)) (cur_step : ℕ)
    (state : State) (d : D)
    → cur_step ≤ length parsing_steps
    → (cur_step ≤ (parser_run parsing_steps cur_step state d).1)
      × ((parser_run parsing_steps cur_step state d).1 ≤ length parsing_steps)
      × (((parser_run parsing_steps cur_step state d).0 ≡ completed)
          ↔ ((parser_run parsing_steps cur_step state d).1 ≡ length parsing_steps))
unfolding parser_run
parser_run_lem parsing_steps cur_step state d h = ground (
  arith,
  length-drop cur_step parsing_steps,
  run_steps_lem (drop cur_step parsing_steps) cur_step state d,
)
