-- ===== src/Parser/Outcome.antt =====
-- What the forms of a step come to, given the outcome of the step that they begin with.
use membrane_app_bitcoin_new.Parser.Stepwise.{
  again, stop, Turn, loop, skip_if, until_body, while_body, LoopBody, in_sequence,
}
use membrane_app_bitcoin_new.Parser.{completed, Progress, ParsingStep, run_steps}
use membrane_app_bitcoin_new.Parser.{Progress, failed, incomplete, completed}
use membrane_app_bitcoin_new.Parser.Stepwise.{stop, again}
use membrane_app_bitcoin_new.Common.{
  if◌then◌else◌, false, true, ◌+◌, ◌∷◌, Bool, List, ◌≡◌, refl, ℕ, suc,
}

module _ {S D : Type 0} where
  abbrev pub next_of : ParsingStep S D → Progress × S × D → Progress × S × D
  next_of next (failed, s, r) = (failed, s, r)
  next_of next (incomplete, s, r) = (incomplete, s, r)
  next_of next (completed, s, r) = next s r

  pub in_sequence_lem :
      (step next : ParsingStep S D) (s : S) (d : D)
      → in_sequence step next s d ≡ next_of next (step s d)
  unfolding in_sequence
  in_sequence_lem step next s d = go (step s d)
    where
      go :
          (t : Progress × S × D)
          → elim t.0 as (λ _. Progress × S × D) [
            | failed ↦ (failed, t.1, t.2)
            | incomplete ↦ (incomplete, t.1, t.2)
            | completed ↦ next t.1 t.2
          ]
            ≡ next_of next t
      go (failed, s', r) = refl
      go (incomplete, s', r) = refl
      go (completed, s', r) = refl

  module _ (test : S → Bool) (step : ParsingStep S D) where
    pub skipped : (s : S) (d : D) → test s ≡ true → skip_if test step s d ≡ (completed, s, d)
    unfolding skip_if
    skipped s d e = rw (e, skip_if) refl

    pub not_skipped : (s : S) (d : D) → test s ≡ false → skip_if test step s d ≡ step s d
    unfolding skip_if
    not_skipped s d e = rw (e, skip_if) refl

    abbrev pub while_turn : Progress × S × D → Turn × S × D
    while_turn (failed, s, r) = (stop failed, s, r)
    while_turn (incomplete, s, r) = (stop incomplete, s, r)
    while_turn (completed, s, r) = (again, s, r)

    pub while_on :
        (s : S) (d : D) → test s ≡ true → while_body test step s d ≡ while_turn (step s d)
    unfolding while_body
    while_on s d e = rw (e, while_body) (go (step s d))
      where
        go :
            (t : Progress × S × D)
            → elim t.0 as (λ _. Turn × S × D) [
              | failed ↦ (stop failed, t.1, t.2)
              | incomplete ↦ (stop incomplete, t.1, t.2)
              | completed ↦ (again, t.1, t.2)
            ]
              ≡ while_turn t
        go (failed, s', r) = refl
        go (incomplete, s', r) = refl
        go (completed, s', r) = refl

    pub while_off :
        (s : S) (d : D) → test s ≡ false → while_body test step s d ≡ (stop completed, s, d)
    unfolding while_body
    while_off s d e = rw (e, while_body) refl

  module _ (step : ParsingStep S D) (done : S → Bool) where
    abbrev pub until_turn : Progress × S × D → Turn × S × D
    until_turn (failed, s, r) = (stop failed, s, r)
    until_turn (incomplete, s, r) = (stop incomplete, s, r)
    until_turn (completed, s, r) = if done s then (stop completed, s, r) else (again, s, r)

    pub until_lem : (s : S) (d : D) → until_body step done s d ≡ until_turn (step s d)
    unfolding until_body
    until_lem s d = go (step s d)
      where
        go :
            (t : Progress × S × D)
            → elim t.0 as (λ _. Turn × S × D) [
              | failed ↦ (stop failed, t.1, t.2)
              | incomplete ↦ (stop incomplete, t.1, t.2)
              | completed ↦ if done t.1 then (stop completed, t.1, t.2) else (again, t.1, t.2)
            ]
              ≡ until_turn t
        go (failed, s', r) = refl
        go (incomplete, s', r) = refl
        go (completed, s', r) = refl

  module _ (body : LoopBody S D) where
    abbrev pub after : ℕ → Turn × S × D → Progress × S × D
    after n (stop p, s, r) = (p, s, r)
    after n (again, s, r) = loop n body s r

    pub loop-suc : (n : ℕ) (s : S) (d : D) → loop (suc n) body s d ≡ after n (body s d)
    unfolding loop
    loop-suc n s d = go (body s d)
      where
        go :
            (t : Turn × S × D)
            → elim t.0 as (λ _. Progress × S × D) [
              | stop p ↦ (p, t.1, t.2)
              | again ↦ loop n body t.1 t.2
            ]
              ≡ after n t
        go (stop p, s', r) = refl
        go (again, s', r) = refl

  abbrev pub next_step : List (ParsingStep S D) → ℕ → Progress × S × D → Progress × ℕ × S × D
  next_step steps k (failed, s, r) = (failed, k, s, r)
  next_step steps k (incomplete, s, r) = (incomplete, k, s, r)
  next_step steps k (completed, s, r) = run_steps steps (k + 1) s r

  pub run_steps-cons :
      (step : ParsingStep S D) (steps : List (ParsingStep S D)) (k : ℕ) (s : S) (d : D)
      → run_steps (step ∷ steps) k s d ≡ next_step steps k (step s d)
  unfolding run_steps
  run_steps-cons step steps k s d = go (step s d)
    where
      go :
          (t : Progress × S × D)
          → elim t.0 as (λ _. Progress × ℕ × S × D) [
            | failed ↦ (failed, k, t.1, t.2)
            | incomplete ↦ (incomplete, k, t.1, t.2)
            | completed ↦ run_steps steps (k + 1) t.1 t.2
          ]
            ≡ next_step steps k t
      go (failed, s', r) = refl
      go (incomplete, s', r) = refl
      go (completed, s', r) = refl
