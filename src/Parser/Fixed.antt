-- ===== src/Parser/Fixed.antt =====
-- Parts of the state that a step leaves alone.
use membrane_app_bitcoin_new.Parser.Outcome.{
  skipped, while_off, in_sequence_lem, not_skipped, until_lem, while_on, next_of, until_turn,
  while_turn,
}
use membrane_app_bitcoin_new.Common.{
  some, none, Option, ℕ, zero, suc, ◌+◌, ◌≡◌, ◌∙◌, refl, ap, List, [], ◌∷◌, Bool, Bool-cases, true,
  false, inl, inr, All, All-drop, drop, if◌then◌else◌,
}
use membrane_app_bitcoin_new.Parser.{
  Progress, failed, incomplete, completed, ParsingStep, parser_run, run_steps,
}
use membrane_app_bitcoin_new.Parser.Stream.{unread}
use membrane_app_bitcoin_new.Parser.Stepwise.{
  in_sequence, skip_if, update, Turn, stop, again, LoopBody, loop, run_loop, while_body, until_body,
  read_then, read_varint_then,
}

module _ {S A : Type 0} (g : S → A) where
  abbrev pub Fixes : ParsingStep S (List ℕ) → Type 0
  Fixes step = (s : S) (xs : List ℕ) → g (step s xs).1 ≡ g s

  pub read_then-Fixes :
      (size : S → ℕ) (use_bytes : List ℕ → S → Bool × S)
      → ((bytes : List ℕ) (s : S) → g (use_bytes bytes s).1 ≡ g s)
      → Fixes (read_then unread size use_bytes)
  unfolding read_then
  read_then-Fixes size use_bytes h s xs = go (unread.read_bytes xs (size s))
    where
      go :
          (o : Option (List ℕ × List ℕ))
          → g
              (elim o as (λ _. Progress × S × List ℕ) [
                | none ↦ (incomplete, s, xs)
                | some (bytes, d') ↦ (
                  (if (use_bytes bytes s).0 then completed else failed),
                  (use_bytes bytes s).1,
                  d',
                )
              ]).1
            ≡ g s
      go none = refl
      go (some (bytes, d')) = h bytes s

  pub read_varint_then-Fixes :
      (use_value : ℕ → S → S)
      → ((value : ℕ) (s : S) → g (use_value value s) ≡ g s)
      → Fixes (read_varint_then unread use_value)
  unfolding read_varint_then
  read_varint_then-Fixes use_value h s xs = go (unread.read_varint xs)
    where
      go :
          (o : Option (ℕ × List ℕ))
          → g
              (elim o as (λ _. Progress × S × List ℕ) [
                | none ↦ (incomplete, s, xs)
                | some (value, d') ↦ (completed, use_value value s, d')
              ]).1
            ≡ g s
      go none = refl
      go (some (value, d')) = h value s

  loop_fixes :
      (body : LoopBody S (List ℕ))
      → ((s : S) (xs : List ℕ) → g (body s xs).1 ≡ g s)
      → (n : ℕ) (s : S) (xs : List ℕ) → g (loop n body s xs).1 ≡ g s
  unfolding loop
  loop_fixes body h zero s xs = refl
  loop_fixes body h (suc n) s xs = go (body s xs) (h s xs) (loop_fixes body h n)
    where
      go :
          (t : Turn × S × List ℕ)
          → g t.1 ≡ g s
          → ((s' : S) (r : List ℕ) → g (loop n body s' r).1 ≡ g s')
          → g
              (elim t.0 as (λ _. Progress × S × List ℕ) [
                | stop p ↦ (p, t.1, t.2)
                | again ↦ loop n body t.1 t.2
              ]).1
            ≡ g s
      go (stop p, s', r) e k = e
      go (again, s', r) e k = k s' r ∙ e

  pub while-Fixes :
      (test : S → Bool) (step : ParsingStep S (List ℕ))
      → Fixes step
      → Fixes (run_loop unread (while_body test step))
  unfolding run_loop
  while-Fixes test step h s xs = loop_fixes (while_body test step) fixed _ s xs
    where
      go : (t : Progress × S × List ℕ) → g (while_turn test step t).1 ≡ g t.1
      go (incomplete, s', r) = refl
      go (completed, s', r) = refl
      go (failed, s', r) = refl

      fixed : (s : S) (xs : List ℕ) → g (while_body test step s xs).1 ≡ g s
      fixed s xs = elim (Bool-cases (test s)) [
        | inl e ↦ ap (λ t. g t.1) (while_on test step s xs e) ∙ go (step s xs) ∙ h s xs
        | inr e ↦ ap (λ t. g t.1) (while_off test step s xs e)
      ]

  pub until-Fixes :
      (step : ParsingStep S (List ℕ)) (done : S → Bool)
      → Fixes step
      → Fixes (run_loop unread (until_body step done))
  unfolding run_loop
  until-Fixes step done h s xs = loop_fixes (until_body step done) fixed _ s xs
    where
      ending :
          (b : Bool) (s' : S) (r : List ℕ)
          → g (if◌then◌else◌ {A = Turn × S × List ℕ} b (stop completed, s', r) (again, s', r)).1
            ≡ g s'
      ending true s' r = refl
      ending false s' r = refl

      go : (t : Progress × S × List ℕ) → g (until_turn step done t).1 ≡ g t.1
      go (incomplete, s', r) = refl
      go (completed, s', r) = ending (done s') s' r
      go (failed, s', r) = refl

      fixed : (s : S) (xs : List ℕ) → g (until_body step done s xs).1 ≡ g s
      fixed s xs = ap (λ t. g t.1) (until_lem step done s xs) ∙ go (step s xs) ∙ h s xs

  run_steps_fix :
      (steps : List (ParsingStep S (List ℕ))) (k : ℕ) (s : S) (xs : List ℕ)
      → All Fixes steps
      → g (run_steps steps k s xs).2 ≡ g s
  unfolding run_steps
  run_steps_fix [] k s xs h = refl
  run_steps_fix (step ∷ steps) k s xs (h, hs) =
      go (step s xs) (h s xs) (λ s' r. run_steps_fix steps (k + 1) s' r hs)
    where
      go :
          (t : Progress × S × List ℕ)
          → g t.1 ≡ g s
          → ((s' : S) (r : List ℕ) → g (run_steps steps (k + 1) s' r).2 ≡ g s')
          → g
              (elim t.0 as (λ _. Progress × ℕ × S × List ℕ) [
                | failed ↦ (failed, k, t.1, t.2)
                | incomplete ↦ (incomplete, k, t.1, t.2)
                | completed ↦ run_steps steps (k + 1) t.1 t.2
              ]).2
            ≡ g s
      go (failed, s', r) e rest = e
      go (incomplete, s', r) e rest = e
      go (completed, s', r) e rest = rest s' r ∙ e

  pub parser_run-Fixes :
      (steps : List (ParsingStep S (List ℕ))) (k : ℕ) (s : S) (xs : List ℕ)
      → All Fixes steps
      → g (parser_run steps k s xs).2 ≡ g s
  unfolding parser_run
  parser_run-Fixes steps k s xs h = run_steps_fix (drop k steps) k s xs (All-drop Fixes k steps h)

  pub update-Fixes : (f : S → S) → ((s : S) → g (f s) ≡ g s) → Fixes (update f)
  unfolding update
  update-Fixes f h s xs = h s

  pub skip_if-Fixes :
      (test : S → Bool) (step : ParsingStep S (List ℕ)) → Fixes step → Fixes (skip_if test step)
  skip_if-Fixes test step h s xs = elim (Bool-cases (test s)) [
    | inl e ↦ ap (λ t. g t.1) (skipped test step s xs e)
    | inr e ↦ ap (λ t. g t.1) (not_skipped test step s xs e) ∙ h s xs
  ]

  pub in_sequence-Fixes :
      (step next : ParsingStep S (List ℕ)) → Fixes step → Fixes next → Fixes (in_sequence step next)
  in_sequence-Fixes step next h k s xs =
      ap (λ t. g t.1) (in_sequence_lem step next s xs) ∙ go (step s xs) (h s xs)
    where
      go : (t : Progress × S × List ℕ) → g t.1 ≡ g s → g (next_of next t).1 ≡ g s
      go (incomplete, s', r) e = e
      go (completed, s', r) e = k s' r ∙ e
      go (failed, s', r) e = e
