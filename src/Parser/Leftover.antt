-- ===== src/Parser/Leftover.antt =====
-- How many bytes a step that waits for more leaves unread.
use membrane_app_bitcoin_new.Parser.Outcome.{
  loop-suc, not_skipped, until_lem, while_off, after, in_sequence_lem, run_steps-cons, skipped,
  until_turn, while_on, next_step, while_turn, next_of,
}
use membrane_app_bitcoin_new.Parser.Reads.{
  read_enough, read_value, read_few, read_no_value, read_outcome,
}
use membrane_app_bitcoin_new.Parser.Resume.{Lower, Lowers}
use membrane_app_bitcoin_new.Parser.Stream.{unread}
use membrane_app_bitcoin_new.Varint.{varint_read}
use native.Mathlib.Decide.{dec_lt}
use mathlib.Core.Path.{subst}
use membrane_app_bitcoin_new.Common.{
  take, if◌then◌else◌, sym, All-drop, Bool-cases, Option-cases, arith, ◌*◌, ◌+◌, drop, none, ◌⊎◌, ℕ,
  zero, suc, List, [], ◌∷◌, Bool, true, false, ◌≡◌, ◌≤◌, ◌<◌, inl, inr, length, All,
}
use membrane_app_bitcoin_new.Parser.{
  run_steps, ParsingStep, Progress, parser_run, failed, incomplete, completed,
}
use membrane_app_bitcoin_new.Parser.Stepwise.{
  loop, until_body, while_body, in_sequence, read_then, skip_if, LoopBody, Turn, read_varint_then,
  run_loop, update, stop, again,
}

varint_missing : (xs : List ℕ) → varint_read xs (length xs) ≡ none → length xs < 9
unfolding varint_read
varint_missing xs e = ground arith

module _ {S : Type 0} (Q : S → Type 0) where
  abbrev pub Left : Progress × S × List ℕ → Type 0
  Left (incomplete, s, r) = (length r ≤ 32) ⊎ Q s
  Left (completed, s, r) = Unit
  Left (failed, s, r) = Unit

  abbrev pub Leaves : ParsingStep S (List ℕ) → Type 0
  Leaves step = (s : S) (xs : List ℕ) → Left (step s xs)

  pub read_then-Leaves :
      (size : S → ℕ) (use_bytes : List ℕ → S → Bool × S)
      → ((s : S) → (size s ≤ 32) ⊎ Q s)
      → Leaves (read_then unread size use_bytes)
  read_then-Leaves size use_bytes h s xs = elim (dec_lt (length xs) (size s)) [
    | yes few ↦
        subst Left (sym (read_few size use_bytes s xs few))
          (elim (h s) [ inl small ↦ inl (omega arith) | inr q ↦ inr q ])
    | no k ↦
        subst Left (sym (read_enough size use_bytes s xs (omega arith)))
          (go (use_bytes (take (size s) xs) s))
  ]
    where
      go : (t : Bool × S) → Left (read_outcome size use_bytes t (drop (size s) xs))
      go (true, s') = tt
      go (false, s') = tt

  pub read_varint_then-Leaves : (use_value : ℕ → S → S) → Leaves (read_varint_then unread use_value)
  read_varint_then-Leaves use_value s xs = elim (Option-cases (varint_read xs (length xs))) [
    | inl e ↦
        subst Left (sym (read_no_value use_value s xs e)) (inl (omega (arith, varint_missing xs e)))
    | inr ((len, value), e) ↦ subst Left (sym (read_value use_value s xs e)) tt
  ]

  pub update-Leaves : (f : S → S) → Leaves (update f)
  unfolding update
  update-Leaves f s xs = tt

  pub skip_if-Leaves :
      (test : S → Bool) (step : ParsingStep S (List ℕ)) → Leaves step → Leaves (skip_if test step)
  skip_if-Leaves test step h s xs = elim (Bool-cases (test s)) [
    | inl e ↦ subst Left (sym (skipped test step s xs e)) tt
    | inr e ↦ subst Left (sym (not_skipped test step s xs e)) (h s xs)
  ]

  pub in_sequence-Leaves :
      (step next : ParsingStep S (List ℕ))
      → Leaves step
      → Leaves next
      → Leaves (in_sequence step next)
  in_sequence-Leaves step next h k s xs =
      subst Left (sym (in_sequence_lem step next s xs)) (go (step s xs) (h s xs))
    where
      go : (t : Progress × S × List ℕ) → Left t → Left (next_of next t)
      go (incomplete, s', r) l = l
      go (completed, s', r) l = k s' r
      go (failed, s', r) l = l

  abbrev TurnLeft : Turn × S × List ℕ → Type 0
  TurnLeft (stop incomplete, s, r) = (length r ≤ 32) ⊎ Q s
  TurnLeft (stop completed, s, r) = Unit
  TurnLeft (stop failed, s, r) = Unit
  TurnLeft (again, s, r) = Unit

  module _ (body : LoopBody S (List ℕ)) (weight : S → ℕ)
      (lower : (s : S) (xs : List ℕ) → Lower (2 * length xs + weight s) weight (body s xs))
      (left : (s : S) (xs : List ℕ) → TurnLeft (body s xs)) where
    loop-Left :
        (n : ℕ) (s : S) (xs : List ℕ) → 2 * length xs + weight s < n → Left (loop n body s xs)
    loop-Left zero s xs h = absurd (omega arith)
    loop-Left (suc n) s xs h =
        subst Left (sym (loop-suc body n s xs))
          (go (body s xs) (left s xs) (lower s xs) (λ s' r. loop-Left n s' r))
      where
        go :
            (t : Turn × S × List ℕ)
            → TurnLeft t
            → Lower (2 * length xs + weight s) weight t
            → ((s' : S) (r : List ℕ) → 2 * length r + weight s' < n → Left (loop n body s' r))
            → Left (after body n t)
        go (stop incomplete, s', r) l k rest = l
        go (stop completed, s', r) l k rest = tt
        go (stop failed, s', r) l k rest = tt
        go (again, s', r) l k rest = rest s' r (omega arith)

  loop-Leaves :
      (body : LoopBody S (List ℕ))
      → Lowers body
      → ((s : S) (xs : List ℕ) → TurnLeft (body s xs))
      → Leaves (run_loop unread body)
  unfolding run_loop
  loop-Leaves body (weight, light, lower) left s xs =
      loop-Left body weight lower left (2 * length xs + 2) s xs (omega (arith, light s))

  pub while-Leaves :
      (test : S → Bool) (step : ParsingStep S (List ℕ))
      → Lowers (while_body test step)
      → Leaves step
      → Leaves (run_loop unread (while_body test step))
  while-Leaves test step l h = loop-Leaves (while_body test step) l turns
    where
      go : (t : Progress × S × List ℕ) → Left t → TurnLeft (while_turn test step t)
      go (incomplete, s', r) k = k
      go (completed, s', r) k = tt
      go (failed, s', r) k = tt

      turns : (s : S) (xs : List ℕ) → TurnLeft (while_body test step s xs)
      turns s xs = elim (Bool-cases (test s)) [
        | inl e ↦ subst TurnLeft (sym (while_on test step s xs e)) (go (step s xs) (h s xs))
        | inr e ↦ subst TurnLeft (sym (while_off test step s xs e)) tt
      ]

  pub until-Leaves :
      (step : ParsingStep S (List ℕ)) (done : S → Bool)
      → Lowers (until_body step done)
      → Leaves step
      → Leaves (run_loop unread (until_body step done))
  until-Leaves step done l h = loop-Leaves (until_body step done) l turns
    where
      ending :
          (b : Bool) (s' : S) (r : List ℕ)
          → TurnLeft (if b then (stop completed, s', r) else (again, s', r))
      ending true s' r = tt
      ending false s' r = tt

      go : (t : Progress × S × List ℕ) → Left t → TurnLeft (until_turn step done t)
      go (incomplete, s', r) k = k
      go (completed, s', r) k = ending (done s') s' r
      go (failed, s', r) k = tt

      turns : (s : S) (xs : List ℕ) → TurnLeft (until_body step done s xs)
      turns s xs = subst TurnLeft (sym (until_lem step done s xs)) (go (step s xs) (h s xs))

  abbrev pub RunLeft : Progress × ℕ × S × List ℕ → Type 0
  RunLeft (incomplete, k, s, r) = (length r ≤ 32) ⊎ Q s
  RunLeft (completed, k, s, r) = Unit
  RunLeft (failed, k, s, r) = Unit

  run-Left :
      (steps : List (ParsingStep S (List ℕ))) (k : ℕ) (s : S) (xs : List ℕ)
      → All Leaves steps
      → RunLeft (run_steps steps k s xs)
  run-Left [] k s xs h = unfold run_steps in tt
  run-Left (step ∷ steps) k s xs (h, hs) =
      subst RunLeft (sym (run_steps-cons step steps k s xs))
        (go (step s xs) (h s xs) (λ s' r. run-Left steps (k + 1) s' r hs))
    where
      go :
          (t : Progress × S × List ℕ)
          → Left t
          → ((s' : S) (r : List ℕ) → RunLeft (run_steps steps (k + 1) s' r))
          → RunLeft (next_step steps k t)
      go (incomplete, s', r) l rest = l
      go (completed, s', r) l rest = rest s' r
      go (failed, s', r) l rest = tt

  pub parser_run-Left :
      (steps : List (ParsingStep S (List ℕ))) (k : ℕ) (s : S) (xs : List ℕ)
      → All Leaves steps
      → RunLeft (parser_run steps k s xs)
  unfolding parser_run
  parser_run-Left steps k s xs h = run-Left (drop k steps) k s xs (All-drop Leaves k steps h)
