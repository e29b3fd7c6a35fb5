-- ===== src/Parser/Steps.antt =====
-- `parser_run` of common/parser.c over the plain list of unread bytes, and its interruptions.
use membrane_app_bitcoin_new.Parser.Outcome.{run_steps-cons, next_step}
use mathlib.Core.Path.{subst}
use membrane_app_bitcoin_new.Common.{
  length, ℕ, zero, suc, ◌+◌, ◌-◌, ◌≤◌, ◌≡◌, ◌∙◌, refl, sym, ap, arith, List, [], ◌∷◌, ◌++◌, drop,
  drop-drop, All, All-drop,
}
use membrane_app_bitcoin_new.Parser.{
  Progress, failed, incomplete, completed, ParsingStep, run_steps, parser_run,
}
use membrane_app_bitcoin_new.Parser.Resume.{Shorter, Consumes, Continues, Resumes}

module _ {S : Type 0} where
  -- As `Continues`, with the position of the step in the result.
  abbrev pub RunContinues :
      (ℕ → S → List ℕ → Progress × ℕ × S × List ℕ)
      → List ℕ
      → Progress × ℕ × S × List ℕ
      → Progress × ℕ × S × List ℕ
      → Type 0
  RunContinues run ys (incomplete, k, s, r) whole = whole ≡ run k s (r ++ ys)
  RunContinues run ys (completed, k, s, r) whole = whole ≡ (completed, k, s, r ++ ys)
  RunContinues run ys (failed, k, s, r) whole = whole ≡ (failed, k, s, r ++ ys)

  abbrev AtLeast : ℕ → Progress × ℕ × S × List ℕ → Type 0
  AtLeast k (p, k', s, r) = k ≤ k'

  -- The run of what is left of some steps from a later one on.
  abbrev from : List (ParsingStep S (List ℕ)) → ℕ → ℕ → S → List ℕ → Progress × ℕ × S × List ℕ
  from steps k k' s xs = run_steps (drop (k' - k) steps) k' s xs

  run-Resumes :
      (steps : List (ParsingStep S (List ℕ))) (k : ℕ) (s : S) (xs ys : List ℕ)
      → All Resumes steps
      → AtLeast k (run_steps steps k s xs)
        × RunContinues (from steps k) ys (run_steps steps k s xs) (run_steps steps k s (xs ++ ys))
  run-Resumes [] k s xs ys h = unfold run_steps in (omega arith, refl)
  run-Resumes (step ∷ steps) k s xs ys (h, hs) =
      subst2 (run_steps-cons step steps k s xs) (run_steps-cons step steps k s (xs ++ ys)) (
        go (step s xs) (step s (xs ++ ys)) (h s xs ys)
          (λ s' r. run-Resumes steps (k + 1) s' r ys hs))
    where
      Both : Progress × ℕ × S × List ℕ → Progress × ℕ × S × List ℕ → Type 0
      Both t u = AtLeast k t × RunContinues (from (step ∷ steps) k) ys t u

      subst2 : {t t' u u' : Progress × ℕ × S × List ℕ} → t ≡ t' → u ≡ u' → Both t' u' → Both t u
      subst2 {t' = t'} {u = u} p q c = subst (λ v. Both v u) (sym p) (subst (Both t') (sym q) c)

      earlier :
          (t u : Progress × ℕ × S × List ℕ)
          → AtLeast (k + 1) t
          → RunContinues (from steps (k + 1)) ys t u
          → Both t u
      earlier (incomplete, k', s', r) u l c =
          (omega arith, c ∙ ap (λ i. run_steps (drop i (step ∷ steps)) k' s' (r ++ ys)) shift)
        where
          shift : suc (k' - (k + 1)) ≡ k' - k
          shift = omega arith
      earlier (completed, k', s', r) u l c = (omega arith, c)
      earlier (failed, k', s', r) u l c = (omega arith, c)

      go :
          (t u : Progress × S × List ℕ)
          → Continues step ys t u
          → ((s' : S) (r : List ℕ)
              → AtLeast (k + 1) (run_steps steps (k + 1) s' r)
                × RunContinues
                    (from steps (k + 1))
                    ys
                    (run_steps steps (k + 1) s' r)
                    (run_steps steps (k + 1) s' (r ++ ys)))
          → Both (next_step steps k t) (next_step steps k u)
      go (incomplete, s', r) u c rest = (
        omega arith,
        ap (next_step steps k) c
            ∙ sym (run_steps-cons step steps k s' (r ++ ys))
            ∙ ap (λ i. run_steps (drop i (step ∷ steps)) k s' (r ++ ys)) zero_left,
      )
        where
          zero_left : zero ≡ k - k
          zero_left = omega arith
      go (failed, s', r) u c rest = (omega arith, ap (next_step steps k) c)
      go (completed, s', r) u c rest =
          subst (Both (run_steps steps (k + 1) s' r)) (sym (ap (next_step steps k) c)) (
            earlier (run_steps steps (k + 1) s' r) (run_steps steps (k + 1) s' (r ++ ys))
              (rest s' r).0 (rest s' r).1)

  -- A run of steps that can all be interrupted: on more bytes it goes on at the step it stopped at.
  pub parser_run-Resumes :
      (steps : List (ParsingStep S (List ℕ))) (k : ℕ) (s : S) (xs ys : List ℕ)
      → All Resumes steps
      → RunContinues
          (parser_run steps)
          ys
          (parser_run steps k s xs)
          (parser_run steps k s (xs ++ ys))
  unfolding parser_run
  parser_run-Resumes steps k s xs ys h =
      go (run_steps (drop k steps) k s xs) (run_steps (drop k steps) k s (xs ++ ys))
        (run-Resumes (drop k steps) k s xs ys (All-drop Resumes k steps h))
    where
      go :
          (t u : Progress × ℕ × S × List ℕ)
          → AtLeast k t × RunContinues (from (drop k steps) k) ys t u
          → RunContinues (parser_run steps) ys t u
      go (incomplete, k', s', r) u (l, c) =
          c
          ∙ ap (λ v. run_steps v k' s' (r ++ ys))
              (drop-drop (k' - k) k steps ∙ ap (λ i. drop i steps) back)
        where
          back : k + (k' - k) ≡ k'
          back = omega arith
      go (completed, k', s', r) u (l, c) = c
      go (failed, k', s', r) u (l, c) = c

  abbrev pub RunShorter : ℕ → ℕ → Progress × ℕ × S × List ℕ → Type 0
  RunShorter n l (incomplete, k, s, r) = length r ≤ l
  RunShorter n l (completed, k, s, r) = length r + n ≤ l
  RunShorter n l (failed, k, s, r) = length r + n ≤ l

  run_less :
      (n m l : ℕ) (t : Progress × ℕ × S × List ℕ) → m + n ≤ l → RunShorter 0 m t → RunShorter n l t
  run_less n m l (incomplete, k, s, r) a b = omega arith
  run_less n m l (completed, k, s, r) a b = omega arith
  run_less n m l (failed, k, s, r) a b = omega arith

  -- A run uses up what its first step uses up.
  first_shorter :
      (step : ParsingStep S (List ℕ)) (steps : List (ParsingStep S (List ℕ))) (n k : ℕ) (s : S)
      (xs : List ℕ)
      → Consumes (λ s. n) step
      → ((s' : S) (r : List ℕ) → RunShorter 0 (length r) (run_steps steps (k + 1) s' r))
      → RunShorter n (length xs) (run_steps (step ∷ steps) k s xs)
  first_shorter step steps n k s xs h rest =
      subst (RunShorter n (length xs)) (sym (run_steps-cons step steps k s xs))
        (go (step s xs) (h s xs))
    where
      go :
          (t : Progress × S × List ℕ)
          → Shorter n (length xs) t
          → RunShorter n (length xs) (next_step steps k t)
      go (incomplete, s', r) l = l
      go (failed, s', r) l = l
      go (completed, s', r) l =
          run_less n (length r) (length xs) (run_steps steps (k + 1) s' r) l (rest s' r)

  run_steps_shorter :
      (steps : List (ParsingStep S (List ℕ))) (k : ℕ) (s : S) (xs : List ℕ)
      → All (Consumes (λ s. 0)) steps
      → RunShorter 0 (length xs) (run_steps steps k s xs)
  run_steps_shorter [] k s xs h = unfold run_steps in omega arith
  run_steps_shorter (step ∷ steps) k s xs (h, hs) =
      first_shorter step steps 0 k s xs h (λ s' r. run_steps_shorter steps (k + 1) s' r hs)

  pub parser_run_shorter :
      (steps : List (ParsingStep S (List ℕ))) (k : ℕ) (s : S) (xs : List ℕ)
      → All (Consumes (λ s. 0)) steps
      → RunShorter 0 (length xs) (parser_run steps k s xs)
  unfolding parser_run
  parser_run_shorter steps k s xs h =
      run_steps_shorter (drop k steps) k s xs (All-drop (Consumes (λ s. 0)) k steps h)

  pub parser_run_from_start :
      (step : ParsingStep S (List ℕ)) (steps : List (ParsingStep S (List ℕ))) (n : ℕ) (s : S)
      (xs : List ℕ)
      → Consumes (λ s. n) step
      → All (Consumes (λ s. 0)) steps
      → RunShorter n (length xs) (parser_run (step ∷ steps) 0 s xs)
  unfolding parser_run
  parser_run_from_start step steps n s xs h hs =
      first_shorter step steps n 0 s xs h (λ s' r. run_steps_shorter steps (0 + 1) s' r hs)
