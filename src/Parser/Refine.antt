-- ===== src/Parser/Refine.antt =====
-- The forms of steps over the two buffers of common/parser.c, against those over the plain list of
-- unread bytes.
use membrane_app_bitcoin_new.Parser.Stream.{unread, buffers}
use membrane_app_bitcoin_new.Parser.Outcome.{
  run_steps-cons, next_step, not_skipped, while_off, in_sequence_lem, loop-suc, skipped, until_lem,
  while_on, after, until_turn, next_of, while_turn,
}
use membrane_app_bitcoin_new.Parser.Concat.{get_length_lem, contents}
use membrane_app_bitcoin_new.Parser.Implement.{
  Agrees-along, on_contents, Agrees, Implements, Ready, TurnImplements,
}
use mathlib.Core.Path.{subst}
use membrane_app_bitcoin_new.Common.{
  true, false, [], ◌∷◌, zero, sym, ap, ◌+◌, inr, length, true, zero, ◌*◌, inl, Bool-cases,
  if◌then◌else◌, drop, Bool, List, ◌≡◌, refl, ℕ, suc,
}
use membrane_app_bitcoin_new.Parser.Stepwise.{
  Turn, in_sequence, loop, run_loop, skip_if, until_body, while_body, LoopBody, update, stop, again,
}
use membrane_app_bitcoin_new.Parser.{
  Buffers, ParsingStep, Progress, parser_run, run_steps, incomplete, completed, failed,
}

module _ (room : ℕ) {S : Type 0} where
  -- What is done with a result preserves the agreement if it does so on one and the same result.
  carry :
      {P Q : Type 0} (f : P × S × Buffers → Q × S × Buffers) (g : P × S × List ℕ → Q × S × List ℕ)
      → ((t : P × S × Buffers) → Ready room t.2 → Agrees room (f t) (g (on_contents t)))
      → (t : P × S × Buffers) (u : P × S × List ℕ) → Agrees room t u
      → Agrees room (f t) (g u)
  carry f g h t u (e, v) = subst (λ w. Agrees room (f t) (g w)) e (h t v)

  pub update-Implements : (f : S → S) → Implements room (update f) (update f)
  unfolding update
  update-Implements f s d v = (refl, v)

  pub skip_if-Implements :
      (test : S → Bool) (step : ParsingStep S Buffers) (spec : ParsingStep S (List ℕ))
      → Implements room step spec
      → Implements room (skip_if test step) (skip_if test spec)
  skip_if-Implements test step spec h s d v = elim (Bool-cases (test s)) [
    | inl e ↦
        Agrees-along room (skipped test step s d e) (skipped test spec s (contents d) e) (refl, v)
    | inr e ↦
        Agrees-along room (not_skipped test step s d e) (not_skipped test spec s (contents d) e)
          (h s d v)
  ]

  pub in_sequence-Implements :
      (step next : ParsingStep S Buffers) (spec next_spec : ParsingStep S (List ℕ))
      → Implements room step spec
      → Implements room next next_spec
      → Implements room (in_sequence step next) (in_sequence spec next_spec)
  in_sequence-Implements step next spec next_spec h k s d v =
      Agrees-along room (in_sequence_lem step next s d)
        (in_sequence_lem spec next_spec s (contents d))
        (carry (next_of next) (next_of next_spec) go (step s d) (spec s (contents d)) (h s d v))
    where
      go :
          (t : Progress × S × Buffers)
          → Ready room t.2
          → Agrees room (next_of next t) (next_of next_spec (on_contents t))
      go (failed, s', d') v' = (refl, v')
      go (incomplete, s', d') v' = (refl, v')
      go (completed, s', d') v' = k s' d' v'

  while-TurnImplements :
      (test : S → Bool) (step : ParsingStep S Buffers) (spec : ParsingStep S (List ℕ))
      → Implements room step spec
      → TurnImplements room (while_body test step) (while_body test spec)
  while-TurnImplements test step spec h s d v = elim (Bool-cases (test s)) [
    | inl e ↦ Agrees-along room (while_on test step s d e) (while_on test spec s (contents d) e) (
        carry (while_turn test step) (while_turn test spec) go (step s d) (spec s (contents d))
          (h s d v))
    | inr e ↦
        Agrees-along room (while_off test step s d e) (while_off test spec s (contents d) e)
          (refl, v)
  ]
    where
      go :
          (t : Progress × S × Buffers)
          → Ready room t.2
          → Agrees room (while_turn test step t) (while_turn test spec (on_contents t))
      go (failed, s', d') v' = (refl, v')
      go (incomplete, s', d') v' = (refl, v')
      go (completed, s', d') v' = (refl, v')

  until-TurnImplements :
      (step : ParsingStep S Buffers) (spec : ParsingStep S (List ℕ)) (done : S → Bool)
      → Implements room step spec
      → TurnImplements room (until_body step done) (until_body spec done)
  until-TurnImplements step spec done h s d v =
      Agrees-along room (until_lem step done s d) (until_lem spec done s (contents d)) (
        carry (until_turn step done) (until_turn spec done) go (step s d) (spec s (contents d))
          (h s d v))
    where
      ending :
          (b : Bool) (s' : S) (d' : Buffers)
          → Ready room d'
          → Agrees room
              (if b then (stop completed, s', d') else (again, s', d'))
              (if b then (stop completed, s', contents d') else (again, s', contents d'))
      ending true s' d' v' = (refl, v')
      ending false s' d' v' = (refl, v')

      go :
          (t : Progress × S × Buffers)
          → Ready room t.2
          → Agrees room (until_turn step done t) (until_turn spec done (on_contents t))
      go (failed, s', d') v' = (refl, v')
      go (incomplete, s', d') v' = (refl, v')
      go (completed, s', d') v' = ending (done s') s' d' v'

  module _ (body : LoopBody S Buffers) (spec : LoopBody S (List ℕ))
      (h : TurnImplements room body spec) where
    loop-Implements : (n : ℕ) → Implements room (loop n body) (loop n spec)
    unfolding loop
    loop-Implements zero s d v = (refl, v)
    loop-Implements (suc n) s d v =
        Agrees-along room (loop-suc body n s d) (loop-suc spec n s (contents d)) (
          carry (after body n) (after spec n) (go (loop-Implements n)) (body s d)
            (spec s (contents d)) (h s d v))
      where
        go :
            Implements room (loop n body) (loop n spec)
            → (t : Turn × S × Buffers) → Ready room t.2
            → Agrees room (after body n t) (after spec n (on_contents t))
        go rest (stop p, s', d') v' = (refl, v')
        go rest (again, s', d') v' = rest s' d' v'

    run_loop-Implements : Implements room (run_loop buffers body) (run_loop unread spec)
    unfolding run_loop
    run_loop-Implements s d v =
        subst
          (λ n.
            Agrees room (loop n body s d) (loop (2 * length (contents d) + 2) spec s (contents d)))
          (ap (λ l. 2 * l + 2) (sym (get_length_lem d v.valid)))
          (loop-Implements (2 * length (contents d) + 2) s d v)

  pub while-Implements :
      (test : S → Bool) (step : ParsingStep S Buffers) (spec : ParsingStep S (List ℕ))
      → Implements room step spec
      → Implements room
          (run_loop buffers (while_body test step))
          (run_loop unread (while_body test spec))
  while-Implements test step spec h =
      run_loop-Implements (while_body test step) (while_body test spec)
        (while-TurnImplements test step spec h)

  pub until-Implements :
      (step : ParsingStep S Buffers) (spec : ParsingStep S (List ℕ)) (done : S → Bool)
      → Implements room step spec
      → Implements room
          (run_loop buffers (until_body step done))
          (run_loop unread (until_body spec done))
  until-Implements step spec done h =
      run_loop-Implements (until_body step done) (until_body spec done)
        (until-TurnImplements step spec done h)

  -- Two lists of steps, one step after the other.
  abbrev pub ImplementAll : List (ParsingStep S Buffers) → List (ParsingStep S (List ℕ)) → Type 0
  ImplementAll [] [] = Unit
  ImplementAll [] (spec ∷ specs) = ⊥
  ImplementAll (step ∷ steps) [] = ⊥
  ImplementAll (step ∷ steps) (spec ∷ specs) = Implements room step spec × ImplementAll steps specs

  -- The result of a run with the unread bytes in place of the buffers.
  abbrev pub run_on_contents : Progress × ℕ × S × Buffers → Progress × ℕ × S × List ℕ
  run_on_contents (p, k, s, d) = (p, k, s, contents d)

  abbrev pub RunAgrees : Progress × ℕ × S × Buffers → Progress × ℕ × S × List ℕ → Type 0
  RunAgrees t u = (run_on_contents t ≡ u) × Ready room t.3

  run_steps_implement :
      (steps : List (ParsingStep S Buffers)) (specs : List (ParsingStep S (List ℕ)))
      → ImplementAll steps specs
      → (k : ℕ) (s : S) (d : Buffers) → Ready room d
      → RunAgrees (run_steps steps k s d) (run_steps specs k s (contents d))
  unfolding run_steps
  run_steps_implement [] [] h k s d v = (refl, v)
  run_steps_implement [] (spec ∷ specs) h k s d v = absurd h
  run_steps_implement (step ∷ steps) [] h k s d v = absurd h
  run_steps_implement (step ∷ steps) (spec ∷ specs) (h, hs) k s d v =
      along (run_steps-cons step steps k s d) (run_steps-cons spec specs k s (contents d))
        (go (run_steps_implement steps specs hs (k + 1)) (step s d) (spec s (contents d)) (h s d v))
    where
      along :
          {t t' : Progress × ℕ × S × Buffers} {u u' : Progress × ℕ × S × List ℕ}
          → t ≡ t'
          → u ≡ u'
          → RunAgrees t' u'
          → RunAgrees t u
      along {t' = t'} {u = u} p q a =
          subst (λ w. RunAgrees w u) (sym p) (subst (RunAgrees t') (sym q) a)

      same :
          ((s' : S) (d' : Buffers)
            → Ready room d'
            → RunAgrees (run_steps steps (k + 1) s' d') (run_steps specs (k + 1) s' (contents d')))
          → (t : Progress × S × Buffers) → Ready room t.2
          → RunAgrees (next_step steps k t) (next_step specs k (on_contents t))
      same rest (failed, s', d') v' = (refl, v')
      same rest (incomplete, s', d') v' = (refl, v')
      same rest (completed, s', d') v' = rest s' d' v'

      go :
          ((s' : S) (d' : Buffers)
            → Ready room d'
            → RunAgrees (run_steps steps (k + 1) s' d') (run_steps specs (k + 1) s' (contents d')))
          → (t : Progress × S × Buffers) (u : Progress × S × List ℕ) → Agrees room t u
          → RunAgrees (next_step steps k t) (next_step specs k u)
      go rest t u (e, v') =
          subst (λ w. RunAgrees (next_step steps k t) (next_step specs k w)) e (same rest t v')

  ImplementAll-drop :
      (n : ℕ) (steps : List (ParsingStep S Buffers)) (specs : List (ParsingStep S (List ℕ)))
      → ImplementAll steps specs
      → ImplementAll (drop n steps) (drop n specs)
  ImplementAll-drop zero steps specs h = h
  ImplementAll-drop (suc n) [] [] h = tt
  ImplementAll-drop (suc n) [] (spec ∷ specs) h = absurd h
  ImplementAll-drop (suc n) (step ∷ steps) [] h = absurd h
  ImplementAll-drop (suc n) (step ∷ steps) (spec ∷ specs) (h, hs) =
      ImplementAll-drop n steps specs hs

  -- A run of steps, each of which implements its counterpart.
  pub parser_run-Implements :
      (steps : List (ParsingStep S Buffers)) (specs : List (ParsingStep S (List ℕ)))
      → ImplementAll steps specs
      → (k : ℕ) (s : S) (d : Buffers) → Ready room d
      → RunAgrees (parser_run steps k s d) (parser_run specs k s (contents d))
  unfolding parser_run
  parser_run-Implements steps specs h k s d v =
      run_steps_implement (drop k steps) (drop k specs) (ImplementAll-drop k steps specs h) k s d v
