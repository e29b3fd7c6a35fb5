-- ===== src/Parser/Forms.antt =====
-- The forms of steps over the plain list of unread bytes, and their interruptions.
use membrane_app_bitcoin_new.Parser.Outcome.{skipped, in_sequence_lem, next_of, not_skipped}
use mathlib.Core.Path.{subst}
use membrane_app_bitcoin_new.Common.{
  ℕ, ◌+◌, ◌≤◌, ◌≡◌, ◌∙◌, refl, sym, ap, arith, List, ◌++◌, length, Bool, Bool-cases, true, false,
  inl, inr, if◌then◌else◌,
}
use membrane_app_bitcoin_new.Parser.{Progress, failed, incomplete, completed, ParsingStep}
use membrane_app_bitcoin_new.Parser.Stepwise.{in_sequence, update, skip_if}
use membrane_app_bitcoin_new.Parser.Resume.{Continues, Continues-along, Resumes, Shorter, Consumes}

-- A property of the state where a step stops for more data, or where it is completed.
abbrev pub AtStop : {S : Type 0} → (S → Type 0) → Progress × S × List ℕ → Type 0
AtStop P (incomplete, s, r) = P s
AtStop P (completed, s, r) = Unit
AtStop P (failed, s, r) = Unit

abbrev pub AtDone : {S : Type 0} → (S → Type 0) → Progress × S × List ℕ → Type 0
AtDone P (incomplete, s, r) = Unit
AtDone P (completed, s, r) = P s
AtDone P (failed, s, r) = Unit

pub stop_of : {S : Type 0} (P : S → Type 0) (t : Progress × S × List ℕ) → P t.1 → AtStop P t
stop_of P (incomplete, s, r) h = h
stop_of P (completed, s, r) h = tt
stop_of P (failed, s, r) h = tt

pub done_of : {S : Type 0} (P : S → Type 0) (t : Progress × S × List ℕ) → P t.1 → AtDone P t
done_of P (incomplete, s, r) h = tt
done_of P (completed, s, r) h = h
done_of P (failed, s, r) h = tt

module _ {S : Type 0} where
  pub update-Resumes : (f : S → S) → Resumes (update f)
  unfolding update
  update-Resumes f s xs ys = refl

  pub update-Consumes : (f : S → S) → Consumes (λ s. 0) (update f)
  unfolding update
  update-Consumes f s xs = omega arith

  -- A step that is skipped when it is done already.
  module _ (test : S → Bool) (step : ParsingStep S (List ℕ)) where
    pub skip_if-Resumes :
        Resumes step
        → ((s : S) (xs : List ℕ) → test s ≡ false → AtStop (λ s'. test s' ≡ false) (step s xs))
        → Resumes (skip_if test step)
    skip_if-Resumes h stays s xs ys = elim (Bool-cases (test s)) [
      | inl e ↦
          Continues-along (skip_if test step) ys (skipped test step s xs e)
            (skipped test step s (xs ++ ys) e) refl
      | inr e ↦
          Continues-along (skip_if test step) ys (not_skipped test step s xs e)
            (not_skipped test step s (xs ++ ys) e)
            (go (step s xs) (step s (xs ++ ys)) (h s xs ys) (stays s xs e))
    ]
      where
        go :
            (t u : Progress × S × List ℕ)
            → Continues step ys t u
            → AtStop (λ s'. test s' ≡ false) t
            → Continues (skip_if test step) ys t u
        go (incomplete, s', r) u c e = c ∙ sym (not_skipped test step s' (r ++ ys) e)
        go (completed, s', r) u c e = c
        go (failed, s', r) u c e = c

    pub skip_if-Consumes :
        (n : ℕ)
        → Consumes (λ s. n) step
        → Consumes (λ s. if test s then 0 else n) (skip_if test step)
    skip_if-Consumes n h s xs = elim (Bool-cases (test s)) [
      | inl e ↦
          subst (Shorter (if test s then 0 else n) (length xs)) (sym (skipped test step s xs e))
            (rw e (omega arith))
      | inr e ↦
          subst (Shorter (if test s then 0 else n) (length xs)) (sym (not_skipped test step s xs e))
            (rw e (h s xs))
    ]

  module _ (step next : ParsingStep S (List ℕ)) where
    -- Where the second step stops, the first is one that passes.
    pub in_sequence-Resumes :
        (Q P : S → Type 0)
        → Resumes step
        → Resumes next
        → ((s : S) (xs : List ℕ) → AtDone Q (step s xs))
        → ((s : S) (xs : List ℕ) → Q s → AtStop P (next s xs))
        → ((s : S) (xs : List ℕ) → P s → step s xs ≡ (completed, s, xs))
        → Resumes (in_sequence step next)
    in_sequence-Resumes Q P h k done stays pass s xs ys =
        Continues-along (in_sequence step next) ys (in_sequence_lem step next s xs)
          (in_sequence_lem step next s (xs ++ ys))
          (first (step s xs) (step s (xs ++ ys)) (h s xs ys) (done s xs))
      where
        second :
            (t u : Progress × S × List ℕ)
            → Continues next ys t u
            → AtStop P t
            → Continues (in_sequence step next) ys t u
        second (incomplete, s', r) u c p =
            c
            ∙ ap (next_of next) (sym (pass s' (r ++ ys) p))
            ∙ sym (in_sequence_lem step next s' (r ++ ys))
        second (completed, s', r) u c p = c
        second (failed, s', r) u c p = c

        first :
            (t u : Progress × S × List ℕ)
            → Continues step ys t u
            → AtDone Q t
            → Continues (in_sequence step next) ys (next_of next t) (next_of next u)
        first (incomplete, s', r) u c p =
            ap (next_of next) c ∙ sym (in_sequence_lem step next s' (r ++ ys))
        first (failed, s', r) u c p = ap (next_of next) c
        first (completed, s', r) u c p =
            Continues-along (in_sequence step next) ys refl (ap (next_of next) c)
              (second (next s' r) (next s' (r ++ ys)) (k s' r ys) (stays s' r p))

    pub in_sequence-Consumes :
        (n : S → ℕ) → Consumes n step → Consumes (λ s. 0) next → Consumes n (in_sequence step next)
    in_sequence-Consumes n h k s xs =
        subst (Shorter (n s) (length xs)) (sym (in_sequence_lem step next s xs))
          (go (step s xs) (h s xs))
      where
        less :
            (m : ℕ) (t : Progress × S × List ℕ)
            → m + n s ≤ length xs
            → Shorter 0 m t
            → Shorter (n s) (length xs) t
        less m (completed, s', r) a b = omega arith
        less m (incomplete, s', r) a b = omega arith
        less m (failed, s', r) a b = omega arith

        go :
            (t : Progress × S × List ℕ)
            → Shorter (n s) (length xs) t
            → Shorter (n s) (length xs) (next_of next t)
        go (completed, s', r) l = less (length r) (next s' r) l (k s' r)
        go (incomplete, s', r) l = l
        go (failed, s', r) l = l

    pub in_sequence-AtStop :
        (Q P : S → Type 0) (s : S) (xs : List ℕ)
        → AtStop P (step s xs)
        → AtDone Q (step s xs)
        → ((s' : S) (r : List ℕ) → Q s' → AtStop P (next s' r))
        → AtStop P (in_sequence step next s xs)
    in_sequence-AtStop Q P s xs a b h =
        subst (AtStop P) (sym (in_sequence_lem step next s xs)) (go (step s xs) a b)
      where
        go : (t : Progress × S × List ℕ) → AtStop P t → AtDone Q t → AtStop P (next_of next t)
        go (incomplete, s', r) a b = a
        go (completed, s', r) a b = h s' r b
        go (failed, s', r) a b = tt

    pub in_sequence-AtDone :
        (P : S → Type 0)
        → ((s' : S) (r : List ℕ) → AtDone P (next s' r))
        → (s : S) (xs : List ℕ) → AtDone P (in_sequence step next s xs)
    in_sequence-AtDone P h s xs =
        subst (AtDone P) (sym (in_sequence_lem step next s xs)) (go (step s xs))
      where
        go : (t : Progress × S × List ℕ) → AtDone P (next_of next t)
        go (incomplete, s', r) = tt
        go (completed, s', r) = h s' r
        go (failed, s', r) = tt

  -- What holds where a step is skipped, and what the step brings about.
  pub skip_if-AtDone :
      (test : S → Bool) (step : ParsingStep S (List ℕ)) (Q : S → Type 0) (s : S) (xs : List ℕ)
      → (test s ≡ true → Q s)
      → AtDone Q (step s xs)
      → AtDone Q (skip_if test step s xs)
  skip_if-AtDone test step Q s xs h k = elim (Bool-cases (test s)) [
    | inl e ↦ subst (AtDone Q) (sym (skipped test step s xs e)) (h e)
    | inr e ↦ subst (AtDone Q) (sym (not_skipped test step s xs e)) k
  ]

  pub skip_if-AtStop :
      (test : S → Bool) (step : ParsingStep S (List ℕ)) (P : S → Type 0) (s : S) (xs : List ℕ)
      → AtStop P (step s xs)
      → AtStop P (skip_if test step s xs)
  skip_if-AtStop test step P s xs k = elim (Bool-cases (test s)) [
    | inl e ↦ subst (AtStop P) (sym (skipped test step s xs e)) tt
    | inr e ↦ subst (AtStop P) (sym (not_skipped test step s xs e)) k
  ]
