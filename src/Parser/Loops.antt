-- ===== src/Parser/Loops.antt =====
-- The two kinds of loops over the plain list of unread bytes, their interruptions and their fuel.
use membrane_app_bitcoin_new.Parser.Outcome.{while_off, until_lem, while_on, until_turn, while_turn}
use mathlib.Core.Path.{subst}
use membrane_app_bitcoin_new.Common.{
  ℕ, ◌+◌, ◌*◌, ◌≤◌, ◌<◌, ◌≡◌, ◌∙◌, refl, sym, ap, arith, List, ◌++◌, length, Bool, Bool-cases, true,
  false, inl, inr, if◌then◌else◌,
}
use membrane_app_bitcoin_new.Parser.{Progress, failed, incomplete, completed, ParsingStep}
use membrane_app_bitcoin_new.Parser.Stream.{unread}
use membrane_app_bitcoin_new.Parser.Stepwise.{
  Turn, stop, again, LoopBody, run_loop, while_body, until_body,
}
use membrane_app_bitcoin_new.Parser.Resume.{
  Lowers, Continues, Resumes, Shorter, Consumes, TurnContinues, TurnResumes, Lower, loop-Resumes,
  loop-Consumes,
}
use membrane_app_bitcoin_new.Parser.Forms.{AtStop, AtDone}

TurnContinues-along :
    {S : Type 0} (body : LoopBody S (List ℕ)) (ys : List ℕ) {t t' u u' : Turn × S × List ℕ}
    → t ≡ t'
    → u ≡ u'
    → TurnContinues body ys t' u'
    → TurnContinues body ys t u
TurnContinues-along body ys {t' = t'} {u = u} p q c =
    subst (λ v. TurnContinues body ys v u) (sym p) (subst (TurnContinues body ys t') (sym q) c)

module _ {S : Type 0} (test : S → Bool) (step : ParsingStep S (List ℕ)) (n : S → ℕ)
    (weight : S → ℕ) where
  while_body-Resumes :
      Resumes step
      → ((s : S) (xs : List ℕ) → test s ≡ true → AtStop (λ s'. test s' ≡ true) (step s xs))
      → TurnResumes (while_body test step)
  while_body-Resumes h stays s xs ys = elim (Bool-cases (test s)) [
    | inl e ↦
        TurnContinues-along (while_body test step) ys (while_on test step s xs e)
          (while_on test step s (xs ++ ys) e)
          (go (step s xs) (step s (xs ++ ys)) (h s xs ys) (stays s xs e))
    | inr e ↦
        TurnContinues-along (while_body test step) ys (while_off test step s xs e)
          (while_off test step s (xs ++ ys) e) refl
  ]
    where
      go :
          (t u : Progress × S × List ℕ)
          → Continues step ys t u
          → AtStop (λ s'. test s' ≡ true) t
          → TurnContinues
              (while_body test step)
              ys
              (while_turn test step t)
              (while_turn test step u)
      go (incomplete, s', r) u c e =
          ap (while_turn test step) c ∙ sym (while_on test step s' (r ++ ys) e)
      go (completed, s', r) u c e = ap (while_turn test step) c
      go (failed, s', r) u c e = ap (while_turn test step) c

  while_body-Lower :
      Consumes n step
      → ((s : S) (xs : List ℕ)
          → test s ≡ true
          → AtDone (λ s'. weight s' < 2 * n s + weight s) (step s xs))
      → (s : S) (xs : List ℕ) → Lower (2 * length xs + weight s) weight (while_body test step s xs)
  while_body-Lower h lighter s xs = elim (Bool-cases (test s)) [
    | inl e ↦
        subst (Lower (2 * length xs + weight s) weight) (sym (while_on test step s xs e))
          (go (step s xs) (h s xs) (lighter s xs e))
    | inr e ↦ subst (Lower (2 * length xs + weight s) weight) (sym (while_off test step s xs e)) tt
  ]
    where
      go :
          (t : Progress × S × List ℕ)
          → Shorter (n s) (length xs) t
          → AtDone (λ s'. weight s' < 2 * n s + weight s) t
          → Lower (2 * length xs + weight s) weight (while_turn test step t)
      go (incomplete, s', r) l k = tt
      go (completed, s', r) l k = omega arith
      go (failed, s', r) l k = tt

  -- A `while` loop over a step that can be interrupted, and whose test holds where it is.
  pub while-Resumes :
      ((s : S) → weight s ≤ 1)
      → Consumes n step
      → ((s : S) (xs : List ℕ)
          → test s ≡ true
          → AtDone (λ s'. weight s' < 2 * n s + weight s) (step s xs))
      → Resumes step
      → ((s : S) (xs : List ℕ) → test s ≡ true → AtStop (λ s'. test s' ≡ true) (step s xs))
      → Resumes (run_loop unread (while_body test step))
  while-Resumes light h lighter k stays =
      loop-Resumes (while_body test step) weight light (while_body-Lower h lighter)
        (while_body-Resumes k stays)

  pub while-Lowers :
      ((s : S) → weight s ≤ 1)
      → Consumes n step
      → ((s : S) (xs : List ℕ)
          → test s ≡ true
          → AtDone (λ s'. weight s' < 2 * n s + weight s) (step s xs))
      → Lowers (while_body test step)
  while-Lowers light h lighter = (weight, light, while_body-Lower h lighter)

  pub while-Consumes : Consumes n step → Consumes (λ s. 0) (run_loop unread (while_body test step))
  while-Consumes h = loop-Consumes (while_body test step) (λ s xs. short s xs)
    where
      go :
          (m l : ℕ) (t : Progress × S × List ℕ)
          → Shorter m l t
          → length (while_turn test step t).2 ≤ l
      go m l (incomplete, s, r) k = k
      go m l (completed, s, r) k = omega arith
      go m l (failed, s, r) k = omega arith

      short : (s : S) (xs : List ℕ) → length (while_body test step s xs).2 ≤ length xs
      short s xs = elim (Bool-cases (test s)) [
        | inl e ↦ rw (while_on test step s xs e) (go (n s) (length xs) (step s xs) (h s xs))
        | inr e ↦ rw (while_off test step s xs e) (omega arith)
      ]

module _ {S : Type 0} (step : ParsingStep S (List ℕ)) (done : S → Bool) (n : S → ℕ) where
  until_body-Resumes : Resumes step → TurnResumes (until_body step done)
  until_body-Resumes h s xs ys =
      TurnContinues-along (until_body step done) ys (until_lem step done s xs)
        (until_lem step done s (xs ++ ys)) (go (step s xs) (step s (xs ++ ys)) (h s xs ys))
    where
      ending :
          (b : Bool) (s' : S) (r : List ℕ)
          → TurnContinues
              (until_body step done)
              ys
              (if b then (stop completed, s', r) else (again, s', r))
              (if b then (stop completed, s', r ++ ys) else (again, s', r ++ ys))
      ending true s' r = refl
      ending false s' r = refl

      go :
          (t u : Progress × S × List ℕ)
          → Continues step ys t u
          → TurnContinues
              (until_body step done)
              ys
              (until_turn step done t)
              (until_turn step done u)
      go (incomplete, s', r) u c =
          ap (until_turn step done) c ∙ sym (until_lem step done s' (r ++ ys))
      go (failed, s', r) u c = ap (until_turn step done) c
      go (completed, s', r) u c =
          TurnContinues-along (until_body step done) ys refl (ap (until_turn step done) c)
            (ending (done s') s' r)

  -- A loop that ends with a step that can be interrupted, and goes on only if the step read a byte.
  module _ (h : Consumes n step)
      (reads : (s : S) (xs : List ℕ) → AtDone (λ s'. done s' ≡ false → 1 ≤ n s) (step s xs)) where
    until_body-Lower :
        (s : S) (xs : List ℕ) → Lower (2 * length xs + 0) (λ s. 0) (until_body step done s xs)
    until_body-Lower s xs =
        subst (Lower (2 * length xs + 0) (λ s. 0)) (sym (until_lem step done s xs))
          (go (step s xs) (h s xs) (reads s xs))
      where
        ending :
            (b : Bool) (s' : S) (r : List ℕ)
            → length r + n s ≤ length xs
            → (b ≡ false → 1 ≤ n s)
            → Lower
                (2 * length xs + 0)
                (λ s. 0)
                (if b then (stop completed, s', r) else (again, s', r))
        ending true s' r l k = tt
        ending false s' r l k = omega (arith, k refl)

        go :
            (t : Progress × S × List ℕ)
            → Shorter (n s) (length xs) t
            → AtDone (λ s'. done s' ≡ false → 1 ≤ n s) t
            → Lower (2 * length xs + 0) (λ s. 0) (until_turn step done t)
        go (incomplete, s', r) l k = tt
        go (failed, s', r) l k = tt
        go (completed, s', r) l k = ending (done s') s' r l k

    pub until-Lowers : Lowers (until_body step done)
    until-Lowers = ((λ s. 0), (λ s. omega arith), until_body-Lower)

    pub until-Resumes : Resumes step → Resumes (run_loop unread (until_body step done))
    until-Resumes k =
        loop-Resumes (until_body step done) (λ s. 0) (λ s. omega arith) until_body-Lower
          (until_body-Resumes k)

  pub until-Consumes : Consumes n step → Consumes (λ s. 0) (run_loop unread (until_body step done))
  until-Consumes h = loop-Consumes (until_body step done) short
    where
      ending :
          (l : ℕ) (b : Bool) (s : S) (r : List ℕ)
          → length r ≤ l
          → length (if◌then◌else◌ {A = Turn × S × List ℕ} b (stop completed, s, r) (again, s, r)).2
            ≤ l
      ending l true s r k = k
      ending l false s r k = k

      go :
          (m l : ℕ) (t : Progress × S × List ℕ)
          → Shorter m l t
          → length (until_turn step done t).2 ≤ l
      go m l (incomplete, s, r) k = k
      go m l (completed, s, r) k = ending l (done s) s r (omega arith)
      go m l (failed, s, r) k = omega arith

      short : (s : S) (xs : List ℕ) → length (until_body step done s xs).2 ≤ length xs
      short s xs = rw (until_lem step done s xs) (go (n s) (length xs) (step s xs) (h s xs))
