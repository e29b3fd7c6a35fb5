-- ===== src/Parser/Resume.antt =====
-- Steps that can be interrupted: what makes a run over the first bytes, and then over the others, the
-- same as one run.
use membrane_app_bitcoin_new.Parser.Outcome.{after, loop-suc}
use mathlib.Core.Path.{subst}
use membrane_app_bitcoin_new.Common.{
  ℕ, zero, suc, ◌+◌, ◌*◌, ◌≤◌, ◌<◌, ◌≡◌, ◌∙◌, refl, sym, ap, arith, List, ◌++◌, length,
}
use membrane_app_bitcoin_new.Parser.{Progress, failed, incomplete, completed, ParsingStep}
use membrane_app_bitcoin_new.Parser.Stream.{unread}
use membrane_app_bitcoin_new.Parser.Stepwise.{Turn, stop, again, LoopBody, loop, run_loop}

-- The result on all the bytes, `whole`, against that on the first of them: an interrupted step is
-- taken up where it stopped, and another one leaves the later bytes alone.
abbrev pub Continues :
    {S : Type 0}
    → ParsingStep S (List ℕ)
    → List ℕ
    → Progress × S × List ℕ
    → Progress × S × List ℕ
    → Type 0
Continues step ys (incomplete, s, r) whole = whole ≡ step s (r ++ ys)
Continues step ys (completed, s, r) whole = whole ≡ (completed, s, r ++ ys)
Continues step ys (failed, s, r) whole = whole ≡ (failed, s, r ++ ys)

abbrev pub Resumes : {S : Type 0} → ParsingStep S (List ℕ) → Type 0
Resumes {S} step = (s : S) (xs ys : List ℕ) → Continues step ys (step s xs) (step s (xs ++ ys))

-- `l` bytes were there, and a step that is completed or has failed has used up at least `n` of them.
abbrev pub Shorter : {S : Type 0} → ℕ → ℕ → Progress × S × List ℕ → Type 0
Shorter n l (completed, s, r) = length r + n ≤ l
Shorter n l (incomplete, s, r) = length r ≤ l
Shorter n l (failed, s, r) = length r + n ≤ l

abbrev pub Consumes : {S : Type 0} → (S → ℕ) → ParsingStep S (List ℕ) → Type 0
Consumes {S} n step = (s : S) (xs : List ℕ) → Shorter (n s) (length xs) (step s xs)

abbrev pub TurnContinues :
    {S : Type 0} → LoopBody S (List ℕ) → List ℕ → Turn × S × List ℕ → Turn × S × List ℕ → Type 0
TurnContinues body ys (stop incomplete, s, r) whole = whole ≡ body s (r ++ ys)
TurnContinues body ys (stop completed, s, r) whole = whole ≡ (stop completed, s, r ++ ys)
TurnContinues body ys (stop failed, s, r) whole = whole ≡ (stop failed, s, r ++ ys)
TurnContinues body ys (again, s, r) whole = whole ≡ (again, s, r ++ ys)

abbrev pub TurnResumes : {S : Type 0} → LoopBody S (List ℕ) → Type 0
TurnResumes {S} body =
    (s : S) (xs ys : List ℕ) → TurnContinues body ys (body s xs) (body s (xs ++ ys))

pub Continues-along :
    {S : Type 0} (step : ParsingStep S (List ℕ)) (ys : List ℕ) {t t' u u' : Progress × S × List ℕ}
    → t ≡ t'
    → u ≡ u'
    → Continues step ys t' u'
    → Continues step ys t u
Continues-along step ys {t' = t'} {u = u} p q c =
    subst (λ v. Continues step ys v u) (sym p) (subst (Continues step ys t') (sym q) c)

-- A round that goes on uses up a byte, or at least the one round that may read nothing.
abbrev pub Lower : {S : Type 0} → ℕ → (S → ℕ) → Turn × S × List ℕ → Type 0
Lower n weight (again, s, r) = 2 * length r + weight s < n
Lower n weight (stop p, s, r) = Unit

-- The fuel of `run_loop` is enough: more of it gives the same result.
abbrev pub Settles : {S : Type 0} → LoopBody S (List ℕ) → Type 0
Settles {S} body =
    (n : ℕ) (s : S) (xs : List ℕ)
    → 2 * length xs + 2 ≤ n
    → loop n body s xs ≡ run_loop unread body s xs

-- A loop that ends: a weight of at most 1 for which every round that goes on is lower.
abbrev pub Lowers : {S : Type 0} → LoopBody S (List ℕ) → Type 0
Lowers {S} body =
    (weight : S → ℕ) × ((s : S) → weight s ≤ 1)
    × ((s : S) (xs : List ℕ) → Lower (2 * length xs + weight s) weight (body s xs))

module _ {S : Type 0} (body : LoopBody S (List ℕ)) (weight : S → ℕ) (light : (s : S) → weight s ≤ 1)
    (lower : (s : S) (xs : List ℕ) → Lower (2 * length xs + weight s) weight (body s xs)) where
  -- Any fuel above the measure gives the same result.
  fuel_enough :
      (n m : ℕ) (s : S) (xs : List ℕ)
      → 2 * length xs + weight s < n
      → 2 * length xs + weight s < m
      → loop n body s xs ≡ loop m body s xs
  fuel_enough zero m s xs h k = absurd (omega arith)
  fuel_enough (suc n) zero s xs h k = absurd (omega arith)
  fuel_enough (suc n) (suc m) s xs h k =
      loop-suc body n s xs
      ∙ go (body s xs) (lower s xs) (λ s' r. fuel_enough n m s' r)
      ∙ sym (loop-suc body m s xs)
    where
      go :
          (t : Turn × S × List ℕ)
          → Lower (2 * length xs + weight s) weight t
          → ((s' : S) (r : List ℕ)
              → 2 * length r + weight s' < n
              → 2 * length r + weight s' < m
              → loop n body s' r ≡ loop m body s' r)
          → after body n t ≡ after body m t
      go (stop p, s', r) l again_eq = refl
      go (again, s', r) l again_eq = again_eq s' r (omega arith) (omega arith)

  loop-Settles : Settles body
  unfolding run_loop
  loop-Settles n s xs h =
      fuel_enough n (2 * length xs + 2) s xs (omega (arith, light s)) (omega (arith, light s))

  after-fuel :
      (n m k j : ℕ) (t : Turn × S × List ℕ)
      → Lower k weight t
      → Lower j weight t
      → k ≤ n
      → j ≤ m
      → after body n t ≡ after body m t
  after-fuel n m k j (stop p, s, r) l i a b = refl
  after-fuel n m k j (again, s, r) l i a b = fuel_enough n m s r (omega arith) (omega arith)

  run_loop_lem :
      (s : S) (xs : List ℕ) → run_loop unread body s xs ≡ after body (2 * length xs + 1) (body s xs)
  unfolding run_loop
  run_loop_lem s xs =
      ap (λ n. loop n body s xs) (omega arith) ∙ loop-suc body (2 * length xs + 1) s xs

  module _ (resumes : TurnResumes body) where
    turn_resumes :
        (n m k j : ℕ) (ys : List ℕ) (t u : Turn × S × List ℕ)
        → TurnContinues body ys t u
        → Lower k weight t
        → Lower j weight u
        → k ≤ n
        → j ≤ m
        → ((s : S) (r : List ℕ)
            → 2 * length r + weight s < n
            → 2 * length (r ++ ys) + weight s < m
            → Continues (run_loop unread body) ys (loop n body s r) (loop m body s (r ++ ys)))
        → Continues (run_loop unread body) ys (after body n t) (after body m u)
    turn_resumes n m k j ys (stop incomplete, s, r) u e l i a b go =
        after-fuel m (2 * length (r ++ ys) + 1) j (2 * length (r ++ ys) + weight s) u i
          (subst (Lower (2 * length (r ++ ys) + weight s) weight) (sym e) (lower s (r ++ ys))) b
          (omega (arith, light s))
        ∙ ap (after body (2 * length (r ++ ys) + 1)) e
        ∙ sym (run_loop_lem s (r ++ ys))
    turn_resumes n m k j ys (stop completed, s, r) u e l i a b go = ap (after body m) e
    turn_resumes n m k j ys (stop failed, s, r) u e l i a b go = ap (after body m) e
    turn_resumes n m k j ys (again, s, r) u e l i a b go =
        let i' : 2 * length (r ++ ys) + weight s < j = subst (Lower j weight) e i in
        subst (λ v. Continues (run_loop unread body) ys (loop n body s r) (after body m v)) (sym e)
          (go s r (omega arith) (omega arith))

    loop_resumes :
        (n m : ℕ) (s : S) (xs ys : List ℕ)
        → 2 * length xs + weight s < n
        → 2 * length (xs ++ ys) + weight s < m
        → Continues (run_loop unread body) ys (loop n body s xs) (loop m body s (xs ++ ys))
    loop_resumes zero m s xs ys h k = absurd (omega arith)
    loop_resumes (suc n) zero s xs ys h k = absurd (omega arith)
    loop_resumes (suc n) (suc m) s xs ys h k =
        Continues-along (run_loop unread body) ys (loop-suc body n s xs)
          (loop-suc body m s (xs ++ ys))
          (turn_resumes n m (2 * length xs + weight s) (2 * length (xs ++ ys) + weight s) ys
            (body s xs) (body s (xs ++ ys)) (resumes s xs ys) (lower s xs) (lower s (xs ++ ys))
            (omega arith) (omega arith) (λ s' r. loop_resumes n m s' r ys))

    pub loop-Resumes : Resumes (run_loop unread body)
    unfolding run_loop
    loop-Resumes s xs ys =
        loop_resumes (2 * length xs + 2) (2 * length (xs ++ ys) + 2) s xs ys
          (omega (arith, light s)) (omega (arith, light s))

loop_shorter :
    {S : Type 0} (body : LoopBody S (List ℕ))
    → ((s : S) (xs : List ℕ) → length (body s xs).2 ≤ length xs)
    → (n : ℕ) (s : S) (xs : List ℕ) → length (loop n body s xs).2 ≤ length xs
unfolding loop
loop_shorter body h zero s xs = omega arith
loop_shorter {S} body h (suc n) s xs = go (body s xs) (h s xs) (loop_shorter body h n)
  where
    go :
        (t : Turn × S × List ℕ)
        → length t.2 ≤ length xs
        → ((s' : S) (r : List ℕ) → length (loop n body s' r).2 ≤ length r)
        → length
            (elim t.0 as (λ _. Progress × S × List ℕ) [
              | stop p ↦ (p, t.1, t.2)
              | again ↦ loop n body t.1 t.2
            ]).2
          ≤ length xs
    go (stop p, s', r) l k = l
    go (again, s', r) l k = omega (arith, k s' r)

shorter : {S : Type 0} (l : ℕ) (t : Progress × S × List ℕ) → length t.2 ≤ l → Shorter 0 l t
shorter l (completed, s, r) h = omega arith
shorter l (incomplete, s, r) h = h
shorter l (failed, s, r) h = omega arith

pub loop-Consumes :
    {S : Type 0} (body : LoopBody S (List ℕ))
    → ((s : S) (xs : List ℕ) → length (body s xs).2 ≤ length xs)
    → Consumes (λ s. 0) (run_loop unread body)
unfolding run_loop
loop-Consumes body h s xs =
    shorter (length xs) (loop (2 * length xs + 2) body s xs)
      (loop_shorter body h (2 * length xs + 2) s xs)

pub Lowers-Settles : {S : Type 0} (body : LoopBody S (List ℕ)) → Lowers body → Settles body
Lowers-Settles body (weight, light, lower) = loop-Settles body weight light lower
