-- ===== src/Rawtx/Outer.antt =====
-- The loops over the inputs and outputs of a transaction in psbt_parse_rawtx.c, over the plain list of
-- unread bytes.
use mathlib.Core.Path.{subst}
use membrane_app_bitcoin_new.Common.{
  ==_iff, ℕ, ◌+◌, ◌*◌, ◌<◌, ◌≤◌, ◌≡◌, ◌∙◌, refl, sym, ap, arith, List, ◌++◌, All, Bool, true,
  length, ◌==◌, if◌then◌else◌, Bool-cases, inl, inr,
}
use membrane_app_bitcoin_new.Parser.{
  Progress, completed, incomplete, failed, ParsingStep, parser_run,
}
use membrane_app_bitcoin_new.Parser.Stream.{unread}
use membrane_app_bitcoin_new.Parser.Stepwise.{run_loop, while_body}
use membrane_app_bitcoin_new.Parser.Resume.{
  Lowers, Resumes, Consumes, Shorter, Continues, Continues-along,
}
use membrane_app_bitcoin_new.Parser.Forms.{AtStop, AtDone}
use membrane_app_bitcoin_new.Parser.Steps.{
  RunContinues, RunShorter, parser_run-Resumes, parser_run_shorter,
}
use membrane_app_bitcoin_new.Parser.Loops.{while-Lowers, while-Resumes}
use membrane_app_bitcoin_new.Parser.Fixed.{Fixes, parser_run-Fixes}
use membrane_app_bitcoin_new.Rawtx.{Rawtx, RawtxState}
use membrane_app_bitcoin_new.Rawtx.Whole.{on_rawtx, sub_parser}

abbrev lift : RawtxState → Progress × Rawtx × List ℕ → Progress × RawtxState × List ℕ
lift s (p, t, r) = (p, record s { rawtx = t }, r)

pub on_rawtx-Resumes : (step : ParsingStep Rawtx (List ℕ)) → Resumes step → Resumes (on_rawtx step)
unfolding on_rawtx
on_rawtx-Resumes step h s xs ys = go (step s.rawtx xs) (step s.rawtx (xs ++ ys)) (h s.rawtx xs ys)
  where
    go :
        (t u : Progress × Rawtx × List ℕ)
        → Continues step ys t u
        → Continues (on_rawtx step) ys (lift s t) (lift s u)
    go (incomplete, s', r) u c = ap (lift s) c
    go (completed, s', r) u c = ap (lift s) c
    go (failed, s', r) u c = ap (lift s) c

module _ {D : Type 0} (steps : List (ParsingStep Rawtx D)) (count : Rawtx → Rawtx) where
  abbrev pub counted : Progress × ℕ × Rawtx × D → Progress × RawtxState × D
  counted (incomplete, k, s, r) = (incomplete, record { rawtx = s; sub_step = k }, r)
  counted (completed, k, s, r) = (completed, record { rawtx = count s; sub_step = 0 }, r)
  counted (failed, k, s, r) = (completed, record { rawtx = count s; sub_step = 0 }, r)

  pub sub_parser_lem :
      (s : RawtxState) (d : D)
      → sub_parser steps count s d ≡ counted (parser_run steps s.sub_step s.rawtx d)
  unfolding sub_parser
  sub_parser_lem s d = go (parser_run steps s.sub_step s.rawtx d)
    where
      go :
          (t : Progress × ℕ × Rawtx × D)
          → elim t.0 as (λ _. Progress × RawtxState × D) [
            | incomplete ↦ (incomplete, record { rawtx = t.2; sub_step = t.1 }, t.3)
            | completed ↦ (completed, record { rawtx = count t.2; sub_step = 0 }, t.3)
            | failed ↦ (completed, record { rawtx = count t.2; sub_step = 0 }, t.3)
          ]
            ≡ counted t
      go (incomplete, k, s', r) = refl
      go (completed, k, s', r) = refl
      go (failed, k, s', r) = refl

module _ (steps : List (ParsingStep Rawtx (List ℕ))) (count : Rawtx → Rawtx) where
  sub_parser-Resumes : All Resumes steps → Resumes (sub_parser steps count)
  sub_parser-Resumes h s xs ys =
      Continues-along (sub_parser steps count) ys (sub_parser_lem steps count s xs)
        (sub_parser_lem steps count s (xs ++ ys))
        (go (parser_run steps s.sub_step s.rawtx xs)
          (parser_run steps s.sub_step s.rawtx (xs ++ ys))
          (parser_run-Resumes steps s.sub_step s.rawtx xs ys h))
    where
      go :
          (t u : Progress × ℕ × Rawtx × List ℕ)
          → RunContinues (parser_run steps) ys t u
          → Continues (sub_parser steps count) ys (counted steps count t) (counted steps count u)
      go (incomplete, k, s', r) u c =
          ap (counted steps count) c
          ∙ sym (sub_parser_lem steps count (record { rawtx = s'; sub_step = k }) (r ++ ys))
      go (completed, k, s', r) u c = ap (counted steps count) c
      go (failed, k, s', r) u c = ap (counted steps count) c

  -- A new sub-parser reads something; one that is taken up again need not.
  abbrev reads : ℕ → RawtxState → ℕ
  reads n s = if s.sub_step == 0 then n else 0

  abbrev taken_up : RawtxState → ℕ
  taken_up s = if s.sub_step == 0 then 0 else 1

  sub_parser-Consumes :
      (n : ℕ)
      → All (Consumes (λ s. 0)) steps
      → ((s : Rawtx) (xs : List ℕ) → RunShorter n (length xs) (parser_run steps 0 s xs))
      → Consumes (reads n) (sub_parser steps count)
  sub_parser-Consumes n h first s xs =
      subst (Shorter (reads n s) (length xs)) (sym (sub_parser_lem steps count s xs))
        (elim (Bool-cases (s.sub_step == 0)) [
          | inl e ↦ rw e (
              go n (parser_run steps s.sub_step s.rawtx xs) (
                subst (λ k. RunShorter n (length xs) (parser_run steps k s.rawtx xs))
                  (sym ((==_iff s.sub_step 0).0 e)) (first s.rawtx xs)))
          | inr e ↦ rw e (
              go 0 (parser_run steps s.sub_step s.rawtx xs)
                (parser_run_shorter steps s.sub_step s.rawtx xs h))
        ])
    where
      go :
          (m : ℕ) (t : Progress × ℕ × Rawtx × List ℕ)
          → RunShorter m (length xs) t
          → Shorter m (length xs) (counted steps count t)
      go m (incomplete, k, s', r) l = l
      go m (completed, k, s', r) l = l
      go m (failed, k, s', r) l = l

  module _ (test : RawtxState → Bool) (same : Rawtx → Bool)
      (test_of : (s : RawtxState) → test s ≡ same s.rawtx) (fixed : All (Fixes same) steps) where
    stays :
        (s : RawtxState) (xs : List ℕ)
        → test s ≡ true
        → AtStop (λ s'. test s' ≡ true) (sub_parser steps count s xs)
    stays s xs e = subst (AtStop (λ s'. test s' ≡ true)) (sym (sub_parser_lem steps count s xs)) (
        go (parser_run steps s.sub_step s.rawtx xs)
          (parser_run-Fixes same steps s.sub_step s.rawtx xs fixed))
      where
        go :
            (t : Progress × ℕ × Rawtx × List ℕ)
            → same t.2 ≡ same s.rawtx
            → AtStop (λ s'. test s' ≡ true) (counted steps count t)
        go (incomplete, k, s', r) f =
            test_of (record { rawtx = s'; sub_step = k }) ∙ f ∙ sym (test_of s) ∙ e
        go (completed, k, s', r) f = tt
        go (failed, k, s', r) f = tt

    lighter :
        (n : ℕ) (s : RawtxState) (xs : List ℕ)
        → 1 ≤ n
        → AtDone (λ s'. taken_up s' < 2 * reads n s + taken_up s) (sub_parser steps count s xs)
    lighter n s xs pos =
        subst (AtDone (λ s'. taken_up s' < 2 * reads n s + taken_up s))
          (sym (sub_parser_lem steps count s xs)) (go (parser_run steps s.sub_step s.rawtx xs))
      where
        go :
            (t : Progress × ℕ × Rawtx × List ℕ)
            → AtDone (λ s'. taken_up s' < 2 * reads n s + taken_up s) (counted steps count t)
        go (incomplete, k, s', r) = tt
        go (completed, k, s', r) = ground arith
        go (failed, k, s', r) = ground arith

    -- The loop over all inputs or all outputs.
    pub sub_parsers-Resumes :
        (n : ℕ)
        → 1 ≤ n
        → All Resumes steps
        → All (Consumes (λ s. 0)) steps
        → ((s : Rawtx) (xs : List ℕ) → RunShorter n (length xs) (parser_run steps 0 s xs))
        → Resumes (run_loop unread (while_body test (sub_parser steps count)))
    sub_parsers-Resumes n pos h k first =
        while-Resumes test (sub_parser steps count) (reads n) taken_up (λ s. ground arith)
          (sub_parser-Consumes n k first) (λ s xs e. lighter n s xs pos) (sub_parser-Resumes h)
          stays

    pub sub_parsers-Lowers :
        (n : ℕ)
        → 1 ≤ n
        → All (Consumes (λ s. 0)) steps
        → ((s : Rawtx) (xs : List ℕ) → RunShorter n (length xs) (parser_run steps 0 s xs))
        → Lowers (while_body test (sub_parser steps count))
    sub_parsers-Lowers n pos k first =
        while-Lowers test (sub_parser steps count) (reads n) taken_up (λ s. ground arith)
          (sub_parser-Consumes n k first) (λ s xs e. lighter n s xs pos)
