-- ===== src/Rawtx/Segwit.antt =====
-- `parse_rawtx_check_segwit` of psbt_parse_rawtx.c, over the plain list of unread bytes.
use membrane_app_bitcoin_new.Parser.Reads.{read_enough}
use membrane_app_bitcoin_new.Parser.Stream.{unread}
use membrane_app_bitcoin_new.Parser.Stepwise.{read_then}
use membrane_app_bitcoin_new.Parser.Resume.{Continues-along, Continues, Resumes}
use membrane_app_bitcoin_new.Rawtx.{Rawtx}
use membrane_app_bitcoin_new.Rawtx.Whole.{check_flag, check_segwit}
use membrane_app_bitcoin_new.Common.{
  Bool-cases, arith, length, le→ltb, ◌==◌, ℕ, suc, List, [], ◌∷◌, Bool, true, false, inl, inr, ◌≡◌,
  ◌∙◌, refl, ◌++◌,
}
use membrane_app_bitcoin_new.Parser.{Progress, failed, incomplete, completed}

-- The marker without the flag behind it is not enough.
pub marker_only :
    (s : Rawtx) (x : ℕ) → (x == 0) ≡ true → check_segwit unread s (x ∷ []) ≡ (incomplete, s, x ∷ [])
unfolding check_segwit check_flag read_then
marker_only s x e = rw e refl

pub no_marker :
    (s : Rawtx) (x : ℕ) (xs : List ℕ)
    → (x == 0) ≡ false
    → check_segwit unread s (x ∷ xs) ≡ (completed, record s { is_segwit = false }, x ∷ xs)
unfolding check_segwit
no_marker s x xs e = rw (e, le→ltb (suc (length xs)) 1 (omega arith)) refl

abbrev pub flagged : Rawtx → Bool → List ℕ → Progress × Rawtx × List ℕ
flagged s true xs = (completed, record s { is_segwit = true }, xs)
flagged s false xs = (failed, s, xs)

flag_read :
    (s : Rawtx) (x y : ℕ) (xs : List ℕ) → check_flag unread s (x ∷ y ∷ xs) ≡ flagged s (y == 1) xs
unfolding check_flag
flag_read s x y xs =
    read_enough (λ s'. 2) _ s (x ∷ y ∷ xs) (omega arith)
    ∙ elim (Bool-cases (y == 1)) [ inl k ↦ rw k refl | inr k ↦ rw k refl ]

pub marker_and_flag :
    (s : Rawtx) (x y : ℕ) (xs : List ℕ)
    → (x == 0) ≡ true
    → check_segwit unread s (x ∷ y ∷ xs) ≡ flagged s (y == 1) xs
unfolding check_segwit
marker_and_flag s x y xs e =
    rw (e, le→ltb (suc (suc (length xs))) 1 (omega arith)) (flag_read s x y xs)

flagged-Continues :
    (s : Rawtx) (b : Bool) (xs ys : List ℕ)
    → Continues (check_segwit unread) ys (flagged s b xs) (flagged s b (xs ++ ys))
flagged-Continues s true xs ys = refl
flagged-Continues s false xs ys = refl

pub check_segwit-Resumes : Resumes (check_segwit unread)
check_segwit-Resumes s [] ys = unfold check_segwit in refl
check_segwit-Resumes s (x ∷ xs) ys = elim (Bool-cases (x == 0)) [
  | inl e ↦ go xs e
  | inr e ↦
      Continues-along (check_segwit unread) ys (no_marker s x xs e) (no_marker s x (xs ++ ys) e)
        refl
]
  where
    go :
        (r : List ℕ)
        → (x == 0) ≡ true
        → Continues
            (check_segwit unread)
            ys
            (check_segwit unread s (x ∷ r))
            (check_segwit unread s (x ∷ r ++ ys))
    go [] e = Continues-along (check_segwit unread) ys (marker_only s x e) refl refl
    go (y ∷ r) e =
        Continues-along (check_segwit unread) ys (marker_and_flag s x y r e)
          (marker_and_flag s x y (r ++ ys) e) (flagged-Continues s (y == 1) r ys)
