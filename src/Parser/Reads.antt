-- ===== src/Parser/Reads.antt =====
-- The steps that read, over the plain list of unread bytes, and their interruptions.
use native.Mathlib.Decide.{dec_lt}
use mathlib.Core.Path.{subst, ap₂}
use membrane_app_bitcoin_new.Common.{
  ℕ, zero, suc, ◌+◌, ◌≤◌, ◌<◌, ◌≡◌, ◌∙◌, refl, sym, ap, arith, List, [], ◌∷◌, ◌++◌, length,
  length-append, length-drop, take, drop, take_le, drop_le, get_or, none, some, Option-cases,
  le→leb, gt→leb, Bool, true, false, inl, inr, if◌then◌else◌,
}
use membrane_app_bitcoin_new.Bytes.{read_u16_le, read_u32_le, read_u64_le}
use membrane_app_bitcoin_new.Varint.{varint_read}
use membrane_app_bitcoin_new.Varint.RoundTrip.{varint_read-len}
use membrane_app_bitcoin_new.Parser.{Progress, failed, incomplete, completed, ParsingStep}
use membrane_app_bitcoin_new.Parser.Stream.{unread}
use membrane_app_bitcoin_new.Parser.Stepwise.{read_then, read_varint_then}
use membrane_app_bitcoin_new.Parser.Forms.{AtStop, AtDone}
use membrane_app_bitcoin_new.Parser.Resume.{Continues, Continues-along, Resumes, Shorter, Consumes}

module _ {S : Type 0} (size : S → ℕ) (use_bytes : List ℕ → S → Bool × S) where
  abbrev pub read_outcome : Bool × S → List ℕ → Progress × S × List ℕ
  read_outcome (accepted, s) r = (if accepted then completed else failed, s, r)

  pub read_enough :
      (s : S) (xs : List ℕ)
      → size s ≤ length xs
      → read_then unread size use_bytes s xs
        ≡ read_outcome (use_bytes (take (size s) xs) s) (drop (size s) xs)
  unfolding read_then
  read_enough s xs h = rw (le→leb (size s) (length xs) h, read_then) refl

  pub read_few :
      (s : S) (xs : List ℕ)
      → length xs < size s
      → read_then unread size use_bytes s xs ≡ (incomplete, s, xs)
  unfolding read_then
  read_few s xs h = rw (gt→leb (size s) (length xs) h, read_then) refl

  read_outcome-Continues :
      (step : ParsingStep S (List ℕ)) (t : Bool × S) (r ys : List ℕ)
      → Continues step ys (read_outcome t r) (read_outcome t (r ++ ys))
  read_outcome-Continues step (true, s) r ys = refl
  read_outcome-Continues step (false, s) r ys = refl

  pub read_then-Resumes : Resumes (read_then unread size use_bytes)
  read_then-Resumes s xs ys = elim (dec_lt (length xs) (size s)) [
    | yes few ↦ Continues-along (read_then unread size use_bytes) ys (read_few s xs few) refl refl
    | no h ↦
        let enough : size s ≤ length xs = omega arith in
        Continues-along (read_then unread size use_bytes) ys (read_enough s xs enough)
          (read_enough s (xs ++ ys) (omega (arith, length-append xs ys))
            ∙ ap₂ (λ a b. read_outcome (use_bytes a s) b) (take_le (size s) xs ys enough)
                (drop_le (size s) xs ys enough))
          (read_outcome-Continues (read_then unread size use_bytes) (use_bytes (take (size s) xs) s)
            (drop (size s) xs) ys)
  ]

  read_outcome-Shorter :
      (n l : ℕ) (t : Bool × S) (r : List ℕ) → length r + n ≤ l → Shorter n l (read_outcome t r)
  read_outcome-Shorter n l (true, s) r h = h
  read_outcome-Shorter n l (false, s) r h = h

  pub read_then-Consumes : Consumes size (read_then unread size use_bytes)
  read_then-Consumes s xs = elim (dec_lt (length xs) (size s)) [
    | yes few ↦ subst (Shorter (size s) (length xs)) (sym (read_few s xs few)) (omega arith)
    | no h ↦ subst (Shorter (size s) (length xs)) (sym (read_enough s xs (omega arith))) (
        read_outcome-Shorter (size s) (length xs) (use_bytes (take (size s) xs) s)
          (drop (size s) xs) (omega (arith, length-drop (size s) xs)))
  ]

  read_outcome-AtDone :
      (Q : S → Type 0) (t : Bool × S) (r : List ℕ)
      → (t.0 ≡ true → Q t.1)
      → AtDone Q (read_outcome t r)
  read_outcome-AtDone Q (true, s) r h = h refl
  read_outcome-AtDone Q (false, s) r h = tt

  read_outcome-AtStop : (P : S → Type 0) (t : Bool × S) (r : List ℕ) → AtStop P (read_outcome t r)
  read_outcome-AtStop P (true, s) r = tt
  read_outcome-AtStop P (false, s) r = tt

  -- The state is as before where the step stops, and one that `use_bytes` returns where it is done.
  pub read_then-AtDone :
      (Q : S → Type 0) (s : S) (xs : List ℕ)
      → ((bytes : List ℕ) → (use_bytes bytes s).0 ≡ true → Q (use_bytes bytes s).1)
      → AtDone Q (read_then unread size use_bytes s xs)
  read_then-AtDone Q s xs h = elim (dec_lt (length xs) (size s)) [
    | yes few ↦ subst (AtDone Q) (sym (read_few s xs few)) tt
    | no k ↦ subst (AtDone Q) (sym (read_enough s xs (omega arith))) (
        read_outcome-AtDone Q (use_bytes (take (size s) xs) s) (drop (size s) xs)
          (h (take (size s) xs)))
  ]

  pub read_then-AtStop :
      (P : S → Type 0) (s : S) (xs : List ℕ) → P s → AtStop P (read_then unread size use_bytes s xs)
  read_then-AtStop P s xs h = elim (dec_lt (length xs) (size s)) [
    | yes few ↦ subst (AtStop P) (sym (read_few s xs few)) h
    | no k ↦
        subst (AtStop P) (sym (read_enough s xs (omega arith)))
          (read_outcome-AtStop P (use_bytes (take (size s) xs) s) (drop (size s) xs))
  ]

head_more : (xs ys : List ℕ) (i : ℕ) → i < length xs → get_or (xs ++ ys) i 0 ≡ get_or xs i 0
head_more [] ys i h = absurd (omega arith)
head_more (x ∷ xs) ys zero h = refl
head_more (x ∷ xs) ys (suc i) h = head_more xs ys i (omega arith)

-- More bytes behind an encoding make no difference.
varint_read-append :
    (xs ys : List ℕ) {len value : ℕ}
    → varint_read xs (length xs) ≡ some (len, value)
    → varint_read (xs ++ ys) (length (xs ++ ys)) ≡ some (len, value)
unfolding varint_read read_u16_le read_u32_le read_u64_le
varint_read-append xs ys e = ground (
  arith,
  length-append xs ys,
  head_more xs ys 0,
  head_more xs ys 1,
  head_more xs ys 2,
  head_more xs ys 3,
  head_more xs ys 4,
  head_more xs ys 5,
  head_more xs ys 6,
  head_more xs ys 7,
  head_more xs ys 8,
)

module _ {S : Type 0} (use_value : ℕ → S → S) where
  pub read_value :
      (s : S) (xs : List ℕ) {len value : ℕ}
      → varint_read xs (length xs) ≡ some (len, value)
      → read_varint_then unread use_value s xs ≡ (completed, use_value value s, drop len xs)
  unfolding read_varint_then
  read_value s xs e = rw (e, read_varint_then) refl

  pub read_no_value :
      (s : S) (xs : List ℕ)
      → varint_read xs (length xs) ≡ none
      → read_varint_then unread use_value s xs ≡ (incomplete, s, xs)
  unfolding read_varint_then
  read_no_value s xs e = rw (e, read_varint_then) refl

  pub read_varint_then-Resumes : Resumes (read_varint_then unread use_value)
  read_varint_then-Resumes s xs ys = elim (Option-cases (varint_read xs (length xs))) [
    | inl e ↦
        Continues-along (read_varint_then unread use_value) ys (read_no_value s xs e) refl refl
    | inr ((len, value), e) ↦
        Continues-along (read_varint_then unread use_value) ys (read_value s xs e)
          (read_value s (xs ++ ys) (varint_read-append xs ys e)
            ∙ ap (λ r. (completed, use_value value s, r))
                (drop_le len xs ys (varint_read-len xs (length xs) len value e).1))
          refl
  ]

  pub read_varint_then-Consumes : Consumes (λ s. 1) (read_varint_then unread use_value)
  read_varint_then-Consumes s xs = elim (Option-cases (varint_read xs (length xs))) [
    | inl e ↦ subst (Shorter 1 (length xs)) (sym (read_no_value s xs e)) (omega arith)
    | inr ((len, value), e) ↦
        let bound = varint_read-len xs (length xs) len value e in
        subst (Shorter 1 (length xs)) (sym (read_value s xs e))
          (omega (arith, bound.0, bound.1, length-drop len xs))
  ]

  pub read_varint_then-AtDone :
      (Q : S → Type 0) (s : S) (xs : List ℕ)
      → ((value : ℕ) → Q (use_value value s))
      → AtDone Q (read_varint_then unread use_value s xs)
  read_varint_then-AtDone Q s xs h = elim (Option-cases (varint_read xs (length xs))) [
    | inl e ↦ subst (AtDone Q) (sym (read_no_value s xs e)) tt
    | inr ((len, value), e) ↦ subst (AtDone Q) (sym (read_value s xs e)) (h value)
  ]

  pub read_varint_then-AtStop :
      (P : S → Type 0) (s : S) (xs : List ℕ)
      → P s
      → AtStop P (read_varint_then unread use_value s xs)
  read_varint_then-AtStop P s xs h = elim (Option-cases (varint_read xs (length xs))) [
    | inl e ↦ subst (AtStop P) (sym (read_no_value s xs e)) h
    | inr ((len, value), e) ↦ subst (AtStop P) (sym (read_value s xs e)) tt
  ]
