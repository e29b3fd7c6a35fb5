-- ===== src/Policy/Number/Decimal.antt =====
-- `parse_unsigned_decimal` of common/wallet.c on a decimal numeral.
use membrane_app_bitcoin_new.Buffer.Content.{content-skip, length-content, skip, content}
use membrane_app_bitcoin_new.Buffer.Inv.{seek_cur_within, left_lem, IsValid}
use membrane_app_bitcoin_new.Policy.Number.{
  some_digits, digit_loop, is_digit, parse_unsigned_decimal,
}
use membrane_app_bitcoin_new.Buffer.{left, buffer_can_read, buffer_peek_n, Buffer, buffer_peek}
use membrane_app_bitcoin_new.Common.{
  drop, get_or-drop, length-append, le→ltb, gt→leb, le→leb, ltb, sym, ◌%◌, ◌∙◌, ==_iff, length, ◌^◌,
  Bool-cases, ap, ◌++◌, ◌<◌, arith, get_or, ◌&&◌, ◌-◌, All, take, ◌*◌, ◌==◌, ◌≡◌, ◌≤◌, List, ◌+◌, ℕ,
  zero, suc, none, some, true, false, [], ◌∷◌, refl, inl, inr,
}

-- The number that some digits continue.
abbrev pub value_of : ℕ → List ℕ → ℕ
value_of r [] = r
value_of r (c ∷ ds) = value_of (10 * r + (c - 48)) ds

-- Digits with no leading zero.
abbrev pub IsNumeral : List ℕ → Type 0
IsNumeral [] = ⊥
IsNumeral (c ∷ ds) = All (λ d. is_digit d ≡ true) (c ∷ ds) × (c ≡ 48 → ds ≡ [])

-- Bytes that do not start with a digit.
abbrev pub NoDigit : List ℕ → Type 0
NoDigit [] = Unit
NoDigit (c ∷ cs) = is_digit c ≡ false

value_of-ge : (r : ℕ) (ds : List ℕ) → r ≤ value_of r ds
value_of-ge r [] = omega arith
value_of-ge r (c ∷ ds) = omega (arith, value_of-ge (10 * r + (c - 48)) ds)

head_take : (n : ℕ) (xs : List ℕ) (c : ℕ) (cs : List ℕ) → take n xs ≡ c ∷ cs → get_or xs 0 0 ≡ c
head_take zero xs c cs e = absurd (cc e)
head_take (suc n) [] c cs e = absurd (cc e)
head_take (suc n) (x ∷ xs) c cs e = ap (λ l. get_or l 0 0) e

peek_some :
    (b : Buffer) (c : ℕ) (cs : List ℕ) → IsValid b → content b ≡ c ∷ cs → buffer_peek b ≡ some c
unfolding buffer_peek buffer_peek_n buffer_can_read
peek_some b c cs v e =
    let more : 1 ≤ left b = omega (arith, ap length e, length-content v, left_lem v) in
    let here : (b.offset + 0) % 2 ^ 32 ≡ b.offset + 0 = omega (arith, v.within, v.small) in
    rw (le→leb 1 (left b) more, here)
      (ap some (
        get_or-drop b.ptr b.offset 0 0
        ∙ head_take (b.size - b.offset) (drop b.offset b.ptr) c cs e))

peek_none : (b : Buffer) → IsValid b → content b ≡ [] → buffer_peek b ≡ none
unfolding buffer_peek buffer_peek_n buffer_can_read
peek_none b v e =
    let none_left : left b < 1 = omega (arith, ap length e, length-content v, left_lem v) in
    rw (gt→leb 1 (left b) none_left) refl

-- One digit that is not refused.
one_digit :
    (fuel : ℕ) (b : Buffer) (r d c : ℕ) (cs : List ℕ)
    → IsValid b
    → content b ≡ c ∷ cs
    → is_digit c ≡ true
    → ((d + 1 == 2) && (r == 0)) ≡ false
    → 10 * r + (c - 48) < 2 ^ 32
    → digit_loop (suc fuel) b r d ≡ digit_loop fuel (skip b 1) (10 * r + (c - 48)) (d + 1)
unfolding digit_loop
one_digit fuel b r d c cs v e digit lead small =
    let r1 : (10 * r + (c - 48)) % 2 ^ 32 ≡ 10 * r + (c - 48) = omega arith in
    let grows : ltb (10 * r + (c - 48)) r ≡ false = le→ltb (10 * r + (c - 48)) r (omega arith) in
    let room : 1 ≤ b.size - b.offset = omega (arith, ap length e, length-content v) in
    rw (digit_loop, peek_some b c cs v e, digit, lead, r1, grows, seek_cur_within b 1 v room) refl

skip-IsValid :
    (b : Buffer) (c : ℕ) (cs : List ℕ) → IsValid b → content b ≡ c ∷ cs → IsValid (skip b 1)
skip-IsValid b c cs v e = record {
  within = omega (arith, ap length e, length-content v);
  backed = v.backed;
  small = v.small;
}

stops :
    (fuel : ℕ) (b : Buffer) (r d : ℕ) (rest : List ℕ)
    → IsValid b
    → content b ≡ rest
    → NoDigit rest
    → digit_loop (suc fuel) b r d ≡ some (r, d, b)
unfolding digit_loop
stops fuel b r d [] v e h = rw (digit_loop, peek_none b v e) refl
stops fuel b r d (c ∷ cs) v e h = rw (digit_loop, peek_some b c cs v e, h) refl

add_zero_digits : (d : ℕ) → d + 0 ≡ d
add_zero_digits d = omega arith

next_count : (d n : ℕ) → d + 1 + n ≡ d + suc n
next_count d n = omega arith

second_digit :
    (d r c : ℕ) (ds : List ℕ) → (d ≡ 1 → r ≡ 0 → c ∷ ds ≡ []) → ((d + 1 == 2) && (r == 0)) ≡ false
second_digit d r c ds lead = elim (Bool-cases (d + 1 == 2)) [
  | inr e ↦ rw e refl
  | inl e ↦ elim (Bool-cases (r == 0)) [
    | inr f ↦ rw (e, f) refl
    | inl f ↦ absurd (cc (lead (omega (arith, (==_iff (d + 1) 2).0 e)) ((==_iff r 0).0 f)))
  ]
]

more_digits :
    (ds rest : List ℕ) (fuel : ℕ) (b : Buffer) (r d : ℕ)
    → IsValid b
    → content b ≡ ds ++ rest
    → All (λ c. is_digit c ≡ true) ds
    → NoDigit rest
    → 1 ≤ d
    → (d ≡ 1 → r ≡ 0 → ds ≡ [])
    → value_of r ds < 2 ^ 32
    → length ds < fuel
    → digit_loop fuel b r d ≡ some (value_of r ds, d + length ds, skip b (length ds))
more_digits ds rest zero b r d v e digits other read lead small enough = absurd (omega arith)
more_digits [] rest (suc fuel) b r d v e digits other read lead small enough =
    rw (add_zero_digits d, add_zero_digits b.offset) (stops fuel b r d rest v e other)
more_digits (c ∷ ds) rest (suc fuel) b r d v e (digit, digits) other read lead small enough =
    let guard : ((d + 1 == 2) && (r == 0)) ≡ false = second_digit d r c ds lead in
    let fits : 10 * r + (c - 48) < 2 ^ 32 = omega (arith, value_of-ge (10 * r + (c - 48)) ds) in
    one_digit fuel b r d c (ds ++ rest) v e digit guard fits
    ∙ more_digits ds rest fuel (skip b 1) (10 * r + (c - 48)) (d + 1)
        (skip-IsValid b c (ds ++ rest) v e) (content-skip b 1 ∙ ap (drop 1) e) digits other
        (omega arith) (λ two. absurd (omega (arith, two))) small (omega arith)
    ∙ rw (next_count d (length ds), next_count b.offset (length ds)) refl

is_zero : (c : ℕ) → is_digit c ≡ true → 10 * 0 + (c - 48) ≡ 0 → c ≡ 48
unfolding is_digit
is_zero c digit e = ground arith

not_none : (n : ℕ) → (1 + n == 0) ≡ false
not_none n = ground arith

fuel_suc : (n : ℕ) → n + 1 ≡ suc n
fuel_suc n = omega arith

-- On a valid buffer whose unread bytes are the digits of a numeral below 2 ^ 32 without leading
-- zeros, followed by nothing or by a byte that is no digit, parse_unsigned_decimal returns the
-- numeral's value and leaves the buffer after its last digit.
pub parse_unsigned_decimal-numeral :
    (b : Buffer) (ds rest : List ℕ)
    → IsValid b
    → content b ≡ ds ++ rest
    → IsNumeral ds
    → NoDigit rest
    → value_of 0 ds < 2 ^ 32
    → parse_unsigned_decimal b ≡ some (value_of 0 ds, skip b (length ds))
unfolding parse_unsigned_decimal
parse_unsigned_decimal-numeral b [] rest v e numeral other small = absurd numeral
parse_unsigned_decimal-numeral b (c ∷ ds) rest v e ((digit, digits), lead) other small =
    let all : left b ≡ suc (length ds + length rest) =
      left_lem v ∙ sym (length-content v) ∙ ap length e ∙ ap suc (length-append ds rest) in
    let fits : 10 * 0 + (c - 48) < 2 ^ 32 = omega (arith, value_of-ge (10 * 0 + (c - 48)) ds) in
    let first =
      one_digit (left b) b 0 0 c (ds ++ rest) v e digit refl fits
      ∙ more_digits ds rest (left b) (skip b 1) (10 * 0 + (c - 48)) 1
          (skip-IsValid b c (ds ++ rest) v e) (content-skip b 1 ∙ ap (drop 1) e) digits other
          (omega arith) (λ one_ zero_. lead (is_zero c digit zero_)) small (omega (arith, all)) in
    let counted : (1 + length ds == 0) ≡ false = not_none (length ds) in
    ap some_digits (ap (λ n. digit_loop n b 0 0) (fuel_suc (left b)) ∙ first)
    ∙ rw (counted, next_count b.offset (length ds)) refl
