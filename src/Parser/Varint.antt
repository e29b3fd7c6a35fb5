-- ===== src/Parser/Varint.antt =====
-- `dbuffer_read_varint` of common/parser.c, in terms of the concatenation of the two buffers.
use membrane_app_bitcoin_new.Common.{
  ℕ, zero, suc, List, [], ◌∷◌, ◌++◌, ◌+◌, ◌-◌, ◌≤◌, ◌≡◌, ◌∙◌, sym, ap, arith, refl, length, take,
  drop, some, none, All, get_or, get_or-drop, replicate, min, length-append, length-drop,
  length-take, All-take, All-drop, All-append,
}
use mathlib.Core.Path.{ap₂, subst}
use membrane_app_bitcoin_new.Bytes.{read_u64_le}
use membrane_app_bitcoin_new.Bytes.Value.{IsByte, le_value, get_or-IsByte}
use membrane_app_bitcoin_new.Bytes.Read.{read_u16_le-value, read_u32_le-value, read_u64_le-value}
use membrane_app_bitcoin_new.Varint.{varint_read}
use membrane_app_bitcoin_new.Buffer.{Buffer, copy_to, buffer_can_read}
use membrane_app_bitcoin_new.Buffer.Inv.{left_lem}
use membrane_app_bitcoin_new.Buffer.Content.{content, length-content, skip, content-skip}
use membrane_app_bitcoin_new.Buffer.Steps.{skip-IsValid}
use membrane_app_bitcoin_new.Parser.{
  Buffers, read_tmp, peek_first, read_rest_of_varint, dbuffer_read_u8, dbuffer_read_varint,
  dbuffer_can_read, varint_len,
}
use membrane_app_bitcoin_new.Parser.Concat.{
  IsValidPair, contents, advance, get_length_lem, dbuffer_read_bytes_lem,
}

read_tmp_lem :
    (d : Buffers) (n : ℕ)
    → IsValidPair d
    → n ≤ length (contents d)
    → read_tmp d n ≡ (take n (contents d), advance d n)
unfolding read_tmp
read_tmp_lem d n v h = rw ((dbuffer_read_bytes_lem d n v).0, read_tmp) (ground arith)

head_take : (xs : List ℕ) → get_or (take 1 xs) 0 0 ≡ get_or xs 0 0
head_take [] = refl
head_take (x ∷ xs) = refl

read_u8_lem :
    (d : Buffers)
    → IsValidPair d
    → 1 ≤ length (contents d)
    → dbuffer_read_u8 d ≡ some (get_or (contents d) 0 0, advance d 1)
unfolding dbuffer_read_u8
read_u8_lem d v h =
    rw ((dbuffer_read_bytes_lem d 1 v).0, dbuffer_read_u8) (ground (arith, head_take (contents d)))

head_append : (xs ys : List ℕ) → 1 ≤ length xs → get_or (xs ++ ys) 0 0 ≡ get_or xs 0 0
head_append [] ys h = absurd (omega arith)
head_append (x ∷ xs) ys h = refl

head_some : (n : ℕ) (xs : List ℕ) → 1 ≤ n → get_or (take n xs) 0 0 ≡ get_or xs 0 0
head_some zero xs h = absurd (omega arith)
head_some (suc n) [] h = refl
head_some (suc n) (x ∷ xs) h = refl

head_content :
    (b : Buffer) → 1 ≤ b.size - b.offset → get_or b.ptr b.offset 0 ≡ get_or (content b) 0 0
head_content b h =
    ap (λ k. get_or b.ptr k 0) (omega arith)
    ∙ get_or-drop b.ptr b.offset 0 0
    ∙ sym (head_some (b.size - b.offset) (drop b.offset b.ptr) h)

head_second : (xs ys : List ℕ) → length xs ≡ 0 → get_or (xs ++ ys) 0 0 ≡ get_or ys 0 0
head_second [] ys h = refl
head_second (x ∷ xs) ys h = absurd (omega arith)

pub peek_lem :
    (d : Buffers) → IsValidPair d → 1 ≤ length (contents d) → peek_first d ≡ get_or (contents d) 0 0
unfolding peek_first buffer_can_read
peek_lem d v h = ground (
  arith,
  left_lem v.first,
  length-content v.first,
  length-content v.second,
  length-append (content d.first) (content d.second),
  head_content d.first,
  head_content d.second,
  head_append (content d.first) (content d.second),
  head_second (content d.first) (content d.second),
)

length-skip : (b : Buffer) (n : ℕ) → length (content (skip b n)) ≡ length (content b) - n
length-skip b n = ap length (content-skip b n) ∙ length-drop n (content b)

pub advance-IsValid :
    (d : Buffers) (n : ℕ) → IsValidPair d → n ≤ length (contents d) → IsValidPair (advance d n)
advance-IsValid d n v h = record {
  first =
      skip-IsValid d.first (min n (length (content d.first))) v.first
        (omega (arith, length-content v.first));
  second =
      skip-IsValid d.second (n - length (content d.first)) v.second (
        omega (arith, length-content v.second, length-append (content d.first) (content d.second)));
  small =
      omega
        (arith, v.small, ap length (dbuffer_read_bytes_lem d n v).1, length-drop n (contents d));
}

abbrev at_offsets : Buffers → ℕ → ℕ → Buffers
at_offsets d a b = record {
  first = record d.first { offset = a };
  second = record d.second { offset = b };
}

advance-advance : (d : Buffers) (m n : ℕ) → advance (advance d m) n ≡ advance d (m + n)
advance-advance d m n =
    ap₂ (λ a b. at_offsets d a b)
      (omega (arith, length-skip d.first (min m (length (content d.first)))))
      (omega (arith, length-skip d.first (min m (length (content d.first)))))

le_value-zeros : (k : ℕ) → le_value (replicate k 0) ≡ 0
le_value-zeros zero = refl
le_value-zeros (suc k) = omega (arith, le_value-zeros k)

le_value-append_zeros : (bs : List ℕ) (k : ℕ) → le_value (bs ++ replicate k 0) ≡ le_value bs
le_value-append_zeros [] k = le_value-zeros k
le_value-append_zeros (b ∷ bs) k = omega (arith, le_value-append_zeros bs k)

zeros-IsByte : (k : ℕ) → All IsByte (replicate k 0)
zeros-IsByte zero = tt
zeros-IsByte (suc k) = (omega arith, zeros-IsByte k)

length-zeros : (k : ℕ) → length {A = ℕ} (replicate k 0) ≡ k
length-zeros zero = refl
length-zeros (suc k) = ap suc (length-zeros k)

drop-zeros : (n k m : ℕ) → n + k ≡ m → drop n (replicate {A = ℕ} m 0) ≡ replicate k 0
drop-zeros zero k m e = ap (λ t. replicate t 0) (omega arith)
drop-zeros (suc n) k zero e = absurd (omega arith)
drop-zeros (suc n) k (suc m) e = drop-zeros n k m (omega arith)

take_whole : (xs : List ℕ) (n : ℕ) → length xs ≡ n → take n xs ≡ xs
take_whole [] zero e = refl
take_whole [] (suc n) e = refl
take_whole (x ∷ xs) zero e = absurd (omega arith)
take_whole (x ∷ xs) (suc n) e = ap (λ t. x ∷ t) (take_whole xs n (omega arith))

-- The zeroed array after some bytes were copied to its start, read as a 64-bit word.
padded_word :
    (out : List ℕ)
    → All IsByte out
    → length out ≤ 8
    → read_u64_le (copy_to (replicate 8 0) 0 out) 0 ≡ le_value out
unfolding copy_to
padded_word out h fits =
    let pad : List ℕ = replicate (8 - length out) 0 in
    let whole = length-append out pad in
    let zeros = length-zeros (8 - length out) in
    let arr : copy_to (replicate 8 0) 0 out ≡ out ++ pad =
      ap (λ t. out ++ t) (drop-zeros (0 + length out) (8 - length out) 8 (omega arith)) in
    let all : take 8 (out ++ pad) ≡ out ++ pad =
      take_whole (out ++ pad) 8 (omega (arith, whole, zeros)) in
    ap (λ t. read_u64_le t 0) arr
    ∙ read_u64_le-value (out ++ pad) 0 (All-append IsByte out pad h (zeros-IsByte (8 - length out)))
        (omega (arith, whole, zeros))
    ∙ ap le_value all
    ∙ le_value-append_zeros out (8 - length out)

word_lem :
    (d : Buffers) (len : ℕ)
    → IsValidPair d
    → All IsByte (contents d)
    → len ≤ 8
    → len ≤ length (contents d)
    → read_rest_of_varint d len ≡ (le_value (take len (contents d)), advance d len)
unfolding read_rest_of_varint
word_lem d len v h small fits =
    let out = take len (contents d) in
    let r = read_tmp_lem d len v fits in
    rw (r, read_rest_of_varint)
      (ap (λ w. (w, advance d len))
        (padded_word out (All-take IsByte len (contents d) h)
          (omega (arith, length-take len (contents d)))))

behind_prefix :
    (d : Buffers) (len : ℕ)
    → IsValidPair d
    → All IsByte (contents d)
    → len ≤ 8
    → 1 + len ≤ length (contents d)
    → read_rest_of_varint (advance d 1) len
      ≡ (le_value (take len (drop 1 (contents d))), advance d (1 + len))
behind_prefix d len v h small fits =
    let moved : contents (advance d 1) ≡ drop 1 (contents d) = (dbuffer_read_bytes_lem d 1 v).1 in
    word_lem (advance d 1) len (advance-IsValid d 1 v (omega arith))
      (subst (All IsByte) (sym moved) (All-drop IsByte 1 (contents d) h)) small
      (omega (arith, ap length moved, length-drop 1 (contents d)))
    ∙ ap₂ (λ t e. (le_value (take len t), e)) moved (advance-advance d 1 len)

-- `dbuffer_read_varint` on two valid buffers of bytes, with fewer than 2^32 of them unread, is
-- `varint_read` on the concatenation of what is unread in them: it returns the same integer and steps
-- over the bytes of its encoding, wherever the encoding is cut in two, or fails where that fails.
pub dbuffer_read_varint_lem :
    (d : Buffers)
    → IsValidPair d
    → All IsByte (contents d)
    → dbuffer_read_varint d ≡ elim (varint_read (contents d) (length (contents d))) [
      | none ↦ none
      | some (len, value) ↦ some (value, advance d len)
    ]
unfolding dbuffer_read_varint dbuffer_can_read varint_len varint_read
dbuffer_read_varint_lem d v h =
    let c = contents d in
    ground (
      arith,
      get_length_lem d v,
      read_u8_lem d v,
      peek_lem d v,
      get_or-IsByte c 0 h,
      behind_prefix d 2 v h,
      behind_prefix d 4 v h,
      behind_prefix d 8 v h,
      read_u16_le-value c 1 h,
      read_u32_le-value c 1 h,
      read_u64_le-value c 1 h,
    )
