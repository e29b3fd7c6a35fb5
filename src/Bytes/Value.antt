-- ===== src/Bytes/Value.antt =====
-- The integer that a list of bytes stands for, in either byte order, and what `read.c` reads.
use native.Mathlib.Nat.{div-add-mod, pow-suc, one-le-pow}
use membrane_app_bitcoin_new.Common.{
  ℕ, zero, suc, ◌≤◌, length, get_or, ◌+◌, ◌*◌, ◌/◌, ◌%◌, ◌^◌, ◌<◌, ◌≡◌, ◌∙◌, ap, arith, bit_or,
  List, [], ◌∷◌, All,
}
use membrane_app_bitcoin_new.Common.Bits.{bit_or_high, bit_or_low}
use membrane_app_bitcoin_new.Bytes.{shl}

abbrev pub IsByte : ℕ → Type 0
IsByte b = b < 256

-- Lowest byte first.
abbrev pub le_value : List ℕ → ℕ
le_value [] = 0
le_value (b ∷ bs) = b + 256 * le_value bs

-- Highest byte first; `acc` is what has been read.
abbrev pub be_value_from : ℕ → List ℕ → ℕ
be_value_from acc [] = acc
be_value_from acc (b ∷ bs) = be_value_from (acc * 256 + b) bs

abbrev pub be_value : List ℕ → ℕ
be_value = be_value_from 0

pub le_value-lt : (n : ℕ) (bs : List ℕ) → All IsByte bs → length bs ≤ n → le_value bs < 256 ^ n
le_value-lt n [] h fits = one-le-pow n 256 (omega arith)
le_value-lt zero (b ∷ bs) h fits = absurd (omega arith)
le_value-lt (suc n) (b ∷ bs) h fits =
    omega (arith, pow-suc 256 n, le_value-lt n bs h.1 (omega arith))

pub get_or-IsByte : (bs : List ℕ) (i : ℕ) → All IsByte bs → IsByte (get_or bs i 0)
get_or-IsByte [] i h = omega arith
get_or-IsByte (b ∷ bs) zero h = h.0
get_or-IsByte (b ∷ bs) (suc i) h = get_or-IsByte bs i h.1

-- One `|` of the read functions: a byte joined above, or a word joined below, what has been read.
or_above : (k acc b : ℕ) → acc < 2 ^ k → bit_or acc (shl b k) ≡ acc + b * 2 ^ k
or_above k acc b h = bit_or_low k b acc h

or_below : (k acc x : ℕ) → acc % 2 ^ k ≡ 0 → x < 2 ^ k → bit_or acc x ≡ acc + x
or_below k acc x e h =
    let whole : acc ≡ acc / 2 ^ k * 2 ^ k = omega (arith, div-add-mod acc (2 ^ k)) in
    ap (λ t. bit_or t x) whole ∙ bit_or_high k (acc / 2 ^ k) x h ∙ omega (arith, whole)

pub le16 : (a b : ℕ) → All IsByte (a ∷ b ∷ []) → bit_or (shl a 0) (shl b 8) ≡ le_value (a ∷ b ∷ [])
le16 a b h = rw (or_above 8 (a * 1) b (omega arith)) (omega arith)

pub le32 :
    (a b c d : ℕ)
    → All IsByte (a ∷ b ∷ c ∷ d ∷ [])
    → bit_or (bit_or (bit_or (shl a 0) (shl b 8)) (shl c 16)) (shl d 24)
      ≡ le_value (a ∷ b ∷ c ∷ d ∷ [])
le32 a b c d h =
    rw
      (
        or_above 8 (a * 1) b (omega arith),
        or_above 16 (a * 1 + b * 2 ^ 8) c (omega arith),
        or_above 24 (a * 1 + b * 2 ^ 8 + c * 2 ^ 16) d (omega arith),
      )
      (omega arith)

pub le64 :
    (a b c d e f g h : ℕ)
    → All IsByte (a ∷ b ∷ c ∷ d ∷ e ∷ f ∷ g ∷ h ∷ [])
    → bit_or
        (bit_or
          (bit_or
            (bit_or (bit_or (bit_or (bit_or (shl a 0) (shl b 8)) (shl c 16)) (shl d 24)) (shl e 32))
            (shl f 40))
          (shl g 48))
        (shl h 56)
      ≡ le_value (a ∷ b ∷ c ∷ d ∷ e ∷ f ∷ g ∷ h ∷ [])
le64 a b c d e f g h bytes =
    rw
      (
        or_above 8 (a * 1) b (omega arith),
        or_above 16 (a * 1 + b * 2 ^ 8) c (omega arith),
        or_above 24 (a * 1 + b * 2 ^ 8 + c * 2 ^ 16) d (omega arith),
        or_above 32 (a * 1 + b * 2 ^ 8 + c * 2 ^ 16 + d * 2 ^ 24) e (omega arith),
        or_above 40 (a * 1 + b * 2 ^ 8 + c * 2 ^ 16 + d * 2 ^ 24 + e * 2 ^ 32) f (omega arith),
        or_above 48 (a * 1 + b * 2 ^ 8 + c * 2 ^ 16 + d * 2 ^ 24 + e * 2 ^ 32 + f * 2 ^ 40) g
            (omega arith),
        or_above 56
            (a * 1 + b * 2 ^ 8 + c * 2 ^ 16 + d * 2 ^ 24 + e * 2 ^ 32 + f * 2 ^ 40 + g * 2 ^ 48) h
            (omega arith),
      )
      (omega arith)

pub be16 : (a b : ℕ) → All IsByte (a ∷ b ∷ []) → bit_or (shl a 8) (shl b 0) ≡ be_value (a ∷ b ∷ [])
be16 a b h = rw (or_below 8 (a * 2 ^ 8) (b * 2 ^ 0) (omega arith) (omega arith)) (omega arith)

pub be32 :
    (a b c d : ℕ)
    → All IsByte (a ∷ b ∷ c ∷ d ∷ [])
    → bit_or (bit_or (bit_or (shl a 24) (shl b 16)) (shl c 8)) (shl d 0)
      ≡ be_value (a ∷ b ∷ c ∷ d ∷ [])
be32 a b c d h =
    rw
      (
        or_below 24 (a * 2 ^ 24) (b * 2 ^ 16) (omega arith) (omega arith),
        or_below 16 (a * 2 ^ 24 + b * 2 ^ 16) (c * 2 ^ 8) (omega arith) (omega arith),
        or_below 8 (a * 2 ^ 24 + b * 2 ^ 16 + c * 2 ^ 8) (d * 2 ^ 0) (omega arith) (omega arith),
      )
      (omega arith)

pub be64 :
    (a b c d e f g h : ℕ)
    → All IsByte (a ∷ b ∷ c ∷ d ∷ e ∷ f ∷ g ∷ h ∷ [])
    → bit_or
        (bit_or
          (bit_or
            (bit_or
              (bit_or (bit_or (bit_or (shl a 56) (shl b 48)) (shl c 40)) (shl d 32))
              (shl e 24))
            (shl f 16))
          (shl g 8))
        (shl h 0)
      ≡ be_value (a ∷ b ∷ c ∷ d ∷ e ∷ f ∷ g ∷ h ∷ [])
be64 a b c d e f g h bytes =
    rw
      (
        or_below 56 (a * 2 ^ 56) (b * 2 ^ 48) (omega arith) (omega arith),
        or_below 48 (a * 2 ^ 56 + b * 2 ^ 48) (c * 2 ^ 40) (omega arith) (omega arith),
        or_below 40 (a * 2 ^ 56 + b * 2 ^ 48 + c * 2 ^ 40) (d * 2 ^ 32) (omega arith) (omega arith),
        or_below 32 (a * 2 ^ 56 + b * 2 ^ 48 + c * 2 ^ 40 + d * 2 ^ 32) (e * 2 ^ 24) (omega arith)
            (omega arith),
        or_below 24 (a * 2 ^ 56 + b * 2 ^ 48 + c * 2 ^ 40 + d * 2 ^ 32 + e * 2 ^ 24) (f * 2 ^ 16)
            (omega arith) (omega arith),
        or_below 16 (a * 2 ^ 56 + b * 2 ^ 48 + c * 2 ^ 40 + d * 2 ^ 32 + e * 2 ^ 24 + f * 2 ^ 16)
            (g * 2 ^ 8) (omega arith) (omega arith),
        or_below 8
            (a * 2 ^ 56
              + b * 2 ^ 48
              + c * 2 ^ 40
              + d * 2 ^ 32
              + e * 2 ^ 24
              + f * 2 ^ 16
              + g * 2 ^ 8)
            (h * 2 ^ 0) (omega arith) (omega arith),
      )
      (omega arith)
