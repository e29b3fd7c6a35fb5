-- ===== src/Bytes/Read.antt =====
-- What `common/read.c` reads is the value of the bytes at the offset.
use membrane_app_bitcoin_new.Common.{
  ℕ, ◌+◌, ◌≤◌, ◌≡◌, arith, List, ◌∷◌, length, take, drop, All, get_or-drop, All-drop, length-drop,
}
use membrane_app_bitcoin_new.Bytes.{
  read_u16_be, read_u32_be, read_u64_be, read_u16_le, read_u32_le, read_u64_le,
}
use membrane_app_bitcoin_new.Bytes.Value.{
  IsByte, le_value, be_value, le16, le32, le64, be16, be32, be64,
}

-- Reading at an offset is reading at the start of what stands there.
pub read_u16_le-drop :
    (ptr : List ℕ) (offset : ℕ) → read_u16_le ptr offset ≡ read_u16_le (drop offset ptr) 0
unfolding read_u16_le
read_u16_le-drop ptr offset = simp get_or-drop

pub read_u32_le-drop :
    (ptr : List ℕ) (offset : ℕ) → read_u32_le ptr offset ≡ read_u32_le (drop offset ptr) 0
unfolding read_u32_le
read_u32_le-drop ptr offset = simp get_or-drop

pub read_u64_le-drop :
    (ptr : List ℕ) (offset : ℕ) → read_u64_le ptr offset ≡ read_u64_le (drop offset ptr) 0
unfolding read_u64_le
read_u64_le-drop ptr offset = simp get_or-drop

pub read_u16_be-drop :
    (ptr : List ℕ) (offset : ℕ) → read_u16_be ptr offset ≡ read_u16_be (drop offset ptr) 0
unfolding read_u16_be
read_u16_be-drop ptr offset = simp get_or-drop

pub read_u32_be-drop :
    (ptr : List ℕ) (offset : ℕ) → read_u32_be ptr offset ≡ read_u32_be (drop offset ptr) 0
unfolding read_u32_be
read_u32_be-drop ptr offset = simp get_or-drop

pub read_u64_be-drop :
    (ptr : List ℕ) (offset : ℕ) → read_u64_be ptr offset ≡ read_u64_be (drop offset ptr) 0
unfolding read_u64_be
read_u64_be-drop ptr offset = simp get_or-drop

le16_front : (bs : List ℕ) → All IsByte bs → 2 ≤ length bs → read_u16_le bs 0 ≡ le_value (take 2 bs)
unfolding read_u16_le
le16_front (a ∷ b ∷ bs) h fits = le16 a b (h.0, (h.1.0, tt))
le16_front _ h fits = absurd (omega arith)

pub read_u16_le-value :
    (ptr : List ℕ) (offset : ℕ)
    → All IsByte ptr
    → offset + 2 ≤ length ptr
    → read_u16_le ptr offset ≡ le_value (take 2 (drop offset ptr))
unfolding read_u16_le
read_u16_le-value ptr offset h fits = simp get_or-drop (
    le16_front (drop offset ptr) (All-drop IsByte offset ptr h)
      (omega (arith, length-drop offset ptr)))

le32_front : (bs : List ℕ) → All IsByte bs → 4 ≤ length bs → read_u32_le bs 0 ≡ le_value (take 4 bs)
unfolding read_u32_le
le32_front (a ∷ b ∷ c ∷ d ∷ bs) h fits = le32 a b c d (h.0, (h.1.0, (h.1.1.0, (h.1.1.1.0, tt))))
le32_front _ h fits = absurd (omega arith)

pub read_u32_le-value :
    (ptr : List ℕ) (offset : ℕ)
    → All IsByte ptr
    → offset + 4 ≤ length ptr
    → read_u32_le ptr offset ≡ le_value (take 4 (drop offset ptr))
unfolding read_u32_le
read_u32_le-value ptr offset h fits = simp get_or-drop (
    le32_front (drop offset ptr) (All-drop IsByte offset ptr h)
      (omega (arith, length-drop offset ptr)))

le64_front : (bs : List ℕ) → All IsByte bs → 8 ≤ length bs → read_u64_le bs 0 ≡ le_value (take 8 bs)
unfolding read_u64_le
le64_front (a ∷ b ∷ c ∷ d ∷ e ∷ f ∷ g ∷ h ∷ bs) bytes fits = le64 a b c d e f g h (
  bytes.0,
  (
    bytes.1.0,
    (
      bytes.1.1.0,
      (
        bytes.1.1.1.0,
        (bytes.1.1.1.1.0, (bytes.1.1.1.1.1.0, (bytes.1.1.1.1.1.1.0, (bytes.1.1.1.1.1.1.1.0, tt)))),
      ),
    ),
  ),
)
le64_front _ h fits = absurd (omega arith)

pub read_u64_le-value :
    (ptr : List ℕ) (offset : ℕ)
    → All IsByte ptr
    → offset + 8 ≤ length ptr
    → read_u64_le ptr offset ≡ le_value (take 8 (drop offset ptr))
unfolding read_u64_le
read_u64_le-value ptr offset h fits = simp get_or-drop (
    le64_front (drop offset ptr) (All-drop IsByte offset ptr h)
      (omega (arith, length-drop offset ptr)))

be16_front : (bs : List ℕ) → All IsByte bs → 2 ≤ length bs → read_u16_be bs 0 ≡ be_value (take 2 bs)
unfolding read_u16_be
be16_front (a ∷ b ∷ bs) h fits = be16 a b (h.0, (h.1.0, tt))
be16_front _ h fits = absurd (omega arith)

pub read_u16_be-value :
    (ptr : List ℕ) (offset : ℕ)
    → All IsByte ptr
    → offset + 2 ≤ length ptr
    → read_u16_be ptr offset ≡ be_value (take 2 (drop offset ptr))
unfolding read_u16_be
read_u16_be-value ptr offset h fits = simp get_or-drop (
    be16_front (drop offset ptr) (All-drop IsByte offset ptr h)
      (omega (arith, length-drop offset ptr)))

be32_front : (bs : List ℕ) → All IsByte bs → 4 ≤ length bs → read_u32_be bs 0 ≡ be_value (take 4 bs)
unfolding read_u32_be
be32_front (a ∷ b ∷ c ∷ d ∷ bs) h fits = be32 a b c d (h.0, (h.1.0, (h.1.1.0, (h.1.1.1.0, tt))))
be32_front _ h fits = absurd (omega arith)

pub read_u32_be-value :
    (ptr : List ℕ) (offset : ℕ)
    → All IsByte ptr
    → offset + 4 ≤ length ptr
    → read_u32_be ptr offset ≡ be_value (take 4 (drop offset ptr))
unfolding read_u32_be
read_u32_be-value ptr offset h fits = simp get_or-drop (
    be32_front (drop offset ptr) (All-drop IsByte offset ptr h)
      (omega (arith, length-drop offset ptr)))

be64_front : (bs : List ℕ) → All IsByte bs → 8 ≤ length bs → read_u64_be bs 0 ≡ be_value (take 8 bs)
unfolding read_u64_be
be64_front (a ∷ b ∷ c ∷ d ∷ e ∷ f ∷ g ∷ h ∷ bs) bytes fits = be64 a b c d e f g h (
  bytes.0,
  (
    bytes.1.0,
    (
      bytes.1.1.0,
      (
        bytes.1.1.1.0,
        (bytes.1.1.1.1.0, (bytes.1.1.1.1.1.0, (bytes.1.1.1.1.1.1.0, (bytes.1.1.1.1.1.1.1.0, tt)))),
      ),
    ),
  ),
)
be64_front _ h fits = absurd (omega arith)

pub read_u64_be-value :
    (ptr : List ℕ) (offset : ℕ)
    → All IsByte ptr
    → offset + 8 ≤ length ptr
    → read_u64_be ptr offset ≡ be_value (take 8 (drop offset ptr))
unfolding read_u64_be
read_u64_be-value ptr offset h fits = simp get_or-drop (
    be64_front (drop offset ptr) (All-drop IsByte offset ptr h)
      (omega (arith, length-drop offset ptr)))
