-- ===== src/Bytes.antt =====
-- common/read.c and common/write.c: integers in byte arrays, both byte orders. An array is the list
-- of its bytes; `offset + k` is a `size_t` sum that does not wrap where the access is in bounds.
pub mod Value
pub mod Read
pub mod Write
use membrane_app_bitcoin_new.Common.{ℕ, ◌+◌, ◌*◌, ◌/◌, ◌%◌, ◌^◌, bit_or, List, get_or, set}

-- `(uint64_t) x << k` of a byte, which stays below the word's size; `(uint8_t) (x >> k)`.
abbrev pub shl : ℕ → ℕ → ℕ
shl x k = x * 2 ^ k

abbrev pub byte_at : ℕ → ℕ → ℕ
byte_at x k = x / 2 ^ k % 256

unfoldable pub read_u16_be : List ℕ → ℕ → ℕ
read_u16_be ptr offset =
    bit_or (shl (get_or ptr (offset + 0) 0) 8) (shl (get_or ptr (offset + 1) 0) 0)

unfoldable pub read_u32_be : List ℕ → ℕ → ℕ
read_u32_be ptr offset =
    bit_or
      (bit_or (bit_or (shl (get_or ptr (offset + 0) 0) 24) (shl (get_or ptr (offset + 1) 0) 16))
        (shl (get_or ptr (offset + 2) 0) 8))
      (shl (get_or ptr (offset + 3) 0) 0)

unfoldable pub read_u64_be : List ℕ → ℕ → ℕ
read_u64_be ptr offset =
    bit_or
      (bit_or
        (bit_or
          (bit_or
            (bit_or
              (bit_or
                (bit_or (shl (get_or ptr (offset + 0) 0) 56) (shl (get_or ptr (offset + 1) 0) 48))
                (shl (get_or ptr (offset + 2) 0) 40))
              (shl (get_or ptr (offset + 3) 0) 32))
            (shl (get_or ptr (offset + 4) 0) 24))
          (shl (get_or ptr (offset + 5) 0) 16))
        (shl (get_or ptr (offset + 6) 0) 8))
      (shl (get_or ptr (offset + 7) 0) 0)

unfoldable pub read_u16_le : List ℕ → ℕ → ℕ
read_u16_le ptr offset =
    bit_or (shl (get_or ptr (offset + 0) 0) 0) (shl (get_or ptr (offset + 1) 0) 8)

unfoldable pub read_u32_le : List ℕ → ℕ → ℕ
read_u32_le ptr offset =
    bit_or
      (bit_or (bit_or (shl (get_or ptr (offset + 0) 0) 0) (shl (get_or ptr (offset + 1) 0) 8))
        (shl (get_or ptr (offset + 2) 0) 16))
      (shl (get_or ptr (offset + 3) 0) 24)

unfoldable pub read_u64_le : List ℕ → ℕ → ℕ
read_u64_le ptr offset =
    bit_or
      (bit_or
        (bit_or
          (bit_or
            (bit_or
              (bit_or
                (bit_or (shl (get_or ptr (offset + 0) 0) 0) (shl (get_or ptr (offset + 1) 0) 8))
                (shl (get_or ptr (offset + 2) 0) 16))
              (shl (get_or ptr (offset + 3) 0) 24))
            (shl (get_or ptr (offset + 4) 0) 32))
          (shl (get_or ptr (offset + 5) 0) 40))
        (shl (get_or ptr (offset + 6) 0) 48))
      (shl (get_or ptr (offset + 7) 0) 56)

unfoldable pub write_u16_be : List ℕ → ℕ → ℕ → List ℕ
write_u16_be ptr offset value =
    set (set ptr (offset + 0) (byte_at value 8)) (offset + 1) (byte_at value 0)

unfoldable pub write_u32_be : List ℕ → ℕ → ℕ → List ℕ
write_u32_be ptr offset value =
    set
      (set (set (set ptr (offset + 0) (byte_at value 24)) (offset + 1) (byte_at value 16))
        (offset + 2) (byte_at value 8))
      (offset + 3) (byte_at value 0)

unfoldable pub write_u64_be : List ℕ → ℕ → ℕ → List ℕ
write_u64_be ptr offset value =
    set
      (set
        (set
          (set
            (set
              (set (set (set ptr (offset + 0) (byte_at value 56)) (offset + 1) (byte_at value 48))
                (offset + 2) (byte_at value 40))
              (offset + 3) (byte_at value 32))
            (offset + 4) (byte_at value 24))
          (offset + 5) (byte_at value 16))
        (offset + 6) (byte_at value 8))
      (offset + 7) (byte_at value 0)

unfoldable pub write_u16_le : List ℕ → ℕ → ℕ → List ℕ
write_u16_le ptr offset value =
    set (set ptr (offset + 0) (byte_at value 0)) (offset + 1) (byte_at value 8)

unfoldable pub write_u32_le : List ℕ → ℕ → ℕ → List ℕ
write_u32_le ptr offset value =
    set
      (set (set (set ptr (offset + 0) (byte_at value 0)) (offset + 1) (byte_at value 8))
        (offset + 2) (byte_at value 16))
      (offset + 3) (byte_at value 24)

unfoldable pub write_u64_le : List ℕ → ℕ → ℕ → List ℕ
write_u64_le ptr offset value =
    set
      (set
        (set
          (set
            (set
              (set (set (set ptr (offset + 0) (byte_at value 0)) (offset + 1) (byte_at value 8))
                (offset + 2) (byte_at value 16))
              (offset + 3) (byte_at value 24))
            (offset + 4) (byte_at value 32))
          (offset + 5) (byte_at value 40))
        (offset + 6) (byte_at value 48))
      (offset + 7) (byte_at value 56)
