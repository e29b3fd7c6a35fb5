-- ===== src/Varint/RoundTrip.antt =====
-- The round trip of common/varint.c, and that it writes the shortest of its forms.
use membrane_app_bitcoin_new.Common.{
  ℕ, ◌+◌, ◌%◌, ◌^◌, ◌≤◌, ◌<◌, ◌≡◌, arith, some, List, length, set, drop, get_or, take,
  get_or-set_self, drop-drop, ◌∙◌, sym, ap, All, All-take, All-drop, length-take, length-set,
  get_or-drop,
}
use membrane_app_bitcoin_new.Varint.{varint_size, varint_read, varint_write}
use membrane_app_bitcoin_new.Bytes.{
  read_u16_le, write_u16_le, read_u32_le, write_u32_le, read_u64_le, write_u64_le,
}
use membrane_app_bitcoin_new.Bytes.Value.{IsByte, le_value-lt, get_or-IsByte}
use membrane_app_bitcoin_new.Bytes.Read.{
  read_u16_le-drop, read_u32_le-drop, read_u64_le-drop, read_u16_le-value, read_u32_le-value,
  read_u64_le-value,
}
use native.Mathlib.Nat.{add-zero}
use membrane_app_bitcoin_new.Bytes.Write.{
  get_or-write_u16_le, get_or-write_u32_le, get_or-write_u64_le, read_u16_le-write,
  read_u32_le-write, read_u64_le-write,
}

-- `varint_write` always succeeds and returns the size of the value's encoding.
pub varint_write-size :
    (out : List ℕ) (offset v : ℕ) → (varint_write out offset v).0 ≡ some (varint_size v)
unfolding varint_write varint_size
varint_write-size out offset v = ground arith

-- The encoding with 2 bytes behind the prefix: the prefix stands first, and the word behind it.
first16 :
    (out : List ℕ) (offset p v : ℕ)
    → offset + 3 ≤ length out
    → get_or (drop offset (write_u16_le (set out offset p) (offset + 1) v)) 0 0 ≡ p
first16 out offset p v fits =
    sym (get_or-drop (write_u16_le (set out offset p) (offset + 1) v) offset 0 0)
    ∙ get_or-write_u16_le (set out offset p) (offset + 1) v (offset + 0)
        (omega (arith, length-set out offset p)) (omega arith)
    ∙ ap (λ k. get_or (set out offset p) k 0) (add-zero offset)
    ∙ get_or-set_self out offset p 0 (omega arith)

word16 :
    (out : List ℕ) (offset p v : ℕ)
    → offset + 3 ≤ length out
    → v < 2 ^ 16
    → read_u16_le (drop offset (write_u16_le (set out offset p) (offset + 1) v)) 1 ≡ v
word16 out offset p v fits h =
    read_u16_le-drop (drop offset (write_u16_le (set out offset p) (offset + 1) v)) 1
    ∙ ap (λ t. read_u16_le t 0)
        (drop-drop 1 offset (write_u16_le (set out offset p) (offset + 1) v))
    ∙ sym (read_u16_le-drop (write_u16_le (set out offset p) (offset + 1) v) (offset + 1))
    ∙ read_u16_le-write (set out offset p) (offset + 1) v (omega (arith, length-set out offset p)) h

-- The encoding with 4 bytes behind the prefix: the prefix stands first, and the word behind it.
first32 :
    (out : List ℕ) (offset p v : ℕ)
    → offset + 5 ≤ length out
    → get_or (drop offset (write_u32_le (set out offset p) (offset + 1) v)) 0 0 ≡ p
first32 out offset p v fits =
    sym (get_or-drop (write_u32_le (set out offset p) (offset + 1) v) offset 0 0)
    ∙ get_or-write_u32_le (set out offset p) (offset + 1) v (offset + 0)
        (omega (arith, length-set out offset p)) (omega arith)
    ∙ ap (λ k. get_or (set out offset p) k 0) (add-zero offset)
    ∙ get_or-set_self out offset p 0 (omega arith)

word32 :
    (out : List ℕ) (offset p v : ℕ)
    → offset + 5 ≤ length out
    → v < 2 ^ 32
    → read_u32_le (drop offset (write_u32_le (set out offset p) (offset + 1) v)) 1 ≡ v
word32 out offset p v fits h =
    read_u32_le-drop (drop offset (write_u32_le (set out offset p) (offset + 1) v)) 1
    ∙ ap (λ t. read_u32_le t 0)
        (drop-drop 1 offset (write_u32_le (set out offset p) (offset + 1) v))
    ∙ sym (read_u32_le-drop (write_u32_le (set out offset p) (offset + 1) v) (offset + 1))
    ∙ read_u32_le-write (set out offset p) (offset + 1) v (omega (arith, length-set out offset p)) h

-- The encoding with 8 bytes behind the prefix: the prefix stands first, and the word behind it.
first64 :
    (out : List ℕ) (offset p v : ℕ)
    → offset + 9 ≤ length out
    → get_or (drop offset (write_u64_le (set out offset p) (offset + 1) v)) 0 0 ≡ p
first64 out offset p v fits =
    sym (get_or-drop (write_u64_le (set out offset p) (offset + 1) v) offset 0 0)
    ∙ get_or-write_u64_le (set out offset p) (offset + 1) v (offset + 0)
        (omega (arith, length-set out offset p)) (omega arith)
    ∙ ap (λ k. get_or (set out offset p) k 0) (add-zero offset)
    ∙ get_or-set_self out offset p 0 (omega arith)

word64 :
    (out : List ℕ) (offset p v : ℕ)
    → offset + 9 ≤ length out
    → v < 2 ^ 64
    → read_u64_le (drop offset (write_u64_le (set out offset p) (offset + 1) v)) 1 ≡ v
word64 out offset p v fits h =
    read_u64_le-drop (drop offset (write_u64_le (set out offset p) (offset + 1) v)) 1
    ∙ ap (λ t. read_u64_le t 0)
        (drop-drop 1 offset (write_u64_le (set out offset p) (offset + 1) v))
    ∙ sym (read_u64_le-drop (write_u64_le (set out offset p) (offset + 1) v) (offset + 1))
    ∙ read_u64_le-write (set out offset p) (offset + 1) v (omega (arith, length-set out offset p)) h

first8 :
    (out : List ℕ) (offset v : ℕ)
    → offset + 1 ≤ length out
    → get_or (drop offset (set out offset v)) 0 0 ≡ v
first8 out offset v fits =
    sym (get_or-drop (set out offset v) offset 0 0)
    ∙ ap (λ k. get_or (set out offset v) k 0) (add-zero offset)
    ∙ get_or-set_self out offset v 0 (omega arith)

-- `varint_read` on what `varint_write` wrote, whatever the memory held before, returns the value and
-- the length of its encoding, for every 64-bit value. The memory has room for the encoding, and the
-- reader is told of at least that many bytes.
pub varint_read-write :
    (out : List ℕ) (offset v in_len : ℕ)
    → v < 2 ^ 64
    → offset + varint_size v ≤ length out
    → varint_size v ≤ in_len
    → varint_read (drop offset (varint_write out offset v).1) in_len ≡ some (varint_size v, v)
unfolding varint_read varint_write varint_size
varint_read-write out offset v in_len h fits room = ground (
  arith,
  first8 out offset (v % 2 ^ 8),
  first16 out offset 0xfd (v % 2 ^ 16),
  first32 out offset 0xfe (v % 2 ^ 32),
  first64 out offset 0xff v,
  word16 out offset 0xfd (v % 2 ^ 16),
  word32 out offset 0xfe (v % 2 ^ 32),
  word64 out offset 0xff v,
)

range16 : (bytes : List ℕ) → All IsByte bytes → 3 ≤ length bytes → read_u16_le bytes 1 < 2 ^ 16
range16 bytes h fits = rw (read_u16_le-value bytes 1 h fits) (
    le_value-lt 2 (take 2 (drop 1 bytes))
      (All-take IsByte 2 (drop 1 bytes) (All-drop IsByte 1 bytes h))
      (omega (arith, length-take 2 (drop 1 bytes))))

range32 : (bytes : List ℕ) → All IsByte bytes → 5 ≤ length bytes → read_u32_le bytes 1 < 2 ^ 32
range32 bytes h fits = rw (read_u32_le-value bytes 1 h fits) (
    le_value-lt 4 (take 4 (drop 1 bytes))
      (All-take IsByte 4 (drop 1 bytes) (All-drop IsByte 1 bytes h))
      (omega (arith, length-take 4 (drop 1 bytes))))

range64 : (bytes : List ℕ) → All IsByte bytes → 9 ≤ length bytes → read_u64_le bytes 1 < 2 ^ 64
range64 bytes h fits = rw (read_u64_le-value bytes 1 h fits) (
    le_value-lt 8 (take 8 (drop 1 bytes))
      (All-take IsByte 8 (drop 1 bytes) (All-drop IsByte 1 bytes h))
      (omega (arith, length-take 8 (drop 1 bytes))))

-- Of an input of bytes, with `in_len` of them in memory, a successful `varint_read` uses 1 to
-- `in_len` bytes and returns a 64-bit integer, whose own encoding by `varint_write` is no longer.
pub varint_read-ge_size :
    (bytes : List ℕ) (in_len len v : ℕ)
    → All IsByte bytes
    → in_len ≤ length bytes
    → varint_read bytes in_len ≡ some (len, v)
    → (1 ≤ len) × (len ≤ in_len) × (v < 2 ^ 64) × (varint_size v ≤ len)
unfolding varint_read varint_size
varint_read-ge_size bytes in_len len v h fits e =
    ground (arith, get_or-IsByte bytes 0 h, range16 bytes h, range32 bytes h, range64 bytes h)

pub varint_read-len :
    (bytes : List ℕ) (in_len len v : ℕ)
    → varint_read bytes in_len ≡ some (len, v)
    → (1 ≤ len) × (len ≤ in_len)
unfolding varint_read
varint_read-len bytes in_len len v e = ground arith
