-- ===== src/Buffer/Content.antt =====
-- What the reads of common/buffer.c return, in terms of the bytes that are still to be read.
use membrane_app_bitcoin_new.Common.{
  ℕ, ◌+◌, ◌-◌, ◌≤◌, ◌≡◌, ◌∙◌, sym, arith, none, some, List, Bool, true, false, length, take, drop,
  length-take, length-drop, leb, if◌then◌else◌, All, take-take, drop-take, drop-drop, ap,
}
use membrane_app_bitcoin_new.Bytes.Value.{IsByte, le_value, be_value}
use membrane_app_bitcoin_new.Bytes.Read.{
  read_u16_be-value, read_u32_be-value, read_u64_be-value, read_u16_le-value, read_u32_le-value,
  read_u64_le-value,
}
use membrane_app_bitcoin_new.Buffer.{
  buffer_create, Buffer, Endianness, be, le, buffer_can_read, buffer_read_u16, buffer_read_u32,
  buffer_read_u64, buffer_read_bytes, read_u16, read_u32, read_u64,
}
use membrane_app_bitcoin_new.Buffer.Inv.{IsValid, seek_cur_within}

-- The bytes that are still to be read.
abbrev pub content : Buffer → List ℕ
content b = take (b.size - b.offset) (drop b.offset b.ptr)

pub length-content : {b : Buffer} → IsValid b → length (content b) ≡ b.size - b.offset
length-content {b} v =
    omega (arith, length-take (b.size - b.offset) (drop b.offset b.ptr), length-drop b.offset b.ptr)

abbrev pub skip : Buffer → ℕ → Buffer
skip b n = record b { offset = b.offset + n }

pub content-skip : (b : Buffer) (n : ℕ) → content (skip b n) ≡ drop n (content b)
content-skip b n =
    let fewer : b.size - (b.offset + n) ≡ b.size - b.offset - n = omega arith in
    rw (fewer, drop-take, drop-drop)

pub take-content :
    (b : Buffer) (n : ℕ) → n ≤ b.size - b.offset → take n (content b) ≡ take n (drop b.offset b.ptr)
take-content b n h = take-take n (b.size - b.offset) (drop b.offset b.ptr) h

-- `buffer_read_bytes` on a valid buffer: if `n` bytes are left it copies the first `n` of them and
-- leaves exactly the rest to be read, in a buffer that is otherwise the same; else it fails.
pub read_bytes_lem :
    (b : Buffer) (n : ℕ)
    → IsValid b
    → (buffer_read_bytes b n
        ≡ (if leb n (length (content b)) then some (take n (content b), skip b n) else none))
      × (content (skip b n) ≡ drop n (content b))
unfolding buffer_read_bytes
read_bytes_lem b n v =
    (ground (arith, length-content v, take-content b n, seek_cur_within b n v), content-skip b n)

-- The integer that some bytes stand for, in the byte order asked for.
abbrev pub word_value : Endianness → List ℕ → ℕ
word_value be = be_value
word_value le = le_value

-- The result of a read of `n` bytes as a word.
abbrev pub word_read : ℕ → Endianness → Buffer → Bool × ℕ × Buffer
word_read n e b =
    if leb n (length (content b))
    then (true, word_value e (take n (content b)), skip b n)
    else (false, 0, b)

u16-value :
    (e : Endianness) (b : Buffer)
    → IsValid b
    → All IsByte b.ptr
    → 2 ≤ b.size - b.offset
    → read_u16 e b.ptr b.offset ≡ word_value e (take 2 (content b))
unfolding read_u16
u16-value be b v h fits =
    read_u16_be-value b.ptr b.offset h (omega arith) ∙ ap be_value (sym (take-content b 2 fits))
u16-value le b v h fits =
    read_u16_le-value b.ptr b.offset h (omega arith) ∙ ap le_value (sym (take-content b 2 fits))

read_u16_lem :
    (e : Endianness) (b : Buffer)
    → IsValid b
    → All IsByte b.ptr
    → buffer_read_u16 b e ≡ word_read 2 e b
unfolding buffer_read_u16 buffer_can_read
read_u16_lem e b v h = ground (arith, length-content v, u16-value e b v h, seek_cur_within b 2 v)

u32-value :
    (e : Endianness) (b : Buffer)
    → IsValid b
    → All IsByte b.ptr
    → 4 ≤ b.size - b.offset
    → read_u32 e b.ptr b.offset ≡ word_value e (take 4 (content b))
unfolding read_u32
u32-value be b v h fits =
    read_u32_be-value b.ptr b.offset h (omega arith) ∙ ap be_value (sym (take-content b 4 fits))
u32-value le b v h fits =
    read_u32_le-value b.ptr b.offset h (omega arith) ∙ ap le_value (sym (take-content b 4 fits))

read_u32_lem :
    (e : Endianness) (b : Buffer)
    → IsValid b
    → All IsByte b.ptr
    → buffer_read_u32 b e ≡ word_read 4 e b
unfolding buffer_read_u32 buffer_can_read
read_u32_lem e b v h = ground (arith, length-content v, u32-value e b v h, seek_cur_within b 4 v)

u64-value :
    (e : Endianness) (b : Buffer)
    → IsValid b
    → All IsByte b.ptr
    → 8 ≤ b.size - b.offset
    → read_u64 e b.ptr b.offset ≡ word_value e (take 8 (content b))
unfolding read_u64
u64-value be b v h fits =
    read_u64_be-value b.ptr b.offset h (omega arith) ∙ ap be_value (sym (take-content b 8 fits))
u64-value le b v h fits =
    read_u64_le-value b.ptr b.offset h (omega arith) ∙ ap le_value (sym (take-content b 8 fits))

read_u64_lem :
    (e : Endianness) (b : Buffer)
    → IsValid b
    → All IsByte b.ptr
    → buffer_read_u64 b e ≡ word_read 8 e b
unfolding buffer_read_u64 buffer_can_read
read_u64_lem e b v h = ground (arith, length-content v, u64-value e b v h, seek_cur_within b 8 v)

-- On a valid buffer of bytes, `buffer_read_u16`, `buffer_read_u32` and `buffer_read_u64` return the
-- integer that the next 2, 4 or 8 unread bytes stand for in the byte order asked for, and step over
-- them; where fewer bytes are left they report failure with the value 0 and leave the buffer alone.
pub read_words :
    (e : Endianness) (b : Buffer)
    → IsValid b
    → All IsByte b.ptr
    → (buffer_read_u16 b e ≡ word_read 2 e b)
      × (buffer_read_u32 b e ≡ word_read 4 e b)
      × (buffer_read_u64 b e ≡ word_read 8 e b)
read_words e b v h = (read_u16_lem e b v h, read_u32_lem e b v h, read_u64_lem e b v h)

pub content-create : (bytes : List ℕ) (n : ℕ) → content (buffer_create bytes n) ≡ take n bytes
unfolding buffer_create
content-create bytes n = ap (λ k. take k bytes) (omega arith)
