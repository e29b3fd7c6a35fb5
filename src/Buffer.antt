-- ===== src/Buffer.antt =====
-- common/buffer.c and common/buffer.h: cursors over byte arrays. A function that changes `*buffer`
-- returns the new buffer; a `bool` result is a `Bool`, and an output parameter stands beside it.
-- `size_t` has 32 bits on the device.
pub mod Inv
pub mod Content
pub mod Steps
pub mod Written
pub mod RoundTrip
mod Tests
use membrane_app_bitcoin_new.Common.{
  ℕ, ◌+◌, ◌-◌, ◌*◌, ◌%◌, ◌^◌, ◌==◌, ltb, leb, if◌then◌else◌, Option, none, some, List, ◌++◌, Bool,
  true, false, ◌||◌, get_or, set, take, drop, length,
}
use membrane_app_bitcoin_new.Bytes.{
  read_u16_be, read_u32_be, read_u64_be, read_u16_le, read_u32_le, read_u64_le, write_u16_be,
  write_u32_be, write_u64_be, write_u16_le, write_u32_le, write_u64_le,
}
use membrane_app_bitcoin_new.Varint.{varint_read}
use membrane_app_bitcoin_new.Bip32.{bip32_path_read}

pub data Endianness : Type 0 where
  be le : Endianness

-- `buffer_t`: `ptr` is the memory behind the pointer.
pub record Buffer : Type 0 where
  pub ptr : List ℕ
  pub size : ℕ
  pub offset : ℕ

abbrev pub size_mod : ℕ
size_mod = 2 ^ 32

-- `size_t` sum and difference, which wrap.
abbrev pub add_size : ℕ → ℕ → ℕ
add_size a b = (a + b) % size_mod

abbrev pub sub_size : ℕ → ℕ → ℕ
sub_size a b = (a + size_mod - b) % size_mod

unfoldable pub buffer_create : List ℕ → ℕ → Buffer
buffer_create ptr size = record { ptr = ptr; size = size; offset = 0 }

pub buffer_get_cur : Buffer → List ℕ
buffer_get_cur b = drop b.offset b.ptr

pub buffer_snapshot : Buffer → ℕ
buffer_snapshot b = b.offset

pub buffer_restore : Buffer → ℕ → Buffer
buffer_restore b snapshot = record b { offset = snapshot }

-- `size - offset`, as the source computes it.
abbrev pub left : Buffer → ℕ
left b = sub_size b.size b.offset

unfoldable pub buffer_can_read : Buffer → ℕ → Bool
buffer_can_read b n = leb n (left b)

pub buffer_seek_set : Buffer → ℕ → Bool × Buffer
buffer_seek_set b offset =
    if ltb b.size offset then (false, b) else (true, record b { offset = offset })

unfoldable pub buffer_seek_cur : Buffer → ℕ → Bool × Buffer
buffer_seek_cur b offset =
    let next = add_size b.offset offset in
    if ltb next b.offset || ltb b.size next then (false, b) else (true, record b { offset = next })

pub buffer_seek_end : Buffer → ℕ → Bool × Buffer
buffer_seek_end b offset =
    if ltb b.size offset then (false, b) else (true, record b { offset = b.size - offset })

unfoldable pub buffer_read_u8 : Buffer → Bool × ℕ × Buffer
buffer_read_u8 b =
    if buffer_can_read b 1
    then (true, get_or b.ptr b.offset 0, (buffer_seek_cur b 1).1)
    else (false, 0, b)

-- `none` for `false`, which leaves `*value` alone.
unfoldable pub buffer_peek_n : Buffer → ℕ → Option ℕ
buffer_peek_n b n =
    if buffer_can_read b (add_size n 1) then some (get_or b.ptr (add_size b.offset n) 0) else none

unfoldable pub buffer_peek : Buffer → Option ℕ
buffer_peek b = buffer_peek_n b 0

read_u16 : Endianness → List ℕ → ℕ → ℕ
read_u16 be = read_u16_be
read_u16 le = read_u16_le

read_u32 : Endianness → List ℕ → ℕ → ℕ
read_u32 be = read_u32_be
read_u32 le = read_u32_le

read_u64 : Endianness → List ℕ → ℕ → ℕ
read_u64 be = read_u64_be
read_u64 le = read_u64_le

pub buffer_read_u16 : Buffer → Endianness → Bool × ℕ × Buffer
buffer_read_u16 b e =
    if buffer_can_read b 2
    then (true, read_u16 e b.ptr b.offset, (buffer_seek_cur b 2).1)
    else (false, 0, b)

pub buffer_read_u32 : Buffer → Endianness → Bool × ℕ × Buffer
buffer_read_u32 b e =
    if buffer_can_read b 4
    then (true, read_u32 e b.ptr b.offset, (buffer_seek_cur b 4).1)
    else (false, 0, b)

pub buffer_read_u64 : Buffer → Endianness → Bool × ℕ × Buffer
buffer_read_u64 b e =
    if buffer_can_read b 8
    then (true, read_u64 e b.ptr b.offset, (buffer_seek_cur b 8).1)
    else (false, 0, b)

unfoldable pub buffer_read_varint : Buffer → Bool × ℕ × Buffer
buffer_read_varint b = elim (varint_read (drop b.offset b.ptr) (left b)) [
  | none ↦ (false, 0, b)
  | some (len, value) ↦ (true, value, (buffer_seek_cur b len).1)
]

-- The result of `buffer_seek_cur` is dropped, as in the source.
pub buffer_read_bip32_path : Buffer → ℕ → Option (List ℕ × Buffer)
buffer_read_bip32_path b out_len = elim (bip32_path_read (drop b.offset b.ptr) (left b) out_len) [
  | none ↦ none
  | some out ↦ some (out, (buffer_seek_cur b (4 * out_len)).1)
]

-- The bytes copied to `out`; `none` for `false`.
unfoldable pub buffer_read_bytes : Buffer → ℕ → Option (List ℕ × Buffer)
buffer_read_bytes b n =
    if ltb (left b) n then none else some (take n (drop b.offset b.ptr), (buffer_seek_cur b n).1)

pub buffer_write_u8 : Buffer → ℕ → Bool × Buffer
buffer_write_u8 b value =
    if buffer_can_read b 1
    then (true, (buffer_seek_cur (record b { ptr = set b.ptr b.offset value }) 1).1)
    else (false, b)

write_u16 : Endianness → List ℕ → ℕ → ℕ → List ℕ
write_u16 be = write_u16_be
write_u16 le = write_u16_le

write_u32 : Endianness → List ℕ → ℕ → ℕ → List ℕ
write_u32 be = write_u32_be
write_u32 le = write_u32_le

write_u64 : Endianness → List ℕ → ℕ → ℕ → List ℕ
write_u64 be = write_u64_be
write_u64 le = write_u64_le

pub buffer_write_u16 : Buffer → ℕ → Endianness → Bool × Buffer
buffer_write_u16 b value e =
    if buffer_can_read b 2
    then (true, (buffer_seek_cur (record b { ptr = write_u16 e b.ptr b.offset value }) 2).1)
    else (false, b)

pub buffer_write_u32 : Buffer → ℕ → Endianness → Bool × Buffer
buffer_write_u32 b value e =
    if buffer_can_read b 4
    then (true, (buffer_seek_cur (record b { ptr = write_u32 e b.ptr b.offset value }) 4).1)
    else (false, b)

pub buffer_write_u64 : Buffer → ℕ → Endianness → Bool × Buffer
buffer_write_u64 b value e =
    if buffer_can_read b 8
    then (true, (buffer_seek_cur (record b { ptr = write_u64 e b.ptr b.offset value }) 8).1)
    else (false, b)

-- `memmove` of the `n` bytes of `data` to the current position.
unfoldable pub copy_to : List ℕ → ℕ → List ℕ → List ℕ
copy_to ptr offset data_bytes =
    take offset ptr ++ (data_bytes ++ drop (offset + length data_bytes) ptr)

unfoldable pub buffer_write_bytes : Buffer → List ℕ → ℕ → Bool × Buffer
buffer_write_bytes b data_bytes n =
    if buffer_can_read b n
    then (
      true,
      (buffer_seek_cur (record b { ptr = copy_to b.ptr b.offset (take n data_bytes) }) n).1,
    )
    else (false, b)

-- The bytes skipped for alignment; `base` is the address that `ptr` holds.
alloc_padding : ℕ → Buffer → Bool → ℕ
alloc_padding base b aligned =
    let d = add_size base b.offset % 4 in if aligned then (if d == 0 then 0 else 4 - d) else 0

-- The result is the index in `ptr` that the returned pointer has, and `none` for NULL.
pub buffer_alloc : ℕ → Buffer → ℕ → Bool → Option (ℕ × Buffer)
buffer_alloc base b size aligned =
    let padding_size = alloc_padding base b aligned in
    if buffer_can_read b (add_size padding_size size)
    then some (b.offset + padding_size, (buffer_seek_cur b (add_size padding_size size)).1)
    else none

pub buffer_is_cur_aligned : ℕ → Buffer → Bool
buffer_is_cur_aligned base b = add_size base b.offset % 4 == 0
