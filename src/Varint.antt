-- ===== src/Varint.antt =====
-- common/varint.c: Bitcoin's variable-length integers. `in` and `out` are the bytes from the pointer
-- on; where the C function returns -1, the model returns `none`.
pub mod RoundTrip
mod Tests
use membrane_app_bitcoin_new.Common.{
  ℕ, ◌+◌, ◌%◌, ◌^◌, ◌==◌, ltb, leb, if◌then◌else◌, Option, none, some, List, get_or, set,
}
use membrane_app_bitcoin_new.Bytes.{
  read_u16_le, read_u32_le, read_u64_le, write_u16_le, write_u32_le, write_u64_le,
}

unfoldable pub varint_size : ℕ → ℕ
varint_size value =
    if leb value 0xfc
    then 1
    else if leb value 0xffff
    then 3
    else if leb value 0xffff_ffff
    then 5
    else 9

-- The length read, and `*value`.
unfoldable pub varint_read : List ℕ → ℕ → Option (ℕ × ℕ)
varint_read bytes in_len =
    let prefix = get_or bytes 0 0 in
    if ltb in_len 1
    then none
    else if prefix == 0xfd
    then if ltb in_len 3 then none else some (3, read_u16_le bytes 1)
    else if prefix == 0xfe
    then if ltb in_len 5 then none else some (5, read_u32_le bytes 1)
    else if prefix == 0xff
    then if ltb in_len 9 then none else some (9, read_u64_le bytes 1)
    else some (1, prefix)

-- The returned length, and the memory behind `out`. The casts to the narrower words are `%`.
unfoldable pub varint_write : List ℕ → ℕ → ℕ → Option ℕ × List ℕ
varint_write out offset value =
    let varint_len = varint_size value in
    if varint_len == 1
    then (some varint_len, set out offset (value % 2 ^ 8))
    else if varint_len == 3
    then (some varint_len, write_u16_le (set out offset 0xfd) (offset + 1) (value % 2 ^ 16))
    else if varint_len == 5
    then (some varint_len, write_u32_le (set out offset 0xfe) (offset + 1) (value % 2 ^ 32))
    else if varint_len == 9
    then (some varint_len, write_u64_le (set out offset 0xff) (offset + 1) value)
    else (none, out)
