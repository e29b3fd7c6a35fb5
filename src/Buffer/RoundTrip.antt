-- ===== src/Buffer/RoundTrip.antt =====
-- Writing a word to a buffer and reading it back.
use membrane_app_bitcoin_new.Common.{ℕ, ◌+◌, ◌^◌, ◌≤◌, ◌<◌, ◌≡◌, arith, true, List, length}
use membrane_app_bitcoin_new.Bytes.Write.{
  read_u16_be-write, read_u32_be-write, read_u64_be-write, read_u16_le-write, read_u32_le-write,
  read_u64_le-write,
}
use membrane_app_bitcoin_new.Buffer.{
  Buffer, Endianness, be, le, buffer_can_read, buffer_seek_cur, buffer_snapshot, buffer_restore,
  buffer_read_u16, buffer_read_u32, buffer_read_u64, buffer_write_u16, buffer_write_u32,
  buffer_write_u64, read_u16, read_u32, read_u64, write_u16, write_u32, write_u64,
}
use membrane_app_bitcoin_new.Buffer.Inv.{IsValid}

u16-write :
    (e : Endianness) (ptr : List ℕ) (o v : ℕ)
    → o + 2 ≤ length ptr
    → v < 2 ^ 16
    → read_u16 e (write_u16 e ptr o v) o ≡ v
unfolding read_u16 write_u16
u16-write be ptr o v fits h = read_u16_be-write ptr o v fits h
u16-write le ptr o v fits h = read_u16_le-write ptr o v fits h

-- What a successful `buffer_write_u16` put into a valid buffer is read back, in either byte order:
-- from the position before the write, restored from a snapshot, `buffer_read_u16` returns the value
-- and ends where the write ended.
pub read_u16-write_u16 :
    (e : Endianness) (b : Buffer) (v : ℕ) {b' : Buffer}
    → IsValid b
    → v < 2 ^ 16
    → buffer_write_u16 b v e ≡ (true, b')
    → buffer_read_u16 (buffer_restore b' (buffer_snapshot b)) e ≡ (true, v, b')
unfolding buffer_read_u16 buffer_write_u16 buffer_can_read buffer_seek_cur buffer_restore
    buffer_snapshot
read_u16-write_u16 e b v valid h w = ground (arith, u16-write e b.ptr b.offset v)

u32-write :
    (e : Endianness) (ptr : List ℕ) (o v : ℕ)
    → o + 4 ≤ length ptr
    → v < 2 ^ 32
    → read_u32 e (write_u32 e ptr o v) o ≡ v
unfolding read_u32 write_u32
u32-write be ptr o v fits h = read_u32_be-write ptr o v fits h
u32-write le ptr o v fits h = read_u32_le-write ptr o v fits h

-- What a successful `buffer_write_u32` put into a valid buffer is read back, in either byte order:
-- from the position before the write, restored from a snapshot, `buffer_read_u32` returns the value
-- and ends where the write ended.
pub read_u32-write_u32 :
    (e : Endianness) (b : Buffer) (v : ℕ) {b' : Buffer}
    → IsValid b
    → v < 2 ^ 32
    → buffer_write_u32 b v e ≡ (true, b')
    → buffer_read_u32 (buffer_restore b' (buffer_snapshot b)) e ≡ (true, v, b')
unfolding buffer_read_u32 buffer_write_u32 buffer_can_read buffer_seek_cur buffer_restore
    buffer_snapshot
read_u32-write_u32 e b v valid h w = ground (arith, u32-write e b.ptr b.offset v)

u64-write :
    (e : Endianness) (ptr : List ℕ) (o v : ℕ)
    → o + 8 ≤ length ptr
    → v < 2 ^ 64
    → read_u64 e (write_u64 e ptr o v) o ≡ v
unfolding read_u64 write_u64
u64-write be ptr o v fits h = read_u64_be-write ptr o v fits h
u64-write le ptr o v fits h = read_u64_le-write ptr o v fits h

-- What a successful `buffer_write_u64` put into a valid buffer is read back, in either byte order:
-- from the position before the write, restored from a snapshot, `buffer_read_u64` returns the value
-- and ends where the write ended.
pub read_u64-write_u64 :
    (e : Endianness) (b : Buffer) (v : ℕ) {b' : Buffer}
    → IsValid b
    → v < 2 ^ 64
    → buffer_write_u64 b v e ≡ (true, b')
    → buffer_read_u64 (buffer_restore b' (buffer_snapshot b)) e ≡ (true, v, b')
unfolding buffer_read_u64 buffer_write_u64 buffer_can_read buffer_seek_cur buffer_restore
    buffer_snapshot
read_u64-write_u64 e b v valid h w = ground (arith, u64-write e b.ptr b.offset v)
