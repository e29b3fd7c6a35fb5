-- ===== src/Buffer/Tests.antt =====
-- Runs of common/buffer.c.
use membrane_app_bitcoin_new.Common.{
  [], ◌∷◌, some, none, ◌≡◌, refl, arith, true, length, take, drop, leb, if◌then◌else◌,
}
use membrane_app_bitcoin_new.Buffer.{
  buffer_can_read, buffer_seek_cur, Buffer, be, le, buffer_read_bytes, buffer_read_u8,
  buffer_read_u16, buffer_read_u32, buffer_read_u64, buffer_write_u16, buffer_write_u32,
  buffer_write_u64, buffer_restore, buffer_snapshot,
}
use membrane_app_bitcoin_new.Buffer.Inv.{IsValid, here, next, read_u8, seek_cur, Reach-IsValid}
use membrane_app_bitcoin_new.Buffer.Content.{content, skip, read_bytes_lem, word_read, read_words}
use membrane_app_bitcoin_new.Buffer.RoundTrip.{
  read_u16-write_u16, read_u32-write_u32, read_u64-write_u64,
}

abbrev nine : Buffer
nine = record { ptr = 1 ∷ 2 ∷ 3 ∷ 4 ∷ 5 ∷ 6 ∷ 7 ∷ 8 ∷ 9 ∷ []; size = 9; offset = 1 }

nine-IsValid : IsValid nine
nine-IsValid = record { within = omega arith; backed = omega arith; small = omega arith }

Reach-IsValid_example :
    IsValid (buffer_read_u8 (buffer_seek_cur nine 3).1).2
    × ((buffer_read_u8 (buffer_seek_cur nine 3).1).2.size ≡ 9)
    × (length (buffer_read_u8 (buffer_seek_cur nine 3).1).2.ptr ≡ 9)
Reach-IsValid_example =
    Reach-IsValid nine-IsValid
      (next (next here (seek_cur nine 3)) (read_u8 (buffer_seek_cur nine 3).1))

read_bytes_lem_example :
    (buffer_read_bytes nine 3
      ≡ (if leb 3 (length (content nine)) then some (take 3 (content nine), skip nine 3) else none))
    × (content (skip nine 3) ≡ drop 3 (content nine))
read_bytes_lem_example = read_bytes_lem nine 3 nine-IsValid

read_words_example :
    (buffer_read_u16 nine be ≡ word_read 2 be nine)
    × (buffer_read_u32 nine be ≡ word_read 4 be nine)
    × (buffer_read_u64 nine be ≡ word_read 8 be nine)
read_words_example = read_words be nine nine-IsValid (
  omega arith,
  (
    omega arith,
    (
      omega arith,
      (omega arith, (omega arith, (omega arith, (omega arith, (omega arith, (omega arith, tt)))))),
    ),
  ),
)

read_u16-write_u16_example :
    buffer_read_u16 (buffer_restore (buffer_write_u16 nine 300 le).1 (buffer_snapshot nine)) le
    ≡ (true, 300, (buffer_write_u16 nine 300 le).1)
unfolding buffer_write_u16 buffer_can_read buffer_seek_cur
read_u16-write_u16_example = read_u16-write_u16 le nine 300 nine-IsValid (omega arith) refl

read_u32-write_u32_example :
    buffer_read_u32 (buffer_restore (buffer_write_u32 nine 70000 be).1 (buffer_snapshot nine)) be
    ≡ (true, 70000, (buffer_write_u32 nine 70000 be).1)
unfolding buffer_write_u32 buffer_can_read buffer_seek_cur
read_u32-write_u32_example = read_u32-write_u32 be nine 70000 nine-IsValid (omega arith) refl

read_u64-write_u64_example :
    buffer_read_u64 (buffer_restore (buffer_write_u64 nine 70000 le).1 (buffer_snapshot nine)) le
    ≡ (true, 70000, (buffer_write_u64 nine 70000 le).1)
unfolding buffer_write_u64 buffer_can_read buffer_seek_cur
read_u64-write_u64_example = read_u64-write_u64 le nine 70000 nine-IsValid (omega arith) refl
