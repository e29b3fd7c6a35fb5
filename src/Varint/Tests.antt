-- ===== src/Varint/Tests.antt =====
-- Runs of common/varint.c.
use membrane_app_bitcoin_new.Common.{
  [], ◌∷◌, replicate, some, ◌≡◌, refl, arith, ◌≤◌, ◌<◌, ◌^◌, drop,
}
use membrane_app_bitcoin_new.Bytes.{read_u16_le}
use membrane_app_bitcoin_new.Varint.{varint_read, varint_write, varint_size}
use membrane_app_bitcoin_new.Varint.RoundTrip.{varint_read-write, varint_read-ge_size}

varint_read-write_example :
    varint_read (drop 2 (varint_write (replicate 12 7) 2 300).1) 9 ≡ some (varint_size 300, 300)
unfolding varint_size
varint_read-write_example =
    varint_read-write (replicate 12 7) 2 300 9 (omega arith) (omega arith) (omega arith)

varint_read-ge_size_example : (1 ≤ 3) × (3 ≤ 4) × (300 < 2 ^ 64) × (varint_size 300 ≤ 3)
unfolding varint_read read_u16_le
varint_read-ge_size_example =
    varint_read-ge_size (0xfd ∷ 44 ∷ 1 ∷ 0 ∷ []) 4 3 300
      (omega arith, (omega arith, (omega arith, (omega arith, tt)))) (omega arith) refl
