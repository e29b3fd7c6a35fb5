-- ===== src/Policy/Number.antt =====
-- common/wallet.c: `is_digit` and `parse_unsigned_decimal`, which reads a number of a descriptor
-- template.
pub mod Decimal
use membrane_app_bitcoin_new.Buffer.{buffer_seek_cur, buffer_peek, left, Buffer}
use membrane_app_bitcoin_new.Common.{
  ◌^◌, ◌%◌, ◌-◌, ◌*◌, ltb, not, ◌&&◌, ◌+◌, ◌==◌, if◌then◌else◌, leb, Bool, Option, ℕ, zero, suc,
  none, some, true, false,
}

unfoldable pub is_digit : ℕ → Bool
is_digit c = leb 48 c && leb c 57

-- The loop, with the number and the count of the digits read. It has fuel for one round more than
-- there are bytes to read; `none` for -1.
unfoldable pub digit_loop : ℕ → Buffer → ℕ → ℕ → Option (ℕ × ℕ × Buffer)
digit_loop zero buffer result digits_read = none
digit_loop (suc fuel) buffer result digits_read = elim (buffer_peek buffer) [
  | none ↦ some (result, digits_read, buffer)
  | some c ↦
      if not (is_digit c)
      then some (result, digits_read, buffer)
      else if (digits_read + 1 == 2) && (result == 0)
      then none
      else if ltb ((10 * result + (c - 48)) % 2 ^ 32) result
      then none
      else digit_loop fuel (buffer_seek_cur buffer 1).1 ((10 * result + (c - 48)) % 2 ^ 32)
          (digits_read + 1)
]

abbrev pub some_digits : Option (ℕ × ℕ × Buffer) → Option (ℕ × Buffer)
some_digits none = none
some_digits (some (result, digits_read, buffer)) =
    if digits_read == 0 then none else some (result, buffer)

unfoldable pub parse_unsigned_decimal : Buffer → Option (ℕ × Buffer)
parse_unsigned_decimal buffer = some_digits (digit_loop (left buffer + 1) buffer 0 0)
