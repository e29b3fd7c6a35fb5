-- ===== src/Buffer/Written.antt =====
-- An output buffer that is filled from its start by `buffer_write_bytes`.
use membrane_app_bitcoin_new.Common.{
  take-append_self, drop, append_assoc, length-append, refl, [], arith, true, ◌++◌, ◌^◌, ◌+◌, ◌<◌,
  length, take, ◌≡◌, ◌≤◌, ℕ, List,
}
use membrane_app_bitcoin_new.Buffer.{
  Buffer, buffer_create, buffer_can_read, buffer_write_bytes, copy_to,
}
use membrane_app_bitcoin_new.Buffer.Inv.{length-copy_to, IsValid, seek_cur_within}

-- `fed` is what has been written.
pub record Written (out : Buffer) (fed : List ℕ) : Type 0 where
  pub valid : IsValid out
  pub filled : out.offset ≡ length fed
  pub bytes : take (length fed) out.ptr ≡ fed

pub create-Written :
    (ptr : List ℕ) (size : ℕ)
    → size ≤ length ptr
    → size < 2 ^ 32
    → Written (buffer_create ptr size) [] × ((buffer_create ptr size).size ≡ size)
unfolding buffer_create
create-Written ptr size h k = (record { valid = omega arith; filled = refl; bytes = refl }, refl)

-- The buffer behind a write of `n` bytes that fit.
abbrev after_write : Buffer → List ℕ → ℕ → Buffer
after_write out bs n = record out {
  ptr = copy_to out.ptr out.offset (take n bs);
  offset = out.offset + n;
}

copied-IsValid :
    (out : Buffer) (bs : List ℕ)
    → IsValid out
    → out.offset + length bs ≤ out.size
    → IsValid (record out { ptr = copy_to out.ptr out.offset bs })
copied-IsValid out bs v h = omega (arith, length-copy_to out.ptr out.offset bs (omega arith))

write_fits :
    (out : Buffer) (bs : List ℕ) (n : ℕ)
    → IsValid out
    → length (take n bs) ≡ n
    → out.offset + n ≤ out.size
    → buffer_write_bytes out bs n ≡ (true, after_write out bs n)
unfolding buffer_write_bytes buffer_can_read
write_fits out bs n v e h = ground (
  arith,
  copied-IsValid out (take n bs) v (omega arith),
  seek_cur_within (record out { ptr = copy_to out.ptr out.offset (take n bs) }) n,
)

copied_bytes :
    (out : Buffer) (fed bs : List ℕ)
    → out.offset ≡ length fed
    → take (length fed) out.ptr ≡ fed
    → take (length (fed ++ bs)) (copy_to out.ptr out.offset bs) ≡ fed ++ bs
unfolding copy_to
copied_bytes out fed bs e h =
    rw (e, h, ← append_assoc fed bs (drop (length fed + length bs) out.ptr))
      (take-append_self (fed ++ bs) (drop (length fed + length bs) out.ptr))

pub write_bytes-Written :
    (out : Buffer) (fed bs : List ℕ) (n : ℕ)
    → Written out fed
    → length (take n bs) ≡ n
    → length fed + n ≤ out.size
    → Written (buffer_write_bytes out bs n).1 (fed ++ take n bs)
      × ((buffer_write_bytes out bs n).1.size ≡ out.size)
write_bytes-Written out fed bs n w e h =
    let v' = copied-IsValid out (take n bs) w.valid (omega arith) in
    rw (write_fits out bs n w.valid e (omega arith)) (
      record {
        valid = omega arith;
        filled = omega (arith, length-append fed (take n bs));
        bytes = copied_bytes out fed (take n bs) w.filled w.bytes;
      },
      refl,
    )
