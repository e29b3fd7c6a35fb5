-- ===== src/Buffer/Steps.antt =====
-- Where the cursor stands after a read of a valid buffer that succeeded.
use membrane_app_bitcoin_new.Common.{ℕ, ◌+◌, ◌≤◌, ◌≡◌, arith, true, drop, Option-cases, inl, inr}
use membrane_app_bitcoin_new.Varint.{varint_read}
use membrane_app_bitcoin_new.Varint.RoundTrip.{varint_read-len}
use membrane_app_bitcoin_new.Buffer.{
  Buffer, left, buffer_can_read, buffer_read_u8, buffer_read_varint,
}
use membrane_app_bitcoin_new.Buffer.Inv.{IsValid, seek_cur_within}
use membrane_app_bitcoin_new.Buffer.Content.{skip}

pub can_read-le :
    (b : Buffer) (n : ℕ) → IsValid b → buffer_can_read b n ≡ true → b.offset + n ≤ b.size
unfolding buffer_can_read
can_read-le b n v h = ground arith

pub record Stepped (b b' : Buffer) (n : ℕ) : Type 0 where
  pub skipped : b' ≡ skip b n
  pub room : b.offset + n ≤ b.size

pub read_u8-Stepped :
    (b : Buffer) → IsValid b → (buffer_read_u8 b).0 ≡ true → Stepped b (buffer_read_u8 b).2 1
unfolding buffer_read_u8 buffer_can_read
read_u8-Stepped b v h = ground (arith, seek_cur_within b 1 v)

pub read_varint-Stepped :
    (b : Buffer)
    → IsValid b
    → (buffer_read_varint b).0 ≡ true
    → (n : ℕ) × (1 ≤ n) × Stepped b (buffer_read_varint b).2 n
unfolding buffer_read_varint
read_varint-Stepped b v h = elim (Option-cases (varint_read (drop b.offset b.ptr) (left b))) [
  | inl e ↦ ground arith
  | inr ((n, x), e) ↦ (
    n,
    (varint_read-len (drop b.offset b.ptr) (left b) n x e).0,
    ground (arith, varint_read-len (drop b.offset b.ptr) (left b) n x e, seek_cur_within b n v),
  )
]

pub skip-IsValid : (b : Buffer) (n : ℕ) → IsValid b → b.offset + n ≤ b.size → IsValid (skip b n)
skip-IsValid b n v h = omega arith
