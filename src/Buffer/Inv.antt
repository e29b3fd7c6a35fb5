-- ===== src/Buffer/Inv.antt =====
-- The invariant of `buffer_t`, and what the operations of common/buffer.c keep of it.
use membrane_app_bitcoin_new.Common.{
  ℕ, ◌+◌, ◌-◌, ◌*◌, ◌≤◌, ◌<◌, ◌≡◌, ◌∙◌, refl, inl, inr, arith, some, List, Bool, true, length, take,
  drop, set, length-set, length-append, length-take, length-drop, Option-cases,
}
use membrane_app_bitcoin_new.Varint.{varint_read}
use membrane_app_bitcoin_new.Bytes.{
  write_u16_be, write_u32_be, write_u64_be, write_u16_le, write_u32_le, write_u64_le,
}
use membrane_app_bitcoin_new.Buffer.{
  buffer_create, add_size, alloc_padding, Buffer, Endianness, be, le, size_mod, left,
  buffer_can_read, buffer_seek_set, buffer_seek_cur, buffer_seek_end, buffer_read_u8,
  buffer_read_u16, buffer_read_u32, buffer_read_u64, buffer_read_varint, buffer_read_bytes,
  buffer_read_bip32_path, buffer_write_u8, buffer_write_u16, buffer_write_u32, buffer_write_u64,
  buffer_write_bytes, buffer_alloc, write_u16, write_u32, write_u64, copy_to,
}

pub record IsValid (b : Buffer) : Type 0 where
  pub within : b.offset ≤ b.size
  pub backed : b.size ≤ length b.ptr
  pub small : b.size < size_mod

pub left_lem : {b : Buffer} → IsValid b → left b ≡ b.size - b.offset
left_lem v = omega arith

-- A step that the buffer has room for moves the offset by exactly that much.
pub seek_cur_within :
    (b : Buffer) (n : ℕ)
    → IsValid b
    → n ≤ b.size - b.offset
    → buffer_seek_cur b n ≡ (true, record b { offset = b.offset + n })
unfolding buffer_seek_cur
seek_cur_within b n v h = ground arith

pub seek_cur-IsValid : (b : Buffer) (n : ℕ) → IsValid b → IsValid (buffer_seek_cur b n).1
unfolding buffer_seek_cur
seek_cur-IsValid b n v = ground arith

-- The operations that move the cursor, or fail and leave it.
pub data Step : Buffer → Buffer → Type 0 where
  seek_set : (b : Buffer) (n : ℕ) → Step b (buffer_seek_set b n).1
  seek_cur : (b : Buffer) (n : ℕ) → Step b (buffer_seek_cur b n).1
  seek_end : (b : Buffer) (n : ℕ) → Step b (buffer_seek_end b n).1
  read_u8 : (b : Buffer) → Step b (buffer_read_u8 b).2
  read_u16 : (b : Buffer) (e : Endianness) → Step b (buffer_read_u16 b e).2
  read_u32 : (b : Buffer) (e : Endianness) → Step b (buffer_read_u32 b e).2
  read_u64 : (b : Buffer) (e : Endianness) → Step b (buffer_read_u64 b e).2
  read_varint : (b : Buffer) → Step b (buffer_read_varint b).2
  read_bytes :
      (b : Buffer) (n : ℕ) {out : List ℕ} {b' : Buffer}
      → buffer_read_bytes b n ≡ some (out, b')
      → Step b b'
  read_path :
      (b : Buffer) (n : ℕ) {out : List ℕ} {b' : Buffer}
      → buffer_read_bip32_path b n ≡ some (out, b')
      → Step b b'
  put_u8 : (b : Buffer) (x : ℕ) → Step b (buffer_write_u8 b x).1
  put_u16 : (b : Buffer) (x : ℕ) (e : Endianness) → Step b (buffer_write_u16 b x e).1
  put_u32 : (b : Buffer) (x : ℕ) (e : Endianness) → Step b (buffer_write_u32 b x e).1
  put_u64 : (b : Buffer) (x : ℕ) (e : Endianness) → Step b (buffer_write_u64 b x e).1
  put_bytes :
      (b : Buffer) (bs : List ℕ) (n : ℕ) → n ≤ length bs → Step b (buffer_write_bytes b bs n).1
  alloc :
      (base : ℕ) (b : Buffer) (n : ℕ) (aligned : Bool) {at : ℕ} {b' : Buffer}
      → buffer_alloc base b n aligned ≡ some (at, b')
      → Step b b'

record Keeps (b b' : Buffer) : Type 0 where
  valid : IsValid b'
  size_kept : b'.size ≡ b.size
  length_kept : length b'.ptr ≡ length b.ptr

seek-Keeps : (b : Buffer) (n : ℕ) → IsValid b → Keeps b (buffer_seek_cur b n).1
unfolding buffer_seek_cur
seek-Keeps b n v = ground arith

length-write_u16 :
    (e : Endianness) (ptr : List ℕ) (o v : ℕ) → length (write_u16 e ptr o v) ≡ length ptr
unfolding write_u16 write_u16_be write_u16_le
length-write_u16 be ptr o v = simp length-set
length-write_u16 le ptr o v = simp length-set

length-write_u32 :
    (e : Endianness) (ptr : List ℕ) (o v : ℕ) → length (write_u32 e ptr o v) ≡ length ptr
unfolding write_u32 write_u32_be write_u32_le
length-write_u32 be ptr o v = simp length-set
length-write_u32 le ptr o v = simp length-set

length-write_u64 :
    (e : Endianness) (ptr : List ℕ) (o v : ℕ) → length (write_u64 e ptr o v) ≡ length ptr
unfolding write_u64 write_u64_be write_u64_le
length-write_u64 be ptr o v = simp length-set
length-write_u64 le ptr o v = simp length-set

pub length-copy_to :
    (ptr : List ℕ) (o : ℕ) (bs : List ℕ)
    → o + length bs ≤ length ptr
    → length (copy_to ptr o bs) ≡ length ptr
unfolding copy_to
length-copy_to ptr o bs h =
    rw (length-append, length-append)
      (omega (arith, length-take o ptr, length-drop (o + length bs) ptr))

-- A write of the same number of bytes, then a step over them.
write-Keeps :
    (b : Buffer) (ptr : List ℕ) (n : ℕ)
    → IsValid b
    → length ptr ≡ length b.ptr
    → Keeps b (buffer_seek_cur (record b { ptr = ptr }) n).1
unfolding buffer_seek_cur
write-Keeps b ptr n v e = ground arith

Step-Keeps : {b b' : Buffer} → Step b b' → IsValid b → Keeps b b'
unfolding buffer_seek_set buffer_seek_end buffer_read_u8 buffer_read_u16 buffer_read_u32
    buffer_read_u64 buffer_read_varint buffer_read_bytes buffer_read_bip32_path buffer_write_u8
    buffer_write_u16 buffer_write_u32 buffer_write_u64 buffer_write_bytes buffer_alloc
    buffer_can_read
Step-Keeps (seek_set b n) v = ground arith
Step-Keeps (seek_cur b n) v = seek-Keeps b n v
Step-Keeps (seek_end b n) v = ground arith
Step-Keeps (read_u8 b) v = ground (arith, seek-Keeps b 1 v)
Step-Keeps (read_u16 b e) v = ground (arith, seek-Keeps b 2 v)
Step-Keeps (read_u32 b e) v = ground (arith, seek-Keeps b 4 v)
Step-Keeps (read_u64 b e) v = ground (arith, seek-Keeps b 8 v)
Step-Keeps (read_varint b) v = elim (Option-cases (varint_read (drop b.offset b.ptr) (left b))) [
  | inl e ↦ rw (e, buffer_read_varint) (omega arith)
  | inr (p, e) ↦ rw (e, buffer_read_varint) (seek-Keeps b p.0 v)
]
Step-Keeps (read_bytes b n e) v = ground (arith, seek-Keeps b n v)
Step-Keeps (read_path b n e) v = ground (arith, seek-Keeps b (4 * n) v)
Step-Keeps (put_u8 b x) v =
    ground (arith, write-Keeps b (set b.ptr b.offset x) 1 v (length-set b.ptr b.offset x))
Step-Keeps (put_u16 b x e) v =
    ground (
      arith,
      write-Keeps b (write_u16 e b.ptr b.offset x) 2 v (length-write_u16 e b.ptr b.offset x),
    )
Step-Keeps (put_u32 b x e) v =
    ground (
      arith,
      write-Keeps b (write_u32 e b.ptr b.offset x) 4 v (length-write_u32 e b.ptr b.offset x),
    )
Step-Keeps (put_u64 b x e) v =
    ground (
      arith,
      write-Keeps b (write_u64 e b.ptr b.offset x) 8 v (length-write_u64 e b.ptr b.offset x),
    )
Step-Keeps (put_bytes b bs n h) v = ground (
  arith,
  write-Keeps b (copy_to b.ptr b.offset (take n bs)) n v,
  length-copy_to b.ptr b.offset (take n bs),
  length-take n bs,
)
Step-Keeps (alloc base b n aligned e) v =
    ground (arith, seek-Keeps b (add_size (alloc_padding base b aligned) n) v)

-- Reachability by any sequence of operations.
pub data Reach (b : Buffer) : Buffer → Type 0 where
  here : Reach b b
  next : {c d : Buffer} → Reach b c → Step c d → Reach b d

Reach-Keeps : {b c : Buffer} → IsValid b → Reach b c → Keeps b c
Reach-Keeps v here = record { valid = v; size_kept = refl; length_kept = refl }
Reach-Keeps v (next r st) =
    let k = Reach-Keeps v r in
    let k' = Step-Keeps st k.valid in
    record {
      valid = k'.valid;
      size_kept = k'.size_kept ∙ k.size_kept;
      length_kept = k'.length_kept ∙ k.length_kept;
    }

-- From a valid buffer, any sequence of seeks, reads, writes and allocations of common/buffer.c
-- (those that fail and those that succeed) leads to a buffer that is valid again: the offset lies
-- within the size and the size within the memory. The size and the memory's length are unchanged.
-- A write of raw bytes is taken with a source that has the bytes.
pub Reach-IsValid :
    {b c : Buffer}
    → IsValid b
    → Reach b c
    → IsValid c × (c.size ≡ b.size) × (length c.ptr ≡ length b.ptr)
Reach-IsValid v r = let k = Reach-Keeps v r in (k.valid, k.size_kept, k.length_kept)

pub create-IsValid :
    (ptr : List ℕ) (size : ℕ)
    → size ≤ length ptr
    → size < size_mod
    → IsValid (buffer_create ptr size) × ((buffer_create ptr size).offset ≡ 0)
unfolding buffer_create
create-IsValid ptr size h k = omega arith
