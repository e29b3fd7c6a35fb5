-- ===== src/Bytes/Write.antt =====
-- What `common/write.c` writes: exactly the bytes of the value, in the order asked for, at the
-- offset; and the read functions read it back.
use membrane_app_bitcoin_new.Common.{
  ℕ, zero, suc, ◌+◌, ◌/◌, ◌%◌, ◌^◌, ◌≤◌, ◌<◌, ◌≡◌, ◌∙◌, ap, arith, List, [], ◌∷◌, ◌++◌, length,
  take, drop, length-take, get_or, get_or-take-append, length-drop, set-append_at, drop-append_self,
  drop-drop, take-append-drop,
}
use membrane_app_bitcoin_new.Bytes.{
  byte_at, read_u16_be, read_u32_be, read_u64_be, read_u16_le, read_u32_le, read_u64_le,
  write_u16_be, write_u32_be, write_u64_be, write_u16_le, write_u32_le, write_u64_le,
}
use membrane_app_bitcoin_new.Bytes.Read.{
  read_u16_be-drop, read_u32_be-drop, read_u64_be-drop, read_u16_le-drop, read_u32_le-drop,
  read_u64_le-drop,
}
use membrane_app_bitcoin_new.Bytes.Value.{le16, le32, le64, be16, be32, be64}

-- The bytes of a word of 2, 4 or 8 bytes, lowest first and highest first.
abbrev pub le_bytes : ℕ → ℕ → List ℕ
le_bytes zero v = []
le_bytes (suc n) v = v % 256 ∷ le_bytes n (v / 256)

abbrev pub be_bytes_onto : List ℕ → ℕ → ℕ → List ℕ
be_bytes_onto acc zero v = acc
be_bytes_onto acc (suc n) v = be_bytes_onto (v % 256 ∷ acc) n (v / 256)

abbrev pub be_bytes : ℕ → ℕ → List ℕ
be_bytes = be_bytes_onto []

-- An array with `bs` in place of what stood at the offset.
abbrev pub splice : List ℕ → ℕ → List ℕ → List ℕ
splice ptr offset bs = take offset ptr ++ (bs ++ drop (offset + length bs) ptr)

length-take_self :
    (offset n : ℕ) (ptr : List ℕ) → offset + n ≤ length ptr → length (take offset ptr) ≡ offset
length-take_self offset n ptr fits = omega (arith, length-take offset ptr)

-- The bytes behind the offset of a spliced array.
pub drop-splice :
    (ptr : List ℕ) (offset : ℕ) (bs : List ℕ)
    → offset + length bs ≤ length ptr
    → drop offset (splice ptr offset bs) ≡ bs ++ drop (offset + length bs) ptr
drop-splice ptr offset bs fits =
    rw (length-take_self offset (length bs) ptr fits) at
      (drop-append_self (take offset ptr) (bs ++ drop (offset + length bs) ptr))

le16_onto :
    (pre bs : List ℕ) (v : ℕ)
    → 2 ≤ length bs
    → write_u16_le (pre ++ bs) (length pre) v ≡ pre ++ (le_bytes 2 v ++ drop 2 bs)
unfolding write_u16_le
le16_onto pre (a ∷ b ∷ bs) v fits = simp set-append_at (ap (λ t. pre ++ (t ++ bs)) le16_bytes)
  where
    le16_bytes : byte_at v 0 ∷ byte_at v 8 ∷ [] ≡ le_bytes 2 v
    le16_bytes = ground arith
le16_onto pre _ v fits = absurd (omega arith)

pub write_u16_le-splice :
    (ptr : List ℕ) (offset v : ℕ)
    → offset + 2 ≤ length ptr
    → write_u16_le ptr offset v ≡ splice ptr offset (le_bytes 2 v)
write_u16_le-splice ptr offset v fits =
    rw (take-append-drop, length-take_self offset 2 ptr fits, drop-drop) at
      (le16_onto (take offset ptr) (drop offset ptr) v (omega (arith, length-drop offset ptr)))

le16_read_back : (v : ℕ) (rest : List ℕ) → v < 2 ^ 16 → read_u16_le (le_bytes 2 v ++ rest) 0 ≡ v
unfolding read_u16_le
le16_read_back v rest h =
    le16 (v % 256) ((v / 256) % 256) (omega arith, (omega arith, tt)) ∙ omega arith

pub read_u16_le-write :
    (ptr : List ℕ) (offset v : ℕ)
    → offset + 2 ≤ length ptr
    → v < 2 ^ 16
    → read_u16_le (write_u16_le ptr offset v) offset ≡ v
read_u16_le-write ptr offset v fits h =
    rw
      (
        write_u16_le-splice ptr offset v fits,
        read_u16_le-drop,
        drop-splice ptr offset (le_bytes 2 v) fits,
      )
      (le16_read_back v (drop (offset + 2) ptr) h)

le32_onto :
    (pre bs : List ℕ) (v : ℕ)
    → 4 ≤ length bs
    → write_u32_le (pre ++ bs) (length pre) v ≡ pre ++ (le_bytes 4 v ++ drop 4 bs)
unfolding write_u32_le
le32_onto pre (a ∷ b ∷ c ∷ d ∷ bs) v fits =
    simp set-append_at (ap (λ t. pre ++ (t ++ bs)) le32_bytes)
  where
    le32_bytes : byte_at v 0 ∷ byte_at v 8 ∷ byte_at v 16 ∷ byte_at v 24 ∷ [] ≡ le_bytes 4 v
    le32_bytes = ground arith
le32_onto pre _ v fits = absurd (omega arith)

pub write_u32_le-splice :
    (ptr : List ℕ) (offset v : ℕ)
    → offset + 4 ≤ length ptr
    → write_u32_le ptr offset v ≡ splice ptr offset (le_bytes 4 v)
write_u32_le-splice ptr offset v fits =
    rw (take-append-drop, length-take_self offset 4 ptr fits, drop-drop) at
      (le32_onto (take offset ptr) (drop offset ptr) v (omega (arith, length-drop offset ptr)))

le32_read_back : (v : ℕ) (rest : List ℕ) → v < 2 ^ 32 → read_u32_le (le_bytes 4 v ++ rest) 0 ≡ v
unfolding read_u32_le
le32_read_back v rest h =
    le32 (v % 256) ((v / 256) % 256) (((v / 256) / 256) % 256) ((((v / 256) / 256) / 256) % 256)
      (omega arith, (omega arith, (omega arith, (omega arith, tt))))
    ∙ omega arith

pub read_u32_le-write :
    (ptr : List ℕ) (offset v : ℕ)
    → offset + 4 ≤ length ptr
    → v < 2 ^ 32
    → read_u32_le (write_u32_le ptr offset v) offset ≡ v
read_u32_le-write ptr offset v fits h =
    rw
      (
        write_u32_le-splice ptr offset v fits,
        read_u32_le-drop,
        drop-splice ptr offset (le_bytes 4 v) fits,
      )
      (le32_read_back v (drop (offset + 4) ptr) h)

le64_onto :
    (pre bs : List ℕ) (v : ℕ)
    → 8 ≤ length bs
    → write_u64_le (pre ++ bs) (length pre) v ≡ pre ++ (le_bytes 8 v ++ drop 8 bs)
unfolding write_u64_le
le64_onto pre (a ∷ b ∷ c ∷ d ∷ e ∷ f ∷ g ∷ h ∷ bs) v fits =
    simp set-append_at (ap (λ t. pre ++ (t ++ bs)) le64_bytes)
  where
    le64_bytes :
        byte_at v 0
          ∷ byte_at v 8
          ∷ byte_at v 16
          ∷ byte_at v 24
          ∷ byte_at v 32
          ∷ byte_at v 40
          ∷ byte_at v 48
          ∷ byte_at v 56
          ∷ []
        ≡ le_bytes 8 v
    le64_bytes = ground arith
le64_onto pre _ v fits = absurd (omega arith)

pub write_u64_le-splice :
    (ptr : List ℕ) (offset v : ℕ)
    → offset + 8 ≤ length ptr
    → write_u64_le ptr offset v ≡ splice ptr offset (le_bytes 8 v)
write_u64_le-splice ptr offset v fits =
    rw (take-append-drop, length-take_self offset 8 ptr fits, drop-drop) at
      (le64_onto (take offset ptr) (drop offset ptr) v (omega (arith, length-drop offset ptr)))

le64_read_back : (v : ℕ) (rest : List ℕ) → v < 2 ^ 64 → read_u64_le (le_bytes 8 v ++ rest) 0 ≡ v
unfolding read_u64_le
le64_read_back v rest h =
    le64 (v % 256) ((v / 256) % 256) (((v / 256) / 256) % 256) ((((v / 256) / 256) / 256) % 256)
      (((((v / 256) / 256) / 256) / 256) % 256) ((((((v / 256) / 256) / 256) / 256) / 256) % 256)
      (((((((v / 256) / 256) / 256) / 256) / 256) / 256) % 256)
      ((((((((v / 256) / 256) / 256) / 256) / 256) / 256) / 256) % 256)
      (
        omega arith,
        (
          omega arith,
          (
            omega arith,
            (omega arith, (omega arith, (omega arith, (omega arith, (omega arith, tt))))),
          ),
        ),
      )
    ∙ omega arith

pub read_u64_le-write :
    (ptr : List ℕ) (offset v : ℕ)
    → offset + 8 ≤ length ptr
    → v < 2 ^ 64
    → read_u64_le (write_u64_le ptr offset v) offset ≡ v
read_u64_le-write ptr offset v fits h =
    rw
      (
        write_u64_le-splice ptr offset v fits,
        read_u64_le-drop,
        drop-splice ptr offset (le_bytes 8 v) fits,
      )
      (le64_read_back v (drop (offset + 8) ptr) h)

be16_onto :
    (pre bs : List ℕ) (v : ℕ)
    → 2 ≤ length bs
    → write_u16_be (pre ++ bs) (length pre) v ≡ pre ++ (be_bytes 2 v ++ drop 2 bs)
unfolding write_u16_be
be16_onto pre (a ∷ b ∷ bs) v fits = simp set-append_at (ap (λ t. pre ++ (t ++ bs)) be16_bytes)
  where
    be16_bytes : byte_at v 8 ∷ byte_at v 0 ∷ [] ≡ be_bytes 2 v
    be16_bytes = ground arith
be16_onto pre _ v fits = absurd (omega arith)

pub write_u16_be-splice :
    (ptr : List ℕ) (offset v : ℕ)
    → offset + 2 ≤ length ptr
    → write_u16_be ptr offset v ≡ splice ptr offset (be_bytes 2 v)
write_u16_be-splice ptr offset v fits =
    rw (take-append-drop, length-take_self offset 2 ptr fits, drop-drop) at
      (be16_onto (take offset ptr) (drop offset ptr) v (omega (arith, length-drop offset ptr)))

be16_read_back : (v : ℕ) (rest : List ℕ) → v < 2 ^ 16 → read_u16_be (be_bytes 2 v ++ rest) 0 ≡ v
unfolding read_u16_be
be16_read_back v rest h =
    be16 ((v / 256) % 256) (v % 256) (omega arith, (omega arith, tt)) ∙ omega arith

pub read_u16_be-write :
    (ptr : List ℕ) (offset v : ℕ)
    → offset + 2 ≤ length ptr
    → v < 2 ^ 16
    → read_u16_be (write_u16_be ptr offset v) offset ≡ v
read_u16_be-write ptr offset v fits h =
    rw
      (
        write_u16_be-splice ptr offset v fits,
        read_u16_be-drop,
        drop-splice ptr offset (be_bytes 2 v) fits,
      )
      (be16_read_back v (drop (offset + 2) ptr) h)

be32_onto :
    (pre bs : List ℕ) (v : ℕ)
    → 4 ≤ length bs
    → write_u32_be (pre ++ bs) (length pre) v ≡ pre ++ (be_bytes 4 v ++ drop 4 bs)
unfolding write_u32_be
be32_onto pre (a ∷ b ∷ c ∷ d ∷ bs) v fits =
    simp set-append_at (ap (λ t. pre ++ (t ++ bs)) be32_bytes)
  where
    be32_bytes : byte_at v 24 ∷ byte_at v 16 ∷ byte_at v 8 ∷ byte_at v 0 ∷ [] ≡ be_bytes 4 v
    be32_bytes = ground arith
be32_onto pre _ v fits = absurd (omega arith)

pub write_u32_be-splice :
    (ptr : List ℕ) (offset v : ℕ)
    → offset + 4 ≤ length ptr
    → write_u32_be ptr offset v ≡ splice ptr offset (be_bytes 4 v)
write_u32_be-splice ptr offset v fits =
    rw (take-append-drop, length-take_self offset 4 ptr fits, drop-drop) at
      (be32_onto (take offset ptr) (drop offset ptr) v (omega (arith, length-drop offset ptr)))

be32_read_back : (v : ℕ) (rest : List ℕ) → v < 2 ^ 32 → read_u32_be (be_bytes 4 v ++ rest) 0 ≡ v
unfolding read_u32_be
be32_read_back v rest h =
    be32 ((((v / 256) / 256) / 256) % 256) (((v / 256) / 256) % 256) ((v / 256) % 256) (v % 256)
      (omega arith, (omega arith, (omega arith, (omega arith, tt))))
    ∙ omega arith

pub read_u32_be-write :
    (ptr : List ℕ) (offset v : ℕ)
    → offset + 4 ≤ length ptr
    → v < 2 ^ 32
    → read_u32_be (write_u32_be ptr offset v) offset ≡ v
read_u32_be-write ptr offset v fits h =
    rw
      (
        write_u32_be-splice ptr offset v fits,
        read_u32_be-drop,
        drop-splice ptr offset (be_bytes 4 v) fits,
      )
      (be32_read_back v (drop (offset + 4) ptr) h)

be64_onto :
    (pre bs : List ℕ) (v : ℕ)
    → 8 ≤ length bs
    → write_u64_be (pre ++ bs) (length pre) v ≡ pre ++ (be_bytes 8 v ++ drop 8 bs)
unfolding write_u64_be
be64_onto pre (a ∷ b ∷ c ∷ d ∷ e ∷ f ∷ g ∷ h ∷ bs) v fits =
    simp set-append_at (ap (λ t. pre ++ (t ++ bs)) be64_bytes)
  where
    be64_bytes :
        byte_at v 56
          ∷ byte_at v 48
          ∷ byte_at v 40
          ∷ byte_at v 32
          ∷ byte_at v 24
          ∷ byte_at v 16
          ∷ byte_at v 8
          ∷ byte_at v 0
          ∷ []
        ≡ be_bytes 8 v
    be64_bytes = ground arith
be64_onto pre _ v fits = absurd (omega arith)

pub write_u64_be-splice :
    (ptr : List ℕ) (offset v : ℕ)
    → offset + 8 ≤ length ptr
    → write_u64_be ptr offset v ≡ splice ptr offset (be_bytes 8 v)
write_u64_be-splice ptr offset v fits =
    rw (take-append-drop, length-take_self offset 8 ptr fits, drop-drop) at
      (be64_onto (take offset ptr) (drop offset ptr) v (omega (arith, length-drop offset ptr)))

be64_read_back : (v : ℕ) (rest : List ℕ) → v < 2 ^ 64 → read_u64_be (be_bytes 8 v ++ rest) 0 ≡ v
unfolding read_u64_be
be64_read_back v rest h =
    be64 ((((((((v / 256) / 256) / 256) / 256) / 256) / 256) / 256) % 256)
      (((((((v / 256) / 256) / 256) / 256) / 256) / 256) % 256)
      ((((((v / 256) / 256) / 256) / 256) / 256) % 256) (((((v / 256) / 256) / 256) / 256) % 256)
      ((((v / 256) / 256) / 256) % 256) (((v / 256) / 256) % 256) ((v / 256) % 256) (v % 256)
      (
        omega arith,
        (
          omega arith,
          (
            omega arith,
            (omega arith, (omega arith, (omega arith, (omega arith, (omega arith, tt))))),
          ),
        ),
      )
    ∙ omega arith

pub read_u64_be-write :
    (ptr : List ℕ) (offset v : ℕ)
    → offset + 8 ≤ length ptr
    → v < 2 ^ 64
    → read_u64_be (write_u64_be ptr offset v) offset ≡ v
read_u64_be-write ptr offset v fits h =
    rw
      (
        write_u64_be-splice ptr offset v fits,
        read_u64_be-drop,
        drop-splice ptr offset (be_bytes 8 v) fits,
      )
      (be64_read_back v (drop (offset + 8) ptr) h)

pub get_or-write_u16_le :
    (ptr : List ℕ) (offset v i : ℕ)
    → offset + 2 ≤ length ptr
    → i < offset
    → get_or (write_u16_le ptr offset v) i 0 ≡ get_or ptr i 0
get_or-write_u16_le ptr offset v i fits h =
    rw (write_u16_le-splice ptr offset v fits) (get_or-take-append ptr _ offset i 0 h (omega arith))

pub get_or-write_u32_le :
    (ptr : List ℕ) (offset v i : ℕ)
    → offset + 4 ≤ length ptr
    → i < offset
    → get_or (write_u32_le ptr offset v) i 0 ≡ get_or ptr i 0
get_or-write_u32_le ptr offset v i fits h =
    rw (write_u32_le-splice ptr offset v fits) (get_or-take-append ptr _ offset i 0 h (omega arith))

pub get_or-write_u64_le :
    (ptr : List ℕ) (offset v i : ℕ)
    → offset + 8 ≤ length ptr
    → i < offset
    → get_or (write_u64_le ptr offset v) i 0 ≡ get_or ptr i 0
get_or-write_u64_le ptr offset v i fits h =
    rw (write_u64_le-splice ptr offset v fits) (get_or-take-append ptr _ offset i 0 h (omega arith))
