-- ===== src/Parser.antt =====
-- common/parser.c: reads from the concatenation of two buffers, and a parser that runs in steps and
-- can be interrupted between them.
pub mod Concat
pub mod Consolidate
pub mod Run
pub mod Stream
pub mod Stepwise
pub mod Outcome
pub mod Resume
pub mod Reads
pub mod Forms
pub mod Loops
pub mod Fixed
pub mod Steps
pub mod Implement
pub mod Refine
pub mod Leftover
pub mod Varint
mod Tests
use membrane_app_bitcoin_new.Common.{
  ℕ, ◌+◌, ◌-◌, List, [], ◌∷◌, Bool, not, Option, none, some, drop, take, replicate, leb, ltb, ◌==◌,
  if◌then◌else◌, get_or, ◌++◌,
}
use membrane_app_bitcoin_new.Buffer.{
  Buffer, Endianness, be, le, add_size, left, copy_to, buffer_can_read, buffer_read_bytes,
}
use membrane_app_bitcoin_new.Bytes.{read_u16_be, read_u16_le, read_u32_be, read_u32_le, read_u64_le}

-- `buffer_t *buffers[2]`.
pub record Buffers : Type 0 where
  pub first : Buffer
  pub second : Buffer

unfoldable pub dbuffer_get_length : Buffers → ℕ
dbuffer_get_length d = add_size (left d.first) (left d.second)

unfoldable pub dbuffer_can_read : Buffers → ℕ → Bool
dbuffer_can_read d n = leb n (dbuffer_get_length d)

-- `if (n > 0) buffer_read_bytes(...)`, whose result is dropped: a failed read would write nothing.
unfoldable pub read_some : Buffer → ℕ → List ℕ × Buffer
read_some b n = elim (buffer_read_bytes b n) [
  | none ↦ ([], b)
  | some (bytes, b') ↦ if ltb 0 n then (bytes, b') else ([], b)
]

-- The bytes copied to `out`; `none` for `false`.
unfoldable pub dbuffer_read_bytes : Buffers → ℕ → Option (List ℕ × Buffers)
dbuffer_read_bytes d n =
    let n0 = if leb n (left d.first) then n else left d.first in
    let (bytes0, first') = read_some d.first n0 in
    let (bytes1, second') = read_some d.second (n - n0) in
    if ltb (add_size (left d.first) (left d.second)) n
    then none
    else some (bytes0 ++ bytes1, record { first = first'; second = second' })

unfoldable pub dbuffer_read_u8 : Buffers → Option (ℕ × Buffers)
dbuffer_read_u8 d = elim (dbuffer_read_bytes d 1) [
  | none ↦ none
  | some (out, d') ↦ some (get_or out 0 0, d')
]

-- The array `tmp` after the read of `n` bytes, and the buffers; the result of the read is dropped.
unfoldable pub read_tmp : Buffers → ℕ → List ℕ × Buffers
read_tmp d n = elim (dbuffer_read_bytes d n) [
  | none ↦ (replicate n 0, d)
  | some (out, d') ↦ (out, d')
]

pub dbuffer_read_u16 : Buffers → Endianness → Option (ℕ × Buffers)
dbuffer_read_u16 d e =
    let (tmp, d') = read_tmp d 2 in
    if not (dbuffer_can_read d 2)
    then none
    else some (elim e [ be ↦ read_u16_be tmp 0 | le ↦ read_u16_le tmp 0 ], d')

pub dbuffer_read_u32 : Buffers → Endianness → Option (ℕ × Buffers)
dbuffer_read_u32 d e =
    let (tmp, d') = read_tmp d 4 in
    if not (dbuffer_can_read d 4)
    then none
    else some (elim e [ be ↦ read_u32_be tmp 0 | le ↦ read_u32_le tmp 0 ], d')

-- The first unread byte, read without a change of the offsets.
unfoldable pub peek_first : Buffers → ℕ
peek_first d =
    if buffer_can_read d.first 1
    then get_or d.first.ptr d.first.offset 0
    else get_or d.second.ptr d.second.offset 0

-- The length without the prefix.
unfoldable pub varint_len : ℕ → ℕ
varint_len first_byte =
    if first_byte == 0xfd
    then 2
    else if first_byte == 0xfe
    then 4
    else if first_byte == 0xff
    then 8
    else 0

-- The bytes behind the prefix, in the array `data` that was zeroed.
unfoldable pub read_rest_of_varint : Buffers → ℕ → ℕ × Buffers
read_rest_of_varint d len =
    let (out, d') = read_tmp d len in (read_u64_le (copy_to (replicate 8 0) 0 out) 0, d')

unfoldable pub dbuffer_read_varint : Buffers → Option (ℕ × Buffers)
dbuffer_read_varint d =
    let len = varint_len (peek_first d) in
    if not (dbuffer_can_read d 1)
    then none
    else if not (dbuffer_can_read d (1 + len))
    then none
    else elim (dbuffer_read_u8 d) [
      | none ↦ none
      | some (first_byte, d1) ↦
          if leb first_byte 0xfc then some (first_byte, d1) else some (read_rest_of_varint d1 len)
    ]

-- The second buffer is left as it is.
unfoldable pub parser_consolidate_buffers : Buffers → ℕ → Option Buffers
parser_consolidate_buffers d max_size =
    let length0 = left d.first in
    let length1 = left d.second in
    let moved = copy_to d.first.ptr 0 (take length0 (drop d.first.offset d.first.ptr)) in
    let joined = copy_to moved length0 (take length1 (drop d.second.offset d.second.ptr)) in
    if ltb max_size (add_size length0 length1)
    then none
    else some
        (record d { first = record { ptr = joined; size = add_size length0 length1; offset = 0 } })

-- What a parsing step returns: -1, 0 or 1.
pub data Progress : Type 0 where
  failed incomplete completed : Progress

-- `parsing_step_t`, with the state and the buffers passed on. The loop does not look into the
-- buffers, which may be of any type `D`.
abbrev pub ParsingStep {ℓ} : Type ℓ → Type 0 → Type ℓ
ParsingStep State D = State → D → Progress × State × D

-- The loop over the steps that are left; the result has `cur_step`, the state and the buffers.
unfoldable pub run_steps {ℓ} :
    {State : Type ℓ} {D : Type 0}
    → List (ParsingStep State D)
    → ℕ
    → State
    → D
    → Progress × ℕ × State × D
run_steps [] cur_step state d = (completed, cur_step, state, d)
run_steps (step ∷ steps) cur_step state d =
    let (result, state', d') = step state d in
    let rest = run_steps steps (cur_step + 1) state' d' in
    elim result [
      | failed ↦ (failed, cur_step, state', d')
      | incomplete ↦ (incomplete, cur_step, state', d')
      | completed ↦ rest
    ]

-- `pic_fn` only relocates the addresses of the steps.
unfoldable pub parser_run {ℓ} :
    {State : Type ℓ} {D : Type 0}
    → List (ParsingStep State D)
    → ℕ
    → State
    → D
    → Progress × ℕ × State × D
parser_run parsing_steps cur_step state d = run_steps (drop cur_step parsing_steps) cur_step state d
