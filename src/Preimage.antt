-- ===== src/Preimage.antt =====
-- handler/lib/get_preimage.c, get_merkle_preimage.c and stream_preimage.c: fetching a preimage of a
-- SHA-256 hash from the untrusted host, in one reply or in several. A hash context is the list of the
-- bytes that it was updated with, and `sha256` is the device's hash function. The exchanges with the
-- host are a list, used from the front; when it is used up, an exchange fails.
pub mod Rest
pub mod Sound
pub mod Leaf
pub mod Stream
mod Tests
use membrane_app_bitcoin_new.Common.{
  ℕ, ◌+◌, ◌-◌, ◌*◌, ◌%◌, ◌^◌, ◌==◌, ltb, if◌then◌else◌, ◌||◌, bytes_equal, Option, none, some, List,
  [], ◌∷◌, ◌++◌, Bool, true, false, not, drop, take,
}
use membrane_app_bitcoin_new.Common.Result.{Result, ok, err, ◌>>=◌}
use membrane_app_bitcoin_new.Buffer.{
  Buffer, buffer_create, buffer_read_u8, buffer_read_varint, buffer_can_read, buffer_write_bytes,
  sub_size, add_size,
}
use membrane_app_bitcoin_new.Dispatcher.{
  Dispatcher, Exchange, failed, received, add_to_response, finalize_response, set_response,
  process_interruption, sw_interrupted_execution,
}

abbrev pub ccmd_get_preimage : ℕ
ccmd_get_preimage = 0x40

abbrev pub ccmd_get_more_elements : ℕ
ccmd_get_more_elements = 0xa0

unfoldable pub request_preimage : Dispatcher → List ℕ → Dispatcher
request_preimage dc hash =
    finalize_response
      (add_to_response (add_to_response (add_to_response dc (ccmd_get_preimage ∷ [])) (0 ∷ []))
        hash)
      sw_interrupted_execution

-- The memory at the read position.
abbrev pub current : Dispatcher → List ℕ
current dc = drop dc.read_buffer.offset dc.read_buffer.ptr

-- The first reply: the length of the preimage, and the number of its bytes that follow.
unfoldable pub read_header : Dispatcher → Result (ℕ × ℕ × Dispatcher)
read_header dc =
    let (len_read, preimage_len, b) = buffer_read_varint dc.read_buffer in
    let (count_read, partial_data_len, b') = buffer_read_u8 b in
    if not len_read
    then err 2
    else if not count_read
    then err 2
    else if not (buffer_can_read b' partial_data_len)
    then err 2
    else ok (preimage_len, partial_data_len, record dc { read_buffer = b' })

-- One more reply, to CCMD_GET_MORE_ELEMENTS: the number of its bytes, which follow. The error codes
-- are `code` and the next three.
pub more_elements : ℕ → Exchange → Dispatcher → ℕ → Result (ℕ × Dispatcher)
more_elements code e dc bytes_remaining =
    let (answered, dc') =
      process_interruption e
        (set_response dc (ccmd_get_more_elements ∷ []) sw_interrupted_execution) in
    let (n_read, n_bytes, b) = buffer_read_u8 dc'.read_buffer in
    let (len_read, elements_len, b') = buffer_read_u8 b in
    if not answered
    then err code
    else if not n_read
    then err (code + 1)
    else if not len_read
    then err (code + 1)
    else if not (buffer_can_read b' (n_bytes * elements_len))
    then err (code + 1)
    else if not (elements_len == 1)
    then err (code + 2)
    else if ltb bytes_remaining n_bytes
    then err (code + 3)
    else ok (n_bytes, record dc' { read_buffer = b' })

-- The loop over `bytes_remaining`. `fed` is what the hash context was updated with, and `consume`
-- what the function at hand does with the bytes of a reply.
unfoldable pub read_rest :
    {S : Type 0}
    → (Dispatcher → ℕ → S → S)
    → ℕ
    → List Exchange
    → Dispatcher
    → List ℕ
    → S
    → ℕ
    → Result (List ℕ × S × Dispatcher × List Exchange)
read_rest consume code [] dc fed s bytes_remaining =
    if bytes_remaining == 0 then ok (fed, s, dc, []) else err code
read_rest consume code (e ∷ es) dc fed s bytes_remaining =
    if bytes_remaining == 0
    then ok (fed, s, dc, e ∷ es)
    else elim (more_elements code e dc bytes_remaining) [
      | err c ↦ err c
      | ok (n, dc') ↦
          read_rest consume code es dc' (fed ++ take n (current dc')) (consume dc' n s)
            (bytes_remaining - n)
    ]

-- The first exchange, which returns -1 if it fails.
unfoldable pub first_reply : List Exchange → Dispatcher → Result (Dispatcher × List Exchange)
first_reply [] dc = err 1
first_reply (e ∷ es) dc =
    let (answered, dc') = process_interruption e dc in if answered then ok (dc', es) else err 1

-- The call of `len_callback`, which may be NULL.
abbrev pub tell : {S : Type 0} → Option (ℕ → S → S) → ℕ → S → S
tell none n s = s
tell (some f) n s = f n s

module _ (sha256 : List ℕ → List ℕ) where
  -- The digest of the bytes fed is compared with the hash asked for.
  unfoldable pub check_hash :
      {S : Type 0}
      → ℕ
      → List ℕ
      → ℕ
      → List ℕ × S × Dispatcher × List Exchange
      → Result (ℕ × S × Dispatcher × List Exchange)
  check_hash code hash len (fed, s, dc, es) =
      if bytes_equal (sha256 fed) hash then ok (len, s, dc, es) else err code

  -- `buffer_write_bytes(&buffer_out, data_ptr, n)`: its result is dropped.
  pub write_out : Dispatcher → ℕ → Buffer → Buffer
  write_out dc n out = (buffer_write_bytes out (current dc) n).1

  -- The checks of the lengths, and the loop.
  pub get_rest :
      List Exchange
      → Dispatcher
      → Buffer
      → ℕ
      → ℕ
      → Result (List ℕ × Buffer × Dispatcher × List Exchange)
  get_rest es dc buffer_out preimage_len partial_data_len =
      if ltb preimage_len 1
      then err 3
      else if ltb preimage_len partial_data_len
      then err 4
      else read_rest write_out 5 es dc (take partial_data_len (current dc))
          (write_out dc partial_data_len buffer_out) (preimage_len - partial_data_len)

  -- The returned length, the output buffer and the state. `out` is the memory behind the pointer.
  pub call_get_preimage :
      List Exchange
      → Dispatcher
      → List ℕ
      → List ℕ
      → ℕ
      → Result (ℕ × Buffer × Dispatcher × List Exchange)
  call_get_preimage exchanges dc hash out out_len = do
    (dc1, es1) ← first_reply exchanges (request_preimage dc hash)
    (preimage_len_u64, partial_data_len, dc2) ← read_header dc1
    let preimage_len = preimage_len_u64 % 2 ^ 32
    rest ← get_rest es1 dc2 (buffer_create out out_len) preimage_len partial_data_len
    check_hash 9 hash preimage_len rest

  -- `data_ptr` is an address in the APDU buffer, `at` bytes into the payload. The loop writes from it
  -- although the bytes of a later reply stand at that reply's read position.
  pub write_from : ℕ → Dispatcher → ℕ → Buffer → Buffer
  write_from at dc n out = (buffer_write_bytes out (drop at dc.read_buffer.ptr) n).1

  unfoldable pub merkle_rest :
      List Exchange
      → Dispatcher
      → List ℕ
      → ℕ
      → ℕ
      → ℕ
      → Result (List ℕ × Buffer × Dispatcher × List Exchange)
  merkle_rest es dc out out_len preimage_len partial_data_len =
      if preimage_len == 0 || partial_data_len == 0
      then err 3
      else if ltb out_len (preimage_len - 1)
      then err 4
      else if ltb preimage_len partial_data_len
      then err 5
      else read_rest (write_from dc.read_buffer.offset) 6 es dc (take partial_data_len (current dc))
          (buffer_write_bytes (buffer_create out out_len) (drop 1 (current dc))
            (partial_data_len - 1)).1
          (sub_size (preimage_len % 2 ^ 32) partial_data_len)

  -- The 0x00 prefix of a Merkle tree leaf is hashed but not copied.
  unfoldable pub call_get_merkle_preimage :
      List Exchange
      → Dispatcher
      → List ℕ
      → List ℕ
      → ℕ
      → Result (ℕ × Buffer × Dispatcher × List Exchange)
  call_get_merkle_preimage exchanges dc hash out out_len = do
    (dc1, es1) ← first_reply exchanges (request_preimage dc hash)
    (preimage_len, partial_data_len, dc2) ← read_header dc1
    rest ← merkle_rest es1 dc2 out out_len preimage_len partial_data_len
    check_hash 10 hash (preimage_len - 1) rest

  -- What is told to `len_callback`, and the buffers given to `callback`: `partial_data_len - 1`
  -- becomes a `size_t`.
  unfoldable pub stream_rest :
      {S : Type 0}
      → List Exchange
      → Dispatcher
      → Option (ℕ → S → S)
      → (Buffer → S → S)
      → S
      → ℕ
      → ℕ
      → Result (List ℕ × S × Dispatcher × List Exchange)
  stream_rest {S} es dc len_callback callback state preimage_len partial_data_len =
      let told = tell len_callback (preimage_len - 1) state in
      let initial_buf = buffer_create (drop 1 (current dc)) (sub_size partial_data_len 1) in
      if ltb preimage_len 1
      then err 3
      else if ltb preimage_len partial_data_len
      then err 4
      else read_rest (λ d n s. callback (buffer_create (current d) n) s) 5 es dc
          (take partial_data_len (current dc)) (callback initial_buf told)
          (preimage_len - partial_data_len)

  -- The bytes go to `callback`, one buffer for each reply.
  unfoldable pub call_stream_preimage :
      {S : Type 0}
      → List Exchange
      → Dispatcher
      → List ℕ
      → Option (ℕ → S → S)
      → (Buffer → S → S)
      → S
      → Result (ℕ × S × Dispatcher × List Exchange)
  call_stream_preimage exchanges dc hash len_callback callback state = do
    (dc1, es1) ← first_reply exchanges (request_preimage dc hash)
    (preimage_len_u64, partial_data_len, dc2) ← read_header dc1
    let preimage_len = preimage_len_u64 % 2 ^ 32
    rest ← stream_rest es1 dc2 len_callback callback state preimage_len partial_data_len
    check_hash 9 hash (preimage_len - 1) rest
