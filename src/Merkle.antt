-- ===== src/Merkle.antt =====
-- common/merkle.c with `ceil_lg` of common/merkle.h, and the part of handler/lib that walks Merkle
-- trees with the host: get_merkle_leaf_hash.c, get_merkle_leaf_index.c and
-- get_merkle_leaf_element.c.
pub mod Lg
pub mod Verify
mod Tests
use membrane_app_bitcoin_new.Buffer.{
  buffer_can_read, buffer_seek_cur, buffer_read_varint, Buffer, buffer_read_bytes, buffer_read_u8,
}
use membrane_app_bitcoin_new.Varint.{varint_write}
use membrane_app_bitcoin_new.Common.{
  bit_and, zero, true, false, ◌+◌, ◌&&◌, ◌-◌, ◌^◌, not, some, ◌%◌, ◌*◌, ◌||◌, [], bytes_equal, leb,
  ltb, none, replicate, take, ◌++◌, ◌==◌, Option, if◌then◌else◌, suc, ◌∷◌, List, ℕ,
}
use membrane_app_bitcoin_new.Common.Result.{Result, ok, err, ◌>>=◌}
use membrane_app_bitcoin_new.Dispatcher.{
  Dispatcher, Exchange, add_to_response, finalize_response, set_response, process_interruption,
  sw_interrupted_execution,
}
use membrane_app_bitcoin_new.Preimage.{
  ccmd_get_more_elements, current, first_reply, call_get_merkle_preimage,
}

-- The loop of `ceil_lg`, with fuel; `none` means that the fuel ran out. `t` is a `uint32_t`.
pub ceil_lg_loop : ℕ → ℕ → ℕ → ℕ → Option ℕ
ceil_lg_loop zero t r n = none
ceil_lg_loop (suc fuel) t r n =
    let rest = ceil_lg_loop fuel (2 * t % 2 ^ 32) ((r + 1) % 2 ^ 8) n in
    if ltb t n then rest else some r

-- 33 rounds are enough for every `n` for which the loop ends.
pub ceil_lg : ℕ → Option ℕ
ceil_lg n = ceil_lg_loop 33 1 0 n

-- The returned value 0 or 1, or -1; `stuck` if the function does not return.
pub data Direction : Type 0 where
  left right invalid stuck : Direction

-- The loop of `merkle_get_ith_direction`, with fuel.
pub direction_loop : ℕ → ℕ → ℕ → ℕ → ℕ → Direction
direction_loop zero size index n_directions i = if ltb 1 size then stuck else invalid
direction_loop (suc fuel) size index n_directions i =
    let depth = ceil_lg size in
    elim (ltb 1 size) [
      | false ↦ invalid
      | true ↦ elim depth [
        | none ↦ stuck
        | some d ↦
            let mask = 2 ^ (d - 1) in
            let is_right_child = not (bit_and index mask == 0) in
            let go_right = direction_loop fuel (size - mask) (index - mask) (n_directions + 1) i in
            let go_left = direction_loop fuel mask index (n_directions + 1) i in
            if n_directions == i
            then (if is_right_child then right else left)
            else if is_right_child
            then go_right
            else go_left
      ]
    ]

-- A tree of at most 2^31 leaves is at most 31 deep.
pub merkle_get_ith_direction : ℕ → ℕ → ℕ → Direction
merkle_get_ith_direction size index i =
    if leb size 1 || leb size index then invalid else direction_loop 32 size index 0 i

abbrev pub ccmd_get_merkle_leaf_proof : ℕ
ccmd_get_merkle_leaf_proof = 0x41

abbrev pub ccmd_get_merkle_leaf_index : ℕ
ccmd_get_merkle_leaf_index = 0x42

-- `varint_write` to a temporary array, and the bytes that are then sent.
unfoldable pub varint_bytes : ℕ → List ℕ
varint_bytes value =
    let (written, out) = varint_write (replicate 9 0) 0 value in
    elim written [ none ↦ [] | some n ↦ take n out ]

-- A caller returns -n whenever the called function returns an error; a call that does not return
-- stays one.
pub failing_with : ℕ → ℕ → ℕ
failing_with n zero = zero
failing_with n (suc c) = n

module _ (sha256 : List ℕ → List ℕ) where
  unfoldable pub merkle_compute_element_hash : List ℕ → List ℕ
  merkle_compute_element_hash bytes = sha256 (0x00 ∷ bytes)

  pub merkle_combine_hashes : List ℕ → List ℕ → List ℕ
  merkle_combine_hashes l r = sha256 (0x01 ∷ l ++ r)

  -- The proof elements of one reply: `n` of them are left. `err 0` is a run that does not return.
  unfoldable pub climb : ℕ → ℕ → ℕ → ℕ → ℕ → List ℕ → Dispatcher → Result (ℕ × List ℕ × Dispatcher)
  climb zero tree_size leaf_index proof_size cur_step cur_hash dc = ok (cur_step, cur_hash, dc)
  climb (suc n) tree_size leaf_index proof_size cur_step cur_hash dc =
      let sibling = take 32 (current dc) in
      let dc' : Dispatcher = record dc { read_buffer = (buffer_seek_cur dc.read_buffer 32).1 } in
      elim (merkle_get_ith_direction tree_size leaf_index (proof_size - cur_step - 1)) [
        | left ↦
            climb n tree_size leaf_index proof_size (cur_step + 1)
              (merkle_combine_hashes cur_hash sibling) dc'
        | right ↦
            climb n tree_size leaf_index proof_size (cur_step + 1)
              (merkle_combine_hashes sibling cur_hash) dc'
        | invalid ↦ err 1
        | stuck ↦ err 0
      ]

  -- The reply to CCMD_GET_MORE_ELEMENTS.
  pub more_hashes : Exchange → Dispatcher → ℕ → ℕ → Result (ℕ × Dispatcher)
  more_hashes e dc cur_step proof_size =
      let (answered, dc') =
        process_interruption e
          (set_response dc (ccmd_get_more_elements ∷ []) sw_interrupted_execution) in
      let (n_read, n_proof_elements, b) = buffer_read_u8 dc'.read_buffer in
      let (len_read, elements_len, b') = buffer_read_u8 b in
      if not answered
      then err 1
      else if not n_read
      then err 1
      else if not len_read
      then err 1
      else if not (buffer_can_read b' (n_proof_elements * elements_len))
      then err 1
      else if not (elements_len == 32)
      then err 1
      else if ltb proof_size (cur_step + n_proof_elements)
      then err 1
      else ok (n_proof_elements, record dc' { read_buffer = b' })

  -- `while (true)`: `n` proof elements stand in the read buffer. The result is the hash at the top.
  unfoldable pub verify_loop :
      List Exchange
      → ℕ
      → ℕ
      → ℕ
      → ℕ
      → ℕ
      → List ℕ
      → Dispatcher
      → Result (List ℕ × Dispatcher × List Exchange)
  verify_loop [] n tree_size leaf_index proof_size cur_step cur_hash dc = do
    (step, top, dc1) ← climb n tree_size leaf_index proof_size cur_step cur_hash dc
    if step == proof_size then ok (top, dc1, []) else err 1
  verify_loop (e ∷ es) n tree_size leaf_index proof_size cur_step cur_hash dc =
      elim (climb n tree_size leaf_index proof_size cur_step cur_hash dc) [
        | err c ↦ err c
        | ok (step, top, dc1) ↦
            if step == proof_size
            then ok (top, dc1, e ∷ es)
            else elim (more_hashes e dc1 step proof_size) [
              | err c ↦ err c
              | ok (n', dc2) ↦ verify_loop es n' tree_size leaf_index proof_size step top dc2
            ]
      ]

  unfoldable pub request_leaf_proof : Dispatcher → List ℕ → ℕ → ℕ → Dispatcher
  request_leaf_proof dc merkle_root tree_size leaf_index =
      finalize_response
        (add_to_response
          (add_to_response
            (add_to_response (add_to_response dc (ccmd_get_merkle_leaf_proof ∷ [])) merkle_root)
            (varint_bytes tree_size))
          (varint_bytes leaf_index))
        sw_interrupted_execution

  -- The leaf's hash, the length of the proof, and the number of its elements that follow.
  unfoldable pub read_proof_header : Dispatcher → Result (List ℕ × ℕ × ℕ × Dispatcher)
  read_proof_header dc = elim (buffer_read_bytes dc.read_buffer 32) [
    | none ↦ err 1
    | some (cur_hash, b) ↦
        let (size_read, proof_size, b1) = buffer_read_u8 b in
        let (n_read, n_proof_elements, b2) = buffer_read_u8 b1 in
        if not size_read
        then err 1
        else if not n_read
        then err 1
        else if ltb proof_size n_proof_elements
        then err 1
        else if not (buffer_can_read b2 (32 * n_proof_elements))
        then err 1
        else ok (cur_hash, proof_size, n_proof_elements, record dc { read_buffer = b2 })
  ]

  -- `out`, for the returned value 0.
  unfoldable pub call_get_merkle_leaf_hash :
      List Exchange → Dispatcher → List ℕ → ℕ → ℕ → Result (List ℕ × Dispatcher × List Exchange)
  call_get_merkle_leaf_hash exchanges dc merkle_root tree_size leaf_index = do
    (dc1, es1) ← first_reply exchanges (request_leaf_proof dc merkle_root tree_size leaf_index)
    (out, proof_size, n_proof_elements, dc2) ← read_proof_header dc1
    (top, dc3, es2) ← verify_loop es1 n_proof_elements tree_size leaf_index proof_size 0 out dc2
    if bytes_equal merkle_root top then ok (out, dc3, es2) else err 1

  -- The hash of the leaf, and then the element behind it.
  unfoldable pub call_get_merkle_leaf_element :
      List Exchange
      → Dispatcher
      → List ℕ
      → ℕ
      → ℕ
      → List ℕ
      → ℕ
      → Result (ℕ × Buffer × Dispatcher × List Exchange)
  call_get_merkle_leaf_element exchanges dc merkle_root tree_size leaf_index out_ptr out_ptr_len =
      do
        (leaf_hash, dc1, es1) ←
            call_get_merkle_leaf_hash exchanges dc merkle_root tree_size leaf_index
        call_get_merkle_preimage sha256 es1 dc1 leaf_hash out_ptr out_ptr_len

  -- The first exchange returns -3 if it fails.
  unfoldable pub index_reply : List Exchange → Dispatcher → Result (Dispatcher × List Exchange)
  index_reply [] dc = err 3
  index_reply (e ∷ es) dc =
      let (answered, dc') = process_interruption e dc in if answered then ok (dc', es) else err 3

  unfoldable pub read_index : Dispatcher → Result (ℕ × Dispatcher)
  read_index dc =
      let (found_read, found, b) = buffer_read_u8 dc.read_buffer in
      let (index_read, index, b') = buffer_read_varint b in
      if not found_read
      then err 1
      else if not index_read
      then err 1
      else if not (found == 0) && not (found == 1)
      then err 2
      else if found == 0
      then err 3
      else ok (index, record dc { read_buffer = b' })

  unfoldable pub check_leaf :
      List ℕ
      → ℕ
      → Result (List ℕ × Dispatcher × List Exchange)
      → Result (ℕ × Dispatcher × List Exchange)
  check_leaf leaf_hash index (err c) = err (failing_with 4 c)
  check_leaf leaf_hash index (ok (returned, dc, es)) =
      if bytes_equal leaf_hash returned then ok (index % 2 ^ 32, dc, es) else err 5

  -- The index is passed on as a `uint32_t`, and the result is the bit pattern of the
  -- returned `int`.
  unfoldable pub call_get_merkle_leaf_index :
      List Exchange → Dispatcher → ℕ → List ℕ → List ℕ → Result (ℕ × Dispatcher × List Exchange)
  call_get_merkle_leaf_index exchanges dc size root leaf_hash = do
    (dc1, es1) ←
        index_reply exchanges (
          set_response dc (ccmd_get_merkle_leaf_index ∷ root ++ leaf_hash) sw_interrupted_execution)
    (index, dc2) ← read_index dc1
    check_leaf leaf_hash index
        (call_get_merkle_leaf_hash es1 dc2 root (size % 2 ^ 32) (index % 2 ^ 32))
