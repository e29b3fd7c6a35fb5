-- ===== src/MerkleMap.antt =====
-- handler/lib/get_merkleized_map_value_hash.c, get_merkleized_map_value.c,
-- stream_merkle_leaf_element.c, stream_merkleized_map_value.c, check_merkle_tree_sorted.c and
-- get_merkleized_map.c: key-value maps that the host keeps and the device has the Merkle roots of.
pub mod Order
pub mod Sorted
mod Tests
use membrane_app_bitcoin_new.Common.{
  leb, ℕ, zero, suc, ◌+◌, ◌%◌, ◌^◌, ◌≡◌, List, [], ◌∷◌, Bool, true, false, not, ◌&&◌, Option, none,
  some, take, length, min, replicate, ltb, ◌==◌, if◌then◌else◌,
}
use membrane_app_bitcoin_new.Common.Result.{Result, ok, err, ◌>>=◌}
use membrane_app_bitcoin_new.Buffer.{Buffer, buffer_create, buffer_read_varint, buffer_read_bytes}
use membrane_app_bitcoin_new.Dispatcher.{Dispatcher, Exchange}
use membrane_app_bitcoin_new.Preimage.{call_stream_preimage}
use membrane_app_bitcoin_new.Merkle.{
  failing_with, merkle_compute_element_hash, call_get_merkle_leaf_hash, call_get_merkle_leaf_index,
  call_get_merkle_leaf_element,
}

-- `merkleized_map_commitment_t`.
pub record MapCommitment : Type 0 where
  pub size : ℕ
  pub keys_root : List ℕ
  pub values_root : List ℕ

-- The sign of a comparison's result.
pub data Comparison : Type 0 where
  smaller equal larger : Comparison

-- `index < 0`, where `index` is the bit pattern of an `int`.
unfoldable pub is_negative : ℕ → Bool
is_negative index = leb (2 ^ 31) index

-- `memcmp(a, b, n)` on arrays of at least `n` bytes.
memcmp : ℕ → List ℕ → List ℕ → Comparison
memcmp zero xs ys = equal
memcmp (suc n) [] ys = equal
memcmp (suc n) (x ∷ xs) [] = equal
memcmp (suc n) (x ∷ xs) (y ∷ ys) =
    if ltb x y then smaller else if ltb y x then larger else memcmp n xs ys

-- An array is the list of its bytes, so that its length is the list's.
pub compare_byte_arrays : List ℕ → List ℕ → Comparison
compare_byte_arrays array1 array2 =
    let min_len = if ltb (length array1) (length array2) then length array1 else length array2 in
    let by_length =
      if ltb (length array1) (length array2)
      then smaller
      else if ltb (length array2) (length array1)
      then larger
      else equal in
    if min_len == 0 then by_length else elim (memcmp min_len array1 array2) [
      | smaller ↦ smaller
      | equal ↦ by_length
      | larger ↦ larger
    ]

is_smaller : Comparison → Bool
is_smaller smaller = true
is_smaller equal = false
is_smaller larger = false

abbrev pub max_check_merkle_tree_sorted_preimage_size : ℕ
max_check_merkle_tree_sorted_preimage_size = 162

-- `merkle_tree_elements_callback_t`, on a state `S`; it may talk to the host itself.
abbrev pub ElementsCallback : Type 0 → Type 0
ElementsCallback S =
    Option MapCommitment
    → ℕ
    → Buffer
    → S × Dispatcher × List Exchange
    → S × Dispatcher × List Exchange

-- `if (callback != NULL)`.
call_back :
    {S : Type 0}
    → Option (ElementsCallback S)
    → Option MapCommitment
    → ℕ
    → Buffer
    → S × Dispatcher × List Exchange
    → S × Dispatcher × List Exchange
call_back none map_commitment index buf s = s
call_back (some callback) map_commitment index buf s = callback map_commitment index buf s

module _ (sha256 : List ℕ → List ℕ) where
  unfoldable pub call_get_merkleized_map_value_hash :
      List Exchange
      → Dispatcher
      → MapCommitment
      → List ℕ
      → Result (List ℕ × Dispatcher × List Exchange)
  call_get_merkleized_map_value_hash exchanges dc map key =
      elim (call_get_merkle_leaf_index sha256 exchanges dc map.size map.keys_root
        (merkle_compute_element_hash sha256 key)) [
          | err c ↦ err (failing_with 1 c)
          | ok (index, dc1, es1) ↦
              if is_negative index
              then err 1
              else call_get_merkle_leaf_hash sha256 es1 dc1 map.values_root (map.size % 2 ^ 32)
                  index
        ]

  pub call_get_merkleized_map_value :
      List Exchange
      → Dispatcher
      → MapCommitment
      → List ℕ
      → List ℕ
      → ℕ
      → Result (ℕ × Buffer × Dispatcher × List Exchange)
  call_get_merkleized_map_value exchanges dc map key out out_len =
      elim (call_get_merkle_leaf_index sha256 exchanges dc map.size map.keys_root
        (merkle_compute_element_hash sha256 key)) [
          | err c ↦ err (failing_with 1 c)
          | ok (index, dc1, es1) ↦
              if is_negative index
              then err 1
              else call_get_merkle_leaf_element sha256 es1 dc1 map.values_root (map.size % 2 ^ 32)
                  index out out_len
        ]

  pub call_stream_merkle_leaf_element :
      {S : Type 0}
      → List Exchange
      → Dispatcher
      → List ℕ
      → ℕ
      → ℕ
      → Option (ℕ → S → S)
      → (Buffer → S → S)
      → S
      → Result (ℕ × S × Dispatcher × List Exchange)
  call_stream_merkle_leaf_element exchanges dc merkle_root tree_size leaf_index len_callback
        callback state =
      elim (call_get_merkle_leaf_hash sha256 exchanges dc merkle_root tree_size leaf_index) [
        | err c ↦ err (failing_with 1 c)
        | ok (leaf_hash, dc1, es1) ↦
            call_stream_preimage sha256 es1 dc1 leaf_hash len_callback callback state
      ]

  pub call_stream_merkleized_map_value :
      {S : Type 0}
      → List Exchange
      → Dispatcher
      → MapCommitment
      → List ℕ
      → Option (ℕ → S → S)
      → (Buffer → S → S)
      → S
      → Result (ℕ × S × Dispatcher × List Exchange)
  call_stream_merkleized_map_value exchanges dc map key len_callback callback state =
      elim (call_get_merkle_leaf_index sha256 exchanges dc map.size map.keys_root
        (merkle_compute_element_hash sha256 key)) [
          | err c ↦ err (failing_with 1 c)
          | ok (index, dc1, es1) ↦
              if is_negative index
              then err 1
              else call_stream_merkle_leaf_element es1 dc1 map.values_root (map.size % 2 ^ 32) index
                  len_callback callback state
        ]

  -- The element at an index, as the bytes of `cur_el`.
  get_element :
      List Exchange → Dispatcher → List ℕ → ℕ → ℕ → Result (List ℕ × Dispatcher × List Exchange)
  get_element exchanges dc root size index =
      elim (call_get_merkle_leaf_element sha256 exchanges dc root (size % 2 ^ 32) (index % 2 ^ 32)
        (replicate max_check_merkle_tree_sorted_preimage_size 0)
        max_check_merkle_tree_sorted_preimage_size) [
          | err c ↦ err (failing_with 1 c)
          | ok (len, cur_el, dc', es') ↦ ok (take len cur_el.ptr, dc', es')
        ]

  -- The loop, with `n` elements left; `prev_el` is the element before the current one.
  check_from :
      {S : Type 0}
      → ℕ
      → Option (ElementsCallback S)
      → Option MapCommitment
      → List ℕ
      → ℕ
      → ℕ
      → List ℕ
      → S × Dispatcher × List Exchange
      → Result (S × Dispatcher × List Exchange)
  check_from zero callback map_commitment root size cur_el_idx prev_el s = ok s
  check_from (suc n) callback map_commitment root size cur_el_idx prev_el (state, dc, es) =
      elim (get_element es dc root size cur_el_idx) [
        | err c ↦ err (failing_with 1 c)
        | ok (cur_el, dc', es') ↦
            if ltb 0 cur_el_idx && not (is_smaller (compare_byte_arrays prev_el cur_el))
            then err 1
            else check_from n callback map_commitment root size (cur_el_idx + 1) cur_el (
                call_back callback map_commitment cur_el_idx (buffer_create cur_el (length cur_el))
                  (state, dc', es'))
      ]

  pub call_check_merkle_tree_sorted_with_callback :
      {S : Type 0}
      → List ℕ
      → ℕ
      → Option (ElementsCallback S)
      → Option MapCommitment
      → S × Dispatcher × List Exchange
      → Result (S × Dispatcher × List Exchange)
  call_check_merkle_tree_sorted_with_callback root size callback map_commitment s =
      check_from size callback map_commitment root size 0 [] s

  -- The commitment that a serialized element holds: -1 where it is too short.
  read_commitment : Buffer → Result MapCommitment
  read_commitment buf =
      let (size_read, size, b) = buffer_read_varint buf in
      if not size_read then err 1 else elim (buffer_read_bytes b 32) [
        | none ↦ err 1
        | some (keys_root, b1) ↦ elim (buffer_read_bytes b1 32) [
          | none ↦ err 1
          | some (values_root, b2) ↦
              ok (record { size = size; keys_root = keys_root; values_root = values_root })
        ]
      ]

  -- `*out_ptr` stands beside the rest of the result. The argument `out_ptr->size` is passed on as a
  -- `size_t`.
  pub call_get_merkleized_map_with_callback :
      {S : Type 0}
      → List ℕ
      → ℕ
      → ℕ
      → Option (ElementsCallback S)
      → S × Dispatcher × List Exchange
      → Result (MapCommitment × S × Dispatcher × List Exchange)
  call_get_merkleized_map_with_callback root size index callback (state, dc, es) = do
    (el_len, raw_output, dc1, es1) ←
        call_get_merkle_leaf_element sha256 es dc root (size % 2 ^ 32) (index % 2 ^ 32)
          (replicate (9 + 64) 0) (9 + 64)
    out ← read_commitment (buffer_create raw_output.ptr el_len)
    (state', dc', es') ←
        call_check_merkle_tree_sorted_with_callback out.keys_root (out.size % 2 ^ 32) callback
          (some out) (state, dc1, es1)
    ok (out, state', dc', es')
