-- ===== src/MerkleMap/Tests.antt =====
-- Runs of handler/lib/check_merkle_tree_sorted.c. The hash function of the run keeps the first 32
-- bytes.
use membrane_app_bitcoin_new.Common.{
  ℕ, [], ◌∷◌, List, refl, ◌≡◌, ◌↔◌, take, length, replicate, ◌++◌, none,
}
use membrane_app_bitcoin_new.Buffer.{
  buffer_create, buffer_read_varint, buffer_write_bytes, copy_to, buffer_read_bytes, buffer_read_u8,
  buffer_can_read, buffer_seek_cur,
}
use membrane_app_bitcoin_new.Varint.{varint_write, varint_read}
use membrane_app_bitcoin_new.Dispatcher.{
  Dispatcher, Exchange, received, process_interruption, apdu_parser, add_to_response,
  finalize_response, send_response,
}
use membrane_app_bitcoin_new.Preimage.{
  first_reply, call_get_merkle_preimage, request_preimage, read_header, merkle_rest, read_rest,
  check_hash,
}
use membrane_app_bitcoin_new.Merkle.{
  call_get_merkle_leaf_hash, call_get_merkle_leaf_element, request_leaf_proof, read_proof_header,
  verify_loop, climb, varint_bytes,
}
use membrane_app_bitcoin_new.MerkleMap.{
  get_element, call_back, check_from, compare_byte_arrays, smaller,
  call_check_merkle_tree_sorted_with_callback,
}
use membrane_app_bitcoin_new.MerkleMap.Order.{Lex, compare_byte_arrays_lem}
use membrane_app_bitcoin_new.MerkleMap.Sorted.{Descends, check_merkle_tree_sorted_sound}

compare_byte_arrays_lem_example :
    (compare_byte_arrays (1 ∷ 2 ∷ []) (1 ∷ 2 ∷ 0 ∷ []) ≡ smaller)
    ↔ Lex (1 ∷ 2 ∷ []) (1 ∷ 2 ∷ 0 ∷ [])
compare_byte_arrays_lem_example = compare_byte_arrays_lem (1 ∷ 2 ∷ []) (1 ∷ 2 ∷ 0 ∷ [])

abbrev idle : Dispatcher
idle = record { read_buffer = buffer_create [] 0; response = []; sent = [] }

abbrev first_32 : List ℕ → List ℕ
first_32 x = take 32 x

-- The only element's 31 bytes, of value 4.
abbrev element : List ℕ
element = replicate 31 4

-- A proof without elements, and the leaf's preimage.
abbrev replies : List Exchange
replies =
    received (0xf8 ∷ 1 ∷ 0 ∷ 0 ∷ 34 ∷ ((0 ∷ element) ++ (0 ∷ 0 ∷ []))) 39
    ∷ received (0xf8 ∷ 1 ∷ 0 ∷ 0 ∷ 34 ∷ (32 ∷ 32 ∷ 0 ∷ element)) 39
    ∷ []

check_merkle_tree_sorted_sound_example : (length (element ∷ []) ≡ 1) × Descends (element ∷ [])
unfolding call_check_merkle_tree_sorted_with_callback check_from call_back get_element
    call_get_merkle_leaf_element call_get_merkle_leaf_hash request_leaf_proof varint_bytes
    varint_write read_proof_header verify_loop climb first_reply process_interruption apdu_parser
    add_to_response finalize_response send_response buffer_create buffer_read_bytes buffer_read_u8
    buffer_can_read buffer_seek_cur call_get_merkle_preimage request_preimage read_header
    merkle_rest read_rest check_hash buffer_read_varint varint_read buffer_write_bytes copy_to
check_merkle_tree_sorted_sound_example =
    check_merkle_tree_sorted_sound first_32 none (0 ∷ element) 1 idle replies (element ∷ []) _ []
      refl
