-- ===== src/Merkle/Tests.antt =====
-- Runs of the Merkle tree functions, on a tree of two leaves. The hash function of the runs keeps the
-- first 32 bytes.
use membrane_app_bitcoin_new.Common.{
  ℕ, [], ◌∷◌, List, refl, arith, ◌≡◌, take, length, replicate, ◌++◌, some, none, ◌+◌, ◌^◌,
}
use membrane_app_bitcoin_new.Buffer.{
  buffer_create, buffer_read_bytes, buffer_read_u8, buffer_can_read, buffer_seek_cur,
}
use membrane_app_bitcoin_new.Varint.{varint_write}
use membrane_app_bitcoin_new.Dispatcher.{
  Dispatcher, Exchange, received, process_interruption, apdu_parser, add_to_response,
  finalize_response, send_response,
}
use membrane_app_bitcoin_new.Preimage.{first_reply}
use membrane_app_bitcoin_new.Merkle.{
  merkle_combine_hashes, direction_loop, merkle_get_ith_direction, climb, verify_loop,
  read_proof_header, varint_bytes, request_leaf_proof, ceil_lg, ceil_lg_loop,
  call_get_merkle_leaf_hash,
}
use membrane_app_bitcoin_new.Merkle.Lg.{IsCeilLg, ceil_lg_lem, ceil_lg-diverges}
use membrane_app_bitcoin_new.Merkle.Verify.{Proof, Follows, root_of, get_merkle_leaf_hash_sound}

ceil_lg_lem_example : (k : ℕ) × (ceil_lg 5 ≡ some k) × IsCeilLg 5 k
ceil_lg_lem_example = ceil_lg_lem 5 (omega arith)

ceil_lg-diverges_example : ceil_lg_loop 33 1 0 (2 ^ 31 + 1) ≡ none
ceil_lg-diverges_example = ceil_lg-diverges (2 ^ 31 + 1) (omega arith) 33

abbrev idle : Dispatcher
idle = record { read_buffer = buffer_create [] 0; response = []; sent = [] }

abbrev first_32 : List ℕ → List ℕ
first_32 x = take 32 x

abbrev leaf : List ℕ
leaf = replicate 32 4

abbrev other_leaf : List ℕ
other_leaf = replicate 32 6

abbrev root : List ℕ
root = 1 ∷ replicate 31 4

-- The leaf, a proof of one element, and that element.
abbrev replies : List Exchange
replies = received (0xf8 ∷ 1 ∷ 0 ∷ 0 ∷ 66 ∷ (leaf ++ (1 ∷ 1 ∷ other_leaf))) 71 ∷ []

get_merkle_leaf_hash_sound_example :
    (proof : Proof) × Follows first_32 2 0 (length proof) proof
    × (root_of first_32 leaf proof ≡ root)
unfolding call_get_merkle_leaf_hash request_leaf_proof varint_bytes varint_write read_proof_header
    verify_loop climb merkle_get_ith_direction direction_loop ceil_lg ceil_lg_loop
    merkle_combine_hashes first_reply process_interruption apdu_parser add_to_response
    finalize_response send_response buffer_create buffer_read_bytes buffer_read_u8 buffer_can_read
    buffer_seek_cur
get_merkle_leaf_hash_sound_example =
    get_merkle_leaf_hash_sound first_32 replies idle root 2 0 leaf _ [] refl
