-- ===== src/Preimage/Tests.antt =====
-- Runs of the functions of handler/lib that fetch a preimage. The hash function of the runs returns
-- its argument, so that a hash is its own preimage.
use membrane_app_bitcoin_new.Dispatcher.Received.{Fits}
use membrane_app_bitcoin_new.Common.{
  All, ℕ, [], ◌∷◌, List, refl, arith, ◌≡◌, ◌≤◌, take, length, none, ◌++◌,
}
use membrane_app_bitcoin_new.Buffer.{
  Buffer, buffer_create, buffer_read_varint, buffer_read_u8, buffer_can_read, buffer_seek_cur,
  buffer_write_bytes, copy_to,
}
use membrane_app_bitcoin_new.Buffer.Content.{content}
use membrane_app_bitcoin_new.Varint.{varint_read}
use membrane_app_bitcoin_new.Dispatcher.{
  Dispatcher, Exchange, received, process_interruption, apdu_parser, add_to_response,
  finalize_response, set_response, send_response,
}
use membrane_app_bitcoin_new.Preimage.{
  check_hash, write_from, write_out, more_elements, read_rest, get_rest, merkle_rest, stream_rest,
  read_header, request_preimage, first_reply, call_get_preimage, call_get_merkle_preimage,
  call_stream_preimage,
}
use membrane_app_bitcoin_new.Preimage.Sound.{get_preimage_sound}
use membrane_app_bitcoin_new.Preimage.Leaf.{get_merkle_preimage_sound}
use membrane_app_bitcoin_new.Preimage.Stream.{stream_preimage_sound, feed, contents}

abbrev idle : Dispatcher
idle = record { read_buffer = buffer_create [] 0; response = []; sent = [] }

-- One byte of three, and then the other two.
abbrev replies : List Exchange
replies =
    received (0xf8 ∷ 1 ∷ 0 ∷ 0 ∷ 3 ∷ 3 ∷ 1 ∷ 0 ∷ []) 8
    ∷ received (0xf8 ∷ 1 ∷ 0 ∷ 0 ∷ 4 ∷ 2 ∷ 1 ∷ 8 ∷ 9 ∷ []) 9
    ∷ []

replies-Fit : All Fits replies
replies-Fit = ((omega arith, omega arith), ((omega arith, omega arith), tt))

get_preimage_sound_example : take {A = ℕ} 3 (0 ∷ 8 ∷ 9 ∷ 5 ∷ []) ≡ 0 ∷ 8 ∷ 9 ∷ []
unfolding call_get_preimage first_reply request_preimage read_header get_rest read_rest
    more_elements write_out check_hash process_interruption apdu_parser add_to_response
    finalize_response set_response send_response buffer_create buffer_read_varint buffer_read_u8
    buffer_can_read buffer_seek_cur buffer_write_bytes copy_to varint_read
get_preimage_sound_example =
    get_preimage_sound (λ x. x) replies idle (0 ∷ 8 ∷ 9 ∷ []) (5 ∷ 5 ∷ 5 ∷ 5 ∷ []) 4
      {b = record { ptr = 0 ∷ 8 ∷ 9 ∷ 5 ∷ []; size = 4; offset = 3 }} replies-Fit (omega arith)
      (omega arith) refl (omega arith)

get_merkle_preimage_sound_example :
    (2 ≤ 4) × (x : ℕ) × (x ∷ take 2 (8 ∷ 9 ∷ 5 ∷ 5 ∷ []) ≡ 0 ∷ 8 ∷ 9 ∷ [])
unfolding call_get_merkle_preimage first_reply request_preimage read_header merkle_rest read_rest
    more_elements write_from check_hash process_interruption apdu_parser add_to_response
    finalize_response set_response send_response buffer_create buffer_read_varint buffer_read_u8
    buffer_can_read buffer_seek_cur buffer_write_bytes copy_to varint_read
get_merkle_preimage_sound_example =
    get_merkle_preimage_sound (λ x. x) replies idle (0 ∷ 8 ∷ 9 ∷ []) (5 ∷ 5 ∷ 5 ∷ 5 ∷ []) 4
      {b = record { ptr = 8 ∷ 9 ∷ 5 ∷ 5 ∷ []; size = 4; offset = 2 }} replies-Fit (omega arith)
      (omega arith) refl refl refl refl

-- A callback that keeps the bytes it is given.
abbrev keep : Buffer → List ℕ → List ℕ
keep b s = s ++ content b

stream_preimage_sound_example :
    (pieces : List Buffer) × (8 ∷ 9 ∷ [] ≡ feed keep pieces [])
    × (length (contents pieces) ≡ 2)
    × (x : ℕ) × (x ∷ contents pieces ≡ 0 ∷ 8 ∷ 9 ∷ [])
unfolding call_stream_preimage first_reply request_preimage read_header stream_rest read_rest
    more_elements check_hash process_interruption apdu_parser add_to_response finalize_response
    set_response send_response buffer_create buffer_read_varint buffer_read_u8 buffer_can_read
    buffer_seek_cur varint_read
stream_preimage_sound_example =
    stream_preimage_sound (λ x. x) keep replies idle (0 ∷ 8 ∷ 9 ∷ []) none [] replies-Fit refl refl
      (omega arith) (omega arith) refl
