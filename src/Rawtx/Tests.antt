-- ===== src/Rawtx/Tests.antt =====
-- Runs of the parser for a transaction of psbt_parse_rawtx.c.
use membrane_app_bitcoin_new.Rawtx.Leftover.{leftover_lem, OversizedState}
use membrane_app_bitcoin_new.Parser.Leftover.{RunLeft}
use membrane_app_bitcoin_new.Preimage.{
  call_stream_preimage, check_hash, read_rest, stream_rest, read_header, request_preimage,
  first_reply,
}
use membrane_app_bitcoin_new.Merkle.{
  climb, verify_loop, read_proof_header, varint_bytes, request_leaf_proof,
  call_get_merkle_leaf_hash, merkle_compute_element_hash, check_leaf, read_index, index_reply,
  call_get_merkle_leaf_index,
}
use membrane_app_bitcoin_new.MerkleMap.{
  is_negative, call_get_merkleized_map_value_hash, MapCommitment,
}
use membrane_app_bitcoin_new.Dispatcher.{
  send_response, set_response, finalize_response, add_to_response, apdu_parser,
  process_interruption, received, Dispatcher, Exchange,
}
use membrane_app_bitcoin_new.Rawtx.Pieces.{pieces_lem, pieces_same}
use membrane_app_bitcoin_new.Preimage.Stream.{contents}
use membrane_app_bitcoin_new.Preimage.Stream.{feed}
use membrane_app_bitcoin_new.Rawtx.Call.{psbt_parse_rawtx_sound, sub_parsers_never_fail}
use membrane_app_bitcoin_new.Rawtx.Buffered.{parse_rawtx_buffers}
use membrane_app_bitcoin_new.Rawtx.Resume.{parse_rawtx_resumes}
use membrane_app_bitcoin_new.Parser.Stream.{unread, buffers}
use membrane_app_bitcoin_new.Parser.Refine.{RunAgrees}
use membrane_app_bitcoin_new.Parser.Implement.{Ready}
use membrane_app_bitcoin_new.Parser.Steps.{RunContinues}
use membrane_app_bitcoin_new.Bytes.{read_u64_le}
use membrane_app_bitcoin_new.Buffer.{
  buffer_read_varint, buffer_seek_cur, buffer_can_read, buffer_read_u8, buffer_read_bytes,
  buffer_create, Buffer, copy_to,
}
use membrane_app_bitcoin_new.Varint.{varint_size, varint_read, varint_write}
use membrane_app_bitcoin_new.Rawtx.Chunks.{Matches, AlwaysFit, IsPiece, parse}
use membrane_app_bitcoin_new.Parser.Stepwise.{
  skip_if, until_body, while_body, loop, run_loop, update, read_varint_then, read_then,
}
use membrane_app_bitcoin_new.Rawtx.Whole.{
  parse_rawtx_locktime, parse_rawtx_witnesses, parse_rawtx_witnesses_init, count_output,
  more_outputs, parse_rawtx_outputs, parse_rawtx_outputs_init, parse_rawtx_output_count,
  count_input, sub_parser, more_inputs, parse_rawtx_inputs, parse_rawtx_inputs_init,
  parse_rawtx_input_count, check_flag, check_segwit, parse_rawtx_check_segwit, on_rawtx,
  parse_rawtx_version, parse_rawtx_steps,
}
use membrane_app_bitcoin_new.Rawtx.Flow.{
  keep_unparsed, call_psbt_parse_rawtx, cb_process_data, init_flow, FlowState,
}
use membrane_app_bitcoin_new.Rawtx.{
  is_relevant, count_scriptpubkey, scriptpubkey_done, use_scriptpubkey, use_scriptpubkey_size,
  use_value, parse_rawtxoutput_scriptpubkey, parse_rawtxoutput_scriptpubkey_init,
  parse_rawtxoutput_scriptpubkey_size, parse_rawtxoutput_value, parse_rawtxoutput_steps,
  scriptsig_done, use_scriptsig, minus_u32, data_len, parse_rawtxinput_sequence,
  parse_rawtxinput_scriptsig, parse_rawtxinput_scriptsig_init, parse_rawtxinput_scriptsig_size,
  parse_rawtxinput_vout, parse_rawtxinput_txid, hash_update, encoded, parse_rawtxinput_steps,
  hash_update_varint, hash_next, ParserOutputs, Rawtx, RawtxState,
}
use membrane_app_bitcoin_new.Common.Result.{ok, err}
use membrane_app_bitcoin_new.Common.{
  take, arith, ℕ, List, [], ◌∷◌, false, some, ◌≡◌, refl, ◌++◌, replicate,
}
use membrane_app_bitcoin_new.Parser.{
  parser_consolidate_buffers, dbuffer_read_varint, read_rest_of_varint, varint_len, peek_first,
  read_tmp, dbuffer_read_u8, dbuffer_read_bytes, read_some, dbuffer_can_read, dbuffer_get_length,
  failed, run_steps, parser_run, completed,
}

abbrev no_outputs : ParserOutputs
no_outputs = record { vout_value = 0; vout_scriptpubkey_len = 0; vout_scriptpubkey = [] }

abbrev no_rawtx : Rawtx
no_rawtx = record {
  hashed = [];
  is_segwit = false;
  n_inputs = 0;
  n_outputs = 0;
  in_counter = 0;
  scriptsig_size = 0;
  scriptsig_counter = 0;
  out_counter = 0;
  scriptpubkey_size = 0;
  scriptpubkey_counter = 0;
  wit_counter = 0;
  wit_stack_el_counter = 0;
  cur_wit_stack_elements = 0;
  cur_wit_elem_len = 0;
  cur_wit_el_bytes_read = 0;
  is_cur_wit_stack_elements_read = false;
  is_cur_wit_elem_len_read = false;
  output_index = some 0;
  outputs = no_outputs;
}

abbrev no_state : RawtxState
no_state = record { rawtx = no_rawtx; sub_step = 0 }

abbrev memory : FlowState
memory = record {
  store = replicate 32 0;
  store_data_length = 0;
  parser_state = no_state;
  cur_step = 0;
  parser_error = false;
}

-- A transaction of version 2 with one input, whose bytes other than the version are 7, and one output
-- of 5 satoshis with the one-byte script 0x51.
abbrev head : List ℕ
head = 2 ∷ 0 ∷ 0 ∷ 0 ∷ 1 ∷ replicate 36 7

abbrev tail : List ℕ
tail = 0 ∷ 7 ∷ 7 ∷ 7 ∷ 7 ∷ 1 ∷ 5 ∷ 0 ∷ 0 ∷ 0 ∷ 0 ∷ 0 ∷ 0 ∷ 0 ∷ 1 ∷ 0x51 ∷ 0 ∷ 0 ∷ 0 ∷ 0 ∷ []

whole_parsed : (parse no_state (head ++ tail)).0 ≡ completed
unfolding parser_run run_steps parse_rawtx_steps parse_rawtx_version on_rawtx hash_next read_then
    parse_rawtx_check_segwit check_segwit check_flag parse_rawtx_input_count read_varint_then
    hash_update_varint encoded varint_write varint_read hash_update parse_rawtx_inputs_init update
    parse_rawtx_inputs run_loop loop while_body until_body more_inputs sub_parser
    parse_rawtxinput_steps parse_rawtxinput_txid parse_rawtxinput_vout
    parse_rawtxinput_scriptsig_size parse_rawtxinput_scriptsig_init parse_rawtxinput_scriptsig
    parse_rawtxinput_sequence count_input data_len minus_u32 use_scriptsig scriptsig_done
    parse_rawtx_output_count parse_rawtx_outputs_init parse_rawtx_outputs more_outputs
    parse_rawtxoutput_steps parse_rawtxoutput_value parse_rawtxoutput_scriptpubkey_size
    parse_rawtxoutput_scriptpubkey_init parse_rawtxoutput_scriptpubkey use_value
    use_scriptpubkey_size use_scriptpubkey scriptpubkey_done count_scriptpubkey is_relevant
    count_output parse_rawtx_witnesses_init parse_rawtx_witnesses skip_if parse_rawtx_locktime
    copy_to read_u64_le
whole_parsed = refl

parse_rawtx_resumes_example :
    RunContinues
      (parser_run (parse_rawtx_steps unread))
      tail
      (parser_run (parse_rawtx_steps unread) 0 no_state head)
      (parser_run (parse_rawtx_steps unread) 0 no_state (head ++ tail))
parse_rawtx_resumes_example = parse_rawtx_resumes 0 no_state head tail

-- The first six bytes of a transaction, as one piece and as two.
abbrev all_six : Buffer
all_six = record { ptr = 2 ∷ 0 ∷ 0 ∷ 0 ∷ 1 ∷ 7 ∷ []; size = 6; offset = 0 }

abbrev first_three : Buffer
first_three = record { ptr = 2 ∷ 0 ∷ 0 ∷ []; size = 3; offset = 0 }

abbrev other_three : Buffer
other_three = record { ptr = 0 ∷ 1 ∷ 7 ∷ []; size = 3; offset = 0 }

all_six-IsPiece : IsPiece all_six
all_six-IsPiece = record {
  valid = record { within = omega arith; backed = omega arith; small = omega arith };
  bytes =
      (omega arith, (omega arith, (omega arith, (omega arith, (omega arith, (omega arith, tt))))));
  small = omega arith;
}

first_three-IsPiece : IsPiece first_three
first_three-IsPiece = record {
  valid = record { within = omega arith; backed = omega arith; small = omega arith };
  bytes = (omega arith, (omega arith, (omega arith, tt)));
  small = omega arith;
}

other_three-IsPiece : IsPiece other_three
other_three-IsPiece = record {
  valid = record { within = omega arith; backed = omega arith; small = omega arith };
  bytes = (omega arith, (omega arith, (omega arith, tt)));
  small = omega arith;
}

abbrev nothing_stored : Buffer
nothing_stored = record { ptr = replicate 32 0; size = 0; offset = 0 }

six-Ready : Ready 32 (record { first = nothing_stored; second = all_six })
six-Ready = record {
  valid = record {
    first = record { within = omega arith; backed = omega arith; small = omega arith };
    second = all_six-IsPiece.valid;
    small = omega arith;
  };
  bytes = all_six-IsPiece.bytes;
  store = refl;
}

parse_rawtx_buffers_example :
    RunAgrees 32
      (parser_run
        (parse_rawtx_steps buffers)
        0
        no_state
        (record { first = nothing_stored; second = all_six }))
      (parser_run (parse_rawtx_steps unread) 0 no_state (2 ∷ 0 ∷ 0 ∷ 0 ∷ 1 ∷ 7 ∷ []))
parse_rawtx_buffers_example =
    parse_rawtx_buffers 32 0 no_state (record { first = nothing_stored; second = all_six })
      six-Ready

sub_parsers_never_fail_example :
    (¬ (
      (parse_rawtx_inputs buffers no_state (record { first = nothing_stored; second = all_six })).0
      ≡ failed))
    × (¬ (
        (parse_rawtx_outputs buffers no_state
          (record { first = nothing_stored; second = all_six })).0
        ≡ failed))
sub_parsers_never_fail_example =
    sub_parsers_never_fail no_state (record { first = nothing_stored; second = all_six })

two-Fit : AlwaysFit no_state [] (first_three ∷ other_three ∷ [])
unfolding parser_run run_steps parse_rawtx_steps parse_rawtx_version on_rawtx hash_next read_then
    parse_rawtx_check_segwit check_segwit check_flag parse_rawtx_input_count read_varint_then
    hash_update_varint encoded varint_write varint_read hash_update parse_rawtx_inputs_init update
    parse_rawtx_inputs run_loop loop while_body until_body more_inputs sub_parser
    parse_rawtxinput_steps parse_rawtxinput_txid parse_rawtxinput_vout
    parse_rawtxinput_scriptsig_size parse_rawtxinput_scriptsig_init parse_rawtxinput_scriptsig
    parse_rawtxinput_sequence count_input data_len minus_u32 use_scriptsig scriptsig_done
    parse_rawtx_output_count parse_rawtx_outputs_init parse_rawtx_outputs more_outputs
    parse_rawtxoutput_steps parse_rawtxoutput_value parse_rawtxoutput_scriptpubkey_size
    parse_rawtxoutput_scriptpubkey_init parse_rawtxoutput_scriptpubkey use_value
    use_scriptpubkey_size use_scriptpubkey scriptpubkey_done count_scriptpubkey is_relevant
    count_output parse_rawtx_witnesses_init parse_rawtx_witnesses skip_if parse_rawtx_locktime
    copy_to read_u64_le
two-Fit = (omega arith, (omega arith, tt))

one-Fits : AlwaysFit no_state [] (all_six ∷ [])
unfolding parser_run run_steps parse_rawtx_steps parse_rawtx_version on_rawtx hash_next read_then
    parse_rawtx_check_segwit check_segwit check_flag parse_rawtx_input_count read_varint_then
    hash_update_varint encoded varint_write varint_read hash_update parse_rawtx_inputs_init update
    parse_rawtx_inputs run_loop loop while_body until_body more_inputs sub_parser
    parse_rawtxinput_steps parse_rawtxinput_txid parse_rawtxinput_vout
    parse_rawtxinput_scriptsig_size parse_rawtxinput_scriptsig_init parse_rawtxinput_scriptsig
    parse_rawtxinput_sequence count_input data_len minus_u32 use_scriptsig scriptsig_done
    parse_rawtx_output_count parse_rawtx_outputs_init parse_rawtx_outputs more_outputs
    parse_rawtxoutput_steps parse_rawtxoutput_value parse_rawtxoutput_scriptpubkey_size
    parse_rawtxoutput_scriptpubkey_init parse_rawtxoutput_scriptpubkey use_value
    use_scriptpubkey_size use_scriptpubkey scriptpubkey_done count_scriptpubkey is_relevant
    count_output parse_rawtx_witnesses_init parse_rawtx_witnesses skip_if parse_rawtx_locktime
    copy_to read_u64_le
one-Fits = (omega arith, tt)

fed_two :
    Matches
      (parse no_state (contents (first_three ∷ other_three ∷ [])))
      (feed cb_process_data (first_three ∷ other_three ∷ []) (init_flow memory no_outputs (some 0)))
unfolding init_flow
fed_two =
    pieces_lem memory no_outputs (some 0) (first_three ∷ other_three ∷ []) refl
      (first_three-IsPiece, (other_three-IsPiece, tt)) two-Fit

no_error :
    (feed cb_process_data
      (first_three ∷ other_three ∷ [])
      (init_flow memory no_outputs (some 0))).parser_error
    ≡ false
unfolding parser_run run_steps parse_rawtx_steps parse_rawtx_version on_rawtx hash_next read_then
    parse_rawtx_check_segwit check_segwit check_flag parse_rawtx_input_count read_varint_then
    hash_update_varint encoded varint_write varint_read hash_update parse_rawtx_inputs_init update
    parse_rawtx_inputs run_loop loop while_body until_body more_inputs sub_parser
    parse_rawtxinput_steps parse_rawtxinput_txid parse_rawtxinput_vout
    parse_rawtxinput_scriptsig_size parse_rawtxinput_scriptsig_init parse_rawtxinput_scriptsig
    parse_rawtxinput_sequence count_input data_len minus_u32 use_scriptsig scriptsig_done
    parse_rawtx_output_count parse_rawtx_outputs_init parse_rawtx_outputs more_outputs
    parse_rawtxoutput_steps parse_rawtxoutput_value parse_rawtxoutput_scriptpubkey_size
    parse_rawtxoutput_scriptpubkey_init parse_rawtxoutput_scriptpubkey use_value
    use_scriptpubkey_size use_scriptpubkey scriptpubkey_done count_scriptpubkey is_relevant
    count_output parse_rawtx_witnesses_init parse_rawtx_witnesses skip_if parse_rawtx_locktime
    copy_to read_u64_le
no_error = fed_two.0

pieces_lem_example :
    Matches
      (parse no_state (contents (first_three ∷ other_three ∷ [])))
      (feed cb_process_data (first_three ∷ other_three ∷ []) (init_flow memory no_outputs (some 0)))
unfolding init_flow
pieces_lem_example =
    pieces_lem memory no_outputs (some 0) (first_three ∷ other_three ∷ []) refl
      (first_three-IsPiece, (other_three-IsPiece, tt)) two-Fit

pieces_same_example :
    ((feed cb_process_data (all_six ∷ []) (init_flow memory no_outputs (some 0))).parser_error
      ≡ false)
    × ((feed cb_process_data (all_six ∷ []) (init_flow memory no_outputs (some 0))).cur_step
        ≡ (feed cb_process_data
            (first_three ∷ other_three ∷ [])
            (init_flow memory no_outputs (some 0))).cur_step)
    × ((feed cb_process_data (all_six ∷ []) (init_flow memory no_outputs (some 0))).parser_state
        ≡ (feed cb_process_data
            (first_three ∷ other_three ∷ [])
            (init_flow memory no_outputs (some 0))).parser_state)
unfolding init_flow
pieces_same_example =
    pieces_same memory no_outputs (some 0) (first_three ∷ other_three ∷ []) (all_six ∷ []) refl
      (first_three-IsPiece, (other_three-IsPiece, tt)) (all_six-IsPiece, tt) two-Fit one-Fits refl
      no_error

abbrev idle : Dispatcher
idle = record { read_buffer = buffer_create [] 0; response = []; sent = [] }

abbrev first_32 : List ℕ → List ℕ
first_32 x = take 32 x

abbrev only_key : List ℕ
only_key = replicate 31 4

-- The beginning of a transaction, behind the byte 0.
abbrev value : List ℕ
value = 0 ∷ 2 ∷ 0 ∷ 0 ∷ 0 ∷ 1 ∷ replicate 26 7

abbrev one_entry : MapCommitment
one_entry = record { size = 1; keys_root = 0 ∷ only_key; values_root = value }

-- The index of the key, the two proofs without elements, and the value.
abbrev replies : List Exchange
replies =
    received (0xf8 ∷ 1 ∷ 0 ∷ 0 ∷ 2 ∷ 1 ∷ 0 ∷ []) 7
    ∷ received (0xf8 ∷ 1 ∷ 0 ∷ 0 ∷ 34 ∷ ((0 ∷ only_key) ++ (0 ∷ 0 ∷ []))) 39
    ∷ received (0xf8 ∷ 1 ∷ 0 ∷ 0 ∷ 34 ∷ (value ++ (0 ∷ 0 ∷ []))) 39
    ∷ received (0xf8 ∷ 1 ∷ 0 ∷ 0 ∷ 34 ∷ (32 ∷ 32 ∷ value)) 39
    ∷ []

abbrev dispatcher_after : Dispatcher
dispatcher_after =
    elim (call_psbt_parse_rawtx first_32 replies idle one_entry only_key (some 0) no_outputs
      memory) [ ok r ↦ r.2 | err c ↦ idle ]

-- The host's transaction ends in its first input, and is accepted.
psbt_parse_rawtx_sound_example :
    (pieces : List Buffer) × (x : ℕ) × (take 32 (x ∷ contents pieces) ≡ value)
    × ((feed cb_process_data pieces (init_flow memory no_outputs (some 0))).parser_error ≡ false)
    × (2 ∷ 0 ∷ 0 ∷ 0 ∷ 1 ∷ []
        ≡ take 32 (
            take 32
              (feed cb_process_data pieces
                (init_flow memory no_outputs (some 0))).parser_state.rawtx.hashed))
    × (no_outputs
        ≡ (feed cb_process_data pieces
            (init_flow memory no_outputs (some 0))).parser_state.rawtx.outputs)
unfolding parser_run run_steps parse_rawtx_steps parse_rawtx_version on_rawtx hash_next read_then
    parse_rawtx_check_segwit check_segwit check_flag parse_rawtx_input_count read_varint_then
    hash_update_varint encoded varint_write varint_read hash_update parse_rawtx_inputs_init update
    parse_rawtx_inputs run_loop loop while_body until_body more_inputs sub_parser
    parse_rawtxinput_steps parse_rawtxinput_txid parse_rawtxinput_vout
    parse_rawtxinput_scriptsig_size parse_rawtxinput_scriptsig_init parse_rawtxinput_scriptsig
    parse_rawtxinput_sequence count_input data_len minus_u32 use_scriptsig scriptsig_done
    parse_rawtx_output_count parse_rawtx_outputs_init parse_rawtx_outputs more_outputs
    parse_rawtxoutput_steps parse_rawtxoutput_value parse_rawtxoutput_scriptpubkey_size
    parse_rawtxoutput_scriptpubkey_init parse_rawtxoutput_scriptpubkey use_value
    use_scriptpubkey_size use_scriptpubkey scriptpubkey_done count_scriptpubkey is_relevant
    count_output parse_rawtx_witnesses_init parse_rawtx_witnesses skip_if parse_rawtx_locktime
    call_psbt_parse_rawtx call_get_merkleized_map_value_hash call_get_merkle_leaf_index index_reply
    read_index check_leaf is_negative merkle_compute_element_hash call_get_merkle_leaf_hash
    request_leaf_proof varint_bytes read_proof_header verify_loop climb first_reply
    process_interruption apdu_parser add_to_response finalize_response set_response send_response
    buffer_create buffer_read_bytes buffer_read_u8 buffer_can_read buffer_seek_cur
    buffer_read_varint request_preimage read_header stream_rest read_rest check_hash
    call_stream_preimage cb_process_data keep_unparsed init_flow dbuffer_get_length dbuffer_can_read
    read_some dbuffer_read_bytes dbuffer_read_u8 read_tmp peek_first varint_len read_rest_of_varint
    dbuffer_read_varint parser_consolidate_buffers varint_size copy_to read_u64_le
psbt_parse_rawtx_sound_example =
    psbt_parse_rawtx_sound first_32 replies idle one_entry only_key (some 0) no_outputs memory
      {value_hash = value} {dc' = dispatcher_after} {es' = []} {txid = 2 ∷ 0 ∷ 0 ∷ 0 ∷ 1 ∷ []}
      {outputs' = no_outputs} refl ((omega arith, omega arith), tt) refl refl (omega arith)
      (omega arith) refl

leftover_lem_example :
    RunLeft OversizedState (parser_run (parse_rawtx_steps unread) 0 no_state head)
leftover_lem_example = leftover_lem 0 no_state head
