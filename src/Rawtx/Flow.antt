-- ===== src/Rawtx/Flow.antt =====
-- handler/lib/psbt_parse_rawtx.c: the callback that feeds the parser with the pieces of a transaction,
-- and `call_psbt_parse_rawtx`, which streams the transaction from a map of the host.
use membrane_app_bitcoin_new.Preimage.{call_stream_preimage}
use membrane_app_bitcoin_new.Parser.Stream.{buffers}
use membrane_app_bitcoin_new.Common.Result.{ok, err, Result}
use membrane_app_bitcoin_new.Rawtx.Whole.{parse_rawtx_steps}
use membrane_app_bitcoin_new.MerkleMap.{call_get_merkleized_map_value_hash, MapCommitment}
use membrane_app_bitcoin_new.Dispatcher.{Dispatcher, Exchange}
use membrane_app_bitcoin_new.Buffer.{buffer_create, Buffer}
use membrane_app_bitcoin_new.Rawtx.{ParserOutputs, RawtxState}
use membrane_app_bitcoin_new.Common.{
  ℕ, List, [], Bool, true, false, Option, none, some, if◌then◌else◌,
}
use membrane_app_bitcoin_new.Parser.{
  parser_run, parser_consolidate_buffers, Buffers, failed, incomplete, completed,
}

-- `psbt_parse_rawtx_state_t`, with `cur_step` of its parser context.
pub record FlowState : Type 0 where
  pub store : List ℕ
  pub store_data_length : ℕ
  pub parser_state : RawtxState
  pub cur_step : ℕ
  pub parser_error : Bool

abbrev pub store_size : ℕ
store_size = 32

-- What the consolidation leaves in the store: nothing changes if it fails, which is not noticed.
unfoldable pub keep_unparsed : Buffers → FlowState → FlowState
keep_unparsed d s = elim (parser_consolidate_buffers d store_size) [
  | none ↦ record s { store = d.first.ptr; store_data_length = d.first.size }
  | some d' ↦ record s { store = d'.first.ptr; store_data_length = d'.first.size }
]

unfoldable pub cb_process_data : Buffer → FlowState → FlowState
cb_process_data buf s =
    let store_buf = buffer_create s.store s.store_data_length in
    let (result, cur_step', parser_state', d') =
      parser_run (parse_rawtx_steps buffers) s.cur_step s.parser_state
        (record { first = store_buf; second = buf }) in
    let s' = record s { parser_state = parser_state'; cur_step = cur_step' } in
    if s.parser_error then s else elim result [
      | incomplete ↦ keep_unparsed d' s'
      | completed ↦ s'
      | failed ↦ record s' { parser_error = true }
    ]

-- The state before the first piece; `memory` is what the memory of the state holds by chance.
unfoldable pub init_flow : FlowState → ParserOutputs → Option ℕ → FlowState
init_flow memory outputs output_index = record memory {
  store_data_length = 0;
  parser_error = false;
  cur_step = 0;
  parser_state = record memory.parser_state {
    rawtx = record memory.parser_state.rawtx {
      hashed = [];
      output_index = output_index;
      outputs = outputs;
    };
  };
}

module _ (sha256 : List ℕ → List ℕ) where
  -- The transaction id and the other outputs.
  unfoldable pub call_psbt_parse_rawtx :
      List Exchange
      → Dispatcher
      → MapCommitment
      → List ℕ
      → Option ℕ
      → ParserOutputs
      → FlowState
      → Result (List ℕ × ParserOutputs × Dispatcher × List Exchange)
  call_psbt_parse_rawtx exchanges dc map key output_index outputs memory =
      elim (call_get_merkleized_map_value_hash sha256 exchanges dc map key) [
        | err c ↦ err 1
        | ok (value_hash, dc1, es1) ↦
            elim (call_stream_preimage sha256 es1 dc1 value_hash none cb_process_data
              (init_flow memory outputs output_index)) [
                | err c ↦ err 1
                | ok (len, s, dc2, es2) ↦
                    let rawtx = s.parser_state.rawtx in
                    if s.parser_error
                    then err 1
                    else ok (sha256 (sha256 rawtx.hashed), rawtx.outputs, dc2, es2)
              ]
      ]
