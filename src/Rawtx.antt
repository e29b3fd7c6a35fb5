-- ===== src/Rawtx.antt =====
-- handler/lib/psbt_parse_rawtx.c: the parser for a serialized transaction that comes in pieces. The
-- hash context is the list of the bytes that it was updated with. The steps are written over the
-- interface `Stream`, which the two buffers of the source implement.
pub mod Whole
pub mod Flow
pub mod Inner
pub mod Outer
pub mod Witness
pub mod Segwit
pub mod Resume
pub mod Leftover
pub mod Buffered
pub mod Chunks
pub mod Pieces
pub mod Call
mod Tests
use membrane_app_bitcoin_new.Common.{
  ℕ, ◌+◌, ◌-◌, ◌%◌, ◌^◌, List, [], ◌∷◌, ◌++◌, Bool, true, false, Option, none, some, take, min,
  replicate, get_or, ltb, ◌==◌, if◌then◌else◌,
}
use membrane_app_bitcoin_new.Bytes.{read_u64_le}
use membrane_app_bitcoin_new.Buffer.{copy_to}
use membrane_app_bitcoin_new.Varint.{varint_write}
use membrane_app_bitcoin_new.Parser.{failed, incomplete, completed, ParsingStep, parser_run}
use membrane_app_bitcoin_new.Parser.Stream.{Stream}
use membrane_app_bitcoin_new.Parser.Stepwise.{
  read_then, read_varint_then, run_loop, while_body, until_body, update,
}

-- `txid_parser_outputs_t`, without the transaction id, which is written at the end.
pub record ParserOutputs : Type 0 where
  pub vout_value : ℕ
  pub vout_scriptpubkey_len : ℕ
  pub vout_scriptpubkey : List ℕ

-- `parse_rawtx_state_t` with the states of the input and output parsers, which reach the rest of it
-- through `parent_state`. The members of the union are fields of their own: each stage begins with a
-- step that initializes those it uses.
pub record Rawtx : Type 0 where
  pub hashed : List ℕ
  pub is_segwit : Bool
  pub n_inputs : ℕ
  pub n_outputs : ℕ
  pub in_counter : ℕ
  pub scriptsig_size : ℕ
  pub scriptsig_counter : ℕ
  pub out_counter : ℕ
  pub scriptpubkey_size : ℕ
  pub scriptpubkey_counter : ℕ
  pub wit_counter : ℕ
  pub wit_stack_el_counter : ℕ
  pub cur_wit_stack_elements : ℕ
  pub cur_wit_elem_len : ℕ
  pub cur_wit_el_bytes_read : ℕ
  pub is_cur_wit_stack_elements_read : Bool
  pub is_cur_wit_elem_len_read : Bool
  pub output_index : Option ℕ
  pub outputs : ParserOutputs

-- The state with the position of the input or output parser, `cur_step` of its context: the two
-- contexts share their place in the union.
pub record RawtxState : Type 0 where
  pub rawtx : Rawtx
  pub sub_step : ℕ

abbrev pub max_prevout_scriptpubkey_len : ℕ
max_prevout_scriptpubkey_len = 34

pub hash_update : List ℕ → Rawtx → Rawtx
hash_update bytes s = record s { hashed = s.hashed ++ bytes }

-- The bytes that `crypto_hash_update_varint` hashes.
pub encoded : ℕ → List ℕ
encoded value =
    let (written, out) = varint_write (replicate 9 0) 0 value in
    elim written [ none ↦ [] | some n ↦ take n out ]

pub hash_update_varint : ℕ → Rawtx → Rawtx
hash_update_varint value s = hash_update (encoded value) s

-- A difference of two `unsigned int`s.
pub minus_u32 : ℕ → ℕ → ℕ
minus_u32 a b = (a + (2 ^ 32 - b % 2 ^ 32)) % 2 ^ 32

-- `MIN(32, remaining_len)`, where `remaining_len` is an `int`: a negative one becomes a `size_t`.
pub data_len : ℕ → ℕ → ℕ
data_len size counter =
    let remaining_len = minus_u32 size counter in
    if ltb remaining_len (2 ^ 31) then min 32 remaining_len else remaining_len

abbrev accept : Rawtx → Bool × Rawtx
accept s = (true, s)

-- Whether the output being parsed is the one asked for.
is_relevant : Rawtx → Bool
is_relevant s = elim s.output_index [ none ↦ false | some index ↦ s.out_counter == index ]

pub scriptsig_done : Rawtx → Bool
scriptsig_done s = s.scriptsig_counter == s.scriptsig_size % 2 ^ 32

pub use_scriptsig : List ℕ → Rawtx → Bool × Rawtx
use_scriptsig bytes s = accept (record (hash_update bytes s) {
  scriptsig_counter =
      (s.scriptsig_counter + data_len s.scriptsig_size s.scriptsig_counter) % 2 ^ 32;
})

use_value : List ℕ → Rawtx → Bool × Rawtx
use_value value_bytes s =
    let hashed_state = hash_update value_bytes s in
    accept (
      if is_relevant s
      then record hashed_state {
        outputs = record s.outputs { vout_value = read_u64_le value_bytes 0 };
      }
      else hashed_state)

use_scriptpubkey_size : ℕ → Rawtx → Rawtx
use_scriptpubkey_size size s =
    let sized = record (hash_update_varint size s) { scriptpubkey_size = size % 2 ^ 32 } in
    if is_relevant s
    then record sized { outputs = record s.outputs { vout_scriptpubkey_len = size % 2 ^ 32 } }
    else sized

pub scriptpubkey_done : Rawtx → Bool
scriptpubkey_done s = s.scriptpubkey_counter == s.scriptpubkey_size % 2 ^ 32

count_scriptpubkey : Rawtx → Rawtx
count_scriptpubkey s = record s {
  scriptpubkey_counter =
      (s.scriptpubkey_counter + data_len s.scriptpubkey_size s.scriptpubkey_counter) % 2 ^ 32;
}

-- A relevant output whose script is too long is refused after the bytes were hashed.
pub use_scriptpubkey : List ℕ → Rawtx → Bool × Rawtx
use_scriptpubkey bytes s =
    let hashed_state = hash_update bytes s in
    if is_relevant s
    then (if ltb max_prevout_scriptpubkey_len s.outputs.vout_scriptpubkey_len
        then (false, hashed_state)
        else (
          true,
          count_scriptpubkey (record hashed_state {
            outputs = record s.outputs {
              vout_scriptpubkey = copy_to s.outputs.vout_scriptpubkey s.scriptpubkey_counter bytes;
            };
          }),
        ))
    else (true, count_scriptpubkey hashed_state)

module _ {D : Type 0} (ops : Stream D) where
  -- A step that hashes the next `n` bytes: the transaction id, the output index and the sequence
  -- number of an input, the version, and the lock time.
  pub hash_next : ℕ → ParsingStep Rawtx D
  hash_next n = read_then ops (λ s. n) (λ bytes s. accept (hash_update bytes s))

  parse_rawtxinput_txid : ParsingStep Rawtx D
  parse_rawtxinput_txid = hash_next 32

  parse_rawtxinput_vout : ParsingStep Rawtx D
  parse_rawtxinput_vout = hash_next 4

  parse_rawtxinput_scriptsig_size : ParsingStep Rawtx D
  parse_rawtxinput_scriptsig_size =
      read_varint_then ops
        (λ size s. record (hash_update_varint size s) { scriptsig_size = size % 2 ^ 32 })

  parse_rawtxinput_scriptsig_init : ParsingStep Rawtx D
  parse_rawtxinput_scriptsig_init = update (λ s. record s { scriptsig_counter = 0 })

  parse_rawtxinput_scriptsig : ParsingStep Rawtx D
  parse_rawtxinput_scriptsig = run_loop ops (
      until_body (read_then ops (λ s. data_len s.scriptsig_size s.scriptsig_counter) use_scriptsig)
        scriptsig_done)

  parse_rawtxinput_sequence : ParsingStep Rawtx D
  parse_rawtxinput_sequence = hash_next 4

  pub parse_rawtxinput_steps : List (ParsingStep Rawtx D)
  parse_rawtxinput_steps =
      parse_rawtxinput_txid ∷ parse_rawtxinput_vout ∷ parse_rawtxinput_scriptsig_size
      ∷ parse_rawtxinput_scriptsig_init ∷ parse_rawtxinput_scriptsig ∷ parse_rawtxinput_sequence
      ∷ []

  parse_rawtxoutput_value : ParsingStep Rawtx D
  parse_rawtxoutput_value = read_then ops (λ s. 8) use_value

  parse_rawtxoutput_scriptpubkey_size : ParsingStep Rawtx D
  parse_rawtxoutput_scriptpubkey_size = read_varint_then ops use_scriptpubkey_size

  parse_rawtxoutput_scriptpubkey_init : ParsingStep Rawtx D
  parse_rawtxoutput_scriptpubkey_init = update (λ s. record s { scriptpubkey_counter = 0 })

  parse_rawtxoutput_scriptpubkey : ParsingStep Rawtx D
  parse_rawtxoutput_scriptpubkey = run_loop ops (
      until_body
        (read_then ops (λ s. data_len s.scriptpubkey_size s.scriptpubkey_counter) use_scriptpubkey)
        scriptpubkey_done)

  pub parse_rawtxoutput_steps : List (ParsingStep Rawtx D)
  parse_rawtxoutput_steps =
      parse_rawtxoutput_value ∷ parse_rawtxoutput_scriptpubkey_size
      ∷ parse_rawtxoutput_scriptpubkey_init ∷ parse_rawtxoutput_scriptpubkey ∷ []
