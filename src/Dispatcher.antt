-- ===== src/Dispatcher.antt =====
-- boilerplate/apdu_parser.c, and the part of boilerplate/dispatcher.c that a command handler uses to
-- ask the host for data: a request is gathered with `add_to_response`, closed with
-- `finalize_response`, and exchanged for a new APDU by `process_interruption`.
pub mod Received
mod Tests
use membrane_app_bitcoin_new.Common.{
  ℕ, ◌-◌, ◌==◌, ltb, if◌then◌else◌, Option, none, some, List, [], ◌∷◌, ◌++◌, Bool, true, false, not,
  ◌||◌, get_or, drop,
}
use membrane_app_bitcoin_new.Bytes.{byte_at}
use membrane_app_bitcoin_new.Buffer.{Buffer, buffer_create}

-- `command_t`. A NULL `data` is the empty memory.
pub record Command : Type 0 where
  pub cla : ℕ
  pub ins : ℕ
  pub p1 : ℕ
  pub p2 : ℕ
  pub lc : ℕ
  pub payload : List ℕ

-- The memory behind `buf`, and `buf_len`.
unfoldable pub apdu_parser : List ℕ → ℕ → Option Command
apdu_parser buf buf_len =
    if ltb buf_len 5 || not (buf_len - 5 == get_or buf 4 0)
    then none
    else some (record {
      cla = get_or buf 0 0;
      ins = get_or buf 1 0;
      p1 = get_or buf 2 0;
      p2 = get_or buf 3 0;
      lc = get_or buf 4 0;
      payload = if ltb 0 (get_or buf 4 0) then drop 5 buf else [];
    })

-- What `io_exchange` does: it fails, or leaves an APDU of `input_len` bytes in `G_io_apdu_buffer`.
pub data Exchange : Type 0 where
  failed : Exchange
  received : List ℕ → ℕ → Exchange

-- `dispatcher_context_t`, with the response under construction and the responses sent.
pub record Dispatcher : Type 0 where
  pub read_buffer : Buffer
  pub response : List ℕ
  pub sent : List (List ℕ)

abbrev pub sw_interrupted_execution : ℕ
sw_interrupted_execution = 0xe000

abbrev pub sw_wrong_data_length : ℕ
sw_wrong_data_length = 0x6a87

abbrev pub sw_incorrect_data : ℕ
sw_incorrect_data = 0x6a80

unfoldable pub add_to_response : Dispatcher → List ℕ → Dispatcher
add_to_response dc rdata = record dc { response = dc.response ++ rdata }

unfoldable pub finalize_response : Dispatcher → ℕ → Dispatcher
finalize_response dc sw = record dc { response = dc.response ++ (byte_at sw 8 ∷ byte_at sw 0 ∷ []) }

unfoldable pub send_response : Dispatcher → Dispatcher
send_response dc = record dc { response = []; sent = dc.sent ++ (dc.response ∷ []) }

unfoldable pub set_response : Dispatcher → List ℕ → ℕ → Dispatcher
set_response dc rdata sw = finalize_response (add_to_response dc rdata) sw

pub send_sw : Dispatcher → ℕ → Dispatcher
send_sw dc sw = send_response (finalize_response dc sw)

-- The request is sent and an APDU received; only INS_CONTINUE is accepted. `false` stands for -1.
-- A failed `io_exchange` leaves the response in the buffer.
unfoldable pub process_interruption : Exchange → Dispatcher → Bool × Dispatcher
process_interruption failed dc = (false, dc)
process_interruption (received mem input_len) dc =
    let dc' = send_response dc in
    elim (apdu_parser mem input_len) [
      | none ↦ (false, send_sw dc' sw_wrong_data_length)
      | some cmd ↦
          if not (cmd.cla == 0xf8) || not (cmd.ins == 0x01)
          then (false, send_sw dc' sw_incorrect_data)
          else (true, record dc' { read_buffer = buffer_create cmd.payload cmd.lc })
    ]
