-- ===== src/Dispatcher/Tests.antt =====
-- A run of `process_interruption` of boilerplate/dispatcher.c.
use membrane_app_bitcoin_new.Common.{[], ◌∷◌, refl, arith}
use membrane_app_bitcoin_new.Buffer.{buffer_create}
use membrane_app_bitcoin_new.Dispatcher.{
  Dispatcher, Exchange, received, process_interruption, apdu_parser,
}
use membrane_app_bitcoin_new.Dispatcher.Received.{Fresh, process_interruption-Fresh}

abbrev idle : Dispatcher
idle = record { read_buffer = buffer_create [] 0; response = 5 ∷ []; sent = [] }

-- INS_CONTINUE with two bytes.
abbrev answer : Exchange
answer = received (0xf8 ∷ 0x01 ∷ 0 ∷ 0 ∷ 2 ∷ 10 ∷ 11 ∷ 99 ∷ []) 7

process_interruption-Fresh_example : Fresh (process_interruption answer idle).1
unfolding process_interruption apdu_parser
process_interruption-Fresh_example =
    process_interruption-Fresh answer idle (omega arith, omega arith) refl
