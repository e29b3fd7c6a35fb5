-- ===== src/Dispatcher/Received.antt =====
-- What a successful `process_interruption` leaves in the read buffer.
use membrane_app_bitcoin_new.Common.{
  some, ℕ, ◌^◌, ◌≤◌, ◌<◌, ◌≡◌, arith, List, length, true, Option-cases, inl, inr, length-drop,
}
use membrane_app_bitcoin_new.Buffer.Inv.{IsValid, create-IsValid}
use membrane_app_bitcoin_new.Dispatcher.{
  Dispatcher, Exchange, failed, received, Command, apdu_parser, process_interruption,
}

-- An exchange leaves an APDU within `G_io_apdu_buffer`.
abbrev pub Fits : Exchange → Type 0
Fits failed = Unit
Fits (received mem input_len) = (input_len ≤ length mem) × (length mem < 2 ^ 32)

pub record Fresh (dc : Dispatcher) : Type 0 where
  pub valid : IsValid dc.read_buffer
  pub at_start : dc.read_buffer.offset ≡ 0

-- The data of an accepted APDU lie in memory.
command_fits :
    (mem : List ℕ) (input_len : ℕ) {cmd : Command}
    → input_len ≤ length mem
    → apdu_parser mem input_len ≡ some cmd
    → cmd.lc ≤ length cmd.payload
unfolding apdu_parser
command_fits mem input_len h e = ground (arith, length-drop 5 mem)

command_small :
    (mem : List ℕ) (input_len : ℕ) {cmd : Command}
    → apdu_parser mem input_len ≡ some cmd
    → cmd.lc ≤ input_len
unfolding apdu_parser
command_small mem input_len e = ground arith

-- After `process_interruption` has returned 0 on an exchange whose APDU lies in the memory it was
-- received in, the read buffer is valid and at its start.
pub process_interruption-Fresh :
    (e : Exchange) (dc : Dispatcher)
    → Fits e
    → (process_interruption e dc).0 ≡ true
    → Fresh (process_interruption e dc).1
unfolding process_interruption
process_interruption-Fresh failed dc f h = ground arith
process_interruption-Fresh (received mem input_len) dc f h =
    elim (Option-cases (apdu_parser mem input_len)) [
      | inl p ↦ ground arith
      | inr (cmd, p) ↦ ground (
        arith,
        command_fits mem input_len f.0 p,
        command_small mem input_len p,
        create-IsValid cmd.payload cmd.lc,
      )
    ]
