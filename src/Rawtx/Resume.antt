-- ===== src/Rawtx/Resume.antt =====
-- The whole parser for a transaction of psbt_parse_rawtx.c, over the plain list of unread bytes, and
-- its interruptions.
use membrane_app_bitcoin_new.Rawtx.Segwit.{check_segwit-Resumes}
use membrane_app_bitcoin_new.Parser.Steps.{parser_run-Resumes, RunContinues}
use membrane_app_bitcoin_new.Parser.{parser_run}
use membrane_app_bitcoin_new.Parser.Reads.{read_varint_then-Resumes}
use membrane_app_bitcoin_new.Rawtx.Witness.{
  bytes-Lowers, elements-Lowers, stacks-Lowers, witnesses-segwit, witnesses-Resumes,
}
use membrane_app_bitcoin_new.Parser.Stepwise.{until_body, read_then, while_body, run_loop}
use membrane_app_bitcoin_new.Rawtx.Inner.{
  scriptpubkey-Lowers, scriptsig-Lowers, hash_next-Resumes, inputs_run, outputs_run, inputs_shorter,
  outputs_shorter, inputs_resume, outputs_resume,
}
use membrane_app_bitcoin_new.Parser.Fixed.{
  until-Fixes, update-Fixes, read_varint_then-Fixes, read_then-Fixes, Fixes,
}
use membrane_app_bitcoin_new.Parser.Forms.{stop_of, update-Resumes, skip_if-Resumes}
use membrane_app_bitcoin_new.Rawtx.Outer.{sub_parsers-Lowers, on_rawtx-Resumes, sub_parsers-Resumes}
use membrane_app_bitcoin_new.Parser.Stream.{unread}
use membrane_app_bitcoin_new.Parser.Resume.{Lowers-Settles, Settles, Lowers, Resumes}
use membrane_app_bitcoin_new.Rawtx.Whole.{
  skip_bytes, more_element_bytes, one_element, more_stack_elements, sub_parser, one_stack,
  more_stacks, parse_rawtx_locktime, parse_rawtx_witnesses_init, parse_rawtx_outputs_init,
  parse_rawtx_output_count, count_input, count_output, parse_rawtx_inputs_init,
  parse_rawtx_input_count, parse_rawtx_check_segwit, more_inputs, more_outputs, parse_rawtx_version,
  parse_rawtx_inputs, parse_rawtx_outputs, parse_rawtx_steps, parse_rawtx_witnesses,
}
use membrane_app_bitcoin_new.Rawtx.{
  RawtxState, scriptpubkey_done, scriptsig_done, data_len, use_scriptsig, hash_next,
  parse_rawtxinput_sequence, parse_rawtxinput_scriptsig, is_relevant,
  parse_rawtxinput_scriptsig_init, parse_rawtxoutput_scriptpubkey, count_scriptpubkey,
  parse_rawtxinput_scriptsig_size, parse_rawtxoutput_scriptpubkey_init, hash_update,
  hash_update_varint, parse_rawtxinput_vout, parse_rawtxoutput_scriptpubkey_size,
  parse_rawtxinput_txid, parse_rawtxoutput_value, use_scriptpubkey, use_scriptpubkey_size,
  use_value, Rawtx, parse_rawtxinput_steps, parse_rawtxoutput_steps,
}
use membrane_app_bitcoin_new.Common.{
  ◌++◌, ◌∙◌, false, refl, inr, All, arith, inl, not, Bool-cases, List, Bool, ◌≡◌, ap, ℕ, ltb,
}

abbrev inputs_left : Rawtx → Bool
inputs_left s = ltb s.in_counter s.n_inputs

abbrev outputs_left : Rawtx → Bool
outputs_left s = ltb s.out_counter s.n_outputs

inputs_fix : All (Fixes inputs_left) (parse_rawtxinput_steps unread)
unfolding parse_rawtxinput_steps parse_rawtxinput_txid parse_rawtxinput_vout
    parse_rawtxinput_scriptsig_size parse_rawtxinput_scriptsig_init parse_rawtxinput_scriptsig
    parse_rawtxinput_sequence hash_next hash_update hash_update_varint use_scriptsig
inputs_fix = (
  read_then-Fixes inputs_left _ _ (λ b s. refl),
  (
    read_then-Fixes inputs_left _ _ (λ b s. refl),
    (
      read_varint_then-Fixes inputs_left _ (λ n s. refl),
      (
        update-Fixes inputs_left _ (λ s. refl),
        (
          until-Fixes inputs_left _ _ (read_then-Fixes inputs_left _ _ (λ b s. refl)),
          (read_then-Fixes inputs_left _ _ (λ b s. refl), tt),
        ),
      ),
    ),
  ),
)

use_value-left : (bytes : List ℕ) (s : Rawtx) → outputs_left (use_value bytes s).1 ≡ outputs_left s
unfolding use_value hash_update
use_value-left bytes s = elim (Bool-cases (is_relevant s)) [ inl e ↦ rw e refl | inr e ↦ rw e refl ]

use_scriptpubkey_size-left :
    (n : ℕ) (s : Rawtx) → outputs_left (use_scriptpubkey_size n s) ≡ outputs_left s
unfolding use_scriptpubkey_size hash_update_varint hash_update
use_scriptpubkey_size-left n s = elim (Bool-cases (is_relevant s)) [
  | inl e ↦ rw e refl
  | inr e ↦ rw e refl
]

use_scriptpubkey-left :
    (bytes : List ℕ) (s : Rawtx) → outputs_left (use_scriptpubkey bytes s).1 ≡ outputs_left s
unfolding use_scriptpubkey hash_update count_scriptpubkey
use_scriptpubkey-left bytes s = elim (Bool-cases (is_relevant s)) [
  | inl e ↦ elim (Bool-cases (ltb 34 s.outputs.vout_scriptpubkey_len)) [
    | inl k ↦ rw (e, k) refl
    | inr k ↦ rw (e, k) refl
  ]
  | inr e ↦ rw e refl
]

outputs_fix : All (Fixes outputs_left) (parse_rawtxoutput_steps unread)
unfolding parse_rawtxoutput_steps parse_rawtxoutput_value parse_rawtxoutput_scriptpubkey_size
    parse_rawtxoutput_scriptpubkey_init parse_rawtxoutput_scriptpubkey
outputs_fix = (
  read_then-Fixes outputs_left _ use_value use_value-left,
  (
    read_varint_then-Fixes outputs_left use_scriptpubkey_size use_scriptpubkey_size-left,
    (
      update-Fixes outputs_left _ (λ s. refl),
      (
        until-Fixes outputs_left _ _
            (read_then-Fixes outputs_left _ use_scriptpubkey use_scriptpubkey-left),
        tt,
      ),
    ),
  ),
)

parse_rawtx_inputs-Resumes : Resumes (parse_rawtx_inputs unread)
unfolding parse_rawtx_inputs more_inputs
parse_rawtx_inputs-Resumes =
    sub_parsers-Resumes (parse_rawtxinput_steps unread) count_input more_inputs inputs_left
      (λ s. refl) inputs_fix 32 (omega arith) inputs_resume inputs_shorter inputs_run

parse_rawtx_outputs-Resumes : Resumes (parse_rawtx_outputs unread)
unfolding parse_rawtx_outputs more_outputs
parse_rawtx_outputs-Resumes =
    sub_parsers-Resumes (parse_rawtxoutput_steps unread) count_output more_outputs outputs_left
      (λ s. refl) outputs_fix 8 (omega arith) outputs_resume outputs_shorter outputs_run

pub inputs-Lowers :
    Lowers (while_body more_inputs (sub_parser (parse_rawtxinput_steps unread) count_input))
unfolding more_inputs
inputs-Lowers =
    sub_parsers-Lowers (parse_rawtxinput_steps unread) count_input more_inputs inputs_left
      (λ s. refl) inputs_fix 32 (omega arith) inputs_shorter inputs_run

pub outputs-Lowers :
    Lowers (while_body more_outputs (sub_parser (parse_rawtxoutput_steps unread) count_output))
unfolding more_outputs
outputs-Lowers =
    sub_parsers-Lowers (parse_rawtxoutput_steps unread) count_output more_outputs outputs_left
      (λ s. refl) outputs_fix 8 (omega arith) outputs_shorter outputs_run

-- The seven loops of the parser, over the unread bytes, settle: run from any state on any bytes, the
-- loops over the bytes of a scriptSig and of a scriptPubKey, over the inputs and the outputs, and
-- over the witness stacks, their elements and the bytes of an element give with any more fuel the
-- result that they give with twice the number of unread bytes and two.
pub loops_settle :
    Settles (
      until_body
        (read_then unread (λ s. data_len s.scriptsig_size s.scriptsig_counter) use_scriptsig)
        scriptsig_done)
    × Settles (
        until_body
          (read_then unread
            (λ s. data_len s.scriptpubkey_size s.scriptpubkey_counter)
            use_scriptpubkey)
          scriptpubkey_done)
    × Settles (while_body more_inputs (sub_parser (parse_rawtxinput_steps unread) count_input))
    × Settles (while_body more_outputs (sub_parser (parse_rawtxoutput_steps unread) count_output))
    × Settles (while_body more_stacks (one_stack unread))
    × Settles (while_body more_stack_elements (one_element unread))
    × Settles (
        while_body more_element_bytes
          (read_then unread (λ s. data_len s.cur_wit_elem_len s.cur_wit_el_bytes_read) skip_bytes))
loops_settle = (
  Lowers-Settles _ scriptsig-Lowers,
  Lowers-Settles _ scriptpubkey-Lowers,
  Lowers-Settles _ inputs-Lowers,
  Lowers-Settles _ outputs-Lowers,
  Lowers-Settles _ stacks-Lowers,
  Lowers-Settles _ elements-Lowers,
  Lowers-Settles _ bytes-Lowers,
)

parse_rawtx_witnesses-Resumes : Resumes (parse_rawtx_witnesses unread)
unfolding parse_rawtx_witnesses
parse_rawtx_witnesses-Resumes = on_rawtx-Resumes _ (
    skip_if-Resumes (λ s. not s.is_segwit)
      (run_loop unread (while_body more_stacks (one_stack unread))) witnesses-Resumes
      (λ s xs e. stop_of (λ s'. not s'.is_segwit ≡ false) _ (ap not (witnesses-segwit s xs) ∙ e)))

pub parse_rawtx-Resumes : All Resumes (parse_rawtx_steps unread)
unfolding parse_rawtx_steps parse_rawtx_version parse_rawtx_check_segwit parse_rawtx_input_count
    parse_rawtx_inputs_init parse_rawtx_output_count parse_rawtx_outputs_init
    parse_rawtx_witnesses_init parse_rawtx_locktime
parse_rawtx-Resumes = (
  on_rawtx-Resumes _ (hash_next-Resumes 4),
  (
    on_rawtx-Resumes _ check_segwit-Resumes,
    (
      on_rawtx-Resumes _ (read_varint_then-Resumes _),
      (
        update-Resumes _,
        (
          parse_rawtx_inputs-Resumes,
          (
            on_rawtx-Resumes _ (read_varint_then-Resumes _),
            (
              update-Resumes _,
              (
                parse_rawtx_outputs-Resumes,
                (
                  on_rawtx-Resumes _ (update-Resumes _),
                  (parse_rawtx_witnesses-Resumes, (on_rawtx-Resumes _ (hash_next-Resumes 4), tt)),
                ),
              ),
            ),
          ),
        ),
      ),
    ),
  ),
)

-- The parser over the unread bytes, from any step and any state, can be interrupted anywhere: where a
-- run over some bytes waits for more, a run over these and further ones is the run from the step and
-- the state it stopped at over the bytes it left followed by the further ones; where it is completed
-- or fails, so does the run over more bytes, with the same step and state, and it leaves the further
-- ones too.
pub parse_rawtx_resumes :
    (k : ℕ) (s : RawtxState) (xs ys : List ℕ)
    → RunContinues
        (parser_run (parse_rawtx_steps unread))
        ys
        (parser_run (parse_rawtx_steps unread) k s xs)
        (parser_run (parse_rawtx_steps unread) k s (xs ++ ys))
parse_rawtx_resumes k s xs ys =
    parser_run-Resumes (parse_rawtx_steps unread) k s xs ys parse_rawtx-Resumes
