-- ===== src/Rawtx/Leftover.antt =====
-- The bytes that the parser of psbt_parse_rawtx.c leaves when it waits for more, and the 32 bytes of the
-- store that take them.
use membrane_app_bitcoin_new.Rawtx.Inner.{scriptpubkey-Lowers, scriptsig-Lowers}
use membrane_app_bitcoin_new.Rawtx.Witness.{stacks-Lowers, bytes-Lowers, elements-Lowers}
use membrane_app_bitcoin_new.Rawtx.Segwit.{no_marker, marker_and_flag, marker_only, flagged}
use membrane_app_bitcoin_new.Rawtx.Resume.{outputs-Lowers, inputs-Lowers}
use membrane_app_bitcoin_new.Rawtx.Outer.{sub_parser_lem, counted}
use membrane_app_bitcoin_new.Parser.Stepwise.{while_body, run_loop}
use membrane_app_bitcoin_new.Parser.Stream.{unread}
use membrane_app_bitcoin_new.Parser.Leftover.{
  until-Leaves, update-Leaves, read_varint_then-Leaves, skip_if-Leaves, in_sequence-Leaves,
  parser_run-Left, Left, read_then-Leaves, while-Leaves, RunLeft, Leaves,
}
use membrane_app_bitcoin_new.Rawtx.Whole.{
  count_output, more_outputs, count_input, more_inputs, parse_rawtx_locktime, parse_rawtx_witnesses,
  parse_rawtx_witnesses_init, end_element, end_stack, parse_rawtx_outputs, parse_rawtx_outputs_init,
  start_element, start_stack, parse_rawtx_output_count, parse_rawtx_inputs, skip_bytes, more_stacks,
  parse_rawtx_inputs_init, more_element_bytes, more_stack_elements, parse_rawtx_input_count,
  element_len, parse_rawtx_check_segwit, check_segwit, one_element, parse_rawtx_version, stack_size,
  sub_parser, element_bytes, on_rawtx, one_stack, parse_rawtx_steps, stack_elements,
}
use membrane_app_bitcoin_new.Rawtx.{
  use_scriptpubkey, use_scriptsig, scriptpubkey_done, scriptsig_done, use_scriptpubkey_size,
  parse_rawtxinput_sequence, parse_rawtxinput_scriptsig, use_value, parse_rawtxinput_scriptsig_init,
  parse_rawtxoutput_scriptpubkey, parse_rawtxinput_scriptsig_size,
  parse_rawtxoutput_scriptpubkey_init, minus_u32, parse_rawtxinput_vout,
  parse_rawtxoutput_scriptpubkey_size, parse_rawtxinput_txid, parse_rawtxoutput_value, Rawtx,
  RawtxState, data_len, hash_next, parse_rawtxinput_steps, parse_rawtxoutput_steps,
}
use native.Mathlib.Decide.{dec_lt}
use mathlib.Core.Path.{subst}
use membrane_app_bitcoin_new.Parser.{
  parser_run, Progress, ParsingStep, failed, incomplete, completed,
}
use membrane_app_bitcoin_new.Common.{
  Bool-cases, sym, ◌==◌, arith, ◌^◌, ◌⊎◌, ℕ, List, Bool, true, false, ◌≡◌, ◌≤◌, inl, inr, All, [],
  ◌∷◌,
}

-- What is left to read of a script or of a witness element is negative as an `int`.
abbrev pub Oversized : Rawtx → Type 0
Oversized s =
    (2 ^ 31 ≤ minus_u32 s.scriptsig_size s.scriptsig_counter)
    ⊎ (2 ^ 31 ≤ minus_u32 s.scriptpubkey_size s.scriptpubkey_counter)
    ⊎ (2 ^ 31 ≤ minus_u32 s.cur_wit_elem_len s.cur_wit_el_bytes_read)

data_len_fits :
    (size counter : ℕ) → (data_len size counter ≤ 32) ⊎ (2 ^ 31 ≤ minus_u32 size counter)
unfolding data_len
data_len_fits size counter = elim (dec_lt (minus_u32 size counter) (2 ^ 31)) [
  | yes h ↦ inl (ground arith)
  | no h ↦ inr (omega arith)
]

scriptsig_fits : (s : Rawtx) → (data_len s.scriptsig_size s.scriptsig_counter ≤ 32) ⊎ Oversized s
scriptsig_fits s = elim (data_len_fits s.scriptsig_size s.scriptsig_counter) [
  | inl h ↦ inl h
  | inr h ↦ inr (inl h)
]

scriptpubkey_fits :
    (s : Rawtx) → (data_len s.scriptpubkey_size s.scriptpubkey_counter ≤ 32) ⊎ Oversized s
scriptpubkey_fits s = elim (data_len_fits s.scriptpubkey_size s.scriptpubkey_counter) [
  | inl h ↦ inl h
  | inr h ↦ inr (inr (inl h))
]

element_fits :
    (s : Rawtx) → (data_len s.cur_wit_elem_len s.cur_wit_el_bytes_read ≤ 32) ⊎ Oversized s
element_fits s = elim (data_len_fits s.cur_wit_elem_len s.cur_wit_el_bytes_read) [
  | inl h ↦ inl h
  | inr h ↦ inr (inr (inr h))
]

hash_next-Leaves : (n : ℕ) → n ≤ 32 → Leaves Oversized (hash_next unread n)
unfolding hash_next
hash_next-Leaves n h = read_then-Leaves Oversized (λ s. n) _ (λ s. inl h)

inputs_leave : All (Leaves Oversized) (parse_rawtxinput_steps unread)
unfolding parse_rawtxinput_steps parse_rawtxinput_txid parse_rawtxinput_vout
    parse_rawtxinput_scriptsig_size parse_rawtxinput_scriptsig_init parse_rawtxinput_scriptsig
    parse_rawtxinput_sequence
inputs_leave = (
  hash_next-Leaves 32 (omega arith),
  (
    hash_next-Leaves 4 (omega arith),
    (
      read_varint_then-Leaves Oversized _,
      (
        update-Leaves Oversized _,
        (
          until-Leaves Oversized _ scriptsig_done scriptsig-Lowers
              (read_then-Leaves Oversized _ use_scriptsig scriptsig_fits),
          (hash_next-Leaves 4 (omega arith), tt),
        ),
      ),
    ),
  ),
)

outputs_leave : All (Leaves Oversized) (parse_rawtxoutput_steps unread)
unfolding parse_rawtxoutput_steps parse_rawtxoutput_value parse_rawtxoutput_scriptpubkey_size
    parse_rawtxoutput_scriptpubkey_init parse_rawtxoutput_scriptpubkey
outputs_leave = (
  read_then-Leaves Oversized (λ s. 8) use_value (λ s. inl (omega arith)),
  (
    read_varint_then-Leaves Oversized use_scriptpubkey_size,
    (
      update-Leaves Oversized _,
      (
        until-Leaves Oversized _ scriptpubkey_done scriptpubkey-Lowers
            (read_then-Leaves Oversized _ use_scriptpubkey scriptpubkey_fits),
        tt,
      ),
    ),
  ),
)

abbrev pub OversizedState : RawtxState → Type 0
OversizedState s = Oversized s.rawtx

on_rawtx-Leaves :
    (step : ParsingStep Rawtx (List ℕ))
    → Leaves Oversized step
    → Leaves OversizedState (on_rawtx step)
unfolding on_rawtx
on_rawtx-Leaves step h s xs = go (step s.rawtx xs) (h s.rawtx xs)
  where
    go :
        (t : Progress × Rawtx × List ℕ)
        → Left Oversized t
        → Left OversizedState (t.0, record s { rawtx = t.1 }, t.2)
    go (incomplete, s', r) l = l
    go (completed, s', r) l = tt
    go (failed, s', r) l = tt

sub_parser-Leaves :
    (steps : List (ParsingStep Rawtx (List ℕ))) (count : Rawtx → Rawtx)
    → All (Leaves Oversized) steps
    → Leaves OversizedState (sub_parser steps count)
sub_parser-Leaves steps count h s xs =
    subst (Left OversizedState) (sym (sub_parser_lem steps count s xs)) (
      go (parser_run steps s.sub_step s.rawtx xs)
        (parser_run-Left Oversized steps s.sub_step s.rawtx xs h))
  where
    go :
        (t : Progress × ℕ × Rawtx × List ℕ)
        → RunLeft Oversized t
        → Left OversizedState (counted steps count t)
    go (incomplete, k, s', r) l = l
    go (completed, k, s', r) l = tt
    go (failed, k, s', r) l = tt

check_segwit-Leaves : Leaves Oversized (check_segwit unread)
check_segwit-Leaves s [] = unfold check_segwit in inl (omega arith)
check_segwit-Leaves s (x ∷ xs) = elim (Bool-cases (x == 0)) [
  | inl e ↦ go xs e
  | inr e ↦ subst (Left Oversized) (sym (no_marker s x xs e)) tt
]
  where
    ending : (b : Bool) (r : List ℕ) → Left Oversized (flagged s b r)
    ending true r = tt
    ending false r = tt

    go : (r : List ℕ) → (x == 0) ≡ true → Left Oversized (check_segwit unread s (x ∷ r))
    go [] e = subst (Left Oversized) (sym (marker_only s x e)) (inl (omega arith))
    go (y ∷ r) e = subst (Left Oversized) (sym (marker_and_flag s x y r e)) (ending (y == 1) r)

bytes_leave : Leaves Oversized (element_bytes unread)
unfolding element_bytes
bytes_leave =
    while-Leaves Oversized more_element_bytes _ bytes-Lowers
      (read_then-Leaves Oversized _ skip_bytes element_fits)

elements_leave : Leaves Oversized (stack_elements unread)
unfolding stack_elements one_element element_len
elements_leave = while-Leaves Oversized more_stack_elements _ elements-Lowers (
    in_sequence-Leaves Oversized _ _
      (skip_if-Leaves Oversized _ _ (read_varint_then-Leaves Oversized start_element))
      (in_sequence-Leaves Oversized _ _ bytes_leave (update-Leaves Oversized end_element)))

witnesses_leave : Leaves Oversized (run_loop unread (while_body more_stacks (one_stack unread)))
unfolding one_stack stack_size
witnesses_leave = while-Leaves Oversized more_stacks _ stacks-Lowers (
    in_sequence-Leaves Oversized _ _
      (skip_if-Leaves Oversized _ _ (read_varint_then-Leaves Oversized start_stack))
      (in_sequence-Leaves Oversized _ _ elements_leave (update-Leaves Oversized end_stack)))

parse_rawtx_leave : All (Leaves OversizedState) (parse_rawtx_steps unread)
unfolding parse_rawtx_steps parse_rawtx_version parse_rawtx_check_segwit parse_rawtx_input_count
    parse_rawtx_inputs_init parse_rawtx_inputs parse_rawtx_output_count parse_rawtx_outputs_init
    parse_rawtx_outputs parse_rawtx_witnesses_init parse_rawtx_witnesses parse_rawtx_locktime
parse_rawtx_leave = (
  on_rawtx-Leaves _ (hash_next-Leaves 4 (omega arith)),
  (
    on_rawtx-Leaves _ check_segwit-Leaves,
    (
      on_rawtx-Leaves _ (read_varint_then-Leaves Oversized _),
      (
        update-Leaves OversizedState _,
        (
          while-Leaves OversizedState more_inputs _ inputs-Lowers
              (sub_parser-Leaves _ count_input inputs_leave),
          (
            on_rawtx-Leaves _ (read_varint_then-Leaves Oversized _),
            (
              update-Leaves OversizedState _,
              (
                while-Leaves OversizedState more_outputs _ outputs-Lowers
                    (sub_parser-Leaves _ count_output outputs_leave),
                (
                  on_rawtx-Leaves _ (update-Leaves Oversized _),
                  (
                    on_rawtx-Leaves _ (skip_if-Leaves Oversized _ _ witnesses_leave),
                    (on_rawtx-Leaves _ (hash_next-Leaves 4 (omega arith)), tt),
                  ),
                ),
              ),
            ),
          ),
        ),
      ),
    ),
  ),
)

-- The parser over the unread bytes, from any step and any state: where it waits for more bytes, it
-- leaves at most 32 of them, which is the size of the store, unless what it has still to read of a
-- scriptSig, of a scriptPubKey or of a witness element, as an unsigned 32-bit word, is 2^31 or more.
pub leftover_lem :
    (k : ℕ) (s : RawtxState) (xs : List ℕ)
    → RunLeft OversizedState (parser_run (parse_rawtx_steps unread) k s xs)
leftover_lem k s xs =
    parser_run-Left OversizedState (parse_rawtx_steps unread) k s xs parse_rawtx_leave
