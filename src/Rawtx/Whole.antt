-- ===== src/Rawtx/Whole.antt =====
-- handler/lib/psbt_parse_rawtx.c: the steps for a whole transaction, with the loops over its inputs,
-- outputs and witnesses.
use membrane_app_bitcoin_new.Common.{
  ℕ, ◌+◌, ◌%◌, ◌^◌, List, [], ◌∷◌, Bool, true, false, not, ltb, ◌==◌, if◌then◌else◌, get_or,
}
use membrane_app_bitcoin_new.Parser.{failed, incomplete, completed, ParsingStep, parser_run}
use membrane_app_bitcoin_new.Parser.Stream.{Stream}
use membrane_app_bitcoin_new.Parser.Stepwise.{
  read_then, read_varint_then, run_loop, while_body, in_sequence, update, skip_if,
}
use membrane_app_bitcoin_new.Rawtx.{
  Rawtx, RawtxState, hash_next, hash_update_varint, data_len, accept, parse_rawtxinput_steps,
  parse_rawtxoutput_steps,
}

unfoldable pub count_input : Rawtx → Rawtx
count_input s = record s { in_counter = (s.in_counter + 1) % 2 ^ 32 }

unfoldable pub count_output : Rawtx → Rawtx
count_output s = record s { out_counter = (s.out_counter + 1) % 2 ^ 32 }

unfoldable pub more_inputs : RawtxState → Bool
more_inputs s = ltb s.rawtx.in_counter s.rawtx.n_inputs

unfoldable pub more_outputs : RawtxState → Bool
more_outputs s = ltb s.rawtx.out_counter s.rawtx.n_outputs

-- The three loops of `parse_rawtx_witnesses`, from the inside: the bytes of an element, the elements
-- of a stack, and the stacks.
unfoldable pub more_element_bytes : Rawtx → Bool
more_element_bytes s = ltb s.cur_wit_el_bytes_read (s.cur_wit_elem_len % 2 ^ 32)

unfoldable pub skip_bytes : List ℕ → Rawtx → Bool × Rawtx
skip_bytes bytes s = accept (record s {
  cur_wit_el_bytes_read =
      (s.cur_wit_el_bytes_read + data_len s.cur_wit_elem_len s.cur_wit_el_bytes_read) % 2 ^ 32;
})

unfoldable pub start_element : ℕ → Rawtx → Rawtx
start_element len s = record s {
  is_cur_wit_elem_len_read = true;
  cur_wit_elem_len = len % 2 ^ 32;
  cur_wit_el_bytes_read = 0;
}

unfoldable pub end_element : Rawtx → Rawtx
end_element s = record s {
  wit_stack_el_counter = (s.wit_stack_el_counter + 1) % 2 ^ 32;
  is_cur_wit_elem_len_read = false;
}

unfoldable pub more_stack_elements : Rawtx → Bool
more_stack_elements s = ltb s.wit_stack_el_counter s.cur_wit_stack_elements

unfoldable pub start_stack : ℕ → Rawtx → Rawtx
start_stack n s = record s {
  is_cur_wit_stack_elements_read = true;
  cur_wit_stack_elements = n % 2 ^ 32;
  is_cur_wit_elem_len_read = false;
  wit_stack_el_counter = 0;
}

unfoldable pub end_stack : Rawtx → Rawtx
end_stack s = record s {
  wit_counter = (s.wit_counter + 1) % 2 ^ 32;
  is_cur_wit_stack_elements_read = false;
}

unfoldable pub more_stacks : Rawtx → Bool
more_stacks s = ltb s.wit_counter s.n_inputs

module _ {D : Type 0} where
  -- A step that does not touch the position of the inner parser.
  unfoldable pub on_rawtx : ParsingStep Rawtx D → ParsingStep RawtxState D
  on_rawtx step s d = let (p, rawtx', d') = step s.rawtx d in (p, record s { rawtx = rawtx' }, d')

  -- `bool result = parser_run(...)`: a failure, -1, becomes 1 as a `bool`.
  unfoldable pub sub_parser :
      List (ParsingStep Rawtx D) → (Rawtx → Rawtx) → ParsingStep RawtxState D
  sub_parser steps count s d =
      let (p, k, rawtx', d') = parser_run steps s.sub_step s.rawtx d in
      elim p [
        | incomplete ↦ (incomplete, record { rawtx = rawtx'; sub_step = k }, d')
        | completed ↦ (completed, record { rawtx = count rawtx'; sub_step = 0 }, d')
        | failed ↦ (completed, record { rawtx = count rawtx'; sub_step = 0 }, d')
      ]

module _ {D : Type 0} (ops : Stream D) where
  unfoldable pub parse_rawtx_version : ParsingStep RawtxState D
  parse_rawtx_version = on_rawtx (hash_next ops 4)

  -- The flag that follows the marker 0x00; both are read at once.
  unfoldable pub check_flag : ParsingStep Rawtx D
  check_flag =
      read_then ops (λ s. 2)
        (λ bytes s.
          if get_or bytes 1 0 == 1 then (true, record s { is_segwit = true }) else (false, s))

  unfoldable pub check_segwit : ParsingStep Rawtx D
  check_segwit s d =
      let flag_checked = check_flag s d in
      if ltb (ops.get_length d) 1
      then (incomplete, s, d)
      else if ops.peek d == 0
      then flag_checked
      else (completed, record s { is_segwit = false }, d)

  unfoldable pub parse_rawtx_check_segwit : ParsingStep RawtxState D
  parse_rawtx_check_segwit = on_rawtx check_segwit

  unfoldable pub parse_rawtx_input_count : ParsingStep RawtxState D
  parse_rawtx_input_count =
      on_rawtx
        (read_varint_then ops (λ n s. record (hash_update_varint n s) { n_inputs = n % 2 ^ 32 }))

  unfoldable pub parse_rawtx_inputs_init : ParsingStep RawtxState D
  parse_rawtx_inputs_init =
      update (λ s. record { rawtx = record s.rawtx { in_counter = 0 }; sub_step = 0 })

  unfoldable pub parse_rawtx_inputs : ParsingStep RawtxState D
  parse_rawtx_inputs =
      run_loop ops (while_body more_inputs (sub_parser (parse_rawtxinput_steps ops) count_input))

  unfoldable pub parse_rawtx_output_count : ParsingStep RawtxState D
  parse_rawtx_output_count =
      on_rawtx
        (read_varint_then ops (λ n s. record (hash_update_varint n s) { n_outputs = n % 2 ^ 32 }))

  unfoldable pub parse_rawtx_outputs_init : ParsingStep RawtxState D
  parse_rawtx_outputs_init =
      update (λ s. record { rawtx = record s.rawtx { out_counter = 0 }; sub_step = 0 })

  unfoldable pub parse_rawtx_outputs : ParsingStep RawtxState D
  parse_rawtx_outputs =
      run_loop ops (while_body more_outputs (sub_parser (parse_rawtxoutput_steps ops) count_output))

  unfoldable pub parse_rawtx_witnesses_init : ParsingStep RawtxState D
  parse_rawtx_witnesses_init =
      on_rawtx (update (λ s. record s { wit_counter = 0; is_cur_wit_stack_elements_read = false }))

  unfoldable pub element_bytes : ParsingStep Rawtx D
  element_bytes = run_loop ops (
      while_body more_element_bytes
        (read_then ops (λ s. data_len s.cur_wit_elem_len s.cur_wit_el_bytes_read) skip_bytes))

  unfoldable pub element_len : ParsingStep Rawtx D
  element_len = skip_if (λ s. s.is_cur_wit_elem_len_read) (read_varint_then ops start_element)

  unfoldable pub one_element : ParsingStep Rawtx D
  one_element = in_sequence element_len (in_sequence element_bytes (update end_element))

  unfoldable pub stack_elements : ParsingStep Rawtx D
  stack_elements = run_loop ops (while_body more_stack_elements one_element)

  unfoldable pub stack_size : ParsingStep Rawtx D
  stack_size = skip_if (λ s. s.is_cur_wit_stack_elements_read) (read_varint_then ops start_stack)

  unfoldable pub one_stack : ParsingStep Rawtx D
  one_stack = in_sequence stack_size (in_sequence stack_elements (update end_stack))

  unfoldable pub parse_rawtx_witnesses : ParsingStep RawtxState D
  parse_rawtx_witnesses =
      on_rawtx (skip_if (λ s. not s.is_segwit) (run_loop ops (while_body more_stacks one_stack)))

  unfoldable pub parse_rawtx_locktime : ParsingStep RawtxState D
  parse_rawtx_locktime = on_rawtx (hash_next ops 4)

  unfoldable pub parse_rawtx_steps : List (ParsingStep RawtxState D)
  parse_rawtx_steps =
      parse_rawtx_version ∷ parse_rawtx_check_segwit ∷ parse_rawtx_input_count
      ∷ parse_rawtx_inputs_init ∷ parse_rawtx_inputs ∷ parse_rawtx_output_count
      ∷ parse_rawtx_outputs_init ∷ parse_rawtx_outputs ∷ parse_rawtx_witnesses_init
      ∷ parse_rawtx_witnesses ∷ parse_rawtx_locktime ∷ []
