-- ===== src/Rawtx/Buffered.antt =====
-- The parser for a transaction of psbt_parse_rawtx.c over the two buffers of common/parser.c, step by
-- step against the same parser over the plain list of unread bytes.
use membrane_app_bitcoin_new.Parser.Varint.{peek_lem}
use membrane_app_bitcoin_new.Rawtx.Outer.{sub_parser_lem, counted}
use membrane_app_bitcoin_new.Parser.Concat.{get_length_lem, contents}
use membrane_app_bitcoin_new.Parser.Refine.{
  parser_run-Implements, RunAgrees, in_sequence-Implements, run_on_contents, until-Implements,
  while-Implements, skip_if-Implements, update-Implements, ImplementAll,
}
use membrane_app_bitcoin_new.Parser.Stream.{Stream, unread, buffers}
use membrane_app_bitcoin_new.Parser.Implement.{
  Agrees-along, Agrees, Ready, read_varint_then-Implements, read_then-Implements, Implements,
}
use membrane_app_bitcoin_new.Rawtx.Whole.{
  end_stack, end_element, skip_bytes, count_output, more_element_bytes, more_outputs, start_element,
  count_input, more_stack_elements, more_inputs, start_stack, parse_rawtx_locktime, more_stacks,
  parse_rawtx_witnesses_init, parse_rawtx_outputs, parse_rawtx_outputs_init, element_bytes,
  parse_rawtx_output_count, element_len, parse_rawtx_inputs, sub_parser, one_element,
  parse_rawtx_inputs_init, parse_rawtx_input_count, stack_elements, parse_rawtx_check_segwit,
  stack_size, check_flag, one_stack, parse_rawtx_version, check_segwit, on_rawtx, parse_rawtx_steps,
  parse_rawtx_witnesses,
}
use membrane_app_bitcoin_new.Rawtx.{
  RawtxState, use_scriptpubkey, use_scriptsig, scriptpubkey_done, scriptsig_done,
  use_scriptpubkey_size, parse_rawtxinput_sequence, parse_rawtxinput_scriptsig, use_value,
  parse_rawtxinput_scriptsig_init, parse_rawtxoutput_scriptpubkey, parse_rawtxinput_scriptsig_size,
  parse_rawtxoutput_scriptpubkey_init, Rawtx, parse_rawtxinput_vout,
  parse_rawtxoutput_scriptpubkey_size, parse_rawtxinput_txid, parse_rawtxoutput_value, hash_next,
  parse_rawtxinput_steps, parse_rawtxoutput_steps,
}
use native.Mathlib.Decide.{dec_lt}
use mathlib.Core.Path.{subst}
use membrane_app_bitcoin_new.Parser.{
  dbuffer_get_length, parser_run, Progress, Buffers, ParsingStep, incomplete, completed, failed,
}
use membrane_app_bitcoin_new.Common.{
  inr, inl, get_or, Bool-cases, le→ltb, arith, ◌≤◌, lt→ltb, ◌∙◌, ◌==◌, ltb, ap, length, List, true,
  false, ◌≡◌, refl, ℕ,
}

module _ {D : Type 0} (ops : Stream D) (s : Rawtx) (d : D) where
  nothing_read : ltb (ops.get_length d) 1 ≡ true → check_segwit ops s d ≡ (incomplete, s, d)
  unfolding check_segwit
  nothing_read e = rw (e, check_segwit) refl

  marker_read :
      ltb (ops.get_length d) 1 ≡ false
      → (ops.peek d == 0) ≡ true
      → check_segwit ops s d ≡ check_flag ops s d
  unfolding check_segwit
  marker_read e k = rw (e, k, check_segwit) refl

  no_marker_read :
      ltb (ops.get_length d) 1 ≡ false
      → (ops.peek d == 0) ≡ false
      → check_segwit ops s d ≡ (completed, record s { is_segwit = false }, d)
  unfolding check_segwit
  no_marker_read e k = rw (e, k, check_segwit) refl

module _ (room : ℕ) where
  hash_next-Implements : (n : ℕ) → Implements room (hash_next buffers n) (hash_next unread n)
  unfolding hash_next
  hash_next-Implements n = read_then-Implements room _ _

  inputs_implement :
      ImplementAll room (parse_rawtxinput_steps buffers) (parse_rawtxinput_steps unread)
  unfolding parse_rawtxinput_steps parse_rawtxinput_txid parse_rawtxinput_vout
      parse_rawtxinput_scriptsig_size parse_rawtxinput_scriptsig_init parse_rawtxinput_scriptsig
      parse_rawtxinput_sequence
  inputs_implement = (
    hash_next-Implements 32,
    (
      hash_next-Implements 4,
      (
        read_varint_then-Implements room _,
        (
          update-Implements room _,
          (
            until-Implements room _ _ scriptsig_done (read_then-Implements room _ use_scriptsig),
            (hash_next-Implements 4, tt),
          ),
        ),
      ),
    ),
  )

  outputs_implement :
      ImplementAll room (parse_rawtxoutput_steps buffers) (parse_rawtxoutput_steps unread)
  unfolding parse_rawtxoutput_steps parse_rawtxoutput_value parse_rawtxoutput_scriptpubkey_size
      parse_rawtxoutput_scriptpubkey_init parse_rawtxoutput_scriptpubkey
  outputs_implement = (
    read_then-Implements room _ use_value,
    (
      read_varint_then-Implements room use_scriptpubkey_size,
      (
        update-Implements room _,
        (
          until-Implements room _ _ scriptpubkey_done
              (read_then-Implements room _ use_scriptpubkey),
          tt,
        ),
      ),
    ),
  )

  on_rawtx-Implements :
      (step : ParsingStep Rawtx Buffers) (spec : ParsingStep Rawtx (List ℕ))
      → Implements room step spec
      → Implements room (on_rawtx step) (on_rawtx spec)
  unfolding on_rawtx
  on_rawtx-Implements step spec h s d v =
      let (e, v') = h s.rawtx d v in (ap (λ t. (t.0, record s { rawtx = t.1 }, t.2)) e, v')

  sub_parser-Implements :
      (steps : List (ParsingStep Rawtx Buffers)) (specs : List (ParsingStep Rawtx (List ℕ)))
      (count : Rawtx → Rawtx)
      → ImplementAll room steps specs
      → Implements room (sub_parser steps count) (sub_parser specs count)
  sub_parser-Implements steps specs count h s d v =
      Agrees-along room (sub_parser_lem steps count s d) (sub_parser_lem specs count s (contents d))
        (go (parser_run steps s.sub_step s.rawtx d)
          (parser_run specs s.sub_step s.rawtx (contents d))
          (parser_run-Implements room steps specs h s.sub_step s.rawtx d v))
    where
      same :
          (t : Progress × ℕ × Rawtx × Buffers)
          → Ready room t.3
          → Agrees room (counted steps count t) (counted specs count (run_on_contents room t))
      same (incomplete, k, s', d') v' = (refl, v')
      same (completed, k, s', d') v' = (refl, v')
      same (failed, k, s', d') v' = (refl, v')

      go :
          (t : Progress × ℕ × Rawtx × Buffers) (u : Progress × ℕ × Rawtx × List ℕ)
          → RunAgrees room t u
          → Agrees room (counted steps count t) (counted specs count u)
      go t u (e, v') =
          subst (λ w. Agrees room (counted steps count t) (counted specs count w)) e (same t v')

  flag_implemented : Implements room (check_flag buffers) (check_flag unread)
  unfolding check_flag
  flag_implemented = read_then-Implements room _ _

  check_segwit-Implements : Implements room (check_segwit buffers) (check_segwit unread)
  check_segwit-Implements s d v = elim (dec_lt (length (contents d)) 1) [
    | yes few ↦
        Agrees-along room
          (nothing_read buffers s d
            (ap (λ l. ltb l 1) (get_length_lem d v.valid) ∙ lt→ltb (length (contents d)) 1 few))
          (nothing_read unread s (contents d) (lt→ltb (length (contents d)) 1 few)) (refl, v)
    | no h ↦
        let enough : 1 ≤ length (contents d) = omega arith in
        let some_left : ltb (dbuffer_get_length d) 1 ≡ false =
          ap (λ l. ltb l 1) (get_length_lem d v.valid) ∙ le→ltb (length (contents d)) 1 enough in
        let some_left' : ltb (length (contents d)) 1 ≡ false =
          le→ltb (length (contents d)) 1 enough in
        let same_first = ap (λ x. x == 0) (peek_lem d v.valid enough) in
        elim (Bool-cases (get_or (contents d) 0 0 == 0)) [
          | inl e ↦
              Agrees-along room (marker_read buffers s d some_left (same_first ∙ e))
                (marker_read unread s (contents d) some_left' e) (flag_implemented s d v)
          | inr e ↦
              Agrees-along room (no_marker_read buffers s d some_left (same_first ∙ e))
                (no_marker_read unread s (contents d) some_left' e) (refl, v)
        ]
  ]

  witnesses_implement :
      Implements room (parse_rawtx_witnesses buffers) (parse_rawtx_witnesses unread)
  unfolding parse_rawtx_witnesses one_stack stack_size stack_elements one_element element_len
      element_bytes
  witnesses_implement = on_rawtx-Implements _ _ (
      skip_if-Implements room _ _ _ (
        while-Implements room more_stacks _ _ (
          in_sequence-Implements room _ _ _ _
            (skip_if-Implements room _ _ _ (read_varint_then-Implements room start_stack))
            (in_sequence-Implements room _ _ _ _
              (while-Implements room more_stack_elements _ _ (
                in_sequence-Implements room _ _ _ _
                  (skip_if-Implements room _ _ _ (read_varint_then-Implements room start_element))
                  (in_sequence-Implements room _ _ _ _
                    (while-Implements room more_element_bytes _ _
                      (read_then-Implements room _ skip_bytes))
                    (update-Implements room end_element))))
              (update-Implements room end_stack)))))

  pub parse_rawtx-Implements :
      ImplementAll room (parse_rawtx_steps buffers) (parse_rawtx_steps unread)
  unfolding parse_rawtx_steps parse_rawtx_version parse_rawtx_check_segwit parse_rawtx_input_count
      parse_rawtx_inputs_init parse_rawtx_inputs parse_rawtx_output_count parse_rawtx_outputs_init
      parse_rawtx_outputs parse_rawtx_witnesses_init parse_rawtx_locktime
  parse_rawtx-Implements = (
    on_rawtx-Implements _ _ (hash_next-Implements 4),
    (
      on_rawtx-Implements _ _ check_segwit-Implements,
      (
        on_rawtx-Implements _ _ (read_varint_then-Implements room _),
        (
          update-Implements room _,
          (
            while-Implements room more_inputs _ _
                (sub_parser-Implements _ _ count_input inputs_implement),
            (
              on_rawtx-Implements _ _ (read_varint_then-Implements room _),
              (
                update-Implements room _,
                (
                  while-Implements room more_outputs _ _
                      (sub_parser-Implements _ _ count_output outputs_implement),
                  (
                    on_rawtx-Implements _ _ (update-Implements room _),
                    (witnesses_implement, (on_rawtx-Implements _ _ (hash_next-Implements 4), tt)),
                  ),
                ),
              ),
            ),
          ),
        ),
      ),
    ),
  )

-- Where the two buffers are valid and hold bytes, fewer than 2^32 of them unread: the parser over them,
-- from any step and any state, ends with the result, the step and the state of the run over the
-- list of their unread bytes, the bytes left unread are those which that run leaves, and the buffers
-- are still valid and hold bytes, the first one in memory of the same extent.
pub parse_rawtx_buffers :
    (room k : ℕ) (s : RawtxState) (d : Buffers)
    → Ready room d
    → RunAgrees room
        (parser_run (parse_rawtx_steps buffers) k s d)
        (parser_run (parse_rawtx_steps unread) k s (contents d))
parse_rawtx_buffers room k s d v =
    parser_run-Implements room (parse_rawtx_steps buffers) (parse_rawtx_steps unread)
      (parse_rawtx-Implements room) k s d v
