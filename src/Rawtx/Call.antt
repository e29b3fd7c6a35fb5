-- ===== src/Rawtx/Call.antt =====
-- What `call_psbt_parse_rawtx` of handler/lib/psbt_parse_rawtx.c returns, and the errors that its
-- parser reports.
use membrane_app_bitcoin_new.Buffer.{Buffer}
use membrane_app_bitcoin_new.Preimage.{
  call_stream_preimage, read_header, request_preimage, first_reply,
}
use membrane_app_bitcoin_new.Dispatcher.Received.{Fits}
use membrane_app_bitcoin_new.Parser.Stream.{buffers}
use membrane_app_bitcoin_new.Rawtx.Outer.{sub_parser_lem, counted}
use membrane_app_bitcoin_new.MerkleMap.{call_get_merkleized_map_value_hash, MapCommitment}
use membrane_app_bitcoin_new.Parser.Outcome.{while_off, while_on, loop-suc, after, while_turn}
use membrane_app_bitcoin_new.Dispatcher.{Dispatcher, Exchange}
use membrane_app_bitcoin_new.Rawtx.{
  parse_rawtxoutput_steps, parse_rawtxinput_steps, ParserOutputs, RawtxState, Rawtx,
}
use membrane_app_bitcoin_new.Rawtx.Flow.{
  init_flow, cb_process_data, FlowState, call_psbt_parse_rawtx,
}
use membrane_app_bitcoin_new.Rawtx.Whole.{
  count_output, more_outputs, count_input, more_inputs, sub_parser, parse_rawtx_outputs,
  parse_rawtx_inputs,
}
use mathlib.Core.Path.{subst}
use membrane_app_bitcoin_new.Common.{
  ◌∙◌, ap, ◌^◌, ◌<◌, All, inr, inl, Bool-cases, sym, arith, ℕ, zero, suc, List, ◌∷◌, Bool, false,
  Option, none, if◌then◌else◌, ◌≡◌, refl, ◌≤◌,
}
use membrane_app_bitcoin_new.Parser.{
  parser_run, Buffers, ParsingStep, Progress, failed, incomplete, completed,
}
use membrane_app_bitcoin_new.Parser.Stepwise.{
  run_loop, LoopBody, while_body, Turn, loop, stop, again,
}
use membrane_app_bitcoin_new.Preimage.Stream.{contents, feed, stream_preimage_sound}
use membrane_app_bitcoin_new.Common.Result.{Result, ok, err}

module _ {S D : Type 0} where
  abbrev Succeeds : Progress × S × D → Type 0
  Succeeds (failed, s, d) = ⊥
  Succeeds (incomplete, s, d) = Unit
  Succeeds (completed, s, d) = Unit

  abbrev GoesOn : Turn × S × D → Type 0
  GoesOn (stop failed, s, d) = ⊥
  GoesOn (stop incomplete, s, d) = Unit
  GoesOn (stop completed, s, d) = Unit
  GoesOn (again, s, d) = Unit

  loop-Succeeds :
      (body : LoopBody S D)
      → ((s : S) (d : D) → GoesOn (body s d))
      → (n : ℕ) (s : S) (d : D) → Succeeds (loop n body s d)
  unfolding loop
  loop-Succeeds body h zero s d = tt
  loop-Succeeds body h (suc n) s d =
      subst Succeeds (sym (loop-suc body n s d)) (go (body s d) (h s d) (loop-Succeeds body h n))
    where
      go :
          (t : Turn × S × D)
          → GoesOn t
          → ((s' : S) (d' : D) → Succeeds (loop n body s' d'))
          → Succeeds (after body n t)
      go (stop failed, s', d') g rest = g
      go (stop incomplete, s', d') g rest = tt
      go (stop completed, s', d') g rest = tt
      go (again, s', d') g rest = rest s' d'

  while-GoesOn :
      (test : S → Bool) (step : ParsingStep S D)
      → ((s : S) (d : D) → Succeeds (step s d))
      → (s : S) (d : D) → GoesOn (while_body test step s d)
  while-GoesOn test step h s d = elim (Bool-cases (test s)) [
    | inl e ↦ subst GoesOn (sym (while_on test step s d e)) (go (step s d) (h s d))
    | inr e ↦ subst GoesOn (sym (while_off test step s d e)) tt
  ]
    where
      go : (t : Progress × S × D) → Succeeds t → GoesOn (while_turn test step t)
      go (failed, s', d') g = g
      go (incomplete, s', d') g = tt
      go (completed, s', d') g = tt

  not_failed : (t : Progress × S × D) → Succeeds t → ¬ (t.0 ≡ failed)
  not_failed (failed, s, d) g e = g
  not_failed (incomplete, s, d) g e = absurd (ground arith)
  not_failed (completed, s, d) g e = absurd (ground arith)

sub_parser-Succeeds :
    {D : Type 0} (steps : List (ParsingStep Rawtx D)) (count : Rawtx → Rawtx) (s : RawtxState)
    (d : D)
    → Succeeds (sub_parser steps count s d)
sub_parser-Succeeds {D} steps count s d =
    subst Succeeds (sym (sub_parser_lem steps count s d))
      (go (parser_run steps s.sub_step s.rawtx d))
  where
    go : (t : Progress × ℕ × Rawtx × D) → Succeeds (counted steps count t)
    go (incomplete, k, s', r) = tt
    go (completed, k, s', r) = tt
    go (failed, k, s', r) = tt

-- Whatever the two buffers hold, the steps for the inputs and for the outputs never fail: they return
-- 0 or 1, also where the parser for an input or an output has failed.
pub sub_parsers_never_fail :
    (s : RawtxState) (d : Buffers)
    → (¬ ((parse_rawtx_inputs buffers s d).0 ≡ failed))
      × (¬ ((parse_rawtx_outputs buffers s d).0 ≡ failed))
unfolding parse_rawtx_inputs parse_rawtx_outputs run_loop
sub_parsers_never_fail s d = (
  not_failed (parse_rawtx_inputs buffers s d) (
      loop-Succeeds _
        (while-GoesOn more_inputs _
          (sub_parser-Succeeds (parse_rawtxinput_steps buffers) count_input))
        _ s d),
  not_failed (parse_rawtx_outputs buffers s d) (
      loop-Succeeds _
        (while-GoesOn more_outputs _
          (sub_parser-Succeeds (parse_rawtxoutput_steps buffers) count_output))
        _ s d),
)

module _ (sha256 : List ℕ → List ℕ) where
  -- What a result comes from.
  returned :
      {txid : List ℕ} {outputs' : ParserOutputs} {dc' : Dispatcher} {es' : List Exchange}
      (r : Result (ℕ × FlowState × Dispatcher × List Exchange))
      → elim r as (λ _. Result (List ℕ × ParserOutputs × Dispatcher × List Exchange)) [
        | err c ↦ err 1
        | ok (len, s, dc2, es2) ↦
            if s.parser_error
            then err 1
            else ok (
              sha256 (sha256 s.parser_state.rawtx.hashed),
              s.parser_state.rawtx.outputs,
              dc2,
              es2,
            )
      ]
        ≡ ok (txid, outputs', dc', es')
      → (t : ℕ × FlowState × Dispatcher × List Exchange) × (r ≡ ok t)
        × (t.1.parser_error ≡ false)
        × (txid ≡ sha256 (sha256 t.1.parser_state.rawtx.hashed))
        × (outputs' ≡ t.1.parser_state.rawtx.outputs)
  returned (err c) h = absurd (ground arith)
  returned (ok (len, s, dc2, es2)) h = elim (Bool-cases s.parser_error) [
    | inl e ↦ absurd (ground arith)
    | inr e ↦ ((len, s, dc2, es2), refl, e, ground arith, ground arith)
  ]

  -- `call_psbt_parse_rawtx`, where the host gives the hash of the value of the key, and then, in APDUs
  -- that lie in their memory, a first reply with at least one byte and fewer than 2^32: if it
  -- succeeds, it has fed its callback with pieces whose bytes, one after the other and behind some
  -- byte, have that hash; the callback has reported no error, the returned transaction id is the
  -- double hash of the bytes that the parser hashed, and the other outputs are those that the parser
  -- has written.
  pub psbt_parse_rawtx_sound :
      (es : List Exchange) (dc : Dispatcher) (map : MapCommitment) (key : List ℕ)
      (output_index : Option ℕ) (outputs : ParserOutputs) (memory : FlowState) {value_hash : List ℕ}
      {dc0 dc1 dc2 dc' : Dispatcher} {es0 es1 es' : List Exchange} {plen partial : ℕ}
      {txid : List ℕ} {outputs' : ParserOutputs}
      → call_get_merkleized_map_value_hash sha256 es dc map key ≡ ok (value_hash, dc0, es0)
      → All Fits es0
      → first_reply es0 (request_preimage dc0 value_hash) ≡ ok (dc1, es1)
      → read_header dc1 ≡ ok (plen, partial, dc2)
      → 1 ≤ partial
      → partial < 2 ^ 32
      → call_psbt_parse_rawtx sha256 es dc map key output_index outputs memory
        ≡ ok (txid, outputs', dc', es')
      → (pieces : List Buffer) × (x : ℕ) × (sha256 (x ∷ contents pieces) ≡ value_hash)
        × ((feed cb_process_data pieces (init_flow memory outputs output_index)).parser_error
            ≡ false)
        × (txid
            ≡ sha256 (
                sha256
                  (feed cb_process_data pieces
                    (init_flow memory outputs output_index)).parser_state.rawtx.hashed))
        × (outputs'
            ≡ (feed cb_process_data pieces
                (init_flow memory outputs output_index)).parser_state.rawtx.outputs)
  unfolding call_psbt_parse_rawtx
  psbt_parse_rawtx_sound es dc map key output_index outputs memory {value_hash} {dc0} {es0 = es0} q
        f p r pos small h =
      let start = init_flow memory outputs output_index in
      let ((len, s, dc3, es3), streamed, reported, id, outs) =
        returned (call_stream_preimage sha256 es0 dc0 value_hash none cb_process_data start)
          (rw (call_psbt_parse_rawtx, q) at h) in
      let (pieces, fed, counted, x, hashes) =
        stream_preimage_sound sha256 cb_process_data es0 dc0 value_hash none start f p r pos small
          streamed in
      let same : s ≡ feed cb_process_data pieces start = fed in
      (
        pieces,
        x,
        hashes,
        ap (λ t. t.parser_error) (sym same) ∙ reported,
        id ∙ ap (λ t. sha256 (sha256 t.parser_state.rawtx.hashed)) same,
        outs ∙ ap (λ t. t.parser_state.rawtx.outputs) same,
      )
