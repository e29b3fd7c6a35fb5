-- ===== src/Rawtx/Pieces.antt =====
-- The pieces of a transaction that the callback of psbt_parse_rawtx.c is given, wherever it is cut.
use membrane_app_bitcoin_new.Parser.Stepwise.{read_then}
use membrane_app_bitcoin_new.Rawtx.Resume.{parse_rawtx-Resumes}
use membrane_app_bitcoin_new.Rawtx.Buffered.{parse_rawtx-Implements}
use membrane_app_bitcoin_new.Parser.Refine.{parser_run-Implements, RunAgrees}
use membrane_app_bitcoin_new.Parser.Implement.{Ready}
use membrane_app_bitcoin_new.Parser.Steps.{parser_run-Resumes, RunContinues}
use membrane_app_bitcoin_new.Buffer.Content.{length-content, content}
use membrane_app_bitcoin_new.Bytes.Value.{IsByte}
use membrane_app_bitcoin_new.Buffer.Inv.{IsValid}
use membrane_app_bitcoin_new.Parser.Stream.{buffers, unread}
use membrane_app_bitcoin_new.Parser.Run.{parser_run_lem}
use membrane_app_bitcoin_new.Rawtx.Whole.{on_rawtx, parse_rawtx_version, parse_rawtx_steps}
use membrane_app_bitcoin_new.Rawtx.Chunks.{
  parsed-Matches, parsed, cb_process_data-parsed, cb_process_data-failed, Matches, AlwaysFit,
  FitsStore, stored, IsPiece, parse,
}
use membrane_app_bitcoin_new.Rawtx.{hash_next, ParserOutputs, RawtxState}
use membrane_app_bitcoin_new.Buffer.{Buffer, buffer_create}
use membrane_app_bitcoin_new.Rawtx.Flow.{init_flow, store_size, cb_process_data, FlowState}
use mathlib.Core.Path.{subst, ap₂}
use membrane_app_bitcoin_new.Preimage.Stream.{contents, feed}
use membrane_app_bitcoin_new.Common.{
  false, Option, All-append, ◌∙◌, append_assoc, length-append, ap, append-nil, sym, length, arith,
  All, ℕ, List, [], ◌∷◌, ◌≡◌, refl, ◌++◌,
}
use membrane_app_bitcoin_new.Parser.{
  Buffers, run_steps, Progress, parser_run, failed, incomplete, completed,
}

all_done :
    (k : ℕ) (st : RawtxState) (d : Buffers)
    → k ≡ 11
    → parser_run (parse_rawtx_steps buffers) k st d ≡ (completed, k, st, d)
unfolding parser_run run_steps parse_rawtx_steps
all_done k st d e = rw e refl

-- The store and a piece, as the parser is given them.
abbrev both : FlowState → Buffer → Buffers
both s b = record { first = stored s; second = b }

both-Ready :
    (s : FlowState) (b : Buffer)
    → IsPiece b
    → IsValid (stored s)
    → All IsByte (content (stored s))
    → length s.store ≡ store_size
    → Ready store_size (both s b)
unfolding buffer_create
both-Ready s b piece v h l = record {
  valid = record {
    first = v;
    second = piece.valid;
    small = omega (
      arith,
      length-append (content (stored s)) (content b),
      length-content v,
      v.backed,
      piece.small,
    );
  };
  bytes = All-append IsByte (content (stored s)) (content b) h piece.bytes;
  store = l;
}

-- Where a run is completed, it is at the end.
abbrev AtEnd : Progress × ℕ × RawtxState × List ℕ → Type 0
AtEnd (incomplete, k, st, r) = Unit
AtEnd (completed, k, st, r) = k ≡ 11
AtEnd (failed, k, st, r) = Unit

parse-AtEnd : (start : RawtxState) (xs : List ℕ) → AtEnd (parse start xs)
unfolding parse_rawtx_steps
parse-AtEnd start xs = go (parse start xs) ended
  where
    go : (t : Progress × ℕ × RawtxState × List ℕ) → (t.0 ≡ completed → t.1 ≡ 11) → AtEnd t
    go (incomplete, k, st, r) e = tt
    go (completed, k, st, r) e = e refl
    go (failed, k, st, r) e = tt

    ended : (parse start xs).0 ≡ completed → (parse start xs).1 ≡ 11
    ended = (parser_run_lem (parse_rawtx_steps unread) 0 start xs (omega arith)).2.0

-- One more piece.
process-Matches :
    (start : RawtxState) (xs : List ℕ) (b : Buffer) (s : FlowState)
    → IsPiece b
    → FitsStore (parse start (xs ++ content b))
    → Matches (parse start xs) s
    → Matches (parse start (xs ++ content b)) (cb_process_data b s)
process-Matches start xs b s piece f m =
    go (parse start xs) (parse start (xs ++ content b))
      (parser_run-Resumes (parse_rawtx_steps unread) 0 start xs (content b) parse_rawtx-Resumes)
      (parse-AtEnd start xs) f m
  where
    go :
        (t u : Progress × ℕ × RawtxState × List ℕ)
        → RunContinues (parser_run (parse_rawtx_steps unread)) (content b) t u
        → AtEnd t
        → FitsStore u
        → Matches t s
        → Matches u (cb_process_data b s)
    go (failed, k, st, r) u c e f m =
        subst (λ w. Matches w (cb_process_data b s)) (sym c)
          (ap (λ s'. s'.parser_error) (cb_process_data-failed b s m) ∙ m)
    go (completed, k, st, r) u c e f (ok, at, same) =
        subst (λ w. Matches w (cb_process_data b s)) (sym c)
          (subst (Matches (completed, k, st, r ++ content b))
            (sym (
              cb_process_data-parsed b s ok
              ∙ ap (parsed s) (all_done s.cur_step s.parser_state (both s b) (at ∙ e))))
            (ok, at, same))
    go (incomplete, k, st, r) u c e f (ok, at, same, left, v, h, l) =
        subst (Matches u) (sym (cb_process_data-parsed b s ok)) (
          parsed-Matches s ok
            (parser_run (parse_rawtx_steps buffers) s.cur_step s.parser_state (both s b)) u
            (subst
              (RunAgrees store_size
                (parser_run (parse_rawtx_steps buffers) s.cur_step s.parser_state (both s b)))
              (ap₂ (λ i x. parser_run (parse_rawtx_steps unread) i s.parser_state (x ++ content b))
                  at left
                ∙ ap (λ x. parser_run (parse_rawtx_steps unread) k x (r ++ content b)) same
                ∙ sym c)
              (parser_run-Implements store_size (parse_rawtx_steps buffers)
                (parse_rawtx_steps unread) (parse_rawtx-Implements store_size) s.cur_step
                s.parser_state (both s b) (both-Ready s b piece v h l)))
            f)

feed-Matches :
    (start : RawtxState) (xs : List ℕ) (bs : List Buffer) (s : FlowState)
    → All IsPiece bs
    → AlwaysFit start xs bs
    → Matches (parse start xs) s
    → Matches (parse start (xs ++ contents bs)) (feed cb_process_data bs s)
feed-Matches start xs [] s h f m = subst (λ t. Matches (parse start t) s) (sym (append-nil xs)) m
feed-Matches start xs (b ∷ bs) s (h, hs) (f, fs) m =
    subst (λ t. Matches (parse start t) (feed cb_process_data bs (cb_process_data b s)))
      (append_assoc xs (content b) (contents bs))
      (feed-Matches start (xs ++ content b) bs (cb_process_data b s) hs fs
        (process-Matches start xs b s h f m))

init-Matches :
    (memory : FlowState) (outputs : ParserOutputs) (output_index : Option ℕ)
    → length memory.store ≡ store_size
    → Matches
        (parse (init_flow memory outputs output_index).parser_state [])
        (init_flow memory outputs output_index)
unfolding init_flow parser_run run_steps parse_rawtx_steps parse_rawtx_version on_rawtx hash_next
    read_then buffer_create
init-Matches memory outputs output_index l = (
  refl,
  refl,
  refl,
  refl,
  record { within = omega arith; backed = omega arith; small = omega arith },
  tt,
  l,
)

-- Where the store has its 32 bytes, the pieces are valid buffers of bytes, each of fewer than 2^32 - 32,
-- and the bytes that the parser leaves after a piece fit into the store: after all the pieces the
-- callback has reported an error exactly if one run of the parser over all their bytes fails, its
-- parser is otherwise in the state and at the step where that run ends, and where the run waits for
-- more bytes those it left are in the store.
pub pieces_lem :
    (memory : FlowState) (outputs : ParserOutputs) (output_index : Option ℕ) (bs : List Buffer)
    → length memory.store ≡ store_size
    → All IsPiece bs
    → AlwaysFit (init_flow memory outputs output_index).parser_state [] bs
    → Matches
        (parse (init_flow memory outputs output_index).parser_state (contents bs))
        (feed cb_process_data bs (init_flow memory outputs output_index))
pieces_lem memory outputs output_index bs l h f =
    feed-Matches (init_flow memory outputs output_index).parser_state [] bs
      (init_flow memory outputs output_index) h f (init-Matches memory outputs output_index l)

-- Two results with the same run behind them.
Matches-same :
    (t : Progress × ℕ × RawtxState × List ℕ) (s s' : FlowState)
    → Matches t s
    → Matches t s'
    → s.parser_error ≡ false
    → (s'.parser_error ≡ false) × (s'.cur_step ≡ s.cur_step) × (s'.parser_state ≡ s.parser_state)
Matches-same (incomplete, k, st, r) s s' m m' e = (m'.0, m'.1 ∙ sym m.1, m'.2 ∙ sym m.2)
Matches-same (completed, k, st, r) s s' m m' e = (m'.0, m'.1 ∙ sym m.1, m'.2 ∙ sym m.2)
Matches-same (failed, k, st, r) s s' m m' e = absurd (ground arith)

-- Two ways to cut the same bytes into pieces, each as in the theorem above: where the callback has
-- reported no error after the first pieces, it has reported none after the others, and its parser is
-- then at the same step and in the same state.
pub pieces_same :
    (memory : FlowState) (outputs : ParserOutputs) (output_index : Option ℕ) (bs cs : List Buffer)
    → length memory.store ≡ store_size
    → All IsPiece bs
    → All IsPiece cs
    → AlwaysFit (init_flow memory outputs output_index).parser_state [] bs
    → AlwaysFit (init_flow memory outputs output_index).parser_state [] cs
    → contents bs ≡ contents cs
    → (feed cb_process_data bs (init_flow memory outputs output_index)).parser_error ≡ false
    → ((feed cb_process_data cs (init_flow memory outputs output_index)).parser_error ≡ false)
      × ((feed cb_process_data cs (init_flow memory outputs output_index)).cur_step
          ≡ (feed cb_process_data bs (init_flow memory outputs output_index)).cur_step)
      × ((feed cb_process_data cs (init_flow memory outputs output_index)).parser_state
          ≡ (feed cb_process_data bs (init_flow memory outputs output_index)).parser_state)
pieces_same memory outputs output_index bs cs l h k f g e none_reported =
    let start = init_flow memory outputs output_index in
    Matches-same (parse start.parser_state (contents bs)) (feed cb_process_data bs start)
      (feed cb_process_data cs start) (pieces_lem memory outputs output_index bs l h f)
      (subst (λ t. Matches (parse start.parser_state t) (feed cb_process_data cs start)) (sym e)
        (pieces_lem memory outputs output_index cs l k g))
      none_reported
