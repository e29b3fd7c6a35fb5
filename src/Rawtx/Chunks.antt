-- ===== src/Rawtx/Chunks.antt =====
-- One call of the callback of psbt_parse_rawtx.c, against a run of the parser over the plain list of
-- unread bytes.
use membrane_app_bitcoin_new.Parser.Concat.{contents}
use membrane_app_bitcoin_new.Parser.Implement.{Ready}
use membrane_app_bitcoin_new.Parser.Consolidate.{
  length-packed, packed-IsValid, content-packed, consolidate-packed, packed,
}
use membrane_app_bitcoin_new.Parser.Refine.{run_on_contents, RunAgrees}
use membrane_app_bitcoin_new.Bytes.Value.{IsByte}
use membrane_app_bitcoin_new.Parser.Stream.{buffers, unread}
use membrane_app_bitcoin_new.Rawtx.Whole.{parse_rawtx_steps}
use membrane_app_bitcoin_new.Buffer.Inv.{IsValid}
use membrane_app_bitcoin_new.Buffer.Content.{content}
use membrane_app_bitcoin_new.Buffer.{size_mod, buffer_create, Buffer}
use membrane_app_bitcoin_new.Rawtx.Flow.{store_size, FlowState, cb_process_data, keep_unparsed}
use membrane_app_bitcoin_new.Rawtx.{RawtxState}
use mathlib.Core.Path.{subst}
use membrane_app_bitcoin_new.Common.{
  ◌+◌, ◌<◌, if◌then◌else◌, Bool, ◌∙◌, sym, arith, All, ◌≤◌, length, ℕ, List, [], ◌∷◌, true, false,
  some, ◌≡◌, refl, ◌++◌,
}
use membrane_app_bitcoin_new.Parser.{
  parser_consolidate_buffers, Buffers, parser_run, Progress, failed, incomplete, completed,
}

-- One run over some bytes from the first step on.
abbrev pub parse : RawtxState → List ℕ → Progress × ℕ × RawtxState × List ℕ
parse start xs = parser_run (parse_rawtx_steps unread) 0 start xs

-- The buffer that the callback makes of the store.
abbrev pub stored : FlowState → Buffer
stored s = buffer_create s.store s.store_data_length

-- The state of the callback that a result amounts to: where the parser waits, the bytes it has not
-- used are in the store.
abbrev pub Matches : Progress × ℕ × RawtxState × List ℕ → FlowState → Type 0
Matches (incomplete, k, st, r) s =
    (s.parser_error ≡ false)
    × (s.cur_step ≡ k)
    × (s.parser_state ≡ st)
    × (content (stored s) ≡ r)
    × IsValid (stored s)
    × All IsByte (content (stored s))
    × (length s.store ≡ store_size)
Matches (completed, k, st, r) s =
    (s.parser_error ≡ false) × (s.cur_step ≡ k) × (s.parser_state ≡ st)
Matches (failed, k, st, r) s = s.parser_error ≡ true

-- The bytes that are left over fit into the store.
abbrev pub FitsStore : Progress × ℕ × RawtxState × List ℕ → Type 0
FitsStore (incomplete, k, st, r) = length r ≤ store_size
FitsStore (completed, k, st, r) = Unit
FitsStore (failed, k, st, r) = Unit

-- After each piece, given the bytes that came before.
abbrev pub AlwaysFit : RawtxState → List ℕ → List Buffer → Type 0
AlwaysFit start xs [] = Unit
AlwaysFit start xs (b ∷ bs) =
    FitsStore (parse start (xs ++ content b)) × AlwaysFit start (xs ++ content b) bs

-- A piece as the callback is given it.
pub record IsPiece (b : Buffer) : Type 0 where
  pub valid : IsValid b
  pub bytes : All IsByte (content b)
  pub small : length (content b) + store_size < size_mod

abbrev pub parsed : FlowState → Progress × ℕ × RawtxState × Buffers → FlowState
parsed s (incomplete, k, st, d) = keep_unparsed d (record s { parser_state = st; cur_step = k })
parsed s (completed, k, st, d) = record s { parser_state = st; cur_step = k }
parsed s (failed, k, st, d) = record s { parser_state = st; cur_step = k; parser_error = true }

pub cb_process_data-parsed :
    (b : Buffer) (s : FlowState)
    → s.parser_error ≡ false
    → cb_process_data b s
      ≡ parsed s (
          parser_run
            (parse_rawtx_steps buffers)
            s.cur_step
            s.parser_state
            (record { first = stored s; second = b }))
unfolding cb_process_data
cb_process_data-parsed b s e =
    go
      (parser_run (parse_rawtx_steps buffers) s.cur_step s.parser_state
        (record { first = stored s; second = b }))
      s.parser_error e
  where
    go :
        (t : Progress × ℕ × RawtxState × Buffers) (error : Bool)
        → error ≡ false
        → (if error then s else elim t.0 as (λ _. FlowState) [
          | incomplete ↦ keep_unparsed t.3 (record s { parser_state = t.2; cur_step = t.1 })
          | completed ↦ record s { parser_state = t.2; cur_step = t.1 }
          | failed ↦ record s { parser_state = t.2; cur_step = t.1; parser_error = true }
        ])
          ≡ parsed s t
    go t true e = absurd (ground arith)
    go (incomplete, k, st, d) false e = refl
    go (completed, k, st, d) false e = refl
    go (failed, k, st, d) false e = refl

pub cb_process_data-failed :
    (b : Buffer) (s : FlowState) → s.parser_error ≡ true → cb_process_data b s ≡ s
unfolding cb_process_data
cb_process_data-failed b s e = go s.parser_error _ e
  where
    go : (error : Bool) (other : FlowState) → error ≡ true → (if error then s else other) ≡ s
    go true other e = refl
    go false other e = absurd (ground arith)

kept :
    (d : Buffers) (s : FlowState)
    → parser_consolidate_buffers d store_size ≡ some (packed d)
    → keep_unparsed d s
      ≡ record s { store = (packed d).first.ptr; store_data_length = (packed d).first.size }
unfolding keep_unparsed
kept d s e = rw (e, keep_unparsed) refl

-- What a run over the two buffers leaves matches the run over their bytes.
pub parsed-Matches :
    (s : FlowState)
    → s.parser_error ≡ false
    → (t : Progress × ℕ × RawtxState × Buffers) (u : Progress × ℕ × RawtxState × List ℕ)
    → RunAgrees store_size t u
    → FitsStore u
    → Matches u (parsed s t)
unfolding buffer_create
parsed-Matches s e t u (q, v) f =
    subst (λ w. Matches w (parsed s t)) q (go t v (subst FitsStore (sym q) f))
  where
    go :
        (t : Progress × ℕ × RawtxState × Buffers)
        → Ready store_size t.3
        → FitsStore (run_on_contents store_size t)
        → Matches (run_on_contents store_size t) (parsed s t)
    go (completed, k, st, d) v f = (e, refl, refl)
    go (failed, k, st, d) v f = refl
    go (incomplete, k, st, d) v f =
        let room : length (contents d) ≤ length d.first.ptr = omega (arith, v.store) in
        subst (Matches (incomplete, k, st, contents d))
          (sym (
            kept d (record s { parser_state = st; cur_step = k })
              (consolidate-packed d store_size v.valid f)))
          (
            e,
            refl,
            refl,
            content-packed d,
            packed-IsValid d v.valid room,
            subst (All IsByte) (sym (content-packed d)) v.bytes,
            length-packed d room ∙ v.store,
          )
