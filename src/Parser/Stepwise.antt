-- ===== src/Parser/Stepwise.antt =====
-- The forms that the parsing steps over common/parser.c take: reads whose result decides between 1
-- and 0, steps in sequence, and loops.
use membrane_app_bitcoin_new.Common.{ℕ, zero, suc, ◌+◌, ◌*◌, List, none, some, Bool, if◌then◌else◌}
use membrane_app_bitcoin_new.Parser.{Progress, failed, incomplete, completed, ParsingStep}
use membrane_app_bitcoin_new.Parser.Stream.{Stream}

-- What one round of a loop comes to.
pub data Turn : Type 0 where
  stop : Progress → Turn
  again : Turn

abbrev pub LoopBody : Type 0 → Type 0 → Type 0
LoopBody S D = S → D → Turn × S × D

-- `while`, with fuel.
unfoldable pub loop : {S D : Type 0} → ℕ → LoopBody S D → S → D → Progress × S × D
loop zero body s d = (incomplete, s, d)
loop (suc n) body s d =
    let (turn, s', d') = body s d in
    let rest = loop n body s' d' in elim turn [ stop p ↦ (p, s', d') | again ↦ rest ]

-- One step and then, if it is completed, the next.
unfoldable pub in_sequence : {S D : Type 0} → ParsingStep S D → ParsingStep S D → ParsingStep S D
in_sequence step next s d =
    let (p, s', d') = step s d in
    let rest = next s' d' in
    elim p [ failed ↦ (failed, s', d') | incomplete ↦ (incomplete, s', d') | completed ↦ rest ]

-- A step that reads nothing.
unfoldable pub update : {S D : Type 0} → (S → S) → ParsingStep S D
update f s d = (completed, f s, d)

unfoldable pub skip_if : {S D : Type 0} → (S → Bool) → ParsingStep S D → ParsingStep S D
skip_if test step s d = if test s then (completed, s, d) else step s d

-- The body of `while (test) { step }`, where the step returns early unless it is completed.
unfoldable pub while_body : {S D : Type 0} → (S → Bool) → ParsingStep S D → LoopBody S D
while_body test step s d =
    let (p, s', d') = step s d in
    if test s
    then elim p [
      | failed ↦ (stop failed, s', d')
      | incomplete ↦ (stop incomplete, s', d')
      | completed ↦ (again, s', d')
    ]
    else (stop completed, s, d)

-- The body of `while (true) { step; if (done) return 1; }`.
unfoldable pub until_body : {S D : Type 0} → ParsingStep S D → (S → Bool) → LoopBody S D
until_body step done s d =
    let (p, s', d') = step s d in
    elim p [
      | failed ↦ (stop failed, s', d')
      | incomplete ↦ (stop incomplete, s', d')
      | completed ↦ if done s' then (stop completed, s', d') else (again, s', d')
    ]

module _ {D : Type 0} (ops : Stream D) where
  -- Read some bytes and use them: return 0 if there are too few, and -1 if the use refuses them.
  unfoldable pub read_then : {S : Type 0} → (S → ℕ) → (List ℕ → S → Bool × S) → ParsingStep S D
  read_then size use_bytes s d = elim (ops.read_bytes d (size s)) [
    | none ↦ (incomplete, s, d)
    | some (bytes, d') ↦
        let (accepted, s') = use_bytes bytes s in (if accepted then completed else failed, s', d')
  ]

  unfoldable pub read_varint_then : {S : Type 0} → (ℕ → S → S) → ParsingStep S D
  read_varint_then use_value s d = elim (ops.read_varint d) [
    | none ↦ (incomplete, s, d)
    | some (value, d') ↦ (completed, use_value value s, d')
  ]

  -- Every round of a loop that goes on reads a byte, but for at most one: twice the number of bytes
  -- is fuel enough.
  unfoldable pub run_loop : {S : Type 0} → LoopBody S D → ParsingStep S D
  run_loop body s d = loop (2 * ops.get_length d + 2) body s d
