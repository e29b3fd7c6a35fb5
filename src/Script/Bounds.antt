-- ===== src/Script/Bounds.antt =====
-- The size of what `format_opscript_script` of common/script.c writes.
use membrane_app_bitcoin_new.Common.{
  inr, inl, ◌-◌, leb, ltb, Bool-cases, [], ◌∷◌, ◌++◌, length-append, ℕ, ◌+◌, ◌*◌, ◌≤◌, ◌≡◌, List,
  arith, zero, suc, length, some,
}
use membrane_app_bitcoin_new.Script.{
  at, decimal, op_return_text, hex_prefix, finish, hex_loop, format_opscript_script,
}

-- MAX_OPRETURN_OUTPUT_DESC_SIZE.
abbrev pub max_opreturn_output_desc_size : ℕ
max_opreturn_output_desc_size = 12 + 80 * 2 + 1

length-hex_loop : (n : ℕ) (script : List ℕ) (i : ℕ) → length (hex_loop n script i) ≡ 2 * n
unfolding hex_loop
length-hex_loop zero script i = omega arith
length-hex_loop (suc n) script i = omega (arith, length-hex_loop n script (i + 1))

length-finish :
    (out script : List ℕ) (hex_offset hex_length : ℕ)
    → length (finish out script hex_offset hex_length) ≤ length out + 3 + 2 * hex_length
unfolding finish
length-finish out script hex_offset hex_length = elim (Bool-cases (ltb 0 hex_length)) [
  | inl e ↦
      rw (e, finish)
        (omega (
          arith,
          length-append out (hex_prefix ++ (hex_loop hex_length script hex_offset ++ 0 ∷ [])),
          length-append (hex_loop hex_length script hex_offset) (0 ∷ []),
          length-hex_loop hex_length script hex_offset,
        ))
  | inr e ↦ rw (e, finish) (omega (arith, length-append out (0 ∷ [])))
]

length-decimal : (num : ℕ) → length (op_return_text ++ decimal num) ≤ 12
unfolding decimal
length-decimal num = elim (Bool-cases (leb 10 num)) [
  | inl e ↦ rw (e, decimal) (omega arith)
  | inr e ↦ rw (e, decimal) (omega arith)
]

-- Whatever the script is, the string that `format_opscript_script` writes, its terminating 0
-- included, fits in the MAX_OPRETURN_OUTPUT_DESC_SIZE bytes of `out`.
pub format_opscript_script-fits :
    (script : List ℕ) (script_len : ℕ) (out : List ℕ)
    → format_opscript_script script script_len ≡ some out
    → length out ≤ max_opreturn_output_desc_size
unfolding format_opscript_script
format_opscript_script-fits script script_len out h = ground (
  arith,
  h,
  length-finish (op_return_text ++ 48 ∷ []) script 1 0,
  length-finish op_return_text script 2 (at script 1),
  length-finish op_return_text script 3 (at script 2),
  length-finish (op_return_text ++ 45 ∷ 49 ∷ []) script 1 0,
  length-finish (op_return_text ++ decimal (at script 1 - 0x50)) script 1 0,
  length-decimal (at script 1 - 0x50),
)
