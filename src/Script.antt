-- ===== src/Script.antt =====
-- common/script.c and the predicates of common/script.h: sizes, kinds and a printed form of
-- scripts. A C string is the list of its characters, the terminating 0 included.
pub mod Bounds
pub mod Kinds
mod Tests
use membrane_app_bitcoin_new.Common.{
  ℕ, zero, suc, ◌+◌, ◌-◌, ◌/◌, ◌%◌, List, [], ◌∷◌, ◌++◌, Bool, true, false, not, ◌&&◌, ◌||◌, Option,
  none, some, get_or, ltb, leb, ◌==◌, if◌then◌else◌,
}

unfoldable pub get_push_script_size : ℕ → ℕ
get_push_script_size n =
    if leb n 16
    then 1
    else if ltb n 0x80
    then 2
    else if ltb n 0x8000
    then 3
    else if ltb n 0x800000
    then 4
    else if ltb n 0x80000000
    then 5
    else 6

-- `script_type_e`.
pub data ScriptType : Type 0 where
  p2pkh p2sh p2wpkh p2wsh p2tr unknown_segwit : ScriptType

abbrev pub op_pushdata1 : ℕ
op_pushdata1 = 0x4c

abbrev pub op_pushdata2 : ℕ
op_pushdata2 = 0x4d

abbrev pub op_pushdata4 : ℕ
op_pushdata4 = 0x4e

abbrev pub op_1negate : ℕ
op_1negate = 0x4f

abbrev pub op_reserved : ℕ
op_reserved = 0x50

abbrev pub op_1 : ℕ
op_1 = 0x51

abbrev pub op_16 : ℕ
op_16 = 0x60

abbrev pub op_return : ℕ
op_return = 0x6a

abbrev pub op_dup : ℕ
op_dup = 0x76

abbrev pub op_equal : ℕ
op_equal = 0x87

abbrev pub op_equalverify : ℕ
op_equalverify = 0x88

abbrev pub op_hash160 : ℕ
op_hash160 = 0xa9

abbrev pub op_checksig : ℕ
op_checksig = 0xac

abbrev pub at : List ℕ → ℕ → ℕ
at script i = get_or script i 0

is_future_segwit : List ℕ → ℕ → Bool
is_future_segwit script script_len =
    leb 4 script_len
    && leb script_len 42
    && (at script 0 == 0 || (leb op_1 (at script 0) && leb (at script 0) op_16))
    && (script_len == 1 + 1 + at script 1)

-- `none` for -1.
pub get_script_type : List ℕ → ℕ → Option ScriptType
get_script_type script script_len =
    if script_len == 25
      && at script 0 == op_dup
      && at script 1 == op_hash160
      && at script 2 == 0x14
      && at script 23 == op_equalverify
      && at script 24 == op_checksig
    then some p2pkh
    else if script_len == 23
        && at script 0 == op_hash160
        && at script 1 == 0x14
        && at script 22 == op_equal
    then some p2sh
    else if script_len == 22 && at script 0 == 0x00 && at script 1 == 0x14
    then some p2wpkh
    else if script_len == 34 && at script 0 == 0x00 && at script 1 == 0x20
    then some p2wsh
    else if script_len == 34 && at script 0 == op_1 && at script 1 == 0x20
    then some p2tr
    else if is_future_segwit script script_len
    then some unknown_segwit
    else none

pub is_p2wpkh : List ℕ → ℕ → Bool
is_p2wpkh script script_len = script_len == 22 && at script 0 == 0x00 && at script 1 == 0x14

pub is_p2wsh : List ℕ → ℕ → Bool
is_p2wsh script script_len = script_len == 34 && at script 0 == 0x00 && at script 1 == 0x20

pub is_opreturn : List ℕ → ℕ → Bool
is_opreturn script script_len = ltb 0 script_len && leb script_len 83 && at script 0 == op_return

-- "OP_RETURN " and "0x".
abbrev pub op_return_text : List ℕ
op_return_text = 79 ∷ 80 ∷ 95 ∷ 82 ∷ 69 ∷ 84 ∷ 85 ∷ 82 ∷ 78 ∷ 32 ∷ []

abbrev pub hex_prefix : List ℕ
hex_prefix = 48 ∷ 120 ∷ []

-- `hex[digit]` of "0123456789abcdef".
abbrev pub hex_digit : ℕ → ℕ
hex_digit digit = if ltb digit 10 then 48 + digit else 87 + digit

-- The loop that writes two digits for each of `n` bytes from the index `i`.
pub hex_loop : ℕ → List ℕ → ℕ → List ℕ
hex_loop zero script i = []
hex_loop (suc n) script i =
    hex_digit (at script i / 16) ∷ hex_digit (at script i % 16) ∷ hex_loop n script (i + 1)

-- `if (hex_length > 0)`, the terminating 0, and the result.
finish : List ℕ → List ℕ → ℕ → ℕ → List ℕ
finish out script hex_offset hex_length =
    if ltb 0 hex_length
    then out ++ (hex_prefix ++ (hex_loop hex_length script hex_offset ++ 0 ∷ []))
    else out ++ 0 ∷ []

-- The decimal number of OP_1 to OP_16.
decimal : ℕ → List ℕ
decimal num = if leb 10 num then (48 + num / 10) ∷ (48 + num % 10) ∷ [] else (48 + num % 10) ∷ []

-- The string in `out`, whose length is the returned value; `none` for -1.
pub format_opscript_script : List ℕ → ℕ → Option (List ℕ)
format_opscript_script script script_len =
    let opcode = at script 1 in
    if script_len == 0 || not (at script 0 == op_return)
    then none
    else if ltb op_16 opcode
        || opcode == op_reserved
        || opcode == op_pushdata2
        || opcode == op_pushdata4
    then none
    else if opcode == 0
    then (if not (script_len == 1 + 1)
        then none
        else some (finish (op_return_text ++ 48 ∷ []) script 1 0))
    else if leb 1 opcode && leb opcode 75
    then (if not (script_len == 1 + 1 + opcode)
        then none
        else some (finish op_return_text script (1 + 1) opcode))
    else if opcode == op_pushdata1
    then (if not (script_len == 1 + 1 + 1 + at script 2) || ltb 80 (at script 2)
        then none
        else some (finish op_return_text script (1 + 2) (at script 2)))
    else if opcode == op_1negate
    then (if not (script_len == 1 + 1)
        then none
        else some (finish (op_return_text ++ 45 ∷ 49 ∷ []) script 1 0))
    else if leb op_1 opcode && leb opcode op_16
    then (if not (script_len == 1 + 1)
        then none
        else some (finish (op_return_text ++ decimal (opcode - 0x50)) script 1 0))
    else none
