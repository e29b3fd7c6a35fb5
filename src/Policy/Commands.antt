-- ===== src/Policy/Commands.antt =====
-- The tables of commands of handler/lib/policy.c, by which the generic processor writes a node.
use membrane_app_bitcoin_new.Common.{ℕ, List, [], ◌∷◌, Option, none, some}
use membrane_app_bitcoin_new.Script.{
  op_1, op_dup, op_equal, op_equalverify, op_hash160, op_checksig,
}
use membrane_app_bitcoin_new.Policy.{
  Token, sh, wsh, pk, pkh, wpkh, multi, multi_a, sortedmulti, sortedmulti_a, tr, tok_0, tok_1, pk_k,
  pk_h, older, after, sha256, hash256, ripemd160, hash160, andor, and_v, and_b, and_n, or_b, or_c,
  or_d, or_i, thresh, tok_a, tok_s, tok_c, tok_t, tok_d, tok_v, tok_j, tok_n, tok_l, tok_u,
}

-- `generic_processor_command_t`, `CMD_CODE_END` left out: a table is a list.
pub data NodeCommand : Type 0 where
  op op_v : ℕ → NodeCommand
  push_pk push_pkh push_uint32 push_hash20 push_hash32 : NodeCommand
  process_child process_child_v process_child_vv : ℕ → NodeCommand

abbrev pub op_0 : ℕ
op_0 = 0x00

abbrev pub op_csv : ℕ
op_csv = 0xb2

abbrev pub op_cltv : ℕ
op_cltv = 0xb1

abbrev pub op_size : ℕ
op_size = 0x82

abbrev pub op_sha256 : ℕ
op_sha256 = 0xa8

abbrev pub op_hash256 : ℕ
op_hash256 = 0xaa

abbrev pub op_ripemd160 : ℕ
op_ripemd160 = 0xa6

abbrev pub op_notif : ℕ
op_notif = 0x64

abbrev pub op_else : ℕ
op_else = 0x67

abbrev pub op_endif : ℕ
op_endif = 0x68

abbrev pub op_booland : ℕ
op_booland = 0x9a

abbrev pub op_boolor : ℕ
op_boolor = 0x9b

abbrev pub op_ifdup : ℕ
op_ifdup = 0x73

abbrev pub op_if : ℕ
op_if = 0x63

abbrev pub op_toaltstack : ℕ
op_toaltstack = 0x6b

abbrev pub op_fromaltstack : ℕ
op_fromaltstack = 0x6c

abbrev pub op_swap : ℕ
op_swap = 0x7c

abbrev pub op_0notequal : ℕ
op_0notequal = 0x92

abbrev pub op_verify : ℕ
op_verify = 0x69

abbrev pub op_add : ℕ
op_add = 0x93

abbrev pub op_checkmultisig : ℕ
op_checkmultisig = 0xae

abbrev pub op_numequal : ℕ
op_numequal = 0x9c

abbrev pub op_checksigadd : ℕ
op_checksigadd = 0xba

abbrev pub commands_0 : List NodeCommand
commands_0 = op_v op_0 ∷ []

abbrev pub commands_1 : List NodeCommand
commands_1 = op_v op_1 ∷ []

abbrev pub commands_pk_k : List NodeCommand
commands_pk_k = push_pk ∷ []

abbrev pub commands_pk_h : List NodeCommand
commands_pk_h = op op_dup ∷ op op_hash160 ∷ push_pkh ∷ op op_equalverify ∷ []

abbrev pub commands_pk : List NodeCommand
commands_pk = push_pk ∷ op_v op_checksig ∷ []

abbrev pub commands_older : List NodeCommand
commands_older = push_uint32 ∷ op_v op_csv ∷ []

abbrev pub commands_after : List NodeCommand
commands_after = push_uint32 ∷ op_v op_cltv ∷ []

abbrev pub commands_sha256 : List NodeCommand
commands_sha256 =
    op op_size ∷ op 1 ∷ op 32 ∷ op op_equalverify ∷ op op_sha256 ∷ push_hash32 ∷ op_v op_equal ∷ []

abbrev pub commands_hash256 : List NodeCommand
commands_hash256 =
    op op_size ∷ op 1 ∷ op 32 ∷ op op_equalverify ∷ op op_hash256 ∷ push_hash32 ∷ op_v op_equal ∷ []

abbrev pub commands_ripemd160 : List NodeCommand
commands_ripemd160 =
    op op_size
    ∷ op 1
    ∷ op 32
    ∷ op op_equalverify
    ∷ op op_ripemd160
    ∷ push_hash20
    ∷ op_v op_equal
    ∷ []

abbrev pub commands_hash160 : List NodeCommand
commands_hash160 =
    op op_size ∷ op 1 ∷ op 32 ∷ op op_equalverify ∷ op op_hash160 ∷ push_hash20 ∷ op_v op_equal ∷ []

abbrev pub commands_andor : List NodeCommand
commands_andor =
    process_child 0
    ∷ op op_notif
    ∷ process_child 2
    ∷ op op_else
    ∷ process_child 1
    ∷ op_v op_endif
    ∷ []

abbrev pub commands_and_v : List NodeCommand
commands_and_v = process_child 0 ∷ process_child_v 1 ∷ []

abbrev pub commands_and_b : List NodeCommand
commands_and_b = process_child 0 ∷ process_child 1 ∷ op_v op_booland ∷ []

abbrev pub commands_and_n : List NodeCommand
commands_and_n =
    process_child 0 ∷ op op_notif ∷ op op_0 ∷ op op_else ∷ process_child 1 ∷ op_v op_endif ∷ []

abbrev pub commands_or_b : List NodeCommand
commands_or_b = process_child 0 ∷ process_child 1 ∷ op_v op_boolor ∷ []

abbrev pub commands_or_c : List NodeCommand
commands_or_c = process_child 0 ∷ op op_notif ∷ process_child 1 ∷ op_v op_endif ∷ []

abbrev pub commands_or_d : List NodeCommand
commands_or_d = process_child 0 ∷ op op_ifdup ∷ op op_notif ∷ process_child 1 ∷ op_v op_endif ∷ []

abbrev pub commands_or_i : List NodeCommand
commands_or_i = op op_if ∷ process_child 0 ∷ op op_else ∷ process_child 1 ∷ op_v op_endif ∷ []

abbrev pub commands_a : List NodeCommand
commands_a = op op_toaltstack ∷ process_child 0 ∷ []

abbrev pub commands_s : List NodeCommand
commands_s = op op_swap ∷ process_child 0 ∷ []

abbrev pub commands_c : List NodeCommand
commands_c = process_child 0 ∷ op_v op_checksig ∷ []

abbrev pub commands_t : List NodeCommand
commands_t = process_child 0 ∷ op_v op_1 ∷ []

abbrev pub commands_d : List NodeCommand
commands_d = op op_dup ∷ op op_if ∷ process_child 0 ∷ op_v op_endif ∷ []

abbrev pub commands_v : List NodeCommand
commands_v = process_child_vv 0 ∷ []

abbrev pub commands_j : List NodeCommand
commands_j = op op_size ∷ op op_0notequal ∷ op op_if ∷ process_child 0 ∷ op_v op_endif ∷ []

abbrev pub commands_n : List NodeCommand
commands_n = process_child 0 ∷ op_v op_0notequal ∷ []

abbrev pub commands_l : List NodeCommand
commands_l = op op_if ∷ op op_0 ∷ op op_else ∷ process_child 0 ∷ op_v op_endif ∷ []

abbrev pub commands_u : List NodeCommand
commands_u = op op_if ∷ process_child 0 ∷ op op_else ∷ op op_0 ∷ op_v op_endif ∷ []

-- The processor that the loop of `get_wallet_internal_script_hash` runs for a token; `none` for a
-- token that it refuses.
pub data Processor : Type 0 where
  generic : List NodeCommand → Processor
  pkh_wpkh thresh_node multi_sortedmulti multi_a_sortedmulti_a : Processor

abbrev pub processor : Token → Option Processor
processor tok_0 = some (generic commands_0)
processor tok_1 = some (generic commands_1)
processor pk_k = some (generic commands_pk_k)
processor pk_h = some (generic commands_pk_h)
processor pk = some (generic commands_pk)
processor older = some (generic commands_older)
processor after = some (generic commands_after)
processor sha256 = some (generic commands_sha256)
processor hash256 = some (generic commands_hash256)
processor ripemd160 = some (generic commands_ripemd160)
processor hash160 = some (generic commands_hash160)
processor andor = some (generic commands_andor)
processor and_v = some (generic commands_and_v)
processor and_b = some (generic commands_and_b)
processor and_n = some (generic commands_and_n)
processor or_b = some (generic commands_or_b)
processor or_c = some (generic commands_or_c)
processor or_d = some (generic commands_or_d)
processor or_i = some (generic commands_or_i)
processor tok_a = some (generic commands_a)
processor tok_s = some (generic commands_s)
processor tok_c = some (generic commands_c)
processor tok_t = some (generic commands_t)
processor tok_d = some (generic commands_d)
processor tok_v = some (generic commands_v)
processor tok_j = some (generic commands_j)
processor tok_n = some (generic commands_n)
processor tok_l = some (generic commands_l)
processor tok_u = some (generic commands_u)
processor pkh = some pkh_wpkh
processor wpkh = some pkh_wpkh
processor thresh = some thresh_node
processor multi = some multi_sortedmulti
processor sortedmulti = some multi_sortedmulti
processor multi_a = some multi_a_sortedmulti_a
processor sortedmulti_a = some multi_a_sortedmulti_a
processor tr = none
processor sh = none
processor wsh = none
