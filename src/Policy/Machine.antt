-- ===== src/Policy/Machine.antt =====
-- handler/lib/policy.c, `get_wallet_internal_script_hash`: the machine that writes the script of a
-- syntax tree by a stack of nodes, and its processors. `node_stack_eos` is the number of the nodes
-- below the top; the bytes given to the hash context are kept in the order of writing.
-- `get_derived_pubkey` and the hash function are parameters.
use membrane_app_bitcoin_new.Bytes.{write_u32_le}
use membrane_app_bitcoin_new.Policy.Keys.{next_key}
use membrane_app_bitcoin_new.Script.{op_equalverify, op_equal, op_hash160, op_dup, op_checksig}
use membrane_app_bitcoin_new.Policy.Commands.{
  NodeCommand, op_checksigadd, process_child_vv, process_child_v, process_child, op_add,
  op_checkmultisig, op_numequal, op_v, processor, generic, op, op_0, Processor, op_verify,
}
use membrane_app_bitcoin_new.Policy.Keys.{no_key, stray_index, picked}
use membrane_app_bitcoin_new.Policy.Commands.{
  push_pk, push_pkh, push_uint32, push_hash20, push_hash32, pkh_wpkh, thresh_node,
  multi_sortedmulti, multi_a_sortedmulti_a,
}
use membrane_app_bitcoin_new.Policy.{
  pkh, multi, multi_a, wrapped_tapscript, child, hash_32, hash_20, nth_script, number,
  key_placeholder, count, token, Scripts, is_whitelisted, keys_of, scriptlist, KeyPlaceholder, Node,
  ScriptKind, Token,
}
use membrane_app_bitcoin_new.Common.{
  take, ◌++◌, ◌||◌, drop, none, replicate, zero, ◌&&◌, ◌^◌, false, leb, length, ltb, some, suc,
  true, ◌%◌, ◌==◌, Bool, List, Option, [], if◌then◌else◌, ◌+◌, ◌∷◌, ℕ,
}

-- `policy_parser_node_state_t`; the field `verify` is `PROCESSOR_FLAG_V` of `flags`.
pub record Frame : Type 0 where
  pub policy_node : Node
  pub length : ℕ
  pub step : ℕ
  pub verify : Bool

-- `policy_parser_state_t`, with at least one node on the stack.
pub record Machine : Type 0 where
  pub top : Frame
  pub below : List Frame
  pub output : List ℕ

-- What a processor returns: 0, 1 or -1; `undefined` where the code reads outside of an array or
-- reads a node as another structure.
pub data Processed : Type 0 where
  again finished : Machine → Processed
  failed undefined : Processed

abbrev pub max_policy_depth : ℕ
max_policy_depth = 10

unfoldable pub state_stack_push : Machine → Node → Bool → Option Machine
state_stack_push m x verify =
    if leb max_policy_depth (1 + length m.below)
    then none
    else some record {
      top = record { policy_node = x; length = 0; step = 0; verify = verify };
      below = m.top ∷ m.below;
      output = m.output;
    }

unfoldable pub update_output : Machine → List ℕ → Machine
update_output m data_ = record {
  top = record m.top { length = (m.top.length + length data_) % 2 ^ 16 };
  below = m.below;
  output = m.output ++ data_;
}

unfoldable pub update_output_u8 : Machine → ℕ → Machine
update_output_u8 m byte = update_output m (byte ∷ [])

abbrev pub byte_size : ℕ → ℕ
byte_size n =
    if leb n 0x7f
    then 1
    else if leb n 0x7fff
    then 2
    else if leb n 0x7fffff
    then 3
    else if leb n 0x7fffffff
    then 4
    else 5

-- The push of a number with its length.
unfoldable pub pushed_bytes : Machine → ℕ → Machine
pushed_bytes m n =
    let n_le = write_u32_le (replicate 4 0) 0 n in
    let m = update_output_u8 m (byte_size n) in
    if ltb (byte_size n) 5
    then update_output m (take (byte_size n) n_le)
    else update_output_u8 (update_output m n_le) 0

unfoldable pub update_output_push_u32 : Machine → ℕ → Machine
update_output_push_u32 m n =
    if n == 0
    then update_output_u8 m op_0
    else if leb n 16
    then update_output_u8 m (0x50 + n)
    else pushed_bytes m n

unfoldable pub has_verify : ℕ → Bool
has_verify o = o == op_checksig || o == op_checkmultisig || o == op_numequal || o == op_equal

unfoldable pub update_output_op_v : Machine → ℕ → Machine
update_output_op_v m o =
    if m.top.verify
    then if has_verify o
      then update_output_u8 m (o + 1)
      else update_output_u8 (update_output_u8 m o) op_verify
    else update_output_u8 m o

-- `++node->step` of the node on top.
unfoldable pub count_step : Machine → Machine
count_step m = record {
  top = record m.top { step = (m.top.step + 1) % 2 ^ 8 };
  below = m.below;
  output = m.output;
}

-- The step of the node is counted whether or not the push fails, and its result is not looked at:
-- after a failure the loop reads a node beyond the end of the stack.
unfoldable pub push_child : Machine → Option Node → Bool → Processed
push_child m none verify = undefined
push_child m (some x) verify = elim (state_stack_push (count_step m) x verify) [
  | none ↦ undefined
  | some m1 ↦ again m1
]

-- The state of the loop after a pass: the function's result is `done` with the length of the root
-- and the bytes written, or `rejected` for a negative number.
pub data Outcome : Type 0 where
  running : Machine → Outcome
  done : ℕ → List ℕ → Outcome
  rejected broken : Outcome

unfoldable pub state_stack_pop : Machine → Outcome
state_stack_pop m = elim m.below [
  | [] ↦ done m.top.length m.output
  | f ∷ fs ↦ running record {
    top = record f { length = (f.length + m.top.length) % 2 ^ 16 };
    below = fs;
    output = m.output;
  }
]

unfoldable pub execute_processor : Processed → Outcome
execute_processor (again m) = running m
execute_processor (finished m) = state_stack_pop m
execute_processor failed = rejected
execute_processor undefined = broken

abbrev pub is_pkh : Token → Bool
is_pkh pkh = true
is_pkh _ = false

abbrev pub is_sorted : Token → Bool
is_sorted multi = false
is_sorted multi_a = false
is_sorted _ = true

abbrev pub is_tapscript : ScriptKind → Bool
is_tapscript wrapped_tapscript = true
is_tapscript _ = false

-- What follows the keys of a multisig node: a number and an opcode.
unfoldable pub finish_keys : Processed → ℕ → ℕ → Processed
finish_keys (again m) byte o = finished (update_output_op_v (update_output_u8 m byte) o)
finish_keys (finished m) byte o = undefined
finish_keys failed byte o = failed
finish_keys undefined byte o = undefined

module _ (get_derived_pubkey : KeyPlaceholder → Option (List ℕ))
    (crypto_hash160 : List ℕ → List ℕ) where
  unfoldable pub push_key : Bool → Machine → Option KeyPlaceholder → Processed
  push_key is_taproot m none = undefined
  push_key is_taproot m (some p) = elim (get_derived_pubkey p) [
    | none ↦ failed
    | some key ↦
        if is_taproot
        then again (count_step (update_output (update_output_u8 m 32) (drop 1 key)))
        else again (count_step (update_output (update_output_u8 m 33) key))
  ]

  unfoldable pub push_key_hash : Machine → Option KeyPlaceholder → Processed
  push_key_hash m none = undefined
  push_key_hash m (some p) = elim (get_derived_pubkey p) [
    | none ↦ failed
    | some key ↦ again (count_step (update_output (update_output_u8 m 20) (crypto_hash160 key)))
  ]

  unfoldable pub push_hash : Machine → ℕ → Option (List ℕ) → Processed
  push_hash m size none = undefined
  push_hash m size (some h) = again (count_step (update_output (update_output_u8 m size) h))

  unfoldable pub push_number : Machine → Option ℕ → Processed
  push_number m none = undefined
  push_number m (some n) = again (count_step (update_output_push_u32 m n))

  -- The `switch` on the command's code.
  unfoldable pub execute : Bool → Machine → NodeCommand → Processed
  execute is_taproot m (op o) = again (count_step (update_output_u8 m o))
  execute is_taproot m (op_v o) = again (count_step (update_output_op_v m o))
  execute is_taproot m push_pk = push_key is_taproot m (key_placeholder m.top.policy_node)
  execute is_taproot m push_pkh = push_key_hash m (key_placeholder m.top.policy_node)
  execute is_taproot m push_uint32 = push_number m (number m.top.policy_node)
  execute is_taproot m push_hash20 = push_hash m 20 (hash_20 m.top.policy_node)
  execute is_taproot m push_hash32 = push_hash m 32 (hash_32 m.top.policy_node)
  execute is_taproot m (process_child i) = push_child m (child m.top.policy_node i) false
  execute is_taproot m (process_child_v i) = push_child m (child m.top.policy_node i) m.top.verify
  execute is_taproot m (process_child_vv i) = push_child m (child m.top.policy_node i) true

  -- The first command that is left, or the node's end.
  unfoldable pub command_or_end : Bool → Machine → List NodeCommand → Processed
  command_or_end is_taproot m [] = finished m
  command_or_end is_taproot m (c ∷ cs) = execute is_taproot m c

  unfoldable pub process_generic_node : Bool → Machine → List NodeCommand → Processed
  process_generic_node is_taproot m commands =
      if ltb (length commands) m.top.step
      then failed
      else command_or_end is_taproot m (drop m.top.step commands)

  unfoldable pub write_pkh_wpkh : Machine → Token → Option KeyPlaceholder → Processed
  write_pkh_wpkh m o none = undefined
  write_pkh_wpkh m o (some p) = elim (get_derived_pubkey p) [
    | none ↦ failed
    | some key ↦ elim (is_pkh o) [
      | true ↦
          let m = update_output_u8 (update_output_u8 m op_dup) op_hash160 in
          let m = update_output (update_output_u8 m 20) (crypto_hash160 key) in
          finished (update_output_op_v (update_output_u8 m op_equalverify) op_checksig)
      | false ↦
          let m = update_output_u8 (update_output_u8 m op_0) 20 in
          finished (update_output m (crypto_hash160 key))
    ]
  ]

  unfoldable pub process_pkh_wpkh_node : Machine → Processed
  process_pkh_wpkh_node m =
      if m.top.step == 0
      then write_pkh_wpkh m (token m.top.policy_node) (key_placeholder m.top.policy_node)
      else failed

  unfoldable pub write_thresh_child : Machine → Scripts → Processed
  write_thresh_child m xs = elim (nth_script xs m.top.step) [
    | none ↦ undefined
    | some x ↦
        elim (state_stack_push
          (count_step (if ltb 1 m.top.step then update_output_u8 m op_add else m)) x false) [
            | none ↦ failed
            | some m2 ↦ again m2
          ]
  ]

  unfoldable pub write_thresh_end : Machine → ℕ → Scripts → Processed
  write_thresh_end m k xs =
      let m1 = if leb 1 (count xs) then update_output_u8 m op_add else m in
      finished (update_output_op_v (update_output_push_u32 m1 k) op_equal)

  unfoldable pub write_thresh : Machine → ℕ → Scripts → Processed
  write_thresh m k xs =
      if ltb m.top.step (count xs) then write_thresh_child m xs else write_thresh_end m k xs

  unfoldable pub process_thresh_node : Machine → Processed
  process_thresh_node m = elim (scriptlist m.top.policy_node) [
    | none ↦ undefined
    | some (k, xs) ↦ write_thresh m k xs
  ]

  -- The keys from the `i`-th on, `used` of them written, and `rest` of them left.
  unfoldable pub write_keys : Bool → Machine → List KeyPlaceholder → List Bool → ℕ → ℕ → Processed
  write_keys sorted m ps used i zero = again m
  write_keys sorted m ps used i (suc rest) =
      elim (next_key get_derived_pubkey false sorted ps used i) [
        | no_key ↦ failed
        | stray_index ↦ undefined
        | picked key used1 ↦
            write_keys sorted (update_output (update_output_u8 m 0x21) key) ps used1 (i + 1) rest
      ]

  unfoldable pub write_multi : Machine → Bool → ℕ → List KeyPlaceholder → Processed
  write_multi m sorted k ps =
      if ltb 16 (length ps)
      then failed
      else finish_keys
          (write_keys sorted (update_output_u8 m ((0x50 + k) % 2 ^ 8)) ps
            (replicate (length ps) false) 0 (length ps))
          ((0x50 + length ps) % 2 ^ 8) op_checkmultisig

  unfoldable pub process_multi_sortedmulti_node : Machine → Processed
  process_multi_sortedmulti_node m = elim (keys_of m.top.policy_node) [
    | none ↦ undefined
    | some (k, ps) ↦ write_multi m (is_sorted (token m.top.policy_node)) k ps
  ]

  unfoldable pub write_keys_a : Bool → Machine → List KeyPlaceholder → List Bool → ℕ → ℕ → Processed
  write_keys_a sorted m ps used i zero = again m
  write_keys_a sorted m ps used i (suc rest) =
      elim (next_key get_derived_pubkey true sorted ps used i) [
        | no_key ↦ failed
        | stray_index ↦ undefined
        | picked key used1 ↦
            let m1 = update_output (update_output_u8 m 0x20) (drop 1 key) in
            let check = if i == 0 then op_checksig else op_checksigadd in
            write_keys_a sorted (update_output_u8 m1 check) ps used1 (i + 1) rest
      ]

  -- Only the first byte of `used` is cleared: from the ninth key on the code reads a byte that
  -- nothing has set.
  unfoldable pub write_multi_a : Machine → Bool → ℕ → List KeyPlaceholder → Processed
  write_multi_a m sorted k ps =
      if ltb 16 k
      then failed
      else if sorted && ltb 8 (length ps)
      then undefined
      else finish_keys (write_keys_a sorted m ps (replicate (length ps) false) 0 (length ps))
          ((0x50 + k) % 2 ^ 8) op_numequal

  unfoldable pub process_multi_a_sortedmulti_a_node : Machine → Processed
  process_multi_a_sortedmulti_a_node m = elim (keys_of m.top.policy_node) [
    | none ↦ undefined
    | some (k, ps) ↦ write_multi_a m (is_sorted (token m.top.policy_node)) k ps
  ]

  unfoldable pub process : Bool → Machine → Processor → Processed
  process is_taproot m (generic commands) = process_generic_node is_taproot m commands
  process is_taproot m pkh_wpkh = process_pkh_wpkh_node m
  process is_taproot m thresh_node = process_thresh_node m
  process is_taproot m multi_sortedmulti = process_multi_sortedmulti_node m
  process is_taproot m multi_a_sortedmulti_a = process_multi_a_sortedmulti_a_node m

  -- The body of the loop.
  unfoldable pub pass : ScriptKind → Machine → Outcome
  pass kind m =
      if is_whitelisted kind (token m.top.policy_node)
      then elim (processor (token m.top.policy_node)) [
        | none ↦ rejected
        | some p ↦ execute_processor (process (is_tapscript kind) m p)
      ]
      else rejected

  unfoldable pub run : ScriptKind → ℕ → Machine → Outcome
  run kind zero m = running m
  run kind (suc fuel) m = elim (pass kind m) [
    | running m1 ↦ run kind fuel m1
    | done len bytes ↦ done len bytes
    | rejected ↦ rejected
    | broken ↦ broken
  ]

  unfoldable pub get_wallet_internal_script_hash : ScriptKind → ℕ → Node → Outcome
  get_wallet_internal_script_hash kind fuel x = run kind fuel record {
    top = record { policy_node = x; length = 0; step = 0; verify = false };
    below = [];
    output = [];
  }
