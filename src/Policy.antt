-- ===== src/Policy.antt =====
-- The wallet policies of common/wallet.h and handler/lib/policy.c: the syntax tree of a
-- descriptor template. The children write a tree as a script, by the stack machine of
-- handler/lib/policy.c and by the rules of miniscript.
pub mod Commands
pub mod Keys
pub mod Machine
pub mod Translation
mod Reaches
mod Generic
mod Chain
mod Thresh
mod Multi
mod Single
mod Sorted
mod Picked
mod Fits
mod Emitted
pub mod Written
pub mod Unrestored
pub mod Size
pub mod Number
pub mod Shape
pub mod Remaining
mod Bounded
mod Loops
pub mod Stack
mod Tests
use membrane_app_bitcoin_new.Common.{
  ℕ, zero, suc, ◌+◌, List, [], ◌∷◌, Bool, true, false, Option, none, some, length,
}

-- `PolicyNodeType`; the constructors of `TOKEN_0`, `TOKEN_1` and the wrappers start with `tok_`.
pub data Token : Type 0 where
  sh wsh pk pkh wpkh multi multi_a sortedmulti sortedmulti_a tr : Token
  tok_0 tok_1 pk_k pk_h older after sha256 hash256 ripemd160 hash160 : Token
  andor and_v and_b and_n or_b or_c or_d or_i thresh : Token
  tok_a tok_s tok_c tok_t tok_d tok_v tok_j tok_n tok_l tok_u : Token

-- `policy_node_key_placeholder_t`.
pub record KeyPlaceholder : Type 0 where
  pub num_first : ℕ
  pub num_second : ℕ
  pub key_index : ℕ

-- `policy_node_t` and the structures that extend it. The token is that of the field `type`.
mutual
  pub data Node : Type 0 where
    constant : Token → Node
    with_key : Token → KeyPlaceholder → Node
    with_uint32 : Token → ℕ → Node
    with_hash_160 : Token → List ℕ → Node
    with_hash_256 : Token → List ℕ → Node
    with_script : Token → Node → Node
    with_script2 : Token → Node → Node → Node
    with_script3 : Token → Node → Node → Node → Node
    with_scriptlist : Token → ℕ → Scripts → Node
    multisig : Token → ℕ → List KeyPlaceholder → Node

  pub data Scripts : Type 0 where
    end : Scripts
    next : Node → Scripts → Scripts

abbrev pub token : Node → Token
token (constant o) = o
token (with_key o p) = o
token (with_uint32 o m) = o
token (with_hash_160 o h) = o
token (with_hash_256 o h) = o
token (with_script o x) = o
token (with_script2 o x y) = o
token (with_script3 o x y z) = o
token (with_scriptlist o k xs) = o
token (multisig o k ps) = o

-- `scripts[i]` of a node of one to three child scripts.
abbrev pub child : Node → ℕ → Option Node
child (with_script o x) zero = some x
child (with_script2 o x y) zero = some x
child (with_script2 o x y) (suc zero) = some y
child (with_script3 o x y z) zero = some x
child (with_script3 o x y z) (suc zero) = some y
child (with_script3 o x y z) (suc (suc zero)) = some z
child _ _ = none

-- The fields that the commands read from a node.
abbrev pub key_placeholder : Node → Option KeyPlaceholder
key_placeholder (with_key o p) = some p
key_placeholder _ = none

abbrev pub number : Node → Option ℕ
number (with_uint32 o m) = some m
number _ = none

abbrev pub hash_20 : Node → Option (List ℕ)
hash_20 (with_hash_160 o h) = some h
hash_20 _ = none

abbrev pub hash_32 : Node → Option (List ℕ)
hash_32 (with_hash_256 o h) = some h
hash_32 _ = none

abbrev pub scriptlist : Node → Option (ℕ × Scripts)
scriptlist (with_scriptlist o k xs) = some (k, xs)
scriptlist _ = none

abbrev pub keys_of : Node → Option (ℕ × List KeyPlaceholder)
keys_of (multisig o k ps) = some (k, ps)
keys_of _ = none

-- The number of scripts of a list, and its `i`-th script.
abbrev pub count : Scripts → ℕ
count end = 0
count (next x xs) = 1 + count xs

abbrev pub nth_script : Scripts → ℕ → Option Node
nth_script end i = none
nth_script (next x xs) zero = some x
nth_script (next x xs) (suc i) = nth_script xs i

-- `internal_script_type_e`.
pub data ScriptKind : Type 0 where
  wrapped_sh wrapped_sh_wsh wrapped_wsh wrapped_tapscript : ScriptKind

-- `fragment_whitelist_sh` and the other lists, as the test of the loop that searches them.
abbrev pub is_whitelisted : ScriptKind → Token → Bool
is_whitelisted wrapped_sh wpkh = true
is_whitelisted wrapped_sh multi = true
is_whitelisted wrapped_sh sortedmulti = true
is_whitelisted wrapped_sh_wsh multi = true
is_whitelisted wrapped_sh_wsh sortedmulti = true
is_whitelisted wrapped_tapscript pk = true
is_whitelisted wrapped_tapscript multi_a = true
is_whitelisted wrapped_tapscript sortedmulti_a = true
is_whitelisted wrapped_wsh sh = false
is_whitelisted wrapped_wsh wsh = false
is_whitelisted wrapped_wsh wpkh = false
is_whitelisted wrapped_wsh multi_a = false
is_whitelisted wrapped_wsh sortedmulti_a = false
is_whitelisted wrapped_wsh tr = false
is_whitelisted wrapped_wsh _ = true
is_whitelisted _ _ = false
