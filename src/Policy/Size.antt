-- ===== src/Policy/Size.antt =====
-- common/wallet.c: the fields `script_size` and `x` that `compute_miniscript_policy_ext_info` computes
-- for a node. Its other fields, on which these two do not depend, are left out, as are the checks of
-- flags that the parser has set.
pub mod Sized
mod Length
pub mod Returned
use membrane_app_bitcoin_new.Script.{get_push_script_size}
use membrane_app_bitcoin_new.Common.{
  leb, if◌then◌else◌, ◌*◌, length, ◌^◌, none, ◌%◌, some, ◌+◌, Option, ℕ,
}
use membrane_app_bitcoin_new.Policy.{
  Scripts, count, Node, pk, pkh, multi, tok_0, tok_1, pk_k, pk_h, older, after, sha256, hash256,
  ripemd160, hash160, andor, and_v, and_b, and_n, or_b, or_c, or_d, or_i, thresh, tok_a, tok_s,
  tok_c, tok_t, tok_d, tok_v, tok_j, tok_n, tok_l, tok_u, constant, with_key, with_uint32,
  with_hash_160, with_hash_256, with_script, with_script2, with_script3, with_scriptlist, multisig,
  end, next,
}

-- `x`: whether the last opcode has no verifying form.
pub record ExtInfo : Type 0 where
  pub script_size : ℕ
  pub x : ℕ

abbrev info : ℕ → ℕ → Option ExtInfo
info size last = some record { script_size = size % 2 ^ 16; x = last }

infixl 5 ◌>>=◌
abbrev ◌>>=◌ {ℓ κ} : {A : Type ℓ} {B : Type κ} → Option A → (A → Option B) → Option B
none >>= f = none
some e >>= f = f e

unfoldable mutual
  pub compute_ext_info : Node → Option ExtInfo
  compute_ext_info (constant tok_0) = info 1 1
  compute_ext_info (constant tok_1) = info 1 1
  compute_ext_info (with_key pk_k p) = info 34 1
  compute_ext_info (with_key pk_h p) = info (3 + 21) 1
  compute_ext_info (with_key pk p) = info (34 + 1) 0
  compute_ext_info (with_key pkh p) = info (3 + 21 + 1) 0
  compute_ext_info (multisig multi k ps) =
      info (1 + get_push_script_size k + get_push_script_size (length ps) + 34 * length ps) 0
  compute_ext_info (with_uint32 older n) = info (1 + get_push_script_size n) 1
  compute_ext_info (with_uint32 after n) = info (1 + get_push_script_size n) 1
  compute_ext_info (with_hash_256 sha256 h) = info (4 + 2 + 33) 0
  compute_ext_info (with_hash_256 hash256 h) = info (4 + 2 + 33) 0
  compute_ext_info (with_hash_160 ripemd160 h) = info (4 + 2 + 21) 0
  compute_ext_info (with_hash_160 hash160 h) = info (4 + 2 + 21) 0
  compute_ext_info (with_script3 andor x y z) = do
    a ← compute_ext_info x
    b ← compute_ext_info y
    c ← compute_ext_info z
    info (3 + a.script_size + b.script_size + c.script_size) 1
  compute_ext_info (with_script2 and_v x y) = do
    a ← compute_ext_info x
    b ← compute_ext_info y
    info (a.script_size + b.script_size) b.x
  compute_ext_info (with_script2 and_b x y) = do
    a ← compute_ext_info x
    b ← compute_ext_info y
    info (1 + a.script_size + b.script_size) 1
  compute_ext_info (with_script2 and_n x y) = do
    a ← compute_ext_info x
    b ← compute_ext_info y
    info (4 + a.script_size + b.script_size) 1
  compute_ext_info (with_script2 or_b x z) = do
    a ← compute_ext_info x
    b ← compute_ext_info z
    info (1 + a.script_size + b.script_size) 1
  compute_ext_info (with_script2 or_c x z) = do
    a ← compute_ext_info x
    b ← compute_ext_info z
    info (2 + a.script_size + b.script_size) 1
  compute_ext_info (with_script2 or_d x z) = do
    a ← compute_ext_info x
    b ← compute_ext_info z
    info (3 + a.script_size + b.script_size) 1
  compute_ext_info (with_script2 or_i x z) = do
    a ← compute_ext_info x
    b ← compute_ext_info z
    info (3 + a.script_size + b.script_size) 1
  compute_ext_info (with_scriptlist thresh k xs) = do
    a ← children_size xs
    if leb (count xs) 128 then info (a + count xs + get_push_script_size k) 0 else none
  compute_ext_info (with_script tok_a x) = do a ← compute_ext_info x; info (a.script_size + 2) 1
  compute_ext_info (with_script tok_s x) = do a ← compute_ext_info x; info (a.script_size + 1) a.x
  compute_ext_info (with_script tok_n x) = do a ← compute_ext_info x; info (a.script_size + 1) 1
  compute_ext_info (with_script tok_c x) = do a ← compute_ext_info x; info (a.script_size + 1) 0
  compute_ext_info (with_script tok_d x) = do a ← compute_ext_info x; info (a.script_size + 3) 1
  compute_ext_info (with_script tok_t x) = do a ← compute_ext_info x; info (a.script_size + 1) 1
  compute_ext_info (with_script tok_v x) = do a ← compute_ext_info x; info (a.script_size + a.x) 1
  compute_ext_info (with_script tok_j x) = do a ← compute_ext_info x; info (a.script_size + 4) 1
  compute_ext_info (with_script tok_l x) = do a ← compute_ext_info x; info (a.script_size + 4) 1
  compute_ext_info (with_script tok_u x) = do a ← compute_ext_info x; info (a.script_size + 4) 1
  compute_ext_info _ = none

  pub children_size : Scripts → Option ℕ
  children_size end = some 0
  children_size (next x xs) = do
    a ← compute_ext_info x
    rest ← children_size xs
    some (a.script_size + rest)
