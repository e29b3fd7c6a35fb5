-- ===== src/Policy/Size/Sized.antt =====
-- Conditions on the nodes of common/wallet.c under which their sizes are compared: the types that the
-- parser accepts below a wrapper `v`, no wrapper `a`, and two scripts or more in `thresh`.
use membrane_app_bitcoin_new.Common.{◌≤◌, leb, ◌≡◌, length, ◌^◌, Bool, ◌<◌, true, false}
use membrane_app_bitcoin_new.Policy.{
  Scripts, count, Node, pk, pkh, multi, tok_0, tok_1, pk_k, pk_h, older, after, sha256, hash256,
  ripemd160, hash160, andor, and_v, and_b, and_n, or_b, or_c, or_d, or_i, thresh, tok_s, tok_c,
  tok_t, tok_d, tok_v, tok_j, tok_n, tok_l, tok_u, constant, with_key, with_uint32, with_hash_160,
  with_hash_256, with_script, with_script2, with_script3, with_scriptlist, multisig, end, next,
}

-- Whether the node ends with an opcode that the flag `v` changes.
abbrev pub ends_with_op : Node → Bool
ends_with_op (constant tok_0) = true
ends_with_op (constant tok_1) = true
ends_with_op (with_key pk_k p) = false
ends_with_op (with_key pk_h p) = false
ends_with_op (with_key pk p) = true
ends_with_op (with_key pkh p) = true
ends_with_op (with_uint32 older n) = true
ends_with_op (with_uint32 after n) = true
ends_with_op (with_hash_256 sha256 h) = true
ends_with_op (with_hash_256 hash256 h) = true
ends_with_op (with_hash_160 ripemd160 h) = true
ends_with_op (with_hash_160 hash160 h) = true
ends_with_op (with_script3 andor x y z) = true
ends_with_op (with_script2 and_v x y) = ends_with_op y
ends_with_op (with_script2 and_b x y) = true
ends_with_op (with_script2 and_n x y) = true
ends_with_op (with_script2 or_b x z) = true
ends_with_op (with_script2 or_c x z) = true
ends_with_op (with_script2 or_d x z) = true
ends_with_op (with_script2 or_i x z) = true
ends_with_op (with_script tok_s x) = false
ends_with_op (with_script tok_c x) = true
ends_with_op (with_script tok_t x) = true
ends_with_op (with_script tok_d x) = true
ends_with_op (with_script tok_v x) = false
ends_with_op (with_script tok_j x) = true
ends_with_op (with_script tok_n x) = true
ends_with_op (with_script tok_l x) = true
ends_with_op (with_script tok_u x) = true
ends_with_op (with_scriptlist o k xs) = true
ends_with_op (multisig o k ps) = true
ends_with_op _ = false

unfoldable mutual
  pub Sized : Node → Type 0
  Sized (constant tok_0) = Unit
  Sized (constant tok_1) = Unit
  Sized (with_key pk_k p) = Unit
  Sized (with_key pk_h p) = Unit
  Sized (with_key pk p) = Unit
  Sized (with_key pkh p) = Unit
  Sized (with_uint32 older n) = n < 2 ^ 32
  Sized (with_uint32 after n) = n < 2 ^ 32
  Sized (with_hash_256 sha256 h) = length h ≡ 32
  Sized (with_hash_256 hash256 h) = length h ≡ 32
  Sized (with_hash_160 ripemd160 h) = length h ≡ 20
  Sized (with_hash_160 hash160 h) = length h ≡ 20
  Sized (with_script3 andor x y z) = Sized x × Sized y × Sized z
  Sized (with_script2 and_v x y) = Sized x × Sized y
  Sized (with_script2 and_b x y) = Sized x × Sized y
  Sized (with_script2 and_n x y) = Sized x × Sized y
  Sized (with_script2 or_b x z) = Sized x × Sized z
  Sized (with_script2 or_c x z) = Sized x × Sized z
  Sized (with_script2 or_d x z) = Sized x × Sized z
  Sized (with_script2 or_i x z) = Sized x × Sized z
  Sized (with_script tok_s x) = Sized x
  Sized (with_script tok_c x) = Sized x
  Sized (with_script tok_t x) = Sized x
  Sized (with_script tok_d x) = Sized x
  Sized (with_script tok_v x) = Sized x × (ends_with_op x ≡ true)
  Sized (with_script tok_j x) = Sized x
  Sized (with_script tok_n x) = Sized x
  Sized (with_script tok_l x) = Sized x
  Sized (with_script tok_u x) = Sized x
  Sized (with_scriptlist thresh k (next x (next y xs))) =
      Sized x × Sized y × AllSized xs × (k < 2 ^ 32) × (leb (count (next x (next y xs))) 128 ≡ true)
  Sized (multisig multi k ps) = (k ≤ 16) × (length ps ≤ 16)
  Sized _ = ⊥

  pub AllSized : Scripts → Type 0
  AllSized end = Unit
  AllSized (next x xs) = Sized x × AllSized xs
