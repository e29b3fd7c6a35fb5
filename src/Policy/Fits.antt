-- ===== src/Policy/Fits.antt =====
-- The syntax trees that the stack of `get_wallet_internal_script_hash` of handler/lib/policy.c holds
-- and whose tokens it accepts, but for the wrapper `a`.
use membrane_app_bitcoin_new.Common.{length, ◌≤◌, ◌<◌, ◌≡◌, ℕ, suc, true}
use membrane_app_bitcoin_new.Policy.{
  Scripts, count, is_whitelisted, Node, ScriptKind, pk, pkh, wpkh, multi, multi_a, sortedmulti,
  sortedmulti_a, tok_0, tok_1, pk_k, pk_h, older, after, sha256, hash256, ripemd160, hash160, andor,
  and_v, and_b, and_n, or_b, or_c, or_d, or_i, thresh, tok_s, tok_c, tok_t, tok_d, tok_v, tok_j,
  tok_n, tok_l, tok_u, constant, with_key, with_uint32, with_hash_160, with_hash_256, with_script,
  with_script2, with_script3, with_scriptlist, multisig, end, next,
}

-- A node without the wrapper `a` whose tokens are allowed and stand on the nodes of their kind, below
-- so many others that its height fits the stack, with the numbers of scripts and keys that the
-- processors count and write.
unfoldable mutual
  pub FitsStack : ScriptKind → ℕ → Node → Type 0
  FitsStack kind depth (constant tok_0) = is_whitelisted kind tok_0 ≡ true
  FitsStack kind depth (constant tok_1) = is_whitelisted kind tok_1 ≡ true
  FitsStack kind depth (with_key pk_k p) = is_whitelisted kind pk_k ≡ true
  FitsStack kind depth (with_key pk_h p) = is_whitelisted kind pk_h ≡ true
  FitsStack kind depth (with_key pk p) = is_whitelisted kind pk ≡ true
  FitsStack kind depth (with_key pkh p) = is_whitelisted kind pkh ≡ true
  FitsStack kind depth (with_key wpkh p) = is_whitelisted kind wpkh ≡ true
  FitsStack kind depth (with_uint32 older n) = is_whitelisted kind older ≡ true
  FitsStack kind depth (with_uint32 after n) = is_whitelisted kind after ≡ true
  FitsStack kind depth (with_hash_256 sha256 h) = is_whitelisted kind sha256 ≡ true
  FitsStack kind depth (with_hash_256 hash256 h) = is_whitelisted kind hash256 ≡ true
  FitsStack kind depth (with_hash_160 ripemd160 h) = is_whitelisted kind ripemd160 ≡ true
  FitsStack kind depth (with_hash_160 hash160 h) = is_whitelisted kind hash160 ≡ true
  FitsStack kind depth (with_script3 andor x y z) =
      (is_whitelisted kind andor ≡ true)
      × (depth < 9)
      × FitsStack kind (suc depth) x
      × FitsStack kind (suc depth) y
      × FitsStack kind (suc depth) z
  FitsStack kind depth (with_script2 and_v x y) =
      (is_whitelisted kind and_v ≡ true)
      × (depth < 9)
      × FitsStack kind (suc depth) x
      × FitsStack kind (suc depth) y
  FitsStack kind depth (with_script2 and_b x y) =
      (is_whitelisted kind and_b ≡ true)
      × (depth < 9)
      × FitsStack kind (suc depth) x
      × FitsStack kind (suc depth) y
  FitsStack kind depth (with_script2 and_n x y) =
      (is_whitelisted kind and_n ≡ true)
      × (depth < 9)
      × FitsStack kind (suc depth) x
      × FitsStack kind (suc depth) y
  FitsStack kind depth (with_script2 or_b x z) =
      (is_whitelisted kind or_b ≡ true)
      × (depth < 9)
      × FitsStack kind (suc depth) x
      × FitsStack kind (suc depth) z
  FitsStack kind depth (with_script2 or_c x z) =
      (is_whitelisted kind or_c ≡ true)
      × (depth < 9)
      × FitsStack kind (suc depth) x
      × FitsStack kind (suc depth) z
  FitsStack kind depth (with_script2 or_d x z) =
      (is_whitelisted kind or_d ≡ true)
      × (depth < 9)
      × FitsStack kind (suc depth) x
      × FitsStack kind (suc depth) z
  FitsStack kind depth (with_script2 or_i x z) =
      (is_whitelisted kind or_i ≡ true)
      × (depth < 9)
      × FitsStack kind (suc depth) x
      × FitsStack kind (suc depth) z
  FitsStack kind depth (with_script tok_s x) =
      (is_whitelisted kind tok_s ≡ true) × (depth < 9) × FitsStack kind (suc depth) x
  FitsStack kind depth (with_script tok_c x) =
      (is_whitelisted kind tok_c ≡ true) × (depth < 9) × FitsStack kind (suc depth) x
  FitsStack kind depth (with_script tok_t x) =
      (is_whitelisted kind tok_t ≡ true) × (depth < 9) × FitsStack kind (suc depth) x
  FitsStack kind depth (with_script tok_d x) =
      (is_whitelisted kind tok_d ≡ true) × (depth < 9) × FitsStack kind (suc depth) x
  FitsStack kind depth (with_script tok_v x) =
      (is_whitelisted kind tok_v ≡ true) × (depth < 9) × FitsStack kind (suc depth) x
  FitsStack kind depth (with_script tok_j x) =
      (is_whitelisted kind tok_j ≡ true) × (depth < 9) × FitsStack kind (suc depth) x
  FitsStack kind depth (with_script tok_n x) =
      (is_whitelisted kind tok_n ≡ true) × (depth < 9) × FitsStack kind (suc depth) x
  FitsStack kind depth (with_script tok_l x) =
      (is_whitelisted kind tok_l ≡ true) × (depth < 9) × FitsStack kind (suc depth) x
  FitsStack kind depth (with_script tok_u x) =
      (is_whitelisted kind tok_u ≡ true) × (depth < 9) × FitsStack kind (suc depth) x
  FitsStack kind depth (with_scriptlist thresh k (next x (next y xs))) =
      (is_whitelisted kind thresh ≡ true)
      × (depth < 9)
      × (count (next x (next y xs)) < 255)
      × FitsStack kind (suc depth) x
      × FitsStack kind (suc depth) y
      × AllFit kind (suc depth) xs
  FitsStack kind depth (multisig multi k ps) =
      (is_whitelisted kind multi ≡ true) × (k ≤ 16) × (length ps ≤ 16)
  FitsStack kind depth (multisig sortedmulti k ps) =
      (is_whitelisted kind sortedmulti ≡ true) × (k ≤ 16) × (length ps ≤ 16)
  FitsStack kind depth (multisig multi_a k ps) = (is_whitelisted kind multi_a ≡ true) × (k ≤ 16)
  FitsStack kind depth (multisig sortedmulti_a k ps) =
      (is_whitelisted kind sortedmulti_a ≡ true) × (k ≤ 16) × (length ps ≤ 8)
  FitsStack kind depth _ = ⊥

  pub AllFit : ScriptKind → ℕ → Scripts → Type 0
  AllFit kind depth end = Unit
  AllFit kind depth (next x xs) = FitsStack kind depth x × AllFit kind depth xs
