-- ===== src/Policy/Translation.antt =====
-- The script of a node by the rules of miniscript, without a stack or a count of steps: what
-- `get_wallet_internal_script_hash` of handler/lib/policy.c means to write. The wrapper `a` is the one
-- of the rules and of the scripts in unit-tests/test_wallet.c, with both of its opcodes.
use membrane_app_bitcoin_new.Policy.Commands.{op_fromaltstack}
use membrane_app_bitcoin_new.Bytes.{byte_at}
use membrane_app_bitcoin_new.Policy.Keys.{compared, cmp_arrays, is_greater}
use membrane_app_bitcoin_new.Common.{
  ◌||◌, map, leb, length, ◌==◌, drop, if◌then◌else◌, ◌++◌, ◌+◌, Bool, List, ℕ, [], ◌∷◌, true, false,
}
use membrane_app_bitcoin_new.Policy.{
  Scripts, Node, KeyPlaceholder, pk, pkh, wpkh, multi, multi_a, sortedmulti, sortedmulti_a, tok_0,
  tok_1, pk_k, pk_h, older, after, sha256, hash256, ripemd160, hash160, andor, and_v, and_b, and_n,
  or_b, or_c, or_d, or_i, thresh, tok_a, tok_s, tok_c, tok_t, tok_d, tok_v, tok_j, tok_n, tok_l,
  tok_u, constant, with_key, with_uint32, with_hash_160, with_hash_256, with_script, with_script2,
  with_script3, with_scriptlist, multisig, end, next,
}
use membrane_app_bitcoin_new.Policy.Commands.{
  op_add, op_0notequal, op_swap, op_toaltstack, op_if, op_ifdup, op_boolor, op_booland, op_endif,
  op_else, op_ripemd160, op_hash256, op_sha256, op_checkmultisig, op_cltv, op_verify,
  op_checksigadd, op_csv, op_numequal, op_size, op_notif, op_0,
}
use membrane_app_bitcoin_new.Script.{
  op_equal, op_equalverify, op_hash160, op_checksig, op_dup, op_1,
}

-- CHECKSIG, CHECKMULTISIG, NUMEQUAL and EQUAL are followed by their verifying forms.
unfoldable pub has_verifying_form : ℕ → Bool
has_verifying_form o = o == 0xac || o == 0xae || o == 0x9c || o == 0x87

-- An opcode under the flag `v`, which asks for the form that verifies.
unfoldable pub verified : Bool → ℕ → List ℕ
verified false o = o ∷ []
verified true o = if has_verifying_form o then (o + 1) ∷ [] else o ∷ op_verify ∷ []

-- The minimal push of a number of 32 bits, in little endian with a sign bit.
unfoldable pub sized_push : ℕ → List ℕ
sized_push n =
    if leb n 0x7f
    then 1 ∷ byte_at n 0 ∷ []
    else if leb n 0x7fff
    then 2 ∷ byte_at n 0 ∷ byte_at n 8 ∷ []
    else if leb n 0x7fffff
    then 3 ∷ byte_at n 0 ∷ byte_at n 8 ∷ byte_at n 16 ∷ []
    else if leb n 0x7fffffff
    then 4 ∷ byte_at n 0 ∷ byte_at n 8 ∷ byte_at n 16 ∷ byte_at n 24 ∷ []
    else 5 ∷ byte_at n 0 ∷ byte_at n 8 ∷ byte_at n 16 ∷ byte_at n 24 ∷ 0 ∷ []

unfoldable pub minimal_push : ℕ → List ℕ
minimal_push n = if n == 0 then op_0 ∷ [] else if leb n 16 then (0x50 + n) ∷ [] else sized_push n

unfoldable pub concat : List (List ℕ) → List ℕ
concat [] = []
concat (piece ∷ pieces) = piece ++ concat pieces

-- Insertion in the order of `cmp_arrays`, after the keys that are smaller.
unfoldable pub insert : Bool → List ℕ → List (List ℕ) → List (List ℕ)
insert x_only key [] = key ∷ []
insert x_only key (other ∷ keys) =
    if is_greater (cmp_arrays (compared x_only key) (compared x_only other))
    then other ∷ insert x_only key keys
    else key ∷ other ∷ keys

unfoldable pub sort : Bool → List (List ℕ) → List (List ℕ)
sort x_only [] = []
sort x_only (key ∷ keys) = insert x_only key (sort x_only keys)

-- The keys of a multisig node, in their order in the script.
unfoldable pub ordered : Bool → Bool → List (List ℕ) → List (List ℕ)
ordered x_only sorted keys = if sorted then sort x_only keys else keys

unfoldable pub pushed_keys : List (List ℕ) → List ℕ
pushed_keys [] = []
pushed_keys (key ∷ keys) = 0x21 ∷ (key ++ pushed_keys keys)

unfoldable pub checked_keys : ℕ → List (List ℕ) → List ℕ
checked_keys o [] = []
checked_keys o (key ∷ keys) = 0x20 ∷ (drop 1 key ++ (o ∷ checked_keys op_checksigadd keys))

abbrev pub one : ℕ → List ℕ
one o = o ∷ []

unfoldable pub multisig_script : Bool → Bool → ℕ → List (List ℕ) → List ℕ
multisig_script v sorted k keys = concat (
    one (0x50 + k)
    ∷ pushed_keys (ordered false sorted keys)
    ∷ one (0x50 + length keys)
    ∷ verified v op_checkmultisig
    ∷ [])

unfoldable pub multisig_a_script : Bool → Bool → ℕ → List (List ℕ) → List ℕ
multisig_a_script v sorted k keys = concat (
    checked_keys op_checksig (ordered true sorted keys)
    ∷ one (0x50 + k)
    ∷ verified v op_numequal
    ∷ [])

-- The check of a preimage of 32 bytes.
unfoldable pub hash_script : Bool → ℕ → List ℕ → List ℕ
hash_script v o pushed =
    concat (
      one op_size ∷ one 1 ∷ one 32 ∷ one op_equalverify ∷ one o ∷ pushed ∷ verified v op_equal ∷ [])

-- `key` gives the public key of each placeholder.
module _ (key : KeyPlaceholder → List ℕ) (hash : List ℕ → List ℕ) (is_taproot : Bool) where
  unfoldable pub key_push : KeyPlaceholder → List ℕ
  key_push p = if is_taproot then 32 ∷ drop 1 (key p) else 33 ∷ key p

  unfoldable mutual
    pub script : Bool → Node → List ℕ
    script v (constant tok_0) = concat (verified v op_0 ∷ [])
    script v (constant tok_1) = concat (verified v op_1 ∷ [])
    script v (with_key pk_k p) = concat (key_push p ∷ [])
    script v (with_key pk_h p) =
        concat (one op_dup ∷ one op_hash160 ∷ (20 ∷ hash (key p)) ∷ one op_equalverify ∷ [])
    script v (with_key pk p) = concat (key_push p ∷ verified v op_checksig ∷ [])
    script v (with_key pkh p) = concat (
        one op_dup
        ∷ one op_hash160
        ∷ (20 ∷ hash (key p))
        ∷ one op_equalverify
        ∷ verified v op_checksig
        ∷ [])
    script v (with_key wpkh p) = concat (one op_0 ∷ (20 ∷ hash (key p)) ∷ [])
    script v (with_uint32 older n) = concat (minimal_push n ∷ verified v op_csv ∷ [])
    script v (with_uint32 after n) = concat (minimal_push n ∷ verified v op_cltv ∷ [])
    script v (with_hash_256 sha256 h) = hash_script v op_sha256 (32 ∷ h)
    script v (with_hash_256 hash256 h) = hash_script v op_hash256 (32 ∷ h)
    script v (with_hash_160 ripemd160 h) = hash_script v op_ripemd160 (20 ∷ h)
    script v (with_hash_160 hash160 h) = hash_script v op_hash160 (20 ∷ h)
    script v (with_script3 andor x y z) = concat (
        script false x
        ∷ one op_notif
        ∷ script false z
        ∷ one op_else
        ∷ script false y
        ∷ verified v op_endif
        ∷ [])
    script v (with_script2 and_v x y) = concat (script false x ∷ script v y ∷ [])
    script v (with_script2 and_b x y) =
        concat (script false x ∷ script false y ∷ verified v op_booland ∷ [])
    script v (with_script2 and_n x y) = concat (
        script false x
        ∷ one op_notif
        ∷ one op_0
        ∷ one op_else
        ∷ script false y
        ∷ verified v op_endif
        ∷ [])
    script v (with_script2 or_b x z) =
        concat (script false x ∷ script false z ∷ verified v op_boolor ∷ [])
    script v (with_script2 or_c x z) =
        concat (script false x ∷ one op_notif ∷ script false z ∷ verified v op_endif ∷ [])
    script v (with_script2 or_d x z) =
        concat
          (script false x ∷ one op_ifdup ∷ one op_notif ∷ script false z ∷ verified v op_endif ∷ [])
    script v (with_script2 or_i x z) =
        concat
          (one op_if ∷ script false x ∷ one op_else ∷ script false z ∷ verified v op_endif ∷ [])
    script v (with_script tok_a x) =
        concat (one op_toaltstack ∷ script false x ∷ one op_fromaltstack ∷ [])
    script v (with_script tok_s x) = concat (one op_swap ∷ script false x ∷ [])
    script v (with_script tok_c x) = concat (script false x ∷ verified v op_checksig ∷ [])
    script v (with_script tok_t x) = concat (script false x ∷ verified v op_1 ∷ [])
    script v (with_script tok_d x) =
        concat (one op_dup ∷ one op_if ∷ script false x ∷ verified v op_endif ∷ [])
    script v (with_script tok_v x) = concat (script true x ∷ [])
    script v (with_script tok_j x) =
        concat
          (one op_size ∷ one op_0notequal ∷ one op_if ∷ script false x ∷ verified v op_endif ∷ [])
    script v (with_script tok_n x) = concat (script false x ∷ verified v op_0notequal ∷ [])
    script v (with_script tok_l x) =
        concat (one op_if ∷ one op_0 ∷ one op_else ∷ script false x ∷ verified v op_endif ∷ [])
    script v (with_script tok_u x) =
        concat (one op_if ∷ script false x ∷ one op_else ∷ one op_0 ∷ verified v op_endif ∷ [])
    script v (with_scriptlist thresh k xs) =
        concat (first_script xs ∷ minimal_push k ∷ verified v op_equal ∷ [])
    script v (multisig multi k ps) = multisig_script v false k (map key ps)
    script v (multisig sortedmulti k ps) = multisig_script v true k (map key ps)
    script v (multisig multi_a k ps) = multisig_a_script v false k (map key ps)
    script v (multisig sortedmulti_a k ps) = multisig_a_script v true k (map key ps)
    script v _ = []

    pub first_script : Scripts → List ℕ
    first_script end = []
    first_script (next x xs) = script false x ++ added_scripts xs

    pub added_scripts : Scripts → List ℕ
    added_scripts end = []
    added_scripts (next x xs) = concat (script false x ∷ one op_add ∷ added_scripts xs ∷ [])
