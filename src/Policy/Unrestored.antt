-- ===== src/Policy/Unrestored.antt =====
-- The wrapper `a` in `get_wallet_internal_script_hash` of handler/lib/policy.c, whose table of commands
-- is commands_a.
use membrane_app_bitcoin_new.Policy.Reaches.{Reaches}
use membrane_app_bitcoin_new.Policy.Written.{enough_fuel}
use membrane_app_bitcoin_new.Policy.Emitted.{emitted}
use mathlib.Core.Path.{subst}
use membrane_app_bitcoin_new.Policy.Chain.{zero_add, no_more, child-Writes, ◌>>◌}
use membrane_app_bitcoin_new.Policy.Machine.{get_wallet_internal_script_hash, done}
use membrane_app_bitcoin_new.Policy.Machine.{is_tapscript}
use membrane_app_bitcoin_new.Policy.Translation.{concat, script}
use membrane_app_bitcoin_new.Policy.Commands.{op_fromaltstack, op_toaltstack, commands_a}
use membrane_app_bitcoin_new.Policy.Generic.{at_, op-Writes, Chain}
use membrane_app_bitcoin_new.Policy.Fits.{FitsStack}
use membrane_app_bitcoin_new.Policy.Picked.{IsKey}
use membrane_app_bitcoin_new.Common.{
  append-nil, sym, ap, ◌^◌, ◌%◌, length, ◌≤◌, arith, ◌++◌, some, ◌≡◌, List, Option, ℕ, false, true,
  refl, [], ◌∷◌,
}
use membrane_app_bitcoin_new.Policy.{
  is_whitelisted, Node, ScriptKind, KeyPlaceholder, tok_a, with_script,
}

module _ (get_derived_pubkey : KeyPlaceholder → Option (List ℕ)) (crypto_hash160 : List ℕ → List ℕ)
    (key : KeyPlaceholder → List ℕ)
    (derived : (p : KeyPlaceholder) → get_derived_pubkey p ≡ some (key p))
    (valid : (p : KeyPlaceholder) → IsKey (key p)) where
  a-Chain :
      (kind : ScriptKind) (x : Node)
      → FitsStack kind 1 x
      → Chain get_derived_pubkey crypto_hash160 kind key
          (with_script tok_a x)
          false
          []
          commands_a
          (op_toaltstack ∷ (script key crypto_hash160 (is_tapscript kind) false x ++ []))
  a-Chain kind x fits =
      op-Writes op_toaltstack
      >> child-Writes 0 x refl (omega arith) (λ f.
        emitted get_derived_pubkey crypto_hash160 kind key derived valid false x (f ∷ []) fits)
      >> no_more

  -- Where every placeholder has a key of 33 bytes that is below 33 bytes 0xff, also without its first
  -- byte, and the wrapper `a` is allowed for the script type: for the wrapper around a node without
  -- another `a` that fits the rest of the stack and the list of fragments, with two to 254 scripts in
  -- each `thresh`, a threshold of at most 16 for the keys of each multisig node, and at most 16 keys in
  -- each `multi` and `sortedmulti` and 8 in each `sortedmulti_a`, there is a fuel from which on
  -- `get_wallet_internal_script_hash` returns the length modulo 2 ^ 16 of the bytes that it has
  -- written, which are the script of miniscript without the OP_FROMALTSTACK at its end.
  pub get_wallet_internal_script_hash-a_unrestored :
      (kind : ScriptKind) (x : Node)
      → is_whitelisted kind tok_a ≡ true
      → FitsStack kind 1 x
      → (bytes : List ℕ) × (script key crypto_hash160
            (is_tapscript kind)
            false
            (with_script tok_a x)
          ≡ bytes ++ op_fromaltstack ∷ [])
        × ((n : ℕ) × ((fuel : ℕ)
              → n ≤ fuel
              → get_wallet_internal_script_hash get_derived_pubkey crypto_hash160 kind fuel
                  (with_script tok_a x)
                ≡ done (length bytes % 2 ^ 16) bytes))
  unfolding script concat
  get_wallet_internal_script_hash-a_unrestored kind x allowed fits =
      let inner = script key crypto_hash160 (is_tapscript kind) false x in
      let bytes = op_toaltstack ∷ (inner ++ []) in
      let reached =
        (a-Chain kind x fits).written [] 0 [] allowed refl (omega arith) (omega arith) in
      (
        bytes,
        ap (λ l. op_toaltstack ∷ (l ++ op_fromaltstack ∷ [])) (sym (append-nil inner)),
        enough_fuel get_derived_pubkey crypto_hash160 kind (with_script tok_a x)
            (length bytes % 2 ^ 16) bytes
            (subst
              (λ l.
                Reaches get_derived_pubkey crypto_hash160 kind (done (l % 2 ^ 16) bytes)
                  (at_ (with_script tok_a x) 0 0 false [] []))
              (zero_add (length bytes)) reached),
      )
