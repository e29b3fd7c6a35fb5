-- ===== src/Policy/Written.antt =====
-- The result of `get_wallet_internal_script_hash` of handler/lib/policy.c.
use membrane_app_bitcoin_new.Policy.Fits.{FitsStack}
use membrane_app_bitcoin_new.Policy.Generic.{at_}
use membrane_app_bitcoin_new.Policy.Reaches.{Reaches, run-Reaches}
use membrane_app_bitcoin_new.Policy.Emitted.{emitted}
use membrane_app_bitcoin_new.Policy.Translation.{script}
use membrane_app_bitcoin_new.Policy.Picked.{IsKey}
use membrane_app_bitcoin_new.Policy.{Node, ScriptKind, KeyPlaceholder}
use membrane_app_bitcoin_new.Policy.Machine.{
  run, is_tapscript, get_wallet_internal_script_hash, done,
}
use membrane_app_bitcoin_new.Common.{
  ◌∙◌, ap, arith, ◌+◌, ◌-◌, [], ◌^◌, ◌%◌, false, length, ◌≤◌, some, ◌≡◌, List, Option, ℕ,
}

-- A machine that reaches its end from the root does so with every fuel that is large enough.
pub enough_fuel :
    (get_derived_pubkey : KeyPlaceholder → Option (List ℕ)) (crypto_hash160 : List ℕ → List ℕ)
    (kind : ScriptKind) (x : Node) (len : ℕ) (bytes : List ℕ)
    → Reaches get_derived_pubkey crypto_hash160 kind (done len bytes) (at_ x 0 0 false [] [])
    → (n : ℕ) × ((fuel : ℕ)
        → n ≤ fuel
        → get_wallet_internal_script_hash get_derived_pubkey crypto_hash160 kind fuel x
          ≡ done len bytes)
unfolding get_wallet_internal_script_hash
enough_fuel get_derived_pubkey crypto_hash160 kind x len bytes reached =
    let start = at_ x 0 0 false [] [] in
    let (n, h) =
      run-Reaches get_derived_pubkey crypto_hash160 kind (done len bytes) start reached in
    (
      n,
      λ fuel enough.
          let more : fuel ≡ (fuel - n) + n = omega arith in
          ap (λ k. run get_derived_pubkey crypto_hash160 kind k start) more ∙ h (fuel - n),
    )

module _ (get_derived_pubkey : KeyPlaceholder → Option (List ℕ)) (crypto_hash160 : List ℕ → List ℕ)
    (key : KeyPlaceholder → List ℕ)
    (derived : (p : KeyPlaceholder) → get_derived_pubkey p ≡ some (key p))
    (valid : (p : KeyPlaceholder) → IsKey (key p)) where
  -- Where every placeholder has a key of 33 bytes that is below 33 bytes 0xff, also without its first
  -- byte: for a node without the wrapper `a` that fits the stack and the script type's list of
  -- fragments, with two to 254 scripts in each `thresh`, a threshold of at most 16 for the keys of each
  -- multisig node, and at most 16 keys in each `multi` and `sortedmulti` and 8 in each
  -- `sortedmulti_a`, there is a fuel from which on `get_wallet_internal_script_hash` returns the length
  -- of the node's script modulo 2 ^ 16, having written exactly the script that the rules of miniscript
  -- and of output descriptors give for the node.
  pub get_wallet_internal_script_hash-script :
      (kind : ScriptKind) (x : Node)
      → FitsStack kind 0 x
      → (n : ℕ) × ((fuel : ℕ)
          → n ≤ fuel
          → get_wallet_internal_script_hash get_derived_pubkey crypto_hash160 kind fuel x
            ≡ done
                (length (script key crypto_hash160 (is_tapscript kind) false x) % 2 ^ 16)
                (script key crypto_hash160 (is_tapscript kind) false x))
  get_wallet_internal_script_hash-script kind x fits =
      let bytes = script key crypto_hash160 (is_tapscript kind) false x in
      enough_fuel get_derived_pubkey crypto_hash160 kind x (length bytes % 2 ^ 16) bytes
        (emitted get_derived_pubkey crypto_hash160 kind key derived valid false x [] fits [])
