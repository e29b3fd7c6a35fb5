-- ===== src/Policy/Size/Returned.antt =====
-- The size of common/wallet.c for a node, and what `get_wallet_internal_script_hash` of
-- handler/lib/policy.c returns for it.
use membrane_app_bitcoin_new.Policy.Written.{get_wallet_internal_script_hash-script}
use membrane_app_bitcoin_new.Policy.Size.Length.{size_lem}
use membrane_app_bitcoin_new.Policy.Translation.{script}
use membrane_app_bitcoin_new.Policy.Size.{compute_ext_info, ExtInfo}
use membrane_app_bitcoin_new.Policy.Size.Sized.{Sized}
use membrane_app_bitcoin_new.Policy.Fits.{FitsStack}
use membrane_app_bitcoin_new.Policy.Picked.{IsKey}
use mathlib.Core.Path.{subst}
use membrane_app_bitcoin_new.Policy.Machine.{get_wallet_internal_script_hash, done}
use membrane_app_bitcoin_new.Policy.{Node, KeyPlaceholder, wrapped_wsh}
use membrane_app_bitcoin_new.Common.{sym, ◌≤◌, length, some, ◌≡◌, List, Option, ℕ, false}

module _ (get_derived_pubkey : KeyPlaceholder → Option (List ℕ)) (crypto_hash160 : List ℕ → List ℕ)
    (key : KeyPlaceholder → List ℕ)
    (derived : (p : KeyPlaceholder) → get_derived_pubkey p ≡ some (key p))
    (valid : (p : KeyPlaceholder) → IsKey (key p))
    (hashed : (bytes : List ℕ) → length (crypto_hash160 bytes) ≡ 20) where
  -- Where every placeholder has a key of 33 bytes that is below 33 bytes 0xff, also without its first
  -- byte, and hashes have 20 bytes: for a node that fits the stack and the fragments of wsh, without
  -- the wrapper `a`, with two to 128 scripts in each `thresh`, with an opcode at the end of each script
  -- below `v`, and with hashes and numbers of their sizes, compute_miniscript_policy_ext_info computes
  -- the script size that get_wallet_internal_script_hash returns for wsh with enough fuel.
  pub script_size-returned :
      (y : Node)
      → FitsStack wrapped_wsh 0 y
      → Sized y
      → (e : ExtInfo) × (compute_ext_info y ≡ some e)
        × ((n : ℕ) × ((fuel : ℕ)
              → n ≤ fuel
              → get_wallet_internal_script_hash get_derived_pubkey crypto_hash160 wrapped_wsh fuel y
                ≡ done e.script_size (script key crypto_hash160 false false y)))
  script_size-returned y fits sized =
      let length_key : (p : KeyPlaceholder) → length (key p) ≡ 33 =
        λ p. let (l, first, second) = valid p in l in
      let (e, computed, size, verifying) = size_lem key crypto_hash160 length_key hashed y sized in
      let (n, h) =
        get_wallet_internal_script_hash-script get_derived_pubkey crypto_hash160 key derived valid
          wrapped_wsh y fits in
      (
        e,
        computed,
        (
          n,
          λ fuel enough.
              subst
                (λ l.
                  get_wallet_internal_script_hash get_derived_pubkey crypto_hash160 wrapped_wsh fuel
                    y
                  ≡ done l (script key crypto_hash160 false false y))
                (sym size) (h fuel enough),
        ),
      )
