-- ===== src/Policy/Keys.antt =====
-- handler/lib/policy.c: the key that the processors of a multisig node write next. `used` is the
-- list of the bits of the vector of used keys.
use membrane_app_bitcoin_new.Policy.{KeyPlaceholder}
use membrane_app_bitcoin_new.Common.{
  zero, [], ltb, suc, ◌∷◌, set, replicate, drop, false, none, some, Option, if◌then◌else◌, true,
  Bool, List, ℕ,
}

-- The sign of the result of `cmp_arrays`.
pub data Sign : Type 0 where
  smaller same greater : Sign

abbrev pub cmp_arrays : List ℕ → List ℕ → Sign
cmp_arrays [] ys = same
cmp_arrays (x ∷ xs) [] = same
cmp_arrays (x ∷ xs) (y ∷ ys) =
    if ltb x y then smaller else if ltb y x then greater else cmp_arrays xs ys

abbrev pub is_greater : Sign → Bool
is_greater greater = true
is_greater _ = false

-- The part of a key that is compared: without its first byte in a tapscript.
abbrev pub compared : Bool → List ℕ → List ℕ
compared x_only key = if x_only then drop 1 key else key

-- The next key and the bits after it is taken; `no_key` for a failed derivation, `stray_index`
-- where a bit is set at the index -1.
pub data Picked : Type 0 where
  picked : List ℕ → List Bool → Picked
  no_key stray_index : Picked

abbrev pub nth {ℓ} : {A : Type ℓ} → List A → ℕ → Option A
nth [] i = none
nth (x ∷ xs) zero = some x
nth (x ∷ xs) (suc i) = nth xs i

module _ (get_derived_pubkey : KeyPlaceholder → Option (List ℕ)) where
  -- The loop on `j` over the keys that are not used, with the smallest key up to it and its index.
  unfoldable pub smallest :
      Bool → List KeyPlaceholder → List Bool → ℕ → List ℕ → Option ℕ → Option (List ℕ × Option ℕ)
  smallest x_only [] used j key index = some (key, index)
  smallest x_only (p ∷ ps) [] j key index = none
  smallest x_only (p ∷ ps) (true ∷ used) j key index = smallest x_only ps used (suc j) key index
  smallest x_only (p ∷ ps) (false ∷ used) j key index = elim (get_derived_pubkey p) [
    | none ↦ none
    | some cur ↦ elim (is_greater (cmp_arrays (compared x_only key) (compared x_only cur))) [
      | true ↦ smallest x_only ps used (suc j) cur (some j)
      | false ↦ smallest x_only ps used (suc j) key index
    ]
  ]

  unfoldable pub next_key : Bool → Bool → List KeyPlaceholder → List Bool → ℕ → Picked
  next_key x_only false ps used i = elim (nth ps i) [
    | none ↦ stray_index
    | some p ↦ elim (get_derived_pubkey p) [ none ↦ no_key | some key ↦ picked key used ]
  ]
  next_key x_only true ps used i = elim (smallest x_only ps used 0 (replicate 33 0xFF) none) [
    | none ↦ no_key
    | some (key, none) ↦ stray_index
    | some (key, some j) ↦ picked key (set used j true)
  ]
