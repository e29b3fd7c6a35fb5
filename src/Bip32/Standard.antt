-- ===== src/Bip32/Standard.antt =====
-- The standard paths of BIP-44 and its relatives, and the code's tests for them.
use membrane_app_bitcoin_new.Common.{
  ℕ, ◌&&◌, not, inl, ◌+◌, ◌-◌, ◌^◌, ◌≤◌, ◌<◌, ◌≡◌, ◌⊎◌, ◌↔◌, refl, arith, List, [], ◌∷◌, ltb, true,
  false, get_or, length, All, bit_xor,
}
use membrane_app_bitcoin_new.Common.Bits.{bit_xor_set, bit_xor_clear}
use membrane_app_bitcoin_new.Bip32.{
  hardened, coin_type_in, is_pubkey_path_standard, is_address_path_standard, ExpectedChange, change,
  any, wrong, change_ok,
}

abbrev pub IsU31 : ℕ → Type 0
IsU31 n = n < 2 ^ 31

-- A coin type is one of some unhardened numbers, hardened.
abbrev pub HardenedIn : ℕ → List ℕ → Type 0
HardenedIn coin_type [] = ⊥
HardenedIn coin_type (c ∷ cs) = (coin_type ≡ c + hardened) ⊎ HardenedIn coin_type cs

coin_type_in_iff :
    (x : ℕ) (cs : List ℕ) → All IsU31 cs → (coin_type_in x cs ≡ true) ↔ HardenedIn x cs
unfolding coin_type_in
coin_type_in_iff x [] h = ground arith
coin_type_in_iff x (c ∷ cs) h = ground (arith, bit_xor_set 31 c, coin_type_in_iff x cs h.1)

abbrev pub step_at : List ℕ → ℕ → ℕ
step_at path i = get_or path i 0

-- m/purpose'/coin_type' and m/purpose'/coin_type'/account', with an account of at most 100.
pub record IsPubkeyPath (path : List ℕ) (path_len purpose : ℕ) (coins : List ℕ) : Type 0 where
  pub depth : (path_len ≡ 2) ⊎ (path_len ≡ 3)
  pub purpose_hardened : step_at path 0 ≡ purpose + hardened
  pub coin_hardened : hardened ≤ step_at path 1
  pub coin_expected : (coins ≡ []) ⊎ HardenedIn (step_at path 1) coins
  pub account_small :
      (path_len ≡ 2) ⊎ ((hardened ≤ step_at path 2) × (step_at path 2 ≤ hardened + 100))

account_test :
    (a : ℕ)
    → a < 2 ^ 32
    → (ltb 100 (bit_xor a hardened) ≡ false) ↔ ((hardened ≤ a) × (a ≤ hardened + 100))
account_test a h = ground (arith, bit_xor_set 31 a, bit_xor_clear 31 (a - hardened))

coins_test :
    (x : ℕ) (cs : List ℕ)
    → All IsU31 cs
    → (ltb 0 (length cs) && not (coin_type_in x cs) ≡ false) ↔ ((cs ≡ []) ⊎ HardenedIn x cs)
coins_test x [] h = (λ e. inl refl, λ s. refl)
coins_test x (c ∷ cs) h = ground (arith, coin_type_in_iff x (c ∷ cs) h)

-- `is_pubkey_path_standard` accepts exactly the standard paths to a public key: of depth 2 or 3, with
-- the purpose hardened, the coin type hardened and, if coin types are expected, one of those, and a
-- hardened account of at most 100. The expected numbers are unhardened and the steps are 32-bit words.
pub is_pubkey_path_standard_iff :
    (path : List ℕ) (path_len purpose : ℕ) (coins : List ℕ)
    → IsU31 purpose
    → All IsU31 coins
    → step_at path 2 < 2 ^ 32
    → (is_pubkey_path_standard path path_len purpose coins ≡ true)
      ↔ IsPubkeyPath path path_len purpose coins
unfolding is_pubkey_path_standard
is_pubkey_path_standard_iff path path_len purpose coins hp hc ha = (
  λ e. ground (
    arith,
    coins_test (step_at path 1) coins hc,
    account_test (step_at path 2) ha,
    bit_xor_set 31 purpose hp,
  ),
  λ s. ground (
    arith,
    coins_test (step_at path 1) coins hc,
    account_test (step_at path 2) ha,
    bit_xor_set 31 purpose hp,
  ),
)

-- What `expected_change` asks of the change step.
abbrev pub ChangeFits : ExpectedChange → ℕ → Type 0
ChangeFits (change c) found = found ≡ c
ChangeFits any found = Unit
ChangeFits wrong found = ⊥

-- m/purpose'/coin_type'/account'/change/address_index.
pub record IsAddressPath (path : List ℕ) (path_len purpose : ℕ) (coins : List ℕ)
    (e : ExpectedChange) : Type 0 where
  pub depth : path_len ≡ 5
  pub account_path : IsPubkeyPath path 3 purpose coins
  pub change_bit : (step_at path 3 ≡ 0) ⊎ (step_at path 3 ≡ 1)
  pub change_fits : ChangeFits e (step_at path 3)
  pub index_small : step_at path 4 ≤ 50000

change_test :
    (e : ExpectedChange) (found : ℕ)
    → (found ≡ 0) ⊎ (found ≡ 1)
    → (change_ok e found ≡ true) ↔ ChangeFits e found
unfolding change_ok
change_test (change c) found h = ground arith
change_test any found h = (λ e. tt, λ s. refl)
change_test wrong found h = ground arith

-- `is_address_path_standard` accepts exactly the standard paths to an address: a standard path to an
-- account, the change step 0 or 1 and as expected, and an unhardened index of at most 50000.
pub is_address_path_standard_iff :
    (path : List ℕ) (path_len purpose : ℕ) (coins : List ℕ) (e : ExpectedChange)
    → IsU31 purpose
    → All IsU31 coins
    → step_at path 2 < 2 ^ 32
    → (is_address_path_standard path path_len purpose coins e ≡ true)
      ↔ IsAddressPath path path_len purpose coins e
unfolding is_address_path_standard
is_address_path_standard_iff path path_len purpose coins e hp hc ha = (
  λ t. ground (
    arith,
    is_pubkey_path_standard_iff path 3 purpose coins hp hc ha,
    change_test e (step_at path 3),
  ),
  λ s. ground (
    arith,
    is_pubkey_path_standard_iff path 3 purpose coins hp hc ha,
    change_test e (step_at path 3),
  ),
)
