-- ===== src/Bip32/Tests.antt =====
-- Runs of common/bip32.c.
use membrane_app_bitcoin_new.Common.{
  ℕ, [], ◌∷◌, List, some, none, ◌≡◌, ◌↔◌, arith, true, ◌+◌, ◌*◌, if◌then◌else◌, leb, ◌&&◌,
}
use membrane_app_bitcoin_new.Bip32.{
  bip32_path_read, is_pubkey_path_standard, is_address_path_standard, hardened, change,
}
use membrane_app_bitcoin_new.Bip32.Read.{bip32_path_read_lem, steps_at}
use membrane_app_bitcoin_new.Bip32.Standard.{
  is_pubkey_path_standard_iff, is_address_path_standard_iff, IsPubkeyPath, IsAddressPath,
}

-- m/84'/0'/5'/1/7
abbrev native_path : List ℕ
native_path = (84 + hardened) ∷ hardened ∷ (5 + hardened) ∷ 1 ∷ 7 ∷ []

is_pubkey_path_standard_iff_example :
    (is_pubkey_path_standard native_path 3 84 (0 ∷ 1 ∷ []) ≡ true)
    ↔ IsPubkeyPath native_path 3 84 (0 ∷ 1 ∷ [])
is_pubkey_path_standard_iff_example =
    is_pubkey_path_standard_iff native_path 3 84 (0 ∷ 1 ∷ []) (omega arith)
      (omega arith, (omega arith, tt)) (omega arith)

is_address_path_standard_iff_example :
    (is_address_path_standard native_path 5 84 (0 ∷ []) (change 1) ≡ true)
    ↔ IsAddressPath native_path 5 84 (0 ∷ []) (change 1)
is_address_path_standard_iff_example =
    is_address_path_standard_iff native_path 5 84 (0 ∷ []) (change 1) (omega arith)
      (omega arith, tt) (omega arith)

bip32_path_read_lem_example : bip32_path_read (0x80 ∷ 0 ∷ 0 ∷ 84 ∷ 0 ∷ 0 ∷ 0 ∷ 9 ∷ []) 4 2 ≡ (
    if leb 2 8 && leb (4 * 2) (4 + 4)
    then some (steps_at (0x80 ∷ 0 ∷ 0 ∷ 84 ∷ 0 ∷ 0 ∷ 0 ∷ 9 ∷ []) 0 2)
    else none)
bip32_path_read_lem_example = bip32_path_read_lem (0x80 ∷ 0 ∷ 0 ∷ 84 ∷ 0 ∷ 0 ∷ 0 ∷ 9 ∷ []) 4 2
