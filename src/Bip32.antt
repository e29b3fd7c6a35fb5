-- ===== src/Bip32.antt =====
-- common/bip32.c: derivation paths. A path is the list of its steps, each a `uint32_t`.
pub mod Standard
mod Tests
pub mod Read
use membrane_app_bitcoin_new.Common.{
  ℕ, zero, suc, ◌+◌, ◌==◌, ltb, if◌then◌else◌, Option, none, some, List, [], ◌∷◌, Bool, true, false,
  not, ◌&&◌, ◌||◌, get_or, length, bit_xor,
}
use membrane_app_bitcoin_new.Bytes.{read_u32_be}

abbrev pub max_bip32_path_steps : ℕ
max_bip32_path_steps = 8

-- `BIP32_FIRST_HARDENED_CHILD`, `H` in the source.
abbrev pub hardened : ℕ
hardened = 0x80000000

abbrev pub max_bip44_account_recommended : ℕ
max_bip44_account_recommended = 100

abbrev pub max_bip44_address_index_recommended : ℕ
max_bip44_address_index_recommended = 50000

-- The loop of `bip32_path_read`, with the steps that are still to be read. The step is read at
-- `offset` even where fewer than four of the `in_len` bytes are left there.
pub path_read_loop : List ℕ → ℕ → ℕ → ℕ → Option (List ℕ)
path_read_loop bytes in_len offset zero = some []
path_read_loop bytes in_len offset (suc left) =
    let rest = path_read_loop bytes in_len (offset + 4) left in
    if ltb in_len offset
    then none
    else elim rest [ none ↦ none | some steps ↦ some (read_u32_be bytes offset ∷ steps) ]

-- `out` on success, and `none` for `false`.
pub bip32_path_read : List ℕ → ℕ → ℕ → Option (List ℕ)
bip32_path_read bytes in_len out_len =
    if ltb max_bip32_path_steps out_len then none else path_read_loop bytes in_len 0 out_len

-- Whether the coin type is one of the expected ones, hardened.
coin_type_in : ℕ → List ℕ → Bool
coin_type_in coin_type [] = false
coin_type_in coin_type (c ∷ cs) = coin_type == bit_xor c hardened || coin_type_in coin_type cs

-- The path is read at the offsets of BIP-44; the length is checked first.
pub is_pubkey_path_standard : List ℕ → ℕ → ℕ → List ℕ → Bool
is_pubkey_path_standard path path_len expected_purpose coin_types =
    let purpose = get_or path 0 0 in
    let coin_type = get_or path 1 0 in
    let account = get_or path 2 0 in
    if ltb path_len 2 || ltb 3 path_len
    then false
    else if not (purpose == bit_xor expected_purpose hardened)
    then false
    else if ltb coin_type hardened
    then false
    else if ltb 0 (length coin_types) && not (coin_type_in coin_type coin_types)
    then false
    else if path_len == 2
    then true
    else if ltb max_bip44_account_recommended (bit_xor account hardened)
    then false
    else true

-- `expected_change`, an `int`: 0, 1, -1 for no expectation, or any other value.
pub data ExpectedChange : Type 0 where
  change : ℕ → ExpectedChange
  any : ExpectedChange
  wrong : ExpectedChange

change_ok : ExpectedChange → ℕ → Bool
change_ok (change c) found = if c == 0 || c == 1 then found == c else false
change_ok any found = true
change_ok wrong found = false

pub is_address_path_standard : List ℕ → ℕ → ℕ → List ℕ → ExpectedChange → Bool
is_address_path_standard path path_len expected_purpose coin_types expected_change =
    let found = get_or path 3 0 in
    let address_index = get_or path 4 0 in
    if not (path_len == 5)
    then false
    else if not (is_pubkey_path_standard path 3 expected_purpose coin_types)
    then false
    else if not (found == 0) && not (found == 1)
    then false
    else if not (change_ok expected_change found)
    then false
    else if ltb max_bip44_address_index_recommended address_index
    then false
    else true

-- `ADDRESS_TYPE_LEGACY`, `_WIT`, `_SH_WIT`, `_TR`; `none` for -1.
pub get_bip44_purpose : ℕ → Option ℕ
get_bip44_purpose address_type =
    if address_type == 1
    then some 44
    else if address_type == 2
    then some 84
    else if address_type == 3
    then some 49
    else if address_type == 4
    then some 86
    else none
