-- ===== src/Script/Kinds.antt =====
-- `get_script_type` of common/script.c on the standard scripts.
use membrane_app_bitcoin_new.Common.{
  zero, ◌∙◌, suc, ap, ◌++◌, get_or, ℕ, ◌+◌, ◌≡◌, List, arith, length, some, ◌∷◌, [],
}
use membrane_app_bitcoin_new.Script.{
  p2wpkh, p2sh, op_equal, p2pkh, op_checksig, op_equalverify, op_hash160, op_dup, get_script_type,
}

get_or-append :
    (xs ys : List ℕ) (n i : ℕ) → length xs ≡ n → get_or (xs ++ ys) (n + i) 0 ≡ get_or ys i 0
get_or-append [] ys n i h = ap (λ k. get_or ys k 0) (omega arith)
get_or-append (x ∷ xs) ys zero i h = absurd (omega arith)
get_or-append (x ∷ xs) ys (suc n) i h =
    ap (λ k. get_or (x ∷ xs ++ ys) k 0) shift ∙ get_or-append xs ys n i (omega arith)
  where
    shift : suc n + i ≡ suc (n + i)
    shift = omega arith

-- `get_script_type` recognises the P2PKH, the P2SH and the P2WPKH script of a 20-byte hash.
pub get_script_type-standard :
    (hash : List ℕ)
    → length hash ≡ 20
    → (get_script_type (op_dup ∷ op_hash160 ∷ 0x14 ∷ hash ++ op_equalverify ∷ op_checksig ∷ []) 25
        ≡ some p2pkh)
      × (get_script_type (op_hash160 ∷ 0x14 ∷ hash ++ op_equal ∷ []) 23 ≡ some p2sh)
      × (get_script_type (0x00 ∷ 0x14 ∷ hash) 22 ≡ some p2wpkh)
unfolding get_script_type
get_script_type-standard hash h = ground (
  arith,
  get_or-append hash (op_equalverify ∷ op_checksig ∷ []) 20 0 h,
  get_or-append hash (op_equalverify ∷ op_checksig ∷ []) 20 1 h,
  get_or-append hash (op_equal ∷ []) 20 0 h,
)
