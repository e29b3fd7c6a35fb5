-- ===== src/Script/Tests.antt =====
-- Runs of common/script.c.
use membrane_app_bitcoin_new.Common.{
  ℕ, [], ◌∷◌, some, ◌≡◌, ◌≤◌, refl, arith, length, replicate, ◌++◌,
}
use membrane_app_bitcoin_new.Script.{
  hex_loop, finish, format_opscript_script, get_script_type, p2pkh, p2sh, p2wpkh,
}
use membrane_app_bitcoin_new.Script.Bounds.{
  format_opscript_script-fits, max_opreturn_output_desc_size,
}
use membrane_app_bitcoin_new.Script.Kinds.{get_script_type-standard}

-- "OP_RETURN 0xab00"
format_opscript_script-fits_example :
    length {A = ℕ}
      (79 ∷ 80 ∷ 95 ∷ 82 ∷ 69 ∷ 84 ∷ 85 ∷ 82 ∷ 78 ∷ 32 ∷ 48 ∷ 120 ∷ 97 ∷ 98 ∷ 48 ∷ 48 ∷ 0 ∷ [])
    ≤ max_opreturn_output_desc_size
unfolding format_opscript_script finish hex_loop
format_opscript_script-fits_example =
    format_opscript_script-fits (0x6a ∷ 2 ∷ 0xab ∷ 0x00 ∷ []) 4
      (79 ∷ 80 ∷ 95 ∷ 82 ∷ 69 ∷ 84 ∷ 85 ∷ 82 ∷ 78 ∷ 32 ∷ 48 ∷ 120 ∷ 97 ∷ 98 ∷ 48 ∷ 48 ∷ 0 ∷ []) refl

get_script_type-standard_example :
    (get_script_type (0x76 ∷ 0xa9 ∷ 0x14 ∷ replicate 20 3 ++ 0x88 ∷ 0xac ∷ []) 25 ≡ some p2pkh)
    × (get_script_type (0xa9 ∷ 0x14 ∷ replicate 20 3 ++ 0x87 ∷ []) 23 ≡ some p2sh)
    × (get_script_type (0x00 ∷ 0x14 ∷ replicate 20 3) 22 ≡ some p2wpkh)
get_script_type-standard_example = get_script_type-standard (replicate 20 3) (omega arith)
