-- ===== src/Bip32/Read.antt =====
-- What `bip32_path_read` accepts and returns.
use membrane_app_bitcoin_new.Common.{
  ℕ, zero, suc, ◌+◌, ◌*◌, ◌≡◌, arith, none, some, List, [], ◌∷◌, leb, ◌&&◌, if◌then◌else◌,
}
use membrane_app_bitcoin_new.Bytes.{read_u32_be}
use membrane_app_bitcoin_new.Bip32.{path_read_loop, bip32_path_read}

-- The big-endian words of a path, one after the other from the offset.
abbrev pub steps_at : List ℕ → ℕ → ℕ → List ℕ
steps_at bytes offset zero = []
steps_at bytes offset (suc n) = read_u32_be bytes offset ∷ steps_at bytes (offset + 4) n

path_read_loop_lem :
    (bytes : List ℕ) (in_len offset n : ℕ)
    → path_read_loop bytes in_len offset (suc n)
      ≡ (if leb (offset + 4 * n) in_len then some (steps_at bytes offset (suc n)) else none)
unfolding path_read_loop
path_read_loop_lem bytes in_len offset zero = ground arith
path_read_loop_lem bytes in_len offset (suc n) =
    ground (arith, path_read_loop_lem bytes in_len (offset + 4) n)

-- `bip32_path_read` succeeds exactly when at most 8 steps are asked for and the input, lengthened by
-- 4 bytes, would hold them, and then returns the big-endian words at offsets 0, 4, 8, …. So a path
-- whose last word lies just behind the input, in part or as a whole, is accepted.
pub bip32_path_read_lem :
    (bytes : List ℕ) (in_len out_len : ℕ)
    → bip32_path_read bytes in_len out_len ≡ (
        if leb out_len 8 && leb (4 * out_len) (in_len + 4)
        then some (steps_at bytes 0 out_len)
        else none)
unfolding bip32_path_read
bip32_path_read_lem bytes in_len zero = unfold path_read_loop in ground arith
bip32_path_read_lem bytes in_len (suc n) = ground (arith, path_read_loop_lem bytes in_len 0 n)
