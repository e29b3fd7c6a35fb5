-- ===== src/Policy/Tests.antt =====
-- Runs of `get_wallet_internal_script_hash` of handler/lib/policy.c on small trees.
use mathlib.Core.Path.{subst}
use membrane_app_bitcoin_new.Policy.Unrestored.{get_wallet_internal_script_hash-a_unrestored}
use membrane_app_bitcoin_new.Policy.Commands.{op_fromaltstack}
use membrane_app_bitcoin_new.Policy.Stack.{get_wallet_internal_script_hash-IsSafe, IsSafe}
use membrane_app_bitcoin_new.Policy.Shape.{Shaped}
use membrane_app_bitcoin_new.Policy.Picked.{IsKey}
use membrane_app_bitcoin_new.Policy.Number.Decimal.{parse_unsigned_decimal-numeral}
use membrane_app_bitcoin_new.Buffer.Content.{skip}
use membrane_app_bitcoin_new.Buffer.{
  buffer_seek_cur, buffer_can_read, buffer_peek_n, buffer_peek, buffer_create,
}
use membrane_app_bitcoin_new.Policy.Number.{is_digit, digit_loop, parse_unsigned_decimal}
use membrane_app_bitcoin_new.Policy.Size.Returned.{script_size-returned}
use membrane_app_bitcoin_new.Policy.Size.{ExtInfo, compute_ext_info}
use membrane_app_bitcoin_new.Policy.Size.Sized.{Sized}
use membrane_app_bitcoin_new.Policy.Keys.{smallest, next_key}
use membrane_app_bitcoin_new.Policy.Written.{get_wallet_internal_script_hash-script}
use membrane_app_bitcoin_new.Policy.Translation.{script}
use membrane_app_bitcoin_new.Policy.Fits.{FitsStack}
use membrane_app_bitcoin_new.Common.{
  ap, zero, none, suc, ◌^◌, ◌%◌, leb→le, length, some, ◌++◌, Option, ltb→lt, replicate, take, ◌≡◌,
  List, leb, ◌≤◌, ℕ, [], ◌∷◌, true, false, refl,
}
use membrane_app_bitcoin_new.Policy.{
  tok_0, tok_n, constant, multi, KeyPlaceholder, Node, sortedmulti, pk, and_v, older, thresh, tok_v,
  tok_s, wrapped_wsh, end, next, with_key, with_script, with_script2, with_uint32, with_scriptlist,
  multisig, tok_a, or_d,
}
use membrane_app_bitcoin_new.Policy.Machine.{
  broken, state_stack_pop, update_output_op_v, update_output_u8, count_step, update_output,
  finish_keys, state_stack_push, update_output_push_u32, push_key, write_thresh_end, push_child,
  write_thresh_child, execute, write_keys, write_thresh, command_or_end, process_thresh_node,
  write_multi, process_generic_node, process_multi_sortedmulti_node, process, execute_processor,
  pass, run, get_wallet_internal_script_hash, done,
}

-- A key for every placeholder, which ends with the key's index.
abbrev test_key : KeyPlaceholder → List ℕ
test_key p = 2 ∷ replicate 31 7 ++ p.key_index ∷ []

abbrev test_derive : KeyPlaceholder → Option (List ℕ)
test_derive p = some (test_key p)

abbrev test_hash160 : List ℕ → List ℕ
test_hash160 bytes = take 20 bytes

abbrev place : ℕ → KeyPlaceholder
place i = record { num_first = 0; num_second = 1; key_index = i }

-- or_d(sortedmulti(2,@1,@0),and_v(v:thresh(2,pk(@2),s:pk(@3),s:pk(@4)),older(144)))
abbrev inheritance : Node
inheritance = with_script2 or_d (multisig sortedmulti 2 (place 1 ∷ place 0 ∷ [])) (
    with_script2 and_v
      (with_script tok_v (
        with_scriptlist thresh 2 (
          next (with_key pk (place 2)) (
            next (with_script tok_s (with_key pk (place 3)))
              (next (with_script tok_s (with_key pk (place 4))) end)))))
      (with_uint32 older 144))

le : (a b : ℕ) → leb a b ≡ true → a ≤ b
le a b h = leb→le a b h

inheritance-Fits : FitsStack wrapped_wsh 0 inheritance
unfolding FitsStack
inheritance-Fits = (
  refl,
  ltb→lt 0 9 refl,
  (refl, le 2 16 refl, le 2 16 refl),
  (
    refl,
    ltb→lt 1 9 refl,
    (
      refl,
      ltb→lt 2 9 refl,
      (
        refl,
        ltb→lt 3 9 refl,
        ltb→lt 3 255 refl,
        refl,
        (refl, ltb→lt 4 9 refl, refl),
        ((refl, ltb→lt 4 9 refl, refl), tt),
      ),
    ),
    refl,
  ),
)

get_wallet_internal_script_hash-script_example :
    (n : ℕ) × ((fuel : ℕ)
      → n ≤ fuel
      → get_wallet_internal_script_hash test_derive test_hash160 wrapped_wsh fuel inheritance
        ≡ done
            (length (script test_key test_hash160 false false inheritance) % 2 ^ 16)
            (script test_key test_hash160 false false inheritance))
get_wallet_internal_script_hash-script_example =
    get_wallet_internal_script_hash-script test_derive test_hash160 test_key (λ p. refl)
      (λ p. (refl, refl, refl)) wrapped_wsh inheritance inheritance-Fits

-- The keys of a sortedmulti come in order.
sorted_keys :
    get_wallet_internal_script_hash test_derive test_hash160 wrapped_wsh 5
      (multisig sortedmulti 1 (place 9 ∷ place 4 ∷ []))
    ≡ done 71 (0x51 ∷ 0x21 ∷ test_key (place 4) ++ (0x21 ∷ test_key (place 9) ++ 0x52 ∷ 0xae ∷ []))
unfolding get_wallet_internal_script_hash run pass execute_processor process
    process_multi_sortedmulti_node write_multi write_keys next_key smallest finish_keys
    update_output update_output_u8 update_output_op_v state_stack_pop
sorted_keys = refl

-- The wrapper `a` around a key: nothing follows the key.
wrapped_a :
    get_wallet_internal_script_hash test_derive test_hash160 wrapped_wsh 9
      (with_script tok_a (with_key pk (place 4)))
    ≡ done 36 (0x6b ∷ 0x21 ∷ test_key (place 4) ++ 0xac ∷ [])
unfolding get_wallet_internal_script_hash run pass execute_processor process process_generic_node
    command_or_end execute push_child push_key state_stack_push count_step update_output
    update_output_u8 update_output_op_v state_stack_pop
wrapped_a = refl

-- One script under `thresh` is followed by an `OP_ADD`.
single_thresh :
    get_wallet_internal_script_hash test_derive test_hash160 wrapped_wsh 9
      (with_scriptlist thresh 1 (next (with_key pk (place 4)) end))
    ≡ done 38 (0x21 ∷ test_key (place 4) ++ 0xac ∷ 0x93 ∷ 0x51 ∷ 0x87 ∷ [])
unfolding get_wallet_internal_script_hash run pass execute_processor process process_generic_node
    process_thresh_node write_thresh write_thresh_child write_thresh_end update_output_push_u32
    command_or_end execute push_child push_key state_stack_push count_step update_output
    update_output_u8 update_output_op_v state_stack_pop
single_thresh = refl

-- and_v(v:multi(2,@1,@0),older(144))
abbrev delayed : Node
delayed =
    with_script2 and_v (with_script tok_v (multisig multi 2 (place 1 ∷ place 0 ∷ [])))
      (with_uint32 older 144)

abbrev zero_hash160 : List ℕ → List ℕ
zero_hash160 bytes = replicate 20 0

script_size-returned_example :
    (e : ExtInfo) × (compute_ext_info delayed ≡ some e)
    × ((n : ℕ) × ((fuel : ℕ)
          → n ≤ fuel
          → get_wallet_internal_script_hash test_derive zero_hash160 wrapped_wsh fuel delayed
            ≡ done e.script_size (script test_key zero_hash160 false false delayed)))
unfolding FitsStack Sized
script_size-returned_example =
    script_size-returned test_derive zero_hash160 test_key (λ p. refl) (λ p. (refl, refl, refl))
      (λ bytes. refl) delayed
      (refl, ltb→lt 0 9 refl, (refl, ltb→lt 1 9 refl, (refl, le 2 16 refl, le 2 16 refl)), refl)
      (((le 2 16 refl, le 2 16 refl), refl), ltb→lt 144 (2 ^ 32) refl)

-- The size that is computed for the wrapper `a` around a key, whose script has 36 bytes.
size_of_a :
    compute_ext_info (with_script tok_a (with_key pk (place 4)))
    ≡ some record { script_size = 37; x = 1 }
unfolding compute_ext_info
size_of_a = refl

-- "144)"
abbrev bytes_144 : List ℕ
bytes_144 = 49 ∷ 52 ∷ 52 ∷ 41 ∷ []

parse_unsigned_decimal-numeral_example :
    parse_unsigned_decimal (buffer_create bytes_144 4)
    ≡ some (144, skip (buffer_create bytes_144 4) 3)
unfolding buffer_create is_digit
parse_unsigned_decimal-numeral_example =
    parse_unsigned_decimal-numeral (buffer_create bytes_144 4) (49 ∷ 52 ∷ 52 ∷ []) (41 ∷ [])
      (record { within = le 0 4 refl; backed = le 4 4 refl; small = ltb→lt 4 (2 ^ 32) refl }) refl
      ((refl, (refl, (refl, tt))), λ e. absurd (cc e)) refl (ltb→lt 144 (2 ^ 32) refl)

-- "6442450944", which is 2 ^ 32 + 2 ^ 31, is read as 2 ^ 31.
wrapped_number :
    parse_unsigned_decimal (buffer_create (54 ∷ 52 ∷ 52 ∷ 50 ∷ 52 ∷ 53 ∷ 48 ∷ 57 ∷ 52 ∷ 52 ∷ []) 10)
    ≡ some (
      2147483648,
      skip (buffer_create (54 ∷ 52 ∷ 52 ∷ 50 ∷ 52 ∷ 53 ∷ 48 ∷ 57 ∷ 52 ∷ 52 ∷ []) 10) 10,
    )
unfolding parse_unsigned_decimal digit_loop buffer_peek buffer_peek_n buffer_can_read
    buffer_seek_cur is_digit buffer_create
wrapped_number = refl

-- The keys that are derived are those of `test_key`.
abbrev derived_key : KeyPlaceholder → Option (List ℕ) → List ℕ
derived_key p none = test_key p
derived_key p (some k) = k

test_derive-IsKey : (p : KeyPlaceholder) (k : List ℕ) → test_derive p ≡ some k → IsKey k
test_derive-IsKey p k e = subst IsKey (ap (derived_key p) e) (refl, refl, refl)

inheritance-Shaped : Shaped 0 inheritance
unfolding Shaped
inheritance-Shaped = (
  ltb→lt 0 9 refl,
  tt,
  (
    ltb→lt 1 9 refl,
    (
      ltb→lt 2 9 refl,
      (ltb→lt 3 9 refl, (tt, ((ltb→lt 4 9 refl, tt), ((ltb→lt 4 9 refl, tt), tt)))),
    ),
    tt,
  ),
)

get_wallet_internal_script_hash-IsSafe_example :
    IsSafe (get_wallet_internal_script_hash test_derive test_hash160 wrapped_wsh 12 inheritance)
get_wallet_internal_script_hash-IsSafe_example =
    get_wallet_internal_script_hash-IsSafe test_derive test_hash160 test_derive-IsKey wrapped_wsh 12
      inheritance inheritance-Shaped

-- A node below `depth` wrappers `n`.
abbrev wrapped_n : ℕ → Node → Node
wrapped_n zero x = x
wrapped_n (suc depth) x = with_script tok_n (wrapped_n depth x)

-- An eleventh node does not fit the stack.
too_high :
    get_wallet_internal_script_hash test_derive test_hash160 wrapped_wsh 11
      (wrapped_n 10 (constant tok_0))
    ≡ broken
unfolding get_wallet_internal_script_hash run pass execute_processor process process_generic_node
    command_or_end execute push_child state_stack_push count_step
too_high = refl

get_wallet_internal_script_hash-a_unrestored_example :
    (bytes : List ℕ) × (script test_key test_hash160 false false
        (with_script tok_a (with_key pk (place 4)))
      ≡ bytes ++ op_fromaltstack ∷ [])
    × ((n : ℕ) × ((fuel : ℕ)
          → n ≤ fuel
          → get_wallet_internal_script_hash test_derive test_hash160 wrapped_wsh fuel
              (with_script tok_a (with_key pk (place 4)))
            ≡ done (length bytes % 2 ^ 16) bytes))
unfolding FitsStack
get_wallet_internal_script_hash-a_unrestored_example =
    get_wallet_internal_script_hash-a_unrestored test_derive test_hash160 test_key (λ p. refl)
      (λ p. (refl, refl, refl)) wrapped_wsh (with_key pk (place 4)) refl refl
