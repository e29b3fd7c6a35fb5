-- ===== src/Policy/Loops.antt =====
-- The processors of handler/lib/policy.c with code of their own: what they make of the stack, and their
-- loops over scripts and keys.
use membrane_app_bitcoin_new.Policy.Bounded.{
  room_for, deeper, push_u32-InStack, op_v-InStack, Bounded, InStack,
}
use membrane_app_bitcoin_new.Policy.Remaining.{next_key-KeysLeft, KeysLeft, all-KeysLeft}
use membrane_app_bitcoin_new.Policy.Picked.{IsKey}
use membrane_app_bitcoin_new.Policy.Shape.{nth_script-Shaped, AllShaped}
use membrane_app_bitcoin_new.Script.{op_equalverify, op_hash160, op_checksig, op_dup, op_equal}
use membrane_app_bitcoin_new.Policy.{count, Scripts, Token}
use membrane_app_bitcoin_new.Policy.{KeyPlaceholder}
use membrane_app_bitcoin_new.Common.{
  ltb→lt, ◌&&◌, ◌^◌, replicate, ◌%◌, ◌==◌, if◌then◌else◌, drop, ltb, Bool-cases, Option-cases, Bool,
  List, ◌<◌, ◌≡◌, Option, length, ◌+◌, leb, ℕ, zero, suc, some, true, false, inl, inr,
}
use membrane_app_bitcoin_new.Policy.Machine.{
  write_multi, write_multi_a, is_pkh, finish_keys, write_keys, write_keys_a, write_pkh_wpkh,
  write_thresh, write_thresh_child, write_thresh_end, update_output_u8, count_step,
  state_stack_push, update_output_op_v, update_output_push_u32, Machine, Processed, update_output,
  again, finished, failed, undefined,
}
use membrane_app_bitcoin_new.Policy.Commands.{
  op_checkmultisig, op_numequal, op_0, op_checksigadd, op_add,
}

-- What the loops over keys return.
abbrev Wrote : Processed → Type 0
Wrote (again m) = InStack m
Wrote (finished m) = ⊥
Wrote failed = Unit
Wrote undefined = ⊥

finish-Bounded : (r : Processed) (byte o : ℕ) → Wrote r → Bounded (finish_keys r byte o)
unfolding finish_keys update_output_u8 update_output
finish-Bounded (again m) byte o h = op_v-InStack (update_output_u8 m byte) o h
finish-Bounded (finished m) byte o h = absurd h
finish-Bounded failed byte o h = tt
finish-Bounded undefined byte o h = absurd h

module _ (get_derived_pubkey : KeyPlaceholder → Option (List ℕ))
    (crypto_hash160 : List ℕ → List ℕ) where
  added-InStack :
      (m : Machine) (b : Bool) → InStack m → InStack (if b then update_output_u8 m op_add else m)
  unfolding update_output_u8 update_output
  added-InStack m true h = h
  added-InStack m false h = h

  thresh_child-Bounded :
      (m : Machine) (xs : Scripts)
      → InStack m
      → length m.below < 9
      → AllShaped (suc (length m.below)) xs
      → m.top.step < count xs
      → Bounded (write_thresh_child get_derived_pubkey crypto_hash160 m xs)
  unfolding write_thresh_child state_stack_push count_step update_output_u8 update_output
  thresh_child-Bounded m xs (h, stacked) free all less =
      let (y, e, shaped) = nth_script-Shaped (suc (length m.below)) xs m.top.step all less in
      elim (Bool-cases (ltb 1 m.top.step)) [
        | inl f ↦
            rw (write_thresh_child, e, f, state_stack_push, room_for (length m.below) free)
              (deeper (length m.below) free, (shaped, stacked))
        | inr f ↦
            rw (write_thresh_child, e, f, state_stack_push, room_for (length m.below) free)
              (deeper (length m.below) free, (shaped, stacked))
      ]

  thresh_end-Bounded :
      (m : Machine) (k : ℕ) (xs : Scripts)
      → InStack m
      → Bounded (write_thresh_end get_derived_pubkey crypto_hash160 m k xs)
  unfolding write_thresh_end
  thresh_end-Bounded m k xs h =
      let m1 = if leb 1 (count xs) then update_output_u8 m op_add else m in
      op_v-InStack (update_output_push_u32 m1 k) op_equal
        (push_u32-InStack m1 k (added-InStack m (leb 1 (count xs)) h))

  pub thresh-Bounded :
      (m : Machine) (k : ℕ) (xs : Scripts)
      → InStack m
      → length m.below < 9
      → AllShaped (suc (length m.below)) xs
      → Bounded (write_thresh get_derived_pubkey crypto_hash160 m k xs)
  unfolding write_thresh
  thresh-Bounded m k xs h free all = elim (Bool-cases (ltb m.top.step (count xs))) [
    | inl e ↦
        rw (write_thresh, e) (thresh_child-Bounded m xs h free all (ltb→lt m.top.step (count xs) e))
    | inr e ↦ rw (write_thresh, e) (thresh_end-Bounded m k xs h)
  ]

  pub pkh-Bounded :
      (m : Machine) (b : Bool) (o : Token) (p : KeyPlaceholder)
      → is_pkh o ≡ b
      → InStack m
      → Bounded (write_pkh_wpkh get_derived_pubkey crypto_hash160 m o (some p))
  unfolding write_pkh_wpkh update_output_u8 update_output
  pkh-Bounded m b o p e h = elim (Option-cases (get_derived_pubkey p)) [
    | inl f ↦ rw (write_pkh_wpkh, f) tt
    | inr (k, f) ↦ rw (write_pkh_wpkh, f, e) (written b k)
  ]
    where
      turns : List ℕ → Machine
      turns k =
          update_output_u8
            (update_output
              (update_output_u8 (update_output_u8 (update_output_u8 m op_dup) op_hash160) 20)
              (crypto_hash160 k))
            op_equalverify

      written :
          (b : Bool) (k : List ℕ)
          → Bounded (elim b [
            | true ↦ finished (update_output_op_v (turns k) op_checksig)
            | false ↦
                finished
                  (update_output (update_output_u8 (update_output_u8 m op_0) 20) (crypto_hash160 k))
          ])
      written true k = op_v-InStack (turns k) op_checksig h
      written false k = h

module _ (get_derived_pubkey : KeyPlaceholder → Option (List ℕ)) (crypto_hash160 : List ℕ → List ℕ)
    (valid : (p : KeyPlaceholder) (k : List ℕ) → get_derived_pubkey p ≡ some k → IsKey k) where
  keys-Wrote :
      (sorted : Bool) (m : Machine) (ps : List KeyPlaceholder) (used : List Bool) (i rest : ℕ)
      → InStack m
      → KeysLeft sorted ps used i rest
      → Wrote (write_keys get_derived_pubkey crypto_hash160 sorted m ps used i rest)
  unfolding write_keys update_output_u8 update_output
  keys-Wrote sorted m ps used i zero h left_ = h
  keys-Wrote sorted m ps used i (suc rest) h left_ =
      elim (next_key-KeysLeft get_derived_pubkey valid false sorted ps used i rest left_) [
        | inl e ↦ rw (write_keys, e) tt
        | inr (k, used1, e, more) ↦
            rw (write_keys, e)
              (keys-Wrote sorted (update_output (update_output_u8 m 0x21) k) ps used1 (i + 1) rest h
                more)
      ]

  keys_a-Wrote :
      (sorted : Bool) (m : Machine) (ps : List KeyPlaceholder) (used : List Bool) (i rest : ℕ)
      → InStack m
      → KeysLeft sorted ps used i rest
      → Wrote (write_keys_a get_derived_pubkey crypto_hash160 sorted m ps used i rest)
  unfolding write_keys_a update_output_u8 update_output
  keys_a-Wrote sorted m ps used i zero h left_ = h
  keys_a-Wrote sorted m ps used i (suc rest) h left_ =
      elim (next_key-KeysLeft get_derived_pubkey valid true sorted ps used i rest left_) [
        | inl e ↦ rw (write_keys_a, e) tt
        | inr (k, used1, e, more) ↦
            rw (write_keys_a, e)
              (keys_a-Wrote sorted
                (update_output_u8 (update_output (update_output_u8 m 0x20) (drop 1 k))
                  (if i == 0 then op_checksig else op_checksigadd))
                ps used1 (i + 1) rest h more)
      ]

  pub multi-Bounded :
      (m : Machine) (sorted : Bool) (k : ℕ) (ps : List KeyPlaceholder)
      → InStack m
      → Bounded (write_multi get_derived_pubkey crypto_hash160 m sorted k ps)
  unfolding write_multi update_output_u8 update_output
  multi-Bounded m sorted k ps h =
      let start = update_output_u8 m ((0x50 + k) % 2 ^ 8) in
      let used = replicate (length ps) false in
      elim (Bool-cases (ltb 16 (length ps))) [
        | inl e ↦ rw (write_multi, e) tt
        | inr e ↦
            rw (write_multi, e)
              (finish-Bounded
                (write_keys get_derived_pubkey crypto_hash160 sorted start ps used 0 (length ps))
                ((0x50 + length ps) % 2 ^ 8) op_checkmultisig
                (keys-Wrote sorted start ps used 0 (length ps) h (all-KeysLeft sorted ps)))
      ]

  pub multi_a-Bounded :
      (m : Machine) (sorted : Bool) (k : ℕ) (ps : List KeyPlaceholder)
      → InStack m
      → (sorted && ltb 8 (length ps)) ≡ false
      → Bounded (write_multi_a get_derived_pubkey crypto_hash160 m sorted k ps)
  unfolding write_multi_a
  multi_a-Bounded m sorted k ps h cleared =
      let used = replicate (length ps) false in
      elim (Bool-cases (ltb 16 k)) [
        | inl e ↦ rw (write_multi_a, e) tt
        | inr e ↦
            rw (write_multi_a, e, cleared)
              (finish-Bounded
                (write_keys_a get_derived_pubkey crypto_hash160 sorted m ps used 0 (length ps))
                ((0x50 + k) % 2 ^ 8) op_numequal
                (keys_a-Wrote sorted m ps used 0 (length ps) h (all-KeysLeft sorted ps)))
      ]
