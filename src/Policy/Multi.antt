-- ===== src/Policy/Multi.antt =====
-- `process_multi_sortedmulti_node` and `process_multi_a_sortedmulti_a_node` of handler/lib/policy.c:
-- the keys in the order in which they are picked.
use membrane_app_bitcoin_new.Policy.Commands.{op_numequal, op_checkmultisig, op_checksigadd}
use membrane_app_bitcoin_new.Script.{op_checksig}
use membrane_app_bitcoin_new.Policy.Reaches.{op_v-update, update-update}
use membrane_app_bitcoin_new.Policy.Translation.{
  verified, checked_keys, one, concat, multisig_a_script, multisig_script, ordered, pushed_keys,
}
use membrane_app_bitcoin_new.Common.{
  sym, arith, drop, ◌^◌, ◌%◌, if◌then◌else◌, le→ltb, ltb, ◌&&◌, ap, append_assoc, ◌==◌, ◌∙◌,
  append-nil, map, ◌++◌, replicate, length, ◌+◌, ◌≤◌, ◌≡◌, Bool, List, Option, ℕ, [], ◌∷◌, zero,
  suc, true, false, refl,
}
use membrane_app_bitcoin_new.Policy.Machine.{
  finish_keys, write_multi_a, update_output_op_v, write_keys_a, write_multi, update_output, Machine,
  update_output_u8, write_keys, again, finished,
}
use membrane_app_bitcoin_new.Policy.Keys.{next_key, picked}
use membrane_app_bitcoin_new.Policy.{ScriptKind, KeyPlaceholder}

pub length-map {ℓ κ} :
    {A : Type ℓ} {B : Type κ} (f : A → B) (xs : List A) → length (map f xs) ≡ length xs
length-map f [] = refl
length-map f (x ∷ xs) = ap suc (length-map f xs)

positive : (i : ℕ) → ((i + 1) == 0) ≡ false
positive i = ground arith

fits_byte : (n : ℕ) → n ≤ 16 → (0x50 + n) % 2 ^ 8 ≡ 0x50 + n
fits_byte n h = omega arith

start_of :
    (n : ℕ)
    → n ≤ 16
    → (m : Machine) → update_output_u8 m ((0x50 + n) % 2 ^ 8) ≡ update_output m (one (0x50 + n))
unfolding update_output_u8
start_of n h m = rw (fits_byte n h) refl

one_key :
    (bytes size k rest : List ℕ) → ((bytes ++ size) ++ k) ++ rest ≡ bytes ++ (size ++ (k ++ rest))
one_key bytes size k rest =
    append_assoc (bytes ++ size) k rest ∙ append_assoc bytes size (k ++ rest)

module _ (get_derived_pubkey : KeyPlaceholder → Option (List ℕ)) (crypto_hash160 : List ℕ → List ℕ)
    (kind : ScriptKind) (key : KeyPlaceholder → List ℕ) where
  -- The keys that are picked in turn.
  abbrev pub Picks : Bool → Bool → List KeyPlaceholder → List Bool → ℕ → ℕ → List (List ℕ) → Type 0
  Picks x_only sorted ps used i zero keys = keys ≡ []
  Picks x_only sorted ps used i (suc rest) [] = ⊥
  Picks x_only sorted ps used i (suc rest) (k ∷ keys) =
      (used1 : List Bool) × (next_key get_derived_pubkey x_only sorted ps used i ≡ picked k used1)
      × Picks x_only sorted ps used1 (i + 1) rest keys

  pushed :
      (sorted : Bool) (ps : List KeyPlaceholder) (used : List Bool) (i rest : ℕ)
      (keys : List (List ℕ)) (m : Machine) (bytes : List ℕ)
      → Picks false sorted ps used i rest keys
      → write_keys get_derived_pubkey crypto_hash160 sorted (update_output m bytes) ps used i rest
        ≡ again (update_output m (bytes ++ pushed_keys keys))
  unfolding write_keys pushed_keys update_output_u8
  pushed sorted ps used i zero keys m bytes h = rw (h, append-nil bytes) refl
  pushed sorted ps used i (suc rest) [] m bytes h = absurd h
  pushed sorted ps used i (suc rest) (k ∷ keys) m bytes (used1, e, h) =
      rw (write_keys, e, update-update m bytes (0x21 ∷ []), update-update m (bytes ++ 0x21 ∷ []) k)
        (pushed sorted ps used1 (i + 1) rest keys m ((bytes ++ 0x21 ∷ []) ++ k) h
          ∙ ap (λ b. again (update_output m b)) (one_key bytes (0x21 ∷ []) k (pushed_keys keys)))

  checked :
      (sorted : Bool) (ps : List KeyPlaceholder) (used : List Bool) (i rest : ℕ)
      (keys : List (List ℕ)) (m : Machine) (bytes : List ℕ)
      → Picks true sorted ps used i rest keys
      → write_keys_a get_derived_pubkey crypto_hash160 sorted (update_output m bytes) ps used i rest
        ≡ again (
            update_output m
              (bytes ++ checked_keys (if i == 0 then op_checksig else op_checksigadd) keys))
  unfolding write_keys_a checked_keys update_output_u8
  checked sorted ps used i zero keys m bytes h = rw (h, append-nil bytes) refl
  checked sorted ps used i (suc rest) [] m bytes h = absurd h
  checked sorted ps used i (suc rest) (k ∷ keys) m bytes (used1, e, h) =
      let o = if i == 0 then op_checksig else op_checksigadd in
      let later : ((i + 1) == 0) ≡ false = positive i in
      let next_ =
        checked sorted ps used1 (i + 1) rest keys m (((bytes ++ 0x20 ∷ []) ++ drop 1 k) ++ o ∷ [])
          h in
      rw
        (
          write_keys_a,
          e,
          update-update m bytes (0x20 ∷ []),
          update-update m (bytes ++ 0x20 ∷ []) (drop 1 k),
          update-update m ((bytes ++ 0x20 ∷ []) ++ drop 1 k) (o ∷ []),
        )
        (next_
          ∙ rw later (
              ap (λ b. again (update_output m b))
                (append_assoc ((bytes ++ 0x20 ∷ []) ++ drop 1 k) (o ∷ [])
                    (checked_keys op_checksigadd keys)
                  ∙ one_key bytes (0x20 ∷ []) (drop 1 k) (o ∷ checked_keys op_checksigadd keys))))

  -- The last writes of a multisig node.
  closed :
      (m : Machine) (bytes : List ℕ) (byte o : ℕ)
      → update_output_op_v (update_output_u8 (update_output m bytes) byte) o
        ≡ update_output m (bytes ++ (one byte ++ verified m.top.verify o))
  unfolding update_output_u8 update_output
  closed m bytes byte o =
      op_v-update (update_output_u8 (update_output m bytes) byte) o
      ∙ ap (λ m1. update_output m1 (verified m.top.verify o)) (update-update m bytes (one byte))
      ∙ update-update m (bytes ++ one byte) (verified m.top.verify o)
      ∙ ap (λ b. update_output m b) (append_assoc bytes (one byte) (verified m.top.verify o))

  module _ (k : ℕ) (ps : List KeyPlaceholder) (small : k ≤ 16) where
    pub multi-written :
        (sorted : Bool) (m : Machine)
        → length ps ≤ 16
        → Picks false sorted ps
            (replicate (length ps) false)
            0
            (length ps)
            (ordered false sorted (map key ps))
        → write_multi get_derived_pubkey crypto_hash160 m sorted k ps
          ≡ finished (update_output m (multisig_script m.top.verify sorted k (map key ps)))
    unfolding write_multi finish_keys multisig_script concat
    multi-written sorted m few h =
        let keys = ordered false sorted (map key ps) in
        let limit : ltb 16 (length ps) ≡ false = le→ltb 16 (length ps) few in
        let start : update_output_u8 m ((0x50 + k) % 2 ^ 8) ≡ update_output m (one (0x50 + k)) =
          start_of k small m in
        let loop =
          ap
            (λ m1.
              write_keys get_derived_pubkey crypto_hash160 sorted m1 ps
                (replicate (length ps) false) 0 (length ps))
            start
          ∙ pushed sorted ps (replicate (length ps) false) 0 (length ps) keys m (one (0x50 + k))
              h in
        rw
          (
            limit,
            fits_byte (length ps) few,
            length-map key ps,
            append-nil (verified m.top.verify op_checkmultisig),
          )
          (ap (λ r. finish_keys r (0x50 + length ps) op_checkmultisig) loop
            ∙ ap finished (
                closed m (one (0x50 + k) ++ pushed_keys keys) (0x50 + length ps) op_checkmultisig
                ∙ ap (λ b. update_output m b)
                    (append_assoc (one (0x50 + k)) (pushed_keys keys)
                      (one (0x50 + length ps) ++ verified m.top.verify op_checkmultisig))))

    pub multi_a-written :
        (sorted : Bool) (m : Machine)
        → update_output m [] ≡ m
        → (sorted && ltb 8 (length ps)) ≡ false
        → Picks true sorted ps
            (replicate (length ps) false)
            0
            (length ps)
            (ordered true sorted (map key ps))
        → write_multi_a get_derived_pubkey crypto_hash160 m sorted k ps
          ≡ finished (update_output m (multisig_a_script m.top.verify sorted k (map key ps)))
    unfolding write_multi_a finish_keys multisig_a_script concat
    multi_a-written sorted m fresh cleared h =
        let keys = ordered true sorted (map key ps) in
        let limit : ltb 16 k ≡ false = le→ltb 16 k small in
        let loop =
          ap
            (λ m1.
              write_keys_a get_derived_pubkey crypto_hash160 sorted m1 ps
                (replicate (length ps) false) 0 (length ps))
            (sym fresh)
          ∙ checked sorted ps (replicate (length ps) false) 0 (length ps) keys m [] h in
        rw (limit, cleared, fits_byte k small, append-nil (verified m.top.verify op_numequal))
          (ap (λ r. finish_keys r (0x50 + k) op_numequal) loop
            ∙ ap finished (closed m (checked_keys op_checksig keys) (0x50 + k) op_numequal))
