-- ===== src/Policy/Single.antt =====
-- The nodes that handler/lib/policy.c writes in one pass: `process_pkh_wpkh_node` and the multisig
-- processors.
use membrane_app_bitcoin_new.Policy.Multi.{multi-written, multi_a-written, Picks}
use membrane_app_bitcoin_new.Policy.Reaches.{op_v-update, stop, update-update}
use membrane_app_bitcoin_new.Policy.Chain.{zero_add}
use membrane_app_bitcoin_new.Script.{op_equalverify, op_hash160, op_dup, op_checksig}
use membrane_app_bitcoin_new.Policy.Generic.{resumed, pop-resumed, at_, Translates}
use membrane_app_bitcoin_new.Policy.Translation.{
  multisig_a_script, multisig_script, ordered, one, verified, concat, script,
}
use membrane_app_bitcoin_new.Policy.Commands.{
  multi_a_sortedmulti_a, multi_sortedmulti, op_0, pkh_wpkh, processor, Processor,
}
use membrane_app_bitcoin_new.Common.{
  map, ltb, replicate, ◌&&◌, ◌≤◌, append_assoc, ◌∙◌, ◌^◌, ◌%◌, length, ap, ◌+◌, append-nil, Bool,
  some, ◌≡◌, List, Option, ℕ, [], ◌∷◌, true, false, refl, ◌++◌,
}
use membrane_app_bitcoin_new.Policy.Machine.{
  is_sorted, process_multi_a_sortedmulti_a_node, process_multi_sortedmulti_node, Machine,
  is_tapscript, Frame, update_output_u8, write_pkh_wpkh, process_pkh_wpkh_node, process,
  update_output, execute_processor, pass, finished,
}
use membrane_app_bitcoin_new.Policy.{
  Token, token, is_whitelisted, Node, ScriptKind, KeyPlaceholder, pkh, wpkh, multisig, with_key,
}

-- Writes one after the other.
abbrev in_turn : Machine → List (List ℕ) → Machine
in_turn m [] = m
in_turn m (piece ∷ pieces) = in_turn (update_output m piece) pieces

one_write_of :
    (m : Machine) (piece : List ℕ) (pieces : List (List ℕ))
    → in_turn (update_output m piece) pieces ≡ update_output m (concat (piece ∷ pieces))
unfolding concat
one_write_of m piece [] = rw (append-nil piece) refl
one_write_of m piece (q ∷ pieces) =
    ap (λ m1. in_turn m1 pieces) (update-update m piece q)
    ∙ one_write_of m (piece ++ q) pieces
    ∙ ap (λ b. update_output m b) (append_assoc piece q (concat pieces))

pkh_turns :
    (m : Machine) (last hash : List ℕ)
    → in_turn
        (update_output m (one op_dup))
        (one op_hash160 ∷ one 20 ∷ hash ∷ one op_equalverify ∷ last ∷ [])
      ≡ update_output m
          (concat (one op_dup ∷ one op_hash160 ∷ (20 ∷ hash) ∷ one op_equalverify ∷ last ∷ []))
unfolding concat
pkh_turns m last hash =
    one_write_of m (one op_dup) (one op_hash160 ∷ one 20 ∷ hash ∷ one op_equalverify ∷ last ∷ [])

module _ (get_derived_pubkey : KeyPlaceholder → Option (List ℕ)) (crypto_hash160 : List ℕ → List ℕ)
    (kind : ScriptKind) (key : KeyPlaceholder → List ℕ) where
  -- A node that its processor writes and finishes in the first pass.
  one_pass-Translates :
      (x : Node) (v : Bool) (below : List Frame) (p : Processor)
      → is_whitelisted kind (token x) ≡ true
      → processor (token x) ≡ some p
      → ((out : List ℕ)
          → process get_derived_pubkey crypto_hash160 (is_tapscript kind) (at_ x 0 0 v below out) p
            ≡ finished (
                update_output
                  (at_ x 0 0 v below out)
                  (script key crypto_hash160 (is_tapscript kind) v x)))
      → Translates get_derived_pubkey crypto_hash160 kind key x v below
  unfolding pass execute_processor update_output
  one_pass-Translates x v below p w e h out =
      let bytes = script key crypto_hash160 (is_tapscript kind) v x in
      let popped = pop-resumed x ((0 + length bytes) % 2 ^ 16) 0 v below (out ++ bytes) in
      let whole =
        ap execute_processor (h out)
        ∙ popped
        ∙ ap (λ l. resumed below (l % 2 ^ 16) (out ++ bytes)) (zero_add (length bytes)) in
      stop (rw (w, e) whole)

  module _ (d : (p : KeyPlaceholder) → get_derived_pubkey p ≡ some (key p)) where
    pkh_written :
        (m : Machine) (p : KeyPlaceholder)
        → write_pkh_wpkh get_derived_pubkey crypto_hash160 m pkh (some p)
          ≡ finished (
              update_output m (
                concat (
                  one op_dup
                  ∷ one op_hash160
                  ∷ (20 ∷ crypto_hash160 (key p))
                  ∷ one op_equalverify
                  ∷ verified m.top.verify op_checksig
                  ∷ [])))
    unfolding write_pkh_wpkh update_output_u8 update_output
    pkh_written m p =
        let hash = crypto_hash160 (key p) in
        let pieces = one op_hash160 ∷ one 20 ∷ hash ∷ one op_equalverify ∷ [] in
        let m1 = in_turn (update_output m (one op_dup)) pieces in
        rw (write_pkh_wpkh, d p)
          (ap finished
            (op_v-update m1 op_checksig ∙ pkh_turns m (verified m.top.verify op_checksig) hash))

    pub pkh-Translates :
        (p : KeyPlaceholder) (v : Bool) (below : List Frame)
        → is_whitelisted kind pkh ≡ true
        → Translates get_derived_pubkey crypto_hash160 kind key (with_key pkh p) v below
    unfolding process process_pkh_wpkh_node script
    pkh-Translates p v below w =
        one_pass-Translates (with_key pkh p) v below pkh_wpkh w refl
          (λ out. pkh_written (at_ (with_key pkh p) 0 0 v below out) p)

    pub wpkh-Translates :
        (p : KeyPlaceholder) (v : Bool) (below : List Frame)
        → is_whitelisted kind wpkh ≡ true
        → Translates get_derived_pubkey crypto_hash160 kind key (with_key wpkh p) v below
    unfolding process process_pkh_wpkh_node write_pkh_wpkh update_output_u8 script concat
    wpkh-Translates p v below w =
        one_pass-Translates (with_key wpkh p) v below pkh_wpkh w refl (λ out. rw (d p) (
          ap finished (
            one_write_of (at_ (with_key wpkh p) 0 0 v below out) (one op_0)
              (one 20 ∷ crypto_hash160 (key p) ∷ []))))

  pub multi-Translates :
      (o : Token) (sorted : Bool)
      → processor o ≡ some multi_sortedmulti
      → is_sorted o ≡ sorted
      → (k : ℕ) (ps : List KeyPlaceholder) (v : Bool) (below : List Frame)
      → is_whitelisted kind o ≡ true
      → k ≤ 16
      → length ps ≤ 16
      → Picks get_derived_pubkey crypto_hash160 kind key false sorted ps
          (replicate (length ps) false)
          0
          (length ps)
          (ordered false sorted (map key ps))
      → script key crypto_hash160 (is_tapscript kind) v (multisig o k ps)
        ≡ multisig_script v sorted k (map key ps)
      → Translates get_derived_pubkey crypto_hash160 kind key (multisig o k ps) v below
  unfolding process process_multi_sortedmulti_node
  multi-Translates o sorted e1 e2 k ps v below w small few h same =
      one_pass-Translates (multisig o k ps) v below multi_sortedmulti w e1 (λ out.
        let m = at_ (multisig o k ps) 0 0 v below out in
        rw (same, e2)
          (multi-written get_derived_pubkey crypto_hash160 kind key k ps small sorted m few h))

  pub multi_a-Translates :
      (o : Token) (sorted : Bool)
      → processor o ≡ some multi_a_sortedmulti_a
      → is_sorted o ≡ sorted
      → (k : ℕ) (ps : List KeyPlaceholder) (v : Bool) (below : List Frame)
      → is_whitelisted kind o ≡ true
      → k ≤ 16
      → (sorted && ltb 8 (length ps)) ≡ false
      → Picks get_derived_pubkey crypto_hash160 kind key true sorted ps
          (replicate (length ps) false)
          0
          (length ps)
          (ordered true sorted (map key ps))
      → script key crypto_hash160 (is_tapscript kind) v (multisig o k ps)
        ≡ multisig_a_script v sorted k (map key ps)
      → Translates get_derived_pubkey crypto_hash160 kind key (multisig o k ps) v below
  unfolding process process_multi_a_sortedmulti_a_node update_output
  multi_a-Translates o sorted e1 e2 k ps v below w small few h same =
      one_pass-Translates (multisig o k ps) v below multi_a_sortedmulti_a w e1 (λ out.
        let m = at_ (multisig o k ps) 0 0 v below out in
        rw (same, e2)
          (multi_a-written get_derived_pubkey crypto_hash160 kind key k ps small sorted m
            (rw (append-nil out) refl) few h))
