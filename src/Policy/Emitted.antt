-- ===== src/Policy/Emitted.antt =====
-- The script that the machine of handler/lib/policy.c writes for a node that fits the stack, and the
-- result of `get_wallet_internal_script_hash`.
use membrane_app_bitcoin_new.Policy.Fits.{FitsStack, AllFit}
use membrane_app_bitcoin_new.Policy.Thresh.{AllTranslate, thresh-Translates}
use membrane_app_bitcoin_new.Policy.Commands.{
  op_0, op_csv, op_cltv, op_size, op_sha256, op_hash256, op_ripemd160, op_notif, op_else, op_endif,
  op_booland, op_boolor, op_ifdup, op_if, op_swap, op_0notequal,
}
use membrane_app_bitcoin_new.Policy.Single.{
  multi_a-Translates, multi-Translates, wpkh-Translates, pkh-Translates,
}
use membrane_app_bitcoin_new.Script.{
  op_equal, op_checksig, op_equalverify, op_hash160, op_dup, op_1,
}
use membrane_app_bitcoin_new.Policy.Chain.{
  child_vv-Writes, child_v-Writes, child-Writes, no_more, ◌>>◌, Chain-Translates,
}
use membrane_app_bitcoin_new.Policy.Generic.{
  hash20-Writes, hash32-Writes, uint32-Writes, pkh-Writes, op-Writes, pk-Writes, op_v-Writes,
  Translates,
}
use membrane_app_bitcoin_new.Policy.Translation.{ordered, hash_script, concat, script}
use membrane_app_bitcoin_new.Policy.Picked.{all_picked-sorted, all_picked, IsKey}
use membrane_app_bitcoin_new.Common.{
  le→ltb, replicate, arith, Bool, length, some, ◌≡◌, List, Option, ℕ, ◌∷◌, suc, true, false, refl,
}
use membrane_app_bitcoin_new.Policy.Machine.{Frame}
use membrane_app_bitcoin_new.Policy.{
  Scripts, Node, KeyPlaceholder, ScriptKind, pk, pkh, wpkh, multi, multi_a, sortedmulti,
  sortedmulti_a, tok_0, tok_1, pk_k, pk_h, older, after, sha256, hash256, ripemd160, hash160, andor,
  and_v, and_b, and_n, or_b, or_c, or_d, or_i, thresh, tok_s, tok_c, tok_t, tok_d, tok_v, tok_j,
  tok_n, tok_l, tok_u, constant, with_key, with_uint32, with_hash_160, with_hash_256, with_script,
  with_script2, with_script3, with_scriptlist, multisig, end, next,
}

module _ (get_derived_pubkey : KeyPlaceholder → Option (List ℕ)) (crypto_hash160 : List ℕ → List ℕ)
    (kind : ScriptKind) (key : KeyPlaceholder → List ℕ)
    (d : (p : KeyPlaceholder) → get_derived_pubkey p ≡ some (key p))
    (valid : (p : KeyPlaceholder) → IsKey (key p)) where
  mutual
    unfolding FitsStack script concat hash_script ordered

    pub emitted :
        (v : Bool) (x : Node) (below : List Frame)
        → FitsStack kind (length below) x
        → Translates get_derived_pubkey crypto_hash160 kind key x v below
    emitted v (constant tok_0) below w =
        Chain-Translates {key = key} (op_v-Writes op_0 >> no_more) w refl (omega arith) refl
    emitted v (constant tok_1) below w =
        Chain-Translates {key = key} (op_v-Writes op_1 >> no_more) w refl (omega arith) refl
    emitted v (with_key pk_k p) below w =
        Chain-Translates {key = key} (pk-Writes p refl (d p) >> no_more) w refl (omega arith) refl
    emitted v (with_key pk_h p) below w =
        Chain-Translates {key = key}
          (op-Writes op_dup
            >> op-Writes op_hash160
            >> pkh-Writes p refl (d p)
            >> op-Writes op_equalverify
            >> no_more)
          w refl (omega arith) refl
    emitted v (with_key pk p) below w =
        Chain-Translates {key = key} (pk-Writes p refl (d p) >> op_v-Writes op_checksig >> no_more)
          w refl (omega arith) refl
    emitted v (with_key pkh p) below w =
        pkh-Translates get_derived_pubkey crypto_hash160 kind key d p v below w
    emitted v (with_key wpkh p) below w =
        wpkh-Translates get_derived_pubkey crypto_hash160 kind key d p v below w
    emitted v (with_uint32 older n) below w =
        Chain-Translates {key = key} (uint32-Writes n refl >> op_v-Writes op_csv >> no_more) w refl
          (omega arith) refl
    emitted v (with_uint32 after n) below w =
        Chain-Translates {key = key} (uint32-Writes n refl >> op_v-Writes op_cltv >> no_more) w refl
          (omega arith) refl
    emitted v (with_hash_256 sha256 h) below w =
        Chain-Translates {key = key}
          (op-Writes op_size
            >> op-Writes 1
            >> op-Writes 32
            >> op-Writes op_equalverify
            >> op-Writes op_sha256
            >> hash32-Writes h refl
            >> op_v-Writes op_equal
            >> no_more)
          w refl (omega arith) refl
    emitted v (with_hash_256 hash256 h) below w =
        Chain-Translates {key = key}
          (op-Writes op_size
            >> op-Writes 1
            >> op-Writes 32
            >> op-Writes op_equalverify
            >> op-Writes op_hash256
            >> hash32-Writes h refl
            >> op_v-Writes op_equal
            >> no_more)
          w refl (omega arith) refl
    emitted v (with_hash_160 ripemd160 h) below w =
        Chain-Translates {key = key}
          (op-Writes op_size
            >> op-Writes 1
            >> op-Writes 32
            >> op-Writes op_equalverify
            >> op-Writes op_ripemd160
            >> hash20-Writes h refl
            >> op_v-Writes op_equal
            >> no_more)
          w refl (omega arith) refl
    emitted v (with_hash_160 hash160 h) below w =
        Chain-Translates {key = key}
          (op-Writes op_size
            >> op-Writes 1
            >> op-Writes 32
            >> op-Writes op_equalverify
            >> op-Writes op_hash160
            >> hash20-Writes h refl
            >> op_v-Writes op_equal
            >> no_more)
          w refl (omega arith) refl
    emitted v (with_script3 andor x y z) below (w, room, hx, hy, hz) =
        Chain-Translates {key = key}
          (child-Writes 0 x refl room (λ f. emitted false x (f ∷ below) hx)
            >> op-Writes op_notif
            >> child-Writes 2 z refl room (λ f. emitted false z (f ∷ below) hz)
            >> op-Writes op_else
            >> child-Writes 1 y refl room (λ f. emitted false y (f ∷ below) hy)
            >> op_v-Writes op_endif
            >> no_more)
          w refl (omega arith) refl
    emitted v (with_script2 and_v x y) below (w, room, hx, hy) =
        Chain-Translates {key = key}
          (child-Writes 0 x refl room (λ f. emitted false x (f ∷ below) hx)
            >> child_v-Writes 1 y refl room (λ f. emitted v y (f ∷ below) hy)
            >> no_more)
          w refl (omega arith) refl
    emitted v (with_script2 and_b x y) below (w, room, hx, hy) =
        Chain-Translates {key = key}
          (child-Writes 0 x refl room (λ f. emitted false x (f ∷ below) hx)
            >> child-Writes 1 y refl room (λ f. emitted false y (f ∷ below) hy)
            >> op_v-Writes op_booland
            >> no_more)
          w refl (omega arith) refl
    emitted v (with_script2 and_n x y) below (w, room, hx, hy) =
        Chain-Translates {key = key}
          (child-Writes 0 x refl room (λ f. emitted false x (f ∷ below) hx)
            >> op-Writes op_notif
            >> op-Writes op_0
            >> op-Writes op_else
            >> child-Writes 1 y refl room (λ f. emitted false y (f ∷ below) hy)
            >> op_v-Writes op_endif
            >> no_more)
          w refl (omega arith) refl
    emitted v (with_script2 or_b x z) below (w, room, hx, hz) =
        Chain-Translates {key = key}
          (child-Writes 0 x refl room (λ f. emitted false x (f ∷ below) hx)
            >> child-Writes 1 z refl room (λ f. emitted false z (f ∷ below) hz)
            >> op_v-Writes op_boolor
            >> no_more)
          w refl (omega arith) refl
    emitted v (with_script2 or_c x z) below (w, room, hx, hz) =
        Chain-Translates {key = key}
          (child-Writes 0 x refl room (λ f. emitted false x (f ∷ below) hx)
            >> op-Writes op_notif
            >> child-Writes 1 z refl room (λ f. emitted false z (f ∷ below) hz)
            >> op_v-Writes op_endif
            >> no_more)
          w refl (omega arith) refl
    emitted v (with_script2 or_d x z) below (w, room, hx, hz) =
        Chain-Translates {key = key}
          (child-Writes 0 x refl room (λ f. emitted false x (f ∷ below) hx)
            >> op-Writes op_ifdup
            >> op-Writes op_notif
            >> child-Writes 1 z refl room (λ f. emitted false z (f ∷ below) hz)
            >> op_v-Writes op_endif
            >> no_more)
          w refl (omega arith) refl
    emitted v (with_script2 or_i x z) below (w, room, hx, hz) =
        Chain-Translates {key = key}
          (op-Writes op_if
            >> child-Writes 0 x refl room (λ f. emitted false x (f ∷ below) hx)
            >> op-Writes op_else
            >> child-Writes 1 z refl room (λ f. emitted false z (f ∷ below) hz)
            >> op_v-Writes op_endif
            >> no_more)
          w refl (omega arith) refl
    emitted v (with_script tok_s x) below (w, room, hx) =
        Chain-Translates {key = key}
          (op-Writes op_swap
            >> child-Writes 0 x refl room (λ f. emitted false x (f ∷ below) hx)
            >> no_more)
          w refl (omega arith) refl
    emitted v (with_script tok_c x) below (w, room, hx) =
        Chain-Translates {key = key}
          (child-Writes 0 x refl room (λ f. emitted false x (f ∷ below) hx)
            >> op_v-Writes op_checksig
            >> no_more)
          w refl (omega arith) refl
    emitted v (with_script tok_t x) below (w, room, hx) =
        Chain-Translates {key = key}
          (child-Writes 0 x refl room (λ f. emitted false x (f ∷ below) hx)
            >> op_v-Writes op_1
            >> no_more)
          w refl (omega arith) refl
    emitted v (with_script tok_d x) below (w, room, hx) =
        Chain-Translates {key = key}
          (op-Writes op_dup
            >> op-Writes op_if
            >> child-Writes 0 x refl room (λ f. emitted false x (f ∷ below) hx)
            >> op_v-Writes op_endif
            >> no_more)
          w refl (omega arith) refl
    emitted v (with_script tok_v x) below (w, room, hx) =
        Chain-Translates {key = key}
          (child_vv-Writes 0 x refl room (λ f. emitted true x (f ∷ below) hx) >> no_more) w refl
          (omega arith) refl
    emitted v (with_script tok_j x) below (w, room, hx) =
        Chain-Translates {key = key}
          (op-Writes op_size
            >> op-Writes op_0notequal
            >> op-Writes op_if
            >> child-Writes 0 x refl room (λ f. emitted false x (f ∷ below) hx)
            >> op_v-Writes op_endif
            >> no_more)
          w refl (omega arith) refl
    emitted v (with_script tok_n x) below (w, room, hx) =
        Chain-Translates {key = key}
          (child-Writes 0 x refl room (λ f. emitted false x (f ∷ below) hx)
            >> op_v-Writes op_0notequal
            >> no_more)
          w refl (omega arith) refl
    emitted v (with_script tok_l x) below (w, room, hx) =
        Chain-Translates {key = key}
          (op-Writes op_if
            >> op-Writes op_0
            >> op-Writes op_else
            >> child-Writes 0 x refl room (λ f. emitted false x (f ∷ below) hx)
            >> op_v-Writes op_endif
            >> no_more)
          w refl (omega arith) refl
    emitted v (with_script tok_u x) below (w, room, hx) =
        Chain-Translates {key = key}
          (op-Writes op_if
            >> child-Writes 0 x refl room (λ f. emitted false x (f ∷ below) hx)
            >> op-Writes op_else
            >> op-Writes op_0
            >> op_v-Writes op_endif
            >> no_more)
          w refl (omega arith) refl
    emitted v (with_scriptlist thresh k (next x (next y xs))) below (w, room, few, hx, hy, hs) =
        thresh-Translates get_derived_pubkey crypto_hash160 kind key k (next x (next y xs)) v below
          w x y xs refl few room
          (
            (λ f. emitted false x (f ∷ below) hx),
            ((λ f. emitted false y (f ∷ below) hy), emitted_list xs below hs),
          )
    emitted v (multisig multi k ps) below (w, small, few) =
        multi-Translates get_derived_pubkey crypto_hash160 kind key multi false refl refl k ps v
          below w small few
          (all_picked get_derived_pubkey crypto_hash160 kind key d false ps
            (replicate (length ps) false))
          refl
    emitted v (multisig sortedmulti k ps) below (w, small, few) =
        multi-Translates get_derived_pubkey crypto_hash160 kind key sortedmulti true refl refl k ps
          v below w small few
          (all_picked-sorted get_derived_pubkey key d valid false crypto_hash160 kind ps) refl
    emitted v (multisig multi_a k ps) below (w, small) =
        multi_a-Translates get_derived_pubkey crypto_hash160 kind key multi_a false refl refl k ps v
          below w small refl
          (all_picked get_derived_pubkey crypto_hash160 kind key d true ps
            (replicate (length ps) false))
          refl
    emitted v (multisig sortedmulti_a k ps) below (w, small, few) =
        multi_a-Translates get_derived_pubkey crypto_hash160 kind key sortedmulti_a true refl refl k
          ps v below w small (le→ltb 8 (length ps) few)
          (all_picked-sorted get_derived_pubkey key d valid true crypto_hash160 kind ps) refl
    emitted v x below h = absurd h

    emitted_list :
        (xs : Scripts) (below : List Frame)
        → AllFit kind (suc (length below)) xs
        → AllTranslate get_derived_pubkey crypto_hash160 kind key xs below
    emitted_list end below h = tt
    emitted_list (next x xs) below (h, hs) =
        ((λ f. emitted false x (f ∷ below) h), emitted_list xs below hs)
