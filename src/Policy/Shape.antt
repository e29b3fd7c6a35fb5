-- ===== src/Policy/Shape.antt =====
-- The syntax trees on which `get_wallet_internal_script_hash` of handler/lib/policy.c may be called:
-- their heights and the structures on which their tokens stand.
use membrane_app_bitcoin_new.Policy.Machine.{is_sorted}
use membrane_app_bitcoin_new.Common.{
  false, ltb, ◌&&◌, List, arith, ◌≡◌, All, le→ltb, ◌≤◌, Option, ◌<◌, ℕ, suc, zero, none, some, refl,
  length,
}
use membrane_app_bitcoin_new.Policy.Commands.{
  Processor, NodeCommand, processor, generic, pkh_wpkh, thresh_node, multi_sortedmulti,
  multi_a_sortedmulti_a, op, op_v, push_pk, push_pkh, push_uint32, push_hash20, push_hash32,
  process_child, process_child_v, process_child_vv,
}
use membrane_app_bitcoin_new.Policy.{
  child, hash_32, hash_20, keys_of, number, scriptlist, key_placeholder, nth_script, KeyPlaceholder,
  count, token, Node, Scripts, pk, pkh, wpkh, multi, multi_a, sortedmulti, sortedmulti_a, tok_0,
  tok_1, pk_k, pk_h, older, after, sha256, hash256, ripemd160, hash160, andor, and_v, and_b, and_n,
  or_b, or_c, or_d, or_i, thresh, tok_a, tok_s, tok_c, tok_t, tok_d, tok_v, tok_j, tok_n, tok_l,
  tok_u, constant, with_key, with_uint32, with_hash_160, with_hash_256, with_script, with_script2,
  with_script3, with_scriptlist, multisig, end, next,
}

-- A node below `depth` others: each token stands on its structure, the height fits a stack of
-- MAX_POLICY_DEPTH nodes, and the bits that sortedmulti_a uses are those that are cleared.
unfoldable mutual
  pub Shaped : ℕ → Node → Type 0
  Shaped depth (constant tok_0) = Unit
  Shaped depth (constant tok_1) = Unit
  Shaped depth (with_key pk_k p) = Unit
  Shaped depth (with_key pk_h p) = Unit
  Shaped depth (with_key pk p) = Unit
  Shaped depth (with_key pkh p) = Unit
  Shaped depth (with_key wpkh p) = Unit
  Shaped depth (with_uint32 older n) = Unit
  Shaped depth (with_uint32 after n) = Unit
  Shaped depth (with_hash_256 sha256 h) = Unit
  Shaped depth (with_hash_256 hash256 h) = Unit
  Shaped depth (with_hash_160 ripemd160 h) = Unit
  Shaped depth (with_hash_160 hash160 h) = Unit
  Shaped depth (with_script3 andor x y z) =
      (depth < 9) × Shaped (suc depth) x × Shaped (suc depth) y × Shaped (suc depth) z
  Shaped depth (with_script2 and_v x y) = (depth < 9) × Shaped (suc depth) x × Shaped (suc depth) y
  Shaped depth (with_script2 and_b x y) = (depth < 9) × Shaped (suc depth) x × Shaped (suc depth) y
  Shaped depth (with_script2 and_n x y) = (depth < 9) × Shaped (suc depth) x × Shaped (suc depth) y
  Shaped depth (with_script2 or_b x z) = (depth < 9) × Shaped (suc depth) x × Shaped (suc depth) z
  Shaped depth (with_script2 or_c x z) = (depth < 9) × Shaped (suc depth) x × Shaped (suc depth) z
  Shaped depth (with_script2 or_d x z) = (depth < 9) × Shaped (suc depth) x × Shaped (suc depth) z
  Shaped depth (with_script2 or_i x z) = (depth < 9) × Shaped (suc depth) x × Shaped (suc depth) z
  Shaped depth (with_script tok_a x) = (depth < 9) × Shaped (suc depth) x
  Shaped depth (with_script tok_s x) = (depth < 9) × Shaped (suc depth) x
  Shaped depth (with_script tok_c x) = (depth < 9) × Shaped (suc depth) x
  Shaped depth (with_script tok_t x) = (depth < 9) × Shaped (suc depth) x
  Shaped depth (with_script tok_d x) = (depth < 9) × Shaped (suc depth) x
  Shaped depth (with_script tok_v x) = (depth < 9) × Shaped (suc depth) x
  Shaped depth (with_script tok_j x) = (depth < 9) × Shaped (suc depth) x
  Shaped depth (with_script tok_n x) = (depth < 9) × Shaped (suc depth) x
  Shaped depth (with_script tok_l x) = (depth < 9) × Shaped (suc depth) x
  Shaped depth (with_script tok_u x) = (depth < 9) × Shaped (suc depth) x
  Shaped depth (with_scriptlist thresh k xs) = (depth < 9) × AllShaped (suc depth) xs
  Shaped depth (multisig multi k ps) = Unit
  Shaped depth (multisig sortedmulti k ps) = Unit
  Shaped depth (multisig multi_a k ps) = Unit
  Shaped depth (multisig sortedmulti_a k ps) = length ps ≤ 8
  Shaped depth _ = ⊥

  pub AllShaped : ℕ → Scripts → Type 0
  AllShaped depth end = Unit
  AllShaped depth (next x xs) = Shaped depth x × AllShaped depth xs

-- What a command reads from its node.
abbrev pub Served : ℕ → Node → NodeCommand → Type 0
Served depth x (op o) = Unit
Served depth x (op_v o) = Unit
Served depth x push_pk = (p : KeyPlaceholder) × (key_placeholder x ≡ some p)
Served depth x push_pkh = (p : KeyPlaceholder) × (key_placeholder x ≡ some p)
Served depth x push_uint32 = (n : ℕ) × (number x ≡ some n)
Served depth x push_hash20 = (h : List ℕ) × (hash_20 x ≡ some h)
Served depth x push_hash32 = (h : List ℕ) × (hash_32 x ≡ some h)
Served depth x (process_child i) =
    (y : Node) × (child x i ≡ some y) × (depth < 9) × Shaped (suc depth) y
Served depth x (process_child_v i) =
    (y : Node) × (child x i ≡ some y) × (depth < 9) × Shaped (suc depth) y
Served depth x (process_child_vv i) =
    (y : Node) × (child x i ≡ some y) × (depth < 9) × Shaped (suc depth) y

-- What a processor reads from its node.
abbrev pub Prepared : ℕ → Node → Option Processor → Type 0
Prepared depth x none = Unit
Prepared depth x (some (generic commands)) = All (Served depth x) commands
Prepared depth x (some pkh_wpkh) = (p : KeyPlaceholder) × (key_placeholder x ≡ some p)
Prepared depth x (some thresh_node) =
    (k : ℕ) × (xs : Scripts) × (scriptlist x ≡ some (k, xs))
    × (depth < 9)
    × AllShaped (suc depth) xs
Prepared depth x (some multi_sortedmulti) =
    (k : ℕ) × (ps : List KeyPlaceholder) × (keys_of x ≡ some (k, ps))
Prepared depth x (some multi_a_sortedmulti_a) =
    (k : ℕ) × (ps : List KeyPlaceholder) × (keys_of x ≡ some (k, ps))
    × ((is_sorted (token x) && ltb 8 (length ps)) ≡ false)

pub ready : (depth : ℕ) (x : Node) → Shaped depth x → Prepared depth x (processor (token x))
unfolding Shaped
ready depth (constant tok_0) shaped = (tt, tt)
ready depth (constant tok_1) shaped = (tt, tt)
ready depth (with_key pk_k p) shaped = ((p, refl), tt)
ready depth (with_key pk_h p) shaped = (tt, (tt, ((p, refl), (tt, tt))))
ready depth (with_key pk p) shaped = ((p, refl), (tt, tt))
ready depth (with_key pkh p) shaped = (p, refl)
ready depth (with_key wpkh p) shaped = (p, refl)
ready depth (with_uint32 older n) shaped = ((n, refl), (tt, tt))
ready depth (with_uint32 after n) shaped = ((n, refl), (tt, tt))
ready depth (with_hash_256 sha256 h) shaped = (tt, (tt, (tt, (tt, (tt, ((h, refl), (tt, tt)))))))
ready depth (with_hash_256 hash256 h) shaped = (tt, (tt, (tt, (tt, (tt, ((h, refl), (tt, tt)))))))
ready depth (with_hash_160 ripemd160 h) shaped = (tt, (tt, (tt, (tt, (tt, ((h, refl), (tt, tt)))))))
ready depth (with_hash_160 hash160 h) shaped = (tt, (tt, (tt, (tt, (tt, ((h, refl), (tt, tt)))))))
ready depth (with_script3 andor x y z) (room, hx, hy, hz) =
    ((x, refl, room, hx), (tt, ((z, refl, room, hz), (tt, ((y, refl, room, hy), (tt, tt))))))
ready depth (with_script2 and_v x y) (room, hx, hy) =
    ((x, refl, room, hx), ((y, refl, room, hy), tt))
ready depth (with_script2 and_b x y) (room, hx, hy) =
    ((x, refl, room, hx), ((y, refl, room, hy), (tt, tt)))
ready depth (with_script2 and_n x y) (room, hx, hy) =
    ((x, refl, room, hx), (tt, (tt, (tt, ((y, refl, room, hy), (tt, tt))))))
ready depth (with_script2 or_b x z) (room, hx, hz) =
    ((x, refl, room, hx), ((z, refl, room, hz), (tt, tt)))
ready depth (with_script2 or_c x z) (room, hx, hz) =
    ((x, refl, room, hx), (tt, ((z, refl, room, hz), (tt, tt))))
ready depth (with_script2 or_d x z) (room, hx, hz) =
    ((x, refl, room, hx), (tt, (tt, ((z, refl, room, hz), (tt, tt)))))
ready depth (with_script2 or_i x z) (room, hx, hz) =
    (tt, ((x, refl, room, hx), (tt, ((z, refl, room, hz), (tt, tt)))))
ready depth (with_script tok_a x) (room, hx) = (tt, ((x, refl, room, hx), tt))
ready depth (with_script tok_s x) (room, hx) = (tt, ((x, refl, room, hx), tt))
ready depth (with_script tok_c x) (room, hx) = ((x, refl, room, hx), (tt, tt))
ready depth (with_script tok_t x) (room, hx) = ((x, refl, room, hx), (tt, tt))
ready depth (with_script tok_d x) (room, hx) = (tt, (tt, ((x, refl, room, hx), (tt, tt))))
ready depth (with_script tok_v x) (room, hx) = ((x, refl, room, hx), tt)
ready depth (with_script tok_j x) (room, hx) = (tt, (tt, (tt, ((x, refl, room, hx), (tt, tt)))))
ready depth (with_script tok_n x) (room, hx) = ((x, refl, room, hx), (tt, tt))
ready depth (with_script tok_l x) (room, hx) = (tt, (tt, (tt, ((x, refl, room, hx), (tt, tt)))))
ready depth (with_script tok_u x) (room, hx) = (tt, ((x, refl, room, hx), (tt, (tt, (tt, tt)))))
ready depth (with_scriptlist thresh k xs) (room, hs) = (k, xs, refl, room, hs)
ready depth (multisig multi k ps) shaped = (k, ps, refl)
ready depth (multisig sortedmulti k ps) shaped = (k, ps, refl)
ready depth (multisig multi_a k ps) shaped = (k, ps, refl, refl)
ready depth (multisig sortedmulti_a k ps) few = (k, ps, refl, le→ltb 8 (length ps) few)
ready depth x h = absurd h

pub nth_script-Shaped :
    (depth : ℕ) (xs : Scripts) (i : ℕ)
    → AllShaped depth xs
    → i < count xs
    → (y : Node) × (nth_script xs i ≡ some y) × Shaped depth y
unfolding Shaped
nth_script-Shaped depth end i h less = absurd (omega arith)
nth_script-Shaped depth (next x xs) zero (h, hs) less = (x, refl, h)
nth_script-Shaped depth (next x xs) (suc i) (h, hs) less =
    nth_script-Shaped depth xs i hs (omega arith)
