-- ===== src/Policy/Size/Length.antt =====
-- The size that `compute_miniscript_policy_ext_info` of common/wallet.c gives to a node, and the
-- length of its script.
use membrane_app_bitcoin_new.Policy.Multi.{length-map}
use membrane_app_bitcoin_new.Policy.Size.Sized.{AllSized, ends_with_op, Sized}
use membrane_app_bitcoin_new.Policy.Size.{children_size, compute_ext_info, ExtInfo}
use membrane_app_bitcoin_new.Policy.Translation.{
  added_scripts, first_script, one, has_verifying_form, ordered, multisig_script, verified,
  key_push, hash_script, script, sized_push, concat, minimal_push, pushed_keys,
}
use membrane_app_bitcoin_new.Common.{
  ◌%◌, some, length-append, ◌*◌, Bool, arith, le→leb, map, ◌+◌, ◌^◌, ◌≡◌, length, ◌<◌, ◌≤◌, ℕ, List,
  true, false, [], ◌∷◌, refl,
}
use membrane_app_bitcoin_new.Policy.{
  count, Scripts, Node, KeyPlaceholder, pk, pkh, multi, tok_0, tok_1, pk_k, pk_h, older, after,
  sha256, hash256, ripemd160, hash160, andor, and_v, and_b, and_n, or_b, or_c, or_d, or_i, thresh,
  tok_s, tok_c, tok_t, tok_d, tok_v, tok_j, tok_n, tok_l, tok_u, constant, with_key, with_uint32,
  with_hash_160, with_hash_256, with_script, with_script2, with_script3, with_scriptlist, multisig,
  end, next,
}
use membrane_app_bitcoin_new.Policy.Commands.{op_add, op_checkmultisig}
use membrane_app_bitcoin_new.Script.{get_push_script_size, op_equal}

total : List (List ℕ) → ℕ
total [] = 0
total (p ∷ ps) = length p + total ps

length-concat : (ps : List (List ℕ)) → length (concat ps) ≡ total ps
unfolding concat total
length-concat [] = refl
length-concat (p ∷ ps) = omega (arith, length-append p (concat ps), length-concat ps)

pub length-minimal_push : (n : ℕ) → n < 2 ^ 32 → length (minimal_push n) ≡ get_push_script_size n
unfolding minimal_push sized_push get_push_script_size
length-minimal_push n h = ground arith

length-pushed_keys :
    (key : KeyPlaceholder → List ℕ)
    → ((p : KeyPlaceholder) → length (key p) ≡ 33)
    → (ps : List KeyPlaceholder) → length (pushed_keys (map key ps)) ≡ 34 * length ps
unfolding pushed_keys
length-pushed_keys key h [] = refl
length-pushed_keys key h (p ∷ ps) =
    omega
      (arith, h p, length-append (key p) (pushed_keys (map key ps)), length-pushed_keys key h ps)

small_push : (n : ℕ) → n ≤ 16 → get_push_script_size n ≡ 1
unfolding get_push_script_size
small_push n h = rw (le→leb n 16 h) refl

module _ (key : KeyPlaceholder → List ℕ) (hash : List ℕ → List ℕ)
    (length_key : (p : KeyPlaceholder) → length (key p) ≡ 33)
    (length_hash : (bytes : List ℕ) → length (hash bytes) ≡ 20) where
  abbrev pub S : Bool → Node → List ℕ
  S v x = script key hash false v x

  mutual
    unfolding script concat hash_script total compute_ext_info Sized key_push verified
        multisig_script ordered has_verifying_form

    pub size_lem :
        (y : Node)
        → Sized y
        → (e : ExtInfo) × (compute_ext_info y ≡ some e)
          × (e.script_size ≡ length (S false y) % 2 ^ 16)
          × (ends_with_op y ≡ true → length (S true y) ≡ length (S false y) + e.x)
    size_lem (constant tok_0) sized =
        (record { script_size = 1 % 2 ^ 16; x = 1 }, refl, (omega arith), λ h1. (omega arith))
    size_lem (constant tok_1) sized =
        (record { script_size = 1 % 2 ^ 16; x = 1 }, refl, (omega arith), λ h1. (omega arith))
    size_lem (with_key pk_k p) sized = (
      record { script_size = 34 % 2 ^ 16; x = 1 },
      refl,
      simp length-append (omega (arith, length_key p, length_hash (key p))),
      λ h1. absurd (cc h1),
    )
    size_lem (with_key pk_h p) sized = (
      record { script_size = (3 + 21) % 2 ^ 16; x = 1 },
      refl,
      simp length-append (omega (arith, length_key p, length_hash (key p))),
      λ h1. absurd (cc h1),
    )
    size_lem (with_key pk p) sized = (
      record { script_size = (34 + 1) % 2 ^ 16; x = 0 },
      refl,
      simp length-append (omega (arith, length_key p, length_hash (key p))),
      λ h1. simp length-append (omega arith),
    )
    size_lem (with_key pkh p) sized = (
      record { script_size = (3 + 21 + 1) % 2 ^ 16; x = 0 },
      refl,
      simp length-append (omega (arith, length_key p, length_hash (key p))),
      λ h1. simp length-append (omega arith),
    )
    size_lem (with_uint32 older n) sized = (
      record { script_size = (1 + get_push_script_size n) % 2 ^ 16; x = 1 },
      refl,
      simp length-append (omega (arith, length-minimal_push n sized)),
      λ h1. simp length-append (omega arith),
    )
    size_lem (with_uint32 after n) sized = (
      record { script_size = (1 + get_push_script_size n) % 2 ^ 16; x = 1 },
      refl,
      simp length-append (omega (arith, length-minimal_push n sized)),
      λ h1. simp length-append (omega arith),
    )
    size_lem (with_hash_256 sha256 h) sized = (
      record { script_size = (4 + 2 + 33) % 2 ^ 16; x = 0 },
      refl,
      simp length-append (omega (arith, sized)),
      λ h1. simp length-append (omega arith),
    )
    size_lem (with_hash_256 hash256 h) sized = (
      record { script_size = (4 + 2 + 33) % 2 ^ 16; x = 0 },
      refl,
      simp length-append (omega (arith, sized)),
      λ h1. simp length-append (omega arith),
    )
    size_lem (with_hash_160 ripemd160 h) sized = (
      record { script_size = (4 + 2 + 21) % 2 ^ 16; x = 0 },
      refl,
      simp length-append (omega (arith, sized)),
      λ h1. simp length-append (omega arith),
    )
    size_lem (with_hash_160 hash160 h) sized = (
      record { script_size = (4 + 2 + 21) % 2 ^ 16; x = 0 },
      refl,
      simp length-append (omega (arith, sized)),
      λ h1. simp length-append (omega arith),
    )
    size_lem (with_script3 andor x y z) (hx, hy, hz) =
        let (a, ea, la, va) = size_lem x hx in
        let (b, eb, lb, vb) = size_lem y hy in
        let (c, ec, lc, vc) = size_lem z hz in
        (
          record {
            script_size = (3 + a.script_size + b.script_size + c.script_size) % 2 ^ 16;
            x = 1;
          },
          rw (ea, eb, ec) refl,
          simp length-append (omega (arith, la, lb, lc)),
          λ h1. simp length-append (omega arith),
        )
    size_lem (with_script2 and_v x y) (hx, hy) =
        let (a, ea, la, va) = size_lem x hx in
        let (b, eb, lb, vb) = size_lem y hy in
        (
          record { script_size = (a.script_size + b.script_size) % 2 ^ 16; x = b.x },
          rw (ea, eb) refl,
          simp length-append (omega (arith, la, lb)),
          λ h1. simp length-append (omega (arith, vb h1)),
        )
    size_lem (with_script2 and_b x y) (hx, hy) =
        let (a, ea, la, va) = size_lem x hx in
        let (b, eb, lb, vb) = size_lem y hy in
        (
          record { script_size = (1 + a.script_size + b.script_size) % 2 ^ 16; x = 1 },
          rw (ea, eb) refl,
          simp length-append (omega (arith, la, lb)),
          λ h1. simp length-append (omega arith),
        )
    size_lem (with_script2 and_n x y) (hx, hy) =
        let (a, ea, la, va) = size_lem x hx in
        let (b, eb, lb, vb) = size_lem y hy in
        (
          record { script_size = (4 + a.script_size + b.script_size) % 2 ^ 16; x = 1 },
          rw (ea, eb) refl,
          simp length-append (omega (arith, la, lb)),
          λ h1. simp length-append (omega arith),
        )
    size_lem (with_script2 or_b x z) (hx, hz) =
        let (a, ea, la, va) = size_lem x hx in
        let (b, eb, lb, vb) = size_lem z hz in
        (
          record { script_size = (1 + a.script_size + b.script_size) % 2 ^ 16; x = 1 },
          rw (ea, eb) refl,
          simp length-append (omega (arith, la, lb)),
          λ h1. simp length-append (omega arith),
        )
    size_lem (with_script2 or_c x z) (hx, hz) =
        let (a, ea, la, va) = size_lem x hx in
        let (b, eb, lb, vb) = size_lem z hz in
        (
          record { script_size = (2 + a.script_size + b.script_size) % 2 ^ 16; x = 1 },
          rw (ea, eb) refl,
          simp length-append (omega (arith, la, lb)),
          λ h1. simp length-append (omega arith),
        )
    size_lem (with_script2 or_d x z) (hx, hz) =
        let (a, ea, la, va) = size_lem x hx in
        let (b, eb, lb, vb) = size_lem z hz in
        (
          record { script_size = (3 + a.script_size + b.script_size) % 2 ^ 16; x = 1 },
          rw (ea, eb) refl,
          simp length-append (omega (arith, la, lb)),
          λ h1. simp length-append (omega arith),
        )
    size_lem (with_script2 or_i x z) (hx, hz) =
        let (a, ea, la, va) = size_lem x hx in
        let (b, eb, lb, vb) = size_lem z hz in
        (
          record { script_size = (3 + a.script_size + b.script_size) % 2 ^ 16; x = 1 },
          rw (ea, eb) refl,
          simp length-append (omega (arith, la, lb)),
          λ h1. simp length-append (omega arith),
        )
    size_lem (with_script tok_s x) sized =
        let (a, ea, la, va) = size_lem x sized in
        (
          record { script_size = (a.script_size + 1) % 2 ^ 16; x = a.x },
          rw ea refl,
          simp length-append (omega (arith, la)),
          λ h1. absurd (cc h1),
        )
    size_lem (with_script tok_c x) sized =
        let (a, ea, la, va) = size_lem x sized in
        (
          record { script_size = (a.script_size + 1) % 2 ^ 16; x = 0 },
          rw ea refl,
          simp length-append (omega (arith, la)),
          λ h1. simp length-append (omega arith),
        )
    size_lem (with_script tok_t x) sized =
        let (a, ea, la, va) = size_lem x sized in
        (
          record { script_size = (a.script_size + 1) % 2 ^ 16; x = 1 },
          rw ea refl,
          simp length-append (omega (arith, la)),
          λ h1. simp length-append (omega arith),
        )
    size_lem (with_script tok_d x) sized =
        let (a, ea, la, va) = size_lem x sized in
        (
          record { script_size = (a.script_size + 3) % 2 ^ 16; x = 1 },
          rw ea refl,
          simp length-append (omega (arith, la)),
          λ h1. simp length-append (omega arith),
        )
    size_lem (with_script tok_v x) (sized, last) =
        let (a, ea, la, va) = size_lem x sized in
        (
          record { script_size = (a.script_size + a.x) % 2 ^ 16; x = 1 },
          rw ea refl,
          simp length-append (omega (arith, la, va last)),
          λ h1. absurd (cc h1),
        )
    size_lem (with_script tok_j x) sized =
        let (a, ea, la, va) = size_lem x sized in
        (
          record { script_size = (a.script_size + 4) % 2 ^ 16; x = 1 },
          rw ea refl,
          simp length-append (omega (arith, la)),
          λ h1. simp length-append (omega arith),
        )
    size_lem (with_script tok_n x) sized =
        let (a, ea, la, va) = size_lem x sized in
        (
          record { script_size = (a.script_size + 1) % 2 ^ 16; x = 1 },
          rw ea refl,
          simp length-append (omega (arith, la)),
          λ h1. simp length-append (omega arith),
        )
    size_lem (with_script tok_l x) sized =
        let (a, ea, la, va) = size_lem x sized in
        (
          record { script_size = (a.script_size + 4) % 2 ^ 16; x = 1 },
          rw ea refl,
          simp length-append (omega (arith, la)),
          λ h1. simp length-append (omega arith),
        )
    size_lem (with_script tok_u x) sized =
        let (a, ea, la, va) = size_lem x sized in
        (
          record { script_size = (a.script_size + 4) % 2 ^ 16; x = 1 },
          rw ea refl,
          simp length-append (omega (arith, la)),
          λ h1. simp length-append (omega arith),
        )
    size_lem (multisig multi k ps) (small, few) =
        let keys = pushed_keys (map key ps) in
        let n = length-map key ps in
        let l = length-pushed_keys key length_key ps in
        let pk_size = small_push k small in
        let pn_size = small_push (length ps) few in
        let whole = length-concat (
          one (0x50 + k)
          ∷ keys
          ∷ one (0x50 + length (map key ps))
          ∷ verified false op_checkmultisig
          ∷ []) in
        let under_v = length-concat (
          one (0x50 + k)
          ∷ keys
          ∷ one (0x50 + length (map key ps))
          ∷ verified true op_checkmultisig
          ∷ []) in
        let lf : length (S false (multisig multi k ps)) ≡ 1 + (length keys + (1 + (1 + 0))) =
          whole in
        let lt : length (S true (multisig multi k ps)) ≡ 1 + (length keys + (1 + (1 + 0))) =
          under_v in
        (_, refl, omega (arith, lf, l, pk_size, pn_size), λ h1. omega (arith, lf, lt))
    size_lem (with_scriptlist thresh k (next x (next y xs))) (hx, hy, hs, small, few) =
        let (a, ea, la, va) = size_lem x hx in
        let (b, eb, lb, vb) = size_lem y hy in
        let (s, es, ls) = sizes xs hs in
        let push = length-minimal_push k small in
        let firsts = first_script key hash false (next x (next y xs)) in
        let more = added_scripts key hash false xs in
        let second = length-concat (S false y ∷ one op_add ∷ more ∷ []) in
        let lm : length (concat (S false y ∷ one op_add ∷ more ∷ []))
            ≡ length (S false y) + (1 + (length more + 0)) =
          second in
        let lx = length-append (S false x) (concat (S false y ∷ one op_add ∷ more ∷ [])) in
        let whole = length-concat (firsts ∷ minimal_push k ∷ verified false op_equal ∷ []) in
        let under_v = length-concat (firsts ∷ minimal_push k ∷ verified true op_equal ∷ []) in
        let lf : length (S false (with_scriptlist thresh k (next x (next y xs))))
            ≡ length firsts + (length (minimal_push k) + (1 + 0)) =
          whole in
        let lt : length (S true (with_scriptlist thresh k (next x (next y xs))))
            ≡ length firsts + (length (minimal_push k) + (1 + 0)) =
          under_v in
        (
          record {
            script_size =
                (a.script_size
                  + (b.script_size + s)
                  + count (next x (next y xs))
                  + get_push_script_size k)
                % 2 ^ 16;
            x = 0;
          },
          rw (ea, eb, es, few) refl,
          omega (arith, lf, la, lb, ls, push, lm, lx),
          λ h1. omega (arith, lf, lt),
        )
    size_lem y h = absurd h

    sizes :
        (xs : Scripts)
        → AllSized xs
        → (s : ℕ) × (children_size xs ≡ some s)
          × ((s + count xs) % 2 ^ 16 ≡ length (added_scripts key hash false xs) % 2 ^ 16)
    sizes end h = (0, refl, refl)
    sizes (next x xs) (hx, hs) =
        let (a, ea, la, va) = size_lem x hx in
        let (s, es, ls) = sizes xs hs in
        let more = added_scripts key hash false xs in
        let whole = length-concat (S false x ∷ one op_add ∷ more ∷ []) in
        let lf : length (added_scripts key hash false (next x xs))
            ≡ length (S false x) + (1 + (length more + 0)) =
          whole in
        (a.script_size + s, rw (ea, es) refl, omega (arith, lf, la, ls))
