-- ===== src/Policy/Reaches.antt =====
-- The runs of the machine of handler/lib/policy.c: what a machine reaches by passes of the loop, and
-- the writes of the processors as one write.
use membrane_app_bitcoin_new.Policy.Translation.{has_verifying_form, minimal_push}
use membrane_app_bitcoin_new.Common.{refl}
use membrane_app_bitcoin_new.Policy.Commands.{op_verify}
use membrane_app_bitcoin_new.Bytes.{byte_at, write_u32_le}
use membrane_app_bitcoin_new.Policy.Translation.{sized_push, verified}
use membrane_app_bitcoin_new.Policy.{ScriptKind, KeyPlaceholder}
use membrane_app_bitcoin_new.Policy.Machine.{
  pushed_bytes, has_verify, pass, Outcome, run, update_output_u8, Machine, update_output,
  update_output_op_v, update_output_push_u32, done, rejected, broken, running,
}
use membrane_app_bitcoin_new.Common.{
  ◌∙◌, ap, leb, ◌==◌, append_assoc, length-append, length, Bool-cases, arith, ◌++◌, ◌≡◌, List, ◌^◌,
  Option, ◌%◌, ◌+◌, [], ◌∷◌, inl, inr, ℕ, suc,
}

add_suc : (m n : ℕ) → m + suc n ≡ suc (m + n)
add_suc m n = omega arith

add_one : (m : ℕ) → m + 1 ≡ suc m
add_one m = omega arith

pub mod_add : (x y z : ℕ) → ((x + y) % 2 ^ 16 + z) % 2 ^ 16 ≡ (x + (y + z)) % 2 ^ 16
mod_add x y z = omega arith

pub update-update :
    (m : Machine) (p q : List ℕ) → update_output (update_output m p) q ≡ update_output m (p ++ q)
unfolding update_output
update-update m p q =
    rw (mod_add m.top.length (length p) (length q), length-append p q, append_assoc m.output p q)
      refl

pub op_v-update :
    (m : Machine) (o : ℕ) → update_output_op_v m o ≡ update_output m (verified m.top.verify o)
unfolding update_output_op_v verified update_output_u8 has_verify has_verifying_form
op_v-update m o = elim (Bool-cases m.top.verify) [
  | inr e ↦ rw e refl
  | inl e ↦ elim (Bool-cases (has_verify o)) [
    | inl f ↦ rw (e, f) refl
    | inr f ↦ simp (e, f) (update-update m (o ∷ []) (op_verify ∷ []))
  ]
]

sized : (m : Machine) (n : ℕ) → pushed_bytes m n ≡ update_output m (sized_push n)
unfolding pushed_bytes sized_push update_output_u8 write_u32_le
sized m n = elim (Bool-cases (leb n 0x7f)) [
  | inl e ↦ rw e (update-update m (1 ∷ []) _)
  | inr e ↦ elim (Bool-cases (leb n 0x7fff)) [
    | inl f ↦ rw (e, f) (update-update m (2 ∷ []) _)
    | inr f ↦ elim (Bool-cases (leb n 0x7fffff)) [
      | inl g ↦ rw (e, f, g) (update-update m (3 ∷ []) _)
      | inr g ↦ elim (Bool-cases (leb n 0x7fffffff)) [
        | inl h ↦ rw (e, f, g, h) (update-update m (4 ∷ []) _)
        | inr h ↦
            rw (e, f, g, h)
              (ap (λ m1. update_output m1 (0 ∷ [])) (update-update m (5 ∷ []) _)
                ∙ update-update m (5 ∷ byte_at n 0 ∷ byte_at n 8 ∷ byte_at n 16 ∷ byte_at n 24 ∷ [])
                    (0 ∷ []))
      ]
    ]
  ]
]

pub push_u32-update :
    (m : Machine) (n : ℕ) → update_output_push_u32 m n ≡ update_output m (minimal_push n)
unfolding update_output_push_u32 minimal_push update_output_u8 write_u32_le
push_u32-update m n = elim (Bool-cases (n == 0)) [
  | inl e ↦ rw e refl
  | inr e ↦ elim (Bool-cases (leb n 16)) [ inl f ↦ rw (e, f) refl | inr f ↦ rw (e, f) (sized m n) ]
]

module _ (get_derived_pubkey : KeyPlaceholder → Option (List ℕ)) (crypto_hash160 : List ℕ → List ℕ)
    (kind : ScriptKind) where
  -- One or more passes of the loop lead from a machine to an outcome.
  pub data Reaches (o : Outcome) : Machine → Type 0 where
    stop : {m : Machine} → pass get_derived_pubkey crypto_hash160 kind m ≡ o → Reaches o m
    onward :
        {m m1 : Machine}
        → pass get_derived_pubkey crypto_hash160 kind m ≡ running m1
        → Reaches o m1
        → Reaches o m

  pub Reaches-trans :
      {o : Outcome} {m1 : Machine} (m : Machine)
      → Reaches (running m1) m
      → Reaches o m1
      → Reaches o m
  Reaches-trans m (stop e) r = onward e r
  Reaches-trans m (onward {m1 = m2} e r) s = onward e (Reaches-trans m2 r s)

  abbrev pub settled : Outcome → ℕ → Outcome
  settled (running m) fuel = run get_derived_pubkey crypto_hash160 kind fuel m
  settled (done len bytes) fuel = done len bytes
  settled rejected fuel = rejected
  settled broken fuel = broken

  one_pass :
      (o : Outcome) (m : Machine) (fuel : ℕ)
      → pass get_derived_pubkey crypto_hash160 kind m ≡ o
      → run get_derived_pubkey crypto_hash160 kind (suc fuel) m ≡ settled o fuel
  unfolding run
  one_pass (running m1) m fuel e = rw (run, e) refl
  one_pass (done len bytes) m fuel e = rw (run, e) refl
  one_pass rejected m fuel e = rw (run, e) refl
  one_pass broken m fuel e = rw (run, e) refl

  -- The number of passes, and what more fuel than that does.
  pub run-Reaches :
      (o : Outcome) (m : Machine)
      → Reaches o m
      → (n : ℕ) × ((fuel : ℕ)
          → run get_derived_pubkey crypto_hash160 kind (fuel + n) m ≡ settled o fuel)
  run-Reaches o m (stop e) = (
    1,
    λ fuel.
        ap (λ k. run get_derived_pubkey crypto_hash160 kind k m) (add_one fuel)
        ∙ one_pass o m fuel e,
  )
  run-Reaches o m (onward {m1 = m1} e r) =
      let (n, h) = run-Reaches o m1 r in
      (
        suc n,
        λ fuel.
            ap (λ k. run get_derived_pubkey crypto_hash160 kind k m) (add_suc fuel n)
            ∙ one_pass (running m1) m (fuel + n) e
            ∙ h fuel,
      )
