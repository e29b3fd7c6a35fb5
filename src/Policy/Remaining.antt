-- ===== src/Policy/Remaining.antt =====
-- The keys that are left to be written for a multisig node of handler/lib/policy.c, where the
-- derivation of a key may fail.
use membrane_app_bitcoin_new.Policy.Sorted.{exceeds}
use membrane_app_bitcoin_new.Policy.Picked.{by_kind, largest, IsKey}
use membrane_app_bitcoin_new.Policy.{KeyPlaceholder}
use membrane_app_bitcoin_new.Common.{
  ◌∙◌, Bool-cases, length-set, Option-cases, ◌⊎◌, ap, set, Option, arith, ◌+◌, ◌<◌, ◌≡◌, ◌≤◌, Bool,
  List, replicate, ℕ, [], ◌∷◌, suc, zero, none, some, refl, length, true, false, inl, inr,
}
use membrane_app_bitcoin_new.Policy.Keys.{next_key, smallest, nth, picked, no_key}

abbrev free : List Bool → ℕ
free [] = 0
free (true ∷ used) = free used
free (false ∷ used) = suc (free used)

free-set : (used : List Bool) (j : ℕ) → free used ≤ suc (free (set used j true))
free-set [] j = omega arith
free-set (true ∷ used) zero = omega arith
free-set (false ∷ used) zero = omega arith
free-set (true ∷ used) (suc j) = free-set used j
free-set (false ∷ used) (suc j) = omega (arith, free-set used j)

free-replicate : (n : ℕ) → free (replicate n false) ≡ n
free-replicate zero = refl
free-replicate (suc n) = ap suc (free-replicate n)

length-replicate : (n : ℕ) → length (replicate n false) ≡ n
length-replicate zero = refl
length-replicate (suc n) = ap suc (length-replicate n)

key_at :
    (ps : List KeyPlaceholder) (i : ℕ) → i < length ps → (p : KeyPlaceholder) × (nth ps i ≡ some p)
key_at [] i h = absurd (omega arith)
key_at (p ∷ ps) zero h = (p, refl)
key_at (p ∷ ps) (suc i) h = key_at ps i (omega arith)

-- There is a key for each of the rounds that are left.
abbrev pub KeysLeft : Bool → List KeyPlaceholder → List Bool → ℕ → ℕ → Type 0
KeysLeft false ps used i rest = i + rest ≡ length ps
KeysLeft true ps used i rest = (length used ≡ length ps) × (rest ≤ free used)

pub all-KeysLeft :
    (sorted : Bool) (ps : List KeyPlaceholder)
    → KeysLeft sorted ps (replicate (length ps) false) 0 (length ps)
all-KeysLeft false ps = omega arith
all-KeysLeft true ps = (length-replicate (length ps), omega (arith, free-replicate (length ps)))

module _ (get_derived_pubkey : KeyPlaceholder → Option (List ℕ))
    (valid : (p : KeyPlaceholder) (k : List ℕ) → get_derived_pubkey p ≡ some k → IsKey k)
    (x_only : Bool) where
  Found : Option (List ℕ × Option ℕ) → Type 0
  Found r = (r ≡ none) ⊎ ((k : List ℕ) × (j : ℕ) × (r ≡ some (k, some j)))

  -- A search that has found a key has one at its end, if no derivation fails.
  smallest_keeps :
      (ps : List KeyPlaceholder) (used : List Bool) (j : ℕ) (best : List ℕ) (at_index : ℕ)
      → Found (smallest get_derived_pubkey x_only ps used j best (some at_index))
  unfolding smallest Found
  smallest_keeps [] used j best at_index = inr (best, at_index, refl)
  smallest_keeps (p ∷ ps) [] j best at_index = inl refl
  smallest_keeps (p ∷ ps) (true ∷ used) j best at_index =
      smallest_keeps ps used (suc j) best at_index
  smallest_keeps (p ∷ ps) (false ∷ used) j best at_index =
      elim (Option-cases (get_derived_pubkey p)) [
        | inl e ↦ inl (rw (smallest, e) refl)
        | inr (k, e) ↦ elim (Bool-cases (exceeds x_only best k)) [
          | inl g ↦ rw (smallest, e, g) (smallest_keeps ps used (suc j) k j)
          | inr g ↦ rw (smallest, e, g) (smallest_keeps ps used (suc j) best at_index)
        ]
      ]

  smallest_starts :
      (ps : List KeyPlaceholder) (used : List Bool) (j : ℕ)
      → length used ≡ length ps
      → 1 ≤ free used
      → Found (smallest get_derived_pubkey x_only ps used j largest none)
  unfolding smallest Found
  smallest_starts ps [] j e h = absurd (omega arith)
  smallest_starts [] (u ∷ used) j e h = absurd (omega (arith, e))
  smallest_starts (p ∷ ps) (true ∷ used) j e h =
      smallest_starts ps used (suc j) (omega (arith, e)) h
  smallest_starts (p ∷ ps) (false ∷ used) j e h = elim (Option-cases (get_derived_pubkey p)) [
    | inl f ↦ inl (rw (smallest, f) refl)
    | inr (k, f) ↦
        let (sized, first, second) = valid p k f in
        let g : exceeds x_only largest k ≡ true = by_kind x_only k first second in
        rw (smallest, f, g) (smallest_keeps ps used (suc j) k j)
  ]

  pub next_key-KeysLeft :
      (sorted : Bool) (ps : List KeyPlaceholder) (used : List Bool) (i rest : ℕ)
      → KeysLeft sorted ps used i (suc rest)
      → (next_key get_derived_pubkey x_only sorted ps used i ≡ no_key)
        ⊎ ((k : List ℕ) × (used1 : List Bool) × (next_key get_derived_pubkey x_only sorted ps used i
              ≡ picked k used1)
            × KeysLeft sorted ps used1 (i + 1) rest)
  unfolding next_key Found
  next_key-KeysLeft false ps used i rest h =
      let (p, e) = key_at ps i (omega (arith, h)) in
      elim (Option-cases (get_derived_pubkey p)) [
        | inl f ↦ inl (rw (next_key, e, f) refl)
        | inr (k, f) ↦ inr (k, used, rw (next_key, e, f) refl, omega (arith, h))
      ]
  next_key-KeysLeft true ps used i rest (e, h) =
      elim (smallest_starts ps used 0 e (omega (arith, h))) [
        | inl f ↦ inl (rw (next_key, f) refl)
        | inr (k, j, f) ↦ inr (
          k,
          set used j true,
          rw (next_key, f) refl,
          (length-set used j true ∙ e, omega (arith, h, free-set used j)),
        )
      ]
