-- ===== src/Merkle/Lg.antt =====
-- `ceil_lg` of common/merkle.h: what it computes, and where it does not return.
use membrane_app_bitcoin_new.Common.{
  ◌∙◌, lt→ltb, zero, ◌%◌, ap, ltb→lt, none, refl, ◌*◌, inl, inr, ltb, Bool-cases, some, arith, ◌-◌,
  suc, ◌<◌, ◌⊎◌, ◌^◌, ◌≡◌, ◌+◌, ◌≤◌, ℕ,
}
use mathlib.Core.Path.{subst}
use native.Mathlib.Decide.{dec_lt}
use native.Mathlib.Nat.{le_of_eq, pow-suc}
use membrane_app_bitcoin_new.Merkle.{ceil_lg_loop, ceil_lg}

-- The least `k` with `n ≤ 2 ^ k`.
pub record IsCeilLg (n k : ℕ) : Type 0 where
  pub enough : n ≤ 2 ^ k
  pub least : (k ≡ 0) ⊎ (2 ^ (k - 1) < n)
  pub small : k ≤ 31

pow_le_31 : (k r : ℕ) → r + k ≡ 31 → 2 ^ r ≤ 2 ^ 31
pow_le_31 zero r e = let top : r ≡ 31 = omega arith in le_of_eq (ap (λ k. 2 ^ k) top)
pow_le_31 (suc k) r e = omega (arith, pow-suc 2 r, pow_le_31 k (suc r) (omega arith))

below_31 : (r n : ℕ) → r ≤ 31 → 2 ^ r < n → n ≤ 2 ^ 31 → r < 31
below_31 r n le p h = elim (dec_lt r 31) [
  | yes q ↦ q
  | no q ↦ let top : r ≡ 31 = omega arith in absurd (omega (arith, ap (λ k. 2 ^ k) top))
]

next_power : (r : ℕ) → r < 31 → 2 * 2 ^ r % 2 ^ 32 ≡ 2 ^ suc r
next_power r h = omega (arith, pow-suc 2 r, pow_le_31 (31 - suc r) (suc r) (omega arith))

ceil_lg_loop_lem :
    (fuel r n : ℕ)
    → n ≤ 2 ^ 31
    → r ≤ 31
    → 32 < fuel + r
    → (r ≡ 0) ⊎ (2 ^ (r - 1) < n)
    → (k : ℕ) × (ceil_lg_loop fuel (2 ^ r) r n ≡ some k) × IsCeilLg n k
unfolding ceil_lg_loop
ceil_lg_loop_lem zero r n h le f l = absurd (omega arith)
ceil_lg_loop_lem (suc fuel) r n h le f l = elim (Bool-cases (ltb (2 ^ r) n)) [
  | inr p ↦ (r, rw p, record { enough = ground arith; least = l; small = le })
  | inl p ↦
      let small = below_31 r n le (ltb→lt (2 ^ r) n p) h in
      let next_r : (r + 1) % 2 ^ 8 ≡ suc r = omega arith in
      let back : r ≡ suc r - 1 = omega arith in
      rw (p, next_power r small, next_r)
        (ceil_lg_loop_lem fuel (suc r) n h small (omega arith)
          (inr (subst (λ k. 2 ^ k < n) back (ltb→lt (2 ^ r) n p))))
]

-- For at most 2^31 leaves `ceil_lg` returns the base-2 logarithm, rounded up, which is at most 31.
pub ceil_lg_lem : (n : ℕ) → n ≤ 2 ^ 31 → (k : ℕ) × (ceil_lg n ≡ some k) × IsCeilLg n k
unfolding ceil_lg
ceil_lg_lem n h = ceil_lg_loop_lem 33 0 n h (omega arith) (omega arith) (inl refl)

-- The values of `t`: a power of two, or 0 after it has wrapped.
abbrev Reached : ℕ → Type 0
Reached t = (t ≡ 0) ⊎ ((r : ℕ) × (r ≤ 31) × (t ≡ 2 ^ r))

Reached-lt : (t n : ℕ) → 2 ^ 31 < n → Reached t → t < n
Reached-lt t n h (inl z) = omega arith
Reached-lt t n h (inr (r, le, e)) = omega (arith, pow_le_31 (31 - r) r (omega arith))

Reached-next : (t : ℕ) → Reached t → Reached (2 * t % 2 ^ 32)
Reached-next t (inl z) = inl (omega arith)
Reached-next t (inr (r, le, e)) = elim (dec_lt r 31) [
  | yes q ↦ inr (suc r, q, rw e (next_power r q))
  | no q ↦ let top : r ≡ 31 = omega arith in inl (omega (arith, e ∙ ap (λ k. 2 ^ k) top))
]

never_ends : (fuel t r n : ℕ) → 2 ^ 31 < n → Reached t → ceil_lg_loop fuel t r n ≡ none
unfolding ceil_lg_loop
never_ends zero t r n h c = refl
never_ends (suc fuel) t r n h c =
    rw (lt→ltb t n (Reached-lt t n h c))
      (never_ends fuel (2 * t % 2 ^ 32) ((r + 1) % 2 ^ 8) n h (Reached-next t c))

-- For more than 2^31 leaves the loop of `ceil_lg`, from its start, does not end with any fuel.
pub ceil_lg-diverges : (n : ℕ) → 2 ^ 31 < n → (fuel : ℕ) → ceil_lg_loop fuel 1 0 n ≡ none
ceil_lg-diverges n h fuel = never_ends fuel 1 0 n h (inr (0, omega arith, refl))
