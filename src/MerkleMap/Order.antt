-- ===== src/MerkleMap/Order.antt =====
-- The order that `compare_byte_arrays` of handler/lib/check_merkle_tree_sorted.c decides.
use membrane_app_bitcoin_new.Common.{
  ==_iff, zero, suc, length, Bool-cases, arith, ℕ, List, [], ◌∷◌, ltb, if◌then◌else◌, ◌<◌, ◌⊎◌, ◌≡◌,
  ◌↔◌, refl, sym, inl, inr, ◌==◌,
}
use membrane_app_bitcoin_new.MerkleMap.{
  compare_byte_arrays, Comparison, smaller, equal, larger, memcmp,
}

-- The strict lexicographical order; a proper prefix comes first.
abbrev pub Lex : List ℕ → List ℕ → Type 0
Lex [] [] = ⊥
Lex [] (y ∷ ys) = Unit
Lex (x ∷ xs) [] = ⊥
Lex (x ∷ xs) (y ∷ ys) = (x < y) ⊎ ((x ≡ y) × Lex xs ys)

-- The lexicographical comparison, one byte at a time.
abbrev lex : List ℕ → List ℕ → Comparison
lex [] [] = equal
lex [] (y ∷ ys) = smaller
lex (x ∷ xs) [] = larger
lex (x ∷ xs) (y ∷ ys) = if ltb x y then smaller else if ltb y x then larger else lex xs ys

lex-Lex : (xs ys : List ℕ) → (lex xs ys ≡ smaller) ↔ Lex xs ys
lex-Lex [] [] = ground arith
lex-Lex [] (y ∷ ys) = ground arith
lex-Lex (x ∷ xs) [] = ground arith
lex-Lex (x ∷ xs) (y ∷ ys) = ground (arith, lex-Lex xs ys)

abbrev by_length : List ℕ → List ℕ → Comparison
by_length xs ys =
    if ltb (length xs) (length ys)
    then smaller
    else if ltb (length ys) (length xs)
    then larger
    else equal

by_length-suc : (x y : ℕ) (xs ys : List ℕ) → by_length (x ∷ xs) (y ∷ ys) ≡ by_length xs ys
by_length-suc x y xs ys = ground arith

-- Where `memcmp` on the common length finds no difference, the lengths decide.
memcmp_lem :
    (n : ℕ) (xs ys : List ℕ)
    → n ≡ (if ltb (length xs) (length ys) then length xs else length ys)
    → lex xs ys
      ≡ elim (memcmp n xs ys) [ smaller ↦ smaller | equal ↦ by_length xs ys | larger ↦ larger ]
unfolding memcmp
memcmp_lem zero [] [] e = ground arith
memcmp_lem zero [] (y ∷ ys) e = ground arith
memcmp_lem zero (x ∷ xs) [] e = ground arith
memcmp_lem zero (x ∷ xs) (y ∷ ys) e = absurd (ground (arith, e))
memcmp_lem (suc n) [] ys e = absurd (ground (arith, e))
memcmp_lem (suc n) (x ∷ xs) [] e = absurd (ground (arith, e))
memcmp_lem (suc n) (x ∷ xs) (y ∷ ys) e =
    ground (arith, memcmp_lem n xs ys (ground (arith, e)), by_length-suc x y xs ys)

compare_lex : (xs ys : List ℕ) → compare_byte_arrays xs ys ≡ lex xs ys
unfolding compare_byte_arrays memcmp
compare_lex xs ys =
    let n = if ltb (length xs) (length ys) then length xs else length ys in
    elim (Bool-cases (n == 0)) [
      | inl e ↦ rw e (sym (memcmp_lem 0 xs ys (sym ((==_iff n 0).0 e))))
      | inr e ↦ rw e (sym (memcmp_lem n xs ys refl))
    ]

-- `compare_byte_arrays` reports a smaller first array exactly if it comes strictly before the second
-- in the lexicographical order of byte strings, in which a proper prefix comes first.
pub compare_byte_arrays_lem : (xs ys : List ℕ) → (compare_byte_arrays xs ys ≡ smaller) ↔ Lex xs ys
compare_byte_arrays_lem xs ys = rw (compare_lex xs ys) (lex-Lex xs ys)
