-- ===== src/Policy/Sorted.antt =====
-- The order in which handler/lib/policy.c picks the keys of a multisig node: that of the node, or the
-- smallest of the keys that are left.
use membrane_app_bitcoin_new.Policy.Translation.{insert, sort}
use membrane_app_bitcoin_new.Common.{
  arith, Bool-cases, All, length, ◌≡◌, Bool, List, ℕ, [], ◌∷◌, true, false, refl, inl, inr, ◌++◌,
}
use membrane_app_bitcoin_new.Policy.Keys.{compared, cmp_arrays, is_greater}

abbrev pub exceeds : Bool → List ℕ → List ℕ → Bool
exceeds x_only a b = is_greater (cmp_arrays (compared x_only a) (compared x_only b))

pub cmp_trans :
    (xs ys zs : List ℕ)
    → length xs ≡ length ys
    → length ys ≡ length zs
    → is_greater (cmp_arrays xs ys) ≡ true
    → is_greater (cmp_arrays ys zs) ≡ true
    → is_greater (cmp_arrays xs zs) ≡ true
cmp_trans [] ys zs e f g h = absurd (cc g)
cmp_trans (x ∷ xs) [] zs e f g h = absurd (cc g)
cmp_trans (x ∷ xs) (y ∷ ys) [] e f g h = absurd (cc h)
cmp_trans (x ∷ xs) (y ∷ ys) (z ∷ zs) e f g h =
    let rest = cmp_trans xs ys zs (omega (arith, e)) (omega (arith, f)) in ground (arith, rest)

pub cmp_total :
    (xs ys zs : List ℕ)
    → length xs ≡ length ys
    → length ys ≡ length zs
    → is_greater (cmp_arrays xs ys) ≡ false
    → is_greater (cmp_arrays xs zs) ≡ true
    → is_greater (cmp_arrays ys zs) ≡ true
cmp_total [] ys zs e f g h = absurd (cc h)
cmp_total (x ∷ xs) [] zs e f g h = absurd (omega (arith, e))
cmp_total (x ∷ xs) (y ∷ ys) [] e f g h = absurd (omega (arith, f))
cmp_total (x ∷ xs) (y ∷ ys) (z ∷ zs) e f g h =
    let rest = cmp_total xs ys zs (omega (arith, e)) (omega (arith, f)) in ground (arith, rest)

insert-first :
    (x_only : Bool) (m : List ℕ) (keys : List (List ℕ))
    → All (λ b. exceeds x_only m b ≡ false) keys
    → insert x_only m keys ≡ m ∷ keys
unfolding insert
insert-first x_only m [] h = refl
insert-first x_only m (b ∷ keys) (h, hs) = rw h refl

insert-All :
    (x_only : Bool) (m k : List ℕ) (keys : List (List ℕ))
    → exceeds x_only m k ≡ false
    → All (λ b. exceeds x_only m b ≡ false) keys
    → All (λ b. exceeds x_only m b ≡ false) (insert x_only k keys)
unfolding insert
insert-All x_only m k [] h hs = (h, tt)
insert-All x_only m k (b ∷ keys) h (g, hs) = elim (Bool-cases (exceeds x_only k b)) [
  | inl e ↦ rw e (g, insert-All x_only m k keys h hs)
  | inr e ↦ rw e (h, (g, hs))
]

sort-All :
    (x_only : Bool) (m : List ℕ) (keys : List (List ℕ))
    → All (λ b. exceeds x_only m b ≡ false) keys
    → All (λ b. exceeds x_only m b ≡ false) (sort x_only keys)
unfolding sort
sort-All x_only m [] h = tt
sort-All x_only m (k ∷ keys) (h, hs) =
    insert-All x_only m k (sort x_only keys) h (sort-All x_only m keys hs)

-- The first of the smallest keys comes first in the sorted list.
pub sort-smallest :
    (x_only : Bool) (before after : List (List ℕ)) (m : List ℕ)
    → All (λ a. exceeds x_only a m ≡ true) before
    → All (λ b. exceeds x_only m b ≡ false) after
    → sort x_only (before ++ m ∷ after) ≡ m ∷ sort x_only (before ++ after)
unfolding sort insert
sort-smallest x_only [] after m h g =
    insert-first x_only m (sort x_only after) (sort-All x_only m after g)
sort-smallest x_only (a ∷ before) after m (h, hs) g =
    rw (sort-smallest x_only before after m hs g, h) refl
