-- ===== src/Common/Lists.antt =====
-- C arrays as lists with native indices, under the library's names.
use Prim.Native.Nat.{ℕ, zero, suc, ◌+◌, ◌-◌, ◌≤◌, ◌<◌, min}
use mathlib.Core.Path.{◌≡◌, refl, ap, ◌∙◌, sym}
use mathlib.Core.Logic.{◌≢◌}
use mathlib.Core.List.{List, [], ◌∷◌, ◌++◌}
use native.Mathlib.Omega.{arith}

module _ {ℓ} {A : Type ℓ} where
  abbrev pub length : List A → ℕ
  length [] = 0
  length (x ∷ xs) = suc (length xs)

  -- A read out of bounds gives the default.
  abbrev pub get_or : List A → ℕ → A → A
  get_or [] i d = d
  get_or (x ∷ xs) zero d = x
  get_or (x ∷ xs) (suc i) d = get_or xs i d

  -- A write out of bounds changes nothing.
  abbrev pub set : List A → ℕ → A → List A
  set [] i v = []
  set (x ∷ xs) zero v = v ∷ xs
  set (x ∷ xs) (suc i) v = x ∷ set xs i v

  abbrev pub take : ℕ → List A → List A
  take zero xs = []
  take (suc n) [] = []
  take (suc n) (x ∷ xs) = x ∷ take n xs

  abbrev pub drop : ℕ → List A → List A
  drop zero xs = xs
  drop (suc n) [] = []
  drop (suc n) (x ∷ xs) = drop n xs

  abbrev pub replicate : ℕ → A → List A
  replicate zero a = []
  replicate (suc n) a = a ∷ replicate n a

  abbrev pub All {κ} : (A → Type κ) → List A → Type κ
  All P [] = Unit {κ}
  All P (x ∷ xs) = P x × All P xs

module _ {ℓ} {A : Type ℓ} where
  pub length-append : (xs ys : List A) → length (xs ++ ys) ≡ length xs + length ys
  length-append [] ys = omega arith
  length-append (x ∷ xs) ys = omega (arith, length-append xs ys)

  pub length-set : (xs : List A) (i : ℕ) (v : A) → length (set xs i v) ≡ length xs
  length-set [] i v = refl
  length-set (x ∷ xs) zero v = refl
  length-set (x ∷ xs) (suc i) v = ap suc (length-set xs i v)

  pub length-take : (n : ℕ) (xs : List A) → length (take n xs) ≡ min n (length xs)
  length-take zero xs = omega arith
  length-take (suc n) [] = omega arith
  length-take (suc n) (x ∷ xs) = omega (arith, length-take n xs)

  pub length-drop : (n : ℕ) (xs : List A) → length (drop n xs) ≡ length xs - n
  length-drop zero xs = omega arith
  length-drop (suc n) [] = omega arith
  length-drop (suc n) (x ∷ xs) = omega (arith, length-drop n xs)

  pub take-append-drop : (n : ℕ) (xs : List A) → take n xs ++ drop n xs ≡ xs
  take-append-drop zero xs = refl
  take-append-drop (suc n) [] = refl
  take-append-drop (suc n) (x ∷ xs) = ap (λ t. x ∷ t) (take-append-drop n xs)

  pub take_le : (n : ℕ) (xs ys : List A) → n ≤ length xs → take n (xs ++ ys) ≡ take n xs
  take_le zero xs ys h = refl
  take_le (suc n) [] ys h = absurd (omega arith)
  take_le (suc n) (x ∷ xs) ys h = ap (λ t. x ∷ t) (take_le n xs ys (omega arith))

  pub drop_le : (n : ℕ) (xs ys : List A) → n ≤ length xs → drop n (xs ++ ys) ≡ drop n xs ++ ys
  drop_le zero xs ys h = refl
  drop_le (suc n) [] ys h = absurd (omega arith)
  drop_le (suc n) (x ∷ xs) ys h = drop_le n xs ys (omega arith)

  pub take_ge : (n : ℕ) (xs ys : List A) → take (length xs + n) (xs ++ ys) ≡ xs ++ take n ys
  take_ge n [] ys = ap (λ k. take k ys) (omega arith)
  take_ge n (x ∷ xs) ys = simp add_suc (ap (λ t. x ∷ t) (take_ge n xs ys))
    where
      add_suc : suc (length xs) + n ≡ suc (length xs + n)
      add_suc = omega arith

  pub drop_ge : (n : ℕ) (xs ys : List A) → drop (length xs + n) (xs ++ ys) ≡ drop n ys
  drop_ge n [] ys = ap (λ k. drop k ys) (omega arith)
  drop_ge n (x ∷ xs) ys = simp add_suc (drop_ge n xs ys)
    where
      add_suc : suc (length xs) + n ≡ suc (length xs + n)
      add_suc = omega arith

  pub get_or-set_self :
      (xs : List A) (i : ℕ) (v d : A) → i < length xs → get_or (set xs i v) i d ≡ v
  get_or-set_self [] i v d h = absurd (omega arith)
  get_or-set_self (x ∷ xs) zero v d h = refl
  get_or-set_self (x ∷ xs) (suc i) v d h = get_or-set_self xs i v d (omega arith)

  pub get_or-set_ne :
      (xs : List A) {i j : ℕ} (v d : A) → i ≢ j → get_or (set xs i v) j d ≡ get_or xs j d
  get_or-set_ne [] v d h = refl
  get_or-set_ne (x ∷ xs) {i = zero} {j = zero} v d h = absurd (h refl)
  get_or-set_ne (x ∷ xs) {i = zero} {j = suc j} v d h = refl
  get_or-set_ne (x ∷ xs) {i = suc i} {j = zero} v d h = refl
  get_or-set_ne (x ∷ xs) {i = suc i} {j = suc j} v d h = get_or-set_ne xs v d (λ e. h (ap suc e))

  -- Pointer arithmetic: `xs[o + i]` is `(xs + o)[i]`.
  pub get_or-drop : (xs : List A) (o i : ℕ) (d : A) → get_or xs (o + i) d ≡ get_or (drop o xs) i d
  get_or-drop [] zero i d = refl
  get_or-drop [] (suc o) i d = refl
  get_or-drop (x ∷ xs) zero i d = ap (λ k. get_or (x ∷ xs) k d) (omega arith)
  get_or-drop (x ∷ xs) (suc o) i d = ap (λ k. get_or (x ∷ xs) k d) shift ∙ get_or-drop xs o i d
    where
      shift : suc o + i ≡ suc (o + i)
      shift = omega arith

  set-append :
      (xs ys : List A) (o i : ℕ) (v : A)
      → o ≡ length xs
      → set (xs ++ ys) (o + i) v ≡ xs ++ set ys i v
  set-append [] ys o i v e = ap (λ k. set ys k v) (omega arith)
  set-append (x ∷ xs) ys o i v e =
      ap (λ k. set (x ∷ xs ++ ys) k v) shift
      ∙ ap (λ t. x ∷ t) (set-append xs ys (length xs) i v refl)
    where
      shift : o + i ≡ suc (length xs + i)
      shift = omega arith

  pub drop-append_self : (xs ys : List A) → drop (length xs) (xs ++ ys) ≡ ys
  drop-append_self [] ys = refl
  drop-append_self (x ∷ xs) ys = drop-append_self xs ys

  pub take-append_self : (xs ys : List A) → take (length xs) (xs ++ ys) ≡ xs
  take-append_self [] ys = refl
  take-append_self (x ∷ xs) ys = ap (λ t. x ∷ t) (take-append_self xs ys)

  pub drop-nil : (n : ℕ) → drop {A = A} n [] ≡ []
  drop-nil zero = refl
  drop-nil (suc n) = refl

  pub drop-drop : (m n : ℕ) (xs : List A) → drop m (drop n xs) ≡ drop (n + m) xs
  drop-drop m zero xs = ap (λ k. drop k xs) (omega arith)
  drop-drop m (suc n) [] = drop-nil m ∙ sym (drop-nil (suc n + m))
  drop-drop m (suc n) (x ∷ xs) = drop-drop m n xs ∙ ap (λ k. drop k (x ∷ xs)) shift
    where
      shift : suc (n + m) ≡ suc n + m
      shift = omega arith

  pub set-append_at :
      (xs ys : List A) (i : ℕ) (v : A) → set (xs ++ ys) (length xs + i) v ≡ xs ++ set ys i v
  set-append_at xs ys i v = set-append xs ys (length xs) i v refl

  pub All-drop {κ} : (P : A → Type κ) (n : ℕ) (xs : List A) → All P xs → All P (drop n xs)
  All-drop P zero xs h = h
  All-drop P (suc n) [] h = h
  All-drop P (suc n) (x ∷ xs) h = All-drop P n xs h.1

  pub All-take {κ} : (P : A → Type κ) (n : ℕ) (xs : List A) → All P xs → All P (take n xs)
  All-take P zero xs h = tt
  All-take P (suc n) [] h = h
  All-take P (suc n) (x ∷ xs) h = (h.0, All-take P n xs h.1)

  pub All-append {κ} : (P : A → Type κ) (xs ys : List A) → All P xs → All P ys → All P (xs ++ ys)
  All-append P [] ys h k = k
  All-append P (x ∷ xs) ys h k = (h.0, All-append P xs ys h.1 k)

  pub take-take : (n m : ℕ) (xs : List A) → n ≤ m → take n (take m xs) ≡ take n xs
  take-take zero m xs h = refl
  take-take (suc n) zero xs h = absurd (omega arith)
  take-take (suc n) (suc m) [] h = refl
  take-take (suc n) (suc m) (x ∷ xs) h = ap (λ t. x ∷ t) (take-take n m xs (omega arith))

  pub take-nil : (n : ℕ) → take {A = A} n [] ≡ []
  take-nil zero = refl
  take-nil (suc n) = refl

  pub drop-take : (n m : ℕ) (xs : List A) → drop n (take m xs) ≡ take (m - n) (drop n xs)
  drop-take zero m xs = ap (λ k. take k xs) (omega arith)
  drop-take (suc n) zero xs = ap (λ k. take k (drop (suc n) xs)) none_left
    where
      none_left : 0 ≡ 0 - suc n
      none_left = omega arith
  drop-take (suc n) (suc m) [] = sym (take-nil (suc m - suc n))
  drop-take (suc n) (suc m) (x ∷ xs) = drop-take n m xs ∙ ap (λ k. take k (drop n xs)) (omega arith)

  pub get_or-take-append :
      (xs ys : List A) (o i : ℕ) (d : A)
      → i < o
      → o ≤ length xs
      → get_or (take o xs ++ ys) i d ≡ get_or xs i d
  get_or-take-append xs ys zero i d h k = absurd (omega arith)
  get_or-take-append [] ys (suc o) i d h k = absurd (omega arith)
  get_or-take-append (x ∷ xs) ys (suc o) zero d h k = refl
  get_or-take-append (x ∷ xs) ys (suc o) (suc i) d h k =
      get_or-take-append xs ys o i d (omega arith) (omega arith)

  -- A prefix and what follows it, across two lists.
  pub take-append :
      (n m k : ℕ) (xs ys : List A)
      → m ≡ min n (length xs)
      → k ≡ n - length xs
      → take n (xs ++ ys) ≡ take m xs ++ take k ys
  take-append n m k [] ys h e = rw (take-nil m) (ap (λ t. take t ys) (omega arith))
  take-append zero zero zero (x ∷ xs) ys h e = refl
  take-append zero zero (suc k) (x ∷ xs) ys h e = absurd (omega arith)
  take-append zero (suc m) k (x ∷ xs) ys h e = absurd (omega arith)
  take-append (suc n) zero k (x ∷ xs) ys h e = absurd (omega arith)
  take-append (suc n) (suc m) k (x ∷ xs) ys h e =
      ap (λ t. x ∷ t) (take-append n m k xs ys (omega arith) (omega arith))

  pub drop-append :
      (n m k : ℕ) (xs ys : List A)
      → m ≡ min n (length xs)
      → k ≡ n - length xs
      → drop n (xs ++ ys) ≡ drop m xs ++ drop k ys
  drop-append n m k [] ys h e = rw (drop-nil m) (ap (λ t. drop t ys) (omega arith))
  drop-append zero zero zero (x ∷ xs) ys h e = refl
  drop-append zero zero (suc k) (x ∷ xs) ys h e = absurd (omega arith)
  drop-append zero (suc m) k (x ∷ xs) ys h e = absurd (omega arith)
  drop-append (suc n) zero k (x ∷ xs) ys h e = absurd (omega arith)
  drop-append (suc n) (suc m) k (x ∷ xs) ys h e =
      drop-append n m k xs ys (omega arith) (omega arith)
