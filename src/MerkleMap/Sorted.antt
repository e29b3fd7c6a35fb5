-- ===== src/MerkleMap/Sorted.antt =====
-- What `call_check_merkle_tree_sorted_with_callback` has checked when it succeeds.
use membrane_app_bitcoin_new.Merkle.{failing_with}
use membrane_app_bitcoin_new.Common.{
  ℕ, List, [], ◌∷◌, Option, some, zero, suc, ◌+◌, ◌≡◌, length, refl, arith, ◌∙◌, Bool-cases, inl,
  inr, false, if◌then◌else◌, not, ◌&&◌, ltb,
}
use membrane_app_bitcoin_new.Common.Result.{Result, ok, err}
use membrane_app_bitcoin_new.Buffer.{buffer_create}
use membrane_app_bitcoin_new.Dispatcher.{Dispatcher, Exchange}
use membrane_app_bitcoin_new.MerkleMap.{
  Comparison, smaller, equal, larger, get_element, call_back, compare_byte_arrays, check_from,
  is_smaller, ElementsCallback, MapCommitment, call_check_merkle_tree_sorted_with_callback,
}
use membrane_app_bitcoin_new.MerkleMap.Order.{Lex, compare_byte_arrays_lem}
use mathlib.Core.Path.{subst}

-- A callback that keeps the elements it is given, the last one first.
abbrev pub keep : ElementsCallback (List (List ℕ))
keep map_commitment index buf (log, dc, es) = (buf.ptr ∷ log, dc, es)

-- Every element comes strictly after the one that stands behind it in the list.
abbrev pub Descends : List (List ℕ) → Type 0
Descends [] = Unit
Descends (x ∷ []) = Unit
Descends (x ∷ y ∷ log) = Lex y x × Descends (y ∷ log)

abbrev Head : List ℕ → List (List ℕ) → Type 0
Head prev [] = Unit
Head prev (x ∷ log) = prev ≡ x

abbrev Ends : ℕ → Result (List (List ℕ) × Dispatcher × List Exchange) → Type 0
Ends n (ok (log, dc, es)) = (length log ≡ n) × Descends log
Ends n (err e) = Unit

smaller_of : (c : Comparison) → not (is_smaller c) ≡ false → c ≡ smaller
unfolding is_smaller
smaller_of smaller e = refl
smaller_of equal e = absurd (cc e)
smaller_of larger e = absurd (cc e)

add_one :
    (prev cur : List ℕ) (log : List (List ℕ))
    → Head prev log
    → Descends log
    → (ltb 0 (length log) && not (is_smaller (compare_byte_arrays prev cur))) ≡ false
    → Descends (cur ∷ log)
unfolding is_smaller
add_one prev cur [] h d e = tt
add_one prev cur (x ∷ log) h d e = (
  subst (λ p. Lex p cur) h
      ((compare_byte_arrays_lem prev cur).0
        (smaller_of (compare_byte_arrays prev cur) (ground (arith, e)))),
  d,
)

module _ (sha256 : List ℕ → List ℕ) where
  check_from-Ends :
      (n : ℕ) (map_commitment : Option MapCommitment) (root : List ℕ) (size : ℕ) (prev : List ℕ)
      (log : List (List ℕ)) (dc : Dispatcher) (es : List Exchange)
      → Head prev log
      → Descends log
      → Ends
          (length log + n)
          (check_from sha256 n (some keep) map_commitment root size (length log) prev (log, dc, es))
  unfolding check_from call_back buffer_create
  check_from-Ends zero map_commitment root size prev log dc es h d = (omega arith, d)
  check_from-Ends (suc n) map_commitment root size prev log dc es h d =
      go (get_element sha256 es dc root size (length log))
        (λ cur dc' es'. check_from-Ends n map_commitment root size cur (cur ∷ log) dc' es' refl)
    where
      go :
          (r : Result (List ℕ × Dispatcher × List Exchange))
          → ((cur : List ℕ) (dc' : Dispatcher) (es' : List Exchange)
              → Descends (cur ∷ log)
              → Ends (length (cur ∷ log) + n) (
                  check_from sha256 n
                    (some keep)
                    map_commitment
                    root
                    size
                    (length (cur ∷ log))
                    cur
                    (cur ∷ log, dc', es')))
          → Ends (length log + suc n) (elim r [
            | err c ↦ err (failing_with 1 c)
            | ok (cur_el, dc', es') ↦
                if ltb 0 (length log) && not (is_smaller (compare_byte_arrays prev cur_el))
                then err 1
                else check_from sha256 n
                    (some keep)
                    map_commitment
                    root
                    size
                    (length log + 1)
                    cur_el
                    (call_back
                      (some keep)
                      map_commitment
                      (length log)
                      (buffer_create cur_el (length cur_el))
                      (log, dc', es'))
          ])
      go (err c) k = tt
      go (ok (cur, dc', es')) k =
          elim (Bool-cases
            (ltb 0 (length log) && not (is_smaller (compare_byte_arrays prev cur)))) [
              | inl e ↦ rw e tt
              | inr e ↦ rw e (
                  subst
                    (λ i. Ends (length log + suc n) (
                      check_from sha256 n (some keep) map_commitment root size i cur
                        (cur ∷ log, dc', es')))
                    (omega arith)
                    (subst
                      (λ m. Ends m (
                        check_from sha256 n (some keep) map_commitment root size
                          (length (cur ∷ log)) cur (cur ∷ log, dc', es')))
                      (omega arith) (k cur dc' es' (add_one prev cur log h d e))))
            ]

  -- Whatever the host sends: if `call_check_merkle_tree_sorted_with_callback` succeeds with the callback
  -- `keep`, then it gave it `size` elements, each of which comes strictly after the one before it in
  -- the lexicographical order of byte strings.
  pub check_merkle_tree_sorted_sound :
      (map_commitment : Option MapCommitment) (root : List ℕ) (size : ℕ) (dc : Dispatcher)
      (es : List Exchange) (log : List (List ℕ)) (dc' : Dispatcher) (es' : List Exchange)
      → call_check_merkle_tree_sorted_with_callback sha256 root size
          (some keep)
          map_commitment
          ([], dc, es)
        ≡ ok (log, dc', es')
      → (length log ≡ size) × Descends log
  unfolding call_check_merkle_tree_sorted_with_callback
  check_merkle_tree_sorted_sound map_commitment root size dc es log dc' es' h =
      let r =
        subst (Ends (length {A = List ℕ} [] + size)) h
          (check_from-Ends size map_commitment root size [] [] dc es tt tt) in
      (r.0 ∙ omega arith, r.1)
