-- ===== src/Merkle/Verify.antt =====
-- What `call_get_merkle_leaf_hash` has verified when it succeeds.
use membrane_app_bitcoin_new.Buffer.{buffer_seek_cur}
use membrane_app_bitcoin_new.Common.Result.{err, Result, ◌>>=◌, bind_ok}
use mathlib.Core.Path.{subst}
use membrane_app_bitcoin_new.Preimage.{first_reply, current}
use membrane_app_bitcoin_new.Dispatcher.{Exchange, Dispatcher}
use membrane_app_bitcoin_new.Common.{
  sym, bytes_equal→eq, false, ◌⊎◌, true, bytes_equal, inr, ==_iff, inl, Bool-cases, ◌==◌,
  if◌then◌else◌, refl, zero, ap, [], arith, ◌∷◌, ◌+◌, ◌-◌, take, suc, ◌≡◌, length, ℕ, List,
}
use membrane_app_bitcoin_new.Merkle.{
  more_hashes, ok, Direction, left, right, invalid, stuck, merkle_get_ith_direction,
  merkle_combine_hashes, climb, verify_loop, call_get_merkle_leaf_hash, read_proof_header,
  request_leaf_proof,
}

-- A proof, the element nearest to the root first: whether the node stands on the left or on the
-- right of its sibling, and the sibling's hash.
pub data Side : Type 0 where
  on_left on_right : Side

abbrev pub direction_of : Side → Direction
direction_of on_left = left
direction_of on_right = right

abbrev pub Proof : Type 0
Proof = List (Side × List ℕ)

-- A direction with the equation that says which it is.
data Known (d : Direction) : Type 0 where
  is_left : d ≡ left → Known d
  is_right : d ≡ right → Known d
  is_invalid : d ≡ invalid → Known d
  is_stuck : d ≡ stuck → Known d

Direction-cases : (d : Direction) → Known d
Direction-cases left = is_left refl
Direction-cases right = is_right refl
Direction-cases invalid = is_invalid refl
Direction-cases stuck = is_stuck refl

module _ (sha256 : List ℕ → List ℕ) where
  abbrev pub join : Side → List ℕ → List ℕ → List ℕ
  join on_left node sibling = merkle_combine_hashes sha256 node sibling
  join on_right node sibling = merkle_combine_hashes sha256 sibling node

  -- The root that a proof gives for a hash at its lower end.
  abbrev pub root_of : List ℕ → Proof → List ℕ
  root_of leaf [] = leaf
  root_of leaf ((side, sibling) ∷ proof) = join side (root_of leaf proof) sibling

  -- The sides are the directions from the root to the leaf; `depth` is the length of the whole proof.
  abbrev pub Follows : ℕ → ℕ → ℕ → Proof → Type 0
  Follows tree_size leaf_index depth [] = Unit
  Follows tree_size leaf_index depth ((side, sibling) ∷ proof) =
      (merkle_get_ith_direction tree_size leaf_index (depth - length proof - 1) ≡ direction_of side)
      × Follows tree_size leaf_index depth proof

  -- A hash that was reached from the leaf in `step` steps.
  record Climbed (tree_size leaf_index depth : ℕ) (leaf : List ℕ) (step : ℕ) (top : List ℕ)
      : Type 0 where
    proof : Proof
    steps : length proof ≡ step
    hashed : top ≡ root_of leaf proof
    follows : Follows tree_size leaf_index depth proof

  extend :
      (tree_size leaf_index depth step : ℕ) (leaf cur sibling : List ℕ) (side : Side)
      → Climbed tree_size leaf_index depth leaf step cur
      → merkle_get_ith_direction tree_size leaf_index (depth - step - 1) ≡ direction_of side
      → Climbed tree_size leaf_index depth leaf (step + 1) (join side cur sibling)
  extend tree_size leaf_index depth step leaf cur sibling side c e = record {
    proof = (side, sibling) ∷ c.proof;
    steps = omega (arith, c.steps);
    hashed = ap (λ t. join side t sibling) c.hashed;
    follows = (rw c.steps e, c.follows);
  }

  -- What the result of `climb` and that of `verify_loop` say.
  abbrev ClimbEnds : ℕ → ℕ → ℕ → List ℕ → Result (ℕ × List ℕ × Dispatcher) → Type 0
  ClimbEnds tree_size leaf_index depth leaf (ok (step, top, dc)) =
      Climbed tree_size leaf_index depth leaf step top
  ClimbEnds tree_size leaf_index depth leaf (err e) = Unit

  abbrev Ends : ℕ → ℕ → ℕ → List ℕ → Result (List ℕ × Dispatcher × List Exchange) → Type 0
  Ends tree_size leaf_index depth leaf (ok (top, dc, es)) =
      Climbed tree_size leaf_index depth leaf depth top
  Ends tree_size leaf_index depth leaf (err e) = Unit

  climb-Ends :
      (n tree_size leaf_index depth step : ℕ) (leaf cur : List ℕ) (dc : Dispatcher)
      → Climbed tree_size leaf_index depth leaf step cur
      → ClimbEnds tree_size leaf_index depth leaf
          (climb sha256 n tree_size leaf_index depth step cur dc)
  unfolding climb
  climb-Ends zero tree_size leaf_index depth step leaf cur dc c = c
  climb-Ends (suc n) tree_size leaf_index depth step leaf cur dc c =
      let sibling = take 32 (current dc) in
      let dc' : Dispatcher = record dc { read_buffer = (buffer_seek_cur dc.read_buffer 32).1 } in
      elim (Direction-cases (merkle_get_ith_direction tree_size leaf_index (depth - step - 1))) [
        | is_left e ↦
            rw (e, climb)
              (climb-Ends n tree_size leaf_index depth (step + 1) leaf _ dc'
                (extend tree_size leaf_index depth step leaf cur sibling on_left c e))
        | is_right e ↦
            rw (e, climb)
              (climb-Ends n tree_size leaf_index depth (step + 1) leaf _ dc'
                (extend tree_size leaf_index depth step leaf cur sibling on_right c e))
        | is_invalid e ↦ rw (e, climb) tt
        | is_stuck e ↦ rw (e, climb) tt
      ]

  verify_loop-Ends :
      (es : List Exchange) (n tree_size leaf_index depth step : ℕ) (leaf cur : List ℕ)
      (dc : Dispatcher)
      → Climbed tree_size leaf_index depth leaf step cur
      → Ends tree_size leaf_index depth leaf
          (verify_loop sha256 es n tree_size leaf_index depth step cur dc)
  unfolding verify_loop
  verify_loop-Ends [] n tree_size leaf_index depth step leaf cur dc c =
      last (climb sha256 n tree_size leaf_index depth step cur dc)
        (climb-Ends n tree_size leaf_index depth step leaf cur dc c)
    where
      last :
          (r : Result (ℕ × List ℕ × Dispatcher))
          → ClimbEnds tree_size leaf_index depth leaf r
          → Ends tree_size leaf_index depth leaf
              (r >>= λ a. if a.0 == depth then ok (a.1, a.2, []) else err 1)
      last (err k) t = tt
      last (ok (step', top, dc1)) t = elim (Bool-cases (step' == depth)) [
        | inl e ↦ rw e (
            subst (λ k. Climbed tree_size leaf_index depth leaf k top) ((==_iff step' depth).0 e) t)
        | inr e ↦ rw e tt
      ]
  verify_loop-Ends (x ∷ es) n tree_size leaf_index depth step leaf cur dc c =
      next (climb sha256 n tree_size leaf_index depth step cur dc)
        (climb-Ends n tree_size leaf_index depth step leaf cur dc c)
        (λ n' step' top dc2. verify_loop-Ends es n' tree_size leaf_index depth step' leaf top dc2)
    where
      Again : Type 0
      Again =
          (n' step' : ℕ) (top : List ℕ) (dc2 : Dispatcher)
          → Climbed tree_size leaf_index depth leaf step' top
          → Ends tree_size leaf_index depth leaf
              (verify_loop sha256 es n' tree_size leaf_index depth step' top dc2)

      more :
          (step' : ℕ) (top : List ℕ) (r : Result (ℕ × Dispatcher))
          → Again
          → Climbed tree_size leaf_index depth leaf step' top
          → Ends tree_size leaf_index depth leaf (elim r [
            | err k ↦ err k
            | ok (n', dc2) ↦ verify_loop sha256 es n' tree_size leaf_index depth step' top dc2
          ])
      more step' top (err k) go t = tt
      more step' top (ok (n', dc2)) go t = go n' step' top dc2 t

      next :
          (r : Result (ℕ × List ℕ × Dispatcher))
          → ClimbEnds tree_size leaf_index depth leaf r
          → Again
          → Ends tree_size leaf_index depth leaf (elim r [
            | err k ↦ err k
            | ok (step', top, dc1) ↦
                if step' == depth
                then ok (top, dc1, x ∷ es)
                else elim (more_hashes sha256 x dc1 step' depth) [
                  | err k ↦ err k
                  | ok (n', dc2) ↦ verify_loop sha256 es n' tree_size leaf_index depth step' top dc2
                ]
          ])
      next (err k) t go = tt
      next (ok (step', top, dc1)) t go = elim (Bool-cases (step' == depth)) [
        | inl e ↦ rw e (
            subst (λ k. Climbed tree_size leaf_index depth leaf k top) ((==_iff step' depth).0 e) t)
        | inr e ↦ rw e (more step' top (more_hashes sha256 x dc1 step' depth) go t)
      ]

  -- Whatever the host sends: if `call_get_merkle_leaf_hash` succeeds, then its result and some list
  -- of sibling hashes give the Merkle root, where the node on the path stands on the side that
  -- `merkle_get_ith_direction` names for the position, from the root down to the result.
  pub get_merkle_leaf_hash_sound :
      (exchanges : List Exchange) (dc : Dispatcher) (merkle_root : List ℕ)
      (tree_size leaf_index : ℕ) (out : List ℕ) (dc' : Dispatcher) (rest : List Exchange)
      → call_get_merkle_leaf_hash sha256 exchanges dc merkle_root tree_size leaf_index
        ≡ ok (out, dc', rest)
      → (proof : Proof) × Follows tree_size leaf_index (length proof) proof
        × (root_of out proof ≡ merkle_root)
  unfolding call_get_merkle_leaf_hash
  get_merkle_leaf_hash_sound exchanges dc merkle_root tree_size leaf_index out dc' rest h =
      bind_ok
        (first_reply exchanges (request_leaf_proof sha256 dc merkle_root tree_size leaf_index)) _ h
        λ a p h1. bind_ok (read_proof_header sha256 a.0) _ h1 λ b q h2.
          bind_ok (verify_loop sha256 a.1 b.2 tree_size leaf_index b.1 0 b.0 b.3) _ h2 λ c r h3.
            conclude b.1 b.0 c.0
              (subst (Ends tree_size leaf_index b.1 b.0) r (
                verify_loop-Ends a.1 b.2 tree_size leaf_index b.1 0 b.0 b.0 b.3
                  (record { proof = []; steps = refl; hashed = refl; follows = tt })))
              (Bool-cases (bytes_equal merkle_root c.0)) c.1 c.2 h3
    where
      conclude :
          (depth : ℕ) (leaf top : List ℕ)
          → Climbed tree_size leaf_index depth leaf depth top
          → (bytes_equal merkle_root top ≡ true) ⊎ (bytes_equal merkle_root top ≡ false)
          → (dc3 : Dispatcher) (es : List Exchange)
          → if◌then◌else◌ {A = Result (List ℕ × Dispatcher × List Exchange)}
              (bytes_equal merkle_root top)
              (ok (leaf, dc3, es))
              (err 1)
            ≡ ok (out, dc', rest)
          → (proof : Proof) × Follows tree_size leaf_index (length proof) proof
            × (root_of out proof ≡ merkle_root)
      conclude depth leaf top t (inr e) dc3 es h3 = absurd (ground (arith, e, h3))
      conclude depth leaf top t (inl e) dc3 es h3 =
          let same : leaf ≡ out = ground (arith, e, h3) in
          let reached : merkle_root ≡ top = bytes_equal→eq merkle_root top e in
          (
            t.proof,
            subst (λ d. Follows tree_size leaf_index d t.proof) (sym t.steps) t.follows,
            subst (λ x. root_of x t.proof ≡ merkle_root) same (cc (t.hashed, reached)),
          )
