-- ===== src/Policy/Picked.antt =====
-- The keys that handler/lib/policy.c picks one after the other for a multisig node.
use mathlib.Core.Path.{subst}
use membrane_app_bitcoin_new.Policy.Chain.{zero_add}
use membrane_app_bitcoin_new.Policy.Translation.{sort}
use membrane_app_bitcoin_new.Policy.Multi.{length-map, Picks}
use membrane_app_bitcoin_new.Policy.Sorted.{sort-smallest, cmp_total, cmp_trans, exceeds}
use membrane_app_bitcoin_new.Policy.{ScriptKind, KeyPlaceholder}
use membrane_app_bitcoin_new.Common.{
  append_assoc, zero, length-set, length-append, none, map, sym, Bool-cases, ◌⊎◌, All, ap,
  length-drop, set, ◌∙◌, some, Option, arith, length, replicate, Bool, List, ◌+◌, ◌≡◌, ℕ, [], ◌∷◌,
  suc, true, false, refl, inl, inr, ◌++◌,
}
use membrane_app_bitcoin_new.Policy.Keys.{next_key, nth, smallest, compared}

-- The keys whose bit is not set.
abbrev pub unused : (KeyPlaceholder → List ℕ) → List KeyPlaceholder → List Bool → List (List ℕ)
unused key [] used = []
unused key (p ∷ ps) [] = []
unused key (p ∷ ps) (true ∷ used) = unused key ps used
unused key (p ∷ ps) (false ∷ used) = key p ∷ unused key ps used

abbrev pub largest : List ℕ
largest = replicate 33 0xFF

-- A key of 33 bytes below the largest array in both comparisons.
abbrev pub IsKey : List ℕ → Type 0
IsKey k = (length k ≡ 33) × (exceeds false largest k ≡ true) × (exceeds true largest k ≡ true)

length-compared :
    (x_only : Bool) (a b : List ℕ)
    → length a ≡ length b
    → length (compared x_only a) ≡ length (compared x_only b)
length-compared true a b e = omega (arith, length-drop 1 a, length-drop 1 b, e)
length-compared false a b e = e

exceeds_trans :
    (x_only : Bool) (a b c : List ℕ)
    → length a ≡ length b
    → length b ≡ length c
    → exceeds x_only a b ≡ true
    → exceeds x_only b c ≡ true
    → exceeds x_only a c ≡ true
exceeds_trans x_only a b c e f =
    cmp_trans (compared x_only a) (compared x_only b) (compared x_only c)
      (length-compared x_only a b e) (length-compared x_only b c f)

exceeds_total :
    (x_only : Bool) (a b c : List ℕ)
    → length a ≡ length b
    → length b ≡ length c
    → exceeds x_only a b ≡ false
    → exceeds x_only a c ≡ true
    → exceeds x_only b c ≡ true
exceeds_total x_only a b c e f =
    cmp_total (compared x_only a) (compared x_only b) (compared x_only c)
      (length-compared x_only a b e) (length-compared x_only b c f)

pub by_kind :
    (x_only : Bool) (k : List ℕ)
    → exceeds false largest k ≡ true
    → exceeds true largest k ≡ true
    → exceeds x_only largest k ≡ true
by_kind true k e f = f
by_kind false k e f = e

no_keys : (keys : List (List ℕ)) → length keys ≡ 0 → keys ≡ []
no_keys [] e = refl
no_keys (k ∷ keys) e = absurd (omega (arith, e))

not_both :
    (f : List ℕ → Bool) (keys : List (List ℕ)) (n : ℕ)
    → length keys ≡ suc n
    → All (λ b. f b ≡ false) keys
    → All (λ b. f b ≡ true) keys
    → ⊥
not_both f [] n e h g = omega (arith, e)
not_both f (k ∷ keys) n e (h, hs) (g, gs) = cc (h, g)

unused_all :
    (key : KeyPlaceholder → List ℕ) (ps : List KeyPlaceholder)
    → unused key ps (replicate (length ps) false) ≡ map key ps
unused_all key [] = refl
unused_all key (p ∷ ps) = ap (λ l. key p ∷ l) (unused_all key ps)

length-replicate : (ps : List KeyPlaceholder) → length (replicate (length ps) false) ≡ length ps
length-replicate [] = refl
length-replicate (p ∷ ps) = ap suc (length-replicate ps)

nth-append :
    (before : List KeyPlaceholder) (p : KeyPlaceholder) (rest : List KeyPlaceholder)
    → nth (before ++ p ∷ rest) (length before) ≡ some p
nth-append [] p rest = refl
nth-append (q ∷ before) p rest = nth-append before p rest

next_index : (j pos : ℕ) → suc j + pos ≡ j + suc pos
next_index j pos = omega arith

add_zero : (j : ℕ) → j ≡ j + 0
add_zero j = omega arith

module _ (get_derived_pubkey : KeyPlaceholder → Option (List ℕ)) (key : KeyPlaceholder → List ℕ)
    (d : (p : KeyPlaceholder) → get_derived_pubkey p ≡ some (key p))
    (valid : (p : KeyPlaceholder) → IsKey (key p)) (x_only : Bool) where
  -- The search finds the first of the smallest keys that are left, below the given one.
  record Least (best : List ℕ) (ps : List KeyPlaceholder) (used : List Bool) (j : ℕ)
      (result : Option (List ℕ × Option ℕ)) : Type 0 where
    least : List ℕ
    before : List (List ℕ)
    after : List (List ℕ)
    pos : ℕ
    found : result ≡ some (least, some (j + pos))
    split : unused key ps used ≡ before ++ least ∷ after
    taken : unused key ps (set used pos true) ≡ before ++ after
    below : exceeds x_only best least ≡ true
    firsts : All (λ a. exceeds x_only a least ≡ true) before
    others : All (λ b. exceeds x_only least b ≡ false) after
    sized : length least ≡ 33

  moved :
      (best : List ℕ) (p : KeyPlaceholder) (ps : List KeyPlaceholder) (used : List Bool) (j : ℕ)
      (result : Option (List ℕ × Option ℕ))
      → Least best ps used (suc j) result
      → Least best (p ∷ ps) (true ∷ used) j result
  moved best p ps used j result h = record {
    least = h.least;
    before = h.before;
    after = h.after;
    pos = suc h.pos;
    found = h.found ∙ ap (λ n. some (h.least, some n)) (next_index j h.pos);
    split = h.split;
    taken = h.taken;
    below = h.below;
    firsts = h.firsts;
    others = h.others;
    sized = h.sized;
  }

  -- A key in front that is not taken.
  passed :
      (best cur : List ℕ) (p : KeyPlaceholder) (ps : List KeyPlaceholder) (used : List Bool) (j : ℕ)
      (result : Option (List ℕ × Option ℕ))
      → (h : Least cur ps used (suc j) result) → exceeds x_only (key p) h.least ≡ true
      → exceeds x_only best h.least ≡ true
      → Least best (p ∷ ps) (false ∷ used) j result
  passed best cur p ps used j result h g b = record {
    least = h.least;
    before = key p ∷ h.before;
    after = h.after;
    pos = suc h.pos;
    found = h.found ∙ ap (λ n. some (h.least, some n)) (next_index j h.pos);
    split = ap (λ l. key p ∷ l) h.split;
    taken = ap (λ l. key p ∷ l) h.taken;
    below = b;
    firsts = (g, h.firsts);
    others = h.others;
    sized = h.sized;
  }

  smallest-Least :
      (ps : List KeyPlaceholder) (used : List Bool) (j : ℕ) (best : List ℕ) (index : Option ℕ)
      → length used ≡ length ps
      → length best ≡ 33
      → (All (λ b. exceeds x_only best b ≡ false) (unused key ps used)
          × (smallest get_derived_pubkey x_only ps used j best index ≡ some (best, index)))
        ⊎ Least best ps used j (smallest get_derived_pubkey x_only ps used j best index)
  unfolding smallest
  smallest-Least [] used j best index e s = inl (tt, refl)
  smallest-Least (p ∷ ps) [] j best index e s = absurd (omega (arith, e))
  smallest-Least (p ∷ ps) (true ∷ used) j best index e s =
      elim (smallest-Least ps used (suc j) best index (omega (arith, e)) s) [
        | inl h ↦ inl h
        | inr h ↦ inr (moved best p ps used j _ h)
      ]
  smallest-Least (p ∷ ps) (false ∷ used) j best index e s =
      let (sized, first, second) = valid p in
      elim (Bool-cases (exceeds x_only best (key p))) [
        | inl g ↦
            rw (smallest, d p, g)
              (elim (smallest-Least ps used (suc j) (key p) (some j) (omega (arith, e)) sized) [
                | inl (h, kept) ↦ inr record {
                  least = key p;
                  before = [];
                  after = unused key ps used;
                  pos = 0;
                  found = kept ∙ ap (λ n. some (key p, some n)) (add_zero j);
                  split = refl;
                  taken = refl;
                  below = g;
                  firsts = tt;
                  others = h;
                  sized = sized;
                }
                | inr h ↦ inr (
                    passed best (key p) p ps used j _ h h.below (
                      exceeds_trans x_only best (key p) h.least (s ∙ sym sized)
                        (sized ∙ sym h.sized) g h.below))
              ])
        | inr g ↦
            rw (smallest, d p, g)
              (elim (smallest-Least ps used (suc j) best index (omega (arith, e)) s) [
                | inl (h, kept) ↦ inl ((refl, h), kept)
                | inr h ↦ inr (
                    passed best best p ps used j _ h
                      (exceeds_total x_only best (key p) h.least (s ∙ sym sized)
                        (sized ∙ sym h.sized) g h.below)
                      h.below)
              ])
      ]

  unused_below :
      (ps : List KeyPlaceholder) (used : List Bool)
      → All (λ b. exceeds x_only largest b ≡ true) (unused key ps used)
  unused_below [] used = tt
  unused_below (p ∷ ps) [] = tt
  unused_below (p ∷ ps) (true ∷ used) = unused_below ps used
  unused_below (p ∷ ps) (false ∷ used) =
      let (sized, first, second) = valid p in
      (by_kind x_only (key p) first second, unused_below ps used)

  module _ (crypto_hash160 : List ℕ → List ℕ) (kind : ScriptKind) where
    picked-sorted :
        (ps : List KeyPlaceholder) (rest i : ℕ) (used : List Bool)
        → length used ≡ length ps
        → length (unused key ps used) ≡ rest
        → Picks get_derived_pubkey crypto_hash160 kind key x_only true ps used i rest
            (sort x_only (unused key ps used))
    unfolding next_key sort
    picked-sorted ps zero i used e c = rw (no_keys (unused key ps used) c) refl
    picked-sorted ps (suc rest) i used e c = elim (smallest-Least ps used 0 largest none e refl) [
      | inl (h, kept) ↦ absurd (
          not_both (λ b. exceeds x_only largest b) (unused key ps used) rest c h
            (unused_below ps used))
      | inr h ↦
          let used1 = set used h.pos true in
          let fewer : length (unused key ps used1) ≡ rest = omega (
            arith,
            ap length h.taken,
            length-append h.before h.after,
            ap length h.split,
            length-append h.before (h.least ∷ h.after),
            c,
          ) in
          let more = picked-sorted ps rest (i + 1) used1 (length-set used h.pos true ∙ e) fewer in
          rw (h.split, sort-smallest x_only h.before h.after h.least h.firsts h.others)
            (
              used1,
              rw (next_key, h.found, zero_add h.pos) refl,
              subst
                  (λ l.
                    Picks get_derived_pubkey crypto_hash160 kind key x_only true ps used1 (i + 1)
                      rest (sort x_only l))
                  h.taken more,
            )
    ]

    pub all_picked-sorted :
        (ps : List KeyPlaceholder)
        → Picks get_derived_pubkey crypto_hash160 kind key x_only true ps
            (replicate (length ps) false)
            0
            (length ps)
            (sort x_only (map key ps))
    all_picked-sorted ps =
        let kept = unused_all key ps in
        subst
          (λ l.
            Picks get_derived_pubkey crypto_hash160 kind key x_only true ps
              (replicate (length ps) false) 0 (length ps) (sort x_only l))
          kept
          (picked-sorted ps (length ps) 0 (replicate (length ps) false) (length-replicate ps)
            (ap length kept ∙ length-map key ps))

module _ (get_derived_pubkey : KeyPlaceholder → Option (List ℕ)) (crypto_hash160 : List ℕ → List ℕ)
    (kind : ScriptKind) (key : KeyPlaceholder → List ℕ)
    (d : (p : KeyPlaceholder) → get_derived_pubkey p ≡ some (key p)) (x_only : Bool) where
  picked_from :
      (ps before rest : List KeyPlaceholder) (used : List Bool)
      → ps ≡ before ++ rest
      → Picks get_derived_pubkey crypto_hash160 kind key x_only false ps used
          (length before)
          (length rest)
          (map key rest)
  unfolding next_key
  picked_from ps before [] used e = refl
  picked_from ps before (p ∷ rest) used e = (
    used,
    rw (e, next_key, nth-append before p rest, d p) refl,
    subst
        (λ i.
          Picks get_derived_pubkey crypto_hash160 kind key x_only false ps used i (length rest)
            (map key rest))
        (length-append before (p ∷ []))
        (picked_from ps (before ++ p ∷ []) rest used (e ∙ sym (append_assoc before (p ∷ []) rest))),
  )

  pub all_picked :
      (ps : List KeyPlaceholder) (used : List Bool)
      → Picks get_derived_pubkey crypto_hash160 kind key x_only false ps used 0
          (length ps)
          (map key ps)
  all_picked ps used = picked_from ps [] ps used refl
