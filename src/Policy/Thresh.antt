-- ===== src/Policy/Thresh.antt =====
-- `process_thresh_node` of handler/lib/policy.c: the children in turn, and the sum of their results.
use membrane_app_bitcoin_new.Policy.Chain.{zero_add, mod_of_mod}
use membrane_app_bitcoin_new.Policy.Reaches.{
  mod_add, Reaches-trans, onward, push_u32-update, update-update, stop, op_v-update, Reaches,
}
use membrane_app_bitcoin_new.Script.{op_equal}
use membrane_app_bitcoin_new.Policy.Generic.{pop-resumed, at_, resumed, Translates}
use membrane_app_bitcoin_new.Policy.Commands.{op_add}
use membrane_app_bitcoin_new.Policy.Translation.{
  first_script, concat, added_scripts, verified, minimal_push, script, one,
}
use mathlib.Core.Path.{subst}
use membrane_app_bitcoin_new.Common.{
  append-nil, append_assoc, lt→ltb, sym, Bool-cases, gt→leb, length-append, ◌∙◌, le→leb, leb,
  le→ltb, ◌^◌, ◌%◌, ◌<◌, ◌≤◌, arith, ap, some, ◌+◌, length, ◌≡◌, Bool, ◌++◌, ltb, Option,
  if◌then◌else◌, List, ℕ, [], ◌∷◌, suc, true, false, refl, inl, inr,
}
use membrane_app_bitcoin_new.Policy.Machine.{
  Machine, update_output_push_u32, update_output_op_v, update_output, count_step, state_stack_push,
  update_output_u8, execute_processor, write_thresh_child, write_thresh_end, write_thresh,
  process_thresh_node, process, is_tapscript, pass, Frame, running,
}
use membrane_app_bitcoin_new.Policy.{
  is_whitelisted, count, nth_script, ScriptKind, Scripts, Node, KeyPlaceholder, end, next,
  with_scriptlist, thresh,
}

-- The scripts of a list after others.
abbrev after : List Node → Scripts → Scripts
after [] xs = xs
after (y ∷ ys) xs = next y (after ys xs)

nth-after :
    (ys : List Node) (x : Node) (xs : Scripts)
    → nth_script (after ys (next x xs)) (length ys) ≡ some x
nth-after [] x xs = refl
nth-after (y ∷ ys) x xs = nth-after ys x xs

count-after : (ys : List Node) (xs : Scripts) → count (after ys xs) ≡ length ys + count xs
count-after [] xs = omega arith
count-after (y ∷ ys) xs = omega (arith, count-after ys xs)

after-next :
    (ys : List Node) (x : Node) (xs : Scripts) → after (ys ++ x ∷ []) xs ≡ after ys (next x xs)
after-next [] x xs = refl
after-next (y ∷ ys) x xs = ap (next y) (after-next ys x xs)

regrouped : (a b c : List ℕ) → a ++ (one op_add ++ (b ++ c)) ≡ concat (a ∷ one op_add ∷ b ∷ []) ++ c
unfolding concat
regrouped a b c = rw (append-nil b, append_assoc a (op_add ∷ b) c) refl

abbrev separator : ℕ → List ℕ
separator i = if ltb 1 i then one op_add else []

module _ (get_derived_pubkey : KeyPlaceholder → Option (List ℕ)) (crypto_hash160 : List ℕ → List ℕ)
    (kind : ScriptKind) (key : KeyPlaceholder → List ℕ) where
  -- Each script of a list writes its bytes below some more nodes.
  abbrev pub AllTranslate : Scripts → List Frame → Type 0
  AllTranslate end below = Unit
  AllTranslate (next x xs) below =
      ((f : Frame) → Translates get_derived_pubkey crypto_hash160 kind key x false (f ∷ below))
      × AllTranslate xs below

  -- The bytes from the `i`-th script on, in the order of the code.
  remaining : ℕ → Scripts → List ℕ → List ℕ
  remaining i end last = last
  remaining i (next x xs) last =
      (separator i ++ script key crypto_hash160 (is_tapscript kind) false x)
      ++ remaining (suc i) xs last

  module _ (k : ℕ) (all : Scripts) (v : Bool) (below : List Frame)
      (allowed : is_whitelisted kind thresh ≡ true) where
    abbrev pub node : Node
    node = with_scriptlist thresh k all

    -- The bytes after the last script.
    total : List ℕ
    total = one op_add ++ (minimal_push k ++ verified v op_equal)

    pushed_sum :
        (m : Machine) (w : Bool)
        → m.top.verify ≡ w
        → update_output
            (update_output_push_u32 m k)
            (verified (update_output_push_u32 m k).top.verify op_equal)
          ≡ update_output m (minimal_push k ++ verified w op_equal)
    unfolding update_output
    pushed_sum m w e =
        let e1 = push_u32-update m k in
        ap (λ m1. update_output m1 (verified m1.top.verify op_equal)) e1
        ∙ ap (λ b. update_output (update_output m (minimal_push k)) (verified b op_equal)) e
        ∙ update-update m (minimal_push k) (verified w op_equal)

    finish_thresh :
        (len i : ℕ) (out : List ℕ)
        → i ≡ count all
        → 1 ≤ count all
        → Reaches get_derived_pubkey crypto_hash160 kind
            (resumed below ((len + length total) % 2 ^ 16) (out ++ total))
            (at_ node len i v below out)
    unfolding total pass process process_thresh_node write_thresh write_thresh_end execute_processor
        update_output_u8 update_output
    finish_thresh len i out e some_child =
        let m = at_ node len i v below out in
        let past : ltb i (count all) ≡ false = le→ltb i (count all) (omega arith) in
        let any : leb 1 (count all) ≡ true = le→leb 1 (count all) some_child in
        let m1 = update_output m (one op_add) in
        let written : update_output_op_v (update_output_push_u32 m1 k) op_equal
            ≡ update_output m total =
          op_v-update (update_output_push_u32 m1 k) op_equal
          ∙ pushed_sum m1 v refl
          ∙ update-update m (one op_add) (minimal_push k ++ verified v op_equal) in
        stop (
          rw
            (
              allowed, process, process_thresh_node, write_thresh, past, write_thresh_end, any,
              written,
            )
            (pop-resumed node ((len + length total) % 2 ^ 16) i v below (out ++ total)))

    child_done :
        (i len len1 : ℕ) (out out1 : List ℕ) (x : Node)
        → pass get_derived_pubkey crypto_hash160 kind (at_ node len i v below out)
          ≡ running (
              at_ x 0 0 false
                (record { policy_node = node; length = len1; step = suc i; verify = v } ∷ below)
                out1)
        → ((f : Frame) → Translates get_derived_pubkey crypto_hash160 kind key x false (f ∷ below))
        → Reaches get_derived_pubkey crypto_hash160 kind
            (running (
              at_ node
                ((len1 + length (script key crypto_hash160 (is_tapscript kind) false x)) % 2 ^ 16)
                (suc i)
                v
                below
                (out1 ++ script key crypto_hash160 (is_tapscript kind) false x)))
            (at_ node len i v below out)
    child_done i len len1 out out1 x e sim =
        let bytes = script key crypto_hash160 (is_tapscript kind) false x in
        let f : Frame = record { policy_node = node; length = len1; step = suc i; verify = v } in
        let more =
          subst
            (λ l.
              Reaches get_derived_pubkey crypto_hash160 kind
                (running (at_ node l (suc i) v below (out1 ++ bytes)))
                (at_ x 0 0 false (f ∷ below) out1))
            (mod_of_mod len1 (length bytes)) (sim f out1) in
        onward e more

    one_child :
        (i len : ℕ) (out : List ℕ) (x : Node)
        → i < 255
        → ltb i (count all) ≡ true
        → nth_script all i ≡ some x
        → length below < 9
        → ((f : Frame) → Translates get_derived_pubkey crypto_hash160 kind key x false (f ∷ below))
        → Reaches get_derived_pubkey crypto_hash160 kind
            (running (
              at_ node
                ((len
                    + length (separator i ++ script key crypto_hash160 (is_tapscript kind) false x))
                  % 2 ^ 16)
                (suc i)
                v
                below
                (out ++ (separator i ++ script key crypto_hash160 (is_tapscript kind) false x))))
            (at_ node len i v below out)
    unfolding pass process process_thresh_node write_thresh write_thresh_child execute_processor
        update_output_u8 state_stack_push count_step update_output
    one_child i len out x small inside e room sim =
        let bytes = script key crypto_hash160 (is_tapscript kind) false x in
        let counted : (i + 1) % 2 ^ 8 ≡ suc i = omega arith in
        let free : leb 10 (1 + length below) ≡ false = gt→leb 10 (1 + length below) (omega arith) in
        elim (Bool-cases (ltb 1 i)) [
          | inr first ↦ rw first (
              child_done i len len out out x
                (rw
                  (
                    allowed, process, process_thresh_node, write_thresh, inside, write_thresh_child,
                    e, first, state_stack_push, free, counted,
                  )
                  refl)
                sim)
          | inl later ↦
              let longer : 1 + length bytes ≡ length (separator i ++ bytes) =
                rw later (omega arith) in
              let len_ = mod_add len 1 (length bytes) ∙ ap (λ l. (len + l) % 2 ^ 16) longer in
              let out_ : (out ++ one op_add) ++ bytes ≡ out ++ (separator i ++ bytes) =
                rw later (append_assoc out (one op_add) bytes) in
              subst
                (λ l.
                  Reaches get_derived_pubkey crypto_hash160 kind
                    (running (at_ node l (suc i) v below (out ++ (separator i ++ bytes))))
                    (at_ node len i v below out))
                len_
                (subst
                  (λ o.
                    Reaches get_derived_pubkey crypto_hash160 kind
                      (running
                        (at_ node (((len + 1) % 2 ^ 16 + length bytes) % 2 ^ 16) (suc i) v below o))
                      (at_ node len i v below out))
                  out_
                  (child_done i len ((len + 1) % 2 ^ 16) out (out ++ one op_add) x
                    (rw
                      (
                        allowed, process, process_thresh_node, write_thresh, inside,
                        write_thresh_child, e, later, state_stack_push, free, counted,
                      )
                      refl)
                    sim))
        ]

    -- From the `i`-th script on, `i` of them before it.
    children_from :
        (before : List Node) (xs : Scripts) (len : ℕ) (out : List ℕ)
        → all ≡ after before xs
        → count all < 255
        → 1 ≤ count all
        → length below < 9
        → AllTranslate xs below
        → Reaches get_derived_pubkey crypto_hash160 kind
            (resumed below
              ((len + length (remaining (length before) xs total)) % 2 ^ 16)
              (out ++ remaining (length before) xs total))
            (at_ node len (length before) v below out)
    unfolding remaining total
    children_from before end len out e small any room sims =
        finish_thresh len (length before) out (omega (arith, count-after before end, ap count e))
          any
    children_from before (next x xs) len out e small any room (sim, sims) =
        let i = length before in
        let bytes = separator i ++ script key crypto_hash160 (is_tapscript kind) false x in
        let rest = remaining (suc i) xs total in
        let counts : count all ≡ i + (1 + count xs) = ap count e ∙ count-after before (next x xs) in
        let longer : length (before ++ x ∷ []) ≡ suc i =
          omega (arith, length-append before (x ∷ [])) in
        Reaches-trans get_derived_pubkey crypto_hash160 kind _
          (one_child i len out x (omega (arith, counts))
            (lt→ltb i (count all) (omega (arith, counts)))
            (ap (λ s. nth_script s i) e ∙ nth-after before x xs) room sim)
          (rw
            (
              length-append bytes rest,
              sym (mod_add len (length bytes) (length rest)),
              sym (append_assoc out bytes rest),
            )
            (subst
              (λ j.
                Reaches get_derived_pubkey crypto_hash160 kind
                  (resumed below
                    (((len + length bytes) % 2 ^ 16 + length (remaining j xs total)) % 2 ^ 16)
                    ((out ++ bytes) ++ remaining j xs total))
                  (at_ node ((len + length bytes) % 2 ^ 16) j v below (out ++ bytes)))
              longer
              (children_from (before ++ x ∷ []) xs ((len + length bytes) % 2 ^ 16) (out ++ bytes)
                (e ∙ sym (after-next before x xs)) small any room sims)))

    -- The order of the code and the order of the rules: `ADD` before the next script or after this one.
    in_order :
        (i : ℕ) (xs : Scripts)
        → 2 ≤ i
        → remaining i xs total
          ≡ one op_add
            ++ (added_scripts key crypto_hash160 (is_tapscript kind) xs
                ++ (minimal_push k ++ verified v op_equal))
    unfolding remaining total script
    in_order i end h = refl
    in_order i (next x xs) h =
        let bytes = script key crypto_hash160 (is_tapscript kind) false x in
        let last = minimal_push k ++ verified v op_equal in
        let more = added_scripts key crypto_hash160 (is_tapscript kind) xs in
        rw (lt→ltb 1 i (omega arith), in_order (suc i) xs (omega arith))
          (ap (λ l. op_add ∷ l) (regrouped bytes more last))

    whole :
        (x y : Node) (xs : Scripts)
        → remaining 0 (next x (next y xs)) total
          ≡ concat (
              first_script key crypto_hash160 (is_tapscript kind) (next x (next y xs))
              ∷ minimal_push k
              ∷ verified v op_equal
              ∷ [])
    unfolding remaining concat script
    whole x y xs =
        let first = script key crypto_hash160 (is_tapscript kind) false x in
        let second = script key crypto_hash160 (is_tapscript kind) false y in
        let more = added_scripts key crypto_hash160 (is_tapscript kind) xs in
        let last = minimal_push k ++ verified v op_equal in
        rw (in_order 2 xs (omega arith), append-nil (verified v op_equal))
          (ap (λ l. first ++ l) (regrouped second more last)
            ∙ sym (append_assoc first (concat (second ∷ one op_add ∷ more ∷ [])) last))

    -- With two scripts or more, the list's bytes as the rules have them.
    pub thresh-Translates :
        (x y : Node) (xs : Scripts)
        → all ≡ next x (next y xs)
        → count all < 255
        → length below < 9
        → AllTranslate all below
        → Translates get_derived_pubkey crypto_hash160 kind key node v below
    unfolding script total concat
    thresh-Translates x y xs e small room sims out =
        let bytes = script key crypto_hash160 (is_tapscript kind) v node in
        let same : remaining 0 all total ≡ bytes = rw e (whole x y xs) in
        let counts : count all ≡ 1 + (1 + count xs) = ap count e in
        subst
          (λ l.
            Reaches get_derived_pubkey crypto_hash160 kind
              (resumed below (l % 2 ^ 16) (out ++ bytes)) (at_ node 0 0 v below out))
          (zero_add (length bytes))
          (subst
            (λ b.
              Reaches get_derived_pubkey crypto_hash160 kind
                (resumed below ((0 + length b) % 2 ^ 16) (out ++ b)) (at_ node 0 0 v below out))
            same (children_from [] all 0 out refl small (omega (arith, counts)) room sims))
