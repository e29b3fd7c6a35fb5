-- ===== src/Policy/Stack.antt =====
-- The stack of `get_wallet_internal_script_hash` of handler/lib/policy.c: the number of the nodes below
-- the one on top, which is the index of the latter in an array of MAX_POLICY_DEPTH nodes.
use membrane_app_bitcoin_new.Policy.Loops.{
  multi_a-Bounded, multi-Bounded, thresh-Bounded, pkh-Bounded,
}
use membrane_app_bitcoin_new.Policy.Bounded.{Stacked, generic-Bounded, Bounded, InStack}
use membrane_app_bitcoin_new.Policy.Picked.{IsKey}
use membrane_app_bitcoin_new.Policy.Shape.{Prepared, ready, Shaped}
use membrane_app_bitcoin_new.Policy.Commands.{
  pkh_wpkh, thresh_node, multi_sortedmulti, multi_a_sortedmulti_a,
}
use membrane_app_bitcoin_new.Policy.Generic.{at_}
use mathlib.Core.Path.{subst}
use membrane_app_bitcoin_new.Policy.{token, is_whitelisted, ScriptKind}
use membrane_app_bitcoin_new.Policy.{Node, KeyPlaceholder}
use membrane_app_bitcoin_new.Common.{
  ◌==◌, Bool-cases, Option-cases, Bool, arith, List, ◌<◌, ◌≡◌, Option, length, ℕ, zero, suc, some,
  false, [], ◌∷◌, refl, inl, inr,
}
use membrane_app_bitcoin_new.Policy.Machine.{
  max_policy_depth, is_sorted, is_tapscript, process_multi_a_sortedmulti_a_node,
  process_multi_sortedmulti_node, process_thresh_node, process_pkh_wpkh_node,
  get_wallet_internal_script_hash, pass, process, run, is_pkh, Frame, Machine, Outcome, Processed,
  execute_processor, state_stack_pop, again, finished, failed, undefined, running, done, rejected,
  broken,
}
use membrane_app_bitcoin_new.Policy.Commands.{generic, Processor, processor}

abbrev RunsInStack : Outcome → Type 0
RunsInStack (running m) = InStack m
RunsInStack (done len bytes) = Unit
RunsInStack rejected = Unit
RunsInStack broken = ⊥

-- Nothing outside of the stack or of a node has been read, and the index of the node on top of the
-- stack is one of its places.
abbrev pub IsSafe : Outcome → Type 0
IsSafe (running m) = length m.below < max_policy_depth
IsSafe (done len bytes) = Unit
IsSafe rejected = Unit
IsSafe broken = ⊥

RunsInStack-IsSafe : (o : Outcome) → RunsInStack o → IsSafe o
RunsInStack-IsSafe (running m) (h, stacked) = h
RunsInStack-IsSafe (done len bytes) h = tt
RunsInStack-IsSafe rejected h = tt
RunsInStack-IsSafe broken h = absurd h

fewer : {A : Type 0} (f : A) (fs : List A) → length (f ∷ fs) < 10 → length fs < 10
fewer f fs h = omega arith

popped :
    (m : Machine) (fs : List Frame) → m.below ≡ fs → InStack m → RunsInStack (state_stack_pop m)
unfolding state_stack_pop
popped m [] e h = rw (state_stack_pop, e) tt
popped m (f ∷ fs) e (h, (shaped, stacked)) =
    rw (state_stack_pop, e) (fewer f fs (subst (λ l. length l < 10) e h), subst Stacked e stacked)

pop-InStack : (m : Machine) → InStack m → RunsInStack (state_stack_pop m)
pop-InStack m h = popped m m.below refl h

execute_processor-InStack : (r : Processed) → Bounded r → RunsInStack (execute_processor r)
unfolding execute_processor
execute_processor-InStack (again m) h = h
execute_processor-InStack (finished m) h = pop-InStack m h
execute_processor-InStack failed h = tt
execute_processor-InStack undefined h = absurd h

module _ (get_derived_pubkey : KeyPlaceholder → Option (List ℕ)) (crypto_hash160 : List ℕ → List ℕ)
    (valid : (p : KeyPlaceholder) (k : List ℕ) → get_derived_pubkey p ≡ some k → IsKey k) where
  process-Bounded :
      (t : Bool) (m : Machine) (p : Processor)
      → InStack m
      → Prepared (length m.below) m.top.policy_node (some p)
      → Bounded (process get_derived_pubkey crypto_hash160 t m p)
  unfolding process process_pkh_wpkh_node process_thresh_node process_multi_sortedmulti_node
      process_multi_a_sortedmulti_a_node
  process-Bounded t m (generic cs) h served =
      generic-Bounded get_derived_pubkey crypto_hash160 t m cs h served
  process-Bounded t m pkh_wpkh h (p, e) = elim (Bool-cases (m.top.step == 0)) [
    | inl f ↦
        rw (process, process_pkh_wpkh_node, f, e)
          (pkh-Bounded get_derived_pubkey crypto_hash160 m (is_pkh (token m.top.policy_node))
            (token m.top.policy_node) p refl h)
    | inr f ↦ rw (process, process_pkh_wpkh_node, f) tt
  ]
  process-Bounded t m thresh_node h (k, xs, e, free, all) =
      rw (process, process_thresh_node, e)
        (thresh-Bounded get_derived_pubkey crypto_hash160 m k xs h free all)
  process-Bounded t m multi_sortedmulti h (k, ps, e) =
      rw (process, process_multi_sortedmulti_node, e)
        (multi-Bounded get_derived_pubkey crypto_hash160 valid m
          (is_sorted (token m.top.policy_node)) k ps h)
  process-Bounded t m multi_a_sortedmulti_a h (k, ps, e, cleared) =
      rw (process, process_multi_a_sortedmulti_a_node, e)
        (multi_a-Bounded get_derived_pubkey crypto_hash160 valid m
          (is_sorted (token m.top.policy_node)) k ps h cleared)

  pass-InStack :
      (kind : ScriptKind) (m : Machine)
      → InStack m
      → RunsInStack (pass get_derived_pubkey crypto_hash160 kind m)
  unfolding pass
  pass-InStack kind m h = elim (Bool-cases (is_whitelisted kind (token m.top.policy_node))) [
    | inr e ↦ rw (pass, e) tt
    | inl e ↦ elim (Option-cases (processor (token m.top.policy_node))) [
      | inl f ↦ rw (pass, e, f) tt
      | inr (p, f) ↦
          rw (pass, e, f)
            (execute_processor-InStack
              (process get_derived_pubkey crypto_hash160 (is_tapscript kind) m p)
              (process-Bounded (is_tapscript kind) m p h (
                subst (Prepared (length m.below) m.top.policy_node) f
                  (ready (length m.below) m.top.policy_node h.1.0))))
    ]
  ]

  onwards :
      (kind : ScriptKind) (fuel : ℕ) (o : Outcome)
      → ((m : Machine)
          → InStack m
          → RunsInStack (run get_derived_pubkey crypto_hash160 kind fuel m))
      → RunsInStack o
      → RunsInStack (elim o [
        | running m1 ↦ run get_derived_pubkey crypto_hash160 kind fuel m1
        | done len bytes ↦ done len bytes
        | rejected ↦ rejected
        | broken ↦ broken
      ])
  onwards kind fuel (running m1) next_runs h = next_runs m1 h
  onwards kind fuel (done len bytes) next_runs h = tt
  onwards kind fuel rejected next_runs h = tt
  onwards kind fuel broken next_runs h = absurd h

  run-InStack :
      (kind : ScriptKind) (fuel : ℕ) (m : Machine)
      → InStack m
      → RunsInStack (run get_derived_pubkey crypto_hash160 kind fuel m)
  unfolding run
  run-InStack kind zero m h = h
  run-InStack kind (suc fuel) m h =
      onwards kind fuel (pass get_derived_pubkey crypto_hash160 kind m)
        (λ m1 h1. run-InStack kind fuel m1 h1) (pass-InStack kind m h)

  -- Where every key that is derived has 33 bytes and is below 33 bytes 0xff, also without its first
  -- byte, though any derivation may fail: for a node whose tokens stand on their structures, of a
  -- height of at most MAX_POLICY_DEPTH and with at most 8 keys in each `sortedmulti_a`, and for every
  -- script type, `get_wallet_internal_script_hash` never reads outside of its stack, of the bits of
  -- used keys or of a list of keys or scripts, nor a node as another structure, and after any number
  -- of passes in which it has not returned, the index of the node on top is less than
  -- MAX_POLICY_DEPTH.
  pub get_wallet_internal_script_hash-IsSafe :
      (kind : ScriptKind) (fuel : ℕ) (x : Node)
      → Shaped 0 x
      → IsSafe (get_wallet_internal_script_hash get_derived_pubkey crypto_hash160 kind fuel x)
  unfolding get_wallet_internal_script_hash
  get_wallet_internal_script_hash-IsSafe kind fuel x shaped =
      RunsInStack-IsSafe (run get_derived_pubkey crypto_hash160 kind fuel (at_ x 0 0 false [] []))
        (run-InStack kind fuel (at_ x 0 0 false [] []) (omega arith, (shaped, tt)))
