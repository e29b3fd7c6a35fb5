-- ===== src/Policy/Bounded.antt =====
-- The nodes on the stack of `get_wallet_internal_script_hash` of handler/lib/policy.c, and what one
-- command of `process_generic_node` makes of them.
use membrane_app_bitcoin_new.Policy.Shape.{Served, Shaped}
use membrane_app_bitcoin_new.Policy.Reaches.{op_v-update, push_u32-update}
use membrane_app_bitcoin_new.Policy.{Node, KeyPlaceholder}
use membrane_app_bitcoin_new.Common.{
  gt→leb, drop, ltb, Bool-cases, Option-cases, Bool, arith, List, ◌<◌, ◌≡◌, Option, length, ◌+◌,
  leb, ℕ, suc, some, true, false, [], ◌∷◌, inl, inr, All, All-drop,
}
use membrane_app_bitcoin_new.Policy.Machine.{
  Frame, update_output_u8, command_or_end, execute, process_generic_node, push_hash, push_key,
  push_key_hash, push_number, count_step, state_stack_push, update_output_op_v,
  update_output_push_u32, Machine, Processed, push_child, update_output, again, finished, failed,
  undefined,
}
use membrane_app_bitcoin_new.Policy.Commands.{
  NodeCommand, op, op_v, push_pk, push_pkh, push_uint32, push_hash20, push_hash32, process_child,
  process_child_v, process_child_vv,
}

-- Each node of the stack is of its height or less.
abbrev pub Stacked : List Frame → Type 0
Stacked [] = Unit
Stacked (f ∷ fs) = Shaped (length fs) f.policy_node × Stacked fs

abbrev pub InStack : Machine → Type 0
InStack m = (length m.below < 10) × Stacked (m.top ∷ m.below)

-- What a processor returns on such a stack.
abbrev pub Bounded : Processed → Type 0
Bounded (again m) = InStack m
Bounded (finished m) = InStack m
Bounded failed = Unit
Bounded undefined = ⊥

pub op_v-InStack : (m : Machine) (o : ℕ) → InStack m → InStack (update_output_op_v m o)
unfolding update_output
op_v-InStack m o h = rw (op_v-update m o) h

pub push_u32-InStack : (m : Machine) (n : ℕ) → InStack m → InStack (update_output_push_u32 m n)
unfolding update_output
push_u32-InStack m n h = rw (push_u32-update m n) h

pub room_for : (n : ℕ) → n < 9 → leb 10 (1 + n) ≡ false
room_for n h = gt→leb 10 (1 + n) (omega arith)

pub deeper : (n : ℕ) → n < 9 → suc n < 10
deeper n h = omega arith

push_child-Bounded :
    (m : Machine) (y : Node) (v : Bool)
    → InStack m
    → length m.below < 9
    → Shaped (suc (length m.below)) y
    → Bounded (push_child m (some y) v)
unfolding push_child state_stack_push count_step
push_child-Bounded m y v (h, stacked) free shaped =
    rw (push_child, state_stack_push, room_for (length m.below) free)
      (deeper (length m.below) free, (shaped, stacked))

module _ (get_derived_pubkey : KeyPlaceholder → Option (List ℕ))
    (crypto_hash160 : List ℕ → List ℕ) where
  push_key-Bounded :
      (t : Bool) (m : Machine) (p : KeyPlaceholder)
      → InStack m
      → Bounded (push_key get_derived_pubkey crypto_hash160 t m (some p))
  unfolding push_key update_output update_output_u8 count_step
  push_key-Bounded t m p h = elim (Option-cases (get_derived_pubkey p)) [
    | inl e ↦ rw (push_key, e) tt
    | inr (k, e) ↦ elim (Bool-cases t) [
      | inl f ↦ rw (push_key, e, f) h
      | inr f ↦ rw (push_key, e, f) h
    ]
  ]

  push_key_hash-Bounded :
      (m : Machine) (p : KeyPlaceholder)
      → InStack m
      → Bounded (push_key_hash get_derived_pubkey crypto_hash160 m (some p))
  unfolding push_key_hash update_output update_output_u8 count_step
  push_key_hash-Bounded m p h = elim (Option-cases (get_derived_pubkey p)) [
    | inl e ↦ rw (push_key_hash, e) tt
    | inr (k, e) ↦ rw (push_key_hash, e) h
  ]

  execute-Bounded :
      (t : Bool) (m : Machine) (c : NodeCommand)
      → InStack m
      → Served (length m.below) m.top.policy_node c
      → Bounded (execute get_derived_pubkey crypto_hash160 t m c)
  unfolding execute update_output update_output_u8 count_step push_hash push_number
  execute-Bounded t m (op o) h served = h
  execute-Bounded t m (op_v o) h served = op_v-InStack m o h
  execute-Bounded t m push_pk h (p, e) = rw (execute, e) (push_key-Bounded t m p h)
  execute-Bounded t m push_pkh h (p, e) = rw (execute, e) (push_key_hash-Bounded m p h)
  execute-Bounded t m push_uint32 h (n, e) = rw (execute, e) (push_u32-InStack m n h)
  execute-Bounded t m push_hash20 h (k, e) = rw (execute, e) h
  execute-Bounded t m push_hash32 h (k, e) = rw (execute, e) h
  execute-Bounded t m (process_child i) h (y, e, free, shaped) =
      rw (execute, e) (push_child-Bounded m y false h free shaped)
  execute-Bounded t m (process_child_v i) h (y, e, free, shaped) =
      rw (execute, e) (push_child-Bounded m y m.top.verify h free shaped)
  execute-Bounded t m (process_child_vv i) h (y, e, free, shaped) =
      rw (execute, e) (push_child-Bounded m y true h free shaped)

  command_or_end-Bounded :
      (t : Bool) (m : Machine) (cs : List NodeCommand)
      → InStack m
      → All (Served (length m.below) m.top.policy_node) cs
      → Bounded (command_or_end get_derived_pubkey crypto_hash160 t m cs)
  unfolding command_or_end
  command_or_end-Bounded t m [] h served = h
  command_or_end-Bounded t m (c ∷ cs) h (served, more) = execute-Bounded t m c h served

  pub generic-Bounded :
      (t : Bool) (m : Machine) (cs : List NodeCommand)
      → InStack m
      → All (Served (length m.below) m.top.policy_node) cs
      → Bounded (process_generic_node get_derived_pubkey crypto_hash160 t m cs)
  unfolding process_generic_node
  generic-Bounded t m cs h served = elim (Bool-cases (ltb (length cs) m.top.step)) [
    | inl e ↦ rw (process_generic_node, e) tt
    | inr e ↦
        rw (process_generic_node, e)
          (command_or_end-Bounded t m (drop m.top.step cs) h
            (All-drop (Served (length m.below) m.top.policy_node) m.top.step cs served))
  ]
