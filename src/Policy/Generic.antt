-- ===== src/Policy/Generic.antt =====
-- `process_generic_node` of handler/lib/policy.c: a table of commands as the bytes that each of its
-- commands writes.
use membrane_app_bitcoin_new.Policy.Reaches.{
  push_u32-update, stop, update-update, op_v-update, Reaches,
}
use membrane_app_bitcoin_new.Policy.Translation.{minimal_push, key_push, verified, script}
use membrane_app_bitcoin_new.Policy.{
  is_whitelisted, hash_20, hash_32, key_placeholder, number, token, ScriptKind, KeyPlaceholder,
  Node,
}
use membrane_app_bitcoin_new.Common.{
  true, inr, drop, inl, ◌∙◌, Bool-cases, ◌++◌, arith, length, some, ap, ◌^◌, ◌%◌, ◌<◌, ◌+◌, ◌≡◌,
  Bool, Option, List, ℕ, [], ◌∷◌, suc, refl,
}
use membrane_app_bitcoin_new.Policy.Machine.{
  pass, update_output, count_step, is_tapscript, push_hash, push_key, push_key_hash, push_number,
  update_output_u8, execute, execute_processor, Machine, Outcome, Frame, state_stack_pop, running,
  done, again,
}
use membrane_app_bitcoin_new.Policy.Commands.{
  generic, processor, NodeCommand, op, op_v, push_pk, push_pkh, push_uint32, push_hash20,
  push_hash32,
}

abbrev pub at_ : Node → ℕ → ℕ → Bool → List Frame → List ℕ → Machine
at_ x len step v below out = record {
  top = record { policy_node = x; length = len; step = step; verify = v };
  below = below;
  output = out;
}

-- What is left when the top is popped with its length.
abbrev pub resumed : List Frame → ℕ → List ℕ → Outcome
resumed [] len out = done len out
resumed (f ∷ fs) len out =
    running
      record { top = record f { length = (f.length + len) % 2 ^ 16 }; below = fs; output = out }

pub pop-resumed :
    (x : Node) (len step : ℕ) (v : Bool) (below : List Frame) (out : List ℕ)
    → state_stack_pop (at_ x len step v below out) ≡ resumed below len out
unfolding state_stack_pop
pop-resumed x len step v [] out = refl
pop-resumed x len step v (f ∷ fs) out = refl

module _ (get_derived_pubkey : KeyPlaceholder → Option (List ℕ)) (crypto_hash160 : List ℕ → List ℕ)
    (kind : ScriptKind) (key : KeyPlaceholder → List ℕ) where
  -- From its first step to its pop, a node's machine writes the node's script.
  abbrev pub Translates : Node → Bool → List Frame → Type 0
  Translates x v below =
      (out : List ℕ)
      → let bytes = script key crypto_hash160 (is_tapscript kind) v x in
        Reaches get_derived_pubkey crypto_hash160 kind
          (resumed below (length bytes % 2 ^ 16) (out ++ bytes)) (at_ x 0 0 v below out)

  module _ (x : Node) (v : Bool) (below : List Frame) where
    -- A command at any step writes the bytes.
    pub record Writes (command : NodeCommand) (bytes : List ℕ) : Type 0 where
      pub written :
          (len step : ℕ) (out : List ℕ)
          → step < 200
          → pass get_derived_pubkey crypto_hash160 kind (at_ x len step v below out)
            ≡ execute_processor (
                execute get_derived_pubkey crypto_hash160
                  (is_tapscript kind)
                  (at_ x len step v below out)
                  command)
          → Reaches get_derived_pubkey crypto_hash160 kind
              (running (at_ x ((len + length bytes) % 2 ^ 16) (suc step) v below (out ++ bytes)))
              (at_ x len step v below out)

    -- The commands that end a table, after those of a prefix, write the bytes and end the node.
    pub record Chain (commands : List NodeCommand) (bytes : List ℕ) : Type 0 where
      pub written :
          (before : List NodeCommand) (len : ℕ) (out : List ℕ)
          → is_whitelisted kind (token x) ≡ true
          → processor (token x) ≡ some (generic (before ++ commands))
          → length (before ++ commands) < 200
          → len < 2 ^ 16
          → Reaches get_derived_pubkey crypto_hash160 kind
              (resumed below ((len + length bytes) % 2 ^ 16) (out ++ bytes))
              (at_ x len (length before) v below out)

module _ {get_derived_pubkey : KeyPlaceholder → Option (List ℕ)} {crypto_hash160 : List ℕ → List ℕ}
    {kind : ScriptKind} {key : KeyPlaceholder → List ℕ} {x : Node} {v : Bool}
    {below : List Frame} where
  -- A write of a command that is one call of `update_output`.
  pub one_write :
      (command : NodeCommand) (bytes : List ℕ)
      → ((len step : ℕ) (out : List ℕ)
          → execute get_derived_pubkey crypto_hash160
              (is_tapscript kind)
              (at_ x len step v below out)
              command
            ≡ again (count_step (update_output (at_ x len step v below out) bytes)))
      → Writes get_derived_pubkey crypto_hash160 kind key x v below command bytes
  unfolding execute_processor count_step update_output
  one_write command bytes h = record {
    written = λ len step out small e.
        let counted : (step + 1) % 2 ^ 8 ≡ suc step = omega arith in
        stop (e ∙ ap execute_processor (h len step out) ∙ rw counted refl);
  }

  pub op-Writes :
      (o : ℕ) → Writes get_derived_pubkey crypto_hash160 kind key x v below (op o) (o ∷ [])
  unfolding execute update_output_u8
  op-Writes o = one_write (op o) (o ∷ []) (λ len step out. refl)

  pub op_v-Writes :
      (o : ℕ) → Writes get_derived_pubkey crypto_hash160 kind key x v below (op_v o) (verified v o)
  unfolding execute
  op_v-Writes o =
      one_write (op_v o) (verified v o) (λ len step out.
        ap (λ m. again (count_step m)) (op_v-update (at_ x len step v below out) o))

  pub pk-Writes :
      (p : KeyPlaceholder)
      → key_placeholder x ≡ some p
      → get_derived_pubkey p ≡ some (key p)
      → Writes get_derived_pubkey crypto_hash160 kind key x v below push_pk
          (key_push key crypto_hash160 (is_tapscript kind) p)
  unfolding execute push_key key_push update_output_u8
  pk-Writes p e d =
      one_write push_pk (key_push key crypto_hash160 (is_tapscript kind) p) (λ len step out.
        elim (Bool-cases (is_tapscript kind)) [
          | inl t ↦
              rw (e, push_key, d, t)
                (ap (λ m. again (count_step m))
                  (update-update (at_ x len step v below out) (32 ∷ []) (drop 1 (key p))))
          | inr t ↦
              rw (e, push_key, d, t)
                (ap (λ m. again (count_step m))
                  (update-update (at_ x len step v below out) (33 ∷ []) (key p)))
        ])

  pub pkh-Writes :
      (p : KeyPlaceholder)
      → key_placeholder x ≡ some p
      → get_derived_pubkey p ≡ some (key p)
      → Writes get_derived_pubkey crypto_hash160 kind key x v below push_pkh
          (20 ∷ crypto_hash160 (key p))
  unfolding execute push_key_hash update_output_u8
  pkh-Writes p e d = one_write push_pkh (20 ∷ crypto_hash160 (key p)) (λ len step out.
      rw (e, push_key_hash, d)
        (ap (λ m. again (count_step m))
          (update-update (at_ x len step v below out) (20 ∷ []) (crypto_hash160 (key p)))))

  pub uint32-Writes :
      (n : ℕ)
      → number x ≡ some n
      → Writes get_derived_pubkey crypto_hash160 kind key x v below push_uint32 (minimal_push n)
  unfolding execute push_number
  uint32-Writes n e = one_write push_uint32 (minimal_push n) (λ len step out.
      rw (e, push_number)
        (ap (λ m. again (count_step m)) (push_u32-update (at_ x len step v below out) n)))

  pub hash20-Writes :
      (h : List ℕ)
      → hash_20 x ≡ some h
      → Writes get_derived_pubkey crypto_hash160 kind key x v below push_hash20 (20 ∷ h)
  unfolding execute push_hash update_output_u8
  hash20-Writes h e = one_write push_hash20 (20 ∷ h) (λ len step out.
      rw (e, push_hash)
        (ap (λ m. again (count_step m)) (update-update (at_ x len step v below out) (20 ∷ []) h)))

  pub hash32-Writes :
      (h : List ℕ)
      → hash_32 x ≡ some h
      → Writes get_derived_pubkey crypto_hash160 kind key x v below push_hash32 (32 ∷ h)
  unfolding execute push_hash update_output_u8
  hash32-Writes h e = one_write push_hash32 (32 ∷ h) (λ len step out.
      rw (e, push_hash)
        (ap (λ m. again (count_step m)) (update-update (at_ x len step v below out) (32 ∷ []) h)))
