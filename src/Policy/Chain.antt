-- ===== src/Policy/Chain.antt =====
-- The commands of a table in order: the children that `process_generic_node` of
-- handler/lib/policy.c pushes, and the composition of the writes of a table's commands.
use membrane_app_bitcoin_new.Policy.Reaches.{onward, mod_add, stop, Reaches-trans, Reaches}
use membrane_app_bitcoin_new.Policy.Translation.{script}
use membrane_app_bitcoin_new.Policy.Generic.{pop-resumed, resumed, at_, Chain, Translates, Writes}
use membrane_app_bitcoin_new.Policy.{child, token, is_whitelisted, Node, ScriptKind, KeyPlaceholder}
use mathlib.Core.Path.{subst}
use membrane_app_bitcoin_new.Common.{
  ap, drop-append_self, ◌∙◌, gt→leb, le→ltb, sym, leb, ltb, append-nil, append_assoc, length-append,
  ◌++◌, ◌<◌, length, some, Bool, arith, ◌≡◌, List, ◌^◌, Option, ◌%◌, ◌+◌, ℕ, [], ◌∷◌, suc, true,
  false, refl,
}
use membrane_app_bitcoin_new.Policy.Machine.{
  running, is_tapscript, process_generic_node, count_step, process, command_or_end, pass,
  state_stack_push, push_child, execute, execute_processor, Frame,
}
use membrane_app_bitcoin_new.Policy.Commands.{
  generic, processor, NodeCommand, process_child, process_child_v, process_child_vv,
}

pub mod_of_mod : (x y : ℕ) → (x + y % 2 ^ 16) % 2 ^ 16 ≡ (x + y) % 2 ^ 16
mod_of_mod x y = omega arith

pub zero_add : (n : ℕ) → 0 + n ≡ n
zero_add n = omega arith

fitting : (len : ℕ) → len < 2 ^ 16 → (len + 0) % 2 ^ 16 ≡ len
fitting len h = omega arith

module _ (get_derived_pubkey : KeyPlaceholder → Option (List ℕ)) (crypto_hash160 : List ℕ → List ℕ)
    (kind : ScriptKind) (x : Node) (v : Bool) (below : List Frame)
    (allowed : is_whitelisted kind (token x) ≡ true) where
  -- The pass at the step of the first command that is left.
  next_command :
      (before commands : List NodeCommand) (len : ℕ) (out : List ℕ)
      → processor (token x) ≡ some (generic (before ++ commands))
      → pass get_derived_pubkey crypto_hash160 kind (at_ x len (length before) v below out)
        ≡ execute_processor (
            command_or_end get_derived_pubkey crypto_hash160
              (is_tapscript kind)
              (at_ x len (length before) v below out)
              commands)
  unfolding pass process process_generic_node
  next_command before commands len out e =
      let n : ltb (length (before ++ commands)) (length before) ≡ false =
        le→ltb (length (before ++ commands)) (length before)
          (omega (arith, length-append before commands)) in
      rw (allowed, e, n, drop-append_self before commands) refl

  no_command :
      (before : List NodeCommand) (len : ℕ) (out : List ℕ)
      → processor (token x) ≡ some (generic (before ++ []))
      → Reaches get_derived_pubkey crypto_hash160 kind
          (resumed below len out)
          (at_ x len (length before) v below out)
  unfolding execute_processor command_or_end
  no_command before len out e =
      stop (next_command before [] len out e ∙ pop-resumed x len (length before) v below out)

module _ {get_derived_pubkey : KeyPlaceholder → Option (List ℕ)} {crypto_hash160 : List ℕ → List ℕ}
    {kind : ScriptKind} {key : KeyPlaceholder → List ℕ} {x : Node} {v : Bool}
    {below : List Frame} where
  -- A child pushed with the flag `w` writes its script.
  pushed :
      (command : NodeCommand) (y : Node) (w : Bool)
      → length below < 9
      → ((f : Frame) → Translates get_derived_pubkey crypto_hash160 kind key y w (f ∷ below))
      → ((len step : ℕ) (out : List ℕ)
          → execute get_derived_pubkey crypto_hash160
              (is_tapscript kind)
              (at_ x len step v below out)
              command
            ≡ push_child (at_ x len step v below out) (some y) w)
      → Writes get_derived_pubkey crypto_hash160 kind key x v below command
          (script key crypto_hash160 (is_tapscript kind) w y)
  unfolding execute_processor push_child state_stack_push count_step
  pushed command y w room sim h = record {
    written = λ len step out small e.
        let bytes = script key crypto_hash160 (is_tapscript kind) w y in
        let counted : (step + 1) % 2 ^ 8 ≡ suc step = omega arith in
        let free : leb 10 (1 + length below) ≡ false = gt→leb 10 (1 + length below) (omega arith) in
        let f : Frame = record { policy_node = x; length = len; step = suc step; verify = v } in
        let first =
          e
          ∙ ap execute_processor (h len step out)
          ∙ rw (push_child, state_stack_push, free, counted) refl in
        let after =
          subst
            (λ l.
              Reaches get_derived_pubkey crypto_hash160 kind
                (running (at_ x l (suc step) v below (out ++ bytes))) (at_ y 0 0 w (f ∷ below) out))
            (mod_of_mod len (length bytes)) (sim f out) in
        onward first after;
  }

  pub child-Writes :
      (i : ℕ) (y : Node)
      → child x i ≡ some y
      → length below < 9
      → ((f : Frame) → Translates get_derived_pubkey crypto_hash160 kind key y false (f ∷ below))
      → Writes get_derived_pubkey crypto_hash160 kind key x v below
          (process_child i)
          (script key crypto_hash160 (is_tapscript kind) false y)
  unfolding execute
  child-Writes i y e room sim =
      pushed (process_child i) y false room sim (λ len step out. rw e refl)

  pub child_v-Writes :
      (i : ℕ) (y : Node)
      → child x i ≡ some y
      → length below < 9
      → ((f : Frame) → Translates get_derived_pubkey crypto_hash160 kind key y v (f ∷ below))
      → Writes get_derived_pubkey crypto_hash160 kind key x v below
          (process_child_v i)
          (script key crypto_hash160 (is_tapscript kind) v y)
  unfolding execute
  child_v-Writes i y e room sim =
      pushed (process_child_v i) y v room sim (λ len step out. rw e refl)

  pub child_vv-Writes :
      (i : ℕ) (y : Node)
      → child x i ≡ some y
      → length below < 9
      → ((f : Frame) → Translates get_derived_pubkey crypto_hash160 kind key y true (f ∷ below))
      → Writes get_derived_pubkey crypto_hash160 kind key x v below
          (process_child_vv i)
          (script key crypto_hash160 (is_tapscript kind) true y)
  unfolding execute
  child_vv-Writes i y e room sim =
      pushed (process_child_vv i) y true room sim (λ len step out. rw e refl)

  pub no_more : Chain get_derived_pubkey crypto_hash160 kind key x v below [] []
  no_more = record {
    written = λ before len out allowed e small fits.
        rw (fitting len fits, append-nil out)
          (no_command get_derived_pubkey crypto_hash160 kind x v below allowed before len out e);
  }

  infixr 5 ◌>>◌
  pub ◌>>◌ :
      {command : NodeCommand} {commands : List NodeCommand} {bytes rest : List ℕ}
      → Writes get_derived_pubkey crypto_hash160 kind key x v below command bytes
      → Chain get_derived_pubkey crypto_hash160 kind key x v below commands rest
      → Chain get_derived_pubkey crypto_hash160 kind key x v below
          (command ∷ commands)
          (bytes ++ rest)
  unfolding command_or_end
  ◌>>◌ {command} {commands} {bytes} {rest} w c = record {
    written = λ before len out allowed e small fits.
        let longer = length-append before (command ∷ commands) in
        let one =
          next_command get_derived_pubkey crypto_hash160 kind x v below allowed before
            (command ∷ commands) len out e in
        let all = append_assoc before (command ∷ []) commands in
        let at_end : length (before ++ command ∷ []) ≡ suc (length before) =
          omega (arith, length-append before (command ∷ [])) in
        Reaches-trans get_derived_pubkey crypto_hash160 kind _
          (w.written len (length before) out (omega (arith, longer)) one)
          (subst
            (λ k.
              Reaches get_derived_pubkey crypto_hash160 kind
                (resumed below ((len + length (bytes ++ rest)) % 2 ^ 16) (out ++ (bytes ++ rest)))
                (at_ x ((len + length bytes) % 2 ^ 16) k v below (out ++ bytes)))
            at_end
            (rw
              (
                length-append bytes rest,
                sym (mod_add len (length bytes) (length rest)),
                sym (append_assoc out bytes rest),
              )
              (c.written (before ++ command ∷ []) ((len + length bytes) % 2 ^ 16) (out ++ bytes)
                allowed (rw all e) (rw all small) (omega arith))));
  }

  -- A table as a whole.
  pub Chain-Translates :
      {commands : List NodeCommand} {bytes : List ℕ}
      → Chain get_derived_pubkey crypto_hash160 kind key x v below commands bytes
      → is_whitelisted kind (token x) ≡ true
      → processor (token x) ≡ some (generic commands)
      → length commands < 200
      → bytes ≡ script key crypto_hash160 (is_tapscript kind) v x
      → Translates get_derived_pubkey crypto_hash160 kind key x v below
  Chain-Translates {commands} {bytes} c allowed e small same out = rw (sym same) (
      subst
        (λ l.
          Reaches get_derived_pubkey crypto_hash160 kind (resumed below (l % 2 ^ 16) (out ++ bytes))
            (at_ x 0 0 v below out))
        (zero_add (length bytes)) (c.written [] 0 out allowed e small (omega arith)))
