-- ===== src/Preimage/Rest.antt =====
-- The loop that fetches the rest of a preimage: what each round finds in the read buffer, and an
-- invariant rule.
use membrane_app_bitcoin_new.Common.{
  ==_iff, inl, inr, ◌==◌, Bool-cases, ◌-◌, All, ◌++◌, List, [], ◌*◌, ◌+◌, ◌∷◌, length-drop,
  length-take, arith, true, take, ◌≤◌, length, ◌≡◌, ℕ,
}
use mathlib.Core.Path.{subst}
use membrane_app_bitcoin_new.Common.Result.{Result-cases, err, Result, ok}
use membrane_app_bitcoin_new.Buffer.Inv.{IsValid}
use membrane_app_bitcoin_new.Buffer.Steps.{
  read_varint-Stepped, can_read-le, read_u8-Stepped, skip-IsValid,
}
use membrane_app_bitcoin_new.Dispatcher.{
  sw_interrupted_execution, Dispatcher, Exchange, process_interruption, set_response,
}
use membrane_app_bitcoin_new.Dispatcher.Received.{Fresh, Fits, process_interruption-Fresh}
use membrane_app_bitcoin_new.Preimage.{
  buffer_read_varint, read_rest, read_header, first_reply, buffer_can_read, buffer_read_u8, Buffer,
  current, more_elements, ccmd_get_more_elements,
}

-- `n` bytes stand at the read position, `at` bytes into the payload.
pub record Ready (dc : Dispatcher) (at n : ℕ) : Type 0 where
  pub valid : IsValid dc.read_buffer
  pub position : dc.read_buffer.offset ≡ at
  pub room : at + n ≤ length dc.read_buffer.ptr

pub length-current : (dc : Dispatcher) (at n : ℕ) → Ready dc at n → length (take n (current dc)) ≡ n
length-current dc at n r =
    omega (arith, length-take n (current dc), length-drop dc.read_buffer.offset dc.read_buffer.ptr)

-- Two bytes are read from a fresh buffer, and the room for the rest is checked.
two_bytes :
    (b : Buffer) (n m : ℕ)
    → IsValid b
    → b.offset ≡ 0
    → (buffer_read_u8 b).0 ≡ true
    → (buffer_read_u8 (buffer_read_u8 b).2).0 ≡ true
    → buffer_can_read (buffer_read_u8 (buffer_read_u8 b).2).2 (n * m) ≡ true
    → m ≡ 1
    → let b' = (buffer_read_u8 (buffer_read_u8 b).2).2 in
      IsValid b' × (b'.offset ≡ 2) × (2 + n ≤ length b'.ptr)
two_bytes b n m v z p q c e =
    let s = read_u8-Stepped b v p in
    let v1 : IsValid (buffer_read_u8 b).2 = rw s.skipped (skip-IsValid b 1 v s.room) in
    let s' = read_u8-Stepped (buffer_read_u8 b).2 v1 q in
    let v2 : IsValid (buffer_read_u8 (buffer_read_u8 b).2).2 =
      rw s'.skipped (skip-IsValid (buffer_read_u8 b).2 1 v1 s'.room) in
    let r = can_read-le (buffer_read_u8 (buffer_read_u8 b).2).2 (n * m) v2 c in
    ground (arith, s, s', v1, v2, r)

pub more_elements-Ready :
    (code : ℕ) (e : Exchange) (dc : Dispatcher) (left n : ℕ) {dc' : Dispatcher}
    → Fits e
    → more_elements code e dc left ≡ ok (n, dc')
    → (n ≤ left) × Ready dc' 2 n
unfolding more_elements
more_elements-Ready code e dc left n f h =
    let dc0 = set_response dc (ccmd_get_more_elements ∷ []) sw_interrupted_execution in
    ground (
      arith,
      process_interruption-Fresh e dc0 f,
      two_bytes (process_interruption e dc0).1.read_buffer n
          (buffer_read_u8 (buffer_read_u8 (process_interruption e dc0).1.read_buffer).2).1,
    )

-- What an invariant says of the loop's result.
abbrev Ends {κ} :
    {S : Type 0}
    → (List ℕ → S → ℕ → Type κ)
    → Result (List ℕ × S × Dispatcher × List Exchange)
    → Type κ
Ends I (ok (fed, s, dc, es)) = I fed s 0
Ends I (err c) = Unit

-- The invariant rule of the loop, in terms of the bytes hashed, the state and the bytes to come.
pub read_rest_inv {κ} :
    {S : Type 0} (consume : Dispatcher → ℕ → S → S) (code : ℕ) (I : List ℕ → S → ℕ → Type κ)
    → ((dc : Dispatcher) (n : ℕ) (fed : List ℕ) (s : S) (rem : ℕ)
        → Ready dc 2 n
        → n ≤ rem
        → I fed s rem
        → I (fed ++ take n (current dc)) (consume dc n s) (rem - n))
    → (es : List Exchange) (dc : Dispatcher) (fed : List ℕ) (s : S) (rem : ℕ)
    → {fed' : List ℕ} {s' : S} {dc' : Dispatcher} {es' : List Exchange} → All Fits es
    → read_rest consume code es dc fed s rem ≡ ok (fed', s', dc', es')
    → I fed s rem
    → I fed' s' 0
unfolding read_rest
read_rest_inv consume code I keep [] dc fed s rem f h i = elim (Bool-cases (rem == 0)) [
  | inl z ↦ subst (Ends I) (rw z at h) (subst (I fed s) ((==_iff rem 0).0 z) i)
  | inr z ↦ cc (rw z at h)
]
read_rest_inv consume code I keep (e ∷ es) dc fed s rem f h i = elim (Bool-cases (rem == 0)) [
  | inl z ↦ subst (Ends I) (rw z at h) (subst (I fed s) ((==_iff rem 0).0 z) i)
  | inr z ↦ elim (Result-cases (more_elements code e dc rem)) [
    | inl ((n, dc'), q) ↦
        let r = more_elements-Ready code e dc rem n f.0 q in
        read_rest_inv consume code I keep es dc' (fed ++ take n (current dc')) (consume dc' n s)
          (rem - n) f.1 (rw (z, q) at h) (keep dc' n fed s rem r.1 r.0 i)
    | inr (c, q) ↦ cc (rw (z, q) at h)
  ]
]

pub first_reply-Fresh :
    (es : List Exchange) (dc : Dispatcher) {dc' : Dispatcher} {es' : List Exchange}
    → All Fits es
    → first_reply es dc ≡ ok (dc', es')
    → Fresh dc' × All Fits es'
unfolding first_reply
first_reply-Fresh [] dc f h = cc
first_reply-Fresh (e ∷ es) dc f h = elim (Bool-cases (process_interruption e dc).0) [
  | inl p ↦ ground (arith, process_interruption-Fresh e dc f.0 p)
  | inr p ↦ cc (rw p at h)
]

pub read_header-Ready :
    (dc : Dispatcher) {len partial : ℕ} {dc' : Dispatcher}
    → Fresh dc
    → read_header dc ≡ ok (len, partial, dc')
    → Ready dc' dc'.read_buffer.offset partial
unfolding read_header
read_header-Ready dc f h =
    let b = dc.read_buffer in
    elim (Bool-cases (buffer_read_varint b).0) [
      | inr p ↦ cc (rw p at h)
      | inl p ↦ elim (Bool-cases (buffer_read_u8 (buffer_read_varint b).2).0) [
        | inr q ↦ cc (rw (p, q) at h)
        | inl q ↦
            let (n, pos, s) = read_varint-Stepped b f.valid p in
            let v1 : IsValid (buffer_read_varint b).2 =
              rw s.skipped (skip-IsValid b n f.valid s.room) in
            let s' = read_u8-Stepped (buffer_read_varint b).2 v1 q in
            let v2 : IsValid (buffer_read_u8 (buffer_read_varint b).2).2 =
              rw s'.skipped (skip-IsValid (buffer_read_varint b).2 1 v1 s'.room) in
            ground (
              arith,
              v2,
              can_read-le (buffer_read_u8 (buffer_read_varint b).2).2
                  (buffer_read_u8 (buffer_read_varint b).2).1 v2,
            )
      ]
    ]
