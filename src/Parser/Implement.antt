-- ===== src/Parser/Implement.antt =====
-- The steps that read from the two buffers of common/parser.c, against those over the plain list of the
-- bytes that are unread in the buffers.
use membrane_app_bitcoin_new.Varint.RoundTrip.{varint_read-len}
use membrane_app_bitcoin_new.Parser.Reads.{read_enough, read_few, read_value, read_no_value}
use membrane_app_bitcoin_new.Parser.Varint.{dbuffer_read_varint_lem, advance-IsValid}
use membrane_app_bitcoin_new.Bytes.Value.{IsByte}
use membrane_app_bitcoin_new.Varint.{varint_read}
use membrane_app_bitcoin_new.Parser.Stream.{unread, buffers}
use membrane_app_bitcoin_new.Parser.Concat.{dbuffer_read_bytes_lem, advance, IsValidPair, contents}
use membrane_app_bitcoin_new.Parser.Stepwise.{read_then, LoopBody, read_varint_then}
use membrane_app_bitcoin_new.Parser.{failed, completed, incomplete, Buffers, ParsingStep}
use native.Mathlib.Decide.{dec_lt}
use mathlib.Core.Path.{subst}
use membrane_app_bitcoin_new.Common.{
  All-drop, arith, sym, ap, gt→leb, le→leb, inr, ◌<◌, some, ◌∙◌, inl, take, Option-cases, drop,
  if◌then◌else◌, none, All, length, Bool, ◌≤◌, List, ◌≡◌, refl, ℕ,
}

-- Two valid buffers that hold bytes, the first of them in `room` bytes of memory.
pub record Ready (room : ℕ) (d : Buffers) : Type 0 where
  pub valid : IsValidPair d
  pub bytes : All IsByte (contents d)
  pub store : length d.first.ptr ≡ room

advance-Ready :
    {room : ℕ} {d : Buffers} (n : ℕ)
    → Ready room d
    → n ≤ length (contents d)
    → Ready room (advance d n)
advance-Ready {d = d} n v h = record {
  valid = advance-IsValid d n v.valid h;
  bytes =
      subst (All IsByte) (sym (dbuffer_read_bytes_lem d n v.valid).1)
        (All-drop IsByte n (contents d) v.bytes);
  store = v.store;
}

contents-advance :
    (d : Buffers) (n : ℕ) → IsValidPair d → contents (advance d n) ≡ drop n (contents d)
contents-advance d n v = (dbuffer_read_bytes_lem d n v).1

module _ {P S : Type 0} where
  -- A result with the unread bytes in place of the buffers.
  abbrev pub on_contents : P × S × Buffers → P × S × List ℕ
  on_contents (p, s, d) = (p, s, contents d)

  abbrev pub Agrees : ℕ → P × S × Buffers → P × S × List ℕ → Type 0
  Agrees room t u = (on_contents t ≡ u) × Ready room t.2

module _ (room : ℕ) {S : Type 0} where
  abbrev pub Implements : ParsingStep S Buffers → ParsingStep S (List ℕ) → Type 0
  Implements step spec =
      (s : S) (d : Buffers) → Ready room d → Agrees room (step s d) (spec s (contents d))

  abbrev pub TurnImplements : LoopBody S Buffers → LoopBody S (List ℕ) → Type 0
  TurnImplements body spec =
      (s : S) (d : Buffers) → Ready room d → Agrees room (body s d) (spec s (contents d))

  pub Agrees-along :
      {P : Type 0} {t t' : P × S × Buffers} {u u' : P × S × List ℕ}
      → t ≡ t'
      → u ≡ u'
      → Agrees room t' u'
      → Agrees room t u
  Agrees-along {t' = t'} {u = u} p q a =
      subst (λ v. Agrees room v u) (sym p) (subst (Agrees room t') (sym q) a)

  module _ (size : S → ℕ) (use_bytes : List ℕ → S → Bool × S) where
    read_lem :
        (s : S) (d : Buffers)
        → Ready room d
        → (size s ≤ length (contents d)
            → read_then buffers size use_bytes s d ≡ (
              (if (use_bytes (take (size s) (contents d)) s).0 then completed else failed),
              (use_bytes (take (size s) (contents d)) s).1,
              advance d (size s),
            ))
          × (length (contents d) < size s
              → read_then buffers size use_bytes s d ≡ (incomplete, s, d))
    unfolding read_then
    read_lem s d v =
        let r = (dbuffer_read_bytes_lem d (size s) v.valid).0 in
        (
          λ h. rw (r, le→leb (size s) (length (contents d)) h, read_then) refl,
          λ h. rw (r, gt→leb (size s) (length (contents d)) h, read_then) refl,
        )

    pub read_then-Implements :
        Implements (read_then buffers size use_bytes) (read_then unread size use_bytes)
    read_then-Implements s d v = elim (dec_lt (length (contents d)) (size s)) [
      | yes few ↦
          Agrees-along ((read_lem s d v).1 few) (read_few size use_bytes s (contents d) few)
            (refl, v)
      | no h ↦
          let enough : size s ≤ length (contents d) = omega arith in
          Agrees-along ((read_lem s d v).0 enough)
            (read_enough size use_bytes s (contents d) enough)
            (
              ap
                  (λ r. (
                    (if (use_bytes (take (size s) (contents d)) s).0 then completed else failed),
                    (use_bytes (take (size s) (contents d)) s).1,
                    r,
                  ))
                  (contents-advance d (size s) v.valid),
              advance-Ready (size s) v enough,
            )
    ]

  module _ (use_value : ℕ → S → S) where
    varint_lem :
        (s : S) (d : Buffers)
        → Ready room d
        → read_varint_then buffers use_value s d
          ≡ elim (varint_read (contents d) (length (contents d))) [
            | none ↦ (incomplete, s, d)
            | some (len, value) ↦ (completed, use_value value s, advance d len)
          ]
    unfolding read_varint_then
    varint_lem s d v =
        rw (dbuffer_read_varint_lem d v.valid v.bytes, read_varint_then)
          (elim (Option-cases (varint_read (contents d) (length (contents d)))) [
            | inl e ↦ rw e refl
            | inr ((len, value), e) ↦ rw e refl
          ])

    pub read_varint_then-Implements :
        Implements (read_varint_then buffers use_value) (read_varint_then unread use_value)
    read_varint_then-Implements s d v =
        elim (Option-cases (varint_read (contents d) (length (contents d)))) [
          | inl e ↦
              Agrees-along (varint_lem s d v ∙ (rw e refl))
                (read_no_value use_value s (contents d) e) (refl, v)
          | inr ((len, value), e) ↦
              Agrees-along (varint_lem s d v ∙ (rw e refl)) (read_value use_value s (contents d) e)
                (
                  ap (λ r. (completed, use_value value s, r)) (contents-advance d len v.valid),
                  advance-Ready len v
                      (varint_read-len (contents d) (length (contents d)) len value e).1,
                )
        ]
