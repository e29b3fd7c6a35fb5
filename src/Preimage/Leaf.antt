-- ===== src/Preimage/Leaf.antt =====
-- `call_get_merkle_preimage`: the element whose Merkle leaf hash was asked for.
use mathlib.Core.Path.{subst}
use membrane_app_bitcoin_new.Common.Result.{◌>>=◌, bind_ok}
use membrane_app_bitcoin_new.Dispatcher.Received.{Fits}
use membrane_app_bitcoin_new.Dispatcher.{Dispatcher, Exchange}
use membrane_app_bitcoin_new.Preimage.{
  read_header, request_preimage, first_reply, ok, current, call_get_merkle_preimage, merkle_rest,
  write_from,
}
use membrane_app_bitcoin_new.Buffer.{buffer_create, buffer_write_bytes, sub_size, Buffer}
use membrane_app_bitcoin_new.Common.{
  refl, [], drop-take, sym, ap, ◌%◌, ltb, inr, inl, ◌∙◌, length-append, ◌||◌, ◌∷◌, length-drop,
  ◌==◌, Bool-cases, arith, drop_le, ◌-◌, ◌^◌, ◌<◌, take, ◌≡◌, All, drop, ◌++◌, length, ◌+◌, ◌≤◌, ℕ,
  List,
}
use membrane_app_bitcoin_new.Buffer.Written.{Written, create-Written, write_bytes-Written}
use membrane_app_bitcoin_new.Preimage.Rest.{
  Ready, length-current, read_rest_inv, first_reply-Fresh, read_header-Ready,
}
use membrane_app_bitcoin_new.Preimage.Sound.{check_hash-eq}

pub head_drop : (xs : List ℕ) → 1 ≤ length xs → (x : ℕ) × (xs ≡ x ∷ drop 1 xs)
head_drop [] h = absurd (omega arith)
head_drop (x ∷ xs) h = (x, refl)

copied :
    (fed : List ℕ) (len : ℕ) → 1 ≤ length fed → length fed ≡ len → length (drop 1 fed) ≡ len - 1
copied fed len h e = omega (arith, length-drop 1 fed)

module _ (sha256 : List ℕ → List ℕ) where
  -- The output buffer holds what was hashed but for the first byte.
  record Leaf (total size : ℕ) (fed : List ℕ) (out : Buffer) (rem : ℕ) : Type 0 where
    started : 1 ≤ length fed
    written : Written out (drop 1 fed)
    counted : length fed + rem ≡ total
    sized : out.size ≡ size

  round-Leaf :
      (total size at : ℕ)
      → total ≤ size + 1
      → at ≡ 2
      → (dc : Dispatcher) (n : ℕ) (fed : List ℕ) (out : Buffer) (rem : ℕ) → Ready dc 2 n
      → n ≤ rem
      → Leaf total size fed out rem
      → Leaf total size (fed ++ take n (current dc)) (write_from sha256 at dc n out) (rem - n)
  unfolding write_from
  round-Leaf total size at fits two dc n fed out rem r h c =
      let e = length-current dc 2 n r in
      let more = drop_le 1 fed (take n (current dc)) c.started in
      let (w, s) =
        write_bytes-Written out (drop 1 fed) (current dc) n c.written e
          (omega (arith, length-drop 1 fed)) in
      let there : drop at dc.read_buffer.ptr ≡ current dc =
        ap (λ k. drop k dc.read_buffer.ptr) (two ∙ sym r.position) in
      record {
        started = omega (arith, length-append fed (take n (current dc)));
        written = rw (more, write_from, there) w;
        counted = omega (arith, length-append fed (take n (current dc)));
        sized = rw (write_from, there) (s ∙ c.sized);
      }

  start-Leaf :
      (dc : Dispatcher) (out : List ℕ) (out_len len partial : ℕ)
      → out_len ≤ length out
      → out_len + 1 < 2 ^ 32
      → Ready dc 2 partial
      → 1 ≤ partial
      → partial ≤ len
      → len ≤ out_len + 1
      → Leaf len out_len
          (take partial (current dc))
          (buffer_write_bytes (buffer_create out out_len) (drop 1 (current dc)) (partial - 1)).1
          (sub_size (len % 2 ^ 32) partial)
  start-Leaf dc out out_len len partial room small r pos le fits =
      let (c, size) = create-Written out out_len room (omega arith) in
      let e = length-current dc 2 partial r in
      let first = drop-take 1 partial (current dc) in
      let (w, s) =
        write_bytes-Written (buffer_create out out_len) [] (drop 1 (current dc)) (partial - 1) c
          (omega (arith, ap length (sym first), length-drop 1 (take partial (current dc))))
          (omega arith) in
      record {
        started = omega arith;
        written = rw first w;
        counted = omega arith;
        sized = s ∙ size;
      }

  merkle_rest-Leaf :
      (es : List Exchange) (dc : Dispatcher) (out : List ℕ) (out_len len partial : ℕ) {fed : List ℕ}
      {b : Buffer} {dc' : Dispatcher} {es' : List Exchange}
      → All Fits es
      → out_len ≤ length out
      → out_len + 1 < 2 ^ 32
      → Ready dc 2 partial
      → merkle_rest sha256 es dc out out_len len partial ≡ ok (fed, b, dc', es')
      → (1 ≤ len) × (len ≤ out_len + 1) × Leaf len out_len fed b 0
  unfolding merkle_rest
  merkle_rest-Leaf es dc out out_len len partial f room small r h =
      elim (Bool-cases (len == 0 || partial == 0)) [
        | inl p ↦ cc (rw p at h)
        | inr p ↦ elim (Bool-cases (ltb out_len (len - 1))) [
          | inl q ↦ cc (rw (p, q) at h)
          | inr q ↦ elim (Bool-cases (ltb len partial)) [
            | inl t ↦ cc (rw (p, q, t) at h)
            | inr t ↦ (
              ground arith,
              ground arith,
              read_rest_inv (write_from sha256 dc.read_buffer.offset) 6 (Leaf len out_len)
                  (round-Leaf len out_len dc.read_buffer.offset (ground arith) r.position) es dc
                  (take partial (current dc)) _ (sub_size (len % 2 ^ 32) partial) f
                  (rw (p, q, t) at h)
                  (start-Leaf dc out out_len len partial room small r (ground arith) (ground arith)
                    (ground arith)),
            )
          ]
        ]
      ]

  -- `call_get_merkle_preimage`, with an output of `out_len` bytes in memory and fewer than 2^32 - 1,
  -- whatever APDUs that lie in their memory the host replies, where the data of the first reply stand
  -- two bytes into it, as they do in the later replies: if it succeeds, then the returned length is at
  -- most `out_len`, and the hash of some byte followed by that many bytes of the output is the one
  -- asked for.
  pub get_merkle_preimage_sound :
      (es : List Exchange) (dc : Dispatcher) (hash out : List ℕ) (out_len : ℕ) {dc1 : Dispatcher}
      {es1 : List Exchange} {plen partial : ℕ} {dc2 : Dispatcher} {len : ℕ} {b : Buffer}
      {dc' : Dispatcher} {es' : List Exchange}
      → All Fits es
      → out_len ≤ length out
      → out_len + 1 < 2 ^ 32
      → first_reply es (request_preimage dc hash) ≡ ok (dc1, es1)
      → read_header dc1 ≡ ok (plen, partial, dc2)
      → dc2.read_buffer.offset ≡ 2
      → call_get_merkle_preimage sha256 es dc hash out out_len ≡ ok (len, b, dc', es')
      → (len ≤ out_len) × (x : ℕ) × (sha256 (x ∷ take len b.ptr) ≡ hash)
  unfolding call_get_merkle_preimage
  get_merkle_preimage_sound es dc hash out out_len {dc1} {es1} {plen} {partial} {dc2} f room small p
        q two h =
      bind_ok (merkle_rest sha256 es1 dc2 out out_len plen partial) _ (rw (p, ◌>>=◌, q, ◌>>=◌) at h)
        λ d r h3.
          let fr = first_reply-Fresh es (request_preimage dc hash) f p in
          let rd = read_header-Ready dc1 fr.0 q in
          let rd2 : Ready dc2 2 partial = subst (λ k. Ready dc2 k partial) two rd in
          let (pos, le, k) =
            merkle_rest-Leaf es1 dc2 out out_len plen partial fr.1 room small rd2 r in
          let e = check_hash-eq sha256 10 hash (plen - 1) d.0 d.1 d.2 d.3 h3 in
          let (x, whole) = head_drop d.0 k.started in
          let same : take (plen - 1) d.1.ptr ≡ drop 1 d.0 =
            rw (← copied d.0 plen k.started (omega (arith, k.counted))) k.written.bytes in
          (omega (arith, e.1), x, ground (arith, e, same, whole))
