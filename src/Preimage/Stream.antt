-- ===== src/Preimage/Stream.antt =====
-- `call_stream_preimage`: what the callback is given.
use membrane_app_bitcoin_new.Common.Result.{◌>>=◌, bind_ok}
use membrane_app_bitcoin_new.Dispatcher.Received.{Fits}
use membrane_app_bitcoin_new.Preimage.{
  tell, read_header, ok, request_preimage, first_reply, current, call_stream_preimage, stream_rest,
}
use membrane_app_bitcoin_new.Dispatcher.{Exchange, Dispatcher}
use membrane_app_bitcoin_new.Common.{
  drop-take, length-drop, refl, inr, inl, ◌%◌, ltb, Bool-cases, append_assoc, drop_le,
  length-append, sym, arith, ◌^◌, ◌∙◌, ap, ◌+◌, ◌-◌, ◌<◌, append-nil, drop, All, ◌≡◌, [], length,
  take, ◌∷◌, ◌≤◌, ℕ, ◌++◌, List, Option,
}
use membrane_app_bitcoin_new.Buffer.{sub_size, buffer_create, Buffer}
use membrane_app_bitcoin_new.Preimage.Rest.{
  Ready, length-current, read_rest_inv, first_reply-Fresh, read_header-Ready,
}
use membrane_app_bitcoin_new.Preimage.Sound.{check_hash-eq}
use membrane_app_bitcoin_new.Preimage.Leaf.{head_drop}
use mathlib.Core.Path.{ap₂}
use membrane_app_bitcoin_new.Buffer.Content.{content, content-create}

-- The state after a callback for each of some buffers.
abbrev pub feed : {S : Type 0} → (Buffer → S → S) → List Buffer → S → S
feed callback [] s = s
feed callback (b ∷ bs) s = feed callback bs (callback b s)

-- The bytes of some buffers, one after the other.
abbrev pub contents : List Buffer → List ℕ
contents [] = []
contents (b ∷ bs) = content b ++ contents bs

feed-append :
    {S : Type 0} (callback : Buffer → S → S) (bs : List Buffer) (b : Buffer) (s : S)
    → feed callback (bs ++ (b ∷ [])) s ≡ callback b (feed callback bs s)
feed-append callback [] b s = refl
feed-append callback (c ∷ bs) b s = feed-append callback bs b (callback c s)

contents-append :
    (bs : List Buffer) (b : Buffer) → contents (bs ++ (b ∷ [])) ≡ contents bs ++ content b
contents-append [] b = append-nil (content b)
contents-append (c ∷ bs) b =
    ap (λ t. content c ++ t) (contents-append bs b)
    ∙ sym (append_assoc (content c) (contents bs) (content b))

module _ (sha256 : List ℕ → List ℕ) {S : Type 0} (callback : Buffer → S → S) where
  -- The callback was given what was hashed but for the first byte, in some number of pieces.
  record Streamed (total : ℕ) (told : S) (fed : List ℕ) (s : S) (rem : ℕ) : Type 0 where
    started : 1 ≤ length fed
    pieces : List Buffer
    called : s ≡ feed callback pieces told
    same : contents pieces ≡ drop 1 fed
    counted : length fed + rem ≡ total

  stream_round :
      (total : ℕ) (told : S) (dc : Dispatcher) (n : ℕ) (fed : List ℕ) (s : S) (rem : ℕ)
      → Ready dc 2 n
      → n ≤ rem
      → Streamed total told fed s rem
      → Streamed total told
          (fed ++ take n (current dc))
          (callback (buffer_create (current dc) n) s)
          (rem - n)
  stream_round total told dc n fed s rem r h c = record {
    started = omega (arith, length-append fed (take n (current dc)));
    pieces = c.pieces ++ (buffer_create (current dc) n ∷ []);
    called =
        ap (callback (buffer_create (current dc) n)) c.called
        ∙ sym (feed-append callback c.pieces (buffer_create (current dc) n) told);
    same =
        contents-append c.pieces (buffer_create (current dc) n)
        ∙ ap₂ ◌++◌ c.same (content-create (current dc) n)
        ∙ sym (drop_le 1 fed (take n (current dc)) c.started);
    counted = omega (arith, length-append fed (take n (current dc)), length-current dc 2 n r);
  }

  stream_start :
      (total : ℕ) (told : S) (dc : Dispatcher) (at partial : ℕ)
      → Ready dc at partial
      → 1 ≤ partial
      → partial < 2 ^ 32
      → partial ≤ total
      → Streamed total told
          (take partial (current dc))
          (callback (buffer_create (drop 1 (current dc)) (sub_size partial 1)) told)
          (total - partial)
  stream_start total told dc at partial r pos small le =
      let e = length-current dc at partial r in
      let minus : sub_size partial 1 ≡ partial - 1 = omega arith in
      record {
        started = omega arith;
        pieces = buffer_create (drop 1 (current dc)) (sub_size partial 1) ∷ [];
        called = refl;
        same =
            append-nil (content (buffer_create (drop 1 (current dc)) (sub_size partial 1)))
            ∙ content-create (drop 1 (current dc)) (sub_size partial 1)
            ∙ ap (λ k. take k (drop 1 (current dc))) minus
            ∙ sym (drop-take 1 partial (current dc));
        counted = omega arith;
      }

  stream_rest-Streamed :
      (es : List Exchange) (dc : Dispatcher) (len_callback : Option (ℕ → S → S)) (state : S)
      (len partial at : ℕ) {fed : List ℕ} {s' : S} {dc' : Dispatcher} {es' : List Exchange}
      → All Fits es
      → Ready dc at partial
      → 1 ≤ partial
      → partial < 2 ^ 32
      → stream_rest sha256 es dc len_callback callback state len partial ≡ ok (fed, s', dc', es')
      → (1 ≤ len) × Streamed len (tell len_callback (len - 1) state) fed s' 0
  unfolding stream_rest
  stream_rest-Streamed es dc len_callback state len partial at f r pos small h =
      elim (Bool-cases (ltb len 1)) [
        | inl p ↦ cc (rw p at h)
        | inr p ↦ elim (Bool-cases (ltb len partial)) [
          | inl q ↦ cc (rw (p, q) at h)
          | inr q ↦ (
            ground arith,
            read_rest_inv (λ d n s. callback (buffer_create (current d) n) s) 5 (Streamed len told)
                (stream_round len told) es dc (take partial (current dc)) _ (len - partial) f
                (rw (p, q) at h) (stream_start len told dc at partial r pos small (ground arith)),
          )
        ]
      ]
    where
      told : S
      told = tell len_callback (len - 1) state

  -- `call_stream_preimage`, whatever APDUs that lie in their memory the host replies, where the first
  -- reply brings at least one byte and fewer than 2^32: if it succeeds, it called `len_callback` with
  -- the returned length, if that is not NULL, and then `callback` on buffers whose bytes, one after the
  -- other, are an element of that length such that the hash of some byte followed by it is the one
  -- asked for.
  pub stream_preimage_sound :
      (es : List Exchange) (dc : Dispatcher) (hash : List ℕ) (len_callback : Option (ℕ → S → S))
      (state : S) {dc1 : Dispatcher} {es1 : List Exchange} {plen partial : ℕ} {dc2 : Dispatcher}
      {len : ℕ} {s' : S} {dc' : Dispatcher} {es' : List Exchange}
      → All Fits es
      → first_reply es (request_preimage dc hash) ≡ ok (dc1, es1)
      → read_header dc1 ≡ ok (plen, partial, dc2)
      → 1 ≤ partial
      → partial < 2 ^ 32
      → call_stream_preimage sha256 es dc hash len_callback callback state ≡ ok (len, s', dc', es')
      → (pieces : List Buffer) × (s' ≡ feed callback pieces (tell len_callback len state))
        × (length (contents pieces) ≡ len)
        × (x : ℕ) × (sha256 (x ∷ contents pieces) ≡ hash)
  unfolding call_stream_preimage
  stream_preimage_sound es dc hash len_callback state {dc1} {es1} {plen} {partial} {dc2} f p q pos
        small h =
      bind_ok (stream_rest sha256 es1 dc2 len_callback callback state (plen % 2 ^ 32) partial) _
        (rw (p, ◌>>=◌, q, ◌>>=◌) at h)
        λ d r h3.
          let fr = first_reply-Fresh es (request_preimage dc hash) f p in
          let rd = read_header-Ready dc1 fr.0 q in
          let len' = plen % 2 ^ 32 in
          let (le, k) =
            stream_rest-Streamed es1 dc2 len_callback state len' partial _ fr.1 rd pos small r in
          let (e, l, s) = check_hash-eq sha256 9 hash (len' - 1) d.0 d.1 d.2 d.3 h3 in
          let (x, whole) = head_drop d.0 k.started in
          (
            k.pieces,
            s ∙ k.called ∙ ap (λ n. feed callback k.pieces (tell len_callback n state)) (sym l),
            omega (arith, k.counted, ap length k.same, length-drop 1 d.0),
            x,
            ap (λ t. sha256 (x ∷ t)) k.same ∙ ap sha256 (sym whole) ∙ e,
          )
