-- ===== src/Preimage/Sound.antt =====
-- The comparison with the hash that the three functions which fetch a preimage end with, and
-- `call_get_preimage`.
use membrane_app_bitcoin_new.Buffer.{buffer_create}
use membrane_app_bitcoin_new.Common.Result.{bind_ok}
use membrane_app_bitcoin_new.Dispatcher.Received.{Fits}
use membrane_app_bitcoin_new.Common.{
  [], ltb, ◌%◌, ◌^◌, ◌<◌, inr, bytes_equal→eq, length-append, arith, inl, bytes_equal, ◌-◌,
  Bool-cases, take, ◌+◌, All, length, ◌++◌, ◌≡◌, ◌≤◌, ℕ, List,
}
use membrane_app_bitcoin_new.Buffer.Written.{Written, create-Written, write_bytes-Written}
use membrane_app_bitcoin_new.Preimage.{
  get_rest, read_header, request_preimage, first_reply, current, ok, Buffer, Dispatcher, Exchange,
  call_get_preimage, check_hash, write_out,
}
use membrane_app_bitcoin_new.Preimage.Rest.{
  Ready, length-current, read_rest_inv, first_reply-Fresh, read_header-Ready,
}

module _ (sha256 : List ℕ → List ℕ) where
  pub check_hash-eq :
      {S : Type 0} (code : ℕ) (hash : List ℕ) (len : ℕ) (fed : List ℕ) (s : S) (dc : Dispatcher)
      (es : List Exchange) {len' : ℕ} {s' : S} {dc' : Dispatcher} {es' : List Exchange}
      → check_hash sha256 code hash len (fed, s, dc, es) ≡ ok (len', s', dc', es')
      → (sha256 fed ≡ hash) × (len' ≡ len) × (s' ≡ s)
  unfolding check_hash
  check_hash-eq code hash len fed s dc es h = elim (Bool-cases (bytes_equal (sha256 fed) hash)) [
    | inl p ↦ ground (arith, bytes_equal→eq (sha256 fed) hash p)
    | inr p ↦ cc (rw p at h)
  ]

  -- The output buffer holds what was hashed, and the rest is still to come.
  record Copied (total size : ℕ) (fed : List ℕ) (out : Buffer) (rem : ℕ) : Type 0 where
    written : Written out fed
    counted : length fed + rem ≡ total
    sized : out.size ≡ size

  copy_round :
      (total size : ℕ)
      → total ≤ size
      → (dc : Dispatcher) (at n : ℕ) (fed : List ℕ) (out : Buffer) (rem : ℕ) → Ready dc at n
      → n ≤ rem
      → Copied total size fed out rem
      → Copied total size (fed ++ take n (current dc)) (write_out sha256 dc n out) (rem - n)
  unfolding write_out
  copy_round total size fits dc at n fed out rem r h c =
      let e = length-current dc at n r in
      let (w, s) = write_bytes-Written out fed (current dc) n c.written e (omega arith) in
      record {
        written = w;
        counted = omega (arith, length-append fed (take n (current dc)));
        sized = omega arith;
      }

  get_rest-Copied :
      (es : List Exchange) (dc : Dispatcher) (out : List ℕ) (out_len len partial at : ℕ)
      {fed : List ℕ} {b : Buffer} {dc' : Dispatcher} {es' : List Exchange}
      → All Fits es
      → out_len ≤ length out
      → out_len < 2 ^ 32
      → len ≤ out_len
      → Ready dc at partial
      → get_rest sha256 es dc (buffer_create out out_len) len partial ≡ ok (fed, b, dc', es')
      → Copied len out_len fed b 0
  unfolding get_rest
  get_rest-Copied es dc out out_len len partial at f room small fits r h =
      let start : Copied len out_len [] (buffer_create out out_len) len = record {
        written = (create-Written out out_len room small).0;
        counted = omega arith;
        sized = (create-Written out out_len room small).1;
      } in
      elim (Bool-cases (ltb len 1)) [
        | inl p ↦ cc (rw p at h)
        | inr p ↦ elim (Bool-cases (ltb len partial)) [
          | inl q ↦ cc (rw (p, q) at h)
          | inr q ↦
              read_rest_inv (write_out sha256) 5 (Copied len out_len)
                (λ d. copy_round len out_len fits d 2) es dc _ _ _ f (rw (p, q) at h)
                (copy_round len out_len fits dc at partial [] (buffer_create out out_len) len r
                  (ground arith) start)
        ]
      ]

  -- `call_get_preimage`, with an output of `out_len` bytes in memory and fewer than 2^32, whatever APDUs
  -- that lie in their memory the host replies: if it succeeds and the returned length is at most
  -- `out_len`, then the output holds that many bytes whose hash is the one asked for.
  pub get_preimage_sound :
      (es : List Exchange) (dc : Dispatcher) (hash out : List ℕ) (out_len : ℕ) {len : ℕ}
      {b : Buffer} {dc' : Dispatcher} {es' : List Exchange}
      → All Fits es
      → out_len ≤ length out
      → out_len < 2 ^ 32
      → call_get_preimage sha256 es dc hash out out_len ≡ ok (len, b, dc', es')
      → len ≤ out_len
      → sha256 (take len b.ptr) ≡ hash
  unfolding call_get_preimage
  get_preimage_sound es dc hash out out_len f room small h fits =
      bind_ok (first_reply es (request_preimage dc hash)) _ h λ a p h1.
        bind_ok (read_header a.0) _ h1 λ c q h2.
          bind_ok (get_rest sha256 a.1 c.2 (buffer_create out out_len) (c.0 % 2 ^ 32) c.1) _ h2
            λ d r h3.
              let len' = c.0 % 2 ^ 32 in
              let e = check_hash-eq 9 hash len' d.0 d.1 d.2 d.3 h3 in
              let fr = first_reply-Fresh es (request_preimage dc hash) f p in
              let rd = read_header-Ready a.0 fr.0 q in
              let k =
                get_rest-Copied a.1 c.2 out out_len len' c.1 _ fr.1 room small (omega arith) rd r in
              ground (arith, e, k)
