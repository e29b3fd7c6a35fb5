-- ===== src/Parser/Concat.antt =====
-- The reads of common/parser.c, in terms of the concatenation of the two buffers.
use membrane_app_bitcoin_new.Buffer.{size_mod, Buffer}
use membrane_app_bitcoin_new.Buffer.Inv.{left_lem, IsValid}
use membrane_app_bitcoin_new.Common.{
  refl, drop-append, sym, ap, take-append, drop, none, some, leb, length-append, take, arith,
  if◌then◌else◌, ◌-◌, ◌<◌, ◌≤◌, length, ◌++◌, ◌≡◌, List, min, ℕ,
}
use membrane_app_bitcoin_new.Parser.{dbuffer_get_length, dbuffer_read_bytes, read_some, Buffers}
use membrane_app_bitcoin_new.Buffer.Content.{
  content-skip, read_bytes_lem, length-content, content, skip,
}

abbrev pub contents : Buffers → List ℕ
contents d = content d.first ++ content d.second

pub record IsValidPair (d : Buffers) : Type 0 where
  pub first : IsValid d.first
  pub second : IsValid d.second
  pub small : length (contents d) < size_mod

-- The first buffer is used up before the second.
abbrev pub advance : Buffers → ℕ → Buffers
advance d n = record {
  first = skip d.first (min n (length (content d.first)));
  second = skip d.second (n - length (content d.first));
}

pub get_length_lem : (d : Buffers) → IsValidPair d → dbuffer_get_length d ≡ length (contents d)
unfolding dbuffer_get_length
get_length_lem d v = omega (
  arith,
  length-append (content d.first) (content d.second),
  v.small,
  left_lem v.first,
  left_lem v.second,
  length-content v.first,
  length-content v.second,
)

drop_zero : (b : Buffer) → skip b 0 ≡ b
drop_zero b = ap (λ k. record b { offset = k }) (omega arith)

read_some_lem :
    (b : Buffer) (n : ℕ)
    → IsValid b
    → n ≤ length (content b)
    → read_some b n ≡ (take n (content b), skip b n)
unfolding read_some
read_some_lem b n v h = rw ((read_bytes_lem b n v).0, read_some) (ground (arith, drop_zero b, h))

pub dbuffer_read_bytes_lem :
    (d : Buffers) (n : ℕ)
    → IsValidPair d
    → (dbuffer_read_bytes d n
        ≡ (if leb n (length (contents d)) then some (take n (contents d), advance d n) else none))
      × (contents (advance d n) ≡ drop n (contents d))
unfolding dbuffer_read_bytes
dbuffer_read_bytes_lem d n v = (
  ground (
    arith,
    get_length_lem d v,
    length-content v.first,
    length-content v.second,
    left_lem v.first,
    left_lem v.second,
    read_some_lem d.first (min n (length (content d.first))) v.first (omega arith),
    read_some_lem d.second (n - length (content d.first)) v.second,
    length-append (content d.first) (content d.second),
    take-append n _ _ (content d.first) (content d.second) refl refl,
  ),
  rw
      (
        content-skip d.first (min n (length (content d.first))),
        content-skip d.second (n - length (content d.first)),
        sym (drop-append n _ _ (content d.first) (content d.second) refl refl),
      )
      refl,
)
