-- ===== src/Parser/Consolidate.antt =====
-- `parser_consolidate_buffers` of common/parser.c, in terms of the concatenation of the two buffers.
use membrane_app_bitcoin_new.Common.{
  ℕ, List, ◌++◌, ◌+◌, ◌≤◌, ◌≡◌, ◌∙◌, ap, arith, length, take, drop, some, length-append, take_ge,
  take-append_self,
}
use membrane_app_bitcoin_new.Buffer.{copy_to}
use membrane_app_bitcoin_new.Buffer.Inv.{length-copy_to, IsValid, left_lem}
use membrane_app_bitcoin_new.Buffer.Content.{content, length-content}
use membrane_app_bitcoin_new.Parser.{Buffers, parser_consolidate_buffers}
use membrane_app_bitcoin_new.Parser.Concat.{IsValidPair, contents}

-- The first buffer, with all that is unread in the two.
abbrev joined : List ℕ → List ℕ → List ℕ → List ℕ
joined ptr xs ys = copy_to (copy_to ptr 0 xs) (length xs) ys

take-joined : (ptr xs ys : List ℕ) → take (length xs + length ys) (joined ptr xs ys) ≡ xs ++ ys
unfolding copy_to
take-joined ptr xs ys =
    let rest = ys ++ drop (length xs + length ys) (xs ++ drop (0 + length xs) ptr) in
    rw (take-append_self xs (drop (0 + length xs) ptr)) (
      take_ge (length ys) xs rest
      ∙ ap (λ t. xs ++ t)
          (take-append_self ys (drop (length xs + length ys) (xs ++ drop (0 + length xs) ptr))))

length-joined :
    (ptr xs ys : List ℕ)
    → length xs + length ys ≤ length ptr
    → length (joined ptr xs ys) ≡ length ptr
length-joined ptr xs ys h =
    let step = length-copy_to ptr 0 xs (omega arith) in
    length-copy_to (copy_to ptr 0 xs) (length xs) ys (omega (arith, step)) ∙ step

-- The buffers after a consolidation that succeeds.
abbrev pub packed : Buffers → Buffers
packed d = record d {
  first = record {
    ptr = joined d.first.ptr (content d.first) (content d.second);
    size = length (content d.first) + length (content d.second);
    offset = 0;
  };
}

pub consolidate-packed :
    (d : Buffers) (max_size : ℕ)
    → IsValidPair d
    → length (contents d) ≤ max_size
    → parser_consolidate_buffers d max_size ≡ some (packed d)
unfolding parser_consolidate_buffers
consolidate-packed d max_size v fits = ground (
  arith,
  left_lem v.first,
  left_lem v.second,
  length-content v.first,
  length-content v.second,
  length-append (content d.first) (content d.second),
)

pub length-packed :
    (d : Buffers)
    → length (contents d) ≤ length d.first.ptr
    → length (packed d).first.ptr ≡ length d.first.ptr
length-packed d room =
    length-joined d.first.ptr (content d.first) (content d.second)
      (omega (arith, length-append (content d.first) (content d.second)))

pub content-packed : (d : Buffers) → content (packed d).first ≡ contents d
content-packed d =
    let c0 = content d.first in
    let c1 = content d.second in
    ap (λ k. take k (joined d.first.ptr c0 c1)) (omega arith) ∙ take-joined d.first.ptr c0 c1

pub packed-IsValid :
    (d : Buffers)
    → IsValidPair d
    → length (contents d) ≤ length d.first.ptr
    → IsValid (packed d).first
packed-IsValid d v room =
    let total = length-append (content d.first) (content d.second) in
    record {
      within = omega arith;
      backed = omega (arith, total, length-packed d room);
      small = omega (arith, total, v.small);
    }

-- Where the unread bytes of two valid buffers, fewer than 2^32, are at most `max_size` and the memory
-- of the first buffer has that extent, `parser_consolidate_buffers` succeeds; the first buffer is then
-- valid, and its unread bytes are those of the first buffer followed by those of the second.
pub parser_consolidate_buffers_lem :
    (d : Buffers) (max_size : ℕ)
    → IsValidPair d
    → length (contents d) ≤ max_size
    → max_size ≤ length d.first.ptr
    → (d' : Buffers) × (parser_consolidate_buffers d max_size ≡ some d')
      × (content d'.first ≡ contents d)
      × IsValid d'.first
parser_consolidate_buffers_lem d max_size v fits room = (
  packed d,
  consolidate-packed d max_size v fits,
  content-packed d,
  packed-IsValid d v (omega arith),
)
