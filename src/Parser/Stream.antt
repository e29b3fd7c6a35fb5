-- ===== src/Parser/Stream.antt =====
-- What the steps of a parser use of their input: an interface over common/parser.c, the pair of
-- buffers that implements it, and the plain list of the unread bytes, which is its specification.
use membrane_app_bitcoin_new.Common.{
  ℕ, List, Option, none, some, length, take, drop, leb, get_or, if◌then◌else◌,
}
use membrane_app_bitcoin_new.Varint.{varint_read}
use membrane_app_bitcoin_new.Parser.{
  Buffers, dbuffer_get_length, dbuffer_read_bytes, dbuffer_read_varint, peek_first,
}

pub record Stream (D : Type 0) : Type 0 where
  pub get_length : D → ℕ
  pub read_bytes : D → ℕ → Option (List ℕ × D)
  pub read_varint : D → Option (ℕ × D)
  pub peek : D → ℕ

abbrev pub buffers : Stream Buffers
buffers = record {
  get_length = dbuffer_get_length;
  read_bytes = dbuffer_read_bytes;
  read_varint = dbuffer_read_varint;
  peek = peek_first;
}

abbrev pub list_read_bytes : List ℕ → ℕ → Option (List ℕ × List ℕ)
list_read_bytes xs n = if leb n (length xs) then some (take n xs, drop n xs) else none

abbrev pub list_read_varint : List ℕ → Option (ℕ × List ℕ)
list_read_varint xs = elim (varint_read xs (length xs)) [
  | none ↦ none
  | some (len, value) ↦ some (value, drop len xs)
]

abbrev pub unread : Stream (List ℕ)
unread = record {
  get_length = λ xs. length xs;
  read_bytes = list_read_bytes;
  read_varint = list_read_varint;
  peek = λ xs. get_or xs 0 0;
}
