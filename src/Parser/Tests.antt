-- ===== src/Parser/Tests.antt =====
-- Runs of common/parser.c.
use membrane_app_bitcoin_new.Parser.Varint.{dbuffer_read_varint_lem}
use membrane_app_bitcoin_new.Varint.{varint_read}
use membrane_app_bitcoin_new.Parser.Consolidate.{parser_consolidate_buffers_lem}
use membrane_app_bitcoin_new.Buffer.Inv.{IsValid}
use membrane_app_bitcoin_new.Buffer.Content.{content}
use membrane_app_bitcoin_new.Common.{
  ◌+◌, ℕ, [], ◌∷◌, List, some, none, ◌≡◌, ◌≤◌, ◌↔◌, arith, length, take, drop, leb, if◌then◌else◌,
}
use membrane_app_bitcoin_new.Parser.{
  dbuffer_read_varint, parser_consolidate_buffers, Buffers, ParsingStep, completed, incomplete,
  parser_run, dbuffer_read_bytes,
}
use membrane_app_bitcoin_new.Parser.Concat.{IsValidPair, contents, advance, dbuffer_read_bytes_lem}
use membrane_app_bitcoin_new.Parser.Run.{parser_run_lem}

abbrev two_parts : Buffers
two_parts = record {
  first = record { ptr = 1 ∷ 2 ∷ 3 ∷ []; size = 3; offset = 1 };
  second = record { ptr = 4 ∷ 5 ∷ 6 ∷ []; size = 3; offset = 0 };
}

two_parts-IsValid : IsValidPair two_parts
two_parts-IsValid = record {
  first = record { within = omega arith; backed = omega arith; small = omega arith };
  second = record { within = omega arith; backed = omega arith; small = omega arith };
  small = omega arith;
}

dbuffer_read_bytes_lem_example :
    (dbuffer_read_bytes two_parts 4 ≡ (
      if leb 4 (length (contents two_parts))
      then some (take 4 (contents two_parts), advance two_parts 4)
      else none))
    × (contents (advance two_parts 4) ≡ drop 4 (contents two_parts))
dbuffer_read_bytes_lem_example = dbuffer_read_bytes_lem two_parts 4 two_parts-IsValid

-- A step that counts, and one that waits for data.
abbrev some_steps : List (ParsingStep ℕ Buffers)
some_steps = (λ n d. (completed, n + 1, d)) ∷ (λ n d. (incomplete, n, d)) ∷ []

parser_run_lem_example :
    (0 ≤ (parser_run some_steps 0 0 two_parts).1)
    × ((parser_run some_steps 0 0 two_parts).1 ≤ 2)
    × (((parser_run some_steps 0 0 two_parts).0 ≡ completed)
        ↔ ((parser_run some_steps 0 0 two_parts).1 ≡ 2))
parser_run_lem_example = parser_run_lem some_steps 0 0 two_parts (omega arith)

-- The same two parts, with room for eight bytes in the first.
abbrev roomy : Buffers
roomy = record {
  first = record { ptr = 1 ∷ 2 ∷ 3 ∷ 0 ∷ 0 ∷ 0 ∷ 0 ∷ 0 ∷ []; size = 3; offset = 1 };
  second = record { ptr = 4 ∷ 5 ∷ 6 ∷ []; size = 3; offset = 0 };
}

roomy-IsValid : IsValidPair roomy
roomy-IsValid = record {
  first = record { within = omega arith; backed = omega arith; small = omega arith };
  second = record { within = omega arith; backed = omega arith; small = omega arith };
  small = omega arith;
}

parser_consolidate_buffers_lem_example :
    (d' : Buffers) × (parser_consolidate_buffers roomy 8 ≡ some d')
    × (content d'.first ≡ contents roomy)
    × IsValid d'.first
parser_consolidate_buffers_lem_example =
    parser_consolidate_buffers_lem roomy 8 roomy-IsValid (omega arith) (omega arith)

-- A varint of three bytes, cut behind its second byte.
abbrev cut_varint : Buffers
cut_varint = record {
  first = record { ptr = 7 ∷ 0xfd ∷ 44 ∷ []; size = 3; offset = 1 };
  second = record { ptr = 1 ∷ 9 ∷ []; size = 2; offset = 0 };
}

cut_varint-IsValid : IsValidPair cut_varint
cut_varint-IsValid = record {
  first = record { within = omega arith; backed = omega arith; small = omega arith };
  second = record { within = omega arith; backed = omega arith; small = omega arith };
  small = omega arith;
}

dbuffer_read_varint_lem_example :
    dbuffer_read_varint cut_varint
    ≡ elim (varint_read (contents cut_varint) (length (contents cut_varint))) [
      | none ↦ none
      | some (len, value) ↦ some (value, advance cut_varint len)
    ]
dbuffer_read_varint_lem_example =
    dbuffer_read_varint_lem cut_varint cut_varint-IsValid
      (omega arith, (omega arith, (omega arith, (omega arith, tt))))
