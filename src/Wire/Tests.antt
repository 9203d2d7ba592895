-- ===== src/Wire/Tests.antt =====
-- A small parameter on the wire.
use minesweeper.Prelude.{
  ◌+◌, ◌-◌, ◌^◌, ◌≡◌, ◌≢◌, true, [], ◌∷◌, ◌++◌, leb, length, if◌then◌else◌, arith,
}
use minesweeper.Prelude.Int.{negsuc}
use minesweeper.Parameter.{
  Parameter, string, int64, boolean, map, vector, item, no_items, no_entries, entry, text, eq_bytes,
  contains, size, items_size,
}
use minesweeper.Wire.Result.{ok, err, overrun, fault, stuck}
use minesweeper.Wire.Writer.{Writer, store, le_bytes, width, bytes_needed}
use minesweeper.Wire.Encode.{
  encode, encode_items, encode_entries, encode_string, encode_integer, IsSendable,
}
use minesweeper.Wire.Reader.{load}
use minesweeper.Wire.Stored.{frame, fresh_writer, store_lem}
use minesweeper.Wire.Reads.{reader}
use minesweeper.Wire.Decoded.{received}
use minesweeper.Wire.Numbers.{digits, bytes_needed-eq-width}
use minesweeper.Wire.Total.{load_ends}
use minesweeper.Wire.RoundTrip.{load-store, load_wraps}

-- The answer to a reveal of one cell, in the shape that the server sends.
abbrev answer : Parameter
answer = map (
    entry (text "count") (int64 (negsuc 0)) (
      entry (text "cells") (vector (item (boolean true) (item (string (text "a")) no_items)))
        no_entries))

answer-IsSendable : IsSendable answer
unfolding contains eq_bytes size items_size
answer-IsSendable = ground arith

store_lem_example : store answer (fresh_writer 64) ≡ (
    if leb (13 + length (encode answer)) 64
    then ok (record { capacity = 64; written = frame (encode answer) })
    else err overrun)
store_lem_example = store_lem answer 64 answer-IsSendable (omega arith)

abbrev answer_writer : Writer
answer_writer = record { capacity = 64; written = frame (encode answer) }

answer-stored : store answer (fresh_writer 64) ≡ ok answer_writer
unfolding encode encode_items encode_entries encode_string encode_integer digits width size
    items_size
answer-stored = store_lem answer 64 answer-IsSendable (omega arith)

load-store_example : load (reader 0 (answer_writer.written ++ (7 ∷ 9 ∷ []))) ≡ ok (received answer)
load-store_example =
    load-store answer 64 answer_writer (7 ∷ 9 ∷ []) answer-IsSendable (omega arith) answer-stored
      (omega arith)

load_wraps_example :
    load (reader 0 (2 ∷ ((le_bytes 8 (2 ^ 64 - 1) ++ le_bytes 4 0) ++ (5 ∷ [])))) ≡ err fault
load_wraps_example =
    load_wraps (2 ^ 64 - 1) 0 (5 ∷ []) (omega arith) (omega arith) (omega arith) (omega arith)

bytes_needed-eq-width_example : bytes_needed 70000 ≡ width 70000
bytes_needed-eq-width_example = bytes_needed-eq-width 70000

load_ends_example : load (reader 0 (2 ∷ 7 ∷ [])) ≢ err stuck
load_ends_example = load_ends (reader 0 (2 ∷ 7 ∷ []))
