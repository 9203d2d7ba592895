-- ===== src/Wire/Stored.antt =====
-- `serialize` and `store` against the encoding.
use minesweeper.Prelude.{
  replicate, ℕ, ◌+◌, ◌^◌, ◌<◌, ◌≡◌, Bool-cases, leb, if◌then◌else◌, [], ◌∷◌, ◌++◌, length, inl, inr,
  arith,
}
use minesweeper.Prelude.Int.{pos, to_int64}
use minesweeper.Parameter.{
  Bytes, Parameter, Items, Entries, string, int64, uint64, boolean, vector, map, no_items, item,
  no_entries, entry, size, items_size,
}
use minesweeper.Wire.Result.{ok, err, ◌>>=◌, overrun, check_capacity, Tag, wire_version}
use minesweeper.Wire.Crc.{crc32}
use minesweeper.Wire.Writer.{
  Writer, emit, write_string, write_len, serialize, serialize_items, serialize_entries, store,
  le_bytes,
}
use minesweeper.Wire.Encode.{
  encode_string, encode, encode_items, encode_entries, IsSendable, IsSendableItems,
  IsSendableEntries,
}
use minesweeper.Wire.Writes.{
  Writes, Writes-then, write_tag_then, empty-Writes, write_string-Writes, write_integer-Writes,
  write_bool-Writes, IsReal, put_byte-Writes,
}

mutual
  unfolding serialize encode write_len

  pub serialize-Writes : (p : Parameter) → IsSendable p → Writes (serialize p) (encode p)
  serialize-Writes (string s) h = write_string-Writes s h
  serialize-Writes (int64 z) h = write_integer-Writes z
  serialize-Writes (uint64 n) h = write_integer-Writes (to_int64 n)
  serialize-Writes (boolean b) h = write_bool-Writes b
  serialize-Writes (vector vs) h =
      write_tag_then Tag.vector (λ w. write_len (items_size vs) w >>= serialize_items vs) _
        (Writes-then (write_len (items_size vs)) (serialize_items vs) _ (encode_items vs)
          (write_integer-Writes (pos (items_size vs))) (serialize_items-Writes vs h.1))
  serialize-Writes (map es) h =
      write_tag_then Tag.map (λ w. write_len (size es) w >>= serialize_entries es) _
        (Writes-then (write_len (size es)) (serialize_entries es) _ (encode_entries es)
          (write_integer-Writes (pos (size es))) (serialize_entries-Writes es h.2))

  pub serialize_items-Writes :
      (vs : Items) → IsSendableItems vs → Writes (serialize_items vs) (encode_items vs)
  serialize_items-Writes no_items h = empty-Writes
  serialize_items-Writes (item v vs) h =
      Writes-then (serialize v) (serialize_items vs) (encode v) (encode_items vs)
        (serialize-Writes v h.0) (serialize_items-Writes vs h.1)

  pub serialize_entries-Writes :
      (es : Entries) → IsSendableEntries es → Writes (serialize_entries es) (encode_entries es)
  serialize_entries-Writes no_entries h = empty-Writes
  serialize_entries-Writes (entry k v es) h =
      Writes-then (write_string k) (λ w. serialize v w >>= serialize_entries es) (encode_string k) _
        (write_string-Writes k h.0)
        (Writes-then (serialize v) (serialize_entries es) (encode v) (encode_entries es)
          (serialize-Writes v h.1) (serialize_entries-Writes es h.2))

-- The bytes that `store` leaves: the version, the payload's length and checksum, and the payload.
unfoldable pub frame : Bytes → Bytes
frame payload =
    wire_version ∷ ((le_bytes 8 (length payload) ++ le_bytes 4 (crc32 payload)) ++ payload)

-- A buffer with nothing in it yet.
abbrev pub fresh_writer : ℕ → Writer
fresh_writer capacity = record { capacity = capacity; written = [] }

-- For a parameter that C++ can hold and a buffer of less than 2 ^ 62 bytes: a fresh `store` leaves
-- the version, the payload's length and CRC-32, and the encoding of the parameter, if the 13 bytes
-- of header and the encoding fit the buffer; and it reports an overrun, and no fault, if they do
-- not.
pub store_lem :
    (p : Parameter) (capacity : ℕ)
    → IsSendable p
    → capacity < 2 ^ 62
    → store p (fresh_writer capacity) ≡ (
        if leb (13 + length (encode p)) capacity
        then ok (record { capacity = capacity; written = frame (encode p) })
        else err overrun)
unfolding store frame emit check_capacity
store_lem p capacity h small =
    let real : IsReal (fresh_writer capacity) = record { within = omega arith; below = small } in
    let version = put_byte-Writes 2 (fresh_writer capacity) real in
    let reserved : Writer = record { capacity = capacity; written = 2 ∷ replicate 12 0 } in
    elim (Bool-cases (leb 13 capacity)) [
      | inl room ↦
          let payload =
            serialize-Writes p h reserved
              (record { within = ground (arith, room); below = small }) in
          ground (arith, version, room, payload)
      | inr short ↦ ground (arith, version, short)
    ]
