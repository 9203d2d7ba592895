-- ===== src/Wire/Writer.antt =====
-- `store` and `serialize`: the writing half of `parameter_bytestream_t`.
use minesweeper.Prelude.{
  ℕ, zero, suc, ◌+◌, ◌*◌, ◌/◌, ◌%◌, ◌^◌, Bool, not, ltb, leb, ◌==◌, if◌then◌else◌, [], ◌∷◌, ◌++◌,
  length, drop, replicate,
}
use minesweeper.Prelude.Int.{ℤ, pos, negsuc, pos_part, neg_part, to_int64}
use minesweeper.Parameter.{
  Bytes, Parameter, Items, Entries, string, int64, uint64, boolean, vector, map, no_items, item,
  no_entries, entry, size, items_size,
}
use minesweeper.Wire.Result.{
  Result, ok, err, ◌>>=◌, ◌>>◌, already_used, fault, check_capacity, Tag, tag_code, wire_version,
}
use minesweeper.Wire.Crc.{crc32}

-- A buffer of `capacity` bytes, and the bytes before `offset_`; what stands behind is not read.
pub record Writer : Type 0 where
  pub capacity : ℕ
  pub written : Bytes

abbrev pub offset : Writer → ℕ
offset w = length w.written

-- A write of some bytes at `offset_`, which moves on behind them.
unfoldable pub emit : Bytes → Writer → Result Writer
emit bs w =
    if leb (offset w + length bs) w.capacity
    then ok (record w { written = w.written ++ bs })
    else err fault

unfoldable pub put_byte : ℕ → Writer → Result Writer
put_byte v w = do check_capacity (offset w) 1 w.capacity; emit ((v % 256) ∷ []) w

unfoldable pub write_tag : Tag → Writer → Result Writer
write_tag t w = put_byte (tag_code t) w

-- `(v >> (i * 8)) & 0xFF`
abbrev pub byte : ℕ → ℕ → ℕ
byte v i = v / 2 ^ (8 * i) % 256

-- `put_byte(byte(v, i))` for `left` indices from `i` on.
unfoldable pub put_bytes : ℕ → ℕ → ℕ → Writer → Result Writer
put_bytes zero i v w = ok w
put_bytes (suc left) i v w = put_byte (byte v i) w >>= put_bytes left (i + 1) v

-- The loop of `bytes_needed`, and its start.
unfoldable pub bytes_needed_from : ℕ → ℕ → ℕ → ℕ
bytes_needed_from zero n v = n
bytes_needed_from (suc left) n v =
    if ltb v (2 ^ (n * 8)) then n else bytes_needed_from left (n + 1) v

unfoldable pub bytes_needed : ℕ → ℕ
bytes_needed v = bytes_needed_from 7 1 v

-- The ladder of `write`, which picks the tag's width.
unfoldable pub width : ℕ → ℕ
width v =
    if ltb v 0x100
    then 1
    else if ltb v 0x1_0000
    then 2
    else if ltb v 0x100_0000
    then 3
    else if ltb v 0x1_0000_0000
    then 4
    else if ltb v 0x100_0000_0000
    then 5
    else if ltb v 0x1_0000_0000_0000
    then 6
    else if ltb v 0x100_0000_0000_0000
    then 7
    else 8

unfoldable pub write_string : Bytes → Writer → Result Writer
write_string s w = do
  let n = length s
  check_capacity (offset w) (1 + bytes_needed n + n) w.capacity
  w₁ ← write_tag (Tag.string (width n)) w
  w₂ ← put_bytes (width n) 0 n w₁
  emit s w₂

-- `write` at an integral type: a tag for the sign and the width, and the absolute value.
unfoldable pub write_integer : ℤ → Writer → Result Writer
write_integer z w = do
  let v = pos_part z + neg_part z
  check_capacity (offset w) (1 + bytes_needed v) w.capacity
  w₁ ← write_tag (elim z [ pos _ ↦ Tag.number (width v) | negsuc _ ↦ Tag.neg_number (width v) ]) w
  put_bytes (width v) 0 v w₁

unfoldable pub write_len : ℕ → Writer → Result Writer
write_len n = write_integer (pos n)

unfoldable pub write_bool : Bool → Writer → Result Writer
write_bool b w = do
  check_capacity (offset w) 2 w.capacity
  w₁ ← write_tag Tag.boolean w
  emit ((if b then 1 else 0) ∷ []) w₁

unfoldable mutual
  pub serialize : Parameter → Writer → Result Writer
  serialize (string s) w = write_string s w
  serialize (int64 z) w = write_integer z w
  serialize (uint64 n) w = write_integer (to_int64 n) w
  serialize (boolean b) w = write_bool b w
  serialize (vector vs) w = do
    w₁ ← write_tag Tag.vector w
    w₂ ← write_len (items_size vs) w₁
    serialize_items vs w₂
  serialize (map es) w = do
    w₁ ← write_tag Tag.map w
    w₂ ← write_len (size es) w₁
    serialize_entries es w₂

  pub serialize_items : Items → Writer → Result Writer
  serialize_items no_items w = ok w
  serialize_items (item v vs) w = do w₁ ← serialize v w; serialize_items vs w₁

  pub serialize_entries : Entries → Writer → Result Writer
  serialize_entries no_entries w = ok w
  serialize_entries (entry k v es) w = do
    w₁ ← write_string k w
    w₂ ← serialize v w₁
    serialize_entries es w₂

-- A fixed-width integer in memory, lowest byte first.
unfoldable pub le_bytes : ℕ → ℕ → Bytes
le_bytes zero v = []
le_bytes (suc k) v = (v % 256) ∷ le_bytes k (v / 256)

-- The header's length and checksum are reserved, and filled in behind the payload.
unfoldable pub store : Parameter → Writer → Result Writer
store p w = if not (offset w == 0) then err already_used else do
  w₁ ← put_byte wire_version w
  check_capacity (offset w₁) 12 w₁.capacity
  w₂ ← emit (replicate 12 0) w₁
  w₃ ← serialize p w₂
  let payload = drop 13 w₃.written
  let header = le_bytes 8 (length payload) ++ le_bytes 4 (crc32 payload)
  ok (record w₃ { written = wire_version ∷ (header ++ payload) })
