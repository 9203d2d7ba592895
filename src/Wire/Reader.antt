-- ===== src/Wire/Reader.antt =====
-- `load` and `deserialize`: the reading half of `parameter_bytestream_t`.
use minesweeper.Prelude.{
  ℕ, zero, suc, ◌+◌, ◌-◌, ◌*◌, ◌^◌, Bool, not, ltb, ◌==◌, if◌then◌else◌, [], ◌∷◌, length, take,
  drop, get_or,
}
use minesweeper.Prelude.Int.{ℤ, pos, to_int64, to_uint64, ◌-ℤ◌}
use minesweeper.Parameter.{
  Bytes, Parameter, Items, Entries, string, int64, boolean, vector, map, no_items, item, no_entries,
  emplace,
}
use minesweeper.Wire.Result.{
  Result, ok, err, ◌>>=◌, ◌>>◌, already_used, version_mismatch, checksum_mismatch, trailing_bytes,
  invalid_tag, length_error, fault, stuck, check_capacity, Tag, tag_of_code, wire_version,
}
use minesweeper.Wire.Crc.{crc32}

-- `offset_`, and the bytes from there to `buffer_size_`.
pub record Reader : Type 0 where
  pub offset : ℕ
  pub rest : Bytes

abbrev pub check : ℕ → Reader → Result (Unit {0})
check n r = check_capacity r.offset n (r.offset + length r.rest)

-- `n` bytes at `offset_`, which moves on behind them.
unfoldable pub take_bytes : ℕ → Reader → Result (Bytes × Reader)
take_bytes n r =
    if ltb (length r.rest) n
    then err fault
    else ok (take n r.rest, record { offset = r.offset + n; rest = drop n r.rest })

unfoldable pub read_byte : Reader → Result (ℕ × Reader)
read_byte r = do check 1 r; (bs, r₁) ← take_bytes 1 r; ok (get_or bs 0 0, r₁)

unfoldable pub read_tag : Reader → Result (ℕ × Reader)
read_tag r = read_byte r

-- The loop of `read_integer`, from the byte of index `i` on; the bytes do not overlap, so `|=`
-- adds. The result is the bit pattern of an `int64_t`.
unfoldable pub read_bytes : ℕ → ℕ → ℕ → Reader → Result (ℕ × Reader)
read_bytes zero i ret r = ok (ret, r)
read_bytes (suc left) i ret r = do
  (b, r₁) ← read_byte r
  read_bytes left (i + 1) (ret + b * 2 ^ (8 * i)) r₁

unfoldable pub read_integer : ℕ → Reader → Result (ℤ × Reader)
read_integer k r = do (n, r₁) ← read_bytes k 0 0 r; ok (to_int64 n, r₁)

unfoldable pub read_len_of : Tag → Reader → ℕ → Result (ℕ × Reader)
read_len_of (Tag.number k) r code = do (z, r₁) ← read_integer k r; ok (to_uint64 z, r₁)
read_len_of _ r code = err (invalid_tag code)

unfoldable pub read_len : Reader → Result (ℕ × Reader)
read_len r = do (code, r₁) ← read_tag r; read_len_of (tag_of_code code) r₁ code

-- A copy into a `std::string`, which throws for a length above that of any object.
unfoldable pub copy_bytes : ℕ → Reader → Result (Bytes × Reader)
copy_bytes len r = if ltb (2 ^ 63 - 1) len then err length_error else take_bytes len r

unfoldable pub read_string : ℕ → Reader → Result (Bytes × Reader)
read_string k r = do
  (z, r₁) ← read_integer k r
  let len = to_uint64 z
  check len r₁
  copy_bytes len r₁

-- Any byte but 0 is read as true.
unfoldable pub read_bool : Reader → Result (Bool × Reader)
read_bool r = do (b, r₁) ← read_byte r; ok (not (b == 0), r₁)

-- The tag of a map's key.
unfoldable pub read_key_of : Tag → Reader → ℕ → Result (Bytes × Reader)
read_key_of (Tag.string k) r code = read_string k r
read_key_of _ r code = err (invalid_tag code)

unfoldable pub read_key : Reader → Result (Bytes × Reader)
read_key r = do (code, r₁) ← read_tag r; read_key_of (tag_of_code code) r₁ code

-- `-read_integer(k)`; at 8 bytes the negation is that of a `uint64_t`.
unfoldable pub negated : ℕ → ℤ → ℤ
negated k z = if k == 8 then to_int64 (2 ^ 64 - to_uint64 z) else pos 0 -ℤ z

-- The cases of the `switch` of `deserialize`; `items` and `entries` are the loops of `read_vector`
-- and `read_map`.
unfoldable pub read_value :
    (ℕ → Reader → Result (Items × Reader))
    → (ℕ → Reader → Result (Entries × Reader))
    → Tag
    → ℕ
    → Reader
    → Result (Parameter × Reader)
read_value items entries Tag.null code r = ok (string [], r)
read_value items entries (Tag.string k) code r = do (s, r₁) ← read_string k r; ok (string s, r₁)
read_value items entries (Tag.number k) code r = do (z, r₁) ← read_integer k r; ok (int64 z, r₁)
read_value items entries (Tag.neg_number k) code r = do
  (z, r₁) ← read_integer k r
  ok (int64 (negated k z), r₁)
read_value items entries Tag.boolean code r = do (b, r₁) ← read_bool r; ok (boolean b, r₁)
read_value items entries Tag.vector code r = do
  (n, r₁) ← read_len r
  (vs, r₂) ← items n r₁
  ok (vector vs, r₂)
read_value items entries Tag.map code r = do
  (n, r₁) ← read_len r
  (es, r₂) ← entries n r₁
  ok (map es, r₂)
read_value items entries Tag.invalid code r = err (invalid_tag code)

-- What a value's bytes leave of the input is not a structural part of it, so each call costs a unit
-- of fuel. An iteration of a loop over items or entries costs one too.
unfoldable mutual
  pub deserialize : ℕ → Reader → Result (Parameter × Reader)
  deserialize zero r = err stuck
  deserialize (suc f) r = do
    (code, r₁) ← read_tag r
    read_value (read_items f) (λ n r₂. read_entries f n no_entries r₂) (tag_of_code code) code r₁

  -- The loop of `read_vector`.
  pub read_items : ℕ → ℕ → Reader → Result (Items × Reader)
  read_items zero n r = err stuck
  read_items (suc f) zero r = ok (no_items, r)
  read_items (suc f) (suc n) r = do
    (v, r₁) ← deserialize f r
    (vs, r₂) ← read_items f n r₁
    ok (item v vs, r₂)

  -- The loop of `read_map`.
  pub read_entries : ℕ → ℕ → Entries → Reader → Result (Entries × Reader)
  read_entries zero n m r = err stuck
  read_entries (suc f) zero m r = ok (m, r)
  read_entries (suc f) (suc n) m r = do
    (k, r₁) ← read_key r
    (v, r₂) ← deserialize f r₁
    read_entries f n (emplace k v m) r₂

-- A fixed-width integer in memory, lowest byte first.
unfoldable pub le_value : Bytes → ℕ
le_value [] = 0
le_value (b ∷ bs) = b + 256 * le_value bs

-- The end of `load`: the payload is parsed to its last byte.
unfoldable pub load_payload : Reader → Result Parameter
load_payload r = do
  (p, r₁) ← deserialize (2 * length r.rest + 1) r
  if length r₁.rest == 0 then ok p else err trailing_bytes

-- With `buffer_size_` narrowed to the payload. A length for which `check_capacity` wraps around
-- makes the checksum read behind the buffer.
unfoldable pub load_checked : ℕ → ℕ → Reader → Result Parameter
load_checked payload_len expected_checksum r =
    if ltb (length r.rest) payload_len then err fault else do
      let payload = take payload_len r.rest
      if crc32 payload == expected_checksum
          then load_payload (record r { rest = payload })
          else err checksum_mismatch

-- The header behind the version.
unfoldable pub load_header : Reader → Result Parameter
load_header r = do
  check 12 r
  (length_bytes, r₁) ← take_bytes 8 r
  (checksum_bytes, r₂) ← take_bytes 4 r₁
  check (le_value length_bytes) r₂
  load_checked (le_value length_bytes) (le_value checksum_bytes) r₂

unfoldable pub load : Reader → Result Parameter
load r = if not (r.offset == 0) then err already_used else do
  (version, r₁) ← read_byte r
  if version == wire_version then load_header r₁ else err version_mismatch
