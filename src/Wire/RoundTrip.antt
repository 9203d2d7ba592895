-- ===== src/Wire/RoundTrip.antt =====
-- `load` on the bytes of `store`, and on other headers.
use minesweeper.Prelude.{
  ℕ, ◌+◌, ◌*◌, ◌^◌, ◌≤◌, ◌<◌, ◌≡◌, sym, true, leb, [], ◌∷◌, ◌++◌, append_assoc, append-nil, length,
  length-append, take-append, drop-append, arith,
}
use minesweeper.Parameter.{Bytes, Parameter}
use minesweeper.Wire.Result.{ok, err, ◌>>◌, check_capacity, wire_version, fault}
use minesweeper.Wire.Crc.{crc32}
use minesweeper.Wire.Writer.{Writer, store, le_bytes}
use minesweeper.Wire.Reader.{take_bytes, load_payload, load_checked, load_header, load}
use minesweeper.Wire.Numbers.{length-le_bytes, le_value-le_bytes_four, le_value-le_bytes_eight}
use minesweeper.Wire.Encode.{encode, IsSendable}
use minesweeper.Wire.Stored.{frame, fresh_writer, store_lem}
use minesweeper.Wire.Reads.{reader, read_byte-Reads}
use minesweeper.Wire.Decoded.{received, deserialize-Reads}

crc32-lt : (bs : Bytes) → crc32 bs < 2 ^ 32
unfolding crc32
crc32-lt bs = omega arith

load_payload-encode :
    (p : Parameter) (o : ℕ)
    → IsSendable p
    → o + length (encode p) < 2 ^ 63
    → load_payload (reader o (encode p)) ≡ ok (received p)
unfolding load_payload
load_payload-encode p o h small =
    let n = length (encode p) in
    let whole = append-nil (encode p) in
    let run = deserialize-Reads (2 * n + 1) p h (omega arith) o [] (omega arith) in
    ground (arith, rw whole at run)

load_checked-frame :
    (payload junk : Bytes) (o : ℕ)
    → load_checked (length payload) (crc32 payload) (reader o (payload ++ junk))
      ≡ load_payload (reader o payload)
unfolding load_checked
load_checked-frame payload junk o =
    ground (arith, length-append payload junk, take-append payload junk)

-- Bytes of a known number are taken as they stand.
take_known :
    (n : ℕ) (bs rest : Bytes) (o : ℕ)
    → length bs ≡ n
    → take_bytes n (reader o (bs ++ rest)) ≡ ok (bs, reader (o + n) rest)
unfolding take_bytes
take_known n bs rest o e =
    rw (sym e) (ground (arith, length-append bs rest, take-append bs rest, drop-append bs rest))

-- The header's two numbers are read as they were written.
pub load_header-fields :
    (o n c : ℕ) (rest : Bytes)
    → n < 2 ^ 64
    → c < 2 ^ 32
    → o + 12 + length rest < 2 ^ 63
    → load_header (reader o ((le_bytes 8 n ++ le_bytes 4 c) ++ rest)) ≡ (
        check_capacity (o + 12) n (o + 12 + length rest) >> load_checked n c (reader (o + 12) rest))
unfolding load_header check_capacity
load_header-fields o n c rest hn hc small =
    let l8 = length-le_bytes 8 n in
    let l4 = length-le_bytes 4 c in
    let first = take_known 8 (le_bytes 8 n) (le_bytes 4 c ++ rest) o l8 in
    let second = take_known 4 (le_bytes 4 c) rest (o + 8) l4 in
    let all8 = length-append (le_bytes 8 n) (le_bytes 4 c ++ rest) in
    let all4 = length-append (le_bytes 4 c) rest in
    let place : o + 8 + 4 ≡ o + 12 = omega arith in
    rw (append_assoc (le_bytes 8 n) (le_bytes 4 c) rest) (
      ground (
        arith,
        first,
        rw place at second,
        all8,
        all4,
        l8,
        l4,
        le_value-le_bytes_eight n hn,
        le_value-le_bytes_four c hc,
      ))

-- `load` on a version byte, a header and some bytes.
pub load-fields :
    (n c : ℕ) (rest : Bytes)
    → n < 2 ^ 64
    → c < 2 ^ 32
    → 13 + length rest < 2 ^ 63
    → load (reader 0 (wire_version ∷ ((le_bytes 8 n ++ le_bytes 4 c) ++ rest)))
      ≡ (check_capacity 13 n (13 + length rest) >> load_checked n c (reader 13 rest))
unfolding load
load-fields n c rest hn hc small =
    let l8 = length-le_bytes 8 n in
    let l4 = length-le_bytes 4 c in
    let header = le_bytes 8 n ++ le_bytes 4 c in
    let all = length-append header rest in
    let both = length-append (le_bytes 8 n) (le_bytes 4 c) in
    let version = read_byte-Reads 2 0 (header ++ rest) (omega (arith, l8, l4, all, both)) in
    ground (arith, version, load_header-fields 1 n c rest hn hc (omega arith))

-- A parameter that C++ can hold, stored into a fresh buffer of less than 2 ^ 62 bytes where the
-- store does not fail, is loaded again from these bytes, whatever other bytes follow them in the
-- buffer: as itself, but for each `uint64_t`, which comes back as the `int64_t` of the same bits.
pub load-store :
    (p : Parameter) (capacity : ℕ) (w : Writer) (junk : Bytes)
    → IsSendable p
    → capacity < 2 ^ 62
    → store p (fresh_writer capacity) ≡ ok w
    → length junk < 2 ^ 62
    → load (reader 0 (w.written ++ junk)) ≡ ok (received p)
unfolding frame check_capacity
load-store p capacity w junk h small stored few =
    let bs = encode p in
    let said = store_lem p capacity h small in
    let room : leb (13 + length bs) capacity ≡ true = ground (arith, said, stored) in
    let same : w.written ≡ frame bs = ground (arith, said, stored, room) in
    let header = le_bytes 8 (length bs) ++ le_bytes 4 (crc32 bs) in
    let all = length-append bs junk in
    let fields =
      load-fields (length bs) (crc32 bs) (bs ++ junk) (ground (arith, room)) (crc32-lt bs)
        (ground (arith, room, all)) in
    let checked = load_checked-frame bs junk 13 in
    let parsed = load_payload-encode p 13 h (ground (arith, room)) in
    rw (same, append_assoc header bs junk) (ground (arith, fields, checked, parsed, all, room))

-- A buffer of less than 2 ^ 63 bytes, of the right version and with a payload length from 2 ^ 64 -
-- 13 on, whatever its checksum: the length passes the check of the capacity, as the sum wraps
-- around, and the checksum is then computed behind the buffer.
pub load_wraps :
    (n c : ℕ) (rest : Bytes)
    → 2 ^ 64 ≤ 13 + n
    → n < 2 ^ 64
    → c < 2 ^ 32
    → 13 + length rest < 2 ^ 63
    → load (reader 0 (wire_version ∷ ((le_bytes 8 n ++ le_bytes 4 c) ++ rest))) ≡ err fault
unfolding load_checked check_capacity
load_wraps n c rest big hn hc small = ground (arith, load-fields n c rest hn hc small)
