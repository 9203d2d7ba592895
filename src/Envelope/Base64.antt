-- ===== src/Envelope/Base64.antt =====
-- libs/envelope/src/base64.cxx: both alphabets of RFC 4648, with `base64_encode` and
-- `base64_decode`. A shift is written as a product or a quotient by a power of 2, and `|` as `+`,
-- since its operands have no bit in common.
use minesweeper.Prelude.{
  ℕ, zero, suc, ◌+◌, ◌-◌, ◌*◌, ◌/◌, ◌%◌, ◌^◌, Bool, true, false, ltb, leb, ◌==◌, if◌then◌else◌,
  List, [], ◌∷◌, ◌++◌, length, get_or, set, take, replicate,
}
use minesweeper.Prelude.Int.{ℤ, pos, negsuc}
use minesweeper.Expected.{Expected, ok, unexpected, ◌>>=◌}
use minesweeper.Parameter.{Bytes, text}
pub mod Table
pub mod RoundTrip
pub mod Errors

pub data Alphabet : Type 0 where
  standard url_safe : Alphabet

abbrev pub standard_table : Bytes
standard_table = text "ABCDEFGHIJKLMNOPQRSTUVWXYZabcdefghijklmnopqrstuvwxyz0123456789+/"

abbrev pub url_safe_table : Bytes
url_safe_table = text "ABCDEFGHIJKLMNOPQRSTUVWXYZabcdefghijklmnopqrstuvwxyz0123456789-_"

unfoldable pub encode_table_for : Alphabet → Bytes
encode_table_for standard = standard_table
encode_table_for url_safe = url_safe_table

-- The second loop of `make_decode_table`, from index `i` on.
unfoldable pub fill_decode_table : ℕ → Bytes → List ℤ → List ℤ
fill_decode_table i [] out = out
fill_decode_table i (c ∷ table) out = fill_decode_table (i + 1) table (set out c (pos i))

unfoldable pub make_decode_table : Bytes → List ℤ
unfolding fill_decode_table
make_decode_table table = fill_decode_table 0 table (replicate 256 (negsuc 0))

unfoldable pub decode_table_for : Alphabet → List ℤ
unfolding make_decode_table encode_table_for
decode_table_for alphabet = make_decode_table (encode_table_for alphabet)

-- `table[n & 0x3F]`
unfoldable pub char_at : Bytes → ℕ → ℕ
char_at table n = get_or table (n % 64) 0

abbrev pub pad : ℕ
pad = b'='

-- The loop of `base64_encode` over groups of three bytes, and the bytes that remain.
unfoldable pub encode_groups : Bytes → Bool → Bytes → Bytes
unfolding char_at
encode_groups table use_padding [] = []
encode_groups table use_padding (a ∷ []) =
    let n = a * 2 ^ 16 in
    char_at table (n / 2 ^ 18)
    ∷ char_at table (n / 2 ^ 12)
    ∷ (if use_padding then pad ∷ pad ∷ [] else [])
encode_groups table use_padding (a ∷ b ∷ []) =
    let n = a * 2 ^ 16 + b * 2 ^ 8 in
    char_at table (n / 2 ^ 18)
    ∷ char_at table (n / 2 ^ 12)
    ∷ char_at table (n / 2 ^ 6)
    ∷ (if use_padding then pad ∷ [] else [])
encode_groups table use_padding (a ∷ b ∷ c ∷ rest) =
    let n = a * 2 ^ 16 + b * 2 ^ 8 + c in
    char_at table (n / 2 ^ 18)
    ∷ char_at table (n / 2 ^ 12)
    ∷ char_at table (n / 2 ^ 6)
    ∷ char_at table n
    ∷ encode_groups table use_padding rest

abbrev pub is_standard : Alphabet → Bool
is_standard standard = true
is_standard url_safe = false

unfoldable pub base64_encode : Bytes → Alphabet → Bytes
unfolding encode_groups encode_table_for
base64_encode bs alphabet = encode_groups (encode_table_for alphabet) (is_standard alphabet) bs

-- The loop that takes trailing padding off the length.
unfoldable pub strip_padding : Bytes → ℕ → ℕ
strip_padding bs zero = zero
strip_padding bs (suc len) =
    let rest = strip_padding bs len in if get_or bs len 0 == pad then rest else suc len

unfoldable pub decode_char : List ℤ → ℕ → Expected ℕ
decode_char dtable b = elim (get_or dtable b (negsuc 0)) [
  | negsuc _ ↦ unexpected "envelope: invalid base64 character."
  | pos v ↦ ok v
]

-- The loop over groups of four characters, and the two or three that remain.
unfoldable pub decode_groups : List ℤ → Bytes → Expected Bytes
unfolding decode_char
decode_groups dtable [] = ok []
decode_groups dtable (c₀ ∷ []) = ok []
decode_groups dtable (c₀ ∷ c₁ ∷ []) = do
  v₀ ← decode_char dtable c₀
  v₁ ← decode_char dtable c₁
  let n = v₀ * 2 ^ 18 + v₁ * 2 ^ 12
  ok ((n / 2 ^ 16 % 256) ∷ [])
decode_groups dtable (c₀ ∷ c₁ ∷ c₂ ∷ []) = do
  v₀ ← decode_char dtable c₀
  v₁ ← decode_char dtable c₁
  v₂ ← decode_char dtable c₂
  let n = v₀ * 2 ^ 18 + v₁ * 2 ^ 12 + v₂ * 2 ^ 6
  ok ((n / 2 ^ 16 % 256) ∷ (n / 2 ^ 8 % 256) ∷ [])
decode_groups dtable (c₀ ∷ c₁ ∷ c₂ ∷ c₃ ∷ rest) = do
  v₀ ← decode_char dtable c₀
  v₁ ← decode_char dtable c₁
  v₂ ← decode_char dtable c₂
  v₃ ← decode_char dtable c₃
  let n = v₀ * 2 ^ 18 + v₁ * 2 ^ 12 + v₂ * 2 ^ 6 + v₃
  out ← decode_groups dtable rest
  ok ((n / 2 ^ 16 % 256) ∷ (n / 2 ^ 8 % 256) ∷ (n % 256) ∷ out)

unfoldable pub base64_decode : Bytes → Alphabet → Expected Bytes
unfolding strip_padding decode_groups decode_table_for
base64_decode [] alphabet = ok []
base64_decode (c ∷ cs) alphabet =
    let bs = c ∷ cs in
    let len = strip_padding bs (length bs) in
    if ltb 2 (length bs - len)
    then unexpected "envelope: too much base64 padding."
    else if len % 4 == 1
    then unexpected "envelope: invalid base64 input length."
    else decode_groups (decode_table_for alphabet) (take len bs)
