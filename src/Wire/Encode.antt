-- ===== src/Wire/Encode.antt =====
-- The encoding of a parameter, apart from the buffer that it is written to.
use minesweeper.Prelude.{suc, ◌%◌, ◌^◌, ◌≤◌, ◌<◌, if◌then◌else◌, [], ◌∷◌, ◌++◌, length}
use minesweeper.Prelude.Int.{ℤ, pos, negsuc, pos_part, neg_part, to_int64}
use minesweeper.Parameter.{
  Bytes, Parameter, Items, Entries, string, int64, uint64, boolean, vector, map, no_items, item,
  no_entries, entry, size, items_size, IsMap,
}
use minesweeper.Wire.Result.{Tag, tag_code}
use minesweeper.Wire.Writer.{width}
use minesweeper.Wire.Numbers.{digits}

abbrev pub tagged : Tag → Bytes → Bytes
tagged t bs = (tag_code t % 256) ∷ bs

unfoldable pub encode_string : Bytes → Bytes
encode_string s =
    tagged (Tag.string (width (length s))) (digits (width (length s)) 0 (length s) ++ s)

unfoldable pub encode_integer : ℤ → Bytes
encode_integer (pos n) = tagged (Tag.number (width n)) (digits (width n) 0 n)
encode_integer (negsuc n) =
    tagged (Tag.neg_number (width (suc n))) (digits (width (suc n)) 0 (suc n))

unfoldable mutual
  pub encode : Parameter → Bytes
  encode (string s) = encode_string s
  encode (int64 z) = encode_integer z
  encode (uint64 n) = encode_integer (to_int64 n)
  encode (boolean b) = tagged Tag.boolean ((if b then 1 else 0) ∷ [])
  encode (vector vs) = tagged Tag.vector (encode_integer (pos (items_size vs)) ++ encode_items vs)
  encode (map es) = tagged Tag.map (encode_integer (pos (size es)) ++ encode_entries es)

  pub encode_items : Items → Bytes
  encode_items no_items = []
  encode_items (item v vs) = encode v ++ encode_items vs

  pub encode_entries : Entries → Bytes
  encode_entries no_entries = []
  encode_entries (entry k v es) = encode_string k ++ (encode v ++ encode_entries es)

-- The values that C++ can hold: numbers of 64 bits, lengths far below, and maps without double
-- keys.
abbrev mutual
  pub IsSendable : Parameter → Type 0
  IsSendable (string s) = length s < 2 ^ 62
  IsSendable (int64 z) = (pos_part z < 2 ^ 63) × (neg_part z ≤ 2 ^ 63)
  IsSendable (uint64 n) = n < 2 ^ 64
  IsSendable (boolean b) = Unit
  IsSendable (vector vs) = (items_size vs < 2 ^ 63) × IsSendableItems vs
  IsSendable (map es) = (size es < 2 ^ 63) × IsMap es × IsSendableEntries es

  pub IsSendableItems : Items → Type 0
  IsSendableItems no_items = Unit
  IsSendableItems (item v vs) = IsSendable v × IsSendableItems vs

  pub IsSendableEntries : Entries → Type 0
  IsSendableEntries no_entries = Unit
  IsSendableEntries (entry k v es) = (length k < 2 ^ 62) × IsSendable v × IsSendableEntries es
