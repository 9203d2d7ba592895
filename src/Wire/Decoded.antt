-- ===== src/Wire/Decoded.antt =====
-- `deserialize` on the bytes of `serialize`, and what comes back.
use minesweeper.Prelude.{
  ℕ, zero, suc, ◌^◌, ◌≤◌, ◌<◌, ◌≡◌, subst, ◌++◌, length, length-append, arith,
}
use minesweeper.Prelude.Int.{ℤ, pos, negsuc, pos_part, neg_part, to_int64}
use minesweeper.Parameter.{
  Parameter, Items, Entries, string, int64, uint64, boolean, vector, map, no_items, item,
  no_entries, entry, size, items_size, append, emplace, IsMap,
}
use minesweeper.Wire.Result.{ok, ◌>>=◌, Tag, tag_code, tag_of_code}
use minesweeper.Wire.Reader.{read_value, read_len, read_key, deserialize, read_items, read_entries}
use minesweeper.Wire.Encode.{
  encode_string, encode_integer, encode, encode_items, encode_entries, IsSendable, IsSendableItems,
  IsSendableEntries,
}
use minesweeper.Parameter.Maps.{
  Apart, append_assoc_entries, append-no_entries, Apart-append, Apart-start,
}
use minesweeper.Wire.Scalars.{
  tag_then, read_len-Reads, read_key-Reads, string-Reads, integer-Reads, boolean-Reads,
}
use minesweeper.Wire.Reads.{Reads, Reads-then, Reads-map, returns-Reads}

-- What comes back: a `uint64_t` as the `int64_t` of the same bits.
unfoldable mutual
  pub received : Parameter → Parameter
  received (string s) = string s
  received (int64 z) = int64 z
  received (uint64 n) = int64 (to_int64 n)
  received (boolean b) = boolean b
  received (vector vs) = vector (received_items vs)
  received (map es) = map (received_entries es)

  pub received_items : Items → Items
  received_items no_items = no_items
  received_items (item v vs) = item (received v) (received_items vs)

  pub received_entries : Entries → Entries
  received_entries no_entries = no_entries
  received_entries (entry k v es) = entry k (received v) (received_entries es)

length-encode_integer : (z : ℤ) → 1 ≤ length (encode_integer z)
unfolding encode_integer
length-encode_integer (pos n) = omega arith
length-encode_integer (negsuc n) = omega arith

-- Every encoding has a byte.
length-encode : (p : Parameter) → 1 ≤ length (encode p)
unfolding encode encode_string
length-encode (string s) = omega arith
length-encode (int64 z) = length-encode_integer z
length-encode (uint64 n) = length-encode_integer (to_int64 n)
length-encode (boolean b) = omega arith
length-encode (vector vs) = omega arith
length-encode (map es) = omega arith

to_int64_bounds : (n : ℕ) → (pos_part (to_int64 n) < 2 ^ 63) × (neg_part (to_int64 n) ≤ 2 ^ 63)
unfolding to_int64
to_int64_bounds n = ground arith

-- A unit of fuel for each byte is enough, and one for the end of a loop.
mutual
  unfolding append emplace read_value deserialize encode received tag_of_code tag_code items_size
      size

  pub deserialize-Reads :
      (f : ℕ) (p : Parameter)
      → IsSendable p
      → length (encode p) ≤ f
      → Reads (deserialize f) (encode p) (received p)
  deserialize-Reads zero p h e = absurd (omega (arith, length-encode p))
  deserialize-Reads (suc f) (string s) h e = string-Reads f s h
  deserialize-Reads (suc f) (int64 z) h e = integer-Reads f z h.0 h.1
  deserialize-Reads (suc f) (uint64 n) h e =
      integer-Reads f (to_int64 n) (to_int64_bounds n).0 (to_int64_bounds n).1
  deserialize-Reads (suc f) (boolean b) h e = boolean-Reads f b
  deserialize-Reads (suc f) (vector vs) h e =
      let n = items_size vs in
      let both = length-append (encode_integer (pos n)) (encode_items vs) in
      tag_then Tag.vector _ (encode_integer (pos n) ++ encode_items vs) _ (
        Reads-then read_len (λ m r. read_items f m r >>= λ (xs, r₁). ok (vector xs, r₁))
          (encode_integer (pos n)) (encode_items vs) n _ (read_len-Reads n (omega (arith, h.0)))
          (Reads-map (read_items f n) vector (encode_items vs) (received_items vs)
            (read_items-Reads f vs h.1 (omega (arith, e, both, length-encode_integer (pos n))))))
  deserialize-Reads (suc f) (map es) h e =
      let n = size es in
      let both = length-append (encode_integer (pos n)) (encode_entries es) in
      tag_then Tag.map _ (encode_integer (pos n) ++ encode_entries es) _ (
        Reads-then read_len (λ m r. read_entries f m no_entries r >>= λ (xs, r₁). ok (map xs, r₁))
          (encode_integer (pos n)) (encode_entries es) n _ (read_len-Reads n (omega (arith, h.0)))
          (Reads-map (read_entries f n no_entries) map (encode_entries es) (received_entries es) (
            read_entries-Reads f no_entries es h.2 h.1 (Apart-start es)
              (omega (arith, e, both, length-encode_integer (pos n))))))

  read_items-Reads :
      (f : ℕ) (vs : Items)
      → IsSendableItems vs
      → length (encode_items vs) < f
      → Reads (read_items f (items_size vs)) (encode_items vs) (received_items vs)
  read_items-Reads zero vs h e = absurd (omega arith)
  read_items-Reads (suc f) no_items h e = returns-Reads no_items
  read_items-Reads (suc f) (item v vs) h e =
      let both = length-append (encode v) (encode_items vs) in
      Reads-then (deserialize f)
        (λ x r. read_items f (items_size vs) r >>= λ (xs, r₁). ok (item x xs, r₁)) (encode v)
        (encode_items vs) (received v) (item (received v) (received_items vs))
        (deserialize-Reads f v h.0 (omega (arith, both)))
        (Reads-map (read_items f (items_size vs)) (item (received v)) (encode_items vs)
          (received_items vs) (read_items-Reads f vs h.1 (omega (arith, both, length-encode v))))

  read_entries-Reads :
      (f : ℕ) (m es : Entries)
      → IsSendableEntries es
      → IsMap es
      → Apart m es
      → length (encode_entries es) < f
      → Reads (read_entries f (size es) m) (encode_entries es) (append m (received_entries es))
  read_entries-Reads zero m es h u a e = absurd (omega arith)
  read_entries-Reads (suc f) m no_entries h u a e = rw (append-no_entries m) (returns-Reads m)
  read_entries-Reads (suc f) m (entry k v es) h u a e =
      let both = length-append (encode_string k) (encode v ++ encode_entries es) in
      let rest = length-append (encode v) (encode_entries es) in
      let m₁ = append m (entry k (received v) no_entries) in
      let added : emplace k (received v) m ≡ m₁ = ground (arith, a.0) in
      let joined : append m₁ (received_entries es)
          ≡ append m (entry k (received v) (received_entries es)) =
        append_assoc_entries m (entry k (received v) no_entries) (received_entries es) in
      Reads-then read_key
        (λ j r. deserialize f r >>= λ (x, r₂). read_entries f (size es) (emplace j x m) r₂)
        (encode_string k) (encode v ++ encode_entries es) k _ (read_key-Reads k h.0)
        (Reads-then (deserialize f) (λ x. read_entries f (size es) (emplace k x m)) (encode v)
          (encode_entries es) (received v) _
          (deserialize-Reads f v h.1 (omega (arith, e, both, rest)))
          (rw added (
            subst (λ t. Reads (read_entries f (size es) m₁) (encode_entries es) t) joined
              (read_entries-Reads f m₁ es h.2 u.1 (Apart-append k (received v) m es a.1 u.0)
                (omega (arith, e, both, rest, length-encode v))))))
