-- ===== src/Wire/Scalars.antt =====
-- `deserialize`, `read_len` and the map keys on strings, numbers and truth values.
use minesweeper.Prelude.{
  ℕ, suc, ◌%◌, ◌^◌, ◌≤◌, ◌<◌, ◌≡◌, subst, Bool, Bool-cases, not, ltb, ◌==◌, if◌then◌else◌, [], ◌∷◌,
  length, inl, inr, arith,
}
use minesweeper.Prelude.Int.{ℤ, pos, negsuc, pos_part, neg_part, to_int64, to_uint64, ◌-ℤ◌}
use minesweeper.Parameter.{Bytes, string, int64, boolean}
use minesweeper.Wire.Result.{Result, ok, ◌>>=◌, Tag, tag_code, tag_of_code}
use minesweeper.Wire.Writer.{width}
use minesweeper.Wire.Reader.{
  read_value, Reader, read_tag, read_integer, read_len_of, read_len, read_string, read_bool,
  read_byte, read_key_of, read_key, negated, deserialize,
}
use minesweeper.Wire.Numbers.{digits}
use minesweeper.Wire.Encode.{tagged, encode_string, encode_integer, encode}
use minesweeper.Wire.Reads.{
  Reads, Reads-then, Reads-map, read_byte-Reads, read_tag-Reads, read_integer-Reads,
  read_string-Reads, to_uint64-to_int64, tag_string, tag_number, tag_neg_number,
}

-- A tag, and what the rest of the reading makes of it.
pub tag_then {ℓ} :
    {B : Type ℓ} (t : Tag) (f : ℕ → Reader → Result (B × Reader)) (bs : Bytes) (b : B)
    → Reads (f (tag_code t % 256)) bs b
    → Reads (λ r. read_tag r >>= λ (c, r₁). f c r₁) (tagged t bs) b
tag_then t f bs b h =
    Reads-then read_tag f (tagged t []) bs (tag_code t % 256) b (read_tag-Reads t) h

pub read_len-Reads : (n : ℕ) → n < 2 ^ 64 → Reads read_len (encode_integer (pos n)) n
unfolding read_len read_len_of encode_integer
read_len-Reads n h =
    tag_then (Tag.number (width n)) (λ c r. read_len_of (tag_of_code c) r c) _ n
      (rw (tag_number n) (
        subst
          (λ m.
            Reads
              (λ r. read_len_of (Tag.number (width n)) r (tag_code (Tag.number (width n)) % 256))
              (digits (width n) 0 n) m)
          (to_uint64-to_int64 n h)
          (Reads-map (read_integer (width n)) to_uint64 (digits (width n) 0 n) (to_int64 n)
            (read_integer-Reads n h))))

pub read_key-Reads : (k : Bytes) → length k < 2 ^ 62 → Reads read_key (encode_string k) k
unfolding read_key read_key_of encode_string
read_key-Reads k h =
    tag_then (Tag.string (width (length k))) (λ c r. read_key_of (tag_of_code c) r c) _ k
      (rw (tag_string (length k)) (read_string-Reads k h))

pub string-Reads :
    (f : ℕ) (s : Bytes)
    → length s < 2 ^ 62
    → Reads (deserialize (suc f)) (encode_string s) (string s)
unfolding read_value deserialize encode_string
string-Reads f s h = tag_then (Tag.string (width (length s))) _ _ (string s) (
    rw (tag_string (length s))
      (Reads-map (read_string (width (length s))) string _ s (read_string-Reads s h)))

to_int64-pos : (n : ℕ) → n < 2 ^ 63 → to_int64 n ≡ pos n
unfolding to_int64
to_int64-pos n h = ground arith

-- The value of greatest magnitude takes all 8 bytes.
width-eight : (v : ℕ) → 2 ^ 63 ≤ v → width v ≡ 8
unfolding width
width-eight v h = ground arith

negated-to_int64 : (n : ℕ) → suc n ≤ 2 ^ 63 → negated (width (suc n)) (to_int64 (suc n)) ≡ negsuc n
unfolding negated to_int64 to_uint64 ◌-ℤ◌
negated-to_int64 n h = elim (Bool-cases (ltb (suc n) (2 ^ 63))) [
  | inl small ↦ ground (arith, small)
  | inr large ↦ ground (arith, large, width-eight (suc n))
]

pub integer-Reads :
    (f : ℕ) (z : ℤ)
    → pos_part z < 2 ^ 63
    → neg_part z ≤ 2 ^ 63
    → Reads (deserialize (suc f)) (encode_integer z) (int64 z)
unfolding read_value deserialize encode_integer
integer-Reads f (pos n) h k =
    let same : to_int64 n ≡ pos n = to_int64-pos n h in
    tag_then (Tag.number (width n)) _ _ (int64 (pos n)) (
      rw (tag_number n) (
        subst
          (λ z.
            Reads (λ r. read_integer (width n) r >>= λ (x, r₁). ok (int64 x, r₁))
              (digits (width n) 0 n) (int64 z))
          same
          (Reads-map (read_integer (width n)) int64 _ (to_int64 n)
            (read_integer-Reads n (omega arith)))))
integer-Reads f (negsuc n) h k =
    let v = suc n in
    let same : negated (width v) (to_int64 v) ≡ negsuc n = negated-to_int64 n k in
    tag_then (Tag.neg_number (width v)) _ _ (int64 (negsuc n)) (
      rw (tag_neg_number v) (
        subst
          (λ z.
            Reads
              (λ r. read_integer (width v) r >>= λ (x, r₁). ok (int64 (negated (width v) x), r₁))
              (digits (width v) 0 v) (int64 z))
          same
          (Reads-map (read_integer (width v)) (λ x. int64 (negated (width v) x)) _ (to_int64 v)
            (read_integer-Reads v (omega arith)))))

read_bool-Reads : (b : Bool) → Reads read_bool ((if b then 1 else 0) ∷ []) b
unfolding read_bool
read_bool-Reads b =
    subst (λ x. Reads read_bool ((if b then 1 else 0) ∷ []) x) (ground arith)
      (Reads-map read_byte (λ n. not (n == 0)) ((if b then 1 else 0) ∷ []) (if b then 1 else 0)
        (read_byte-Reads (if b then 1 else 0)))

pub boolean-Reads :
    (f : ℕ) (b : Bool) → Reads (deserialize (suc f)) (encode (boolean b)) (boolean b)
unfolding read_value deserialize encode read_bool tag_of_code tag_code
boolean-Reads f b =
    let bs = (if b then 1 else 0) ∷ [] in
    tag_then Tag.boolean _ bs (boolean b) (Reads-map read_bool boolean bs b (read_bool-Reads b))
