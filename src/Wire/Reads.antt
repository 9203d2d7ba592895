-- ===== src/Wire/Reads.antt =====
-- What each read returns on the bytes that the writing half leaves.
use minesweeper.Prelude.{
  ℕ, zero, suc, ◌+◌, ◌-◌, ltb, false, ◌*◌, ◌%◌, ◌^◌, ◌≤◌, ◌<◌, ◌≡◌, subst, ap, ◌∙◌, [], ◌∷◌, ◌++◌,
  append_assoc, length, length-append, take-append, drop-append, arith,
}
use minesweeper.Prelude.Int.{to_int64, to_uint64}
use minesweeper.Parameter.{Bytes}
use minesweeper.Wire.Result.{Result, ok, ◌>>=◌, ◌>>◌, check_capacity, Tag, tag_code, tag_of_code}
use minesweeper.Wire.Writer.{byte, width}
use minesweeper.Wire.Reader.{
  Reader, check, take_bytes, copy_bytes, read_byte, read_tag, read_bytes, read_integer, read_string,
}
use minesweeper.Wire.Numbers.{digits, value, value-width, width_bounds}
use minesweeper.Wire.Encode.{tagged}

abbrev pub reader : ℕ → Bytes → Reader
reader o bs = record { offset = o; rest = bs }

-- On `bs`, whatever follows, `op` consumes `bs` and returns `a`.
abbrev pub Reads {ℓ} : {A : Type ℓ} → (Reader → Result (A × Reader)) → Bytes → A → Type ℓ
Reads op bs a =
    (o : ℕ) (rest : Bytes)
    → o + length bs + length rest < 2 ^ 63
    → op (reader o (bs ++ rest)) ≡ ok (a, reader (o + length bs) rest)

pub Reads-then {ℓ κ} :
    {A : Type ℓ} {B : Type κ} (op : Reader → Result (A × Reader))
    (f : A → Reader → Result (B × Reader)) (as' bs : Bytes) (a : A) (b : B)
    → Reads op as' a
    → Reads (f a) bs b
    → Reads (λ r. op r >>= λ (x, r₁). f x r₁) (as' ++ bs) b
Reads-then op f as' bs a b h k o rest small =
    let both = length-append as' bs in
    let tail = length-append bs rest in
    let first = h o (bs ++ rest) (omega (arith, both, tail)) in
    let second = k (o + length as') rest (omega (arith, both)) in
    let place : o + length as' + length bs ≡ o + length (as' ++ bs) = omega (arith, both) in
    rw (append_assoc as' bs rest, first) (second ∙ rw place)

pub returns-Reads {ℓ} : {A : Type ℓ} (a : A) → Reads (λ r. ok (a, r)) [] a
returns-Reads a o rest small = ap (λ n. ok (a, reader n rest)) (omega arith)

pub Reads-map {ℓ κ} :
    {A : Type ℓ} {B : Type κ} (op : Reader → Result (A × Reader)) (f : A → B) (bs : Bytes) (a : A)
    → Reads op bs a
    → Reads (λ r. op r >>= λ (x, r₁). ok (f x, r₁)) bs (f a)
Reads-map op f bs a h o rest small = rw (h o rest small)

pub take_bytes-Reads : (bs : Bytes) → Reads (take_bytes (length bs)) bs bs
unfolding take_bytes
take_bytes-Reads bs o rest small =
    ground (arith, length-append bs rest, take-append bs rest, drop-append bs rest)

pub read_byte-Reads : (b : ℕ) → Reads read_byte (b ∷ []) b
unfolding read_byte take_bytes check_capacity
read_byte-Reads b o rest small = ground arith

pub read_tag-Reads : (t : Tag) → Reads read_tag (tagged t []) (tag_code t % 256)
unfolding read_tag
read_tag-Reads t = read_byte-Reads (tag_code t % 256)

read_bytes-Reads : (k i ret v : ℕ) → Reads (read_bytes k i ret) (digits k i v) (ret + value k i v)
unfolding read_bytes digits value
read_bytes-Reads zero i ret v =
    let none_left : ret ≡ ret + 0 = omega arith in
    subst (λ x. Reads (λ r. ok (ret, r)) [] x) none_left (returns-Reads ret)
read_bytes-Reads (suc k) i ret v =
    let n = byte v i * 2 ^ (8 * i) in
    let same : ret + n + value k (i + 1) v ≡ ret + (n + value k (i + 1) v) = omega arith in
    subst
      (λ x.
        Reads (λ r. read_byte r >>= λ (b, r₁). read_bytes k (i + 1) (ret + b * 2 ^ (8 * i)) r₁)
          (byte v i ∷ digits k (i + 1) v) x)
      same
      (Reads-then read_byte (λ b. read_bytes k (i + 1) (ret + b * 2 ^ (8 * i))) (byte v i ∷ [])
        (digits k (i + 1) v) (byte v i) _ (read_byte-Reads (byte v i))
        (read_bytes-Reads k (i + 1) (ret + n) v))

pub read_integer-Reads :
    (v : ℕ) → v < 2 ^ 64 → Reads (read_integer (width v)) (digits (width v) 0 v) (to_int64 v)
unfolding read_integer
read_integer-Reads v h =
    let same : 0 + value (width v) 0 v ≡ v = omega (arith, value-width v h) in
    Reads-map (read_bytes (width v) 0 0) to_int64 (digits (width v) 0 v) v (
      subst (λ x. Reads (read_bytes (width v) 0 0) (digits (width v) 0 v) x) same
        (read_bytes-Reads (width v) 0 0 v))

pub to_uint64-to_int64 : (n : ℕ) → n < 2 ^ 64 → to_uint64 (to_int64 n) ≡ n
unfolding to_uint64 to_int64
to_uint64-to_int64 n h = ground arith

check_then {ℓ} :
    {A : Type ℓ} (n : ℕ) (op : Reader → Result (A × Reader)) (bs : Bytes) (a : A)
    → n ≤ length bs
    → Reads op bs a
    → Reads (λ r. check n r >> op r) bs a
unfolding check_capacity
check_then n op bs a le h o rest small = ground (arith, length-append bs rest, h o rest small)

copy_bytes-Reads : (s : Bytes) → length s < 2 ^ 62 → Reads (copy_bytes (length s)) s s
unfolding copy_bytes
copy_bytes-Reads s h =
    let fits : ltb (2 ^ 63 - 1) (length s) ≡ false = ground (arith, h) in
    rw fits (take_bytes-Reads s)

pub read_string-Reads :
    (s : Bytes)
    → length s < 2 ^ 62
    → Reads (read_string (width (length s))) (digits (width (length s)) 0 (length s) ++ s) s
unfolding read_string
read_string-Reads s h =
    let n = length s in
    let same = to_uint64-to_int64 n (omega arith) in
    Reads-then (read_integer (width n)) (λ z r. check (to_uint64 z) r >> copy_bytes (to_uint64 z) r)
      (digits (width n) 0 n) s (to_int64 n) s (read_integer-Reads n (omega arith))
      (rw same (check_then n (copy_bytes n) s s (omega arith) (copy_bytes-Reads s h)))

-- The tags of the three kinds that carry a width.
pub tag_string :
    (v : ℕ) → tag_of_code (tag_code (Tag.string (width v)) % 256) ≡ Tag.string (width v)
unfolding tag_of_code tag_code
tag_string v = ground (arith, width_bounds v)

pub tag_number :
    (v : ℕ) → tag_of_code (tag_code (Tag.number (width v)) % 256) ≡ Tag.number (width v)
unfolding tag_of_code tag_code
tag_number v = ground (arith, width_bounds v)

pub tag_neg_number :
    (v : ℕ) → tag_of_code (tag_code (Tag.neg_number (width v)) % 256) ≡ Tag.neg_number (width v)
unfolding tag_of_code tag_code
tag_neg_number v = ground (arith, width_bounds v)
