-- ===== src/Wire/Leaves.antt =====
-- What each read leaves of the input.
use minesweeper.Prelude.{
  ℕ, zero, suc, ◌+◌, ◌-◌, ◌*◌, ◌%◌, ◌^◌, ◌≤◌, ◌≢◌, not, ltb, ◌==◌, Bool-cases, length, length-drop,
  inl, inr, arith,
}
use minesweeper.Prelude.Int.{to_uint64}
use minesweeper.Parameter.{Parameter, Items, Entries, string, int64, boolean, vector, map}
use minesweeper.Wire.Result.{
  Result, ok, err, ◌>>=◌, ◌>>◌, stuck, check_capacity, Tag, tag_of_code, null, string, number,
  neg_number, boolean, vector, map, invalid,
}
use minesweeper.Wire.Reader.{
  Reader, check, take_bytes, copy_bytes, read_byte, read_tag, read_bytes, read_integer, read_len_of,
  read_len, read_string, read_bool, read_key_of, read_key, negated, read_value,
}

-- No fuel ran out, and a value leaves at most `L` bytes, less `d`.
unfoldable pub Leaves {ℓ} : {A : Type ℓ} → ℕ → ℕ → Result (A × Reader) → Type 0
Leaves d L (ok (a, r)) = length r.rest + d ≤ L
Leaves d L (err e) = e ≢ stuck

pub Leaves-then {ℓ κ} :
    {A : Type ℓ} {B : Type κ} (d e L : ℕ) (m : Result (A × Reader))
    (f : A → Reader → Result (B × Reader))
    → Leaves d L m
    → ((a : A) (r : Reader) → length r.rest + d ≤ L → Leaves e L (f a r))
    → Leaves e L (m >>= λ (a, r). f a r)
unfolding Leaves
Leaves-then d e L (ok (a, r)) f h k = k a r h
Leaves-then d e L (err x) f h k = h

pub Leaves-less {ℓ} :
    {A : Type ℓ} (d e K L : ℕ) (m : Result (A × Reader))
    → Leaves d K m
    → K + e ≤ L + d
    → Leaves e L m
unfolding Leaves
Leaves-less d e K L (ok (a, r)) h k = omega (arith, h, k)
Leaves-less d e K L (err x) h k = h

pub take_bytes-Leaves : (n : ℕ) (r : Reader) → Leaves n (length r.rest) (take_bytes n r)
unfolding Leaves take_bytes
take_bytes-Leaves n r = ground (arith, length-drop n r.rest)

pub read_byte-Leaves : (r : Reader) → Leaves 1 (length r.rest) (read_byte r)
unfolding Leaves read_byte take_bytes check_capacity
read_byte-Leaves r = ground (arith, length-drop 1 r.rest)

-- A value that is made of what was read.
pub Leaves-map {ℓ κ} :
    {A : Type ℓ} {B : Type κ} (d L : ℕ) (m : Result (A × Reader)) (f : A → B)
    → Leaves d L m
    → Leaves d L (m >>= λ (a, r). ok (f a, r))
unfolding Leaves
Leaves-map d L (ok (a, r)) f h = h
Leaves-map d L (err x) f h = h

pub read_tag-Leaves : (r : Reader) → Leaves 1 (length r.rest) (read_tag r)
unfolding read_tag
read_tag-Leaves r = read_byte-Leaves r

pub read_bytes-Leaves : (k i ret : ℕ) (r : Reader) → Leaves 0 (length r.rest) (read_bytes k i ret r)
unfolding read_bytes Leaves
read_bytes-Leaves zero i ret r = omega arith
read_bytes-Leaves (suc k) i ret r =
    Leaves-then 1 0 (length r.rest) (read_byte r)
      (λ b. read_bytes k (i + 1) (ret + b * 2 ^ (8 * i))) (read_byte-Leaves r)
      (λ b r₁ h.
        Leaves-less 0 0 (length r₁.rest) (length r.rest) _
          (read_bytes-Leaves k (i + 1) (ret + b * 2 ^ (8 * i)) r₁) (omega (arith, h)))

pub read_integer-Leaves : (k : ℕ) (r : Reader) → Leaves 0 (length r.rest) (read_integer k r)
unfolding read_integer
read_integer-Leaves k r =
    Leaves-map 0 (length r.rest) (read_bytes k 0 0 r) _ (read_bytes-Leaves k 0 0 r)

checked {ℓ} :
    {A : Type ℓ} (n : ℕ) (r : Reader) (L : ℕ) (m : Result (A × Reader))
    → Leaves 0 L m
    → Leaves 0 L (check n r >> m)
unfolding check_capacity Leaves
checked n r L m h = elim (Bool-cases (ltb (r.offset + length r.rest) ((r.offset + n) % 2 ^ 64))) [
  | inl over ↦ rw over (λ e. cc)
  | inr fits ↦ rw fits h
]

copy_bytes-Leaves : (n : ℕ) (r : Reader) → Leaves n (length r.rest) (copy_bytes n r)
unfolding copy_bytes Leaves
copy_bytes-Leaves n r = elim (Bool-cases (ltb (2 ^ 63 - 1) n)) [
  | inl long ↦ rw long (λ e. cc)
  | inr short ↦ rw short (take_bytes-Leaves n r)
]

pub read_string-Leaves : (k : ℕ) (r : Reader) → Leaves 0 (length r.rest) (read_string k r)
unfolding read_string
read_string-Leaves k r =
    Leaves-then 0 0 (length r.rest) (read_integer k r)
      (λ z r₁. check (to_uint64 z) r₁ >> copy_bytes (to_uint64 z) r₁) (read_integer-Leaves k r)
      (λ z r₁ h. checked (to_uint64 z) r₁ (length r.rest) (copy_bytes (to_uint64 z) r₁) (
        Leaves-less (to_uint64 z) 0 (length r₁.rest) (length r.rest) _
          (copy_bytes-Leaves (to_uint64 z) r₁) (omega (arith, h))))

pub read_len_of-Leaves :
    (t : Tag) (r : Reader) (code : ℕ) → Leaves 0 (length r.rest) (read_len_of t r code)
unfolding read_len_of Leaves
read_len_of-Leaves (number k) r code =
    Leaves-map 0 (length r.rest) (read_integer k r) to_uint64 (read_integer-Leaves k r)
read_len_of-Leaves null r code = λ e. cc
read_len_of-Leaves (string k) r code = λ e. cc
read_len_of-Leaves (neg_number k) r code = λ e. cc
read_len_of-Leaves boolean r code = λ e. cc
read_len_of-Leaves vector r code = λ e. cc
read_len_of-Leaves map r code = λ e. cc
read_len_of-Leaves invalid r code = λ e. cc

pub read_key_of-Leaves :
    (t : Tag) (r : Reader) (code : ℕ) → Leaves 0 (length r.rest) (read_key_of t r code)
unfolding read_key_of Leaves
read_key_of-Leaves (string k) r code = read_string-Leaves k r
read_key_of-Leaves null r code = λ e. cc
read_key_of-Leaves (number k) r code = λ e. cc
read_key_of-Leaves (neg_number k) r code = λ e. cc
read_key_of-Leaves boolean r code = λ e. cc
read_key_of-Leaves vector r code = λ e. cc
read_key_of-Leaves map r code = λ e. cc
read_key_of-Leaves invalid r code = λ e. cc

-- A tag takes a byte, and what follows it takes none or more.
pub tag_first {ℓ} :
    {B : Type ℓ} (f : ℕ → Reader → Result (B × Reader)) (r : Reader)
    → ((code : ℕ) (r₁ : Reader)
        → length r₁.rest + 1 ≤ length r.rest
        → Leaves 0 (length r₁.rest) (f code r₁))
    → Leaves 1 (length r.rest) (read_tag r >>= λ (code, r₁). f code r₁)
tag_first f r h = Leaves-then 1 1 (length r.rest) (read_tag r) f (read_tag-Leaves r) (λ code r₁ le.
    Leaves-less 0 1 (length r₁.rest) (length r.rest) _ (h code r₁ le) (omega (arith, le)))

pub read_len-Leaves : (r : Reader) → Leaves 1 (length r.rest) (read_len r)
unfolding read_len
read_len-Leaves r =
    tag_first (λ code r₁. read_len_of (tag_of_code code) r₁ code) r
      (λ code r₁ le. read_len_of-Leaves (tag_of_code code) r₁ code)

pub read_key-Leaves : (r : Reader) → Leaves 1 (length r.rest) (read_key r)
unfolding read_key
read_key-Leaves r =
    tag_first (λ code r₁. read_key_of (tag_of_code code) r₁ code) r
      (λ code r₁ le. read_key_of-Leaves (tag_of_code code) r₁ code)

pub read_bool-Leaves : (r : Reader) → Leaves 1 (length r.rest) (read_bool r)
unfolding read_bool
read_bool-Leaves r =
    Leaves-map 1 (length r.rest) (read_byte r) (λ b. not (b == 0)) (read_byte-Leaves r)

-- A count, and a loop of that many rounds.
counted_loop {ℓ} :
    {A : Type ℓ} (loop : ℕ → Reader → Result (A × Reader)) (f : A → Parameter) (r : Reader)
    → ((n : ℕ) (r₁ : Reader)
        → length r₁.rest ≤ length r.rest
        → Leaves 0 (length r₁.rest) (loop n r₁))
    → Leaves 0 (length r.rest) (read_len r >>= λ (n, r₁). loop n r₁ >>= λ (a, r₂). ok (f a, r₂))
counted_loop loop f r h =
    Leaves-then 1 0 (length r.rest) (read_len r) (λ n r₁. loop n r₁ >>= λ (a, r₂). ok (f a, r₂))
      (read_len-Leaves r)
      (λ n r₁ le. Leaves-map 0 (length r.rest) (loop n r₁) f (
        Leaves-less 0 0 (length r₁.rest) (length r.rest) _ (h n r₁ (omega (arith, le)))
          (omega (arith, le))))

pub value-Leaves :
    (items : ℕ → Reader → Result (Items × Reader))
    (entries : ℕ → Reader → Result (Entries × Reader)) (t : Tag) (code : ℕ) (r : Reader)
    → ((n : ℕ) (r₁ : Reader)
        → length r₁.rest ≤ length r.rest
        → Leaves 0 (length r₁.rest) (items n r₁))
    → ((n : ℕ) (r₁ : Reader)
        → length r₁.rest ≤ length r.rest
        → Leaves 0 (length r₁.rest) (entries n r₁))
    → Leaves 0 (length r.rest) (read_value items entries t code r)
unfolding read_value Leaves
value-Leaves items entries Tag.null code r h k = omega arith
value-Leaves items entries (Tag.string n) code r h k =
    Leaves-map 0 (length r.rest) (read_string n r) Parameter.string (read_string-Leaves n r)
value-Leaves items entries (Tag.number n) code r h k =
    Leaves-map 0 (length r.rest) (read_integer n r) int64 (read_integer-Leaves n r)
value-Leaves items entries (Tag.neg_number n) code r h k =
    Leaves-map 0 (length r.rest) (read_integer n r) (λ z. int64 (negated n z))
      (read_integer-Leaves n r)
value-Leaves items entries Tag.boolean code r h k =
    Leaves-map 0 (length r.rest) (read_bool r) Parameter.boolean
      (Leaves-less 1 0 (length r.rest) (length r.rest) _ (read_bool-Leaves r) (omega arith))
value-Leaves items entries Tag.vector code r h k = counted_loop items Parameter.vector r h
value-Leaves items entries Tag.map code r h k = counted_loop entries Parameter.map r k
value-Leaves items entries Tag.invalid code r h k = λ e. cc
