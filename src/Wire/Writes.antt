-- ===== src/Wire/Writes.antt =====
-- The writes, one by one, against the encoding of their value.
use minesweeper.Prelude.{
  ℕ, zero, suc, ◌+◌, ◌%◌, ◌^◌, ◌≤◌, ◌<◌, ◌≡◌, refl, sym, subst, ap, ◌∙◌, Bool, Bool-cases, leb,
  if◌then◌else◌, [], ◌∷◌, ◌++◌, append_assoc, append-nil, length, length-append, inl, inr, arith,
}
use minesweeper.Prelude.Int.{ℤ, pos, negsuc}
use minesweeper.Parameter.{Bytes, boolean}
use minesweeper.Wire.Result.{Result, ok, err, ◌>>=◌, ◌>>◌, overrun, check_capacity, Tag, tag_code}
use minesweeper.Wire.Writer.{
  Writer, offset, emit, put_byte, write_tag, put_bytes, byte, bytes_needed, width, write_string,
  write_integer, write_bool,
}
use minesweeper.Wire.Numbers.{bytes_needed-eq-width, digits, length-digits, width_bounds}
use minesweeper.Wire.Encode.{tagged, encode_string, encode_integer, encode}

abbrev pub extend : Writer → Bytes → Writer
extend w bs = record w { written = w.written ++ bs }

-- The capacity is far from the end of `size_t`, as that of every real buffer is.
pub record IsReal (w : Writer) : Type 0 where
  pub within : offset w ≤ w.capacity
  pub below : w.capacity < 2 ^ 62

-- `op` appends `bs` wherever they fit.
abbrev pub Fits : (Writer → Result Writer) → Bytes → Type 0
Fits op bs = (w : Writer) → IsReal w → offset w + length bs ≤ w.capacity → op w ≡ ok (extend w bs)

-- `op` appends `bs` where they fit, and reports an overrun elsewhere.
abbrev pub Writes : (Writer → Result Writer) → Bytes → Type 0
Writes op bs =
    (w : Writer)
    → IsReal w
    → op w ≡ (if leb (offset w + length bs) w.capacity then ok (extend w bs) else err overrun)

extend-extend : (w : Writer) (as' bs : Bytes) → extend (extend w as') bs ≡ extend w (as' ++ bs)
extend-extend w as' bs = ap (λ l. record w { written = l }) (append_assoc w.written as' bs)

pub extend-IsReal :
    (w : Writer) (bs : Bytes) → IsReal w → offset w + length bs ≤ w.capacity → IsReal (extend w bs)
extend-IsReal w bs r h = record { within = rw (length-append w.written bs) h; below = r.below }

pub Writes-Fits : (op : Writer → Result Writer) (bs : Bytes) → Writes op bs → Fits op bs
Writes-Fits op bs h w r f = h w r ∙ ground arith

Fits-then :
    (op op' : Writer → Result Writer) (as' bs : Bytes)
    → Fits op as'
    → Fits op' bs
    → Fits (λ w. op w >>= op') (as' ++ bs)
Fits-then op op' as' bs h k w r f =
    let both = length-append as' bs in
    let first = h w r (omega (arith, both)) in
    rw first (
      k (extend w as') (extend-IsReal w as' r (omega (arith, both)))
        (omega (arith, both, length-append w.written as'))
      ∙ ap ok (extend-extend w as' bs))

pub Writes-then :
    (op op' : Writer → Result Writer) (as' bs : Bytes)
    → Writes op as'
    → Writes op' bs
    → Writes (λ w. op w >>= op') (as' ++ bs)
Writes-then op op' as' bs h k w r = elim (Bool-cases (leb (offset w + length as') w.capacity)) [
  | inl fits ↦ ground (
    arith,
    h w r,
    fits,
    k (extend w as') (extend-IsReal w as' r (ground (arith, fits))),
    length-append w.written as',
    length-append as' bs,
    extend-extend w as' bs,
  )
  | inr over ↦ ground (arith, h w r, over, length-append as' bs)
]

-- An operation that reserves what it writes.
pub guarded-Writes :
    (needed : ℕ) (op : Writer → Result Writer) (bs : Bytes)
    → length bs ≡ needed
    → needed < 2 ^ 63
    → Fits op bs
    → Writes (λ w. check_capacity (offset w) needed w.capacity >> op w) bs
unfolding check_capacity
guarded-Writes needed op bs same small h w r = ground (arith, same, r.within, r.below, h w r)

pub emit-Fits : (bs : Bytes) → Fits (emit bs) bs
unfolding emit
emit-Fits bs w r f = ground arith

pub put_byte-Writes : (v : ℕ) → Writes (put_byte v) ((v % 256) ∷ [])
unfolding put_byte
put_byte-Writes v =
    guarded-Writes 1 (emit ((v % 256) ∷ [])) ((v % 256) ∷ []) refl (omega arith) (emit-Fits _)

pub write_tag-Writes : (t : Tag) → Writes (write_tag t) (tagged t [])
unfolding write_tag
write_tag-Writes t = put_byte-Writes (tag_code t)

put_bytes-Fits : (left i v : ℕ) → Fits (put_bytes left i v) (digits left i v)
unfolding put_bytes digits
put_bytes-Fits zero i v =
    λ w r f. ap (λ l. ok (record w { written = l })) (sym (append-nil w.written))
put_bytes-Fits (suc left) i v =
    let one : byte v i % 256 ≡ byte v i = omega arith in
    Fits-then (put_byte (byte v i)) (put_bytes left (i + 1) v) (byte v i ∷ [])
      (digits left (i + 1) v)
      (subst (λ b. Fits (put_byte (byte v i)) (b ∷ [])) one
        (Writes-Fits (put_byte (byte v i)) _ (put_byte-Writes (byte v i))))
      (put_bytes-Fits left (i + 1) v)

-- A tag, then the bytes of a number.
tagged-Fits :
    (t : Tag) (k v : ℕ) → Fits (λ w. write_tag t w >>= put_bytes k 0 v) (tagged t (digits k 0 v))
tagged-Fits t k v =
    Fits-then (write_tag t) (put_bytes k 0 v) (tagged t []) (digits k 0 v)
      (Writes-Fits (write_tag t) (tagged t []) (write_tag-Writes t)) (put_bytes-Fits k 0 v)

-- A string and a number reserve exactly the bytes that they write.
pub write_string-Writes :
    (s : Bytes) → length s < 2 ^ 62 → Writes (write_string s) (encode_string s)
unfolding write_string encode_string
write_string-Writes s h =
    let n = length s in
    let rest : Fits (λ w. put_bytes (width n) 0 n w >>= emit s) (digits (width n) 0 n ++ s) =
      Fits-then (put_bytes (width n) 0 n) (emit s) (digits (width n) 0 n) s
        (put_bytes-Fits (width n) 0 n) (emit-Fits s) in
    guarded-Writes (1 + bytes_needed n + n)
      (λ w. write_tag (Tag.string (width n)) w >>= λ w₁. put_bytes (width n) 0 n w₁ >>= emit s)
      (encode_string s)
      (omega (
        arith,
        length-append (digits (width n) 0 n) s,
        length-digits (width n) 0 n,
        bytes_needed-eq-width n,
      ))
      (omega (arith, width_bounds n, bytes_needed-eq-width n))
      (Fits-then (write_tag (Tag.string (width n))) (λ w₁. put_bytes (width n) 0 n w₁ >>= emit s)
        (tagged (Tag.string (width n)) []) _
        (Writes-Fits (write_tag (Tag.string (width n))) _ (write_tag-Writes (Tag.string (width n))))
        rest)

magnitude-Writes :
    (t : Tag) (v : ℕ)
    → Writes
        (λ w.
          check_capacity (offset w) (1 + bytes_needed v) w.capacity
          >> (write_tag t w >>= put_bytes (width v) 0 v))
        (tagged t (digits (width v) 0 v))
magnitude-Writes t v =
    guarded-Writes (1 + bytes_needed v) (λ w. write_tag t w >>= put_bytes (width v) 0 v) _
      (omega (arith, length-digits (width v) 0 v, bytes_needed-eq-width v))
      (omega (arith, width_bounds v, bytes_needed-eq-width v)) (tagged-Fits t (width v) v)

pub write_integer-Writes : (z : ℤ) → Writes (write_integer z) (encode_integer z)
unfolding write_integer encode_integer
write_integer-Writes (pos n) =
    let e : n + 0 ≡ n = omega arith in rw e (magnitude-Writes (Tag.number (width n)) n)
write_integer-Writes (negsuc n) =
    let e : 0 + suc n ≡ suc n = omega arith in
    rw e (magnitude-Writes (Tag.neg_number (width (suc n))) (suc n))

pub write_bool-Writes : (b : Bool) → Writes (write_bool b) (encode (boolean b))
unfolding write_bool encode
write_bool-Writes b =
    guarded-Writes 2 (λ w. write_tag Tag.boolean w >>= emit ((if b then 1 else 0) ∷ [])) _ refl
      (omega arith)
      (Fits-then (write_tag Tag.boolean) (emit ((if b then 1 else 0) ∷ [])) (tagged Tag.boolean [])
        _ (Writes-Fits (write_tag Tag.boolean) _ (write_tag-Writes Tag.boolean)) (emit-Fits _))

pub empty-Writes : Writes ok []
empty-Writes w r = ground (arith, r.within, append-nil w.written)

pub write_tag_then :
    (t : Tag) (op : Writer → Result Writer) (bs : Bytes)
    → Writes op bs
    → Writes (λ w. write_tag t w >>= op) (tagged t bs)
write_tag_then t op bs h = Writes-then (write_tag t) op (tagged t []) bs (write_tag-Writes t) h
