-- ===== src/Envelope/Base64/RoundTrip.antt =====
-- `base64_decode` after `base64_encode`.
use minesweeper.Prelude.{
  ℕ, zero, suc, ◌+◌, ◌-◌, ◌*◌, ◌/◌, ◌%◌, ◌^◌, ◌≤◌, ◌<◌, ◌≡◌, ◌≢◌, refl, ◌∙◌, arith, Bool, true,
  false, ltb, ◌==◌, if◌then◌else◌, [], ◌∷◌, ◌++◌, length, get_or, take, replicate, length-append,
  length-replicate, take-append, All,
}
use minesweeper.Expected.{Expected, ok, unexpected}
use minesweeper.Parameter.{Bytes}
use minesweeper.Envelope.Base64.{
  Alphabet, encode_table_for, decode_table_for, pad, is_standard, encode_groups, decode_groups,
  strip_padding, base64_encode, base64_decode,
}
use minesweeper.Envelope.Base64.Table.{decode_char-char_at, char_at-ne-pad}

abbrev pub IsByte : ℕ → Type 0
IsByte b = b < 256

-- How many characters of padding follow.
abbrev pub padding : Bool → Bytes → ℕ
padding use_padding [] = 0
padding use_padding (a ∷ []) = if use_padding then 2 else 0
padding use_padding (a ∷ b ∷ []) = if use_padding then 1 else 0
padding use_padding (a ∷ b ∷ c ∷ rest) = padding use_padding rest

abbrev pub plain : Alphabet → Bytes → Bytes
plain alphabet bs = encode_groups (encode_table_for alphabet) false bs

pub encode_groups-append :
    (table : Bytes) (p : Bool) (bs : Bytes)
    → encode_groups table p bs ≡ encode_groups table false bs ++ replicate (padding p bs) pad
unfolding encode_groups
encode_groups-append table p [] = refl
encode_groups-append table true (a ∷ []) = refl
encode_groups-append table false (a ∷ []) = refl
encode_groups-append table true (a ∷ b ∷ []) = refl
encode_groups-append table false (a ∷ b ∷ []) = refl
encode_groups-append table p (a ∷ b ∷ c ∷ rest) = cc (encode_groups-append table p rest)

pub padding-le : (p : Bool) (bs : Bytes) → padding p bs ≤ 2
padding-le p [] = omega arith
padding-le p (a ∷ []) = ground arith
padding-le p (a ∷ b ∷ []) = ground arith
padding-le p (a ∷ b ∷ c ∷ rest) = padding-le p rest

pub length-encode_groups :
    (table bs : Bytes) → length (encode_groups table false bs) ≡ (4 * length bs + 2) / 3
unfolding encode_groups
length-encode_groups table [] = omega arith
length-encode_groups table (a ∷ []) = omega arith
length-encode_groups table (a ∷ b ∷ []) = omega arith
length-encode_groups table (a ∷ b ∷ c ∷ rest) = omega (arith, length-encode_groups table rest)

three_bytes :
    (a b c : ℕ)
    → IsByte a
    → IsByte b
    → IsByte c
    → (n m : ℕ) → n ≡ a * 2 ^ 16 + b * 2 ^ 8 + c
    → m ≡ n / 2 ^ 18 % 64 * 2 ^ 18 + n / 2 ^ 12 % 64 * 2 ^ 12 + n / 2 ^ 6 % 64 * 2 ^ 6 + n % 64
    → (m / 2 ^ 16 % 256 ≡ a) × (m / 2 ^ 8 % 256 ≡ b) × (m % 256 ≡ c)
three_bytes a b c ha hb hc n m en em = let e : m ≡ n = omega arith in rw e (omega arith)

decode_groups-plain :
    (alphabet : Alphabet) (bs : Bytes)
    → All IsByte bs
    → decode_groups (decode_table_for alphabet) (plain alphabet bs) ≡ ok bs
unfolding encode_groups decode_groups
decode_groups-plain alphabet [] h = refl
decode_groups-plain alphabet (a ∷ []) h =
    let n = a * 2 ^ 16 in
    let p =
      three_bytes a 0 0 h.0 (omega arith) (omega arith) n
        (n / 2 ^ 18 % 64 * 2 ^ 18 + n / 2 ^ 12 % 64 * 2 ^ 12) (omega arith) (omega arith) in
    rw (decode_char-char_at alphabet (n / 2 ^ 18), decode_char-char_at alphabet (n / 2 ^ 12))
      (cc p.0)
decode_groups-plain alphabet (a ∷ b ∷ []) h =
    let n = a * 2 ^ 16 + b * 2 ^ 8 in
    let p =
      three_bytes a b 0 h.0 h.1.0 (omega arith) n
        (n / 2 ^ 18 % 64 * 2 ^ 18 + n / 2 ^ 12 % 64 * 2 ^ 12 + n / 2 ^ 6 % 64 * 2 ^ 6) (omega arith)
        (omega arith) in
    rw
      (
        decode_char-char_at alphabet (n / 2 ^ 18),
        decode_char-char_at alphabet (n / 2 ^ 12),
        decode_char-char_at alphabet (n / 2 ^ 6),
      )
      (cc (p.0, p.1))
decode_groups-plain alphabet (a ∷ b ∷ c ∷ rest) h =
    let n = a * 2 ^ 16 + b * 2 ^ 8 + c in
    let p =
      three_bytes a b c h.0 h.1.0 h.1.1.0 n
        (n / 2 ^ 18 % 64 * 2 ^ 18 + n / 2 ^ 12 % 64 * 2 ^ 12 + n / 2 ^ 6 % 64 * 2 ^ 6 + n % 64) refl
        refl in
    rw
      (
        decode_char-char_at alphabet (n / 2 ^ 18),
        decode_char-char_at alphabet (n / 2 ^ 12),
        decode_char-char_at alphabet (n / 2 ^ 6),
        decode_char-char_at alphabet n,
        decode_groups-plain alphabet rest h.1.1.1,
      )
      (cc (p.0, p.1, p.2))

-- The characters of a text, none of which is padding.
abbrev pub Unpadded : Bytes → Type 0
Unpadded = All (λ c. c ≢ pad)

plain-Unpadded : (alphabet : Alphabet) (bs : Bytes) → Unpadded (plain alphabet bs)
unfolding encode_groups
plain-Unpadded alphabet [] = tt
plain-Unpadded alphabet (a ∷ []) = (char_at-ne-pad alphabet _, (char_at-ne-pad alphabet _, tt))
plain-Unpadded alphabet (a ∷ b ∷ []) =
    (char_at-ne-pad alphabet _, (char_at-ne-pad alphabet _, (char_at-ne-pad alphabet _, tt)))
plain-Unpadded alphabet (a ∷ b ∷ c ∷ rest) = (
  char_at-ne-pad alphabet _,
  (
    char_at-ne-pad alphabet _,
    (char_at-ne-pad alphabet _, (char_at-ne-pad alphabet _, plain-Unpadded alphabet rest)),
  ),
)

-- An index behind the text finds padding, one inside it does not.
get_or-pads :
    (cs : Bytes) (k j n : ℕ) → j < k → n ≡ length cs + j → get_or (cs ++ replicate k pad) n 0 ≡ pad
get_or-pads [] zero j n h e = absurd (omega arith)
get_or-pads [] (suc k) j zero h e = refl
get_or-pads [] (suc k) j (suc n) h e = get_or-pads [] k (j - 1) n (omega arith) (omega arith)
get_or-pads (c ∷ cs) k j zero h e = absurd (omega arith)
get_or-pads (c ∷ cs) k j (suc n) h e = get_or-pads cs k j n h (omega arith)

get_or-Unpadded :
    (cs ds : Bytes) (i : ℕ) → Unpadded cs → i < length cs → get_or (cs ++ ds) i 0 ≢ pad
get_or-Unpadded [] ds i h below = absurd (omega arith)
get_or-Unpadded (c ∷ cs) ds zero h below = h.0
get_or-Unpadded (c ∷ cs) ds (suc i) h below = get_or-Unpadded cs ds i h.1 (omega arith)

strip_padding-Unpadded :
    (cs ds : Bytes) (n : ℕ) → Unpadded cs → n ≡ length cs → strip_padding (cs ++ ds) n ≡ n
unfolding strip_padding
strip_padding-Unpadded cs ds zero h e = refl
strip_padding-Unpadded cs ds (suc n) h e = ground (arith, get_or-Unpadded cs ds n h (omega arith))

pub strip_padding-append :
    (cs : Bytes) (k j n : ℕ)
    → Unpadded cs
    → j ≤ k
    → n ≡ length cs + j
    → strip_padding (cs ++ replicate k pad) n ≡ length cs
unfolding strip_padding
strip_padding-append cs k zero n h le e =
    let e' : n ≡ length cs = omega arith in strip_padding-Unpadded cs _ n h e' ∙ e'
strip_padding-append cs k (suc j) zero h le e = absurd (omega arith)
strip_padding-append cs k (suc j) (suc n) h le e = ground (
  arith,
  get_or-pads cs k j n (omega arith) (omega arith),
  strip_padding-append cs k j n h (omega arith) (omega arith),
)

-- What `base64_decode` does once the length is known.
abbrev pub decode_to : Alphabet → Bytes → ℕ → ℕ → Expected Bytes
decode_to alphabet bs size len =
    if ltb 2 (size - len)
    then unexpected "envelope: too much base64 padding."
    else if len % 4 == 1
    then unexpected "envelope: invalid base64 input length."
    else decode_groups (decode_table_for alphabet) (take len bs)

base64_decode-eq-decode_to :
    (bs : Bytes) (alphabet : Alphabet)
    → base64_decode bs alphabet ≡ decode_to alphabet bs (length bs) (strip_padding bs (length bs))
unfolding base64_decode strip_padding decode_groups
base64_decode-eq-decode_to [] alphabet = refl
base64_decode-eq-decode_to (c ∷ cs) alphabet = refl

module _ (alphabet : Alphabet) (cs : Bytes) (k : ℕ) (unpadded : Unpadded cs) where
  length-padded : length (cs ++ replicate k pad) ≡ length cs + k
  length-padded = omega (arith, length-append cs (replicate k pad), length-replicate k pad)

  -- On a text and its padding, the text's own length is what counts.
  pub base64_decode-append : base64_decode (cs ++ replicate k pad) alphabet ≡ (
      if ltb 2 k
      then unexpected "envelope: too much base64 padding."
      else if length cs % 4 == 1
      then unexpected "envelope: invalid base64 input length."
      else decode_groups (decode_table_for alphabet) cs)
  base64_decode-append =
      let e : (length cs + k) - length cs ≡ k = omega arith in
      rw
        (
          base64_decode-eq-decode_to,
          length-padded,
          strip_padding-append cs k k (length cs + k) unpadded (omega arith) refl,
          take-append,
          e,
        )
        refl

two_at_most : (k : ℕ) → k ≤ 2 → ltb 2 k ≡ false
two_at_most k h = ground arith

never_one : (m n : ℕ) → m ≡ (4 * n + 2) / 3 → (m % 4 == 1) ≡ false
never_one m n h = let no_one : m % 4 ≢ 1 = omega arith in ground arith

-- For a list of bytes, base64_decode gives back what base64_encode was given, in either alphabet.
pub decode-encode :
    (alphabet : Alphabet) (bs : Bytes)
    → All IsByte bs
    → base64_decode (base64_encode bs alphabet) alphabet ≡ ok bs
unfolding base64_encode
decode-encode alphabet bs h =
    let p = is_standard alphabet in
    rw
      (
        encode_groups-append (encode_table_for alphabet) p bs,
        base64_decode-append alphabet (plain alphabet bs) (padding p bs)
            (plain-Unpadded alphabet bs),
        two_at_most (padding p bs) (padding-le p bs),
        never_one (length (plain alphabet bs)) (length bs)
            (length-encode_groups (encode_table_for alphabet) bs),
        decode_groups-plain alphabet bs h,
      )
      refl
