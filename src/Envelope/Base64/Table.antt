-- ===== src/Envelope/Base64/Table.antt =====
-- The two tables of an alphabet.
use minesweeper.Prelude.{
  if◌then◌else◌, ◌∙◌, All, ltb, ◌⊎◌, inl, inr, List, [], ◌∷◌, ◌∈◌, ◌||◌, String, length, set,
  replicate, length-set, length-replicate, ◌≤◌, ℕ, zero, suc, ◌+◌, ◌%◌, ◌<◌, ◌≡◌, ◌≢◌, refl, arith,
  subst, Bool, true, false, ap, get_or, ◌&&◌, not, ◌==◌, Bool-cases,
}
use minesweeper.Expected.{Expected, ok, unexpected, throws, undefined}
use minesweeper.Prelude.Int.{ℤ, pos, negsuc}
use minesweeper.Parameter.{Bytes}
use minesweeper.Envelope.Base64.{
  fill_decode_table, Alphabet, standard, url_safe, encode_table_for, decode_table_for, char_at,
  decode_char, pad,
}

-- A test at the first values, which is run on all of them.
tested : (ℕ → Bool) → ℕ → Bool
tested test zero = true
tested test (suc n) = if test n then tested test n else false

tested_lem : (test : ℕ → Bool) (n x : ℕ) → x < n → tested test n ≡ true → test x ≡ true
unfolding tested
tested_lem test zero x small passed = absurd (omega arith)
tested_lem test (suc n) x small passed = ground (arith, tested_lem test n x)

-- A character of the table is decoded to its index, and is not the padding.
abbrev is_good_at : Alphabet → ℕ → Bool
is_good_at alphabet i =
    elim (decode_char (decode_table_for alphabet) (char_at (encode_table_for alphabet) i)) [
      | ok v ↦ (v == i) && not (char_at (encode_table_for alphabet) i == pad)
      | _ ↦ false
    ]

table_good : (alphabet : Alphabet) → tested (is_good_at alphabet) 64 ≡ true
unfolding tested decode_char decode_table_for char_at encode_table_for
table_good standard = refl
table_good url_safe = refl

char_at_mod : (table : Bytes) (n : ℕ) → char_at table (n % 64) ≡ char_at table n
unfolding char_at
char_at_mod table n = let e : n % 64 % 64 ≡ n % 64 = omega arith in ap (λ i. get_or table i 0) e

is_good :
    (r : Expected ℕ) (i c : ℕ)
    → elim r [ ok v ↦ (v == i) && not (c == pad) | _ ↦ false ] ≡ true
    → (r ≡ ok i) × (c ≢ pad)
is_good r i c h = ground arith

module _ (alphabet : Alphabet) (n : ℕ) where
  checked : is_good_at alphabet (n % 64) ≡ true
  checked = tested_lem (is_good_at alphabet) 64 (n % 64) (omega arith) (table_good alphabet)

  table_lem :
      (decode_char (decode_table_for alphabet) (char_at (encode_table_for alphabet) n)
        ≡ ok (n % 64))
      × (char_at (encode_table_for alphabet) n ≢ pad)
  table_lem =
      let e = char_at_mod (encode_table_for alphabet) n in
      subst (λ c. (decode_char (decode_table_for alphabet) c ≡ ok (n % 64)) × (c ≢ pad)) e
        (is_good
          (decode_char (decode_table_for alphabet) (char_at (encode_table_for alphabet) (n % 64)))
          (n % 64) (char_at (encode_table_for alphabet) (n % 64)) checked)

  pub decode_char-char_at :
      decode_char (decode_table_for alphabet) (char_at (encode_table_for alphabet) n) ≡ ok (n % 64)
  decode_char-char_at = table_lem.0

  pub char_at-ne-pad : char_at (encode_table_for alphabet) n ≢ pad
  char_at-ne-pad = table_lem.1

has : Bytes → ℕ → Bool
has [] c = false
has (x ∷ xs) c = (c == x) || has xs c

has-eq-true : (xs : Bytes) (c : ℕ) → has xs c ≡ true → c ∈ xs
unfolding has
has-eq-true [] c h = absurd (ground arith)
has-eq-true (x ∷ xs) c h = ground (arith, has-eq-true xs c)

has-eq-false : (xs : Bytes) (c : ℕ) → has xs c ≡ false → ¬ (c ∈ xs)
unfolding has
has-eq-false [] c h = λ m. m
has-eq-false (x ∷ xs) c h = ground (arith, has-eq-false xs c)

-- Whether a character is decoded, by the table.
abbrev agrees_at : Alphabet → ℕ → Bool
agrees_at alphabet c = elim (decode_char (decode_table_for alphabet) c) [
  | ok v ↦ has (encode_table_for alphabet) c
  | _ ↦ not (has (encode_table_for alphabet) c)
]

table_agrees : (alphabet : Alphabet) → tested (agrees_at alphabet) 256 ≡ true
unfolding tested decode_char decode_table_for encode_table_for has
table_agrees standard = refl
table_agrees url_safe = refl

agrees :
    (r : Expected ℕ) (b : Bool)
    → elim r [ ok v ↦ b | _ ↦ not b ] ≡ true
    → ((v : ℕ) × (r ≡ ok v) × (b ≡ true)) ⊎ (((v : ℕ) → r ≢ ok v) × (b ≡ false))
agrees (ok v) b h = inl (v, refl, h)
agrees (unexpected message) b h = inr (λ v. cc, ground arith)
agrees (throws message) b h = inr (λ v. cc, ground arith)
agrees undefined b h = inr (λ v. cc, ground arith)

abbrev pub no_character : String
no_character = "envelope: invalid base64 character."

decode_char-cases :
    (dtable : List ℤ) (c : ℕ)
    → ((v : ℕ) × (decode_char dtable c ≡ ok v)) ⊎ (decode_char dtable c ≡ unexpected no_character)
unfolding decode_char
decode_char-cases dtable c = ground arith

length-fill_decode_table :
    (i : ℕ) (table : Bytes) (out : List ℤ) → length (fill_decode_table i table out) ≡ length out
unfolding fill_decode_table
length-fill_decode_table i [] out = refl
length-fill_decode_table i (c ∷ table) out =
    length-fill_decode_table (i + 1) table (set out c (pos i)) ∙ length-set out c (pos i)

length-decode_table_for : (alphabet : Alphabet) → length (decode_table_for alphabet) ≡ 256
unfolding decode_table_for
length-decode_table_for alphabet =
    length-fill_decode_table 0 (encode_table_for alphabet) (replicate 256 (negsuc 0))
    ∙ length-replicate 256 (negsuc 0)

get_or-behind : (xs : List ℤ) (i : ℕ) (d : ℤ) → length xs ≤ i → get_or xs i d ≡ d
get_or-behind [] i d h = refl
get_or-behind (x ∷ xs) zero d h = absurd (omega arith)
get_or-behind (x ∷ xs) (suc i) d h = get_or-behind xs i d (omega arith)

decode_char-none :
    (dtable : List ℤ) (c : ℕ)
    → get_or dtable c (negsuc 0) ≡ negsuc 0
    → decode_char dtable c ≡ unexpected no_character
unfolding decode_char
decode_char-none dtable c e = ground arith

decode_char-behind :
    (alphabet : Alphabet) (c : ℕ)
    → 256 ≤ c
    → decode_char (decode_table_for alphabet) c ≡ unexpected no_character
decode_char-behind alphabet c h =
    let dtable = decode_table_for alphabet in
    decode_char-none dtable c
      (get_or-behind dtable c (negsuc 0) (omega (arith, length-decode_table_for alphabet)))

mem-All : (xs : Bytes) (c : ℕ) → All (λ x. x < 256) xs → c ∈ xs → c < 256
mem-All [] c h m = elim m [ ]
mem-All (x ∷ xs) c h m = elim m [ inl e ↦ rw e h.0 | inr later ↦ mem-All xs c h.1 later ]

encode_table_for-below : (alphabet : Alphabet) → All (λ x. x < 256) (encode_table_for alphabet)
unfolding encode_table_for
encode_table_for-below standard = omega arith
encode_table_for-below url_safe = omega arith

-- A character of the alphabet.
abbrev pub IsKnown : Alphabet → ℕ → Type 0
IsKnown alphabet c = c ∈ encode_table_for alphabet

abbrev pub IsDecoded : Alphabet → ℕ → Type 0
IsDecoded alphabet c =
    (IsKnown alphabet c × ((v : ℕ) × (decode_char (decode_table_for alphabet) c ≡ ok v)))
    ⊎ ((¬ IsKnown alphabet c)
        × (decode_char (decode_table_for alphabet) c ≡ unexpected no_character))

decode_char-below : (alphabet : Alphabet) (c : ℕ) → c < 256 → IsDecoded alphabet c
decode_char-below alphabet c h =
    let table = encode_table_for alphabet in
    let dtable = decode_table_for alphabet in
    elim (agrees (decode_char dtable c) (has table c)
      (tested_lem (agrees_at alphabet) 256 c h (table_agrees alphabet))) [
        | inl (v, e, b) ↦ inl (has-eq-true table c b, (v, e))
        | inr (never, b) ↦ inr (
          has-eq-false table c b,
          elim (decode_char-cases dtable c) [ inl (v, e') ↦ absurd (never v e') | inr e' ↦ e' ],
        )
      ]

-- Every number is decoded by the alphabet.
pub decode_char-IsDecoded : (alphabet : Alphabet) (c : ℕ) → IsDecoded alphabet c
decode_char-IsDecoded alphabet c = elim (Bool-cases (ltb c 256)) [
  | inl below ↦ decode_char-below alphabet c (ground arith)
  | inr behind ↦ inr (
    λ m.
        absurd (
          ground
            (arith, mem-All (encode_table_for alphabet) c (encode_table_for-below alphabet) m)),
    decode_char-behind alphabet c (ground arith),
  )
]
