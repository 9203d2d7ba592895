-- ===== src/Envelope/Base64/Errors.antt =====
-- What `base64_decode` accepts, and what it refuses with which message.
use minesweeper.Prelude.{
  ℕ, ◌*◌, ◌/◌, ◌%◌, ◌≤◌, ◌<◌, ◌≡◌, ◌≢◌, ◌⊎◌, inl, inr, refl, arith, ltb, ◌==◌, ==→≡, ==→≢,
  Bool-cases, [], ◌∷◌, ◌++◌, length, replicate, All, ◌∈◌,
}
use minesweeper.Expected.{Expected, ok, unexpected, ◌>>=◌}
use minesweeper.Parameter.{Bytes}
use minesweeper.Envelope.Base64.{
  Alphabet, decode_table_for, decode_char, pad, decode_groups, base64_decode,
}
use minesweeper.Envelope.Base64.Table.{no_character, IsKnown, decode_char-IsDecoded}
use minesweeper.Envelope.Base64.RoundTrip.{Unpadded, base64_decode-append}

-- All characters are known, and decoded to as many bytes; or one is not, and the message says so.
abbrev pub Decodes : Alphabet → Bytes → ℕ → Expected Bytes → Type 0
Decodes alphabet cs size r =
    (All (IsKnown alphabet) cs × ((out : Bytes) × (r ≡ ok out) × (length out ≡ size)))
    ⊎ (((c : ℕ) × (c ∈ cs) × (¬ IsKnown alphabet c)) × (r ≡ unexpected no_character))

decode_next :
    (alphabet : Alphabet) (c : ℕ) (cs : Bytes) (size : ℕ) (rest : ℕ → Expected Bytes)
    → ((v : ℕ) → Decodes alphabet cs size (rest v))
    → Decodes alphabet (c ∷ cs) size (decode_char (decode_table_for alphabet) c >>= rest)
decode_next alphabet c cs size rest h = elim (decode_char-IsDecoded alphabet c) [
  | inl (known, (v, e)) ↦ rw e (elim (h v) [
    | inl (all, decoded) ↦ inl ((known, all), decoded)
    | inr ((d, among, alien), refused) ↦ inr ((d, inr among, alien), refused)
  ])
  | inr (alien, e) ↦ rw e (inr ((c, inl refl, alien), refl))
]

decode_more :
    (alphabet : Alphabet) (cs : Bytes) (size larger : ℕ) (r : Expected Bytes) (f : Bytes → Bytes)
    → ((out : Bytes) → length out ≡ size → length (f out) ≡ larger)
    → Decodes alphabet cs size r
    → Decodes alphabet cs larger (r >>= (λ out. ok (f out)))
decode_more alphabet cs size larger r f grows (inl (all, (out, e, sized))) =
    inl (all, rw e (f out, refl, grows out sized))
decode_more alphabet cs size larger r f grows (inr (alien, e)) = inr (alien, rw e refl)

decode_groups-Decodes :
    (alphabet : Alphabet) (cs : Bytes)
    → length cs % 4 ≢ 1
    → Decodes alphabet cs (length cs * 3 / 4) (decode_groups (decode_table_for alphabet) cs)
unfolding decode_groups
decode_groups-Decodes alphabet [] h = inl (tt, ([], refl, omega arith))
decode_groups-Decodes alphabet (c₀ ∷ []) h = absurd (omega arith)
decode_groups-Decodes alphabet (c₀ ∷ c₁ ∷ []) h =
    decode_next alphabet c₀ (c₁ ∷ []) _ _
      λ v₀. decode_next alphabet c₁ [] _ _ λ v₁. inl (tt, (_, refl, omega arith))
decode_groups-Decodes alphabet (c₀ ∷ c₁ ∷ c₂ ∷ []) h =
    decode_next alphabet c₀ (c₁ ∷ c₂ ∷ []) _ _ λ v₀.
      decode_next alphabet c₁ (c₂ ∷ []) _ _
        λ v₁. decode_next alphabet c₂ [] _ _ λ v₂. inl (tt, (_, refl, omega arith))
decode_groups-Decodes alphabet (c₀ ∷ c₁ ∷ c₂ ∷ c₃ ∷ rest) h =
    decode_next alphabet c₀ (c₁ ∷ c₂ ∷ c₃ ∷ rest) _ _ λ v₀.
      decode_next alphabet c₁ (c₂ ∷ c₃ ∷ rest) _ _ λ v₁.
        decode_next alphabet c₂ (c₃ ∷ rest) _ _ λ v₂. decode_next alphabet c₃ rest _ _ λ v₃.
          decode_more alphabet rest (length rest * 3 / 4) _ _ _ (λ out e. omega arith)
            (decode_groups-Decodes alphabet rest (omega arith))

-- For characters that are no padding, followed by k characters of padding, base64_decode ends in
-- one of these ways: with k above 2, in the message about padding; else, with one character more
-- than a multiple of four, in the message about the length; else, if the alphabet has all
-- characters, in three bytes for four characters, rounded down; and else in the message about a
-- character.
pub base64_decode-Decodes :
    (alphabet : Alphabet) (cs : Bytes) (k : ℕ)
    → Unpadded cs
    → let r = base64_decode (cs ++ replicate k pad) alphabet in
      ((2 < k) × (r ≡ unexpected "envelope: too much base64 padding."))
      ⊎ ((k ≤ 2) × (length cs % 4 ≡ 1) × (r ≡ unexpected "envelope: invalid base64 input length."))
      ⊎ ((k ≤ 2) × (length cs % 4 ≢ 1) × Decodes alphabet cs (length cs * 3 / 4) r)
base64_decode-Decodes alphabet cs k unpadded = elim (Bool-cases (ltb 2 k)) [
  | inl much ↦ rw (base64_decode-append alphabet cs k unpadded, much) (inl (ground arith, refl))
  | inr few ↦ elim (Bool-cases (length cs % 4 == 1)) [
    | inl one ↦
        rw (base64_decode-append alphabet cs k unpadded, few, one)
          (inr (inl (ground arith, ==→≡ _ _ one, refl)))
    | inr sized ↦
        rw (base64_decode-append alphabet cs k unpadded, few, sized)
          (inr (
            inr (ground arith, ==→≢ _ _ sized, decode_groups-Decodes alphabet cs (==→≢ _ _ sized))))
  ]
]
