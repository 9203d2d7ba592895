-- ===== src/Envelope/Unlayer.antt =====
-- Each layer of libs/envelope/src/compress.cxx and libs/envelope/src/crypto.cxx undone.
use minesweeper.Prelude.{
  ℕ, ◌+◌, ◌-◌, ◌^◌, ◌≤◌, ◌<◌, ◌≡◌, refl, sym, ap, subst, arith, true, false, ltb, some, [], ◌∷◌,
  ◌++◌, append_assoc, Option-cases, ◌∙◌, inl, inr, String, length, drop, length-append, take-append,
  take-append_of, drop-append_of, ◌↔◌,
}
use minesweeper.Prelude.Int.{to_int}
use minesweeper.Expected.{ok, or_unexpected, taken, ok-injective}
use minesweeper.Parameter.{Bytes}
use minesweeper.Envelope.Libraries.{Libraries, updated, seal, unseal, IsBytes, Documented}
use minesweeper.Envelope.Layers.{
  append_u64_le, read_u64_le, zlib_compress, zlib_decompress, hmac_sha256, aes_gcm_encrypt,
  aes_gcm_decrypt, decrypt_parts, max_reasonable_uncompressed_size, constant_time_equal,
}

-- The size prefix in front of some bytes is read back.
read-append : (v : ℕ) (bs : Bytes) → v < 2 ^ 64 → read_u64_le (append_u64_le [] v ++ bs) ≡ v
unfolding read_u64_le append_u64_le
read-append v bs h = omega arith

drop_prefix : (v : ℕ) (bs : Bytes) → drop 8 (append_u64_le [] v ++ bs) ≡ bs
unfolding append_u64_le
drop_prefix v bs = refl

length-prefix : (v : ℕ) (bs : Bytes) → length (append_u64_le [] v ++ bs) ≡ 8 + length bs
unfolding append_u64_le
length-prefix v bs = omega arith

prefix_bytes : (v : ℕ) (bs : Bytes) → IsBytes bs → IsBytes (append_u64_le [] v ++ bs)
unfolding append_u64_le
prefix_bytes v bs h = (
  omega arith,
  (
    omega arith,
    (omega arith, (omega arith, (omega arith, (omega arith, (omega arith, (omega arith, h)))))),
  ),
)

abbrev pub mismatch : String
mismatch = "envelope: decompression failed - corrupt input or a size-prefix mismatch."

zlib_decompress-prefix :
    (l : Libraries) (n : ℕ) (compressed : Bytes)
    → n ≤ max_reasonable_uncompressed_size
    → zlib_decompress l (append_u64_le [] n ++ compressed)
      ≡ or_unexpected mismatch (l.uncompress n compressed)
unfolding zlib_decompress
zlib_decompress-prefix l n compressed small =
    let long : ltb (length (append_u64_le [] n ++ compressed)) 8 ≡ false =
      ground (arith, length-prefix n compressed) in
    let plausible : ltb max_reasonable_uncompressed_size n ≡ false = ground arith in
    rw (long, read-append n compressed (omega arith), plausible, drop_prefix) refl

zlib_compress-eq-ok :
    (l : Libraries) (bs : Bytes) {out : Bytes}
    → zlib_compress l bs ≡ ok out
    → (compressed : Bytes) × (l.compress2 bs ≡ some compressed)
      × (append_u64_le [] (length bs) ++ compressed ≡ out)
unfolding zlib_compress
zlib_compress-eq-ok l bs gave = elim (Option-cases (l.compress2 bs)) [
  | inl e ↦ absurd (ground arith)
  | inr (compressed, e) ↦ (compressed, e, ground arith)
]

hmac_sha256-eq-ok :
    (l : Libraries) (key bs : Bytes) {tag : Bytes}
    → hmac_sha256 l key bs ≡ ok tag
    → l.hmac (to_int (length key)) key bs ≡ some tag
unfolding hmac_sha256
hmac_sha256-eq-ok l key bs gave = ground arith

pub IsBytes-append : (a b : Bytes) → IsBytes a → IsBytes b → IsBytes (a ++ b)
IsBytes-append [] b h k = k
IsBytes-append (x ∷ a) b h k = (h.0, IsBytes-append a b h.1 k)

decrypt_parts-eq-unseal :
    (l : Libraries) (key nonce ciphertext tag : Bytes) {plaintext : Bytes}
    → unseal l key nonce ciphertext tag ≡ some plaintext
    → decrypt_parts l key nonce ciphertext tag ≡ ok plaintext
unfolding decrypt_parts
decrypt_parts-eq-unseal l key nonce ciphertext tag h = ground arith

seal_steps :
    (l : Libraries) (key nonce plaintext : Bytes) {c₀ c₁ c₂ c₃ c₄ c₅ : l.Context}
    {bs last tag : Bytes}
    → l.new_context ≡ some c₀
    → l.init c₀ ≡ some c₁
    → l.set_nonce_size 12 c₁ ≡ some c₂
    → l.set_encrypt_key key nonce c₂ ≡ some c₃
    → updated l l.encrypt_update plaintext c₃ ≡ some (bs, c₄)
    → l.encrypt_final c₄ ≡ some (last, c₅)
    → l.get_tag 16 c₅ ≡ some tag
    → seal l key nonce plaintext ≡ some (bs ++ last, tag)
seal_steps l key nonce plaintext e₀ e₁ e₂ e₃ e₄ e₅ e₆ = rw (e₀, e₁, e₂, e₃, e₄, e₅, e₆) refl

-- What an encryption left was sealed, and stands between the nonce and the tag.
aes_gcm_encrypt-eq-ok :
    (l : Libraries) (key plaintext : Bytes) {out : Bytes}
    → aes_gcm_encrypt l key plaintext ≡ ok out
    → (nonce : Bytes) × (ciphertext : Bytes) × (tag : Bytes) × (l.random_bytes 12 ≡ some nonce)
      × (seal l key nonce plaintext ≡ some (ciphertext, tag))
      × (nonce ++ (ciphertext ++ tag) ≡ out)
unfolding aes_gcm_encrypt
aes_gcm_encrypt-eq-ok l key plaintext gave =
    let (nonce, g₀, random) = taken _ (l.random_bytes 12) _ gave in
    let (c₀, g₁, e₀) = taken _ l.new_context _ g₀ in
    let (c₁, g₂, e₁) = taken _ (l.init c₀) _ g₁ in
    let (c₂, g₃, e₂) = taken _ (l.set_nonce_size 12 c₁) _ g₂ in
    let (c₃, g₄, e₃) = taken _ (l.set_encrypt_key key nonce c₂) _ g₃ in
    let ((bs, c₄), g₅, e₄) = taken _ (updated l l.encrypt_update plaintext c₃) _ g₄ in
    let ((last, c₅), g₆, e₅) = taken _ (l.encrypt_final c₄) _ g₅ in
    let (tag, g₇, e₆) = taken _ (l.get_tag 16 c₅) _ g₆ in
    (
      nonce,
      bs ++ last,
      tag,
      random,
      seal_steps l key nonce plaintext e₀ e₁ e₂ e₃ e₄ e₅ e₆,
      ok-injective g₇,
    )

aes_gcm_decrypt-append :
    (l : Libraries) (key nonce ciphertext tag : Bytes)
    → length nonce ≡ 12
    → length tag ≡ 16
    → aes_gcm_decrypt l key (nonce ++ (ciphertext ++ tag))
      ≡ decrypt_parts l key nonce ciphertext tag
unfolding aes_gcm_decrypt
aes_gcm_decrypt-append l key nonce ciphertext tag n t =
    let whole = nonce ++ (ciphertext ++ tag) in
    let size : length whole ≡ 28 + length ciphertext =
      omega (arith, length-append nonce (ciphertext ++ tag), length-append ciphertext tag) in
    let long : ltb (length whole) 28 ≡ false = ground (arith, size) in
    let middle : length whole - 28 ≡ length ciphertext = omega (arith, size) in
    let before : length (nonce ++ ciphertext) ≡ length whole - 16 =
      omega (arith, size, length-append nonce ciphertext) in
    let last : drop (length whole - 16) whole ≡ tag =
      subst (λ bs. drop (length whole - 16) bs ≡ tag) (append_assoc nonce ciphertext tag)
        (drop-append_of (nonce ++ ciphertext) tag (length whole - 16) before) in
    rw
      (
        long,
        last,
        take-append_of nonce (ciphertext ++ tag) 12 n,
        drop-append_of nonce (ciphertext ++ tag) 12 n,
        middle,
        take-append,
      )
      refl

module _ {l : Libraries} (d : Documented l) where
  pub zlib_decompress-zlib_compress :
      (bs out : Bytes)
      → IsBytes bs
      → length bs ≤ max_reasonable_uncompressed_size
      → zlib_compress l bs ≡ ok out
      → (zlib_decompress l out ≡ ok bs) × IsBytes out × (length out < 2 ^ 31)
  zlib_decompress-zlib_compress bs out h small gave =
      let (compressed, e, framed) = zlib_compress-eq-ok l bs gave in
      rw (← framed) (
        zlib_decompress-prefix l (length bs) compressed small
            ∙ ap (or_unexpected mismatch) (d.uncompress_compress2 bs e),
        prefix_bytes (length bs) compressed (d.compress2_bytes bs h e),
        omega (arith, small, length-prefix (length bs) compressed, d.compress2_bound bs e),
      )

  pub aes_gcm_decrypt-aes_gcm_encrypt :
      (key plaintext out : Bytes)
      → IsBytes plaintext
      → length plaintext < 2 ^ 31
      → aes_gcm_encrypt l key plaintext ≡ ok out
      → (aes_gcm_decrypt l key out ≡ ok plaintext) × IsBytes out
  aes_gcm_decrypt-aes_gcm_encrypt key plaintext out h short gave =
      let (nonce, ciphertext, tag, random, sealed, layout) =
        aes_gcm_encrypt-eq-ok l key plaintext gave in
      let (sized, byte) = d.random_size 12 random in
      let (tag_size, body_bytes, tag_bytes) = d.seal_bytes key nonce plaintext h short sealed in
      rw (← layout) (
        aes_gcm_decrypt-append l key nonce ciphertext tag sized tag_size
            ∙ decrypt_parts-eq-unseal l key nonce ciphertext tag
                (d.unseal_seal key nonce plaintext short sealed),
        IsBytes-append nonce (ciphertext ++ tag) byte
            (IsBytes-append ciphertext tag body_bytes tag_bytes),
      )

  pub hmac_sha256_size :
      (key bs : Bytes) {tag : Bytes}
      → hmac_sha256 l key bs ≡ ok tag
      → (length tag ≡ 32) × IsBytes tag
  hmac_sha256_size key bs gave =
      d.hmac_size (to_int (length key)) key bs (hmac_sha256-eq-ok l key bs gave)

  -- Two tags of 32 bytes compare as equal exactly if they are.
  pub constant_time_equal_iff :
      (a b : Bytes) → length a ≡ 32 → length b ≡ 32 → (constant_time_equal l a b ≡ true) ↔ (a ≡ b)
  unfolding constant_time_equal
  constant_time_equal_iff a b h k = (
    ground (arith, (d.memcmp_equal a b (h ∙ sym k)).0),
    ground (arith, (d.memcmp_equal a b (h ∙ sym k)).1),
  )
