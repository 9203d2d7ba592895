-- ===== src/Envelope/Wrap.antt =====
-- libs/envelope/src/envelope.cxx: `envelope_t::wrap` and `envelope_t::unwrap`, with the
-- configuration of libs/envelope/include/envelope/envelope.hxx.
use minesweeper.Prelude.{
  ℕ, ◌+◌, ◌-◌, ◌/◌, ◌%◌, ◌^◌, Bool, true, false, not, ◌&&◌, ltb, ◌==◌, if◌then◌else◌, Option, none,
  some, [], ◌∷◌, ◌++◌, length, get_or, take, drop,
}
use minesweeper.Expected.{Expected, ok, unexpected, undefined, ◌>>=◌}
use minesweeper.Parameter.{Bytes, text, eq_bytes}
use minesweeper.Envelope.Base64.{base64_encode, base64_decode}
use minesweeper.Envelope.Config.{Base64Mode, alphabet_for, Config}
use minesweeper.Envelope.Libraries.{Libraries}
use minesweeper.Envelope.Layers.{
  zlib_compress, zlib_decompress, hmac_sha256, constant_time_equal, aes_gcm_encrypt,
  aes_gcm_decrypt,
}

abbrev pub magic_bytes : Bytes
magic_bytes = text "ENV1"

abbrev pub header_size : ℕ
header_size = 5

abbrev pub hmac_sha256_tag_size : ℕ
hmac_sha256_tag_size = 32

-- The three bits of the mask are disjoint, so that `|` is a sum.
unfoldable pub mask : Config → ℕ
mask c = (if c.compress then 1 else 0) + (if c.encrypt then 2 else 0) + (if c.sign then 4 else 0)

-- `mask & (1 << k)`
unfoldable pub has_bit : ℕ → ℕ → Bool
has_bit m k = m / 2 ^ k % 2 == 1

abbrev pub is_none {ℓ} : {A : Type ℓ} → Option A → Bool
is_none none = true
is_none (some value) = false

abbrev pub is_empty : Bytes → Bool
is_empty [] = true
is_empty (b ∷ bs) = false

-- The base64 step at the end of `wrap`.
unfoldable pub to_text : Base64Mode → Bytes → Bytes
unfolding alphabet_for
to_text Base64Mode.none framed = framed
to_text Base64Mode.standard framed = base64_encode framed (alphabet_for Base64Mode.standard)
to_text Base64Mode.url_safe framed = base64_encode framed (alphabet_for Base64Mode.url_safe)

-- The base64 step at the start of `unwrap`.
unfoldable pub from_text : Base64Mode → Bytes → Expected Bytes
unfolding alphabet_for
from_text Base64Mode.none bs = ok bs
from_text Base64Mode.standard bs = base64_decode bs (alphabet_for Base64Mode.standard)
from_text Base64Mode.url_safe bs = base64_decode bs (alphabet_for Base64Mode.url_safe)

module _ (l : Libraries) (c : Config) where
  unfoldable pub compress_layer : Bytes → Expected Bytes
  compress_layer bs = if c.compress then zlib_compress l bs else ok bs

  -- An empty `optional` is not read behind the guard of `wrap`.
  unfoldable pub encrypt_layer : Bytes → Expected Bytes
  encrypt_layer payload =
      if c.encrypt
      then elim c.encrypt_key [ none ↦ undefined | some key ↦ aes_gcm_encrypt l key payload ]
      else ok payload

  unfoldable pub sign_layer : Bytes → Expected Bytes
  sign_layer framed =
      if c.sign then (hmac_sha256 l c.sign_key framed >>= λ tag. ok (framed ++ tag)) else ok framed

  unfoldable pub wrap : Bytes → Expected Bytes
  unfolding compress_layer encrypt_layer sign_layer mask to_text
  wrap bs =
      if c.encrypt && is_none c.encrypt_key
      then unexpected "envelope_t::wrap: encrypt is enabled but encrypt_key isn't set."
      else if c.sign && is_empty c.sign_key
      then unexpected "envelope_t::wrap: sign is enabled but sign_key is empty."
      else do
        compressed ← compress_layer bs
        payload ← encrypt_layer compressed
        framed ← sign_layer (magic_bytes ++ (mask c ∷ payload))
        ok (to_text c.base64 framed)

  -- Up to where the bytes may be read: `body_end`, once the signature is verified.
  unfoldable pub verified_end : ℕ → Bytes → Expected ℕ
  verified_end m framed =
      if not (has_bit m 2)
      then ok (length framed)
      else if is_empty c.sign_key
      then unexpected "envelope_t::unwrap: blob is signed but no sign_key is configured."
      else if ltb (length framed) (header_size + hmac_sha256_tag_size)
      then unexpected "envelope_t::unwrap: buffer too short to contain a signature."
      else do
        let body_end = length framed - hmac_sha256_tag_size
        expected_tag ← hmac_sha256 l c.sign_key (take body_end framed)
        if not (constant_time_equal l expected_tag (drop body_end framed))
            then unexpected "envelope_t::unwrap: signature verification failed."
            else ok body_end

  unfoldable pub decrypt_layer : ℕ → Bytes → Expected Bytes
  decrypt_layer m payload = if not (has_bit m 1) then ok payload else elim c.encrypt_key [
    | none ↦ unexpected "envelope_t::unwrap: blob is encrypted but no encrypt_key is configured."
    | some key ↦ aes_gcm_decrypt l key payload
  ]

  unfoldable pub decompress_layer : ℕ → Bytes → Expected Bytes
  decompress_layer m payload = if has_bit m 0 then zlib_decompress l payload else ok payload

  -- What `unwrap` does with the bytes behind the base64 step.
  unfoldable pub unframe : Bytes → Expected Bytes
  unfolding verified_end decrypt_layer decompress_layer
  unframe framed =
      if ltb (length framed) header_size
      then unexpected "envelope_t::unwrap: buffer too short to contain a header."
      else if not (eq_bytes (take 4 framed) magic_bytes)
      then unexpected
          "envelope_t::unwrap: bad magic number - not an envelope, or an incompatible version."
      else do
        let m = get_or framed 4 0
        body_end ← verified_end m framed
        let payload = take (body_end - header_size) (drop header_size framed)
        decrypted ← decrypt_layer m payload
        decompress_layer m decrypted

  unfoldable pub unwrap : Bytes → Expected Bytes
  unfolding unframe from_text
  unwrap bs = from_text c.base64 bs >>= unframe
