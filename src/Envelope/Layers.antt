-- ===== src/Envelope/Layers.antt =====
-- libs/envelope/src/compress.cxx and libs/envelope/src/crypto.cxx: the size prefix of compressed
-- bytes, the layout of encrypted ones, and the tag, around the calls of the libraries.
use minesweeper.Prelude.{
  ℕ, zero, suc, ◌+◌, ◌-◌, ◌*◌, ◌/◌, ◌%◌, ◌^◌, Bool, false, ltb, ◌==◌, if◌then◌else◌, none, some, [],
  ◌∷◌, ◌++◌, length, get_or, take, drop,
}
use minesweeper.Prelude.Int.{to_int}
use minesweeper.Expected.{Expected, ok, unexpected, throws, ◌>>=◌, or_unexpected}
use minesweeper.Parameter.{Bytes}
use minesweeper.Envelope.Libraries.{Libraries, updated}

abbrev pub size_prefix_bytes : ℕ
size_prefix_bytes = 8

abbrev pub max_reasonable_uncompressed_size : ℕ
max_reasonable_uncompressed_size = 256 * 1024 * 1024

-- The rounds of `append_u64_le` that are left, from index `i` on.
unfoldable pub append_bytes_le : ℕ → ℕ → ℕ → Bytes
append_bytes_le zero i v = []
append_bytes_le (suc left) i v = (v / 2 ^ (i * 8) % 256) ∷ append_bytes_le left (i + 1) v

unfoldable pub append_u64_le : Bytes → ℕ → Bytes
unfolding append_bytes_le
append_u64_le out v = out ++ append_bytes_le 8 0 v

unfoldable pub read_bytes_le : ℕ → ℕ → Bytes → ℕ
read_bytes_le zero i b = 0
read_bytes_le (suc left) i b = get_or b i 0 * 2 ^ (i * 8) + read_bytes_le left (i + 1) b

unfoldable pub read_u64_le : Bytes → ℕ
unfolding read_bytes_le
read_u64_le b = read_bytes_le 8 0 b

module _ (l : Libraries) where
  open l use {
    compress2, uncompress, hmac, memcmp, random_bytes, new_context, init, set_nonce_size,
    set_encrypt_key, encrypt_update, encrypt_final, get_tag, init_decrypt, set_decrypt_key,
    decrypt_update, set_tag, decrypt_final,
  }

  unfoldable pub zlib_compress : Bytes → Expected Bytes
  zlib_compress bs = elim (compress2 bs) [
    | none ↦ throws "envelope: zlib compression failed unexpectedly"
    | some compressed ↦ ok (append_u64_le [] (length bs) ++ compressed)
  ]

  unfoldable pub zlib_decompress : Bytes → Expected Bytes
  zlib_decompress bs =
      if ltb (length bs) size_prefix_bytes
      then unexpected "envelope: compressed payload too short for its size prefix."
      else let original_size = read_u64_le bs in
        if ltb max_reasonable_uncompressed_size original_size
        then unexpected "envelope: claimed decompressed size is implausibly large."
        else or_unexpected
            "envelope: decompression failed - corrupt input or a size-prefix mismatch."
            (uncompress original_size (drop size_prefix_bytes bs))

  unfoldable pub hmac_sha256 : Bytes → Bytes → Expected Bytes
  hmac_sha256 key bs = elim (hmac (to_int (length key)) key bs) [
    | none ↦ throws "envelope: HMAC-SHA256 failed unexpectedly"
    | some tag ↦
        if length tag == 32 then ok tag else throws "envelope: HMAC-SHA256 failed unexpectedly"
  ]

  unfoldable pub constant_time_equal : Bytes → Bytes → Bool
  constant_time_equal a b = if length a == length b then memcmp a b == 0 else false

  unfoldable pub aes_gcm_encrypt : Bytes → Bytes → Expected Bytes
  aes_gcm_encrypt key plaintext = do
    nonce ← or_unexpected "envelope: failed to generate a random nonce." (random_bytes 12)
    c₀ ← or_unexpected "envelope: failed to allocate a cipher context." new_context
    c₁ ← or_unexpected "envelope: failed to initialize AES-256-GCM." (init c₀)
    c₂ ← or_unexpected "envelope: failed to set the GCM nonce length." (set_nonce_size 12 c₁)
    c₃ ←
        or_unexpected "envelope: failed to set the AES-256-GCM key/nonce."
          (set_encrypt_key key nonce c₂)
    (ciphertext, c₄) ←
        or_unexpected "envelope: AES-256-GCM encryption failed."
          (updated l encrypt_update plaintext c₃)
    (last, c₅) ←
        or_unexpected "envelope: AES-256-GCM encryption finalization failed." (encrypt_final c₄)
    tag ← or_unexpected "envelope: failed to read the AES-256-GCM tag." (get_tag 16 c₅)
    ok (nonce ++ ((ciphertext ++ last) ++ tag))

  -- The calls of `aes_gcm_decrypt` at the three parts.
  unfoldable pub decrypt_parts : Bytes → Bytes → Bytes → Bytes → Expected Bytes
  decrypt_parts key nonce ciphertext tag = do
    c₀ ← or_unexpected "envelope: failed to allocate a cipher context." new_context
    c₁ ← or_unexpected "envelope: failed to initialize AES-256-GCM." (init_decrypt c₀)
    c₂ ← or_unexpected "envelope: failed to set the GCM nonce length." (set_nonce_size 12 c₁)
    c₃ ←
        or_unexpected "envelope: failed to set the AES-256-GCM key/nonce."
          (set_decrypt_key key nonce c₂)
    (plaintext, c₄) ←
        or_unexpected "envelope: AES-256-GCM decryption failed."
          (updated l decrypt_update ciphertext c₃)
    c₅ ← or_unexpected "envelope: failed to set the expected AES-256-GCM tag." (set_tag tag c₄)
    last ←
        or_unexpected
          "envelope: AES-256-GCM authentication failed - wrong key, or the data was tampered with."
          (decrypt_final c₅)
    ok (plaintext ++ last)

  unfoldable pub aes_gcm_decrypt : Bytes → Bytes → Expected Bytes
  unfolding decrypt_parts
  aes_gcm_decrypt key bs =
      if ltb (length bs) 28
      then unexpected "envelope: encrypted payload too short for its nonce/tag."
      else decrypt_parts key (take 12 bs) (take (length bs - 28) (drop 12 bs))
          (drop (length bs - 16) bs)
