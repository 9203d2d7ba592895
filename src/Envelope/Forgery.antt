-- ===== src/Envelope/Forgery.antt =====
-- What `envelope_t::unwrap` does with bytes that `envelope_t::wrap` did not make.
use minesweeper.Prelude.{
  ℕ, ◌-◌, ◌<◌, ◌≡◌, ◌≢◌, refl, ◌∙◌, arith, true, false, ◌∷◌, ◌++◌, length, take_all,
}
use minesweeper.Expected.{ok, unexpected}
use minesweeper.Parameter.{Bytes}
use minesweeper.Envelope.Libraries.{Libraries, Documented, IsBytes}
use minesweeper.Envelope.Layers.{hmac_sha256, constant_time_equal}
use minesweeper.Envelope.Unlayer.{IsBytes-append, hmac_sha256_size, constant_time_equal_iff}
use minesweeper.Envelope.Wrap.{
  magic_bytes, has_bit, is_empty, to_text, verified_end, decrypt_layer, decompress_layer, unframe,
  unwrap,
}
use minesweeper.Envelope.Config.{Config}
use minesweeper.Envelope.Unwrap.{forged, verified_end-append, unframe-append, unwrap-to_text}

module _ (l : Libraries) (c : Config) where
  verified_end-unsigned : (framed : Bytes) → verified_end l c 0 framed ≡ ok (length framed)
  unfolding verified_end has_bit
  verified_end-unsigned framed = refl

  decrypt_layer-zero : (payload : Bytes) → decrypt_layer l c 0 payload ≡ ok payload
  unfolding decrypt_layer has_bit
  decrypt_layer-zero payload = refl

  decompress_layer-zero : (payload : Bytes) → decompress_layer l c 0 payload ≡ ok payload
  unfolding decompress_layer has_bit
  decompress_layer-zero payload = refl

  unframe-unsigned : (payload : Bytes) → unframe l c (magic_bytes ++ (0 ∷ payload)) ≡ ok payload
  unframe-unsigned payload =
      let size : length (magic_bytes ++ (0 ∷ payload)) - 5 ≡ length payload = omega arith in
      rw
        (
          unframe-append l c 0 payload,
          verified_end-unsigned (magic_bytes ++ (0 ∷ payload)),
          size,
          take_all payload,
          decrypt_layer-zero payload,
          decompress_layer-zero payload,
        )
        refl

  -- Whatever the configuration asks for, signing and encryption included: a header with no bit
  -- set and any bytes behind it, in the base64 of the configuration, are unwrapped to these bytes.
  pub unwrap-unsigned :
      (payload : Bytes)
      → IsBytes payload
      → unwrap l c (to_text c.base64 (magic_bytes ++ (0 ∷ payload))) ≡ ok payload
  unwrap-unsigned payload h =
      let bs : IsBytes (magic_bytes ++ (0 ∷ payload)) =
        (omega arith, (omega arith, (omega arith, (omega arith, (omega arith, h))))) in
      unwrap-to_text l c (magic_bytes ++ (0 ∷ payload)) bs ∙ unframe-unsigned payload

-- Where the libraries do what they document and the receiver has a key for signatures: bytes with
-- the magic and a mask with the bit for signatures, followed by 32 bytes that are not the tag of
-- what stands in front of them, are refused with the message about the signature.
pub unwrap-forged :
    {l : Libraries}
    → Documented l
    → (c : Config) (m : ℕ) (payload tag expected_tag : Bytes) → is_empty c.sign_key ≡ false
    → m < 256
    → has_bit m 2 ≡ true
    → IsBytes payload
    → IsBytes tag
    → length tag ≡ 32
    → hmac_sha256 l c.sign_key (magic_bytes ++ (m ∷ payload)) ≡ ok expected_tag
    → expected_tag ≢ tag
    → unwrap l c (to_text c.base64 ((magic_bytes ++ (m ∷ payload)) ++ tag)) ≡ unexpected forged
unwrap-forged {l} d c m payload tag expected_tag keyed small signed h k size authentic other =
    let body = magic_bytes ++ (m ∷ payload) in
    let bs : IsBytes (body ++ tag) = (
      omega arith,
      (omega arith, (omega arith, (omega arith, (small, IsBytes-append payload tag h k)))),
    ) in
    let differs : constant_time_equal l expected_tag tag ≡ false = ground (
      arith,
      (constant_time_equal_iff d expected_tag tag (hmac_sha256_size d c.sign_key body authentic).0
          size).0,
    ) in
    unwrap-to_text l c (body ++ tag) bs
    ∙ rw
        (
          unframe-append l c m (payload ++ tag),
          verified_end-append l c m body tag expected_tag signed keyed (omega arith) size authentic,
          differs,
        )
        refl
