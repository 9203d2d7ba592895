-- ===== src/Envelope/Unwrap.antt =====
-- `envelope_t::unwrap` after `envelope_t::wrap`.
use minesweeper.Envelope.Base64.{Alphabet}
use minesweeper.Prelude.{
  ℕ, ◌+◌, ◌-◌, ◌^◌, ◌≤◌, ◌<◌, ◌≡◌, inl, inr, refl, sym, ap, ◌∙◌, arith, true, false, not, ◌&&◌, ltb,
  Bool-cases, if◌then◌else◌, Option-cases, [], ◌∷◌, ◌++◌, length, take, length-append, take-append,
  drop-append, String, append-nil, subst,
}
use minesweeper.Expected.{ok, unexpected, ◌>>=◌, >>=-eq-ok, ok-injective}
use minesweeper.Parameter.{Bytes, eq_bytes}
use minesweeper.Envelope.Base64.RoundTrip.{decode-encode}
use minesweeper.Envelope.Libraries.{Libraries, Documented, IsBytes}
use minesweeper.Envelope.Layers.{hmac_sha256, constant_time_equal, max_reasonable_uncompressed_size}
use minesweeper.Envelope.Unlayer.{
  IsBytes-append, zlib_decompress-zlib_compress, aes_gcm_decrypt-aes_gcm_encrypt, hmac_sha256_size,
  constant_time_equal_iff,
}
use minesweeper.Envelope.Wrap.{
  magic_bytes, header_size, mask, has_bit, is_none, is_empty, to_text, from_text, compress_layer,
  encrypt_layer, sign_layer, wrap, verified_end, decrypt_layer, decompress_layer, unframe, unwrap,
}
use minesweeper.Envelope.Config.{Base64Mode, Config}

-- The receiver's mode, and its keys for the layers that the sender uses, are the sender's.
pub record Matches (sender receiver : Config) : Type 0 where
  pub same_mode : receiver.base64 ≡ sender.base64
  pub same_encrypt_key : sender.encrypt ≡ true → receiver.encrypt_key ≡ sender.encrypt_key
  pub same_sign_key : sender.sign ≡ true → receiver.sign_key ≡ sender.sign_key

mask_bits :
    (c : Config)
    → (has_bit (mask c) 0 ≡ c.compress)
      × (has_bit (mask c) 1 ≡ c.encrypt)
      × (has_bit (mask c) 2 ≡ c.sign)
unfolding mask has_bit
mask_bits c = ground arith

mask_byte : (c : Config) → mask c < 256
unfolding mask
mask_byte c = ground arith

from_text-to_text :
    (mode : Base64Mode) (bs : Bytes) → IsBytes bs → from_text mode (to_text mode bs) ≡ ok bs
unfolding from_text to_text
from_text-to_text Base64Mode.none bs h = refl
from_text-to_text Base64Mode.standard bs h = decode-encode Alphabet.standard bs h
from_text-to_text Base64Mode.url_safe bs h = decode-encode Alphabet.url_safe bs h

abbrev pub forged : String
forged = "envelope_t::unwrap: signature verification failed."

-- On signed bytes, what stands in front of the last 32 is read if they are its tag.

pub verified_end-append :
    (l : Libraries) (c : Config) (m : ℕ) (framed tag expected_tag : Bytes)
    → has_bit m 2 ≡ true
    → is_empty c.sign_key ≡ false
    → 5 ≤ length framed
    → length tag ≡ 32
    → hmac_sha256 l c.sign_key framed ≡ ok expected_tag
    → verified_end l c m (framed ++ tag) ≡ (
        if not (constant_time_equal l expected_tag tag)
        then unexpected forged
        else ok (length framed))
unfolding verified_end
verified_end-append l c m framed tag expected_tag signed keyed long size authentic =
    let whole : length (framed ++ tag) ≡ length framed + 32 =
      omega (arith, length-append framed tag) in
    let enough : ltb (length framed + 32) 37 ≡ false = ground arith in
    let front : length framed + 32 - 32 ≡ length framed = omega arith in
    rw (signed, keyed, whole, enough, front, take-append, drop-append, authentic) refl

module _ {l : Libraries} (d : Documented l) (c c' : Config) (matching : Matches c c') where
  decompress_layer-compress_layer :
      (bs out : Bytes)
      → IsBytes bs
      → (c.compress ≡ true → length bs ≤ max_reasonable_uncompressed_size)
      → (c.encrypt ≡ true → c.compress ≡ false → length bs < 2 ^ 31)
      → compress_layer l c bs ≡ ok out
      → (decompress_layer l c' (mask c) out ≡ ok bs)
        × IsBytes out
        × (c.encrypt ≡ true → length out < 2 ^ 31)
  unfolding compress_layer decompress_layer
  decompress_layer-compress_layer bs out h small short gave = elim (Bool-cases c.compress) [
    | inl used ↦
        ground (arith, (mask_bits c).0, zlib_decompress-zlib_compress d bs out h (small used))
    | inr unused ↦ ground (arith, (mask_bits c).0, short)
  ]

  decrypt_layer-encrypt_layer :
      (payload out : Bytes)
      → IsBytes payload
      → (c.encrypt ≡ true → length payload < 2 ^ 31)
      → encrypt_layer l c payload ≡ ok out
      → (decrypt_layer l c' (mask c) out ≡ ok payload) × IsBytes out
  unfolding encrypt_layer decrypt_layer
  decrypt_layer-encrypt_layer payload out h short gave = elim (Bool-cases c.encrypt) [
    | inr unused ↦ ground (arith, (mask_bits c).1)
    | inl used ↦ elim (Option-cases c.encrypt_key) [
      | inl missing ↦ absurd (ground arith)
      | inr (key, e) ↦ ground (
        arith,
        (mask_bits c).1,
        matching.same_encrypt_key used,
        aes_gcm_decrypt-aes_gcm_encrypt d key payload out h (short used),
      )
    ]
  ]

  sign_layer-eq-ok :
      (framed : Bytes) {signed : Bytes}
      → sign_layer l c framed ≡ ok signed
      → c.sign ≡ true
      → (tag : Bytes) × (framed ++ tag ≡ signed) × (hmac_sha256 l c.sign_key framed ≡ ok tag)
  unfolding sign_layer
  sign_layer-eq-ok framed gave used =
      let (tag, e, authentic) =
        >>=-eq-ok (λ tag. ok (framed ++ tag)) (hmac_sha256 l c.sign_key framed) (ground arith) in
      (tag, ok-injective e, authentic)

  unsigned :
      (framed : Bytes) {signed : Bytes}
      → sign_layer l c framed ≡ ok signed
      → c.sign ≡ false
      → framed ≡ signed
  unfolding sign_layer
  unsigned framed gave unused = ground arith

  verified_end-sign_layer :
      (framed : Bytes) {signed : Bytes}
      → 5 ≤ length framed
      → IsBytes framed
      → (c.sign && is_empty c.sign_key) ≡ false
      → sign_layer l c framed ≡ ok signed
      → (tag : Bytes) × (framed ++ tag ≡ signed)
        × (verified_end l c' (mask c) signed ≡ ok (length framed))
        × IsBytes signed
  unfolding verified_end
  verified_end-sign_layer framed {signed} long h keyed gave = elim (Bool-cases c.sign) [
    | inl used ↦
        let own : c'.sign_key ≡ c.sign_key = matching.same_sign_key used in
        let (tag, e, authentic) = sign_layer-eq-ok framed gave used in
        let (size, byte) = hmac_sha256_size d c.sign_key framed authentic in
        (
          tag,
          e,
          rw (← e) (
              verified_end-append l c' (mask c) framed tag tag ((mask_bits c).2 ∙ used)
                (ground (arith, own)) long size (rw own authentic)
              ∙ rw ((constant_time_equal_iff d tag tag size size).1 refl) refl),
          rw (← e) (IsBytes-append framed tag h byte),
        )
    | inr unused ↦
        let same : framed ≡ signed = unsigned framed gave unused in
        ([], rw append-nil same, rw (← same) (ground (arith, (mask_bits c).2)), rw (← same) h)
  ]

pub unframe-append :
    (l : Libraries) (c : Config) (m : ℕ) (rest : Bytes)
    → unframe l c (magic_bytes ++ (m ∷ rest)) ≡ (
        verified_end l c m (magic_bytes ++ (m ∷ rest)) >>= (λ body_end.
          decrypt_layer l c m (take (body_end - header_size) rest) >>= decompress_layer l c m))
unfolding unframe eq_bytes
unframe-append l c m rest =
    let long : ltb (length (magic_bytes ++ (m ∷ rest))) header_size ≡ false = ground arith in
    rw long refl

unframe-signed :
    (l : Libraries) (c : Config) (m : ℕ) (payload tag : Bytes) {compressed bs : Bytes}
    → verified_end l c m ((magic_bytes ++ (m ∷ payload)) ++ tag)
      ≡ ok (length (magic_bytes ++ (m ∷ payload)))
    → decrypt_layer l c m payload ≡ ok compressed
    → decompress_layer l c m compressed ≡ ok bs
    → unframe l c ((magic_bytes ++ (m ∷ payload)) ++ tag) ≡ ok bs
unframe-signed l c m payload tag verified decrypted decompressed =
    let size : length (magic_bytes ++ (m ∷ payload)) - 5 ≡ length payload = omega arith in
    rw (unframe-append l c m (payload ++ tag), verified, size, take-append, decrypted, decompressed)
      refl

pub unwrap-to_text :
    (l : Libraries) (c : Config) (framed : Bytes)
    → IsBytes framed
    → unwrap l c (to_text c.base64 framed) ≡ unframe l c framed
unfolding unwrap
unwrap-to_text l c framed h = rw (from_text-to_text c.base64 framed h) refl

wrap-eq-ok :
    (l : Libraries) (c : Config) (bs : Bytes) {out : Bytes}
    → wrap l c bs ≡ ok out
    → ((c.sign && is_empty c.sign_key) ≡ false)
      × ((compressed : Bytes) × (payload : Bytes) × (framed : Bytes) × (compress_layer l c bs
            ≡ ok compressed)
          × (encrypt_layer l c compressed ≡ ok payload)
          × (sign_layer l c (magic_bytes ++ (mask c ∷ payload)) ≡ ok framed)
          × (to_text c.base64 framed ≡ out))
unfolding wrap
wrap-eq-ok l c bs gave = elim (Bool-cases (c.encrypt && is_none c.encrypt_key)) [
  | inl missing ↦ absurd (ground arith)
  | inr given ↦ elim (Bool-cases (c.sign && is_empty c.sign_key)) [
    | inl missing ↦ absurd (ground arith)
    | inr keyed ↦
        let (compressed, g₁, e₁) =
          >>=-eq-ok _ (compress_layer l c bs) (rw (given, keyed) at gave) in
        let (payload, g₂, e₂) = >>=-eq-ok _ (encrypt_layer l c compressed) g₁ in
        let (framed, g₃, e₃) =
          >>=-eq-ok _ (sign_layer l c (magic_bytes ++ (mask c ∷ payload))) g₂ in
        (keyed, (compressed, payload, framed, e₁, e₂, e₃, ok-injective g₃))
  ]
]

-- Where zlib and OpenSSL do what they document, and the receiver has the sender's base64 mode and
-- the keys of the layers that the sender uses: what wrap made of some bytes, no more than 256 MiB
-- if it compresses, and fewer than 2 ^ 31 bytes if it encrypts and does not compress, is unwrapped
-- to these bytes.
pub unwrap-wrap :
    {l : Libraries}
    → Documented l
    → (c c' : Config) → Matches c c'
    → (bs out : Bytes) → IsBytes bs
    → (c.compress ≡ true → length bs ≤ max_reasonable_uncompressed_size)
    → (c.encrypt ≡ true → c.compress ≡ false → length bs < 2 ^ 31)
    → wrap l c bs ≡ ok out
    → unwrap l c' out ≡ ok bs
unwrap-wrap {l} d c c' matching bs out h small short gave =
    let (keyed, (compressed, payload, framed, e₁, e₂, e₃, e₄)) = wrap-eq-ok l c bs gave in
    let (r₁, b₁, s₁) =
      decompress_layer-compress_layer d c c' matching bs compressed h small short e₁ in
    let (r₂, b₂) = decrypt_layer-encrypt_layer d c c' matching compressed payload b₁ s₁ e₂ in
    let body = magic_bytes ++ (mask c ∷ payload) in
    let b : IsBytes body =
      (omega arith, (omega arith, (omega arith, (omega arith, (mask_byte c, b₂))))) in
    let (tag, e, verified, b₃) =
      verified_end-sign_layer d c c' matching body (omega arith) b keyed e₃ in
    let opened : unframe l c' framed ≡ ok bs = rw (← e) (
      unframe-signed l c' (mask c) payload tag
        (subst (λ s. verified_end l c' (mask c) s ≡ ok (length body)) (sym e) verified) r₂ r₁) in
    let written : to_text c'.base64 framed ≡ out =
      ap (λ mode. to_text mode framed) matching.same_mode ∙ e₄ in
    rw (← written) (unwrap-to_text l c' framed b₃ ∙ opened)
