-- ===== src/Envelope/Libraries.antt =====
-- What the envelope calls of zlib and OpenSSL, as a parameter, and what their documentation says
-- of these calls. A call that reports a failure returns `none`, and one that changes a cipher
-- context returns the new one.
use minesweeper.Prelude.Int.{ℤ, to_int}
use minesweeper.Prelude.{
  ℕ, ◌+◌, ◌/◌, ◌^◌, ◌≤◌, ◌≡◌, ◌<◌, ◌↔◌, [], ◌∷◌, ◌++◌, Option, none, some, length, All,
}
use minesweeper.Parameter.{Bytes}

pub record Libraries : Type 1 where
  -- the bytes that `compress2` writes into a buffer of `compressBound` bytes
  pub compress2 : Bytes → Option Bytes
  -- the bytes that `uncompress` writes into a buffer of some size
  pub uncompress : ℕ → Bytes → Option Bytes
  -- `HMAC` with SHA-256, at the length of the key as an `int`, the key and the authenticated bytes
  pub hmac : ℤ → Bytes → Bytes → Option Bytes
  -- `CRYPTO_memcmp` at two spans of one length
  pub memcmp : Bytes → Bytes → ℕ
  pub random_bytes : ℕ → Option Bytes
  -- the calls of `EVP` for AES-256-GCM, each on a cipher context; an update has the length of its
  -- input as an `int`
  pub Context : Type 0
  pub new_context : Option Context
  pub init : Context → Option Context
  pub set_nonce_size : ℕ → Context → Option Context
  pub set_encrypt_key : Bytes → Bytes → Context → Option Context
  pub encrypt_update : ℤ → Bytes → Context → Option (Bytes × Context)
  pub encrypt_final : Context → Option (Bytes × Context)
  pub get_tag : ℕ → Context → Option Bytes
  pub init_decrypt : Context → Option Context
  pub set_decrypt_key : Bytes → Bytes → Context → Option Context
  pub decrypt_update : ℤ → Bytes → Context → Option (Bytes × Context)
  pub set_tag : Bytes → Context → Option Context
  pub decrypt_final : Context → Option Bytes

infixl 5 ◌>>=◌
abbrev pub ◌>>=◌ {ℓ κ} : {A : Type ℓ} {B : Type κ} → Option A → (A → Option B) → Option B
none >>= rest = none
(some value) >>= rest = rest value

module _ (l : Libraries) where
  open l use {
    Context, new_context, init, set_nonce_size, set_encrypt_key, encrypt_update, encrypt_final,
    get_tag, init_decrypt, set_decrypt_key, decrypt_update, set_tag, decrypt_final,
  }

  -- An update with the length cast to `int`, or none where there are no bytes.
  abbrev pub updated :
      (ℤ → Bytes → Context → Option (Bytes × Context)) → Bytes → Context → Option (Bytes × Context)
  updated update [] context = some ([], context)
  updated update (b ∷ bs) context = update (to_int (length (b ∷ bs))) (b ∷ bs) context

  -- The calls in the order of an encryption, to a ciphertext and its tag.
  abbrev pub seal : Bytes → Bytes → Bytes → Option (Bytes × Bytes)
  seal key nonce plaintext = do
    c₀ ← new_context
    c₁ ← init c₀
    c₂ ← set_nonce_size 12 c₁
    c₃ ← set_encrypt_key key nonce c₂
    (bs, c₄) ← updated encrypt_update plaintext c₃
    (last, c₅) ← encrypt_final c₄
    tag ← get_tag 16 c₅
    some (bs ++ last, tag)

  -- The calls in the order of a decryption, to a plaintext.
  abbrev pub unseal : Bytes → Bytes → Bytes → Bytes → Option Bytes
  unseal key nonce ciphertext tag = do
    c₀ ← new_context
    c₁ ← init_decrypt c₀
    c₂ ← set_nonce_size 12 c₁
    c₃ ← set_decrypt_key key nonce c₂
    (bs, c₄) ← updated decrypt_update ciphertext c₃
    c₅ ← set_tag tag c₄
    last ← decrypt_final c₅
    some (bs ++ last)

abbrev pub IsBytes : Bytes → Type 0
IsBytes = All (λ b. b < 256)

-- What the documentation says.
pub record Documented (l : Libraries) : Type 0 where
  -- `uncompress` restores what `compress2` was given, in a buffer of its size.
  pub uncompress_compress2 :
      (bs : Bytes) {compressed : Bytes}
      → l.compress2 bs ≡ some compressed
      → l.uncompress (length bs) compressed ≡ some bs
  -- `compressBound`
  pub compress2_bound :
      (bs : Bytes) {compressed : Bytes}
      → l.compress2 bs ≡ some compressed
      → length compressed
        ≤ length bs + length bs / 2 ^ 12 + length bs / 2 ^ 14 + length bs / 2 ^ 25 + 13
  pub compress2_bytes :
      (bs : Bytes) {compressed : Bytes}
      → IsBytes bs
      → l.compress2 bs ≡ some compressed
      → IsBytes compressed
  pub hmac_size :
      (n : ℤ) (key bs : Bytes) {tag : Bytes}
      → l.hmac n key bs ≡ some tag
      → (length tag ≡ 32) × IsBytes tag
  -- `CRYPTO_memcmp` is 0 exactly on equal bytes.
  pub memcmp_equal : (a b : Bytes) → length a ≡ length b → (l.memcmp a b ≡ 0) ↔ (a ≡ b)
  pub random_size :
      (n : ℕ) {nonce : Bytes} → l.random_bytes n ≡ some nonce → (length nonce ≡ n) × IsBytes nonce
  -- GCM decrypts what it encrypted, with the same key, nonce and tag, where the length is an `int`.
  pub unseal_seal :
      (key nonce plaintext : Bytes) {ciphertext tag : Bytes}
      → length plaintext < 2 ^ 31
      → seal l key nonce plaintext ≡ some (ciphertext, tag)
      → unseal l key nonce ciphertext tag ≡ some plaintext
  pub seal_bytes :
      (key nonce plaintext : Bytes) {ciphertext tag : Bytes}
      → IsBytes plaintext
      → length plaintext < 2 ^ 31
      → seal l key nonce plaintext ≡ some (ciphertext, tag)
      → (length tag ≡ 16) × IsBytes ciphertext × IsBytes tag
