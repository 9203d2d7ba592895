-- ===== src/Envelope/Tests.antt =====
-- Runs of the base64 functions and of the envelope, and the theorems at concrete inputs.
use minesweeper.Prelude.{
  ◌^◌, ◌/◌, ℕ, zero, suc, ◌+◌, ◌%◌, ◌<◌, ◌≡◌, ◌≢◌, ◌⊎◌, ◌↔◌, refl, arith, true, false, none, some,
  [], ◌∷◌, ◌++◌, append-nil, length, replicate, length-replicate, if◌then◌else◌, ◌≤◌, subst, sym,
  ap, ◌∙◌,
}
use minesweeper.Expected.{ok, unexpected}
use minesweeper.Parameter.{Bytes, text, eq_bytes, eq_bytes→≡, eq_bytes_refl}
use minesweeper.Envelope.Base64.{standard, url_safe, base64_encode, base64_decode, pad}
use minesweeper.Envelope.Base64.RoundTrip.{decode-encode}
use minesweeper.Envelope.Base64.Errors.{Decodes, base64_decode-Decodes}
use minesweeper.Envelope.Libraries.{Libraries, Documented, IsBytes, seal, unseal}
use minesweeper.Envelope.Layers.{zlib_compress, hmac_sha256, aes_gcm_encrypt, append_u64_le}
use minesweeper.Envelope.Wrap.{wrap, unwrap, to_text, magic_bytes, has_bit}
use minesweeper.Envelope.Config.{Base64Mode, Config}
use minesweeper.Envelope.Unwrap.{unwrap-wrap, forged}
use minesweeper.Envelope.Forgery.{unwrap-unsigned, unwrap-forged}

encode_run : base64_encode (text "light w") standard ≡ text "bGlnaHQgdw=="
unfolding base64_encode
encode_run = refl

encode_run_url : base64_encode (251 ∷ 255 ∷ []) url_safe ≡ text "-_8"
unfolding base64_encode
encode_run_url = refl

decode_run : base64_decode (text "bGlnaHQgdw==") standard ≡ ok (text "light w")
unfolding base64_decode
decode_run = refl

decode_run_padding :
    base64_decode (text "bGln===") standard ≡ unexpected "envelope: too much base64 padding."
unfolding base64_decode
decode_run_padding = refl

decode-encode_example :
    base64_decode (base64_encode (text "mine") standard) standard ≡ ok (text "mine")
decode-encode_example = decode-encode standard (text "mine") (omega arith)

base64_decode-Decodes_example :
    let r = base64_decode (text "bWlu*Q" ++ replicate 2 pad) standard in
    ((2 < 2) × (r ≡ unexpected "envelope: too much base64 padding."))
    ⊎ ((2 ≤ 2) × (6 % 4 ≡ 1) × (r ≡ unexpected "envelope: invalid base64 input length."))
    ⊎ ((2 ≤ 2) × (6 % 4 ≢ 1) × Decodes standard (text "bWlu*Q") 4 r)
base64_decode-Decodes_example = base64_decode-Decodes standard (text "bWlu*Q") 2 (omega arith)

-- Libraries that keep what they are given, with a sum for each tag.
sum : Bytes → ℕ
sum [] = 0
sum (b ∷ bs) = b + sum bs

abbrev keeping : Libraries
keeping = record {
  compress2 = λ bs. some bs;
  uncompress = λ n bs. some bs;
  hmac = λ n key bs. some (replicate 32 ((sum key + sum bs) % 256));
  memcmp = λ a b. if eq_bytes a b then 0 else 1;
  random_bytes = λ n. some (replicate n 7);
  Context = Bytes;
  new_context = some [];
  init = λ c. some c;
  set_nonce_size = λ n c. some c;
  set_encrypt_key = λ key nonce c. some key;
  encrypt_update = λ n bs c. some (bs, c);
  encrypt_final = λ c. some ([], c);
  get_tag = λ n c. some (replicate 16 (sum c % 256));
  init_decrypt = λ c. some c;
  set_decrypt_key = λ key nonce c. some key;
  decrypt_update = λ n bs c. some (bs, c);
  set_tag = λ tag c. if eq_bytes tag (replicate 16 (sum c % 256)) then some c else none;
  decrypt_final = λ c. some [];
}

replicate-IsBytes : (n b : ℕ) → b < 256 → IsBytes (replicate n b)
replicate-IsBytes zero b h = tt
replicate-IsBytes (suc n) b h = (h, replicate-IsBytes n b h)

some_value {ℓ} : {A : Type ℓ} (P : A → Type 0) {a b : A} → some a ≡ some b → P a → P b
some_value P e h = subst P (let f : _ ≡ _ = cc in f) h

seal-keeping :
    (key nonce plaintext : Bytes)
    → seal keeping key nonce plaintext ≡ some (plaintext ++ [], replicate 16 (sum key % 256))
seal-keeping key nonce [] = refl
seal-keeping key nonce (b ∷ bs) = refl

unseal-keeping :
    (key nonce plaintext : Bytes)
    → unseal keeping key nonce plaintext (replicate 16 (sum key % 256)) ≡ some (plaintext ++ [])
unseal-keeping key nonce [] = rw (eq_bytes_refl (replicate 16 (sum key % 256))) refl
unseal-keeping key nonce (b ∷ bs) = rw (eq_bytes_refl (replicate 16 (sum key % 256))) refl

keeping-memcmp : (a b : Bytes) → (keeping.memcmp a b ≡ 0) ↔ (a ≡ b)
keeping-memcmp a b = (λ e. eq_bytes→≡ a b (ground arith), λ e. rw (← e, eq_bytes_refl a) refl)

keeping-unseal :
    (key nonce plaintext : Bytes) {ciphertext tag : Bytes}
    → seal keeping key nonce plaintext ≡ some (ciphertext, tag)
    → unseal keeping key nonce ciphertext tag ≡ some plaintext
keeping-unseal key nonce plaintext e =
    some_value (λ (p : Bytes × Bytes). unseal keeping key nonce p.0 p.1 ≡ some plaintext)
      (sym (seal-keeping key nonce plaintext) ∙ e)
      (rw (append-nil plaintext)
        (unseal-keeping key nonce plaintext ∙ ap some (append-nil plaintext)))

keeping-seal :
    (key nonce plaintext : Bytes) {ciphertext tag : Bytes}
    → IsBytes plaintext
    → seal keeping key nonce plaintext ≡ some (ciphertext, tag)
    → (length tag ≡ 16) × IsBytes ciphertext × IsBytes tag
keeping-seal key nonce plaintext h e =
    let t : ℕ = sum key % 256 in
    some_value (λ (p : Bytes × Bytes). (length p.1 ≡ 16) × IsBytes p.0 × IsBytes p.1)
      (sym (seal-keeping key nonce plaintext) ∙ e)
      (length-replicate 16 t, rw (append-nil plaintext) h, replicate-IsBytes 16 t (omega arith))

abbrev IsTag : ℕ → Bytes → Type 0
IsTag n t = (length t ≡ n) × IsBytes t

replicate-IsTag : (n b : ℕ) → b < 256 → IsTag n (replicate n b)
replicate-IsTag n b h = (length-replicate n b, replicate-IsBytes n b h)

keeping-Documented : Documented keeping
keeping-Documented = record {
  uncompress_compress2 = λ bs e. sym e;
  compress2_bound = λ bs e.
      some_value
        (λ out.
          length out
          ≤ length bs + length bs / 2 ^ 12 + length bs / 2 ^ 14 + length bs / 2 ^ 25 + 13)
        e (omega arith);
  compress2_bytes = λ bs h e. some_value IsBytes e h;
  hmac_size = λ n key bs e.
      some_value (IsTag 32) e (replicate-IsTag 32 ((sum key + sum bs) % 256) (omega arith));
  memcmp_equal = λ a b e. keeping-memcmp a b;
  random_size = λ n e. some_value (IsTag n) e (replicate-IsTag n 7 (omega arith));
  unseal_seal = λ key nonce plaintext s e. keeping-unseal key nonce plaintext e;
  seal_bytes = λ key nonce plaintext h s e. keeping-seal key nonce plaintext h e;
}

abbrev everything : Config
everything = record {
  base64 = Base64Mode.url_safe;
  compress = true;
  encrypt = true;
  encrypt_key = some (replicate 32 9);
  sign = true;
  sign_key = text "key";
}

-- The receiver has the keys, and asks for no layer itself.
abbrev receiver : Config
receiver = record everything { compress = false; encrypt = false; sign = false }

abbrev wrapped : Bytes
wrapped =
    text
      "RU5WMQcHBwcHBwcHBwcHBwcEAAAAAAAAAG1pbmUgICAgICAgICAgICAgICAga2tra2tra2tra2tra2tra2tra2tra2tra2tra2tra2s"

wrap_run : wrap keeping everything (text "mine") ≡ ok wrapped
unfolding wrap sum zlib_compress append_u64_le aes_gcm_encrypt hmac_sha256 base64_encode
wrap_run = refl

unwrap-wrap_example : unwrap keeping receiver wrapped ≡ ok (text "mine")
unwrap-wrap_example =
    unwrap-wrap keeping-Documented everything receiver
      (record { same_mode = refl; same_encrypt_key = λ e. refl; same_sign_key = λ e. refl })
      (text "mine") wrapped (omega arith) (λ e. omega arith) (λ e f. omega arith) wrap_run

-- The sender above signs, and these bytes carry no signature.
unwrap-unsigned_example :
    unwrap keeping everything (to_text (Base64Mode.url_safe) (magic_bytes ++ (0 ∷ text "lost")))
    ≡ ok (text "lost")
unwrap-unsigned_example = unwrap-unsigned keeping everything (text "lost") (omega arith)

unwrap-forged_example :
    unwrap keeping everything
      (to_text (Base64Mode.url_safe) ((magic_bytes ++ (4 ∷ text "win")) ++ replicate 32 1))
    ≡ unexpected forged
unfolding hmac_sha256 sum has_bit
unwrap-forged_example =
    unwrap-forged keeping-Documented everything 4 (text "win") (replicate 32 1) (replicate 32 181)
      refl (omega arith) refl (omega arith) (replicate-IsBytes 32 1 (omega arith)) refl refl
      (λ e. cc)
