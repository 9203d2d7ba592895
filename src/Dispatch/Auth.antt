-- ===== src/Dispatch/Auth.antt =====
-- src/server/http_auth.cxx: the token of a client, made when its session starts, and looked for in
-- each later request. The library of tokens, `wbr::str` and `std::to_string` are a parameter. A
-- time is a number of seconds, as in a token.
use minesweeper.Prelude.{
  ℕ, ◌+◌, ◌*◌, ◌≤◌, ◌<◌, ◌^◌, ◌≡◌, ◌≢◌, refl, arith, Bool, true, false, not, ◌||◌, if◌then◌else◌,
  Option, none, some, [], ◌∷◌, ◌++◌, take, ltb, Bool-cases, inl, inr, ◌⊎◌, ◌∙◌, ◌%◌,
}
use minesweeper.Prelude.Int.{ℤ, pos, to_uint64}
use minesweeper.Parameter.{Bytes, text, eq_bytes}
use minesweeper.Dispatch.Respond.{Authorization, client, denied}
use minesweeper.Dispatch.Session.{Token, token, no_token}

pub record Tokens : Type 0 where
  -- at a time: the text of the claim of a token, where it is decoded and verified without an
  -- exception
  pub claim_of : ℕ → Bytes → Option Bytes
  -- a signed token that is issued and expires at two times, with a claim, where it is made without
  -- an exception
  pub sign : ℕ → ℕ → Bytes → Option Bytes
  -- `wbr::str::splitAtFirst` at a space
  pub split_at_first : Bytes → Option (Bytes × Bytes)
  -- `wbr::str::num<int>` with a full match
  pub num : Bytes → Option ℤ
  -- `std::to_string`
  pub decimal : ℕ → Bytes

abbrev pub bearer : Bytes
bearer = text "Bearer "

pub data FoundToken : Type 0 where
  found : Bytes → FoundToken
  missing : Bytes → FoundToken

abbrev is_empty : Bytes → Bool
is_empty [] = true
is_empty (c ∷ cs) = false

-- The second part of the split header.
unfoldable pub second_part : Option (Bytes × Bytes) → FoundToken
second_part none = missing (text "Invalid Authorization header.")
second_part (some (first, second)) =
    if is_empty second then missing (text "Invalid Authorization header.") else found second

-- At the text of the header, which is empty where there is none.
unfoldable pub get_jwt_from_request : Tokens → Bytes → FoundToken
unfolding second_part
get_jwt_from_request tk token_str =
    if is_empty token_str || not (eq_bytes (take 7 token_str) bearer)
    then missing (text "Missing mandatory header Authorization.")
    else second_part (tk.split_at_first token_str)

-- The claim as a number, and the `int` as a `client_id_t`.
unfoldable pub client_of_num : Option ℤ → Authorization
client_of_num none = denied (text "Invalid client_id in JWT token.")
client_of_num (some id) = client (to_uint64 id)

unfoldable pub client_of_claim : Tokens → Option Bytes → Authorization
unfolding client_of_num
client_of_claim tk none = denied (text "Invalid JWT token.")
client_of_claim tk (some client_id_str) = client_of_num (tk.num client_id_str)

unfoldable pub get_id_from_jwt : Tokens → ℕ → Bytes → Authorization
unfolding client_of_claim
get_id_from_jwt tk now t = client_of_claim tk (tk.claim_of now t)

unfoldable pub authorize_found : Tokens → ℕ → FoundToken → Authorization
unfolding get_id_from_jwt
authorize_found tk now (missing message) = denied message
authorize_found tk now (found t) = get_id_from_jwt tk now t

unfoldable pub authorize_client : Tokens → ℕ → Bytes → Authorization
unfolding authorize_found get_jwt_from_request
authorize_client tk now header = authorize_found tk now (get_jwt_from_request tk header)

unfoldable pub signed_token : Option Bytes → Token
signed_token none = no_token (text "Failed to generate JWT token.")
signed_token (some t) = token t

-- A token lasts for 24 hours.
abbrev pub lifetime : ℕ
lifetime = 24 * 60 * 60

unfoldable pub create_jwt_for_client : Tokens → ℕ → ℕ → Token
unfolding signed_token
create_jwt_for_client tk now client_id =
    signed_token (tk.sign now (now + lifetime) (tk.decimal client_id))

-- What the libraries document.
pub record Faithful (tk : Tokens) : Type 0 where
  -- A token that was signed is verified from its issue on until it expires, and holds its claim.
  pub claim_of_sign :
      (issued expires now : ℕ) (claim : Bytes) {t : Bytes}
      → tk.sign issued expires claim ≡ some t
      → issued ≤ now
      → now < expires
      → tk.claim_of now t ≡ some claim
  pub claim_of_expired :
      (issued expires now : ℕ) (claim : Bytes) {t : Bytes}
      → tk.sign issued expires claim ≡ some t
      → expires < now
      → tk.claim_of now t ≡ none
  pub sign_nonempty :
      (issued expires : ℕ) (claim : Bytes) {t : Bytes}
      → tk.sign issued expires claim ≡ some t
      → t ≢ []
  pub split_bearer : (t : Bytes) → tk.split_at_first (bearer ++ t) ≡ some (text "Bearer", t)
  -- Only the numbers of an `int` are parsed.
  pub num_decimal_small : (n : ℕ) → n < 2 ^ 31 → tk.num (tk.decimal n) ≡ some (pos n)
  pub num_decimal_large : (n : ℕ) → 2 ^ 31 ≤ n → tk.num (tk.decimal n) ≡ none

module _ {tk : Tokens} (d : Faithful tk) where
  pub signed-eq-token : (o : Option Bytes) (t : Bytes) → signed_token o ≡ token t → o ≡ some t
  unfolding signed_token
  signed-eq-token none t e = absurd (cc)
  signed-eq-token (some u) t e = cc

  get_jwt_from_request-bearer :
      (t : Bytes) → t ≢ [] → get_jwt_from_request tk (bearer ++ t) ≡ found t
  unfolding get_jwt_from_request eq_bytes
  get_jwt_from_request-bearer [] nonempty = absurd (nonempty refl)
  get_jwt_from_request-bearer (c ∷ cs) nonempty = rw (d.split_bearer (c ∷ cs)) refl

  authorize_client-claim :
      (issued now id : ℕ) (t : Bytes)
      → create_jwt_for_client tk issued id ≡ token t
      → authorize_client tk now (bearer ++ t) ≡ client_of_claim tk (tk.claim_of now t)
  unfolding create_jwt_for_client authorize_client
  authorize_client-claim issued now id t made =
      let signed = signed-eq-token (tk.sign issued (issued + lifetime) (tk.decimal id)) t made in
      rw
        (get_jwt_from_request-bearer t
          (d.sign_nonempty issued (issued + lifetime) (tk.decimal id) signed))
        refl

  -- The ends of an authorization with the token that was made for a client.
  abbrev pub Authorizes : ℕ → ℕ → ℕ → Authorization → Type 0
  Authorizes issued now id r =
      ((now < issued + lifetime) × (id < 2 ^ 31) × (r ≡ client id))
      ⊎ ((now < issued + lifetime)
          × (2 ^ 31 ≤ id)
          × (r ≡ denied (text "Invalid client_id in JWT token.")))
      ⊎ ((issued + lifetime < now) × (r ≡ denied (text "Invalid JWT token.")))

  -- Where the library of tokens verifies what it signed until it expires, and numbers are parsed and
  -- printed as documented: a request with the token that was made for a client, at a time from its
  -- issue on, is authorized for this client if 24 hours have not passed and the client's number is
  -- below 2 ^ 31, is denied with a message about the number if they have not passed and it is not,
  -- and is denied with a message about the token if they have passed; the moment of the end itself
  -- is left out.
  pub authorize_client-create_jwt_for_client :
      (issued now id : ℕ) (t : Bytes)
      → create_jwt_for_client tk issued id ≡ token t
      → issued ≤ now
      → now ≢ issued + lifetime
      → Authorizes issued now id (authorize_client tk now (bearer ++ t))
  unfolding client_of_claim client_of_num to_uint64 create_jwt_for_client
  authorize_client-create_jwt_for_client issued now id t made from other =
      let expires = issued + lifetime in
      let signed = signed-eq-token (tk.sign issued expires (tk.decimal id)) t made in
      let claimed = authorize_client-claim issued now id t made in
      elim (Bool-cases (ltb now expires)) [
        | inr late ↦
            let past : expires < now = ground (arith, late, other) in
            inr (
              inr (
                past,
                claimed
                    ∙ rw (d.claim_of_expired issued expires now (tk.decimal id) signed past) refl,
              ))
        | inl valid ↦
            let during : now < expires = ground arith in
            let held = d.claim_of_sign issued expires now (tk.decimal id) signed from during in
            elim (Bool-cases (ltb id (2 ^ 31))) [
              | inl small ↦
                  let below : id < 2 ^ 31 = ground arith in
                  let whole : id % 2 ^ 64 ≡ id = omega arith in
                  inl (during, below, claimed ∙ rw (held, d.num_decimal_small id below, whole) refl)
              | inr large ↦
                  let above : 2 ^ 31 ≤ id = ground arith in
                  inr (inl (during, above, claimed ∙ rw (held, d.num_decimal_large id above) refl))
            ]
      ]
