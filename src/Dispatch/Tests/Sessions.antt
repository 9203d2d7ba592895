-- ===== src/Dispatch/Tests/Sessions.antt =====
-- Sessions on a small server, and their tokens.
use minesweeper.Handlers.Tests.{row_board}
use minesweeper.Server.Clients.{HasFreshId, Joins}
use minesweeper.Handlers.{HandlerResult}
use minesweeper.Server.{Server, lookup, add_new_client, add_client, board_of}
use minesweeper.Dispatch.HandlerWire
use minesweeper.Prelude.{
  ◌+◌, ◌==◌, Bool-cases, inl, inr, ℕ, leb, ◌&&◌, true, false, ◌^◌, ◌<◌, ◌≡◌, ◌≢◌, refl, arith, ltb,
  if◌then◌else◌, Option, none, some, [], ◌∷◌, ◌++◌, drop, subst, ◌-◌,
}
use minesweeper.Prelude.Int.{pos}
use minesweeper.Outcome.{ok}
use minesweeper.Parameter.{Bytes, text, string, no_entries, entry, find, eq_bytes}
use minesweeper.Dispatch.Auth.{
  lifetime, Authorizes, Tokens, Faithful, authorize_client, create_jwt_for_client,
  authorize_client-create_jwt_for_client, bearer,
}
use minesweeper.Dispatch.Session.{token, Sessions, session_new_handler, session_new_handler-Joins}
use minesweeper.Dispatch.Tests.{one_client}

abbrev claim_at : ℕ → Bytes → Option Bytes
claim_at now (issued ∷ claim) =
    if leb issued now && leb now (issued + lifetime) then some claim else none
claim_at now [] = none

-- A token is its claim behind the time of its issue, and expires 24 hours later; a number is one
-- character.
abbrev pub plain_tokens : Tokens
plain_tokens = record {
  claim_of = claim_at;
  sign =
      λ issued expires claim. if expires == issued + lifetime then some (issued ∷ claim) else none;
  split_at_first = λ s. some (text "Bearer", drop 7 s);
  num = λ s. elim s [ [] ↦ none | n ∷ ns ↦ if ltb n (2 ^ 31) then some (pos n) else none ];
  decimal = λ n. n ∷ [];
}

-- What is signed lasts for 24 hours.
signed_lem {ℓ} :
    (P : Bytes → ℕ → Type ℓ) (issued expires : ℕ) (claim : Bytes) {t : Bytes}
    → plain_tokens.sign issued expires claim ≡ some t
    → P (issued ∷ claim) (issued + lifetime)
    → P t expires
signed_lem P issued expires claim {t} e h = elim (Bool-cases (expires == issued + lifetime)) [
  | inr other ↦ absurd (ground (arith, e, other))
  | inl lasting ↦
      let same : issued ∷ claim ≡ t = ground (arith, e, lasting) in
      let end : issued + lifetime ≡ expires = ground (arith, lasting) in
      subst (λ x. P x expires) same (subst (λ n. P (issued ∷ claim) n) end h)
]

pub plain_tokens-Faithful : Faithful plain_tokens
plain_tokens-Faithful = record {
  claim_of_sign = λ issued expires now claim e from.
      signed_lem (λ t n. now < n → claim_at now t ≡ some claim) issued expires claim e
        (λ until.
          let inside : (leb issued now && leb now (issued + lifetime)) ≡ true = ground arith in
          rw inside refl);
  claim_of_expired = λ issued expires now claim e.
      signed_lem (λ t n. n < now → claim_at now t ≡ none) issued expires claim e
        (λ past.
          let outside : (leb issued now && leb now (issued + lifetime)) ≡ false = ground arith in
          rw outside refl);
  sign_nonempty =
      λ issued expires claim e. signed_lem (λ t n. t ≢ []) issued expires claim e (λ nil. cc);
  split_bearer = λ t. refl;
  num_decimal_small = λ n h. ground arith;
  num_decimal_large = λ n h. ground arith;
}

abbrev first_token : Bytes
first_token = 10 ∷ 7 ∷ []

authorize_client-create_jwt_for_client_example :
    Authorizes plain_tokens-Faithful 10 2000 7
      (authorize_client plain_tokens 2000 (bearer ++ first_token))
unfolding create_jwt_for_client
authorize_client-create_jwt_for_client_example =
    authorize_client-create_jwt_for_client plain_tokens-Faithful 10 2000 7 first_token refl
      (omega arith) (λ e. omega arith)

abbrev pub one_session : Sessions
one_session = record {
  rand = 12;
  num = λ raw. elim raw [ [] ↦ none | d ∷ ds ↦ some (d - b'0') ];
  create_jwt = λ id. token (10 ∷ id ∷ []);
}

pub one_client-HasFreshId : HasFreshId one_client
unfolding lookup
one_client-HasFreshId = (refl, omega arith)

pub first_board : lookup 1 one_client.boards ≡ some row_board
unfolding lookup
first_board = refl

session_new_handler-Joins_example :
    (s' : Server) × (session_new_handler one_session one_client
        (entry (text "board_id") (string (text "1")) no_entries)
      ≡ ok (HandlerResult.body (entry (text "token") (string (10 ∷ 8 ∷ [])) no_entries), s'))
    × Joins one_client row_board (some 8, s')
unfolding find eq_bytes
session_new_handler-Joins_example =
    session_new_handler-Joins one_session one_client
      (entry (text "board_id") (string (text "1")) no_entries) (text "1") 1 row_board (10 ∷ 8 ∷ [])
      refl one_client-HasFreshId (omega arith) (refl, omega arith, omega arith) first_board refl

-- A board of its own for a client that asks for none in particular.
any_board :
    session_new_handler one_session one_client (entry (text "board_id") (string []) no_entries)
    ≡ ok (
      HandlerResult.body (entry (text "token") (string (10 ∷ 8 ∷ [])) no_entries),
      (add_new_client 1 one_client).1,
    )
unfolding session_new_handler find eq_bytes add_new_client add_client board_of lookup HandlerWire.at
    HandlerWire.get_string
any_board = refl
