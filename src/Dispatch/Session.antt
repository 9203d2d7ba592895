-- ===== src/Dispatch/Session.antt =====
-- `session_new_handler` of src/server/handlers.cxx. Its call of `rand()`, the parsing of a board's
-- number by `wbr::str::num`, and the token that `create_jwt_for_client` makes are a parameter.
use minesweeper.Prelude.{
  ℕ, ◌+◌, ◌%◌, ◌≤◌, ◌<◌, ◌≡◌, refl, arith, ◌||◌, ◌==◌, ltb, if◌then◌else◌, Option, none, some, [],
  ◌∷◌,
}
use minesweeper.Outcome.{Outcome, ok, throws, ◌>>=◌, fault}
use minesweeper.Parameter.{Bytes, text, Entries, string, no_entries, entry, find}
use minesweeper.Board.{Board}
use minesweeper.Handlers.{
  HandlerResult, body, unexpected, bad_request, forbidden, internal_server_error,
}
use minesweeper.Server.{Server, lookup, boards_count, add_new_client}
use minesweeper.Server.Clients.{HasFreshId, Joins, add_new_client-Joins}
use minesweeper.Dispatch.HandlerWire.{at, get_string}

pub data Token : Type 0 where
  token : Bytes → Token
  no_token : Bytes → Token

pub record Sessions : Type 0 where
  pub rand : ℕ
  pub num : Bytes → Option ℕ
  pub create_jwt : ℕ → Token

-- The end of the handler, with the token of the new client.
unfoldable pub give_token : Token → HandlerResult
give_token (token t) = body (entry (text "token") (string t) no_entries)
give_token (no_token message) = unexpected internal_server_error message

-- What follows `add_new_client`.
unfoldable pub new_session : Sessions → Option ℕ × Server → HandlerResult × Server
unfolding give_token
new_session n (none, s) =
    (unexpected internal_server_error (text "Failed to create new client."), s)
new_session n (some id, s) = (give_token (n.create_jwt id), s)

-- A board that the request names, by the number that its text is parsed to.
unfoldable pub named_session : Sessions → Server → Option ℕ → HandlerResult × Server
unfolding new_session
named_session n s none = (unexpected bad_request (text "Invalid board_id parameter."), s)
named_session n s (some board_id) =
    if board_id == 0 || ltb (boards_count s) board_id
    then (unexpected forbidden (text "Board_id out of range."), s)
    else new_session n (add_new_client board_id s)

-- With no board at all, `rand() % 0` is undefined behaviour.
unfoldable pub chosen_session : Sessions → Server → Bytes → Outcome (HandlerResult × Server)
unfolding named_session
chosen_session n s [] =
    if boards_count s == 0
    then throws fault
    else ok (new_session n (add_new_client (n.rand % boards_count s + 1) s))
chosen_session n s (c ∷ cs) = ok (named_session n s (n.num (c ∷ cs)))

unfoldable pub session_new_handler : Sessions → Server → Entries → Outcome (HandlerResult × Server)
unfolding chosen_session
session_new_handler n s params = do
  p ← at (text "board_id") params
  board_id_param ← get_string p
  chosen_session n s board_id_param

-- The board that a request asks for: any where it names none.
abbrev pub Asks : Sessions → Server → Bytes → ℕ → Type 0
Asks n s [] board_id = board_id ≡ n.rand % boards_count s + 1
Asks n s (c ∷ cs) board_id =
    (n.num (c ∷ cs) ≡ some board_id) × (0 < board_id) × (board_id ≤ boards_count s)

chosen_session-Asks :
    (n : Sessions) (s : Server) (raw : Bytes) (board_id : ℕ)
    → 0 < boards_count s
    → Asks n s raw board_id
    → chosen_session n s raw ≡ ok (new_session n (add_new_client board_id s))
unfolding chosen_session
chosen_session-Asks n s [] board_id some_board asks = ground arith
chosen_session-Asks n s (c ∷ cs) board_id some_board asks = ground arith

new_session-token :
    (n : Sessions) (r : Option ℕ × Server) (id : ℕ) (t : Bytes)
    → r.0 ≡ some id
    → n.create_jwt id ≡ token t
    → new_session n r ≡ (body (entry (text "token") (string t) no_entries), r.1)
unfolding new_session
new_session-token n (some i, s) id t e made = let same : i ≡ id = cc in rw (same, made) refl
new_session-token n (none, s) id t e made = absurd (cc)

Joins-number :
    (s : Server) (b : Board) (r : Option ℕ × Server)
    → Joins s b r
    → Joins s b (some s.next_client_id, r.1)
Joins-number s b r j = record {
  number = refl;
  copy = j.copy;
  same_boards = j.same_boards;
  others = j.others;
}

-- On a server with boards whose next client's number is free, for a request with a text for
-- board_id that is empty or the number of a board from 1 on: where a token is made for the new
-- client, session_new_handler answers with it, and the new client has a copy of the board that was
-- asked for, any board for the empty text; the boards and the other clients stay as they are.
pub session_new_handler-Joins :
    (n : Sessions) (s : Server) (params : Entries) (raw : Bytes) (board_id : ℕ) (b : Board)
    (t : Bytes)
    → find (text "board_id") params ≡ some (string raw)
    → HasFreshId s
    → 0 < boards_count s
    → Asks n s raw board_id
    → lookup board_id s.boards ≡ some b
    → n.create_jwt s.next_client_id ≡ token t
    → (s' : Server) × (session_new_handler n s params
        ≡ ok (body (entry (text "token") (string t) no_entries), s'))
      × Joins s b (some s.next_client_id, s')
unfolding session_new_handler at get_string
session_new_handler-Joins n s params raw board_id b t named fresh some_board asks there made =
    let joins = add_new_client-Joins s board_id b fresh there in
    let r = add_new_client board_id s in
    (
      r.1,
      rw
          (
            named,
            chosen_session-Asks n s raw board_id some_board asks,
            new_session-token n r s.next_client_id t joins.number made,
          )
          refl,
      Joins-number s b r joins,
    )
