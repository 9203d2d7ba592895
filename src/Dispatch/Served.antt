-- ===== src/Dispatch/Served.antt =====
-- What `dispatch` does to the server, and what it answers.
use minesweeper.Dispatch.Left.{IsLeft, call_handler-IsLeft}
use minesweeper.Prelude.Int.{ℤ}
use minesweeper.Prelude.{
  ℕ, ◌+◌, ◌^◌, ◌<◌, ◌≤◌, ◌≡◌, ◌⊎◌, inl, inr, refl, arith, true, leb, Option, none, some, length,
  subst,
}
use minesweeper.Outcome.{Outcome, ok, >>=-eq-ok}
use minesweeper.Parameter.{Bytes, Entries, map, text}
use minesweeper.Board.{Board}
use minesweeper.Handlers.{HandlerResult, Handler}
use minesweeper.Server.{Server, board_for_client, put_client_board}
use minesweeper.Wire.Encode.{encode, IsSendable}
use minesweeper.Wire.Decoded.{received_entries}
use minesweeper.Wire.Stored.{frame}
use minesweeper.Dispatch.Host.{Host, Answer, unexpected, answer_of}
use minesweeper.Dispatch.HandlerWire.{IsAnswer}
use minesweeper.Dispatch.Growing.{store_growing, store_growing_lem, max_capacity}
use minesweeper.Dispatch.Call.{call_handler, call_handler_lem, seen}
use minesweeper.Dispatch.Params.{Parsed, parsed, refused, parse_params}
use minesweeper.Dispatch.Respond.{
  on_board, Resource, Authorization, client, denied, HttpRequest, Response, send_error, respond,
  call_with_board, call_on_board, call_resource, content_type_of, dispatch_stored, dispatch_parsed,
  dispatch,
}

call_on_board_lem :
    (h : Host) (handler : Handler) (s : Server) (id : ℕ) (b b' : Board) (params : Entries)
    (result : HandlerResult)
    → board_for_client id s ≡ some b
    → IsSendable (map params)
    → 13 + length (encode (map params)) < 2 ^ 62
    → handler b (received_entries params) ≡ ok (result, b')
    → IsAnswer (answer_of h result)
    → call_on_board h handler s (frame (encode (map params))) (client id)
      ≡ ok (seen h (answer_of h result), put_client_board id b' s)
unfolding call_on_board
call_on_board_lem h handler s id b b' params result found good small e holds =
    rw (found, call_handler_lem h handler b b' params result good small e holds) refl

-- A resource with a handler on a client's board, and a request of a client that has a board, whose
-- query is parsed to parameters that C++ can hold and that fit 16 MiB with their header. Where the
-- handler returns a result that C++ can hold and a new board: the client has the new board
-- afterwards, and the response is made of the result as the host sees it, with each uint64_t as the
-- int64_t of the same bits, or as the internal error of a handler that failed if the result does
-- not fit 1 MiB with its header.
pub dispatch-Answers :
    (h : Host) (resource : Resource) (request : HttpRequest) (s : Server) (handler : Handler)
    (id : ℕ) (b b' : Board) (params : Entries) (result : HandlerResult)
    → resource.handler ≡ on_board handler
    → request.authorization ≡ client id
    → board_for_client id s ≡ some b
    → parse_params h request.query resource.params ≡ parsed params
    → IsSendable (map params)
    → 13 + length (encode (map params)) ≤ max_capacity
    → handler b (received_entries params) ≡ ok (result, b')
    → IsAnswer (answer_of h result)
    → dispatch h resource request s
      ≡ ok (
        respond h (content_type_of request) (seen h (answer_of h result)),
        put_client_board id b' s,
      )
unfolding dispatch dispatch_parsed call_resource
dispatch-Answers h resource request s handler id b b' params result e₁ e₂ found given good small e
      holds =
    let fits : leb (13 + length (encode (map params))) max_capacity ≡ true = ground arith in
    let stored = store_growing_lem (map params) good in
    let called =
      call_on_board_lem h handler s id b b' params result found good (omega arith) e holds in
    rw (given, stored, fits, e₁, e₂, called) refl

-- The server that a call for a client leaves: as it was, or with another board for the client.
abbrev pub Plays : Handler → Authorization → Server → Server → Type 0
Plays handler authorization s s' =
    (id : ℕ) × (b : Board) × (b' : Board) × (authorization ≡ client id)
    × (board_for_client id s ≡ some b)
    × (s' ≡ put_client_board id b' s)
    × IsLeft handler b b'

abbrev Denied : Host → Answer → Type 0
Denied h answer =
    (message : Bytes) × ((answer ≡ unexpected h.unauthorized message)
      ⊎ (answer ≡ unexpected h.forbidden message))

call_with_board-Plays :
    (h : Host) (handler : Handler) (s : Server) (bs : Bytes) (id : ℕ) (o : Option Board)
    (answer : Answer) (s' : Server)
    → board_for_client id s ≡ o
    → call_with_board h handler s bs id o ≡ ok (answer, s')
    → ((s' ≡ s) × Denied h answer) ⊎ Plays handler (client id) s s'
unfolding call_with_board
call_with_board-Plays h handler s bs id none answer s' found e =
    inl (ground arith, (text "Client not found.", inr (ground arith)))
call_with_board-Plays h handler s bs id (some b) answer s' found e =
    let ((a, b'), called, rest) =
      >>=-eq-ok (call_handler h handler b bs) (λ (a, b'). ok (a, put_client_board id b' s)) e in
    inr
      (id, b, b', refl, found, ground (arith, rest), call_handler-IsLeft h handler b b' bs a called)

call_on_board-Plays :
    (h : Host) (handler : Handler) (s : Server) (bs : Bytes) (authorization : Authorization)
    (answer : Answer) (s' : Server)
    → call_on_board h handler s bs authorization ≡ ok (answer, s')
    → ((s' ≡ s) × Denied h answer) ⊎ Plays handler authorization s s'
unfolding call_on_board
call_on_board-Plays h handler s bs (denied message) answer s' e =
    inl (ground arith, (message, inl (ground arith)))
call_on_board-Plays h handler s bs (client id) answer s' e =
    call_with_board-Plays h handler s bs id (board_for_client id s) answer s' refl e

-- An error of the four codes.
abbrev pub IsError : Host → HttpRequest → Response → Type 0
IsError h request r =
    (code : ℤ) × (message : Bytes) × (r ≡ send_error code (content_type_of request) message)
    × ((code ≡ h.bad_request)
        ⊎ (code ≡ h.unauthorized)
        ⊎ (code ≡ h.forbidden)
        ⊎ (code ≡ h.internal_server_error))

respond-IsError :
    (h : Host) (request : HttpRequest) (answer : Answer)
    → Denied h answer
    → IsError h request (respond h (content_type_of request) answer)
unfolding respond
respond-IsError h request answer (message, inl e) =
    (h.unauthorized, message, rw e refl, inr (inl refl))
respond-IsError h request answer (message, inr e) =
    (h.forbidden, message, rw e refl, inr (inr (inl refl)))

module _ (h : Host) (resource : Resource) (request : HttpRequest) (s : Server) (handler : Handler)
    (registered : resource.handler ≡ on_board handler) where
  concluded :
      (answer : Answer) (s'' : Server) (r : Response) (s' : Server)
      → ◌≡◌ {A = Outcome (Response × Server)}
          (ok (respond h (content_type_of request) answer, s''))
          (ok (r, s'))
      → ((s'' ≡ s) × Denied h answer) ⊎ Plays handler request.authorization s s''
      → ((s' ≡ s) × IsError h request r) ⊎ Plays handler request.authorization s s'
  concluded answer s'' r s' e p =
      let same : s'' ≡ s' = cc in
      let given : respond h (content_type_of request) answer ≡ r = cc in
      subst (λ t. ((t ≡ s) × IsError h request r) ⊎ Plays handler request.authorization s t) same
        (elim p [
          | inl (kept, refusal) ↦
              inl (kept, subst (IsError h request) given (respond-IsError h request answer refusal))
          | inr played ↦ inr played
        ])

  dispatch_stored-Plays :
      (o : Option Bytes) (r : Response) (s' : Server)
      → dispatch_stored h resource request s o ≡ ok (r, s')
      → ((s' ≡ s) × IsError h request r) ⊎ Plays handler request.authorization s s'
  unfolding dispatch_stored call_resource
  dispatch_stored-Plays none r s' e = inl (
    ground arith,
    (
      h.internal_server_error,
      text "Value too large to serialize (> 16777216 bytes).",
      ground arith,
      inr (inr (inr refl)),
    ),
  )
  dispatch_stored-Plays (some bs) r s' e =
      let ((answer, s''), called, rest) =
        >>=-eq-ok (call_resource h resource.handler s bs request.authorization)
          (λ (answer, s''). ok (respond h (content_type_of request) answer, s'')) e in
      concluded answer s'' r s' rest (
        call_on_board-Plays h handler s bs request.authorization answer s'' (
          subst (λ k. call_resource h k s bs request.authorization ≡ ok (answer, s'')) registered
            called))

  dispatch_parsed-Plays :
      (o : Parsed) (r : Response) (s' : Server)
      → dispatch_parsed h resource request s o ≡ ok (r, s')
      → ((s' ≡ s) × IsError h request r) ⊎ Plays handler request.authorization s s'
  unfolding dispatch_parsed
  dispatch_parsed-Plays (refused message) r s' e =
      inl (ground arith, (h.bad_request, message, ground arith, inl refl))
  dispatch_parsed-Plays (parsed params) r s' e =
      let (o, stored, rest) =
        >>=-eq-ok (store_growing (map params)) (dispatch_stored h resource request s) e in
      dispatch_stored-Plays o r s' rest

  -- For a resource with a handler on a client's board, a dispatch that ends leaves the server as it
  -- was, and answers with an error of the code for a bad request, an unauthorized or forbidden one,
  -- or an internal error; or the request is authorized for a client that has a board, and this
  -- client's board is all that it changes, if at all, to what the handler returned.
  pub dispatch-Plays :
      (r : Response) (s' : Server)
      → dispatch h resource request s ≡ ok (r, s')
      → ((s' ≡ s) × IsError h request r) ⊎ Plays handler request.authorization s s'
  unfolding dispatch
  dispatch-Plays r s' e =
      dispatch_parsed-Plays (parse_params h request.query resource.params) r s' e
