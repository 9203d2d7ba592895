-- ===== src/Client/Joined.antt =====
-- The client's `main` from the start of its session on, with a server that makes a token for the
-- new client and looks for it in each later request, at the time when this request is sent.
use minesweeper.Prelude.{
  ℕ, ◌+◌, ◌*◌, ◌^◌, ◌≤◌, ◌<◌, ◌≡◌, refl, sym, ◌∙◌, subst, ap, fun_ext, true, leb, Option, none,
  some, List, [], ◌∷◌, ◌++◌, length, inl, inr, arith,
}
use minesweeper.Prelude.Int.{ℤ}
use minesweeper.Outcome.{Outcome, ok}
use minesweeper.Parameter.{
  Bytes, text, Entries, string, map, no_entries, entry, find, eq_bytes, emplace, contains, append,
  size,
}
use minesweeper.Json.{
  JsonLibrary, IsDocumented, null_object, has_plain, is_plain, is_ascii, to_json,
}
use minesweeper.Board.{Board}
use minesweeper.Handlers.{HandlerResult, body}
use minesweeper.Handlers.Game.{IsGame}
use minesweeper.Handlers.Sizes.{cost, encode-cost}
use minesweeper.Server.{Server, boards_count, board_for_client, lookup}
use minesweeper.Server.Clients.{HasFreshId, Joins}
use minesweeper.Wire.Encode.{IsSendable, encode}
use minesweeper.Wire.Decoded.{received_entries, received}
use minesweeper.Dispatch.Host.{Host, answer_of}
use minesweeper.Dispatch.Types.{ContentType, HttpMethod, to_content_type}
use minesweeper.Dispatch.HandlerWire.{IsAnswer, to_wire, received_answer}
use minesweeper.Dispatch.Adapter.{handler_output_capacity}
use minesweeper.Dispatch.Growing.{store_growing_lem, max_capacity}
use minesweeper.Dispatch.Call.{call_handler_lem}
use minesweeper.Dispatch.Params.{
  parsed, parse_params, parse_from, parse_raw, parse_missing, parse_value,
}
use minesweeper.Dispatch.Respond.{
  Authorization, client, content_type_of, dispatch, dispatch_parsed, dispatch_stored, call_resource,
  respond, add_properties,
}
use minesweeper.Dispatch.Session.{
  Sessions, token, session_new_handler, Asks, session_new_handler-Joins,
}
use minesweeper.Dispatch.Auth.{
  lifetime, Tokens, Faithful, bearer, authorize_client, create_jwt_for_client, signed-eq-token,
  authorize_client-create_jwt_for_client,
}
use minesweeper.Dispatch.Entrypoints.{session_specs, session_resource}
use minesweeper.Client.Api.{HttpParams, Http, reads, read_token, read_token_of, session_new}
use minesweeper.Client.Answered.{IsRestbed, http_of, answered, parsed_lem, has_key, good_lem}
use minesweeper.Client.Reading.{string_at-set_entries}
use minesweeper.Client.Understood.{body-fits}
use minesweeper.Client.Remote.{
  Routes, IsRouted, query_of, request_of, serve_routed, remote, board_of_client, board_of_client-eq,
  IsReady,
}
use minesweeper.Client.Asking.{IsPrinted}
use minesweeper.Client.Playing.{IsUntouched}
use minesweeper.Client.Game.{Key}
use minesweeper.Client.Main.{Exit, play_token, main}
use minesweeper.Client.Whole.{size-Asked}
use minesweeper.Client.Fulfilled.{remote-Contract}
use minesweeper.Client.Session.{Runs, play_session-Runs}
use minesweeper.Client.Clocked.{
  Clocked, tick, clocked, board_beside, IsReadyBeside, clocked-Contract, clocked-Sides,
}

-- The header that a token is sent in: none for an empty one.
unfoldable pub header_of : Option Bytes → Bytes
header_of none = []
header_of (some []) = []
header_of (some (c ∷ cs)) = bearer ++ (c ∷ cs)

abbrev pub board_text : Option Bytes → Bytes
board_text none = []
board_text (some raw) = raw

abbrev session_params : Option Bytes → HttpParams
session_params none = []
session_params (some raw) = (text "board_id", raw) ∷ []

abbrev session_entries : Bytes → Entries
session_entries raw = entry (text "board_id") (string raw) no_entries

session_parsed :
    (h : Host) (field : Option Bytes)
    → parse_params h (query_of (session_params field)) session_specs
      ≡ parsed (session_entries (board_text field))
unfolding parse_params parse_from parse_raw parse_missing parse_value eq_bytes emplace contains
    append
session_parsed h none = refl
session_parsed h (some []) = refl
session_parsed h (some (c ∷ cs)) = refl

session_json :
    (field : Option Bytes)
    → to_content_type (query_of (session_params field) (text "format") (text "json"))
      ≡ ContentType.json
unfolding to_content_type eq_bytes
session_json none = refl
session_json (some raw) = refl

named_board : (raw : Bytes) → find (text "board_id") (session_entries raw) ≡ some (string raw)
unfolding find eq_bytes
named_board raw = refl

session_entries-IsSendable :
    (raw : Bytes) → length raw ≤ 900 → IsSendable (map (session_entries raw))
unfolding contains eq_bytes size
session_entries-IsSendable raw short = (omega arith, (refl, tt), (omega arith, omega arith, tt))

module _ {Json : Type 0} (j : JsonLibrary Json) (h : Host) (route : Routes)
    (routed : IsRouted route) (sender : Authorization) (n : Sessions) where
  session_served :
      (field : Option Bytes) (s s' : Server) (result : HandlerResult)
      → length (board_text field) ≤ 900
      → session_new_handler n s (session_entries (board_text field)) ≡ ok (result, s')
      → IsAnswer (answer_of h result)
      → 13 + cost (to_wire (answer_of h result)) ≤ handler_output_capacity
      → serve_routed j h route sender (some (session_resource n)) (session_params field) s
        ≡ ok (answered j h result, s')
  unfolding serve_routed answered request_of session_resource dispatch dispatch_parsed
      dispatch_stored call_resource received_entries received content_type_of
  session_served field s s' result short served holds fits =
      let es = session_entries (board_text field) in
      let given : parse_params h (route.query (session_params field)) session_specs ≡ parsed es =
        rw (routed.brings (session_params field)) (session_parsed h field) in
      let json_ : to_content_type (route.query (session_params field) (text "format") (text "json"))
          ≡ ContentType.json =
        rw (routed.brings (session_params field)) (session_json field) in
      let good = session_entries-IsSendable (board_text field) short in
      let stored = store_growing_lem (map es) good in
      let room : leb (13 + length (encode (map es))) max_capacity ≡ true =
        ground (arith, encode-cost (map es), short) in
      let fit : leb (13 + length (encode (to_wire (answer_of h result)))) handler_output_capacity
          ≡ true =
        ground (arith, encode-cost (to_wire (answer_of h result)), fits) in
      let called =
        call_handler_lem h (session_new_handler n) s s' es result good
          (omega (arith, encode-cost (map es), short)) served holds in
      rw (given, stored, room, called, json_, fit) refl

  session_new-request :
      {W : Type 0} (to_string : ℤ → Bytes) (http : Http W) (field : Option Bytes) (w : W)
      → session_new j to_string http field w
        ≡ reads j (read_token j) (http.post (text "/session/new") (session_params field) w)
  unfolding session_new
  session_new-request to_string http none w = refl
  session_new-request to_string http (some raw) w = refl

abbrev token_entries : Bytes → Entries
token_entries t = entry (text "token") (string t) no_entries

module _ {Json : Type 0} (j : JsonLibrary Json) (doc : IsDocumented j) (h : Host)
    (restbed : IsRestbed h) where
  read_token_lem :
      (t : Bytes)
      → is_ascii t ≡ true
      → read_token j
          (answered j h (body (token_entries t)))
          (j.parse (answered j h (body (token_entries t))).content)
        ≡ ok (some t)
  unfolding read_token read_token_of answered http_of respond received_answer answer_of
      received_entries received add_properties emplace contains append has_plain is_plain is_ascii
      to_json
  read_token_lem t ascii =
      let es = token_entries t in
      let plain : has_plain es ≡ true = rw ascii refl in
      rw
        (
          good_lem j doc h restbed es,
          parsed_lem j doc es plain,
          has_key j doc es plain (text "token") (unfold eq_bytes in refl),
          string_at-set_entries j doc es j.null null_object (text "token") t
              (unfold eq_bytes in refl),
        )
        refl

  token-IsAnswer : (t : Bytes) → length t ≤ 900000 → IsAnswer (answer_of h (body (token_entries t)))
  unfolding answer_of contains eq_bytes size
  token-IsAnswer t short = (omega arith, (refl, tt), (omega arith, omega arith, tt))

-- HTTP with a token, and the server that authorizes its client at the time of each request: the
-- k-th of the clock's for the k-th request.
unfoldable pub remote_for :
    {Json : Type 0}
    → JsonLibrary Json
    → Host
    → Routes
    → Tokens
    → (ℕ → ℕ)
    → Option Bytes
    → Http (Clocked Server)
unfolding header_of
remote_for j h route tk clock sent =
    clocked (λ k. remote j h route (authorize_client tk (clock k) (header_of sent)))

module _ {Json : Type 0} (j : JsonLibrary Json) (doc : IsDocumented j) (h : Host)
    (restbed : IsRestbed h) (route : Routes) (routed : IsRouted route) (to_string : ℤ → Bytes)
    (printed : IsPrinted h to_string) (tk : Tokens) (faithful : Faithful tk) (clock : ℕ → ℕ)
    (within : (k : ℕ) → (clock 0 ≤ clock k) × (clock k < clock 0 + lifetime)) where
  token_known :
      (id : ℕ) (t : Bytes) (k : ℕ)
      → id < 2 ^ 31
      → create_jwt_for_client tk (clock 0) id ≡ token t
      → authorize_client tk (clock k) (bearer ++ t) ≡ client id
  token_known id t k small made =
      let during = within k in
      elim (authorize_client-create_jwt_for_client faithful (clock 0) (clock k) id t made during.0
        (λ e. absurd (omega (arith, during, e)))) [
          | inl known ↦ known.2
          | inr (inl large) ↦ absurd (omega (arith, large.1, small))
          | inr (inr late) ↦ absurd (omega (arith, late.0, during))
        ]

  remote_for-token :
      (id : ℕ) (t : Bytes)
      → id < 2 ^ 31
      → create_jwt_for_client tk (clock 0) id ≡ token t
      → remote_for j h route tk clock (some t) ≡ clocked (λ k. remote j h route (client id))
  unfolding remote_for create_jwt_for_client
  remote_for-token id [] small made =
      let signed =
        signed-eq-token faithful (tk.sign (clock 0) (clock 0 + lifetime) (tk.decimal id)) [] made in
      absurd (faithful.sign_nonempty (clock 0) (clock 0 + lifetime) (tk.decimal id) signed refl)
  remote_for-token id (c ∷ cs) small made =
      ap (λ (who : ℕ → Authorization). clocked (λ k. remote j h route (who k)))
        (fun_ext (λ k. token_known id (c ∷ cs) k small made))

  joined-IsReady :
      (id : ℕ) (s : Server) (b : Board)
      → board_for_client id s ≡ some b
      → IsGame b
      → b.width * b.height ≤ 10000
      → IsReady j h route id s × (board_of_client j h route id s ≡ b)
  joined-IsReady id s b own game small =
      let same = board_of_client-eq j h route id s b own in
      (
        record {
          own = own ∙ ap some (sym same);
          game = subst IsGame (sym same) game;
          small = rw same small;
        },
        same,
      )

  abbrev board_now : ℕ → Clocked Server → Board
  board_now id = board_beside (board_of_client j h route id) (IsReady j h route id)

  abbrev IsReadyNow : ℕ → Clocked Server → Type 0
  IsReadyNow id = IsReadyBeside (board_of_client j h route id) (IsReady j h route id)

  -- The client joined the server with a copy of a board, and plays on it behind its first request.
  pub record Enters (s : Server) (b : Board) (r : Outcome (Exit × Clocked Server)) : Type 0 where
    pub joined : Server
    pub joins : Joins s b (some s.next_client_id, joined)
    pub plays : Runs (board_now s.next_client_id) (IsReadyNow s.next_client_id) (1, joined) r

  module _ (n : Sessions)
      (makes : (id : ℕ) → n.create_jwt id ≡ create_jwt_for_client tk (clock 0) id)
      (found : route.find HttpMethod.post (text "/session/new") ≡ some (session_resource n)) where
    session_started :
        (field : Option Bytes) (s s' : Server) (t : Bytes)
        → length (board_text field) ≤ 900
        → session_new_handler n s (session_entries (board_text field))
          ≡ ok (body (token_entries t), s')
        → is_ascii t ≡ true
        → length t ≤ 900000
        → session_new j to_string (remote_for j h route tk clock none) field (0, s)
          ≡ ok (some t, (1, s'))
    unfolding remote_for remote clocked tick
    session_started field s s' t short served ascii brief =
        let sender = authorize_client tk (clock 0) (header_of none) in
        let asked =
          session_served j h route routed sender n field s s' (body (token_entries t)) short served
            (token-IsAnswer j doc h restbed t brief)
            (body-fits j doc h restbed (token_entries t) (omega (arith, brief))) in
        session_new-request j h route routed sender n to_string (remote_for j h route tk clock none)
          field (0, s)
        ∙ rw (found, asked, read_token_lem j doc h restbed t ascii) refl

    -- Where the libraries do what they document, restbed finds each resource at its path, each
    -- request of the session comes within 24 hours after the first one, before its token expires,
    -- and the number of the next client is free and below 2 ^ 31: if the client asks in at most 900
    -- bytes for a board that the server has, or for none in particular, the board is in play with
    -- positive sides, at most 10000 cells and nothing flagged or revealed, and the server can make
    -- the client a token of at most 900000 bytes of ASCII, then, whatever keys are pressed, the
    -- client's `main` joins as the next client with a copy of that board, the boards and the other
    -- clients staying as they are, and returns behind a game on this copy, without an exception or
    -- an access out of bounds; in the end its cursor is on the board, what it shows is the server's
    -- board unless a mine exploded, and it ends with a victory only if the board is won, and with a
    -- defeat only if it is not.
    pub main-Enters :
        (keys : List Key) (field : Option Bytes) (s : Server) (board_id : ℕ) (b : Board) (t : Bytes)
        → length (board_text field) ≤ 900
        → HasFreshId s
        → s.next_client_id < 2 ^ 31
        → 0 < boards_count s
        → Asks n s (board_text field) board_id
        → lookup board_id s.boards ≡ some b
        → IsGame b
        → b.width * b.height ≤ 10000
        → IsUntouched b
        → 1 ≤ b.width
        → 1 ≤ b.height
        → create_jwt_for_client tk (clock 0) s.next_client_id ≡ token t
        → is_ascii t ≡ true
        → length t ≤ 900000
        → Enters s b (main j to_string (remote_for j h route tk clock) field keys (0, s))
    unfolding main play_token
    main-Enters keys field s board_id b t short fresh young some_board asks there game small
          untouched wide high made ascii brief =
        let id = s.next_client_id in
        let (s', served, joins) =
          session_new_handler-Joins n s (session_entries (board_text field)) (board_text field)
            board_id b t (named_board (board_text field)) fresh some_board asks there
            (makes id ∙ made) in
        let (ready, same) = joined-IsReady id s' b joins.copy game small in
        let http = remote j h route (client id) in
        let contract = remote-Contract j doc h restbed route routed id to_string printed in
        let plays =
          play_session-Runs j to_string (clocked (λ k. http)) (board_now id) (IsReadyNow id)
            (clocked-Contract (board_of_client j h route id) (IsReady j h route id) j to_string http
              contract)
            (λ w there.
              clocked-Sides (board_of_client j h route id) (IsReady j h route id) j to_string http w
                (size-Asked j doc h restbed route routed id to_string printed w.1 there))
            keys (1, s') ready (rw same untouched) (rw same wide) (rw same high) in
        record {
          joined = s';
          joins = joins;
          plays = record {
            game = plays.game;
            world = plays.world;
            returns =
                rw
                  (
                    session_started field s s' t short served ascii brief,
                    remote_for-token id t young made,
                  )
                  plays.returns;
            following = plays.following;
          };
        }
