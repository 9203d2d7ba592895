-- ===== src/Dispatch/Tests.antt =====
-- Requests to a small server, and the theorems on them at concrete inputs.
mod Wires
pub mod Sessions
use minesweeper.Dispatch.Clients.{AllPlay, dispatch-AllPlay}
use minesweeper.Handlers.Serve.{Request, serve}
use minesweeper.Handlers.Tests.{row_board, row_board-IsGame}
use minesweeper.Dispatch.Register.{register, register_lem, resource_of}
use minesweeper.Dispatch.Served.{dispatch-Answers, dispatch-Plays, IsError, Plays}
use minesweeper.Dispatch.Call.{call_handler, call_handler_lem, seen}
use minesweeper.Wire.Stored.{frame}
use minesweeper.Wire.Writer.{width}
use minesweeper.Wire.Numbers.{digits}
use minesweeper.Server.Clients.{HasFreshId, Joins}
use minesweeper.Dispatch.Typed.{Parses, parse_params-Provides}
use minesweeper.Dispatch.Params.{Query, parsed, parse_params}
use minesweeper.Dispatch.Types.{ParamType, HttpMethod, int_of_method, int_of_type}
use minesweeper.Dispatch.ResourceWire.{ParamSpec, Spec, received_param}
use minesweeper.Dispatch.Growing.{store_growing, store_growing_lem, framed_within, max_capacity}
use minesweeper.Wire.Decoded.{received, received_entries}
use minesweeper.Wire.Encode.{IsSendable, encode, encode_string, encode_integer}
use minesweeper.Handlers.{HandlerResult, board_size_handler}
use minesweeper.Server.{
  Server, board_for_client, put_client_board, lookup, add_new_client, add_client, board_of,
}
use minesweeper.Dispatch.HandlerWire
use minesweeper.Dispatch.ResourceWire
use minesweeper.Prelude.{
  ◌+◌, ◌^◌, ◌≤◌, ◌<◌, ◌≡◌, ◌≢◌, ◌⊎◌, refl, arith, true, false, ltb, leb, if◌then◌else◌, Option,
  none, some, [], ◌∷◌, ◌++◌, length, drop, All, subst, ◌-◌,
}
use minesweeper.Prelude.Int.{pos}
use minesweeper.Outcome.{ok}
use minesweeper.Parameter.{
  Bytes, text, Parameter, Entries, string, int64, uint64, boolean, map, no_entries, entry, find,
  eq_bytes, contains, emplace, append, size, items_size,
}
use minesweeper.Dispatch.Host.{Host, Answer, unexpected, answer_of}
use minesweeper.Dispatch.Auth.{
  Tokens, Faithful, authorize_client, create_jwt_for_client, authorize_client-create_jwt_for_client,
  bearer,
}
use minesweeper.Dispatch.Respond.{
  client, denied, Resource, HttpRequest, on_board, dispatch, respond, content_type_of,
}

abbrev pub plain_host : Host
plain_host = record {
  bad_request = pos 400;
  unauthorized = pos 401;
  forbidden = pos 403;
  internal_server_error = pos 500;
  accepted = pos 200;
  num = λ raw. elim raw [ [] ↦ none | d ∷ ds ↦ some (pos (d - b'0')) ];
  what = λ failure. text "out of range";
  describe = λ problem. text "wire error";
}

abbrev column : ParamSpec
column = record {
  name = text "x";
  type = ParamType.integer;
  required = true;
  default_value = int64 (pos 0);
}

abbrev verbose : ParamSpec
verbose = record {
  name = text "verbose";
  type = ParamType.boolean;
  required = false;
  default_value = boolean false;
}

abbrev third_column : Query
third_column name default = if eq_bytes name (text "x") then text "3" else default

abbrev two_params : Entries
two_params = entry (text "x") (int64 (pos 3)) (entry (text "verbose") (boolean false) no_entries)

third_column-parsed :
    parse_params plain_host third_column (column ∷ verbose ∷ []) ≡ parsed two_params
unfolding parse_params eq_bytes emplace append contains
third_column-parsed = refl

parse_params-Provides_example :
    Parses plain_host third_column
      (column ∷ verbose ∷ [])
      (parse_params plain_host third_column (column ∷ verbose ∷ []))
unfolding eq_bytes
parse_params-Provides_example =
    parse_params-Provides plain_host third_column (column ∷ verbose ∷ [])
      ((tt, (pos 0, refl)), ((tt, (false, refl)), tt)) ((refl, tt), (tt, tt))

abbrev pub one_client : Server
one_client = record {
  boards = (1, row_board) ∷ [];
  clients = (7, record { board_id = 1; board = row_board }) ∷ [];
  next_client_id = 8;
}

abbrev size_resource : Resource
size_resource = record {
  path = text "/board/size";
  method = HttpMethod.get;
  handler = on_board board_size_handler;
  params = column ∷ verbose ∷ [];
}

abbrev size_request : HttpRequest
size_request = record { query = third_column; authorization = client 7 }

abbrev size_entries : Entries
size_entries = entry (text "width") (uint64 3) (entry (text "height") (uint64 1) no_entries)

two_params-IsSendable : IsSendable (map two_params)
unfolding contains eq_bytes size
two_params-IsSendable =
    (omega arith, (refl, (refl, tt)), (omega arith, omega arith, (omega arith, tt, tt)))

size_entries-IsSendable : IsSendable (map size_entries)
unfolding contains eq_bytes size
size_entries-IsSendable =
    (omega arith, (refl, (refl, tt)), (omega arith, omega arith, (omega arith, omega arith, tt)))

row_board_size :
    board_size_handler row_board (received_entries two_params)
    ≡ ok (HandlerResult.body size_entries, row_board)
unfolding board_size_handler emplace contains append eq_bytes
row_board_size = refl

two_params_size : 13 + length (encode (map two_params)) ≤ max_capacity
unfolding encode encode_string encode_integer digits width size
two_params_size = omega arith

call_handler_lem_example :
    call_handler plain_host board_size_handler row_board (frame (encode (map two_params)))
    ≡ ok (seen plain_host (answer_of plain_host (HandlerResult.body size_entries)), row_board)
unfolding answer_of
call_handler_lem_example =
    call_handler_lem plain_host board_size_handler row_board row_board two_params
      (HandlerResult.body size_entries) two_params-IsSendable (omega (arith, two_params_size))
      row_board_size size_entries-IsSendable

client_board : board_for_client 7 one_client ≡ some row_board
unfolding board_for_client lookup
client_board = refl

size_answered :
    dispatch plain_host size_resource size_request one_client
    ≡ ok (
      respond plain_host
          (content_type_of size_request)
          (seen plain_host (answer_of plain_host (HandlerResult.body size_entries))),
      put_client_board 7 row_board one_client,
    )
unfolding answer_of
size_answered =
    dispatch-Answers plain_host size_resource size_request one_client board_size_handler 7 row_board
      row_board two_params (HandlerResult.body size_entries) refl refl client_board
      third_column-parsed two_params-IsSendable two_params_size row_board_size
      size_entries-IsSendable

dispatch-Answers_example :
    dispatch plain_host size_resource size_request one_client
    ≡ ok (
      respond plain_host
          (content_type_of size_request)
          (seen plain_host (answer_of plain_host (HandlerResult.body size_entries))),
      put_client_board 7 row_board one_client,
    )
unfolding answer_of
dispatch-Answers_example =
    dispatch-Answers plain_host size_resource size_request one_client board_size_handler 7 row_board
      row_board two_params (HandlerResult.body size_entries) refl refl client_board
      third_column-parsed two_params-IsSendable two_params_size row_board_size
      size_entries-IsSendable

dispatch-Plays_example :
    ((put_client_board 7 row_board one_client ≡ one_client)
      × IsError plain_host size_request (
          respond plain_host
            (content_type_of size_request)
            (seen plain_host (answer_of plain_host (HandlerResult.body size_entries)))))
    ⊎ Plays board_size_handler (client 7) one_client (put_client_board 7 row_board one_client)
dispatch-Plays_example =
    dispatch-Plays plain_host size_resource size_request one_client board_size_handler refl
      (respond plain_host (content_type_of size_request)
        (seen plain_host (answer_of plain_host (HandlerResult.body size_entries))))
      (put_client_board 7 row_board one_client) size_answered

one_client-AllPlay : AllPlay one_client
one_client-AllPlay = (row_board-IsGame, tt)

serve_size : size_resource.handler ≡ on_board (serve Request.size)
unfolding serve
serve_size = refl

dispatch-AllPlay_example : AllPlay (put_client_board 7 row_board one_client)
dispatch-AllPlay_example =
    dispatch-AllPlay plain_host size_resource size_request one_client
      (put_client_board 7 row_board one_client) Request.size
      (respond plain_host (content_type_of size_request)
        (seen plain_host (answer_of plain_host (HandlerResult.body size_entries))))
      serve_size one_client-AllPlay size_answered
