-- ===== src/Dispatch/Respond.antt =====
-- `dispatch`, `send` and `send_error` of src/server/api.cxx. A response is its status code, its
-- content type and its parameters, before they are put into words.
use minesweeper.Prelude.{ℕ, List, Option, none, some}
use minesweeper.Prelude.Int.{ℤ}
use minesweeper.Outcome.{Outcome, ok, ◌>>=◌}
use minesweeper.Parameter.{Bytes, text, Entries, string, map, no_entries, entry, emplace}
use minesweeper.Board.{Board}
use minesweeper.Handlers.{Handler}
use minesweeper.Server.{Server, board_for_client, put_client_board}
use minesweeper.Dispatch.Host.{Host, Answer, body, unexpected}
use minesweeper.Dispatch.Types.{ContentType, to_content_type, HttpMethod}
use minesweeper.Dispatch.ResourceWire.{ParamSpec}
use minesweeper.Dispatch.Growing.{store_growing}
use minesweeper.Dispatch.Adapter.{HandlerOn}
use minesweeper.Dispatch.Call.{call_handler}
use minesweeper.Dispatch.Params.{Query, Parsed, parsed, refused, parse_params}

-- A handler by the overload of `add_resource` that it is registered with.
pub data ResourceHandler : Type 0 where
  simple : HandlerOn Server → ResourceHandler
  on_board : Handler → ResourceHandler

pub record Resource : Type 0 where
  pub path : Bytes
  pub method : HttpMethod
  pub handler : ResourceHandler
  pub params : List ParamSpec

-- What `authorize_client` says of the session: the client's number, or a message.
pub data Authorization : Type 0 where
  client : ℕ → Authorization
  denied : Bytes → Authorization

pub record HttpRequest : Type 0 where
  pub query : Query
  pub authorization : Authorization

pub record Response : Type 0 where
  pub code : ℤ
  pub content_type : ContentType
  pub parameters : Entries

unfoldable pub send_error : ℤ → ContentType → Bytes → Response
send_error code content_type message = record {
  code = code;
  content_type = content_type;
  parameters = entry (text "error") (string message) no_entries;
}

-- The loop of `add_property`.
unfoldable pub add_properties : Entries → Entries → Entries
add_properties no_entries parameters = parameters
add_properties (entry key value es) parameters = add_properties es (emplace key value parameters)

-- The end of `dispatch`.
unfoldable pub respond : Host → ContentType → Answer → Response
unfolding send_error add_properties
respond h content_type (body es) = record {
  code = h.accepted;
  content_type = content_type;
  parameters = add_properties es no_entries;
}
respond h content_type (unexpected code message) = send_error code content_type message

-- The handler on the board that was found for the client.
unfoldable pub call_with_board :
    Host → Handler → Server → Bytes → ℕ → Option Board → Outcome (Answer × Server)
call_with_board h handler s params_bytes id none =
    ok (unexpected h.forbidden (text "Client not found."), s)
call_with_board h handler s params_bytes id (some b) =
    call_handler h handler b params_bytes >>= λ (answer, b'). ok (answer, put_client_board id b' s)

-- The branch of the `visit` for a handler that works on a client's board.
unfoldable pub call_on_board :
    Host → Handler → Server → Bytes → Authorization → Outcome (Answer × Server)
unfolding call_with_board
call_on_board h handler s params_bytes (denied message) = ok (unexpected h.unauthorized message, s)
call_on_board h handler s params_bytes (client id) =
    call_with_board h handler s params_bytes id (board_for_client id s)

unfoldable pub call_resource :
    Host → ResourceHandler → Server → Bytes → Authorization → Outcome (Answer × Server)
unfolding call_on_board
call_resource h (simple handler) s params_bytes authorization =
    call_handler h handler s params_bytes
call_resource h (on_board handler) s params_bytes authorization =
    call_on_board h handler s params_bytes authorization

unfoldable pub content_type_of : HttpRequest → ContentType
content_type_of request = to_content_type (request.query (text "format") (text "json"))

-- `dispatch` behind the storing of the parameters.
unfoldable pub dispatch_stored :
    Host → Resource → HttpRequest → Server → Option Bytes → Outcome (Response × Server)
unfolding send_error respond call_resource
dispatch_stored h resource request s none = ok (
  send_error h.internal_server_error (content_type_of request)
      (text "Value too large to serialize (> 16777216 bytes)."),
  s,
)
dispatch_stored h resource request s (some params_bytes) = do
  (answer, s') ← call_resource h resource.handler s params_bytes request.authorization
  ok (respond h (content_type_of request) answer, s')

-- `dispatch` behind the parsing of the parameters.
unfoldable pub dispatch_parsed :
    Host → Resource → HttpRequest → Server → Parsed → Outcome (Response × Server)
unfolding send_error dispatch_stored
dispatch_parsed h resource request s (refused message) =
    ok (send_error h.bad_request (content_type_of request) message, s)
dispatch_parsed h resource request s (parsed params) =
    store_growing (map params) >>= dispatch_stored h resource request s

unfoldable pub dispatch : Host → Resource → HttpRequest → Server → Outcome (Response × Server)
unfolding dispatch_parsed
dispatch h resource request s =
    dispatch_parsed h resource request s (parse_params h request.query resource.params)
