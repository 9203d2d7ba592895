-- ===== src/Client/Remote.antt =====
-- The server as the client reaches it: a request finds its resource, is dispatched for the client
-- whose token it brings, and is answered in JSON. Which resource restbed finds for a path, and which
-- query it reads from a URL, are a parameter.
use minesweeper.Prelude.{
  ℕ, suc, ◌+◌, ◌*◌, ◌≤◌, ◌≡◌, ◌≢◌, refl, sym, ◌∙◌, subst, ap, true, leb, if◌then◌else◌, Option,
  none, some, [], ◌∷◌, ◌++◌, length, arith,
}
use minesweeper.Outcome.{Outcome, ok, ◌>>=◌}
use minesweeper.Parameter.{Bytes, text, Entries, map, eq_bytes}
use minesweeper.Json.{JsonLibrary}
use minesweeper.Board.{Board}
use minesweeper.Handlers.{HandlerResult}
use minesweeper.Handlers.Game.{IsGame}
use minesweeper.Handlers.Serve.{Request, serve}
use minesweeper.Handlers.Sizes.{cost, encode-cost}
use minesweeper.Server.{Server, board_for_client, put_client_board}
use minesweeper.Server.Clients.{put_client_board-own}
use minesweeper.Wire.Encode.{encode, IsSendable}
use minesweeper.Wire.Decoded.{received_entries}
use minesweeper.Dispatch.Host.{Host, answer_of}
use minesweeper.Dispatch.Types.{ContentType, HttpMethod}
use minesweeper.Dispatch.HandlerWire.{IsAnswer, to_wire}
use minesweeper.Dispatch.Adapter.{handler_output_capacity}
use minesweeper.Dispatch.Params.{Query, parsed, parse_params}
use minesweeper.Dispatch.Respond.{
  Authorization, Resource, HttpRequest, client, dispatch, content_type_of,
}
use minesweeper.Dispatch.Served.{dispatch-Answers}
use minesweeper.Dispatch.Entrypoints.{entrypoint, path_of, method_of, params_of}
use minesweeper.Client.Api.{HttpResponse, HttpParams, Http}
use minesweeper.Client.Answered.{http_of, answered}

-- The first parameter of a name.
abbrev pub query_of : HttpParams → Query
query_of [] name default = default
query_of ((k, v) ∷ ps) name default = if eq_bytes k name then v else query_of ps name default

-- The resource of a path, the query that is read from a URL with some parameters, and the answer
-- where there is no resource.
pub record Routes : Type 0 where
  pub find : HttpMethod → Bytes → Option Resource
  pub query : HttpParams → Query
  pub not_found : HttpResponse

-- A request for which `authorize_client` says who sent it.
unfoldable pub request_of : Routes → Authorization → HttpParams → HttpRequest
request_of route sender params = record { query = route.query params; authorization = sender }

-- Each resource is found by its method and its path behind a slash, and the query is read as sent.
pub record IsRouted (route : Routes) : Type 0 where
  pub finds : (q : Request) → route.find (method_of q) (text "/" ++ path_of q) ≡ some (entrypoint q)
  pub brings : (params : HttpParams) → route.query params ≡ query_of params

abbrev board_or_empty : Option Board → Board
board_or_empty none = record { cells = []; width = 0; height = 0 }
board_or_empty (some b) = b

module _ {Json : Type 0} (j : JsonLibrary Json) (h : Host) (route : Routes)
    (sender : Authorization) where
  unfoldable pub serve_routed :
      Option Resource → HttpParams → Server → Outcome (HttpResponse × Server)
  unfolding request_of http_of dispatch
  serve_routed none params s = ok (route.not_found, s)
  serve_routed (some resource) params s = do
    (r, s') ← dispatch h resource (request_of route sender params) s
    ok (http_of j r, s')

  unfoldable pub remote : Http Server
  unfolding serve_routed
  remote = record {
    get = λ path params s. serve_routed (route.find HttpMethod.get path) params s;
    post = λ path params s. serve_routed (route.find HttpMethod.post path) params s;
  }

module _ {Json : Type 0} (j : JsonLibrary Json) (h : Host) (route : Routes) (id : ℕ) where
  unfoldable pub board_of_client : Server → Board
  board_of_client s = board_or_empty (board_for_client id s)

  -- The client has a board in play, small enough for every answer about it.
  pub record IsReady (s : Server) : Type 0 where
    pub own : board_for_client id s ≡ some (board_of_client s)
    pub game : IsGame (board_of_client s)
    pub small : (board_of_client s).width * (board_of_client s).height ≤ 10000

  pub board_of_client-eq :
      (s : Server) (b : Board) → board_for_client id s ≡ some b → board_of_client s ≡ b
  unfolding board_of_client
  board_of_client-eq s b e = rw e refl

  pub put-IsReady :
      (s : Server) (b : Board)
      → IsReady s
      → IsGame b
      → b.width * b.height ≤ 10000
      → IsReady (put_client_board id b s) × (board_of_client (put_client_board id b s) ≡ b)
  put-IsReady s b r g small =
      let other : id ≢ suc id = λ e. absurd (omega (arith, e)) in
      let written = (put_client_board-own s id (suc id) (board_of_client s) b r.own other).0 in
      let same = board_of_client-eq (put_client_board id b s) b written in
      (
        record {
          own = written ∙ ap some (sym same);
          game = subst IsGame (sym same) g;
          small = rw same small;
        },
        same,
      )

  -- A request of the table that its handler answers, with parameters that were parsed.
  pub serve_routed_lem :
      (q : Request) (params : HttpParams) (es : Entries) (s : Server) (b' : Board)
      (result : HandlerResult)
      → IsReady s
      → parse_params h (route.query params) (params_of q) ≡ parsed es
      → content_type_of (request_of route (client id) params) ≡ ContentType.json
      → IsSendable (map es)
      → cost (map es) ≤ 1000
      → serve q (board_of_client s) (received_entries es) ≡ ok (result, b')
      → IsAnswer (answer_of h result)
      → 13 + cost (to_wire (answer_of h result)) ≤ handler_output_capacity
      → serve_routed j h route (client id) (some (entrypoint q)) params s
        ≡ ok (answered j h result, put_client_board id b' s)
  unfolding serve_routed answered request_of entrypoint
  serve_routed_lem q params es s b' result r given json_ good few served holds fits =
      let spent = encode-cost (to_wire (answer_of h result)) in
      let fit : leb (13 + length (encode (to_wire (answer_of h result)))) handler_output_capacity
          ≡ true =
        ground (arith, spent, fits) in
      let done =
        dispatch-Answers h (entrypoint q) (request_of route (client id) params) s (serve q) id
          (board_of_client s) b' es result refl refl r.own given good
          (omega (arith, few, encode-cost (map es))) served holds in
      rw (done, json_, fit) refl
