-- ===== src/Client/Asking.antt =====
-- The client's requests to the server, from a call of the client to what it reads of the answer.
use minesweeper.Prelude.{ℕ, ◌*◌, ◌≤◌, ◌≡◌, refl, sym, ◌∙◌, subst, ap, Option, some, [], ◌∷◌, arith}
use minesweeper.Prelude.Int.{ℤ, pos, negsuc}
use minesweeper.Outcome.{Outcome, ok}
use minesweeper.Parameter.{
  Bytes, text, Entries, int64, map, no_entries, entry, eq_bytes, emplace, contains, append, size,
  find,
}
use minesweeper.Json.{JsonLibrary, IsDocumented}
use minesweeper.Board.{Coord, Board}
use minesweeper.Board.Grid.{Inside}
use minesweeper.Handlers.{HandlerResult, int_param}
use minesweeper.Handlers.Game.{Follows}
use minesweeper.Handlers.Serve.{Request, serve, int_param_lem}
use minesweeper.Handlers.Replies.{Replies}
use minesweeper.Handlers.Sizes.{cost}
use minesweeper.Server.{Server, put_client_board}
use minesweeper.Wire.Encode.{IsSendable}
use minesweeper.Wire.Decoded.{received_entries, received}
use minesweeper.Dispatch.Host.{Host}
use minesweeper.Dispatch.Types.{ContentType, to_content_type}
use minesweeper.Dispatch.HandlerWire.{IsInt, int_of_int64-IsInt}
use minesweeper.Dispatch.Params.{parse_params, parse_from, parse_raw, parse_value, parsed}
use minesweeper.Dispatch.Respond.{client, content_type_of}
use minesweeper.Dispatch.Entrypoints.{entrypoint, params_of, xy_specs}
use minesweeper.Client.Api.{HttpParams, HttpResponse, reads, xy_params}
use minesweeper.Client.Answered.{IsRestbed, answered}
use minesweeper.Client.Contract.{Asked}
use minesweeper.Client.Understood.{Understands, coord-IsInt}
use minesweeper.Client.Remote.{
  Routes, IsRouted, query_of, request_of, serve_routed, serve_routed_lem, board_of_client, IsReady,
  put-IsReady,
}

-- `std::to_string` of an `int`, which the server parses back.
abbrev pub IsPrinted : Host → (ℤ → Bytes) → Type 0
IsPrinted h to_string =
    (z : ℤ) → IsInt z → (c : ℕ) × (cs : Bytes) × (to_string z ≡ c ∷ cs) × (h.num (c ∷ cs) ≡ some z)

abbrev xy_entries : ℤ → ℤ → Entries
xy_entries x y = entry (text "x") (int64 x) (entry (text "y") (int64 y) no_entries)

xy_parsed :
    (h : Host) (to_string : ℤ → Bytes) (x y : ℤ)
    → IsPrinted h to_string
    → IsInt x
    → IsInt y
    → parse_params h (query_of (xy_params to_string x y)) xy_specs ≡ parsed (xy_entries x y)
unfolding parse_params parse_from parse_raw parse_value eq_bytes emplace contains append
xy_parsed h to_string x y printed ix iy =
    let (c, cs, px, nx) = printed x ix in
    let (d, ds, py, ny) = printed y iy in rw (px, nx, py, ny) refl

int-IsSendable : (z : ℤ) → IsInt z → IsSendable (int64 z)
int-IsSendable (pos n) h = omega arith
int-IsSendable (negsuc n) h = omega arith

xy_entries-IsSendable : (x y : ℤ) → IsInt x → IsInt y → IsSendable (map (xy_entries x y))
unfolding contains eq_bytes size
xy_entries-IsSendable x y ix iy = (
  omega arith,
  (refl, (refl, tt)),
  (omega arith, int-IsSendable x ix, (omega arith, int-IsSendable y iy, tt)),
)

module _ {Json : Type 0} (j : JsonLibrary Json) (doc : IsDocumented j) (h : Host)
    (restbed : IsRestbed h) (route : Routes) (routed : IsRouted route) (id : ℕ)
    (to_string : ℤ → Bytes) (printed : IsPrinted h to_string) where
  -- A request whose handler's answer is understood.
  pub ask :
      {A : Type 0} (q : Request) (params : HttpParams) (es : Entries) (s : Server) (after : Board)
      (result : HandlerResult) (read : HttpResponse → Option Json → Outcome A)
      (P : Board → A → Type 0)
      → IsReady j h route id s
      → parse_params h (query_of params) (params_of q) ≡ parsed es
      → content_type_of (request_of route (client id) params) ≡ ContentType.json
      → IsSendable (map es)
      → cost (map es) ≤ 1000
      → serve q (board_of_client j h route id s) (received_entries es) ≡ ok (result, after)
      → Follows (board_of_client j h route id s) after
      → Understands j doc h result
          (P after)
          (read (answered j h result) (j.parse (answered j h result).content))
      → Asked
          (board_of_client j h route id)
          (IsReady j h route id)
          s
          P
          (reads j read (serve_routed j h route (client id) (some (entrypoint q)) params s))
  ask q params es s after result read P ready given json good few served follows u =
      let answer =
        serve_routed_lem j h route id q params es s after result ready
          (rw (routed.brings params) given) json good few served u.sendable u.fits in
      let area : after.width * after.height ≤ 10000 =
        rw (follows.same_width, follows.same_height) ready.small in
      let put_ = put-IsReady j h route id s after ready follows.game area in
      record {
        result = u.meaning;
        after = put_client_board id after s;
        returns = rw (answer, u.reads) refl;
        ready = put_.0;
        holds = subst (λ b. P b u.meaning) (sym put_.1) u.right;
      }

  abbrev pub the_board : Server → Board
  the_board = board_of_client j h route id

  xy_json :
      (x y : ℤ)
      → content_type_of (request_of route (client id) (xy_params to_string x y)) ≡ ContentType.json
  unfolding content_type_of request_of to_content_type eq_bytes
  xy_json x y = rw (routed.brings (xy_params to_string x y)) refl

  pub no_json : content_type_of (request_of route (client id) []) ≡ ContentType.json
  unfolding content_type_of request_of to_content_type eq_bytes
  no_json = rw (routed.brings []) refl

  -- A request about a coordinate of the board.
  pub ask_at :
      {A : Type 0} (q : Request) (c : Coord) (s : Server)
      (read : HttpResponse → Option Json → Outcome A) (R : Board → HandlerResult → Type 0)
      (P : Board → A → Type 0)
      → params_of q ≡ xy_specs
      → (ready : IsReady j h route id s) → Inside (the_board s) c
      → ((es : Entries)
          → int_param (text "x") es ≡ ok c.x
          → int_param (text "y") es ≡ ok c.y
          → Replies R (serve q (the_board s) es))
      → ((after : Board) (result : HandlerResult)
          → R after result
          → Follows (the_board s) after
            × Understands j doc h result
                (P after)
                (read (answered j h result) (j.parse (answered j h result).content)))
      → Asked the_board (IsReady j h route id) s P (
          reads j read (
            serve_routed j h route
              (client id)
              (some (entrypoint q))
              (xy_params to_string c.x c.y)
              s))
  unfolding received_entries received find eq_bytes
  ask_at q c s read R P specs ready i replied understood =
      let ints = coord-IsInt (the_board s) c ready.game.sized i in
      let es = xy_entries c.x c.y in
      let reply =
        replied es (int_param_lem (text "x") es c.x refl ∙ ap ok (int_of_int64-IsInt c.x ints.0))
          (int_param_lem (text "y") es c.y refl ∙ ap ok (int_of_int64-IsInt c.y ints.1)) in
      let (follows, u) = understood reply.after reply.result reply.reply in
      ask q (xy_params to_string c.x c.y) es s reply.after reply.result read P ready
        (rw specs (xy_parsed h to_string c.x c.y printed ints.0 ints.1)) (xy_json c.x c.y)
        (xy_entries-IsSendable c.x c.y ints.0 ints.1) (omega arith) reply.returns follows u
