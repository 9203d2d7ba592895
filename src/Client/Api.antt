-- ===== src/Client/Api.antt =====
-- `client_api_t` of src/client/api.cxx: the requests of the client, and what it reads from their
-- responses. HTTP and `std::to_string` are parameters. An exception of the JSON library ends the
-- client.
use minesweeper.Prelude.{
  ℕ, Bool, true, false, not, ◌&&◌, if◌then◌else◌, Option, none, some, List, [], ◌∷◌,
}
use minesweeper.Prelude.Int.{ℤ, pos}
use minesweeper.Outcome.{Outcome, ok, ◌>>=◌, or_throw, json_error}
use minesweeper.Parameter.{Bytes, text, eq_bytes}
use minesweeper.Json.{JsonLibrary}

pub record RevealedCell : Type 0 where
  pub x : ℤ
  pub y : ℤ
  pub count : ℤ

-- `reveal_result_t`, whose `ok` is the flag of its name.
pub record RevealResult : Type 0 where
  pub good : Bool
  pub boom : Bool
  pub cells : List RevealedCell
  pub error : Bytes

pub record FlagResult : Type 0 where
  pub good : Bool
  pub flagged : Bool
  pub error : Bytes

pub record BombsResult : Type 0 where
  pub good : Bool
  pub left : ℤ
  pub total : ℤ

pub record CheckResult : Type 0 where
  pub good : Bool
  pub win : Bool
  pub error : Bytes

-- `http_response_t`
pub record HttpResponse : Type 0 where
  pub good : Bool
  pub status : ℤ
  pub content : Bytes

abbrev pub HttpParams : Type 0
HttpParams = List (Bytes × Bytes)

-- `http_client_t::get` and `post`, and the world that they change.
pub record Http (W : Type 0) : Type 0 where
  pub get : Bytes → HttpParams → W → Outcome (HttpResponse × W)
  pub post : Bytes → HttpParams → W → Outcome (HttpResponse × W)

abbrev pub no_cells : RevealResult
no_cells = record { good = false; boom = false; cells = []; error = [] }

abbrev pub no_flag : FlagResult
no_flag = record { good = false; flagged = false; error = [] }

abbrev pub no_bombs : BombsResult
no_bombs = record { good = false; left = pos 0; total = pos 0 }

abbrev pub no_check : CheckResult
no_check = record { good = false; win = false; error = [] }

module _ {Json : Type 0} (j : JsonLibrary Json) where
  -- `json.at(key).get<...>()`
  unfoldable pub int_at : Json → Bytes → Outcome ℤ
  int_at json key = do v ← or_throw json_error (j.at json key); or_throw json_error (j.get_int v)

  unfoldable pub size_at : Json → Bytes → Outcome ℕ
  size_at json key = do v ← or_throw json_error (j.at json key); or_throw json_error (j.get_size v)

  unfoldable pub bool_at : Json → Bytes → Outcome Bool
  bool_at json key = do v ← or_throw json_error (j.at json key); or_throw json_error (j.get_bool v)

  unfoldable pub string_at : Json → Bytes → Outcome Bytes
  string_at json key = do
    v ← or_throw json_error (j.at json key)
    or_throw json_error (j.get_string v)

  -- The message of a response that is not ok.
  unfoldable pub error_of : HttpResponse → Option Json → Outcome Bytes
  unfolding string_at
  error_of response none = ok response.content
  error_of response (some json) =
      if j.contains json (text "error") then string_at json (text "error") else ok response.content

  -- The body of the loop over the cells.
  unfoldable pub read_cell : Bool → Json → Outcome RevealedCell
  unfolding int_at
  read_cell boom c = do
    x ← int_at c (text "x")
    y ← int_at c (text "y")
    count ← if not boom && j.contains c (text "count") then int_at c (text "count") else ok (pos 0)
    ok (record { x = x; y = y; count = count })

  unfoldable pub read_cells : Bool → List Json → Outcome (List RevealedCell)
  unfolding read_cell
  read_cells boom [] = ok []
  read_cells boom (c ∷ cs) = do
    cell ← read_cell boom c
    cells ← read_cells boom cs
    ok (cell ∷ cells)

  unfoldable pub read_result : Json → Outcome RevealResult
  unfolding string_at read_cells
  read_result json = do
    status ← string_at json (text "status")
    let boom = eq_bytes status (text "boom")
    cells ←
        if j.contains json (text "cells")
        then (or_throw json_error (j.at json (text "cells")) >>= λ v.
            read_cells boom (j.elements v))
        else ok []
    ok (record { good = true; boom = boom; cells = cells; error = [] })

  -- What `cell_reveal` and `cell_check` do with a response, of which `found` was parsed.
  unfoldable pub read_reveal_of : Option Json → Outcome (RevealResult)
  unfolding read_result
  read_reveal_of none = ok (record no_cells { error = text "malformed response" })
  read_reveal_of (some json) =
      if not (j.contains json (text "status"))
      then ok (record no_cells { error = text "malformed response" })
      else read_result json

  unfoldable pub read_reveal : HttpResponse → Option Json → Outcome (RevealResult)
  unfolding read_reveal_of error_of
  read_reveal response found =
      if not response.good
      then (do error ← error_of response found; ok (record no_cells { error = error }))
      else read_reveal_of found

  unfoldable pub read_flag_of : Option Json → Outcome (FlagResult)
  unfolding bool_at
  read_flag_of none = ok (record no_flag { error = text "malformed response" })
  read_flag_of (some json) =
      if not (j.contains json (text "flagged"))
      then ok (record no_flag { error = text "malformed response" })
      else (do
        flagged ← bool_at json (text "flagged")
        ok (record { good = true; flagged = flagged; error = [] }))

  unfoldable pub read_flag : HttpResponse → Option Json → Outcome (FlagResult)
  unfolding read_flag_of error_of
  read_flag response found =
      if not response.good
      then (do error ← error_of response found; ok (record no_flag { error = error }))
      else read_flag_of found

  unfoldable pub read_check_of : Option Json → Outcome (CheckResult)
  unfolding string_at
  read_check_of none = ok (record no_check { error = text "malformed response" })
  read_check_of (some json) =
      if not (j.contains json (text "status"))
      then ok (record no_check { error = text "malformed response" })
      else (do
        status ← string_at json (text "status")
        ok (record { good = true; win = eq_bytes status (text "win"); error = [] }))

  unfoldable pub read_check : HttpResponse → Option Json → Outcome (CheckResult)
  unfolding read_check_of error_of
  read_check response found =
      if not response.good
      then (do error ← error_of response found; ok (record no_check { error = error }))
      else read_check_of found

  unfoldable pub read_bombs_of : Option Json → Outcome (BombsResult)
  unfolding int_at
  read_bombs_of none = ok no_bombs
  read_bombs_of (some json) =
      if not (j.contains json (text "bombs") && j.contains json (text "total"))
      then ok no_bombs
      else (do
        left ← int_at json (text "bombs")
        total ← int_at json (text "total")
        ok (record { good = true; left = left; total = total }))

  unfoldable pub read_bombs : HttpResponse → Option Json → Outcome (BombsResult)
  unfolding read_bombs_of
  read_bombs response found = if not response.good then ok no_bombs else read_bombs_of found

  unfoldable pub read_fully_revealed_of : Option Json → Outcome (Option Bool)
  unfolding bool_at
  read_fully_revealed_of none = ok none
  read_fully_revealed_of (some json) =
      if not (j.contains json (text "fully_revealed"))
      then ok none
      else (do b ← bool_at json (text "fully_revealed"); ok (some b))

  unfoldable pub read_fully_revealed : HttpResponse → Option Json → Outcome (Option Bool)
  unfolding read_fully_revealed_of
  read_fully_revealed response found =
      if not response.good then ok none else read_fully_revealed_of found

  unfoldable pub read_size_of : Option Json → Outcome (Option (ℕ × ℕ))
  unfolding size_at
  read_size_of none = ok none
  read_size_of (some json) =
      if not (j.contains json (text "width") && j.contains json (text "height"))
      then ok none
      else (do
        width ← size_at json (text "width")
        height ← size_at json (text "height")
        ok (some (width, height)))

  unfoldable pub read_size : HttpResponse → Option Json → Outcome (Option (ℕ × ℕ))
  unfolding read_size_of
  read_size response found = if not response.good then ok none else read_size_of found

  unfoldable pub read_token_of : Option Json → Outcome (Option Bytes)
  unfolding string_at
  read_token_of none = ok none
  read_token_of (some json) =
      if not (j.contains json (text "token"))
      then ok none
      else (do t ← string_at json (text "token"); ok (some t))

  unfoldable pub read_token : HttpResponse → Option Json → Outcome (Option Bytes)
  unfolding read_token_of
  read_token response found = if not response.good then ok none else read_token_of found

-- A response is read, and the world is as the request left it.
abbrev pub reads :
    {A W Json : Type 0}
    → JsonLibrary Json
    → (HttpResponse → Option Json → Outcome A)
    → Outcome (HttpResponse × W)
    → Outcome (A × W)
reads j read answered = do
  (response, w) ← answered
  result ← read response (j.parse response.content)
  ok (result, w)

-- The requests of the game.
pub record Api (W : Type 0) : Type 0 where
  pub board_bombs : W → Outcome (BombsResult × W)
  pub board_fully_revealed : W → Outcome (Option Bool × W)
  pub board_check : W → Outcome (CheckResult × W)
  pub cell_reveal : ℤ → ℤ → W → Outcome (RevealResult × W)
  pub cell_check : ℤ → ℤ → W → Outcome (RevealResult × W)
  pub cell_flag : ℤ → ℤ → W → Outcome (FlagResult × W)

abbrev pub xy_params : (ℤ → Bytes) → ℤ → ℤ → HttpParams
xy_params to_string x y = (text "x", to_string x) ∷ (text "y", to_string y) ∷ []

module _ {Json W : Type 0} (j : JsonLibrary Json) (to_string : ℤ → Bytes) (http : Http W) where
  unfoldable pub board_size : W → Outcome (Option (ℕ × ℕ) × W)
  unfolding read_size
  board_size w = reads j (read_size j) (http.get (text "/board/size") [] w)

  unfoldable pub client_api : Api W
  unfolding read_bombs read_fully_revealed read_check read_reveal read_flag
  client_api = record {
    board_bombs = λ w. reads j (read_bombs j) (http.get (text "/board/bombs") [] w);
    board_fully_revealed =
        λ w. reads j (read_fully_revealed j) (http.get (text "/board/fully_revealed") [] w);
    board_check = λ w. reads j (read_check j) (http.post (text "/board/check") [] w);
    cell_reveal = λ x y w.
        reads j (read_reveal j) (http.post (text "/cell/reveal") (xy_params to_string x y) w);
    cell_check = λ x y w.
        reads j (read_reveal j) (http.post (text "/cell/check") (xy_params to_string x y) w);
    cell_flag =
        λ x y w. reads j (read_flag j) (http.post (text "/cell/flag") (xy_params to_string x y) w);
  }

  unfoldable pub session_new : Option Bytes → W → Outcome (Option Bytes × W)
  unfolding read_token
  session_new none w = reads j (read_token j) (http.post (text "/session/new") [] w)
  session_new (some board_id) w =
      reads j (read_token j) (http.post (text "/session/new") ((text "board_id", board_id) ∷ []) w)
