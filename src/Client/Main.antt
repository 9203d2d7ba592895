-- ===== src/Client/Main.antt =====
-- `main` of src/client/client.cxx, behind the parsing of its arguments.
use minesweeper.Prelude.{ℕ, if◌then◌else◌, Option, none, some, List}
use minesweeper.Prelude.Int.{ℤ, pos}
use minesweeper.Outcome.{Outcome, ok, ◌>>=◌}
use minesweeper.Parameter.{Bytes}
use minesweeper.Json.{JsonLibrary}
use minesweeper.Client.Api.{Api, Http, board_size, client_api, session_new}
use minesweeper.Client.Game.{Key, Game, run_game}

-- How the client ends: by one of its two messages, or behind a game.
pub data Exit : Type 0 where
  no_client no_size : Exit
  played : Game → Exit

module _ {W : Type 0} where
  -- `main` behind the request for the size.
  unfoldable pub play_sized : Api W → List Key → Option (ℕ × ℕ) → W → Outcome (Exit × W)
  unfolding run_game
  play_sized api keys none w = ok (no_size, w)
  play_sized api keys (some (width, height)) w = do
    (bombs, w₁) ← api.board_bombs w
    (g, w₂) ← run_game api width height (if bombs.good then bombs.total else pos 0) keys w₁
    ok (played g, w₂)

  module _ {Json : Type 0} (j : JsonLibrary Json) (to_string : ℤ → Bytes) where
    -- `main` with a token, which every request brings.
    unfoldable pub play_session : Http W → List Key → W → Outcome (Exit × W)
    unfolding play_sized board_size client_api
    play_session http keys w = do
      (size, w₁) ← board_size j to_string http w
      play_sized (client_api j to_string http) keys size w₁

    unfoldable pub play_token :
        (Option Bytes → Http W) → List Key → Option Bytes → W → Outcome (Exit × W)
    unfolding play_session
    play_token http keys none w = ok (no_client, w)
    play_token http keys (some token) w = play_session (http (some token)) keys w

    -- HTTP by the token that `set_jwt_token` was called with.
    unfoldable pub main : (Option Bytes → Http W) → Option Bytes → List Key → W → Outcome (Exit × W)
    unfolding play_token session_new
    main http field_id keys w = do
      (token, w₁) ← session_new j to_string (http none) field_id w
      play_token http keys token w₁
