-- ===== src/Client/Session.antt =====
-- The client's `main`, from its token on, over any requests that fulfil the contract.
use minesweeper.Prelude.{ℕ, ◌≤◌, ◌≡◌, refl, sym, subst, ap, ◌∙◌, if◌then◌else◌, Option, some, List}
use minesweeper.Prelude.Int.{ℤ, pos}
use minesweeper.Outcome.{Outcome, ok}
use minesweeper.Parameter.{Bytes}
use minesweeper.Json.{JsonLibrary}
use minesweeper.Board.{Board}
use minesweeper.Client.Api.{Http, client_api, board_size}
use minesweeper.Client.Contract.{Asked, Contract}
use minesweeper.Client.Following.{IsFollowing}
use minesweeper.Client.Playing.{IsUntouched, run_game-Moves}
use minesweeper.Client.Game.{Key, Game}
use minesweeper.Client.Main.{Exit, played, play_sized, play_session}

module _ {W : Type 0} (board_of : W → Board) (IsReady : W → Type 0) where
  -- A game that was played from a world on.
  pub record Runs (w : W) (r : Outcome (Exit × W)) : Type 0 where
    pub game : Game
    pub world : W
    pub returns : r ≡ ok (played game, world)
    pub following : IsFollowing board_of IsReady (board_of w) game world

  -- The sides of the board, which are asked for first.
  abbrev pub Sides : W → Board → Option (ℕ × ℕ) → Type 0
  Sides w after r = (after ≡ board_of w) × (r ≡ some (after.width, after.height))

module _ {Json W : Type 0} (j : JsonLibrary Json) (to_string : ℤ → Bytes) (http : Http W)
    (board_of : W → Board) (IsReady : W → Type 0)
    (contract : Contract (client_api j to_string http) board_of IsReady)
    (sized : (w : W)
      → IsReady w
      → Asked board_of IsReady w (Sides board_of IsReady w) (board_size j to_string http w)) where
  play_sized-Runs :
      (keys : List Key) (w : W) (b : Board)
      → IsReady w
      → board_of w ≡ b
      → IsUntouched b
      → 1 ≤ b.width
      → 1 ≤ b.height
      → Runs board_of IsReady w
          (play_sized (client_api j to_string http) keys (some (b.width, b.height)) w)
  unfolding play_sized
  play_sized-Runs keys w b ready same fresh wide high =
      let bombs = contract.board_bombs w ready in
      let run =
        run_game-Moves (client_api j to_string http) board_of IsReady contract b keys
          (if (bombs.result).good then (bombs.result).total else pos 0) bombs.after bombs.ready
          (bombs.holds.0 ∙ same) fresh wide high in
      record {
        game = run.game;
        world = run.world;
        returns = rw (bombs.returns, run.returns) refl;
        following =
            subst (λ d. IsFollowing board_of IsReady d run.game run.world) (sym same) run.following;
      }

  pub play_session-Runs :
      (keys : List Key) (w : W)
      → IsReady w
      → IsUntouched (board_of w)
      → 1 ≤ (board_of w).width
      → 1 ≤ (board_of w).height
      → Runs board_of IsReady w (play_session j to_string http keys w)
  unfolding play_session
  play_session-Runs keys w ready fresh wide high =
      let asked = sized w ready in
      let same : board_of asked.after ≡ board_of w = asked.holds.0 in
      let run = play_sized-Runs keys asked.after (board_of w) asked.ready same fresh wide high in
      let sides : asked.result ≡ some ((board_of w).width, (board_of w).height) =
        asked.holds.1 ∙ ap (λ (d : Board). some (d.width, d.height)) same in
      record {
        game = run.game;
        world = run.world;
        returns = rw (asked.returns, sides) run.returns;
        following =
            subst (λ d. IsFollowing board_of IsReady d run.game run.world) same run.following;
      }
