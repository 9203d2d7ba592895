-- ===== src/Client/Whole.antt =====
-- The client and the server together.
use minesweeper.Prelude.{ℕ, ◌^◌, ◌≤◌, ◌<◌, ◌≡◌, refl, some, List, arith}
use minesweeper.Prelude.Int.{ℤ}
use minesweeper.Outcome.{Outcome, ok}
use minesweeper.Parameter.{
  Bytes, text, Entries, no_entries, eq_bytes, emplace, contains, append, size, uint64,
}
use minesweeper.Json.{JsonLibrary, IsDocumented}
use minesweeper.Board.{Board}
use minesweeper.Handlers.{body, board_size_handler}
use minesweeper.Handlers.Game.{IsGame}
use minesweeper.Handlers.Serve.{Request, serve}
use minesweeper.Server.{Server}
use minesweeper.Dispatch.Host.{Host, answer_of}
use minesweeper.Dispatch.Respond.{client}
use minesweeper.Client.Api.{board_size, read_size}
use minesweeper.Client.Answered.{IsRestbed, answered}
use minesweeper.Client.Contract.{Asked}
use minesweeper.Client.Understood.{Understands, body-fits}
use minesweeper.Client.Remote.{Routes, IsRouted, remote, board_of_client, IsReady}
use minesweeper.Client.Asking.{IsPrinted}
use minesweeper.Client.Fulfilled.{remote-Contract, ask_plain}
use minesweeper.Client.Counted.{read_size-sides}
use minesweeper.Client.Following.{IsFollowing}
use minesweeper.Client.Playing.{IsUntouched}
use minesweeper.Client.Game.{Key, Game}
use minesweeper.Client.Session.{play_session-Runs}
use minesweeper.Client.Main.{Exit, played, play_session}

module _ {Json : Type 0} (j : JsonLibrary Json) (doc : IsDocumented j) (h : Host)
    (restbed : IsRestbed h) (route : Routes) (routed : IsRouted route) (id : ℕ)
    (to_string : ℤ → Bytes) (printed : IsPrinted h to_string) where
  -- The client's `main` with the token of a client of the server.
  pub record Plays (s : Server) (r : Outcome (Exit × Server)) : Type 0 where
    pub game : Game
    pub server : Server
    pub returns : r ≡ ok (played game, server)
    pub following :
        IsFollowing
          (board_of_client j h route id)
          (IsReady j h route id)
          (board_of_client j h route id s)
          game
          server

  abbrev sides_answer : Board → Entries
  sides_answer b =
      emplace (text "height") (uint64 b.height) (emplace (text "width") (uint64 b.width) no_entries)

  sides-Understands :
      (b : Board)
      → IsGame b
      → Understands j doc h
          (body (sides_answer b))
          (λ r. (b ≡ b) × (r ≡ some (b.width, b.height)))
          (read_size j
            (answered j h (body (sides_answer b)))
            (j.parse (answered j h (body (sides_answer b))).content))
  unfolding answer_of emplace contains append eq_bytes size
  sides-Understands b g =
      let wide : b.width < 2 ^ 63 = omega (arith, g.sized.width_fits) in
      let high : b.height < 2 ^ 63 = omega (arith, g.sized.height_fits) in
      record {
        meaning = some (b.width, b.height);
        reads = read_size-sides j doc h restbed b.width b.height wide high;
        right = (refl, refl);
        sendable = (
          omega arith,
          (refl, (refl, tt)),
          (omega arith, omega arith, (omega arith, omega arith, tt)),
        );
        fits = body-fits j doc h restbed (sides_answer b) (omega arith);
      }

  pub size-Asked :
      (s : Server)
      → IsReady j h route id s
      → Asked
          (board_of_client j h route id)
          (IsReady j h route id)
          s
          (λ after r.
            (after ≡ board_of_client j h route id s) × (r ≡ some (after.width, after.height)))
          (board_size j to_string (remote j h route (client id)) s)
  unfolding board_size remote serve board_size_handler
  size-Asked s ready = rw (routed.finds Request.size) (
      ask_plain j doc h restbed route routed id to_string printed Request.size s _ (read_size j)
        (λ after r.
          (after ≡ board_of_client j h route id s) × (r ≡ some (after.width, after.height)))
        refl ready refl (sides-Understands (board_of_client j h route id s) ready.game))

  -- Where the libraries do what they document, restbed finds each resource at its path, and the
  -- client with the token has a board in play with positive sides and at most 10000 cells, none of
  -- them flagged or revealed: whatever keys are pressed, the client's `main`, from the token on,
  -- returns behind a game, without an exception or an access out of bounds; its cursor is on the
  -- board; unless a mine exploded, it shows exactly which cells of the server's board are flagged
  -- and revealed, these with the number of mines around them, and how many mines are left; and it
  -- ends with a victory only if the board is won, and with a defeat only if it is not.
  pub play_session-Plays :
      (keys : List Key) (s : Server)
      → IsReady j h route id s
      → IsUntouched (board_of_client j h route id s)
      → 1 ≤ (board_of_client j h route id s).width
      → 1 ≤ (board_of_client j h route id s).height
      → Plays s (play_session j to_string (remote j h route (client id)) keys s)
  play_session-Plays keys s ready fresh wide high =
      let run =
        play_session-Runs j to_string (remote j h route (client id)) (board_of_client j h route id)
          (IsReady j h route id) (remote-Contract j doc h restbed route routed id to_string printed)
          size-Asked keys s ready fresh wide high in
      record {
        game = run.game;
        server = run.world;
        returns = run.returns;
        following = run.following;
      }
