-- ===== src/Client/Fulfilled.antt =====
-- The server fulfils the contract of the client's requests.
use minesweeper.Prelude.{ℕ, ◌≡◌, ◌↔◌, refl, true, Option, some, [], arith}
use minesweeper.Prelude.Int.{ℤ, int_of_int64}
use minesweeper.Outcome.{Outcome, ok}
use minesweeper.Parameter.{Bytes, no_entries, size}
use minesweeper.Json.{JsonLibrary, IsDocumented}
use minesweeper.Board.{Coord, Board, bombs_count, bombs_total}
use minesweeper.Board.Grid.{Inside}
use minesweeper.Handlers.{
  HandlerResult, fully_revealed, board_bombs_handler, board_fully_revealed_handler,
}
use minesweeper.Handlers.Game.{Follows-refl}
use minesweeper.Handlers.Serve.{Request, serve}
use minesweeper.Handlers.Replies.{Reveal, Flag}
use minesweeper.Handlers.Win.{IsWon}
use minesweeper.Server.{Server}
use minesweeper.Wire.Decoded.{received_entries}
use minesweeper.Dispatch.Host.{Host}
use minesweeper.Dispatch.Params.{parse_params, parse_from}
use minesweeper.Dispatch.Respond.{client}
use minesweeper.Dispatch.Entrypoints.{entrypoint, params_of}
use minesweeper.Client.Api.{
  HttpResponse, reads, read_reveal, xy_params, client_api, read_bombs, read_fully_revealed,
  read_check, read_flag,
}
use minesweeper.Client.Answered.{IsRestbed, answered}
use minesweeper.Client.Contract.{Asked, Contract, RevealAnswer, FlagAnswer}
use minesweeper.Client.Understood.{Understands, Reveal-Understands, Flag-Understands}
use minesweeper.Client.Remote.{Routes, IsRouted, serve_routed, remote, board_of_client, IsReady}
use minesweeper.Client.Asking.{IsPrinted, ask, ask_at, no_json}
use minesweeper.Handlers.Located.{
  Reveal-Follows, Flag-Follows, reveal-Replies, check_cell-Replies, flag-Replies,
}
use minesweeper.Client.Judged.{bombs-Understands, fully-Understands, check-Checked}

module _ {Json : Type 0} (j : JsonLibrary Json) (doc : IsDocumented j) (h : Host)
    (restbed : IsRestbed h) (route : Routes) (routed : IsRouted route) (id : ℕ)
    (to_string : ℤ → Bytes) (printed : IsPrinted h to_string) where
  abbrev board_now : Server → Board
  board_now = board_of_client j h route id

  -- A request without parameters.
  pub ask_plain :
      {A : Type 0} (q : Request) (s : Server) (result : HandlerResult)
      (read : HttpResponse → Option Json → Outcome A) (P : Board → A → Type 0)
      → params_of q ≡ []
      → IsReady j h route id s
      → serve q (board_now s) no_entries ≡ ok (result, board_now s)
      → Understands j doc h result
          (P (board_now s))
          (read (answered j h result) (j.parse (answered j h result).content))
      → Asked board_now
          (IsReady j h route id)
          s
          P
          (reads j read (serve_routed j h route (client id) (some (entrypoint q)) [] s))
  unfolding parse_params parse_from received_entries size
  ask_plain q s result read P none_ ready served u =
      ask j doc h restbed route routed id to_string printed q [] no_entries s (board_now s) result
        read P ready (rw none_ refl) (no_json j doc h restbed route routed id to_string printed)
        (omega arith, tt, tt) (omega arith) served (Follows-refl (board_now s) ready.game) u

  cell_reveal-Asked :
      (c : Coord) (s : Server)
      → IsReady j h route id s
      → Inside (board_now s) c
      → Asked board_now (IsReady j h route id) s (RevealAnswer (board_now s)) (
          reads j (read_reveal j) (
            serve_routed j h route
              (client id)
              (some (entrypoint Request.reveal))
              (xy_params to_string c.x c.y)
              s))
  cell_reveal-Asked c s ready i =
      ask_at j doc h restbed route routed id to_string printed Request.reveal c s (read_reveal j)
        (Reveal (board_now s)) (RevealAnswer (board_now s)) refl ready i
        (λ es ex ey. reveal-Replies (board_now s) c es ready.game i ex ey)
        (λ after result r. (
          Reveal-Follows (board_now s) after result ready.game r,
          Reveal-Understands j doc h restbed (board_now s) after result ready.game ready.small r,
        ))

  cell_check-Asked :
      (c : Coord) (s : Server)
      → IsReady j h route id s
      → Inside (board_now s) c
      → Asked board_now (IsReady j h route id) s (RevealAnswer (board_now s)) (
          reads j (read_reveal j) (
            serve_routed j h route
              (client id)
              (some (entrypoint Request.check_cell))
              (xy_params to_string c.x c.y)
              s))
  cell_check-Asked c s ready i =
      ask_at j doc h restbed route routed id to_string printed Request.check_cell c s
        (read_reveal j) (Reveal (board_now s)) (RevealAnswer (board_now s)) refl ready i
        (λ es ex ey. check_cell-Replies (board_now s) c es ready.game i ex ey)
        (λ after result r. (
          Reveal-Follows (board_now s) after result ready.game r,
          Reveal-Understands j doc h restbed (board_now s) after result ready.game ready.small r,
        ))

  cell_flag-Asked :
      (c : Coord) (s : Server)
      → IsReady j h route id s
      → Inside (board_now s) c
      → Asked board_now
          (IsReady j h route id)
          s
          (λ after. FlagAnswer (board_now s) after c)
          (reads j (read_flag j) (
            serve_routed j h route
              (client id)
              (some (entrypoint Request.flag))
              (xy_params to_string c.x c.y)
              s))
  cell_flag-Asked c s ready i =
      ask_at j doc h restbed route routed id to_string printed Request.flag c s (read_flag j)
        (λ after. Flag (board_now s) after c) (λ after. FlagAnswer (board_now s) after c) refl ready
        i (λ es ex ey. flag-Replies (board_now s) c es ready.game i ex ey)
        (λ after result r. (
          Flag-Follows (board_now s) after c result ready.game r,
          Flag-Understands j doc h restbed (board_now s) after c result ready.game i r,
        ))

  -- Where the libraries do what they document and restbed finds each resource at its path: the
  -- client's six requests for the game, sent to the server of a client with a board in play of at
  -- most 10000 cells, fulfil the contract that the game asks of them: they return, leave such a
  -- board, and say of it what the contract states.
  pub remote-Contract :
      Contract
        (client_api j to_string (remote j h route (client id)))
        board_now
        (IsReady j h route id)
  unfolding client_api remote serve board_bombs_handler board_fully_revealed_handler
  remote-Contract = record {
    game = λ s ready. ready.game;
    cell_reveal = λ c s ready i. rw (routed.finds Request.reveal) (cell_reveal-Asked c s ready i);
    cell_check = λ c s ready i. rw (routed.finds Request.check_cell) (cell_check-Asked c s ready i);
    cell_flag = λ c s ready i. rw (routed.finds Request.flag) (cell_flag-Asked c s ready i);
    board_bombs = λ s ready. rw (routed.finds Request.bombs) (
        ask_plain Request.bombs s _ (read_bombs j)
          (λ after r.
            (after ≡ board_now s)
            × (r ≡ record {
              good = true;
              left = int_of_int64 (bombs_count after);
              total = int_of_int64 (bombs_total after);
            }))
          refl ready refl (bombs-Understands j doc h restbed (board_now s) ready.game ready.small));
    board_fully_revealed = λ s ready. rw (routed.finds Request.is_fully_revealed) (
        ask_plain Request.is_fully_revealed s _ (read_fully_revealed j)
          (λ after r. (after ≡ board_now s) × (r ≡ some (fully_revealed after))) refl ready refl
          (fully-Understands j doc h restbed (board_now s)));
    board_check = λ s ready.
        (let checked = check-Checked j doc h restbed (board_now s) ready.game ready.small in
          rw (routed.finds Request.check) (
            ask_plain Request.check s checked.result (read_check j)
              (λ after r. (after ≡ board_now s) × (r.good ≡ true → (r.win ≡ true) ↔ IsWon after))
              refl ready (checked.returns no_entries) checked.understood));
  }
