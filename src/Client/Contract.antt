-- ===== src/Client/Contract.antt =====
-- What the client's requests promise, in terms of the board of the server that they are about.
use minesweeper.Prelude.{◌≡◌, ◌↔◌, true, false, not, if◌then◌else◌, some, List, [], ◌∷◌, All}
use minesweeper.Prelude.Int.{pos, int_of_int64}
use minesweeper.Outcome.{Outcome, ok}
use minesweeper.Board.{Coord, Board, has_coord, set_revealed, toggle_flag, bombs_count, bombs_total}
use minesweeper.Board.Grid.{Inside, at, put}
use minesweeper.Board.Reveal.Safe.{mines_around}
use minesweeper.Handlers.{fully_revealed}
use minesweeper.Handlers.Game.{IsGame, Follows}
use minesweeper.Handlers.Win.{IsWon}
use minesweeper.Client.Api.{RevealedCell, RevealResult, FlagResult, Api}

abbrev pub place : RevealedCell → Coord
place c = record { x = c.x; y = c.y }

abbrev pub places : List RevealedCell → List Coord
places [] = []
places (c ∷ cs) = place c ∷ places cs

-- The cells of an answer are those that were revealed, each with the mines around it.
pub record Opens (b after : Board) (cells : List RevealedCell) : Type 0 where
  pub follows : Follows b after
  pub known : All (λ c. Inside b (place c) × (c.count ≡ pos (mines_around b (place c)))) cells
  pub shown :
      (q : Coord)
      → Inside b q
      → at after q ≡ (if has_coord q (places cells) then set_revealed (at b q) else at b q)

-- An answer with cells, and the board behind it.
pub data RevealAnswer (b after : Board) (r : RevealResult) : Type 0 where
  refused : r.good ≡ false → after ≡ b → RevealAnswer b after r
  exploded :
      r.good ≡ true
      → r.boom ≡ true
      → Follows b after
      → All (λ c. Inside b (place c)) r.cells
      → RevealAnswer b after r
  opened : r.good ≡ true → r.boom ≡ false → Opens b after r.cells → RevealAnswer b after r

pub data FlagAnswer (b after : Board) (c : Coord) (r : FlagResult) : Type 0 where
  refused : r.good ≡ false → after ≡ b → FlagAnswer b after c r
  toggled :
      r.good ≡ true
      → r.flagged ≡ not (at b c).flag
      → (at b c).revealed ≡ false
      → after ≡ put b c (toggle_flag (at b c))
      → Follows b after
      → FlagAnswer b after c r

-- A request that is answered, about the board of the world before and after it.
pub record Asked {W : Type 0} (board_of : W → Board) (IsReady : W → Type 0) {A : Type 0} (w : W)
    (P : Board → A → Type 0) (r : Outcome (A × W)) : Type 0 where
  pub result : A
  pub after : W
  pub returns : r ≡ ok (result, after)
  pub ready : IsReady after
  pub holds : P (board_of after) result

-- Requests about the board of a world, which are answered as long as the board is in play.
pub record Contract {W : Type 0} (api : Api W) (board_of : W → Board) (IsReady : W → Type 0)
    : Type 0 where
  pub game : (w : W) → IsReady w → IsGame (board_of w)
  pub cell_reveal :
      (c : Coord) (w : W)
      → IsReady w
      → Inside (board_of w) c
      → Asked board_of IsReady w (RevealAnswer (board_of w)) (api.cell_reveal c.x c.y w)
  pub cell_check :
      (c : Coord) (w : W)
      → IsReady w
      → Inside (board_of w) c
      → Asked board_of IsReady w (RevealAnswer (board_of w)) (api.cell_check c.x c.y w)
  pub cell_flag :
      (c : Coord) (w : W)
      → IsReady w
      → Inside (board_of w) c
      → Asked board_of IsReady w
          (λ after. FlagAnswer (board_of w) after c)
          (api.cell_flag c.x c.y w)
  pub board_bombs :
      (w : W)
      → IsReady w
      → Asked board_of IsReady w
          (λ after r.
            (after ≡ board_of w)
            × (r ≡ record {
              good = true;
              left = int_of_int64 (bombs_count after);
              total = int_of_int64 (bombs_total after);
            }))
          (api.board_bombs w)
  pub board_fully_revealed :
      (w : W)
      → IsReady w
      → Asked board_of IsReady w
          (λ after r. (after ≡ board_of w) × (r ≡ some (fully_revealed after)))
          (api.board_fully_revealed w)
  pub board_check :
      (w : W)
      → IsReady w
      → Asked board_of IsReady w
          (λ after r. (after ≡ board_of w) × (r.good ≡ true → (r.win ≡ true) ↔ IsWon after))
          (api.board_check w)
