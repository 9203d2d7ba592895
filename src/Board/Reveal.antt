-- ===== src/Board/Reveal.antt =====
-- `board_t::reveal` and `board_t::reveal_cells` of src/server/api.cxx.
pub mod Region
pub mod Invariant
pub mod Loop
pub mod Exact
pub mod Safe
use minesweeper.Prelude.{ℕ, zero, suc, ◌+◌, Bool, false, ◌||◌, if◌then◌else◌, List, [], ◌∷◌, ◌++◌}
use minesweeper.Prelude.Int.{ℤ, pos, eq_ℤ}
use minesweeper.Outcome.{Outcome, ok, throws, ◌>>=◌, stuck}
use minesweeper.Board.{
  has_coord, Coord, Board, set_revealed, cell, update_cell, neighbors, neighbor_bombs_count,
  hidden_cells,
}

-- `reveal_result_t`
pub record RevealResult : Type 0 where
  pub coord : Coord
  pub count : ℤ

-- The count, and the board with the cell revealed.
unfoldable pub reveal : Board → Coord → Outcome (ℤ × Board)
reveal b c = do b' ← update_cell b c set_revealed; n ← neighbor_bombs_count b' c; ok (n, b')

-- The variables of `reveal_cells` inside its loops. The queue's front is the list's head; of the
-- set `visited` only membership is ever asked.
pub record Front : Type 0 where
  pub queue : List Coord
  pub visited : List Coord
  pub revealed : List RevealResult
  pub board : Board

-- Reveals a neighbour that is neither flagged nor revealed; one with count 0 joins the queue.
unfoldable pub open_neighbor : Coord → Front → Outcome Front
open_neighbor n s = do
  k ← cell s.board n
  if k.flag || k.revealed then ok s else do
    (count, b') ← reveal s.board n
    let found = s.revealed ++ ((record { coord = n; count = count }) ∷ [])
    ok (
        if eq_ℤ count (pos 0)
        then record s { queue = s.queue ++ (n ∷ []); revealed = found; board = b' }
        else record s { revealed = found; board = b' })

-- The body of the loop over the neighbours.
unfoldable pub visit_neighbor : Coord → Front → Outcome Front
visit_neighbor n s =
    if has_coord n s.visited then ok s else open_neighbor n (record s { visited = n ∷ s.visited })

unfoldable pub visit_neighbors : List Coord → Front → Outcome Front
visit_neighbors [] s = ok s
visit_neighbors (n ∷ ns) s = visit_neighbor n s >>= visit_neighbors ns

-- The `while` loop over the queue.
unfoldable pub reveal_loop :
    ℕ → List Coord → List Coord → List RevealResult → Board → Outcome (List RevealResult × Board)
reveal_loop fuel [] visited revealed b = ok (revealed, b)
reveal_loop zero (q ∷ queue) visited revealed b = throws stuck
reveal_loop (suc fuel) (q ∷ queue) visited revealed b =
    let start : Front = record {
      queue = queue;
      visited = visited;
      revealed = revealed;
      board = b;
    } in
    visit_neighbors (neighbors b q) start >>= λ s.
    reveal_loop fuel s.queue s.visited s.revealed s.board

-- Each coordinate that joins the queue was revealed just before, so a round for each cell that is
-- still unrevealed, and one for the start, are enough.
unfoldable pub reveal_cells : Board → Coord → Outcome (List RevealResult × Board)
reveal_cells b c = do
  k ← cell b c
  if k.flag || k.revealed then ok ([], b) else do
    (count, b') ← reveal b c
    let found = (record { coord = c; count = count }) ∷ []
    if eq_ℤ count (pos 0)
        then reveal_loop (hidden_cells b' + 1) (c ∷ []) (c ∷ []) found b'
        else ok (found, b')
