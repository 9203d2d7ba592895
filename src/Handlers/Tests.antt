-- ===== src/Handlers/Tests.antt =====
-- Requests on a small board.
use minesweeper.Prelude.{◌≡◌, refl, true, false, List, [], ◌∷◌, ◌∈◌, ◌↔◌, some, inl, inr, arith}
use minesweeper.Prelude.Int.{pos, to_int, ◌-ℤ◌, ◌+ℤ◌, to_uint64}
use minesweeper.Outcome.{ok}
use minesweeper.Parameter.{Entries, int64, string, entry, no_entries, text, find, eq_bytes, emplace}
use minesweeper.Board.{
  Coord, Board, has_coord, coord, cell, neighbors, is_valid_x, is_valid_y, coord_to_index,
  update_cell, keep_valid, count_cells,
}
use minesweeper.Board.Grid.{Inside, at}
use minesweeper.Board.Create.{
  new_board, create_fixed_board, put_mines, boom_at, compute_neighbor_counts, count_at, all_coords,
  rows_coords, row_coords,
}
use minesweeper.Handlers.{body, board_check_handler}
use minesweeper.Handlers.Game.{IsGame}
use minesweeper.Handlers.Answers.{Serves}
use minesweeper.Handlers.Serve.{Plays, begun, move, reveal, flag, serve, serve-Serves}
use minesweeper.Handlers.Win.{IsWon, board_check_handler-IsWon}
use minesweeper.Handlers.Play.{Plays-IsGame, Opens, reveal_at-Opens}

abbrev mines : List Coord
mines = (record { x = pos 3; y = pos 1 }) ∷ []

abbrev pub row_board : Board
row_board = record {
  cells =
      (record { boom = false; flag = false; revealed = false; count = pos 0 })
      ∷ (record { boom = false; flag = false; revealed = false; count = pos 1 })
      ∷ (record { boom = true; flag = false; revealed = false; count = pos 0 })
      ∷ [];
  width = 3;
  height = 1;
}

mines-Inside : (q : Coord) → q ∈ mines → Inside (new_board 3 1) q
unfolding new_board
mines-Inside q (inl e) = rw e (omega arith)
mines-Inside q (inr n) = absurd n

row_board-made : create_fixed_board 3 1 mines ≡ ok row_board
unfolding create_fixed_board put_mines boom_at new_board compute_neighbor_counts count_at
    count_cells all_coords rows_coords row_coords coord is_valid_x is_valid_y neighbors keep_valid
    cell update_cell coord_to_index to_int ◌-ℤ◌ ◌+ℤ◌ to_uint64
row_board-made = refl

pub row_board-IsGame : IsGame row_board
row_board-IsGame =
    (Plays-IsGame 3 1 mines row_board row_board (omega arith) (omega arith) mines-Inside
      row_board-made begun).0

abbrev mine_params : Entries
mine_params = entry (text "x") (int64 (pos 3)) (entry (text "y") (int64 (pos 1)) no_entries)

mine_params-x : find (text "x") mine_params ≡ some (int64 (pos 3))
unfolding find eq_bytes
mine_params-x = refl

mine_params-y : find (text "y") mine_params ≡ some (int64 (pos 1))
unfolding find eq_bytes
mine_params-y = refl

abbrev flag_served : Serves row_board (serve flag row_board mine_params)
flag_served =
    serve-Serves flag row_board mine_params (pos 3) (pos 1) row_board-IsGame mine_params-x
      mine_params-y

flag_played : Plays row_board flag_served.after
flag_played =
    move begun flag mine_params (pos 3) (pos 1) flag_served.result mine_params-x mine_params-y
      flag_served.returns

serve-Serves_example : Serves row_board (serve reveal row_board mine_params)
serve-Serves_example =
    serve-Serves reveal row_board mine_params (pos 3) (pos 1) row_board-IsGame mine_params-x
      mine_params-y

Plays-IsGame_example :
    IsGame flag_served.after
    × ((q : Coord) → Inside flag_served.after q → (at flag_served.after q).boom ≡ has_coord q mines)
Plays-IsGame_example =
    Plays-IsGame 3 1 mines row_board flag_served.after (omega arith) (omega arith) mines-Inside
      row_board-made flag_played

board_check_handler-IsWon_example :
    (board_check_handler row_board no_entries
      ≡ ok (body (emplace (text "status") (string (text "win")) no_entries), row_board))
    ↔ IsWon row_board
board_check_handler-IsWon_example =
    board_check_handler-IsWon row_board no_entries row_board-IsGame (omega arith)

first_free : (at row_board (record { x = pos 1; y = pos 1 })).flag ≡ false
unfolding at
first_free = refl

first_safe : (at row_board (record { x = pos 1; y = pos 1 })).boom ≡ false
unfolding at
first_safe = refl

reveal_at-Opens_example : Opens row_board (record { x = pos 1; y = pos 1 })
reveal_at-Opens_example =
    reveal_at-Opens row_board (record { x = pos 1; y = pos 1 }) row_board-IsGame (omega arith)
      first_free first_safe
