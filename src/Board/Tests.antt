-- ===== src/Board/Tests.antt =====
-- Small boards: runs of the board's code, and the theorems at concrete boards.
use minesweeper.Prelude.{
  ℕ, zero, suc, ◌/◌, subst, ◌≡◌, refl, true, false, List, [], ◌∷◌, ◌∈◌, inl, inr, some, get_elem?,
  arith,
}
use minesweeper.Prelude.Int.{ℤ, pos, to_int, ◌-ℤ◌, ◌+ℤ◌, to_uint64}
use minesweeper.Outcome.{ok, throws, stuck}
use minesweeper.Board.{
  Coord, Cell, Board, coord, cell, neighbors, mine_cells, is_valid_x, is_valid_y, coord_to_index,
  update_cell, keep_valid, count_cells, hidden_cells, neighbor_bombs_count,
}
use minesweeper.Board.Grid.{Inside, IsSized, at}
use minesweeper.Board.Neighbors.{IsAround, neighbors-IsAround}
use minesweeper.Board.Reveal.{
  RevealResult, reveal_cells, reveal, reveal_loop, visit_neighbors, visit_neighbor, open_neighbor,
}
use minesweeper.Board.Reveal.Exact.{Reveals, reveal_cells-Reveals}
use minesweeper.Board.Reveal.Region.{IsFresh}
use minesweeper.Board.Reveal.Safe.{IsCounted, mines_around, reveal_cells_safe}
use minesweeper.Board.Create.{
  new_board, all_coords, compute_neighbor_counts, create_fixed_board, create_board, pick_free,
  put_random, boom_at, count_at, rows_coords, row_coords,
}
use minesweeper.Board.Create.Complete.{Computes, compute_neighbor_counts-Computes}
use minesweeper.Board.Create.Fixed.{Creates, create_fixed_board-Creates}
use minesweeper.Board.Create.Random.{create_board-Counted, pick_free_ends, pick_free_full}

abbrev mine : ℤ → Cell
mine n = record { boom = true; flag = false; revealed = false; count = n }

abbrev free : ℤ → Cell
free n = record { boom = false; flag = false; revealed = false; count = n }

abbrev flagged : ℤ → Cell
flagged n = record { boom = false; flag = true; revealed = false; count = n }

abbrev place : ℕ → ℕ → Coord
place x y = record { x = pos x; y = pos y }

-- Three columns and two rows: a mine on the right, and a flag that the flood goes around.
abbrev small_board : Board
small_board = record {
  cells =
      free (pos 0)
      ∷ free (pos 1)
      ∷ mine (pos 0)
      ∷ flagged (pos 0)
      ∷ free (pos 1)
      ∷ free (pos 1)
      ∷ [];
  width = 3;
  height = 2;
}

small_board-IsSized : IsSized small_board
small_board-IsSized = record { size = refl; width_fits = omega arith; height_fits = omega arith }

-- A mine on each cell, and on one of two.
abbrev full_board : Board
full_board = record { cells = mine (pos 1) ∷ mine (pos 1) ∷ []; width = 2; height = 1 }

abbrev half_board : Board
half_board = record { cells = mine (pos 0) ∷ free (pos 1) ∷ []; width = 2; height = 1 }

abbrev counting : ℕ → ℕ
counting n = n

-- The start of the flood, and the flag.
small_board-IsFresh : IsFresh (at small_board (place 1 1))
unfolding at
small_board-IsFresh = (refl, refl)

neighbors-IsAround_example : IsAround small_board (place 1 1) (neighbors small_board (place 1 1))
neighbors-IsAround_example =
    neighbors-IsAround small_board (place 1 1) small_board-IsSized (omega arith)

reveal_cells-Reveals_example :
    Reveals small_board (place 1 1) (reveal_cells small_board (place 1 1))
reveal_cells-Reveals_example =
    reveal_cells-Reveals small_board (place 1 1) small_board-IsSized (omega arith)
      (small_board-IsFresh)

compute_neighbor_counts-Computes_example :
    Computes small_board (compute_neighbor_counts small_board)
compute_neighbor_counts-Computes_example =
    compute_neighbor_counts-Computes small_board small_board-IsSized

abbrev corner : List Coord
corner = place 3 3 ∷ []

corner-Inside : (c : Coord) → c ∈ corner → Inside (new_board 3 3) c
unfolding new_board
corner-Inside c (inl e) = rw e (omega arith)
corner-Inside c (inr n) = absurd n

create_fixed_board-Creates_example : Creates 3 3 corner (create_fixed_board 3 3 corner)
create_fixed_board-Creates_example =
    create_fixed_board-Creates 3 3 corner (omega arith) (omega arith) corner-Inside

-- A row of three cells with a mine at its end.
abbrev row_board : Board
row_board = record {
  cells = free (pos 0) ∷ free (pos 1) ∷ mine (pos 0) ∷ [];
  width = 3;
  height = 1;
}

row_board-IsSized : IsSized row_board
row_board-IsSized = record { size = refl; width_fits = omega arith; height_fits = omega arith }

row_board-counts : compute_neighbor_counts row_board ≡ ok row_board
unfolding compute_neighbor_counts count_at count_cells all_coords rows_coords row_coords coord
    is_valid_x is_valid_y neighbors keep_valid cell update_cell coord_to_index to_int ◌-ℤ◌ ◌+ℤ◌
    to_uint64
row_board-counts = refl

row_board-IsCounted : IsCounted row_board
row_board-IsCounted =
    let run = compute_neighbor_counts-Computes row_board row_board-IsSized in
    let same : run.after ≡ row_board = cc (run.returns, row_board-counts) in
    subst (λ b. IsCounted b) same run.counted

abbrev row_found : List RevealResult
row_found =
    (record { coord = place 1 1; count = pos 0 })
    ∷ (record { coord = place 2 1; count = pos 1 })
    ∷ []

abbrev row_after : Board
row_after = record {
  cells =
      (record { boom = false; flag = false; revealed = true; count = pos 0 })
      ∷ (record { boom = false; flag = false; revealed = true; count = pos 1 })
      ∷ mine (pos 0)
      ∷ [];
  width = 3;
  height = 1;
}

row_board-reveals : reveal_cells row_board (place 1 1) ≡ ok (row_found, row_after)
unfolding reveal_cells reveal reveal_loop visit_neighbors visit_neighbor open_neighbor hidden_cells
    neighbor_bombs_count coord is_valid_x is_valid_y neighbors keep_valid cell update_cell
    coord_to_index to_int ◌-ℤ◌ ◌+ℤ◌ to_uint64
row_board-reveals = refl

row_board-IsFresh : IsFresh (at row_board (place 1 1))
unfolding at
row_board-IsFresh = (refl, refl)

row_board-safe : (at row_board (place 1 1)).boom ≡ false
unfolding at
row_board-safe = refl

reveal_cells_safe_example :
    ((at row_board (place 2 1)).boom ≡ false) × (pos 1 ≡ pos (mines_around row_board (place 2 1)))
reveal_cells_safe_example =
    reveal_cells_safe row_board (place 1 1) row_board-IsSized row_board-IsCounted (omega arith)
      row_board-IsFresh row_board-safe row_found row_after row_board-reveals
      (record { coord = place 2 1; count = pos 1 }) (inr (inl refl))

half_board-made : create_board counting 1 2 1 (pos 1) ≡ ok half_board
unfolding create_board put_random pick_free boom_at new_board compute_neighbor_counts count_at
    count_cells all_coords rows_coords row_coords coord is_valid_x is_valid_y neighbors keep_valid
    cell update_cell coord_to_index to_int ◌-ℤ◌ ◌+ℤ◌ to_uint64
half_board-made = refl

create_board-Counted_example :
    (mine_cells half_board ≡ 1) × IsSized half_board × IsCounted half_board
create_board-Counted_example =
    create_board-Counted counting 1 2 1 (pos 1) half_board (omega arith) (omega arith)
      half_board-made

pick_free_ends_example : (i : ℕ) × (k' : ℕ) × (pick_free (λ k. k / 2) 2 half_board 0 ≡ ok (i, k'))
pick_free_ends_example =
    pick_free_ends (λ k. k / 2) 1 2 half_board 0 (free (pos 1)) (omega arith) (omega arith) refl
      (omega arith) refl refl

full_board-mines : (i : ℕ) (c : Cell) → get_elem? full_board.cells i ≡ some c → c.boom ≡ true
full_board-mines zero c h = ground arith
full_board-mines (suc zero) c h = ground arith
full_board-mines (suc (suc i)) c h = ground arith

pick_free_full_example : pick_free counting 7 full_board 0 ≡ throws stuck
pick_free_full_example =
    pick_free_full counting 7 full_board 0 (omega arith) (omega arith) refl full_board-mines
