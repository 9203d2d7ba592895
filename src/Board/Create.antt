-- ===== src/Board/Create.antt =====
-- The making of boards: the constructors of `board_t`, `clone`, `all_coords`,
-- `compute_neighbor_counts`, `create_board` and `create_fixed_board` of src/server/api.cxx.
pub mod Counts
pub mod Complete
pub mod Fixed
pub mod Random
use minesweeper.Prelude.{
  ℕ, zero, suc, ◌+◌, ◌*◌, ◌%◌, ◌||◌, ◌==◌, if◌then◌else◌, List, [], ◌∷◌, ◌++◌, get_elem?, set,
  replicate,
}
use minesweeper.Prelude.Int.{ℤ, pos, pos_part}
use minesweeper.Outcome.{Outcome, ok, throws, ◌>>=◌, or_throw, fault, stuck}
use minesweeper.Board.{
  Coord, Cell, Board, new_cell, set_boom, set_neighbor_bombs_count, coord, coord_to_index,
  update_cell, neighbors, count_cells,
}

-- `data_(width * height), w_ {width}, h_ {height}`
unfoldable pub new_board : ℕ → ℕ → Board
new_board w h = record { cells = replicate (w * h) new_cell; width = w; height = h }

-- A board of the same sides, and a copy of the cells.
unfoldable pub clone : Board → Board
clone b = record (new_board b.width b.height) { cells = b.cells }

-- `data_[i].set_boom()`
unfoldable pub boom_at : Board → ℕ → Outcome Board
boom_at b i = do
  k ← or_throw fault (get_elem? b.cells i)
  ok (record b { cells = set b.cells i (set_boom k) })

-- The constructor's loop over a given layout. The index is not checked.
unfoldable pub put_mines : List Coord → Board → Outcome Board
put_mines [] b = ok b
put_mines (c ∷ cs) b = boom_at b (coord_to_index b c) >>= put_mines cs

-- The inner loop of `all_coords`, with `left` columns to go from `x` on, and the outer one.
unfoldable pub row_coords : Board → ℕ → ℕ → ℕ → List Coord
row_coords b y x zero = []
row_coords b y x (suc left) = coord b (pos x) (pos y) ∷ row_coords b y (x + 1) left

unfoldable pub rows_coords : Board → ℕ → ℕ → List Coord
rows_coords b y zero = []
rows_coords b y (suc left) = row_coords b y 1 b.width ++ rows_coords b (y + 1) left

unfoldable pub all_coords : Board → List Coord
all_coords b = rows_coords b 1 b.height

unfoldable pub count_at : Board → List Coord → Outcome Board
count_at b [] = ok b
count_at b (c ∷ cs) = do
  n ← count_cells b (λ k. k.boom) (neighbors b c)
  b' ← update_cell b c (set_neighbor_bombs_count (pos n))
  count_at b' cs

unfoldable pub compute_neighbor_counts : Board → Outcome Board
compute_neighbor_counts b = count_at b (all_coords b)

unfoldable pub create_fixed_board : ℕ → ℕ → List Coord → Outcome Board
create_fixed_board w h mines = put_mines mines (new_board w h) >>= compute_neighbor_counts

-- The constructor's loop with random places: `rand k` is what the k-th call of rand() returns,
-- and one round of the inner loop makes two calls. A remainder by 0 is undefined.
module _ (rand : ℕ → ℕ) where
  unfoldable pub pick_free : ℕ → Board → ℕ → Outcome (ℕ × ℕ)
  pick_free zero b k = throws stuck
  pick_free (suc fuel) b k =
      let again = pick_free fuel b (k + 2) in
      let col = rand k % b.width in
      let row = rand (k + 1) % b.height in
      if (b.width == 0) || (b.height == 0) then throws fault else do
        place ← or_throw fault (get_elem? b.cells (row * b.width + col))
        if place.boom then again else ok (row * b.width + col, k + 2)

  unfoldable pub put_random : ℕ → ℕ → Board → ℕ → Outcome Board
  put_random fuel zero b k = ok b
  put_random fuel (suc left) b k = do
    (i, k') ← pick_free fuel b k
    b' ← boom_at b i
    put_random fuel left b' k'

  -- A negative count of bombs places none.
  unfoldable pub create_board : ℕ → ℕ → ℕ → ℤ → Outcome Board
  create_board fuel w h bombs_count =
      put_random fuel (pos_part bombs_count) (new_board w h) 0 >>= compute_neighbor_counts
