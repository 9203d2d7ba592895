-- ===== src/Board.antt =====
-- The board of the server: `coord_t` and `board_i` of src/server/plugins/api.hxx, `cell_ext_t` and
-- `board_t` of src/server/api.cxx. `int` is ℤ: no sum on coordinates leaves its range on a board whose
-- sides are below 2 ^ 31 - 1; counts are converted. An index is a `size_t`, with its wrap-around written out.
pub mod Grid
pub mod Neighbors
pub mod Reveal
pub mod Create
pub mod Cells
mod Tests
use minesweeper.Prelude.{
  ℕ, suc, ◌+◌, ◌*◌, ◌%◌, ◌^◌, Bool, true, false, not, ◌&&◌, ◌||◌, ◌==◌, if◌then◌else◌, List, [],
  ◌∷◌, get_elem?, set, count_if,
}
use minesweeper.Prelude.Int.{
  ℤ, pos, negsuc, ◌+ℤ◌, ◌-ℤ◌, ltb_ℤ, leb_ℤ, eq_ℤ, to_int, int_of_int64, to_uint64,
}
use minesweeper.Outcome.{Outcome, ok, throws, ◌>>=◌, or_throw, out_of_range, fault}

-- `m_coord_t<2>`: `vec[0]` and `vec[1]`.
pub record Coord : Type 0 where
  pub x : ℤ
  pub y : ℤ

-- The default constructor fills the vector with -1.
abbrev pub no_coord : Coord
no_coord = record { x = negsuc 0; y = negsuc 0 }

abbrev pub eq_coord : Coord → Coord → Bool
eq_coord c d = eq_ℤ c.x d.x && eq_ℤ c.y d.y

-- Membership in a set of coordinates.
abbrev pub has_coord : Coord → List Coord → Bool
has_coord c [] = false
has_coord c (d ∷ ds) = eq_coord d c || has_coord c ds

-- `operator bool`
abbrev pub is_set : Coord → Bool
is_set c = ltb_ℤ (pos 0) c.x && ltb_ℤ (pos 0) c.y

pub record Cell : Type 0 where
  pub boom : Bool
  pub flag : Bool
  pub revealed : Bool
  pub count : ℤ

abbrev pub new_cell : Cell
new_cell = record { boom = false; flag = false; revealed = false; count = negsuc 0 }

abbrev pub toggle_flag : Cell → Cell
toggle_flag c = record c { flag = not c.flag }

abbrev pub set_revealed : Cell → Cell
set_revealed c = record c { revealed = true }

abbrev pub set_boom : Cell → Cell
set_boom c = record c { boom = true }

abbrev pub set_neighbor_bombs_count : ℤ → Cell → Cell
set_neighbor_bombs_count n c = record c { count = n }

-- `data_`, `w_`, `h_`
pub record Board : Type 0 where
  pub cells : List Cell
  pub width : ℕ
  pub height : ℕ

unfoldable pub is_valid_x : Board → ℤ → Bool
is_valid_x b x = ltb_ℤ (pos 0) x && leb_ℤ x (to_int b.width)

unfoldable pub is_valid_y : Board → ℤ → Bool
is_valid_y b y = ltb_ℤ (pos 0) y && leb_ℤ y (to_int b.height)

-- `board_i::coord`
unfoldable pub coord : Board → ℤ → ℤ → Coord
unfolding is_valid_x is_valid_y
coord b x y = if is_valid_x b x && is_valid_y b y then record { x = x; y = y } else no_coord

-- `(coord[1] - 1) * width() + (coord[0] - 1)`, in `size_t`
unfoldable pub coord_to_index : Board → Coord → ℕ
unfolding ◌-ℤ◌ to_uint64
coord_to_index b c = (to_uint64 (c.y -ℤ pos 1) * b.width + to_uint64 (c.x -ℤ pos 1)) % 2 ^ 64

-- `cell(coord)`: the coordinates are checked for their sign alone.
unfoldable pub cell : Board → Coord → Outcome Cell
unfolding coord_to_index
cell b c =
    if not (is_set c)
    then throws out_of_range
    else or_throw fault (get_elem? b.cells (coord_to_index b c))

-- A write through the reference that `cell` returns.
unfoldable pub update_cell : Board → Coord → (Cell → Cell) → Outcome Board
update_cell b c f = do
  old ← cell b c
  ok (record b { cells = set b.cells (coord_to_index b c) (f old) })

-- The candidates of `neighbors`, in their order.
abbrev pub candidates : ℤ → ℤ → List Coord
candidates x y =
    (record { x = x -ℤ pos 1; y = y -ℤ pos 1 })
    ∷ (record { x = x; y = y -ℤ pos 1 })
    ∷ (record { x = x +ℤ pos 1; y = y -ℤ pos 1 })
    ∷ (record { x = x -ℤ pos 1; y = y })
    ∷ (record { x = x +ℤ pos 1; y = y })
    ∷ (record { x = x -ℤ pos 1; y = y +ℤ pos 1 })
    ∷ (record { x = x; y = y +ℤ pos 1 })
    ∷ (record { x = x +ℤ pos 1; y = y +ℤ pos 1 })
    ∷ []

-- The loop of `neighbors`: the candidates that are coordinates of the board.
unfoldable pub keep_valid : Board → List Coord → List Coord
keep_valid b [] = []
keep_valid b (c ∷ cs) =
    let nc = coord b c.x c.y in let rest = keep_valid b cs in if is_set nc then nc ∷ rest else rest

unfoldable pub neighbors : Board → Coord → List Coord
neighbors b c = keep_valid b (candidates c.x c.y)

-- `count_if` over coordinates, each read through `cell`.
unfoldable pub count_cells : Board → (Cell → Bool) → List Coord → Outcome ℕ
count_cells b p [] = ok 0
count_cells b p (c ∷ cs) = do k ← cell b c; n ← count_cells b p cs; ok (if p k then suc n else n)

unfoldable pub neighbor_bombs_count : Board → Coord → Outcome ℤ
neighbor_bombs_count b c =
    if not (is_set c)
    then ok (negsuc 0)
    else do k ← cell b c; ok (if k.boom then negsuc 0 else k.count)

-- The three counts over the neighbours share their shape.
unfoldable pub count_neighbors : Board → (Cell → Bool) → Coord → Outcome ℤ
count_neighbors b p c =
    if not (is_set c) then ok (negsuc 0) else do n ← count_cells b p (neighbors b c); ok (pos n)

unfoldable pub neighbor_flags_count : Board → Coord → Outcome ℤ
neighbor_flags_count b c = count_neighbors b (λ k. k.flag) c

unfoldable pub neighbor_revealed_count : Board → Coord → Outcome ℤ
neighbor_revealed_count b c = count_neighbors b (λ k. k.revealed) c

unfoldable pub neighbor_unrevealed_count : Board → Coord → Outcome ℤ
neighbor_unrevealed_count b c = count_neighbors b (λ k. not k.revealed) c

-- `count_if` over `data_`, before its result is converted.
unfoldable pub mine_cells : Board → ℕ
mine_cells b = count_if (λ k. k.boom) b.cells

unfoldable pub flag_cells : Board → ℕ
flag_cells b = count_if (λ k. k.flag) b.cells

unfoldable pub hidden_cells : Board → ℕ
hidden_cells b = count_if (λ k. not k.revealed) b.cells

-- The counts as an `int`, which wraps around from 2 ^ 31 cells on.
unfoldable pub bombs_total : Board → ℤ
unfolding mine_cells
bombs_total b = to_int (mine_cells b)

unfoldable pub flags_count : Board → ℤ
unfolding flag_cells
flags_count b = to_int (flag_cells b)

-- The difference is an `int` too: where it overflows, it is taken to wrap around.
unfoldable pub bombs_count : Board → ℤ
unfolding bombs_total flags_count ◌-ℤ◌ int_of_int64
bombs_count b = int_of_int64 (bombs_total b -ℤ flags_count b)

unfoldable pub unrevealed_count : Board → ℤ
unfolding hidden_cells
unrevealed_count b = to_int (hidden_cells b)

unfoldable pub none_of_cell : Board → (Cell → Bool) → Bool
none_of_cell b p = count_if p b.cells == 0
