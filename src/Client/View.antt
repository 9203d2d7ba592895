-- ===== src/Client/View.antt =====
-- The client's board: src/client/board.hxx.
use minesweeper.Prelude.{ℕ, ◌+◌, ◌*◌, ◌%◌, ◌^◌, List, get_elem?, set, replicate}
use minesweeper.Prelude.Int.{ℤ, pos, ◌-ℤ◌, to_uint64}
use minesweeper.Outcome.{Outcome, ok, ◌>>=◌, or_throw, fault}

pub data CellState : Type 0 where
  hidden flagged revealed boom : CellState

-- `ui::cell_t`
pub record Tile : Type 0 where
  pub state : CellState
  pub count : ℤ

abbrev pub new_tile : Tile
new_tile = record { state = hidden; count = pos 0 }

-- `ui::board_t`
pub record View : Type 0 where
  pub width : ℕ
  pub height : ℕ
  pub tiles : List Tile

unfoldable pub new_view : ℕ → ℕ → View
new_view width height = record {
  width = width;
  height = height;
  tiles = replicate (width * height % 2 ^ 64) new_tile;
}

-- `index`, in `size_t`.
unfoldable pub tile_index : View → ℤ → ℤ → ℕ
unfolding ◌-ℤ◌ to_uint64
tile_index v x y = (to_uint64 (y -ℤ pos 1) * v.width + to_uint64 (x -ℤ pos 1)) % 2 ^ 64

-- `at`, which checks nothing.
unfoldable pub tile_at : View → ℤ → ℤ → Outcome Tile
unfolding tile_index
tile_at v x y = or_throw fault (get_elem? v.tiles (tile_index v x y))

-- A write through the reference that `at` returns.
unfoldable pub update_tile : View → ℤ → ℤ → (Tile → Tile) → Outcome View
unfolding tile_at
update_tile v x y f = do
  old ← tile_at v x y
  ok (record v { tiles = set v.tiles (tile_index v x y) (f old) })
