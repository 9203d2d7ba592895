-- ===== src/Handlers.antt =====
-- The handlers of src/server/handlers.cxx that work on a client's board, and the plugin
-- src/server/plugins/cell_check.cxx. A handler takes the board and the parsed parameters; it
-- returns its answer and the board as it left it. What it logs is left out.
pub mod Game
pub mod Answers
pub mod Found
pub mod Serve
pub mod Win
pub mod Play
pub mod Replies
pub mod Located
pub mod Sizes
pub mod Tests
use minesweeper.Prelude.{
  Bool, true, false, not, ◌&&◌, ◌||◌, ◌==◌, if◌then◌else◌, List, [], ◌∷◌, ◌++◌, Option, none, some,
}
use minesweeper.Prelude.Int.{ℤ, pos, ltb_ℤ, eq_ℤ, int_of_int64}
use minesweeper.Outcome.{Outcome, ok, throws, ◌>>=◌, or_throw, out_of_range, bad_variant_access}
use minesweeper.Parameter.{
  Bytes, text, Parameter, Items, Entries, string, int64, uint64, boolean, vector, no_items, item,
  no_entries, find, emplace,
}
use minesweeper.Board.{
  Coord, Cell, Board, is_set, toggle_flag, coord, cell, update_cell, neighbors,
  neighbor_bombs_count, neighbor_flags_count, bombs_total, flags_count, bombs_count,
  unrevealed_count, none_of_cell,
}
use minesweeper.Board.Reveal.{RevealResult, reveal_cells}

-- The codes of restbed that the handlers use, by their names.
pub data StatusCode : Type 0 where
  bad_request forbidden internal_server_error : StatusCode

-- `handler_result_t`: a map of parameters, or `handler_error_t`.
pub data HandlerResult : Type 0 where
  body : Entries → HandlerResult
  unexpected : StatusCode → Bytes → HandlerResult

abbrev pub Handler : Type 0
Handler = Board → Entries → Outcome (HandlerResult × Board)

-- `std::get<int64_t>`
unfoldable pub get_int64 : Parameter → Outcome ℤ
get_int64 (int64 z) = ok z
get_int64 _ = throws bad_variant_access

-- `const int x = std::get<int64_t>(params.at(key))`
unfoldable pub int_param : Bytes → Entries → Outcome ℤ
int_param key params = do
  p ← or_throw out_of_range (find key params)
  z ← get_int64 p
  ok (int_of_int64 z)

unfoldable pub board_size_handler : Handler
board_size_handler b params = ok (
  body (
      emplace (text "height") (uint64 b.height)
        (emplace (text "width") (uint64 b.width) no_entries)),
  b,
)

unfoldable pub board_bombs_handler : Handler
board_bombs_handler b params = ok (
  body (
      emplace (text "total") (int64 (bombs_total b))
        (emplace (text "bombs") (int64 (bombs_count b)) no_entries)),
  b,
)

unfoldable pub fully_revealed : Board → Bool
fully_revealed b = eq_ℤ (unrevealed_count b) (bombs_total b) && eq_ℤ (flags_count b) (bombs_total b)

unfoldable pub board_fully_revealed_handler : Handler
board_fully_revealed_handler b params =
    ok (body (emplace (text "fully_revealed") (boolean (fully_revealed b)) no_entries), b)

-- The loop over a coordinate's dimensions, of which there are two.
unfoldable pub emplace_coord : Coord → Entries → Entries
emplace_coord c m = emplace (text "y") (int64 c.y) (emplace (text "x") (int64 c.x) m)

-- What the answer says of a revealed cell.
unfoldable pub cell_entries : RevealResult → Entries
cell_entries r =
    emplace (text "bomb") (boolean (ltb_ℤ r.count (pos 0)))
      (emplace (text "count") (int64 r.count) (emplace_coord r.coord no_entries))

unfoldable pub cells_param : List RevealResult → Items
cells_param [] = no_items
cells_param (r ∷ rs) = item (Parameter.map (cell_entries r)) (cells_param rs)

unfoldable pub boomed : List RevealResult → Bool
boomed [] = false
boomed (r ∷ rs) = ltb_ℤ r.count (pos 0) || boomed rs

unfoldable pub revealed_body : List RevealResult → Entries → Entries
revealed_body found m =
    emplace (text "status") (string (if boomed found then text "boom" else text "ok"))
      (emplace (text "cells") (vector (cells_param found)) m)

-- The answer at a mine that is asked to be revealed: the board stays as it is.
unfoldable pub boom_body : Coord → Entries → Entries
boom_body c m =
    emplace (text "cells") (vector (item (Parameter.map (emplace_coord c no_entries)) no_items))
      (emplace (text "status") (string (text "boom")) m)

unfoldable pub info_body : Cell → Entries
info_body k =
    if k.revealed
    then emplace (text "info") (string (text "Already revealed.")) no_entries
    else no_entries

-- `cell_reveal_handler` from the test of the flag on.
unfoldable pub reveal_at : Board → Coord → Cell → Outcome (HandlerResult × Board)
reveal_at b c k =
    if k.flag
    then ok (unexpected bad_request (text "Can't reveal flagged cell."), b)
    else if k.boom
    then ok (body (boom_body c (info_body k)), b)
    else (reveal_cells b c >>= λ (found, b'). ok (body (revealed_body found (info_body k)), b'))

unfoldable pub cell_reveal_handler : Handler
cell_reveal_handler b params = do
  x ← int_param (text "x") params
  y ← int_param (text "y") params
  let c = coord b x y
  if not (is_set c)
      then ok (unexpected bad_request (text "Coordinates out of range."), b)
      else (cell b c >>= reveal_at b c)

unfoldable pub flagged_body : Coord → Cell → Entries
flagged_body c k =
    emplace (text "flagged") (boolean (not k.flag))
      (emplace (text "status") (string (text "ok")) (emplace_coord c no_entries))

-- `cell_flag_handler` from the test of the revealed bit on.
unfoldable pub flag_at : Board → Coord → Cell → Outcome (HandlerResult × Board)
flag_at b c k =
    if k.revealed
    then ok (unexpected bad_request (text "Can't flag revealed cell."), b)
    else if not k.flag && eq_ℤ (bombs_count b) (pos 0)
    then ok (unexpected bad_request (text "Can't flag cell when no bombs left."), b)
    else do b' ← update_cell b c toggle_flag; ok (body (flagged_body c k), b')

unfoldable pub cell_flag_handler : Handler
cell_flag_handler b params = do
  x ← int_param (text "x") params
  y ← int_param (text "y") params
  let c = coord b x y
  if not (is_set c)
      then ok (unexpected bad_request (text "Coordinates out of range."), b)
      else (cell b c >>= flag_at b c)

-- A cell that loses the game.
abbrev pub is_bad : Cell → Bool
is_bad k = k.boom && (not k.flag || k.revealed)

unfoldable pub board_check_handler : Handler
board_check_handler b params =
    if not (eq_ℤ (unrevealed_count b) (bombs_total b))
    then ok (unexpected bad_request (text "Can't check field when unrevealed cells are left."), b)
    else ok (
      body (
          emplace (text "status")
            (string (if none_of_cell b is_bad then text "win" else text "lose")) no_entries),
      b,
    )

-- The loop of `cell_check_handler` over the neighbours.
unfoldable pub reveal_around : List Coord → Board → Outcome (List RevealResult × Board)
reveal_around [] b = ok ([], b)
reveal_around (n ∷ ns) b = do
  k ← cell b n
  (local, b₁) ← if not k.revealed && not k.flag then reveal_cells b n else ok ([], b)
  (more, b₂) ← reveal_around ns b₁
  ok (local ++ more, b₂)

-- `cell_check_handler` from the test of the revealed bit on.
unfoldable pub check_at : Board → Coord → Cell → Outcome (HandlerResult × Board)
check_at b c k =
    if not k.revealed
    then ok (unexpected bad_request (text "Cell is not revealed."), b)
    else if k.boom
    then ok (unexpected bad_request (text "Cell is a bomb."), b)
    else do
      flags_around ← neighbor_flags_count b c
      bombs_around ← neighbor_bombs_count b c
      if not (eq_ℤ flags_around bombs_around)
          then ok (
            unexpected bad_request
                (text "Number of flags around cell does not match number of bombs."),
            b,
          )
          else (reveal_around (neighbors b c) b >>= λ (found, b').
              ok (body (revealed_body found no_entries), b'))

unfoldable pub cell_check_handler : Handler
cell_check_handler b params = do
  x ← int_param (text "x") params
  y ← int_param (text "y") params
  let c = coord b x y
  if not (is_set c)
      then ok (unexpected bad_request (text "Invalid coordinates."), b)
      else (cell b c >>= check_at b c)
