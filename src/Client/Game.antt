-- ===== src/Client/Game.antt =====
-- `run_game` of src/client/ui.cxx. A key is what `getch` returned, by its meaning; what is drawn is
-- left out but for the window with the result.
use minesweeper.Prelude.{
  ℕ, Bool, true, false, not, if◌then◌else◌, Option, none, some, List, [], ◌∷◌, ◌++◌,
}
use minesweeper.Prelude.Int.{ℤ, pos, ltb_ℤ, ◌+ℤ◌, ◌-ℤ◌, to_int}
use minesweeper.Outcome.{Outcome, ok, ◌>>=◌}
use minesweeper.Parameter.{Bytes, text}
use minesweeper.Client.Api.{RevealedCell, RevealResult, FlagResult, BombsResult, CheckResult, Api}
use minesweeper.Client.View.{hidden, flagged, revealed, boom, View, new_view, update_tile}

-- The keys of the `switch`, grouped by its cases.
pub data Key : Type 0 where
  up down left right : Key
  open_key check_key flag_key quit other : Key

-- The windows of `draw_result_window`.
pub data Ending : Type 0 where
  won lost exploded : Ending

-- The variables of `run_game`.
pub record Game : Type 0 where
  pub board : View
  pub cursor_x : ℤ
  pub cursor_y : ℤ
  pub bombs_left : ℤ
  pub bombs_total : ℤ
  pub game_over : Bool
  pub message : Bytes
  pub ending : Option Ending

-- The loop over the cells of an explosion.
unfoldable pub show_booms : List RevealedCell → View → Outcome View
show_booms [] v = ok v
show_booms (c ∷ cs) v = update_tile v c.x c.y (λ t. record t { state = boom }) >>= show_booms cs

-- The loop over the cells that were revealed.
unfoldable pub show_revealed : List RevealedCell → View → Outcome View
show_revealed [] v = ok v
show_revealed (c ∷ cs) v =
    update_tile v c.x c.y (λ t. record { state = revealed; count = c.count }) >>= show_revealed cs

module _ {W : Type 0} (api : Api W) where
  -- `check_game_end` behind its two requests.
  unfoldable pub conclude : Game → CheckResult → Game
  conclude g check =
      if not check.good
      then g
      else record g { game_over = true; ending = some (if check.win then won else lost) }

  -- `check_game_end` behind its first request.
  unfoldable pub end_if : Option Bool → Game → W → Outcome (Game × W)
  unfolding conclude
  end_if none g w = ok (g, w)
  end_if (some fully) g w =
      if not fully then ok (g, w) else do (check, w₁) ← api.board_check w; ok (conclude g check, w₁)

  unfoldable pub check_game_end : Game → W → Outcome (Game × W)
  unfolding end_if
  check_game_end g w = do (fully, w₁) ← api.board_fully_revealed w; end_if fully g w₁

  -- What follows a request to reveal cells.
  unfoldable pub show_result : RevealResult → Game → W → Outcome (Game × W)
  unfolding check_game_end show_booms show_revealed
  show_result r g w =
      if not r.good
      then ok (record g { message = text "error: " ++ r.error }, w)
      else if r.boom
      then (do
        v ← show_booms r.cells g.board
        ok (record g { board = v; game_over = true; ending = some exploded }, w))
      else do v ← show_revealed r.cells g.board; check_game_end (record g { board = v }) w

  abbrev pub refreshed : BombsResult → Game → Game
  refreshed bombs g =
      if bombs.good then record g { bombs_left = bombs.left; bombs_total = bombs.total } else g

  -- What follows a request to set a flag.
  unfoldable pub show_flag : FlagResult → Game → W → Outcome (Game × W)
  unfolding check_game_end
  show_flag r g w =
      if not r.good then ok (record g { message = text "error: " ++ r.error }, w) else do
        v ←
            update_tile g.board g.cursor_x g.cursor_y
              (λ t. record t { state = if r.flagged then flagged else hidden })
        (bombs, w₁) ← api.board_bombs w
        check_game_end (refreshed bombs (record g { board = v })) w₁

  -- The `switch` over the keys.
  unfoldable pub press : Key → Game → W → Outcome (Game × W)
  unfolding show_result show_flag
  press up g w = ok (
    record g { cursor_y = if ltb_ℤ (pos 1) g.cursor_y then g.cursor_y -ℤ pos 1 else g.cursor_y },
    w,
  )
  press down g w = ok (
    record g {
      cursor_y =
          if ltb_ℤ g.cursor_y (to_int (g.board).height) then g.cursor_y +ℤ pos 1 else g.cursor_y;
    },
    w,
  )
  press left g w = ok (
    record g { cursor_x = if ltb_ℤ (pos 1) g.cursor_x then g.cursor_x -ℤ pos 1 else g.cursor_x },
    w,
  )
  press right g w = ok (
    record g {
      cursor_x =
          if ltb_ℤ g.cursor_x (to_int (g.board).width) then g.cursor_x +ℤ pos 1 else g.cursor_x;
    },
    w,
  )
  press open_key g w = do
    (r, w₁) ← api.cell_reveal g.cursor_x g.cursor_y w
    show_result r (record g { message = [] }) w₁
  press check_key g w = do
    (r, w₁) ← api.cell_check g.cursor_x g.cursor_y w
    show_result r (record g { message = [] }) w₁
  press flag_key g w = do
    (r, w₁) ← api.cell_flag g.cursor_x g.cursor_y w
    show_flag r (record g { message = [] }) w₁
  press quit g w = ok (record g { game_over = true }, w)
  press other g w = ok (g, w)

  -- The `while` loop, as long as there are keys: it waits for one more after the last. The key that
  -- closes a window of a result is not among them.
  unfoldable pub play : List Key → Game → W → Outcome (Game × W)
  unfolding press
  play [] g w = ok (g, w)
  play (k ∷ ks) g w = if g.game_over then ok (g, w) else (press k g w >>= λ (g', w'). play ks g' w')

  abbrev pub new_game : ℕ → ℕ → ℤ → Game
  new_game width height total = record {
    board = new_view width height;
    cursor_x = pos 1;
    cursor_y = pos 1;
    bombs_left = total;
    bombs_total = total;
    game_over = false;
    message = [];
    ending = none;
  }

  unfoldable pub run_game : ℕ → ℕ → ℤ → List Key → W → Outcome (Game × W)
  unfolding play new_view
  run_game width height total keys w = do
    (bombs, w₁) ← api.board_bombs w
    play keys (refreshed bombs (new_game width height total)) w₁
