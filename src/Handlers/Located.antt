-- ===== src/Handlers/Located.antt =====
-- Requests about a coordinate of the board, as their handlers answer them.
use minesweeper.Prelude.{◌≡◌, sym, subst, true, arith}
use minesweeper.Outcome.{ok}
use minesweeper.Parameter.{text, Entries}
use minesweeper.Board.{Coord, Board, is_set, coord, cell}
use minesweeper.Board.Grid.{Inside, at, coord-Inside, cell-Inside}
use minesweeper.Handlers.{
  HandlerResult, int_param, cell_reveal_handler, cell_flag_handler, cell_check_handler,
}
use minesweeper.Handlers.Game.{IsGame, Follows, Follows-refl}
use minesweeper.Handlers.Serve.{Request, serve}
use minesweeper.Handlers.Replies.{
  Reveal, Flag, Replies, reveal_at-Replies, check_at-Replies, flag_at-Replies, mine, found,
}

pub Reveal-Follows :
    (b after : Board) (result : HandlerResult) → IsGame b → Reveal b after result → Follows b after
Reveal-Follows b after result g (Reveal.refused r same) =
    subst (λ d. Follows b d) (sym same) (Follows-refl b g)
Reveal-Follows b after result g (mine c k i same) =
    subst (λ d. Follows b d) (sym same) (Follows-refl b g)
Reveal-Follows b after result g (found rs k f) = f.follows

pub Flag-Follows :
    (b after : Board) (c : Coord) (result : HandlerResult)
    → IsGame b
    → Flag b after c result
    → Follows b after
Flag-Follows b after c result g (Flag.refused r same) =
    subst (λ d. Follows b d) (sym same) (Follows-refl b g)
Flag-Follows b after c result g (Flag.toggled k same fresh put_ f) = f

module _ (b : Board) (c : Coord) (es : Entries) (g : IsGame b) (i : Inside b c)
    (ex : int_param (text "x") es ≡ ok c.x) (ey : int_param (text "y") es ≡ ok c.y) where
  located : (is_set (coord b c.x c.y) ≡ true) × (cell b (coord b c.x c.y) ≡ ok (at b c))
  located = (
    rw (coord-Inside b c g.sized i) (ground (arith, i)),
    rw (coord-Inside b c g.sized i) (cell-Inside b c g.sized i),
  )

  pub reveal-Replies : Replies (Reveal b) (serve Request.reveal b es)
  unfolding serve cell_reveal_handler
  reveal-Replies =
      rw (ex, ey, located.0, located.1, coord-Inside b c g.sized i) (reveal_at-Replies b c g i)

  pub check_cell-Replies : Replies (Reveal b) (serve Request.check_cell b es)
  unfolding serve cell_check_handler
  check_cell-Replies =
      rw (ex, ey, located.0, located.1, coord-Inside b c g.sized i) (check_at-Replies b c g i)

  pub flag-Replies : Replies (λ d. Flag b d c) (serve Request.flag b es)
  unfolding serve cell_flag_handler
  flag-Replies =
      rw (ex, ey, located.0, located.1, coord-Inside b c g.sized i) (flag_at-Replies b c g i)
