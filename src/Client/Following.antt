-- ===== src/Client/Following.antt =====
-- What a game of the client keeps to, with a server whose board was `b` in the beginning.
use minesweeper.Prelude.{◌≡◌, sym, subst, ◌∙◌, ◌⊎◌, true, none, some, inl, inr, arith}
use minesweeper.Prelude.Int.{ℤ, int_of_int64}
use minesweeper.Parameter.{Bytes}
use minesweeper.Board.{Coord, Board, bombs_count, bombs_total}
use minesweeper.Board.Grid.{Inside}
use minesweeper.Handlers.Game.{Follows, Follows-trans}
use minesweeper.Handlers.Win.{IsWon}
use minesweeper.Client.View.{View}
use minesweeper.Client.Game.{Game, won, lost, exploded}
use minesweeper.Client.Mirror.{Mirrors, IsShown}

abbrev pub cursor : Game → Coord
cursor g = record { x = g.cursor_x; y = g.cursor_y }

module _ {W : Type 0} (board_of : W → Board) (IsReady : W → Type 0) (b : Board) where
  -- The cursor is on the board, the counts are the server's, and until a mine exploded the board
  -- that is shown is the server's; the game that ended was won or lost by the server's board.
  pub record IsFollowing (g : Game) (w : W) : Type 0 where
    pub ready : IsReady w
    pub follows : Follows b (board_of w)
    pub on_board : Inside b (cursor g)
    pub sides : ((g.board).width ≡ b.width) × ((g.board).height ≡ b.height)
    pub running : (g.ending ≡ none) ⊎ (g.game_over ≡ true)
    pub view : (g.ending ≡ some exploded) ⊎ IsShown g (board_of w)
    pub victory : g.ending ≡ some won → IsWon (board_of w)
    pub defeat : g.ending ≡ some lost → ¬ IsWon (board_of w)

  -- The world moved on, and its board did not.
  pub other_world :
      (g : Game) (w w' : W)
      → IsReady w'
      → board_of w' ≡ board_of w
      → IsFollowing g w
      → IsFollowing g w'
  other_world g w w' ready same p = record {
    ready = ready;
    follows = subst (λ k. Follows b k) (sym same) p.follows;
    on_board = p.on_board;
    sides = p.sides;
    running = p.running;
    view = subst (λ k. (g.ending ≡ some exploded) ⊎ IsShown g k) (sym same) p.view;
    victory = λ e. subst IsWon (sym same) (p.victory e);
    defeat = λ e won'. p.defeat e (subst IsWon same won');
  }

  -- A message is no more than that.
  pub with_message :
      (g : Game) (w : W) (message : Bytes)
      → IsFollowing g w
      → IsFollowing (record g { message = message }) w
  with_message g w message p = record {
    ready = p.ready;
    follows = p.follows;
    on_board = p.on_board;
    sides = p.sides;
    running = p.running;
    view = elim p.view [
      | inl e ↦ inl e
      | inr m ↦ inr (record { board = m.board; left = m.left; total = m.total })
    ];
    victory = p.victory;
    defeat = p.defeat;
  }

  pub IsFollowing-IsShown :
      (g : Game) (w : W) → IsFollowing g w → g.ending ≡ none → IsShown g (board_of w)
  IsFollowing-IsShown g w p e = elim p.view [
    | inl boomed ↦ absurd (ground (arith, e, boomed))
    | inr m ↦ m
  ]

  -- A board that followed, with the view that shows it.
  pub IsShown-IsFollowing :
      (g : Game) (w w' : W) (v : View) (left' total' : ℤ)
      → IsFollowing g w
      → g.ending ≡ none
      → IsReady w'
      → Follows (board_of w) (board_of w')
      → Mirrors v (board_of w')
      → left' ≡ int_of_int64 (bombs_count (board_of w'))
      → total' ≡ int_of_int64 (bombs_total (board_of w'))
      → IsFollowing (record g { board = v; bombs_left = left'; bombs_total = total' }) w'
  IsShown-IsFollowing g w w' v left' total' p e ready f m l t =
      let follows = Follows-trans b (board_of w) (board_of w') p.follows f in
      record {
        ready = ready;
        follows = follows;
        on_board = p.on_board;
        sides = (m.fits.same_width ∙ follows.same_width, m.fits.same_height ∙ follows.same_height);
        running = inl e;
        view = inr (record { board = m; left = l; total = t });
        victory = λ won'. absurd (ground (arith, e, won'));
        defeat = λ lost'. absurd (ground (arith, e, lost'));
      }
