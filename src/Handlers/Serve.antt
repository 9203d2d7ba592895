-- ===== src/Handlers/Serve.antt =====
-- Requests on a client's board, each served by its handler, and sequences of them.
use minesweeper.Prelude.{◌≡◌, refl, subst, not, Bool-cases, if◌then◌else◌, some, inl, inr}
use minesweeper.Prelude.Int.{ℤ, int_of_int64, eq_ℤ}
use minesweeper.Outcome.{Outcome, ok, ◌>>=◌}
use minesweeper.Parameter.{Bytes, text, Entries, int64, find}
use minesweeper.Board.{Coord, Cell, Board, is_set, coord, cell, unrevealed_count, bombs_total}
use minesweeper.Board.Grid.{Inside, at, cell-Inside}
use minesweeper.Handlers.{
  HandlerResult, Handler, int_param, get_int64, board_size_handler, board_bombs_handler,
  board_fully_revealed_handler, board_check_handler, reveal_at, cell_reveal_handler, flag_at,
  cell_flag_handler, check_at, cell_check_handler,
}
use minesweeper.Handlers.Answers.{
  Serves, unchanged, flag_at-Serves, reveal_at-Serves, check_at-Serves,
}
use minesweeper.Handlers.Game.{IsGame, Follows, Follows-refl, Follows-trans, is_set-coord}

-- The resources that the server offers on a board.
pub data Request : Type 0 where
  size bombs is_fully_revealed reveal flag check check_cell : Request

unfoldable pub serve : Request → Handler
serve size = board_size_handler
serve bombs = board_bombs_handler
serve is_fully_revealed = board_fully_revealed_handler
serve reveal = cell_reveal_handler
serve flag = cell_flag_handler
serve check = board_check_handler
serve check_cell = cell_check_handler

pub int_param_lem :
    (key : Bytes) (params : Entries) (z : ℤ)
    → find key params ≡ some (int64 z)
    → int_param key params ≡ ok (int_of_int64 z)
unfolding int_param get_int64
int_param_lem key params z h = rw h refl

-- The test of the coordinates, in front of what a handler does with a cell.
located-Serves :
    (b : Board) (x y : ℤ) (refusal : HandlerResult)
    (f : Board → Coord → Cell → Outcome (HandlerResult × Board))
    → IsGame b
    → ((c : Coord) → Inside b c → Serves b (f b c (at b c)))
    → Serves b (
        if not (is_set (coord b x y))
        then ok (refusal, b)
        else (cell b (coord b x y) >>= f b (coord b x y)))
located-Serves b x y refusal f g h = elim (Bool-cases (is_set (coord b x y))) [
  | inr out ↦ rw out (unchanged b refusal g)
  | inl set ↦
      let i = is_set-coord b (record { x = x; y = y }) g.sized set in
      rw (set, cell-Inside b (coord b x y) g.sized i) (h (coord b x y) i)
]

pub check-Serves :
    (b : Board) (params : Entries) → IsGame b → Serves b (board_check_handler b params)
unfolding board_check_handler
check-Serves b params g = elim (Bool-cases (eq_ℤ (unrevealed_count b) (bombs_total b))) [
  | inl all ↦ rw all (unchanged b _ g)
  | inr left ↦ rw left (unchanged b _ g)
]

-- On a board in play, with integers for the parameters x and y: every request is answered, without
-- an exception, an access out of bounds or fuel that runs out; and it leaves a board in play of the
-- same sides and with the same mines.
pub serve-Serves :
    (q : Request) (b : Board) (params : Entries) (x y : ℤ)
    → IsGame b
    → find (text "x") params ≡ some (int64 x)
    → find (text "y") params ≡ some (int64 y)
    → Serves b (serve q b params)
unfolding serve board_size_handler board_bombs_handler board_fully_revealed_handler
    cell_reveal_handler cell_flag_handler cell_check_handler
serve-Serves size b params x y g hx hy = unchanged b _ g
serve-Serves bombs b params x y g hx hy = unchanged b _ g
serve-Serves is_fully_revealed b params x y g hx hy = unchanged b _ g
serve-Serves check b params x y g hx hy = check-Serves b params g
serve-Serves reveal b params x y g hx hy =
    rw (int_param_lem (text "x") params x hx, int_param_lem (text "y") params y hy)
      (located-Serves b (int_of_int64 x) (int_of_int64 y) _ reveal_at g
        (λ c i. reveal_at-Serves b c g i))
serve-Serves flag b params x y g hx hy =
    rw (int_param_lem (text "x") params x hx, int_param_lem (text "y") params y hy)
      (located-Serves b (int_of_int64 x) (int_of_int64 y) _ flag_at g
        (λ c i. flag_at-Serves b c g i))
serve-Serves check_cell b params x y g hx hy =
    rw (int_param_lem (text "x") params x hx, int_param_lem (text "y") params y hy)
      (located-Serves b (int_of_int64 x) (int_of_int64 y) _ check_at g
        (λ c i. check_at-Serves b c g i))

-- A sequence of requests on one board, each with integers for x and y.
pub data Plays (b : Board) : Board → Type 0 where
  begun : Plays b b
  move :
      {c d : Board}
      → Plays b c
      → (q : Request) (params : Entries) (x y : ℤ) (result : HandlerResult)
      → find (text "x") params ≡ some (int64 x)
      → find (text "y") params ≡ some (int64 y)
      → serve q c params ≡ ok (result, d)
      → Plays b d

-- Whatever requests with integers for x and y are served one after the other on a board in play,
-- the board stays in play, with the same sides, number of mines and mines.
pub Plays-Follows : (b c : Board) → IsGame b → Plays b c → Follows b c
Plays-Follows b c g begun = Follows-refl b g
Plays-Follows b d g (move {c} before q params x y result hx hy e) =
    let f = Plays-Follows b c g before in
    let one = serve-Serves q c params x y f.game hx hy in
    let same : one.after ≡ d = cc (e, one.returns) in
    Follows-trans b c d f (subst (λ k. Follows c k) same one.follows)
