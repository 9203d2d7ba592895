-- ===== src/Client/Mirror.antt =====
-- The client's game against the board of the server.
use minesweeper.Prelude.{
  ℕ, ◌≡◌, refl, sym, ap, subst, get_or, ◌∙◌, Bool, true, false, not, if◌then◌else◌, arith,
}
use minesweeper.Prelude.Int.{pos, int_of_int64}
use minesweeper.Board.{
  Coord, Cell, Board, set_revealed, toggle_flag, bombs_count, bombs_total, flags_count, flag_cells,
  neighbors,
}
use minesweeper.Board.Grid.{Inside, IsSized, index, at}
use minesweeper.Board.Neighbors.{mem-neighbors}
use minesweeper.Board.Cells.{count_cells_eq}
use minesweeper.Board.Reveal.Safe.{mines_around}
use minesweeper.Board.Create.Counts.{neighbors_sides, count_if_cong}
use minesweeper.Handlers.Game.{Follows}
use minesweeper.Client.View.{CellState, hidden, flagged, revealed, Tile, new_tile, View}
use minesweeper.Client.Game.{Game}
use minesweeper.Client.Tiles.{Fits, tile}

abbrev pub state_of : Cell → CellState
state_of k = if k.revealed then revealed else if k.flag then flagged else hidden

-- A tile shows a cell that has some mines around it.
abbrev pub Shows : Tile → Cell → ℕ → Type 0
Shows t k n = (t.state ≡ state_of k) × (k.revealed ≡ true → t.count ≡ pos n)

-- The client shows the server's board: which cells are flagged or revealed, and of a revealed cell
-- the number of mines around it.
pub record Mirrors (v : View) (b : Board) : Type 0 where
  pub fits : Fits v b
  pub shows : (q : Coord) → Inside b q → Shows (tile v b q) (at b q) (mines_around b q)

pub mines_around-Follows :
    (b after : Board) (c : Coord)
    → IsSized b
    → Follows b after
    → Inside b c
    → mines_around after c ≡ mines_around b c
mines_around-Follows b after c v f i = rw (neighbors_sides after b c f.same_width f.same_height) (
    count_if_cong (λ d. (at after d).boom) (λ d. (at b d).boom) (neighbors b c)
      (λ d m. f.mined d ((mem-neighbors b c d v i).0 m).1))

Fits-Follows : (v : View) (b after : Board) → IsSized b → Follows b after → Fits v b → Fits v after
Fits-Follows v b after z f fits = record {
  same_width = fits.same_width ∙ sym f.same_width;
  same_height = fits.same_height ∙ sym f.same_height;
  size = fits.size ∙ z.size ∙ sym (rw (f.game.sized.size, f.same_width, f.same_height) refl);
}

-- A view of a board that follows, by its tiles at the coordinates of the first.
pub Mirrors-Follows :
    (v : View) (b after : Board)
    → IsSized b
    → Follows b after
    → Fits v b
    → ((q : Coord) → Inside b q → Shows (tile v b q) (at after q) (mines_around b q))
    → Mirrors v after
Mirrors-Follows v b after z f fits h = record {
  fits = Fits-Follows v b after z f fits;
  shows = λ q i.
      let ib : Inside b q = omega (arith, f.same_width, f.same_height) in
      let same : tile v after q ≡ tile v b q =
        ap (λ w. get_or v.tiles (index w q) new_tile) f.same_width in
      subst (λ t. Shows t (at after q) (mines_around after q)) (sym same)
        (subst (λ n. Shows (tile v b q) (at after q) n)
          (sym (mines_around-Follows b after q z f ib)) (h q ib));
}

pub bombs_count_eq :
    (b after : Board)
    → IsSized b
    → Follows b after
    → ((q : Coord) → Inside b q → (at after q).flag ≡ (at b q).flag)
    → bombs_count after ≡ bombs_count b
unfolding bombs_count bombs_total flags_count flag_cells
bombs_count_eq b after z f h =
    let flags =
      count_cells_eq (λ k. k.flag) (λ k. k.flag) b after z f.game.sized f.same_width f.same_height
        (λ q i. sym (h q i)) in
    rw (f.total, sym flags) refl

-- A tile behind the loop over revealed cells.
pub Shows-revealed :
    (t u : Tile) (k l : Cell) (m : Bool) (n : ℕ)
    → Shows t k n
    → u ≡ (if m then record { state = revealed; count = pos n } else t)
    → l ≡ (if m then set_revealed k else k)
    → Shows u l n
Shows-revealed t u k l true n s e f = rw (e, f) (refl, λ _. refl)
Shows-revealed t u k l false n s e f = rw (e, f) s

-- A tile whose flag is set or taken back.
pub Shows-toggled :
    (t : Tile) (k : Cell) (f : Bool) (n : ℕ)
    → f ≡ not k.flag
    → k.revealed ≡ false
    → Shows (record t { state = if f then flagged else hidden }) (toggle_flag k) n
Shows-toggled t k f n e hidden_ = (rw (hidden_, e) refl, λ h. absurd (ground (arith, hidden_, h)))

-- What the game shows of the server's board.
pub record IsShown (g : Game) (b : Board) : Type 0 where
  pub board : Mirrors g.board b
  pub left : g.bombs_left ≡ int_of_int64 (bombs_count b)
  pub total : g.bombs_total ≡ int_of_int64 (bombs_total b)
