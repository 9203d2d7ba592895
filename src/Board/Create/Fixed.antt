-- ===== src/Board/Create/Fixed.antt =====
-- `create_fixed_board`: the mines of a layout, and the counts around them.
use minesweeper.Prelude.{
  ℕ, zero, suc, ◌-◌, ◌*◌, ◌^◌, ◌<◌, ◌≡◌, refl, ◌∙◌, if◌then◌else◌, List, [], ◌∷◌, ◌∈◌, get_or,
  get_elem?-eq-get_or, replicate, length-replicate, inl, inr, arith,
}
use minesweeper.Outcome.{Outcome, ok}
use minesweeper.Board.{Coord, Board, new_cell, set_boom, has_coord, coord_to_index}
use minesweeper.Board.Grid.{
  Inside, IsSized, index, at, put, put-width, put-height, put-IsSized, at-put, in_range,
  coord_to_index_lem, eq_coord→≡,
}
use minesweeper.Board.Reveal.Safe.{IsCounted}
use minesweeper.Board.Reveal.Region.{IsFresh}
use minesweeper.Board.Create.{new_board, boom_at, put_mines, create_fixed_board}
use minesweeper.Board.Create.Complete.{compute_neighbor_counts-Computes}

boom_at-Inside :
    (b : Board) (c : Coord)
    → IsSized b
    → Inside b c
    → boom_at b (coord_to_index b c) ≡ ok (put b c (set_boom (at b c)))
unfolding boom_at at put
boom_at-Inside b c v i = rw (
  coord_to_index_lem b c v i,
  get_elem?-eq-get_or b.cells (index b.width c) new_cell (in_range b c v i),
)

record Mines (b : Board) (mines : List Coord) (r : Outcome Board) : Type 0 where
  after : Board
  returns : r ≡ ok after
  same_width : after.width ≡ b.width
  same_height : after.height ≡ b.height
  sized : IsSized after
  cells :
      (q : Coord)
      → Inside b q
      → at after q ≡ (if has_coord q mines then set_boom (at b q) else at b q)

put_mines-Mines :
    (b : Board) (mines : List Coord)
    → IsSized b
    → ((c : Coord) → c ∈ mines → Inside b c)
    → Mines b mines (put_mines mines b)
unfolding put_mines
put_mines-Mines b [] v h = record {
  after = b;
  returns = refl;
  same_width = refl;
  same_height = refl;
  sized = v;
  cells = λ q i. refl;
}
put_mines-Mines b (c ∷ cs) v h =
    let ic = h c (inl refl) in
    let b1 = put b c (set_boom (at b c)) in
    let w = put-width b c (set_boom (at b c)) in
    let t = put-height b c (set_boom (at b c)) in
    let rest =
      put_mines-Mines b1 cs (put-IsSized b c _ v) (λ d m. let i = h d (inr m) in omega arith) in
    record {
      after = rest.after;
      returns = rw (boom_at-Inside b c v ic) rest.returns;
      same_width = rest.same_width ∙ w;
      same_height = rest.same_height ∙ t;
      sized = rest.sized;
      cells = λ q iq. ground (
        arith,
        rest.cells q (let i = iq in omega arith),
        at-put b c q (set_boom (at b c)) v ic iq,
        eq_coord→≡ c q,
      );
    }

get_or-replicate {ℓ} : {A : Type ℓ} (n i : ℕ) (d : A) → get_or (replicate n d) i d ≡ d
get_or-replicate zero i d = refl
get_or-replicate (suc n) zero d = refl
get_or-replicate (suc n) (suc i) d = get_or-replicate n i d

pub at-new_board : (w h : ℕ) (q : Coord) → at (new_board w h) q ≡ new_cell
unfolding at new_board
at-new_board w h q = get_or-replicate (w * h) (index w q) new_cell

pub new_board-IsSized : (w h : ℕ) → w < 2 ^ 31 - 1 → h < 2 ^ 31 - 1 → IsSized (new_board w h)
unfolding new_board
new_board-IsSized w h p q = record {
  size = length-replicate (w * h) new_cell;
  width_fits = p;
  height_fits = q;
}

new_board_sides : (w h : ℕ) → ((new_board w h).width ≡ w) × ((new_board w h).height ≡ h)
unfolding new_board
new_board_sides w h = (refl, refl)

-- A board that was made for a layout of mines.
pub record Creates (w h : ℕ) (mines : List Coord) (r : Outcome Board) : Type 0 where
  pub board : Board
  pub returns : r ≡ ok board
  pub sides : (board.width ≡ w) × (board.height ≡ h)
  pub sized : IsSized board
  pub counted : IsCounted board
  pub mined : (q : Coord) → Inside board q → (at board q).boom ≡ has_coord q mines
  pub fresh : (q : Coord) → Inside board q → IsFresh (at board q)

-- For sides below 2 ^ 31 - 1 and a layout inside them, `create_fixed_board` returns a board of
-- these sides whose mines are exactly those of the layout, whose cells hold the number of mines
-- around them, and where nothing is flagged or revealed.
pub create_fixed_board-Creates :
    (w h : ℕ) (mines : List Coord)
    → w < 2 ^ 31 - 1
    → h < 2 ^ 31 - 1
    → ((c : Coord) → c ∈ mines → Inside (new_board w h) c)
    → Creates w h mines (create_fixed_board w h mines)
unfolding create_fixed_board
create_fixed_board-Creates w h mines p q inside =
    let placed = put_mines-Mines (new_board w h) mines (new_board-IsSized w h p q) inside in
    let run = compute_neighbor_counts-Computes placed.after placed.sized in
    let w1 = placed.same_width in
    let w2 = run.same_width in
    let h1 = placed.same_height in
    let h2 = run.same_height in
    let within : (c : Coord)
        → Inside run.after c
        → Inside placed.after c × Inside (new_board w h) c =
      λ c i. (omega arith, omega arith) in
    let cells : (c : Coord)
        → Inside run.after c
        → at placed.after c ≡ (if has_coord c mines then set_boom new_cell else new_cell) =
      λ c i. placed.cells c (within c i).1 ∙ rw at-new_board in
    record {
      board = run.after;
      returns = rw placed.returns run.returns;
      sides = (w2 ∙ w1 ∙ (new_board_sides w h).0, h2 ∙ h1 ∙ (new_board_sides w h).1);
      sized = run.sized;
      counted = run.counted;
      mined = λ c i. ground (arith, cells c i, run.kept c (within c i).0);
      fresh = λ c i. ground (arith, cells c i, run.kept c (within c i).0);
    }
