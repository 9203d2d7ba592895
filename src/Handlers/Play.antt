-- ===== src/Handlers/Play.antt =====
-- Games from their start on, and what a reveal answers in them.
use minesweeper.Prelude.{
  ℕ, Bool, true, some, none, if◌then◌else◌, ◌↔◌, ◌-◌, ◌^◌, ◌<◌, ◌≡◌, refl, subst, ◌∙◌, false, List,
  [], ◌∷◌, ◌∈◌, inl, inr, Bool-cases, arith,
}
use minesweeper.Prelude.Int.{pos, ltb_ℤ}
use minesweeper.Outcome.{Outcome, ok}
use minesweeper.Parameter.{
  Items, no_items, item, int64, boolean, map, text, Entries, string, vector, find, emplace,
  contains, append, eq_bytes,
}
use minesweeper.Board.Neighbors.{Distinct}
use minesweeper.Board.Reveal.Region.{Reach, coords}
use minesweeper.Board.{Coord, Cell, Board, has_coord, new_cell, flag_cells, set_revealed}
use minesweeper.Board.Grid.{Inside, at}
use minesweeper.Board.Cells.{all_cells}
use minesweeper.Board.Reveal.{RevealResult}
use minesweeper.Board.Reveal.Exact.{reveal_cells-Reveals, reveal_cells_closed}
use minesweeper.Board.Reveal.Safe.{mines_around, reveal_cells_safe}
use minesweeper.Board.Create.{new_board, create_fixed_board}
use minesweeper.Board.Create.Fixed.{Creates, create_fixed_board-Creates}
use minesweeper.Handlers.{
  cell_entries, emplace_coord, cells_param, body, boomed, revealed_body, info_body, reveal_at,
}
use minesweeper.Handlers.Game.{IsGame}
use minesweeper.Handlers.Serve.{Plays, Plays-Follows}
use minesweeper.Handlers.Win.{none-count_if}

-- A board that was made for a layout is in play.
Creates-IsGame :
    (w h : ℕ) (mines : List Coord) (r : Outcome Board) (made : Creates w h mines r)
    → IsGame made.board
unfolding flag_cells
Creates-IsGame w h mines r made =
    let none =
      none-count_if (λ k. k.flag) made.board.cells new_cell
        (all_cells made.board (λ k. k.flag ≡ false) made.sized (λ q i. (made.fresh q i).0)) in
    record {
      sized = made.sized;
      counted = made.counted;
      flags = omega (arith, none);
      closed = λ q i. ground (arith, made.fresh q i);
    }

-- For sides below 2 ^ 31 - 1, a layout inside them and the board that `create_fixed_board` makes of
-- it: whatever requests with integers for x and y are served on it, one after the other, the board
-- stays in play, and its mines stay exactly those of the layout.
pub Plays-IsGame :
    (w h : ℕ) (mines : List Coord) (b c : Board)
    → w < 2 ^ 31 - 1
    → h < 2 ^ 31 - 1
    → ((q : Coord) → q ∈ mines → Inside (new_board w h) q)
    → create_fixed_board w h mines ≡ ok b
    → Plays b c
    → IsGame c × ((q : Coord) → Inside c q → (at c q).boom ≡ has_coord q mines)
Plays-IsGame w h mines b c fw fh inside e plays =
    let made = create_fixed_board-Creates w h mines fw fh inside in
    let same : made.board ≡ b = cc (e, made.returns) in
    let game : IsGame b = subst (λ k. IsGame k) same (Creates-IsGame w h mines _ made) in
    let mined : (q : Coord) → Inside b q → (at b q).boom ≡ has_coord q mines =
      subst (λ k. (q : Coord) → Inside k q → (at k q).boom ≡ has_coord q mines) same made.mined in
    let f = Plays-Follows b c game plays in
    (
      f.game,
      λ q i.
          let ib : Inside b q = omega (arith, f.same_width, f.same_height) in
          f.mined q ib ∙ mined q ib,
    )

not_boomed :
    (found : List RevealResult)
    → ((r : RevealResult) → r ∈ found → (n : ℕ) × (r.count ≡ pos n))
    → boomed found ≡ false
unfolding boomed
not_boomed [] h = refl
not_boomed (r ∷ rs) h =
    let (n, e) = h r (inl refl) in ground (arith, e, not_boomed rs (λ s m. h s (inr m)))

-- The items of a list tell of each cell its place, its count, and that it is no mine.
abbrev pub Tells : List RevealResult → Items → Type 0
Tells [] no_items = Unit
Tells [] (item v vs) = ⊥
Tells (r ∷ rs) no_items = ⊥
Tells (r ∷ rs) (item v vs) =
    ((es : Entries) × (v ≡ map es)
      × (find (text "x") es ≡ some (int64 r.coord.x))
      × (find (text "y") es ≡ some (int64 r.coord.y))
      × (find (text "count") es ≡ some (int64 r.count))
      × (find (text "bomb") es ≡ some (boolean false)))
    × Tells rs vs

cells_param-Tells :
    (found : List RevealResult) → boomed found ≡ false → Tells found (cells_param found)
unfolding boomed cells_param cell_entries emplace_coord emplace contains append find eq_bytes
cells_param-Tells [] calm = tt
cells_param-Tells (r ∷ rs) calm =
    let safe : ltb_ℤ r.count (pos 0) ≡ false = ground (arith, calm) in
    (
      (cell_entries r, refl, refl, refl, refl, rw safe refl),
      cells_param-Tells rs (ground (arith, calm, safe)),
    )

-- The answer that a reveal went well, with the cells that it found, and the remark that its cell had
-- been revealed before.
pub record Says (found : List RevealResult) (shown : Bool) (es : Entries) : Type 0 where
  pub status : find (text "status") es ≡ some (string (text "ok"))
  pub listed : Items
  pub cells : find (text "cells") es ≡ some (vector listed)
  pub tells : Tells found listed
  pub info :
      find (text "info") es ≡ (if shown then some (string (text "Already revealed.")) else none)

-- What a reveal of a cell that is no mine answers: of a cell that was hidden, exactly what is
-- reached from it, each cell once, and these are revealed; of another one, nothing, and the board
-- stays as it is.
pub record Opens (b : Board) (c : Coord) : Type 0 where
  pub entries : Entries
  pub found : List RevealResult
  pub after : Board
  pub answers : reveal_at b c (at b c) ≡ ok (body entries, after)
  pub says : Says found (at b c).revealed entries
  pub true_counts :
      (r : RevealResult)
      → r ∈ found
      → ((at b r.coord).boom ≡ false) × (r.count ≡ pos (mines_around b r.coord))
  pub once : Distinct (coords found)
  pub hidden : (at b c).revealed ≡ false → (q : Coord) → (q ∈ coords found) ↔ Reach b c q
  pub shown : (at b c).revealed ≡ true → (found ≡ []) × (after ≡ b)
  pub opened :
      (q : Coord)
      → Inside b q
      → at after q ≡ (if has_coord q (coords found) then set_revealed (at b q) else at b q)

revealed_body-Says :
    (found : List RevealResult) (k : Cell)
    → boomed found ≡ false
    → Says found k.revealed (revealed_body found (info_body k))
unfolding revealed_body info_body emplace contains append find eq_bytes
revealed_body-Says found k calm = elim (Bool-cases k.revealed) [
  | inl shown ↦ record {
    status = rw (shown, calm) refl;
    listed = cells_param found;
    cells = rw shown refl;
    tells = cells_param-Tells found calm;
    info = rw shown refl;
  }
  | inr hidden ↦ record {
    status = rw (hidden, calm) refl;
    listed = cells_param found;
    cells = rw hidden refl;
    tells = cells_param-Tells found calm;
    info = rw hidden refl;
  }
]

-- On a board in play, for a coordinate inside it whose cell is neither flagged nor a mine, a reveal
-- answers with the status ok and a list of cells: of a cell that was hidden, exactly those that are
-- reached from it through cells labelled 0, each once, and these are revealed; of one that was
-- revealed, an empty list and the remark that it was, and the board stays as it is. No listed cell is
-- a mine, and each is told with its place and the number of mines around it.
pub reveal_at-Opens :
    (b : Board) (c : Coord)
    → IsGame b
    → Inside b c
    → (at b c).flag ≡ false
    → (at b c).boom ≡ false
    → Opens b c
unfolding reveal_at boomed
reveal_at-Opens b c g i free safe = elim (Bool-cases (at b c).revealed) [
  | inl shown ↦ record {
    entries = revealed_body [] (info_body (at b c));
    found = [];
    after = b;
    answers =
        rw (free, safe, reveal_cells_closed b c g.sized i (λ f. absurd (ground (arith, shown, f))));
    says = revealed_body-Says [] (at b c) refl;
    true_counts = λ r m. absurd m;
    once = tt;
    hidden = λ e. absurd (ground (arith, shown, e));
    shown = λ e. (refl, refl);
    opened = λ q iq. refl;
  }
  | inr hidden ↦
      let run = reveal_cells-Reveals b c g.sized i (free, hidden) in
      let right =
        reveal_cells_safe b c g.sized g.counted i (free, hidden) safe run.found run.after
          run.returns in
      record {
        entries = revealed_body run.found (info_body (at b c));
        found = run.found;
        after = run.after;
        answers = rw (free, safe, run.returns);
        says =
            revealed_body-Says run.found (at b c)
              (not_boomed run.found (λ r m. (mines_around b r.coord, (right r m).1)));
        true_counts = right;
        once = run.distinct;
        hidden = λ e q. run.region q;
        shown = λ e. absurd (ground (arith, hidden, e));
        opened = run.cells;
      }
]
