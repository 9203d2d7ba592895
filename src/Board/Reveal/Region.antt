-- ===== src/Board/Reveal/Region.antt =====
-- What a reveal opens, described apart from the loop, and one step of `reveal` on the grid.
use minesweeper.Prelude.{
  ℕ, zero, suc, ◌+◌, ◌<◌, ◌≡◌, refl, Bool, true, false, not, if◌then◌else◌, List, [], ◌∷◌, ◌++◌,
  ◌∈◌, length, set, get_or, count_if, ◌⊎◌, inl, inr, ◌↔◌, arith,
}
use minesweeper.Prelude.Int.{ℤ, pos, negsuc}
use minesweeper.Outcome.{ok}
use minesweeper.Board.{
  Coord, Cell, Board, new_cell, is_set, set_revealed, neighbor_bombs_count, hidden_cells,
}
use minesweeper.Board.Grid.{
  Inside, IsSized, index, at, put, cell-Inside, update_cell-Inside, put-IsSized, at-put, in_range,
}
use minesweeper.Board.Neighbors.{Adjacent, Distinct}
use minesweeper.Board.Reveal.{RevealResult, reveal}

-- Neither flagged nor revealed.
abbrev pub IsFresh : Cell → Type 0
IsFresh k = (k.flag ≡ false) × (k.revealed ≡ false)

-- What a reveal reports of a cell: -1 for a mine.
abbrev pub label : Cell → ℤ
label k = if k.boom then negsuc 0 else k.count

-- `q` is reached from `start` through cells with count 0, over fresh cells alone.
pub data Reach (b : Board) (start : Coord) : Coord → Type 0 where
  here : Reach b start start
  next :
      {p q : Coord}
      → Reach b start p
      → label (at b p) ≡ pos 0
      → Adjacent p q
      → Inside b q
      → IsFresh (at b q)
      → Reach b start q

abbrev pub coords : List RevealResult → List Coord
coords [] = []
coords (r ∷ rs) = r.coord ∷ coords rs

pub mem-snoc :
    (q : Coord) (rs : List RevealResult) (r : RevealResult)
    → (q ∈ coords (rs ++ (r ∷ []))) ↔ ((q ∈ coords rs) ⊎ (q ≡ r.coord))
mem-snoc q [] r = (ground arith, ground arith)
mem-snoc q (s ∷ rs) r = ground (arith, (mem-snoc q rs r).0, (mem-snoc q rs r).1)

pub Distinct-snoc :
    (rs : List RevealResult) (r : RevealResult)
    → Distinct (coords rs)
    → (¬ (r.coord ∈ coords rs))
    → Distinct (coords (rs ++ (r ∷ [])))
Distinct-snoc [] r d n = ground arith
Distinct-snoc (s ∷ rs) r d n = (
  λ m. elim ((mem-snoc s.coord rs r).0 m) [ inl a ↦ d.0 a | inr e ↦ n (inl (cc)) ],
  Distinct-snoc rs r d.1 (λ m. n (inr m)),
)

-- `reveal` sets the revealed bit, and reports the label of the cell.
pub reveal-Inside :
    (b : Board) (c : Coord)
    → IsSized b
    → Inside b c
    → reveal b c ≡ ok (label (at b c), put b c (set_revealed (at b c)))
unfolding reveal neighbor_bombs_count
reveal-Inside b c v i =
    let b' = put b c (set_revealed (at b c)) in
    let i' : Inside b' c = unfold put in i in
    let same : is_set c ≡ true = ground arith in
    rw
      (
        update_cell-Inside b c set_revealed v i,
        same,
        cell-Inside b' c (put-IsSized b c _ v) i',
        at-put b c c (set_revealed (at b c)) v i i,
      )
      (ground (arith))

count_if-set :
    (p : Cell → Bool) (ks : List Cell) (i : ℕ) (k d : Cell)
    → i < length ks
    → p (get_or ks i d) ≡ true
    → p k ≡ false
    → count_if p (set ks i k) + 1 ≡ count_if p ks
count_if-set p [] i k d h a e = absurd (omega arith)
count_if-set p (x ∷ ks) zero k d h a e = ground arith
count_if-set p (x ∷ ks) (suc i) k d h a e = ground (arith, count_if-set p ks i k d)

-- A cell that was unrevealed counts one less.
pub hidden_cells-put :
    (b : Board) (c : Coord)
    → IsSized b
    → Inside b c
    → (at b c).revealed ≡ false
    → hidden_cells (put b c (set_revealed (at b c))) + 1 ≡ hidden_cells b
unfolding hidden_cells put at
hidden_cells-put b c v i f =
    count_if-set (λ k. not k.revealed) b.cells (index b.width c) _ new_cell (in_range b c v i)
      (ground arith) refl
