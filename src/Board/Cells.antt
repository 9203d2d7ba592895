-- ===== src/Board/Cells.antt =====
-- The vector of cells against the coordinates, and counts over it.
use minesweeper.Prelude.{
  ℕ, zero, suc, ◌+◌, ◌*◌, ◌/◌, ◌%◌, ◌<◌, ◌≡◌, refl, sym, subst, ◌∙◌, Bool, List, [], ◌∷◌, length,
  get_or, count_if, arith,
}
use minesweeper.Prelude.Int.{pos}
use minesweeper.Board.{Coord, Cell, Board, new_cell}
use minesweeper.Board.Grid.{Inside, IsSized, index, at}
use native.Mathlib.Nat.{div-add-mod, div-lt_iff_lt-mul, mod-lt}

-- The coordinate of the cell with an index.
coord_of : ℕ → ℕ → Coord
coord_of w i = record { x = pos (i % w + 1); y = pos (i / w + 1) }

index-coord_of : (w i : ℕ) → index w (coord_of w i) ≡ i
unfolding coord_of
index-coord_of w i =
    let parts = div-add-mod i w in
    let plain : index w (coord_of w i) ≡ i / w * w + i % w = grind arith in grind arith

coord_of-Inside :
    (b : Board) (i : ℕ) → 0 < b.width → i < b.width * b.height → Inside b (coord_of b.width i)
unfolding coord_of
coord_of-Inside b i w h =
    let row = (div-lt_iff_lt-mul {k = b.width} {x = i} {y = b.height} w).1 in
    let col = mod-lt i w in
    let below : i < b.height * b.width = grind arith in
    (omega arith, omega (arith, col), omega arith, omega (arith, row below))

has_columns : (w h i : ℕ) → i < w * h → 0 < w
has_columns zero h i lt = absurd (grind arith)
has_columns (suc w) h i lt = omega arith

-- A property of the cells at all coordinates is one of all cells.
pub all_cells :
    (b : Board) (P : Cell → Type 0)
    → IsSized b
    → ((q : Coord) → Inside b q → P (at b q))
    → (i : ℕ) → i < length b.cells
    → P (get_or b.cells i new_cell)
unfolding at
all_cells b P v h i lt =
    let big : i < b.width * b.height = rw (sym v.size) lt in
    let here = coord_of-Inside b i (has_columns b.width b.height i big) big in
    subst (λ j. P (get_or b.cells j new_cell)) (index-coord_of b.width i)
      (h (coord_of b.width i) here)

pub count_if_eq :
    {A : Type 0} (p q : A → Bool) (xs ys : List A) (d : A)
    → length xs ≡ length ys
    → ((i : ℕ) → i < length xs → p (get_or xs i d) ≡ q (get_or ys i d))
    → count_if p xs ≡ count_if q ys
count_if_eq p q [] [] d e h = refl
count_if_eq p q [] (y ∷ ys) d e h = absurd (omega (arith, e))
count_if_eq p q (x ∷ xs) [] d e h = absurd (omega (arith, e))
count_if_eq p q (x ∷ xs) (y ∷ ys) d e h = ground (
  arith,
  h 0 (omega arith),
  count_if_eq p q xs ys d (omega (arith, e)) (λ i lt. h (suc i) (omega arith)),
)

-- Boards of the same sides whose cells agree at each coordinate count the same.
pub count_cells_eq :
    (p q : Cell → Bool) (b b' : Board)
    → IsSized b
    → IsSized b'
    → b'.width ≡ b.width
    → b'.height ≡ b.height
    → ((c : Coord) → Inside b c → p (at b c) ≡ q (at b' c))
    → count_if p b.cells ≡ count_if q b'.cells
unfolding at
count_cells_eq p q b b' v v' w h e =
    count_if_eq p q b.cells b'.cells new_cell (v.size ∙ sym (v'.size ∙ rw (w, h))) (λ i lt.
      let big : i < b.width * b.height = rw (sym v.size) lt in
      let here = coord_of-Inside b i (has_columns b.width b.height i big) big in
      subst (λ j. p (get_or b.cells j new_cell) ≡ q (get_or b'.cells j new_cell))
        (index-coord_of b.width i) (rw w at (e (coord_of b.width i) here)))
