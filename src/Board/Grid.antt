-- ===== src/Board/Grid.antt =====
-- The vector of cells, read and written by coordinates: what `cell`, `update_cell`, `coord` and
-- `coord_to_index` do on a board whose vector fits its sides.
use minesweeper.Prelude.{
  [], ◌∷◌, ◌∈◌, List, true, false, ℕ, ◌+◌, ◌-◌, ◌*◌, ◌^◌, ◌≤◌, ◌<◌, ◌≡◌, ◌≢◌, refl, subst, ◌∙◌,
  true, false, Bool-cases, if◌then◌else◌, length, get_or, set, get_elem?-eq-get_or, get_or-set_self,
  get_or-set_ne, length-set, inl, inr, arith,
}
use minesweeper.Prelude.Int.{ℤ, pos, pos_part, ◌-ℤ◌, to_int-eq-pos, to_uint64}
use minesweeper.Outcome.{ok}
use minesweeper.Board.{
  has_coord, Coord, Cell, Board, no_coord, new_cell, eq_coord, coord, coord_to_index, cell,
  update_cell,
}

-- The coordinates of the board, from 1 on.
abbrev pub Inside : Board → Coord → Type 0
Inside b c =
    (1 ≤ pos_part c.x) × (pos_part c.x ≤ b.width) × (1 ≤ pos_part c.y) × (pos_part c.y ≤ b.height)

-- The vector has a cell for each coordinate, and the sides leave room for x + 1 in an `int`.
pub record IsSized (b : Board) : Type 0 where
  pub size : length b.cells ≡ b.width * b.height
  pub width_fits : b.width < 2 ^ 31 - 1
  pub height_fits : b.height < 2 ^ 31 - 1

abbrev pub index : ℕ → Coord → ℕ
index w c = (pos_part c.y - 1) * w + (pos_part c.x - 1)

unfoldable pub at : Board → Coord → Cell
at b c = get_or b.cells (index b.width c) new_cell

unfoldable pub put : Board → Coord → Cell → Board
put b c k = record b { cells = set b.cells (index b.width c) k }

pub eq_coord→≡ : (c d : Coord) → eq_coord c d ≡ true → c ≡ d
eq_coord→≡ c d h = ground arith

pub eq_coord_refl : (c : Coord) → eq_coord c c ≡ true
eq_coord_refl c = ground arith

pub eq_coord→≢ : (c d : Coord) → eq_coord c d ≡ false → c ≢ d
eq_coord→≢ c d h e = ground (arith, eq_coord_refl c)

pub has_coord→mem : (c : Coord) (ds : List Coord) → has_coord c ds ≡ true → c ∈ ds
has_coord→mem c [] h = cc
has_coord→mem c (d ∷ ds) h = ground (arith, eq_coord→≡ d c, has_coord→mem c ds)

pub mem→has_coord : (c : Coord) (ds : List Coord) → has_coord c ds ≡ false → ¬ (c ∈ ds)
mem→has_coord c [] h m = m
mem→has_coord c (d ∷ ds) h m = ground (arith, eq_coord→≢ d c, mem→has_coord c ds)

-- `coord` tells the coordinates of the board from all others, on boards that fit an `int`.
pub coord-Inside : (b : Board) (c : Coord) → IsSized b → Inside b c → coord b c.x c.y ≡ c
unfolding coord
coord-Inside b c v i =
    rw (to_int-eq-pos b.width (omega arith), to_int-eq-pos b.height (omega arith)) (ground arith)

pub coord-outside : (b : Board) (c : Coord) → IsSized b → ¬ Inside b c → coord b c.x c.y ≡ no_coord
unfolding coord
coord-outside b c v i =
    rw (to_int-eq-pos b.width (omega arith), to_int-eq-pos b.height (omega arith)) (ground arith)

index-lt :
    (w h : ℕ) (c : Coord)
    → 1 ≤ pos_part c.x
    → pos_part c.x ≤ w
    → 1 ≤ pos_part c.y
    → pos_part c.y ≤ h
    → index w c < w * h
index-lt w h c a b d e = grind arith

row_before : (w r r' c c' : ℕ) → c < w → r < r' → r * w + c < r' * w + c'
row_before w r r' c c' h k = grind arith

pub index-inj :
    (b : Board) (c d : Coord) → Inside b c → Inside b d → index b.width c ≡ index b.width d → c ≡ d
index-inj b c d i j p = ground (
  arith,
  row_before b.width (pos_part c.y - 1) (pos_part d.y - 1) (pos_part c.x - 1) (pos_part d.x - 1),
  row_before b.width (pos_part d.y - 1) (pos_part c.y - 1) (pos_part d.x - 1) (pos_part c.x - 1),
)

before : (z : ℤ) → 1 ≤ pos_part z → pos_part z < 2 ^ 64 → to_uint64 (z -ℤ pos 1) ≡ pos_part z - 1
unfolding to_uint64 ◌-ℤ◌
before z h k = ground arith

pub cells_fit : (w h : ℕ) → w < 2 ^ 31 - 1 → h < 2 ^ 31 - 1 → w * h < 2 ^ 64
cells_fit w h p q = grind arith

pub coord_to_index_lem :
    (b : Board) (c : Coord) → IsSized b → Inside b c → coord_to_index b c ≡ index b.width c
unfolding coord_to_index
coord_to_index_lem b c v i =
    rw (before c.x i.0 (omega arith), before c.y i.2 (omega arith))
      (omega (
        arith,
        index-lt b.width b.height c i.0 i.1 i.2 i.3,
        cells_fit b.width b.height v.width_fits v.height_fits,
      ))

pub in_range : (b : Board) (c : Coord) → IsSized b → Inside b c → index b.width c < length b.cells
in_range b c v i = rw v.size (index-lt b.width b.height c i.0 i.1 i.2 i.3)

-- Inside, `cell` reads the cell and does not throw.
pub cell-Inside : (b : Board) (c : Coord) → IsSized b → Inside b c → cell b c ≡ ok (at b c)
unfolding cell at
cell-Inside b c v i = ground (
  arith,
  coord_to_index_lem b c v i,
  get_elem?-eq-get_or b.cells (index b.width c) new_cell (in_range b c v i),
)

pub update_cell-Inside :
    (b : Board) (c : Coord) (f : Cell → Cell)
    → IsSized b
    → Inside b c
    → update_cell b c f ≡ ok (put b c (f (at b c)))
unfolding update_cell put
update_cell-Inside b c f v i = rw (cell-Inside b c v i, coord_to_index_lem b c v i)

pub put-IsSized : (b : Board) (c : Coord) (k : Cell) → IsSized b → IsSized (put b c k)
unfolding put
put-IsSized b c k v = record {
  size = length-set b.cells (index b.width c) k ∙ v.size;
  width_fits = v.width_fits;
  height_fits = v.height_fits;
}

pub at-put :
    (b : Board) (c d : Coord) (k : Cell)
    → IsSized b
    → Inside b c
    → Inside b d
    → at (put b c k) d ≡ (if eq_coord c d then k else at b d)
unfolding at put
at-put b c d k v i j = elim (Bool-cases (eq_coord c d)) [
  | inl same ↦
      let self = get_or-set_self b.cells (index b.width c) k new_cell (in_range b c v i) in
      rw same (subst (λ e. at (put b c k) e ≡ k) (eq_coord→≡ c d same) self)
  | inr other ↦
      rw other
        (get_or-set_ne b.cells _ _ k new_cell (λ e. eq_coord→≢ c d other (index-inj b c d i j e)))
]

pub put-width : (b : Board) (c : Coord) (k : Cell) → (put b c k).width ≡ b.width
unfolding put
put-width b c k = refl

pub put-height : (b : Board) (c : Coord) (k : Cell) → (put b c k).height ≡ b.height
unfolding put
put-height b c k = refl

pub at-put_self : (b : Board) (c : Coord) (k : Cell) → IsSized b → Inside b c → at (put b c k) c ≡ k
at-put_self b c k v i = at-put b c c k v i i ∙ rw eq_coord_refl
