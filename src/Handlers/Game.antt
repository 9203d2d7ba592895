-- ===== src/Handlers/Game.antt =====
-- The invariant of a game, a flag that is set or taken back, and a flood.
use minesweeper.Prelude.{
  ℕ, ◌+◌, ◌≤◌, ◌<◌, ◌≡◌, refl, sym, ◌∙◌, Bool, true, false, not, ◌&&◌, Bool-cases, if◌then◌else◌,
  List, [], ◌∷◌, zero, suc, get_or, set, count_if, length, inl, inr, arith,
}
use minesweeper.Prelude.Int.{ℤ, to_int, int_of_int64, pos, eq_ℤ, ◌-ℤ◌}
use minesweeper.Board.{
  Coord, Cell, Board, new_cell, is_set, has_coord, toggle_flag, coord, neighbors, mine_cells,
  flag_cells, bombs_count, bombs_total, flags_count,
}
use minesweeper.Board.Grid.{
  Inside, IsSized, index, at, put, coord-Inside, coord-outside, put-IsSized, at-put, in_range,
  put-width, put-height, eq_coord→≡, has_coord→mem,
}
use minesweeper.Board.Neighbors.{Inside-cases, mem-neighbors}
use minesweeper.Board.Cells.{count_cells_eq}
use minesweeper.Board.Reveal.{reveal_cells}
use minesweeper.Board.Reveal.Region.{IsFresh, coords, Reach, here, next}
use minesweeper.Board.Reveal.Exact.{Reveals}
use minesweeper.Board.Reveal.Safe.{IsCounted, mines_around}
use minesweeper.Board.Create.Counts.{neighbors_sides, count_if_cong}

-- A board in play: its counts are right, there are no more flags than mines, and no cell is both
-- flagged and revealed.
pub record IsGame (b : Board) : Type 0 where
  pub sized : IsSized b
  pub counted : IsCounted b
  pub flags : flag_cells b ≤ mine_cells b
  pub closed : (q : Coord) → Inside b q → ((at b q).flag && (at b q).revealed) ≡ false

-- The board after a request: a game of the same sides, mines and number of mines.
pub record Follows (b after : Board) : Type 0 where
  pub game : IsGame after
  pub same_width : after.width ≡ b.width
  pub same_height : after.height ≡ b.height
  pub total : mine_cells after ≡ mine_cells b
  pub mined : (q : Coord) → Inside b q → (at after q).boom ≡ (at b q).boom

pub Follows-refl : (b : Board) → IsGame b → Follows b b
Follows-refl b g = record {
  game = g;
  same_width = refl;
  same_height = refl;
  total = refl;
  mined = λ q i. refl;
}

pub Follows-trans : (b c d : Board) → Follows b c → Follows c d → Follows b d
Follows-trans b c d f g = record {
  game = g.game;
  same_width = g.same_width ∙ f.same_width;
  same_height = g.same_height ∙ f.same_height;
  total = g.total ∙ f.total;
  mined = λ q i. g.mined q (omega (arith, f.same_width, f.same_height)) ∙ f.mined q i;
}

-- A board that differs from a game in flags and revealed bits alone.
pub keeps-Follows :
    (b after : Board)
    → IsGame b
    → IsSized after
    → after.width ≡ b.width
    → after.height ≡ b.height
    → ((q : Coord)
        → Inside b q
        → ((at after q).boom ≡ (at b q).boom) × ((at after q).count ≡ (at b q).count))
    → flag_cells after ≤ mine_cells b
    → ((q : Coord) → Inside b q → ((at after q).flag && (at after q).revealed) ≡ false)
    → Follows b after
unfolding mine_cells
keeps-Follows b after g v w h same few closed =
    let total : count_if (λ k. k.boom) after.cells ≡ count_if (λ k. k.boom) b.cells = sym (
      count_cells_eq (λ k. k.boom) (λ k. k.boom) b after g.sized v w h (λ c i. sym (same c i).0)) in
    record {
      game = record {
        sized = v;
        counted = λ c i.
            let ic : Inside b c = omega (arith, w, h) in
            let around : mines_around after c ≡ mines_around b c =
              rw (neighbors_sides after b c w h) (
                count_if_cong (λ d. (at after d).boom) (λ d. (at b d).boom) (neighbors b c)
                  (λ d m. (same d ((mem-neighbors b c d g.sized ic).0 m).1).0)) in
            (same c ic).1 ∙ g.counted c ic ∙ rw around;
        flags = omega (arith, few, total);
        closed = λ q i. closed q (omega (arith, w, h));
      };
      same_width = w;
      same_height = h;
      total = total;
      mined = λ q i. (same q i).0;
    }

Reach-IsFresh :
    (b : Board) (start q : Coord) → IsFresh (at b start) → Reach b start q → IsFresh (at b q)
Reach-IsFresh b start q fresh here = fresh
Reach-IsFresh b start q fresh (next r z a i f) = f

-- A flood keeps the game.
pub Reveals-Follows :
    (b : Board) (start : Coord)
    → IsGame b
    → IsFresh (at b start)
    → (run : Reveals b start (reveal_cells b start)) → Follows b run.after
unfolding flag_cells
Reveals-Follows b start g fresh run =
    let flags =
      count_cells_eq (λ k. k.flag) (λ k. k.flag) b run.after g.sized run.sized run.same_width
        run.same_height (λ c i. ground (arith, run.cells c i)) in
    keeps-Follows b run.after g run.sized run.same_width run.same_height
      (λ q i. ground (arith, run.cells q i)) (omega (arith, flags, g.flags))
      (λ q i. elim (Bool-cases (has_coord q (coords run.found))) [
        | inl m ↦
            let opened = (run.region q).0 (has_coord→mem q _ m) in
            ground (arith, run.cells q i, m, Reach-IsFresh b start q fresh opened)
        | inr m ↦ ground (arith, run.cells q i, m, g.closed q i)
      ])

-- A bit that a write sets counts one more, and one that it clears one less.
count_if-put :
    (p : Cell → Bool) (ks : List Cell) (i : ℕ) (k d : Cell)
    → i < length ks
    → count_if p (set ks i k) + (if p (get_or ks i d) then 1 else 0)
      ≡ count_if p ks + (if p k then 1 else 0)
count_if-put p [] i k d h = absurd (omega arith)
count_if-put p (x ∷ ks) zero k d h = ground arith
count_if-put p (x ∷ ks) (suc i) k d h = ground (arith, count_if-put p ks i k d)

flag_cells-put :
    (b : Board) (c : Coord)
    → IsSized b
    → Inside b c
    → flag_cells (put b c (toggle_flag (at b c))) + (if (at b c).flag then 1 else 0)
      ≡ flag_cells b + (if not (at b c).flag then 1 else 0)
unfolding flag_cells put at
flag_cells-put b c v i =
    count_if-put (λ k. k.flag) b.cells (index b.width c) _ new_cell (in_range b c v i)

sub_self : (z : ℤ) → z -ℤ z ≡ pos 0
unfolding ◌-ℤ◌
sub_self z = ground arith

-- With as many flags as mines none is left, also as an `int`.
no_bombs : (b : Board) → flag_cells b ≡ mine_cells b → eq_ℤ (bombs_count b) (pos 0) ≡ true
unfolding bombs_count bombs_total flags_count int_of_int64 to_int
no_bombs b e = rw (e, sub_self (to_int (mine_cells b))) refl

-- A flag is set where flags are left, or taken back.
pub toggle-Follows :
    (b : Board) (c : Coord)
    → IsGame b
    → Inside b c
    → (at b c).revealed ≡ false
    → ((not (at b c).flag && eq_ℤ (bombs_count b) (pos 0)) ≡ false)
    → Follows b (put b c (toggle_flag (at b c)))
toggle-Follows b c g i hidden left =
    let some_left : (flag_cells b ≡ mine_cells b) → (at b c).flag ≡ true =
      λ e. ground (arith, left, no_bombs b e) in
    let after = put b c (toggle_flag (at b c)) in
    let new = λ (q : Coord) (iq : Inside b q). at-put b c q (toggle_flag (at b c)) g.sized i iq in
    keeps-Follows b after g (put-IsSized b c _ g.sized) (put-width b c _) (put-height b c _)
      (λ q iq. ground (arith, new q iq, eq_coord→≡ c q))
      (ground (arith, flag_cells-put b c g.sized i, g.flags, some_left))
      (λ q iq. ground (arith, new q iq, g.closed q iq, hidden))

-- `coord` gives a coordinate of the board, or one that is not set.
pub is_set-coord :
    (b : Board) (c : Coord)
    → IsSized b
    → is_set (coord b c.x c.y) ≡ true
    → Inside b (coord b c.x c.y)
is_set-coord b c v h = elim (Inside-cases b c) [
  | inl i ↦ rw (coord-Inside b c v i) i
  | inr o ↦ absurd (ground (arith, coord-outside b c v o, h))
]
