-- ===== src/Board/Create/Complete.antt =====
-- `all_coords`, and `compute_neighbor_counts` over it.
use minesweeper.Prelude.{
  ℕ, zero, suc, ◌+◌, ◌≤◌, ◌<◌, ◌≡◌, ◌∙◌, Bool-cases, ◌∈◌, inl, inr, ◌↔◌, arith, mem-append,
}
use minesweeper.Prelude.Int.{pos, pos_part}
use minesweeper.Outcome.{Outcome, ok}
use minesweeper.Board.{mine_cells, Coord, Board, has_coord, neighbors}
use minesweeper.Board.Grid.{Inside, IsSized, at, coord-Inside, mem→has_coord}
use minesweeper.Board.Neighbors.{mem-neighbors}
use minesweeper.Board.Reveal.Safe.{mines_around, IsCounted}
use minesweeper.Board.Create.{row_coords, rows_coords, all_coords, compute_neighbor_counts}
use minesweeper.Board.Create.Counts.{count_at-Counts, count_if_cong, neighbors_sides}

mem-row_coords :
    (b : Board) (y x left : ℕ) (q : Coord)
    → IsSized b
    → 1 ≤ y
    → y ≤ b.height
    → 1 ≤ x
    → x + left ≤ b.width + 1
    → (q ∈ row_coords b y x left) ↔ ((q.y ≡ pos y) × (x ≤ pos_part q.x) × (pos_part q.x < x + left))
unfolding row_coords
mem-row_coords b y x zero q v hy h hx hw = (λ m. absurd m, λ r. absurd (omega arith))
mem-row_coords b y x (suc left) q v hy h hx hw =
    let here = coord-Inside b (record { x = pos x; y = pos y }) v (omega arith) in
    let rest = mem-row_coords b y (x + 1) left q v hy h (omega arith) (omega arith) in
    (ground (arith, here, rest.0), ground (arith, here, rest.1))

mem-rows_coords :
    (b : Board) (y left : ℕ) (q : Coord)
    → IsSized b
    → 1 ≤ y
    → y + left ≤ b.height + 1
    → (q ∈ rows_coords b y left) ↔ (
        (y ≤ pos_part q.y)
        × (pos_part q.y < y + left)
        × (1 ≤ pos_part q.x)
        × (pos_part q.x ≤ b.width))
unfolding rows_coords
mem-rows_coords b y zero q v hy h = (λ m. absurd m, λ r. absurd (omega arith))
mem-rows_coords b y (suc left) q v hy h =
    let row = mem-row_coords b y 1 b.width q v hy (omega arith) (omega arith) (omega arith) in
    let rest = mem-rows_coords b (y + 1) left q v (omega arith) (omega arith) in
    let joined = mem-append q (row_coords b y 1 b.width) (rows_coords b (y + 1) left) in
    (ground (arith, row.0, rest.0, joined.0), ground (arith, row.1, rest.1, joined.1))

-- On a sized board `all_coords` lists the coordinates inside it, and no other.
pub mem-all_coords : (b : Board) (q : Coord) → IsSized b → (q ∈ all_coords b) ↔ Inside b q
unfolding all_coords
mem-all_coords b q v =
    let rows = mem-rows_coords b 1 b.height q v (omega arith) (omega arith) in
    (λ m. let r = rows.0 m in omega arith, λ i. rows.1 (omega arith))

-- The counts are right, and the rest of each cell is as it was.
pub record Computes (b : Board) (r : Outcome Board) : Type 0 where
  pub after : Board
  pub returns : r ≡ ok after
  pub same_width : after.width ≡ b.width
  pub same_height : after.height ≡ b.height
  pub sized : IsSized after
  pub total : mine_cells after ≡ mine_cells b
  pub counted : IsCounted after
  pub kept :
      (q : Coord)
      → Inside b q
      → ((at after q).boom ≡ (at b q).boom)
        × ((at after q).flag ≡ (at b q).flag)
        × ((at after q).revealed ≡ (at b q).revealed)

-- On a sized board `compute_neighbor_counts` returns; afterwards each cell holds the number of
-- mines around it, and the sides, the mines and their number, the flags and the revealed cells are
-- as before.
pub compute_neighbor_counts-Computes :
    (b : Board) → IsSized b → Computes b (compute_neighbor_counts b)
unfolding compute_neighbor_counts
compute_neighbor_counts-Computes b v =
    let run = count_at-Counts b (all_coords b) v (λ c m. (mem-all_coords b c v).0 m) in
    let cell_after : (q : Coord)
        → Inside b q
        → at run.after q ≡ record (at b q) { count = pos (mines_around b q) } =
      λ q i. elim (Bool-cases (has_coord q (all_coords b))) [
        | inl m ↦ run.cells q i ∙ rw m
        | inr m ↦ absurd (mem→has_coord q _ m ((mem-all_coords b q v).1 i))
      ] in
    record {
      after = run.after;
      returns = run.returns;
      same_width = run.same_width;
      same_height = run.same_height;
      sized = run.sized;
      total = run.total;
      counted = λ c i.
          let w = run.same_width in
          let h = run.same_height in
          let ic : Inside b c = omega arith in
          let around : mines_around run.after c ≡ mines_around b c =
            rw (neighbors_sides run.after b c w h) (
              count_if_cong (λ d. (at run.after d).boom) (λ d. (at b d).boom) (neighbors b c)
                (λ d m. ground (arith, cell_after d ((mem-neighbors b c d v ic).0 m).1))) in
          ground (arith, cell_after c ic, around);
      kept = λ q i. ground (arith, cell_after q i);
    }
