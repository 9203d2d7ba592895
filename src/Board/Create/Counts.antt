-- ===== src/Board/Create/Counts.antt =====
-- The loop of `compute_neighbor_counts`.
use minesweeper.Prelude.{
  get_or, set, ℕ, zero, suc, ◌≡◌, refl, ◌∙◌, Bool, if◌then◌else◌, List, [], ◌∷◌, ◌∈◌, count_if, inl,
  inr, arith,
}
use minesweeper.Prelude.Int.{pos}
use minesweeper.Outcome.{Outcome, ok}
use minesweeper.Board.{
  mine_cells, new_cell, Coord, Cell, Board, has_coord, set_neighbor_bombs_count, is_valid_x,
  is_valid_y, coord, keep_valid, neighbors, count_cells, candidates,
}
use minesweeper.Board.Grid.{
  index, Inside, IsSized, at, put, put-width, put-height, put-IsSized, at-put, cell-Inside,
  update_cell-Inside, eq_coord→≡,
}
use minesweeper.Board.Neighbors.{mem-neighbors}
use minesweeper.Board.Reveal.Safe.{mines_around}
use minesweeper.Board.Create.{count_at}

-- `neighbors` depends on the sides alone.
keep_valid_sides :
    (b c : Board) (ds : List Coord)
    → b.width ≡ c.width
    → b.height ≡ c.height
    → keep_valid b ds ≡ keep_valid c ds
unfolding keep_valid coord is_valid_x is_valid_y
keep_valid_sides b c [] w h = refl
keep_valid_sides b c (d ∷ ds) w h = rw (w, h, keep_valid_sides b c ds w h)

pub neighbors_sides :
    (b c : Board) (p : Coord)
    → b.width ≡ c.width
    → b.height ≡ c.height
    → neighbors b p ≡ neighbors c p
unfolding neighbors
neighbors_sides b c p w h = keep_valid_sides b c (candidates p.x p.y) w h

-- Reads of the cells at inside coordinates.
pub count_cells-Inside :
    (b : Board) (p : Cell → Bool) (ds : List Coord)
    → IsSized b
    → ((d : Coord) → d ∈ ds → Inside b d)
    → count_cells b p ds ≡ ok (count_if (λ d. p (at b d)) ds)
unfolding count_cells
count_cells-Inside b p [] v h = refl
count_cells-Inside b p (d ∷ ds) v h =
    rw (cell-Inside b d v (h d (inl refl)), count_cells-Inside b p ds v (λ e m. h e (inr m)))
      (ground arith)

pub count_if_cong :
    {A : Type 0} (p q : A → Bool) (xs : List A)
    → ((x : A) → x ∈ xs → p x ≡ q x)
    → count_if p xs ≡ count_if q xs
count_if_cong p q [] h = refl
count_if_cong p q (x ∷ xs) h =
    ground (arith, h x (inl refl), count_if_cong p q xs (λ y m. h y (inr m)))

-- A cell with its count set right.
abbrev pub counted_cell : Board → Coord → Cell
counted_cell b q = set_neighbor_bombs_count (pos (mines_around b q)) (at b q)

-- The count of one cell does not change the mines around any.
mines_around-put :
    (b : Board) (c q : Coord)
    → IsSized b
    → Inside b c
    → Inside b q
    → mines_around (put b c (counted_cell b c)) q ≡ mines_around b q
mines_around-put b c q v i iq =
    let b1 = put b c (counted_cell b c) in
    rw (neighbors_sides b1 b q (put-width b c _) (put-height b c _)) (
      count_if_cong (λ d. (at b1 d).boom) (λ d. (at b d).boom) (neighbors b q)
        λ d m. ground (
          arith,
          at-put b c d (counted_cell b c) v i ((mem-neighbors b q d v iq).0 m).1,
          eq_coord→≡ c d,
        ))

count_if-set_same :
    (p : Cell → Bool) (ks : List Cell) (i : ℕ) (k d : Cell)
    → p k ≡ p (get_or ks i d)
    → count_if p (set ks i k) ≡ count_if p ks
count_if-set_same p [] i k d e = refl
count_if-set_same p (x ∷ ks) zero k d e = ground (arith, e)
count_if-set_same p (x ∷ ks) (suc i) k d e = ground (arith, count_if-set_same p ks i k d)

mine_cells-put :
    (b : Board) (c : Coord) (k : Cell)
    → k.boom ≡ (at b c).boom
    → mine_cells (put b c k) ≡ mine_cells b
unfolding mine_cells put at
mine_cells-put b c k e = count_if-set_same (λ k. k.boom) b.cells (index b.width c) k new_cell e

pub record Counts (b : Board) (cs : List Coord) (r : Outcome Board) : Type 0 where
  pub after : Board
  pub returns : r ≡ ok after
  pub same_width : after.width ≡ b.width
  pub same_height : after.height ≡ b.height
  pub sized : IsSized after
  pub total : mine_cells after ≡ mine_cells b
  pub cells :
      (q : Coord) → Inside b q → at after q ≡ (if has_coord q cs then counted_cell b q else at b q)

pub count_at-Counts :
    (b : Board) (cs : List Coord)
    → IsSized b
    → ((c : Coord) → c ∈ cs → Inside b c)
    → Counts b cs (count_at b cs)
unfolding count_at
count_at-Counts b [] v h = record {
  after = b;
  returns = refl;
  same_width = refl;
  same_height = refl;
  sized = v;
  total = refl;
  cells = λ q i. refl;
}
count_at-Counts b (c ∷ cs) v h =
    let ic = h c (inl refl) in
    let b1 = put b c (counted_cell b c) in
    let w = put-width b c (counted_cell b c) in
    let t = put-height b c (counted_cell b c) in
    let rest =
      count_at-Counts b1 cs (put-IsSized b c _ v) (λ d m. let i = h d (inr m) in omega arith) in
    record {
      after = rest.after;
      returns =
          rw
            (
              count_cells-Inside b (λ k. k.boom) (neighbors b c) v
                  (λ d m. ((mem-neighbors b c d v ic).0 m).1),
              update_cell-Inside b c (set_neighbor_bombs_count (pos (mines_around b c))) v ic,
            )
            rest.returns;
      same_width = rest.same_width ∙ w;
      same_height = rest.same_height ∙ t;
      sized = rest.sized;
      total = rest.total ∙ mine_cells-put b c (counted_cell b c) refl;
      cells = λ q iq. ground (
        arith,
        rest.cells q (let i = iq in omega arith),
        mines_around-put b c q v ic iq,
        at-put b c q (counted_cell b c) v ic iq,
        eq_coord→≡ c q,
      );
    }
