-- ===== src/Board/Reveal/Loop.antt =====
-- The loops of `reveal_cells`, and their fuel.
use minesweeper.Prelude.{
  ℕ, zero, suc, ◌+◌, ◌≤◌, ◌≡◌, refl, true, false, Bool-cases, ◌||◌, List, [], ◌∷◌, ◌++◌, ◌∈◌,
  length, ◌⊎◌, inl, inr, arith, length-append, mem-append_one,
}
use minesweeper.Prelude.Int.{pos, eq_ℤ, eq_ℤ→≡}
use minesweeper.Outcome.{Outcome, ok}
use minesweeper.Board.{has_coord, Coord, Board, set_revealed, neighbors, hidden_cells}
use minesweeper.Board.Grid.{has_coord→mem, Inside, at, put, cell-Inside}
use minesweeper.Board.Neighbors.{Adjacent, mem-neighbors}
use minesweeper.Board.Reveal.{
  RevealResult, Front, open_neighbor, visit_neighbor, visit_neighbors, reveal_loop,
}
use minesweeper.Board.Reveal.Region.{
  mem-snoc, IsFresh, label, coords, reveal-Inside, hidden_cells-put,
}
use minesweeper.Board.Reveal.Invariant.{Inv, Inv-pop, Inv-moved, Inv-open, Inv-skip}

-- How much the loops still have to do.
abbrev pub work : Board → List Coord → ℕ
work b queue = hidden_cells b + length queue

module _ (b : Board) (start : Coord) where
  -- A visit that ends normally keeps the invariant.
  record Steps (cur : Coord) (todo : List Coord) (s : Front) (r : Outcome Front) : Type 0 where
    out : Front
    returns : r ≡ ok out
    inv : Inv b start cur todo out
    still : cur ∈ coords out.revealed
    less : work out.board out.queue ≤ work s.board s.queue

  module _ (cur n : Coord) (todo : List Coord) (s : Front) (i : Inv b start cur (n ∷ todo) s)
      (is_open : cur ∈ coords s.revealed) (zero_label : label (at b cur) ≡ pos 0)
      (near : Adjacent cur n) (inside : Inside b n) where
    within : Inside s.board n
    within = Inv-moved b start i n inside

    -- A cell that the board shows as taken was opened, or was taken from the start.
    taken_before :
        ((at s.board n).flag || (at s.board n).revealed) ≡ true
        → IsFresh (at b n)
        → n ∈ coords s.revealed
    taken_before taken fresh = elim (i.frame n inside) [
      | inl m ↦ m
      | inr e ↦ absurd (ground (arith, taken, fresh, e))
    ]

    -- A cell that the board shows as fresh is as it was at the start, and was not opened.
    untouched :
        ((at s.board n).flag || (at s.board n).revealed) ≡ false
        → (¬ (n ∈ coords s.revealed)) × (at s.board n ≡ at b n)
    untouched free =
        let closed_yet : ¬ (n ∈ coords s.revealed) =
          λ m. ground (arith, free, (i.opened n m).set) in
        (closed_yet, elim (i.frame n inside) [ inl m ↦ absurd (closed_yet m) | inr e ↦ e ])

    open_neighbor-Steps :
        (visited' : List Coord)
        → ((q : Coord) → (q ∈ visited') → (q ∈ s.visited) ⊎ (q ≡ n))
        → Steps cur todo s (open_neighbor n (record s { visited = visited' }))
    unfolding open_neighbor
    open_neighbor-Steps visited' hv =
        let read = cell-Inside s.board n i.sized within in
        elim (Bool-cases ((at s.board n).flag || (at s.board n).revealed)) [
          | inl taken ↦ record {
            out = record s { visited = visited' };
            returns = rw (read, taken);
            inv = Inv-skip b start cur n todo visited' s i (taken_before taken) hv;
            still = is_open;
            less = omega arith;
          }
          | inr free ↦
              let (unlisted, same) = untouched free in
              let fresh : IsFresh (at b n) = ground (arith, free, same) in
              let shown = reveal-Inside s.board n i.sized within in
              let one : RevealResult = record { coord = n; count = label (at s.board n) } in
              let opened =
                Inv-open b start cur n todo s i is_open zero_label near inside same fresh
                  unlisted in
              let listed = (mem-snoc cur s.revealed one).1 (inl is_open) in
              let fewer = hidden_cells-put s.board n i.sized within (rw same fresh.1) in
              elim (Bool-cases (eq_ℤ (label (at s.board n)) (pos 0))) [
                | inl z ↦
                    let is_zero : label (at b n) ≡ pos 0 = eq_ℤ→≡ _ _ (rw same at z) in
                    record {
                      out = record {
                        queue = s.queue ++ (n ∷ []);
                        visited = visited';
                        revealed = s.revealed ++ (one ∷ []);
                        board = put s.board n (set_revealed (at s.board n));
                      };
                      returns = rw (read, free, shown, z);
                      inv =
                          opened (s.queue ++ (n ∷ [])) visited' hv
                            (λ q m. elim ((mem-append_one q n s.queue).0 m) [
                              | inl a ↦ inl a
                              | inr e ↦ inr (e, is_zero)
                            ])
                            (λ q m. (mem-append_one q n s.queue).1 (inl m))
                            (λ _. (mem-append_one n n s.queue).1 (inr refl));
                      still = listed;
                      less = omega (arith, fewer, length-append {0} s.queue (n ∷ []));
                    }
                | inr z ↦ record {
                  out = record {
                    queue = s.queue;
                    visited = visited';
                    revealed = s.revealed ++ (one ∷ []);
                    board = put s.board n (set_revealed (at s.board n));
                  };
                  returns = rw (read, free, shown, z);
                  inv =
                      opened s.queue visited' hv (λ q m. inl m) (λ q m. m)
                        (λ e. absurd (ground (arith, z, same, e)));
                  still = listed;
                  less = omega (arith, fewer);
                }
              ]
        ]

    visit_neighbor-Steps : Steps cur todo s (visit_neighbor n s)
    unfolding visit_neighbor
    visit_neighbor-Steps = elim (Bool-cases (has_coord n s.visited)) [
      | inl old ↦ record {
        out = s;
        returns = rw old;
        inv =
            Inv-skip b start cur n todo s.visited s i
              (i.seen n (has_coord→mem n s.visited old) inside) (λ q m. inl m);
        still = is_open;
        less = omega arith;
      }
      | inr new ↦ rw new (open_neighbor-Steps (n ∷ s.visited) (λ q m. ground arith))
    ]

  visit_neighbors-Steps :
      (cur : Coord) (ns : List Coord) (s : Front)
      → Inv b start cur ns s
      → cur ∈ coords s.revealed
      → label (at b cur) ≡ pos 0
      → ((n : Coord) → n ∈ ns → Adjacent cur n × Inside b n)
      → Steps cur [] s (visit_neighbors ns s)
  unfolding visit_neighbors
  visit_neighbors-Steps cur [] s i is_open z around = record {
    out = s;
    returns = refl;
    inv = i;
    still = is_open;
    less = omega arith;
  }
  visit_neighbors-Steps cur (n ∷ ns) s i is_open z around =
      let first =
        visit_neighbor-Steps cur n ns s i is_open z (around n (inl refl)).0
          (around n (inl refl)).1 in
      let rest =
        visit_neighbors-Steps cur ns first.out first.inv first.still z (λ m h. around m (inr h)) in
      record {
        out = rest.out;
        returns = rw first.returns rest.returns;
        inv = rest.inv;
        still = rest.still;
        less = omega (arith, first.less, rest.less);
      }

  -- What the `while` loop ends with.
  pub record Ends (r : Outcome (List RevealResult × Board)) : Type 0 where
    pub out : List RevealResult × Board
    pub visited : List Coord
    pub cur : Coord
    pub returns : r ≡ ok out
    pub inv :
        Inv b start cur []
          (record { queue = []; visited = visited; revealed = out.0; board = out.1 })

  pub reveal_loop-Ends :
      (fuel : ℕ) (cur : Coord) (queue visited : List Coord) (revealed : List RevealResult)
      (now : Board)
      → Inv b start cur []
          (record { queue = queue; visited = visited; revealed = revealed; board = now })
      → work now queue ≤ fuel
      → Ends (reveal_loop fuel queue visited revealed now)
  unfolding reveal_loop
  reveal_loop-Ends fuel cur [] visited revealed now i h = record {
    out = (revealed, now);
    visited = visited;
    returns = refl;
    cur = cur;
    inv = i;
  }
  reveal_loop-Ends zero cur (q ∷ queue) visited revealed now i h = absurd (omega arith)
  reveal_loop-Ends (suc fuel) cur (q ∷ queue) visited revealed now i h =
      let j = Inv-pop b start cur q queue visited revealed now i in
      let (is_open, z) = i.waiting q (inl refl) in
      let within_now = Inv-moved b start i q (i.opened q is_open).inside in
      let around : (n : Coord) → n ∈ neighbors now q → Adjacent q n × Inside b n = λ n m.
        let (adj, iq) = (mem-neighbors now q n i.sized within_now).0 m in
        let w = i.same_width in let t = i.same_height in (adj, omega arith) in
      let s = visit_neighbors-Steps q (neighbors now q) _ j is_open z around in
      let rest =
        reveal_loop-Ends fuel q s.out.queue s.out.visited s.out.revealed s.out.board s.inv
          (omega (arith, s.less)) in
      record {
        out = rest.out;
        visited = rest.visited;
        cur = rest.cur;
        returns = rw s.returns rest.returns;
        inv = rest.inv;
      }
