-- ===== src/Board/Reveal/Exact.antt =====
-- `reveal_cells` as a whole.
use minesweeper.Prelude.{
  ◌+◌, ◌≡◌, refl, sym, subst, false, Bool-cases, ◌||◌, if◌then◌else◌, List, [], ◌∷◌, ◌∈◌, length,
  inl, inr, ◌↔◌, arith,
}
use minesweeper.Prelude.Int.{pos, eq_ℤ, eq_ℤ→≡}
use minesweeper.Outcome.{Outcome, ok}
use minesweeper.Board.{has_coord, Coord, Board, set_revealed, hidden_cells}
use minesweeper.Board.Grid.{
  has_coord→mem, mem→has_coord, Inside, IsSized, at, put, put-width, put-height, put-IsSized,
  at-put, at-put_self, cell-Inside, eq_coord→≡,
}
use minesweeper.Board.Reveal.{RevealResult, reveal_cells}
use minesweeper.Board.Neighbors.{Distinct}
use minesweeper.Board.Reveal.Region.{
  IsFresh, label, Reach, here, next, coords, reveal-Inside, hidden_cells-put,
}
use minesweeper.Board.Reveal.Invariant.{IsOpened, Inv}
use minesweeper.Board.Reveal.Loop.{reveal_loop-Ends}

-- A reveal at `start` that returned: what it reports, and the board that it leaves.
pub record Reveals (b : Board) (start : Coord) (r : Outcome (List RevealResult × Board))
    : Type 0 where
  pub found : List RevealResult
  pub after : Board
  pub returns : r ≡ ok (found, after)
  pub same_width : after.width ≡ b.width
  pub same_height : after.height ≡ b.height
  pub sized : IsSized after
  pub region : (q : Coord) → (q ∈ coords found) ↔ Reach b start q
  pub cells :
      (q : Coord)
      → Inside b q
      → at after q ≡ (if has_coord q (coords found) then set_revealed (at b q) else at b q)
  pub labels : (r : RevealResult) → r ∈ found → r.count ≡ label (at b r.coord)
  pub distinct : Distinct (coords found)
  pub total : hidden_cells after + length found ≡ hidden_cells b

module _ (b : Board) (start : Coord) (v : IsSized b) (inside : Inside b start)
    (fresh : IsFresh (at b start)) where
  IsOpened-start : IsOpened b start (put b start (set_revealed (at b start))) start
  IsOpened-start = record {
    inside = inside;
    fresh = fresh;
    reached = here;
    set = at-put_self b start _ v inside;
  }

  begin :
      (queue : List Coord)
      → ((q : Coord) → q ∈ queue → (q ≡ start) × (label (at b start) ≡ pos 0))
      → (label (at b start) ≡ pos 0 → start ∈ queue)
      → Inv b start start [] (record {
        queue = queue;
        visited = start ∷ [];
        revealed = (record { coord = start; count = label (at b start) }) ∷ [];
        board = put b start (set_revealed (at b start));
      })
  begin queue hq joins = record {
    same_width = put-width b start _;
    same_height = put-height b start _;
    sized = put-IsSized b start _ v;
    frame = λ q iq.
        ground
          (arith, eq_coord→≡ start q, at-put b start q (set_revealed (at b start)) v inside iq);
    opened = λ q m. elim m [
      | inl e ↦
          subst (λ z. IsOpened b start (put b start (set_revealed (at b start))) z) (sym e)
            IsOpened-start
      | inr n ↦ absurd n
    ];
    labels = λ r m. elim m [ inl e ↦ rw e | inr n ↦ absurd n ];
    distinct = (λ m. m, tt);
    total = omega (arith, hidden_cells-put b start v inside fresh.1);
    seen = λ q m iq fq. m;
    waiting = λ q m. (inl (hq q m).0, rw (hq q m).0 (hq q m).1);
    begun = inl refl;
    closed = λ p q m z adj iq fq. elim m [
      | inl e ↦ inr (inl (rw e (joins (rw e at z))))
      | inr n ↦ absurd n
    ];
  }

  -- With the queue empty, every path of the region has been followed.
  Reach-opened :
      (cur : Coord) (visited : List Coord) (found : List RevealResult) (after : Board)
      → Inv b start cur []
          (record { queue = []; visited = visited; revealed = found; board = after })
      → (q : Coord) → Reach b start q
      → q ∈ coords found
  Reach-opened cur visited found after i q here = i.begun
  Reach-opened cur visited found after i q (next {p} r z adj iq fq) =
      elim (i.closed p q (Reach-opened cur visited found after i p r) z adj iq fq) [
        | inl m ↦ m
        | inr (inl m) ↦ absurd m
        | inr (inr (e, m)) ↦ absurd m
      ]

  Inv-Reveals :
      (cur : Coord) (visited : List Coord) (found : List RevealResult) (after : Board)
      (r : Outcome (List RevealResult × Board))
      → Inv b start cur []
          (record { queue = []; visited = visited; revealed = found; board = after })
      → r ≡ ok (found, after)
      → Reveals b start r
  Inv-Reveals cur visited found after r i e = record {
    found = found;
    after = after;
    returns = e;
    same_width = i.same_width;
    same_height = i.same_height;
    sized = i.sized;
    region = λ q. (λ m. (i.opened q m).reached, Reach-opened cur visited found after i q);
    cells = λ q iq. elim (Bool-cases (has_coord q (coords found))) [
      | inl m ↦ rw m (i.opened q (has_coord→mem q _ m)).set
      | inr m ↦ elim (i.frame q iq) [
        | inl k ↦ absurd (mem→has_coord q _ m k)
        | inr same ↦ rw m same
      ]
    ];
    labels = i.labels;
    distinct = i.distinct;
    total = i.total;
  }

-- On a sized board, for a coordinate inside it whose cell is neither flagged nor revealed:
-- `reveal_cells` returns, without a throw and within its fuel; it reports each coordinate that is
-- reached from the start through cells labelled 0, over cells that were neither flagged nor
-- revealed, exactly once and no other, each with its label; exactly the reported cells get the
-- revealed bit and no cell changes otherwise; and the count of unrevealed cells falls by the number
-- of reports.
pub reveal_cells-Reveals :
    (b : Board) (start : Coord)
    → IsSized b
    → Inside b start
    → IsFresh (at b start)
    → Reveals b start (reveal_cells b start)
unfolding reveal_cells
reveal_cells-Reveals b start v inside fresh =
    let read = cell-Inside b start v inside in
    let free : ((at b start).flag || (at b start).revealed) ≡ false = ground (arith, fresh) in
    let shown = reveal-Inside b start v inside in
    let after = put b start (set_revealed (at b start)) in
    elim (Bool-cases (eq_ℤ (label (at b start)) (pos 0))) [
      | inl z ↦
          let run =
            reveal_loop-Ends b start (hidden_cells after + 1) start (start ∷ []) (start ∷ []) _
              after
              (begin b start v inside fresh (start ∷ [])
                (λ q m. (elim m [ inl e ↦ e | inr n ↦ absurd n ], eq_ℤ→≡ _ _ z)) (λ _. inl refl))
              (omega arith) in
          Inv-Reveals b start v inside fresh run.cur run.visited run.out.0 run.out.1 _ run.inv
            (rw (read, free, shown, z) run.returns)
      | inr z ↦
          Inv-Reveals b start v inside fresh start (start ∷ []) _ after _
            (begin b start v inside fresh [] (λ q m. absurd m) (λ e. absurd (ground (arith, z, e))))
            (rw (read, free, shown, z))
    ]

-- A flagged or revealed cell inside a sized board: the call reports nothing and changes nothing.
pub reveal_cells_closed :
    (b : Board) (start : Coord)
    → IsSized b
    → Inside b start
    → ¬ IsFresh (at b start)
    → reveal_cells b start ≡ ok ([], b)
unfolding reveal_cells
reveal_cells_closed b start v inside taken = rw (cell-Inside b start v inside) (ground arith)
