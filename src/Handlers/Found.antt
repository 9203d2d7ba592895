-- ===== src/Handlers/Found.antt =====
-- The cells that a request to reveal found, whether by one flood or by the floods around a cell.
use minesweeper.Prelude.{
  ◌+◌, ◌≡◌, refl, ◌∙◌, Bool, true, false, not, ◌&&◌, ◌||◌, Bool-cases, if◌then◌else◌, List, [], ◌∷◌,
  ◌++◌, ◌∈◌, length, length-append, All, All-of, All-append, All-map, inl, inr, arith,
}
use minesweeper.Outcome.{Outcome, ok}
use minesweeper.Board.{Coord, Cell, Board, has_coord, set_revealed, hidden_cells}
use minesweeper.Board.Grid.{Inside, at, cell-Inside}
use minesweeper.Board.Reveal.{RevealResult, reveal_cells}
use minesweeper.Board.Reveal.Region.{IsFresh, label, coords, Reach, here, next}
use minesweeper.Board.Reveal.Exact.{Reveals, reveal_cells-Reveals}
use minesweeper.Handlers.{reveal_around}
use minesweeper.Handlers.Game.{IsGame, Follows, Follows-refl, Follows-trans, Reveals-Follows}

-- What was found on a board, and the board that is left.
pub record Finds (b after : Board) (found : List RevealResult) : Type 0 where
  pub follows : Follows b after
  pub known : All (λ r. Inside b r.coord × (r.count ≡ label (at b r.coord))) found
  pub shown :
      (q : Coord)
      → Inside b q
      → at after q ≡ (if has_coord q (coords found) then set_revealed (at b q) else at b q)
  pub total : hidden_cells after + length found ≡ hidden_cells b

pub Finds-nothing : (b : Board) → IsGame b → Finds b b []
Finds-nothing b g = record {
  follows = Follows-refl b g;
  known = tt;
  shown = λ q i. refl;
  total = omega arith;
}

Reach-Inside : (b : Board) (start q : Coord) → Inside b start → Reach b start q → Inside b q
Reach-Inside b start q i here = i
Reach-Inside b start q i (next r z a inside f) = inside

mem-coords : (r : RevealResult) (rs : List RevealResult) → r ∈ rs → r.coord ∈ coords rs
mem-coords r [] m = m
mem-coords r (s ∷ rs) (inl e) = inl (rw e refl)
mem-coords r (s ∷ rs) (inr m) = inr (mem-coords r rs m)

pub Reveals-Finds :
    (b : Board) (start : Coord)
    → IsGame b
    → Inside b start
    → IsFresh (at b start)
    → (run : Reveals b start (reveal_cells b start)) → Finds b run.after run.found
Reveals-Finds b start g i fresh run = record {
  follows = Reveals-Follows b start g fresh run;
  known = All-of _ run.found (λ r m. (
    Reach-Inside b start r.coord i ((run.region r.coord).0 (mem-coords r run.found m)),
    run.labels r m,
  ));
  shown = run.cells;
  total = run.total;
}

coords-append :
    (rs ss : List RevealResult) (q : Coord)
    → has_coord q (coords (rs ++ ss)) ≡ (has_coord q (coords rs) || has_coord q (coords ss))
coords-append [] ss q = refl
coords-append (r ∷ rs) ss q = ground (arith, coords-append rs ss q)

shown_twice :
    (k : Cell) (m n : Bool)
    → (if n
        then set_revealed (if m then set_revealed k else k)
        else (if m then set_revealed k else k))
      ≡ (if m || n then set_revealed k else k)
shown_twice k true true = refl
shown_twice k true false = refl
shown_twice k false true = refl
shown_twice k false false = refl

label_if : (k : Cell) (m : Bool) → label (if m then set_revealed k else k) ≡ label k
label_if k true = refl
label_if k false = refl

-- What is found on the board that is left is found on top.
pub Finds-append :
    (b c d : Board) (found more : List RevealResult)
    → Finds b c found
    → Finds c d more
    → Finds b d (found ++ more)
Finds-append b c d found more f g = record {
  follows = Follows-trans b c d f.follows g.follows;
  known = All-append _ found more f.known (
      All-map _ _ more
        (λ r h.
          let i : Inside b r.coord =
            omega (arith, h.0, f.follows.same_width, f.follows.same_height) in
          (i, h.1 ∙ rw (f.shown r.coord i) (label_if (at b r.coord) _)))
        g.known);
  shown = λ q i.
      let ic : Inside c q = omega (arith, f.follows.same_width, f.follows.same_height) in
      g.shown q ic ∙ rw (f.shown q i, coords-append found more q) (shown_twice (at b q) _ _);
  total = omega (arith, f.total, g.total, length-append found more);
}

-- The loop over the neighbours of a checked cell.
pub record Around (b : Board) (r : Outcome (List RevealResult × Board)) : Type 0 where
  pub found : List RevealResult
  pub after : Board
  pub returns : r ≡ ok (found, after)
  pub finds : Finds b after found

visit_one :
    (b : Board) (n : Coord)
    → IsGame b
    → Inside b n
    → Around b (if not (at b n).revealed && not (at b n).flag then reveal_cells b n else ok ([], b))
visit_one b n g i = elim (Bool-cases (not (at b n).revealed && not (at b n).flag)) [
  | inl ready ↦
      let fresh : IsFresh (at b n) = ground (arith, ready) in
      let run = reveal_cells-Reveals b n g.sized i fresh in
      record {
        found = run.found;
        after = run.after;
        returns = rw (ready, run.returns);
        finds = Reveals-Finds b n g i fresh run;
      }
  | inr shut ↦ record { found = []; after = b; returns = rw shut; finds = Finds-nothing b g }
]

pub reveal_around-Around :
    (ns : List Coord) (b : Board)
    → IsGame b
    → ((n : Coord) → n ∈ ns → Inside b n)
    → Around b (reveal_around ns b)
unfolding reveal_around
reveal_around-Around [] b g h = record {
  found = [];
  after = b;
  returns = refl;
  finds = Finds-nothing b g;
}
reveal_around-Around (n ∷ ns) b g h =
    let first = visit_one b n g (h n (inl refl)) in
    let f = first.finds.follows in
    let rest =
      reveal_around-Around ns first.after f.game
        (λ m k. let i = h m (inr k) in omega (arith, f.same_width, f.same_height, i)) in
    record {
      found = first.found ++ rest.found;
      after = rest.after;
      returns = rw (cell-Inside b n g.sized (h n (inl refl)), first.returns, rest.returns);
      finds = Finds-append b first.after rest.after first.found rest.found first.finds rest.finds;
    }
