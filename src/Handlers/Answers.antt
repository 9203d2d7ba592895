-- ===== src/Handlers/Answers.antt =====
-- What the handlers do with a cell of the board.
use minesweeper.Prelude.{
  ◌≡◌, refl, true, not, ◌&&◌, Bool-cases, if◌then◌else◌, count_if, inl, inr, arith,
}
use minesweeper.Prelude.Int.{ℤ, pos, negsuc, eq_ℤ}
use minesweeper.Outcome.{Outcome, ok}
use minesweeper.Board.{
  Coord, Board, is_set, toggle_flag, neighbors, bombs_count, count_neighbors, neighbor_flags_count,
  neighbor_bombs_count,
}
use minesweeper.Board.Grid.{Inside, IsSized, at, put, cell-Inside, update_cell-Inside}
use minesweeper.Board.Neighbors.{mem-neighbors}
use minesweeper.Board.Reveal.Exact.{reveal_cells-Reveals, reveal_cells_closed}
use minesweeper.Board.Create.Counts.{count_cells-Inside}
use minesweeper.Handlers.{HandlerResult, reveal_at, flag_at, check_at}
use minesweeper.Handlers.Found.{reveal_around-Around}
use minesweeper.Handlers.Game.{IsGame, Follows, Follows-refl, Reveals-Follows, toggle-Follows}

-- A request that was answered, without an exception or an access out of bounds.
pub record Serves (b : Board) (r : Outcome (HandlerResult × Board)) : Type 0 where
  pub result : HandlerResult
  pub after : Board
  pub returns : r ≡ ok (result, after)
  pub follows : Follows b after

answered :
    (b after : Board) (result : HandlerResult) → Follows b after → Serves b (ok (result, after))
answered b after result f = record { result = result; after = after; returns = refl; follows = f }

-- An answer that leaves the board alone.
pub unchanged : (b : Board) (result : HandlerResult) → IsGame b → Serves b (ok (result, b))
unchanged b result g = answered b b result (Follows-refl b g)

pub flag_at-Serves :
    (b : Board) (c : Coord) → IsGame b → Inside b c → Serves b (flag_at b c (at b c))
unfolding flag_at
flag_at-Serves b c g i = elim (Bool-cases (at b c).revealed) [
  | inl shown ↦ rw shown (unchanged b _ g)
  | inr hidden ↦ elim (Bool-cases (not (at b c).flag && eq_ℤ (bombs_count b) (pos 0))) [
    | inl none_left ↦ rw (hidden, none_left) (unchanged b _ g)
    | inr left ↦
        rw (hidden, left, update_cell-Inside b c toggle_flag g.sized i)
          (answered b (put b c (toggle_flag (at b c))) _ (toggle-Follows b c g i hidden left))
  ]
]

pub reveal_at-Serves :
    (b : Board) (c : Coord) → IsGame b → Inside b c → Serves b (reveal_at b c (at b c))
unfolding reveal_at
reveal_at-Serves b c g i = elim (Bool-cases (at b c).flag) [
  | inl flagged ↦ rw flagged (unchanged b _ g)
  | inr free ↦ elim (Bool-cases (at b c).boom) [
    | inl mine ↦ rw (free, mine) (unchanged b _ g)
    | inr safe ↦ elim (Bool-cases (at b c).revealed) [
      | inl shown ↦
          rw
            (free, safe, reveal_cells_closed b c g.sized i (λ f. absurd (ground (arith, shown, f))))
            (unchanged b _ g)
      | inr hidden ↦
          let run = reveal_cells-Reveals b c g.sized i (free, hidden) in
          rw (free, safe, run.returns)
            (answered b run.after _ (Reveals-Follows b c g (free, hidden) run))
    ]
  ]
]

-- The two counts that a check compares are read.
pub neighbor_flags_count-Inside :
    (b : Board) (c : Coord) → IsSized b → Inside b c → (n : ℤ) × (neighbor_flags_count b c ≡ ok n)
unfolding neighbor_flags_count count_neighbors
neighbor_flags_count-Inside b c v i =
    let counted =
      count_cells-Inside b (λ k. k.flag) (neighbors b c) v
        (λ d m. ((mem-neighbors b c d v i).0 m).1) in
    let set : is_set c ≡ true = ground (arith, i) in
    (pos (count_if (λ d. (at b d).flag) (neighbors b c)), rw (set, counted) refl)

pub neighbor_bombs_count-Inside :
    (b : Board) (c : Coord) → IsSized b → Inside b c → (n : ℤ) × (neighbor_bombs_count b c ≡ ok n)
unfolding neighbor_bombs_count
neighbor_bombs_count-Inside b c v i =
    let set : is_set c ≡ true = ground (arith, i) in
    (if (at b c).boom then negsuc 0 else (at b c).count, rw (set, cell-Inside b c v i) refl)

pub check_at-Serves :
    (b : Board) (c : Coord) → IsGame b → Inside b c → Serves b (check_at b c (at b c))
unfolding check_at
check_at-Serves b c g i = elim (Bool-cases (at b c).revealed) [
  | inr hidden ↦ rw hidden (unchanged b _ g)
  | inl shown ↦ elim (Bool-cases (at b c).boom) [
    | inl mine ↦ rw (shown, mine) (unchanged b _ g)
    | inr safe ↦
        let (around, read_flags) = neighbor_flags_count-Inside b c g.sized i in
        let (label, read_bombs) = neighbor_bombs_count-Inside b c g.sized i in
        elim (Bool-cases (eq_ℤ around label)) [
          | inr other ↦ rw (shown, safe, read_flags, read_bombs, other) (unchanged b _ g)
          | inl same ↦
              let run =
                reveal_around-Around (neighbors b c) b g
                  (λ d m. ((mem-neighbors b c d g.sized i).0 m).1) in
              rw (shown, safe, read_flags, read_bombs, same, run.returns)
                (answered b run.after _ run.finds.follows)
        ]
  ]
]
