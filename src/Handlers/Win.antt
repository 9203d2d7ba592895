-- ===== src/Handlers/Win.antt =====
-- `board_check_handler` and the end of a game.
use minesweeper.Prelude.{
  ℕ, zero, suc, ◌≤◌, ◌<◌, ◌≡◌, ◌*◌, ◌^◌, ◌∙◌, refl, sym, Bool, true, false, not, ◌==◌, Bool-cases,
  List, [], ◌∷◌, length, get_or, count_if, ◌↔◌, inl, inr, arith,
}
use minesweeper.Outcome.{ok}
use minesweeper.Parameter.{Entries, text, string, no_entries, emplace, contains, append}
use minesweeper.Prelude.Int.{eq_ℤ, to_int-eq-pos}
use minesweeper.Handlers.Sizes.{count_if_le}
use minesweeper.Board.{
  Coord, Cell, Board, new_cell, hidden_cells, mine_cells, none_of_cell, unrevealed_count,
  bombs_total,
}
use minesweeper.Board.Grid.{Inside, at, index, in_range}
use minesweeper.Board.Cells.{all_cells, count_if_eq}
use minesweeper.Handlers.{body, is_bad, board_check_handler}
use minesweeper.Handlers.Game.{IsGame}

-- Every mine is flagged, and every other cell is revealed.
abbrev pub IsWon : Board → Type 0
IsWon b =
    (q : Coord)
    → Inside b q
    → ((at b q).boom ≡ true → (at b q).flag ≡ true)
      × ((at b q).boom ≡ false → (at b q).revealed ≡ true)

-- If a test implies another and as many cells pass either, they agree.
count_if-le :
    (p q : Cell → Bool) (xs : List Cell) (d : Cell)
    → ((i : ℕ) → i < length xs → p (get_or xs i d) ≡ true → q (get_or xs i d) ≡ true)
    → count_if p xs ≤ count_if q xs
count_if-le p q [] d h = omega arith
count_if-le p q (x ∷ xs) d h =
    ground (arith, h 0 (omega arith), count_if-le p q xs d (λ i lt e. h (suc i) (omega arith) e))

count_if-agree :
    (p q : Cell → Bool) (xs : List Cell) (d : Cell)
    → ((i : ℕ) → i < length xs → p (get_or xs i d) ≡ true → q (get_or xs i d) ≡ true)
    → count_if p xs ≡ count_if q xs
    → (i : ℕ) → i < length xs
    → q (get_or xs i d) ≡ true
    → p (get_or xs i d) ≡ true
count_if-agree p q [] d h e i lt t = absurd (omega arith)
count_if-agree p q (x ∷ xs) d h e zero lt t =
    ground (arith, e, t, h 0 lt, count_if-le p q xs d (λ i lt e. h (suc i) (omega arith) e))
count_if-agree p q (x ∷ xs) d h e (suc i) lt t =
    let more = count_if-le p q xs d (λ i lt e. h (suc i) (omega arith) e) in
    let rest : count_if p xs ≡ count_if q xs = ground (arith, e, more, h 0 (omega arith)) in
    count_if-agree p q xs d (λ i lt e. h (suc i) (omega arith) e) rest i (omega arith) t

count_if-none :
    (p : Cell → Bool) (xs : List Cell) (d : Cell)
    → count_if p xs ≡ 0
    → (i : ℕ) → i < length xs
    → p (get_or xs i d) ≡ false
count_if-none p [] d e i lt = absurd (omega arith)
count_if-none p (x ∷ xs) d e zero lt = ground (arith, e)
count_if-none p (x ∷ xs) d e (suc i) lt = count_if-none p xs d (ground (arith, e)) i (omega arith)

pub none-count_if :
    (p : Cell → Bool) (xs : List Cell) (d : Cell)
    → ((i : ℕ) → i < length xs → p (get_or xs i d) ≡ false)
    → count_if p xs ≡ 0
none-count_if p [] d h = refl
none-count_if p (x ∷ xs) d h =
    ground (arith, h 0 (omega arith), none-count_if p xs d (λ i lt. h (suc i) (omega arith)))

-- The two tests of the handler.
IsChecked : Board → Type 0
IsChecked b = (hidden_cells b ≡ mine_cells b) × (none_of_cell b is_bad ≡ true)

IsChecked-IsWon : (b : Board) → IsGame b → IsChecked b → IsWon b
unfolding IsChecked none_of_cell hidden_cells mine_cells at
IsChecked-IsWon b g (counts, none) q i =
    let here = in_range b q g.sized i in
    let bad : (i : ℕ) → i < length b.cells → is_bad (get_or b.cells i new_cell) ≡ false =
      count_if-none is_bad b.cells new_cell (ground (arith, none)) in
    let agree =
      count_if-agree (λ k. k.boom) (λ k. not k.revealed) b.cells new_cell
        (λ j lt e. ground (arith, bad j lt, e)) (sym counts) (index b.width q) here in
    (λ e. ground (arith, bad (index b.width q) here, e), λ e. ground (arith, agree, e))

IsWon-IsChecked : (b : Board) → IsGame b → IsWon b → IsChecked b
unfolding IsChecked none_of_cell hidden_cells mine_cells
IsWon-IsChecked b g won =
    let hidden : (i : ℕ)
        → i < length b.cells
        → (not (get_or b.cells i new_cell).revealed) ≡ (get_or b.cells i new_cell).boom =
      all_cells b (λ k. not k.revealed ≡ k.boom) g.sized
        (λ q i. ground (arith, won q i, g.closed q i)) in
    let good : (i : ℕ) → i < length b.cells → is_bad (get_or b.cells i new_cell) ≡ false =
      all_cells b (λ k. is_bad k ≡ false) g.sized (λ q i. ground (arith, won q i, g.closed q i)) in
    (
      count_if_eq (λ k. not k.revealed) (λ k. k.boom) b.cells b.cells new_cell refl hidden,
      ground (arith, none-count_if is_bad b.cells new_cell good),
    )

-- On a board of fewer than 2 ^ 31 cells no count wraps around.
pub counts_compared :
    (b : Board)
    → IsGame b
    → b.width * b.height < 2 ^ 31
    → eq_ℤ (unrevealed_count b) (bombs_total b) ≡ (hidden_cells b == mine_cells b)
unfolding unrevealed_count bombs_total hidden_cells mine_cells
counts_compared b g small =
    let hidden : hidden_cells b < 2 ^ 31 =
      omega (arith, count_if_le (λ k. not k.revealed) b.cells, g.sized.size) in
    let mines : mine_cells b < 2 ^ 31 =
      omega (arith, count_if_le (λ k. k.boom) b.cells, g.sized.size) in
    rw (to_int-eq-pos (hidden_cells b) hidden, to_int-eq-pos (mine_cells b) mines) (ground arith)

-- On a board in play with fewer than 2 ^ 31 cells a check answers that the game is won, and leaves
-- the board as it is, exactly if every mine is flagged and every other cell is revealed.
pub board_check_handler-IsWon :
    (b : Board) (params : Entries)
    → IsGame b
    → b.width * b.height < 2 ^ 31
    → (board_check_handler b params
        ≡ ok (body (emplace (text "status") (string (text "win")) no_entries), b))
      ↔ IsWon b
unfolding board_check_handler IsChecked emplace contains append
board_check_handler-IsWon b params g small =
    let compared = counts_compared b g small in
    (
      λ e. elim (Bool-cases (hidden_cells b == mine_cells b)) [
        | inr left ↦ absurd (ground (arith, e, left, compared))
        | inl all ↦ elim (Bool-cases (none_of_cell b is_bad)) [
          | inr bad ↦ absurd (ground (arith, e, all, bad, compared))
          | inl good ↦ IsChecked-IsWon b g (ground (arith, all), good)
        ]
      ],
      λ won.
          let (counts, none) = IsWon-IsChecked b g won in
          let same : eq_ℤ (unrevealed_count b) (bombs_total b) ≡ true =
            compared ∙ ground (arith, counts) in
          rw (same, none) (ground arith),
    )
