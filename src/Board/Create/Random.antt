-- ===== src/Board/Create/Random.antt =====
-- `create_board`: random placement, and its inner loop.
use minesweeper.Prelude.{
  ◌-◌, ◌^◌, replicate, length-set, ℕ, zero, suc, ◌+◌, ◌*◌, ◌%◌, ◌<◌, ◌≡◌, refl, ◌∙◌, Bool, true,
  false, Bool-cases, ◌||◌, ◌==◌, List, [], ◌∷◌, length, get_elem?, get_elem?-eq-get_or, get_or, set,
  count_if, inl, inr, arith, some, Option-cases,
}
use minesweeper.Prelude.Int.{ℤ, pos_part}
use minesweeper.Outcome.{>>=-eq-ok, ok, throws, stuck}
use minesweeper.Board.{Cell, Board, new_cell, set_boom, mine_cells}
use minesweeper.Board.Create.{pick_free, boom_at, put_random, create_board, new_board}
use minesweeper.Board.Grid.{IsSized}
use minesweeper.Board.Reveal.Safe.{IsCounted}
use minesweeper.Board.Create.Complete.{compute_neighbor_counts-Computes}
use minesweeper.Board.Create.Fixed.{new_board-IsSized}

count_if-set_more :
    (p : Cell → Bool) (ks : List Cell) (i : ℕ) (old k : Cell)
    → get_elem? ks i ≡ some old
    → p old ≡ false
    → p k ≡ true
    → count_if p (set ks i k) ≡ count_if p ks + 1
count_if-set_more p [] i old k g a e = cc
count_if-set_more p (x ∷ ks) zero old k g a e = ground arith
count_if-set_more p (x ∷ ks) (suc i) old k g a e =
    ground (arith, count_if-set_more p ks i old k g a e)

count_if-replicate :
    (p : Cell → Bool) (n : ℕ) (k : Cell) → p k ≡ false → count_if p (replicate n k) ≡ 0
count_if-replicate p zero k e = refl
count_if-replicate p (suc n) k e = ground (arith, e, count_if-replicate p n k e)

mine_cells-new_board : (w h : ℕ) → mine_cells (new_board w h) ≡ 0
unfolding mine_cells new_board
mine_cells-new_board w h = count_if-replicate (λ k. k.boom) (w * h) new_cell refl

in_rows : (c r w h : ℕ) → c < w → r < h → r * w + c < w * h
in_rows c r w h p q = grind arith

place_in_range :
    (b : Board) (c r : ℕ)
    → 0 < b.width
    → 0 < b.height
    → length b.cells ≡ b.width * b.height
    → r % b.height * b.width + c % b.width < length b.cells
place_in_range b c r w h size =
    rw size (in_rows (c % b.width) (r % b.height) b.width b.height (omega arith) (omega arith))

module _ (rand : ℕ → ℕ) where
  -- What a place that was picked holds: a cell that is no mine.
  pick_free-free :
      (fuel : ℕ) (b : Board) (k i k' : ℕ)
      → pick_free rand fuel b k ≡ ok (i, k')
      → (old : Cell) × (get_elem? b.cells i ≡ some old) × (old.boom ≡ false)
  unfolding pick_free
  pick_free-free zero b k i k' h = absurd (cc)
  pick_free-free (suc fuel) b k i k' h = elim (Bool-cases ((b.width == 0) || (b.height == 0))) [
    | inl z ↦ absurd (ground (arith, z))
    | inr nz ↦
        elim (Option-cases
          (get_elem? b.cells (rand (k + 1) % b.height * b.width + rand k % b.width))) [
            | inl e ↦ absurd (ground (arith, nz, e))
            | inr (old, e) ↦ elim (Bool-cases old.boom) [
              | inl mine ↦ pick_free-free fuel b (k + 2) i k' (ground (arith, nz, e, mine))
              | inr free ↦ (old, ground (arith, nz, e, free), free)
            ]
          ]
  ]

  -- What a placement of `left` mines leaves of a board.
  record Placed (b : Board) (left : ℕ) (after : Board) : Type 0 where
    total : mine_cells after ≡ mine_cells b + left
    same_width : after.width ≡ b.width
    same_height : after.height ≡ b.height
    same_size : length after.cells ≡ length b.cells

  boom_at-Placed :
      (b b' : Board) (i : ℕ) (old : Cell)
      → get_elem? b.cells i ≡ some old
      → old.boom ≡ false
      → boom_at b i ≡ ok b'
      → Placed b 1 b'
  unfolding boom_at mine_cells
  boom_at-Placed b b' i old g free h = ground (
    arith,
    count_if-set_more (λ c. c.boom) b.cells i old (set_boom old) g free refl,
    length-set b.cells i (set_boom old),
  )

  put_random-Placed :
      (fuel left : ℕ) (b after : Board) (k : ℕ)
      → put_random rand fuel left b k ≡ ok after
      → Placed b left after
  unfolding put_random
  put_random-Placed fuel zero b after k h = ground (arith, h)
  put_random-Placed fuel (suc left) b after k h =
      let (picked, e, h1) = >>=-eq-ok (pick_free rand fuel b k) _ h in
      let (b', e', h2) = >>=-eq-ok (boom_at b picked.0) _ h1 in
      let (old, g, free) = pick_free-free fuel b k picked.0 picked.1 e in
      let rest = put_random-Placed fuel left b' after picked.1 h2 in
      let one = boom_at-Placed b b' picked.0 old g free e' in
      record {
        total = omega (arith, rest.total, one.total);
        same_width = rest.same_width ∙ one.same_width;
        same_height = rest.same_height ∙ one.same_height;
        same_size = rest.same_size ∙ one.same_size;
      }

  -- However the calls of rand() fall, a board that is made for sides below 2 ^ 31 - 1 has exactly
  -- as many mines as it was asked for, none for a negative number, and counts that are right.
  pub create_board-Counted :
      (fuel w h : ℕ) (bombs_count : ℤ) (b : Board)
      → w < 2 ^ 31 - 1
      → h < 2 ^ 31 - 1
      → create_board rand fuel w h bombs_count ≡ ok b
      → (mine_cells b ≡ pos_part bombs_count) × IsSized b × IsCounted b
  unfolding create_board
  create_board-Counted fuel w h bombs_count b p q e =
      let (after, e1, e2) =
        >>=-eq-ok (put_random rand fuel (pos_part bombs_count) (new_board w h) 0) _ e in
      let placed = put_random-Placed fuel (pos_part bombs_count) (new_board w h) after 0 e1 in
      let fresh = new_board-IsSized w h p q in
      let w1 = placed.same_width in
      let h1 = placed.same_height in
      let sized : IsSized after = record {
        size = placed.same_size ∙ fresh.size ∙ rw (w1, h1);
        width_fits = rw w1 fresh.width_fits;
        height_fits = rw h1 fresh.height_fits;
      } in
      let run = compute_neighbor_counts-Computes after sized in
      let same : b ≡ run.after = cc (e2, run.returns) in
      rw same
        (omega (arith, run.total, placed.total, mine_cells-new_board w h), run.sized, run.counted)

  -- On a board of positive sides with a cell for each place: the loop that looks for a free place
  -- ends within j + 1 rounds if the j-th pair of calls of rand(), counted from 0, names a place
  -- that is no mine.
  pub pick_free_ends :
      (j fuel : ℕ) (b : Board) (k : ℕ) (old : Cell)
      → 0 < b.width
      → 0 < b.height
      → length b.cells ≡ b.width * b.height
      → j < fuel
      → get_elem? b.cells (rand (k + 2 * j + 1) % b.height * b.width + rand (k + 2 * j) % b.width)
        ≡ some old
      → old.boom ≡ false
      → (i : ℕ) × (k' : ℕ) × (pick_free rand fuel b k ≡ ok (i, k'))
  unfolding pick_free
  pick_free_ends j zero b k old w h size lt g free = absurd (omega arith)
  pick_free_ends zero (suc fuel) b k old w h size lt g free =
      let same : k + 2 * 0 ≡ k = omega arith in
      let here = rw same at g in
      (rand (k + 1) % b.height * b.width + rand k % b.width, k + 2, ground (arith, here, free))
  pick_free_ends (suc j) (suc fuel) b k old w h size lt g free =
      let place = rand (k + 1) % b.height * b.width + rand k % b.width in
      let read =
        get_elem?-eq-get_or b.cells place new_cell
          (place_in_range b (rand k) (rand (k + 1)) w h size) in
      let next : k + 2 * suc j ≡ k + 2 + 2 * j = omega arith in
      let (i, k', e) =
        pick_free_ends j fuel b (k + 2) old w h size (omega arith) (rw next at g) free in
      elim (Bool-cases (get_or b.cells place new_cell).boom) [
        | inl mine ↦ (i, k', ground (arith, read, mine, e))
        | inr empty ↦ (place, k + 2, ground (arith, read, empty))
      ]

  -- On a board of positive sides with a cell for each place, each of them a mine, the loop that
  -- looks for a free place ends within no number of rounds.
  pub pick_free_full :
      (fuel : ℕ) (b : Board) (k : ℕ)
      → 0 < b.width
      → 0 < b.height
      → length b.cells ≡ b.width * b.height
      → ((i : ℕ) (c : Cell) → get_elem? b.cells i ≡ some c → c.boom ≡ true)
      → pick_free rand fuel b k ≡ throws stuck
  unfolding pick_free
  pick_free_full zero b k w h size mines = refl
  pick_free_full (suc fuel) b k w h size mines =
      let place = rand (k + 1) % b.height * b.width + rand k % b.width in
      let read =
        get_elem?-eq-get_or b.cells place new_cell
          (place_in_range b (rand k) (rand (k + 1)) w h size) in
      ground (arith, read, mines place _ read, pick_free_full fuel b (k + 2) w h size mines)
