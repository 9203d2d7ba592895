-- ===== src/Handlers/Replies.antt =====
-- What the handlers that reveal, flag and check answer at a coordinate of the board, in full.
use minesweeper.Prelude.{
  ◌<◌, ◌≡◌, refl, true, false, not, ◌&&◌, Bool-cases, List, length, inl, inr, arith,
}
use minesweeper.Prelude.Int.{pos, eq_ℤ}
use minesweeper.Outcome.{Outcome, ok}
use minesweeper.Parameter.{Bytes}
use minesweeper.Json.{is_ascii}
use minesweeper.Board.{Coord, Cell, Board, new_cell, toggle_flag, neighbors, bombs_count}
use minesweeper.Board.Grid.{Inside, at, put, update_cell-Inside}
use minesweeper.Board.Neighbors.{mem-neighbors}
use minesweeper.Board.Reveal.{RevealResult}
use minesweeper.Board.Reveal.Exact.{reveal_cells-Reveals, reveal_cells_closed}
use minesweeper.Handlers.{
  HandlerResult, body, unexpected, bad_request, boom_body, info_body, revealed_body, flagged_body,
  reveal_at, flag_at, check_at,
}
use minesweeper.Handlers.Game.{IsGame, Follows, toggle-Follows}
use minesweeper.Handlers.Answers.{neighbor_flags_count-Inside, neighbor_bombs_count-Inside}
use minesweeper.Handlers.Found.{Finds, Finds-nothing, Reveals-Finds, reveal_around-Around}

-- A refusal, by a short message.
pub data Refuses : HandlerResult → Type 0 where
  refusal :
      (message : Bytes)
      → is_ascii message ≡ true
      → length message < 128
      → Refuses (unexpected bad_request message)

pub data Reveal (b after : Board) : HandlerResult → Type 0 where
  refused : {result : HandlerResult} → Refuses result → after ≡ b → Reveal b after result
  mine :
      (c : Coord) (k : Cell)
      → Inside b c
      → after ≡ b
      → Reveal b after (body (boom_body c (info_body k)))
  found :
      (rs : List RevealResult) (k : Cell)
      → Finds b after rs
      → Reveal b after (body (revealed_body rs (info_body k)))

pub data Flag (b after : Board) (c : Coord) : HandlerResult → Type 0 where
  refused : {result : HandlerResult} → Refuses result → after ≡ b → Flag b after c result
  toggled :
      (k : Cell)
      → k.flag ≡ (at b c).flag
      → (at b c).revealed ≡ false
      → after ≡ put b c (toggle_flag (at b c))
      → Follows b after
      → Flag b after c (body (flagged_body c k))

pub record Replies (R : Board → HandlerResult → Type 0) (r : Outcome (HandlerResult × Board))
    : Type 0 where
  pub result : HandlerResult
  pub after : Board
  pub returns : r ≡ ok (result, after)
  pub reply : R after result

replies :
    (R : Board → HandlerResult → Type 0) (result : HandlerResult) (after : Board)
    → R after result
    → Replies R (ok (result, after))
replies R result after h = record { result = result; after = after; returns = refl; reply = h }

pub reveal_at-Replies :
    (b : Board) (c : Coord) → IsGame b → Inside b c → Replies (Reveal b) (reveal_at b c (at b c))
unfolding reveal_at is_ascii
reveal_at-Replies b c g i = elim (Bool-cases (at b c).flag) [
  | inl flagged ↦ rw flagged (replies _ _ b (Reveal.refused (refusal _ refl (omega arith)) refl))
  | inr free ↦ elim (Bool-cases (at b c).boom) [
    | inl boom ↦ rw (free, boom) (replies _ _ b (mine c _ i refl))
    | inr safe ↦ elim (Bool-cases (at b c).revealed) [
      | inl shown ↦
          rw
            (free, safe, reveal_cells_closed b c g.sized i (λ f. absurd (ground (arith, shown, f))))
            (replies _ _ b (found _ _ (Finds-nothing b g)))
      | inr hidden ↦
          let run = reveal_cells-Reveals b c g.sized i (free, hidden) in
          rw (free, safe, run.returns)
            (replies _ _ run.after (found run.found _ (Reveals-Finds b c g i (free, hidden) run)))
    ]
  ]
]

pub check_at-Replies :
    (b : Board) (c : Coord) → IsGame b → Inside b c → Replies (Reveal b) (check_at b c (at b c))
unfolding check_at info_body is_ascii
check_at-Replies b c g i = elim (Bool-cases (at b c).revealed) [
  | inr hidden ↦ rw hidden (replies _ _ b (Reveal.refused (refusal _ refl (omega arith)) refl))
  | inl shown ↦ elim (Bool-cases (at b c).boom) [
    | inl boom ↦
        rw (shown, boom) (replies _ _ b (Reveal.refused (refusal _ refl (omega arith)) refl))
    | inr safe ↦
        let (around, read_flags) = neighbor_flags_count-Inside b c g.sized i in
        let (label, read_bombs) = neighbor_bombs_count-Inside b c g.sized i in
        elim (Bool-cases (eq_ℤ around label)) [
          | inr other ↦
              rw (shown, safe, read_flags, read_bombs, other)
                (replies _ _ b (Reveal.refused (refusal _ refl (omega arith)) refl))
          | inl same ↦
              let run =
                reveal_around-Around (neighbors b c) b g
                  (λ d m. ((mem-neighbors b c d g.sized i).0 m).1) in
              rw (shown, safe, read_flags, read_bombs, same, run.returns)
                (replies _ _ run.after (found run.found new_cell run.finds))
        ]
  ]
]

pub flag_at-Replies :
    (b : Board) (c : Coord)
    → IsGame b
    → Inside b c
    → Replies (λ d. Flag b d c) (flag_at b c (at b c))
unfolding flag_at is_ascii
flag_at-Replies b c g i = elim (Bool-cases (at b c).revealed) [
  | inl shown ↦ rw shown (replies _ _ b (Flag.refused (refusal _ refl (omega arith)) refl))
  | inr hidden ↦ elim (Bool-cases (not (at b c).flag && eq_ℤ (bombs_count b) (pos 0))) [
    | inl none_left ↦
        rw (hidden, none_left) (replies _ _ b (Flag.refused (refusal _ refl (omega arith)) refl))
    | inr left ↦
        rw (hidden, left, update_cell-Inside b c toggle_flag g.sized i)
          (replies _ _ (put b c (toggle_flag (at b c)))
            (toggled _ refl hidden refl (toggle-Follows b c g i hidden left)))
  ]
]
