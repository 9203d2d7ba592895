-- ===== src/Board/Neighbors.antt =====
-- `board_t::neighbors`: which coordinates it lists.
use minesweeper.Prelude.{◌+◌, ◌≤◌, ◌≢◌, ◌↔◌, ◌⊎◌, inl, inr, List, [], ◌∷◌, ◌∈◌, arith}
use native.Mathlib.Decide.{dec_le}
use minesweeper.Prelude.Int.{pos_part, ◌-ℤ◌, ◌+ℤ◌}
use minesweeper.Board.{Coord, Board, candidates, keep_valid, neighbors}
use minesweeper.Board.Grid.{Inside, IsSized, coord-Inside, coord-outside}

-- No coordinate is listed twice.
abbrev pub Distinct : List Coord → Type 0
Distinct [] = Unit
Distinct (c ∷ cs) = (¬ (c ∈ cs)) × Distinct cs

-- Two different coordinates that differ by at most 1 in each direction.
abbrev pub Adjacent : Coord → Coord → Type 0
Adjacent p q =
    (p ≢ q)
    × (pos_part p.x ≤ pos_part q.x + 1)
    × (pos_part q.x ≤ pos_part p.x + 1)
    × (pos_part p.y ≤ pos_part q.y + 1)
    × (pos_part q.y ≤ pos_part p.y + 1)

pub Inside-cases : (b : Board) (c : Coord) → Inside b c ⊎ (¬ Inside b c)
Inside-cases b c = elim (dec_le 1 (pos_part c.x)) [
  | yes h ↦ elim (dec_le (pos_part c.x) b.width) [
    | yes k ↦ elim (dec_le 1 (pos_part c.y)) [
      | yes l ↦ elim (dec_le (pos_part c.y) b.height) [
        | yes m ↦ inl (h, k, l, m)
        | no n ↦ inr (λ i. n i.3)
      ]
      | no n ↦ inr (λ i. n i.2)
    ]
    | no n ↦ inr (λ i. n i.1)
  ]
  | no n ↦ inr (λ i. n i.0)
]

mem-keep_valid :
    (b : Board) (cs : List Coord) (q : Coord)
    → IsSized b
    → (q ∈ keep_valid b cs) ↔ ((q ∈ cs) × Inside b q)
unfolding keep_valid
mem-keep_valid b [] q v = (λ h. absurd h, λ h. absurd h.0)
mem-keep_valid b (c ∷ cs) q v = elim (Inside-cases b c) [
  | inl i ↦
      ground (arith, coord-Inside b c v i, (mem-keep_valid b cs q v).0, (mem-keep_valid b cs q v).1)
  | inr o ↦
      ground
        (arith, coord-outside b c v o, (mem-keep_valid b cs q v).0, (mem-keep_valid b cs q v).1)
]

mem-candidates :
    (b : Board) (p q : Coord) → Inside b p → Inside b q → (q ∈ candidates p.x p.y) ↔ Adjacent p q
unfolding ◌+ℤ◌ ◌-ℤ◌
mem-candidates b p q i j = (ground arith, ground arith)

-- The coordinates that it lists.
pub mem-neighbors :
    (b : Board) (p q : Coord)
    → IsSized b
    → Inside b p
    → (q ∈ neighbors b p) ↔ (Adjacent p q × Inside b q)
unfolding neighbors
mem-neighbors b p q v i = (
  λ h.
      let (m, j) = (mem-keep_valid b (candidates p.x p.y) q v).0 h in
      ((mem-candidates b p q i j).0 m, j),
  λ (a, j). (mem-keep_valid b (candidates p.x p.y) q v).1 ((mem-candidates b p q i j).1 a, j),
)

candidates-Distinct : (b : Board) (p : Coord) → Inside b p → Distinct (candidates p.x p.y)
unfolding ◌+ℤ◌ ◌-ℤ◌
candidates-Distinct b p i = ground arith

keep_valid-Distinct :
    (b : Board) (cs : List Coord) → IsSized b → Distinct cs → Distinct (keep_valid b cs)
unfolding keep_valid
keep_valid-Distinct b [] v d = tt
keep_valid-Distinct b (c ∷ cs) v (new, d) =
    let rest = keep_valid-Distinct b cs v d in
    elim (Inside-cases b c) [
      | inl i ↦
          let absent : ¬ (c ∈ keep_valid b cs) = λ m. new ((mem-keep_valid b cs c v).0 m).0 in
          ground (arith, coord-Inside b c v i, absent, rest)
      | inr o ↦ ground (arith, coord-outside b c v o, rest)
    ]

-- A list of the coordinates of a board that are next to one of them, each once.
abbrev pub IsAround : Board → Coord → List Coord → Type 0
IsAround b p qs = Distinct qs × ((q : Coord) → (q ∈ qs) ↔ (Adjacent p q × Inside b q))

-- On a sized board, neighbors of a coordinate inside it lists the coordinates inside the board that
-- differ from it by at most 1 in each direction and are not it, each once, and no others.
pub neighbors-IsAround :
    (b : Board) (p : Coord) → IsSized b → Inside b p → IsAround b p (neighbors b p)
unfolding neighbors
neighbors-IsAround b p v i = (
  keep_valid-Distinct b (candidates p.x p.y) v (candidates-Distinct b p i),
  λ q. mem-neighbors b p q v i,
)
