-- ===== src/Board/Reveal/Safe.antt =====
-- Reveals and mines, on a board whose counts are those of its mines.
use minesweeper.Prelude.{ℕ, ◌≡◌, subst, Bool, false, List, [], ◌∷◌, ◌∈◌, count_if, inl, inr, arith}
use minesweeper.Prelude.Int.{pos}
use minesweeper.Outcome.{ok}
use minesweeper.Board.{Coord, Board, neighbors}
use minesweeper.Board.Grid.{Inside, IsSized, at}
use minesweeper.Board.Neighbors.{Adjacent, mem-neighbors}
use minesweeper.Board.Reveal.{RevealResult, reveal_cells}
use minesweeper.Board.Reveal.Region.{IsFresh, label, Reach, here, next, coords}
use minesweeper.Board.Reveal.Exact.{reveal_cells-Reveals}

-- The number of mines around a coordinate.
abbrev pub mines_around : Board → Coord → ℕ
mines_around b c = count_if (λ d. (at b d).boom) (neighbors b c)

-- Each cell holds the number of mines around it.
abbrev pub IsCounted : Board → Type 0
IsCounted b = (c : Coord) → Inside b c → (at b c).count ≡ pos (mines_around b c)

count_if-zero :
    {A : Type 0} (p : A → Bool) (xs : List A) (x : A) → count_if p xs ≡ 0 → x ∈ xs → p x ≡ false
count_if-zero p [] x h m = absurd m
count_if-zero p (y ∷ ys) x h m = ground (arith, count_if-zero p ys x)

-- Around a cell labelled 0 there is no mine.
label_zero-safe :
    (b : Board) (p q : Coord)
    → IsSized b
    → IsCounted b
    → Inside b p
    → label (at b p) ≡ pos 0
    → Adjacent p q
    → Inside b q
    → (at b q).boom ≡ false
label_zero-safe b p q v counted ip z adj iq =
    count_if-zero (λ d. (at b d).boom) (neighbors b p) q (ground (arith, counted p ip, z))
      ((mem-neighbors b p q v ip).1 (adj, iq))

Reach-Inside : (b : Board) (start q : Coord) → Inside b start → Reach b start q → Inside b q
Reach-Inside b start q i here = i
Reach-Inside b start q i (next r z adj iq fq) = iq

Reach-safe :
    (b : Board) (start q : Coord)
    → IsSized b
    → IsCounted b
    → Inside b start
    → (at b start).boom ≡ false
    → Reach b start q
    → (at b q).boom ≡ false
Reach-safe b start q v counted i safe here = safe
Reach-safe b start q v counted i safe (next {p} r z adj iq fq) =
    label_zero-safe b p q v counted (Reach-Inside b start p i r) z adj iq

mem-coords : (r : RevealResult) (rs : List RevealResult) → r ∈ rs → r.coord ∈ coords rs
mem-coords r [] m = m
mem-coords r (s ∷ rs) m = elim m [ inl e ↦ inl (rw e) | inr n ↦ inr (mem-coords r rs n) ]

-- On a sized board whose counts are right, a reveal from a fresh cell that is no mine reports no
-- mine: each reported coordinate holds no mine, and its count is the number of mines around it.
pub reveal_cells_safe :
    (b : Board) (start : Coord)
    → IsSized b
    → IsCounted b
    → (inside : Inside b start) → IsFresh (at b start)
    → (at b start).boom ≡ false
    → (found : List RevealResult) (after : Board) → reveal_cells b start ≡ ok (found, after)
    → (r : RevealResult) → r ∈ found
    → ((at b r.coord).boom ≡ false) × (r.count ≡ pos (mines_around b r.coord))
reveal_cells_safe b start v counted inside fresh safe found after e r m =
    let run = reveal_cells-Reveals b start v inside fresh in
    let same : found ≡ run.found = cc (e, run.returns) in
    let listed = subst (λ f. r ∈ f) same m in
    let reached = (run.region r.coord).0 (mem-coords r run.found listed) in
    let no_mine = Reach-safe b start r.coord v counted inside safe reached in
    let count = counted r.coord (Reach-Inside b start r.coord inside reached) in
    (no_mine, ground (arith, run.labels r listed, no_mine, count))
