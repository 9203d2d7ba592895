-- ===== src/Handlers/Sizes.antt =====
-- How much the answers of the handlers take on the wire, and that C++ can hold them.
use minesweeper.Prelude.{
  ℕ, suc, ◌+◌, ◌*◌, ◌≤◌, ◌<◌, ◌^◌, ◌≡◌, refl, Bool, Bool-cases, if◌then◌else◌, List, [], ◌∷◌, ◌++◌,
  length, length-append, count_if, All, inl, inr, arith,
}
use minesweeper.Prelude.Int.{ℤ, pos, negsuc, pos_part, to_int64}
use minesweeper.Parameter.{
  Bytes, text, Parameter, Items, Entries, string, int64, uint64, boolean, vector, map, no_items,
  item, no_entries, entry, size, items_size, emplace, contains, append, eq_bytes,
}
use minesweeper.Wire.Writer.{width}
use minesweeper.Wire.Numbers.{digits, width_bounds, length-digits}
use minesweeper.Wire.Encode.{
  encode, encode_items, encode_entries, encode_integer, encode_string, IsSendable, IsSendableItems,
}
use minesweeper.Board.{Coord, Cell, Board, neighbors, keep_valid, candidates}
use minesweeper.Board.Grid.{Inside, at}
use minesweeper.Board.Reveal.{RevealResult}
use minesweeper.Board.Reveal.Region.{label}
use minesweeper.Board.Reveal.Safe.{mines_around}
use minesweeper.Handlers.{
  boomed, cell_entries, cells_param, emplace_coord, revealed_body, boom_body, info_body,
  flagged_body,
}
use minesweeper.Handlers.Game.{IsGame}

-- A bound for the bytes of a parameter.
abbrev mutual
  pub cost : Parameter → ℕ
  cost (string s) = 9 + length s
  cost (int64 z) = 9
  cost (uint64 n) = 9
  cost (boolean b) = 2
  cost (vector vs) = 10 + items_cost vs
  cost (map es) = 10 + entries_cost es

  pub items_cost : Items → ℕ
  items_cost no_items = 0
  items_cost (item v vs) = cost v + items_cost vs

  pub entries_cost : Entries → ℕ
  entries_cost no_entries = 0
  entries_cost (entry k v es) = 9 + length k + cost v + entries_cost es

encode_integer-cost : (z : ℤ) → length (encode_integer z) ≤ 9
unfolding encode_integer
encode_integer-cost (pos n) = omega (arith, length-digits (width n) 0 n, width_bounds n)
encode_integer-cost (negsuc n) =
    omega (arith, length-digits (width (suc n)) 0 (suc n), width_bounds (suc n))

encode_string-cost : (s : Bytes) → length (encode_string s) ≤ 9 + length s
unfolding encode_string
encode_string-cost s = omega (
  arith,
  length-append (digits (width (length s)) 0 (length s)) s,
  length-digits (width (length s)) 0 (length s),
  width_bounds (length s),
)

mutual
  unfolding encode encode_items encode_entries

  pub encode-cost : (p : Parameter) → length (encode p) ≤ cost p
  encode-cost (string s) = encode_string-cost s
  encode-cost (int64 z) = encode_integer-cost z
  encode-cost (uint64 n) = encode_integer-cost (to_int64 n)
  encode-cost (boolean b) = omega arith
  encode-cost (vector vs) = omega (
    arith,
    length-append (encode_integer (pos (items_size vs))) (encode_items vs),
    encode_integer-cost (pos (items_size vs)),
    items-cost vs,
  )
  encode-cost (map es) = omega (
    arith,
    length-append (encode_integer (pos (size es))) (encode_entries es),
    encode_integer-cost (pos (size es)),
    entries-cost es,
  )

  items-cost : (vs : Items) → length (encode_items vs) ≤ items_cost vs
  items-cost no_items = omega arith
  items-cost (item v vs) =
      omega (arith, length-append (encode v) (encode_items vs), encode-cost v, items-cost vs)

  entries-cost : (es : Entries) → length (encode_entries es) ≤ entries_cost es
  entries-cost no_entries = omega arith
  entries-cost (entry k v es) = omega (
    arith,
    length-append (encode_string k) (encode v ++ encode_entries es),
    length-append (encode v) (encode_entries es),
    encode_string-cost k,
    encode-cost v,
    entries-cost es,
  )

pub cells_param-cost : (rs : List RevealResult) → items_cost (cells_param rs) ≤ 86 * length rs
unfolding cells_param cell_entries emplace_coord emplace contains append eq_bytes
cells_param-cost [] = omega arith
cells_param-cost (r ∷ rs) = omega (arith, cells_param-cost rs)

pub revealed_body-cost :
    (rs : List RevealResult) (k : Cell)
    → entries_cost (revealed_body rs (info_body k)) ≤ 128 + 86 * length rs
unfolding revealed_body info_body emplace contains append eq_bytes
revealed_body-cost rs k = elim (Bool-cases k.revealed) [
  | inl shown ↦ elim (Bool-cases (boomed rs)) [
    | inl boom ↦ rw (shown, boom) (omega (arith, cells_param-cost rs))
    | inr calm ↦ rw (shown, calm) (omega (arith, cells_param-cost rs))
  ]
  | inr hidden ↦ elim (Bool-cases (boomed rs)) [
    | inl boom ↦ rw (hidden, boom) (omega (arith, cells_param-cost rs))
    | inr calm ↦ rw (hidden, calm) (omega (arith, cells_param-cost rs))
  ]
]

-- At most eight mines are around a cell.
pub count_if_le : {A : Type 0} (p : A → Bool) (xs : List A) → count_if p xs ≤ length xs
count_if_le p [] = omega arith
count_if_le p (x ∷ xs) = ground (arith, count_if_le p xs)

length-keep_valid : (b : Board) (cs : List Coord) → length (keep_valid b cs) ≤ length cs
unfolding keep_valid
length-keep_valid b [] = omega arith
length-keep_valid b (c ∷ cs) = ground (arith, length-keep_valid b cs)

pub mines_around_le : (b : Board) (c : Coord) → mines_around b c ≤ 8
unfolding neighbors
mines_around_le b c = omega (
  arith,
  count_if_le (λ d. (at b d).boom) (neighbors b c),
  length-keep_valid b (candidates c.x c.y),
)

label-IsSendable :
    (b : Board) (c : Coord) → IsGame b → Inside b c → IsSendable (int64 (label (at b c)))
label-IsSendable b c g i =
    let counted : (at b c).count ≡ pos (mines_around b c) = g.counted c i in
    elim (Bool-cases (at b c).boom) [
      | inl mine ↦ rw mine (omega arith)
      | inr safe ↦ rw (safe, counted) (omega (arith, mines_around_le b c))
    ]

int64-IsSendable : (z : ℤ) → 1 ≤ pos_part z → pos_part z < 2 ^ 31 → IsSendable (int64 z)
int64-IsSendable (pos n) h k = omega arith
int64-IsSendable (negsuc n) h k = omega arith

abbrev pub Known : Board → RevealResult → Type 0
Known b r = Inside b r.coord × (r.count ≡ label (at b r.coord))

cell-IsSendable :
    (b : Board) (r : RevealResult) → IsGame b → Known b r → IsSendable (map (cell_entries r))
unfolding cell_entries emplace_coord emplace contains append eq_bytes size
cell-IsSendable b r g k =
    let read : IsSendable (int64 r.count) = rw (k.1) (label-IsSendable b r.coord g (k.0)) in
    let x = int64-IsSendable (r.coord).x (k.0.0) (omega (arith, k.0, g.sized.width_fits)) in
    let y = int64-IsSendable (r.coord).y (k.0.2) (omega (arith, k.0, g.sized.height_fits)) in
    (
      omega arith,
      (refl, (refl, (refl, (refl, tt)))),
      (omega arith, x, (omega arith, y, (omega arith, read, (omega arith, tt, tt)))),
    )

pub cells_param-IsSendable :
    (b : Board) (rs : List RevealResult)
    → IsGame b
    → All (Known b) rs
    → IsSendableItems (cells_param rs) × (items_size (cells_param rs) ≡ length rs)
unfolding cells_param items_size
cells_param-IsSendable b [] g h = (tt, refl)
cells_param-IsSendable b (r ∷ rs) g h =
    let rest = cells_param-IsSendable b rs g h.1 in
    ((cell-IsSendable b r g h.0, rest.0), rw (rest.1) refl)

pub revealed_body-IsSendable :
    (b : Board) (rs : List RevealResult) (k : Cell)
    → IsGame b
    → All (Known b) rs
    → length rs < 2 ^ 62
    → IsSendable (map (revealed_body rs (info_body k)))
unfolding revealed_body info_body emplace contains append eq_bytes size
revealed_body-IsSendable b rs k g h small =
    let cells = cells_param-IsSendable b rs g h in
    let short : length (if boomed rs then text "boom" else text "ok") < 2 ^ 62 =
      elim (Bool-cases (boomed rs)) [
        | inl boom ↦ rw boom (omega arith)
        | inr calm ↦ rw calm (omega arith)
      ] in
    elim (Bool-cases k.revealed) [
      | inl shown ↦ rw shown (
        omega arith,
        (refl, (refl, (refl, tt))),
        (
          omega arith,
          omega arith,
          (omega arith, (omega (arith, cells.1), cells.0), (omega arith, short, tt)),
        ),
      )
      | inr hidden ↦ rw hidden (
        omega arith,
        (refl, (refl, tt)),
        (omega arith, (omega (arith, cells.1), cells.0), (omega arith, short, tt)),
      )
    ]

pub boom_body-IsSendable :
    (b : Board) (c : Coord) (k : Cell)
    → IsGame b
    → Inside b c
    → IsSendable (map (boom_body c (info_body k)))
      × (entries_cost (boom_body c (info_body k)) ≤ 256)
unfolding boom_body info_body emplace_coord emplace contains append eq_bytes size items_size
boom_body-IsSendable b c k g i =
    let x = int64-IsSendable c.x i.0 (omega (arith, i, g.sized.width_fits)) in
    let y = int64-IsSendable c.y i.2 (omega (arith, i, g.sized.height_fits)) in
    let place : IsSendable
        (map (entry (text "x") (int64 c.x) (entry (text "y") (int64 c.y) no_entries))) =
      (omega arith, (refl, (refl, tt)), (omega arith, x, (omega arith, y, tt))) in
    elim (Bool-cases k.revealed) [
      | inl shown ↦ rw shown (
        (
          omega arith,
          (refl, (refl, (refl, tt))),
          (
            omega arith,
            omega arith,
            (omega arith, omega arith, (omega arith, (omega arith, (place, tt)), tt)),
          ),
        ),
        omega arith,
      )
      | inr hidden ↦ rw hidden (
        (
          omega arith,
          (refl, (refl, tt)),
          (omega arith, omega arith, (omega arith, (omega arith, (place, tt)), tt)),
        ),
        omega arith,
      )
    ]

pub flagged_body-IsSendable :
    (b : Board) (c : Coord) (k : Cell)
    → IsGame b
    → Inside b c
    → IsSendable (map (flagged_body c k)) × (entries_cost (flagged_body c k) ≤ 256)
unfolding flagged_body emplace_coord emplace contains append eq_bytes size
flagged_body-IsSendable b c k g i =
    let x = int64-IsSendable c.x i.0 (omega (arith, i, g.sized.width_fits)) in
    let y = int64-IsSendable c.y i.2 (omega (arith, i, g.sized.height_fits)) in
    (
      (
        omega arith,
        (refl, (refl, (refl, (refl, tt)))),
        (omega arith, x, (omega arith, y, (omega arith, omega arith, (omega arith, tt, tt)))),
      ),
      omega arith,
    )
