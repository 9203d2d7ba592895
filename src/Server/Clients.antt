-- ===== src/Server/Clients.antt =====
-- `add_new_client` and the boards of clients.
use minesweeper.Prelude.{
  ℕ, ◌^◌, ◌<◌, ◌≡◌, ◌≢◌, refl, ap, false, ◌==◌, Bool-cases, if◌then◌else◌, List, [], ◌∷◌, Option,
  none, some, Option-cases, inl, inr, arith,
}
use minesweeper.Board.{Board}
use minesweeper.Board.Create.{new_board, clone}
use minesweeper.Server.{
  lookup, emplace_at, assign, ClientContext, Server, board_of, add_client, add_new_client,
  board_for_client, put_client_board,
}

lookup-emplace_at {ℓ} :
    {A : Type ℓ} (k : ℕ) (a : A) (m : List (ℕ × A))
    → lookup k m ≡ none
    → lookup k (emplace_at k a m) ≡ some a
unfolding lookup emplace_at
lookup-emplace_at k a [] h = ground arith
lookup-emplace_at k a ((j, b) ∷ m) h = elim (Bool-cases (j == k)) [
  | inl same ↦ absurd (ground (arith, h, same))
  | inr other ↦ rw other (rw other (lookup-emplace_at k a m (rw other at h)))
]

lookup-emplace_at_ne {ℓ} :
    {A : Type ℓ} (k j : ℕ) (a : A) (m : List (ℕ × A))
    → k ≢ j
    → lookup j (emplace_at k a m) ≡ lookup j m
unfolding lookup emplace_at
lookup-emplace_at_ne k j a [] h = ground (arith, h)
lookup-emplace_at_ne k j a ((i, b) ∷ m) h = elim (Bool-cases (i == k)) [
  | inl same ↦ rw same refl
  | inr other ↦ rw other (ap (λ r. if i == j then some b else r) (lookup-emplace_at_ne k j a m h))
]

lookup-assign {ℓ} :
    {A : Type ℓ} (k : ℕ) (a old : A) (m : List (ℕ × A))
    → lookup k m ≡ some old
    → lookup k (assign k a m) ≡ some a
unfolding lookup assign
lookup-assign k a old [] h = absurd (cc)
lookup-assign k a old ((j, b) ∷ m) h = elim (Bool-cases (j == k)) [
  | inl same ↦ rw same (rw same refl)
  | inr other ↦ rw other (rw other (lookup-assign k a old m (rw other at h)))
]

lookup-assign_ne {ℓ} :
    {A : Type ℓ} (k j : ℕ) (a : A) (m : List (ℕ × A)) → k ≢ j → lookup j (assign k a m) ≡ lookup j m
unfolding lookup assign
lookup-assign_ne k j a [] h = refl
lookup-assign_ne k j a ((i, b) ∷ m) h = elim (Bool-cases (i == k)) [
  | inl same ↦ let apart : (i == j) ≡ false = ground (arith, same, h) in rw same (rw apart refl)
  | inr other ↦ rw other (ap (λ r. if i == j then some b else r) (lookup-assign_ne k j a m h))
]

-- No client has the number that is next, as no counter has wrapped around.
abbrev pub HasFreshId : Server → Type 0
HasFreshId s = (lookup s.next_client_id s.clients ≡ none) × (s.next_client_id < 2 ^ 64)

-- What a new client changes: it gets the next number and a copy of its board, and the boards and
-- the other clients stay as they are.
pub record Joins (s : Server) (b : Board) (r : Option ℕ × Server) : Type 0 where
  pub number : r.0 ≡ some s.next_client_id
  pub copy : board_for_client s.next_client_id r.1 ≡ some b
  pub same_boards : r.1.boards ≡ s.boards
  pub others : (j : ℕ) → s.next_client_id ≢ j → board_for_client j r.1 ≡ board_for_client j s

-- With a number that is free, a new client on a board that exists joins with a copy of it.
pub add_new_client-Joins :
    (s : Server) (board_id : ℕ) (b : Board)
    → HasFreshId s
    → lookup board_id s.boards ≡ some b
    → Joins s b (add_new_client board_id s)
unfolding add_new_client add_client board_of board_for_client clone new_board
add_new_client-Joins s board_id b h e =
    let context : ClientContext = record { board_id = board_id; board = b } in
    let self = lookup-emplace_at s.next_client_id context s.clients h.0 in
    record {
      number = ground (arith, e, h.0);
      copy = ground (arith, e, self);
      same_boards = ground (arith, e);
      others =
          λ j n. ground (arith, e, lookup-emplace_at_ne s.next_client_id j context s.clients n);
    }

-- What is written through the board of a client is what that client has afterwards; another
-- client's board and the boards of the server stay as they are.
pub put_client_board-own :
    (s : Server) (id j : ℕ) (old after : Board)
    → board_for_client id s ≡ some old
    → id ≢ j
    → (board_for_client id (put_client_board id after s) ≡ some after)
      × (board_for_client j (put_client_board id after s) ≡ board_for_client j s)
      × ((put_client_board id after s).boards ≡ s.boards)
unfolding board_for_client put_client_board
put_client_board-own s id j old after h n = elim (Option-cases (lookup id s.clients)) [
  | inl missing ↦ absurd (ground (arith, h, missing))
  | inr (c, found) ↦
      let fresh = record c { board = after } in
      (
        ground (arith, found, lookup-assign id fresh c s.clients found),
        ground (arith, found, lookup-assign_ne id j fresh s.clients n),
        ground (arith, found),
      )
]
