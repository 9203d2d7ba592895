-- ===== src/Server.antt =====
-- The server's boards and clients: `plugin_api_t` and `clients_t` of src/server/api_impl.hxx and
-- src/server/api.cxx, and the plugin src/server/plugins/boards_list.cxx. The locks are left out, as
-- each operation runs by itself here.
pub mod Clients
mod Tests
use minesweeper.Prelude.{
  ℕ, suc, ◌+◌, ◌%◌, ◌^◌, ◌==◌, if◌then◌else◌, List, [], ◌∷◌, ◌++◌, length, Option, none, some,
}
use minesweeper.Outcome.{Outcome, ok, throws, or_throw, out_of_range}
use minesweeper.Parameter.{
  text, Parameter, Items, uint64, vector, no_items, item, no_entries, emplace,
}
use minesweeper.Handlers.{HandlerResult, body}
use minesweeper.Board.{Board}
use minesweeper.Board.Create.{clone}

-- An `unordered_map` with numbers as its keys: `find`, `emplace`, which keeps the value of a key
-- that is there, and a write through a reference to a value.
unfoldable pub lookup {ℓ} : {A : Type ℓ} → ℕ → List (ℕ × A) → Option A
lookup k [] = none
lookup k ((j, a) ∷ m) = if j == k then some a else lookup k m

unfoldable pub emplace_at {ℓ} : {A : Type ℓ} → ℕ → A → List (ℕ × A) → List (ℕ × A)
emplace_at k a [] = (k, a) ∷ []
emplace_at k a ((j, b) ∷ m) = if j == k then (j, b) ∷ m else (j, b) ∷ emplace_at k a m

unfoldable pub assign {ℓ} : {A : Type ℓ} → ℕ → A → List (ℕ × A) → List (ℕ × A)
assign k a [] = []
assign k a ((j, b) ∷ m) = if j == k then (j, a) ∷ m else (j, b) ∷ assign k a m

-- `client_context_t`
pub record ClientContext : Type 0 where
  pub board_id : ℕ
  pub board : Board

pub record Server : Type 0 where
  pub boards : List (ℕ × Board)
  pub clients : List (ℕ × ClientContext)
  pub next_client_id : ℕ

abbrev pub boards_count : Server → ℕ
boards_count s = length s.boards

unfoldable pub add_board : Board → Server → ℕ × Server
add_board b s =
    (boards_count s + 1, record s { boards = emplace_at (boards_count s + 1) b s.boards })

-- `plugin_api_t::board`
unfoldable pub board_of : ℕ → Server → Outcome Board
board_of id s = or_throw out_of_range (lookup id s.boards)

-- `add_new_client` with a board that was found, or with the exception that is caught. The number of
-- the client is taken in both cases.
unfoldable pub add_client : ℕ → ℕ → Outcome Board → Server → Option ℕ × Server
add_client id board_id (throws e) s = (none, s)
add_client id board_id (ok b) s =
    let added = emplace_at id (record { board_id = board_id; board = clone b }) s.clients in
    (elim (lookup id s.clients) [ none ↦ some id | some old ↦ none ], record s { clients = added })

unfoldable pub add_new_client : ℕ → Server → Option ℕ × Server
add_new_client board_id s =
    let taken = record s { next_client_id = (s.next_client_id + 1) % 2 ^ 64 } in
    add_client s.next_client_id board_id (board_of board_id taken) taken

unfoldable pub board_for_client : ℕ → Server → Option Board
board_for_client id s = elim (lookup id s.clients) [ none ↦ none | some c ↦ some c.board ]

-- What a handler leaves through the reference to the client's board.
unfoldable pub put_client_board : ℕ → Board → Server → Server
put_client_board id b s = elim (lookup id s.clients) [
  | none ↦ s
  | some c ↦ record s { clients = assign id (record c { board = b }) s.clients }
]

-- The plugin `boards_list`: `collect_board` for each board, in the order of the map.
unfoldable pub collect_boards : List (ℕ × Board) → Items
collect_boards [] = no_items
collect_boards ((id, b) ∷ m) =
    item
      (Parameter.map (
        emplace (text "height") (uint64 b.height) (
          emplace (text "width") (uint64 b.width)
            (emplace (text "board_id") (uint64 id) no_entries))))
      (collect_boards m)

unfoldable pub boards_list_handler : Server → HandlerResult
boards_list_handler s = body (emplace (text "boards") (vector (collect_boards s.boards)) no_entries)
