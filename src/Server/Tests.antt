-- ===== src/Server/Tests.antt =====
-- Two clients of a small server.
use minesweeper.Prelude.{◌≡◌, refl, [], ◌∷◌, some, arith}
use minesweeper.Board.{Board}
use minesweeper.Server.{Server, lookup, add_new_client}
use minesweeper.Server.Clients.{HasFreshId, Joins, add_new_client-Joins}

abbrev empty_board : Board
empty_board = record { cells = []; width = 0; height = 0 }

abbrev flat_board : Board
flat_board = record { cells = []; width = 5; height = 0 }

abbrev small_server : Server
small_server = record {
  boards = (1, empty_board) ∷ (2, flat_board) ∷ [];
  clients =
      (1, record { board_id = 2; board = flat_board })
      ∷ (2, record { board_id = 1; board = empty_board })
      ∷ [];
  next_client_id = 3;
}

small_server-HasFreshId : HasFreshId small_server
unfolding lookup
small_server-HasFreshId = (refl, omega arith)

small_server-lookup : lookup 2 small_server.boards ≡ some flat_board
unfolding lookup
small_server-lookup = refl

add_new_client-Joins_example : Joins small_server flat_board (add_new_client 2 small_server)
add_new_client-Joins_example =
    add_new_client-Joins small_server 2 flat_board small_server-HasFreshId small_server-lookup
