-- ===== src/Client/Tests/Entering.antt =====
-- A client that joins a server with a board of three cells, and plays on its copy.
use minesweeper.Prelude.{
  ℕ, ◌+◌, ◌%◌, ◌≤◌, ◌<◌, true, ◌≡◌, refl, if◌then◌else◌, some, [], ◌∷◌, ◌++◌, arith,
}
use minesweeper.Parameter.{text, eq_bytes}
use minesweeper.Board.Grid.{at, index}
use minesweeper.Handlers.Tests.{row_board, row_board-IsGame}
use minesweeper.Handlers.Serve.{
  Request, size, bombs, is_fully_revealed, reveal, flag, check, check_cell,
}
use minesweeper.Json.{is_ascii}
use minesweeper.Dispatch.Types.{HttpMethod}
use minesweeper.Dispatch.Auth.{lifetime, signed_token, create_jwt_for_client}
use minesweeper.Dispatch.Entrypoints.{path_of, method_of, entrypoint, session_resource}
use minesweeper.Dispatch.Tests.{one_client}
use minesweeper.Dispatch.Tests.Sessions.{
  plain_tokens, plain_tokens-Faithful, one_session, one_client-HasFreshId, first_board,
}
use minesweeper.Client.Remote.{Routes, IsRouted}
use minesweeper.Client.Playing.{IsUntouched}
use minesweeper.Client.Main.{main}
use minesweeper.Client.Joined.{remote_for, Enters, main-Enters}
use minesweeper.Client.Tests.PlainJson.{plain_json, plain_json-IsDocumented}
use minesweeper.Client.Tests.Sessions.{
  restbed_host, restbed_host-IsRestbed, print, print-IsPrinted, table, moves, untouched_cells,
}

abbrev whole_table : Routes
whole_table = record table {
  find = λ method path.
      if eq_bytes path (text "/session/new")
      then some (session_resource one_session)
      else table.find method path;
}

whole_table-finds :
    (q : Request) → whole_table.find (method_of q) (text "/" ++ path_of q) ≡ some (entrypoint q)
unfolding eq_bytes
whole_table-finds size = refl
whole_table-finds bombs = refl
whole_table-finds is_fully_revealed = refl
whole_table-finds reveal = refl
whole_table-finds flag = refl
whole_table-finds check = refl
whole_table-finds check_cell = refl

whole_table-IsRouted : IsRouted whole_table
whole_table-IsRouted = record { finds = whole_table-finds; brings = λ params. refl }

sessions_found :
    whole_table.find HttpMethod.post (text "/session/new") ≡ some (session_resource one_session)
unfolding eq_bytes
sessions_found = refl

row_board-IsUntouched : IsUntouched row_board
unfolding at
row_board-IsUntouched q i = untouched_cells (index 3 q)

ascii_token : is_ascii (10 ∷ 8 ∷ []) ≡ true
unfolding is_ascii
ascii_token = refl

-- A clock that is set back by a hundred seconds whenever they have passed.
abbrev seconds : ℕ → ℕ
seconds k = 10 + k % 100

seconds-in : (k : ℕ) → (seconds 0 ≤ seconds k) × (seconds k < seconds 0 + lifetime)
seconds-in k = omega arith

main-Enters_example :
    Enters plain_json plain_json-IsDocumented restbed_host restbed_host-IsRestbed whole_table
      whole_table-IsRouted print print-IsPrinted plain_tokens plain_tokens-Faithful seconds
      seconds-in one_client row_board
      (main plain_json print
        (remote_for plain_json restbed_host whole_table plain_tokens seconds)
        (some (text "1"))
        moves
        (0, one_client))
unfolding create_jwt_for_client signed_token
main-Enters_example =
    main-Enters plain_json plain_json-IsDocumented restbed_host restbed_host-IsRestbed whole_table
      whole_table-IsRouted print print-IsPrinted plain_tokens plain_tokens-Faithful seconds
      seconds-in one_session (λ id. refl) sessions_found moves (some (text "1")) one_client 1
      row_board (10 ∷ 8 ∷ []) (omega arith) one_client-HasFreshId (omega arith) (omega arith)
      (refl, omega arith, omega arith) first_board row_board-IsGame (omega arith)
      row_board-IsUntouched (omega arith) (omega arith) refl ascii_token (omega arith)
