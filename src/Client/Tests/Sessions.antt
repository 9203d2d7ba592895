-- ===== src/Client/Tests/Sessions.antt =====
-- A game on a board of three cells.
use minesweeper.Prelude.{
  ℕ, zero, suc, ◌≤◌, ◌≡◌, refl, false, ◌==◌, if◌then◌else◌, Option, none, some, List, [], ◌∷◌, ◌++◌,
  get_or, arith,
}
use minesweeper.Prelude.Int.{ℤ, pos, negsuc}
use minesweeper.Parameter.{Bytes, text, eq_bytes}
use minesweeper.Board.{Board, new_cell}
use minesweeper.Board.Grid.{index, at}
use minesweeper.Handlers.Tests.{row_board, row_board-IsGame}
use minesweeper.Handlers.Serve.{
  Request, size, bombs, is_fully_revealed, reveal, flag, check, check_cell,
}
use minesweeper.Server.{Server, board_for_client, lookup}
use minesweeper.Dispatch.Host.{Host}
use minesweeper.Dispatch.Types.{HttpMethod}
use minesweeper.Dispatch.Tests.{plain_host, one_client}
use minesweeper.Dispatch.Respond.{client, Resource}
use minesweeper.Dispatch.Entrypoints.{entrypoint, path_of, method_of}
use minesweeper.Client.Game.{run_game, Key, open_key, flag_key, right, quit}
use minesweeper.Client.Answered.{IsRestbed}
use minesweeper.Client.Remote.{Routes, IsRouted, query_of, IsReady, board_of_client, remote}
use minesweeper.Client.Asking.{IsPrinted}
use minesweeper.Client.Main.{play_session}
use minesweeper.Client.Playing.{IsUntouched, run_game-Moves}
use minesweeper.Client.Fulfilled.{remote-Contract}
use minesweeper.Client.Contract.{Contract}
use minesweeper.Client.Moves.{Moves}
use minesweeper.Client.Api.{Api, client_api}
use minesweeper.Client.Whole.{Plays, play_session-Plays}
use minesweeper.Client.Tests.PlainJson.{plain_json, plain_json-IsDocumented}

-- A number is its sign and one character.
abbrev pub print : ℤ → Bytes
print (pos n) = 43 ∷ n ∷ []
print (negsuc n) = 45 ∷ n ∷ []

abbrev pub scan : Bytes → Option ℤ
scan (s ∷ n ∷ []) = some (if s == 43 then pos n else negsuc n)
scan _ = none

abbrev pub restbed_host : Host
restbed_host = record plain_host { bad_request = pos 400; accepted = pos 200; num = scan }

pub restbed_host-IsRestbed : IsRestbed restbed_host
restbed_host-IsRestbed = record { ok_code = refl; bad_request_code = refl }

pub print-IsPrinted : IsPrinted restbed_host print
print-IsPrinted (pos n) h = (43, n ∷ [], refl, refl)
print-IsPrinted (negsuc n) h = (45, n ∷ [], refl, refl)

abbrev pub paths : HttpMethod → List Request
paths HttpMethod.get = size ∷ bombs ∷ is_fully_revealed ∷ []
paths HttpMethod.post = reveal ∷ flag ∷ check ∷ check_cell ∷ []
paths _ = []

abbrev pub pick : Bytes → List Request → Option Resource
pick path [] = none
pick path (q ∷ qs) =
    let rest = pick path qs in
    if eq_bytes (text "/" ++ path_of q) path then some (entrypoint q) else rest

abbrev pub table : Routes
table = record {
  find = λ method path. pick path (paths method);
  query = query_of;
  not_found = record { good = false; status = pos 404; content = [] };
}

table-finds : (q : Request) → table.find (method_of q) (text "/" ++ path_of q) ≡ some (entrypoint q)
unfolding eq_bytes
table-finds size = refl
table-finds bombs = refl
table-finds is_fully_revealed = refl
table-finds reveal = refl
table-finds flag = refl
table-finds check = refl
table-finds check_cell = refl

table-IsRouted : IsRouted table
table-IsRouted = record { finds = table-finds; brings = λ params. refl }

one_client-IsReady : IsReady plain_json restbed_host table 7 one_client
unfolding board_of_client board_for_client lookup
one_client-IsReady = record { own = refl; game = row_board-IsGame; small = omega arith }

pub untouched_cells :
    (i : ℕ)
    → ((get_or row_board.cells i new_cell).flag ≡ false)
      × ((get_or row_board.cells i new_cell).revealed ≡ false)
untouched_cells zero = (refl, refl)
untouched_cells (suc zero) = (refl, refl)
untouched_cells (suc (suc zero)) = (refl, refl)
untouched_cells (suc (suc (suc i))) = (refl, refl)

one_client-IsUntouched : IsUntouched (board_of_client plain_json restbed_host table 7 one_client)
unfolding board_of_client board_for_client lookup at
one_client-IsUntouched q i = untouched_cells (index 3 q)

-- The first cell is opened, which opens the second; the mine is flagged.
abbrev pub moves : List Key
moves = open_key ∷ right ∷ right ∷ flag_key ∷ quit ∷ []

one_client-sides :
    (1 ≤ (board_of_client plain_json restbed_host table 7 one_client).width)
    × (1 ≤ (board_of_client plain_json restbed_host table 7 one_client).height)
unfolding board_of_client board_for_client lookup
one_client-sides = (omega arith, omega arith)

play_session-Plays_example :
    Plays plain_json plain_json-IsDocumented restbed_host restbed_host-IsRestbed table
      table-IsRouted 7 print print-IsPrinted one_client
      (play_session plain_json print
        (remote plain_json restbed_host table (client 7))
        moves
        one_client)
play_session-Plays_example =
    play_session-Plays plain_json plain_json-IsDocumented restbed_host restbed_host-IsRestbed table
      table-IsRouted 7 print print-IsPrinted moves one_client one_client-IsReady
      one_client-IsUntouched one_client-sides.0 one_client-sides.1

remote-Contract_example :
    Contract
      (client_api plain_json print (remote plain_json restbed_host table (client 7)))
      (board_of_client plain_json restbed_host table 7)
      (IsReady plain_json restbed_host table 7)
remote-Contract_example =
    remote-Contract plain_json plain_json-IsDocumented restbed_host restbed_host-IsRestbed table
      table-IsRouted 7 print print-IsPrinted

abbrev the_api : Api Server
the_api = client_api plain_json print (remote plain_json restbed_host table (client 7))

abbrev the_board : Server → Board
the_board = board_of_client plain_json restbed_host table 7

abbrev the_contract : Contract the_api the_board (IsReady plain_json restbed_host table 7)
the_contract =
    remote-Contract plain_json plain_json-IsDocumented restbed_host restbed_host-IsRestbed table
      table-IsRouted 7 print print-IsPrinted

run_game-Moves_example :
    Moves the_api the_board
      (IsReady plain_json restbed_host table 7)
      the_contract
      (the_board one_client)
      (run_game the_api
        (the_board one_client).width
        (the_board one_client).height
        (pos 1)
        moves
        one_client)
run_game-Moves_example =
    run_game-Moves the_api the_board (IsReady plain_json restbed_host table 7) the_contract
      (the_board one_client) moves (pos 1) one_client one_client-IsReady refl one_client-IsUntouched
      one_client-sides.0 one_client-sides.1
