-- ===== src/Client/Clocked.antt =====
-- Requests that are sent one after the other: the k-th, from 0 on, by the k-th of a sequence of ways
-- to send one.
use minesweeper.Prelude.{ℕ, suc, ◌≡◌, Option, []}
use minesweeper.Prelude.Int.{ℤ}
use minesweeper.Outcome.{Outcome, ok, throws, ◌>>=◌}
use minesweeper.Parameter.{Bytes, text}
use minesweeper.Json.{JsonLibrary}
use minesweeper.Board.{Board}
use minesweeper.Client.Api.{
  read_reveal, read_flag, read_bombs, read_fully_revealed, read_check, read_size, xy_params,
  HttpResponse, Http, reads, client_api, board_size,
}
use minesweeper.Client.Contract.{Asked, Contract}
use minesweeper.Client.Session.{Sides}

-- The number of the requests that were sent, beside the world that they reach.
abbrev pub Clocked : Type 0 → Type 0
Clocked W = ℕ × W

unfoldable pub tick :
    {W : Type 0} → ℕ → Outcome (HttpResponse × W) → Outcome (HttpResponse × Clocked W)
tick k answered = do (response, w) ← answered; ok (response, (suc k, w))

unfoldable pub clocked : {W : Type 0} → (ℕ → Http W) → Http (Clocked W)
unfolding tick
clocked http = record {
  get = λ path params (k, w). tick k ((http k).get path params w);
  post = λ path params (k, w). tick k ((http k).post path params w);
}

-- What was read, with the world behind it.
abbrev beside : {A W : Type 0} → W → A → Outcome (A × W)
beside w a = ok (a, w)

read_on :
    {A W : Type 0} (k : ℕ) (read : Outcome A) (w : W) (result : A) (after : W)
    → read >>= beside w ≡ ok (result, after)
    → read >>= beside {W = Clocked W} (suc k, w) ≡ ok (result, (suc k, after))
read_on k (throws failure) w result after e = cc
read_on k (ok a) w result after e = cc

reads-tick :
    {A Json W : Type 0} (j : JsonLibrary Json) (k : ℕ)
    (read : HttpResponse → Option Json → Outcome A) (answered : Outcome (HttpResponse × W))
    (result : A) (after : W)
    → reads j read answered ≡ ok (result, after)
    → reads j read (tick k answered) ≡ ok (result, (suc k, after))
unfolding tick
reads-tick j k read (throws failure) result after e = cc
reads-tick j k read (ok (response, w)) result after e =
    read_on k (read response (j.parse response.content)) w result after e

module _ {W : Type 0} (board_of : W → Board) (IsReady : W → Type 0) where
  abbrev pub board_beside : Clocked W → Board
  board_beside w = board_of w.1

  abbrev pub IsReadyBeside : Clocked W → Type 0
  IsReadyBeside w = IsReady w.1

  module _ {Json : Type 0} (j : JsonLibrary Json) where
    ticked :
        {A : Type 0} (k : ℕ) (w : W) (P : Board → A → Type 0)
        (read : HttpResponse → Option Json → Outcome A) (answered : Outcome (HttpResponse × W))
        → Asked board_of IsReady w P (reads j read answered)
        → Asked board_beside IsReadyBeside (k, w) P (reads j read (tick k answered))
    ticked k w P read answered asked = record {
      result = asked.result;
      after = (suc k, asked.after);
      returns = reads-tick j k read answered asked.result asked.after asked.returns;
      ready = asked.ready;
      holds = asked.holds;
    }

    -- Requests that fulfil the contract fulfil it one after the other.
    pub clocked-Contract :
        (to_string : ℤ → Bytes) (http : Http W)
        → Contract (client_api j to_string http) board_of IsReady
        → Contract (client_api j to_string (clocked (λ k. http))) board_beside IsReadyBeside
    unfolding client_api clocked
    clocked-Contract to_string http c = record {
      game = λ w ready. c.game w.1 ready;
      cell_reveal = λ q w ready i.
          ticked w.0 w.1 _ (read_reveal j)
            (http.post (text "/cell/reveal") (xy_params to_string q.x q.y) w.1)
            (c.cell_reveal q w.1 ready i);
      cell_check = λ q w ready i.
          ticked w.0 w.1 _ (read_reveal j)
            (http.post (text "/cell/check") (xy_params to_string q.x q.y) w.1)
            (c.cell_check q w.1 ready i);
      cell_flag = λ q w ready i.
          ticked w.0 w.1 _ (read_flag j)
            (http.post (text "/cell/flag") (xy_params to_string q.x q.y) w.1)
            (c.cell_flag q w.1 ready i);
      board_bombs = λ w ready.
          ticked w.0 w.1 _ (read_bombs j) (http.get (text "/board/bombs") [] w.1)
            (c.board_bombs w.1 ready);
      board_fully_revealed = λ w ready.
          ticked w.0 w.1 _ (read_fully_revealed j) (http.get (text "/board/fully_revealed") [] w.1)
            (c.board_fully_revealed w.1 ready);
      board_check = λ w ready.
          ticked w.0 w.1 _ (read_check j) (http.post (text "/board/check") [] w.1)
            (c.board_check w.1 ready);
    }

    pub clocked-Sides :
        (to_string : ℤ → Bytes) (http : Http W) (w : Clocked W)
        → Asked board_of IsReady w.1 (Sides board_of IsReady w.1) (board_size j to_string http w.1)
        → Asked board_beside IsReadyBeside w
            (Sides board_beside IsReadyBeside w)
            (board_size j to_string (clocked (λ k. http)) w)
    unfolding board_size clocked
    clocked-Sides to_string http w asked =
        ticked w.0 w.1 _ (read_size j) (http.get (text "/board/size") [] w.1) asked
