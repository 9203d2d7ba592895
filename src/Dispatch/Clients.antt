-- ===== src/Dispatch/Clients.antt =====
-- The boards of all clients, over the requests that the server dispatches.
use minesweeper.Dispatch.Served.{dispatch-Plays}
use minesweeper.Dispatch.Respond.{Resource, HttpRequest, Response, on_board, dispatch}
use minesweeper.Dispatch.Left.{IsLeft}
use minesweeper.Prelude.{
  ℕ, ◌≡◌, inl, inr, subst, ◌==◌, Bool-cases, some, List, [], ◌∷◌, All, arith, Option-cases,
}
use minesweeper.Outcome.{ok}
use minesweeper.Board.{Board}
use minesweeper.Handlers.Game.{IsGame}
use minesweeper.Handlers.Serve.{Request, serve}
use minesweeper.Server.{Server, ClientContext, lookup, assign, board_for_client, put_client_board}
use minesweeper.Dispatch.Host.{Host}
use minesweeper.Dispatch.Playing.{serve-Follows}

-- Every client has a board in play.
abbrev pub AllPlay : Server → Type 0
AllPlay s = All (λ (c : ℕ × ClientContext). IsGame c.1.board) s.clients

lookup-All :
    (k : ℕ) (m : List (ℕ × ClientContext)) (a : ClientContext)
    → All (λ (c : ℕ × ClientContext). IsGame c.1.board) m
    → lookup k m ≡ some a
    → IsGame a.board
unfolding lookup
lookup-All k [] a h e = absurd (cc)
lookup-All k ((j, c) ∷ m) a h e = elim (Bool-cases (j == k)) [
  | inl same ↦
      let found : c ≡ a = cc (same, e) in subst (λ (x : ClientContext). IsGame x.board) found h.0
  | inr other ↦ lookup-All k m a h.1 (rw other at e)
]

assign-All :
    (k : ℕ) (m : List (ℕ × ClientContext)) (a : ClientContext)
    → All (λ (c : ℕ × ClientContext). IsGame c.1.board) m
    → IsGame a.board
    → All (λ (c : ℕ × ClientContext). IsGame c.1.board) (assign k a m)
unfolding assign
assign-All k [] a h g = tt
assign-All k ((j, c) ∷ m) a h g = elim (Bool-cases (j == k)) [
  | inl same ↦ rw same (g, h.1)
  | inr other ↦ rw other (h.0, assign-All k m a h.1 g)
]

put_client_board-AllPlay :
    (s : Server) (id : ℕ) (b' : Board) → AllPlay s → IsGame b' → AllPlay (put_client_board id b' s)
unfolding put_client_board
put_client_board-AllPlay s id b' all g = elim (Option-cases (lookup id s.clients)) [
  | inl missing ↦
      let same : s ≡ put_client_board id b' s = ground (arith, missing) in subst AllPlay same all
  | inr (c, there) ↦
      let assigned : Server = record s {
        clients = assign id (record c { board = b' }) s.clients;
      } in
      let same : assigned ≡ put_client_board id b' s = ground (arith, there) in
      subst AllPlay same (assign-All id s.clients (record c { board = b' }) all g)
]

board_for_client-IsGame :
    (s : Server) (id : ℕ) (b : Board) → AllPlay s → board_for_client id s ≡ some b → IsGame b
unfolding board_for_client
board_for_client-IsGame s id b all e = elim (Option-cases (lookup id s.clients)) [
  | inl missing ↦ absurd (ground (arith, missing))
  | inr (c, there) ↦
      let own : c.board ≡ b = ground (arith, there) in
      subst IsGame own (lookup-All id s.clients c all there)
]

left-IsGame : (q : Request) (b b' : Board) → IsGame b → IsLeft (serve q) b b' → IsGame b'
left-IsGame q b b' g (inl same) = rw same g
left-IsGame q b b' g (inr (params, result, e)) = (serve-Follows q b b' params result g e).game

-- Where every client has a board in play, and a resource whose handler is one of the handlers for a client's board is
-- dispatched, whatever the request holds, and the dispatch ends: every client has a board in play afterwards.
pub dispatch-AllPlay :
    (h : Host) (resource : Resource) (request : HttpRequest) (s s' : Server) (q : Request)
    (r : Response)
    → resource.handler ≡ on_board (serve q)
    → AllPlay s
    → dispatch h resource request s ≡ ok (r, s')
    → AllPlay s'
dispatch-AllPlay h resource request s s' q r registered all e =
    elim (dispatch-Plays h resource request s (serve q) registered r s' e) [
      | inl (same, error) ↦ rw same all
      | inr (id, b, b', authorized, own, after, left) ↦ rw after (
          put_client_board-AllPlay s id b' all
            (left-IsGame q b b' (board_for_client-IsGame s id b all own) left))
    ]
