-- ===== src/Client/Playing.antt =====
-- The keys of a game, one after the other.
use minesweeper.Prelude.{
  ◌≤◌, ◌^◌, ◌≡◌, refl, sym, length, length-replicate, get_or-replicate, ◌*◌, ◌%◌, subst, ◌∙◌, Bool,
  true, false, if◌then◌else◌, none, List, [], ◌∷◌, inl, inr, arith,
}
use minesweeper.Prelude.Int.{ℤ, to_int-eq-pos, ◌+ℤ◌, ◌-ℤ◌}
use minesweeper.Outcome.{Outcome, ok}
use minesweeper.Board.{Coord, Board}
use minesweeper.Board.Grid.{Inside, IsSized, index, at, cells_fit}
use minesweeper.Handlers.Game.{IsGame, Follows, Follows-refl}
use minesweeper.Client.Api.{Api}
use minesweeper.Client.View.{new_tile, new_view}
use minesweeper.Client.Game.{
  Key, up, down, left, right, open_key, check_key, flag_key, quit, other, press, play, run_game,
  Game,
}
use minesweeper.Client.Contract.{Contract}
use minesweeper.Client.Mirror.{Mirrors}
use minesweeper.Client.Following.{cursor, IsFollowing, with_message}
use minesweeper.Client.Moves.{Moves, stays, show_result-Moves, show_flag-Moves}

-- The board before anything was flagged or revealed.
abbrev pub IsUntouched : Board → Type 0
IsUntouched k = (q : Coord) → Inside k q → ((at k q).flag ≡ false) × ((at k q).revealed ≡ false)

module _ {W : Type 0} (api : Api W) (board_of : W → Board) (IsReady : W → Type 0)
    (contract : Contract api board_of IsReady) (b : Board) where
  moved :
      (g : Game) (w : W) (x y : ℤ)
      → IsFollowing board_of IsReady b g w
      → Inside b (record { x = x; y = y })
      → Moves api board_of IsReady contract b (ok (record g { cursor_x = x; cursor_y = y }, w))
  moved g w x y p i = stays api board_of IsReady contract b _ w (record {
    ready = p.ready;
    follows = p.follows;
    on_board = i;
    sides = p.sides;
    running = p.running;
    view = elim p.view [
      | inl e ↦ inl e
      | inr m ↦ inr (record { board = m.board; left = m.left; total = m.total })
    ];
    victory = p.victory;
    defeat = p.defeat;
  })

  press-Moves :
      (key : Key) (g : Game) (w : W)
      → IsSized b
      → IsFollowing board_of IsReady b g w
      → g.ending ≡ none
      → Moves api board_of IsReady contract b (press api key g w)
  unfolding press ◌+ℤ◌ ◌-ℤ◌
  press-Moves up g w z p e = moved g w _ _ p (ground (arith, p.on_board))
  press-Moves left g w z p e = moved g w _ _ p (ground (arith, p.on_board))
  press-Moves down g w z p e = moved g w _ _ p (
      rw (p.sides.1, to_int-eq-pos b.height (omega (arith, z.height_fits)))
        (ground (arith, p.on_board)))
  press-Moves right g w z p e = moved g w _ _ p (
      rw (p.sides.0, to_int-eq-pos b.width (omega (arith, z.width_fits)))
        (ground (arith, p.on_board)))
  press-Moves quit g w z p e = stays api board_of IsReady contract b _ w (record {
    ready = p.ready;
    follows = p.follows;
    on_board = p.on_board;
    sides = p.sides;
    running = inr refl;
    view = elim p.view [
      | inl boomed ↦ inl boomed
      | inr m ↦ inr (record { board = m.board; left = m.left; total = m.total })
    ];
    victory = p.victory;
    defeat = p.defeat;
  })
  press-Moves other g w z p e = stays api board_of IsReady contract b g w p
  press-Moves open_key g w z p e =
      let i : Inside (board_of w) (cursor g) =
        omega (arith, p.on_board, p.follows.same_width, p.follows.same_height) in
      let asked = contract.cell_reveal (cursor g) w p.ready i in
      rw asked.returns (
        show_result-Moves api board_of IsReady contract b (record g { message = [] }) w asked.after
          asked.result (with_message board_of IsReady b g w [] p) e asked.ready asked.holds)
  press-Moves check_key g w z p e =
      let i : Inside (board_of w) (cursor g) =
        omega (arith, p.on_board, p.follows.same_width, p.follows.same_height) in
      let asked = contract.cell_check (cursor g) w p.ready i in
      rw asked.returns (
        show_result-Moves api board_of IsReady contract b (record g { message = [] }) w asked.after
          asked.result (with_message board_of IsReady b g w [] p) e asked.ready asked.holds)
  press-Moves flag_key g w z p e =
      let i : Inside (board_of w) (cursor g) =
        omega (arith, p.on_board, p.follows.same_width, p.follows.same_height) in
      let asked = contract.cell_flag (cursor g) w p.ready i in
      rw asked.returns (
        show_flag-Moves api board_of IsReady contract b (record g { message = [] }) w asked.after
          asked.result (with_message board_of IsReady b g w [] p) e asked.ready asked.holds)

  if-Moves :
      (c : Bool) (r s : Outcome (Game × W))
      → (c ≡ true → Moves api board_of IsReady contract b r)
      → (c ≡ false → Moves api board_of IsReady contract b s)
      → Moves api board_of IsReady contract b (if c then r else s)
  if-Moves true r s f g = f refl
  if-Moves false r s f g = g refl

  pub play-Moves :
      (keys : List Key) (g : Game) (w : W)
      → IsSized b
      → IsFollowing board_of IsReady b g w
      → Moves api board_of IsReady contract b (play api keys g w)
  unfolding play
  play-Moves [] g w z p = stays api board_of IsReady contract b g w p
  play-Moves (key ∷ keys) g w z p =
      if-Moves g.game_over _ _ (λ over. stays api board_of IsReady contract b g w p)
        (λ on. elim p.running [
          | inr over ↦ absurd (ground (arith, on, over))
          | inl e ↦
              let one = press-Moves key g w z p e in
              let rest = play-Moves keys one.game one.world z one.following in
              record {
                game = rest.game;
                world = rest.world;
                returns = rw one.returns rest.returns;
                following = rest.following;
              }
        ])

  new_view-Mirrors : IsGame b → IsUntouched b → Mirrors (new_view b.width b.height) b
  unfolding new_view
  new_view-Mirrors game fresh =
      let size : b.width * b.height % 2 ^ 64 ≡ length b.cells = omega (
        arith,
        game.sized.size,
        cells_fit b.width b.height game.sized.width_fits game.sized.height_fits,
      ) in
      record {
        fits = record {
          same_width = refl;
          same_height = refl;
          size = length-replicate (b.width * b.height % 2 ^ 64) new_tile ∙ size;
        };
        shows = λ q i.
            rw (get_or-replicate (b.width * b.height % 2 ^ 64) (index b.width q) new_tile)
              (rw ((fresh q i).0, (fresh q i).1) (refl, λ e. absurd (ground (arith, e))));
      }

  -- Over requests that fulfil the contract, and a world whose board is in play, has positive sides,
  -- and nothing flagged or revealed: whatever keys are pressed, `run_game` returns; what every key
  -- keeps holds in the end: the world is still in play with the mines where they were, the cursor is
  -- on the board, the board that is shown is the world's unless a mine exploded, and a victory is
  -- shown only if the world's board is won, a defeat only if it is not.
  pub run_game-Moves :
      (keys : List Key) (total : ℤ) (w : W)
      → IsReady w
      → board_of w ≡ b
      → IsUntouched b
      → 1 ≤ b.width
      → 1 ≤ b.height
      → Moves api board_of IsReady contract b (run_game api b.width b.height total keys w)
  unfolding run_game
  run_game-Moves keys total w ready begun fresh wide high =
      let game : IsGame b = subst IsGame begun (contract.game w ready) in
      let bombs = contract.board_bombs w ready in
      let here : board_of bombs.after ≡ b = bombs.holds.0 ∙ begun in
      rw (bombs.returns, bombs.holds.1)
        (play-Moves keys _ bombs.after game.sized (record {
          ready = bombs.ready;
          follows = subst (λ k. Follows b k) (sym here) (Follows-refl b game);
          on_board = omega (arith, wide, high);
          sides = (refl, refl);
          running = inl refl;
          view = inr (record {
            board =
                subst (λ k. Mirrors (new_view b.width b.height) k) (sym here)
                  (new_view-Mirrors game fresh);
            left = refl;
            total = refl;
          });
          victory = λ e. absurd (ground (arith, e));
          defeat = λ e. absurd (ground (arith, e));
        }))
