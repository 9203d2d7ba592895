-- ===== src/Client/Moves.antt =====
-- What the game does with the server's answers.
use minesweeper.Prelude.{
  ◌≡◌, refl, sym, subst, ◌∙◌, ◌↔◌, Bool, true, false, not, if◌then◌else◌, Bool-cases, none, some,
  All, inl, inr, arith,
}
use minesweeper.Prelude.Int.{int_of_int64}
use minesweeper.Outcome.{Outcome, ok}
use minesweeper.Board.{Coord, Board, has_coord, toggle_flag, bombs_count, bombs_total, eq_coord}
use minesweeper.Board.Grid.{Inside, at, put, at-put}
use minesweeper.Board.Reveal.Safe.{mines_around}
use minesweeper.Handlers.Game.{IsGame, Follows, Follows-trans}
use minesweeper.Handlers.Win.{IsWon}
use minesweeper.Client.Api.{RevealResult, FlagResult, CheckResult, Api}
use minesweeper.Client.View.{hidden, flagged, Tile, View}
use minesweeper.Client.Game.{Game, show_result, show_flag, check_game_end, conclude, end_if}
use minesweeper.Client.Contract.{Opens, RevealAnswer, FlagAnswer, Contract, place, places}
use minesweeper.Client.Tiles.{
  tile, put_tile, put_tile-Fits, tile-put_tile, update_tile-Inside, show_booms-Painted,
  show_revealed-Painted,
}
use minesweeper.Client.Mirror.{
  Mirrors, IsShown, Mirrors-Follows, bombs_count_eq, Shows-revealed, Shows-toggled,
}
use minesweeper.Client.Following.{
  cursor, IsFollowing, other_world, with_message, IsFollowing-IsShown, IsShown-IsFollowing,
}

-- The flag that the server set or took back.
flagged-Mirrors :
    (v : View) (k after : Board) (c : Coord) (r : FlagResult)
    → IsGame k
    → Mirrors v k
    → Inside k c
    → r.flagged ≡ not (at k c).flag
    → (at k c).revealed ≡ false
    → after ≡ put k c (toggle_flag (at k c))
    → Follows k after
    → Mirrors
        (put_tile v k c (record (tile v k c) { state = if r.flagged then flagged else hidden }))
        after
flagged-Mirrors v k after c r game m i set fresh same f =
    let t : Tile = record (tile v k c) { state = if r.flagged then flagged else hidden } in
    Mirrors-Follows (put_tile v k c t) k after game.sized f
      (put_tile-Fits k game.sized v c t m.fits)
      (λ q iq.
        let seen : at after q ≡ (if eq_coord c q then toggle_flag (at k c) else at k q) =
          rw same (at-put k c q (toggle_flag (at k c)) game.sized i iq) in
        let drawn = tile-put_tile k game.sized v c q t m.fits i iq in
        elim (Bool-cases (eq_coord c q)) [
          | inl here ↦
              rw (seen, drawn, here)
                (Shows-toggled (tile v k c) (at k c) r.flagged (mines_around k q) set fresh)
          | inr apart ↦ rw (seen, drawn, apart) (m.shows q iq)
        ])

module _ {W : Type 0} (api : Api W) (board_of : W → Board) (IsReady : W → Type 0)
    (contract : Contract api board_of IsReady) (b : Board) where
  pub record Moves (r : Outcome (Game × W)) : Type 0 where
    pub game : Game
    pub world : W
    pub returns : r ≡ ok (game, world)
    pub following : IsFollowing board_of IsReady b game world

  pub stays : (g : Game) (w : W) → IsFollowing board_of IsReady b g w → Moves (ok (g, w))
  stays g w p = record { game = g; world = w; returns = refl; following = p }

  pub conclude-IsFollowing :
      (g : Game) (w : W) (check : CheckResult)
      → IsFollowing board_of IsReady b g w
      → IsShown g (board_of w)
      → (check.good ≡ true → (check.win ≡ true) ↔ IsWon (board_of w))
      → IsFollowing board_of IsReady b (conclude api g check) w
  unfolding conclude
  conclude-IsFollowing g w check p m h = elim (Bool-cases check.good) [
    | inr bad ↦ rw bad p
    | inl good ↦ rw good (record {
      ready = p.ready;
      follows = p.follows;
      on_board = p.on_board;
      sides = p.sides;
      running = inr refl;
      view = inr (record { board = m.board; left = m.left; total = m.total });
      victory = λ e. (h good).0 (ground (arith, e));
      defeat = λ e won'. ground (arith, e, (h good).1 won');
    })
  ]

  pub end_if-Moves :
      (fully : Bool) (g : Game) (w : W)
      → IsFollowing board_of IsReady b g w
      → IsShown g (board_of w)
      → Moves (end_if api (some fully) g w)
  unfolding end_if
  end_if-Moves false g w p m = stays g w p
  end_if-Moves true g w p m =
      let check = contract.board_check w p.ready in
      let p' = other_world board_of IsReady b g w check.after check.ready check.holds.0 p in
      let m' = subst (λ k. IsShown g k) (sym check.holds.0) m in
      rw check.returns
        (stays _ check.after (conclude-IsFollowing g check.after check.result p' m' check.holds.1))

  pub check_game_end-Moves :
      (g : Game) (w : W)
      → IsFollowing board_of IsReady b g w
      → IsShown g (board_of w)
      → Moves (check_game_end api g w)
  unfolding check_game_end
  check_game_end-Moves g w p m =
      let fully = contract.board_fully_revealed w p.ready in
      rw (fully.returns, fully.holds.1)
        (end_if-Moves _ g fully.after
          (other_world board_of IsReady b g w fully.after fully.ready fully.holds.0 p)
          (subst (λ k. IsShown g k) (sym fully.holds.0) m))

  -- Cells that the server revealed, on the client's board.
  pub opened-Moves :
      (g : Game) (w w' : W) (r : RevealResult)
      → IsFollowing board_of IsReady b g w
      → g.ending ≡ none
      → IsReady w'
      → r.good ≡ true
      → r.boom ≡ false
      → Opens (board_of w) (board_of w') r.cells
      → Moves (show_result api r g w')
  unfolding show_result bombs_total
  opened-Moves g w w' r p e ready good calm o =
      let k = board_of w in
      let sized = p.follows.game.sized in
      let m = IsFollowing-IsShown board_of IsReady b g w p e in
      let run = show_revealed-Painted k sized r.cells g.board m.board.fits o.known in
      let mirrors : Mirrors run.after (board_of w') =
        Mirrors-Follows run.after k (board_of w') sized o.follows run.fits (λ q i.
          Shows-revealed (tile g.board k q) (tile run.after k q) (at k q) (at (board_of w') q)
            (has_coord q (places r.cells)) (mines_around k q) (m.board.shows q i) (run.shows q i)
            (o.shown q i)) in
      let count =
        bombs_count_eq k (board_of w') sized o.follows (λ q i. ground (arith, o.shown q i)) in
      let p' =
        IsShown-IsFollowing board_of IsReady b g w w' run.after g.bombs_left g.bombs_total p e ready
          o.follows mirrors (m.left ∙ rw count refl) (m.total ∙ rw o.follows.total refl) in
      rw (good, calm, run.returns)
        (check_game_end-Moves (record g { board = run.after }) w' p'
          (IsFollowing-IsShown board_of IsReady b _ w' p' e))

  pub exploded-Moves :
      (g : Game) (w w' : W) (r : RevealResult)
      → IsFollowing board_of IsReady b g w
      → g.ending ≡ none
      → IsReady w'
      → r.good ≡ true
      → r.boom ≡ true
      → Follows (board_of w) (board_of w')
      → All (λ c. Inside (board_of w) (place c)) r.cells
      → Moves (show_result api r g w')
  unfolding show_result
  exploded-Moves g w w' r p e ready good boomed f inside =
      let k = board_of w in
      let m = IsFollowing-IsShown board_of IsReady b g w p e in
      let run = show_booms-Painted k p.follows.game.sized r.cells g.board m.board.fits inside in
      rw (good, boomed, run.returns)
        (stays _ w' (record {
          ready = ready;
          follows = Follows-trans b k (board_of w') p.follows f;
          on_board = p.on_board;
          sides = (
            run.fits.same_width ∙ p.follows.same_width,
            run.fits.same_height ∙ p.follows.same_height,
          );
          running = inr refl;
          view = inl refl;
          victory = λ won'. absurd (ground (arith, won'));
          defeat = λ lost'. absurd (ground (arith, lost'));
        }))

  pub show_result-Moves :
      (g : Game) (w w' : W) (r : RevealResult)
      → IsFollowing board_of IsReady b g w
      → g.ending ≡ none
      → IsReady w'
      → RevealAnswer (board_of w) (board_of w') r
      → Moves (show_result api r g w')
  unfolding show_result
  show_result-Moves g w w' r p e ready (RevealAnswer.refused bad same) = rw bad (
      stays _ w' (
        with_message board_of IsReady b g w' _
          (other_world board_of IsReady b g w w' ready same p)))
  show_result-Moves g w w' r p e ready (RevealAnswer.exploded good boomed f inside) =
      exploded-Moves g w w' r p e ready good boomed f inside
  show_result-Moves g w w' r p e ready (RevealAnswer.opened good calm o) =
      opened-Moves g w w' r p e ready good calm o

  pub toggled-Moves :
      (g : Game) (w w' : W) (r : FlagResult)
      → IsFollowing board_of IsReady b g w
      → g.ending ≡ none
      → IsReady w'
      → r.good ≡ true
      → r.flagged ≡ not (at (board_of w) (cursor g)).flag
      → (at (board_of w) (cursor g)).revealed ≡ false
      → board_of w' ≡ put (board_of w) (cursor g) (toggle_flag (at (board_of w) (cursor g)))
      → Follows (board_of w) (board_of w')
      → Moves (show_flag api r g w')
  unfolding show_flag
  toggled-Moves g w w' r p e ready good set fresh same f =
      let k = board_of w in
      let c = cursor g in
      let m = IsFollowing-IsShown board_of IsReady b g w p e in
      let i : Inside k c = omega (arith, p.on_board, p.follows.same_width, p.follows.same_height) in
      let paint : Tile → Tile = λ t. record t { state = if r.flagged then flagged else hidden } in
      let v = put_tile g.board k c (paint (tile g.board k c)) in
      let written = update_tile-Inside k p.follows.game.sized g.board c paint m.board.fits i in
      let bombs = contract.board_bombs w' ready in
      let kept = bombs.holds.0 in
      let mirrors : Mirrors v (board_of bombs.after) =
        subst (λ d. Mirrors v d) (sym kept)
          (flagged-Mirrors g.board k (board_of w') c r p.follows.game m.board i set fresh same f) in
      let p' =
        IsShown-IsFollowing board_of IsReady b g w bombs.after v
          (int_of_int64 (bombs_count (board_of bombs.after)))
          (int_of_int64 (bombs_total (board_of bombs.after))) p e bombs.ready
          (subst (λ d. Follows k d) (sym kept) f) mirrors refl refl in
      rw (good, written, bombs.returns, bombs.holds.1)
        (check_game_end-Moves _ bombs.after p'
          (IsFollowing-IsShown board_of IsReady b _ bombs.after p' e))

  pub show_flag-Moves :
      (g : Game) (w w' : W) (r : FlagResult)
      → IsFollowing board_of IsReady b g w
      → g.ending ≡ none
      → IsReady w'
      → FlagAnswer (board_of w) (board_of w') (cursor g) r
      → Moves (show_flag api r g w')
  unfolding show_flag
  show_flag-Moves g w w' r p e ready (FlagAnswer.refused bad same) = rw bad (
      stays _ w' (
        with_message board_of IsReady b g w' _
          (other_world board_of IsReady b g w w' ready same p)))
  show_flag-Moves g w w' r p e ready (FlagAnswer.toggled good set fresh same f) =
      toggled-Moves g w w' r p e ready good set fresh same f
