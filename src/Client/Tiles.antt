-- ===== src/Client/Tiles.antt =====
-- The client's tiles against the cells of a board of the same sides.
use minesweeper.Prelude.{
  ◌≡◌, refl, subst, ◌∙◌, if◌then◌else◌, Bool-cases, List, [], ◌∷◌, length, get_or, set,
  get_elem?-eq-get_or, get_or-set_self, get_or-set_ne, length-set, All, inl, inr,
}
use minesweeper.Prelude.Int.{pos}
use minesweeper.Outcome.{Outcome, ok}
use minesweeper.Board.{Coord, Board, has_coord, eq_coord, coord_to_index}
use minesweeper.Board.Grid.{
  Inside, IsSized, index, coord_to_index_lem, in_range, eq_coord→≡, eq_coord→≢, index-inj,
}
use minesweeper.Board.Reveal.Safe.{mines_around}
use minesweeper.Client.Api.{RevealedCell}
use minesweeper.Client.View.{revealed, boom, Tile, new_tile, View, tile_index, tile_at, update_tile}
use minesweeper.Client.Game.{show_booms, show_revealed}
use minesweeper.Client.Contract.{place, places}

-- The vector of tiles fits the board.
pub record Fits (v : View) (b : Board) : Type 0 where
  pub same_width : v.width ≡ b.width
  pub same_height : v.height ≡ b.height
  pub size : length v.tiles ≡ length b.cells

abbrev pub tile : View → Board → Coord → Tile
tile v b q = get_or v.tiles (index b.width q) new_tile

abbrev pub put_tile : View → Board → Coord → Tile → View
put_tile v b q t = record v { tiles = set v.tiles (index b.width q) t }

module _ (b : Board) (sized : IsSized b) where
  tile_index_lem :
      (v : View) (q : Coord) → Fits v b → Inside b q → tile_index v q.x q.y ≡ index b.width q
  unfolding tile_index coord_to_index
  tile_index_lem v q f i = rw f.same_width (coord_to_index_lem b q sized i)

  pub update_tile-Inside :
      (v : View) (q : Coord) (f : Tile → Tile)
      → Fits v b
      → Inside b q
      → update_tile v q.x q.y f ≡ ok (put_tile v b q (f (tile v b q)))
  unfolding update_tile tile_at
  update_tile-Inside v q f fits i =
      rw
        (
          tile_index_lem v q fits i,
          get_elem?-eq-get_or v.tiles (index b.width q) new_tile
              (rw fits.size (in_range b q sized i)),
        )
        refl

  pub put_tile-Fits : (v : View) (q : Coord) (t : Tile) → Fits v b → Fits (put_tile v b q t) b
  put_tile-Fits v q t f = record {
    same_width = f.same_width;
    same_height = f.same_height;
    size = length-set v.tiles (index b.width q) t ∙ f.size;
  }

  pub tile-put_tile :
      (v : View) (c d : Coord) (t : Tile)
      → Fits v b
      → Inside b c
      → Inside b d
      → tile (put_tile v b c t) b d ≡ (if eq_coord c d then t else tile v b d)
  tile-put_tile v c d t f i k = elim (Bool-cases (eq_coord c d)) [
    | inl same ↦
        let self =
          get_or-set_self v.tiles (index b.width c) t new_tile (rw f.size (in_range b c sized i)) in
        rw same (subst (λ e. tile (put_tile v b c t) b e ≡ t) (eq_coord→≡ c d same) self)
    | inr other ↦
        rw other
          (get_or-set_ne v.tiles _ _ t new_tile (λ e. eq_coord→≢ c d other (index-inj b c d i k e)))
  ]

  -- The view after a loop over cells.
  pub record Painted (v : View) (r : Outcome View) (P : Coord → Tile → Type 0) : Type 0 where
    pub after : View
    pub returns : r ≡ ok after
    pub fits : Fits after b
    pub shows : (q : Coord) → Inside b q → P q (tile after b q)

  pub show_booms-Painted :
      (cs : List RevealedCell) (v : View)
      → Fits v b
      → All (λ c. Inside b (place c)) cs
      → Painted v (show_booms cs v) (λ q t. Unit)
  unfolding show_booms
  show_booms-Painted [] v f h = record { after = v; returns = refl; fits = f; shows = λ q i. tt }
  show_booms-Painted (c ∷ cs) v f h =
      let t : Tile = record (tile v b (place c)) { state = boom } in
      let rest =
        show_booms-Painted cs (put_tile v b (place c) t) (put_tile-Fits v (place c) t f) h.1 in
      record {
        after = rest.after;
        returns =
            rw (update_tile-Inside v (place c) (λ u. record u { state = boom }) f h.0) rest.returns;
        fits = rest.fits;
        shows = λ q i. tt;
      }

  -- What a tile is behind the loop over revealed cells.
  abbrev pub Repainted : View → List RevealedCell → Coord → Tile → Type 0
  Repainted v cs q t = t ≡ (
      if has_coord q (places cs)
      then record { state = revealed; count = pos (mines_around b q) }
      else tile v b q)

  -- One more cell in front of the loop.
  Repainted-cons :
      (v : View) (c : RevealedCell) (cs : List RevealedCell) (q : Coord) (t : Tile)
      → Fits v b
      → Inside b (place c)
      → c.count ≡ pos (mines_around b (place c))
      → Inside b q
      → Repainted (put_tile v b (place c) (record { state = revealed; count = c.count })) cs q t
      → Repainted v (c ∷ cs) q t
  Repainted-cons v c cs q t f ic e i h =
      let put = tile-put_tile v (place c) q (record { state = revealed; count = c.count }) f ic i in
      elim (Bool-cases (eq_coord (place c) q)) [
        | inl same ↦
            let here : c.count ≡ pos (mines_around b q) =
              subst (λ d. c.count ≡ pos (mines_around b d)) (eq_coord→≡ (place c) q same) e in
            rw same (elim (Bool-cases (has_coord q (places cs))) [
              | inl m ↦ h ∙ rw m refl
              | inr n ↦ h ∙ rw (n, put, same, here) refl
            ])
        | inr other ↦ rw other (h ∙ rw (put, other) refl)
      ]

  pub show_revealed-Painted :
      (cs : List RevealedCell) (v : View)
      → Fits v b
      → All (λ c. Inside b (place c) × (c.count ≡ pos (mines_around b (place c)))) cs
      → Painted v (show_revealed cs v) (Repainted v cs)
  unfolding show_revealed
  show_revealed-Painted [] v f h = record {
    after = v;
    returns = refl;
    fits = f;
    shows = λ q i. refl;
  }
  show_revealed-Painted (c ∷ cs) v f h =
      let t : Tile = record { state = revealed; count = c.count } in
      let rest =
        show_revealed-Painted cs (put_tile v b (place c) t) (put_tile-Fits v (place c) t f) h.1 in
      record {
        after = rest.after;
        returns = rw (update_tile-Inside v (place c) (λ u. t) f h.0.0) rest.returns;
        fits = rest.fits;
        shows =
            λ q i. Repainted-cons v c cs q (tile rest.after b q) f h.0.0 h.0.1 i (rest.shows q i);
      }
