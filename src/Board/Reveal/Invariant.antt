-- ===== src/Board/Reveal/Invariant.antt =====
-- The invariant of the loops of `reveal_cells`, and a visit of a neighbour.
use minesweeper.Prelude.{
  ◌+◌, ◌≡◌, sym, subst, ◌∙◌, Bool-cases, if◌then◌else◌, List, [], ◌∷◌, ◌++◌, ◌∈◌, length, ◌⊎◌, inl,
  inr, ◌↔◌, arith, length-append, mem-append_one,
}
use minesweeper.Prelude.Int.{pos}
use minesweeper.Board.{Coord, Board, eq_coord, set_revealed, neighbors, hidden_cells}
use minesweeper.Board.Grid.{
  Inside, IsSized, at, put, put-width, put-height, at-put_self, put-IsSized, at-put, eq_coord→≡,
}
use minesweeper.Board.Neighbors.{Distinct, Adjacent, mem-neighbors}
use minesweeper.Board.Reveal.{RevealResult, Front}
use minesweeper.Board.Reveal.Region.{
  IsFresh, label, Reach, next, coords, mem-snoc, Distinct-snoc, hidden_cells-put,
}

module _ (b : Board) (start : Coord) where
  -- What is known of a coordinate that was reported.
  pub record IsOpened (now : Board) (q : Coord) : Type 0 where
    pub inside : Inside b q
    pub fresh : IsFresh (at b q)
    pub reached : Reach b start q
    pub set : at now q ≡ set_revealed (at b q)

  -- `cur` is the coordinate whose neighbours are visited, and `todo` those still to come. `frame`,
  -- `opened` and `labels` keep the reveal inside the region; `begun` and `closed` say that no cell
  -- of its frontier is forgotten.
  pub record Inv (cur : Coord) (todo : List Coord) (s : Front) : Type 0 where
    pub same_width : s.board.width ≡ b.width
    pub same_height : s.board.height ≡ b.height
    pub sized : IsSized s.board
    pub frame : (q : Coord) → Inside b q → (q ∈ coords s.revealed) ⊎ (at s.board q ≡ at b q)
    pub opened : (q : Coord) → q ∈ coords s.revealed → IsOpened s.board q
    pub labels : (r : RevealResult) → r ∈ s.revealed → r.count ≡ label (at b r.coord)
    pub distinct : Distinct (coords s.revealed)
    pub total : hidden_cells s.board + length s.revealed ≡ hidden_cells b
    pub seen : (q : Coord) → q ∈ s.visited → Inside b q → IsFresh (at b q) → q ∈ coords s.revealed
    pub waiting : (q : Coord) → q ∈ s.queue → (q ∈ coords s.revealed) × (label (at b q) ≡ pos 0)
    pub begun : start ∈ coords s.revealed
    pub closed :
        (p q : Coord)
        → p ∈ coords s.revealed
        → label (at b p) ≡ pos 0
        → Adjacent p q
        → Inside b q
        → IsFresh (at b q)
        → (q ∈ coords s.revealed) ⊎ (p ∈ s.queue) ⊎ ((p ≡ cur) × (q ∈ todo))

  pub Inv-moved :
      {cur : Coord} {todo : List Coord} {s : Front} (i : Inv cur todo s) (q : Coord)
      → Inside b q
      → Inside s.board q
  Inv-moved i q iq = let w = i.same_width in let h = i.same_height in omega arith

  -- The step on a neighbour that is neither flagged nor revealed.
  module _ (cur n : Coord) (todo : List Coord) (s : Front) (i : Inv cur (n ∷ todo) s)
      (is_open : cur ∈ coords s.revealed) (zero_label : label (at b cur) ≡ pos 0)
      (near : Adjacent cur n) (inside : Inside b n) (same : at s.board n ≡ at b n)
      (fresh : IsFresh (at b n)) (unlisted : ¬ (n ∈ coords s.revealed)) where
    abbrev pub entry : RevealResult
    entry = record { coord = n; count = label (at s.board n) }

    abbrev pub board' : Board
    board' = put s.board n (set_revealed (at s.board n))

    abbrev pub found : List RevealResult
    found = s.revealed ++ (entry ∷ [])

    new : (q : Coord) → (q ∈ coords found) ↔ ((q ∈ coords s.revealed) ⊎ (q ≡ n))
    new q = mem-snoc q s.revealed entry

    at-board' :
        (q : Coord)
        → Inside b q
        → at board' q ≡ (if eq_coord n q then set_revealed (at s.board n) else at s.board q)
    at-board' q iq = at-put s.board n q _ i.sized (Inv-moved i n inside) (Inv-moved i q iq)

    pub Inv-open :
        (queue' visited' : List Coord)
        → ((q : Coord) → (q ∈ visited') → (q ∈ s.visited) ⊎ (q ≡ n))
        → ((q : Coord) → (q ∈ queue') → (q ∈ s.queue) ⊎ ((q ≡ n) × (label (at b n) ≡ pos 0)))
        → ((q : Coord) → (q ∈ s.queue) → q ∈ queue')
        → (label (at b n) ≡ pos 0 → n ∈ queue')
        → Inv cur todo
            (record { queue = queue'; visited = visited'; revealed = found; board = board' })
    Inv-open queue' visited' hv hq keep joins = record {
      same_width = (put-width s.board n _ ∙ i.same_width);
      same_height = (put-height s.board n _ ∙ i.same_height);
      sized = (put-IsSized s.board n _ i.sized);
      frame = λ q iq. ground (arith, eq_coord→≡ n q, at-board' q iq, i.frame q iq, (new q).1);
      opened = λ q m. elim ((new q).0 m) [
        | inl old ↦
            let o = i.opened q old in
            record {
              inside = o.inside;
              fresh = o.fresh;
              reached = o.reached;
              set = elim (Bool-cases (eq_coord n q)) [
                | inl e ↦
                    absurd
                      (unlisted (subst (λ z. z ∈ coords s.revealed) (sym (eq_coord→≡ n q e)) old))
                | inr e ↦ at-board' q o.inside ∙ rw e o.set
              ];
            }
        | inr e ↦
            subst (λ z. IsOpened board' z) (sym e)
              (record {
                inside = inside;
                fresh = fresh;
                reached = next (i.opened cur is_open).reached zero_label near inside fresh;
                set = (at-put_self s.board n _ i.sized (Inv-moved i n inside) ∙ rw same);
              })
      ];
      labels = λ r m. (elim ((mem-append_one r entry s.revealed).0 m) [
        | inl old ↦ i.labels r old
        | inr e ↦ rw (e, same)
      ]);
      distinct = (Distinct-snoc s.revealed entry i.distinct unlisted);
      total =
          (omega (
            arith,
            i.total,
            length-append {0} s.revealed (entry ∷ []),
            hidden_cells-put s.board n i.sized (Inv-moved i n inside) (rw same fresh.1),
          ));
      seen = λ q m iq fq. ground (arith, hv q m, i.seen q, (new q).1);
      waiting = λ q m. elim (hq q m) [
        | inl old ↦ ((new q).1 (inl (i.waiting q old).0), (i.waiting q old).1)
        | inr (e, z) ↦ ((new q).1 (inr e), rw e z)
      ];
      begun = (new start).1 (inl i.begun);
      closed = λ p q mp z adj iq fq. elim ((new p).0 mp) [
        | inl old ↦ elim (i.closed p q old z adj iq fq) [
          | inl a ↦ inl ((new q).1 (inl a))
          | inr (inl c) ↦ inr (inl (keep p c))
          | inr (inr (e, inl f)) ↦ inl ((new q).1 (inr f))
          | inr (inr (e, inr t)) ↦ inr (inr (e, t))
        ]
        | inr e ↦ inr (inl (rw e (joins (rw e at z))))
      ];
    }

  -- A neighbour that is passed over.
  pub Inv-skip :
      (cur n : Coord) (todo visited' : List Coord) (s : Front)
      → Inv cur (n ∷ todo) s
      → (IsFresh (at b n) → n ∈ coords s.revealed)
      → ((q : Coord) → (q ∈ visited') → (q ∈ s.visited) ⊎ (q ≡ n))
      → Inv cur todo (record s { visited = visited' })
  Inv-skip cur n todo visited' s i done hv = record {
    same_width = i.same_width;
    same_height = i.same_height;
    sized = i.sized;
    frame = i.frame;
    opened = λ q m. record {
      inside = (i.opened q m).inside;
      fresh = (i.opened q m).fresh;
      reached = (i.opened q m).reached;
      set = (i.opened q m).set;
    };
    labels = i.labels;
    distinct = i.distinct;
    total = i.total;
    seen = λ q m iq fq. elim (hv q m) [
      | inl old ↦ i.seen q old iq fq
      | inr e ↦ rw e (done (rw e at fq))
    ];
    waiting = i.waiting;
    begun = i.begun;
    closed = λ p q mp z adj iq fq. elim (i.closed p q mp z adj iq fq) [
      | inl a ↦ inl a
      | inr (inl c) ↦ inr (inl c)
      | inr (inr (e, inl f)) ↦ inl (rw f (done (rw f at fq)))
      | inr (inr (e, inr t)) ↦ inr (inr (e, t))
    ];
  }

  -- The front of the queue is taken, and its neighbours are to be visited.
  pub Inv-pop :
      (cur q : Coord) (queue visited : List Coord) (revealed : List RevealResult) (now : Board)
      → Inv cur []
          (record { queue = q ∷ queue; visited = visited; revealed = revealed; board = now })
      → Inv q
          (neighbors now q)
          (record { queue = queue; visited = visited; revealed = revealed; board = now })
  Inv-pop cur q queue visited revealed now i = record {
    same_width = i.same_width;
    same_height = i.same_height;
    sized = i.sized;
    frame = i.frame;
    opened = i.opened;
    labels = i.labels;
    distinct = i.distinct;
    total = i.total;
    seen = i.seen;
    waiting = λ p m. i.waiting p (inr m);
    begun = i.begun;
    closed = λ p n mp z adj iq fq. elim (i.closed p n mp z adj iq fq) [
      | inl a ↦ inl a
      | inr (inl (inl e)) ↦
          let here_now = Inv-moved i q (rw e at (i.opened p mp).inside) in
          inr (inr (e, (mem-neighbors now q n i.sized here_now).1 (rw e at adj, Inv-moved i n iq)))
      | inr (inl (inr m)) ↦ inr (inl m)
      | inr (inr (e, t)) ↦ absurd t
    ];
  }
