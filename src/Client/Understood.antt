-- ===== src/Client/Understood.antt =====
-- What the client reads of the handlers' answers, against what the handlers did.
use minesweeper.Prelude.{
  ◌+◌, ◌*◌, ◌^◌, ◌≤◌, ◌<◌, ◌≡◌, refl, sym, ◌∙◌, subst, Bool, true, false, not, if◌then◌else◌, List,
  [], ◌∷◌, length, All, arith,
}
use minesweeper.Prelude.Int.{ℤ, pos, negsuc, pos_part, ltb_ℤ, int_of_int64}
use minesweeper.Outcome.{Outcome, ok}
use minesweeper.Json.{JsonLibrary, IsDocumented}
use minesweeper.Board.{Coord, Board, has_coord, set_revealed, hidden_cells}
use minesweeper.Board.Grid.{Inside, IsSized, at}
use minesweeper.Board.Reveal.{RevealResult}
use minesweeper.Board.Reveal.Region.{label, coords}
use minesweeper.Board.Reveal.Safe.{mines_around}
use minesweeper.Handlers.{
  HandlerResult, body, unexpected, bad_request, boomed, revealed_body, boom_body, info_body,
  flagged_body,
}
use minesweeper.Handlers.Game.{IsGame, Follows, Follows-refl}
use minesweeper.Handlers.Found.{Finds}
use minesweeper.Handlers.Replies.{refusal, Reveal, mine, found, Flag}
use minesweeper.Handlers.Sizes.{
  cost, entries_cost, Known, mines_around_le, revealed_body-cost, revealed_body-IsSendable,
  boom_body-IsSendable, flagged_body-IsSendable, count_if_le,
}
use minesweeper.Dispatch.Host.{Host, answer_of, status}
use minesweeper.Dispatch.HandlerWire.{IsAnswer, IsInt, int_of_int64-IsInt, to_wire}
use minesweeper.Dispatch.Adapter.{handler_output_capacity}
use minesweeper.Client.Api.{read_reveal, read_flag, no_cells, no_flag}
use minesweeper.Client.Reading.{read_as, all_read_as}
use minesweeper.Client.Answered.{IsRestbed, answered, read-found}
use minesweeper.Client.Told.{read-mine, read_reveal-refusal, read_flag-refusal, read_flag-toggled}
use minesweeper.Client.Contract.{place, places, Opens, RevealAnswer, FlagAnswer}

in_range-IsInt : (z : ℤ) → 1 ≤ pos_part z → pos_part z < 2 ^ 31 → IsInt z
in_range-IsInt (pos n) h k = k
in_range-IsInt (negsuc n) h k = omega arith

pub coord-IsInt : (b : Board) (c : Coord) → IsSized b → Inside b c → IsInt c.x × IsInt c.y
coord-IsInt b c v i = (
  in_range-IsInt c.x i.0 (omega (arith, i, v.width_fits)),
  in_range-IsInt c.y i.2 (omega (arith, i, v.height_fits)),
)

not_label : (k : _) → ltb_ℤ (label k) (pos 0) ≡ false → label k ≡ k.count
not_label k h = ground arith

module _ {Json : Type 0} (j : JsonLibrary Json) (doc : IsDocumented j) where
  place-read_as :
      (b : Board) (boom : Bool) (r : RevealResult)
      → IsSized b
      → Inside b r.coord
      → place (read_as j doc boom r) ≡ r.coord
  place-read_as b boom r v i =
      let ints = coord-IsInt b r.coord v i in
      rw (int_of_int64-IsInt (r.coord).x ints.0, int_of_int64-IsInt (r.coord).y ints.1) refl

  places-all_read_as :
      (b : Board) (boom : Bool) (rs : List RevealResult)
      → IsSized b
      → All (Known b) rs
      → places (all_read_as j doc boom rs) ≡ coords rs
  places-all_read_as b boom [] v h = refl
  places-all_read_as b boom (r ∷ rs) v h =
      rw (place-read_as b boom r v h.0.0, places-all_read_as b boom rs v h.1) refl

  all_read_as-Inside :
      (b : Board) (boom : Bool) (rs : List RevealResult)
      → IsSized b
      → All (Known b) rs
      → All (λ c. Inside b (place c)) (all_read_as j doc boom rs)
  all_read_as-Inside b boom [] v h = tt
  all_read_as-Inside b boom (r ∷ rs) v h = (
    subst (λ c. Inside b c) (sym (place-read_as b boom r v h.0.0)) h.0.0,
    all_read_as-Inside b boom rs v h.1,
  )

  -- Without a mine, each cell has the number of mines around it.
  all_read_as-counts :
      (b : Board) (rs : List RevealResult)
      → IsGame b
      → All (Known b) rs
      → boomed rs ≡ false
      → All
          (λ c. Inside b (place c) × (c.count ≡ pos (mines_around b (place c))))
          (all_read_as j doc false rs)
  unfolding boomed
  all_read_as-counts b [] g h calm = tt
  all_read_as-counts b (r ∷ rs) g h calm =
      let q = r.coord in
      let i : Inside b q = h.0.0 in
      let safe : ltb_ℤ (label (at b q)) (pos 0) ≡ false =
        subst (λ n. ltb_ℤ n (pos 0) ≡ false) h.0.1 (ground (arith, calm)) in
      let count : r.count ≡ pos (mines_around b q) =
        h.0.1 ∙ not_label (at b q) safe ∙ g.counted q i in
      let small : IsInt (pos (mines_around b q)) = omega (arith, mines_around_le b q) in
      let read : int_of_int64 r.count ≡ pos (mines_around b q) =
        rw count (int_of_int64-IsInt (pos (mines_around b q)) small) in
      (
        subst (λ c. Inside b c × (int_of_int64 r.count ≡ pos (mines_around b c)))
            (sym (place-read_as b false r g.sized i)) (i, read),
        all_read_as-counts b rs g h.1 (ground (arith, calm)),
      )

  found-Opens :
      (b after : Board) (rs : List RevealResult)
      → IsGame b
      → Finds b after rs
      → boomed rs ≡ false
      → Opens b after (all_read_as j doc false rs)
  found-Opens b after rs g f calm = record {
    follows = f.follows;
    known = all_read_as-counts b rs g f.known calm;
    shown =
        subst
          (λ cs.
            (q : Coord)
            → Inside b q
            → at after q ≡ (if has_coord q cs then set_revealed (at b q) else at b q))
          (sym (places-all_read_as b false rs g.sized f.known)) f.shown;
  }

  found-RevealAnswer :
      (b after : Board) (rs : List RevealResult) (boom : Bool)
      → IsGame b
      → Finds b after rs
      → boomed rs ≡ boom
      → RevealAnswer b after
          (record { good = true; boom = boom; cells = all_read_as j doc boom rs; error = [] })
  found-RevealAnswer b after rs true g f e =
      RevealAnswer.exploded refl refl f.follows (all_read_as-Inside b true rs g.sized f.known)
  found-RevealAnswer b after rs false g f e =
      RevealAnswer.opened refl refl (found-Opens b after rs g f e)

  -- An answer that is small enough, what the client reads of it, and that this is right.
  pub record Understands (h : Host) {A : Type 0} (result : HandlerResult) (P : A → Type 0)
      (r : Outcome A) : Type 0 where
    pub meaning : A
    pub reads : r ≡ ok meaning
    pub right : P meaning
    pub sendable : IsAnswer (answer_of h result)
    pub fits : 13 + cost (to_wire (answer_of h result)) ≤ handler_output_capacity

  module _ (h : Host) (restbed : IsRestbed h) where
    pub refusal-fits :
        (message : _)
        → length message < 128
        → IsAnswer (answer_of h (unexpected bad_request message))
          × (13 + cost (to_wire (answer_of h (unexpected bad_request message)))
              ≤ handler_output_capacity)
    unfolding answer_of status to_wire
    refusal-fits message short =
        (rw restbed.bad_request_code (omega arith, omega arith), omega arith)

    pub body-fits :
        (es : _)
        → entries_cost es ≤ 1000000
        → 13 + cost (to_wire (answer_of h (body es))) ≤ handler_output_capacity
    unfolding answer_of to_wire
    body-fits es few = omega arith

    pub Reveal-Understands :
        (b after : Board) (result : HandlerResult)
        → IsGame b
        → b.width * b.height ≤ 10000
        → Reveal b after result
        → Understands h result
            (RevealAnswer b after)
            (read_reveal j (answered j h result) (j.parse (answered j h result).content))
    unfolding hidden_cells answer_of
    Reveal-Understands b after result g small (Reveal.refused (refusal message ascii short) same) =
        record {
          meaning = record no_cells { error = message };
          reads = read_reveal-refusal j doc h restbed message ascii;
          right = RevealAnswer.refused refl same;
          sendable = (refusal-fits message short).0;
          fits = (refusal-fits message short).1;
        }
    Reveal-Understands b after result g small (mine c k i same) =
        let sent = boom_body-IsSendable b c k g i in
        record {
          meaning = _;
          reads = read-mine j doc h restbed c k;
          right =
              RevealAnswer.exploded refl refl
                (subst (λ d. Follows b d) (sym same) (Follows-refl b g))
                (
                  subst (λ d. Inside b d)
                      (sym (place-read_as b true (record { coord = c; count = pos 0 }) g.sized i))
                      i,
                  tt,
                );
          sendable = sent.0;
          fits = body-fits (boom_body c (info_body k)) (omega (arith, sent.1));
        }
    Reveal-Understands b after result g small (found rs k f) =
        let few : length rs ≤ 10000 =
          omega (arith, f.total, count_if_le (λ k. not k.revealed) b.cells, g.sized.size, small) in
        record {
          meaning = _;
          reads = read-found j doc h restbed rs k;
          right = found-RevealAnswer b after rs (boomed rs) g f refl;
          sendable = revealed_body-IsSendable b rs k g f.known (omega (arith, few));
          fits =
              body-fits (revealed_body rs (info_body k))
                (omega (arith, few, revealed_body-cost rs k));
        }

    pub Flag-Understands :
        (b after : Board) (c : Coord) (result : HandlerResult)
        → IsGame b
        → Inside b c
        → Flag b after c result
        → Understands h result
            (FlagAnswer b after c)
            (read_flag j (answered j h result) (j.parse (answered j h result).content))
    unfolding answer_of
    Flag-Understands b after c result g i (Flag.refused (refusal message ascii short) same) =
        record {
          meaning = record no_flag { error = message };
          reads = read_flag-refusal j doc h restbed message ascii;
          right = FlagAnswer.refused refl same;
          sendable = (refusal-fits message short).0;
          fits = (refusal-fits message short).1;
        }
    Flag-Understands b after c result g i (Flag.toggled k same fresh put_ f) =
        let sent = flagged_body-IsSendable b c k g i in
        record {
          meaning = _;
          reads = read_flag-toggled j doc h restbed c k;
          right = FlagAnswer.toggled refl (rw same refl) fresh put_ f;
          sendable = sent.0;
          fits = body-fits (flagged_body c k) (omega (arith, sent.1));
        }
