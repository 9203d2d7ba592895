-- ===== src/Client/Judged.antt =====
-- The answers about a whole board, and what the client understands of them.
use minesweeper.Prelude.{
  ℕ, ◌*◌, ◌≤◌, ◌≡◌, ◌↔◌, refl, Bool, true, false, Bool-cases, if◌then◌else◌, some, inl, inr, arith,
}
use minesweeper.Prelude.Int.{negsuc, to_int, eq_ℤ, ℤ, pos, int_of_int64, ◌-ℤ◌}
use minesweeper.Outcome.{ok}
use minesweeper.Parameter.{
  text, Entries, string, int64, boolean, no_entries, eq_bytes, emplace, contains, append, size,
}
use minesweeper.Json.{JsonLibrary, IsDocumented, is_ascii}
use minesweeper.Board.{
  Board, flags_count, mine_cells, bombs_count, bombs_total, unrevealed_count, none_of_cell,
}
use minesweeper.Handlers.{
  HandlerResult, body, fully_revealed, is_bad, board_check_handler, unexpected, bad_request,
}
use minesweeper.Handlers.Game.{IsGame}
use minesweeper.Handlers.Win.{IsWon, board_check_handler-IsWon}
use minesweeper.Wire.Encode.{IsSendable}
use minesweeper.Dispatch.Host.{Host, answer_of}
use minesweeper.Client.Api.{CheckResult, read_bombs, read_fully_revealed, read_check, no_check}
use minesweeper.Client.Answered.{IsRestbed, answered}
use minesweeper.Client.Understood.{Understands, refusal-fits, body-fits}
use minesweeper.Client.Told.{read_check-refusal}
use minesweeper.Client.Counted.{read_bombs-counts, read_fully_revealed-answer, read_check-status}

to_int-IsSendable : (n : ℕ) → IsSendable (int64 (to_int n))
unfolding to_int
to_int-IsSendable n = ground arith

int_of_int64-IsSendable : (z : ℤ) → IsSendable (int64 (int_of_int64 z))
unfolding int_of_int64
int_of_int64-IsSendable (pos n) = to_int-IsSendable n
int_of_int64-IsSendable (negsuc n) = to_int-IsSendable _

bombs-IsSendable :
    (b : Board) → IsSendable (int64 (bombs_count b)) × IsSendable (int64 (bombs_total b))
unfolding bombs_count bombs_total
bombs-IsSendable b =
    (int_of_int64-IsSendable (bombs_total b -ℤ flags_count b), to_int-IsSendable (mine_cells b))

module _ {Json : Type 0} (j : JsonLibrary Json) (doc : IsDocumented j) (h : Host)
    (restbed : IsRestbed h) where
  abbrev pub bombs_answer : ℤ → ℤ → Entries
  bombs_answer left total =
      emplace (text "total") (int64 total) (emplace (text "bombs") (int64 left) no_entries)

  pub bombs-Understands :
      (b : Board)
      → IsGame b
      → b.width * b.height ≤ 10000
      → Understands j doc h
          (body (bombs_answer (bombs_count b) (bombs_total b)))
          (λ r.
            (b ≡ b)
            × (r ≡ record {
              good = true;
              left = int_of_int64 (bombs_count b);
              total = int_of_int64 (bombs_total b);
            }))
          (read_bombs j
            (answered j h (body (bombs_answer (bombs_count b) (bombs_total b))))
            (j.parse (answered j h (body (bombs_answer (bombs_count b) (bombs_total b)))).content))
  unfolding answer_of emplace contains append eq_bytes size
  bombs-Understands b g small =
      let ints = bombs-IsSendable b in
      let es = bombs_answer (bombs_count b) (bombs_total b) in
      record {
        meaning = _;
        reads = read_bombs-counts j doc h restbed (bombs_count b) (bombs_total b);
        right = (refl, refl);
        sendable =
            (omega arith, (refl, (refl, tt)), (omega arith, ints.0, (omega arith, ints.1, tt)));
        fits = body-fits j doc h restbed es (omega arith);
      }

  abbrev pub fully_answer : Bool → Entries
  fully_answer full = emplace (text "fully_revealed") (boolean full) no_entries

  pub fully-Understands :
      (b : Board)
      → Understands j doc h
          (body (fully_answer (fully_revealed b)))
          (λ r. (b ≡ b) × (r ≡ some (fully_revealed b)))
          (read_fully_revealed j
            (answered j h (body (fully_answer (fully_revealed b))))
            (j.parse (answered j h (body (fully_answer (fully_revealed b)))).content))
  unfolding answer_of emplace contains append eq_bytes size
  fully-Understands b = record {
    meaning = _;
    reads = read_fully_revealed-answer j doc h restbed (fully_revealed b);
    right = (refl, refl);
    sendable = (omega arith, (refl, tt), (omega arith, tt, tt));
    fits = body-fits j doc h restbed (fully_answer (fully_revealed b)) (omega arith);
  }

  abbrev verdict : Bool → Entries
  verdict fine =
      emplace (text "status") (string (if fine then text "win" else text "lose")) no_entries

  -- What the client learns of a check.
  abbrev pub Judges : Board → CheckResult → Type 0
  Judges b r = (b ≡ b) × (r.good ≡ true → (r.win ≡ true) ↔ IsWon b)

  verdict-Understands :
      (b : Board) (fine : Bool)
      → ((fine ≡ true) ↔ IsWon b)
      → Understands j doc h (body (verdict fine)) (Judges b) (
          read_check j
            (answered j h (body (verdict fine)))
            (j.parse (answered j h (body (verdict fine))).content))
  unfolding answer_of emplace contains append eq_bytes size is_ascii
  verdict-Understands b true won = record {
    meaning = _;
    reads = read_check-status j doc h restbed (text "win") refl;
    right = (refl, λ _. won);
    sendable = (omega arith, (refl, tt), (omega arith, omega arith, tt));
    fits = body-fits j doc h restbed (verdict true) (omega arith);
  }
  verdict-Understands b false won = record {
    meaning = _;
    reads = read_check-status j doc h restbed (text "lose") refl;
    right = (refl, λ _. won);
    sendable = (omega arith, (refl, tt), (omega arith, omega arith, tt));
    fits = body-fits j doc h restbed (verdict false) (omega arith);
  }

  -- The handler of a check, and what the client reads of its answer.
  pub record Checked (b : Board) : Type 0 where
    pub result : HandlerResult
    pub returns : (es : Entries) → board_check_handler b es ≡ ok (result, b)
    pub understood :
        Understands j doc h result
          (Judges b)
          (read_check j (answered j h result) (j.parse (answered j h result).content))

  win-IsWon :
      (b : Board)
      → IsGame b
      → b.width * b.height ≤ 10000
      → (eq_ℤ (unrevealed_count b) (bombs_total b)) ≡ true
      → (none_of_cell b is_bad ≡ true) ↔ IsWon b
  unfolding board_check_handler emplace contains append
  win-IsWon b g small all =
      let agreed = board_check_handler-IsWon b no_entries g (omega (arith, small)) in
      (
        λ fine. agreed.0 (rw (all, fine) refl),
        λ won. elim (Bool-cases (none_of_cell b is_bad)) [
          | inl fine ↦ fine
          | inr bad ↦ absurd (ground (arith, agreed.1 won, all, bad))
        ],
      )

  pub check-Checked : (b : Board) → IsGame b → b.width * b.height ≤ 10000 → Checked b
  unfolding board_check_handler is_ascii
  check-Checked b g small = elim (Bool-cases (eq_ℤ (unrevealed_count b) (bombs_total b))) [
    | inr left ↦
        let message = text "Can't check field when unrevealed cells are left." in
        record {
          result = unexpected bad_request message;
          returns = λ es. rw left refl;
          understood = record {
            meaning = record no_check { error = message };
            reads = read_check-refusal j doc h restbed message refl;
            right = (refl, λ e. absurd (ground (arith, e)));
            sendable = (refusal-fits j doc h restbed message (omega arith)).0;
            fits = (refusal-fits j doc h restbed message (omega arith)).1;
          };
        }
    | inl all ↦ record {
      result = body (verdict (none_of_cell b is_bad));
      returns = λ es. rw all refl;
      understood = verdict-Understands b (none_of_cell b is_bad) (win-IsWon b g small all);
    }
  ]
