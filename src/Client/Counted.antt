-- ===== src/Client/Counted.antt =====
-- Answers that count or judge, as the client reads them.
use minesweeper.Prelude.{◌<◌, ◌^◌, ◌≡◌, refl, Bool, true, ℕ, some, []}
use minesweeper.Prelude.Int.{ℤ, pos, int_of_int64, to_int64-eq-pos}
use minesweeper.Outcome.{ok}
use minesweeper.Parameter.{
  Bytes, text, string, int64, uint64, boolean, no_entries, entry, eq_bytes, emplace, contains,
  append,
}
use minesweeper.Json.{
  JsonLibrary, IsDocumented, null_object, has_plain, is_plain, is_ascii, to_json,
}
use minesweeper.Handlers.{body}
use minesweeper.Wire.Decoded.{received, received_entries}
use minesweeper.Dispatch.Host.{Host, answer_of}
use minesweeper.Dispatch.HandlerWire.{received_answer}
use minesweeper.Dispatch.Respond.{respond, add_properties}
use minesweeper.Client.Api.{
  read_check, read_check_of, read_bombs, read_bombs_of, read_fully_revealed, read_fully_revealed_of,
  read_size, read_size_of,
}
use minesweeper.Client.Reading.{
  int_at-set_entries, string_at-set_entries, bool_at-set_entries, size_at-set_entries,
}
use minesweeper.Client.Answered.{IsRestbed, http_of, answered, parsed_lem, has_key, good_lem}

module _ {Json : Type 0} (j : JsonLibrary Json) (doc : IsDocumented j) (h : Host)
    (restbed : IsRestbed h) where
  pub read_bombs-counts :
      (left total : ℤ)
      → let es =
          emplace (text "total") (int64 total) (emplace (text "bombs") (int64 left) no_entries) in
        read_bombs j (answered j h (body es)) (j.parse (answered j h (body es)).content)
        ≡ ok (record { good = true; left = int_of_int64 left; total = int_of_int64 total })
  unfolding read_bombs read_bombs_of answered http_of respond received_answer answer_of
      received_entries received add_properties emplace contains append eq_bytes has_plain is_plain
      is_ascii to_json
  read_bombs-counts left total =
      let es = entry (text "bombs") (int64 left) (entry (text "total") (int64 total) no_entries) in
      rw
        (
          good_lem j doc h restbed es,
          parsed_lem j doc es refl,
          has_key j doc es refl (text "bombs") refl,
          has_key j doc es refl (text "total") refl,
          int_at-set_entries j doc es j.null null_object (text "bombs") left refl,
          int_at-set_entries j doc es j.null null_object (text "total") total refl,
        )
        refl

  pub read_fully_revealed-answer :
      (b : Bool)
      → let es = emplace (text "fully_revealed") (boolean b) no_entries in
        read_fully_revealed j (answered j h (body es)) (j.parse (answered j h (body es)).content)
        ≡ ok (some b)
  unfolding read_fully_revealed read_fully_revealed_of answered http_of respond received_answer
      answer_of received_entries received add_properties emplace contains append eq_bytes has_plain
      is_plain is_ascii to_json
  read_fully_revealed-answer b =
      let es = entry (text "fully_revealed") (boolean b) no_entries in
      rw
        (
          good_lem j doc h restbed es,
          parsed_lem j doc es refl,
          has_key j doc es refl (text "fully_revealed") refl,
          bool_at-set_entries j doc es j.null null_object (text "fully_revealed") b refl,
        )
        refl

  pub read_check-status :
      (s : Bytes)
      → is_ascii s ≡ true
      → let es = emplace (text "status") (string s) no_entries in
        read_check j (answered j h (body es)) (j.parse (answered j h (body es)).content)
        ≡ ok (record { good = true; win = eq_bytes s (text "win"); error = [] })
  unfolding read_check read_check_of answered http_of respond received_answer answer_of
      received_entries received add_properties emplace contains append has_plain is_plain is_ascii
      to_json
  read_check-status s ascii =
      let es = entry (text "status") (string s) no_entries in
      let plain : has_plain es ≡ true = rw ascii refl in
      rw
        (
          good_lem j doc h restbed es,
          parsed_lem j doc es plain,
          has_key j doc es plain (text "status") (unfold eq_bytes in refl),
          string_at-set_entries j doc es j.null null_object (text "status") s
              (unfold eq_bytes in refl),
        )
        refl

  pub read_size-sides :
      (width height : ℕ)
      → width < 2 ^ 63
      → height < 2 ^ 63
      → let es =
          emplace
            (text "height")
            (uint64 height)
            (emplace (text "width") (uint64 width) no_entries) in
        read_size j (answered j h (body es)) (j.parse (answered j h (body es)).content)
        ≡ ok (some (width, height))
  unfolding read_size read_size_of answered http_of respond received_answer answer_of
      received_entries received add_properties emplace contains append eq_bytes has_plain is_plain
      is_ascii to_json
  read_size-sides width height wide high =
      let es =
        entry (text "width") (int64 (pos width))
          (entry (text "height") (int64 (pos height)) no_entries) in
      rw
        (
          to_int64-eq-pos width wide,
          to_int64-eq-pos height high,
          good_lem j doc h restbed es,
          parsed_lem j doc es refl,
          has_key j doc es refl (text "width") refl,
          has_key j doc es refl (text "height") refl,
          size_at-set_entries j doc es j.null null_object (text "width") width wide refl,
          size_at-set_entries j doc es j.null null_object (text "height") height high refl,
        )
        refl
