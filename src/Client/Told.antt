-- ===== src/Client/Told.antt =====
-- Answers with a mine, a refusal or a flag, as the client reads them.
use minesweeper.Prelude.{◌≡◌, refl, Bool, true, false, not, Bool-cases, [], ◌∷◌, inl, inr}
use minesweeper.Prelude.Int.{pos}
use minesweeper.Outcome.{ok}
use minesweeper.Parameter.{
  Bytes, text, Entries, string, vector, map, no_items, item, no_entries, entry, eq_bytes, emplace,
  contains, append,
}
use minesweeper.Json.{
  JsonLibrary, IsDocumented, null_object, serialize_json, has_plain, is_plain, are_plain, is_ascii,
  to_json,
}
use minesweeper.Board.{Coord, Cell}
use minesweeper.Handlers.{
  body, unexpected, boom_body, info_body, flagged_body, emplace_coord, bad_request,
}
use minesweeper.Wire.Decoded.{received, received_items, received_entries}
use minesweeper.Dispatch.Host.{Host, answer_of, status}
use minesweeper.Dispatch.HandlerWire.{received_answer}
use minesweeper.Dispatch.Respond.{respond, send_error, add_properties}
use minesweeper.Client.Api.{
  HttpResponse, no_cells, no_flag, no_check, error_of, read_reveal, read_flag, read_flag_of,
  read_check,
}
use minesweeper.Client.Reading.{read_as, string_at-set_entries, bool_at-set_entries, read_mine_lem}
use minesweeper.Client.Answered.{
  IsRestbed, is_success, http_of, answered, parsed_lem, has_key, read_reveal_lem, good_lem,
  with_info,
}

module _ {Json : Type 0} (j : JsonLibrary Json) (doc : IsDocumented j) (h : Host)
    (restbed : IsRestbed h) where
  abbrev mine_entries : Coord → Entries
  mine_entries c = entry (text "status") (string (text "boom")) (
      entry (text "cells")
        (vector (item (map (received_entries (emplace_coord c no_entries))) no_items)) no_entries)

  mine_properties :
      (c : Coord) (k : Cell)
      → add_properties (received_entries (boom_body c (info_body k))) no_entries
        ≡ with_info j doc h restbed k.revealed (mine_entries c)
  unfolding received_entries received_items received add_properties boom_body info_body emplace
      contains append eq_bytes
  mine_properties c k = elim (Bool-cases k.revealed) [
    | inl shown ↦ rw shown refl
    | inr hidden ↦ rw hidden refl
  ]

  read_mine_entries :
      (c : Coord) (shown : Bool) (r : HttpResponse)
      → r.good ≡ true
      → read_reveal j r
          (j.parse (serialize_json j (with_info j doc h restbed shown (mine_entries c))))
        ≡ ok (record {
          good = true;
          boom = true;
          cells = read_as j doc true (record { coord = c; count = pos 0 }) ∷ [];
          error = [];
        })
  unfolding eq_bytes to_json has_plain is_plain are_plain is_ascii received_entries received
      emplace_coord emplace contains append
  read_mine_entries c true r good =
      read_reveal_lem j doc _ refl r (text "boom")
        (item (map (received_entries (emplace_coord c no_entries))) no_items) _ good refl refl refl
        refl (read_mine_lem j doc c)
  read_mine_entries c false r good =
      read_reveal_lem j doc _ refl r (text "boom")
        (item (map (received_entries (emplace_coord c no_entries))) no_items) _ good refl refl refl
        refl (read_mine_lem j doc c)

  pub read-mine :
      (c : Coord) (k : Cell)
      → read_reveal j
          (answered j h (body (boom_body c (info_body k))))
          (j.parse (answered j h (body (boom_body c (info_body k)))).content)
        ≡ ok (record {
          good = true;
          boom = true;
          cells = read_as j doc true (record { coord = c; count = pos 0 }) ∷ [];
          error = [];
        })
  unfolding answered http_of respond received_answer answer_of
  read-mine c k =
      rw (mine_properties c k)
        (read_mine_entries c k.revealed _ (good_lem j doc h restbed (boom_body c (info_body k))))

  -- A refusal is no success, and its message is read.
  error_lem :
      (message : Bytes) (r : HttpResponse)
      → is_ascii message ≡ true
      → error_of j r (j.parse (serialize_json j (entry (text "error") (string message) no_entries)))
        ≡ ok message
  unfolding error_of has_plain is_plain is_ascii eq_bytes to_json
  error_lem message r ascii =
      let es = entry (text "error") (string message) no_entries in
      let plain : has_plain es ≡ true = rw ascii refl in
      rw
        (
          parsed_lem j doc es plain,
          has_key j doc es plain (text "error") refl,
          string_at-set_entries j doc es j.null null_object (text "error") message refl,
        )
        refl

  bad_lem : (message : Bytes) → (answered j h (unexpected bad_request message)).good ≡ false
  unfolding answered http_of is_success respond send_error received_answer answer_of status
  bad_lem message = rw restbed.bad_request_code refl

  pub read_reveal-refusal :
      (message : Bytes)
      → is_ascii message ≡ true
      → read_reveal j
          (answered j h (unexpected bad_request message))
          (j.parse (answered j h (unexpected bad_request message)).content)
        ≡ ok (record no_cells { error = message })
  unfolding read_reveal answered http_of respond send_error received_answer answer_of
  read_reveal-refusal message ascii =
      rw (bad_lem message, error_lem message (answered j h (unexpected bad_request message)) ascii)
        refl

  pub read_flag-refusal :
      (message : Bytes)
      → is_ascii message ≡ true
      → read_flag j
          (answered j h (unexpected bad_request message))
          (j.parse (answered j h (unexpected bad_request message)).content)
        ≡ ok (record no_flag { error = message })
  unfolding read_flag answered http_of respond send_error received_answer answer_of
  read_flag-refusal message ascii =
      rw (bad_lem message, error_lem message (answered j h (unexpected bad_request message)) ascii)
        refl

  pub read_check-refusal :
      (message : Bytes)
      → is_ascii message ≡ true
      → read_check j
          (answered j h (unexpected bad_request message))
          (j.parse (answered j h (unexpected bad_request message)).content)
        ≡ ok (record no_check { error = message })
  unfolding read_check answered http_of respond send_error received_answer answer_of
  read_check-refusal message ascii =
      rw (bad_lem message, error_lem message (answered j h (unexpected bad_request message)) ascii)
        refl

  pub read_flag-toggled :
      (c : Coord) (k : Cell)
      → read_flag j
          (answered j h (body (flagged_body c k)))
          (j.parse (answered j h (body (flagged_body c k))).content)
        ≡ ok (record { good = true; flagged = not k.flag; error = [] })
  unfolding read_flag read_flag_of answered http_of respond received_answer answer_of
      received_entries received add_properties flagged_body emplace_coord emplace contains append
      eq_bytes has_plain is_plain is_ascii to_json
  read_flag-toggled c k =
      let es = add_properties (received_entries (flagged_body c k)) no_entries in
      rw
        (
          good_lem j doc h restbed (flagged_body c k),
          parsed_lem j doc es refl,
          has_key j doc es refl (text "flagged") refl,
          bool_at-set_entries j doc es j.null null_object (text "flagged") (not k.flag) refl,
        )
        refl
