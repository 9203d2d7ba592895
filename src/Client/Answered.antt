-- ===== src/Client/Answered.antt =====
-- What the client makes of a response that the server sends.
use minesweeper.Prelude.{
  ◌≡◌, refl, ◌∙◌, Bool, true, false, ◌&&◌, Bool-cases, if◌then◌else◌, none, some, List, [], inl,
  inr,
}
use minesweeper.Prelude.Int.{ℤ, pos, leb_ℤ, ltb_ℤ}
use minesweeper.Outcome.{ok}
use minesweeper.Parameter.{
  Bytes, text, Items, Entries, string, vector, no_entries, entry, eq_bytes, emplace, contains,
  append,
}
use minesweeper.Json.{
  JsonLibrary, IsDocumented, null_object, push_items, set_entries, serialize_json, has_plain,
  is_plain, is_ascii, to_json,
}
use minesweeper.Board.{Cell}
use minesweeper.Board.Reveal.{RevealResult}
use minesweeper.Handlers.{HandlerResult, body, boomed, revealed_body, info_body, cells_param}
use minesweeper.Wire.Decoded.{received, received_items, received_entries}
use minesweeper.Dispatch.Host.{Host, answer_of}
use minesweeper.Dispatch.Types.{ContentType}
use minesweeper.Dispatch.HandlerWire.{received_answer}
use minesweeper.Dispatch.Respond.{Response, respond, add_properties}
use minesweeper.Client.Api.{
  HttpResponse, string_at, read_cells, read_result, read_reveal, read_reveal_of,
}
use minesweeper.Client.Reading.{
  seek, seek_key, at-set_entries, contains-set_entries, items_of, elements_lem, all_read_as,
  string_at-set_entries, read_cells_lem, cells_param-plain,
}

-- The numbers that restbed's constants stand for.
pub record IsRestbed (h : Host) : Type 0 where
  pub ok_code : h.accepted ≡ pos 200
  pub bad_request_code : h.bad_request ≡ pos 400

-- The test of the client for a code that is no error.
unfoldable pub is_success : ℤ → Bool
is_success code = leb_ℤ (pos 200) code && ltb_ℤ code (pos 300)

module _ {Json : Type 0} (j : JsonLibrary Json) where
  -- What comes to the client of a response in JSON.
  unfoldable pub http_of : Response → HttpResponse
  unfolding is_success
  http_of r = record {
    good = is_success r.code;
    status = r.code;
    content = serialize_json j r.parameters;
  }

  unfoldable pub answered : Host → HandlerResult → HttpResponse
  unfolding http_of
  answered h result = http_of (respond h ContentType.json (received_answer (answer_of h result)))

  module _ (doc : IsDocumented j) (es : Entries) (plain : has_plain es ≡ true) where
    pub parsed_lem : j.parse (serialize_json j es) ≡ some (set_entries j es j.null)
    parsed_lem = doc.parse-dump es plain

    pub at_key :
        (i : Bytes) (v : Json)
        → seek j doc es i none ≡ some v
        → j.at (set_entries j es j.null) i ≡ some v
    at_key i v e = at-set_entries j doc es j.null i null_object ∙ rw (doc.at-null i) e

    pub has_key :
        (i : Bytes)
        → seek_key j doc es i false ≡ true
        → j.contains (set_entries j es j.null) i ≡ true
    has_key i e = contains-set_entries j doc es j.null i null_object ∙ rw (doc.contains-null i) e

    -- A map with a status and cells.
    pub read_reveal_lem :
        (r : HttpResponse) (s : Bytes) (vs : Items) (cells : List _)
        → r.good ≡ true
        → seek_key j doc es (text "status") false ≡ true
        → seek j doc es (text "status") none ≡ some (j.of_string s)
        → seek_key j doc es (text "cells") false ≡ true
        → seek j doc es (text "cells") none ≡ some (push_items j vs j.array)
        → read_cells j (eq_bytes s (text "boom")) (items_of j doc vs) ≡ ok cells
        → read_reveal j r (j.parse (serialize_json j es))
          ≡ ok (record { good = true; boom = eq_bytes s (text "boom"); cells = cells; error = [] })
    unfolding read_reveal read_reveal_of read_result
    read_reveal_lem r s vs cells good has_status at_status has_cells at_cells reading =
        let o = set_entries j es j.null in
        let said : string_at j o (text "status") ≡ ok s =
          string_at-set_entries j doc es j.null null_object (text "status") s
            (rw (doc.at-null (text "status")) at_status) in
        rw
          (
            good,
            parsed_lem,
            has_key (text "status") has_status,
            said,
            has_key (text "cells") has_cells,
            at_key (text "cells") _ at_cells,
            elements_lem j doc vs,
            reading,
          )
          refl

  module _ (doc : IsDocumented j) (h : Host) (restbed : IsRestbed h) where
    pub good_lem :
        (es : Entries)
        → is_success (respond h ContentType.json (received_answer (answer_of h (body es)))).code
          ≡ true
    unfolding is_success respond received_answer answer_of
    good_lem es = rw restbed.ok_code refl

    abbrev said : Bool → Bytes
    said boom = if boom then text "boom" else text "ok"

    abbrev pub with_info : Bool → Entries → Entries
    with_info true es = entry (text "info") (string (text "Already revealed.")) es
    with_info false es = es

    abbrev found_entries : List RevealResult → Entries
    found_entries rs =
        entry (text "cells") (vector (received_items (cells_param rs)))
          (entry (text "status") (string (said (boomed rs))) no_entries)

    found_properties :
        (rs : List RevealResult) (k : Cell)
        → add_properties (received_entries (revealed_body rs (info_body k))) no_entries
          ≡ with_info k.revealed (found_entries rs)
    unfolding received_entries received add_properties revealed_body info_body emplace contains
        append eq_bytes
    found_properties rs k = elim (Bool-cases k.revealed) [
      | inl shown ↦ rw shown refl
      | inr hidden ↦ rw hidden refl
    ]

    found-plain :
        (rs : List RevealResult) (shown : Bool)
        → has_plain (with_info shown (found_entries rs)) ≡ true
    unfolding has_plain is_plain is_ascii
    found-plain rs true = elim (Bool-cases (boomed rs)) [
      | inl boom ↦ rw (boom, cells_param-plain rs) refl
      | inr calm ↦ rw (calm, cells_param-plain rs) refl
    ]
    found-plain rs false = elim (Bool-cases (boomed rs)) [
      | inl boom ↦ rw (boom, cells_param-plain rs) refl
      | inr calm ↦ rw (calm, cells_param-plain rs) refl
    ]

    said_boom : (boom : Bool) → eq_bytes (said boom) (text "boom") ≡ boom
    unfolding eq_bytes
    said_boom true = refl
    said_boom false = refl

    read_found_entries :
        (rs : List RevealResult) (shown : Bool) (r : HttpResponse)
        → r.good ≡ true
        → read_reveal j r (j.parse (serialize_json j (with_info shown (found_entries rs))))
          ≡ ok (record {
            good = true;
            boom = boomed rs;
            cells = all_read_as j doc (boomed rs) rs;
            error = [];
          })
    unfolding eq_bytes to_json
    read_found_entries rs true r good =
        read_reveal_lem doc _ (found-plain rs true) r (said (boomed rs))
          (received_items (cells_param rs)) (all_read_as j doc (boomed rs) rs) good refl refl refl
          refl (rw (said_boom (boomed rs)) (read_cells_lem j doc (boomed rs) rs))
        ∙ rw (said_boom (boomed rs)) refl
    read_found_entries rs false r good =
        read_reveal_lem doc _ (found-plain rs false) r (said (boomed rs))
          (received_items (cells_param rs)) (all_read_as j doc (boomed rs) rs) good refl refl refl
          refl (rw (said_boom (boomed rs)) (read_cells_lem j doc (boomed rs) rs))
        ∙ rw (said_boom (boomed rs)) refl

    -- Cells that were found, whatever the cell that was asked for.
    pub read-found :
        (rs : List RevealResult) (k : Cell)
        → read_reveal j
            (answered h (body (revealed_body rs (info_body k))))
            (j.parse (answered h (body (revealed_body rs (info_body k)))).content)
          ≡ ok (record {
            good = true;
            boom = boomed rs;
            cells = all_read_as j doc (boomed rs) rs;
            error = [];
          })
    unfolding answered respond received_answer answer_of
    read-found rs k =
        rw (found_properties rs k)
          (read_found_entries rs k.revealed _ (good_lem (revealed_body rs (info_body k))))
