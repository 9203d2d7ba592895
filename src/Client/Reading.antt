-- ===== src/Client/Reading.antt =====
-- What the client reads from the JSON that the server makes of its answers.
use minesweeper.Prelude.{
  ◌<◌, ◌^◌, ◌≡◌, refl, sym, ◌∙◌, Bool, true, false, ◌||◌, if◌then◌else◌, ℕ, Option, some, List, [],
  ◌∷◌, ◌++◌, append_assoc, append-nil,
}
use minesweeper.Prelude.Int.{ℤ, pos, int_of_int64}
use minesweeper.Outcome.{ok}
use minesweeper.Parameter.{
  Bytes, text, Items, Entries, map, no_items, item, no_entries, entry, eq_bytes, emplace, contains,
  append,
}
use minesweeper.Json.{
  JsonLibrary, IsDocumented, IsObject, IsArray, new_object, set_object, new_array, push_array,
  to_json, push_items, set_entries, is_plain, are_plain, has_plain, is_ascii,
}
use minesweeper.Board.{Coord}
use minesweeper.Board.Reveal.{RevealResult}
use minesweeper.Handlers.{cell_entries, emplace_coord, cells_param}
use minesweeper.Wire.Decoded.{received, received_items, received_entries}
use minesweeper.Client.Api.{
  RevealedCell, int_at, string_at, bool_at, size_at, read_cell, read_cells,
}

module _ {Json : Type 0} (j : JsonLibrary Json) (doc : IsDocumented j) where
  -- The value of a key after some entries were set.
  abbrev pub seek : Entries → Bytes → Option Json → Option Json
  seek no_entries i found = found
  seek (entry k v es) i found = seek es i (if eq_bytes k i then some (to_json j v) else found)

  abbrev pub seek_key : Entries → Bytes → Bool → Bool
  seek_key no_entries i found = found
  seek_key (entry k v es) i found = seek_key es i (eq_bytes k i || found)

  pub at-set_entries :
      (es : Entries) (o : Json) (i : Bytes)
      → IsObject j o
      → j.at (set_entries j es o) i ≡ seek es i (j.at o i)
  unfolding set_entries
  at-set_entries no_entries o i h = refl
  at-set_entries (entry k v es) o i h =
      at-set_entries es (j.set o k (to_json j v)) i (set_object h k (to_json j v))
      ∙ rw (doc.at-set o k (to_json j v) i h) refl

  pub contains-set_entries :
      (es : Entries) (o : Json) (i : Bytes)
      → IsObject j o
      → j.contains (set_entries j es o) i ≡ seek_key es i (j.contains o i)
  unfolding set_entries
  contains-set_entries no_entries o i h = refl
  contains-set_entries (entry k v es) o i h =
      contains-set_entries es (j.set o k (to_json j v)) i (set_object h k (to_json j v))
      ∙ rw (doc.contains-set o k (to_json j v) i h) refl

  abbrev pub items_of : Items → List Json
  items_of no_items = []
  items_of (item v vs) = to_json j v ∷ items_of vs

  elements-push_items :
      (vs : Items) (a : Json)
      → IsArray j a
      → j.elements (push_items j vs a) ≡ j.elements a ++ items_of vs
  unfolding push_items
  elements-push_items no_items a h = sym (append-nil (j.elements a))
  elements-push_items (item v vs) a h =
      elements-push_items vs (j.push_back a (to_json j v)) (push_array h (to_json j v))
      ∙ rw (doc.elements-push_back a (to_json j v) h)
          (append_assoc (j.elements a) (to_json j v ∷ []) (items_of vs))

  pub elements_lem : (vs : Items) → j.elements (push_items j vs j.array) ≡ items_of vs
  elements_lem vs = elements-push_items vs j.array new_array ∙ rw doc.elements-array refl

  -- What the client reads of a cell.
  abbrev pub read_as : Bool → RevealResult → RevealedCell
  read_as boom r = record {
    x = int_of_int64 (r.coord).x;
    y = int_of_int64 (r.coord).y;
    count = if boom then pos 0 else int_of_int64 r.count;
  }

  abbrev pub all_read_as : Bool → List RevealResult → List RevealedCell
  all_read_as boom [] = []
  all_read_as boom (r ∷ rs) = read_as boom r ∷ all_read_as boom rs

  module _ (es : Entries) (o : Json) (object : IsObject j o) (i : Bytes) where
    pub int_at-set_entries :
        (z : ℤ)
        → seek es i (j.at o i) ≡ some (j.of_int64 z)
        → int_at j (set_entries j es o) i ≡ ok (int_of_int64 z)
    unfolding int_at
    int_at-set_entries z e = rw (at-set_entries es o i object, e, doc.get_int-of_int64 z) refl

    pub string_at-set_entries :
        (s : Bytes)
        → seek es i (j.at o i) ≡ some (j.of_string s)
        → string_at j (set_entries j es o) i ≡ ok s
    unfolding string_at
    string_at-set_entries s e =
        rw (at-set_entries es o i object, e, doc.get_string-of_string s) refl

    pub bool_at-set_entries :
        (b : Bool)
        → seek es i (j.at o i) ≡ some (j.of_bool b)
        → bool_at j (set_entries j es o) i ≡ ok b
    unfolding bool_at
    bool_at-set_entries b e = rw (at-set_entries es o i object, e, doc.get_bool-of_bool b) refl

    pub size_at-set_entries :
        (n : ℕ)
        → n < 2 ^ 63
        → seek es i (j.at o i) ≡ some (j.of_int64 (pos n))
        → size_at j (set_entries j es o) i ≡ ok n
    unfolding size_at
    size_at-set_entries n small e =
        rw (at-set_entries es o i object, e, doc.get_size-of_int64 n small) refl

  read_cell-of :
      (boom : Bool) (c : Json) (x y n : ℤ)
      → int_at j c (text "x") ≡ ok x
      → int_at j c (text "y") ≡ ok y
      → j.contains c (text "count") ≡ true
      → int_at j c (text "count") ≡ ok n
      → read_cell j boom c ≡ ok (record { x = x; y = y; count = if boom then pos 0 else n })
  unfolding read_cell
  read_cell-of true c x y n ex ey has en = rw (ex, ey) refl
  read_cell-of false c x y n ex ey has en = rw (ex, ey, has, en) refl

  read_cell_lem :
      (boom : Bool) (r : RevealResult)
      → read_cell j boom (to_json j (map (received_entries (cell_entries r)))) ≡ ok (read_as boom r)
  unfolding to_json received_entries cell_entries emplace_coord emplace contains append eq_bytes
  read_cell_lem boom r =
      let es = received_entries (cell_entries r) in
      read_cell-of boom _ _ _ _
        (int_at-set_entries es j.object new_object (text "x") (r.coord).x refl)
        (int_at-set_entries es j.object new_object (text "y") (r.coord).y refl)
        (contains-set_entries es j.object (text "count") new_object)
        (int_at-set_entries es j.object new_object (text "count") r.count refl)

  pub read_cells_lem :
      (boom : Bool) (rs : List RevealResult)
      → read_cells j boom (items_of (received_items (cells_param rs))) ≡ ok (all_read_as boom rs)
  unfolding read_cells cells_param received_items received
  read_cells_lem boom [] = refl
  read_cells_lem boom (r ∷ rs) = rw (read_cell_lem boom r, read_cells_lem boom rs) refl

  -- The one cell of a mine.
  pub read_mine_lem :
      (c : Coord)
      → read_cells j true
          (items_of (item (map (received_entries (emplace_coord c no_entries))) no_items))
        ≡ ok (read_as true (record { coord = c; count = pos 0 }) ∷ [])
  unfolding read_cells read_cell to_json received_entries emplace_coord emplace contains append
      eq_bytes
  read_mine_lem c =
      let es = received_entries (emplace_coord c no_entries) in
      rw
        (
          int_at-set_entries es j.object new_object (text "x") c.x refl,
          int_at-set_entries es j.object new_object (text "y") c.y refl,
        )
        refl

pub cells_param-plain :
    (rs : List RevealResult) → are_plain (received_items (cells_param rs)) ≡ true
unfolding cells_param received_items received are_plain is_plain has_plain is_ascii cell_entries
    emplace_coord emplace contains append eq_bytes
cells_param-plain [] = refl
cells_param-plain (r ∷ rs) = cells_param-plain rs
