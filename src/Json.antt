-- ===== src/Json.antt =====
-- The JSON library that the server writes its responses with and the client reads them with, a
-- parameter, and what its documentation says of it. `parse` is called without exceptions; an
-- access that throws is `none`.
use minesweeper.Prelude.{
  ◌<◌, ◌^◌, ◌≡◌, ℕ, Bool, true, false, ◌||◌, ◌&&◌, ltb, if◌then◌else◌, Option, none, some, List, [],
  ◌∷◌, ◌++◌,
}
use minesweeper.Prelude.Int.{ℤ, pos, int_of_int64}
use minesweeper.Parameter.{
  Bytes, Parameter, Items, Entries, string, int64, uint64, boolean, vector, map, no_items, item,
  no_entries, entry, eq_bytes,
}

pub record JsonLibrary (Json : Type 0) : Type 0 where
  pub parse : Bytes → Option Json
  pub dump : Json → Bytes
  pub null : Json
  pub array : Json
  pub object : Json
  pub of_string : Bytes → Json
  pub of_int64 : ℤ → Json
  pub of_uint64 : ℕ → Json
  pub of_bool : Bool → Json
  pub push_back : Json → Json → Json
  pub set : Json → Bytes → Json → Json
  pub contains : Json → Bytes → Bool
  pub at : Json → Bytes → Option Json
  pub elements : Json → List Json
  pub get_int : Json → Option ℤ
  pub get_size : Json → Option ℕ
  pub get_bool : Json → Option Bool
  pub get_string : Json → Option Bytes

unfoldable pub is_ascii : Bytes → Bool
is_ascii [] = true
is_ascii (b ∷ bs) = ltb b 128 && is_ascii bs

module _ {Json : Type 0} (j : JsonLibrary Json) where
  -- `parameter_serializer_t::to_json` of src/server/api.cxx.
  unfoldable mutual
    pub to_json : Parameter → Json
    to_json (string s) = j.of_string s
    to_json (int64 z) = j.of_int64 z
    to_json (uint64 n) = j.of_uint64 n
    to_json (boolean b) = j.of_bool b
    to_json (vector vs) = push_items vs j.array
    to_json (map es) = set_entries es j.object

    -- The loop over a list.
    pub push_items : Items → Json → Json
    push_items no_items array = array
    push_items (item v vs) array = push_items vs (j.push_back array (to_json v))

    -- The loop over a map.
    pub set_entries : Entries → Json → Json
    set_entries no_entries object = object
    set_entries (entry k v es) object = set_entries es (j.set object k (to_json v))

  -- The branch of `serialize` for JSON.
  unfoldable pub serialize_json : Entries → Bytes
  unfolding set_entries
  serialize_json m = j.dump (set_entries m j.null)

  -- What can be indexed by a key, or is an array, in the end.
  pub data IsObject : Json → Type 0 where
    null_object : IsObject j.null
    new_object : IsObject j.object
    set_object : {o : Json} → IsObject o → (k : Bytes) (v : Json) → IsObject (j.set o k v)

  pub data IsArray : Json → Type 0 where
    new_array : IsArray j.array
    push_array : {a : Json} → IsArray a → (v : Json) → IsArray (j.push_back a v)

-- All of a parameter's texts are ASCII.
unfoldable mutual
  unfolding is_ascii

  pub is_plain : Parameter → Bool
  is_plain (string s) = is_ascii s
  is_plain (int64 z) = true
  is_plain (uint64 n) = true
  is_plain (boolean b) = true
  is_plain (vector vs) = are_plain vs
  is_plain (map es) = has_plain es

  pub are_plain : Items → Bool
  are_plain no_items = true
  are_plain (item v vs) = is_plain v && are_plain vs

  pub has_plain : Entries → Bool
  has_plain no_entries = true
  has_plain (entry k v es) = is_ascii k && (is_plain v && has_plain es)

-- A text that was dumped is parsed to the same value, if its texts are UTF-8; a key that was set is
-- found again; an array has the elements that were pushed; numbers are converted as by a cast.
pub record IsDocumented {Json : Type 0} (j : JsonLibrary Json) : Type 0 where
  pub parse-dump :
      (es : Entries)
      → has_plain es ≡ true
      → j.parse (serialize_json j es) ≡ some (set_entries j es j.null)
  pub at-null : (k : Bytes) → j.at j.null k ≡ none
  pub at-object : (k : Bytes) → j.at j.object k ≡ none
  pub at-set :
      (o : Json) (k : Bytes) (v : Json) (i : Bytes)
      → IsObject j o
      → j.at (j.set o k v) i ≡ (if eq_bytes k i then some v else j.at o i)
  pub contains-null : (k : Bytes) → j.contains j.null k ≡ false
  pub contains-object : (k : Bytes) → j.contains j.object k ≡ false
  pub contains-set :
      (o : Json) (k : Bytes) (v : Json) (i : Bytes)
      → IsObject j o
      → j.contains (j.set o k v) i ≡ (eq_bytes k i || j.contains o i)
  pub elements-array : j.elements j.array ≡ []
  pub elements-push_back :
      (a v : Json) → IsArray j a → j.elements (j.push_back a v) ≡ j.elements a ++ (v ∷ [])
  pub get_int-of_int64 : (z : ℤ) → j.get_int (j.of_int64 z) ≡ some (int_of_int64 z)
  pub get_size-of_int64 : (n : ℕ) → n < 2 ^ 63 → j.get_size (j.of_int64 (pos n)) ≡ some n
  pub get_bool-of_bool : (b : Bool) → j.get_bool (j.of_bool b) ≡ some b
  pub get_string-of_string : (s : Bytes) → j.get_string (j.of_string s) ≡ some s
