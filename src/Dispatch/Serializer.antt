-- ===== src/Dispatch/Serializer.antt =====
-- `parameter_serializer_t` of src/server/api.cxx, up to the libraries that write the text: the events
-- that a YAML emitter gets and the calls that an XML printer gets.
use minesweeper.Prelude.{
  ◌≡◌, refl, if◌then◌else◌, ◌==◌, Option, none, some, List, [], ◌∷◌, ◌++◌, append_assoc,
}
use minesweeper.Parameter.{
  Bytes, text, Parameter, Items, Entries, string, int64, uint64, boolean, vector, map, no_items,
  item, no_entries, entry,
}

-- `YAML::Key << key << YAML::Value` is one event.
pub data YamlEvent : Type 0 where
  begin_seq end_seq begin_map end_map : YamlEvent
  key : Bytes → YamlEvent
  scalar : Parameter → YamlEvent

unfoldable mutual
  pub write_yaml : Parameter → List YamlEvent
  write_yaml (string s) = scalar (string s) ∷ []
  write_yaml (int64 z) = scalar (int64 z) ∷ []
  write_yaml (uint64 n) = scalar (uint64 n) ∷ []
  write_yaml (boolean b) = scalar (boolean b) ∷ []
  write_yaml (vector vs) = begin_seq ∷ (write_yaml_items vs ++ (end_seq ∷ []))
  write_yaml (map es) = begin_map ∷ (write_yaml_entries es ++ (end_map ∷ []))

  pub write_yaml_items : Items → List YamlEvent
  write_yaml_items no_items = []
  write_yaml_items (item v vs) = write_yaml v ++ write_yaml_items vs

  pub write_yaml_entries : Entries → List YamlEvent
  write_yaml_entries no_entries = []
  write_yaml_entries (entry k v es) = key k ∷ (write_yaml v ++ write_yaml_entries es)

-- The branch of `serialize` for YAML.
unfoldable pub serialize_yaml : Entries → List YamlEvent
unfolding write_yaml_entries
serialize_yaml es = begin_map ∷ (write_yaml_entries es ++ (end_map ∷ []))

pub data XmlCall : Type 0 where
  open_element : Bytes → XmlCall
  close_element : XmlCall
  push_text : Parameter → XmlCall

-- What a function that takes a `const char*` sees of a string.
unfoldable pub c_str : Bytes → Bytes
c_str [] = []
c_str (b ∷ bs) = let rest = c_str bs in if b == 0 then [] else b ∷ rest

unfoldable mutual
  unfolding c_str

  pub write_xml : Parameter → List XmlCall
  write_xml (string s) = push_text (string (c_str s)) ∷ []
  write_xml (int64 z) = push_text (int64 z) ∷ []
  write_xml (uint64 n) = push_text (uint64 n) ∷ []
  write_xml (boolean b) = push_text (boolean b) ∷ []
  write_xml (vector vs) = write_xml_items vs
  write_xml (map es) = write_xml_entries es

  pub write_xml_items : Items → List XmlCall
  write_xml_items no_items = []
  write_xml_items (item v vs) =
      open_element (text "item") ∷ (write_xml v ++ (close_element ∷ write_xml_items vs))

  pub write_xml_entries : Entries → List XmlCall
  write_xml_entries no_entries = []
  write_xml_entries (entry k v es) =
      open_element (c_str k) ∷ (write_xml v ++ (close_element ∷ write_xml_entries es))

-- The branch of `serialize` for XML.
unfoldable pub serialize_xml : Entries → List XmlCall
unfolding write_xml_entries
serialize_xml es = open_element (text "response") ∷ (write_xml_entries es ++ (close_element ∷ []))

-- What a YAML reader has open: a sequence, a map between two entries or behind a key, with what it
-- has read of it, the place of the document, or the document itself.
pub data Open : Type 0 where
  in_seq : Items → Open
  between : Entries → Open
  behind_key : Entries → Bytes → Open
  front : Open
  document : Parameter → Open

abbrev add_item : Items → Parameter → Items
add_item no_items p = item p no_items
add_item (item v vs) p = item v (add_item vs p)

abbrev add_entry : Entries → Bytes → Parameter → Entries
add_entry no_entries k p = entry k p no_entries
add_entry (entry l v es) k p = entry l v (add_entry es k p)

-- A node that is complete.
abbrev fill : Parameter → List Open → Option (List Open)
fill p (in_seq vs ∷ st) = some (in_seq (add_item vs p) ∷ st)
fill p (behind_key es k ∷ st) = some (between (add_entry es k p) ∷ st)
fill p (front ∷ st) = some (document p ∷ st)
fill p _ = none

abbrev yaml_step : YamlEvent → List Open → Option (List Open)
yaml_step begin_seq st = some (in_seq no_items ∷ st)
yaml_step begin_map st = some (between no_entries ∷ st)
yaml_step end_seq (in_seq vs ∷ st) = fill (vector vs) st
yaml_step end_map (between es ∷ st) = fill (map es) st
yaml_step (key k) (between es ∷ st) = some (behind_key es k ∷ st)
yaml_step (scalar v) st = fill v st
yaml_step _ _ = none

infixl 5 ◌>>=◌
abbrev ◌>>=◌ : Option (List Open) → (List Open → Option (List Open)) → Option (List Open)
none >>= f = none
(some st) >>= f = f st

abbrev yaml_run : List YamlEvent → List Open → Option (List Open)
yaml_run [] st = some st
yaml_run (e ∷ es) st = yaml_step e st >>= yaml_run es

abbrev read_document : Option (List Open) → Option Parameter
read_document (some (document p ∷ [])) = some p
read_document _ = none

-- The document of a stream of events, if the events are nested as those of a document.
abbrev pub read_yaml : List YamlEvent → Option Parameter
read_yaml es = read_document (yaml_run es (front ∷ []))

abbrev join_items : Items → Items → Items
join_items no_items us = us
join_items (item v vs) us = item v (join_items vs us)

abbrev join_entries : Entries → Entries → Entries
join_entries no_entries fs = fs
join_entries (entry k v es) fs = entry k v (join_entries es fs)

join_items-add_item :
    (vs : Items) (p : Parameter) (us : Items)
    → join_items (add_item vs p) us ≡ join_items vs (item p us)
join_items-add_item no_items p us = refl
join_items-add_item (item v vs) p us = rw (join_items-add_item vs p us) refl

join_entries-add_entry :
    (es : Entries) (k : Bytes) (p : Parameter) (fs : Entries)
    → join_entries (add_entry es k p) fs ≡ join_entries es (entry k p fs)
join_entries-add_entry no_entries k p fs = refl
join_entries-add_entry (entry l v es) k p fs = rw (join_entries-add_entry es k p fs) refl

join_items-no_items : (vs : Items) → join_items vs no_items ≡ vs
join_items-no_items no_items = refl
join_items-no_items (item v vs) = rw (join_items-no_items vs) refl

join_entries-no_entries : (es : Entries) → join_entries es no_entries ≡ es
join_entries-no_entries no_entries = refl
join_entries-no_entries (entry k v es) = rw (join_entries-no_entries es) refl

mutual
  unfolding write_yaml write_yaml_items write_yaml_entries

  write_yaml-run :
      (p : Parameter) (rest : List YamlEvent) (st : List Open)
      → yaml_run (write_yaml p ++ rest) st ≡ (fill p st >>= yaml_run rest)
  write_yaml-run (string s) rest st = refl
  write_yaml-run (int64 z) rest st = refl
  write_yaml-run (uint64 n) rest st = refl
  write_yaml-run (boolean b) rest st = refl
  write_yaml-run (vector vs) rest st =
      rw
        (
          append_assoc (write_yaml_items vs) (end_seq ∷ []) rest,
          items-run vs (end_seq ∷ rest) no_items st,
        )
        refl
  write_yaml-run (map es) rest st =
      rw
        (
          append_assoc (write_yaml_entries es) (end_map ∷ []) rest,
          entries-run es (end_map ∷ rest) no_entries st,
        )
        refl

  items-run :
      (vs : Items) (rest : List YamlEvent) (done : Items) (st : List Open)
      → yaml_run (write_yaml_items vs ++ rest) (in_seq done ∷ st)
        ≡ yaml_run rest (in_seq (join_items done vs) ∷ st)
  items-run no_items rest done st = rw (join_items-no_items done) refl
  items-run (item v vs) rest done st =
      rw
        (
          append_assoc (write_yaml v) (write_yaml_items vs) rest,
          write_yaml-run v (write_yaml_items vs ++ rest) (in_seq done ∷ st),
          items-run vs rest (add_item done v) st,
          join_items-add_item done v vs,
        )
        refl

  entries-run :
      (es : Entries) (rest : List YamlEvent) (done : Entries) (st : List Open)
      → yaml_run (write_yaml_entries es ++ rest) (between done ∷ st)
        ≡ yaml_run rest (between (join_entries done es) ∷ st)
  entries-run no_entries rest done st = rw (join_entries-no_entries done) refl
  entries-run (entry k v es) rest done st =
      rw
        (
          append_assoc (write_yaml v) (write_yaml_entries es) rest,
          write_yaml-run v (write_yaml_entries es ++ rest) (behind_key done k ∷ st),
          entries-run es rest (add_entry done k v) st,
          join_entries-add_entry done k v es,
        )
        refl

-- The events that `serialize` gives a YAML emitter for a map are nested as those of one document,
-- and a reader of these events gets the map back, its entries in the same order.
pub read_yaml-serialize_yaml : (es : Entries) → read_yaml (serialize_yaml es) ≡ some (map es)
unfolding serialize_yaml
read_yaml-serialize_yaml es = rw (entries-run es (end_map ∷ []) no_entries (front ∷ [])) refl

-- The elements that an XML printer has open, the innermost first; text stands in an element.
abbrev pub xml_run : List XmlCall → List Bytes → Option (List Bytes)
xml_run [] names = some names
xml_run (open_element k ∷ cs) names = xml_run cs (k ∷ names)
xml_run (close_element ∷ cs) (k ∷ names) = xml_run cs names
xml_run (push_text p ∷ cs) (k ∷ names) = xml_run cs (k ∷ names)
xml_run (_ ∷ cs) [] = none

mutual
  unfolding write_xml write_xml_items write_xml_entries

  write_xml-run :
      (p : Parameter) (rest : List XmlCall) (k : Bytes) (names : List Bytes)
      → xml_run (write_xml p ++ rest) (k ∷ names) ≡ xml_run rest (k ∷ names)
  write_xml-run (string s) rest k names = refl
  write_xml-run (int64 z) rest k names = refl
  write_xml-run (uint64 n) rest k names = refl
  write_xml-run (boolean b) rest k names = refl
  write_xml-run (vector vs) rest k names = xml_items-run vs rest (k ∷ names)
  write_xml-run (map es) rest k names = xml_entries-run es rest (k ∷ names)

  xml_items-run :
      (vs : Items) (rest : List XmlCall) (names : List Bytes)
      → xml_run (write_xml_items vs ++ rest) names ≡ xml_run rest names
  xml_items-run no_items rest names = refl
  xml_items-run (item v vs) rest names =
      rw
        (
          append_assoc (write_xml v) (close_element ∷ write_xml_items vs) rest,
          write_xml-run v (close_element ∷ (write_xml_items vs ++ rest)) (text "item") names,
        )
        (xml_items-run vs rest names)

  xml_entries-run :
      (es : Entries) (rest : List XmlCall) (names : List Bytes)
      → xml_run (write_xml_entries es ++ rest) names ≡ xml_run rest names
  xml_entries-run no_entries rest names = refl
  xml_entries-run (entry k v es) rest names =
      rw
        (
          append_assoc (write_xml v) (close_element ∷ write_xml_entries es) rest,
          write_xml-run v (close_element ∷ (write_xml_entries es ++ rest)) (c_str k) names,
        )
        (xml_entries-run es rest names)

-- The elements that `serialize` opens in an XML printer for a map are closed again, each after the
-- elements within it and none that is not open; and text is only put into an open element.
pub serialize_xml-run : (es : Entries) → xml_run (serialize_xml es) [] ≡ some []
unfolding serialize_xml
serialize_xml-run es = rw (xml_entries-run es (close_element ∷ []) (text "response" ∷ [])) refl
