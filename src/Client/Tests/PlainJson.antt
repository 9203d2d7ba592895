-- ===== src/Client/Tests/PlainJson.antt =====
-- A JSON library whose texts are lists of numbers: codes below 16, and characters above them.
use minesweeper.Prelude.{
  ℕ, ◌+◌, ◌-◌, ◌≡◌, refl, ap, Bool, true, false, ltb, ◌||◌, get_or, if◌then◌else◌, Option, none,
  some, List, [], ◌∷◌, ◌++◌, append-nil, arith,
}
use minesweeper.Prelude.Int.{pos, negsuc, int_of_int64}
use minesweeper.Parameter.{
  Bytes, Parameter, Items, Entries, string, int64, uint64, boolean, vector, map, no_items, item,
  no_entries, entry, find, contains, eq_bytes,
}
use minesweeper.Json.{JsonLibrary, IsDocumented, set_entries, serialize_json}

abbrev chars : Bytes → Bytes → Bytes
chars [] rest = rest
chars (b ∷ bs) rest = (b + 16) ∷ chars bs rest

abbrev mutual
  code : Parameter → Bytes → Bytes
  code (string s) rest = 0 ∷ chars s rest
  code (int64 (pos n)) rest = 1 ∷ (n + 16) ∷ rest
  code (int64 (negsuc n)) rest = 2 ∷ (n + 16) ∷ rest
  code (uint64 n) rest = 3 ∷ (n + 16) ∷ rest
  code (boolean true) rest = 4 ∷ rest
  code (boolean false) rest = 5 ∷ rest
  code (vector vs) rest = 6 ∷ items_code vs rest
  code (map es) rest = 7 ∷ entries_code es rest

  items_code : Items → Bytes → Bytes
  items_code no_items rest = 8 ∷ rest
  items_code (item v vs) rest = 9 ∷ code v (items_code vs rest)

  entries_code : Entries → Bytes → Bytes
  entries_code no_entries rest = 10 ∷ rest
  entries_code (entry k v es) rest = 11 ∷ chars k (code v (entries_code es rest))

-- What was read of a text from its end on.
pub data Part : Type 0 where
  value : Parameter → Part
  items : Items → Part
  entries : Entries → Part

pub record Read : Type 0 where
  pub pending : Bytes
  pub parts : List Part

pub data Mark : Type 0 where
  of_string of_pos of_negsuc of_uint64 of_true of_false of_vector of_map : Mark
  of_no_items of_item of_no_entries of_entry : Mark

-- The marks by their numbers.
abbrev marks : List Mark
marks =
    of_string ∷ of_pos ∷ of_negsuc ∷ of_uint64 ∷ of_true ∷ of_false ∷ of_vector ∷ of_map
    ∷ of_no_items ∷ of_item ∷ of_no_entries ∷ of_entry ∷ []

abbrev read_mark : Mark → Bytes → List Part → List Part
read_mark of_string s ps = value (string s) ∷ ps
read_mark of_pos (n ∷ ns) ps = value (int64 (pos n)) ∷ ps
read_mark of_negsuc (n ∷ ns) ps = value (int64 (negsuc n)) ∷ ps
read_mark of_uint64 (n ∷ ns) ps = value (uint64 n) ∷ ps
read_mark of_true s ps = value (boolean true) ∷ ps
read_mark of_false s ps = value (boolean false) ∷ ps
read_mark of_vector s (items vs ∷ ps) = value (vector vs) ∷ ps
read_mark of_map s (entries es ∷ ps) = value (map es) ∷ ps
read_mark of_no_items s ps = items no_items ∷ ps
read_mark of_item s (value v ∷ items vs ∷ ps) = items (item v vs) ∷ ps
read_mark of_no_entries s ps = entries no_entries ∷ ps
read_mark of_entry k (value v ∷ entries es ∷ ps) = entries (entry k v es) ∷ ps
read_mark _ s ps = []

abbrev read_number : ℕ → Read → Read
read_number n r =
    if ltb n 16
    then record { pending = []; parts = read_mark (get_or marks n of_string) r.pending r.parts }
    else record { pending = (n - 16) ∷ r.pending; parts = r.parts }

abbrev read : Bytes → Read
read [] = record { pending = []; parts = [] }
read (n ∷ ns) = read_number n (read ns)

read_number-char :
    (b : ℕ) (r : Read) → read_number (b + 16) r ≡ record r { pending = b ∷ r.pending }
read_number-char b r =
    let big : ltb (b + 16) 16 ≡ false = ground arith in
    let same : b + 16 - 16 ≡ b = omega arith in rw (big, same) refl

read-chars :
    (s rest : Bytes)
    → read (chars s rest) ≡ record (read rest) { pending = s ++ (read rest).pending }
read-chars [] rest = refl
read-chars (b ∷ bs) rest =
    rw (read-chars bs rest)
      (read_number-char b (record (read rest) { pending = bs ++ (read rest).pending }))

abbrev before : Part → List Part → Read
before part ps = record { pending = []; parts = part ∷ ps }

mutual
  read-code :
      (p : Parameter) (rest : Bytes)
      → (read rest).pending ≡ []
      → read (code p rest) ≡ before (value p) (read rest).parts
  read-code (string s) rest e = rw (read-chars s rest, e, append-nil s) refl
  read-code (int64 (pos n)) rest e = rw (read_number-char n (read rest)) refl
  read-code (int64 (negsuc n)) rest e = rw (read_number-char n (read rest)) refl
  read-code (uint64 n) rest e = rw (read_number-char n (read rest)) refl
  read-code (boolean true) rest e = refl
  read-code (boolean false) rest e = refl
  read-code (vector vs) rest e = rw (read-items_code vs rest e) refl
  read-code (map es) rest e = rw (read-entries_code es rest e) refl

  read-items_code :
      (vs : Items) (rest : Bytes)
      → (read rest).pending ≡ []
      → read (items_code vs rest) ≡ before (items vs) (read rest).parts
  read-items_code no_items rest e = refl
  read-items_code (item v vs) rest e =
      let after = read-items_code vs rest e in
      rw (read-code v (items_code vs rest) (ap (λ r. r.pending) after), after) refl

  read-entries_code :
      (es : Entries) (rest : Bytes)
      → (read rest).pending ≡ []
      → read (entries_code es rest) ≡ before (entries es) (read rest).parts
  read-entries_code no_entries rest e = refl
  read-entries_code (entry k v es) rest e =
      let after = read-entries_code es rest e in
      let inner = read-code v (entries_code es rest) (ap (λ r. r.pending) after) in
      rw (read-chars k (code v (entries_code es rest)), inner, after, append-nil k) refl

abbrev only : List Part → Option Parameter
only (value p ∷ []) = some p
only _ = none

abbrev items_list : Items → List Parameter
items_list no_items = []
items_list (item v vs) = v ∷ items_list vs

abbrev add_item : Items → Parameter → Items
add_item no_items p = item p no_items
add_item (item v vs) p = item v (add_item vs p)

items_list-add_item :
    (vs : Items) (p : Parameter) → items_list (add_item vs p) ≡ items_list vs ++ (p ∷ [])
items_list-add_item no_items p = refl
items_list-add_item (item v vs) p = rw (items_list-add_item vs p) refl

abbrev set_in : Parameter → Bytes → Parameter → Parameter
set_in (map es) k v = map (entry k v es)
set_in _ k v = map (entry k v no_entries)

abbrev at_in : Parameter → Bytes → Option Parameter
at_in (map es) k = find k es
at_in _ k = none

abbrev contains_in : Parameter → Bytes → Bool
contains_in (map es) k = contains k es
contains_in _ k = false

abbrev elements_in : Parameter → List Parameter
elements_in (vector vs) = items_list vs
elements_in _ = []

abbrev push_in : Parameter → Parameter → Parameter
push_in (vector vs) p = vector (add_item vs p)
push_in _ p = vector (item p no_items)

abbrev pub plain_json : JsonLibrary Parameter
plain_json = record {
  parse = λ s. only (read s).parts;
  dump = λ p. code p [];
  null = map no_entries;
  array = vector no_items;
  object = map no_entries;
  of_string = string;
  of_int64 = int64;
  of_uint64 = uint64;
  of_bool = boolean;
  push_back = push_in;
  set = set_in;
  contains = contains_in;
  at = at_in;
  elements = elements_in;
  get_int = λ p. elim p [ int64 z ↦ some (int_of_int64 z) | _ ↦ none ];
  get_size = λ p. elim p [ int64 (pos n) ↦ some n | _ ↦ none ];
  get_bool = λ p. elim p [ boolean b ↦ some b | _ ↦ none ];
  get_string = λ p. elim p [ string s ↦ some s | _ ↦ none ];
}

parse-dump_plain : (p : Parameter) → plain_json.parse (plain_json.dump p) ≡ some p
parse-dump_plain p = rw (read-code p [] refl) refl

at-set_plain :
    (o : Parameter) (k : Bytes) (v : Parameter) (i : Bytes)
    → at_in (set_in o k v) i ≡ (if eq_bytes k i then some v else at_in o i)
unfolding find
at-set_plain (map es) k v i = refl
at-set_plain (string s) k v i = refl
at-set_plain (int64 z) k v i = refl
at-set_plain (uint64 n) k v i = refl
at-set_plain (boolean b) k v i = refl
at-set_plain (vector vs) k v i = refl

contains-set_plain :
    (o : Parameter) (k : Bytes) (v : Parameter) (i : Bytes)
    → contains_in (set_in o k v) i ≡ (eq_bytes k i || contains_in o i)
unfolding contains
contains-set_plain (map es) k v i = refl
contains-set_plain (string s) k v i = refl
contains-set_plain (int64 z) k v i = refl
contains-set_plain (uint64 n) k v i = refl
contains-set_plain (boolean b) k v i = refl
contains-set_plain (vector vs) k v i = refl

elements-push_back_plain : (a v : Parameter) → elements_in (push_in a v) ≡ elements_in a ++ (v ∷ [])
elements-push_back_plain (vector vs) v = items_list-add_item vs v
elements-push_back_plain (map es) v = refl
elements-push_back_plain (string s) v = refl
elements-push_back_plain (int64 z) v = refl
elements-push_back_plain (uint64 n) v = refl
elements-push_back_plain (boolean b) v = refl

pub plain_json-IsDocumented : IsDocumented plain_json
unfolding serialize_json find contains
plain_json-IsDocumented = record {
  parse-dump = λ es plain. parse-dump_plain (set_entries plain_json es plain_json.null);
  at-null = λ k. refl;
  at-object = λ k. refl;
  at-set = λ o k v i h. at-set_plain o k v i;
  contains-null = λ k. refl;
  contains-object = λ k. refl;
  contains-set = λ o k v i h. contains-set_plain o k v i;
  elements-array = refl;
  elements-push_back = λ a v h. elements-push_back_plain a v;
  get_int-of_int64 = λ z. refl;
  get_size-of_int64 = λ n h. refl;
  get_bool-of_bool = λ b. refl;
  get_string-of_string = λ s. refl;
}
