-- ===== src/Parameter.antt =====
-- `parameter_t` of src/server/plugins/api.hxx, with its lists and maps. A `std::string` is its
-- bytes. A `std::unordered_map` is the list of its entries in the order of its iteration, whatever
-- that is.
pub mod Maps
use minesweeper.Prelude.{
  ℕ, suc, ◌≡◌, refl, Bool, true, false, ◌&&◌, ◌||◌, ◌==◌, if◌then◌else◌, List, [], ◌∷◌, String,
  Option, none, some, arith,
}
use minesweeper.Prelude.Int.{ℤ}
use Prim.Native.Char.{code}

abbrev pub Bytes : Type 0
Bytes = List ℕ

-- The bytes of an ASCII text.
abbrev pub text : String → Bytes
text String.[] = []
text (String.◌∷◌ c s) = code c ∷ text s

mutual
  pub data Parameter : Type 0 where
    string : Bytes → Parameter
    int64 : ℤ → Parameter
    uint64 : ℕ → Parameter
    boolean : Bool → Parameter
    vector : Items → Parameter
    map : Entries → Parameter

  pub data Items : Type 0 where
    no_items : Items
    item : Parameter → Items → Items

  pub data Entries : Type 0 where
    no_entries : Entries
    entry : Bytes → Parameter → Entries → Entries

unfoldable pub eq_bytes : Bytes → Bytes → Bool
eq_bytes [] [] = true
eq_bytes [] (b ∷ bs) = false
eq_bytes (a ∷ as') [] = false
eq_bytes (a ∷ as') (b ∷ bs) = (a == b) && eq_bytes as' bs

unfoldable pub size : Entries → ℕ
size no_entries = 0
size (entry k v es) = suc (size es)

unfoldable pub items_size : Items → ℕ
items_size no_items = 0
items_size (item v vs) = suc (items_size vs)

-- `find`, where `at` throws at `none`.
unfoldable pub find : Bytes → Entries → Option Parameter
find k no_entries = none
find k (entry j v es) = if eq_bytes j k then some v else find k es

unfoldable pub contains : Bytes → Entries → Bool
contains k no_entries = false
contains k (entry j v es) = eq_bytes j k || contains k es

unfoldable pub append : Entries → Entries → Entries
append no_entries fs = fs
append (entry k v es) fs = entry k v (append es fs)

-- `emplace`: a key that is there keeps its value.
unfoldable pub emplace : Bytes → Parameter → Entries → Entries
emplace k v es = if contains k es then es else append es (entry k v no_entries)

-- No key stands twice, as in every map.
abbrev pub IsMap : Entries → Type 0
IsMap no_entries = Unit
IsMap (entry k v es) = (contains k es ≡ false) × IsMap es

pub eq_bytes→≡ : (a b : Bytes) → eq_bytes a b ≡ true → a ≡ b
unfolding eq_bytes
eq_bytes→≡ [] [] h = refl
eq_bytes→≡ [] (b ∷ bs) h = absurd (cc)
eq_bytes→≡ (a ∷ as') [] h = absurd (cc)
eq_bytes→≡ (a ∷ as') (b ∷ bs) h = ground (arith, eq_bytes→≡ as' bs)

pub eq_bytes_refl : (a : Bytes) → eq_bytes a a ≡ true
unfolding eq_bytes
eq_bytes_refl [] = refl
eq_bytes_refl (a ∷ as') = ground (arith, eq_bytes_refl as')
