-- ===== src/Wire/Result.antt =====
-- How a store or a load ends, and the tags of the wire format.
use minesweeper.Prelude.{ℕ, ◌+◌, ◌-◌, ◌%◌, ◌^◌, ltb, leb, ◌==◌, if◌then◌else◌}

pub data WireError : Type 0 where
  -- the messages of `store` and `load`
  already_used overrun version_mismatch checksum_mismatch trailing_bytes : WireError
  invalid_tag : ℕ → WireError
  -- `std::length_error`, which `load` catches
  length_error : WireError
  -- an access outside the buffer: undefined behaviour
  fault : WireError
  -- fuel of the model that ran out
  stuck : WireError

pub data Result {ℓ} (A : Type ℓ) : Type ℓ where
  ok : A → Result A
  err : WireError → Result A

-- Errors end the rest of a store or load, as exceptions do there.
module _ {ℓ} {B : Type ℓ} where
  infixl 5 ◌>>=◌ ◌>>◌
  abbrev pub ◌>>=◌ {κ} : {A : Type κ} → Result A → (A → Result B) → Result B
  (err problem) >>= rest = err problem
  (ok value) >>= rest = rest value

  abbrev pub ◌>>◌ : Result (Unit {0}) → Result B → Result B
  check >> rest = check >>= (λ done. rest)

-- `check_capacity`: the sum of `offset_` and `needed` is a `size_t`, and wraps around.
unfoldable pub check_capacity : ℕ → ℕ → ℕ → Result (Unit {0})
check_capacity offset needed buffer_size =
    if ltb buffer_size ((offset + needed) % 2 ^ 64) then err overrun else ok tt

-- The enumerators of `type_tag`, those of one kind together with their width in bytes, 1 to 8.
pub data Tag : Type 0 where
  null : Tag
  string number neg_number : ℕ → Tag
  boolean vector map : Tag
  invalid : Tag

unfoldable pub tag_code : Tag → ℕ
tag_code null = 0
tag_code (string k) = k
tag_code (number k) = 8 + k
tag_code (neg_number k) = 16 + k
tag_code boolean = 25
tag_code vector = 26
tag_code map = 27
tag_code invalid = 28

-- The cases of the `switch` statements.
unfoldable pub tag_of_code : ℕ → Tag
tag_of_code c =
    if c == 0
    then null
    else if leb c 8
    then string c
    else if leb c 16
    then number (c - 8)
    else if leb c 24
    then neg_number (c - 16)
    else if c == 25
    then boolean
    else if c == 26
    then vector
    else if c == 27
    then map
    else invalid

-- `wire_version`
abbrev pub wire_version : ℕ
wire_version = 2
