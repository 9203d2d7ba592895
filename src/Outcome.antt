-- ===== src/Outcome.antt =====
-- What a piece of the server's code ends with: a value, a C++ exception, a read or write out of
-- bounds (undefined behaviour, never a value of the program), or fuel of the model that ran out.
use minesweeper.Prelude.{◌≡◌, refl, Option, none, some}

pub data Failure : Type 0 where
  -- std::out_of_range, of `cell` and of `unordered_map::at`
  out_of_range : Failure
  -- std::bad_variant_access, of `std::get`
  bad_variant_access : Failure
  -- nlohmann::json::exception
  json_error : Failure
  -- undefined behaviour
  fault : Failure
  -- no counterpart in the program
  stuck : Failure

pub data Outcome {ℓ} (A : Type ℓ) : Type ℓ where
  ok : A → Outcome A
  throws : Failure → Outcome A

-- An exception ends the rest.
infixl 5 ◌>>=◌
abbrev pub ◌>>=◌ {ℓ κ} : {A : Type ℓ} {B : Type κ} → Outcome A → (A → Outcome B) → Outcome B
(throws failure) >>= rest = throws failure
(ok value) >>= rest = rest value

abbrev pub or_throw {ℓ} : {A : Type ℓ} → Failure → Option A → Outcome A
or_throw failure none = throws failure
or_throw failure (some value) = ok value

-- Where the whole returned, its first part returned, and so did the rest on its value.
pub >>=-eq-ok {ℓ κ} :
    {A : Type ℓ} {B : Type κ} (first : Outcome A) (rest : A → Outcome B) {b : B}
    → (first >>= rest) ≡ ok b
    → (value : A) × (first ≡ ok value) × (rest value ≡ ok b)
>>=-eq-ok (throws failure) rest returned = cc
>>=-eq-ok (ok value) rest returned = (value, refl, returned)
