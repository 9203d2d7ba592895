-- ===== src/Expected.antt =====
-- `std::expected` with a message for the error, and the two other ways in which such code ends.
use minesweeper.Prelude.{◌≡◌, refl, Option, none, some, String}

pub data Expected {ℓ} (A : Type ℓ) : Type ℓ where
  ok : A → Expected A
  unexpected : String → Expected A
  -- an exception
  throws : String → Expected A
  -- undefined behaviour
  undefined : Expected A

-- Whatever is no value ends the rest.
infixl 5 ◌>>=◌
abbrev pub ◌>>=◌ {ℓ κ} : {A : Type ℓ} {B : Type κ} → Expected A → (A → Expected B) → Expected B
(unexpected message) >>= rest = unexpected message
(throws message) >>= rest = throws message
undefined >>= rest = undefined
(ok value) >>= rest = rest value

-- A step of a library that reports only whether it succeeded.
abbrev pub or_unexpected {ℓ} : {A : Type ℓ} → String → Option A → Expected A
or_unexpected message none = unexpected message
or_unexpected message (some value) = ok value

-- What a bind gave was given by its first part and then by the rest.
pub >>=-eq-ok {ℓ κ} :
    {A : Type ℓ} {B : Type κ} (rest : A → Expected B) {b : B} (first : Expected A)
    → (first >>= rest) ≡ ok b
    → (value : A) × (rest value ≡ ok b) × (first ≡ ok value)
>>=-eq-ok rest (unexpected message) gave = cc
>>=-eq-ok rest (throws message) gave = cc
>>=-eq-ok rest undefined gave = cc
>>=-eq-ok rest (ok value) gave = (value, gave, refl)

pub or_unexpected-eq-ok {ℓ} :
    {A : Type ℓ} (message : String) (o : Option A) {a : A}
    → or_unexpected message o ≡ ok a
    → o ≡ some a
or_unexpected-eq-ok message none gave = cc
or_unexpected-eq-ok message (some value) gave = cc

pub ok-injective {ℓ} : {A : Type ℓ} {a b : A} → ok a ≡ ok b → a ≡ b
ok-injective e = cc

pub taken {ℓ κ} :
    {A : Type ℓ} {B : Type κ} (message : String) (o : Option A) (rest : A → Expected B) {b : B}
    → (or_unexpected message o >>= rest) ≡ ok b
    → (value : A) × (rest value ≡ ok b) × (o ≡ some value)
taken message none rest gave = cc
taken message (some value) rest gave = (value, gave, refl)
