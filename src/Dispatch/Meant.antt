-- ===== src/Dispatch/Meant.antt =====
-- What the text of a parameter means, and how `parse_params` reads it.
use minesweeper.Prelude.{
  ◌≡◌, ◌≢◌, subst, ◌⊎◌, inl, inr, refl, arith, Bool, true, false, ◌||◌, Bool-cases, some,
  Option-cases,
}
use minesweeper.Prelude.Int.{ℤ}
use minesweeper.Parameter.{
  Bytes, text, Parameter, Entries, string, int64, boolean, emplace, eq_bytes, eq_bytes_refl,
  eq_bytes→≡,
}
use minesweeper.Dispatch.Host.{Host}
use minesweeper.Dispatch.Types.{ParamType}
use minesweeper.Dispatch.ResourceWire.{ParamSpec, IsType}
use minesweeper.Dispatch.Params.{parsed, refused, invalid, parse_boolean, parse_value}

-- A value of a type.
abbrev pub HasType : ParamType → Parameter → Type 0
HasType ParamType.string v = (s : Bytes) × (v ≡ string s)
HasType ParamType.integer v = (z : ℤ) × (v ≡ int64 z)
HasType ParamType.boolean v = (b : Bool) × (v ≡ boolean b)
HasType (ParamType.other z) v = Unit

-- The value that a text means at a type.
abbrev pub Means : Host → ParamType → Bytes → Parameter → Type 0
Means h ParamType.string raw v = v ≡ string raw
Means h ParamType.integer raw v = (z : ℤ) × (h.num raw ≡ some z) × (v ≡ int64 z)
Means h ParamType.boolean raw v =
    (((raw ≡ text "true") ⊎ (raw ≡ text "1")) × (v ≡ boolean true))
    ⊎ (((raw ≡ text "false") ⊎ (raw ≡ text "0")) × (v ≡ boolean false))
Means h (ParamType.other z) raw v = Unit

one_of : (raw a b : Bytes) → (eq_bytes raw a || eq_bytes raw b) ≡ true → (raw ≡ a) ⊎ (raw ≡ b)
one_of raw a b e = elim (Bool-cases (eq_bytes raw a)) [
  | inl first ↦ inl (eq_bytes→≡ raw a first)
  | inr other ↦ inr (eq_bytes→≡ raw b (ground (arith, e, other)))
]

-- A specification with an enumerator for its type and a default value of this type.
abbrev pub IsSpec : ParamSpec → Type 0
IsSpec spec = IsType spec.type × HasType spec.type spec.default_value

-- One round leaves a value of the type under the new key.
pub parse_value-eq-parsed :
    (h : Host) (spec : ParamSpec) (t : ParamType) (raw : Bytes) (out : Entries) {more : Entries}
    → IsType t
    → parse_value h spec t raw out ≡ parsed more
    → (v : Parameter) × (more ≡ emplace spec.name v out) × HasType t v × Means h t raw v
unfolding parse_value parse_boolean
parse_value-eq-parsed h spec ParamType.string raw out k e =
    (string raw, ground arith, (raw, refl), refl)
parse_value-eq-parsed h spec ParamType.integer raw out k e = elim (Option-cases (h.num raw)) [
  | inl bad ↦ absurd (ground arith)
  | inr (z, good) ↦ (int64 z, ground arith, (z, refl), (z, good, refl))
]
parse_value-eq-parsed h spec ParamType.boolean raw out k e =
    elim (Bool-cases (eq_bytes raw (text "true") || eq_bytes raw (text "1"))) [
      | inl truthy ↦ (
        boolean true,
        ground arith,
        (true, refl),
        inl (one_of raw (text "true") (text "1") truthy, refl),
      )
      | inr other ↦ elim (Bool-cases (eq_bytes raw (text "false") || eq_bytes raw (text "0"))) [
        | inl falsy ↦ (
          boolean false,
          ground arith,
          (false, refl),
          inr (one_of raw (text "false") (text "0") falsy, refl),
        )
        | inr neither ↦ absurd (ground arith)
      ]
    ]
parse_value-eq-parsed h spec (ParamType.other z) raw out k e = absurd k

none_of : (raw a b : Bytes) → (eq_bytes raw a || eq_bytes raw b) ≡ false → (raw ≢ a) × (raw ≢ b)
none_of raw a b e = (
  λ same. absurd (ground (arith, e, subst (λ s. eq_bytes raw s ≡ true) same (eq_bytes_refl raw))),
  λ same. absurd (ground (arith, e, subst (λ s. eq_bytes raw s ≡ true) same (eq_bytes_refl raw))),
)

pub parse_value-eq-refused :
    (h : Host) (spec : ParamSpec) (t : ParamType) (raw : Bytes) (out : Entries) {message : Bytes}
    → IsType t
    → parse_value h spec t raw out ≡ refused message
    → ((v : Parameter) → ¬ Means h t raw v) × (refused message ≡ invalid spec)
unfolding parse_value parse_boolean
parse_value-eq-refused h spec ParamType.string raw out k e = absurd (cc)
parse_value-eq-refused h spec ParamType.integer raw out k e = elim (Option-cases (h.num raw)) [
  | inl bad ↦ ((λ v (z, good, same). absurd (ground arith)), ground arith)
  | inr (z, good) ↦ absurd (ground arith)
]
parse_value-eq-refused h spec ParamType.boolean raw out k e =
    elim (Bool-cases (eq_bytes raw (text "true") || eq_bytes raw (text "1"))) [
      | inl truthy ↦ absurd (ground arith)
      | inr other ↦ elim (Bool-cases (eq_bytes raw (text "false") || eq_bytes raw (text "0"))) [
        | inl falsy ↦ absurd (ground arith)
        | inr neither ↦
            let no = none_of raw (text "true") (text "1") other in
            let nor = none_of raw (text "false") (text "0") neither in
            (
              (λ v meant. elim meant [
                | inl (named, k) ↦ elim named [ inl same ↦ no.0 same | inr same ↦ no.1 same ]
                | inr (named, k) ↦ elim named [ inl same ↦ nor.0 same | inr same ↦ nor.1 same ]
              ]),
              ground arith,
            )
      ]
    ]
parse_value-eq-refused h spec (ParamType.other z) raw out k e = absurd k
