-- ===== src/Dispatch/Typed.antt =====
-- What `parse_params` leaves for each specification.
use minesweeper.Prelude.{
  ◌≡◌, ◌≢◌, ◌∈◌, ◌++◌, subst, sym, ◌⊎◌, inl, inr, refl, arith, true, false, Bool-cases, some, List,
  [], ◌∷◌, All,
}
use minesweeper.Parameter.{
  Bytes, text, Parameter, Entries, no_entries, entry, find, contains, append, emplace, eq_bytes,
  eq_bytes_refl,
}
use minesweeper.Parameter.Maps.{contains-append_one}
use minesweeper.Dispatch.Host.{Host}
use minesweeper.Dispatch.ResourceWire.{ParamSpec}
use minesweeper.Dispatch.Meant.{
  HasType, Means, IsSpec, parse_value-eq-parsed, parse_value-eq-refused,
}
use minesweeper.Dispatch.Params.{
  Query, Parsed, parsed, refused, invalid, parse_missing, parse_raw, parse_from, parse_params,
}

find-append :
    (k : Bytes) (v : Parameter) (m : Entries)
    → contains k m ≡ false
    → find k (append m (entry k v no_entries)) ≡ some v
unfolding find append contains
find-append k v no_entries h = ground (arith, eq_bytes_refl k)
find-append k v (entry j w m) h = ground (arith, find-append k v m)

pub find-emplace :
    (k : Bytes) (v : Parameter) (m : Entries)
    → contains k m ≡ false
    → find k (emplace k v m) ≡ some v
unfolding emplace
find-emplace k v m h = rw h (find-append k v m h)

find-append_keep :
    (k j : Bytes) (v w : Parameter) (m : Entries)
    → find j m ≡ some w
    → find j (append m (entry k v no_entries)) ≡ some w
unfolding find append
find-append_keep k j v w no_entries h = absurd (ground arith)
find-append_keep k j v w (entry i u m) h = ground (arith, find-append_keep k j v w m)

pub find-emplace_keep :
    (k j : Bytes) (v w : Parameter) (m : Entries)
    → find j m ≡ some w
    → find j (emplace k v m) ≡ some w
unfolding emplace
find-emplace_keep k j v w m h = elim (Bool-cases (contains k m)) [
  | inl there ↦ rw there h
  | inr new ↦ rw new (find-append_keep k j v w m h)
]

contains-emplace :
    (k j : Bytes) (v : Parameter) (m : Entries)
    → contains j m ≡ false
    → eq_bytes k j ≡ false
    → contains j (emplace k v m) ≡ false
unfolding emplace
contains-emplace k j v m h other = elim (Bool-cases (contains k m)) [
  | inl there ↦ rw there h
  | inr new ↦ rw new (contains-append_one j k v m h other)
]

-- A value under the name of a specification: what the query's text means, or, without a text, the
-- default of a specification that may be left out.
abbrev pub Gives : Host → ParamSpec → Bytes → Parameter → Type 0
Gives h spec raw v =
    ((raw ≢ []) × Means h spec.type raw v)
    ⊎ ((raw ≡ []) × (spec.required ≡ false) × (v ≡ spec.default_value))

abbrev pub IsFound : Host → Query → ParamSpec → Parameter → Type 0
IsFound h query spec v = HasType spec.type v × Gives h spec (query spec.name []) v

parse_raw-eq-parsed :
    (h : Host) (spec : ParamSpec) (raw : Bytes) (out : Entries) {more : Entries}
    → IsSpec spec
    → parse_raw h spec raw out ≡ parsed more
    → (v : Parameter) × (more ≡ emplace spec.name v out)
      × (HasType spec.type v × Gives h spec raw v)
unfolding parse_raw parse_missing
parse_raw-eq-parsed h spec [] out k e =
    (spec.default_value, ground arith, (k.1, inr (refl, ground arith, refl)))
parse_raw-eq-parsed h spec (c ∷ cs) out k e =
    let (v, grown, typed, meant) = parse_value-eq-parsed h spec spec.type (c ∷ cs) out k.0 e in
    (v, grown, (typed, inl ((λ nil. cc), meant)))

-- No name stands twice, and none was parsed before.
abbrev pub Unrepeated : List ParamSpec → Type 0
Unrepeated [] = Unit
Unrepeated (s ∷ ss) = All (λ t. eq_bytes s.name t.name ≡ false) ss × Unrepeated ss

abbrev Unparsed : Entries → List ParamSpec → Type 0
Unparsed out = All (λ t. contains t.name out ≡ false)

Unparsed-emplace :
    (k : Bytes) (v : Parameter) (out : Entries) (specs : List ParamSpec)
    → All (λ t. eq_bytes k t.name ≡ false) specs
    → Unparsed out specs
    → Unparsed (emplace k v out) specs
Unparsed-emplace k v out [] a b = tt
Unparsed-emplace k v out (t ∷ ts) a b =
    (contains-emplace k t.name v out b.0 a.0, Unparsed-emplace k v out ts a.1 b.1)

Parsed-cases :
    (r : Parsed) → ((es : Entries) × (r ≡ parsed es)) ⊎ ((message : Bytes) × (r ≡ refused message))
Parsed-cases (parsed es) = inl (es, refl)
Parsed-cases (refused message) = inr (message, refl)

parse_from-cons :
    (h : Host) (query : Query) (spec : ParamSpec) (specs : List ParamSpec) (out : Entries)
    {result : Entries}
    → parse_from h query (spec ∷ specs) out ≡ parsed result
    → (more : Entries) × (parse_raw h spec (query spec.name []) out ≡ parsed more)
      × (parse_from h query specs more ≡ parsed result)
unfolding parse_from
parse_from-cons h query spec specs out e =
    elim (Parsed-cases (parse_raw h spec (query spec.name []) out)) [
      | inl (more, e₁) ↦ (more, e₁, ground arith)
      | inr (message, e₁) ↦ absurd (ground arith)
    ]

parse_from_keep :
    (h : Host) (query : Query) (specs : List ParamSpec) (out : Entries) {result : Entries}
    (j : Bytes) (w : Parameter)
    → All IsSpec specs
    → parse_from h query specs out ≡ parsed result
    → find j out ≡ some w
    → find j result ≡ some w
unfolding parse_from
parse_from_keep h query [] out j w a e there = ground arith
parse_from_keep h query (spec ∷ specs) out j w a e there =
    let (more, e₁, e₂) = parse_from-cons h query spec specs out e in
    let (v, grown, found) = parse_raw-eq-parsed h spec (query spec.name []) out a.0 e₁ in
    parse_from_keep h query specs more j w a.1 e₂
      (rw grown (find-emplace_keep spec.name j v w out there))

-- Under each name the result has such a value.
abbrev pub Provides : Host → Query → Entries → ParamSpec → Type 0
Provides h query result spec =
    (v : Parameter) × (find spec.name result ≡ some v) × IsFound h query spec v

parse_from-Provides :
    (h : Host) (query : Query) (specs : List ParamSpec) (out : Entries) {result : Entries}
    → All IsSpec specs
    → Unrepeated specs
    → Unparsed out specs
    → parse_from h query specs out ≡ parsed result
    → All (Provides h query result) specs
parse_from-Provides h query [] out a u n e = tt
parse_from-Provides h query (spec ∷ specs) out a u n e =
    let (more, e₁, e₂) = parse_from-cons h query spec specs out e in
    let (v, grown, found) = parse_raw-eq-parsed h spec (query spec.name []) out a.0 e₁ in
    let here =
      parse_from_keep h query specs more spec.name v a.1 e₂
        (rw grown (find-emplace spec.name v out n.0)) in
    (
      (v, here, found),
      parse_from-Provides h query specs more a.1 u.1
          (rw grown (Unparsed-emplace spec.name v out specs u.0 n.1)) e₂,
    )

Unparsed-start : (specs : List ParamSpec) → Unparsed no_entries specs
unfolding contains
Unparsed-start [] = tt
Unparsed-start (t ∷ ts) = (refl, Unparsed-start ts)

-- What is wrong with a query at a specification, and how the parsing ends then: a value that must be
-- given is missing, or its text means nothing at its type.
abbrev pub Refuses : ParamSpec → Host → Bytes → Parsed → Type 0
Refuses spec h raw r =
    ((raw ≡ [])
      × (spec.required ≡ true)
      × (r ≡ refused (text "Missing mandatory parameter " ++ (spec.name ++ text "."))))
    ⊎ ((raw ≢ []) × ((v : Parameter) → ¬ Means h spec.type raw v) × (r ≡ invalid spec))

parse_raw-eq-refused :
    (h : Host) (spec : ParamSpec) (raw : Bytes) (out : Entries) {message : Bytes}
    → IsSpec spec
    → parse_raw h spec raw out ≡ refused message
    → Refuses spec h raw (refused message)
unfolding parse_raw parse_missing
parse_raw-eq-refused h spec [] out k e = inl (refl, ground arith, ground arith)
parse_raw-eq-refused h spec (c ∷ cs) out k e =
    let (nothing, message) = parse_value-eq-refused h spec spec.type (c ∷ cs) out k.0 e in
    inr ((λ nil. cc), nothing, message)

parse_from-Refuses :
    (h : Host) (query : Query) (specs : List ParamSpec) (out : Entries) {message : Bytes}
    → All IsSpec specs
    → parse_from h query specs out ≡ refused message
    → (spec : ParamSpec) × (spec ∈ specs) × Refuses spec h (query spec.name []) (refused message)
unfolding parse_from
parse_from-Refuses h query [] out a e = absurd (cc)
parse_from-Refuses h query (spec ∷ specs) out a e =
    elim (Parsed-cases (parse_raw h spec (query spec.name []) out)) [
      | inl (more, e₁) ↦
          let (other, m, why) = parse_from-Refuses h query specs more a.1 (ground arith) in
          (other, inr m, why)
      | inr (message, e₁) ↦
          (spec, inl refl, parse_raw-eq-refused h spec (query spec.name []) out a.0 (ground arith))
    ]

-- The ends of a parsing.
abbrev pub Parses : Host → Query → List ParamSpec → Parsed → Type 0
Parses h query specs r =
    ((result : Entries) × (r ≡ parsed result) × All (Provides h query result) specs)
    ⊎ ((spec : ParamSpec) × (spec ∈ specs) × Refuses spec h (query spec.name []) r)

-- For specifications with different names, enumerators for their types, and default values of these
-- types: parse_params returns a map that has for each of them a value of its type: where the query
-- has a text, the text itself, the number that is parsed from it, or the Boolean that it names by
-- true, 1, false or 0; and where it has none, the default of one that is not required. Or it refuses
-- the query for one of them, with its name in the message: for a required one without a text, or for
-- a text that is none of these at its type.
pub parse_params-Provides :
    (h : Host) (query : Query) (specs : List ParamSpec)
    → All IsSpec specs
    → Unrepeated specs
    → Parses h query specs (parse_params h query specs)
unfolding parse_params
parse_params-Provides h query specs a u =
    elim (Parsed-cases (parse_from h query specs no_entries)) [
      | inl (result, e) ↦
          inl (result, e, parse_from-Provides h query specs no_entries a u (Unparsed-start specs) e)
      | inr (message, e) ↦
          let (spec, m, why) = parse_from-Refuses h query specs no_entries a e in
          inr (spec, m, subst (λ r. Refuses spec h (query spec.name []) r) (sym e) why)
    ]
