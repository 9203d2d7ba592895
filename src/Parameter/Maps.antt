-- ===== src/Parameter/Maps.antt =====
-- Maps as lists of entries: what `append` and `contains` do together.
use minesweeper.Prelude.{◌≡◌, refl, ap, false, Bool-cases, inl, inr, arith}
use minesweeper.Parameter.{
  Bytes, Parameter, Entries, no_entries, entry, contains, append, eq_bytes, eq_bytes→≡,
  eq_bytes_refl,
}

-- No key of the second map stands in the first.
abbrev pub Apart : Entries → Entries → Type 0
Apart m no_entries = Unit
Apart m (entry k v es) = (contains k m ≡ false) × Apart m es

pub append_assoc_entries : (l m n : Entries) → append (append l m) n ≡ append l (append m n)
unfolding append
append_assoc_entries no_entries m n = refl
append_assoc_entries (entry k v es) m n = ap (λ r. entry k v r) (append_assoc_entries es m n)

pub append-no_entries : (m : Entries) → append m no_entries ≡ m
unfolding append
append-no_entries no_entries = refl
append-no_entries (entry k v es) = ap (λ r. entry k v r) (append-no_entries es)

pub contains-append_one :
    (j k : Bytes) (v : Parameter) (m : Entries)
    → contains j m ≡ false
    → eq_bytes k j ≡ false
    → contains j (append m (entry k v no_entries)) ≡ false
unfolding append contains
contains-append_one j k v no_entries h e = ground (arith, e)
contains-append_one j k v (entry i w m) h e = ground (arith, contains-append_one j k v m, e)

eq_bytes_swap : (j k : Bytes) → eq_bytes j k ≡ false → eq_bytes k j ≡ false
eq_bytes_swap j k h = elim (Bool-cases (eq_bytes k j)) [
  | inl same ↦ absurd (ground (arith, h, eq_bytes→≡ k j same, eq_bytes_refl j))
  | inr other ↦ other
]

-- A key that is new to the rest of a map, and to what was read before.
pub Apart-append :
    (k : Bytes) (v : Parameter) (m es : Entries)
    → Apart m es
    → contains k es ≡ false
    → Apart (append m (entry k v no_entries)) es
unfolding contains
Apart-append k v m no_entries h e = tt
Apart-append k v m (entry j w es) h e =
    let other : eq_bytes j k ≡ false = ground (arith, e) in
    let rest : contains k es ≡ false = ground (arith, e) in
    (contains-append_one j k v m h.0 (eq_bytes_swap j k other), Apart-append k v m es h.1 rest)

pub Apart-start : (es : Entries) → Apart no_entries es
unfolding contains
Apart-start no_entries = tt
Apart-start (entry k v es) = (refl, Apart-start es)
