-- ===== src/Wire/Total.antt =====
-- The fuel of `load`.
use minesweeper.Prelude.{
  ℕ, zero, suc, ◌+◌, ◌*◌, ◌%◌, ◌^◌, ◌≤◌, ◌≢◌, not, ltb, ◌==◌, Bool-cases, if◌then◌else◌, length,
  take, inl, inr, arith,
}
use minesweeper.Parameter.{Entries, item, no_entries, emplace}
use minesweeper.Wire.Result.{
  Result, ok, err, ◌>>=◌, ◌>>◌, stuck, version_mismatch, wire_version, trailing_bytes,
  check_capacity, tag_of_code,
}
use minesweeper.Wire.Reader.{
  Reader, check, take_bytes, read_byte, read_key, read_value, deserialize, read_items, read_entries,
  load_payload, load_checked, load_header, load, le_value,
}
use minesweeper.Wire.Leaves.{
  Leaves, Leaves-less, Leaves-map, Leaves-then, read_byte-Leaves, read_key-Leaves, tag_first,
  take_bytes-Leaves, value-Leaves,
}

mutual
  unfolding deserialize Leaves

  deserialize-Leaves :
      (f : ℕ) (r : Reader) → 2 * length r.rest + 1 ≤ f → Leaves 1 (length r.rest) (deserialize f r)
  deserialize-Leaves zero r h = absurd (omega arith)
  deserialize-Leaves (suc f) r h =
      tag_first
        (λ code r₁.
          read_value (read_items f) (λ n r₂. read_entries f n no_entries r₂) (tag_of_code code) code
            r₁)
        r
        (λ code r₁ le.
          value-Leaves (read_items f) (λ n r₂. read_entries f n no_entries r₂) (tag_of_code code)
            code r₁ (λ n r₂ l. read_items-Leaves f n r₂ (omega (arith, h, le, l)))
            (λ n r₂ l. read_entries-Leaves f n no_entries r₂ (omega (arith, h, le, l))))

  read_items-Leaves :
      (f n : ℕ) (r : Reader)
      → 2 * length r.rest + 2 ≤ f
      → Leaves 0 (length r.rest) (read_items f n r)
  read_items-Leaves zero n r h = absurd (omega arith)
  read_items-Leaves (suc f) zero r h = omega arith
  read_items-Leaves (suc f) (suc n) r h =
      Leaves-then 1 0 (length r.rest) (deserialize f r)
        (λ v r₁. read_items f n r₁ >>= λ (vs, r₂). ok (item v vs, r₂))
        (deserialize-Leaves f r (omega (arith, h)))
        (λ v r₁ le. Leaves-map 0 (length r.rest) (read_items f n r₁) (item v) (
          Leaves-less 0 0 (length r₁.rest) (length r.rest) _
            (read_items-Leaves f n r₁ (omega (arith, h, le))) (omega (arith, le))))

  read_entries-Leaves :
      (f n : ℕ) (m : Entries) (r : Reader)
      → 2 * length r.rest + 2 ≤ f
      → Leaves 0 (length r.rest) (read_entries f n m r)
  read_entries-Leaves zero n m r h = absurd (omega arith)
  read_entries-Leaves (suc f) zero m r h = omega arith
  read_entries-Leaves (suc f) (suc n) m r h =
      Leaves-then 1 0 (length r.rest) (read_key r)
        (λ k r₁. deserialize f r₁ >>= λ (v, r₂). read_entries f n (emplace k v m) r₂)
        (read_key-Leaves r)
        (λ k r₁ le.
          Leaves-then 1 0 (length r.rest) (deserialize f r₁)
            (λ v r₂. read_entries f n (emplace k v m) r₂)
            (Leaves-less 1 1 (length r₁.rest) (length r.rest) _
              (deserialize-Leaves f r₁ (omega (arith, h, le))) (omega (arith, le)))
            (λ v r₂ less.
              Leaves-less 0 0 (length r₂.rest) (length r.rest) _
                (read_entries-Leaves f n (emplace k v m) r₂ (omega (arith, h, le, less)))
                (omega (arith, less))))

-- A read that does not run out of fuel, and something after it that does not either.
then_ends {ℓ κ} :
    {A : Type ℓ} {B : Type κ} (d L : ℕ) (m : Result (A × Reader)) (f : A → Reader → Result B)
    → Leaves d L m
    → ((a : A) (r : Reader) → length r.rest + d ≤ L → f a r ≢ err stuck)
    → (m >>= λ (a, r). f a r) ≢ err stuck
unfolding Leaves
then_ends d L (ok (a, r)) f h k = k a r h
then_ends d L (err x) f h k = λ e. h (cc)

load_payload_ends : (r : Reader) → load_payload r ≢ err stuck
unfolding load_payload
load_payload_ends r =
    then_ends 1 (length r.rest) (deserialize (2 * length r.rest + 1) r)
      (λ p r₁. if length r₁.rest == 0 then ok p else err trailing_bytes)
      (deserialize-Leaves (2 * length r.rest + 1) r (omega arith)) (λ p r₁ le e. ground (arith, e))

load_checked_ends : (n c : ℕ) (r : Reader) → load_checked n c r ≢ err stuck
unfolding load_checked
load_checked_ends n c r e = ground (arith, e, load_payload_ends (record r { rest = take n r.rest }))

check_ends {ℓ} :
    {B : Type ℓ} (n : ℕ) (r : Reader) (m : Result B) → m ≢ err stuck → (check n r >> m) ≢ err stuck
unfolding check_capacity
check_ends n r m h = elim (Bool-cases (ltb (r.offset + length r.rest) ((r.offset + n) % 2 ^ 64))) [
  | inl over ↦ rw over (λ e. cc)
  | inr fits ↦ rw fits h
]

load_header_ends : (r : Reader) → load_header r ≢ err stuck
unfolding load_header
load_header_ends r = check_ends 12 r _ (
    then_ends 8 (length r.rest) (take_bytes 8 r)
      (λ bs r₁. take_bytes 4 r₁ >>= λ (cs, r₂).
        check (le_value bs) r₂ >> load_checked (le_value bs) (le_value cs) r₂)
      (take_bytes-Leaves 8 r)
      (λ bs r₁ le.
        then_ends 4 (length r₁.rest) (take_bytes 4 r₁)
          (λ cs r₂. check (le_value bs) r₂ >> load_checked (le_value bs) (le_value cs) r₂)
          (take_bytes-Leaves 4 r₁)
          (λ cs r₂ l.
            check_ends (le_value bs) r₂ _ (load_checked_ends (le_value bs) (le_value cs) r₂))))

-- Whatever the buffer holds, and wherever it is read from: a load does not run out of fuel.
pub load_ends : (r : Reader) → load r ≢ err stuck
unfolding load
load_ends r = elim (Bool-cases (not (r.offset == 0))) [
  | inl used ↦ rw used (λ e. cc)
  | inr fresh ↦ rw fresh (
      then_ends 1 (length r.rest) (read_byte r)
        (λ version r₁. if version == wire_version then load_header r₁ else err version_mismatch)
        (read_byte-Leaves r) (λ version r₁ le e. ground (arith, e, load_header_ends r₁)))
]
