-- ===== src/Dispatch/Growing.antt =====
-- `store_growing`, which src/server/api.cxx and src/server/plugins/api.hxx have alike: a store into
-- buffers of 4096 bytes, 8192 bytes and so on, up to 16 MiB.
use minesweeper.Prelude.{
  ℕ, zero, suc, ◌+◌, ◌*◌, ◌≤◌, ◌<◌, ◌≡◌, refl, arith, true, false, leb, Bool-cases, inl, inr,
  if◌then◌else◌, Option, none, some, length,
}
use minesweeper.Outcome.{Outcome, ok, throws, ◌>>=◌, stuck}
use minesweeper.Parameter.{Bytes, Parameter}
use minesweeper.Wire.Writer.{store}
use minesweeper.Wire.Encode.{encode, IsSendable}
use minesweeper.Wire.Stored.{frame, fresh_writer, store_lem}
use minesweeper.Dispatch.Host.{attempt}

abbrev pub initial_capacity : ℕ
initial_capacity = 4096

abbrev pub max_capacity : ℕ
max_capacity = 16 * 1024 * 1024

-- The rounds of the loop from a capacity on, with fuel; `none` means that the loop is left.
unfoldable pub grow : ℕ → ℕ → Parameter → Outcome (Option Bytes)
grow zero capacity value = throws stuck
grow (suc fuel) capacity value =
    let rest = grow fuel (capacity * 2) value in
    if leb capacity max_capacity
    then (attempt (store value (fresh_writer capacity)) >>= λ stored. elim stored [
      | none ↦ rest
      | some w ↦ ok (some w.written)
    ])
    else ok none

-- Fourteen capacities are enough, as the last one is above the limit.
unfoldable pub store_growing : Parameter → Outcome (Option Bytes)
unfolding grow
store_growing value = grow 14 initial_capacity value

doubled : ℕ → ℕ → ℕ
doubled zero capacity = capacity
doubled (suc rounds) capacity = doubled rounds (capacity * 2)

le-doubled : (rounds capacity : ℕ) → capacity ≤ doubled rounds capacity
unfolding doubled
le-doubled zero capacity = omega arith
le-doubled (suc rounds) capacity = omega (arith, le-doubled rounds (capacity * 2))

-- What a parameter is stored as, in a buffer of the greatest capacity.
abbrev pub framed_within : ℕ → Parameter → Option Bytes
framed_within capacity p =
    if leb (13 + length (encode p)) capacity then some (frame (encode p)) else none

module _ (p : Parameter) (h : IsSendable p) where
  -- A round whose capacity is within the limit.
  grow-suc :
      (fuel capacity : ℕ)
      → capacity ≤ max_capacity
      → grow (suc fuel) capacity p ≡ (
          if leb (13 + length (encode p)) capacity
          then ok (some (frame (encode p)))
          else grow fuel (capacity * 2) p)
  unfolding grow
  grow-suc fuel capacity low =
      let below : leb capacity max_capacity ≡ true = ground arith in
      elim (Bool-cases (leb (13 + length (encode p)) capacity)) [
        | inl fits ↦ rw (below, store_lem p capacity h (omega arith), fits) refl
        | inr large ↦ rw (below, store_lem p capacity h (omega arith), large) refl
      ]

  grow-above : (fuel capacity : ℕ) → max_capacity < capacity → grow (suc fuel) capacity p ≡ ok none
  unfolding grow
  grow-above fuel capacity high =
      let above : leb capacity max_capacity ≡ false = ground arith in rw above refl

  grow_lem :
      (rounds capacity : ℕ)
      → doubled rounds capacity ≡ max_capacity
      → grow (suc (suc rounds)) capacity p ≡ ok (framed_within max_capacity p)
  unfolding doubled
  grow_lem zero capacity e = ground (arith, grow-suc 1 capacity, grow-above 0 (capacity * 2))
  grow_lem (suc rounds) capacity e = ground (
    arith,
    grow-suc (suc (suc rounds)) capacity,
    le-doubled (suc rounds) capacity,
    grow_lem rounds (capacity * 2),
  )

  -- For a parameter that C++ can hold, store_growing leaves what a single store into a buffer of 16
  -- MiB leaves: the frame of its encoding if that fits with its 13 bytes of header, and nothing if
  -- it does not.
  pub store_growing_lem : store_growing p ≡ ok (framed_within max_capacity p)
  unfolding store_growing doubled
  store_growing_lem = grow_lem 12 initial_capacity refl
