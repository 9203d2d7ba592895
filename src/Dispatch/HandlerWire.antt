-- ===== src/Dispatch/HandlerWire.antt =====
-- `handler_wire` of src/server/plugins/api.hxx: a handler's answer as one parameter, and back.
use minesweeper.Prelude.{◌≡◌, refl, arith, ◌<◌, ◌^◌, Bool, true, false, ◌++◌, length}
use minesweeper.Prelude.Int.{ℤ, pos, negsuc, int_of_int64, to_int}
use minesweeper.Outcome.{Outcome, ok, throws, ◌>>=◌, or_throw, out_of_range, bad_variant_access}
use minesweeper.Parameter.{
  Bytes, text, Parameter, Entries, string, int64, boolean, map, no_entries, entry, find, eq_bytes,
  size, contains,
}
use minesweeper.Handlers.{get_int64}
use minesweeper.Wire.Encode.{IsSendable}
use minesweeper.Wire.Decoded.{received, received_entries}
use minesweeper.Dispatch.Host.{Host, Answer, body, unexpected}

-- `std::get` at the other alternatives.
unfoldable pub get_map : Parameter → Outcome Entries
get_map (map es) = ok es
get_map _ = throws bad_variant_access

unfoldable pub get_bool : Parameter → Outcome Bool
get_bool (boolean b) = ok b
get_bool _ = throws bad_variant_access

unfoldable pub get_string : Parameter → Outcome Bytes
get_string (string s) = ok s
get_string _ = throws bad_variant_access

-- `m.at(key)`
unfoldable pub at : Bytes → Entries → Outcome Parameter
at key m = or_throw out_of_range (find key m)

unfoldable pub to_wire : Answer → Parameter
to_wire (body es) = map (entry (text "ok") (boolean true) (entry (text "body") (map es) no_entries))
to_wire (unexpected http_code message) = map (
    entry (text "ok") (boolean false) (
      entry (text "http_code") (int64 http_code)
        (entry (text "message") (string message) no_entries)))

-- `from_wire` up to an exception.
unfoldable pub read_answer : Parameter → Outcome Answer
unfolding at get_map get_bool get_string get_int64
read_answer wire = do
  m ← get_map wire
  p ← at (text "ok") m
  good ← get_bool p
  elim good [
    | true ↦ (do q ← at (text "body") m; es ← get_map q; ok (body es))
    | false ↦ (do
      q ← at (text "http_code") m
      http_code ← get_int64 q
      r ← at (text "message") m
      message ← get_string r
      ok (unexpected (int_of_int64 http_code) message))
  ]

unfoldable pub from_wire : Host → Parameter → Answer
unfolding read_answer
from_wire h wire = elim (read_answer wire) [
  | ok answer ↦ answer
  | throws failure ↦
      unexpected h.internal_server_error
        (text "Malformed handler response envelope: " ++ (h.what failure ++ text "."))
]

-- A number of 32 bits.
abbrev pub IsInt : ℤ → Type 0
IsInt (pos n) = n < 2 ^ 31
IsInt (negsuc n) = n < 2 ^ 31

-- What a C++ answer can hold.
abbrev pub IsAnswer : Answer → Type 0
IsAnswer (body es) = IsSendable (map es)
IsAnswer (unexpected http_code message) = IsInt http_code × (length message < 2 ^ 62)

-- An answer with each `uint64_t` as the `int64_t` of the same bits.
unfoldable pub received_answer : Answer → Answer
received_answer (body es) = body (received_entries es)
received_answer (unexpected http_code message) = unexpected http_code message

pub int_of_int64-IsInt : (z : ℤ) → IsInt z → int_of_int64 z ≡ z
unfolding int_of_int64 to_int
int_of_int64-IsInt (pos n) h = ground arith
int_of_int64-IsInt (negsuc n) h = ground arith

int_bounds : (z : ℤ) → IsInt z → IsSendable (int64 z)
int_bounds (pos n) h = omega arith
int_bounds (negsuc n) h = omega arith

pub to_wire-IsSendable : (a : Answer) → IsAnswer a → IsSendable (to_wire a)
unfolding to_wire contains eq_bytes size
to_wire-IsSendable (body es) h =
    (omega arith, (refl, (refl, tt)), (omega arith, tt, (omega arith, h, tt)))
to_wire-IsSendable (unexpected http_code message) h = (
  omega arith,
  (refl, (refl, (refl, tt))),
  (omega arith, tt, (omega arith, int_bounds http_code h.0, (omega arith, h.1, tt))),
)

-- from_wire makes of what a load leaves of to_wire the answer itself, with each uint64_t as the
-- int64_t of the same bits.
pub from_wire-to_wire :
    (h : Host) (a : Answer) → IsAnswer a → from_wire h (received (to_wire a)) ≡ received_answer a
unfolding from_wire to_wire received find eq_bytes received_answer
from_wire-to_wire h (body es) good = refl
from_wire-to_wire h (unexpected http_code message) good =
    rw (int_of_int64-IsInt http_code good.0) refl
