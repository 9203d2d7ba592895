-- ===== src/Dispatch/Adapter.antt =====
-- The two sides of a handler's call: `simple_handler_adapter` and `board_handler_adapter` of
-- src/server/plugins/api.hxx, and `unwrap_handler_output` of src/server/api.cxx.
use minesweeper.Prelude.{ℕ, ◌*◌, Option, none, some, [], ◌∷◌, ◌++◌}
use minesweeper.Outcome.{
  Outcome, ok, throws, ◌>>=◌, out_of_range, bad_variant_access, json_error, fault, stuck,
}
use minesweeper.Parameter.{Bytes, text, Parameter, Entries, map}
use minesweeper.Handlers.{HandlerResult}
use minesweeper.Wire.Result.{WireError, Result}
use minesweeper.Wire.Writer.{store}
use minesweeper.Wire.Reader.{load}
use minesweeper.Wire.Reads.{reader}
use minesweeper.Wire.Stored.{fresh_writer}
use minesweeper.Dispatch.Host.{Host, Answer, unexpected, answer_of, attempt}
use minesweeper.Dispatch.HandlerWire.{to_wire, from_wire}

-- A handler with what it can change: a board, or the server.
abbrev pub HandlerOn : Type 0 → Type 0
HandlerOn S = S → Entries → Outcome (HandlerResult × S)

-- The `try` around the handler's call. What a handler changed in front of an exception is not
-- kept here: the handlers of the server throw none once they have changed something.
unfoldable pub caught : {S : Type 0} → Host → S → Outcome (HandlerResult × S) → Outcome (Answer × S)
unfolding answer_of
caught h s (ok (result, s')) = ok (answer_of h result, s')
caught h s (throws out_of_range) = ok (unexpected h.internal_server_error (h.what out_of_range), s)
caught h s (throws bad_variant_access) =
    ok (unexpected h.internal_server_error (h.what bad_variant_access), s)
caught h s (throws json_error) = ok (unexpected h.internal_server_error (h.what json_error), s)
caught h s (throws fault) = throws fault
caught h s (throws stuck) = throws stuck

-- The bytes of an answer in a buffer of some capacity, or none if it does not fit.
unfoldable pub answer_bytes : Answer → ℕ → Outcome Bytes
answer_bytes answer out_cap = do
  stored ← attempt (store (to_wire answer) (fresh_writer out_cap))
  ok (elim stored [ none ↦ [] | some w ↦ w.written ])

-- The handler on the loaded parameters; `holds_alternative` fails at all that is not a map.
unfoldable pub run_handler :
    {S : Type 0} → Host → HandlerOn S → S → ℕ → Option Parameter → Outcome (Bytes × S)
unfolding caught answer_bytes
run_handler h handler s out_cap (some (map params)) = do
  (answer, s') ← caught h s (handler s params)
  out ← answer_bytes answer out_cap
  ok (out, s')
run_handler h handler s out_cap _ = ok ([], s)

unfoldable pub handler_adapter :
    {S : Type 0} → Host → HandlerOn S → S → Bytes → ℕ → Outcome (Bytes × S)
unfolding run_handler
handler_adapter h handler s params_buf out_cap =
    attempt (load (reader 0 params_buf)) >>= run_handler h handler s out_cap

abbrev pub handler_output_capacity : ℕ
handler_output_capacity = 1024 * 1024

-- What is made of the result of loading a handler's bytes.
unfoldable pub unwrap_loaded : Host → Result Parameter → Outcome Answer
unwrap_loaded h (Result.ok envelope) = ok (from_wire h envelope)
unwrap_loaded h (Result.err WireError.fault) = throws fault
unwrap_loaded h (Result.err WireError.stuck) = throws stuck
unwrap_loaded h (Result.err problem) = ok (
    unexpected h.internal_server_error
      (text "Malformed handler response: " ++ (h.describe problem ++ text ".")))

unfoldable pub unwrap_handler_output : Host → Bytes → Outcome Answer
unfolding unwrap_loaded
unwrap_handler_output h [] =
    ok (unexpected h.internal_server_error (text "Handler failed to produce a response."))
unwrap_handler_output h (b ∷ bs) = unwrap_loaded h (load (reader 0 (b ∷ bs)))
