-- ===== src/Dispatch/Host.antt =====
-- What a handler answers, with the code of HTTP as a number, and what the server takes from the
-- libraries that it is built on.
use minesweeper.Prelude.{Option, none, some}
use minesweeper.Prelude.Int.{ℤ}
use minesweeper.Outcome.{Outcome, ok, throws, Failure, fault, stuck}
use minesweeper.Parameter.{Bytes, Entries}
use minesweeper.Wire.Result.{WireError, Result}
use minesweeper.Handlers.{StatusCode, bad_request, HandlerResult, forbidden, internal_server_error}

-- restbed's status codes, `wbr::str::num` with a full match, and the texts of exceptions and of the
-- errors of `store` and `load`, which hold numbers that are not modelled.
pub record Host : Type 0 where
  pub bad_request : ℤ
  pub unauthorized : ℤ
  pub forbidden : ℤ
  pub internal_server_error : ℤ
  pub accepted : ℤ
  pub num : Bytes → Option ℤ
  pub what : Failure → Bytes
  pub describe : WireError → Bytes

-- `handler_result_t`
pub data Answer : Type 0 where
  body : Entries → Answer
  unexpected : ℤ → Bytes → Answer

-- The number that a constant of restbed stands for.
unfoldable pub status : Host → StatusCode → ℤ
status h bad_request = h.bad_request
status h forbidden = h.forbidden
status h internal_server_error = h.internal_server_error

unfoldable pub answer_of : Host → HandlerResult → Answer
unfolding status
answer_of h (HandlerResult.body es) = body es
answer_of h (HandlerResult.unexpected code message) = unexpected (status h code) message

-- A result that the caller looks into: an access outside of a buffer ends the program all the same.
abbrev pub attempt {ℓ} : {A : Type ℓ} → Result A → Outcome (Option A)
attempt (Result.ok value) = ok (some value)
attempt (Result.err WireError.fault) = throws fault
attempt (Result.err WireError.stuck) = throws stuck
attempt (Result.err problem) = ok none
