-- ===== src/Dispatch/Call.antt =====
-- A handler's call through bytes, from the parameters to the answer.
use minesweeper.Prelude.{
  ℕ, ◌+◌, ◌^◌, ◌<◌, ◌≡◌, refl, subst, ◌∙◌, arith, true, leb, Bool-cases, inl, inr, if◌then◌else◌,
  [], append-nil, length,
}
use minesweeper.Outcome.{Outcome, ok, ◌>>=◌}
use minesweeper.Parameter.{Bytes, text, Parameter, Entries, map}
use minesweeper.Handlers.{HandlerResult}
use minesweeper.Wire.Result.{Result}
use minesweeper.Wire.Writer.{store}
use minesweeper.Wire.Reader.{load}
use minesweeper.Wire.Reads.{reader}
use minesweeper.Wire.Encode.{encode, IsSendable}
use minesweeper.Wire.Decoded.{received, received_entries}
use minesweeper.Wire.Stored.{frame, fresh_writer, store_lem}
use minesweeper.Wire.RoundTrip.{load-store}
use minesweeper.Dispatch.Host.{Host, Answer, unexpected, answer_of}
use minesweeper.Dispatch.HandlerWire.{
  IsAnswer, received_answer, to_wire, to_wire-IsSendable, from_wire-to_wire,
}
use minesweeper.Dispatch.Adapter.{
  HandlerOn, answer_bytes, handler_adapter, handler_output_capacity, unwrap_handler_output,
}

-- The bytes of a parameter are loaded as what is received of it.
pub load-frame :
    (p : Parameter)
    → IsSendable p
    → 13 + length (encode p) < 2 ^ 62
    → load (reader 0 (frame (encode p))) ≡ Result.ok (received p)
load-frame p h small =
    let capacity = 13 + length (encode p) in
    let fits : leb (13 + length (encode p)) capacity ≡ true = ground arith in
    let stored : store p (fresh_writer capacity)
        ≡ Result.ok (record { capacity = capacity; written = frame (encode p) }) =
      store_lem p capacity h small ∙ rw fits refl in
    subst (λ bs. load (reader 0 bs) ≡ Result.ok (received p)) (append-nil (frame (encode p)))
      (load-store p capacity _ [] h small stored (omega arith))

-- The host's call of a handler, in `dispatch`.
unfoldable pub call_handler : {S : Type 0} → Host → HandlerOn S → S → Bytes → Outcome (Answer × S)
unfolding handler_adapter unwrap_handler_output
call_handler h handler s params_bytes = do
  (written, s') ← handler_adapter h handler s params_bytes handler_output_capacity
  answer ← unwrap_handler_output h written
  ok (answer, s')

abbrev pub no_response : Host → Answer
no_response h = unexpected h.internal_server_error (text "Handler failed to produce a response.")

-- What the host sees of an answer: as it comes through the wire, or that there is none.
abbrev pub seen : Host → Answer → Answer
seen h answer =
    if leb (13 + length (encode (to_wire answer))) handler_output_capacity
    then received_answer answer
    else no_response h

answer_bytes_lem :
    (answer : Answer) (out_cap : ℕ)
    → IsAnswer answer
    → out_cap < 2 ^ 62
    → answer_bytes answer out_cap
      ≡ ok (
          if leb (13 + length (encode (to_wire answer))) out_cap
          then frame (encode (to_wire answer))
          else [])
unfolding answer_bytes
answer_bytes_lem answer out_cap h small =
    let said = store_lem (to_wire answer) out_cap (to_wire-IsSendable answer h) small in
    elim (Bool-cases (leb (13 + length (encode (to_wire answer))) out_cap)) [
      | inl fits ↦ rw (said, fits) refl
      | inr large ↦ rw (said, large) refl
    ]

unwrap-frame :
    (h : Host) (answer : Answer)
    → IsAnswer answer
    → 13 + length (encode (to_wire answer)) < 2 ^ 62
    → unwrap_handler_output h (frame (encode (to_wire answer))) ≡ ok (received_answer answer)
unfolding unwrap_handler_output frame
unwrap-frame h answer good small =
    rw
      (
        load-frame (to_wire answer) (to_wire-IsSendable answer good) small,
        from_wire-to_wire h answer good,
      )
      refl

module _ {S : Type 0} (h : Host) (handler : HandlerOn S) where
  handler_adapter-frame :
      (s s' : S) (params : Entries) (result : HandlerResult)
      → IsSendable (map params)
      → 13 + length (encode (map params)) < 2 ^ 62
      → handler s (received_entries params) ≡ ok (result, s')
      → handler_adapter h handler s (frame (encode (map params))) handler_output_capacity
        ≡ (answer_bytes (answer_of h result) handler_output_capacity >>= λ out. ok (out, s'))
  unfolding handler_adapter received
  handler_adapter-frame s s' params result good small e =
      rw (load-frame (map params) good small, e) refl

  -- For parameters that C++ can hold, in fewer than 2 ^ 62 bytes with their header, and a handler
  -- that returns a result that C++ can hold and a new state: the call through bytes leaves this new
  -- state, and its answer is the handler's, with each uint64_t as the int64_t of the same bits, if
  -- it fits 1 MiB with its header; if it does not fit, the answer is the internal error of a
  -- handler that failed, while the new state stays.
  pub call_handler_lem :
      (s s' : S) (params : Entries) (result : HandlerResult)
      → IsSendable (map params)
      → 13 + length (encode (map params)) < 2 ^ 62
      → handler s (received_entries params) ≡ ok (result, s')
      → IsAnswer (answer_of h result)
      → call_handler h handler s (frame (encode (map params)))
        ≡ ok (seen h (answer_of h result), s')
  unfolding call_handler
  call_handler_lem s s' params result good small e holds =
      let answer = answer_of h result in
      let called = handler_adapter-frame s s' params result good small e in
      let wrote = answer_bytes_lem answer handler_output_capacity holds (omega arith) in
      elim (Bool-cases (leb (13 + length (encode (to_wire answer))) handler_output_capacity)) [
        | inl fits ↦ rw (called, wrote, fits) (rw (unwrap-frame h answer holds (ground arith)) refl)
        | inr large ↦ rw (called, wrote, large) refl
      ]
