-- ===== src/Dispatch/Tests/Wires.antt =====
-- Parameters, answers and registrations as bytes.
use minesweeper.Dispatch.Register.{register, register_lem, resource_of}
use minesweeper.Dispatch.Types.{HttpMethod, int_of_method, int_of_type}
use minesweeper.Dispatch.ResourceWire.{ParamSpec, Spec, received_param}
use minesweeper.Dispatch.HandlerWire.{received_answer}
use minesweeper.Dispatch.Serializer.{
  read_yaml, serialize_yaml, read_yaml-serialize_yaml, xml_run, serialize_xml, serialize_xml-run,
}
use minesweeper.Dispatch.Growing.{store_growing, store_growing_lem, framed_within, max_capacity}
use minesweeper.Wire.Decoded.{received}
use minesweeper.Wire.Encode.{IsSendable, encode}
use minesweeper.Handlers.{board_size_handler}
use minesweeper.Dispatch.HandlerWire
use minesweeper.Dispatch.ResourceWire
use minesweeper.Prelude.{◌+◌, ◌≡◌, refl, arith, leb, if◌then◌else◌, some, [], ◌∷◌, length}
use minesweeper.Prelude.Int.{pos}
use minesweeper.Outcome.{ok}
use minesweeper.Parameter.{
  text, Parameter, Entries, string, int64, vector, map, no_items, item, no_entries, entry, eq_bytes,
  contains, size, items_size,
}
use minesweeper.Dispatch.Host.{Answer, unexpected}
use minesweeper.Dispatch.Respond.{on_board}
use minesweeper.Dispatch.Tests.{column, plain_host, verbose}

abbrev greeting : Parameter
greeting = string (text "hello")

store_growing_lem_example : store_growing greeting ≡ ok (framed_within max_capacity greeting)
store_growing_lem_example = store_growing_lem greeting (omega arith)

abbrev refusal : Answer
refusal = unexpected (pos 400) (text "Coordinates out of range.")

refusal-received :
    HandlerWire.from_wire plain_host (received (HandlerWire.to_wire refusal))
    ≡ received_answer refusal
refusal-received = HandlerWire.from_wire-to_wire plain_host refusal (omega arith, omega arith)

abbrev reveal_spec : Spec
reveal_spec = record {
  path = text "/cell/reveal";
  method = HttpMethod.put;
  params = column ∷ verbose ∷ [];
}

from_wire-to_wire_example :
    ResourceWire.from_wire (received (ResourceWire.to_wire reveal_spec)) ≡ some reveal_spec
unfolding received_param received
from_wire-to_wire_example = ResourceWire.from_wire-to_wire reveal_spec tt (tt, (tt, tt))

reveal_spec-IsSendable : IsSendable (ResourceWire.to_wire reveal_spec)
unfolding ResourceWire.to_wire contains eq_bytes size items_size int_of_method int_of_type
reveal_spec-IsSendable = (
  omega arith,
  (refl, (refl, (refl, tt))),
  (
    omega arith,
    omega arith,
    (
      omega arith,
      omega arith,
      (
        omega arith,
        (
          omega arith,
          (
            (
              omega arith,
              (refl, (refl, (refl, (refl, tt)))),
              (
                omega arith,
                omega arith,
                (omega arith, omega arith, (omega arith, tt, (omega arith, omega arith, tt))),
              ),
            ),
            (
              (
                omega arith,
                (refl, (refl, (refl, (refl, tt)))),
                (
                  omega arith,
                  omega arith,
                  (omega arith, omega arith, (omega arith, tt, (omega arith, tt, tt))),
                ),
              ),
              tt,
            ),
          ),
        ),
        tt,
      ),
    ),
  ),
)

register_lem_example :
    register (on_board board_size_handler) reveal_spec []
    ≡ ok (
        if leb (13 + length (encode (ResourceWire.to_wire reveal_spec))) max_capacity
        then resource_of (on_board board_size_handler) reveal_spec ∷ []
        else [])
unfolding received_param received
register_lem_example =
    register_lem (on_board board_size_handler) reveal_spec [] reveal_spec-IsSendable tt
      (tt, (tt, tt))

-- Two cells of a revealed board.
abbrev two_cells : Entries
two_cells =
    entry (text "cells")
      (vector (
        item (map (entry (text "x") (int64 (pos 1)) no_entries))
          (item (map (entry (text "x") (int64 (pos 2)) no_entries)) no_items)))
      (entry (text "result") (string (text "ok")) no_entries)

read_yaml-serialize_yaml_example : read_yaml (serialize_yaml two_cells) ≡ some (map two_cells)
read_yaml-serialize_yaml_example = read_yaml-serialize_yaml two_cells

serialize_xml-run_example : xml_run (serialize_xml two_cells) [] ≡ some []
serialize_xml-run_example = serialize_xml-run two_cells
