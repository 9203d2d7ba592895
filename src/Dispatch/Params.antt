-- ===== src/Dispatch/Params.antt =====
-- `parse_params` of src/server/api.cxx: the parameters of a request, by the specifications of the
-- resource. What restbed finds in the query is a parameter, at a name and a default.
use minesweeper.Prelude.{true, false, ◌||◌, if◌then◌else◌, none, some, List, [], ◌∷◌, ◌++◌}
use minesweeper.Parameter.{
  Bytes, text, Entries, string, int64, boolean, no_entries, emplace, eq_bytes,
}
use minesweeper.Dispatch.Host.{Host}
use minesweeper.Dispatch.Types.{ParamType}
use minesweeper.Dispatch.ResourceWire.{ParamSpec}

abbrev pub Query : Type 0
Query = Bytes → Bytes → Bytes

pub data Parsed : Type 0 where
  parsed : Entries → Parsed
  refused : Bytes → Parsed

abbrev pub invalid : ParamSpec → Parsed
invalid spec = refused (text "Invalid parameter " ++ (spec.name ++ text "."))

unfoldable pub parse_boolean : ParamSpec → Bytes → Entries → Parsed
parse_boolean spec raw out =
    if eq_bytes raw (text "true") || eq_bytes raw (text "1")
    then parsed (emplace spec.name (boolean true) out)
    else if eq_bytes raw (text "false") || eq_bytes raw (text "0")
    then parsed (emplace spec.name (boolean false) out)
    else invalid spec

-- The `switch`, which does nothing at a type that is no enumerator.
unfoldable pub parse_value : Host → ParamSpec → ParamType → Bytes → Entries → Parsed
unfolding parse_boolean
parse_value h spec ParamType.string raw out = parsed (emplace spec.name (string raw) out)
parse_value h spec ParamType.integer raw out = elim (h.num raw) [
  | none ↦ invalid spec
  | some value ↦ parsed (emplace spec.name (int64 value) out)
]
parse_value h spec ParamType.boolean raw out = parse_boolean spec raw out
parse_value h spec (ParamType.other z) raw out = parsed out

unfoldable pub parse_missing : ParamSpec → Entries → Parsed
parse_missing spec out =
    if spec.required
    then refused (text "Missing mandatory parameter " ++ (spec.name ++ text "."))
    else parsed (emplace spec.name spec.default_value out)

unfoldable pub parse_raw : Host → ParamSpec → Bytes → Entries → Parsed
unfolding parse_value parse_missing
parse_raw h spec [] out = parse_missing spec out
parse_raw h spec (c ∷ cs) out = parse_value h spec spec.type (c ∷ cs) out

-- The loop over the specifications, on what was parsed before.
unfoldable pub parse_from : Host → Query → List ParamSpec → Entries → Parsed
unfolding parse_raw
parse_from h query [] out = parsed out
parse_from h query (spec ∷ specs) out = elim (parse_raw h spec (query spec.name []) out) [
  | parsed more ↦ parse_from h query specs more
  | refused message ↦ refused message
]

unfoldable pub parse_params : Host → Query → List ParamSpec → Parsed
unfolding parse_from
parse_params h query specs = parse_from h query specs no_entries
