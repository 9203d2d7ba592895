-- ===== src/Dispatch/ResourceWire.antt =====
-- `resource_wire` of src/server/plugins/api.hxx: the registration of a resource as one parameter,
-- and back.
use minesweeper.Prelude.{◌≡◌, refl, arith, Bool, Option, none, some, List, [], ◌∷◌, All}
use mathlib.Core.List
use minesweeper.Prelude.Int.{int_of_int64}
use minesweeper.Outcome.{Outcome, ok, throws, ◌>>=◌, bad_variant_access}
use minesweeper.Parameter.{
  Bytes, text, Parameter, Items, string, int64, boolean, vector, map, no_items, item, no_entries,
  entry, find, eq_bytes,
}
use minesweeper.Handlers.{get_int64}
use minesweeper.Wire.Decoded.{received, received_items}
use minesweeper.Dispatch.Types.{
  HttpMethod, get, post, delete, put, int_of_method, method_of_int, ParamType, int_of_type,
  type_of_int,
}
use minesweeper.Dispatch.HandlerWire.{at, get_map, get_bool, get_string}

-- `param_spec_t` and `resource_wire::spec_t`
pub record ParamSpec : Type 0 where
  pub name : Bytes
  pub type : ParamType
  pub required : Bool
  pub default_value : Parameter

pub record Spec : Type 0 where
  pub path : Bytes
  pub method : HttpMethod
  pub params : List ParamSpec

unfoldable pub param_wire : ParamSpec → Parameter
param_wire p = map (
    entry (text "name") (string p.name) (
      entry (text "type") (int64 (int_of_type p.type)) (
        entry (text "required") (boolean p.required)
          (entry (text "default_value") p.default_value no_entries))))

unfoldable pub params_wire : List ParamSpec → Items
unfolding param_wire
params_wire [] = no_items
params_wire (p ∷ ps) = item (param_wire p) (params_wire ps)

unfoldable pub to_wire : Spec → Parameter
unfolding params_wire
to_wire s = map (
    entry (text "path") (string s.path) (
      entry (text "method") (int64 (int_of_method s.method))
        (entry (text "params") (vector (params_wire s.params)) no_entries)))

unfoldable pub get_list : Parameter → Outcome Items
get_list (vector vs) = ok vs
get_list _ = throws bad_variant_access

unfoldable pub read_param : Parameter → Outcome ParamSpec
unfolding at get_map get_string get_int64 get_bool type_of_int
read_param wire = do
  pm ← get_map wire
  p₀ ← at (text "name") pm
  name ← get_string p₀
  p₁ ← at (text "type") pm
  type ← get_int64 p₁
  p₂ ← at (text "required") pm
  required ← get_bool p₂
  default_value ← at (text "default_value") pm
  let spec : ParamSpec = record {
    name = name;
    type = type_of_int (int_of_int64 type);
    required = required;
    default_value = default_value;
  }
  ok spec

unfoldable pub read_params : Items → Outcome (List ParamSpec)
unfolding read_param
read_params no_items = ok []
read_params (item wire vs) = do spec ← read_param wire; rest ← read_params vs; ok (spec ∷ rest)

-- `from_wire` up to an exception.
unfoldable pub read_spec : Parameter → Outcome Spec
unfolding at get_map get_string get_int64 get_list method_of_int read_params
read_spec wire = do
  m ← get_map wire
  p₀ ← at (text "path") m
  path ← get_string p₀
  p₁ ← at (text "method") m
  method ← get_int64 p₁
  p₂ ← at (text "params") m
  vs ← get_list p₂
  params ← read_params vs
  let spec : Spec = record {
    path = path;
    method = method_of_int (int_of_int64 method);
    params = params;
  }
  ok spec

unfoldable pub from_wire : Parameter → Option Spec
from_wire wire = elim (read_spec wire) [ ok spec ↦ some spec | throws failure ↦ none ]

from_wire-eq-some :
    (wire : Parameter) {spec : Spec} → read_spec wire ≡ ok spec → from_wire wire ≡ some spec
unfolding from_wire
from_wire-eq-some wire e = ground arith

abbrev pub IsMethod : HttpMethod → Type 0
IsMethod (HttpMethod.other z) = ⊥
IsMethod _ = Unit

abbrev pub IsType : ParamType → Type 0
IsType (ParamType.other z) = ⊥
IsType _ = Unit

method_of_int-int_of_method :
    (m : HttpMethod) → IsMethod m → method_of_int (int_of_int64 (int_of_method m)) ≡ m
unfolding method_of_int int_of_method int_of_int64
method_of_int-int_of_method get h = refl
method_of_int-int_of_method post h = refl
method_of_int-int_of_method delete h = refl
method_of_int-int_of_method put h = refl
method_of_int-int_of_method (HttpMethod.other z) h = absurd h

type_of_int-int_of_type :
    (t : ParamType) → IsType t → type_of_int (int_of_int64 (int_of_type t)) ≡ t
unfolding type_of_int int_of_type int_of_int64
type_of_int-int_of_type ParamType.string h = refl
type_of_int-int_of_type ParamType.integer h = refl
type_of_int-int_of_type ParamType.boolean h = refl
type_of_int-int_of_type (ParamType.other z) h = absurd h

-- What the host keeps of a specification: default values as they come through the wire.
unfoldable pub received_param : ParamSpec → ParamSpec
received_param p = record p { default_value = received p.default_value }

read_params-params_wire :
    (ps : List ParamSpec)
    → All (λ p. IsType p.type) ps
    → read_params (received_items (params_wire ps)) ≡ ok (List.map received_param ps)
unfolding read_params params_wire param_wire received received_param find eq_bytes
read_params-params_wire [] h = refl
read_params-params_wire (p ∷ ps) h =
    rw (type_of_int-int_of_type p.type h.0, read_params-params_wire ps h.1) refl

read_spec-to_wire :
    (s : Spec)
    → IsMethod s.method
    → All (λ p. IsType p.type) s.params
    → read_spec (received (to_wire s)) ≡ ok (record s { params = List.map received_param s.params })
unfolding read_spec to_wire received find eq_bytes
read_spec-to_wire s h k =
    rw (read_params-params_wire s.params k, method_of_int-int_of_method s.method h) refl

-- A registration whose method and whose types are enumerators: from_wire makes of what a load
-- leaves of to_wire the registration itself, with each uint64_t of a default value as the int64_t
-- of the same bits.
pub from_wire-to_wire :
    (s : Spec)
    → IsMethod s.method
    → All (λ p. IsType p.type) s.params
    → from_wire (received (to_wire s))
      ≡ some (record s { params = List.map received_param s.params })
from_wire-to_wire s h k = from_wire-eq-some _ (read_spec-to_wire s h k)
