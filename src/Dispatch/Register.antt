-- ===== src/Dispatch/Register.antt =====
-- The registration of a resource: `add_resource` of src/server/plugins/api.hxx, which makes bytes
-- of it, and `add_resource` and `decode_resource_spec` of src/server/api.cxx, which read them. What
-- is logged where the bytes are refused is left out.
use minesweeper.Prelude.{
  ◌+◌, ◌≡◌, refl, arith, leb, Bool-cases, inl, inr, if◌then◌else◌, Option, none, some, List, [],
  ◌∷◌, ◌++◌, length, All,
}
use mathlib.Core.List
use minesweeper.Outcome.{Outcome, ok, ◌>>=◌}
use minesweeper.Parameter.{Bytes}
use minesweeper.Wire.Result.{check_capacity}
use minesweeper.Wire.Reader.{load, read_byte}
use minesweeper.Wire.Reads.{reader}
use minesweeper.Wire.Encode.{encode, IsSendable}
use minesweeper.Dispatch.Host.{attempt}
use minesweeper.Dispatch.Growing.{store_growing, store_growing_lem, max_capacity}
use minesweeper.Dispatch.ResourceWire.{
  Spec, to_wire, from_wire, IsMethod, IsType, received_param, from_wire-to_wire,
}
use minesweeper.Dispatch.Call.{load-frame}
use minesweeper.Dispatch.Respond.{ResourceHandler, Resource}

unfoldable pub decode_resource_spec : Bytes → Outcome (Option Spec)
decode_resource_spec spec_buf = do
  wire ← attempt (load (reader 0 spec_buf))
  ok (elim wire [ none ↦ none | some w ↦ from_wire w ])

abbrev pub resource_of : ResourceHandler → Spec → Resource
resource_of handler s = record {
  path = s.path;
  method = s.method;
  handler = handler;
  params = s.params;
}

-- The two overloads on the host's side, on the resources that it has.
unfoldable pub add_resource : ResourceHandler → Bytes → List Resource → Outcome (List Resource)
unfolding decode_resource_spec
add_resource handler spec_buf resources = do
  decoded ← decode_resource_spec spec_buf
  ok (elim decoded [ none ↦ resources | some s ↦ resources ++ (resource_of handler s ∷ []) ])

-- The two overloads on the side of a plugin. What is too large is no bytes at all.
unfoldable pub register : ResourceHandler → Spec → List Resource → Outcome (List Resource)
unfolding add_resource
register handler s resources = do
  stored ← store_growing (to_wire s)
  add_resource handler (elim stored [ none ↦ [] | some bs ↦ bs ]) resources

load-nil : attempt (load (reader 0 [])) ≡ ok none
unfolding load read_byte check_capacity
load-nil = refl

-- A registration that C++ can hold, with enumerators for its method and types, is added behind the
-- other resources, with each uint64_t of a default value as the int64_t of the same bits, if its
-- encoding fits 16 MiB with its header; and it is dropped without an error if it does not.
pub register_lem :
    (handler : ResourceHandler) (s : Spec) (resources : List Resource)
    → IsSendable (to_wire s)
    → IsMethod s.method
    → All (λ p. IsType p.type) s.params
    → register handler s resources
      ≡ ok (
          if leb (13 + length (encode (to_wire s))) max_capacity
          then resources
            ++ (resource_of handler (record s { params = List.map received_param s.params }) ∷ [])
          else resources)
unfolding register
register_lem handler s resources good m t =
    elim (Bool-cases (leb (13 + length (encode (to_wire s))) max_capacity)) [
      | inl fits ↦
          rw
            (
              store_growing_lem (to_wire s) good,
              fits,
              load-frame (to_wire s) good (ground arith),
              from_wire-to_wire s m t,
            )
            refl
      | inr large ↦ rw (store_growing_lem (to_wire s) good, large, load-nil) refl
    ]
