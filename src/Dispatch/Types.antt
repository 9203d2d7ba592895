-- ===== src/Dispatch/Types.antt =====
-- src/server/types.hxx: the content types and methods of HTTP, and the types of parameters
-- (src/server/plugins/api.hxx). An `enum class` holds any `int`, also
-- one that no enumerator has.
use minesweeper.Prelude.{◌≡◌, refl, ◌||◌, if◌then◌else◌, []}
use minesweeper.Prelude.Int.{ℤ, pos, eq_ℤ}
use minesweeper.Parameter.{Bytes, text, eq_bytes}

pub data ContentType : Type 0 where
  json yaml xml : ContentType

-- The default value is the empty text, and is not reached by an enumerator.
unfoldable pub to_string : ContentType → Bytes
to_string json = text "application/json"
to_string yaml = text "application/x-yaml"
to_string xml = text "application/xml"

unfoldable pub to_content_type : Bytes → ContentType
unfolding eq_bytes
to_content_type type =
    if eq_bytes type (text "application/json") || eq_bytes type (text "json")
    then json
    else if eq_bytes type (text "application/x-yaml") || eq_bytes type (text "yaml")
    then yaml
    else if eq_bytes type (text "application/xml") || eq_bytes type (text "xml")
    then xml
    else json

-- Each content type is read back from its name.
pub to_content_type-to_string : (type : ContentType) → to_content_type (to_string type) ≡ type
unfolding to_string to_content_type
to_content_type-to_string json = refl
to_content_type-to_string yaml = refl
to_content_type-to_string xml = refl

pub data HttpMethod : Type 0 where
  get post delete put : HttpMethod
  other : ℤ → HttpMethod

unfoldable pub int_of_method : HttpMethod → ℤ
int_of_method get = pos 0
int_of_method post = pos 1
int_of_method delete = pos 2
int_of_method put = pos 3
int_of_method (other z) = z

unfoldable pub method_of_int : ℤ → HttpMethod
method_of_int z =
    if eq_ℤ z (pos 0)
    then get
    else if eq_ℤ z (pos 1)
    then post
    else if eq_ℤ z (pos 2)
    then delete
    else if eq_ℤ z (pos 3)
    then put
    else other z

unfoldable pub method_name : HttpMethod → Bytes
method_name get = text "GET"
method_name post = text "POST"
method_name delete = text "DELETE"
method_name put = text "PUT"
method_name (other z) = []

pub data ParamType : Type 0 where
  string integer boolean : ParamType
  other : ℤ → ParamType

unfoldable pub int_of_type : ParamType → ℤ
int_of_type ParamType.string = pos 0
int_of_type ParamType.integer = pos 1
int_of_type ParamType.boolean = pos 2
int_of_type (ParamType.other z) = z

unfoldable pub type_of_int : ℤ → ParamType
type_of_int z =
    if eq_ℤ z (pos 0)
    then ParamType.string
    else if eq_ℤ z (pos 1)
    then ParamType.integer
    else if eq_ℤ z (pos 2)
    then ParamType.boolean
    else ParamType.other z
