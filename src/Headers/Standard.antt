-- ===== src/Headers/Standard.antt =====
-- The standard headers of a request: what `#send` of packages/http-client/src/transport.ts sets from
-- a message, and `validateStandardHeaders` of packages/http-server/src/headers.ts.
pub mod Agreeing
use Prim.Native.String.{String}
use mokei.Common.{
  Option, none, some, List, [], ◌∷◌, Bool, true, false, ◌&&◌, not, if◌then◌else◌, string_key, ◌===◌,
  is_some,
}
use mokei.Common.Json.{Json, text}
use mokei.Common.OrderedMap.{OrderedMap, set}
use mokei.Headers.Values.{Text, Platform, units, same_text, encode_text, decode_header_value}
use mokei.Headers.Params.{property, Mismatch, Detail, absent, invalid_encoding, different}

-- What the headers mirror of a message: its method, whether it has an id, and its parameters.
pub record Message : Type 0 where
  pub method : Option String
  pub has_id : Bool
  pub params : Option Json

-- `MCP_NAME_HEADER_SOURCE` of packages/context-protocol/src/http-headers.ts.
abbrev pub name_sources : List (String × String)
name_sources =
    ("tools/call", "name")
    ∷ ("prompts/get", "name")
    ∷ ("resources/read", "uri")
    ∷ ("tasks/get", "taskId")
    ∷ ("tasks/update", "taskId")
    ∷ ("tasks/cancel", "taskId")
    ∷ []

unfoldable pub source_in : List (String × String) → String → Option String
source_in [] method = none
source_in ((m, field) ∷ sources) method =
    if m === method then some field else source_in sources method

unfoldable pub name_source : String → Option String
unfolding source_in
name_source method = source_in name_sources method

unfoldable pub string_value : Option Json → Option Text
string_value (some (text s)) = some (units s)
string_value _ = none

-- The field of the parameters that `Mcp-Name` mirrors, if it is a string.
unfoldable pub name_value : Option String → Option Json → Option Text
unfolding string_value property
name_value none params = none
name_value (some field) params = string_value (property params field)

unfoldable pub set_name : Platform → Option Text → OrderedMap String Text → OrderedMap String Text
set_name platform none headers = headers
set_name platform (some name) headers = set headers "Mcp-Name" (encode_text platform name)

unfoldable pub set_method :
    Platform → Message → Option String → OrderedMap String Text → OrderedMap String Text
unfolding set_name name_value name_source
set_method platform m none headers = headers
set_method platform m (some method) headers =
    set_name platform (name_value (name_source method) m.params)
      (set headers "Mcp-Method" (units method))

unfoldable pub set_version : Option String → OrderedMap String Text → OrderedMap String Text
set_version none headers = headers
set_version (some version) headers = set headers "MCP-Protocol-Version" (units version)

-- The headers that a client adds for a message, with the version that goes with it.
unfoldable pub standard_headers : Platform → Option String → Message → OrderedMap String Text
unfolding set_version set_method
standard_headers platform version m = set_method platform m m.method (set_version version [])

unfoldable pub mismatch : String → Detail → Option Mismatch
mismatch header detail = some (record { header = header; detail = detail })

-- A header that must be the given text, and must be there if `required`.
unfoldable pub check_same : String → (required : Bool) → Text → Option Text → Option Mismatch
unfolding mismatch same_text
check_same header required expected none = if required then mismatch header absent else none
check_same header required expected (some value) =
    if same_text value expected then none else mismatch header different

unfoldable pub check_name_decoded : Option Text → Option Text → Option Mismatch
unfolding mismatch same_text
check_name_decoded value none = mismatch "Mcp-Name" invalid_encoding
check_name_decoded none (some decoded) = none
check_name_decoded (some value) (some decoded) =
    if same_text decoded value then none else mismatch "Mcp-Name" different

unfoldable pub check_name : Platform → Option Text → Option Text → Option Mismatch
unfolding mismatch check_name_decoded decode_header_value
check_name platform value (some raw) = check_name_decoded value (decode_header_value platform raw)
check_name platform none none = none
check_name platform (some value) none = mismatch "Mcp-Name" absent

-- The name of a request, where its method has one.
unfoldable pub check_source : Platform → Option String → Option Json → Option Text → Option Mismatch
unfolding check_name name_value
check_source platform none params header = none
check_source platform (some field) params header =
    check_name platform (name_value (some field) params) header

unfoldable pub first_of : Option Mismatch → Option Mismatch → Option Mismatch
first_of none next = next
first_of (some m) next = some m

unfoldable pub check_method :
    Platform → (String → Option Text) → Message → Option String → Option Mismatch
unfolding check_same check_source name_source first_of
check_method platform received m none = none
check_method platform received m (some method) =
    first_of (check_same "Mcp-Method" m.has_id (units method) (received "Mcp-Method")) (
      if m.has_id
      then check_source platform (name_source method) m.params (received "Mcp-Name")
      else none)

unfoldable pub validate_standard_headers :
    Platform → (String → Option Text) → Message → (protocol_version : String) → Option Mismatch
unfolding check_same check_method first_of
validate_standard_headers platform received m protocol_version =
    first_of
      (check_same "MCP-Protocol-Version" (is_some m.method && m.has_id) (units protocol_version)
        (received "MCP-Protocol-Version"))
      (check_method platform received m m.method)
