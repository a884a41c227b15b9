-- ===== src/Headers/Params.antt =====
-- The `Mcp-Param-*` headers of a tool call: `buildParamHeaders` of
-- packages/http-client/src/x-mcp-header.ts, and `validateParamHeaders` of
-- packages/http-server/src/headers.ts for the annotations of the called tool. Members that an object
-- inherits are left out, and numbers are whole.
pub mod Numbers
use Prim.Native.String
use Prim.Native.String.{String}
use mokei.Common.{
  ℕ, zero, suc, ◌+◌, ◌-◌, ◌*◌, ◌/◌, ◌%◌, Option, none, some, List, [], ◌∷◌, ◌++◌, Bool, true, false,
  not, ◌&&◌, ◌||◌, if◌then◌else◌, ltb, leb, ◌==◌, string_key, ◌===◌, show_nat,
}
use mokei.Common.Json.{ℤ, pos, negsuc, Json, int, text, boolean, array, object, Items, nil, cons}
use mokei.Common.OrderedMap.{OrderedMap, get, set}
use mokei.Rpc.Message.{member}
use mokei.Headers.Values.{Text, Platform, units, same_text, encode_text, decode_header_value}

pub record HeaderAnnotation : Type 0 where
  pub header_name : String
  pub path : List String

unfoldable pub item_count : Items → ℕ
item_count nil = 0
item_count (cons v vs) = suc (item_count vs)

unfoldable pub item_at : Items → ℕ → String → Option Json
item_at nil i key = none
item_at (cons v vs) i key = if show_nat i === key then some v else item_at vs (suc i) key

-- `value[key]`, which is undefined where the value is no object.
unfoldable pub property : Option Json → String → Option Json
unfolding item_at item_count member
property (some (object fields)) key = member fields key
property (some (array items)) key =
    if key === "length" then some (int (pos (item_count items))) else item_at items 0 key
property _ key = none

-- `typeof value === 'object'` of a value that is not null.
unfoldable pub is_object : Json → Bool
is_object (object fields) = true
is_object (array items) = true
is_object _ = false

-- The loop over the path in `buildParamHeaders`, which breaks off where a value is no object.
unfoldable pub annotated_value : Option Json → List String → Option Json
unfolding property is_object
annotated_value value [] = value
annotated_value none (key ∷ path) = none
annotated_value (some v) (key ∷ path) =
    let rest = annotated_value (property (some v) key) path in if is_object v then rest else none

-- `valueAtPath`
unfoldable pub value_at_path : Option Json → List String → Option Json
unfolding property
value_at_path root [] = root
value_at_path root (key ∷ path) = value_at_path (property root key) path

-- `String(n)` for a natural number: its decimal digits, the last one first to be found.
unfoldable pub digits : ℕ → ℕ → Text
digits zero n = []
digits (suc fuel) n =
    let before = digits fuel (n / 10) in
    if ltb n 10 then (48 + n) ∷ [] else before ++ (48 + n % 10) ∷ []

unfoldable pub decimal : ℤ → Text
unfolding digits
decimal (pos n) = digits (suc n) n
decimal (negsuc n) = 45 ∷ digits (suc (suc n)) (suc n)

abbrev pub true_text : Text
true_text = 116 ∷ 114 ∷ 117 ∷ 101 ∷ []

abbrev pub false_text : Text
false_text = 102 ∷ 97 ∷ 108 ∷ 115 ∷ 101 ∷ []

-- The text of a primitive value, if it is one.
unfoldable pub text_of : Option Json → Option Text
unfolding decimal
text_of (some (text s)) = some (units s)
text_of (some (int n)) = some (decimal n)
text_of (some (boolean true)) = some true_text
text_of (some (boolean false)) = some false_text
text_of _ = none

abbrev pub header_of : String → String
header_of name = String.◌++◌ "Mcp-Param-" name

unfoldable pub set_header :
    Platform → String → Option Text → OrderedMap String Text → OrderedMap String Text
set_header platform name none headers = headers
set_header platform name (some t) headers = set headers (header_of name) (encode_text platform t)

unfoldable pub build_param_headers :
    Platform → List HeaderAnnotation → Option Json → OrderedMap String Text → OrderedMap String Text
unfolding set_header annotated_value text_of
build_param_headers platform [] args headers = headers
build_param_headers platform (a ∷ annotations) args headers =
    build_param_headers platform annotations args
      (set_header platform a.header_name (text_of (annotated_value args a.path)) headers)

-- The value of a run of decimal digits, up to the first other character.
unfoldable pub read_digits : ℕ → Text → ℕ × Text
read_digits acc [] = (acc, [])
read_digits acc (c ∷ t) =
    let rest = read_digits (acc * 10 + (c - 48)) t in
    if leb 48 c && leb c 57 then rest else (acc, c ∷ t)

-- What a text that `CANONICAL_DECIMAL` matches stands for; of the fraction, whether it is zero.
pub record Decimal : Type 0 where
  pub negative : Bool
  pub whole : ℕ
  pub has_zero_fraction : Bool

unfoldable pub is_digit_first : Text → Bool
is_digit_first [] = false
is_digit_first (c ∷ t) = leb 48 c && leb c 57

unfoldable pub read_fraction : Text → Option Bool
unfolding read_digits is_digit_first
read_fraction [] = some true
read_fraction (c ∷ t) =
    let (n, rest) = read_digits 0 t in
    if c == 46 && is_digit_first t && same_text rest [] then some (n == 0) else none

unfoldable pub with_fraction : Bool → ℕ → Option Bool → Option Decimal
with_fraction negative n none = none
with_fraction negative n (some zero_fraction) =
    some (record { negative = negative; whole = n; has_zero_fraction = zero_fraction })

unfoldable pub read_unsigned : Bool → Text → Option Decimal
unfolding read_digits read_fraction is_digit_first with_fraction
read_unsigned negative t =
    let (n, rest) = read_digits 0 t in
    if is_digit_first t then with_fraction negative n (read_fraction rest) else none

unfoldable pub read_decimal : Text → Option Decimal
unfolding read_unsigned
read_decimal [] = none
read_decimal (c ∷ t) = if c == 45 then read_unsigned true t else read_unsigned false (c ∷ t)

unfoldable pub is_number : ℤ → Decimal → Bool
is_number (pos n) d = d.has_zero_fraction && d.whole == n && (not d.negative || n == 0)
is_number (negsuc n) d = d.has_zero_fraction && d.whole == suc n && d.negative

unfoldable pub agrees_decimal : ℤ → Text → Option Decimal → Bool
unfolding is_number
agrees_decimal n decoded none = same_text decoded (decimal n)
agrees_decimal n decoded (some d) = is_number n d

-- `agrees`
unfoldable pub agrees : Option Json → Text → Text → Bool
unfolding agrees_decimal read_decimal
agrees (some (int n)) expected decoded = agrees_decimal n decoded (read_decimal decoded)
agrees value expected decoded = same_text decoded expected

pub data Detail : Type 0 where
  absent invalid_encoding different : Detail

-- A `headerMismatch`: the header, and which of the texts tells of it.
pub record Mismatch : Type 0 where
  pub header : String
  pub detail : Detail

unfoldable pub check_decoded : String → Option Json → Text → Option Text → Option Mismatch
unfolding agrees
check_decoded header value expected none =
    some (record { header = header; detail = invalid_encoding })
check_decoded header value expected (some decoded) =
    if agrees value expected decoded
    then none
    else some (record { header = header; detail = different })

unfoldable pub check_raw : Platform → String → Option Json → Text → Option Text → Option Mismatch
unfolding check_decoded decode_header_value
check_raw platform header value expected none = some (record { header = header; detail = absent })
check_raw platform header value expected (some raw) =
    check_decoded header value expected (decode_header_value platform raw)

unfoldable pub check_value :
    Platform → (String → Option Text) → String → Option Json → Option Text → Option Mismatch
unfolding check_raw
check_value platform received header value none = none
check_value platform received header value (some expected) =
    check_raw platform header value expected (received header)

unfoldable pub or_next : Option Mismatch → Option Mismatch → Option Mismatch
or_next none next = next
or_next (some m) next = some m

-- The loop of `validateParamHeaders` over the annotations, with what `request.headers.get` returns.
unfoldable pub validate_param_headers :
    Platform → (String → Option Text) → List HeaderAnnotation → Option Json → Option Mismatch
unfolding check_value or_next value_at_path text_of
validate_param_headers platform received [] args = none
validate_param_headers platform received (a ∷ annotations) args =
    let value = value_at_path args a.path in
    or_next (check_value platform received (header_of a.header_name) value (text_of value))
      (validate_param_headers platform received annotations args)
