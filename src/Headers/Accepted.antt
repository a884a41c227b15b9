-- ===== src/Headers/Accepted.antt =====
-- The parameter headers that a client sends with a call are those that the server wants.
use Prim.Native.String.{String}
use mokei.Common.{
  ◌<◌, ◌≡◌, ◌≢◌, refl, sym, subst, ap, ◌∙◌, Option, none, some, List, [], ◌∷◌, true, false, All,
  arith, string_key, if◌then◌else◌, ◌==◌,
}
use mokei.Common.Json.{Json, int, text, boolean, null, array, object}
use mokei.Common.OrderedMap.{OrderedMap, get, get-set}
use mokei.Headers.Values.{Text, Platform, units, encode_text}
use mokei.Headers.Values.RoundTrip.{
  IsPlatform, is_well_formed, without_mark, same_text_refl, decode_header_value-encode_text,
}
use mokei.Headers.Params.{
  HeaderAnnotation, property, is_object, annotated_value, value_at_path, text_of, decimal,
  header_of, set_header, build_param_headers, agrees, agrees_decimal, read_decimal, check_decoded,
  check_raw, check_value, or_next, validate_param_headers, different,
}
use mokei.Headers.Params.Numbers.{agrees_decimal-decimal, decimal-IsAscii}

value_at_path-none : (path : List String) → value_at_path none path ≡ none
unfolding value_at_path property
value_at_path-none [] = refl
value_at_path-none (key ∷ path) = value_at_path-none path

-- The client and the server find the same value.
annotated_value-value_at_path :
    (root : Option Json) (path : List String) → annotated_value root path ≡ value_at_path root path
unfolding annotated_value value_at_path is_object property
annotated_value-value_at_path root [] = refl
annotated_value-value_at_path none (key ∷ path) = sym (value_at_path-none path)
annotated_value-value_at_path (some (object fields)) (key ∷ path) =
    annotated_value-value_at_path (property (some (object fields)) key) path
annotated_value-value_at_path (some (array items)) (key ∷ path) =
    annotated_value-value_at_path (property (some (array items)) key) path
annotated_value-value_at_path (some null) (key ∷ path) = sym (value_at_path-none path)
annotated_value-value_at_path (some (boolean b)) (key ∷ path) = sym (value_at_path-none path)
annotated_value-value_at_path (some (int n)) (key ∷ path) = sym (value_at_path-none path)
annotated_value-value_at_path (some (text s)) (key ∷ path) = sym (value_at_path-none path)

-- No two annotations name the same header.
abbrev pub HasDistinctNames : List HeaderAnnotation → Type 0
HasDistinctNames [] = Unit {0}
HasDistinctNames (a ∷ annotations) =
    All (λ (b : HeaderAnnotation). header_of b.header_name ≢ header_of a.header_name) annotations
    × HasDistinctNames annotations

-- A text without lone surrogates that does not start with a byte order mark.
abbrev pub IsPlain : Option Json → Type 0
IsPlain (some (text s)) = (is_well_formed (units s) ≡ true) × (without_mark (units s) ≡ units s)
IsPlain _ = Unit {0}

ascii_well_formed : (t : Text) → All (λ c. c < 128) t → is_well_formed t ≡ true
unfolding is_well_formed
ascii_well_formed [] h = refl
ascii_well_formed (a ∷ []) h = ground arith
ascii_well_formed (a ∷ b ∷ t) h = ground (arith, ascii_well_formed (b ∷ t) h.1)

ascii_without_mark : (t : Text) → All (λ c. c < 128) t → without_mark t ≡ t
unfolding without_mark
ascii_without_mark [] h = refl
ascii_without_mark (a ∷ t) h =
    let other : (a == 65279) ≡ false = ground arith in ap (λ b. if b then t else a ∷ t) other

some_eq : {a b : Text} → ◌≡◌ {A = Option Text} (some a) (some b) → a ≡ b
some_eq h = cc

agrees-text_of : (value : Option Json) (t : Text) → text_of value ≡ some t → agrees value t t ≡ true
unfolding agrees text_of
agrees-text_of none t h = cc
agrees-text_of (some null) t h = cc
agrees-text_of (some (boolean b)) t h = same_text_refl t
agrees-text_of (some (int n)) t h =
    subst (λ u. agrees_decimal n u (read_decimal u) ≡ true) (some_eq h) (agrees_decimal-decimal n)
agrees-text_of (some (text s)) t h = same_text_refl t
agrees-text_of (some (array vs)) t h = cc
agrees-text_of (some (object fs)) t h = cc

Intact : Text → Type 0
Intact t = (is_well_formed t ≡ true) × (without_mark t ≡ t)

ascii-Intact : (t : Text) → All (λ c. c < 128) t → Intact t
unfolding Intact
ascii-Intact t h = (ascii_well_formed t h, ascii_without_mark t h)

text_of-Intact :
    (value : Option Json) (t : Text) → text_of value ≡ some t → IsPlain value → Intact t
unfolding text_of Intact is_well_formed without_mark
text_of-Intact none t h p = cc
text_of-Intact (some null) t h p = cc
text_of-Intact (some (boolean true)) t h p = subst Intact (some_eq h) (refl, refl)
text_of-Intact (some (boolean false)) t h p = subst Intact (some_eq h) (refl, refl)
text_of-Intact (some (int n)) t h p =
    subst Intact (some_eq h) (ascii-Intact (decimal n) (decimal-IsAscii n))
text_of-Intact (some (text s)) t h p = subst Intact (some_eq h) p
text_of-Intact (some (array vs)) t h p = cc
text_of-Intact (some (object fs)) t h p = cc

module _ (platform : Platform) (works : IsPlatform platform) where
  -- A value whose own header came through has nothing wrong with it.
  check_value-none :
      (received : String → Option Text) (header : String) (value : Option Json) (o : Option Text)
      → text_of value ≡ o
      → IsPlain value
      → ((t : Text) → o ≡ some t → received header ≡ some (encode_text platform t))
      → check_value platform received header value o ≡ none
  unfolding check_value check_raw check_decoded Intact
  check_value-none received header value none h p r = refl
  check_value-none received header value (some t) h p r =
      let (w, m) = text_of-Intact value t h p in
      ap (check_raw platform header value t) (r t refl)
      ∙ ap (check_decoded header value t)
          (decode_header_value-encode_text platform t works w ∙ ap some m)
      ∙ ap (λ b. if b then none else some (record { header = header; detail = different }))
          (agrees-text_of value t h)

  get-build_param_headers :
      (annotations : List HeaderAnnotation) (args : Option Json) (headers : OrderedMap String Text)
      (header : String)
      → All (λ (b : HeaderAnnotation). header_of b.header_name ≢ header) annotations
      → get (build_param_headers platform annotations args headers) header ≡ get headers header
  unfolding build_param_headers set_header
  get-build_param_headers [] args headers header h = refl
  get-build_param_headers (a ∷ annotations) args headers header h =
      get-build_param_headers annotations args
        (set_header platform a.header_name (text_of (annotated_value args a.path)) headers) header
        h.1
      ∙ other (text_of (annotated_value args a.path))
    where
      other :
          (o : Option Text)
          → get (set_header platform a.header_name o headers) header ≡ get headers header
      other none = refl
      other (some t) =
          get-set headers (header_of a.header_name) header (encode_text platform t)
          ∙ ground (arith, h.0)

  validate-build :
      (annotations : List HeaderAnnotation) (args : Option Json) (headers : OrderedMap String Text)
      (received : String → Option Text)
      → HasDistinctNames annotations
      → All (λ (a : HeaderAnnotation). IsPlain (value_at_path args a.path)) annotations
      → ((name : String)
          → received (header_of name)
            ≡ get (build_param_headers platform annotations args headers) (header_of name))
      → validate_param_headers platform received annotations args ≡ none
  unfolding validate_param_headers build_param_headers or_next
  validate-build [] args headers received d p r = refl
  validate-build (a ∷ annotations) args headers received d p r =
      ap (λ m. or_next m (validate_param_headers platform received annotations args))
        (check_value-none received (header_of a.header_name) value (text_of value) refl p.0 own)
      ∙ validate-build annotations args (set_header platform a.header_name (text_of sent) headers)
          received d.1 p.1 r
    where
      value : Option Json
      value = value_at_path args a.path

      sent : Option Json
      sent = annotated_value args a.path

      own :
          (t : Text)
          → text_of value ≡ some t
          → received (header_of a.header_name) ≡ some (encode_text platform t)
      own t h =
          r a.header_name
          ∙ get-build_param_headers annotations args
              (set_header platform a.header_name (text_of sent) headers) (header_of a.header_name)
              d.0
          ∙ ap (λ o. get (set_header platform a.header_name o headers) (header_of a.header_name))
              (ap text_of (annotated_value-value_at_path args a.path) ∙ h)
          ∙ get-set headers (header_of a.header_name) (header_of a.header_name)
              (encode_text platform t)
          ∙ ground arith

-- On a platform that encodes and decodes as documented, when the annotations of a tool name
-- different headers and the annotated texts have no lone surrogates and no byte order mark at their
-- start, and when each parameter header reaches the server as the client sets it, or not at all
-- where the client sets none, then the server finds no fault with any of them.
pub validate-build_param_headers :
    (platform : Platform) (annotations : List HeaderAnnotation) (args : Option Json)
    (received : String → Option Text)
    → IsPlatform platform
    → HasDistinctNames annotations
    → All (λ (a : HeaderAnnotation). IsPlain (value_at_path args a.path)) annotations
    → ((name : String)
        → received (header_of name)
          ≡ get (build_param_headers platform annotations args []) (header_of name))
    → validate_param_headers platform received annotations args ≡ none
validate-build_param_headers platform annotations args received works d p r =
    validate-build platform works annotations args [] received d p r
