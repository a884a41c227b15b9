-- ===== src/Headers/Tests.antt =====
-- A platform that writes each code unit as two bytes and each byte as four digits, a text that has to
-- be encoded, and a call with two annotated arguments.
use mokei.Common.{
  ℕ, ◌+◌, ◌-◌, ◌*◌, ◌/◌, ◌%◌, ◌<◌, ◌≡◌, ◌≢◌, refl, ap, String-discrete, string_key, Option, none,
  some, List, [], ◌∷◌, Bool, true, false, ◌&&◌, ◌||◌, leb, ltb, if◌then◌else◌, All, arith, Option,
}
use package.text.Mathlib.TextEquality.{eq_iff}
use mokei.Common.Json.{Json, pos, int, text, object, field, end}
use mokei.Common.OrderedMap.{get}
use mokei.Rpc.Message.{member}
use mokei.Headers.Values.{
  Text, Platform, encode_text, decode_header_value, is_canonical, is_base64_digit,
}
use mokei.Headers.Values.RoundTrip.{
  IsPlatform, is_well_formed, without_mark, decode_header_value-encode_text,
}
use mokei.Headers.Params.{
  HeaderAnnotation, annotated_value, is_object, value_at_path, property, header_of,
  build_param_headers, validate_param_headers,
}
use mokei.Headers.Standard.{
  Message, source_in, name_source, string_value, name_value, standard_headers,
  validate_standard_headers,
}
use mokei.Headers.Standard.Agreeing.{validate-standard_headers}
use mokei.Headers.Accepted.{validate-build_param_headers}

wide : Text → List ℕ
wide [] = []
wide (c ∷ t) = c / 256 % 256 ∷ c % 256 ∷ wide t

narrow : List ℕ → Text
narrow (a ∷ b ∷ t) = (a * 256 + b) ∷ narrow t
narrow _ = []

spell : List ℕ → Text
spell [] = []
spell (b ∷ bytes) = 65 ∷ 65 ∷ (65 + b / 16) ∷ (65 + b % 16) ∷ spell bytes

unspell : Text → List ℕ
unspell (a ∷ b ∷ c ∷ d ∷ t) = ((c - 65) * 16 + (d - 65)) ∷ unspell t
unspell _ = []

abbrev platform : Platform
platform = record {
  encode_utf8 = wide;
  decode_utf8 = λ bytes. some (without_mark (narrow bytes));
  btoa = spell;
  atob = λ t. some (unspell t);
}

wide-IsBytes : (t : Text) → All (λ b. b < 256) (wide t)
unfolding wide
wide-IsBytes [] = tt
wide-IsBytes (c ∷ t) = (omega arith, (omega arith, wide-IsBytes t))

join_bytes : (c : ℕ) → c < 65536 → c / 256 % 256 * 256 + c % 256 ≡ c
join_bytes c h = omega arith

narrow-wide : (t : Text) → All (λ c. c < 65536) t → narrow (wide t) ≡ t
unfolding wide narrow
narrow-wide [] h = refl
narrow-wide (c ∷ t) h = cc (join_bytes c h.0, narrow-wide t h.1)

well_formed-IsSmall : (t : Text) → is_well_formed t ≡ true → All (λ c. c < 65536) t
unfolding is_well_formed
well_formed-IsSmall [] h = tt
well_formed-IsSmall (a ∷ []) h = (ground arith, tt)
well_formed-IsSmall (a ∷ b ∷ t) h =
    go (leb 55296 a && ltb a 56320) refl h (well_formed-IsSmall t) (well_formed-IsSmall (b ∷ t))
  where
    go :
        (c : Bool)
        → (leb 55296 a && ltb a 56320) ≡ c
        → (if c
            then leb 56320 b && ltb b 57344 && is_well_formed t
            else (ltb a 55296 || (leb 57344 a && ltb a 65536)) && is_well_formed (b ∷ t))
          ≡ true
        → (is_well_formed t ≡ true → All (λ c. c < 65536) t)
        → (is_well_formed (b ∷ t) ≡ true → All (λ c. c < 65536) (b ∷ t))
        → All (λ c. c < 65536) (a ∷ b ∷ t)
    go true q e two one = (ground arith, (ground arith, two (ground arith)))
    go false q e two one = (ground arith, one (ground arith))

unspell-spell : (bytes : List ℕ) → All (λ b. b < 256) bytes → unspell (spell bytes) ≡ bytes
unfolding spell unspell
unspell-spell [] h = refl
unspell-spell (b ∷ bytes) h =
    let e : (65 + b / 16 - 65) * 16 + (65 + b % 16 - 65) ≡ b = omega arith in
    cc (e, unspell-spell bytes h.1)

is_letter : (n : ℕ) → n < 16 → is_base64_digit (65 + n) ≡ true
unfolding is_base64_digit
is_letter n h = ground arith

spell-IsCanonical : (bytes : List ℕ) → All (λ b. b < 256) bytes → is_canonical (spell bytes) ≡ true
unfolding spell is_canonical is_base64_digit
spell-IsCanonical [] h = refl
spell-IsCanonical (b ∷ []) h =
    ground (arith, is_letter (b / 16) (ground arith), is_letter (b % 16) (omega arith))
spell-IsCanonical (b ∷ c ∷ bytes) h = ground (
  arith,
  is_letter (b / 16) (ground arith),
  is_letter (b % 16) (omega arith),
  spell-IsCanonical (c ∷ bytes) h.1,
)

platform-IsPlatform : IsPlatform platform
platform-IsPlatform = record {
  encodes_bytes = wide-IsBytes;
  decodes_encoded =
      λ t h. ap (λ u. some (without_mark u)) (narrow-wide t (well_formed-IsSmall t h));
  writes_canonical = spell-IsCanonical;
  reads_written = λ bytes h. ap some (unspell-spell bytes h);
}

-- An e with an acute accent.
abbrev accented : Text
accented = 99 ∷ 97 ∷ 102 ∷ 233 ∷ []

decode_header_value-encode_text_example :
    decode_header_value platform (encode_text platform accented) ≡ some (without_mark accented)
unfolding is_well_formed
decode_header_value-encode_text_example =
    decode_header_value-encode_text platform accented platform-IsPlatform refl

abbrev annotations : List HeaderAnnotation
annotations =
    record { header_name = "Region"; path = "region" ∷ [] }
    ∷ record { header_name = "Count"; path = "limits" ∷ "count" ∷ [] }
    ∷ []

abbrev args : Option Json
args = some (
    object
      (field "region" (text "eu") (field "limits" (object (field "count" (int (pos 12)) end)) end)))

other_name : header_of "Count" ≢ header_of "Region"
other_name = ground (arith, eq_iff (header_of "Count") (header_of "Region"))

validate-build_param_headers_example :
    validate_param_headers platform
      (get (build_param_headers platform annotations args []))
      annotations
      args
    ≡ none
unfolding annotated_value is_object value_at_path property member String-discrete is_well_formed
    without_mark
validate-build_param_headers_example =
    validate-build_param_headers platform annotations args
      (get (build_param_headers platform annotations args [])) platform-IsPlatform
      ((other_name, tt), (tt, tt)) ((refl, refl), (tt, tt)) (λ name. refl)

abbrev call : Message
call = record {
  method = some "tools/call";
  has_id = true;
  params = some (object (field "name" (text "search") end));
}

validate-standard_headers_example :
    validate_standard_headers platform
      (get (standard_headers platform (some "2026-07-28") call))
      call
      "2026-07-28"
    ≡ none
unfolding name_source source_in name_value string_value property member String-discrete
    is_well_formed without_mark
validate-standard_headers_example =
    validate-standard_headers platform call "2026-07-28"
      (get (standard_headers platform (some "2026-07-28") call)) platform-IsPlatform (refl, refl)
      (refl, (refl, (refl, tt)))
