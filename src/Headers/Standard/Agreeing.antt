-- ===== src/Headers/Standard/Agreeing.antt =====
-- The standard headers that a client sets for a message are those that the server wants.
use Prim.Native.String.{String}
use mokei.Common.{
  ◌≡◌, refl, ap, ◌∙◌, Option, none, some, List, [], ◌∷◌, Bool, true, false, ◌&&◌, All,
  if◌then◌else◌, string_key, String-discrete, is_some,
}
use mokei.Common.OrderedMap.{get, set}
use mokei.Headers.Values.{Text, Platform, units}
use mokei.Headers.Values.RoundTrip.{
  IsPlatform, is_well_formed, without_mark, same_text_refl, decode_header_value-encode_text,
}
use mokei.Headers.Params.{different}
use mokei.Headers.Standard.{
  Message, name_source, name_value, set_name, set_method, set_version, standard_headers, mismatch,
  check_same, check_name_decoded, check_name, check_source, first_of, check_method,
  validate_standard_headers,
}

-- A name without lone surrogates that does not start with a byte order mark, if there is one.
abbrev pub IsPlainName : Option Text → Type 0
IsPlainName none = Unit {0}
IsPlainName (some t) = (is_well_formed t ≡ true) × (without_mark t ≡ t)

-- The name that a message has for its method.
abbrev pub name_of : Message → Option String → Option Text
name_of m none = none
name_of m (some method) = name_value (name_source method) m.params

-- The headers that the server compares.
abbrev pub compared : List String
compared = "MCP-Protocol-Version" ∷ "Mcp-Method" ∷ "Mcp-Name" ∷ []

check_same-none :
    (header : String) (required : Bool) (t : Text) (o : Option Text)
    → o ≡ some t
    → check_same header required t o ≡ none
unfolding check_same
check_same-none header required t o h =
    ap (check_same header required t) h
    ∙ ap (λ b. if b then none else mismatch header different) (same_text_refl t)

module _ (platform : Platform) (works : IsPlatform platform) where
  check_source-none :
      (source : Option String) (m : Message) (o : Option Text)
      → IsPlainName (name_value source m.params)
      → o ≡ get (set_name platform (name_value source m.params) []) "Mcp-Name"
      → check_source platform source m.params o ≡ none
  unfolding check_source check_name check_name_decoded set_name get set String-discrete name_value
  check_source-none none m o p h = refl
  check_source-none (some field) m o p h = go (name_value (some field) m.params) p h
    where
      go :
          (value : Option Text)
          → IsPlainName value
          → o ≡ get (set_name platform value []) "Mcp-Name"
          → check_name platform value o ≡ none
      go none p h = ap (check_name platform none) h
      go (some t) p h =
          ap (check_name platform (some t)) h
          ∙ ap (check_name_decoded (some t))
              (decode_header_value-encode_text platform t works p.0 ∙ ap some p.1)
          ∙ ap (λ b. if b then none else mismatch "Mcp-Name" different) (same_text_refl t)

  -- What the headers of a message with a method hold.
  method_headers :
      (version method : String) (value : Option Text)
      → let headers =
          set_name platform value
            (set (set_version (some version) []) "Mcp-Method" (units method)) in
        (get headers "MCP-Protocol-Version" ≡ some (units version))
        × (get headers "Mcp-Method" ≡ some (units method))
        × (get headers "Mcp-Name" ≡ get (set_name platform value []) "Mcp-Name")
  unfolding set_name set_version get set String-discrete
  method_headers version method none = (refl, refl, refl)
  method_headers version method (some t) = (refl, refl, refl)

  validate-headers :
      (m : Message) (version : String) (received : String → Option Text) (o : Option String)
      → IsPlainName (name_of m o)
      → All
          (λ (header : String).
            received header ≡ get (set_method platform m o (set_version (some version) [])) header)
          compared
      → first_of
          (check_same "MCP-Protocol-Version"
            (is_some o && m.has_id)
            (units version)
            (received "MCP-Protocol-Version"))
          (check_method platform received m o)
        ≡ none
  unfolding set_method set_version check_method first_of check_same get set String-discrete
  validate-headers m version received none p r =
      check_same-first (received "MCP-Protocol-Version") r.0
    where
      check_same-first :
          (o : Option Text)
          → o ≡ some (units version)
          → first_of (check_same "MCP-Protocol-Version" false (units version) o) none ≡ none
      check_same-first o h =
          ap (λ x. first_of x none)
            (check_same-none "MCP-Protocol-Version" false (units version) o h)
  validate-headers m version received (some method) p (v, (h, (n, t))) =
      ap (λ x. first_of x (check_method platform received m (some method)))
        (check_same-none "MCP-Protocol-Version" (true && m.has_id) (units version)
          (received "MCP-Protocol-Version") (v ∙ set_as.0))
      ∙ ap
          (λ x. first_of x (
            if m.has_id
            then check_source platform (name_source method) m.params (received "Mcp-Name")
            else none))
          (check_same-none "Mcp-Method" m.has_id (units method) (received "Mcp-Method")
            (h ∙ set_as.1))
      ∙ go m.has_id
    where
      set_as :
          let headers =
            set_name platform
              (name_value (name_source method) m.params)
              (set (set_version (some version) []) "Mcp-Method" (units method)) in
          (get headers "MCP-Protocol-Version" ≡ some (units version))
          × (get headers "Mcp-Method" ≡ some (units method))
          × (get headers "Mcp-Name"
              ≡ get (set_name platform (name_value (name_source method) m.params) []) "Mcp-Name")
      set_as = method_headers version method (name_value (name_source method) m.params)

      go :
          (b : Bool)
          → (if b
              then check_source platform (name_source method) m.params (received "Mcp-Name")
              else none)
            ≡ none
      go true = check_source-none (name_source method) m (received "Mcp-Name") p (n ∙ set_as.2)
      go false = refl

-- On a platform that encodes and decodes as documented, when the three headers reach the server as
-- the client sets them for a message, or not at all where it sets none, with the version that the
-- server reads in the message, and when the name that the message has for its method has no lone
-- surrogates and no byte order mark at its start, then the server finds no fault with them.
pub validate-standard_headers :
    (platform : Platform) (m : Message) (version : String) (received : String → Option Text)
    → IsPlatform platform
    → IsPlainName (name_of m m.method)
    → All
        (λ (header : String).
          received header ≡ get (standard_headers platform (some version) m) header)
        compared
    → validate_standard_headers platform received m version ≡ none
unfolding validate_standard_headers standard_headers
validate-standard_headers platform m version received works p r =
    validate-headers platform works m version received m.method p r
