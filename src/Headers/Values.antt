-- ===== src/Headers/Values.antt =====
-- A header's value: `encodeHeaderValue` of packages/http-client/src/x-mcp-header.ts, and
-- `decodeHeaderValue` of packages/http-server/src/headers.ts. A text is the list of its UTF-16 code
-- units. What the platform encodes and decodes is given.
pub mod RoundTrip
use Prim.Native.Char.{code}
use Prim.Native.String
use Prim.Native.String.{String}
use mokei.Common.{
  ℕ, zero, suc, ◌+◌, ◌-◌, ◌/◌, ◌%◌, ◌<◌, ◌≡◌, Option, none, some, List, [], ◌∷◌, ◌++◌, Bool, true,
  false, not, ◌&&◌, ◌||◌, if◌then◌else◌, ltb, leb, ◌==◌, length, take, drop, All,
}

abbrev pub Text : Type 0
Text = List ℕ

-- `TextEncoder` and a fatal `TextDecoder` for UTF-8, `btoa` and `atob`.
pub record Platform : Type 0 where
  pub encode_utf8 : Text → List ℕ
  pub decode_utf8 : List ℕ → Option Text
  pub btoa : List ℕ → Text
  pub atob : Text → Option (List ℕ)

-- The code units of a code point.
abbrev utf16 : ℕ → Text
utf16 c =
    if ltb c 65536 then c ∷ [] else (55296 + (c - 65536) / 1024) ∷ (56320 + (c - 65536) % 1024) ∷ []

abbrev pub units : String → Text
units String.[] = []
units (String.◌∷◌ c s) = utf16 (code c) ++ units s

unfoldable pub same_text : Text → Text → Bool
same_text [] [] = true
same_text (a ∷ s) (b ∷ t) = a == b && same_text s t
same_text _ _ = false

unfoldable pub starts_with : Text → Text → Bool
starts_with [] t = true
starts_with (a ∷ s) [] = false
starts_with (a ∷ s) (b ∷ t) = a == b && starts_with s t

unfoldable pub ends_with : Text → Text → Bool
unfolding same_text
ends_with s t = leb (length s) (length t) && same_text s (drop (length t - length s) t)

-- `=?base64?` and `?=`
abbrev pub sentinel_prefix : Text
sentinel_prefix = 61 ∷ 63 ∷ 98 ∷ 97 ∷ 115 ∷ 101 ∷ 54 ∷ 52 ∷ 63 ∷ []

abbrev pub sentinel_suffix : Text
sentinel_suffix = 63 ∷ 61 ∷ []

-- White space and line terminators, which `trim` removes.
unfoldable pub is_space : ℕ → Bool
is_space c =
    (leb 9 c && leb c 13)
    || c == 32
    || c == 160
    || c == 5760
    || (leb 8192 c && leb c 8202)
    || c == 8232
    || c == 8233
    || c == 8239
    || c == 8287
    || c == 12288
    || c == 65279

unfoldable pub ends_in_space : Text → Bool
unfolding is_space
ends_in_space [] = false
ends_in_space (c ∷ []) = is_space c
ends_in_space (c ∷ d ∷ t) = ends_in_space (d ∷ t)

-- `value !== value.trim()`
unfoldable pub is_trimmed : Text → Bool
unfolding is_space ends_in_space
is_trimmed [] = true
is_trimmed (c ∷ t) = not (is_space c) && not (ends_in_space (c ∷ t))

-- The loop over the code units: whether one lies outside the printable ASCII characters.
unfoldable pub has_special : Text → Bool
has_special [] = false
has_special (c ∷ t) = ltb c 32 || ltb 126 c || has_special t

-- The characters that `.` does not match.
unfoldable pub has_line_end : Text → Bool
has_line_end [] = false
has_line_end (c ∷ t) = c == 10 || c == 13 || c == 8232 || c == 8233 || has_line_end t

-- `SENTINEL`
unfoldable pub is_sentinel : Text → Bool
unfolding starts_with ends_with has_line_end
is_sentinel t =
    leb 11 (length t)
    && starts_with sentinel_prefix t
    && ends_with sentinel_suffix t
    && not (has_line_end t)

unfoldable pub needs_encoding : Text → Bool
unfolding is_trimmed has_special is_sentinel
needs_encoding t = not (is_trimmed t) || has_special t || is_sentinel t

unfoldable pub is_base64_digit : ℕ → Bool
is_base64_digit c =
    (leb 65 c && leb c 90)
    || (leb 97 c && leb c 122)
    || (leb 48 c && leb c 57)
    || c == 43
    || c == 47

-- `BASE64_CANONICAL`: groups of four digits, of which the last may be padded by one or two `=`.
unfoldable pub is_canonical : Text → Bool
unfolding is_base64_digit
is_canonical [] = true
is_canonical (a ∷ b ∷ c ∷ d ∷ []) =
    is_base64_digit a
    && is_base64_digit b
    && ((is_base64_digit c && is_base64_digit d)
        || (is_base64_digit c && d == 61)
        || (c == 61 && d == 61))
is_canonical (a ∷ b ∷ c ∷ d ∷ e ∷ rest) =
    is_base64_digit a
    && is_base64_digit b
    && is_base64_digit c
    && is_base64_digit d
    && is_canonical (e ∷ rest)
is_canonical _ = false

module _ (platform : Platform) where
  unfoldable pub base64_utf8 : Text → Text
  base64_utf8 t = platform.btoa (platform.encode_utf8 t)

  -- `encodeHeaderValue` of a text.
  unfoldable pub encode_text : Text → Text
  unfolding needs_encoding base64_utf8
  encode_text t =
      if needs_encoding t then sentinel_prefix ++ base64_utf8 t ++ sentinel_suffix else t

  unfoldable pub decode_bytes : Option (List ℕ) → Option Text
  decode_bytes none = none
  decode_bytes (some bytes) = platform.decode_utf8 bytes

  unfoldable pub decode_payload : Text → Option Text
  unfolding is_canonical decode_bytes
  decode_payload payload =
      if is_canonical payload then decode_bytes (platform.atob payload) else none

  unfoldable pub decode_header_value : Text → Option Text
  unfolding starts_with ends_with decode_payload
  decode_header_value t =
      if ltb (length t) 11
        || not (starts_with sentinel_prefix t)
        || not (ends_with sentinel_suffix t)
      then some t
      else decode_payload (take (length t - 11) (drop 9 t))
