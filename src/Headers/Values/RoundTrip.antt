-- ===== src/Headers/Values/RoundTrip.antt =====
-- What a client encodes, a server decodes.
use mokei.Common.{
  ℕ, ◌+◌, ◌-◌, ◌<◌, ◌≤◌, ◌≡◌, refl, sym, ap, ◌∙◌, none, some, List, [], ◌∷◌, ◌++◌, Bool, true,
  false, not, ◌&&◌, ◌||◌, if◌then◌else◌, ltb, leb, ◌==◌, length, length-append, take, drop, All,
  arith,
}
use mokei.Headers.Values.{
  Text, Platform, same_text, starts_with, ends_with, sentinel_prefix, sentinel_suffix, is_trimmed,
  has_special, has_line_end, is_sentinel, needs_encoding, is_canonical, base64_utf8, encode_text,
  decode_bytes, decode_payload, decode_header_value,
}

-- A text without a surrogate that stands alone.
unfoldable pub is_well_formed : Text → Bool
is_well_formed [] = true
is_well_formed (a ∷ []) = ltb a 55296 || (leb 57344 a && ltb a 65536)
is_well_formed (a ∷ b ∷ t) =
    if leb 55296 a && ltb a 56320
    then leb 56320 b && ltb b 57344 && is_well_formed t
    else (ltb a 55296 || (leb 57344 a && ltb a 65536)) && is_well_formed (b ∷ t)

-- A text without the byte order mark at its start, if it has one.
unfoldable pub without_mark : Text → Text
without_mark [] = []
without_mark (c ∷ t) = if c == 65279 then t else c ∷ t

-- What the functions of the platform are documented to do: a `TextDecoder` leaves out a byte
-- order mark at the start unless it is told not to.
pub record IsPlatform (platform : Platform) : Type 0 where
  pub encodes_bytes : (t : Text) → All (λ b. b < 256) (platform.encode_utf8 t)
  pub decodes_encoded :
      (t : Text)
      → is_well_formed t ≡ true
      → platform.decode_utf8 (platform.encode_utf8 t) ≡ some (without_mark t)
  pub writes_canonical :
      (bytes : List ℕ) → All (λ b. b < 256) bytes → is_canonical (platform.btoa bytes) ≡ true
  pub reads_written :
      (bytes : List ℕ) → All (λ b. b < 256) bytes → platform.atob (platform.btoa bytes) ≡ some bytes

pub same_text_refl : (t : Text) → same_text t t ≡ true
unfolding same_text
same_text_refl [] = refl
same_text_refl (a ∷ t) = ground (arith, same_text_refl t)

drop-length : (xs ys : Text) → drop (length xs) (xs ++ ys) ≡ ys
drop-length [] ys = refl
drop-length (x ∷ xs) ys = drop-length xs ys

take-length : (xs ys : Text) → take (length xs) (xs ++ ys) ≡ xs
take-length [] ys = refl
take-length (x ∷ xs) ys = ap (λ r. x ∷ r) (take-length xs ys)

ends_with-append : (s t : Text) → ends_with s (t ++ s) ≡ true
unfolding ends_with
ends_with-append s t =
    let l = length-append t s in
    let k : length (t ++ s) - length s ≡ length t = omega arith in
    ground (arith, ap (λ n. drop n (t ++ s)) k ∙ drop-length t s, same_text_refl s, l)

-- A text that was wrapped is taken out again.
decode-wrapped :
    (platform : Platform) (payload : Text)
    → decode_header_value platform (sentinel_prefix ++ payload ++ sentinel_suffix)
      ≡ decode_payload platform payload
unfolding decode_header_value starts_with
decode-wrapped platform payload =
    let l : length (sentinel_prefix ++ payload ++ sentinel_suffix) ≡ length payload + 11 =
      omega (arith, length-append payload sentinel_suffix) in
    let e : ends_with sentinel_suffix (sentinel_prefix ++ payload ++ sentinel_suffix) ≡ true =
      ends_with-append sentinel_suffix (sentinel_prefix ++ payload) in
    let k : length (sentinel_prefix ++ payload ++ sentinel_suffix) - 11 ≡ length payload =
      omega arith in
    let p : take (length (sentinel_prefix ++ payload ++ sentinel_suffix) - 11)
          (drop 9 (sentinel_prefix ++ payload ++ sentinel_suffix))
        ≡ payload =
      ap (λ n. take n (payload ++ sentinel_suffix)) k ∙ take-length payload sentinel_suffix in
    let wrapped : (ltb (length whole) 11
          || not (starts_with sentinel_prefix whole)
          || not (ends_with sentinel_suffix whole))
        ≡ false =
      ground (arith, l, e) in
    ap
      (λ b.
        if b then some whole else decode_payload platform (take (length whole - 11) (drop 9 whole)))
      wrapped
    ∙ ap (decode_payload platform) p
  where
    whole : Text
    whole = sentinel_prefix ++ payload ++ sentinel_suffix

no_line_end : (t : Text) → has_special t ≡ false → has_line_end t ≡ false
unfolding has_special has_line_end
no_line_end [] h = refl
no_line_end (c ∷ t) h = ground (arith, no_line_end t)

-- What is sent as it is, is read as it is.
decode-plain :
    (platform : Platform) (t : Text)
    → needs_encoding t ≡ false
    → decode_header_value platform t ≡ some t
unfolding decode_header_value needs_encoding is_sentinel
decode-plain platform t h = ground (arith, no_line_end t)

second_false : (a b c : Bool) → (a || b || c) ≡ false → b ≡ false
second_false true b c h = cc
second_false false true c h = cc
second_false false false c h = refl

first_char_plain : (c : ℕ) (t : Text) → has_special (c ∷ t) ≡ false → c ≤ 126
unfolding has_special
first_char_plain c t h = ground arith

no_mark : (c : ℕ) → c ≤ 126 → (c == 65279) ≡ false
no_mark c h = ground arith

plain-without_mark : (t : Text) → needs_encoding t ≡ false → without_mark t ≡ t
unfolding needs_encoding without_mark
plain-without_mark [] h = refl
plain-without_mark (c ∷ t) h =
    let k =
      first_char_plain c t
        (second_false (not (is_trimmed (c ∷ t))) (has_special (c ∷ t)) (is_sentinel (c ∷ t)) h) in
    ap (λ b. if b then t else c ∷ t) (no_mark c k)

decode_payload-base64_utf8 :
    (platform : Platform) (t : Text)
    → IsPlatform platform
    → is_well_formed t ≡ true
    → decode_payload platform (base64_utf8 platform t) ≡ some (without_mark t)
unfolding decode_payload base64_utf8 decode_bytes
decode_payload-base64_utf8 platform t p w =
    let bytes = platform.encode_utf8 t in
    let small = p.encodes_bytes t in
    ap (λ b. if b then decode_bytes platform (platform.atob (platform.btoa bytes)) else none)
      (p.writes_canonical bytes small)
    ∙ ap (decode_bytes platform) (p.reads_written bytes small)
    ∙ p.decodes_encoded t w

-- On a platform that encodes and decodes as documented, the server decodes the encoded value of any
-- text without lone surrogates to that text, but for a byte order mark at its start, which is lost.
pub decode_header_value-encode_text :
    (platform : Platform) (t : Text)
    → IsPlatform platform
    → is_well_formed t ≡ true
    → decode_header_value platform (encode_text platform t) ≡ some (without_mark t)
unfolding encode_text
decode_header_value-encode_text platform t p w = go (needs_encoding t) refl
  where
    go :
        (b : Bool)
        → needs_encoding t ≡ b
        → decode_header_value platform
            (if b then sentinel_prefix ++ base64_utf8 platform t ++ sentinel_suffix else t)
          ≡ some (without_mark t)
    go false h = decode-plain platform t h ∙ ap some (sym (plain-without_mark t h))
    go true h =
        decode-wrapped platform (base64_utf8 platform t) ∙ decode_payload-base64_utf8 platform t p w
