-- ===== src/Cloudflare/Encoding.antt =====
-- The percent-encoding is read back by a decoder.
use acme_wasm.Prelude.{
  ℕ, ◌+◌, ◌-◌, ◌*◌, ◌/◌, ◌%◌, ◌<◌, ◌≡◌, refl, ap, ◌∙◌, Bool, true, false, [], ◌∷◌, arith, leb, ◌==◌,
  if◌then◌else◌, All, Text,
}
use acme_wasm.Cloudflare.Names.{unreserved, hex_digit, urlencoding_encode}

-- the value of a hexadecimal digit
abbrev pub hex_value : ℕ → ℕ
hex_value d = if leb d b'9' then d - b'0' else d - b'A' + 10

-- A decoder for percent-encoded text.
unfoldable pub percent_decode : Text → Text
percent_decode (c ∷ h ∷ l ∷ s) =
    let after_escape = percent_decode s in
    let after_plain = percent_decode (h ∷ l ∷ s) in
    if c == b'%' then (hex_value h * 16 + hex_value l) ∷ after_escape else c ∷ after_plain
percent_decode (c ∷ d ∷ []) = c ∷ d ∷ []
percent_decode (c ∷ []) = c ∷ []
percent_decode [] = []

hex_value-hex_digit : (d : ℕ) → d < 16 → hex_value (hex_digit d) ≡ d
hex_value-hex_digit d h = ground arith

decode-plain :
    (c : ℕ) (s : Text) → (c == b'%') ≡ false → percent_decode (c ∷ s) ≡ c ∷ percent_decode s
unfolding percent_decode
decode-plain c [] h = refl
decode-plain c (d ∷ []) h = refl
decode-plain c (d ∷ e ∷ s) h = rw h refl

decode-escape :
    (h l : ℕ) (s : Text)
    → percent_decode (b'%' ∷ h ∷ l ∷ s) ≡ (hex_value h * 16 + hex_value l) ∷ percent_decode s
unfolding percent_decode
decode-escape h l s = refl

percent_decode-nil : percent_decode [] ≡ []
unfolding percent_decode
percent_decode-nil = refl

plain_byte : (b : ℕ) → unreserved b ≡ true → (b == b'%') ≡ false
plain_byte b h = ground arith

byte_value :
    (b : ℕ) → b < 256 → hex_value (hex_digit (b / 16)) * 16 + hex_value (hex_digit (b % 16)) ≡ b
byte_value b small =
    rw (hex_value-hex_digit (b / 16) (omega arith), hex_value-hex_digit (b % 16) (omega arith))
      (omega arith)

decode_on :
    (b : ℕ) (s : Text) (plain : Bool)
    → b < 256
    → unreserved b ≡ plain
    → percent_decode (urlencoding_encode s) ≡ s
    → percent_decode (
        if plain
        then b ∷ urlencoding_encode s
        else b'%' ∷ hex_digit (b / 16) ∷ hex_digit (b % 16) ∷ urlencoding_encode s)
      ≡ b ∷ s
decode_on b s true small e rec =
    decode-plain b (urlencoding_encode s) (plain_byte b e) ∙ ap (λ t. b ∷ t) rec
decode_on b s false small e rec =
    decode-escape (hex_digit (b / 16)) (hex_digit (b % 16)) (urlencoding_encode s)
    ∙ ap (λ v. v ∷ percent_decode (urlencoding_encode s)) (byte_value b small)
    ∙ ap (λ t. b ∷ t) rec

-- A text of bytes is read back from its percent-encoding by the decoder.
pub percent_decode-urlencoding_encode :
    (s : Text) → All (λ b. b < 256) s → percent_decode (urlencoding_encode s) ≡ s
unfolding urlencoding_encode
percent_decode-urlencoding_encode [] h = percent_decode-nil
percent_decode-urlencoding_encode (b ∷ s) h =
    decode_on b s (unreserved b) h.0 refl (percent_decode-urlencoding_encode s h.1)
