-- ===== src/Examples/Base64.antt =====
-- The base64 text of two bytes.
use zbrain.Prelude.{◌≡◌, refl, [], ◌∷◌, ok, arith}
use zbrain.Transition.Base64.{
  encode, decode, symbol, triple_of_bytes, position, sextets, triple_of_sextets, joined,
}
use zbrain.Transition.Base64.Laws.{decode-encode_bytes}

decode-encode_bytes_example : decode (encode (77 ∷ 255 ∷ [])) ≡ ok (77 ∷ 255 ∷ [])
decode-encode_bytes_example = decode-encode_bytes (77 ∷ 255 ∷ []) (omega arith, (omega arith, tt))

-- "TWE=" is the text of "Ma".
encodes : encode (77 ∷ 97 ∷ []) ≡ 84 ∷ 87 ∷ 69 ∷ 61 ∷ []
unfolding encode symbol triple_of_bytes
encodes = refl

-- A lone symbol is decoded, though no text of bytes has one.
decodes_lone : decode (65 ∷ []) ≡ ok (0 ∷ [])
unfolding decode sextets position joined triple_of_sextets
decodes_lone = refl
