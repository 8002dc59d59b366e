-- ===== src/Transition/Base64.antt =====
-- transition.rs (crates/zbrain/src): the base64 text of the bytes of a target. A text is its bytes, and
-- the disjoint bits that `|` joins are added.
pub mod Laws
use zbrain.Prelude.{
  ℕ, zero, suc, ◌+◌, ◌*◌, ◌/◌, ◌%◌, Bool, not, ◌||◌, Option, none, some, List, [], ◌∷◌, ◌++◌,
  Result, ok, err, ◌>>=◌, or_fail, if◌then◌else◌, eqb, ltb, all, length, get_elem?,
}
use zbrain.Prelude.Text.{bytes}

pub data Base64Error : Type 0 where
  unexpected_padding : Base64Error
  illegal_byte : ℕ → Base64Error

abbrev pub alphabet : List ℕ
alphabet = bytes "ABCDEFGHIJKLMNOPQRSTUVWXYZabcdefghijklmnopqrstuvwxyz0123456789+/"

abbrev pub padding : ℕ
padding = b'='

-- `ALPHABET[n & 0x3f]`; the alphabet has 64 bytes.
unfoldable pub symbol : ℕ → ℕ
symbol n = elim (get_elem? alphabet (n % 64)) [ none ↦ 0 | some b ↦ b ]

unfoldable pub triple_of_bytes : ℕ → ℕ → ℕ → ℕ
triple_of_bytes b0 b1 b2 = b0 * 65536 + b1 * 256 + b2

-- The loop over `chunks(3)`; what a chunk lacks is 0.
unfoldable pub encode : List ℕ → List ℕ
encode [] = []
encode (b0 ∷ []) =
    let triple = triple_of_bytes b0 0 0 in
    symbol (triple / 262144) ∷ symbol (triple / 4096) ∷ padding ∷ padding ∷ []
encode (b0 ∷ b1 ∷ []) =
    let triple = triple_of_bytes b0 b1 0 in
    symbol (triple / 262144) ∷ symbol (triple / 4096) ∷ symbol (triple / 64) ∷ padding ∷ []
encode (b0 ∷ b1 ∷ b2 ∷ rest) =
    let triple = triple_of_bytes b0 b1 b2 in
    symbol (triple / 262144)
    ∷ symbol (triple / 4096)
    ∷ symbol (triple / 64)
    ∷ symbol triple
    ∷ encode rest

-- `iter().position(..)` from an index
unfoldable pub position : ℕ → ℕ → List ℕ → Option ℕ
position ch index [] = none
position ch index (b ∷ bs) = if eqb b ch then some index else position ch (suc index) bs

-- The loop over the bytes; it breaks at the padding.
unfoldable pub sextets : ℕ → List ℕ → Result Base64Error (List ℕ)
sextets index [] = ok []
sextets index (ch ∷ rest) =
    let others = (do
      value ← or_fail (position ch 0 alphabet) (Base64Error.illegal_byte index)
      values ← sextets (suc index) rest
      ok (value ∷ values)) in
    if eqb ch padding
    then (if ltb 2 (length (ch ∷ rest)) || not (all (λ b. eqb b padding) (ch ∷ rest))
        then err Base64Error.unexpected_padding
        else ok [])
    else others

unfoldable pub triple_of_sextets : ℕ → ℕ → ℕ → ℕ → ℕ
triple_of_sextets v0 v1 v2 v3 = v0 * 262144 + v1 * 4096 + v2 * 64 + v3

-- The loop over `chunks(4)`.
unfoldable pub joined : List ℕ → List ℕ
joined [] = []
joined (v0 ∷ []) = triple_of_sextets v0 0 0 0 / 65536 % 256 ∷ []
joined (v0 ∷ v1 ∷ []) = triple_of_sextets v0 v1 0 0 / 65536 % 256 ∷ []
joined (v0 ∷ v1 ∷ v2 ∷ []) =
    let triple = triple_of_sextets v0 v1 v2 0 in triple / 65536 % 256 ∷ triple / 256 % 256 ∷ []
joined (v0 ∷ v1 ∷ v2 ∷ v3 ∷ rest) =
    let triple = triple_of_sextets v0 v1 v2 v3 in
    triple / 65536 % 256 ∷ triple / 256 % 256 ∷ triple % 256 ∷ joined rest

unfoldable pub decode : List ℕ → Result Base64Error (List ℕ)
decode input = do values ← sextets 0 input; ok (joined values)
