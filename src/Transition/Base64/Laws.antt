-- ===== src/Transition/Base64/Laws.antt =====
-- transition.rs (crates/zbrain/src): the base64 text of bytes, decoded again.
use mathlib.Core.Path.{subst}
use zbrain.Approval.ConstantTime.{AreBytes}
use zbrain.Prelude.{
  get_elem?, Bool-cases, inl, inr, ℕ, zero, suc, ◌/◌, ◌%◌, ◌<◌, true, ◌≡◌, refl, ap, ◌∙◌, some,
  none, List, [], ◌∷◌, ok, ◌&&◌, Bool, eqb, arith, and-parts, false, not,
}
use zbrain.Transition.Base64.{
  alphabet, padding, symbol, triple_of_bytes, encode, position, sextets, triple_of_sextets, joined,
  decode,
}

-- A number below 64 is told back from its symbol, which is no padding.
is_told : ℕ → Bool
is_told n = elim (position (symbol n) 0 alphabet) [
  | none ↦ false
  | some v ↦ eqb v n && not (eqb (symbol n) padding)
]

all_below : (ℕ → Bool) → ℕ → Bool
all_below p zero = true
all_below p (suc n) = p n && all_below p n

all_below-elim : (p : ℕ → Bool) (n i : ℕ) → all_below p n ≡ true → i < n → p i ≡ true
unfolding all_below
all_below-elim p zero i h b = ground arith
all_below-elim p (suc n) i h b =
    let (here, below) = and-parts (p n) (all_below p n) h in
    elim (Bool-cases (eqb i n)) [
      | inl e ↦ ap p (same e) ∙ here
      | inr e ↦ all_below-elim p n i below (apart e)
    ]
  where
    same : eqb i n ≡ true → i ≡ n
    same e = ground arith

    apart : eqb i n ≡ false → i < n
    apart e = ground arith

every_symbol_told : all_below is_told 64 ≡ true
unfolding all_below is_told position symbol
every_symbol_told = refl

is_told-parts :
    (n : ℕ)
    → is_told n ≡ true
    → (position (symbol n) 0 alphabet ≡ some n) × (eqb (symbol n) padding ≡ false)
unfolding is_told
is_told-parts n h = ground arith

symbol-mod : (t : ℕ) → symbol (t % 64) ≡ symbol t
unfolding symbol
symbol-mod t =
    ap (λ n. elim (get_elem? alphabet n) [ none ↦ 0 | some b ↦ b ]) {x = t % 64 % 64} {y = t % 64}
      (omega arith)

symbol-told :
    (t : ℕ) → (position (symbol t) 0 alphabet ≡ some (t % 64)) × (eqb (symbol t) padding ≡ false)
symbol-told t =
    subst (λ b. (position b 0 alphabet ≡ some (t % 64)) × (eqb b padding ≡ false)) (symbol-mod t)
      (is_told-parts (t % 64) (all_below-elim is_told 64 (t % 64) every_symbol_told (omega arith)))

-- A symbol is read as the six bits that it stands for.
sextets-symbol :
    (index t : ℕ) (rest values : List ℕ)
    → sextets (suc index) rest ≡ ok values
    → sextets index (symbol t ∷ rest) ≡ ok (t % 64 ∷ values)
unfolding sextets
sextets-symbol index t rest values h =
    let (found, unpadded) = symbol-told t in rw (unpadded, found, h) refl

-- The six bits of each symbol of the text.
sextets_of : List ℕ → List ℕ
sextets_of [] = []
sextets_of (b0 ∷ []) = let t = triple_of_bytes b0 0 0 in t / 262144 % 64 ∷ t / 4096 % 64 ∷ []
sextets_of (b0 ∷ b1 ∷ []) =
    let t = triple_of_bytes b0 b1 0 in t / 262144 % 64 ∷ t / 4096 % 64 ∷ t / 64 % 64 ∷ []
sextets_of (b0 ∷ b1 ∷ b2 ∷ rest) =
    let t = triple_of_bytes b0 b1 b2 in
    t / 262144 % 64 ∷ t / 4096 % 64 ∷ t / 64 % 64 ∷ t % 64 ∷ sextets_of rest

sextets-none : (index : ℕ) → sextets index [] ≡ ok []
unfolding sextets
sextets-none index = refl

sextets-one : (index : ℕ) → sextets index (padding ∷ []) ≡ ok []
unfolding sextets
sextets-one index = refl

sextets-two : (index : ℕ) → sextets index (padding ∷ padding ∷ []) ≡ ok []
unfolding sextets
sextets-two index = refl

sextets-encode : (index : ℕ) (bs : List ℕ) → sextets index (encode bs) ≡ ok (sextets_of bs)
unfolding encode sextets_of
sextets-encode index [] = sextets-none index
sextets-encode index (b0 ∷ []) =
    let t = triple_of_bytes b0 0 0 in
    sextets-symbol index (t / 262144) _ _
      (sextets-symbol (suc index) (t / 4096) _ _ (sextets-two _))
sextets-encode index (b0 ∷ b1 ∷ []) =
    let t = triple_of_bytes b0 b1 0 in
    sextets-symbol index (t / 262144) _ _
      (sextets-symbol (suc index) (t / 4096) _ _ (sextets-symbol _ (t / 64) _ _ (sextets-one _)))
sextets-encode index (b0 ∷ b1 ∷ b2 ∷ rest) =
    let t = triple_of_bytes b0 b1 b2 in
    sextets-symbol index (t / 262144) _ _ (
      sextets-symbol (suc index) (t / 4096) _ _
        (sextets-symbol _ (t / 64) _ _ (sextets-symbol _ t _ _ (sextets-encode _ rest))))

-- The four times six bits of 24 bits.
regrouped :
    (t : ℕ)
    → t < 16777216
    → triple_of_sextets (t / 262144 % 64) (t / 4096 % 64) (t / 64 % 64) (t % 64) ≡ t
unfolding triple_of_sextets
regrouped t h = omega arith

bytes_of_triple :
    (b0 b1 b2 : ℕ)
    → b0 < 256
    → b1 < 256
    → b2 < 256
    → (triple_of_bytes b0 b1 b2 < 16777216)
      × (triple_of_bytes b0 b1 b2 / 65536 % 256 ≡ b0)
      × (triple_of_bytes b0 b1 b2 / 256 % 256 ≡ b1)
      × (triple_of_bytes b0 b1 b2 % 256 ≡ b2)
unfolding triple_of_bytes
bytes_of_triple b0 b1 b2 h0 h1 h2 = (omega arith, omega arith, omega arith, omega arith)

sextets_of_two : (b0 b1 : ℕ) → triple_of_bytes b0 b1 0 % 64 ≡ 0
unfolding triple_of_bytes
sextets_of_two b0 b1 = omega arith

single :
    (b : ℕ)
    → b < 256
    → triple_of_sextets
          (triple_of_bytes b 0 0 / 262144 % 64)
          (triple_of_bytes b 0 0 / 4096 % 64)
          0
          0
        / 65536
        % 256
      ≡ b
unfolding triple_of_bytes triple_of_sextets
single b h = omega arith

joined-sextets_of : (bs : List ℕ) → AreBytes bs → joined (sextets_of bs) ≡ bs
unfolding joined sextets_of
joined-sextets_of [] h = refl
joined-sextets_of (b0 ∷ []) (h0, h) = ap (λ x. x ∷ []) (single b0 h0)
joined-sextets_of (b0 ∷ b1 ∷ []) (h0, (h1, h)) =
    let (small, e0, e1, e2) = bytes_of_triple b0 b1 0 h0 h1 (omega arith) in
    let whole = regrouped (triple_of_bytes b0 b1 0) small in
    cc (whole, sextets_of_two b0 b1, e0, e1)
joined-sextets_of (b0 ∷ b1 ∷ b2 ∷ rest) (h0, (h1, (h2, h))) =
    let (small, e0, e1, e2) = bytes_of_triple b0 b1 b2 h0 h1 h2 in
    let whole = regrouped (triple_of_bytes b0 b1 b2) small in
    cc (whole, e0, e1, e2, joined-sextets_of rest h)

-- The base64 text of any bytes decodes to the bytes.
pub decode-encode_bytes : (bs : List ℕ) → AreBytes bs → decode (encode bs) ≡ ok bs
unfolding decode
decode-encode_bytes bs h = rw (sextets-encode 0 bs, joined-sextets_of bs h) refl
