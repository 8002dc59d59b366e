-- ===== src/Claims/Contradictions/Exact/Keys.antt =====
-- claims.rs (crates/zbrain/src): the texts that mark a claim and a heuristic as seen.
use Prim.Native.Char.{Char, code}
use zbrain.Prelude.{ℕ, suc, ◌+◌, String, ◌≡◌, refl, ap, sym, ◌∙◌, ◌⊎◌, inl, inr, arith}
use zbrain.Ids.Generated.{concat}
use zbrain.Claims.Contradictions.{
  seen_key, contradiction_status_change, contradiction_negation, contradiction_value_swap,
}

abbrev pub IsHeuristic : String → Type 0
IsHeuristic h =
    (h ≡ contradiction_status_change)
    ⊎ ((h ≡ contradiction_negation) ⊎ (h ≡ contradiction_value_swap))

-- How many characters a text has, and the last of them.
abbrev chars : String → ℕ
chars String.[] = 0
chars (String.◌∷◌ c s) = suc (chars s)

abbrev last_code : ℕ → String → ℕ
last_code n String.[] = n
last_code n (String.◌∷◌ c s) = last_code (code c) s

chars-concat : (s t : String) → chars (concat s t) ≡ chars s + chars t
chars-concat String.[] t = omega arith
chars-concat (String.◌∷◌ c s) t = omega (arith, chars-concat s t)

last_code-concat :
    (n : ℕ) (s : String) (c : Char) (t : String)
    → last_code n (concat s (String.◌∷◌ c t)) ≡ last_code (code c) t
last_code-concat n String.[] c t = refl
last_code-concat n (String.◌∷◌ d s) c t = last_code-concat (code d) s c t

concat-cancel : (a b s : String) → chars a ≡ chars b → concat a s ≡ concat b s → a ≡ b
concat-cancel String.[] String.[] s n e = refl
concat-cancel String.[] (String.◌∷◌ d b) s n e = absurd (omega arith)
concat-cancel (String.◌∷◌ c a) String.[] s n e = absurd (omega arith)
concat-cancel (String.◌∷◌ c a) (String.◌∷◌ d b) s n e =
    let head : c ≡ d = cc e in
    let tail : concat a s ≡ concat b s = cc e in
    cc (head, concat-cancel a b s (omega (arith, n)) tail)

-- Where the last letters of two heuristics agree, they are the same.
same_last :
    (g h : String) → IsHeuristic g → IsHeuristic h → last_code b'/' g ≡ last_code b'/' h → g ≡ h
same_last g h (inl e) (inl f) l = e ∙ sym f
same_last g h (inl e) (inr (inl f)) l =
    absurd (omega (arith, l, ap (last_code b'/') e, ap (last_code b'/') f))
same_last g h (inl e) (inr (inr f)) l =
    absurd (omega (arith, l, ap (last_code b'/') e, ap (last_code b'/') f))
same_last g h (inr (inl e)) (inl f) l =
    absurd (omega (arith, l, ap (last_code b'/') e, ap (last_code b'/') f))
same_last g h (inr (inl e)) (inr (inl f)) l = e ∙ sym f
same_last g h (inr (inl e)) (inr (inr f)) l =
    absurd (omega (arith, l, ap (last_code b'/') e, ap (last_code b'/') f))
same_last g h (inr (inr e)) (inl f) l =
    absurd (omega (arith, l, ap (last_code b'/') e, ap (last_code b'/') f))
same_last g h (inr (inr e)) (inr (inl f)) l =
    absurd (omega (arith, l, ap (last_code b'/') e, ap (last_code b'/') f))
same_last g h (inr (inr e)) (inr (inr f)) l = e ∙ sym f

last_code-key : (id h : String) → last_code 0 (seen_key id h) ≡ last_code b'/' h
last_code-key id h = last_code-concat 0 id "/" h

-- Equal marks are of one claim and one heuristic.
pub seen_key-injective :
    (id1 id2 g h : String)
    → IsHeuristic g
    → IsHeuristic h
    → seen_key id1 g ≡ seen_key id2 h
    → (id1 ≡ id2) × (g ≡ h)
seen_key-injective id1 id2 g h kg kh e =
    let same : g ≡ h =
      same_last g h kg kh (sym (last_code-key id1 g) ∙ ap (last_code 0) e ∙ last_code-key id2 h) in
    let key : concat id1 (concat "/" h) ≡ concat id2 (concat "/" h) = cc (e, same) in
    let counts : chars id1 ≡ chars id2 =
      omega
        (arith, chars-concat id1 (concat "/" h), chars-concat id2 (concat "/" h), ap chars key) in
    (concat-cancel id1 id2 (concat "/" h) counts key, same)
