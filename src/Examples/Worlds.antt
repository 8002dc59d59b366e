-- ===== src/Examples/Worlds.antt =====
-- A clock that prints unary seconds, a hash that is always zero, and files that hold records as they
-- are: enough of the crates to run the ceremony.
use zbrain.Prelude.Effects.{Write}
use zbrain.Prelude.{
  ℕ, zero, suc, ◌-◌, ◌*◌, ◌/◌, ◌%◌, String, ◌≡◌, refl, false, true, some, List, [], ◌∷◌, ◌==◌, ok,
  arith, ap, eq_iff, inl, inr, Bool-cases,
}
use zbrain.Prelude.Text.{is_blank, trim, trim_start, trim_end, is_whitespace}
use zbrain.Clock.{Chrono, second}
use zbrain.Claims.Digest.{Canon}
use zbrain.Approval.{Challenge}
use zbrain.Approval.Ceremony.{Crates, Call}

unfoldable pub strokes : ℕ → String
strokes zero = "T"
strokes (suc n) = String.◌∷◌ "I" (strokes n)

unfoldable pub count : String → ℕ
count String.[] = 0
count (String.◌∷◌ c s) = elim s [ String.[] ↦ 0 | String.◌∷◌ d t ↦ suc (count s) ]

count-strokes : (n : ℕ) → count (strokes n) ≡ n
unfolding count strokes
count-strokes zero = refl
count-strokes (suc zero) = refl
count-strokes (suc (suc n)) = ap suc (count-strokes (suc n))

not_empty : (c : Prim.Native.Char.Char) (s : String) → (String.◌∷◌ c s == "") ≡ false
not_empty c s = elim (Bool-cases (String.◌∷◌ c s == "")) [
  | inl e ↦ absurd (apart ((eq_iff (String.◌∷◌ c s) "").0 e))
  | inr e ↦ e
]
  where
    apart : String.◌∷◌ c s ≡ "" → ⊥
    apart e = cc

pub strokes_not_blank : (n : ℕ) → is_blank (strokes n) ≡ false
unfolding strokes trim trim_start trim_end is_whitespace
strokes_not_blank zero = refl
strokes_not_blank (suc n) = not_empty "I" (trim_end (strokes n))

pub whole_seconds : (t : ℕ) → some (count (strokes (t / second)) * second) ≡ some (t - t % second)
whole_seconds t = rw (count-strokes (t / second)) (ap some (omega arith))

abbrev pub clock : Chrono
clock = record {
  rfc3339 = λ t. strokes (t / second);
  parse_rfc3339 = λ s. some (count s * second);
  parse-print = λ t. whole_seconds t;
  print_not_blank = λ t. strokes_not_blank (t / second);
}

abbrev pub zero_hash : List ℕ
zero_hash =
    0 ∷ 0 ∷ 0 ∷ 0 ∷ 0 ∷ 0 ∷ 0 ∷ 0 ∷ 0 ∷ 0 ∷ 0 ∷ 0 ∷ 0 ∷ 0 ∷ 0 ∷ 0 ∷ 0 ∷ 0 ∷ 0 ∷ 0 ∷ 0 ∷ 0 ∷ 0 ∷ 0
    ∷ 0 ∷ 0 ∷ 0 ∷ 0 ∷ 0 ∷ 0 ∷ 0 ∷ 0 ∷ []

abbrev pub crates : Crates
crates = record {
  Json = Challenge;
  chrono = clock;
  sha256 = λ text. zero_hash;
  encode = λ c. c;
  decode = some;
  decode-encode = λ c. refl;
  length-sha256 = λ text. refl;
}

abbrev pub canon : Canon
canon = record { sha256 = λ text. zero_hash; render_claim_markdown = λ claim. ok [] }

abbrev pub random_bytes : List ℕ
random_bytes = 7 ∷ 0 ∷ 0 ∷ 0 ∷ 0 ∷ 0 ∷ 0 ∷ 0 ∷ 0 ∷ 0 ∷ 0 ∷ 0 ∷ 0 ∷ 0 ∷ 0 ∷ 255 ∷ []

-- A call some seconds after the start, where the file system answers yes.
abbrev pub call_at : ℕ → Call
call_at seconds = record {
  now = seconds * second;
  random = some random_bytes;
  is_workspace = λ name. true;
  is_safe_file = λ id. true;
  directory_made = true;
  write = Write.published;
}
