-- ===== src/Approval/RoundTrip.antt =====
-- approval.rs (crates/zbrain/src): `verify` with the token that a grant released.
use mathlib.Core.Path.{subst}
use Prim.Native.Char.{code}
use zbrain.Prelude.{
  ℕ, ◌+◌, ◌/◌, ◌%◌, ◌-◌, ◌≤◌, ◌<◌, String, true, false, ◌≡◌, ◌↔◌, refl, sym, ap, ◌∙◌, some, List,
  [], ◌∷◌, ok, refuse_if, or_fail, arith, ltb, >>=-eq-ok, >>-eq-ok,
}
use zbrain.Prelude.Text.{bytes}
use zbrain.Prelude.Assoc.{insert}
use zbrain.Clock.{Time, second}
use zbrain.Ids.{is_lower_hex}
use zbrain.Ids.Laws.{utf8-hex_digit, is_lower_hex-hex_digit}
use zbrain.Ids.Generated.{hex_digit, hex_lower, sha256_text}
use zbrain.Approval.{Challenge, ChallengeError}
use zbrain.Approval.RecordLaws.{consumed-granted}
use zbrain.Approval.ConstantTime.{AreBytes, constant_time_eq, constant_time_eq_exact}
use zbrain.Approval.Ceremony.{
  Crates, Call, Files, challenge_path, challenge_token_lifetime, read_challenge, verify,
  validate_token, grant, grant_checks, release, granted_record, expiry_in_time, earlier,
}
use zbrain.Approval.Files.{IsSound, Holds, read_challenge-Holds, Holds-insert_self}
use zbrain.Approval.Written.{checked_write-ok}

digit-IsByte : (n : ℕ) → code (hex_digit n) < 256
unfolding is_lower_hex
digit-IsByte n = ground (arith, is_lower_hex-hex_digit n)

hex_lower-AreBytes : (digest : List ℕ) → AreBytes (bytes (hex_lower digest))
unfolding hex_lower
hex_lower-AreBytes [] = tt
hex_lower-AreBytes (b ∷ bs) =
    rw (utf8-hex_digit (b / 16), utf8-hex_digit (b % 16))
      (digit-IsByte (b / 16), (digit-IsByte (b % 16), hex_lower-AreBytes bs))

sha256_text-AreBytes : (digest : List ℕ) → AreBytes (bytes (sha256_text digest))
unfolding sha256_text
sha256_text-AreBytes digest = (
  byte 115 refl,
  (
    byte 104 refl,
    (
      byte 97 refl,
      (byte 50 refl, (byte 53 refl, (byte 54 refl, (byte 58 refl, hex_lower-AreBytes digest)))),
    ),
  ),
)
  where
    byte : (n : ℕ) → ltb n 256 ≡ true → n < 256
    byte n h = ground arith

module _ (crates : Crates) (workspace : String) where
  -- What a grant returns: the record it read, approved, and the token whose hash it keeps.
  granted-parts :
      (call : Call) (id : String) (files : Files crates) (g : Challenge × String)
      → grant_checks crates workspace call id files ≡ ok g
      → (c : Challenge) × (e : Time) × (random : List ℕ) × (read_challenge crates workspace call id
            files
          ≡ ok c)
        × (c.granted ≡ false)
        × (crates.chrono.parse_rfc3339 c.expires_at ≡ some e)
        × (g ≡ granted_record crates workspace call.now e random c)
  unfolding grant_checks release expiry_in_time
  granted-parts call id files g h =
      let (c, r, h₁) = >>=-eq-ok (read_challenge crates workspace call id files) _ h in
      let (ungranted, h₂) = >>-eq-ok (refuse_if c.granted ChallengeError.already_granted) _ h₁ in
      let (e, parsed, h₃) =
        >>=-eq-ok
          (expiry_in_time crates workspace call.now c.expires_at ChallengeError.expiry_invalid
            ChallengeError.expired)
          _ h₂ in
      let (random, drawn, h₄) =
        >>=-eq-ok (or_fail call.random ChallengeError.random_unavailable) _ h₃ in
      (c, e, random, r, ground arith, ground arith, ground arith)

  read_held :
      (call : Call) (id : String) (files : Files crates) (c : Challenge)
      → Holds crates workspace files id c
      → challenge_path call workspace id ≡ ok tt
      → read_challenge crates workspace call id files ≡ ok c
  unfolding read_challenge
  read_held call id files c held path = rw (path, held.stored, held.decoded, held.valid) refl

  hash-accepted :
      (token : String)
      → constant_time_eq
          (bytes (sha256_text (crates.sha256 (bytes token))))
          (bytes (sha256_text (crates.sha256 (bytes token))))
        ≡ true
  hash-accepted token =
      let are = sha256_text-AreBytes (crates.sha256 (bytes token)) in
      (constant_time_eq_exact _ _ are are).1 refl

  -- The token of a granted record that was not consumed is accepted up to its expiry.
  validate_token_held :
      (now : Time) (c : Challenge) (token : String) (e t : Time)
      → c.granted ≡ true
      → c.consumed ≡ false
      → crates.chrono.parse_rfc3339 c.expires_at ≡ some e
      → crates.chrono.parse_rfc3339 c.token_expires_at ≡ some t
      → t ≤ e
      → c.token_sha256 ≡ sha256_text (crates.sha256 (bytes token))
      → (validate_token crates workspace now c token ≡ ok tt) ↔ (now ≤ t)
  unfolding validate_token expiry_in_time
  validate_token_held now c token e t granted fresh expiry token_expiry le hash =
      rw (granted, fresh, expiry, token_expiry, hash, hash-accepted token)
        (λ h. ground arith, λ h. ground arith)

  verify_held :
      (call : Call) (id : String) (files : Files crates) (c : Challenge) (token : String)
      → Holds crates workspace files id c
      → challenge_path call workspace id ≡ ok tt
      → (verify crates workspace call id token files ≡ ok c)
        ↔ (validate_token crates workspace call.now c token ≡ ok tt)
  unfolding verify
  verify_held call id files c token held path =
      rw (read_held call id files c held path) (λ h. ground arith, λ h. ground arith)

  earlier-bounds :
      (a b : Time) → (earlier crates workspace a b ≤ a) × (earlier crates workspace a b ≤ b)
  earlier-bounds a b = (ground arith, ground arith)

  -- The whole second that the token's expiry is printed with.
  abbrev token_deadline : Time → Time → Time
  token_deadline now e =
      let t = earlier crates workspace (now + challenge_token_lifetime) e in t - t % second

  token_deadline-bounds :
      (now e : Time)
      → (token_deadline now e ≤ now + challenge_token_lifetime) × (token_deadline now e ≤ e)
  token_deadline-bounds now e =
      let (a, b) = earlier-bounds (now + challenge_token_lifetime) e in (cut _ _ a, cut _ _ b)
    where
      cut : (t b : Time) → t ≤ b → t - t % second ≤ b
      cut t b h = omega arith

  granted_record-id :
      (now e : Time) (random : List ℕ) (c : Challenge)
      → (granted_record crates workspace now e random c).0.id ≡ c.id
  unfolding granted_record
  granted_record-id now e random c = refl

  granted_record-deadline :
      (now e : Time) (random : List ℕ) (c : Challenge)
      → crates.chrono.parse_rfc3339
          (granted_record crates workspace now e random c).0.token_expires_at
        ≡ some (token_deadline now e)
  unfolding granted_record
  granted_record-deadline now e random c = crates.chrono.parse-print _

  granted_record-accepted :
      (now : Time) (id : String) (files : Files crates) (c : Challenge) (e : Time) (random : List ℕ)
      (later : Call)
      → c.consumed ≡ false
      → crates.chrono.parse_rfc3339 c.expires_at ≡ some e
      → Holds crates workspace files id (granted_record crates workspace now e random c).0
      → challenge_path later workspace id ≡ ok tt
      → (verify crates workspace later id (granted_record crates workspace now e random c).1 files
          ≡ ok (granted_record crates workspace now e random c).0)
        ↔ (later.now ≤ token_deadline now e)
  unfolding granted_record
  granted_record-accepted now id files c e random later fresh expiry held path =
      let deadline = token_deadline now e in
      let record_of = (granted_record crates workspace now e random c).0 in
      let v = verify_held later id files record_of (hex_lower random) held path in
      let w =
        validate_token_held later.now record_of (hex_lower random) e deadline refl fresh expiry
          (granted_record-deadline now e random c) (token_deadline-bounds now e).1 refl in
      (λ h. w.0 (v.0 h), λ h. v.1 (w.1 h))

  -- Let a grant of a challenge in sound files succeed. Then its token has a deadline, at most the token
  -- lifetime after the grant, and `verify` of the challenge with that token, where the path is safe,
  -- returns the granted record exactly at the times up to the deadline.
  pub grant-verify :
      (call : Call) (id : String) (files : Files crates) (g : Challenge × String) (later : Call)
      → IsSound crates workspace files
      → (grant crates workspace call id files).1 ≡ ok g
      → challenge_path later workspace id ≡ ok tt
      → (deadline : Time) × (crates.chrono.parse_rfc3339 g.0.token_expires_at ≡ some deadline)
        × (deadline ≤ call.now + challenge_token_lifetime)
        × ((verify crates workspace later id g.1 (grant crates workspace call id files).0 ≡ ok g.0)
            ↔ (later.now ≤ deadline))
  unfolding grant
  grant-verify call id files g later s h path =
      let (b, checked, same, valid, put) =
        checked_write-ok crates workspace call files _ (λ x. x.0) (λ x. x) h in
      let (c, e, random, r, ungranted, parsed, made) = granted-parts call id files b checked in
      let deadline = token_deadline call.now e in
      let held = read_challenge-Holds crates workspace call id files s r in
      let fresh : c.consumed ≡ false =
        ground (arith, consumed-granted crates.chrono crates.sha256 workspace c held.valid) in
      let stored : Holds crates workspace (grant crates workspace call id files).0 id b.0 = rw put (
        subst (λ x. Holds crates workspace (insert b.0.id (crates.encode b.0) files) x b.0)
          (ap (λ (x : Challenge × String). x.0.id) made
            ∙ granted_record-id call.now e random c
            ∙ held.placed)
          (Holds-insert_self crates workspace files b.0 valid)) in
      subst
        (λ (x : Challenge × String).
          (d : Time) × (crates.chrono.parse_rfc3339 x.0.token_expires_at ≡ some d)
          × (d ≤ call.now + challenge_token_lifetime)
          × ((verify crates workspace later id x.1 (grant crates workspace call id files).0
                ≡ ok x.0)
              ↔ (later.now ≤ d)))
        (sym made ∙ same)
        (
          deadline,
          granted_record-deadline call.now e random c,
          (token_deadline-bounds call.now e).0,
          granted_record-accepted call.now id (grant crates workspace call id files).0 c e random
              later fresh parsed
              (subst
                (λ (x : Challenge × String).
                  Holds crates workspace (grant crates workspace call id files).0 id x.0)
                made stored)
              path,
        )
