-- ===== src/Trust/Trusted.antt =====
-- What the validator of trust.rs (crates/zbrain/src) is to decide: a claim is trusted when it and
-- its whole closure of supporting claims pass the checks.
use zbrain.Prelude.{arith, String, ◌≡◌, true, Option, some, List, ok}
use zbrain.Prelude.Sets.{contains, distinct}
use zbrain.Ids.{is_claim_id}
use zbrain.Claims.{Claim}
use zbrain.Claims.Digest.{Canon, verify_claim_digest}
use zbrain.Trust.Visit.{Rule}

-- The claim under each id.
abbrev pub Find : Type 0
Find = String → Option Claim

-- The ids are safe and none stands twice.
pub record AreSound (ids : List String) : Type 0 where
  pub safe : (s : String) → contains ids s ≡ true → is_claim_id s ≡ true
  pub single : distinct ids ≡ true

pub record PassesChecks (canon : Canon) (validate : Rule) (c : Claim) : Type 0 where
  pub approved : c.status ≡ "approved"
  pub digest : verify_claim_digest canon c ≡ ok tt
  pub rule : validate c ≡ ok tt
  pub supports : AreSound c.supporting_claim_ids

pub data Trusted (canon : Canon) (validate : Rule) (find : Find) : String → Type 0 where
  trusted :
      {id : String} (c : Claim)
      → find id ≡ some c
      → PassesChecks canon validate c
      → ((s : String) → contains c.supporting_claim_ids s ≡ true → Trusted canon validate find s)
      → Trusted canon validate find id

-- From the id at the end, an id is a support of it or of one of its supports, and so on.
pub data Reaches (find : Find) (b : String) : String → Type 0 where
  direct :
      {a : String} (c : Claim)
      → find a ≡ some c
      → contains c.supporting_claim_ids b ≡ true
      → Reaches find b a
  through :
      {a : String} (c : Claim) (s : String)
      → find a ≡ some c
      → contains c.supporting_claim_ids s ≡ true
      → Reaches find b s
      → Reaches find b a

supports_of_same :
    (o : Option Claim) (s : String) (c d : Claim)
    → o ≡ some c
    → o ≡ some d
    → contains c.supporting_claim_ids s ≡ true
    → contains d.supporting_claim_ids s ≡ true
supports_of_same o s c d e e' m = ground arith

module _ {find : Find} where
  pub Reaches-trans : {b c a : String} → Reaches find b a → Reaches find c b → Reaches find c a
  Reaches-trans (Reaches.direct x e m) r = Reaches.through x _ e m r
  Reaches-trans (Reaches.through x s e m q) r = Reaches.through x s e m (Reaches-trans q r)

module _ {canon : Canon} {validate : Rule} {find : Find} where
  pub support_of_Trusted :
      {a : String} (c : Claim) (s : String)
      → find a ≡ some c
      → contains c.supporting_claim_ids s ≡ true
      → Trusted canon validate find a
      → Trusted canon validate find s
  support_of_Trusted c s e m (Trusted.trusted {id = a} d e' p below) =
      below s (supports_of_same (find a) s c d e e' m)

  pub reached_is_Trusted :
      {b a : String}
      → Reaches find b a
      → Trusted canon validate find a
      → Trusted canon validate find b
  reached_is_Trusted (Reaches.direct c e m) t = support_of_Trusted c _ e m t
  reached_is_Trusted (Reaches.through c s e m r) t =
      reached_is_Trusted r (support_of_Trusted c s e m t)

  -- A claim that reaches itself has a support on the way that reaches itself, and a derivation of
  -- trust would go down for ever.
  pub Trusted-acyclic : {a : String} → Trusted canon validate find a → Reaches find a a → ⊥
  Trusted-acyclic (Trusted.trusted {id = a} d e' p below) (Reaches.direct c e m) =
      Trusted-acyclic (below a (supports_of_same (find a) a c d e e' m)) (Reaches.direct c e m)
  Trusted-acyclic (Trusted.trusted {id = a} d e' p below) (Reaches.through c s e m r) =
      Trusted-acyclic (below s (supports_of_same (find a) s c d e e' m))
        (Reaches-trans r (Reaches.direct c e m))
