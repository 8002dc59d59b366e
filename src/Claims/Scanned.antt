-- ===== src/Claims/Scanned.antt =====
-- claims.rs (crates/zbrain/src): the claims that a scan reports.
use mathlib.Core.Path.{subst}
use zbrain.Prelude.{
  ℕ, suc, ◌≤◌, String, true, false, ◌≡◌, refl, ◌∙◌, ◌⊎◌, inl, inr, Option, none, some, List, [],
  ◌∷◌, ◌++◌, ◌==◌, Result, ok, err, eq_iff, arith, Bool-cases, if_cases, leb, if◌then◌else◌, All,
  >>=-eq-ok, >>-eq-ok, ensure,
}
use zbrain.Prelude.Assoc.{Assoc, get, get-insert}
use zbrain.Prelude.Sort.{sort_by, insert_by}
use zbrain.Prelude.Text.{text_le}
use zbrain.Claims.{Claim, ClaimError}
use zbrain.Claims.Digest.{verify_claim_digest}
use zbrain.Claims.Document.{is_zbrain_claim_document, parse_claim_markdown, tier_of_path}
use zbrain.Claims.Scan.{
  Text, Answers, Files, Scanned, ClaimScan, in_wiki, push_invalid, count_id, push_duplicates,
  is_flagged, has_reason, with_reason, unflagged, scan_parsed, scan_files, end_scan,
  scan_workspace_inner, walk_markdown_files,
}

abbrev Parsed : Type 0
Parsed = Claim × String

All-insert_by :
    (P : Parsed → Type 0) (x : Parsed) (xs : List Parsed)
    → P x
    → All P xs
    → All P (insert_by (λ (p : Parsed). p.1) x xs)
unfolding insert_by
All-insert_by P x [] p all = (p, tt)
All-insert_by P x (y ∷ ys) p (q, all) =
    if_cases (All P) (text_le x.1 y.1) (λ t. (p, (q, all))) (λ t. (q, All-insert_by P x ys p all))

All-sort_by :
    (P : Parsed → Type 0) (xs : List Parsed) → All P xs → All P (sort_by (λ (p : Parsed). p.1) xs)
unfolding sort_by
All-sort_by P [] all = tt
All-sort_by P (x ∷ xs) (p, all) =
    All-insert_by P x (sort_by (λ (p : Parsed). p.1) xs) p (All-sort_by P xs all)

All-append :
    (P : Parsed → Type 0) (xs : List Parsed) (y : Parsed) → All P xs → P y → All P (xs ++ y ∷ [])
All-append P [] y all p = (p, tt)
All-append P (x ∷ xs) y (q, all) p = (q, All-append P xs y all p)

All-map :
    (P Q : Parsed → Type 0) (xs : List Parsed) → ((x : Parsed) → P x → Q x) → All P xs → All Q xs
All-map P Q [] f all = tt
All-map P Q (x ∷ xs) f (p, all) = (f x p, All-map P Q xs f all)

has_reason-with :
    (e : ClaimError) (o : Option (List ClaimError)) → has_reason (some (with_reason e o)) ≡ true
has_reason-with e none = refl
has_reason-with e (some []) = refl
has_reason-with e (some (x ∷ xs)) = refl

-- A path that gets a reason is flagged, and a flagged path stays so.
flagged_pushed :
    (path : String) (e : ClaimError) (invalid : Assoc (List ClaimError))
    → is_flagged (push_invalid path e invalid) path ≡ true
unfolding push_invalid
flagged_pushed path e invalid = ground (
  arith,
  get-insert path path (with_reason e (get invalid path)) invalid,
  eq_iff path path,
  has_reason-with e (get invalid path),
)

flagged_still :
    (path q : String) (e : ClaimError) (invalid : Assoc (List ClaimError))
    → is_flagged invalid q ≡ true
    → is_flagged (push_invalid path e invalid) q ≡ true
unfolding push_invalid
flagged_still path q e invalid f = ground (
  arith,
  get-insert path q (with_reason e (get invalid path)) invalid,
  has_reason-with e (get invalid path),
)

-- The duplicates' reasons keep what is flagged, and flag every file of a duplicated id.
duplicates_still :
    (all_parsed parsed : List Parsed) (invalid : Assoc (List ClaimError)) (q : String)
    → is_flagged invalid q ≡ true
    → is_flagged (push_duplicates all_parsed parsed invalid) q ≡ true
unfolding push_duplicates
duplicates_still all_parsed [] invalid q f = f
duplicates_still all_parsed ((claim, path) ∷ parsed) invalid q f =
    let rest = duplicates_still all_parsed parsed invalid q f in
    if_cases (λ i. is_flagged i q ≡ true) (leb 2 (count_id claim.id all_parsed))
      (λ t. flagged_still path q _ (push_duplicates all_parsed parsed invalid) rest) (λ t. rest)

duplicates_flagged :
    (all_parsed parsed : List Parsed) (invalid : Assoc (List ClaimError)) (id : String)
    → leb 2 (count_id id all_parsed) ≡ true
    → All
        (λ p. p.0.id ≡ id → is_flagged (push_duplicates all_parsed parsed invalid) p.1 ≡ true)
        parsed
unfolding push_duplicates
duplicates_flagged all_parsed [] invalid id many = tt
duplicates_flagged all_parsed ((claim, path) ∷ parsed) invalid id many =
    let others = push_duplicates all_parsed parsed invalid in
    let reason = ClaimError.duplicate_canonical_id claim.id in
    let rest = duplicates_flagged all_parsed parsed invalid id many in
    if_cases
      (λ i. All (λ (p : Parsed). p.0.id ≡ id → is_flagged i p.1 ≡ true) ((claim, path) ∷ parsed))
      (leb 2 (count_id claim.id all_parsed))
      (λ t. (
        λ e. flagged_pushed path reason others,
        All-map _ _ parsed (λ p f e. flagged_still path p.1 reason others (f e)) rest,
      ))
      (λ t. (λ e. cc (t, many, e), rest))

module _ (text : Text) where
  -- The digest of a claim that was parsed fits, or its file is flagged.
  abbrev IsJudged : Assoc (List ClaimError) → Parsed → Type 0
  IsJudged invalid (claim, path) =
      (verify_claim_digest text.canon claim ≡ ok tt) ⊎ (is_flagged invalid path ≡ true)

  abbrev AllJudged : Scanned → Type 0
  AllJudged scanned = All (IsJudged scanned.invalid_by_path) scanned.parsed

  IsJudged-pushed :
      (path : String) (e : ClaimError) (invalid : Assoc (List ClaimError)) (p : Parsed)
      → IsJudged invalid p
      → IsJudged (push_invalid path e invalid) p
  IsJudged-pushed path e invalid (claim, q) (inl v) = inl v
  IsJudged-pushed path e invalid (claim, q) (inr f) = inr (flagged_still path q e invalid f)

  scan_parsed-AllJudged :
      (rel : String) (r : Result ClaimError Claim) (scanned : Scanned)
      → AllJudged scanned
      → AllJudged (scan_parsed text true rel r scanned)
  unfolding scan_parsed
  scan_parsed-AllJudged rel (err e) scanned all =
      All-map _ _ scanned.parsed (IsJudged-pushed rel e scanned.invalid_by_path) all
  scan_parsed-AllJudged rel (ok claim) scanned all =
      judged (verify_claim_digest text.canon claim) refl
    where
      kept : Scanned
      kept = record scanned { parsed = scanned.parsed ++ (claim, rel) ∷ [] }

      judged :
          (r : Result ClaimError (Unit {0}))
          → verify_claim_digest text.canon claim ≡ r
          → AllJudged (elim r [
            | ok u ↦ kept
            | err e ↦
                if true
                then record kept { invalid_by_path = push_invalid rel e scanned.invalid_by_path }
                else kept
          ])
      judged (ok u) v = All-append _ scanned.parsed (claim, rel) all (inl v)
      judged (err e) v =
          All-append _ scanned.parsed (claim, rel)
            (All-map _ _ scanned.parsed (IsJudged-pushed rel e scanned.invalid_by_path) all)
            (inr (flagged_pushed rel e scanned.invalid_by_path))

  scan_files-AllJudged :
      (answers : Answers) (files : Files) (scanned after : Scanned)
      → AllJudged scanned
      → scan_files text answers true files scanned ≡ ok after
      → AllJudged after
  unfolding scan_files
  scan_files-AllJudged answers [] scanned after all h =
      let same : scanned ≡ after = cc h in subst AllJudged same all
  scan_files-AllJudged answers ((rel, contents) ∷ files) scanned after all h =
      let (resolved, h1) =
        >>-eq-ok (ensure (answers.resolves (in_wiki rel)) ClaimError.boundary_refused) _ h in
      let (readable, h2) =
        >>-eq-ok (ensure (answers.is_readable (in_wiki rel)) ClaimError.io_failed) _ h1 in
      scan_files-AllJudged answers files next after one h2
    where
      next : Scanned
      next =
          if is_zbrain_claim_document text.frontmatter contents
          then scan_parsed text true rel
              (parse_claim_markdown text.frontmatter (tier_of_path rel) rel contents) scanned
          else record scanned { legacy = scanned.legacy ++ rel ∷ [] }

      one : AllJudged next
      one =
          if_cases AllJudged (is_zbrain_claim_document text.frontmatter contents)
            (λ d.
              scan_parsed-AllJudged rel
                (parse_claim_markdown text.frontmatter (tier_of_path rel) rel contents) scanned all)
            (λ d. all)

  unflagged-verified :
      (invalid : Assoc (List ClaimError)) (parsed : List Parsed)
      → All (IsJudged invalid) parsed
      → All
          (λ (claim : Claim). verify_claim_digest text.canon claim ≡ ok tt)
          (unflagged invalid parsed)
  unflagged-verified invalid [] all = tt
  unflagged-verified invalid ((claim, path) ∷ parsed) (j, all) =
      if_cases (All (λ (c : Claim). verify_claim_digest text.canon c ≡ ok tt))
        (is_flagged invalid path) (λ f. unflagged-verified invalid parsed all)
        (λ f. (judged j f, unflagged-verified invalid parsed all))
    where
      judged :
          IsJudged invalid (claim, path)
          → is_flagged invalid path ≡ false
          → verify_claim_digest text.canon claim ≡ ok tt
      judged (inl v) f = v
      judged (inr g) f = cc (g, f)

-- How many claims have the id.
abbrev pub claims_with : String → List Claim → ℕ
claims_with id [] = 0
claims_with id (claim ∷ claims) =
    if claim.id == id then suc (claims_with id claims) else claims_with id claims

claims_with-unflagged :
    (invalid : Assoc (List ClaimError)) (parsed : List Parsed) (id : String)
    → claims_with id (unflagged invalid parsed) ≤ count_id id parsed
claims_with-unflagged invalid [] id = omega arith
claims_with-unflagged invalid ((claim, path) ∷ parsed) id =
    ground (arith, claims_with-unflagged invalid parsed id)

claims_with-flagged :
    (invalid : Assoc (List ClaimError)) (parsed : List Parsed) (id : String)
    → All (λ (p : Parsed). p.0.id ≡ id → is_flagged invalid p.1 ≡ true) parsed
    → claims_with id (unflagged invalid parsed) ≡ 0
claims_with-flagged invalid [] id all = refl
claims_with-flagged invalid ((claim, path) ∷ parsed) id (f, all) =
    if_cases (λ cs. claims_with id cs ≡ 0) (is_flagged invalid path)
      (λ t. claims_with-flagged invalid parsed id all)
      (λ t. elim (Bool-cases (claim.id == id)) [
        | inl e ↦ cc (f ((eq_iff claim.id id).0 e), t)
        | inr e ↦ rw e (claims_with-flagged invalid parsed id all)
      ])

count_id-insert_by :
    (id : String) (x : Parsed) (xs : List Parsed)
    → count_id id (insert_by (λ (p : Parsed). p.1) x xs) ≡ count_id id (x ∷ xs)
unfolding insert_by
count_id-insert_by id x [] = refl
count_id-insert_by id x (y ∷ ys) = ground (arith, count_id-insert_by id x ys)

count_id-sort_by :
    (id : String) (xs : List Parsed)
    → count_id id (sort_by (λ (p : Parsed). p.1) xs) ≡ count_id id xs
unfolding sort_by
count_id-sort_by id [] = refl
count_id-sort_by id (x ∷ xs) =
    count_id-insert_by id x (sort_by (λ (p : Parsed). p.1) xs)
    ∙ ground (arith, count_id-sort_by id xs)

-- The claims of a scan have their digests, and none shares its id with another.
pub record IsTrustworthy (text : Text) (scan : ClaimScan) : Type 0 where
  pub verified : All (λ (claim : Claim). verify_claim_digest text.canon claim ≡ ok tt) scan.claims
  pub single : (id : String) → claims_with id scan.claims ≤ 1

module _ (text : Text) where
  end_scan-single :
      (scanned : Scanned) (id : String) → claims_with id (end_scan text scanned).claims ≤ 1
  unfolding end_scan
  end_scan-single scanned id = elim (Bool-cases (leb 2 (count_id id scanned.parsed))) [
    | inl many ↦ omega (
      arith,
      claims_with-flagged invalid sorted id (
          All-sort_by (λ (p : Parsed). p.0.id ≡ id → is_flagged invalid p.1 ≡ true) scanned.parsed
            (duplicates_flagged scanned.parsed scanned.parsed scanned.invalid_by_path id many)),
    )
    | inr few ↦ omega (
      arith,
      claims_with-unflagged invalid sorted id,
      count_id-sort_by id scanned.parsed,
      below few,
    )
  ]
    where
      invalid : Assoc (List ClaimError)
      invalid = push_duplicates scanned.parsed scanned.parsed scanned.invalid_by_path

      sorted : List Parsed
      sorted = sort_by (λ (p : Parsed). p.1) scanned.parsed

      below : leb 2 (count_id id scanned.parsed) ≡ false → count_id id scanned.parsed ≤ 1
      below few = ground arith

  -- In a scan that verifies digests, the digest of every claim that is reported as sound fits, and no
  -- two of them have the same id.
  pub scan-IsTrustworthy :
      (answers : Answers) (files : Files) (scan : ClaimScan)
      → scan_workspace_inner text answers true files ≡ ok scan
      → IsTrustworthy text scan
  unfolding scan_workspace_inner end_scan
  scan-IsTrustworthy answers files scan h =
      let (a, h1) = >>-eq-ok (ensure answers.is_workspace ClaimError.boundary_refused) _ h in
      let (b, h2) = >>-eq-ok (ensure (answers.resolves "wiki") ClaimError.boundary_refused) _ h1 in
      let (c, h3) = >>-eq-ok (ensure answers.has_wiki ClaimError.not_found) _ h2 in
      let (scanned, found, h4) =
        >>=-eq-ok
          (scan_files text answers true (walk_markdown_files files)
            (record { parsed = []; legacy = []; invalid_by_path = [] }))
          _ h3 in
      let same : end_scan text scanned ≡ scan = cc h4 in
      let judged =
        scan_files-AllJudged text answers (walk_markdown_files files)
          (record { parsed = []; legacy = []; invalid_by_path = [] }) scanned tt found in
      let invalid = push_duplicates scanned.parsed scanned.parsed scanned.invalid_by_path in
      subst (IsTrustworthy text) same (record {
        verified = unflagged-verified text invalid (sort_by (λ (p : Parsed). p.1) scanned.parsed) (
            All-sort_by (IsJudged text invalid) scanned.parsed
              (All-map _ _ scanned.parsed (still scanned) judged));
        single = end_scan-single scanned;
      })
    where
      still :
          (scanned : Scanned) (p : Parsed)
          → IsJudged text scanned.invalid_by_path p
          → IsJudged text (push_duplicates scanned.parsed scanned.parsed scanned.invalid_by_path) p
      still scanned (claim, path) (inl v) = inl v
      still scanned (claim, path) (inr f) =
          inr (duplicates_still scanned.parsed scanned.parsed scanned.invalid_by_path path f)
