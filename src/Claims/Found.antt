-- ===== src/Claims/Found.antt =====
-- claims.rs (crates/zbrain/src): the ids under which claims are read are as few as the files.
use zbrain.Prelude.{
  ℕ, suc, ◌+◌, ◌≤◌, String, eqb, Bool, true, false, ◌≡◌, refl, ap, sym, ◌∙◌, Option, none, some,
  List, [], ◌∷◌, ◌==◌, Result, ok, err, All, arith, eq_iff, inl, inr, Bool-cases, if_cases, length,
  if◌then◌else◌, >>=-eq-ok, >>-eq-ok, ensure,
}
use Prim.Native.Char.{code}
use zbrain.Prelude.Assoc.{get}
use zbrain.Prelude.Sets.{contains}
use zbrain.Prelude.Sort.{sort_by}
use zbrain.Prelude.Text.{strip_suffix}
use zbrain.Ids.{is_claim_id}
use zbrain.Ids.Generated.{concat}
use zbrain.Claims.{Claim, ClaimError}
use zbrain.Claims.Document.{is_zbrain_claim_document, parse_claim_markdown, tier_of_path}
use zbrain.Claims.Scan.{Text, Answers, Files, in_wiki, walk_markdown_files, wiki_tiers}
use zbrain.Claims.Walked.{walk_markdown_files_le}
use zbrain.Claims.Store.{
  read_flat_file, read_flat_files, read_walked_files, read_canonical_claims_by_id, only_match, read,
}

size : String → ℕ
size String.[] = 0
size (String.◌∷◌ c s) = suc (size s)

size-concat : (s t : String) → size (concat s t) ≡ size s + size t
unfolding size
size-concat String.[] t = omega arith
size-concat (String.◌∷◌ c s) t = omega (arith, size-concat s t)

longer : (c : Prim.Native.Char.Char) (s : String) → (String.◌∷◌ c (concat s ".md") == ".md") ≡ false
unfolding size
longer c s = elim (Bool-cases (String.◌∷◌ c (concat s ".md") == ".md")) [
  | inl e ↦ absurd (apart ((eq_iff (String.◌∷◌ c (concat s ".md")) ".md").0 e))
  | inr e ↦ e
]
  where
    apart : String.◌∷◌ c (concat s ".md") ≡ ".md" → ⊥
    apart e = omega (arith, ap size e, size-concat s ".md")

strip_suffix-concat : (s : String) → strip_suffix ".md" (concat s ".md") ≡ some s
unfolding strip_suffix
strip_suffix-concat String.[] = refl
strip_suffix-concat (String.◌∷◌ c s) = rw (longer c s, strip_suffix-concat s) refl

-- The text after the first slash.
after_slash : String → String
after_slash String.[] = ""
after_slash (String.◌∷◌ c s) = if eqb (code c) b'/' then s else after_slash s

or_none : Option String → String
or_none none = ""
or_none (some s) = s

stem : String → String
stem path = or_none (strip_suffix ".md" (after_slash (after_slash path)))

flat_ids : Files → List String
flat_ids [] = []
flat_ids ((path, contents) ∷ files) = stem path ∷ flat_ids files

length-flat_ids : (files : Files) → length (flat_ids files) ≡ length files
unfolding flat_ids
length-flat_ids [] = refl
length-flat_ids (file ∷ files) = ap suc (length-flat_ids files)

get-flat_ids :
    (files : Files) (path : String) (contents : List ℕ)
    → get files path ≡ some contents
    → contains (flat_ids files) (stem path) ≡ true
unfolding flat_ids get
get-flat_ids [] path contents h = cc h
get-flat_ids ((first, b) ∷ files) path contents h = elim (Bool-cases (first == path)) [
  | inl e ↦ ground (arith, ap stem ((eq_iff first path).0 e), eq_iff (stem first) (stem path))
  | inr e ↦ ground (arith, get-flat_ids files path contents)
]

abbrev IsTier : String → Type 0
IsTier tier = (x : String) → after_slash (after_slash (in_wiki (concat tier (concat "/" x)))) ≡ x

tiers-IsTier : All IsTier wiki_tiers
unfolding after_slash
tiers-IsTier = ((λ x. refl), ((λ x. refl), ((λ x. refl), ((λ x. refl), tt))))

module _ (text : Text) where
  -- A claim that is read from a tier stands in a file with its id as the stem.
  flat_found :
      (answers : Answers) (files : Files) (id : String) (tiers : List String) (m : Claim)
      (ms : List Claim)
      → All IsTier tiers
      → read_flat_files text answers files id tiers ≡ ok (m ∷ ms)
      → contains (flat_ids files) id ≡ true
  unfolding read_flat_files read_flat_file stem or_none
  flat_found answers files id [] m ms all h = cc h
  flat_found answers files id (tier ∷ tiers) m ms (t, all) h =
      by_file (λ r. flat_found answers files id tiers m ms all r) (get files path) refl
        (>>-eq-ok (ensure (answers.resolves path) ClaimError.boundary_refused) _ h).1
    where
      rel : String
      rel = concat tier (concat "/" (concat id ".md"))

      path : String
      path = in_wiki rel

      stem_of_path : stem path ≡ id
      stem_of_path =
          ap (λ x. or_none (strip_suffix ".md" x)) (t (concat id ".md"))
          ∙ ap or_none (strip_suffix-concat id)

      by_file :
          (read_flat_files text answers files id tiers ≡ ok (m ∷ ms)
            → contains (flat_ids files) id ≡ true)
          → (found : Option (List ℕ)) → get files path ≡ found
          → read_flat_file text answers tier rel found (read_flat_files text answers files id tiers)
            ≡ ok (m ∷ ms)
          → contains (flat_ids files) id ≡ true
      by_file later none g r = later r
      by_file later (some contents) g r =
          ap (contains (flat_ids files)) (sym stem_of_path) ∙ get-flat_ids files path contents g

  parsed_id : Result ClaimError Claim → String
  parsed_id (err e) = ""
  parsed_id (ok claim) = claim.id

  walked_ids : Files → List String
  walked_ids [] = []
  walked_ids ((rel, contents) ∷ files) =
      parsed_id (parse_claim_markdown text.frontmatter (tier_of_path rel) rel contents)
      ∷ walked_ids files

  length-walked_ids : (files : Files) → length (walked_ids files) ≡ length files
  unfolding walked_ids
  length-walked_ids [] = refl
  length-walked_ids (file ∷ files) = ap suc (length-walked_ids files)

  -- A claim that is read in the walk is parsed from one of the files.
  walked_found :
      (answers : Answers) (id : String) (files : Files) (m : Claim) (ms : List Claim)
      → read_walked_files text answers id files ≡ ok (m ∷ ms)
      → contains (walked_ids files) id ≡ true
  unfolding read_walked_files walked_ids parsed_id
  walked_found answers id [] m ms h = cc h
  walked_found answers id ((rel, contents) ∷ files) m ms h =
      let (a, h1) =
        >>-eq-ok (ensure (answers.resolves (in_wiki rel)) ClaimError.boundary_refused) _ h in
      let (b, h2) =
        >>-eq-ok (ensure (answers.is_readable (in_wiki rel)) ClaimError.io_failed) _ h1 in
      if_cases
        (λ (r : Result ClaimError (List Claim)).
          r ≡ ok (m ∷ ms) → contains (walked_ids ((rel, contents) ∷ files)) id ≡ true)
        (is_zbrain_claim_document text.frontmatter contents)
        (λ d r.
          let (claim, parsed, r1) =
            >>=-eq-ok (parse_claim_markdown text.frontmatter (tier_of_path rel) rel contents) _ r in
          let (claims, others, r2) = >>=-eq-ok (read_walked_files text answers id files) _ r1 in
          here (λ r. walked_found answers id files m ms r) claim claims parsed others (ok_inj r2))
        (λ d r. later (walked_found answers id files m ms r)) h2
    where
      ok_inj :
          {xs ys : List Claim} → ◌≡◌ {A = Result ClaimError (List Claim)} (ok xs) (ok ys) → xs ≡ ys
      ok_inj e = cc e

      later :
          contains (walked_ids files) id ≡ true
          → contains (walked_ids ((rel, contents) ∷ files)) id ≡ true
      later h = ground arith

      here :
          (read_walked_files text answers id files ≡ ok (m ∷ ms)
            → contains (walked_ids files) id ≡ true)
          → (claim : Claim) (claims : List Claim)
          → parse_claim_markdown text.frontmatter (tier_of_path rel) rel contents ≡ ok claim
          → read_walked_files text answers id files ≡ ok claims
          → (if claim.id == id then claim ∷ claims else claims) ≡ m ∷ ms
          → contains (walked_ids ((rel, contents) ∷ files)) id ≡ true
      here next claim claims parsed others r = elim (Bool-cases (claim.id == id)) [
        | inl e ↦ rw parsed (rw e refl)
        | inr e ↦ later (next (others ∙ rest e))
      ]
        where
          rest :
              (claim.id == id) ≡ false
              → ◌≡◌ {A = Result ClaimError (List Claim)} (ok claims) (ok (m ∷ ms))
          rest e = ap ok (ground arith)

  -- The ids that can be read, as the directories say.
  ids_by : Result ClaimError Bool → Files → List String
  ids_by (ok true) files = walked_ids (walk_markdown_files files)
  ids_by _ files = flat_ids files

  pub readable_ids : Answers → Files → List String
  readable_ids answers files = ids_by answers.has_nested files

  pub readable_ids_le :
      (answers : Answers) (files : Files) → length (readable_ids answers files) ≤ length files
  unfolding readable_ids ids_by
  readable_ids_le answers files = by answers.has_nested
    where
      by : (nested : Result ClaimError Bool) → length (ids_by nested files) ≤ length files
      by (err e) = omega (arith, length-flat_ids files)
      by (ok false) = omega (arith, length-flat_ids files)
      by (ok true) =
          omega (arith, length-walked_ids (walk_markdown_files files), walk_markdown_files_le files)

  only_match-some :
      (id : String) (ms : List Claim) (c : Claim)
      → only_match text id (sort_by (λ (claim : Claim). claim.path) ms) ≡ ok c
      → (m : Claim) × (others : List Claim) × (ms ≡ m ∷ others)
  unfolding only_match sort_by
  only_match-some id [] c h = cc h
  only_match-some id (m ∷ others) c h = (m, others, refl)

  -- Whatever is read stands under one of these ids.
  pub read-readable :
      (answers : Answers) (files : Files) (id : String) (c : Claim)
      → read text answers files id ≡ ok c
      → contains (readable_ids answers files) id ≡ true
  unfolding read read_canonical_claims_by_id readable_ids ids_by
  read-readable answers files id c h =
      let (sorted, found, h1) = >>=-eq-ok (read_canonical_claims_by_id text answers files id) _ h in
      let (a, f1) = >>-eq-ok (ensure (is_claim_id id) ClaimError.claim_id_invalid) _ found in
      let (b, f2) = >>-eq-ok (ensure answers.is_workspace ClaimError.boundary_refused) _ f1 in
      let (d, f3) = >>-eq-ok (ensure (answers.resolves "wiki") ClaimError.boundary_refused) _ f2 in
      let (flat, is_flat, f4) = >>=-eq-ok (read_flat_files text answers files id wiki_tiers) _ f3 in
      let (nested, said, f5) = >>=-eq-ok answers.has_nested _ f4 in
      let (matches, chosen, f6) =
        >>=-eq-ok
          (if nested
            then read_walked_files text answers id (walk_markdown_files files)
            else ok flat)
          _ f5 in
      let same : sort_by (λ (claim : Claim). claim.path) matches ≡ sorted = cc f6 in
      let (m, others, e) = only_match-some id matches c (ap (only_match text id) same ∙ h1) in
      ap (λ r. contains (ids_by r files) id) said
      ∙ by nested flat is_flat m others (chosen ∙ ap ok e)
    where
      by :
          (nested : Bool) (flat : List Claim)
          → read_flat_files text answers files id wiki_tiers ≡ ok flat
          → (m : Claim) (others : List Claim)
          → (if nested
              then read_walked_files text answers id (walk_markdown_files files)
              else ok flat)
            ≡ ok (m ∷ others)
          → contains (ids_by (ok nested) files) id ≡ true
      by true flat f m others r = walked_found answers id (walk_markdown_files files) m others r
      by false flat f m others r =
          flat_found answers files id wiki_tiers m others tiers-IsTier (f ∙ r)
