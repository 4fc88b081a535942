-- ===== src/Agent/Evidence.antt =====
-- src/orbita_agent/evidence_normalization.py: the receipts, the decisions that each source may
-- support, and the checks of the arguments. `dumps` is `json.dumps` with the options of `_stable`,
-- `sha256` the digest of a text and `lower` `str.lower`.
pub mod Receipts
pub mod Genuine
pub mod Decisions
mod Tests
use Prim.Native.Char.{Char, code}
use orbita_agent_research_se.Base.{
  ℕ, String, List, [], ◌∷◌, ◌++◌, filter, Bool, true, false, not, ◌&&◌, ◌||◌, Option, none, some,
  Result, ok, err, ◌>>=◌, ◌>>◌, raise_if, guard, if◌then◌else◌, ◌==◌, elem, leb, nat_eq, distinct,
}
use orbita_agent_research_se.Base.Texts.{strip, char_count, is_nonempty, sorted}
use orbita_agent_research_se.Base.Json.{
  Json, null, bool, str, arr, obj, Items, nil, cons, Fields, empty, field, get, truthy,
}
use orbita_agent_research_se.Agent.Opportunity.{stable, content_hash, known_fields, object_or}

pub data EvidenceError : Type 0 where
  unsupported_source bad_text bad_digest bad_flag bad_hashes bad_result bad_evaluator bad_provenance
        bad_scope bad_independence not_finite unhashable conflict unknown_receipt
        unsupported_decision :
      EvidenceError

pub record Scope : Type 0 where
  pub domain : String
  pub quantifier : String
  pub boundary : Fields
  pub assumptions : List String

pub record Independence : Type 0 where
  pub level : String
  pub subject_id : String
  pub evaluator_id : String
  pub rationale : String
  pub verifier_receipt_hash : Option String

pub record Evaluator : Type 0 where
  pub id : String
  pub kind : String
  pub receipt_hash : Option String

pub record Core : Type 0 where
  pub source_kind : String
  pub source_id : String
  pub source_hashes : Fields
  pub frozen_before_reveal : Bool
  pub scope : Scope
  pub scope_hash : String
  pub result : Fields
  pub evaluator : Evaluator
  pub independence : Independence
  pub independence_hash : String
  pub provenance : Fields

pub record Eligibility : Type 0 where
  pub allowed_decisions : List String
  pub prohibited_decisions : List String
  pub reasons : List String

abbrev pub decision_kinds : List String
decision_kinds =
    "SCIENTIFIC_CLAIM_REVIEW" ∷ "RESEARCH_POLICY_REVIEW" ∷ "DISCOVERY_OPERATOR_REVIEW"
    ∷ "LANGUAGE_LIMIT_CERTIFICATE_REVIEW" ∷ "REPAIR_CANDIDATE_REVIEW" ∷ "VERIFICATION_REVIEW"
    ∷ "SEMANTIC_ADMISSION" ∷ "SEMANTIC_ACTIVATION" ∷ "POLICY_PROMOTION" ∷ "CODE_DEPLOYMENT"
    ∷ "ARCHITECTURE_ACTIVATION" ∷ []

abbrev pub never_evidence_only : List String
never_evidence_only =
    "SEMANTIC_ADMISSION" ∷ "SEMANTIC_ACTIVATION" ∷ "POLICY_PROMOTION" ∷ "CODE_DEPLOYMENT"
    ∷ "ARCHITECTURE_ACTIVATION" ∷ []

abbrev pub independence_levels : List String
independence_levels =
    "same_execution" ∷ "same_case" ∷ "same_family" ∷ "cross_domain" ∷ "external" ∷ []

-- `SOURCE_DECISIONS[kind]`; its keys are SOURCE_KINDS
unfoldable pub source_decisions : String → Result EvidenceError (List String)
source_decisions kind =
    if kind == "DISCOVERY_RUN"
    then ok ("SCIENTIFIC_CLAIM_REVIEW" ∷ "RESEARCH_POLICY_REVIEW" ∷ [])
    else if kind == "GENOME_TOURNAMENT"
    then ok ("DISCOVERY_OPERATOR_REVIEW" ∷ [])
    else if kind == "EXTERNAL_EXPERIMENT"
    then ok ("SCIENTIFIC_CLAIM_REVIEW" ∷ "REPAIR_CANDIDATE_REVIEW" ∷ [])
    else if kind == "PROOF_ASSISTANT"
    then ok ("LANGUAGE_LIMIT_CERTIFICATE_REVIEW" ∷ [])
    else if kind == "INDEPENDENT_VERIFIER"
    then ok ("VERIFICATION_REVIEW" ∷ [])
    else err unsupported_source

-- `allowed.discard(x)`
abbrev pub discard : String → List String → List String
discard x xs = filter (λ (y : String). not (y == x)) xs

-- `result.get("status") in {...}`, which raises for a list or a dict
unfoldable pub is_unfinished : Option Json → Result EvidenceError Bool
is_unfinished (some (str s)) = ok (elem s ("UNVERIFIED" ∷ "PENDING" ∷ "NOT_SUBMITTED" ∷ []))
is_unfinished (some (arr _)) = err unhashable
is_unfinished (some (obj _)) = err unhashable
is_unfinished _ = ok false

abbrev pub is_unfrozen : Core → Bool
is_unfrozen c =
    (c.source_kind == "GENOME_TOURNAMENT" || c.source_kind == "EXTERNAL_EXPERIMENT")
    && not c.frozen_before_reveal

abbrev pub is_too_close : Core → Bool
is_too_close c =
    c.source_kind == "EXTERNAL_EXPERIMENT"
    && (c.independence.level == "same_execution" || c.independence.level == "same_case")

-- the decisions that are left in `allowed`
unfoldable pub allowed_of : (unfinished : Bool) → Core → List String → List String
allowed_of unfinished c decisions =
    let started = if unfinished then [] else decisions in
    let frozen =
      if is_unfrozen c
      then discard "REPAIR_CANDIDATE_REVIEW" (discard "DISCOVERY_OPERATOR_REVIEW" started)
      else started in
    if is_too_close c then discard "REPAIR_CANDIDATE_REVIEW" frozen else frozen

abbrev pub reasons_of : (unfinished : Bool) → Core → List String
reasons_of unfinished c =
    (if unfinished
      then "source result has not completed its declared verification path" ∷ []
      else [])
    ++ (if is_unfrozen c
        then "prospective decision support requires freeze before reveal" ∷ []
        else [])
    ++ (if is_too_close c
        then "repair review requires at least same-family-independent evaluation" ∷ []
        else [])

unfoldable pub evidence_eligibility : Core → Result EvidenceError Eligibility
unfolding source_decisions is_unfinished allowed_of
evidence_eligibility c = do
  decisions ← source_decisions c.source_kind
  unfinished ← is_unfinished (get c.result "status")
  let allowed = allowed_of unfinished c decisions
  ok (record {
    allowed_decisions = sorted allowed;
    prohibited_decisions = sorted (filter (λ (x : String). not (elem x allowed)) decision_kinds);
    reasons = reasons_of unfinished c;
  })

-- `_text`
unfoldable pub text_at_most : (maximum : ℕ) → Option Json → Result EvidenceError String
text_at_most maximum (some (str s)) = do
  guard (is_nonempty (strip s) && leb (char_count (strip s)) maximum) bad_text
  ok (strip s)
text_at_most maximum _ = err bad_text

-- `not isinstance(value, dict) or not value`
abbrev pub nonempty_object : EvidenceError → Option Json → Result EvidenceError Fields
nonempty_object e (some (obj (field k v rest))) = ok (field k v rest)
nonempty_object e _ = err e

is_hex : String → Bool
is_hex String.[] = true
is_hex (String.◌∷◌ c s) =
    (leb (code "0") (code c) && leb (code c) (code "9")
      || leb (code "a") (code c) && leb (code c) (code "f"))
    && is_hex s

keys : Fields → List String
keys empty = []
keys (field k v rest) = k ∷ keys rest

-- `d[key] = value`
set_field : String → Json → Fields → Fields
set_field key value empty = field key value empty
set_field key value (field k v rest) =
    let others = set_field key value rest in
    if k == key then field k value rest else field k v others

-- the strings of a list, stripped
stripped_texts : Items → Result EvidenceError (List String)
stripped_texts nil = ok []
stripped_texts (cons (str s) vs) = do
  guard (is_nonempty (strip s)) bad_scope
  rest ← stripped_texts vs
  ok (strip s ∷ rest)
stripped_texts (cons _ vs) = err bad_scope

assumptions_of : Option Json → Result EvidenceError (List String)
unfolding stripped_texts
assumptions_of none = ok []
assumptions_of (some (arr items)) = do texts ← stripped_texts items; ok (distinct texts)
assumptions_of (some _) = err bad_scope

texts : List String → Items
texts [] = nil
texts (s ∷ ss) = cons (str s) (texts ss)

pub text_or_null : Option String → Json
text_or_null none = null
text_or_null (some s) = str s

abbrev pub scope_fields : List String
scope_fields = "domain" ∷ "quantifier" ∷ "boundary" ∷ "assumptions" ∷ []

abbrev pub independence_fields : List String
independence_fields =
    "level" ∷ "subject_id" ∷ "evaluator_id" ∷ "rationale" ∷ "verifier_receipt_hash" ∷ []

unfoldable pub scope_document : Scope → Fields
unfolding texts
scope_document s = field "domain" (str s.domain) (
    field "quantifier" (str s.quantifier)
      (field "boundary" (obj s.boundary) (field "assumptions" (arr (texts s.assumptions)) empty)))

unfoldable pub independence_document : Independence → Fields
unfolding text_or_null
independence_document i = field "level" (str i.level) (
    field "subject_id" (str i.subject_id) (
      field "evaluator_id" (str i.evaluator_id) (
        field "rationale" (str i.rationale)
          (field "verifier_receipt_hash" (text_or_null i.verifier_receipt_hash) empty))))

-- `value.get("subject_id") or source_id`
abbrev pub value_or : Option Json → String → Json
value_or none d = str d
value_or (some v) d = if truthy v then v else str d

module _ (lower : String → String) where
  -- `_hash`
  unfoldable pub digest_of : Option Json → Result EvidenceError String
  unfolding is_hex text_at_most
  digest_of v = do
    s ← text_at_most 64 v
    guard (nat_eq (char_count (lower s)) 64 && is_hex (lower s)) bad_digest
    ok (lower s)

  -- `None` for a value that is missing or null
  optional_digest : Option Json → Result EvidenceError (Option String)
  unfolding digest_of
  optional_digest none = ok none
  optional_digest (some null) = ok none
  optional_digest v = do s ← digest_of v; ok (some s)

  -- the dict comprehension of `exact_hashes`, over the sorted keys
  exact_hashes : List String → Fields → (collected : Fields) → Result EvidenceError Fields
  unfolding digest_of text_at_most set_field
  exact_hashes [] d collected = ok collected
  exact_hashes (k ∷ ks) d collected = do
    name ← text_at_most 100 (some (str k))
    digest ← digest_of (get d k)
    exact_hashes ks d (set_field name (str digest) collected)

  unfoldable pub normalize_hashes : Json → Result EvidenceError Fields
  unfolding exact_hashes keys
  normalize_hashes v = do
    d ← nonempty_object bad_hashes (some v)
    exact_hashes (sorted (keys d)) d empty

  unfoldable pub normalize_evaluator : Json → Result EvidenceError Evaluator
  unfolding optional_digest text_at_most
  normalize_evaluator v = do
    d ← object_or bad_evaluator v
    id ← text_at_most 300 (get d "id")
    kind ← text_at_most 100 (get d "kind")
    receipt_hash ← optional_digest (get d "receipt_hash")
    ok (record { id = id; kind = kind; receipt_hash = receipt_hash })

  module _ (dumps : Json → Option String) (sha256 : String → String) where
    unfoldable pub normalize_scope : Json → Result EvidenceError (Scope × String)
    unfolding known_fields assumptions_of text_at_most content_hash scope_document
    normalize_scope v = do
      d ← object_or bad_scope v
      guard (known_fields scope_fields d) bad_scope
      boundary ← nonempty_object bad_scope (get d "boundary")
      assumptions ← assumptions_of (get d "assumptions")
      domain ← text_at_most 200 (get d "domain")
      quantifier ← text_at_most 80 (get d "quantifier")
      written ← stable dumps sha256 not_finite (obj boundary)
      let scope : Scope = record {
        domain = domain;
        quantifier = quantifier;
        boundary = boundary;
        assumptions = assumptions;
      }
      digest ← content_hash dumps sha256 not_finite (obj (scope_document scope))
      ok (scope, digest)

    unfoldable pub normalize_independence :
        Json → (source_id : String) → Result EvidenceError (Independence × String)
    unfolding known_fields optional_digest text_at_most content_hash independence_document
    normalize_independence v source_id = do
      d ← object_or bad_independence v
      guard (known_fields independence_fields d) bad_independence
      level ← text_at_most 40 (get d "level")
      guard (elem level independence_levels) bad_independence
      subject_id ← text_at_most 300 (some (value_or (get d "subject_id") source_id))
      evaluator_id ← text_at_most 300 (get d "evaluator_id")
      raise_if (level == "external" && evaluator_id == subject_id) bad_independence
      verifier ← optional_digest (get d "verifier_receipt_hash")
      rationale ← text_at_most 2000 (get d "rationale")
      let independence : Independence = record {
        level = level;
        subject_id = subject_id;
        evaluator_id = evaluator_id;
        rationale = rationale;
        verifier_receipt_hash = verifier;
      }
      digest ← content_hash dumps sha256 not_finite (obj (independence_document independence))
      ok (independence, digest)
