-- ===== src/Agent/Evidence/Tests.antt =====
-- src/orbita_agent/evidence_normalization.py: tests.
use orbita_agent_research_se.Base.{
  String, List, [], ◌∷◌, any, filter, Bool, true, false, Option, none, some, ok, elem, distinct,
  ◌≡◌, refl,
}
use orbita_agent_research_se.Base.Texts.{strip, sorted}
use orbita_agent_research_se.Base.Json.{Json, bool, str, obj, empty, field, get}
use orbita_agent_research_se.Agent.Opportunity.{content_hash, known_fields}
use orbita_agent_research_se.Agent.Evidence.{
  source_decisions, is_unfinished, allowed_of, evidence_eligibility, text_at_most, scope_document,
  independence_document, digest_of, normalize_hashes, normalize_evaluator, normalize_scope,
  normalize_independence,
}
use orbita_agent_research_se.Agent.Evidence.Receipts.{
  Submission, Receipt, Decision, find_receipt, find_source, insert_receipt, get_receipt,
  check_decision, normalize, body_of, record_receipt, verify,
}
use orbita_agent_research_se.Agent.Evidence.Genuine.{record_all, verify-record_all}
use orbita_agent_research_se.Agent.Evidence.Decisions.{IsSupported, check_decision-IsSupported}

abbrev same : String → String
same s = s

abbrev dumped : Json → Option String
dumped v = some "{}"

abbrev digest : String
digest = "0123456789abcdef0123456789abcdef0123456789abcdef0123456789abcdef"

abbrev hashed : String → String
hashed s = digest

abbrev object : String → String → Json
object k s = obj (field k (str s) empty)

-- an external experiment whose plan was frozen or not
abbrev submission : (frozen : Bool) → Submission
submission frozen = record {
  source_kind = "EXTERNAL_EXPERIMENT";
  source_id = str "x1";
  source_hashes = object "plan" digest;
  frozen_before_reveal = bool frozen;
  scope = obj (
      field "domain" (str "graphs")
        (field "quantifier" (str "all") (field "boundary" (object "n" "8") empty)));
  result = object "status" "COMPLETED";
  evaluator = obj (field "id" (str "lab") (field "kind" (str "external") empty));
  independence = obj (
      field "level" (str "external")
        (field "evaluator_id" (str "lab") (field "rationale" (str "other group") empty)));
  provenance = object "route" "mcp";
}

abbrev calls : List (String × String × Submission)
calls = ("e1", "t0", submission true) ∷ ("e2", "t1", submission false) ∷ []

abbrev rows : List Receipt
rows = record_all same dumped hashed calls []

ledger : Unit {0}
unfolding source_decisions is_unfinished allowed_of evidence_eligibility text_at_most scope_document
    independence_document digest_of normalize_hashes normalize_evaluator normalize_scope
    normalize_independence find_receipt find_source insert_receipt get_receipt check_decision
    normalize body_of record_receipt verify record_all content_hash known_fields any elem distinct
    strip sorted get filter
ledger = tt

abbrev decision : Bool → String → Decision
decision eligible kind = record {
  receipt_id = "e1";
  decision_kind = kind;
  eligible = eligible;
  requires_separate_authority = elem kind ("CODE_DEPLOYMENT" ∷ []);
  receipt_hash = digest;
}

repair_eligible :
    check_decision "e1" "REPAIR_CANDIDATE_REVIEW" rows
    ≡ ok (decision true "REPAIR_CANDIDATE_REVIEW")
unfolding ledger
repair_eligible = refl

deployment_not_eligible :
    check_decision "e1" "CODE_DEPLOYMENT" rows ≡ ok (decision false "CODE_DEPLOYMENT")
unfolding ledger
deployment_not_eligible = refl

abbrev kept : Receipt
kept = record {
  id = "e1";
  body = record {
    core = record {
      source_kind = "EXTERNAL_EXPERIMENT";
      source_id = "x1";
      source_hashes = field "plan" (str digest) empty;
      frozen_before_reveal = true;
      scope = record {
        domain = "graphs";
        quantifier = "all";
        boundary = field "n" (str "8") empty;
        assumptions = [];
      };
      scope_hash = digest;
      result = field "status" (str "COMPLETED") empty;
      evaluator = record { id = "lab"; kind = "external"; receipt_hash = none };
      independence = record {
        level = "external";
        subject_id = "x1";
        evaluator_id = "lab";
        rationale = "other group";
        verifier_receipt_hash = none;
      };
      independence_hash = digest;
      provenance = field "route" (str "mcp") empty;
    };
    normalization_hash = digest;
    created_at = "t0";
    eligibility = record {
      allowed_decisions = "REPAIR_CANDIDATE_REVIEW" ∷ "SCIENTIFIC_CLAIM_REVIEW" ∷ [];
      prohibited_decisions =
          "ARCHITECTURE_ACTIVATION" ∷ "CODE_DEPLOYMENT" ∷ "DISCOVERY_OPERATOR_REVIEW"
          ∷ "LANGUAGE_LIMIT_CERTIFICATE_REVIEW" ∷ "POLICY_PROMOTION" ∷ "RESEARCH_POLICY_REVIEW"
          ∷ "SEMANTIC_ACTIVATION" ∷ "SEMANTIC_ADMISSION" ∷ "VERIFICATION_REVIEW" ∷ [];
      reasons = [];
    };
  };
  receipt_hash = digest;
}

-- the second call is refused: its source has other contents
rows-kept : rows ≡ kept ∷ []
unfolding ledger
rows-kept = refl

get_receipt-kept : get_receipt "e1" rows ≡ ok kept
unfolding ledger
get_receipt-kept = refl

verify-record_all_example :
    verify same dumped hashed "e1" rows
    ≡ ok (record { receipt_id = "e1"; valid = true; failures = [] })
verify-record_all_example = verify-record_all same dumped hashed calls "e1" kept get_receipt-kept

check_decision-IsSupported_example :
    (r : Receipt) × (get_receipt "e1" rows ≡ ok r)
    × (is_unfinished (get r.body.core.result "status") ≡ ok false)
    × IsSupported r.body.core "REPAIR_CANDIDATE_REVIEW"
    × ((decision true "REPAIR_CANDIDATE_REVIEW").requires_separate_authority ≡ false)
check_decision-IsSupported_example =
    check_decision-IsSupported same dumped hashed calls "e1" "REPAIR_CANDIDATE_REVIEW"
      (decision true "REPAIR_CANDIDATE_REVIEW") repair_eligible refl
