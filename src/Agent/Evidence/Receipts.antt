-- ===== src/Agent/Evidence/Receipts.antt =====
-- src/orbita_agent/evidence_normalization.py: `EvidenceReceiptLedger`. The identifier that a record
-- draws and the time are its arguments. The table has triggers that refuse updates and deletions, so
-- the records are all that changes it.
use orbita_agent_research_se.Base.{
  String, List, [], ◌∷◌, ◌++◌, any, Bool, true, false, not, ◌&&◌, ◌||◌, Option, none, some, Result,
  ok, err, ◌>>=◌, ◌>>◌, guard, if◌then◌else◌, ◌==◌, elem, is_empty,
}
use orbita_agent_research_se.Base.Json.{Json, bool, str, arr, obj, Fields, empty, field}
use orbita_agent_research_se.Agent.Opportunity.{stable, content_hash}
use orbita_agent_research_se.Agent.Evidence.{
  EvidenceError, bad_flag, bad_result, bad_provenance, not_finite, conflict, unknown_receipt,
  unsupported_decision, Evaluator, Core, Eligibility, decision_kinds, never_evidence_only,
  source_decisions, evidence_eligibility, text_at_most, nonempty_object, texts, text_or_null,
  scope_document, independence_document, normalize_hashes, normalize_evaluator, normalize_scope,
  normalize_independence,
}

-- the keyword arguments of `record`
pub record Submission : Type 0 where
  pub source_kind : String
  pub source_id : Json
  pub source_hashes : Json
  pub frozen_before_reveal : Json
  pub scope : Json
  pub result : Json
  pub evaluator : Json
  pub independence : Json
  pub provenance : Json

pub record Body : Type 0 where
  pub core : Core
  pub normalization_hash : String
  pub created_at : String
  pub eligibility : Eligibility

pub record Receipt : Type 0 where
  pub id : String
  pub body : Body
  pub receipt_hash : String

pub record Verification : Type 0 where
  pub receipt_id : String
  pub valid : Bool
  pub failures : List String

pub record Decision : Type 0 where
  pub receipt_id : String
  pub decision_kind : String
  pub eligible : Bool
  pub requires_separate_authority : Bool
  pub receipt_hash : String

evaluator_document : Evaluator → Json
unfolding text_or_null
evaluator_document e = obj (
    field "id" (str e.id)
      (field "kind" (str e.kind) (field "receipt_hash" (text_or_null e.receipt_hash) empty)))

-- `core`, before the further keys `rest`
pub core_document : Core → (rest : Fields) → Fields
unfolding evaluator_document scope_document independence_document
core_document c rest = field "schema" (str "orbita-evidence-receipt/1") (
    field "source_kind" (str c.source_kind) (
      field "source_id" (str c.source_id) (
        field "source_hashes" (obj c.source_hashes) (
          field "frozen_before_reveal" (bool c.frozen_before_reveal) (
            field "scope" (obj (field "scope_hash" (str c.scope_hash) (scope_document c.scope))) (
              field "result" (obj c.result) (
                field "evaluator" (evaluator_document c.evaluator) (
                  field "independence"
                    (obj (
                      field "independence_hash" (str c.independence_hash)
                        (independence_document c.independence)))
                    (field "provenance" (obj c.provenance) rest)))))))))

eligibility_document : Eligibility → Json
unfolding texts
eligibility_document e = obj (
    field "schema" (str "orbita-evidence-eligibility/1") (
      field "allowed_decisions" (arr (texts e.allowed_decisions)) (
        field "prohibited_decisions" (arr (texts e.prohibited_decisions)) (
          field "evidence_only_authority" (bool false)
            (field "reasons" (arr (texts e.reasons)) empty)))))

pub body_document : Body → Json
unfolding core_document eligibility_document
body_document b = obj (
    core_document b.core (
      field "normalization_hash" (str b.normalization_hash) (
        field "created_at" (str b.created_at)
          (field "eligibility" (eligibility_document b.eligibility) empty))))

abbrev pub flag_of : Json → Result EvidenceError Bool
flag_of (bool b) = ok b
flag_of _ = err bad_flag

unfoldable pub find_receipt : String → List Receipt → Option Receipt
find_receipt id [] = none
find_receipt id (r ∷ rs) = if r.id == id then some r else find_receipt id rs

-- `SELECT ... WHERE source_kind = ? AND source_id = ?`
unfoldable pub find_source : (kind id : String) → List Receipt → Option Receipt
find_source kind id [] = none
find_source kind id (r ∷ rs) =
    if r.body.core.source_kind == kind && r.body.core.source_id == id
    then some r
    else find_source kind id rs

-- the INSERT violates a constraint
abbrev pub collides : Receipt → Receipt → Bool
collides new r =
    r.id == new.id
    || r.receipt_hash == new.receipt_hash
    || (r.body.core.source_kind == new.body.core.source_kind
        && r.body.core.source_id == new.body.core.source_id)

abbrev pub persisted_or_conflict :
    Receipt → Option Receipt → List Receipt → Result EvidenceError (Receipt × List Receipt)
persisted_or_conflict new none rows = err conflict
persisted_or_conflict new (some old) rows =
    if old.body.normalization_hash == new.body.normalization_hash
    then ok (old, rows)
    else err conflict

unfoldable pub insert_receipt :
    Receipt → List Receipt → Result EvidenceError (Receipt × List Receipt)
unfolding find_source
insert_receipt new rows =
    if any (collides new) rows
    then persisted_or_conflict new
        (find_source new.body.core.source_kind new.body.core.source_id rows) rows
    else ok (new, rows ++ new ∷ [])

unfoldable pub get_receipt : String → List Receipt → Result EvidenceError Receipt
unfolding find_receipt
get_receipt id rows = elim (find_receipt id rows) [ none ↦ err unknown_receipt | some r ↦ ok r ]

unfoldable pub same_texts : List String → List String → Bool
same_texts [] [] = true
same_texts (x ∷ xs) (y ∷ ys) = x == y && same_texts xs ys
same_texts _ _ = false

-- `==` of two eligibilities
unfoldable pub same_eligibility : Eligibility → Eligibility → Bool
unfolding same_texts
same_eligibility a b =
    same_texts a.allowed_decisions b.allowed_decisions
    && same_texts a.prohibited_decisions b.prohibited_decisions
    && same_texts a.reasons b.reasons

abbrev pub failure_if : Bool → String → List String → List String
failure_if true name rest = name ∷ rest
failure_if false name rest = rest

unfoldable pub check_decision :
    (receipt_id decision_kind : String) → List Receipt → Result EvidenceError Decision
unfolding get_receipt
check_decision id kind rows = do
  guard (elem kind decision_kinds) unsupported_decision
  r ← get_receipt id rows
  ok (record {
    receipt_id = id;
    decision_kind = kind;
    eligible = elem kind r.body.eligibility.allowed_decisions;
    requires_separate_authority = elem kind never_evidence_only;
    receipt_hash = r.receipt_hash;
  })

module _ (lower : String → String) (dumps : Json → Option String) (sha256 : String → String) where
  -- the checks of `record`, up to `core`
  unfoldable pub normalize : Submission → Result EvidenceError Core
  unfolding source_decisions text_at_most normalize_hashes normalize_evaluator normalize_scope
      normalize_independence
  normalize x = do
    decisions ← source_decisions x.source_kind
    source_id ← text_at_most 300 (some x.source_id)
    frozen ← flag_of x.frozen_before_reveal
    source_hashes ← normalize_hashes lower x.source_hashes
    result ← nonempty_object bad_result (some x.result)
    evaluator ← normalize_evaluator lower x.evaluator
    provenance ← nonempty_object bad_provenance (some x.provenance)
    (scope, scope_hash) ← normalize_scope lower dumps sha256 x.scope
    result_text ← stable dumps sha256 not_finite (obj result)
    (independence, independence_hash) ←
        normalize_independence lower dumps sha256 x.independence source_id
    provenance_text ← stable dumps sha256 not_finite (obj provenance)
    ok (record {
      source_kind = x.source_kind;
      source_id = source_id;
      source_hashes = source_hashes;
      frozen_before_reveal = frozen;
      scope = scope;
      scope_hash = scope_hash;
      result = result;
      evaluator = evaluator;
      independence = independence;
      independence_hash = independence_hash;
      provenance = provenance;
    })

  unfoldable pub body_of : (now : String) → Core → Result EvidenceError Body
  unfolding content_hash core_document evidence_eligibility
  body_of now core = do
    normalization_hash ← content_hash dumps sha256 not_finite (obj (core_document core empty))
    eligibility ← evidence_eligibility core
    ok (record {
      core = core;
      normalization_hash = normalization_hash;
      created_at = now;
      eligibility = eligibility;
    })

  -- `record`
  unfoldable pub record_receipt :
      (fresh_id now : String)
      → Submission
      → List Receipt
      → Result EvidenceError (Receipt × List Receipt)
  unfolding normalize body_of content_hash body_document insert_receipt
  record_receipt fresh_id now x rows = do
    core ← normalize x
    body ← body_of now core
    receipt_hash ← content_hash dumps sha256 not_finite (body_document body)
    insert_receipt (record { id = fresh_id; body = body; receipt_hash = receipt_hash }) rows

  unfoldable pub verify : (receipt_id : String) → List Receipt → Result EvidenceError Verification
  unfolding get_receipt content_hash body_document core_document scope_document
      independence_document evidence_eligibility same_eligibility
  verify id rows = do
    item ← get_receipt id rows
    let b = item.body
    receipt_hash ← content_hash dumps sha256 not_finite (body_document b)
    core_hash ← content_hash dumps sha256 not_finite (obj (core_document b.core empty))
    scope_hash ← content_hash dumps sha256 not_finite (obj (scope_document b.core.scope))
    independence_hash ←
        content_hash dumps sha256 not_finite (obj (independence_document b.core.independence))
    eligibility ← evidence_eligibility b.core
    let failures = failure_if (not (receipt_hash == item.receipt_hash)) "receipt_hash_mismatch" (
        failure_if (not (core_hash == b.normalization_hash)) "normalization_hash_mismatch" (
          failure_if (not (scope_hash == b.core.scope_hash)) "scope_hash_mismatch" (
            failure_if (not (independence_hash == b.core.independence_hash))
              "independence_hash_mismatch"
              (failure_if (not (same_eligibility b.eligibility eligibility))
                "eligibility_policy_mismatch" []))))
    ok (record { receipt_id = id; valid = is_empty failures; failures = failures })
