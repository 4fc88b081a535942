-- ===== src/Agent/Opportunity.antt =====
-- src/orbita_agent/opportunity_diagnosis.py: the diagnosis of an improvement attempt. `dumps` is
-- `json.dumps` with the options of `_stable`, `none` where it raises, and `sha256` the hexadecimal
-- digest of a text's UTF-8 bytes.
pub mod Diagnosed
pub mod Audit
use orbita_agent_research_se.Base.{
  ℕ, String, List, [], ◌∷◌, Bool, true, false, not, ◌&&◌, Option, none, some, Result, ok, err,
  ◌>>=◌, ◌>>◌, raise_if, guard, if◌then◌else◌, ltb, nat_eq, ◌-◌, elem,
}
use orbita_agent_research_se.Base.Json.{
  ℤ, pos, Json, null, bool, int, str, obj, Fields, empty, field, get,
}

pub data DiagnosisError : Type 0 where
  not_an_object unknown_fields bad_flag unexpected_predictions bad_instrument bad_context
        not_finite :
      DiagnosisError
  bad_count : (name : String) → DiagnosisError
  evaluable_exceeds refuted_exceeds improving_exceeds improving_exceeds_surviving : DiagnosisError

pub data Gap : Type 0 where
  no_predictions no_candidates all_unevaluable all_refuted none_improve fine : Gap

unfoldable pub gap_name : Gap → String
gap_name no_predictions = "NO_PREDICTIONS"
gap_name no_candidates = "NO_CANDIDATES"
gap_name all_unevaluable = "ALL_UNEVALUABLE"
gap_name all_refuted = "ALL_REFUTED"
gap_name none_improve = "NONE_IMPROVE"
gap_name fine = "OK"

unfoldable pub likely_repair : Gap → String
likely_repair no_predictions = "audit_prediction_coverage_then_test_representation_if_warranted"
likely_repair no_candidates = "proposer_search_or_llm_proposer"
likely_repair all_unevaluable = "executor_verifier_or_language_extension"
likely_repair all_refuted = "revise_hypothesis_family"
likely_repair none_improve = "goal_representation_or_proposer"
likely_repair fine = "retain_evidence_and_recurse"

pub record Counts : Type 0 where
  pub prediction : ℕ
  pub prediction_stage_applicable : Bool
  pub candidate : ℕ
  pub evaluable : ℕ
  pub refuted : ℕ
  pub improving : ℕ

pub record Diagnosis : Type 0 where
  pub classification : Gap
  pub counts : Counts
  pub body : Fields
  pub diagnosis_hash : String

-- `body | {"diagnosis_hash": ...}`
abbrev pub document : Diagnosis → Json
document d = obj (field "diagnosis_hash" (str d.diagnosis_hash) d.body)

abbrev pub allowed : List String
allowed =
    "prediction_count" ∷ "prediction_stage_applicable" ∷ "candidate_count" ∷ "evaluable_count"
    ∷ "refuted_count" ∷ "improving_count" ∷ "instrument" ∷ "context" ∷ []

-- every key is allowed
unfoldable pub known_fields : List String → Fields → Bool
known_fields names empty = true
known_fields names (field key v rest) = elem key names && known_fields names rest

-- `_count`
abbrev pub count : String → Option Json → Result DiagnosisError ℕ
count name (some (int (pos n))) = ok n
count name _ = err (bad_count name)

abbrev pub flag : Option Json → Result DiagnosisError Bool
flag none = ok true
flag (some (bool b)) = ok b
flag (some _) = err bad_flag

abbrev pub object_or : {X : Type 0} → X → Json → Result X Fields
object_or e (obj d) = ok d
object_or e _ = err e

abbrev pub context_or_empty : Option Json → Result DiagnosisError Fields
context_or_empty none = ok empty
context_or_empty (some v) = object_or bad_context v

-- the `if` chain that sets `classification`
unfoldable pub classify : Counts → Gap
classify m =
    if m.prediction_stage_applicable && nat_eq m.prediction 0
    then no_predictions
    else if nat_eq m.candidate 0
    then no_candidates
    else if nat_eq m.evaluable 0
    then all_unevaluable
    else if nat_eq m.refuted m.evaluable
    then all_refuted
    else if nat_eq m.improving 0
    then none_improve
    else fine

unfoldable pub check_counts : Counts → Result DiagnosisError (Unit {0})
check_counts m = do
  raise_if (ltb m.candidate m.evaluable) evaluable_exceeds
  raise_if (ltb m.evaluable m.refuted) refuted_exceeds
  raise_if (ltb m.evaluable m.improving) improving_exceeds
  raise_if (ltb (m.evaluable - m.refuted) m.improving) improving_exceeds_surviving

unfoldable pub read_counts : Fields → Result DiagnosisError Counts
read_counts metrics = do
  prediction ← count "prediction_count" (get metrics "prediction_count")
  applicable ← flag (get metrics "prediction_stage_applicable")
  raise_if (not applicable && not (nat_eq prediction 0)) unexpected_predictions
  candidate ← count "candidate_count" (get metrics "candidate_count")
  evaluable ← count "evaluable_count" (get metrics "evaluable_count")
  refuted ← count "refuted_count" (get metrics "refuted_count")
  improving ← count "improving_count" (get metrics "improving_count")
  ok (record {
    prediction = prediction;
    prediction_stage_applicable = applicable;
    candidate = candidate;
    evaluable = evaluable;
    refuted = refuted;
    improving = improving;
  })

abbrev natural : ℕ → Json
natural n = int (pos n)

metrics_document : Counts → Json
metrics_document m = obj (
    field "prediction_count" (natural m.prediction) (
      field "prediction_stage_applicable" (bool m.prediction_stage_applicable) (
        field "candidate_count" (natural m.candidate) (
          field "evaluable_count" (natural m.evaluable) (
            field "refuted_count" (natural m.refuted) (
              field "surviving_count" (natural (m.evaluable - m.refuted)) (
                field "unevaluable_count" (natural (m.candidate - m.evaluable))
                  (field "improving_count" (natural m.improving) empty))))))))

opportunity_document : Counts → Json
opportunity_document m = obj (
    field "prediction_stage_applicable" (bool m.prediction_stage_applicable) (
      field "prediction_stage_reached"
        (if m.prediction_stage_applicable then bool (ltb 0 m.prediction) else null)
        (field "proposal_stage_reached" (bool (ltb 0 m.candidate)) (
          field "evaluation_stage_reached" (bool (ltb 0 m.evaluable))
            (field "improvement_observed" (bool (ltb 0 m.improving)) empty)))))

module _ (dumps : Json → Option String) (sha256 : String → String) where
  abbrev pub text_or : {X : Type 0} → X → Option String → Result X String
  text_or e none = err e
  text_or e (some s) = ok s

  -- `_stable`, with the exception it raises
  abbrev pub stable : {X : Type 0} → X → Json → Result X String
  stable e v = text_or e (dumps v)

  unfoldable pub content_hash : {X : Type 0} → X → Json → Result X String
  content_hash e v = do s ← stable e v; ok (sha256 s)

  -- `_instrument`, the value that is kept and its hash, `null` for both if there is none
  unfoldable pub instrument_of : Option Json → Result DiagnosisError Json
  instrument_of none = ok null
  instrument_of (some null) = ok null
  instrument_of (some (obj (field key v rest))) = do
    let instrument = obj (field key v rest)
    s ← stable not_finite instrument
    ok instrument
  instrument_of (some _) = err bad_instrument

  unfoldable pub instrument_hash : Json → Result DiagnosisError Json
  instrument_hash null = ok null
  instrument_hash instrument = do h ← content_hash not_finite instrument; ok (str h)

  diagnosis_body : Gap → Counts → (instrument instrument_hash : Json) (context : Fields) → Fields
  unfolding gap_name likely_repair metrics_document opportunity_document
  diagnosis_body gap m instrument hash context =
      field "schema" (str "orbita-improvement-opportunity-diagnosis/1") (
        field "classification" (str (gap_name gap)) (
          field "likely_repair" (str (likely_repair gap)) (
            field "metrics" (metrics_document m) (
              field "opportunity" (opportunity_document m) (
                field "instrument" instrument (
                  field "instrument_hash" hash (
                    field "context" (obj context) (
                      field "scope" (str "supplied_attempt_metrics_only") (
                        field "claim_boundary"
                          (str
                            "NO_PREDICTIONS is not evidence of a representation limit without an independent collision audit")
                          (field "activation_authority" (bool false) empty))))))))))

  unfoldable pub diagnose_improvement_opportunity : Json → Result DiagnosisError Diagnosis
  unfolding known_fields read_counts check_counts classify instrument_of instrument_hash
      content_hash diagnosis_body
  diagnose_improvement_opportunity value = do
    metrics ← object_or not_an_object value
    guard (known_fields allowed metrics) unknown_fields
    counts ← read_counts metrics
    check_counts counts
    instrument ← instrument_of (get metrics "instrument")
    context ← context_or_empty (get metrics "context")
    written ← stable not_finite (obj context)
    hash ← instrument_hash instrument
    let body = diagnosis_body (classify counts) counts instrument hash context
    digest ← content_hash not_finite (obj body)
    ok (record {
      classification = classify counts;
      counts = counts;
      body = body;
      diagnosis_hash = digest;
    })
