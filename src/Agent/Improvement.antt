-- ===== src/Agent/Improvement.antt =====
-- src/orbita_agent/improvement_registry.py: the registry of inactive improvement candidates. The
-- tables are lists in order of insertion, and a column with JSON text holds the value that the text
-- stands for. The identifiers that `_id` draws and the times that `_now` answers are arguments. A
-- method that raises leaves the tables as they were: the identifiers are taken not to collide, and
-- an event that is inserted is always committed.
pub mod Checks
pub mod Tables
pub mod Kept
pub mod Frozen
use orbita_agent_research_se.Base.{
  ℕ, String, List, [], ◌∷◌, ◌++◌, map, filter, find, any, Bool, true, false, not, ◌&&◌, Option,
  none, some, Result, ok, err, ◌>>=◌, ◌>>◌, raise_if, guard, if◌then◌else◌, ◌==◌, elem, is_some,
  ◌||◌,
}
use Prim.Native.String.{◌++◌ as join}
use orbita_agent_research_se.Base.Texts.{strip}
use orbita_agent_research_se.Base.Json.{
  Json, null, truthy, arr, str, obj, Fields, empty, field, Items, nil, cons,
}
use orbita_agent_research_se.Agent.Opportunity.{
  Diagnosis, diagnose_improvement_opportunity, gap_name, content_hash, stable, document,
}
use orbita_agent_research_se.Agent.Improvement.Tables.{
  Candidate, Plan, Evaluation, OpportunityDiagnosis, Event, Registry, Draws, insert_event,
  candidate_of, plan_of, evaluation_of, or_unknown, get_candidate, or_not_frozen, or_bad_diagnosis,
}
use orbita_agent_research_se.Agent.Improvement.Checks.{
  RegistryError, unknown_candidate, already_frozen, not_frozen, already_evaluated,
  candidate_mismatch, plan_mismatch, bad_verdict, duplicate_candidate, duplicate_diagnosis,
  bad_diagnosis, activation_disabled, integrity, short_text, checked_object, checked_plan,
  not_finite, unknown_kind, unknown_limitation, empty_artifact, is_empty_object,
  validate_language_limit_evidence, string_list, candidate_kinds, limitation_kinds,
}

-- the arguments of `create_candidate`
pub record Proposal : Type 0 where
  pub candidate_kind : String
  pub limitation_kind : String
  pub base_artifact : Json
  pub candidate_artifact : Json
  pub problem_statement : String
  pub rationale : String
  pub expected_benefit : String
  pub observed_failure_ids : Option Json
  pub known_risks : Option Json
  pub evidence : Option Json
  pub parent_candidate_id : Option String
  pub created_by : String

-- `evidence or {}`
abbrev or_empty_object : Option Json → Json
or_empty_object none = obj empty
or_empty_object (some v) = if truthy v then v else obj empty

abbrev or_null : Option String → Json
or_null none = null
or_null (some s) = str s

unfoldable pub check_parent : Option String → Registry → Result RegistryError (Unit {0})
unfolding get_candidate
check_parent none r = ok tt
check_parent (some parent) r = do c ← get_candidate parent r; ok tt

-- the INSERT of `create_candidate` and its event
unfoldable pub insert_candidate :
    Draws
    → Fields
    → (digest creator : String) → Registry
    → Result RegistryError (Candidate × Registry)
unfolding insert_event
insert_candidate draws body digest creator r = do
  raise_if (any (λ (c : Candidate). c.candidate_hash == digest) r.candidates) duplicate_candidate
  raise_if (any (λ (c : Candidate). c.id == draws.row_id) r.candidates) integrity
  let row : Candidate = record {
    id = draws.row_id;
    body = body;
    candidate_hash = digest;
    created_at = draws.row_time;
  }
  let inserted : Registry = record r { candidates = r.candidates ++ row ∷ [] }
  ok (
    row,
    insert_event draws draws.row_id "candidate_draft" creator
        (field "candidate_hash" (str digest) empty) inserted,
  )

module _ (dumps : Json → Option String) (sha256 : String → String) where
  -- the checks of `create_candidate` and the document that it hashes
  unfoldable pub candidate_body : Proposal → Registry → Result RegistryError Fields
  unfolding checked_object validate_language_limit_evidence check_parent short_text string_list
      candidate_kinds limitation_kinds content_hash
  candidate_body p r = do
    guard (elem p.candidate_kind candidate_kinds) unknown_kind
    guard (elem p.limitation_kind limitation_kinds) unknown_limitation
    base ← checked_object dumps sha256 p.base_artifact
    artifact ← checked_object dumps sha256 p.candidate_artifact
    raise_if (is_empty_object artifact) empty_artifact
    evidence ← checked_object dumps sha256 (or_empty_object p.evidence)
    validate_language_limit_evidence p.limitation_kind evidence
    check_parent p.parent_candidate_id r
    base_hash ← content_hash dumps sha256 not_finite (obj base)
    problem ← short_text 12 4000 p.problem_statement
    failures ← string_list p.observed_failure_ids
    rationale ← short_text 12 4000 p.rationale
    benefit ← short_text 12 4000 p.expected_benefit
    risks ← string_list p.known_risks
    creator ← short_text 1 160 p.created_by
    ok (
        field "schema_version" (str "orbita-improvement-candidate/1") (
          field "candidate_kind" (str p.candidate_kind) (
            field "limitation_kind" (str p.limitation_kind) (
              field "base_artifact" (obj base) (
                field "base_hash" (str base_hash) (
                  field "candidate_artifact" (obj artifact) (
                    field "problem_statement" (str problem) (
                      field "observed_failure_ids" (arr failures) (
                        field "rationale" (str rationale) (
                          field "expected_benefit" (str benefit) (
                            field "known_risks" (arr risks) (
                              field "evidence" (obj evidence) (
                                field "parent_candidate_id" (or_null p.parent_candidate_id)
                                  (field "created_by" (str creator) empty))))))))))))))

  unfoldable pub create_candidate :
      Draws → Proposal → Registry → Result RegistryError (Candidate × Registry)
  unfolding candidate_body insert_candidate
  create_candidate draws p r = do
    body ← candidate_body p r
    digest ← content_hash dumps sha256 not_finite (obj body)
    insert_candidate draws body digest (strip p.created_by) r

  unfoldable pub freeze_evaluation :
      Draws → String → Json → String → Registry → Result RegistryError (Plan × Registry)
  unfolding get_candidate checked_plan short_text insert_event
  freeze_evaluation draws candidate_id evaluation_plan frozen_by r = do
    candidate ← get_candidate candidate_id r
    raise_if (is_some (plan_of candidate_id r.plans)) already_frozen
    plan ← checked_plan dumps sha256 evaluation_plan
    let body = field "schema_version" (str "orbita-improvement-evaluation-plan/1") (
        field "candidate_id" (str candidate_id)
          (field "candidate_hash" (str candidate.candidate_hash) (field "plan" (obj plan) empty)))
    plan_hash ← content_hash dumps sha256 not_finite (obj body)
    actor ← short_text 1 160 frozen_by
    raise_if (any (λ (p : Plan). p.id == draws.row_id || p.plan_hash == plan_hash) r.plans)
        already_frozen
    let row : Plan = record {
      id = draws.row_id;
      candidate_id = candidate_id;
      candidate_hash = candidate.candidate_hash;
      plan = plan;
      plan_hash = plan_hash;
      frozen_by = actor;
      created_at = draws.row_time;
    }
    let inserted : Registry = record r { plans = r.plans ++ row ∷ [] }
    ok (
      row,
      insert_event draws candidate_id "evaluation_frozen" actor
          (field "plan_id" (str draws.row_id) (field "plan_hash" (str plan_hash) empty)) inserted,
    )

  unfoldable pub record_evaluation :
      Draws
      → String
      → (expected_candidate_hash expected_plan_hash : String) → Json
      → (verdict evaluated_by : String) → Registry
      → Result RegistryError (Evaluation × Registry)
  unfolding get_candidate checked_object short_text insert_event
  record_evaluation draws candidate_id expected_candidate_hash expected_plan_hash result verdict
        evaluated_by r =
      do
        candidate ← get_candidate candidate_id r
        plan ← or_not_frozen (plan_of candidate_id r.plans)
        raise_if (is_some (evaluation_of candidate_id r.evaluations)) already_evaluated
        guard (expected_candidate_hash == candidate.candidate_hash) candidate_mismatch
        guard (expected_plan_hash == plan.plan_hash) plan_mismatch
        guard (elem verdict ("survived" ∷ "refuted" ∷ "inconclusive" ∷ [])) bad_verdict
        kept ← checked_object dumps sha256 result
        result_hash ← content_hash dumps sha256 not_finite (obj kept)
        actor ← short_text 1 160 evaluated_by
        let body = field "schema_version" (str "orbita-improvement-evaluation/1") (
            field "candidate_id" (str candidate_id) (
              field "candidate_hash" (str candidate.candidate_hash) (
                field "plan_id" (str plan.id) (
                  field "plan_hash" (str plan.plan_hash) (
                    field "result" (obj kept) (
                      field "result_hash" (str result_hash) (
                        field "verdict" (str verdict)
                          (field "evaluated_by" (str actor) empty))))))))
        digest ← content_hash dumps sha256 not_finite (obj body)
        raise_if
            (any (λ (e : Evaluation). e.id == draws.row_id || e.evaluation_hash == digest)
              r.evaluations)
            already_evaluated
        let row : Evaluation = record {
          id = draws.row_id;
          candidate_id = candidate_id;
          candidate_hash = candidate.candidate_hash;
          plan_id = plan.id;
          plan_hash = plan.plan_hash;
          result = kept;
          result_hash = result_hash;
          verdict = verdict;
          evaluation_hash = digest;
          evaluated_by = actor;
          created_at = draws.row_time;
        }
        let inserted : Registry = record r { evaluations = r.evaluations ++ row ∷ [] }
        ok (
          row,
          insert_event draws candidate_id (join "evaluation_" verdict) actor
              (field "evaluation_id" (str draws.row_id)
                (field "evaluation_hash" (str digest) empty))
              inserted,
        )

  unfoldable pub record_opportunity_diagnosis :
      Draws
      → String
      → (expected_candidate_hash : String) → Json
      → (diagnosed_by : String) → Registry
      → Result RegistryError (OpportunityDiagnosis × Registry)
  unfolding get_candidate short_text insert_event
  record_opportunity_diagnosis draws candidate_id expected_candidate_hash metrics diagnosed_by r =
      do
        candidate ← get_candidate candidate_id r
        guard (expected_candidate_hash == candidate.candidate_hash) candidate_mismatch
        diagnosis ← or_bad_diagnosis (diagnose_improvement_opportunity dumps sha256 metrics)
        actor ← short_text 1 160 diagnosed_by
        let body = field "schema_version" (str "orbita-candidate-opportunity-diagnosis-record/1") (
            field "candidate_id" (str candidate_id) (
              field "candidate_hash" (str candidate.candidate_hash)
                (field "diagnosis" (document diagnosis) (field "diagnosed_by" (str actor) empty))))
        digest ← content_hash dumps sha256 not_finite (obj body)
        raise_if (any (λ (d : OpportunityDiagnosis). d.record_hash == digest) r.diagnoses)
            duplicate_diagnosis
        raise_if (any (λ (d : OpportunityDiagnosis). d.id == draws.row_id) r.diagnoses) integrity
        let row : OpportunityDiagnosis = record {
          id = draws.row_id;
          candidate_id = candidate_id;
          candidate_hash = candidate.candidate_hash;
          diagnosis = diagnosis;
          record_hash = digest;
          diagnosed_by = actor;
          created_at = draws.row_time;
        }
        let inserted : Registry = record r { diagnoses = r.diagnoses ++ row ∷ [] }
        ok (
          row,
          insert_event draws candidate_id "opportunity_diagnosed" actor
              (field "record_id" (str draws.row_id) (
                field "record_hash" (str digest)
                  (field "classification" (str (gap_name diagnosis.classification)) empty)))
              inserted,
        )

-- `promote`, which has no other outcome than an exception
unfoldable pub promote : String → String → Registry → Result RegistryError Registry
unfolding get_candidate short_text
promote candidate_id actor r = do
  candidate ← get_candidate candidate_id r
  name ← short_text 1 160 actor
  err activation_disabled
