-- ===== src/Agent/Tests.antt =====
-- Runs of the agent server's parts on small inputs, and the theorems at them.
use orbita_agent_research_se.Base.{map, ◌↔◌}
use orbita_agent_research_se.Agent.Archive.{
  Environment, ensure, from_env, IsOperator, ensure-IsOperator,
}
use orbita_agent_research_se.Agent.Opportunity.Audit.{
  Audit, audit_observation_only_instrument, compare_behavior, audit-behavior_changed_iff,
}
use orbita_agent_research_se.Base.{
  String, [], ◌∷◌, true, false, none, some, ok, err, ◌≡◌, refl, ◌≢◌, find, any,
}
use orbita_agent_research_se.Base.Texts.{strip, is_nonempty}
use orbita_agent_research_se.Base.{Result, String, Option, elem}
use orbita_agent_research_se.Base.Json.{Json, obj, field, str, int, pos, empty, get, arr, cons, nil}
use orbita_agent_research_se.Agent.Opportunity.{
  DiagnosisError, Diagnosis, Counts, fine, diagnose_improvement_opportunity, known_fields,
  read_counts, check_counts, classify, instrument_of, instrument_hash, content_hash,
}
use orbita_agent_research_se.Agent.Opportunity.Diagnosed.{
  AreConsistent, IsGap, diagnose_improvement_opportunity-IsGap,
}
use orbita_agent_research_se.Agent.Improvement.Tables.{
  Registry as ImprovementRegistry, Draws, insert_event, candidate_of, plan_of, evaluation_of,
  get_candidate,
}
use orbita_agent_research_se.Agent.Improvement.{
  Proposal, create_candidate, freeze_evaluation, record_evaluation, candidate_body,
  insert_candidate, check_parent,
}
use orbita_agent_research_se.Agent.Improvement.Frozen.{AreFrozen, Steps-AreFrozen}
use orbita_agent_research_se.Agent.Improvement.Kept.{
  Steps, Step, Keeps, Steps-Keeps, created, froze, evaluated, done, next,
}
use orbita_agent_research_se.Agent.Improvement.Checks.{
  RegistryError, checked_object, checked_plan, short_text, string_list,
  validate_language_limit_evidence, checked_text, candidate_kinds, limitation_kinds,
}
use orbita_agent_research_se.Agent.Tenancy.{
  TenantBinding, Registry, Config, BindOptions, lookup, upsert, tenant_holder, write_binding, bind,
  resolve, resolve_legacy, no_tenant,
}
use orbita_agent_research_se.Agent.Tenancy.Access.{
  Bound, IsExclusive, HasTenant, bind-Bound, bind-IsExclusive, resolve-HasTenant,
}

abbrev no_rows : Registry
no_rows = record { bindings = []; identities = []; events = [] }

abbrev config : Config
config = record { legacy = none; allow_shared_tenants = false }

abbrev options : BindOptions
options = record { actor = "operator"; note = none; allow_shared = false; overwrite = false }

abbrev alice : TenantBinding
alice = record {
  subject = "github:1";
  genome_username = "alice";
  bound_at = 5;
  bound_by = "operator";
  note = none;
}

abbrev with_alice : Registry
with_alice = record {
  bindings = alice ∷ [];
  identities = [];
  events =
      record {
        occurred_at = 5;
        action = "bind";
        subject = "github:1";
        genome_username = some "alice";
        actor = "operator";
        note = none;
      }
      ∷ [];
}

bind-alice : bind config 5 " github:1" "alice" options no_rows ≡ ok (alice, with_alice)
unfolding bind lookup strip upsert tenant_holder find write_binding
bind-alice = refl

bind-Bound_example : Bound config options " github:1" "alice" alice no_rows with_alice
bind-Bound_example =
    bind-Bound config 5 " github:1" "alice" options no_rows with_alice alice bind-alice

no_rows-IsExclusive : IsExclusive config 5 no_rows
unfolding lookup
no_rows-IsExclusive = record { apart = λ s t b c hb hc e. cc }

bind-IsExclusive_example : IsExclusive config 5 with_alice
bind-IsExclusive_example =
    bind-IsExclusive config 5 " github:1" "alice" options no_rows with_alice alice refl refl
      no_rows-IsExclusive bind-alice

abbrev same_text : String → String
same_text s = s

resolve_alice : resolve same_text config 6 (some "github:1 ") with_alice ≡ ok ("alice", with_alice)
unfolding resolve lookup strip
resolve_alice = refl

resolve-HasTenant_example :
    (is_nonempty (strip "github:1 ") ≡ true)
    × HasTenant config 6 same_text "github:1 " "alice" with_alice with_alice
    × ((s : String)
        → s ≢ strip "github:1 "
        → lookup s with_alice.bindings ≡ lookup s with_alice.bindings)
resolve-HasTenant_example =
    resolve-HasTenant config 6 same_text "github:1 " "alice" with_alice with_alice resolve_alice

resolve_bob : resolve same_text config 6 (some "github:2") with_alice ≡ err no_tenant
unfolding resolve lookup strip resolve_legacy
resolve_bob = refl

-- a text that tells some objects apart, in place of the JSON text
abbrev sample_dumps : Json → Option String
sample_dumps (obj (field key (str s) rest)) = some s
sample_dumps _ = some "json"

abbrev sample_metrics : Json
sample_metrics = obj (
    field "prediction_count" (int (pos 2)) (
      field "candidate_count" (int (pos 3)) (
        field "evaluable_count" (int (pos 2))
          (field "refuted_count" (int (pos 1)) (field "improving_count" (int (pos 1)) empty)))))

abbrev sample_diagnosis : Result DiagnosisError Diagnosis
sample_diagnosis = diagnose_improvement_opportunity sample_dumps same_text sample_metrics

abbrev sample_counts : Counts
sample_counts = record {
  prediction = 2;
  prediction_stage_applicable = true;
  candidate = 3;
  evaluable = 2;
  refuted = 1;
  improving = 1;
}

diagnosis_or : Diagnosis → Result DiagnosisError Diagnosis → Diagnosis
diagnosis_or d (ok e) = e
diagnosis_or d (err _) = d

abbrev found_diagnosis : Diagnosis
found_diagnosis =
    diagnosis_or
      (record { classification = fine; counts = sample_counts; body = empty; diagnosis_hash = "" })
      sample_diagnosis

diagnosed_sample : sample_diagnosis ≡ ok found_diagnosis
unfolding diagnose_improvement_opportunity get known_fields read_counts check_counts classify
    instrument_of instrument_hash content_hash diagnosis_or elem
diagnosed_sample = refl

diagnose_improvement_opportunity-IsGap_example :
    AreConsistent found_diagnosis.counts
    × IsGap found_diagnosis.counts found_diagnosis.classification
diagnose_improvement_opportunity-IsGap_example =
    diagnose_improvement_opportunity-IsGap sample_dumps same_text sample_metrics found_diagnosis
      diagnosed_sample

abbrev no_candidates_yet : ImprovementRegistry
no_candidates_yet = record {
  candidates = [];
  plans = [];
  evaluations = [];
  diagnoses = [];
  events = [];
}

abbrev draws : Draws
draws = record { row_id = "a"; event_id = "b"; row_time = 1; event_time = 2 }

abbrev texts : String → Json
texts s = arr (cons (str s) nil)

abbrev texts_object : String → Json
texts_object s = obj (field "count" (str s) empty)

abbrev sample_proposal : Proposal
sample_proposal = record {
  candidate_kind = "verifier";
  limitation_kind = "SEARCH_FAILURE";
  base_artifact = obj (field "v" (str "base") empty);
  candidate_artifact = obj (field "v" (str "new") empty);
  problem_statement = "the search is slow";
  rationale = "order the candidates";
  expected_benefit = "fewer evaluations";
  observed_failure_ids = none;
  known_risks = none;
  evidence = none;
  parent_candidate_id = none;
  created_by = "agent";
}

abbrev sample_plan : Json
sample_plan = obj (
    field "objective" (str "halve the evaluations") (
      field "metrics" (texts "count") (
        field "acceptance_gates" (obj (field "count" (str "10") empty))
          (field "anti_rescue_rules" (texts "no second try") empty))))

state_or :
    {A : Type 0}
    → ImprovementRegistry
    → Result RegistryError (A × ImprovementRegistry)
    → ImprovementRegistry
state_or r (ok (a, s)) = s
state_or r (err _) = r

abbrev with_candidate : ImprovementRegistry
with_candidate =
    state_or no_candidates_yet
      (create_candidate sample_dumps same_text draws sample_proposal no_candidates_yet)

abbrev with_plan : ImprovementRegistry
with_plan =
    state_or with_candidate
      (freeze_evaluation sample_dumps same_text draws "a" sample_plan "operator" with_candidate)

abbrev with_evaluation : ImprovementRegistry
with_evaluation = state_or with_plan (
    record_evaluation sample_dumps same_text draws "a" "orbita-improvement-candidate/1"
      "orbita-improvement-evaluation-plan/1" (texts_object "9") "survived" "operator" with_plan)

created_sample : Step sample_dumps same_text no_candidates_yet with_candidate
unfolding create_candidate freeze_evaluation record_evaluation candidate_body insert_candidate
    get_candidate plan_of candidate_of evaluation_of state_or get insert_event content_hash elem
    checked_object checked_plan short_text string_list validate_language_limit_evidence strip
    known_fields checked_text candidate_kinds limitation_kinds check_parent any
created_sample = created draws sample_proposal _ refl

later_steps : Steps sample_dumps same_text with_candidate with_evaluation
unfolding create_candidate freeze_evaluation record_evaluation candidate_body insert_candidate
    get_candidate plan_of candidate_of evaluation_of state_or get insert_event content_hash elem
    checked_object checked_plan short_text string_list validate_language_limit_evidence strip
    known_fields checked_text candidate_kinds limitation_kinds check_parent any
later_steps = next (froze draws "a" sample_plan "operator" _ refl) (
    next
      (evaluated draws "a" "orbita-improvement-candidate/1" "orbita-improvement-evaluation-plan/1"
        (texts_object "9") "survived" "operator" _ refl)
      done)

Steps-Keeps_example : Keeps with_candidate with_evaluation
Steps-Keeps_example = Steps-Keeps sample_dumps same_text later_steps

no_candidates_yet-AreFrozen : AreFrozen no_candidates_yet
unfolding evaluation_of
no_candidates_yet-AreFrozen = record { at = λ id e h. cc }

Steps-AreFrozen_example : AreFrozen with_evaluation
Steps-AreFrozen_example =
    Steps-AreFrozen sample_dumps same_text (next created_sample later_steps)
      no_candidates_yet-AreFrozen

abbrev deployment : Environment
deployment = record { encryption_ready = "no"; operator = ""; genome_username = " Ann " }

operator_allowed : ensure same_text (from_env same_text deployment) (some "Ann") ≡ ok tt
unfolding ensure from_env elem strip
operator_allowed = refl

ensure-IsOperator_example : IsOperator same_text deployment "Ann"
unfolding elem strip
ensure-IsOperator_example =
    ensure-IsOperator same_text same_text deployment "Ann" refl operator_allowed

abbrev audited : Result DiagnosisError Audit
audited =
    audit_observation_only_instrument sample_dumps same_text (obj (field "n" (str "probe") empty))
      (obj (field "n" (str "a") empty) ∷ []) (obj (field "n" (str "b") empty) ∷ []) none

audit_or : Audit → Result DiagnosisError Audit → Audit
audit_or a (ok b) = b
audit_or a (err e) = a

abbrev found_audit : Audit
found_audit =
    audit_or (record { mismatches = []; behavior_changed = false; body = empty; audit_hash = "" })
      audited

audited_sample : (audited ≡ ok found_audit) × (found_audit.behavior_changed ≡ true)
unfolding audit_observation_only_instrument instrument_of content_hash compare_behavior audit_or
audited_sample = (refl, refl)

audit-behavior_changed_iff_example : (found_audit.behavior_changed ≡ false) ↔ (
    map sample_dumps (obj (field "n" (str "a") empty) ∷ [])
    ≡ map sample_dumps (obj (field "n" (str "b") empty) ∷ []))
audit-behavior_changed_iff_example =
    audit-behavior_changed_iff sample_dumps same_text (obj (field "n" (str "probe") empty))
      (obj (field "n" (str "a") empty) ∷ []) (obj (field "n" (str "b") empty) ∷ []) none found_audit
      audited_sample.0
