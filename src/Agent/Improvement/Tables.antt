-- ===== src/Agent/Improvement/Tables.antt =====
-- src/orbita_agent/improvement_registry.py: the tables of the registry and the lookups in them.
use orbita_agent_research_se.Base.{
  ℕ, String, List, [], ◌∷◌, ◌++◌, Option, none, some, Result, ok, err, if◌then◌else◌, ◌==◌,
}
use orbita_agent_research_se.Base.Json.{Fields}
use orbita_agent_research_se.Agent.Opportunity.{Diagnosis}
use orbita_agent_research_se.Agent.Improvement.Checks.{
  RegistryError, unknown_candidate, not_frozen, bad_diagnosis,
}

pub record Candidate : Type 0 where
  pub id : String
  pub body : Fields
  pub candidate_hash : String
  pub created_at : ℕ

pub record Plan : Type 0 where
  pub id : String
  pub candidate_id : String
  pub candidate_hash : String
  pub plan : Fields
  pub plan_hash : String
  pub frozen_by : String
  pub created_at : ℕ

pub record Evaluation : Type 0 where
  pub id : String
  pub candidate_id : String
  pub candidate_hash : String
  pub plan_id : String
  pub plan_hash : String
  pub result : Fields
  pub result_hash : String
  pub verdict : String
  pub evaluation_hash : String
  pub evaluated_by : String
  pub created_at : ℕ

pub record OpportunityDiagnosis : Type 0 where
  pub id : String
  pub candidate_id : String
  pub candidate_hash : String
  pub diagnosis : Diagnosis
  pub record_hash : String
  pub diagnosed_by : String
  pub created_at : ℕ

pub record Event : Type 0 where
  pub id : String
  pub candidate_id : String
  pub event_type : String
  pub actor : String
  pub detail : Fields
  pub created_at : ℕ

pub record Registry : Type 0 where
  pub candidates : List Candidate
  pub plans : List Plan
  pub evaluations : List Evaluation
  pub diagnoses : List OpportunityDiagnosis
  pub events : List Event

-- the identifiers and times that one call draws
pub record Draws : Type 0 where
  pub row_id : String
  pub event_id : String
  pub row_time : ℕ
  pub event_time : ℕ

-- `_event`
unfoldable pub insert_event : Draws → String → String → String → Fields → Registry → Registry
insert_event draws candidate_id event_type actor detail r = record r {
  events =
      r.events
      ++ record {
        id = draws.event_id;
        candidate_id = candidate_id;
        event_type = event_type;
        actor = actor;
        detail = detail;
        created_at = draws.event_time;
      }
        ∷ [];
}

-- the lookups of `get_candidate` and `_candidate_row`
unfoldable pub candidate_of : String → List Candidate → Option Candidate
candidate_of id [] = none
candidate_of id (c ∷ cs) = if c.id == id then some c else candidate_of id cs

unfoldable pub plan_of : String → List Plan → Option Plan
plan_of id [] = none
plan_of id (p ∷ ps) = if p.candidate_id == id then some p else plan_of id ps

unfoldable pub evaluation_of : String → List Evaluation → Option Evaluation
evaluation_of id [] = none
evaluation_of id (e ∷ es) = if e.candidate_id == id then some e else evaluation_of id es

abbrev pub or_unknown : Option Candidate → Result RegistryError Candidate
or_unknown none = err unknown_candidate
or_unknown (some c) = ok c

unfoldable pub get_candidate : String → Registry → Result RegistryError Candidate
unfolding candidate_of
get_candidate id r = or_unknown (candidate_of id r.candidates)

abbrev pub or_not_frozen : Option Plan → Result RegistryError Plan
or_not_frozen none = err not_frozen
or_not_frozen (some p) = ok p

abbrev pub or_bad_diagnosis {ℓ} : {X : Type 0} {A : Type ℓ} → Result X A → Result RegistryError A
or_bad_diagnosis (err e) = err bad_diagnosis
or_bad_diagnosis (ok a) = ok a
