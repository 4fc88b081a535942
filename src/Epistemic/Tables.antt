-- ===== src/Epistemic/Tables.antt =====
-- src/orbita/db.py, the tables of the ledger. A row is a record, a JSON column the value that it
-- holds, and a table the list of its rows in the order of their insertion. `events.id` counts from
-- 1 and is the place of the event in its list.
use orbita_agent_research_se.Base.{String, ℕ, Bool, List, [], elem, map}
use orbita_agent_research_se.Base.Json.{Fields, Float}
use orbita_agent_research_se.Epistemic.Models.{ClaimStatus, Stance, EvidenceKind, ActorRole}

pub record Claim : Type 0 where
  pub id : String
  pub canonical_text : String
  pub claim_type : String
  pub status : ClaimStatus
  pub scope : Fields
  pub metadata : Fields
  pub created_at : String
  pub updated_at : String

pub record Evidence : Type 0 where
  pub id : String
  pub source_uri : String
  pub source_kind : EvidenceKind
  pub content_hash : String
  pub excerpt : String
  pub independence_key : String
  pub metadata : Fields
  pub active : Bool
  pub created_at : String

pub record Attestation : Type 0 where
  pub id : String
  pub claim_id : String
  pub evidence_id : String
  pub stance : Stance
  pub confidence : Float
  pub created_at : String

pub record Proof : Type 0 where
  pub id : String
  pub conclusion_claim_id : String
  pub rule : String
  pub metadata : Fields
  pub active : Bool
  pub created_at : String

pub record ProofPremise : Type 0 where
  pub proof_id : String
  pub premise_claim_id : String
  pub position : ℕ

pub record Contradiction : Type 0 where
  pub id : String
  pub claim_a : String
  pub claim_b : String
  pub rationale : String
  pub active : Bool
  pub created_at : String

pub record Event : Type 0 where
  pub entity_type : String
  pub entity_id : String
  pub event_type : String
  pub payload : Fields
  pub actor : String
  pub actor_role : ActorRole
  pub created_at : String

pub record Db : Type 0 where
  pub claims : List Claim
  pub evidence : List Evidence
  pub attestations : List Attestation
  pub proofs : List Proof
  pub proof_premises : List ProofPremise
  pub contradictions : List Contradiction
  pub events : List Event

abbrev pub empty_db : Db
empty_db = record {
  claims = [];
  evidence = [];
  attestations = [];
  proofs = [];
  proof_premises = [];
  contradictions = [];
  events = [];
}

abbrev pub claim_ids : Db → List String
claim_ids db = map (λ (c : Claim). c.id) db.claims

abbrev pub evidence_ids : Db → List String
evidence_ids db = map (λ (e : Evidence). e.id) db.evidence

abbrev pub proof_ids : Db → List String
proof_ids db = map (λ (p : Proof). p.id) db.proofs

-- `SELECT 1 FROM claims WHERE id = ?`
abbrev pub has_claim : Db → String → Bool
has_claim db id = elem id (claim_ids db)

abbrev pub has_evidence : Db → String → Bool
has_evidence db id = elem id (evidence_ids db)
