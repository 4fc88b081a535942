-- ===== src/Epistemic/Steps.antt =====
-- The ledger as a state machine: what the methods that write may do, one after another.
use orbita_agent_research_se.Base.{Option, ℕ, String, List, Bool, true, ok, ◌≡◌}
use orbita_agent_research_se.Base.Json.{ℤ, Fields, Float}
use orbita_agent_research_se.Epistemic.Models.{ClaimStatus, Stance, EvidenceKind}
use orbita_agent_research_se.Epistemic.Policy.{CommitPolicy}
use orbita_agent_research_se.Epistemic.Tables.{Db, empty_db, has_claim}
use orbita_agent_research_se.Epistemic.Ledger.{
  Env, Actor, Content, add_claim, add_evidence, attest, add_proof, add_contradiction,
  set_claim_status,
}
use orbita_agent_research_se.Epistemic.Descendants.{revoke_evidence}
use orbita_agent_research_se.Epistemic.Commit.{commit_claim}
use orbita_agent_research_se.Epistemic.Integrity.{IsLinked}
use orbita_agent_research_se.Epistemic.Support.{SupportReport, evaluate}
use orbita_agent_research_se.Epistemic.Support.Total.{evaluate-Answers}
use orbita_agent_research_se.Epistemic.Links.{
  add_claim-IsLinked, add_evidence-IsLinked, attest-IsLinked, add_proof-IsLinked,
  add_contradiction-IsLinked, set_claim_status-IsLinked, revoke_evidence-ok-IsLinked,
  commit_claim-IsLinked,
}

module _ (encode : String → List ℕ) (sha256 : List ℕ → String) (parse_int : String → Option ℤ)
    (policy : CommitPolicy) where
  -- one call that returns, by whatever actor and at whatever time
  pub data Step (db db' : Db) : Type 0 where
    added_claim :
        (env : Env) (by : Actor) (text type : String) (scope metadata : Fields) (id : String)
        → add_claim env by text type scope metadata db ≡ ok (id, db')
        → Step db db'
    added_evidence :
        (env : Env) (by : Actor) (uri excerpt : String) (kind : EvidenceKind) (key : String)
        (content : Content) (metadata : Fields) (id : String)
        → add_evidence encode sha256 env by uri excerpt kind key content metadata db ≡ ok (id, db')
        → Step db db'
    attested :
        (env : Env) (by : Actor) (claim_id evidence_id : String) (stance : Stance)
        (confidence : Float) (id : String)
        → attest env by claim_id evidence_id stance confidence db ≡ ok (id, db')
        → Step db db'
    added_proof :
        (env : Env) (by : Actor) (conclusion : String) (premises : List String) (rule : String)
        (metadata : Fields) (id : String)
        → add_proof env by conclusion premises rule metadata db ≡ ok (id, db')
        → Step db db'
    added_contradiction :
        (env : Env) (by : Actor) (claim_a claim_b rationale id : String)
        → add_contradiction env by claim_a claim_b rationale db ≡ ok (id, db')
        → Step db db'
    revoked :
        (env : Env) (by : Actor) (evidence_id rationale : String) (affected : List String)
        → revoke_evidence env by evidence_id rationale db ≡ ok (affected, db')
        → Step db db'
    committed :
        (env : Env) (by : Actor) (claim_id rationale : String) (override : Bool)
        → commit_claim parse_int policy env by claim_id rationale override db ≡ ok db'
        → Step db db'
    set_status :
        (env : Env) (by : Actor) (claim_id : String) (status : ClaimStatus) (rationale : String)
        → set_claim_status env by claim_id status rationale db ≡ ok db'
        → Step db db'

  pub data Reach : Db → Type 0 where
    start : Reach empty_db
    next : {db db' : Db} → Reach db → Step db db' → Reach db'

  pub Step-IsLinked : {db db' : Db} → Step db db' → IsLinked db → IsLinked db'
  Step-IsLinked {db} {db'} (added_claim env by text type scope metadata id h) linked =
      add_claim-IsLinked env by db db' linked text type scope metadata id h
  Step-IsLinked {db} {db'} (added_evidence env by uri excerpt kind key content metadata id h)
        linked =
      add_evidence-IsLinked env by db db' linked encode sha256 uri excerpt kind key content metadata
        id h
  Step-IsLinked {db} {db'} (attested env by claim_id evidence_id stance confidence id h) linked =
      attest-IsLinked env by db db' linked claim_id evidence_id stance confidence id h
  Step-IsLinked {db} {db'} (added_proof env by conclusion premises rule metadata id h) linked =
      add_proof-IsLinked env by db db' linked conclusion premises rule metadata id h
  Step-IsLinked {db} {db'} (added_contradiction env by claim_a claim_b rationale id h) linked =
      add_contradiction-IsLinked env by db db' linked claim_a claim_b rationale id h
  Step-IsLinked {db} {db'} (revoked env by evidence_id rationale affected h) linked =
      revoke_evidence-ok-IsLinked env by db db' evidence_id rationale affected linked h
  Step-IsLinked {db} {db'} (committed env by claim_id rationale override h) linked =
      commit_claim-IsLinked parse_int policy env by db db' claim_id rationale override linked h
  Step-IsLinked {db} {db'} (set_status env by claim_id status rationale h) linked =
      set_claim_status-IsLinked env by db db' linked claim_id status rationale h

  -- In every ledger that the methods build from an empty one, each reference of a row names a row
  -- that is there.
  pub Reach-IsLinked : {db : Db} → Reach db → IsLinked db
  Reach-IsLinked start = record {
    attestations = tt;
    proofs = tt;
    premises = tt;
    contradictions = tt;
  }
  Reach-IsLinked (next r s) = Step-IsLinked s (Reach-IsLinked r)

  -- In every such ledger the support engine reports on each claim.
  pub Reach-evaluates :
      {db : Db} (c : String)
      → Reach db
      → has_claim db c ≡ true
      → (r : SupportReport) × (evaluate policy db c ≡ ok r)
  Reach-evaluates {db} c reached known = evaluate-Answers policy db c (Reach-IsLinked reached) known
