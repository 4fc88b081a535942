-- ===== src/Epistemic/Ledger.antt =====
-- src/orbita/ledger.py, `EpistemicLedger`: the methods that write, but for `commit_claim`, which
-- stands in `Commit` behind the support engine. A method returns its answer and the new database,
-- or raises and leaves the database alone: each one reads and checks before its first write, and
-- a statement that breaks a key writes nothing. What `uuid4` and the clock answer is `Env`.
use orbita_agent_research_se.Base.{
  ℕ, suc, String, List, [], ◌∷◌, ◌++◌, map, Bool, true, ◌&&◌, ◌||◌, Result, ok, ◌>>◌, guard,
  raise_if, ◌==◌, elem, any, is_empty, distinct, if◌then◌else◌,
}
use orbita_agent_research_se.Base.Texts.{strip, is_nonempty}
use orbita_agent_research_se.Base.Json.{
  ℤ, Json, Items, nil, cons, str, arr, obj, Fields, empty, field, Float, in_unit_interval,
}
use orbita_agent_research_se.Epistemic.Models.{
  ClaimStatus, Stance, stance_eq, stance_value, EvidenceKind, kind_value, ActorRole, status_upper,
}
use orbita_agent_research_se.Epistemic.Tables.{
  Claim, Attestation, ProofPremise, Contradiction, Db, has_claim, has_evidence, proof_ids,
}
use Prim.Native.String

pub data LedgerError : Type 0 where
  empty_text no_independence_key confidence_range no_premises self_proof self_contradiction :
      LedgerError
  unknown_claim unknown_evidence : String → LedgerError
  cannot_commit : ActorRole → String → LedgerError
  not_supported : List String → LedgerError
  needs_replication : ℕ → ℤ → LedgerError
  -- `int(...)` of the metadata raised
  bad_minimum : LedgerError
  -- sqlite3.IntegrityError
  integrity : LedgerError
  out_of_fuel : LedgerError

-- the id that `new_id` makes, and what the successive reads of the clock answer
pub record Env : Type 0 where
  pub fresh_id : String
  pub clock : ℕ → String

pub record Actor : Type 0 where
  pub name : String
  pub role : ActorRole

abbrev pub one_field : String → Json → Fields → Fields
one_field k v rest = field k v rest

items_of : List String → Items
items_of [] = nil
items_of (x ∷ xs) = cons (str x) (items_of xs)

-- `_event`
unfoldable pub insert_event : String → String → String → Fields → Actor → String → Db → Db
insert_event entity_type entity_id event_type payload by now db = record db {
  events =
      db.events
      ++ record {
        entity_type = entity_type;
        entity_id = entity_id;
        event_type = event_type;
        payload = payload;
        actor = by.name;
        actor_role = by.role;
        created_at = now;
      }
        ∷ [];
}

-- `_require_claim`, `_require_evidence`
unfoldable pub require_claim : Db → String → Result LedgerError (Unit {0})
require_claim db id = guard (has_claim db id) (unknown_claim id)

unfoldable pub require_evidence : Db → String → Result LedgerError (Unit {0})
require_evidence db id = guard (has_evidence db id) (unknown_evidence id)

unfoldable pub require_claims : Db → List String → Result LedgerError (Unit {0})
unfolding require_claim
require_claims db [] = ok tt
require_claims db (id ∷ ids) = let rest = require_claims db ids in do require_claim db id; rest

unfoldable pub add_claim :
    Env → Actor → String → String → Fields → Fields → Db → Result LedgerError (String × Db)
unfolding insert_event
add_claim env by canonical_text claim_type scope metadata db = do
  guard (is_nonempty (strip canonical_text)) empty_text
  raise_if (has_claim db env.fresh_id) integrity
  let inserted = record db {
    claims =
        db.claims
        ++ record {
          id = env.fresh_id;
          canonical_text = strip canonical_text;
          claim_type = claim_type;
          status = ClaimStatus.provisional;
          scope = scope;
          metadata = metadata;
          created_at = env.clock 0;
          updated_at = env.clock 0;
        }
          ∷ [];
  }
  ok (
    env.fresh_id,
    insert_event "claim" env.fresh_id "CLAIM_PROPOSED"
        (field "canonical_text" (str canonical_text)
          (field "claim_type" (str claim_type) (field "scope" (obj scope) empty)))
        by (env.clock 1) inserted,
  )

-- `content: str | bytes | None`
pub data Content : Type 0 where
  absent : Content
  of_text : String → Content
  of_bytes : List ℕ → Content

-- `encode` is `str.encode("utf-8")` and `sha256` the digest in hexadecimal
abbrev raw_bytes : (String → List ℕ) → String → Content → List ℕ
raw_bytes encode excerpt absent = encode excerpt
raw_bytes encode excerpt (of_text s) = encode s
raw_bytes encode excerpt (of_bytes b) = b

unfoldable pub add_evidence :
    (encode : String → List ℕ) (sha256 : List ℕ → String)
    → Env
    → Actor
    → String
    → String
    → EvidenceKind
    → String
    → Content
    → Fields
    → Db
    → Result LedgerError (String × Db)
unfolding insert_event
add_evidence encode sha256 env by source_uri excerpt source_kind independence_key content metadata
      db =
    do
      guard (is_nonempty (strip independence_key)) no_independence_key
      let digest = sha256 (raw_bytes encode excerpt content)
      raise_if (has_evidence db env.fresh_id) integrity
      let inserted = record db {
        evidence =
            db.evidence
            ++ record {
              id = env.fresh_id;
              source_uri = source_uri;
              source_kind = source_kind;
              content_hash = digest;
              excerpt = excerpt;
              independence_key = independence_key;
              metadata = metadata;
              active = true;
              created_at = env.clock 0;
            }
              ∷ [];
      }
      ok (
        env.fresh_id,
        insert_event "evidence" env.fresh_id "EVIDENCE_ADDED"
            (field "source_uri" (str source_uri) (
              field "source_kind" (str (kind_value source_kind)) (
                field "independence_key" (str independence_key)
                  (field "content_hash" (str digest) empty))))
            by (env.clock 1) inserted,
      )

-- the keys of `attestations`: the id, and UNIQUE(claim_id, evidence_id, stance)
abbrev pub same_attestation : String → String → String → Stance → Attestation → Bool
same_attestation id claim_id evidence_id stance a =
    a.id == id
    || a.claim_id == claim_id && a.evidence_id == evidence_id && stance_eq a.stance stance

unfoldable pub attest :
    Env → Actor → String → String → Stance → Float → Db → Result LedgerError (String × Db)
unfolding insert_event require_claim require_evidence
attest env by claim_id evidence_id stance confidence db = do
  guard (in_unit_interval confidence) confidence_range
  require_claim db claim_id
  require_evidence db evidence_id
  raise_if (any (same_attestation env.fresh_id claim_id evidence_id stance) db.attestations)
      integrity
  let inserted = record db {
    attestations =
        db.attestations
        ++ record {
          id = env.fresh_id;
          claim_id = claim_id;
          evidence_id = evidence_id;
          stance = stance;
          confidence = confidence;
          created_at = env.clock 0;
        }
          ∷ [];
  }
  ok (
    env.fresh_id,
    insert_event "claim" claim_id "ATTESTATION_ADDED"
        (field "attestation_id" (str env.fresh_id) (
          field "evidence_id" (str evidence_id) (field "stance" (str (stance_value stance)) empty)))
        by (env.clock 1) inserted,
  )

-- `[(proof_id, premise, idx) for idx, premise in enumerate(premises)]`
unfoldable pub premise_rows : String → ℕ → List String → List ProofPremise
premise_rows proof_id idx [] = []
premise_rows proof_id idx (premise ∷ rest) =
    record { proof_id = proof_id; premise_claim_id = premise; position = idx }
    ∷ premise_rows proof_id (suc idx) rest

unfoldable pub add_proof :
    Env → Actor → String → List String → String → Fields → Db → Result LedgerError (String × Db)
unfolding insert_event require_claim require_claims items_of
add_proof env by conclusion premise_claim_ids rule metadata db = do
  let premises = distinct premise_claim_ids
  raise_if (is_empty premises) no_premises
  require_claim db conclusion
  require_claims db premises
  raise_if (elem conclusion premises) self_proof
  raise_if (elem env.fresh_id (proof_ids db)) integrity
  let inserted = record db {
    proofs =
        db.proofs
        ++ record {
          id = env.fresh_id;
          conclusion_claim_id = conclusion;
          rule = rule;
          metadata = metadata;
          active = true;
          created_at = env.clock 0;
        }
          ∷ [];
    proof_premises = db.proof_premises ++ premise_rows env.fresh_id 0 premises;
  }
  ok (
    env.fresh_id,
    insert_event "claim" conclusion "PROOF_ADDED"
        (field "proof_id" (str env.fresh_id)
          (field "premises" (arr (items_of premises)) (field "rule" (str rule) empty)))
        by (env.clock 1) inserted,
  )

abbrev link_payload : String → String → String → Fields
link_payload id other rationale =
    field "contradiction_id" (str id)
      (field "other_claim_id" (str other) (field "rationale" (str rationale) empty))

unfoldable pub add_contradiction :
    Env → Actor → String → String → String → Db → Result LedgerError (String × Db)
unfolding insert_event require_claim
add_contradiction env by claim_a claim_b rationale db = do
  raise_if (claim_a == claim_b) self_contradiction
  require_claim db claim_a
  require_claim db claim_b
  raise_if (elem env.fresh_id (map (λ (c : Contradiction). c.id) db.contradictions)) integrity
  let inserted = record db {
    contradictions =
        db.contradictions
        ++ record {
          id = env.fresh_id;
          claim_a = claim_a;
          claim_b = claim_b;
          rationale = rationale;
          active = true;
          created_at = env.clock 0;
        }
          ∷ [];
  }
  let first =
      insert_event "claim" claim_a "CONTRADICTION_LINKED"
        (link_payload env.fresh_id claim_b rationale) by (env.clock 1) inserted
  ok (
    env.fresh_id,
    insert_event "claim" claim_b "CONTRADICTION_LINKED"
        (link_payload env.fresh_id claim_a rationale) by (env.clock 2) first,
  )

-- `UPDATE claims SET status = ?, updated_at = ? WHERE id = ?`
unfoldable pub update_status : String → ClaimStatus → String → List Claim → List Claim
update_status id status now [] = []
update_status id status now (c ∷ cs) =
    (if c.id == id then record c { status = status; updated_at = now } else c)
    ∷ update_status id status now cs

unfoldable pub set_claim_status :
    Env → Actor → String → ClaimStatus → String → Db → Result LedgerError Db
unfolding insert_event require_claim
set_claim_status env by claim_id status rationale db = do
  require_claim db claim_id
  let updated = record db { claims = update_status claim_id status (env.clock 0) db.claims }
  ok (
      insert_event "claim" claim_id (Prim.Native.String.◌++◌ "CLAIM_" (status_upper status))
        (field "rationale" (str rationale) empty) by (env.clock 1) updated)
