-- ===== src/Epistemic/Descendants.antt =====
-- src/orbita/ledger.py: `descendants_of_claim`, `descendants_of_evidence` and `revoke_evidence`.
pub mod Reach
pub mod Ends
pub mod Answer
pub mod Revoke
use orbita_agent_research_se.Base.{
  ℕ, zero, suc, String, List, [], ◌∷◌, ◌++◌, map, Bool, false, ◌&&◌, Option, none, some, Result, ok,
  err, ◌>>◌, ◌==◌, elem, any, filter, distinct, length, if◌then◌else◌,
}
use orbita_agent_research_se.Base.Texts.{sorted}
use orbita_agent_research_se.Base.Json.{str, empty, field}
use orbita_agent_research_se.Epistemic.Tables.{Evidence, Attestation, Proof, ProofPremise, Db}
use orbita_agent_research_se.Epistemic.Ledger.{
  LedgerError, out_of_fuel, Env, Actor, insert_event, require_evidence,
}

-- `pp` is a premise of the proof `p`, and it is the claim `current`
abbrev pub is_premise : List ProofPremise → String → String → Bool
is_premise rows proof_id current =
    any (λ (pp : ProofPremise). pp.proof_id == proof_id && pp.premise_claim_id == current) rows

conclusions_from : List ProofPremise → String → List Proof → List String
conclusions_from rows current [] = []
conclusions_from rows current (p ∷ ps) =
    let rest = conclusions_from rows current ps in
    if p.active && is_premise rows p.id current then p.conclusion_claim_id ∷ rest else rest

-- the claims that an active proof concludes from `current`; what DISTINCT drops changes nothing
unfoldable pub children : Db → String → List String
unfolding conclusions_from
children db current = conclusions_from db.proof_premises current db.proofs

pub record Frontier : Type 0 where
  pub seen : List String
  pub queue : List String

-- `if child not in seen: seen.add(child); queue.append(child)`
unfoldable pub offer : String → Frontier → Frontier
offer child f =
    if elem child f.seen
    then f
    else record { seen = f.seen ++ child ∷ []; queue = f.queue ++ child ∷ [] }

-- the loop over the rows
unfoldable pub enqueue : List String → Frontier → Frontier
enqueue [] f = f
enqueue (child ∷ rows) f = enqueue rows (offer child f)

-- the `while queue` loop; `none` means that the fuel ran out
unfoldable pub search_loop : ℕ → Db → List String → List String → Option (List String)
search_loop fuel db seen [] = some seen
search_loop zero db seen (current ∷ queue) = none
search_loop (suc fuel) db seen (current ∷ queue) =
    let next = enqueue (children db current) (record { seen = seen; queue = queue }) in
    search_loop fuel db next.seen next.queue

-- A claim enters the queue once at most, as the conclusion of a proof.
abbrev pub search_fuel : Db → ℕ
search_fuel db = suc (length db.proofs)

unfoldable pub descendants_of_claim : Db → String → Option (List String)
unfolding search_loop
descendants_of_claim db claim_id = elim (search_loop (search_fuel db) db [] (claim_id ∷ [])) [
  | none ↦ none
  | some seen ↦ some (sorted seen)
]

-- `SELECT DISTINCT claim_id FROM attestations WHERE evidence_id = ?`
unfoldable pub attested_claims : Db → String → List String
attested_claims db evidence_id = distinct (
    map (λ (a : Attestation). a.claim_id)
      (filter (λ (a : Attestation). a.evidence_id == evidence_id) db.attestations))

-- `affected.update(...)` for each root
gather : Db → List String → List String → Option (List String)
unfolding descendants_of_claim
gather db [] affected = some affected
gather db (root ∷ roots) affected = elim (descendants_of_claim db root) [
  | none ↦ none
  | some below ↦ gather db roots (affected ++ below)
]

unfoldable pub descendants_of_evidence : Db → String → Option (List String)
unfolding gather attested_claims
descendants_of_evidence db evidence_id =
    let roots = attested_claims db evidence_id in
    elim (gather db roots roots) [ none ↦ none | some affected ↦ some (sorted (distinct affected)) ]

-- `UPDATE evidence SET active = 0 WHERE id = ?`
unfoldable pub deactivate : String → List Evidence → List Evidence
deactivate id [] = []
deactivate id (e ∷ es) = (if e.id == id then record e { active = false } else e) ∷ deactivate id es

unfoldable pub answer_or_fuel : Db → Option (List String) → Result LedgerError (List String × Db)
answer_or_fuel db none = err out_of_fuel
answer_or_fuel db (some affected) = ok (affected, db)

-- the database as `revoke_evidence` leaves it
unfoldable pub after_revocation : Env → Actor → String → String → Db → Db
unfolding insert_event
after_revocation env by evidence_id rationale db =
    insert_event "evidence" evidence_id "EVIDENCE_REVOKED" (field "rationale" (str rationale) empty)
      by (env.clock 0) (record db { evidence = deactivate evidence_id db.evidence })

unfoldable pub revoke_evidence :
    Env → Actor → String → String → Db → Result LedgerError (List String × Db)
unfolding after_revocation require_evidence answer_or_fuel
revoke_evidence env by evidence_id rationale db = do
  require_evidence db evidence_id
  let revoked = after_revocation env by evidence_id rationale db
  answer_or_fuel revoked (descendants_of_evidence revoked evidence_id)
