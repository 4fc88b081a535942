-- ===== src/Epistemic/Integrity.antt =====
-- The foreign keys of the ledger's tables in src/orbita/db.py, as a predicate on the database.
use orbita_agent_research_se.Base.{
  String, List, [], ◌∷◌, map, true, ◌≡◌, subst, sym, ◌==◌, eq_iff, elem, All, Bool-cases, inl, inr,
  arith,
}
use orbita_agent_research_se.Epistemic.Tables.{
  Attestation, Proof, ProofPremise, Contradiction, Db, has_claim, has_evidence, proof_ids,
}

abbrev pub IsLinkedAttestation : Db → Attestation → Type 0
IsLinkedAttestation db a = (has_claim db a.claim_id ≡ true) × (has_evidence db a.evidence_id ≡ true)

abbrev pub IsLinkedPremise : Db → ProofPremise → Type 0
IsLinkedPremise db pp =
    (elem pp.proof_id (proof_ids db) ≡ true) × (has_claim db pp.premise_claim_id ≡ true)

abbrev pub IsLinkedContradiction : Db → Contradiction → Type 0
IsLinkedContradiction db k = (has_claim db k.claim_a ≡ true) × (has_claim db k.claim_b ≡ true)

-- Every reference of a row names a row that is there.
pub record IsLinked (db : Db) : Type 0 where
  pub attestations : All (IsLinkedAttestation db) db.attestations
  pub proofs : All (λ (p : Proof). has_claim db p.conclusion_claim_id ≡ true) db.proofs
  pub premises : All (IsLinkedPremise db) db.proof_premises
  pub contradictions : All (IsLinkedContradiction db) db.contradictions

-- What holds of each field of the rows holds of each member of the column.
pub elem-column {ℓ} :
    {A : Type ℓ} (P : String → Type 0) (f : A → String) (xs : List A) (x : String)
    → All (λ a. P (f a)) xs
    → elem x (map f xs) ≡ true
    → P x
unfolding elem
elem-column P f [] x h m = cc
elem-column P f (a ∷ xs) x h m = elim (Bool-cases (x == f a)) [
  | inl same ↦ subst P (sym ((eq_iff x (f a)).0 same)) h.0
  | inr other ↦ elem-column P f xs x h.1 (ground arith)
]
