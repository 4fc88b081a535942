-- ===== src/Epistemic/Descendants/Revoke.antt =====
-- What `revoke_evidence` writes and answers.
use orbita_agent_research_se.Base.{
  All, filter, not, length, length-append, ◌+◌, false, String, List, [], ◌∷◌, ◌++◌, true, ◌≡◌, refl,
  subst, ◌↔◌, ◌⊎◌, inl, inr, some, elem, elem-append, distinct, elem-distinct, arith, eq_iff,
  eq_refl, Bool-cases, ◌==◌, ok,
}
use orbita_agent_research_se.Base.Texts.{sorted, elem-sorted}
use orbita_agent_research_se.Epistemic.Tables.{Db, has_evidence}
use orbita_agent_research_se.Epistemic.Descendants.{
  gather, attested_claims, descendants_of_evidence, Evidence, deactivate, revoke_evidence, Env,
  Actor, after_revocation,
}
use orbita_agent_research_se.Epistemic.Descendants.Reach.{Descends}
use orbita_agent_research_se.Epistemic.Descendants.Answer.{descendants_of_claim-exact}

-- `x` is one of the claims, or descends from one of them
abbrev pub Affected : Db → List String → String → Type 0
Affected db roots x =
    (elem x roots ≡ true) ⊎ ((r : String) × (elem r roots ≡ true) × Descends db r x)

abbrev Below : Db → List String → String → Type 0
Below db roots x = (r : String) × (elem r roots ≡ true) × Descends db r x

Below-cons :
    (db : Db) (root : String) (roots : List String) (x : String)
    → Below db (root ∷ roots) x ↔ (Descends db root x ⊎ Below db roots x)
unfolding elem
Below-cons db root roots x = (
  λ (r, m, d). elim (Bool-cases (r == root)) [
    | inl same ↦ inl (subst (λ z. Descends db z x) ((eq_iff r root).0 same) d)
    | inr other ↦ inr (r, ground arith, d)
  ],
  λ h. elim h [
    | inl d ↦ (root, ground (arith, eq_refl root), d)
    | inr (r, m, d) ↦ (r, ground arith, d)
  ],
)

gather-exact :
    (db : Db) (roots affected : List String)
    → (answer : List String) × (gather db roots affected ≡ some answer)
      × ((x : String) → (elem x answer ≡ true) ↔ ((elem x affected ≡ true) ⊎ Below db roots x))
unfolding gather elem
gather-exact db [] affected =
    (affected, refl, λ x. (inl, λ h. elim h [ inl m ↦ m | inr (r, m, d) ↦ cc ]))
gather-exact db (root ∷ roots) affected =
    let (below, e, exact) = descendants_of_claim-exact db root in
    let (answer, ends, all) = gather-exact db roots (affected ++ below) in
    (
      answer,
      rw (e, gather) ends,
      λ x.
          let appended = elem-append x affected below in
          (
            λ m. elim ((all x).0 m) [
              | inl a ↦ elim (Bool-cases (elem x affected)) [
                | inl old ↦ inl old
                | inr new ↦
                    inr (
                      (Below-cons db root roots x).1 (inl ((exact x).0 (ground (arith, appended)))))
              ]
              | inr b ↦ inr ((Below-cons db root roots x).1 (inr b))
            ],
            λ h. (all x).1 (elim h [
              | inl a ↦ inl (ground (arith, appended))
              | inr b ↦ elim ((Below-cons db root roots x).0 b) [
                | inl d ↦ let m = (exact x).1 d in inl (ground (arith, appended))
                | inr c ↦ inr c
              ]
            ]),
          ),
    )

descendants_of_evidence-exact :
    (db : Db) (evidence_id : String)
    → (answer : List String) × (descendants_of_evidence db evidence_id ≡ some answer)
      × ((x : String) → (elem x answer ≡ true) ↔ Affected db (attested_claims db evidence_id) x)
unfolding descendants_of_evidence
descendants_of_evidence-exact db evidence_id =
    let roots = attested_claims db evidence_id in
    let (affected, e, exact) = gather-exact db roots roots in
    (
      sorted (distinct affected),
      rw (e, descendants_of_evidence),
      λ x. (
        λ m. (exact x).0 (rw (elem-sorted, elem-distinct) at m),
        λ h. rw (elem-sorted, elem-distinct) ((exact x).1 h),
      ),
    )

abbrev pub Inactive : String → List Evidence → Type 0
Inactive id rows = All (λ (e : Evidence). e.id ≡ id → e.active ≡ false) rows

deactivate-Inactive : (id : String) (rows : List Evidence) → Inactive id (deactivate id rows)
unfolding deactivate
deactivate-Inactive id [] = tt
deactivate-Inactive id (e ∷ es) = (ground (arith, eq_iff e.id id), deactivate-Inactive id es)

-- the rows of the other evidence
abbrev pub others : String → List Evidence → List Evidence
others id rows = filter (λ (e : Evidence). not (e.id == id)) rows

others-deactivate :
    (id : String) (rows : List Evidence) → others id (deactivate id rows) ≡ others id rows
unfolding deactivate filter
others-deactivate id [] = refl
others-deactivate id (e ∷ es) = ground (arith, others-deactivate id es)

-- Revoking evidence that is in the ledger succeeds. Afterwards every row with its id is inactive,
-- the other evidence and the other tables of the ledger are as they were, one event is added, and
-- the answer holds exactly the claims that the evidence is attested for and those that descend
-- from one of them.
pub revoke_evidence-exact :
    (env : Env) (by : Actor) (evidence_id rationale : String) (db : Db)
    → has_evidence db evidence_id ≡ true
    → (answer : List String) × (db' : Db) × (revoke_evidence env by evidence_id rationale db
        ≡ ok (answer, db'))
      × ((x : String) → (elem x answer ≡ true) ↔ Affected db' (attested_claims db evidence_id) x)
      × Inactive evidence_id db'.evidence
      × (others evidence_id db'.evidence ≡ others evidence_id db.evidence)
      × (db'.claims ≡ db.claims)
      × (db'.attestations ≡ db.attestations)
      × (db'.proofs ≡ db.proofs)
      × (db'.proof_premises ≡ db.proof_premises)
      × (db'.contradictions ≡ db.contradictions)
      × (length db'.events ≡ length db.events + 1)
unfolding revoke_evidence attested_claims
revoke_evidence-exact env by evidence_id rationale db known =
    let revoked : Db = after_revocation env by evidence_id rationale db in
    let (answer, e, exact) = descendants_of_evidence-exact revoked evidence_id in
    (
      answer,
      revoked,
      rw (known, e),
      exact,
      deactivate-Inactive evidence_id db.evidence,
      others-deactivate evidence_id db.evidence,
      refl,
      refl,
      refl,
      refl,
      refl,
      length-append db.events _,
    )
