-- ===== src/Epistemic/Links.antt =====
-- Every method that writes to the ledger keeps the references between its tables.
use mathlib.Core.List.{append-nil}
use orbita_agent_research_se.Epistemic.Commit.{commit_claim, check_commit}
use orbita_agent_research_se.Epistemic.Policy.{CommitPolicy}
use orbita_agent_research_se.Base.Json.{ℤ}
use orbita_agent_research_se.Epistemic.Descendants.{
  answer_or_fuel, descendants_of_evidence, revoke_evidence, deactivate, after_revocation,
}
use orbita_agent_research_se.Base.{
  none, some, Option, ok-result, ok-state, ◌∙◌, ℕ, suc, String, List, [], ◌∷◌, ◌++◌, map, Bool,
  true, ok, >>=-eq-ok, guard-ok, raise_if-ok, ◌≡◌, refl, subst, sym, eq_refl, elem, All, All-imp,
  All-append, arith, distinct, ok-state,
}
use orbita_agent_research_se.Base.Json.{Fields, Float}
use orbita_agent_research_se.Epistemic.Models.{ClaimStatus, Stance, EvidenceKind}
use orbita_agent_research_se.Epistemic.Tables.{
  Claim, Evidence, Attestation, Proof, ProofPremise, Contradiction, Db, has_claim, has_evidence,
  claim_ids, proof_ids,
}
use orbita_agent_research_se.Epistemic.Ledger.{
  Env, Actor, Content, require_claims, add_claim, add_evidence, attest, premise_rows, add_proof,
  add_contradiction, update_status, set_claim_status,
}
use orbita_agent_research_se.Epistemic.Integrity.{
  IsLinked, IsLinkedAttestation, IsLinkedPremise, IsLinkedContradiction,
}

-- No id of `db` is gone in `db'`.
record Grows (db db' : Db) : Type 0 where
  claims : (c : String) → has_claim db c ≡ true → has_claim db' c ≡ true
  evidence : (e : String) → has_evidence db e ≡ true → has_evidence db' e ≡ true
  proofs : (p : String) → elem p (proof_ids db) ≡ true → elem p (proof_ids db') ≡ true

module _ {db db' : Db} (grows : Grows db db') where
  attestations-grow :
      (xs : List Attestation) → All (IsLinkedAttestation db) xs → All (IsLinkedAttestation db') xs
  attestations-grow xs =
      All-imp (IsLinkedAttestation db) (IsLinkedAttestation db') xs
        λ a l. (grows.claims a.claim_id l.0, grows.evidence a.evidence_id l.1)

  proofs-grow :
      (xs : List Proof)
      → All (λ (p : Proof). has_claim db p.conclusion_claim_id ≡ true) xs
      → All (λ (p : Proof). has_claim db' p.conclusion_claim_id ≡ true) xs
  proofs-grow xs = All-imp _ _ xs λ p l. grows.claims p.conclusion_claim_id l

  premises-grow :
      (xs : List ProofPremise) → All (IsLinkedPremise db) xs → All (IsLinkedPremise db') xs
  premises-grow xs =
      All-imp (IsLinkedPremise db) (IsLinkedPremise db') xs
        λ r l. (grows.proofs r.proof_id l.0, grows.claims r.premise_claim_id l.1)

  contradictions-grow :
      (xs : List Contradiction)
      → All (IsLinkedContradiction db) xs
      → All (IsLinkedContradiction db') xs
  contradictions-grow xs =
      All-imp (IsLinkedContradiction db) (IsLinkedContradiction db') xs
        λ k l. (grows.claims k.claim_a l.0, grows.claims k.claim_b l.1)

elem-column_append {ℓ} :
    {A : Type ℓ} (f : A → String) (xs ys : List A) (c : String)
    → elem c (map f xs) ≡ true
    → elem c (map f (xs ++ ys)) ≡ true
unfolding elem
elem-column_append f [] ys c h = cc
elem-column_append f (x ∷ xs) ys c h = ground (arith, elem-column_append f xs ys c)

elem-column_last {ℓ} :
    {A : Type ℓ} (f : A → String) (xs : List A) (y : A) → elem (f y) (map f (xs ++ y ∷ [])) ≡ true
unfolding elem
elem-column_last f [] y = ground (arith, eq_refl (f y))
elem-column_last f (x ∷ xs) y = ground (arith, elem-column_last f xs y)

elem-update_status :
    (c id : String) (status : ClaimStatus) (now : String) (xs : List Claim)
    → elem c (map (λ (r : Claim). r.id) (update_status id status now xs))
      ≡ elem c (map (λ (r : Claim). r.id) xs)
unfolding elem update_status
elem-update_status c id status now [] = refl
elem-update_status c id status now (x ∷ xs) = ground (arith, elem-update_status c id status now xs)

-- Rows may be added at the end of each table, if what they name is there afterwards.
IsLinked-extend :
    {db db' : Db}
    → Grows db db'
    → (attestations : List Attestation) (proofs : List Proof) (premises : List ProofPremise)
      (contradictions : List Contradiction)
    → db'.attestations ≡ db.attestations ++ attestations
    → db'.proofs ≡ db.proofs ++ proofs
    → db'.proof_premises ≡ db.proof_premises ++ premises
    → db'.contradictions ≡ db.contradictions ++ contradictions
    → All (IsLinkedAttestation db') attestations
    → All (λ (p : Proof). has_claim db' p.conclusion_claim_id ≡ true) proofs
    → All (IsLinkedPremise db') premises
    → All (IsLinkedContradiction db') contradictions
    → IsLinked db
    → IsLinked db'
IsLinked-extend {db} {db'} grows ts ps qs ks ea ep eq ek la lp lq lk linked = record {
  attestations = subst (All (IsLinkedAttestation db')) (sym ea) (
      All-append _ db.attestations ts (attestations-grow grows db.attestations linked.attestations)
        la);
  proofs =
      subst (All (λ (p : Proof). has_claim db' p.conclusion_claim_id ≡ true)) (sym ep)
        (All-append _ db.proofs ps (proofs-grow grows db.proofs linked.proofs) lp);
  premises = subst (All (IsLinkedPremise db')) (sym eq) (
      All-append _ db.proof_premises qs (premises-grow grows db.proof_premises linked.premises) lq);
  contradictions = subst (All (IsLinkedContradiction db')) (sym ek) (
      All-append _ db.contradictions ks
        (contradictions-grow grows db.contradictions linked.contradictions) lk);
}

IsLinked-keep :
    {db db' : Db}
    → Grows db db'
    → db'.attestations ≡ db.attestations
    → db'.proofs ≡ db.proofs
    → db'.proof_premises ≡ db.proof_premises
    → db'.contradictions ≡ db.contradictions
    → IsLinked db
    → IsLinked db'
IsLinked-keep grows ea ep eq ek linked =
    IsLinked-extend grows [] [] [] [] (ea ∙ sym (append-nil _)) (ep ∙ sym (append-nil _))
      (eq ∙ sym (append-nil _)) (ek ∙ sym (append-nil _)) tt tt tt tt linked

abbrev stays :
    {db db' : Db}
    → db'.claims ≡ db.claims
    → db'.evidence ≡ db.evidence
    → db'.proofs ≡ db.proofs
    → Grows db db'
stays ec ee ep = record {
  claims = λ c m. rw ec m;
  evidence = λ e m. rw ee m;
  proofs = λ p m. rw ep m;
}

elem-deactivate :
    (c id : String) (xs : List Evidence)
    → elem c (map (λ (e : Evidence). e.id) (deactivate id xs))
      ≡ elem c (map (λ (e : Evidence). e.id) xs)
unfolding elem deactivate
elem-deactivate c id [] = refl
elem-deactivate c id (x ∷ xs) = ground (arith, elem-deactivate c id xs)

module _ (env : Env) (by : Actor) (db db' : Db) (linked : IsLinked db) where
  pub add_claim-IsLinked :
      (text type : String) (scope metadata : Fields) (id : String)
      → add_claim env by text type scope metadata db ≡ ok (id, db')
      → IsLinked db'
  unfolding add_claim
  add_claim-IsLinked text type scope metadata id h =
      let (nonempty, h1) = guard-ok _ _ _ h in
      let (fresh, h2) = raise_if-ok _ _ _ h1 in
      subst IsLinked (ok-state h2) (
        IsLinked-keep
          (record {
            claims = elem-column_append _ db.claims _;
            evidence = λ e m. m;
            proofs = λ p m. m;
          })
          refl refl refl refl linked)

  pub add_evidence-IsLinked :
      (encode : String → List ℕ) (sha256 : List ℕ → String) (uri excerpt : String)
      (kind : EvidenceKind) (key : String) (content : Content) (metadata : Fields) (id : String)
      → add_evidence encode sha256 env by uri excerpt kind key content metadata db ≡ ok (id, db')
      → IsLinked db'
  unfolding add_evidence
  add_evidence-IsLinked encode sha256 uri excerpt kind key content metadata id h =
      let (keyed, h1) = guard-ok _ _ _ h in
      let (fresh, h2) = raise_if-ok _ _ _ h1 in
      subst IsLinked (ok-state h2) (
        IsLinked-keep
          (record {
            claims = λ c m. m;
            evidence = elem-column_append _ db.evidence _;
            proofs = λ p m. m;
          })
          refl refl refl refl linked)

  pub attest-IsLinked :
      (claim_id evidence_id : String) (stance : Stance) (confidence : Float) (id : String)
      → attest env by claim_id evidence_id stance confidence db ≡ ok (id, db')
      → IsLinked db'
  unfolding attest
  attest-IsLinked claim_id evidence_id stance confidence id h =
      let (ranged, h1) = guard-ok _ _ _ h in
      let (claim_known, h2) = guard-ok _ _ _ h1 in
      let (evidence_known, h3) = guard-ok _ _ _ h2 in
      let (fresh, h4) = raise_if-ok _ _ _ h3 in
      subst IsLinked (ok-state h4) (
        IsLinked-extend (record { claims = λ c m. m; evidence = λ e m. m; proofs = λ p m. m })
          (_ ∷ []) [] [] [] refl (sym (append-nil _)) (sym (append-nil _)) (sym (append-nil _))
          ((claim_known, evidence_known), tt) tt tt tt linked)

  pub add_contradiction-IsLinked :
      (claim_a claim_b rationale : String) (id : String)
      → add_contradiction env by claim_a claim_b rationale db ≡ ok (id, db')
      → IsLinked db'
  unfolding add_contradiction
  add_contradiction-IsLinked claim_a claim_b rationale id h =
      let (different, h1) = raise_if-ok _ _ _ h in
      let (a_known, h2) = guard-ok _ _ _ h1 in
      let (b_known, h3) = guard-ok _ _ _ h2 in
      let (fresh, h4) = raise_if-ok _ _ _ h3 in
      subst IsLinked (ok-state h4) (
        IsLinked-extend (record { claims = λ c m. m; evidence = λ e m. m; proofs = λ p m. m }) [] []
          [] (_ ∷ []) (sym (append-nil _)) (sym (append-nil _)) (sym (append-nil _)) refl tt tt tt
          ((a_known, b_known), tt) linked)

  pub set_claim_status-IsLinked :
      (claim_id : String) (status : ClaimStatus) (rationale : String)
      → set_claim_status env by claim_id status rationale db ≡ ok db'
      → IsLinked db'
  unfolding set_claim_status
  set_claim_status-IsLinked claim_id status rationale h =
      let (known, h1) = guard-ok _ _ _ h in
      subst IsLinked (ok-result h1) (
        IsLinked-keep
          (record {
            claims = λ c m. elem-update_status c claim_id status (env.clock 0) db.claims ∙ m;
            evidence = λ e m. m;
            proofs = λ p m. m;
          })
          refl refl refl refl linked)

require_claims-Known :
    (db : Db) (ids : List String)
    → require_claims db ids ≡ ok tt
    → All (λ id. has_claim db id ≡ true) ids
unfolding require_claims
require_claims-Known db [] h = tt
require_claims-Known db (id ∷ ids) h =
    let (known, rest) = guard-ok _ _ _ h in (known, require_claims-Known db ids rest)

premise_rows-linked :
    (proofs claims : List String) (proof_id : String) (idx : ℕ) (premises : List String)
    → elem proof_id proofs ≡ true
    → All (λ id. elem id claims ≡ true) premises
    → All
        (λ (r : ProofPremise).
          (elem r.proof_id proofs ≡ true) × (elem r.premise_claim_id claims ≡ true))
        (premise_rows proof_id idx premises)
unfolding premise_rows
premise_rows-linked proofs claims proof_id idx [] there known = tt
premise_rows-linked proofs claims proof_id idx (q ∷ qs) there known =
    ((there, known.0), premise_rows-linked proofs claims proof_id (suc idx) qs there known.1)

pub add_proof-IsLinked :
    (env : Env) (by : Actor) (db db' : Db) (linked : IsLinked db) (conclusion : String)
    (premise_claim_ids : List String) (rule : String) (metadata : Fields) (id : String)
    → add_proof env by conclusion premise_claim_ids rule metadata db ≡ ok (id, db')
    → IsLinked db'
unfolding add_proof
add_proof-IsLinked env by db db' linked conclusion premise_claim_ids rule metadata id h =
    let (some_premise, h1) = raise_if-ok _ _ _ h in
    let (conclusion_known, h2) = guard-ok _ _ _ h1 in
    let (u, premises_known, h3) = >>=-eq-ok (require_claims db (distinct premise_claim_ids)) _ h2 in
    let (not_itself, h4) = raise_if-ok (elem conclusion (distinct premise_claim_ids)) _ _ h3 in
    let (fresh, h5) = raise_if-ok (elem env.fresh_id (proof_ids db)) _ _ h4 in
    let known = require_claims-Known db (distinct premise_claim_ids) premises_known in
    subst IsLinked (ok-state h5) (
      IsLinked-extend
        (record {
          claims = λ c m. m;
          evidence = λ e m. m;
          proofs = elem-column_append _ db.proofs _;
        })
        [] (_ ∷ []) (premise_rows env.fresh_id 0 (distinct premise_claim_ids)) []
        (sym (append-nil _)) refl refl (sym (append-nil _)) tt (conclusion_known, tt)
        (premise_rows-linked _ (claim_ids db) env.fresh_id 0 (distinct premise_claim_ids)
          (elem-column_last (λ (p : Proof). p.id) db.proofs _) known)
        tt linked)

pub revoke_evidence-IsLinked :
    (env : Env) (by : Actor) (db : Db) (evidence_id rationale : String)
    → IsLinked db
    → IsLinked (after_revocation env by evidence_id rationale db)
unfolding after_revocation
revoke_evidence-IsLinked env by db evidence_id rationale linked =
    IsLinked-keep
      (record {
        claims = λ c m. m;
        evidence = λ e m. elem-deactivate e evidence_id db.evidence ∙ m;
        proofs = λ p m. m;
      })
      refl refl refl refl linked

answer-state :
    (db : Db) (o : Option (List String)) {db' : Db} {affected : List String}
    → answer_or_fuel db o ≡ ok (affected, db')
    → db ≡ db'
unfolding answer_or_fuel
answer-state db none h = cc
answer-state db (some l) h = cc

pub revoke_evidence-ok-IsLinked :
    (env : Env) (by : Actor) (db db' : Db) (evidence_id rationale : String) (affected : List String)
    → IsLinked db
    → revoke_evidence env by evidence_id rationale db ≡ ok (affected, db')
    → IsLinked db'
unfolding revoke_evidence
revoke_evidence-ok-IsLinked env by db db' evidence_id rationale affected linked h =
    let (known, h1) = guard-ok (has_evidence db evidence_id) _ _ h in
    let left : Db = after_revocation env by evidence_id rationale db in
    subst IsLinked (answer-state left (descendants_of_evidence left evidence_id) h1)
      (revoke_evidence-IsLinked env by db evidence_id rationale linked)

pub commit_claim-IsLinked :
    (parse_int : String → Option ℤ) (policy : CommitPolicy) (env : Env) (by : Actor) (db db' : Db)
    (claim_id rationale : String) (override : Bool)
    → IsLinked db
    → commit_claim parse_int policy env by claim_id rationale override db ≡ ok db'
    → IsLinked db'
unfolding commit_claim
commit_claim-IsLinked parse_int policy env by db db' claim_id rationale override linked h =
    let (u, checked, h1) = >>=-eq-ok (check_commit parse_int policy by claim_id override db) _ h in
    subst IsLinked (ok-result h1) (
      IsLinked-keep
        (record {
          claims = λ c m.
              elem-update_status c claim_id ClaimStatus.committed (env.clock 0) db.claims ∙ m;
          evidence = λ e m. m;
          proofs = λ p m. m;
        })
        refl refl refl refl linked)
